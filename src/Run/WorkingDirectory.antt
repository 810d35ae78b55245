-- ===== src/Run/WorkingDirectory.antt =====
-- A working directory, a clone of the benchmarked repository, with its status file:
-- evobench-tools/src/run/working_directory.rs. What it calls of git and of the file system is an interface.
pub mod Cleanup
pub mod Checkout
pub mod Saving
use evobench.Prelude.{
  ℕ, ◌+◌, ◌-◌, ◌*◌, ◌^◌, Bool, true, false, not, ◌&&◌, ◌||◌, Option, none, some, List, [], ◌∷◌, ltb,
  leb, ◌==◌, if◌then◌else◌,
}
use Prim.Native.Nat.{Ordering, compare}
use evobench.Prelude.Bytes.{Bytes, codes, same}
use evobench.Prelude.Outcome.{
  Outcome, ok, err, panic, Act, pure, fail, crash, or_fail, or_crash, map_err, ◌>>=◌, ◌>>◌,
}
use evobench.SerdeTypes.GitHash
use evobench.Run.Job.{BenchmarkingJobParameters}
use evobench.Prelude.Local.{outside, get, modify}

pub record WorkingDirectoryAutoCleanOpts : Type 0 where
  pub min_age_days : ℕ
  pub min_num_runs : ℕ
  pub wait_until_commit_done : Bool

pub data Status : Type 0 where
  checked_out processing error finished examination : Status

unfoldable pub score : Status → ℕ
score checked_out = 1
score processing = 2
score error = 3
score finished = 4
score examination = 5

-- Whether the daemon is allowed to use the directory.
abbrev pub can_be_used_for_jobs : Status → Bool
can_be_used_for_jobs checked_out = true
can_be_used_for_jobs processing = true
can_be_used_for_jobs error = false
can_be_used_for_jobs finished = true
can_be_used_for_jobs examination = false

abbrev pub max_str_len : ℕ
max_str_len = 11

unfoldable pub as_str : Status → Bytes
as_str checked_out = codes "checked-out"
as_str processing = codes "processing"
as_str error = codes "error"
as_str finished = codes "finished"
as_str examination = codes "examination"

-- `Ord for Status`
unfoldable pub cmp : Status → Status → Ordering
unfolding score
cmp a b = compare (score a) (score b)

-- The derived equality.
abbrev pub same_status : Status → Status → Bool
same_status checked_out checked_out = true
same_status processing processing = true
same_status error error = true
same_status finished finished = true
same_status examination examination = true
same_status _ _ = false

pub record WorkingDirectoryStatus : Type 0 where
  pub creation_timestamp : Bytes
  pub num_runs : ℕ
  pub status : Status

pub data PoolError (E : Type 0) : Type 0 where
  host : E → PoolError E
  no_extension bad_git_hash age_negative inconsistent must_still_exist no_id : PoolError E
  set_aside : Status → PoolError E

-- What is saved beside a working directory whose processing failed.
pub record ProcessingError (E : Type 0) : Type 0 where
  pub benchmarking_job_parameters : Option BenchmarkingJobParameters
  pub context : Bytes
  pub error_value : PoolError E

-- An entry of a directory; it has no file name where that is not unicode.
pub record DirEntry : Type 0 where
  pub file_name : Option Bytes
  pub is_dir : Bool
  pub entry_path : Bytes

-- What is called outside of this repository, and the errors of that: the clocks, the status files,
-- the crate run-git, and the operating system. `to_systemtime` is none where the text is no date,
-- `metadata` and `read_link` are none where there is no such file, and `remove_file` is then false.
pub record Host (W E : Type 0) : Type 0 where
  pub lock_exclusive : Act W E (Unit {0})
  pub now : Act W E ℕ
  pub now_with_offset : Act W E Bytes
  pub to_systemtime : Bytes → Option ℕ
  pub add_extension : Bytes → Bytes → Option Bytes
  pub append : Bytes → Bytes → Bytes
  pub metadata : Bytes → Act W E (Option ℕ)
  pub load_ron_file : Bytes → Act W E WorkingDirectoryStatus
  pub ron_to_file_pretty : WorkingDirectoryStatus → Bytes → Act W E (Unit {0})
  pub set_executable : Bytes → Act W E (Unit {0})
  pub send_signal : Act W E (Unit {0})
  pub git_clone : Bytes → Bytes → Bytes → Act W E Bytes
  pub get_head_commit_id : Bytes → Act W E Bytes
  pub get_url : Bytes → Act W E Bytes
  pub set_url : Bytes → Bytes → Act W E (Unit {0})
  pub fetch_references : Bytes → Bool → List Bytes → Act W E (Unit {0})
  pub contains_reference : Bytes → Bytes → Act W E Bool
  pub git_reset_hard : Bytes → Bytes → Act W E (Unit {0})
  pub read_link : Bytes → Act W E (Option Bytes)
  pub symlink : Bytes → Bytes → Act W E (Unit {0})
  pub remove_file : Bytes → Act W E Bool
  pub remove_dir_all : Bytes → Act W E (Unit {0})
  pub read_dir : Bytes → Act W E (List DirEntry)
  pub to_yaml : ProcessingError E → Act W E Bytes
  pub write : Bytes → Bytes → Act W E (Unit {0})

pub record WorkingDirectory : Type 0 where
  pub path : Bytes
  pub commit : Option Bytes
  pub working_directory_status : WorkingDirectoryStatus
  pub needs_saving : Bool
  pub last_use : ℕ
  pub signal_change : Bool

pub data FetchedTags : Type 0 where
  not_fetched fetched : FetchedTags

pub data FetchTags : Type 0 where
  when_missing_commit always : FetchTags

abbrev pub status_of : WorkingDirectory → Status
status_of wd = wd.working_directory_status.status

abbrev pub is_active : WorkingDirectory → Bool
is_active wd = can_be_used_for_jobs (status_of wd)

abbrev pub with_status : Status → WorkingDirectory → WorkingDirectory
with_status status wd = record wd {
  working_directory_status = record (wd.working_directory_status) { status = status };
}

abbrev pub with_num_runs : ℕ → WorkingDirectory → WorkingDirectory
with_num_runs n wd = record wd {
  working_directory_status = record (wd.working_directory_status) { num_runs = n };
}

is_always : FetchTags → Bool
is_always when_missing_commit = false
is_always always = true

-- What is fetched besides the tags.
abbrev pub references : Option Bytes → List Bytes
references none = []
references (some commit_id) = GitHash.to_string commit_id ∷ []

module _ {W E : Type 0} (on : Host W E) where
  -- A call of the host.
  abbrev pub call : {S A : Type 0} → Act W E A → Act (S × W) (PoolError E) A
  call m = outside (map_err m host)

  unfoldable pub now_status : {S : Type 0} → Act (S × W) (PoolError E) WorkingDirectoryStatus
  now_status = do
    creation ← call on.now_with_offset
    pure (record { creation_timestamp = creation; num_runs = 0; status = checked_out })

  unfoldable pub status_path : {S : Type 0} → Bytes → Act (S × W) (PoolError E) Bytes
  status_path path = or_fail (on.add_extension path (codes "status")) no_extension

  signal : {S : Type 0} → Bool → Act (S × W) (PoolError E) (Unit {0})
  signal given = if given then call on.send_signal else pure tt

  -- The status file is written, made executable where it says that the directory is set aside, and
  -- the change is signalled.
  save : Act (WorkingDirectory × W) (PoolError E) (Unit {0})
  unfolding status_path signal
  save = do
    wd ← get
    path ← status_path wd.path
    call (on.ron_to_file_pretty wd.working_directory_status path)
    (if is_active wd then pure tt else call (on.set_executable path))
    signal wd.signal_change

  count_run : Status → Act (WorkingDirectory × W) (PoolError E) (Unit {0})
  count_run processing = do
    wd ← get
    (if leb (2 ^ 64) (wd.working_directory_status.num_runs + 1)
        then crash
        else modify (with_num_runs (wd.working_directory_status.num_runs + 1)))
  count_run status = pure tt

  -- The directory as it was before tells whether the status changes.
  save_changed : Status → WorkingDirectory → Act (WorkingDirectory × W) (PoolError E) (Unit {0})
  unfolding save count_run
  save_changed status old =
      if same_status (status_of old) status
      then (if old.needs_saving then save else pure tt)
      else (do count_run status; save)

  unfoldable pub set_and_save_status : Status → Act (WorkingDirectory × W) (PoolError E) (Unit {0})
  unfolding save_changed
  set_and_save_status status = do
    wd ← get
    modify (with_status status)
    save_changed status wd
    modify (λ wd'. record wd' { needs_saving = false })

  -- A directory that was just made, with its status saved.
  abbrev pub save_new : Status → Act (WorkingDirectory × W) (PoolError E) WorkingDirectory
  save_new status = do set_and_save_status status; get

  noncached_commit : {S : Type 0} → Bytes → Act (S × W) (PoolError E) Bytes
  noncached_commit path = do
    head ← call (on.get_head_commit_id path)
    or_fail (GitHash.from_str head) bad_git_hash

  known_or_asked : Bytes → Option Bytes → Act (WorkingDirectory × W) (PoolError E) Bytes
  unfolding noncached_commit
  known_or_asked path (some c) = pure c
  known_or_asked path none = do
    c ← noncached_commit path
    modify (λ wd. record wd { commit = some c })
    pure c

  -- The commit, asked of git if it is not known yet.
  unfoldable pub commit_at : Act (WorkingDirectory × W) (PoolError E) Bytes
  unfolding known_or_asked
  commit_at = do wd ← get; known_or_asked wd.path wd.commit

  unfoldable pub fetch : Option Bytes → Act (WorkingDirectory × W) (PoolError E) FetchedTags
  fetch commit_id = do
    wd ← get
    call (on.fetch_references wd.path true (references commit_id))
    pure fetched

  -- The directory is on the commit already.
  already_on : Bytes → Bool → Act (WorkingDirectory × W) (PoolError E) FetchedTags
  unfolding commit_at fetch
  already_on commit fetch_tags_always = do
    known ← commit_at
    (if same known commit
        then (if fetch_tags_always then fetch (some commit) else pure not_fetched)
        else fail inconsistent)

  fetch_missing : Bytes → Bool → Act (WorkingDirectory × W) (PoolError E) FetchedTags
  unfolding fetch
  fetch_missing commit fetch_tags_always = if fetch_tags_always then fetch (some commit) else (do
    wd ← get
    there ← call (on.contains_reference wd.path (GitHash.to_string commit))
    (if there then pure not_fetched else fetch (some commit)))

  move_to : Bytes → Bool → Act (WorkingDirectory × W) (PoolError E) FetchedTags
  unfolding fetch_missing set_and_save_status
  move_to commit fetch_tags_always = do
    ran_fetch ← fetch_missing commit fetch_tags_always
    wd ← get
    call (on.git_reset_hard wd.path (GitHash.to_string commit))
    modify (λ wd'. record wd' { commit = some commit })
    set_and_save_status checked_out
    pure ran_fetch

  unfoldable pub checkout : Bytes → FetchTags → Act (WorkingDirectory × W) (PoolError E) FetchedTags
  unfolding already_on move_to is_always
  checkout commit fetch_tags = do
    wd ← get
    current_commit ← call (on.get_head_commit_id wd.path)
    (if same current_commit (GitHash.to_string commit)
        then already_on commit (is_always fetch_tags)
        else move_to commit (is_always fetch_tags))
