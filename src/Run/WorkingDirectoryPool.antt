-- ===== src/Run/WorkingDirectoryPool.antt =====
-- The pool of working directories, evobench-tools/src/run/working_directory_pool.rs: its entries by identifier,
-- and the choice, creation and deletion of directories. Opening and processing are in the children.
pub mod Id
pub mod Best
pub mod Choice
pub mod Entries
pub mod Invariant
pub mod OnEntry
pub mod Open
pub mod Process
pub mod Reach
pub mod Scan
use evobench.Prelude.{
  ℕ, ◌+◌, ◌^◌, Bool, true, false, not, Option, none, some, List, [], ◌∷◌, ltb, leb, ◌==◌,
  if◌then◌else◌, length, keep,
}
use Prim.Native.Nat.{Ordering, compare}
use mathlib.Core.Option
use evobench.Prelude.Bytes.{Bytes, codes, same}
use evobench.Prelude.Outcome.{
  Outcome, ok, err, panic, Act, pure, fail, crash, or_fail, or_crash, ◌>>=◌, ◌>>◌,
}
use evobench.Prelude.Local.{outside, get, modify, zoom}
use evobench.Run.Job
use evobench.Run.Job.{RunParameters}
use evobench.Run.RunQueues.Data.{RunQueuesData, have_job_with_commit_id}
use evobench.Run.WorkingDirectory
use evobench.SerdeTypes.GitHash
use evobench.Run.WorkingDirectory.{
  WorkingDirectoryAutoCleanOpts, Host, PoolError, no_extension, bad_git_hash, must_still_exist,
  no_id, is_active, status_of, call, cmp, checked_out, save_new, commit_at, now_status, status_path,
  WorkingDirectoryStatus,
}
use evobench.Run.WorkingDirectoryPool.Entries
use evobench.Run.WorkingDirectoryPool.Entries.{Entry}
use evobench.Run.WorkingDirectoryPool.Id.{to_directory_file_name, from_prefixless_str}

-- The context and the state in one: the entries are sorted by identifier.
pub record WorkingDirectoryPool : Type 0 where
  pub capacity : ℕ
  pub auto_clean : Option WorkingDirectoryAutoCleanOpts
  pub git_url : Bytes
  pub base_dir : Bytes
  pub signal_change : Bool
  pub next_id : ℕ
  pub all_entries : List Entry

abbrev pub with_entries : (List Entry → List Entry) → WorkingDirectoryPool → WorkingDirectoryPool
with_entries f pool = record pool { all_entries = f (pool.all_entries) }

unfoldable pub get_working_directory :
    ℕ → WorkingDirectoryPool → Option WorkingDirectory.WorkingDirectory
get_working_directory id pool = Entries.get id pool.all_entries

abbrev pub entry_is_active : Entry → Bool
entry_is_active e = is_active e.1

unfoldable pub active_entries : WorkingDirectoryPool → List Entry
active_entries pool = keep entry_is_active pool.all_entries

unfoldable pub active_len : WorkingDirectoryPool → ℕ
active_len pool = length (active_entries pool)

-- `max_by_key` of the standard library, by status: the last one of those with the greatest.
unfoldable pub max_from : Entry → List Entry → Entry
max_from best [] = best
max_from best (e ∷ es) = elim (cmp (status_of best.1) (status_of e.1)) [
  | Ordering.gt ↦ max_from best es
  | _ ↦ max_from e es
]

unfoldable pub max_by_status : List Entry → Option Entry
max_by_status [] = none
max_by_status (e ∷ es) = some (max_from e es)

-- `min_by_key`, by last use: the first one of those with the least.
unfoldable pub min_from : Entry → List Entry → Entry
min_from best [] = best
min_from best (e ∷ es) = elim (compare best.1.last_use e.1.last_use) [
  | Ordering.gt ↦ min_from e es
  | _ ↦ min_from best es
]

unfoldable pub min_by_last_use : List Entry → Option Entry
min_by_last_use [] = none
min_by_last_use (e ∷ es) = some (min_from e es)

abbrev pub commit_is : Bytes → Entry → Bool
commit_is commit e = elim (e.1.commit) [ none ↦ false | some c ↦ same c commit ]

abbrev pub cloned :
    Bytes → Bytes → WorkingDirectoryStatus → ℕ → Bool → WorkingDirectory.WorkingDirectory
cloned path commit status mtime signal_change = record {
  path = path;
  commit = some commit;
  working_directory_status = status;
  needs_saving = true;
  last_use = mtime;
  signal_change = signal_change;
}

module _ {W E : Type 0} (on : Host W E) where
  abbrev pub Do : Type 0 → Type 0
  Do A = Act (WorkingDirectoryPool × W) (PoolError E) A

  abbrev pub at_entry :
      {A : Type 0}
      → Option WorkingDirectory.WorkingDirectory
      → ℕ
      → Act (WorkingDirectory.WorkingDirectory × W) (PoolError E) A
      → Do A
      → Do A
  at_entry none id m otherwise = otherwise
  at_entry (some wd) id m otherwise = zoom wd (λ wd'. with_entries (Entries.set id wd')) m

  -- A method of the working directory, through `get_working_directory_mut`.
  unfoldable pub on_entry :
      {A : Type 0} → ℕ → Act (WorkingDirectory.WorkingDirectory × W) (PoolError E) A → Do A → Do A
  on_entry id m otherwise (pool, w) =
      at_entry (get_working_directory id pool) id m otherwise (pool, w)

  current_path : WorkingDirectoryPool → Bytes
  current_path pool = on.append pool.base_dir (codes "current")

  signal : Do (Unit {0})
  signal = do pool ← get; (if pool.signal_change then call on on.send_signal else pure tt)

  unfoldable pub clear_current_working_directory : Do (Unit {0})
  unfolding current_path signal
  clear_current_working_directory = do
    pool ← get
    call on (on.remove_file (current_path pool))
    signal

  unfoldable pub set_current_working_directory : ℕ → Do (Unit {0})
  unfolding current_path signal
  set_current_working_directory id = do
    pool ← get
    call on (on.symlink (to_directory_file_name id) (current_path pool))
    signal

  parse_link : Option Bytes → Do (Option ℕ)
  parse_link none = pure none
  parse_link (some s) = do id ← or_fail (from_prefixless_str s) no_id; pure (some id)

  unfoldable pub read_current_working_directory : Do (Option ℕ)
  unfolding current_path parse_link
  read_current_working_directory = do
    pool ← get
    link ← call on (on.read_link (current_path pool))
    parse_link link

  unfoldable pub read_working_directory_status : ℕ → Do WorkingDirectoryStatus
  read_working_directory_status id = do
    pool ← get
    path ← status_path on (on.append pool.base_dir (to_directory_file_name id))
    call on (on.load_ron_file path)

  -- `WorkingDirectory::clone_repo`
  clone_repo : Bytes → Do WorkingDirectory.WorkingDirectory
  clone_repo dir_file_name = do
    pool ← get
    path ← call on (on.git_clone pool.base_dir pool.git_url dir_file_name)
    head ← call on (on.get_head_commit_id path)
    commit ← or_fail (GitHash.from_str head) bad_git_hash
    status ← now_status on
    mtime ← or_crash (on.to_systemtime status.creation_timestamp)
    zoom (cloned path commit status mtime pool.signal_change) (λ _ p. p) (save_new on checked_out)

  -- An overflow panics.
  next_id : Do ℕ
  next_id = do
    pool ← get
    (if leb (2 ^ 64) (pool.next_id + 1) then crash else pure tt)
    modify (λ p. record p { next_id = p.next_id + 1 })
    pure (pool.next_id)

  pub get_new : Do ℕ
  unfolding next_id clone_repo
  get_new = do
    id ← next_id
    dir ← clone_repo (to_directory_file_name id)
    modify (with_entries (Entries.insert id dir))
    pure id

  pub first_or_new : List Entry → Do ℕ
  unfolding get_new
  first_or_new [] = get_new
  first_or_new (e ∷ es) = pure (e.0)

  unfoldable pub get_first : Do ℕ
  unfolding first_or_new
  get_first = do pool ← get; first_or_new (active_entries pool)

  -- The entry goes first, and then the directory.
  unfoldable pub delete_working_directory : ℕ → Do (Unit {0})
  delete_working_directory id = do
    pool ← get
    wd ← or_fail (get_working_directory id pool) must_still_exist
    modify (with_entries (Entries.remove id))
    call on (on.remove_dir_all wd.path)

  init_commit : ℕ → Bool → Do Bytes
  unfolding on_entry
  init_commit id active = if active then on_entry id (commit_at on) (pure []) else pure []

  init_commits : List Entry → Do (Unit {0})
  unfolding init_commit
  init_commits [] = pure tt
  init_commits (e ∷ es) = do init_commit e.0 (entry_is_active e); init_commits es

  unfoldable pub init_active_commit_ids : Do (Unit {0})
  unfolding init_commits
  init_active_commit_ids = do pool ← get; init_commits pool.all_entries

  module _ {F : Type 0} (run_queues_data : RunQueuesData F) where
    -- No other job of the pipeline is for the commit of the directory.
    abbrev pub is_obsolete : Entry → Bool
    is_obsolete e = elim (e.1.commit) [
      | none ↦ false
      | some c ↦ not (have_job_with_commit_id run_queues_data c)
    ]

    -- `expect("initialized above")`, for each directory that is looked at.
    all_known : List Entry → Do (Unit {0})
    all_known [] = pure tt
    all_known (e ∷ es) = elim (e.1.commit) [ none ↦ crash | some c ↦ all_known es ]

    -- The best of the directories on the commit, or else the best of the obsolete ones.
    unfoldable pub fitting : Bytes → List Entry → Option Entry
    fitting commit es =
        Job.or_else (max_by_status (keep (commit_is commit) es))
          (max_by_status (keep is_obsolete es))

    unfoldable pub try_get_fitting_working_directory_for : RunParameters → Do (Option Entry)
    unfolding all_known
    try_get_fitting_working_directory_for run_parameters = do
      init_active_commit_ids
      pool ← get
      all_known (active_entries pool)
      pure (fitting run_parameters.commit_id (active_entries pool))

    -- A new directory where there is capacity, or else the least recently used one.
    new_or_oldest : Do ℕ
    unfolding get_new
    new_or_oldest = do
      pool ← get
      (if ltb (active_len pool) pool.capacity
          then get_new
          else (do e ← or_crash (min_by_last_use (active_entries pool)); pure (e.0)))

    chosen_or_new : Option Entry → Do ℕ
    unfolding new_or_oldest
    chosen_or_new (some e) = pure (e.0)
    chosen_or_new none = new_or_oldest

    unfoldable pub get_a_working_directory_for : RunParameters → Do ℕ
    unfolding chosen_or_new
    get_a_working_directory_for run_parameters = do
      found ← try_get_fitting_working_directory_for run_parameters
      chosen_or_new found
