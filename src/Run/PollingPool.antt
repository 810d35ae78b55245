-- ===== src/Run/PollingPool.antt =====
-- The pool with one working directory on which commits and branches are looked up, evobench-tools/src/run/polling_pool.rs,
-- with evobench-tools/src/serde_types/git_branch_name.rs for the references of branches. Beside the
-- host two calls are parameters: `git_rev_parse` of the crate run-git, which is none where the reference does not
-- resolve, and `join` of the crate itertools.
pub mod Reading
pub mod Commits
pub mod Resolving
use evobench.Prelude.{
  ℕ, ◌*◌, Bool, true, false, Option, none, some, List, [], ◌∷◌, ◌++◌, if◌then◌else◌,
}
use evobench.Prelude.Bytes.{Bytes, codes}
use evobench.Prelude.Outcome.{Act, pure, crash, or_fail, or_crash, ◌>>=◌, ◌>>◌}
use evobench.Prelude.Local.{get}
use evobench.SerdeTypes.GitHash
use evobench.Run.WorkingDirectory.{
  WorkingDirectory, WorkingDirectoryAutoCleanOpts, Host, PoolError, bad_git_hash, call, fetch,
}
use evobench.Run.WorkingDirectoryPool.{
  WorkingDirectoryPool, Do, on_entry, clear_current_working_directory, get_first,
}
use evobench.Run.WorkingDirectoryPool.Open.{Opening, open_pool}
use evobench.Run.WorkingDirectoryPool.Process.{
  process_in_working_directory, working_directory_cleanup,
}

abbrev pub remote_name : Bytes
remote_name = codes "origin"

-- `to_ref_string_in_remote`
abbrev pub ref_string_in_remote : Bytes → Bytes → Bytes
ref_string_in_remote remote branch = codes "remotes/" ++ remote ++ codes "/" ++ branch

abbrev pub auto_clean_opts : WorkingDirectoryAutoCleanOpts
auto_clean_opts = record {
  min_age_days = 60;
  min_num_runs = 3 * 60 * 24 * 60;
  wait_until_commit_done = false;
}

abbrev pub full_reference : Option Bytes → Bytes → Bytes
full_reference none reference = reference
full_reference (some remote) reference = remote ++ codes "/" ++ reference

-- The names that resolve, with their commits and job templates, and the references that do not.
abbrev pub Resolved : Type 0 → Type 0
Resolved J = List (Bytes × (Bytes × J)) × List Bytes

abbrev pub add_resolved : {J : Type 0} → Bytes → Bytes → J → Resolved J → Resolved J
add_resolved name hash templates (ids, non_resolving) =
    ((name, (hash, templates)) ∷ ids, non_resolving)

abbrev pub add_non_resolving : {J : Type 0} → Bytes → Resolved J → Resolved J
add_non_resolving ref_string (ids, non_resolving) = (ids, ref_string ∷ non_resolving)

module _ {W E : Type 0} (on : Host W E) where
  abbrev pub In : Type 0 → Type 0
  In A = Act (WorkingDirectory × W) (PoolError E) A

  -- `open`; the base directory is opened, and created where it is missing, by calls that are given.
  unfoldable pub open_one :
      Bytes
      → Bytes
      → Opening on (Unit {0})
      → Opening on (Unit {0})
      → Opening on WorkingDirectoryPool
  open_one git_url base_dir open_base create_dir = do
    open_base
    open_pool on 1 (some auto_clean_opts) git_url base_dir false create_dir false

  unfoldable pub check_exists : Bytes → Bytes → In Bool
  check_exists path commit = call on (on.contains_reference path (GitHash.to_string commit))

  -- First it is looked up, and only then fetched and looked up again.
  unfoldable pub find_commit : Bytes → In Bool
  unfolding check_exists
  find_commit commit = do
    wd ← get
    there ← check_exists wd.path commit
    (if there then pure true else (do fetch on (some commit); check_exists wd.path commit))

  unfoldable pub first_directory : Do on ℕ
  first_directory = do call on on.lock_exclusive; clear_current_working_directory on; get_first on

  -- `process_in_working_directory` of the pool of working directories, and then the cleanup.
  unfoldable pub process_and_clean : {T : Type 0} → ℕ → Bytes → Do on T → Bytes → Do on T
  process_and_clean id timestamp action context = do
    r ← process_in_working_directory on id timestamp action none context none
    working_directory_cleanup on r.1
    pure r.0

  unfoldable pub commit_is_valid : Bytes → Do on Bool
  unfolding first_directory process_and_clean find_commit
  commit_is_valid commit = do
    id ← first_directory
    timestamp ← call on on.now_with_offset
    process_and_clean id timestamp (on_entry on id (find_commit commit) crash)
        (codes "verifying commit " ++ GitHash.to_string commit)

  fetch_all : ℕ → In ℕ
  fetch_all id = do fetch on none; pure id

  unfoldable pub updated_working_dir : Do on ℕ
  unfolding first_directory process_and_clean fetch_all
  updated_working_dir = do
    id ← first_directory
    timestamp ← call on on.now_with_offset
    process_and_clean id timestamp (on_entry on id (fetch_all id) crash)
        (codes "updated_working_dir()")

  -- `process_in_working_directory`
  unfoldable pub process_cleared : {T : Type 0} → ℕ → Bytes → Do on T → Bytes → Do on T
  unfolding process_and_clean
  process_cleared id timestamp action context = do
    call on on.lock_exclusive
    clear_current_working_directory on
    process_and_clean id timestamp action context

  module _ (git_rev_parse : Bytes → Bytes → Act W E (Option Bytes)) where
    add_name : {J : Type 0} → Bytes → J → Option Bytes → In (Resolved J) → In (Resolved J)
    add_name name templates none rest = do
      r ← rest
      pure (add_non_resolving (ref_string_in_remote remote_name name) r)
    add_name name templates (some id) rest = do
      hash ← or_fail (GitHash.from_str id) bad_git_hash
      r ← rest
      pure (add_resolved name hash templates r)

    -- The loop over the branch names.
    unfoldable pub resolve_names : {J : Type 0} → List (Bytes × J) → In (Resolved J)
    unfolding add_name
    resolve_names [] = pure ([], [])
    resolve_names ((name, templates) ∷ names) = do
      wd ← get
      found ← call on (git_rev_parse wd.path (ref_string_in_remote remote_name name))
      add_name name templates found (resolve_names names)

    branch_of : {J : Type 0} → List (Bytes × J) → List Bytes
    branch_of [] = []
    branch_of ((name, templates) ∷ names) = name ∷ branch_of names

    unfoldable pub resolve_branch_names :
        {J : Type 0} → (List Bytes → Bytes → Bytes) → ℕ → List (Bytes × J) → Do on (Resolved J)
    unfolding process_cleared resolve_names branch_of
    resolve_branch_names join id names = do
      timestamp ← call on on.now_with_offset
      process_cleared id timestamp (on_entry on id (resolve_names names) crash)
          (codes "resolving branch names " ++ join (branch_of names) (codes ", "))

    parsed : Option Bytes → In (Option Bytes)
    parsed none = pure none
    parsed (some s) = do hash ← or_crash (GitHash.from_str s); pure (some hash)

    unfoldable pub resolve_all : Option Bytes → List Bytes → In (List (Option Bytes))
    unfolding parsed
    resolve_all remote [] = pure []
    resolve_all remote (reference ∷ references) = do
      wd ← get
      found ← call on (git_rev_parse wd.path (full_reference remote reference))
      hash ← parsed found
      hashes ← resolve_all remote references
      pure (hash ∷ hashes)

    unfoldable pub resolve_references : ℕ → Option Bytes → List Bytes → Do on (List (Option Bytes))
    unfolding process_cleared resolve_all
    resolve_references id remote references = do
      timestamp ← call on on.now_with_offset
      process_cleared id timestamp (on_entry on id (resolve_all remote references) crash)
          (codes "resolving references")
