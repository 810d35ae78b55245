-- ===== src/Run/PollingPool/Commits.antt =====
-- Looking up a commit, and the directory on which that is done: `commit_is_valid` and `updated_working_dir` of
-- evobench-tools/src/run/polling_pool.rs.
use evobench.Prelude.{ℕ, ◌≤◌, ◌≡◌, refl, sym, Bool, true, false, Option, none, some}
use mathlib.Core.Path.{subst}
use evobench.Prelude.Bytes.{Bytes}
use evobench.Prelude.Outcome.{ok}
use evobench.Prelude.Hoare.{Ends, Ends-mono}
use evobench.Prelude.Local.Steps.{bind-Ends, if-Ends, call-bind, call-Ends}
use evobench.SerdeTypes.GitHash
use evobench.Run.WorkingDirectory.{WorkingDirectory, Host, host, references, fetch}
use evobench.Run.WorkingDirectoryPool.{
  WorkingDirectoryPool, active_entries, clear_current_working_directory, get_first,
}
use evobench.Run.WorkingDirectoryPool.Invariant.{IsValid}
use evobench.Run.WorkingDirectoryPool.Process.States.{clear_current_same}
use evobench.Run.WorkingDirectoryPool.Reach.{first_or_new-Ends}
use evobench.Run.PollingPool.{
  first_directory, check_exists, find_commit, commit_is_valid, fetch_all, updated_working_dir,
}
use evobench.Run.PollingPool.Reading.{Reads, process_and_clean-Ends}

module _ {W E : Type 0} (on : Host W E) where
  -- Found, or not found by git right after it was fetched.
  abbrev pub IsAnswer : Bytes → Bool → Type 0
  IsAnswer commit true =
      (path : Bytes) × (w : W) × (after : W) × (on.contains_reference path
          (GitHash.to_string commit) w
        ≡ (ok true, after))
  IsAnswer commit false =
      (path : Bytes) × (before : W) × (w : W) × (after : W) × ((on.fetch_references path true
            (references (some commit)) before
          ≡ (ok tt, w))
        × (on.contains_reference path (GitHash.to_string commit) w ≡ (ok false, after)))

  fetch_lem :
      (commit : Option Bytes) (wd : WorkingDirectory) (w : W)
      → Ends
          (λ _ sw.
            (sw.0 ≡ wd) × (on.fetch_references wd.path true (references commit) w ≡ (ok tt, sw.1)))
          (λ sw. sw.0 ≡ wd)
          (fetch on commit (wd, w))
  unfolding fetch
  fetch_lem commit wd w =
      call-bind _ _ (on.fetch_references wd.path true (references commit)) host _ wd w (λ w'. refl)
        (λ u w' e. (refl, e))

  asked_again :
      (commit path : Bytes) (before w w' : W) (answer : Bool)
      → on.fetch_references path true (references (some commit)) before ≡ (ok tt, w)
      → on.contains_reference path (GitHash.to_string commit) w ≡ (ok answer, w')
      → IsAnswer commit answer
  asked_again commit path before w w' true f a = (path, w, w', a)
  asked_again commit path before w w' false f a = (path, before, w, w', (f, a))

  find_commit-Reads : (commit : Bytes) → Reads on (IsAnswer commit) (find_commit on commit)
  unfolding find_commit check_exists
  find_commit-Reads commit wd w =
      call-bind _ _ (on.contains_reference wd.path (GitHash.to_string commit)) host _ wd w
        (λ w'. refl)
        (λ there w1 e1.
          if-Ends _ _ there _ _ (wd, w1)
            (λ t.
              let found : on.contains_reference wd.path (GitHash.to_string commit) w
                  ≡ (ok true, w1) =
                cc (e1, t) in
              (refl, (wd.path, w, w1, found)))
            (λ _.
              bind-Ends _ _ _ (fetch on (some commit)) _ (wd, w1) (fetch_lem (some commit) wd w1)
                (λ u (wd', w2) (same_wd, e2).
                  call-Ends _ _ (on.contains_reference wd.path (GitHash.to_string commit)) host wd'
                    w2 (λ w'. same_wd)
                    (λ answer w3 e3. (same_wd, asked_again commit wd.path w1 w2 w3 answer e2 e3)))))

  first_directory-Ends :
      (pool : WorkingDirectoryPool) (w : W)
      → IsValid pool
      → 1 ≤ pool.capacity
      → Ends (λ _ sw. IsValid sw.0) (λ sw. IsValid sw.0) (first_directory on (pool, w))
  unfolding first_directory get_first active_entries
  first_directory-Ends pool w v cap =
      call-bind _ _ on.lock_exclusive host _ pool w (λ w'. v)
        (λ u w1 e1.
          bind-Ends _ _ (λ _ sw. sw.0 ≡ pool) (clear_current_working_directory on) _ (pool, w1)
            (Ends-mono (clear_current_working_directory on (pool, w1))
              (clear_current_same on pool w1) (λ _ sw e. e) (λ sw e. subst IsValid (sym e) v))
            (λ u2 (p, w2) same_pool.
              first_or_new-Ends on _ p w2 refl (subst IsValid (sym same_pool) v)
                (subst (λ q. 1 ≤ q.capacity) (sym same_pool) cap)))

  -- From a valid pool with a capacity of one or more the pool is valid however the lookup of a commit
  -- ends. A success says true only if git found the commit in some directory, and false only if git did not find
  -- it in a directory in which it was fetched, with success, right before.
  pub commit_is_valid_lem :
      (commit : Bytes) (pool : WorkingDirectoryPool) (w : W)
      → IsValid pool
      → 1 ≤ pool.capacity
      → Ends
          (λ answer sw. IsValid sw.0 × IsAnswer commit answer)
          (λ sw. IsValid sw.0)
          (commit_is_valid on commit (pool, w))
  unfolding commit_is_valid
  commit_is_valid_lem commit pool w v cap =
      bind-Ends _ _ (λ _ sw. IsValid sw.0) (first_directory on) _ (pool, w)
        (first_directory-Ends pool w v cap)
        (λ id (p, w1) v'.
          call-bind _ _ on.now_with_offset host _ p w1 (λ w'. v')
            (λ timestamp w2 e2.
              process_and_clean-Ends on (IsAnswer commit) id timestamp (find_commit on commit) _ p
                w2 (find_commit-Reads commit) v'))

  -- Everything was fetched in some directory.
  abbrev pub IsFetched : ℕ → Type 0
  IsFetched id =
      (path : Bytes) × (before : W) × (after : W) × (on.fetch_references path true (references none)
          before
        ≡ (ok tt, after))

  fetch_all-Reads : (id : ℕ) → Reads on IsFetched (fetch_all on id)
  unfolding fetch_all
  fetch_all-Reads id wd w =
      bind-Ends _ _ _ (fetch on none) _ (wd, w) (fetch_lem none wd w)
        (λ u (wd', w') (same_wd, e). (same_wd, (wd.path, w, w', e)))

  -- From a valid pool with a capacity of one or more the pool is valid however an update ends, and after a success
  -- everything was fetched in some directory.
  pub updated_working_dir_lem :
      (pool : WorkingDirectoryPool) (w : W)
      → IsValid pool
      → 1 ≤ pool.capacity
      → Ends
          (λ id sw. IsValid sw.0 × IsFetched id)
          (λ sw. IsValid sw.0)
          (updated_working_dir on (pool, w))
  unfolding updated_working_dir
  updated_working_dir_lem pool w v cap =
      bind-Ends _ _ (λ _ sw. IsValid sw.0) (first_directory on) _ (pool, w)
        (first_directory-Ends pool w v cap)
        (λ id (p, w1) v'.
          call-bind _ _ on.now_with_offset host _ p w1 (λ w'. v')
            (λ timestamp w2 e2.
              process_and_clean-Ends on IsFetched id timestamp (fetch_all on id) _ p w2
                (fetch_all-Reads id) v'))
