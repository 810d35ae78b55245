-- ===== src/Run/WorkingDirectoryPool/Process/Results.antt =====
-- What processing guarantees of the pool, for any action that keeps the pool in order, and what deleting does.
use evobench.Prelude.{
  if◌then◌else◌, ◌≢◌, ℕ, ◌≡◌, refl, sym, Bool, false, Option, none, some, List, [], ◌∷◌, ◌==◌, ◌⊎◌,
  inl, inr, Bool-cases, arith, ==_iff,
}
use mathlib.Core.Path.{subst}
use evobench.Prelude.Bytes.{Bytes}
use evobench.Prelude.Outcome.{Outcome, ok, err, panic, crash}
use evobench.Prelude.Hoare.{Ends, Ends-mono}
use evobench.Prelude.Local.Steps.{bind-Ends, or_fail-bind, if-Ends, call-bind, call-Ends}
use evobench.Run.Job.{BenchmarkingJobParameters}
use evobench.Run.WorkingDirectory.{
  WorkingDirectory, finished, error, Host, PoolError, host, must_still_exist, ProcessingError,
}
use evobench.Run.WorkingDirectoryPool.{
  WorkingDirectoryPool, Do, with_entries, get_working_directory, delete_working_directory,
}
use evobench.Run.WorkingDirectoryPool.Entries
use evobench.Run.WorkingDirectoryPool.Entries.{Entry}
use evobench.Run.WorkingDirectoryPool.Entries.Order.{Above, Sorted}
use evobench.Run.WorkingDirectoryPool.Invariant.{IsValid, IsUsable, remove-IsValid}
use evobench.Run.WorkingDirectoryPool.Process.States.{
  HasStatus, set_status_of-Ends, start-Ends, after_ok-Ends,
}
use evobench.Run.WorkingDirectoryPool.Process.{
  set_status_of, start, after_err, after, act, process_in_working_directory, save_processing_error,
  WorkingDirectoryCleanupToken, working_directory_cleanup,
}

abbrev pub IsThere : ℕ → WorkingDirectoryPool → Type 0
IsThere id pool = (wd : WorkingDirectory) × (Entries.get id pool.all_entries ≡ some wd)

get-Above : (id : ℕ) (es : List Entry) → Above id es → Entries.get id es ≡ none
unfolding Entries.get
get-Above id [] h = refl
get-Above id ((k, wd) ∷ es) (h, hs) =
    let e : (k == id) ≡ false = ground arith in rw e (get-Above id es hs)

get-remove : (id : ℕ) (es : List Entry) → Sorted es → Entries.get id (Entries.remove id es) ≡ none
unfolding Entries.get Entries.remove
get-remove id [] s = refl
get-remove id ((k, wd) ∷ es) (a, s) = elim (Bool-cases (k == id)) [
  | inl e ↦
      let same_id : k ≡ id = (==_iff k id).0 e in
      rw e (get-Above id es (subst (λ n. Above n es) same_id a))
  | inr e ↦ rw e (rw e (get-remove id es s))
]

get-remove-other :
    (id k : ℕ) (es : List Entry) → k ≢ id → Entries.get k (Entries.remove id es) ≡ Entries.get k es
unfolding Entries.get Entries.remove
get-remove-other id k [] n = refl
get-remove-other id k ((j, wd) ∷ es) n = elim (Bool-cases (j == id)) [
  | inl e ↦ let other : (j == k) ≡ false = ground arith in rw e (rw other refl)
  | inr e ↦ elim (Bool-cases (j == k)) [
    | inl f ↦ rw (e, f) refl
    | inr f ↦ rw (e, f) (get-remove-other id k es n)
  ]
]

module _ {W E : Type 0} (on : Host W E) where
  -- Of a directory that was in the pool: it is gone, all others are as they were, and its files were removed.
  abbrev pub IsDeleted : ℕ → WorkingDirectoryPool → WorkingDirectoryPool × W → Type 0
  IsDeleted id pool sw =
      (Entries.get id sw.0.all_entries ≡ none)
      × (((k : ℕ) → k ≢ id → Entries.get k sw.0.all_entries ≡ Entries.get k pool.all_entries)
          × ((wd : WorkingDirectory) × (before : W) × (Entries.get id pool.all_entries ≡ some wd)
              × (on.remove_dir_all wd.path before ≡ (ok tt, sw.1))))

  -- What cleaning up comes to.
  abbrev pub IsCleaned :
      WorkingDirectoryCleanupToken → WorkingDirectoryPool → WorkingDirectoryPool × W → Type 0
  IsCleaned token pool sw =
      if token.needs_cleanup then IsDeleted token.working_directory_id pool sw else sw.0 ≡ pool

  pub delete_working_directory_lem :
      (id : ℕ) (pool : WorkingDirectoryPool) (w : W)
      → IsValid pool
      → Ends
          (λ _ sw. IsValid sw.0 × IsDeleted id pool sw)
          (λ sw. IsValid sw.0)
          (delete_working_directory on id (pool, w))
  unfolding delete_working_directory get_working_directory
  delete_working_directory_lem id pool w v =
      or_fail-bind _ _ _ (Entries.get id pool.all_entries) must_still_exist (pool, w) v
        (λ wd e.
          call-Ends _ _ (on.remove_dir_all wd.path) host (with_entries (Entries.remove id) pool) w
            (λ w2. remove-IsValid pool id v)
            (λ u2 w2 e2. (
              remove-IsValid pool id v,
              (
                get-remove id pool.all_entries v.0,
                (λ k n. get-remove-other id k pool.all_entries n, (wd, w, e, e2)),
              ),
            )))

  pub working_directory_cleanup_lem :
      (token : WorkingDirectoryCleanupToken) (pool : WorkingDirectoryPool) (w : W)
      → IsValid pool
      → Ends
          (λ _ sw. IsValid sw.0 × IsCleaned token pool sw)
          (λ sw. IsValid sw.0)
          (working_directory_cleanup on token (pool, w))
  unfolding working_directory_cleanup
  working_directory_cleanup_lem token pool w v =
      if-Ends _ _ token.needs_cleanup _ _ (pool, w)
        (λ needed.
          call-bind _ _ on.lock_exclusive host _ pool w (λ w'. v)
            (λ u w1 e1.
              Ends-mono (delete_working_directory on token.working_directory_id (pool, w1))
                (delete_working_directory_lem token.working_directory_id pool w1 v)
                (λ _ sw (v', d). (v', rw needed d)) (λ sw h. h)))
        (λ n. (v, rw n refl))

  save_same :
      (id : ℕ) (e : ProcessingError E) (timestamp : Bytes) (pool : WorkingDirectoryPool) (w : W)
      → Ends
          (λ _ sw. sw.0 ≡ pool)
          (λ sw. sw.0 ≡ pool)
          (save_processing_error on id e timestamp (pool, w))
  unfolding save_processing_error
  save_same id e timestamp pool w =
      call-bind _ _ (on.to_yaml e) host _ pool w (λ w'. refl)
        (λ text w1 e1. call-Ends _ _ (on.write _ text) host pool w1 (λ w'. refl) (λ u w2 e2. refl))

  module _ {T : Type 0} (id : ℕ) (timestamp : Bytes) (action : Do on T)
      (benchmarking_job_parameters : Option BenchmarkingJobParameters) (context : Bytes)
      (have_other_jobs_for_same_commit : Option Bool) where
    after_err-Ends :
        (e : PoolError E) (pool : WorkingDirectoryPool) (w : W)
        → IsValid pool
        → IsThere id pool
        → Ends
            (λ _ _. ⊥)
            (λ sw. IsValid sw.0 × (HasStatus id error sw.0 ⊎ (sw.0 ≡ pool)))
            (after_err on id timestamp action benchmarking_job_parameters context
              have_other_jobs_for_same_commit e
              (pool, w))
    unfolding after_err
    after_err-Ends e pool w v (wd, g) =
        call-bind _ _ on.lock_exclusive host _ pool w (λ w'. (v, inr refl))
          (λ u w1 e1.
            bind-Ends _ _ (λ _ sw. IsValid sw.0 × HasStatus id error sw.0)
              (set_status_of on id error crash) _ (pool, w1)
              (Ends-mono (set_status_of on id error crash (pool, w1))
                (set_status_of-Ends on id error crash pool w1 wd g (λ a. absurd (cc a)) v)
                (λ _ sw h. h) (λ sw (v', s). (v', inl s)))
              (λ u2 (p, w2) (v', s).
                bind-Ends _ _ (λ _ sw. sw.0 ≡ p) (save_processing_error on id _ timestamp) _ (p, w2)
                  (Ends-mono (save_processing_error on id _ timestamp (p, w2))
                    (save_same id _ timestamp p w2) (λ _ sw e'. e')
                    (λ sw e'.
                      subst (λ q. IsValid q × (HasStatus id error q ⊎ (q ≡ pool))) (sym e')
                        (v', inl s)))
                  (λ u3 sw e'.
                    subst (λ q. IsValid q × (HasStatus id error q ⊎ (q ≡ pool))) (sym e')
                      (v', inl s))))

    -- An action that keeps the pool in order: from a valid pool in which the directory can be used, it ends
    -- in a valid pool that still has the directory, and after a success that can still be used.
    abbrev pub IsOrderly : Type 0
    IsOrderly =
        (p : WorkingDirectoryPool) (w : W)
        → IsValid p
        → IsUsable id p
        → Ends (λ _ sw. IsValid sw.0 × IsUsable id sw.0) (λ sw. IsValid sw.0 × IsThere id sw.0)
            (action (p, w))

    after-Ends :
        (x : Outcome (PoolError E) T × (WorkingDirectoryPool × W))
        → Ends (λ _ sw. IsValid sw.0 × IsUsable id sw.0) (λ sw. IsValid sw.0 × IsThere id sw.0) x
        → Ends
            (λ r sw. IsValid sw.0 × (HasStatus id finished sw.0 × (r.1.working_directory_id ≡ id)))
            (λ sw. IsValid sw.0)
            (after on id timestamp action benchmarking_job_parameters context
              have_other_jobs_for_same_commit
              (x.0)
              (x.1))
    unfolding after
    after-Ends (ok t, (p, w)) (v, u) =
        after_ok-Ends on id timestamp action benchmarking_job_parameters context
          have_other_jobs_for_same_commit t p w v u
    after-Ends (err e, (p, w)) (v, there) =
        Ends-mono
          (after_err on id timestamp action benchmarking_job_parameters context
            have_other_jobs_for_same_commit e (p, w))
          (after_err-Ends e p w v there) (λ _ sw h. absurd h) (λ sw h. h.0)
    after-Ends (panic, (p, w)) (v, there) = v

    -- Processing with an action that keeps the pool in order, from a valid pool: the pool is valid however
    -- that ends, and after a success the directory is in the pool with the status `Finished` and the
    -- token is for that directory.
    pub process_in_working_directory_lem :
        (pool : WorkingDirectoryPool) (w : W)
        → IsValid pool
        → IsOrderly
        → Ends
            (λ r sw. IsValid sw.0 × (HasStatus id finished sw.0 × (r.1.working_directory_id ≡ id)))
            (λ sw. IsValid sw.0)
            (process_in_working_directory on id timestamp action benchmarking_job_parameters context
              have_other_jobs_for_same_commit
              (pool, w))
    unfolding process_in_working_directory act
    process_in_working_directory_lem pool w v orderly =
        bind-Ends _ _ (λ _ sw. IsValid sw.0 × IsUsable id sw.0)
          (start on id timestamp action benchmarking_job_parameters context
            have_other_jobs_for_same_commit)
          _ (pool, w)
          (start-Ends on id timestamp action benchmarking_job_parameters context
            have_other_jobs_for_same_commit pool w v)
          (λ _ (p, w') (v', u). after-Ends (action (p, w')) (orderly p w' v' u))
