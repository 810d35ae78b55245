-- ===== src/Run/WorkingDirectoryPool/Process/Errors.antt =====
-- The errors of processing: a directory that is refused, and an action that fails.
use evobench.Prelude.{
  ℕ, ◌≡◌, refl, sym, ap, ◌∙◌, Bool, false, Option, none, some, ◌++◌, ◌⊎◌, inl, inr,
}
use mathlib.Core.Path.{subst}
use evobench.Prelude.Bytes.{Bytes, codes}
use evobench.Prelude.Outcome.{Outcome, ok, err, panic, resume, crash}
use evobench.Prelude.Hoare.{Ends}
use evobench.Prelude.Local.Cases.{Failed, bind-cases, or_fail-cases, call-cases}
use evobench.Run.Job.{BenchmarkingJobParameters}
use evobench.Run.WorkingDirectory.{
  WorkingDirectory, error, Host, PoolError, host, must_still_exist, set_aside, is_active, status_of,
  ProcessingError,
}
use evobench.Run.WorkingDirectoryPool.{
  WorkingDirectoryPool, Do, get_working_directory, set_current_working_directory,
}
use evobench.Run.WorkingDirectoryPool.Id.{to_directory_file_name}
use evobench.Run.WorkingDirectoryPool.Entries
use evobench.Run.WorkingDirectoryPool.Invariant.{IsValid}
use evobench.Run.WorkingDirectoryPool.Process.States.{HasStatus, set_current_same}
use evobench.Run.WorkingDirectoryPool.Process.{set_status_of, start, process_in_working_directory}

-- No directory of the pool can be used under the identifier.
abbrev pub IsRefused : Option WorkingDirectory → Type 0
IsRefused none = Unit
IsRefused (some wd) = is_active wd ≡ false

module _ {W E : Type 0} (on : Host W E) (id : ℕ) where
  -- The error that a refusal gives.
  abbrev pub refusal : Option WorkingDirectory → PoolError E
  refusal none = must_still_exist
  refusal (some wd) = set_aside (status_of wd)

  -- The pool is as it was, and the outcome is the error of the refusal, unless a call before failed: taking the
  -- lock, or making the directory the current one.
  abbrev pub Refused :
      {A : Type 0}
      → WorkingDirectoryPool
      → W
      → Outcome (PoolError E) A × (WorkingDirectoryPool × W)
      → Type 0
  Refused pool w x =
      (x.1.0 ≡ pool)
      × (((x.0 ≡ err (refusal (Entries.get id pool.all_entries))))
          ⊎ (Failed x.0
              × (Failed (on.lock_exclusive w).0
                  ⊎ ((w1 : W) × (on.lock_exclusive w ≡ (ok tt, w1))
                      × Failed (set_current_working_directory on id (pool, w1)).0))))

  same_after :
      {A : Type 0} (pool : WorkingDirectoryPool)
      (x : Outcome (PoolError E) A × (WorkingDirectoryPool × W))
      → Ends (λ _ sw. sw.0 ≡ pool) (λ sw. sw.0 ≡ pool) x
      → x.1.0 ≡ pool
  same_after pool (ok a, s) h = h
  same_after pool (err e, s) h = h
  same_after pool (panic, s) h = h

  -- What was to follow does not happen.
  resume-Refused :
      {A B : Type 0} (pool : WorkingDirectoryPool) (w : W)
      (x : Outcome (PoolError E) A × (WorkingDirectoryPool × W)) (f : A → Do on B)
      → Refused pool w x
      → Refused pool w (resume x.0 f x.1)
  resume-Refused pool w (ok a, s) f (same_pool, inl e) = absurd (cc e)
  resume-Refused pool w (ok a, s) f (same_pool, inr (failed, why)) = absurd failed
  resume-Refused pool w (err e, s) f (same_pool, inl h) =
      let same_error : e ≡ refusal (Entries.get id pool.all_entries) = cc h in
      (same_pool, inl (ap err same_error))
  resume-Refused pool w (err e, s) f (same_pool, inr h) = (same_pool, inr h)
  resume-Refused pool w (panic, s) f (same_pool, inl e) = absurd (cc e)
  resume-Refused pool w (panic, s) f (same_pool, inr h) = (same_pool, inr h)

  module _ {T : Type 0} (timestamp : Bytes) (action : Do on T)
      (benchmarking_job_parameters : Option BenchmarkingJobParameters) (context : Bytes)
      (have_other_jobs_for_same_commit : Option Bool) where
    start-Refused :
        (pool : WorkingDirectoryPool) (w : W)
        → IsRefused (Entries.get id pool.all_entries)
        → Refused pool w (
            start on id timestamp action benchmarking_job_parameters context
              have_other_jobs_for_same_commit
              (pool, w))
    unfolding start get_working_directory
    start-Refused pool w refused =
        call-cases (Refused pool w) _ on.lock_exclusive host pool w
          (λ o w' failed f. (refl, inr (f, inl failed)))
          (λ u w1 e1.
            bind-cases (Refused pool w) _ (set_current_working_directory on id) (pool, w1)
              (λ o failed f. (
                same_after pool (set_current_working_directory on id (pool, w1))
                    (set_current_same on id pool w1),
                inr (f, inr (w1, e1, failed)),
              ))
              (λ u2 (p, w2) e2.
                let same_pool : p ≡ pool =
                  subst (λ x. Ends (λ _ sw. sw.0 ≡ pool) (λ sw. sw.0 ≡ pool) x) e2
                    (set_current_same on id pool w1) in
                let same_entry : Entries.get id p.all_entries ≡ Entries.get id pool.all_entries =
                  ap (λ q. Entries.get id q.all_entries) same_pool in
                or_fail-cases (Refused pool w) _ (Entries.get id p.all_entries) must_still_exist
                  (p, w2) (λ e. (same_pool, inl (ap (λ o. err (refusal o)) (sym e ∙ same_entry))))
                  (λ wd e.
                    let g : Entries.get id pool.all_entries ≡ some wd = sym same_entry ∙ e in
                    rw (not_active wd (subst IsRefused g refused))
                      (same_pool, inl (ap (λ o. err (refusal o)) (sym g))))))
      where
        not_active : (wd : WorkingDirectory) → IsRefused (some wd) → is_active wd ≡ false
        not_active wd h = h

    -- A directory that is not in the pool, or that is set aside, is not processed, whatever the action: the pool
    -- is as it was, and the outcome is the error that says so, and no panic, unless taking the lock or making
    -- the directory the current one failed before.
    pub process-IsRefused :
        (pool : WorkingDirectoryPool) (w : W)
        → IsRefused (Entries.get id pool.all_entries)
        → Refused pool w (
            process_in_working_directory on id timestamp action benchmarking_job_parameters context
              have_other_jobs_for_same_commit
              (pool, w))
    unfolding process_in_working_directory
    process-IsRefused pool w refused =
        resume-Refused pool w
          (start on id timestamp action benchmarking_job_parameters context
            have_other_jobs_for_same_commit (pool, w))
          _ (start-Refused pool w refused)

    -- Setting aside: what is saved, and the name of its file.
    abbrev pub saved_error : PoolError E → ProcessingError E
    saved_error e = record {
      benchmarking_job_parameters = benchmarking_job_parameters;
      context = context;
      error_value = e;
    }

    abbrev pub error_file : WorkingDirectoryPool → Bytes
    error_file pool =
        on.append pool.base_dir (to_directory_file_name id ++ (codes ".error_at_" ++ timestamp))

    -- The error value was written to its file and the error is given on, or one of the calls failed.
    abbrev pub Saved :
        {A : Type 0} → PoolError E → Outcome (PoolError E) A × (WorkingDirectoryPool × W) → Type 0
    Saved e x =
        (w2 : W) × (((text : Bytes) × (w3 : W) × (on.to_yaml (saved_error e) w2 ≡ (ok text, w3))
            × (((on.write (error_file x.1.0) text w3 ≡ (ok tt, x.1.1)) × (x.0 ≡ err e))
                ⊎ (Failed (on.write (error_file x.1.0) text w3).0 × Failed x.0)))
          ⊎ (Failed (on.to_yaml (saved_error e) w2).0 × Failed x.0))

    abbrev pub SetAside :
        {A : Type 0}
        → PoolError E
        → WorkingDirectoryPool
        → W
        → Outcome (PoolError E) A × (WorkingDirectoryPool × W)
        → Type 0
    SetAside e pool w x =
        IsValid x.1.0
        × ((Failed (on.lock_exclusive w).0 × (Failed x.0 × (x.1.0 ≡ pool)))
            ⊎ ((w1 : W) × (on.lock_exclusive w ≡ (ok tt, w1))
                × HasStatus id error x.1.0
                × ((Failed (set_status_of on id error crash (pool, w1)).0 × Failed x.0)
                    ⊎ Saved e x)))

    -- What saving comes to.
    abbrev SaveCase :
        PoolError E
        → WorkingDirectoryPool
        → W
        → Outcome (PoolError E) (Unit {0}) × (WorkingDirectoryPool × W)
        → Type 0
    SaveCase e p w2 x =
        (x.1.0 ≡ p)
        × (((text : Bytes) × (w3 : W) × (on.to_yaml (saved_error e) w2 ≡ (ok text, w3))
              × (((on.write (error_file p) text w3 ≡ (ok tt, x.1.1)) × (x.0 ≡ ok tt))
                  ⊎ (Failed (on.write (error_file p) text w3).0 × Failed x.0)))
            ⊎ (Failed (on.to_yaml (saved_error e) w2).0 × Failed x.0))
