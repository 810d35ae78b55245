-- ===== src/Run/WorkingDirectoryPool/Process/States.antt =====
-- What processing in a working directory does to the pool and to the status of the directory.
use evobench.Prelude.{ℕ, ◌≡◌, refl, sym, ap, ◌∙◌, Bool, true, Option, some}
use mathlib.Core.Path.{subst}
use evobench.Prelude.Bytes.{Bytes}
use evobench.Prelude.Outcome.{fail, crash}
use evobench.Prelude.Hoare.{Ends, Ends-mono}
use evobench.Prelude.Local.Steps.{
  bind-Ends, or_fail-bind, or_crash-bind, if-bind, if-Ends, call-bind, call-Ends, outside-bind,
}
use evobench.Run.Job.{BenchmarkingJobParameters}
use evobench.Run.WorkingDirectory.{
  WorkingDirectory, Status, processing, finished, Host, host, must_still_exist, status_of,
  is_active, can_be_used_for_jobs, set_and_save_status,
}
use evobench.Run.WorkingDirectory.Saving.{set_and_save_status_lem}
use evobench.Run.WorkingDirectory.Cleanup.{needs_cleanup}
use evobench.Run.WorkingDirectoryPool.{
  WorkingDirectoryPool, Do, with_entries, get_working_directory, set_current_working_directory,
  clear_current_working_directory, current_path, signal,
}
use evobench.Run.WorkingDirectoryPool.Id.{to_directory_file_name}
use evobench.Run.WorkingDirectoryPool.Entries
use evobench.Run.WorkingDirectoryPool.Entries.Count.{get-set}
use evobench.Run.WorkingDirectoryPool.Invariant.{IsValid, IsUsable, set-IsValid}
use evobench.Run.WorkingDirectoryPool.OnEntry.{on_entry-Ends}
use evobench.Run.WorkingDirectoryPool.Process.{set_status_of, start, after_ok}

-- The directory is in the pool, with the status.
abbrev pub HasStatus : ℕ → Status → WorkingDirectoryPool → Type 0
HasStatus id status pool =
    (wd : WorkingDirectory) × ((Entries.get id pool.all_entries ≡ some wd)
      × (status_of wd ≡ status))

module _ {W E : Type 0} (on : Host W E) where
  signal_same :
      (pool : WorkingDirectoryPool) (w : W)
      → Ends (λ _ sw. sw.0 ≡ pool) (λ sw. sw.0 ≡ pool) (signal on (pool, w))
  unfolding signal
  signal_same pool w =
      if-Ends _ _ pool.signal_change _ _ (pool, w)
        (λ _.
          call-Ends (λ _ sw. sw.0 ≡ pool) (λ sw. sw.0 ≡ pool) on.send_signal host pool w
            (λ w'. refl) (λ u w' e. refl))
        (λ _. refl)

  pub set_current_same :
      (id : ℕ) (pool : WorkingDirectoryPool) (w : W)
      → Ends
          (λ _ sw. sw.0 ≡ pool)
          (λ sw. sw.0 ≡ pool)
          (set_current_working_directory on id (pool, w))
  unfolding set_current_working_directory
  set_current_same id pool w =
      call-bind _ _ (on.symlink (to_directory_file_name id) (current_path on pool)) host _ pool w
        (λ w'. refl) (λ u w' e. signal_same pool w')

  pub clear_current_same :
      (pool : WorkingDirectoryPool) (w : W)
      → Ends
          (λ _ sw. sw.0 ≡ pool)
          (λ sw. sw.0 ≡ pool)
          (clear_current_working_directory on (pool, w))
  unfolding clear_current_working_directory
  clear_current_same pool w =
      call-bind _ _ (on.remove_file (current_path on pool)) host _ pool w (λ w'. refl)
        (λ u w' e. signal_same pool w')

  -- The directory has the status in memory, even where that could not be saved.
  pub set_status_of-Ends :
      (id : ℕ) (status : Status) (otherwise : Do on (Unit {0})) (pool : WorkingDirectoryPool)
      (w : W) (wd : WorkingDirectory)
      → Entries.get id pool.all_entries ≡ some wd
      → (can_be_used_for_jobs status ≡ true → is_active wd ≡ true)
      → IsValid pool
      → Ends
          (λ _ sw. IsValid sw.0 × HasStatus id status sw.0)
          (λ sw. IsValid sw.0 × HasStatus id status sw.0)
          (set_status_of on id status otherwise (pool, w))
  unfolding set_status_of
  set_status_of-Ends id status otherwise pool w wd e m v =
      on_entry-Ends on _ _ (λ _ _ sw. status_of sw.0 ≡ status) (λ _ sw. status_of sw.0 ≡ status) id
        (set_and_save_status on status) otherwise pool w (λ n. absurd (cc (n, e)))
        (λ wd0 e0. (
          Ends-mono (set_and_save_status on status (wd0, w))
              (set_and_save_status_lem on status wd0 w) (λ _ sw (h, _). ap status_of h) (λ sw h. h),
          (λ _ wd' w' h. after_set wd0 wd' e0 h, λ wd' w' h. after_set wd0 wd' e0 h),
        ))
    where
      after_set :
          (wd0 wd' : WorkingDirectory)
          → Entries.get id pool.all_entries ≡ some wd0
          → status_of wd' ≡ status
          → IsValid (with_entries (Entries.set id wd') pool)
            × HasStatus id status (with_entries (Entries.set id wd') pool)
      after_set wd0 wd' e0 h =
          let same_wd : wd ≡ wd0 = cc (e, e0) in
          (
            set-IsValid pool id wd0 wd' e0
                (λ a. ap is_active (sym same_wd) ∙ m (ap can_be_used_for_jobs (sym h) ∙ a)) v,
            (wd', (get-set id wd0 wd' pool.all_entries e0, h)),
          )

  module _ {T : Type 0} (id : ℕ) (timestamp : Bytes) (action : Do on T)
      (benchmarking_job_parameters : Option BenchmarkingJobParameters) (context : Bytes)
      (have_other_jobs_for_same_commit : Option Bool) where
    pub start-Ends :
        (pool : WorkingDirectoryPool) (w : W)
        → IsValid pool
        → Ends
            (λ _ sw. IsValid sw.0 × IsUsable id sw.0)
            (λ sw. IsValid sw.0)
            (start on id timestamp action benchmarking_job_parameters context
              have_other_jobs_for_same_commit
              (pool, w))
    unfolding start get_working_directory
    start-Ends pool w v =
        call-bind _ _ on.lock_exclusive host _ pool w (λ w'. v)
          (λ u w1 e1.
            bind-Ends _ _ (λ _ sw. IsValid sw.0) (set_current_working_directory on id) _ (pool, w1)
              (Ends-mono (set_current_working_directory on id (pool, w1))
                (set_current_same id pool w1) (λ _ sw e. subst IsValid (sym e) v)
                (λ sw e. subst IsValid (sym e) v))
              (λ u2 (p, w2) v'.
                or_fail-bind _ _ _ (Entries.get id p.all_entries) must_still_exist (p, w2) v'
                  (λ wd e.
                    if-bind _ _ _ (is_active wd) _ _ (p, w2)
                      (λ a.
                        Ends-mono (set_status_of on id processing (fail must_still_exist) (p, w2))
                          (set_status_of-Ends id processing (fail must_still_exist) p w2 wd e
                            (λ _. a) v')
                          (λ _ sw (v2, (wd', (g, st))).
                            (v2, (wd', (g, ap can_be_used_for_jobs st))))
                          (λ sw h. h.0))
                      (λ n. v'))))

    pub after_ok-Ends :
        (t : T) (pool : WorkingDirectoryPool) (w : W)
        → IsValid pool
        → IsUsable id pool
        → Ends
            (λ r sw. IsValid sw.0 × (HasStatus id finished sw.0 × (r.1.working_directory_id ≡ id)))
            (λ sw. IsValid sw.0)
            (after_ok on id timestamp action benchmarking_job_parameters context
              have_other_jobs_for_same_commit t
              (pool, w))
    unfolding after_ok get_working_directory
    after_ok-Ends t pool w v (wd, (e, a)) =
        call-bind _ _ on.lock_exclusive host _ pool w (λ w'. v)
          (λ u w1 e1.
            bind-Ends _ _ (λ _ sw. IsValid sw.0 × HasStatus id finished sw.0)
              (set_status_of on id finished crash) _ (pool, w1)
              (Ends-mono (set_status_of on id finished crash (pool, w1))
                (set_status_of-Ends id finished crash pool w1 wd e (λ _. a) v) (λ _ sw h. h)
                (λ sw h. h.0))
              (λ u2 (p, w2) (v', s).
                or_crash-bind _ _ _ (Entries.get id p.all_entries) (p, w2) v'
                  (λ wd' e'.
                    outside-bind _ _
                      (needs_cleanup on wd' p.auto_clean have_other_jobs_for_same_commit) _ p w2
                      (λ w3. v') (λ needs w3. (v', (s, refl))))))
