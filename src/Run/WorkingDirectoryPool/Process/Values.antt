-- ===== src/Run/WorkingDirectoryPool/Process/Values.antt =====
-- The value that processing gives: it is that of the action.
use evobench.Prelude.{ℕ, Bool, Option}
use evobench.Prelude.Bytes.{Bytes}
use evobench.Prelude.Outcome.{Outcome, ok, err, panic, crash}
use evobench.Prelude.Hoare.{Ends, Ends-mono, Ends-any}
use evobench.Prelude.Local.Steps.{bind-Ends, or_crash-bind, call-bind, outside-bind}
use evobench.Run.Job.{BenchmarkingJobParameters}
use evobench.Run.WorkingDirectory.{Host, PoolError, host, finished, error}
use evobench.Run.WorkingDirectory.Cleanup.{needs_cleanup}
use evobench.Run.WorkingDirectoryPool.{WorkingDirectoryPool, Do, get_working_directory}
use evobench.Run.WorkingDirectoryPool.Invariant.{IsValid, IsUsable}
use evobench.Run.WorkingDirectoryPool.Process.{
  set_status_of, start, after_ok, after_err, after, act, process_in_working_directory,
  save_processing_error,
}
use evobench.Run.WorkingDirectoryPool.Process.States.{start-Ends}

module _ {W E T : Type 0} (on : Host W E) (Q : T → Type 0) (id : ℕ) (timestamp : Bytes)
    (action : Do on T) (benchmarking_job_parameters : Option BenchmarkingJobParameters)
    (context : Bytes) (have_other_jobs_for_same_commit : Option Bool) where
  after_ok_value :
      (t : T) (pool : WorkingDirectoryPool) (w : W)
      → Q t
      → Ends
          (λ r _. Q r.0)
          (λ _. Unit)
          (after_ok on id timestamp action benchmarking_job_parameters context
            have_other_jobs_for_same_commit t
            (pool, w))
  unfolding after_ok
  after_ok_value t pool w q =
      call-bind _ _ on.lock_exclusive host _ pool w (λ w'. tt)
        (λ u w1 e1.
          bind-Ends _ _ (λ _ _. Unit) (set_status_of on id finished crash) _ (pool, w1)
            (Ends-any (set_status_of on id finished crash (pool, w1)))
            (λ u2 (p, w2) h.
              or_crash-bind _ _ _ (get_working_directory id p) (p, w2) tt
                (λ wd e.
                  outside-bind _ _
                    (needs_cleanup on wd p.auto_clean have_other_jobs_for_same_commit) _ p w2
                    (λ w3. tt) (λ needs w3. q))))

  after_err_value :
      (e : PoolError E) (pool : WorkingDirectoryPool) (w : W)
      → Ends
          (λ r _. Q r.0)
          (λ _. Unit)
          (after_err on id timestamp action benchmarking_job_parameters context
            have_other_jobs_for_same_commit e
            (pool, w))
  unfolding after_err
  after_err_value e pool w =
      call-bind _ _ on.lock_exclusive host _ pool w (λ w'. tt)
        (λ u w1 e1.
          bind-Ends _ _ (λ _ _. Unit) (set_status_of on id error crash) _ (pool, w1)
            (Ends-any (set_status_of on id error crash (pool, w1)))
            (λ u2 sw h.
              bind-Ends _ _ (λ _ _. Unit) (save_processing_error on id _ timestamp) _ sw
                (Ends-any (save_processing_error on id _ timestamp sw)) (λ u3 sw' h'. tt)))

  after_value :
      (x : Outcome (PoolError E) T × (WorkingDirectoryPool × W))
      → Ends (λ t _. Q t) (λ _. Unit) x
      → Ends
          (λ r _. Q r.0)
          (λ _. Unit)
          (after on id timestamp action benchmarking_job_parameters context
            have_other_jobs_for_same_commit
            (x.0)
            (x.1))
  unfolding after
  after_value (ok t, (p, w)) q = after_ok_value t p w q
  after_value (err e, (p, w)) q = after_err_value e p w
  after_value (panic, (p, w)) q = tt

  -- The value is that of the action, run in a valid pool in which the directory can be used.
  pub process_value :
      (pool : WorkingDirectoryPool) (w : W)
      → IsValid pool
      → ((p : WorkingDirectoryPool) (w' : W)
          → IsValid p
          → IsUsable id p
          → Ends (λ t _. Q t) (λ _. Unit) (action (p, w')))
      → Ends
          (λ r _. Q r.0)
          (λ _. Unit)
          (process_in_working_directory on id timestamp action benchmarking_job_parameters context
            have_other_jobs_for_same_commit
            (pool, w))
  unfolding process_in_working_directory act
  process_value pool w v h =
      bind-Ends _ _ (λ _ sw. IsValid sw.0 × IsUsable id sw.0)
        (start on id timestamp action benchmarking_job_parameters context
          have_other_jobs_for_same_commit)
        _ (pool, w)
        (Ends-mono
          (start on id timestamp action benchmarking_job_parameters context
            have_other_jobs_for_same_commit (pool, w))
          (start-Ends on id timestamp action benchmarking_job_parameters context
            have_other_jobs_for_same_commit pool w v)
          (λ _ sw k. k) (λ sw k. tt))
        (λ _ (p, w') (v', u). after_value (action (p, w')) (h p w' v' u))
