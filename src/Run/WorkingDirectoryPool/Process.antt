-- ===== src/Run/WorkingDirectoryPool/Process.antt =====
-- Running an action in a working directory of the pool, and deleting the directory afterwards:
-- `process_in_working_directory` and `working_directory_cleanup` of evobench-tools/src/run/working_directory_pool.rs.
pub mod Errors
pub mod Results
pub mod States
pub mod Values
use evobench.Prelude.{
  ℕ, ◌≡◌, refl, Bool, true, false, Option, none, some, List, [], ◌∷◌, ◌++◌, if◌then◌else◌,
}
use evobench.Prelude.Bytes.{Bytes, codes}
use evobench.Prelude.Outcome.{
  Outcome, ok, err, panic, Act, pure, fail, crash, or_fail, or_crash, ◌>>=◌, ◌>>◌,
}
use evobench.Prelude.Local.{outside, get}
use evobench.Run.Job.{BenchmarkingJobParameters}
use evobench.Run.WorkingDirectory.{
  Status, processing, finished, error, Host, PoolError, set_aside, must_still_exist, status_of,
  is_active, call, set_and_save_status, ProcessingError,
}
use evobench.Run.WorkingDirectory.Cleanup.{needs_cleanup}
use evobench.Run.WorkingDirectoryPool.{
  WorkingDirectoryPool, Do, get_working_directory, on_entry, set_current_working_directory,
  delete_working_directory,
}
use evobench.Run.WorkingDirectoryPool.Id.{to_directory_file_name}

pub record WorkingDirectoryCleanupToken : Type 0 where
  pub working_directory_id : ℕ
  pub needs_cleanup : Bool

module _ {W E : Type 0} (on : Host W E) where
  unfoldable pub save_processing_error : ℕ → ProcessingError E → Bytes → Do on (Unit {0})
  save_processing_error id processing_error timestamp = do
    pool ← get
    processing_error_string ← call on (on.to_yaml processing_error)
    call on (
        on.write
          (on.append pool.base_dir (to_directory_file_name id ++ (codes ".error_at_" ++ timestamp)))
          processing_error_string)

  -- `set_and_save_status` of an entry that must be there.
  unfoldable pub set_status_of : ℕ → Status → Do on (Unit {0}) → Do on (Unit {0})
  set_status_of id status otherwise = on_entry on id (set_and_save_status on status) otherwise

  module _ {T : Type 0} (id : ℕ) (timestamp : Bytes) (action : Do on T)
      (benchmarking_job_parameters : Option BenchmarkingJobParameters) (context : Bytes)
      (have_other_jobs_for_same_commit : Option Bool) where
    -- The directory is current and in state `Processing`.
    unfoldable pub start : Do on (Unit {0})
    start = do
      call on on.lock_exclusive
      set_current_working_directory on id
      pool ← get
      wd ← or_fail (get_working_directory id pool) must_still_exist
      (if is_active wd then pure tt else fail (set_aside (status_of wd)))
      set_status_of id processing (fail must_still_exist)

    unfoldable pub after_ok : T → Do on (T × WorkingDirectoryCleanupToken)
    after_ok v = do
      call on on.lock_exclusive
      set_status_of id finished crash
      pool ← get
      wd ← or_crash (get_working_directory id pool)
      needs ← outside (needs_cleanup on wd pool.auto_clean have_other_jobs_for_same_commit)
      pure (v, record { working_directory_id = id; needs_cleanup = needs })

    unfoldable pub after_err : PoolError E → Do on (T × WorkingDirectoryCleanupToken)
    after_err e = do
      call on on.lock_exclusive
      set_status_of id error crash
      save_processing_error id
          (record {
            benchmarking_job_parameters = benchmarking_job_parameters;
            context = context;
            error_value = e;
          })
          timestamp
      fail e

    unfoldable pub after : Outcome (PoolError E) T → Do on (T × WorkingDirectoryCleanupToken)
    after (ok v) = after_ok v
    after (err e) = after_err e
    after panic = crash

    act : Do on (T × WorkingDirectoryCleanupToken)
    act s = let r = action s in after r.0 r.1

    unfoldable pub process_in_working_directory : Do on (T × WorkingDirectoryCleanupToken)
    unfolding act
    process_in_working_directory = do start; act

  unfoldable pub working_directory_cleanup : WorkingDirectoryCleanupToken → Do on (Unit {0})
  working_directory_cleanup cleanup =
      if cleanup.needs_cleanup
      then (do call on on.lock_exclusive; delete_working_directory on cleanup.working_directory_id)
      else pure tt
