-- ===== src/Run/RunQueue.antt =====
-- A queue of the pipeline, evobench-tools/src/run/run_queue.rs: what happens to a job that is run.
-- The runner of jobs is an argument: an action on the files and on a state `P` of its own.
pub mod Steps
pub mod Keeps
use evobench.Prelude.{
  ℕ, ◌-◌, Bool, true, false, not, Option, none, some, List, [], ◌∷◌, ltb, if◌then◌else◌,
}
use evobench.Prelude.Bytes.{Bytes}
use evobench.Prelude.Outcome.{
  Outcome, ok, err, panic, Act, pure, crash, map_err, or_fail, or_crash, ◌>>=◌, ◌>>◌,
}
use evobench.KeyValFs.AsKey.{Json}
use evobench.KeyValFs.Disk.{Disk}
use evobench.KeyValFs.TimeKey.{TimeKey}
use evobench.KeyValFs.KeyVal.{KeyVal, KeyValError, Db, Entry}
use evobench.KeyValFs.Queue
use evobench.KeyValFs.Queue.{QueueItem, unlocked, time_key}
use evobench.KeyValFs.KeyVal
use evobench.Run.Float.{Float64}
use evobench.Run.Priority
use evobench.Run.Schedule
use evobench.Run.Schedule.{ScheduleCondition, immediately, local_naive_time_window}
use evobench.Run.Job.{
  BenchmarkingJob, BenchmarkingJobState, job_priority, clone_for_queue_reinsertion,
}

pub record RunQueue (F : Type 0) : Type 0 where
  pub file_name : Bytes
  pub schedule_condition : ScheduleCondition F
  pub queue : KeyVal

pub record RunQueueWithNext (F : Type 0) : Type 0 where
  pub current : RunQueue F
  pub next : Option (RunQueue F)

-- The items of a queue, with the total priority from job and queue.
pub record RunQueueData (F : Type 0) : Type 0 where
  pub run_queue : RunQueue F
  pub queue_data : List (TimeKey × BenchmarkingJob F × F)

pub data JobStatus : Type 0 where
  active : JobStatus
  done : Bool → JobStatus
  inactive dropped : JobStatus
  error : Bool → JobStatus

unfoldable pub can_run_again : JobStatus → Bool
can_run_again active = true
can_run_again (done retained) = false
can_run_again inactive = false
can_run_again dropped = false
can_run_again (error retained) = false

pub data RunError : Type 0 where
  key_val : KeyValError → RunError
  non_comparable_number job_failed : RunError

module _ (f64 : Float64) (json : Json (BenchmarkingJob f64.F)) where
  open f64 use {F}

  -- One entry of `data`: a queue that is `Inactive` has no priority.
  with_priority :
      RunQueue F
      → QueueItem
      → BenchmarkingJob F
      → Act Disk RunError (TimeKey × BenchmarkingJob F × F)
  unfolding job_priority
  with_priority rq item job = do
    queue_priority ← or_crash (Schedule.priority f64 rq.schedule_condition)
    own ← or_fail (job_priority f64 job) non_comparable_number
    total ← or_fail (Priority.add f64 own queue_priority) non_comparable_number
    key ← map_err (Queue.item_key item) key_val
    pure (key, job, total)

  unfoldable pub data_of : RunQueue F → Act Disk RunError (RunQueueData F)
  unfolding with_priority
  data_of rq = do
    queue_data ← Queue.over_items json key_val rq.queue unlocked (with_priority rq) false
    pure (record { run_queue = rq; queue_data = queue_data })

  push_to : Option (RunQueue F) → BenchmarkingJob F → Db (Unit {0})
  push_to none job = pure tt
  push_to (some rq) job = Queue.push_front json rq.queue job

  moved : RunQueueWithNext F → Option Entry → Db (Unit {0})
  unfolding push_to
  moved rq none = pure tt
  moved rq (some entry) = do
    val ← KeyVal.entry_get time_key json entry
    push_to rq.next val
    KeyVal.delete_file rq.current.queue "deleting the value file" entry.file_name
    pure tt

  moved_all : RunQueueWithNext F → List TimeKey → Db (Unit {0})
  unfolding moved
  moved_all rq [] = pure tt
  moved_all rq (key ∷ keys) = do
    entry ← KeyVal.entry_opt time_key json rq.current.queue key
    moved rq entry
    moved_all rq keys

  -- When the time window has ended, jobs go to the next queue, or away if there is none.
  unfoldable pub handle_timeout : RunQueueWithNext F → Db (Unit {0})
  unfolding moved_all
  handle_timeout rq =
      if Schedule.move_when_time_window_ends rq.current.schedule_condition
      then (do keys ← Queue.sorted_keys rq.current.queue false; moved_all rq keys)
      else pure tt

abbrev pub Run : Type 0 → Type 0 → Type 0
Run P A = Act (Disk × P) RunError A

module _ {P : Type 0} where
  abbrev pub beside : {A : Type 0} → P → Outcome RunError A × Disk → Outcome RunError A × (Disk × P)
  beside p (r, w) = (r, (w, p))

  -- An operation of the database, in a run that has a state of its own too.
  abbrev pub on_disk : {A : Type 0} → Db A → Run P A
  on_disk m (w, p) = beside p (map_err m key_val w)

  succeeded : Outcome RunError (Unit {0}) → Run P Bool
  succeeded (ok u) = pure true
  succeeded (err e) = pure false
  succeeded panic = crash

  -- `if let Err(error) = ..`: the error is reported and the run goes on.
  pub attempt : Run P (Unit {0}) → Run P Bool
  unfolding succeeded
  attempt m s = succeeded (m s).0 (m s).1

module _ {F : Type 0} where
  -- Where a job goes that has still to be run; `Inactive` is `unreachable!` here.
  unfoldable pub next_queue : RunQueueWithNext F → Option (Option (RunQueue F))
  next_queue rq = elim rq.current.schedule_condition [
    | immediately situation ↦ some rq.next
    | local_naive_time_window w ↦ some (if w.repeatedly then some rq.current else rq.next)
    | ScheduleCondition.inactive ↦ none
  ]

module _ (f64 : Float64) (job : BenchmarkingJob f64.F) (working_directory_id : ℕ) where
  -- The job as it goes into a queue again.
  abbrev pub reinserted : ℕ → ℕ → BenchmarkingJob f64.F
  reinserted count budget = clone_for_queue_reinsertion f64 job (record {
    remaining_count = count;
    remaining_error_budget = budget;
    last_working_directory = some working_directory_id;
  })

module _ (f64 : Float64) (json : Json (BenchmarkingJob f64.F)) {P : Type 0}
    (runner : ℕ → Option Bytes → ScheduleCondition f64.F → Run P (Unit {0}))
    (rq : RunQueueWithNext f64.F) (job : BenchmarkingJob f64.F)
    (erroneous_jobs_queue done_jobs_queue : Option (RunQueue f64.F))
    (working_directory_id : ℕ) where
  open f64 use {F}

  -- Whether the job was retained in the given queue.
  pub retain : Option (RunQueue F) → BenchmarkingJob F → Run P Bool
  retain none j = pure false
  retain (some queue) j = do on_disk (Queue.push_front json queue.queue j); pure true

  pub finish_completed_job : ℕ → Run P JobStatus
  unfolding retain
  finish_completed_job count = do
    retained ←
        retain done_jobs_queue
          (reinserted f64 job working_directory_id count job.state.remaining_error_budget)
    pure (done retained)

  pub handle_out_of_error_budget : Run P JobStatus
  unfolding retain
  handle_out_of_error_budget = do
    retained ←
        retain erroneous_jobs_queue
          (reinserted f64 job working_directory_id job.state.remaining_count 0)
    pure (error retained)

  pub go_on : Option (RunQueue F) → BenchmarkingJob F → Run P JobStatus
  unfolding retain
  go_on queue j = do pushed ← retain queue j; pure (if pushed then active else dropped)

  pub after_failure : Run P JobStatus
  unfolding handle_out_of_error_budget
  after_failure =
      let budget = job.state.remaining_error_budget - 1 in
      if ltb 0 budget
      then (do
        on_disk (
            Queue.push_front json rq.current.queue
              (reinserted f64 job working_directory_id job.state.remaining_count budget))
        pure active)
      else handle_out_of_error_budget

  pub after_success : Run P JobStatus
  unfolding next_queue go_on finish_completed_job
  after_success =
      let count = job.state.remaining_count - 1 in
      if ltb 0 count
      then (do
        queue ← or_crash (next_queue rq)
        go_on queue
            (reinserted f64 job working_directory_id count job.state.remaining_error_budget))
      else finish_completed_job count

  pub one_run : Run P JobStatus
  unfolding attempt after_success after_failure
  one_run = do
    good ← attempt (runner working_directory_id job.public.reason rq.current.schedule_condition)
    if good then after_success else after_failure

  pub new_status : Run P JobStatus
  unfolding one_run finish_completed_job handle_out_of_error_budget
  new_status =
      if ltb 0 job.state.remaining_error_budget
      then (if ltb 0 job.state.remaining_count
          then one_run
          else finish_completed_job job.state.remaining_count)
      else handle_out_of_error_budget

  -- The item is deleted last, when its job is in the queue it goes to.
  unfoldable pub run_job : QueueItem → Run P JobStatus
  unfolding new_status
  run_job item = do
    on_disk (Queue.lock_item item)
    job_status ← new_status
    on_disk (Queue.delete_item rq.current.queue item)
    pure job_status
