-- ===== src/Run/RunQueues.antt =====
-- The pipeline of queues, evobench-tools/src/run/run_queues.rs: checking the configuration, opening the
-- queues, loading their items, and choosing the job that runs next.
pub mod Check
pub mod Data
use evobench.Prelude.{
  ℕ, suc, ◌+◌, Bool, true, false, not, Option, none, some, List, [], ◌∷◌, ◌++◌, ltb, if◌then◌else◌,
}
use mathlib.Core.Option
use evobench.Prelude.Bytes.{Bytes, same}
use evobench.Prelude.Outcome.{Outcome, Act, pure, fail, lift, map_err, ◌>>=◌, ◌>>◌}
use evobench.KeyValFs.AsKey.{Json}
use evobench.KeyValFs.Disk.{Disk}
use evobench.KeyValFs.TimeKey.{TimeKey}
use evobench.KeyValFs.KeyVal
use evobench.KeyValFs.KeyVal.{KeyValSync, Db}
use evobench.KeyValFs.Queue
use evobench.KeyValFs.Queue.{QueueItem, unlocked}
use evobench.Run.Float.{Float64}
use evobench.Run.Priority
use evobench.Run.Schedule
use evobench.Run.Schedule.{ScheduleCondition}
use evobench.Run.Schedule.Window.{Chrono, DateTimeRange}
use evobench.Run.Job.{BenchmarkingJob}
use evobench.Run.RunQueue.{RunQueue, RunQueueWithNext, RunQueueData, RunError, key_val, data_of}

pub record RunQueues (F : Type 0) : Type 0 where
  pub pipeline : List (RunQueue F)
  pub erroneous_jobs_queue : Option (RunQueue F)
  pub done_jobs_queue : Option (RunQueue F)

pub data ConfigError : Type 0 where
  no_queues duplicate_name empty_stop_start inactive_twice inactive_not_last extra_not_inactive :
      ConfigError
  open_failed : KeyVal.KeyValError → ConfigError

-- The checks keep the set of the names that were seen.
abbrev pub Checking : Type 0 → Type 0
Checking A = Act (List Bytes) ConfigError A

unfoldable pub contains : List Bytes → Bytes → Bool
contains [] name = false
contains (n ∷ ns) name = if same n name then true else contains ns name

pub check_seen : Bytes → Checking (Unit {0})
unfolding contains
check_seen name seen =
    if contains seen name then fail duplicate_name seen else pure tt (name ∷ seen)

pub check_stop_start : Option (List Bytes) → Checking (Unit {0})
check_stop_start none = pure tt
check_stop_start (some []) = fail empty_stop_start
check_stop_start (some (a ∷ l)) = pure tt

module _ {F : Type 0} where
  -- The loop over the pipeline; the result is `inactive_count`.
  pub check_queues : List (RunQueue F) → ℕ → Checking ℕ
  unfolding check_seen check_stop_start
  check_queues [] inactive_count = pure inactive_count
  check_queues (rq ∷ rqs) inactive_count = do
    check_seen rq.file_name
    check_stop_start (Schedule.stop_start rq.schedule_condition)
    check_queues rqs
        (if Schedule.is_inactive rq.schedule_condition then inactive_count + 1 else inactive_count)

  pub last_is_inactive : List (RunQueue F) → Bool
  last_is_inactive [] = false
  last_is_inactive (rq ∷ []) = Schedule.is_inactive rq.schedule_condition
  last_is_inactive (rq ∷ r ∷ rs) = last_is_inactive (r ∷ rs)

  pub check_inactive_count : List (RunQueue F) → ℕ → Checking (Unit {0})
  unfolding last_is_inactive
  check_inactive_count pipeline inactive_count =
      if ltb 1 inactive_count
      then fail inactive_twice
      else (if ltb 0 inactive_count
          then (if last_is_inactive pipeline then pure tt else fail inactive_not_last)
          else pure tt)

  pub check_extra_queue : Option (RunQueue F) → Checking (Unit {0})
  unfolding check_seen
  check_extra_queue none = pure tt
  check_extra_queue (some rq) = do
    check_seen rq.file_name
    if Schedule.is_inactive rq.schedule_condition then pure tt else fail extra_not_inactive

  is_empty : List (RunQueue F) → Bool
  is_empty [] = true
  is_empty (rq ∷ rqs) = false

  pub check_all : RunQueues F → Checking (Unit {0})
  unfolding is_empty check_queues check_inactive_count check_extra_queue
  check_all queues = do
    if is_empty queues.pipeline then fail no_queues else pure tt
    inactive_count ← check_queues queues.pipeline 0
    check_inactive_count queues.pipeline inactive_count
    check_extra_queue queues.erroneous_jobs_queue
    check_extra_queue queues.done_jobs_queue

  unfoldable pub check_run_queues : RunQueues F → Outcome ConfigError (Unit {0})
  unfolding check_all
  check_run_queues queues = (check_all queues []).0

  -- The queue with this name, with the queue that follows it.
  unfoldable pub get_run_queue_with_next_by_name :
      List (RunQueue F) → Bytes → Option (RunQueueWithNext F)
  get_run_queue_with_next_by_name [] file_name = none
  get_run_queue_with_next_by_name (current ∷ []) file_name =
      if same current.file_name file_name
      then some (record { current = current; next = none })
      else none
  get_run_queue_with_next_by_name (current ∷ next ∷ rqs) file_name =
      let rest = get_run_queue_with_next_by_name (next ∷ rqs) file_name in
      if same current.file_name file_name
      then some (record { current = current; next = some next })
      else rest

  -- Opening: a directory for each queue, synced always.
  make_run_queue : Bytes → Bool → Bool → Bytes × ScheduleCondition F → Db (RunQueue F)
  make_run_queue basedir create_dirs signal (file_name, schedule_condition) = do
    queue ← KeyVal.open_db (basedir ++ b'/' ∷ file_name) KeyValSync.all create_dirs signal
    pure (record { file_name = file_name; schedule_condition = schedule_condition; queue = queue })

  make_pipeline : Bytes → Bool → Bool → List (Bytes × ScheduleCondition F) → Db (List (RunQueue F))
  unfolding make_run_queue
  make_pipeline basedir create_dirs signal [] = pure []
  make_pipeline basedir create_dirs signal (cfg ∷ cfgs) = do
    rq ← make_run_queue basedir create_dirs signal cfg
    rqs ← make_pipeline basedir create_dirs signal cfgs
    pure (rq ∷ rqs)

  make_extra : Bytes → Bool → Bool → Option (Bytes × ScheduleCondition F) → Db (Option (RunQueue F))
  unfolding make_run_queue
  make_extra basedir create_dirs signal none = pure none
  make_extra basedir create_dirs signal (some cfg) = do
    rq ← make_run_queue basedir create_dirs signal cfg
    pure (some rq)

-- `QueuesConfig`, as far as the queues go
pub record QueuesConfig (F : Type 0) : Type 0 where
  pub pipeline : List (Bytes × ScheduleCondition F)
  pub erroneous_jobs_queue : Option (Bytes × ScheduleCondition F)
  pub done_jobs_queue : Option (Bytes × ScheduleCondition F)

module _ {F : Type 0} where
  unfoldable pub open_queues :
      QueuesConfig F → Bytes → Bool → Bool → Act Disk ConfigError (RunQueues F)
  unfolding make_pipeline make_extra check_run_queues
  open_queues config basedir create_dirs signal = do
    pipeline ← map_err (make_pipeline basedir create_dirs signal config.pipeline) open_failed
    erroneous ←
        map_err (make_extra basedir create_dirs signal config.erroneous_jobs_queue) open_failed
    finished ← map_err (make_extra basedir create_dirs signal config.done_jobs_queue) open_failed
    let queues : RunQueues F = record {
      pipeline = pipeline;
      erroneous_jobs_queue = erroneous;
      done_jobs_queue = finished;
    }
    lift (check_run_queues queues)
    pure queues
