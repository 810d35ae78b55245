-- ===== src/Run/RunContext.antt =====
-- What a run of the daemon remembers: evobench-tools/src/run/run_context.rs. The queues that are open stand for a
-- `BTreeMap` from names to the ends of time windows, as a list in the order of the bytes of the names.

pub mod Closing
use Prim.Native.Nat.{Ordering, compare}
use evobench.Prelude.{
  ℕ, Bool, true, false, not, Option, none, some, List, [], ◌∷◌, leb, keep, if◌then◌else◌,
}
use evobench.Prelude.Bytes.{Bytes, same}
use evobench.Prelude.Outcome.{Act, pure, ◌>>=◌, ◌>>◌}
use evobench.Prelude.Local.{outside, get, modify, zoom}
use evobench.KeyValFs.AsKey.{Json}
use evobench.KeyValFs.Disk.{Disk}
use evobench.KeyValFs.KeyVal.{KeyValError}
use evobench.Run.Float.{Float64}
use evobench.Run.Job.{BenchmarkingJob}
use evobench.Run.Schedule
use evobench.Run.Schedule.Window.{DateTimeRange}
use evobench.Run.StopStartStatus.{StopStartStatus, RunCommandError, Command, be}
use evobench.Run.RunQueue.{RunQueue, RunQueueWithNext, handle_timeout}
use evobench.Run.RunQueues.{get_run_queue_with_next_by_name}

abbrev pub OpenQueue : Type 0
OpenQueue = Bytes × ℕ

pub record RunContext : Type 0 where
  pub stop_start_status : StopStartStatus
  pub open_queues : List OpenQueue

-- The order of names, byte by byte.
unfoldable pub compare_names : Bytes → Bytes → Ordering
compare_names [] [] = Ordering.eq
compare_names [] (b ∷ bs) = Ordering.lt
compare_names (a ∷ as') [] = Ordering.gt
compare_names (a ∷ as') (b ∷ bs) = elim (compare a b) [
  | Ordering.lt ↦ Ordering.lt
  | Ordering.eq ↦ compare_names as' bs
  | Ordering.gt ↦ Ordering.gt
]

unfoldable pub insert : Bytes → ℕ → List OpenQueue → List OpenQueue
unfolding compare_names
insert name to [] = (name, to) ∷ []
insert name to ((n, t) ∷ qs) = elim (compare_names name n) [
  | Ordering.lt ↦ (name, to) ∷ (n, t) ∷ qs
  | Ordering.eq ↦ (n, to) ∷ qs
  | Ordering.gt ↦ (n, t) ∷ insert name to qs
]

unfoldable pub remove : Bytes → List OpenQueue → List OpenQueue
remove name qs = keep (λ q. not (same name q.0)) qs

unfoldable pub stop_start_be :
    {W E : Type 0}
    → (Command → Bytes → Act W E Bool)
    → Option Command
    → Act (RunContext × W) (RunCommandError E) (Unit {0})
stop_start_be status stop_start (ctx, w) =
    zoom (ctx.stop_start_status)
      (λ s c. record { stop_start_status = s; open_queues = c.open_queues }) (be status stop_start)
      (ctx, w)

-- The names of the queues whose time window has closed.
unfoldable pub closing : ℕ → List OpenQueue → List Bytes
closing now [] = []
closing now ((name, to) ∷ qs) = if leb to now then name ∷ closing now qs else closing now qs

pub without : Bytes → RunContext → RunContext
unfolding remove
without name ctx = record {
  stop_start_status = ctx.stop_start_status;
  open_queues = remove name ctx.open_queues;
}

module _ (f64 : Float64) (json : Json (BenchmarkingJob f64.F)) where
  open f64 use {F}

  unfoldable pub running_job_in_windowed_queue :
      RunQueue F → DateTimeRange → RunContext → RunContext
  unfolding insert
  running_job_in_windowed_queue queue dtr ctx =
      if Schedule.move_when_time_window_ends queue.schedule_condition
      then record {
        stop_start_status = ctx.stop_start_status;
        open_queues = insert queue.file_name dtr.to ctx.open_queues;
      }
      else ctx

  -- A queue that is not found stays open.
  pub close_queue :
      Bytes → Option (RunQueueWithNext F) → Act (RunContext × Disk) KeyValError (Unit {0})
  unfolding handle_timeout without
  close_queue name none = pure tt
  close_queue name (some rqwn) = do
    _ ← outside (handle_timeout f64 json rqwn)
    modify (without name)

  pub close_queues : List (RunQueue F) → List Bytes → Act (RunContext × Disk) KeyValError (Unit {0})
  unfolding close_queue
  close_queues run_queues [] = pure tt
  close_queues run_queues (name ∷ names) = do
    _ ← close_queue name (get_run_queue_with_next_by_name run_queues name)
    close_queues run_queues names

  unfoldable pub close_open_queues :
      ℕ → List (RunQueue F) → Act (RunContext × Disk) KeyValError (Unit {0})
  unfolding close_queues
  close_open_queues now run_queues = do
    ctx ← get
    close_queues run_queues (closing now ctx.open_queues)
