-- ===== src/Run/RunQueues/Data.antt =====
-- The loaded items of all queues, `RunQueuesData` of evobench-tools/src/run/run_queues.rs: finding jobs by
-- commit, and the most prioritized job.
pub mod Search
pub mod Choice
pub mod Index
use evobench.Prelude.{
  ℕ, suc, ◌+◌, Bool, true, false, not, Option, none, some, List, [], ◌∷◌, ◌++◌, if◌then◌else◌,
}
use mathlib.Core.Option
use evobench.Prelude.Bytes.{Bytes, same}
use evobench.Prelude.Outcome.{Outcome, Act, pure, lift, map_err, ◌>>=◌, ◌>>◌}
use evobench.KeyValFs.AsKey.{Json}
use evobench.KeyValFs.Disk.{Disk}
use evobench.KeyValFs.TimeKey.{TimeKey}
use evobench.KeyValFs.Queue
use evobench.KeyValFs.Queue.{QueueItem, unlocked}
use evobench.Run.Float.{Float64}
use evobench.Run.Priority
use evobench.Run.Schedule
use evobench.Run.Schedule.Window.{Chrono, DateTimeRange}
use evobench.Run.Job.{BenchmarkingJob}
use evobench.Run.RunQueue.{RunQueue, RunQueueData, RunError, key_val, data_of}
use evobench.Run.RunQueues.{RunQueues}

-- An index from commits to (index of the queue, index in the queue), in the order of insertion.
abbrev pub CommitIndex : Type 0
CommitIndex = List (Bytes × List (ℕ × ℕ))

pub record RunQueuesData (F : Type 0) : Type 0 where
  pub run_queues : RunQueues F
  pub pipeline_data : List (RunQueueData F)
  pub commit_index : CommitIndex

abbrev pub JobEntry : Type 0 → Type 0
JobEntry F = TimeKey × BenchmarkingJob F × F

-- `entry(commit_id)`: a new vector, or one more element at the end of the one there is.
push_entry : Bytes → ℕ × ℕ → CommitIndex → CommitIndex
push_entry commit_id ij [] = (commit_id, ij ∷ []) ∷ []
push_entry commit_id ij ((c, ijs) ∷ index) =
    let rest = push_entry commit_id ij index in
    if same c commit_id then (c, ijs ++ ij ∷ []) ∷ index else (c, ijs) ∷ rest

lookup_commit : Bytes → CommitIndex → List (ℕ × ℕ)
lookup_commit commit_id [] = []
lookup_commit commit_id ((c, ijs) ∷ index) =
    if same c commit_id then ijs else lookup_commit commit_id index

is_empty_list : List (ℕ × ℕ) → Bool
is_empty_list [] = true
is_empty_list (x ∷ l) = false

module _ {F : Type 0} where
  abbrev pub commit_of : JobEntry F → Bytes
  commit_of e = e.1.public.run_parameters.commit_id

  index_jobs : ℕ → ℕ → List (JobEntry F) → CommitIndex → CommitIndex
  unfolding push_entry
  index_jobs i j [] index = index
  index_jobs i j (e ∷ es) index = index_jobs i (suc j) es (push_entry (commit_of e) (i, j) index)

  index_queues : ℕ → List (RunQueueData F) → CommitIndex → CommitIndex
  unfolding index_jobs
  index_queues i [] index = index
  index_queues i (d ∷ ds) index = index_queues (suc i) ds (index_jobs i 0 d.queue_data index)

  unfoldable pub jobs_by_commit_id : RunQueuesData F → Bytes → List (ℕ × ℕ)
  unfolding lookup_commit
  jobs_by_commit_id data' commit_id = lookup_commit commit_id data'.commit_index

  unfoldable pub have_job_with_commit_id : RunQueuesData F → Bytes → Bool
  unfolding is_empty_list
  have_job_with_commit_id data' commit_id = not (is_empty_list (jobs_by_commit_id data' commit_id))

module _ (f64 : Float64) (json : Json (BenchmarkingJob f64.F)) where
  open f64 use {F}

  load_queues : List (RunQueue F) → Act Disk RunError (List (RunQueueData F))
  load_queues [] = pure []
  load_queues (rq ∷ rqs) = do d ← data_of f64 json rq; ds ← load_queues rqs; pure (d ∷ ds)

  -- `RunQueues::data`
  unfoldable pub load : RunQueues F → Act Disk RunError (RunQueuesData F)
  unfolding load_queues index_queues
  load queues = do
    pipeline_data ← load_queues queues.pipeline
    pure (record {
      run_queues = queues;
      pipeline_data = pipeline_data;
      commit_index = index_queues 0 pipeline_data [];
    })

pub record RunQueueDataWithNext (F : Type 0) : Type 0 where
  pub current : RunQueueData F
  pub next : Option (RunQueueData F)

-- Each queue with its successor, in the configured order.
unfoldable pub run_queue_with_nexts :
    {F : Type 0} → List (RunQueueData F) → List (RunQueueDataWithNext F)
run_queue_with_nexts [] = []
run_queue_with_nexts (d ∷ []) = record { current = d; next = none } ∷ []
run_queue_with_nexts (d ∷ e ∷ ds) =
    record { current = d; next = some e } ∷ run_queue_with_nexts (e ∷ ds)

-- A job that could run, from an active queue with its time window if any.
pub record Candidate (F : Type 0) : Type 0 where
  pub entry : JobEntry F
  pub queue : RunQueueDataWithNext F
  pub range : Option DateTimeRange

module _ (f64 : Float64) where
  open f64 use {F}

  abbrev pub job_rank : JobEntry F → F
  job_rank e = Priority.neg f64 e.2

  abbrev pub rank : Candidate F → F
  rank c = job_rank c.entry

  module _ (chrono : Chrono) (reference_time : ℕ) where
    candidate_of :
        RunQueueDataWithNext F → Option DateTimeRange → Option (JobEntry F) → Option (Candidate F)
    candidate_of rq range none = none
    candidate_of rq range (some e) = some (record { entry = e; queue = rq; range = range })

    best_in :
        RunQueueDataWithNext F
        → Option (Option DateTimeRange)
        → Act Disk RunError (Option (Candidate F))
    unfolding candidate_of
    best_in rq none = pure none
    best_in rq (some range) = do
      entry ← lift (Priority.min_by_key f64 job_rank rq.current.queue_data)
      pure (candidate_of rq range entry)

    push_some : Option (Candidate F) → List (Candidate F) → List (Candidate F)
    push_some none cs = cs
    push_some (some c) cs = c ∷ cs

    -- `active_queues` and the best job of each.
    pub candidates : List (RunQueueDataWithNext F) → Act Disk RunError (List (Candidate F))
    unfolding best_in push_some
    candidates [] = pure []
    candidates (rq ∷ rqs) = do
      runnable ←
          lift
            (Schedule.is_runnable_at chrono rq.current.run_queue.schedule_condition reference_time)
      best ← best_in rq runnable
      cs ← candidates rqs
      pure (push_some best cs)

    unfoldable pub choose : List (RunQueueData F) → Act Disk RunError (Option (Candidate F))
    unfolding candidates
    choose pipeline_data = do
      cs ← candidates (run_queue_with_nexts pipeline_data)
      lift (Priority.min_by_key f64 rank cs)

  module _ (json : Json (BenchmarkingJob F)) (chrono : Chrono) where
    -- The item is got again, since it can have disappeared.
    fetched : Option (Candidate F) → Act Disk RunError (Option (Candidate F × QueueItem))
    fetched none = pure none
    fetched (some c) = do
      item ←
          map_err (Queue.get_item json c.queue.current.run_queue.queue c.entry.0 unlocked) key_val
      pure (Option.map (λ i. (c, i)) item)

    unfoldable pub most_prioritized_job :
        RunQueuesData F → ℕ → Act Disk RunError (Option (Candidate F × QueueItem))
    unfolding choose fetched
    most_prioritized_job data' now = do
      chosen ← choose chrono now data'.pipeline_data
      fetched chosen
