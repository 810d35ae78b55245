-- ===== src/Run/RunQueues/Data/Search.antt =====
-- What the search for candidates finds: every job of a queue that can run is matched by a candidate.
use evobench.Prelude.{
  ℕ, ◌≡◌, refl, sym, Option, none, some, List, [], ◌∷◌, inl, inr, All, Any, All-map,
}
use mathlib.Core.Path.{subst}
use evobench.Prelude.Outcome.{Outcome, ok, err, panic, pure, lift, ◌>>=◌}
use evobench.Prelude.Hoare.{Triple, Triple-bind, Triple-pure}
use evobench.KeyValFs.Disk.{Disk}
use evobench.Run.Float.{Float64, IsNumber, IsOrdered}
use evobench.Run.Priority.Least.{Le, IsLeast, min_by_key-IsLeast}
use evobench.Run.Schedule.{is_runnable_at}
use evobench.Run.Schedule.Window.{Chrono, DateTimeRange}
use evobench.Run.RunQueue.{RunError}
use evobench.Run.RunQueues.Data.{
  JobEntry, RunQueueDataWithNext, Candidate, rank, job_rank, candidates, candidate_of, best_in,
  push_some,
}

module _ (f64 : Float64) (laws : IsOrdered f64) (chrono : Chrono) (now : ℕ) where
  open f64 use {F}

  -- The queue can run now, with this time window.
  abbrev pub Runnable : RunQueueDataWithNext F → Option DateTimeRange → Type 0
  Runnable rq range =
      is_runnable_at chrono {E = RunError} rq.current.run_queue.schedule_condition now
      ≡ ok (some range)

  abbrev pub Numbers : RunQueueDataWithNext F → Type 0
  Numbers rq = All (λ (e : JobEntry F). IsNumber f64 (job_rank f64 e)) rq.current.queue_data

  -- The candidate is a job of one of the queues that can run.
  abbrev pub From : Candidate F → List (RunQueueDataWithNext F) → Type 0
  From c rqs =
      Any
        (λ rq.
          (c.queue ≡ rq) × (Any (λ e. e ≡ c.entry) rq.current.queue_data × Runnable rq c.range))
        rqs

  -- Every job of the queues that can run is at most as urgent as some candidate.
  abbrev pub Covers : List (Candidate F) → List (RunQueueDataWithNext F) → Type 0
  Covers cs rqs =
      All
        (λ rq.
          (range : Option DateTimeRange)
          → Runnable rq range
          → All (λ e. Any (λ c. Le f64 laws (rank f64 c) (job_rank f64 e)) cs)
              rq.current.queue_data)
        rqs

  abbrev pub Good : List (Candidate F) → List (RunQueueDataWithNext F) → Type 0
  Good cs rqs = Covers cs rqs × (All (λ c. IsNumber f64 (rank f64 c)) cs × All (λ c. From c rqs) cs)

  module _ (rq : RunQueueDataWithNext F) (rqs : List (RunQueueDataWithNext F))
      (cs : List (Candidate F)) where
    skip_Good :
        ((range : Option DateTimeRange) → Runnable rq range → rq.current.queue_data ≡ [])
        → Good cs rqs
        → Good cs (rq ∷ rqs)
    skip_Good empty (covers, (numbers, places)) = (
      (λ range runs. subst (All _) (sym (empty range runs)) tt, covers),
      (numbers, All-map cs (λ c place. inr place) places),
    )

    push_Good :
        (c : Candidate F)
        → From c (rq ∷ rqs)
        → IsNumber f64 (rank f64 c)
        → All (λ e. Le f64 laws (rank f64 c) (job_rank f64 e)) rq.current.queue_data
        → Good cs rqs
        → Good (c ∷ cs) (rq ∷ rqs)
    push_Good c place number least (covers, (numbers, places)) = (
      (
        λ range runs. All-map rq.current.queue_data (λ e le. inl le) least,
        All-map rqs
            (λ r cover range runs.
              All-map r.current.queue_data (λ e some_c. inr some_c) (cover range runs))
            covers,
      ),
      ((number, numbers), (place, All-map cs (λ c place. inr place) places)),
    )

  -- The search reads no file.
  abbrev pub Same : Disk → Disk → Type 0
  Same w0 w = w ≡ w0

  module _ (rq : RunQueueDataWithNext F) (rqs : List (RunQueueDataWithNext F)) (w0 : Disk) where
    abbrev GoodAt : List (RunQueueDataWithNext F) → List (Candidate F) → Disk → Type 0
    GoodAt qs cs w = Same w0 w × Good cs qs

    abbrev IsSearch : Type 0
    IsSearch = Triple (Same w0) (candidates f64 chrono now rqs) (GoodAt rqs) (Same w0)

    tail_step :
        (best : Option (Candidate F))
        → ((cs : List (Candidate F))
            → Good cs rqs
            → Good (push_some f64 chrono now best cs) (rq ∷ rqs))
        → IsSearch
        → Triple
            (Same w0)
            (candidates f64 chrono now rqs >>= λ cs. pure (push_some f64 chrono now best cs))
            (GoodAt (rq ∷ rqs))
            (Same w0)
    tail_step best f others =
        Triple-bind _
          (λ cs. Triple-pure (push_some f64 chrono now best cs) (λ s h. (h.0, f cs h.1))) _ others

    in_queue :
        (range : Option DateTimeRange)
        → Runnable rq range
        → (found : Outcome RunError (Option (JobEntry F)))
        → IsLeast f64 laws (job_rank f64) rq.current.queue_data found
        → IsSearch
        → Triple
            (Same w0)
            (lift found >>= (λ e. pure (candidate_of f64 chrono now rq range e)) >>= λ best.
              candidates f64 chrono now rqs >>= λ cs. pure (push_some f64 chrono now best cs))
            (GoodAt (rq ∷ rqs))
            (Same w0)
    unfolding candidate_of push_some
    in_queue range runs (ok none) is_empty others = record {
      at = λ s h.
          (tail_step none (λ cs good. skip_Good rq rqs cs (λ _ _. is_empty) good) others).at s h;
    }
    in_queue range runs (ok (some e)) (place, number, least) others = record {
      at = λ s h.
          (tail_step (some (record { entry = e; queue = rq; range = range }))
              (λ cs good.
                push_Good rq rqs cs (record { entry = e; queue = rq; range = range })
                  (inl (refl, (place, runs))) number least good)
              others).at
            s h;
    }
    in_queue range runs (err e) found others = absurd found
    in_queue range runs panic found others = absurd found

    queue_step :
        (r : Outcome RunError (Option (Option DateTimeRange)))
        → is_runnable_at chrono {E = RunError} rq.current.run_queue.schedule_condition now ≡ r
        → Numbers rq
        → IsSearch
        → Triple
            (Same w0)
            (lift r >>= λ runnable. best_in f64 chrono now rq runnable >>= λ best.
              candidates f64 chrono now rqs >>= λ cs. pure (push_some f64 chrono now best cs))
            (GoodAt (rq ∷ rqs))
            (Same w0)
    unfolding best_in push_some
    queue_step (ok none) e numbers others = record {
      at = λ s h.
          (tail_step none (λ cs good. skip_Good rq rqs cs (λ range runs. cc) good) others).at s h;
    }
    queue_step (ok (some range)) e numbers others = record {
      at = λ s h.
          (in_queue range e _
              (min_by_key-IsLeast f64 laws RunError (job_rank f64) rq.current.queue_data numbers)
              others).at
            s h;
    }
    queue_step (err x) e numbers others = record { at = λ s h. h }
    queue_step panic e numbers others = record { at = λ s h. h }

  pub candidates-Good :
      (rqs : List (RunQueueDataWithNext F)) (w0 : Disk)
      → All Numbers rqs
      → Triple (Same w0) (candidates f64 chrono now rqs) (λ cs w. Same w0 w × Good cs rqs) (Same w0)
  unfolding candidates
  candidates-Good [] w0 numbers = Triple-pure [] (λ s h. (h, (tt, (tt, tt))))
  candidates-Good (rq ∷ rqs) w0 (number, numbers) =
      queue_step rq rqs w0 _ refl number (candidates-Good rqs w0 numbers)
