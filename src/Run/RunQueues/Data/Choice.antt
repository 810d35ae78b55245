-- ===== src/Run/RunQueues/Data/Choice.antt =====
-- The job that is chosen has the highest priority of all jobs that could run.
use evobench.Prelude.{
  ℕ, ◌≡◌, refl, ◌∙◌, Option, none, some, List, [], ◌∷◌, All, Any, All-map, Any-All, All-both,
}
use mathlib.Core.Path.{subst}
use evobench.Prelude.Outcome.{Outcome, ok, err, panic, lift}
use evobench.Prelude.Hoare.{Ends, Ends-mono, Triple, Triple-bind}
use evobench.KeyValFs.Disk.{Disk}
use evobench.Run.Float.{Float64, IsNumber, IsOrdered}
use evobench.Run.Priority
use evobench.Run.Priority.Least.{Le, IsLeast, min_by_key-IsLeast}
use evobench.Run.Schedule.Window.{Chrono, DateTimeRange}
use evobench.Run.RunQueue.{RunQueueData, RunError}
use evobench.Run.RunQueues.Data.Search
use evobench.Run.RunQueues.Data.{
  JobEntry, RunQueueDataWithNext, Candidate, run_queue_with_nexts, rank, job_rank, choose,
}

module _ (f64 : Float64) (laws : IsOrdered f64) (chrono : Chrono) (now : ℕ) where
  open f64 use {F}

  abbrev pub Runnable : RunQueueDataWithNext F → Option DateTimeRange → Type 0
  Runnable = Search.Runnable f64 laws chrono now

  abbrev Numbers : RunQueueDataWithNext F → Type 0
  Numbers = Search.Numbers f64 laws chrono now

  abbrev pub From : Candidate F → List (RunQueueDataWithNext F) → Type 0
  From = Search.From f64 laws chrono now

  abbrev Covers : List (Candidate F) → List (RunQueueDataWithNext F) → Type 0
  Covers = Search.Covers f64 laws chrono now

  abbrev Good : List (Candidate F) → List (RunQueueDataWithNext F) → Type 0
  Good = Search.Good f64 laws chrono now

  abbrev pub Same : Disk → Disk → Type 0
  Same = Search.Same f64 laws chrono now

  -- The choice, by rank: nothing if no queue that can run has a job, and otherwise a job of such a queue
  -- that has the least rank of all jobs of such queues.
  abbrev ByRank : Option (Candidate F) → List (RunQueueDataWithNext F) → Type 0
  ByRank none rqs =
      All (λ rq. (range : Option DateTimeRange) → Runnable rq range → rq.current.queue_data ≡ [])
        rqs
  ByRank (some c) rqs =
      From c rqs
      × All
          (λ rq.
            (range : Option DateTimeRange)
            → Runnable rq range
            → All (λ e. Le f64 laws (rank f64 c) (job_rank f64 e)) rq.current.queue_data)
          rqs

  -- What no list element can have leaves the list empty.
  no_elements : {A : Type 0} (xs : List A) → All (λ _. ⊥) xs → xs ≡ []
  no_elements [] h = refl
  no_elements (x ∷ xs) h = absurd h.0

  no_candidates : (rqs : List (RunQueueDataWithNext F)) → Good [] rqs → ByRank none rqs
  no_candidates rqs (covers, _) =
      All-map rqs (λ rq cover range runs. no_elements rq.current.queue_data (cover range runs))
        covers

  first_candidate :
      (c : Candidate F) (cs : List (Candidate F)) (rqs : List (RunQueueDataWithNext F))
      → Any (λ x. x ≡ c) cs
      → IsNumber f64 (rank f64 c)
      → All Numbers rqs
      → All (λ x. Le f64 laws (rank f64 c) (rank f64 x)) cs
      → Good cs rqs
      → ByRank (some c) rqs
  first_candidate c cs rqs place number numbers least (covers, (all_numbers, places)) = (
    (let (x, (e, from)) = Any-All cs place places in subst (λ y. From y rqs) e from),
    below rqs numbers covers,
  )
    where
      job_below :
          (e : JobEntry F)
          → IsNumber f64 (job_rank f64 e)
          → Any (λ x. Le f64 laws (rank f64 x) (job_rank f64 e)) cs
          → Le f64 laws (rank f64 c) (job_rank f64 e)
      job_below e ne some_x =
          let (x, (le, (nx, c_x))) = Any-All cs some_x (All-both _ _ cs all_numbers least) in
          laws.le_trans (rank f64 c) (rank f64 x) (job_rank f64 e) number nx ne c_x le

      jobs_below :
          (es : List (JobEntry F))
          → All (λ e. IsNumber f64 (job_rank f64 e)) es
          → All (λ e. Any (λ x. Le f64 laws (rank f64 x) (job_rank f64 e)) cs) es
          → All (λ e. Le f64 laws (rank f64 c) (job_rank f64 e)) es
      jobs_below [] n h = tt
      jobs_below (e ∷ es) (n, ns) (h, hs) = (job_below e n h, jobs_below es ns hs)

      below :
          (qs : List (RunQueueDataWithNext F))
          → All Numbers qs
          → Covers cs qs
          → All
              (λ rq.
                (range : Option DateTimeRange)
                → Runnable rq range
                → All (λ e. Le f64 laws (rank f64 c) (job_rank f64 e)) rq.current.queue_data)
              qs
      below [] n h = tt
      below (q ∷ qs) (n, ns) (h, hs) =
          (λ range runs. jobs_below q.current.queue_data n (h range runs), below qs ns hs)

  last_step :
      (rqs : List (RunQueueDataWithNext F)) (w0 : Disk) (cs : List (Candidate F))
      → All Numbers rqs
      → (found : Outcome RunError (Option (Candidate F))) → IsLeast f64 laws (rank f64) cs found
      → Triple
          (λ w. Same w0 w × Good cs rqs)
          (lift found)
          (λ best w. Same w0 w × ByRank best rqs)
          (Same w0)
  last_step rqs w0 cs numbers (ok none) is_empty = record {
    at = λ s h. (h.0, no_candidates rqs (subst (λ l. Good l rqs) is_empty h.1));
  }
  last_step rqs w0 cs numbers (ok (some c)) (place, number, least) = record {
    at = λ s h. (h.0, first_candidate c cs rqs place number numbers least h.1);
  }
  last_step rqs w0 cs numbers (err e) found = absurd found
  last_step rqs w0 cs numbers panic found = absurd found

  -- The priorities of all jobs of the queue are numbers.
  abbrev pub Prioritized : RunQueueDataWithNext F → Type 0
  Prioritized rq = All (λ (e : JobEntry F). IsNumber f64 e.2) rq.current.queue_data

  -- What is chosen: nothing if no queue that can run has a job, and otherwise a job of such a queue such
  -- that no job of such a queue has a higher priority.
  abbrev pub Chosen : Option (Candidate F) → List (RunQueueDataWithNext F) → Type 0
  Chosen none rqs =
      All (λ rq. (range : Option DateTimeRange) → Runnable rq range → rq.current.queue_data ≡ [])
        rqs
  Chosen (some c) rqs =
      From c rqs
      × All
          (λ rq.
            (range : Option DateTimeRange)
            → Runnable rq range
            → All (λ e. Le f64 laws e.2 c.entry.2) rq.current.queue_data)
          rqs

  ranks :
      (es : List (JobEntry F))
      → All (λ e. IsNumber f64 e.2) es
      → All (λ e. IsNumber f64 (job_rank f64 e)) es
  unfolding Priority.neg
  ranks es numbers = All-map es (λ e n. laws.negate_IsNumber e.2 n) numbers

  From-IsNumber :
      (c : Candidate F) (rqs : List (RunQueueDataWithNext F))
      → From c rqs
      → All Prioritized rqs
      → IsNumber f64 c.entry.2
  From-IsNumber c rqs from numbers =
      let (rq, ((_, (place, _)), ns)) = Any-All rqs from numbers in
      let (e, (same_entry, n)) = Any-All rq.current.queue_data place ns in
      subst (λ (x : JobEntry F). IsNumber f64 x.2) same_entry n

  by_priority :
      (e : JobEntry F) (c : Candidate F)
      → IsNumber f64 c.entry.2
      → IsNumber f64 e.2
      → Le f64 laws (rank f64 c) (job_rank f64 e)
      → Le f64 laws e.2 c.entry.2
  unfolding Priority.neg
  by_priority e c nc ne le = λ g. le (laws.negate_cmp c.entry.2 e.2 nc ne ∙ g)

  ByRank-Chosen :
      (best : Option (Candidate F)) (rqs : List (RunQueueDataWithNext F))
      → All Prioritized rqs
      → ByRank best rqs
      → Chosen best rqs
  ByRank-Chosen none rqs numbers h = h
  ByRank-Chosen (some c) rqs numbers (from, below) = (from, queues rqs numbers below)
    where
      number : IsNumber f64 c.entry.2
      number = From-IsNumber c rqs from numbers

      jobs :
          (es : List (JobEntry F))
          → All (λ e. IsNumber f64 e.2) es
          → All (λ e. Le f64 laws (rank f64 c) (job_rank f64 e)) es
          → All (λ e. Le f64 laws e.2 c.entry.2) es
      jobs [] n h = tt
      jobs (e ∷ es) (n, ns) (h, hs) = (by_priority e c number n h, jobs es ns hs)

      queues :
          (qs : List (RunQueueDataWithNext F))
          → All Prioritized qs
          → All
              (λ rq.
                (range : Option DateTimeRange)
                → Runnable rq range
                → All (λ e. Le f64 laws (rank f64 c) (job_rank f64 e)) rq.current.queue_data)
              qs
          → All
              (λ rq.
                (range : Option DateTimeRange)
                → Runnable rq range
                → All (λ e. Le f64 laws e.2 c.entry.2) rq.current.queue_data)
              qs
      queues [] n h = tt
      queues (q ∷ qs) (n, ns) (h, hs) =
          (λ range runs. jobs q.current.queue_data n (h range runs), queues qs ns hs)

  -- The choice among all jobs of all queues reads no file. Where it ends well, it chooses none only if no
  -- queue that can run now has a job; otherwise it chooses a job of a queue that can run now, such that
  -- no job of such a queue has a higher priority. The priorities are assumed to be numbers, and the
  -- comparison to be that of IEEE 754.
  pub choose_lem :
      (pipeline_data : List (RunQueueData F)) (w : Disk)
      → All Prioritized (run_queue_with_nexts pipeline_data)
      → Ends
          (λ best w'. Same w w' × Chosen best (run_queue_with_nexts pipeline_data))
          (Same w)
          (choose f64 chrono now pipeline_data w)
  unfolding choose
  choose_lem pipeline_data w numbers =
      Ends-mono (choose f64 chrono now pipeline_data w)
        ((Triple-bind _
            (λ cs. record {
              at = λ s h.
                  (last_step (run_queue_with_nexts pipeline_data) w cs ranked _
                      (min_by_key-IsLeast f64 laws RunError (rank f64) cs h.1.1.0)).at
                    s h;
            })
            _
            (Search.candidates-Good f64 laws chrono now (run_queue_with_nexts pipeline_data) w
              ranked)).at
          w refl)
        (λ best w' h. (h.0, ByRank-Chosen best (run_queue_with_nexts pipeline_data) numbers h.1))
        (λ w' h. h)
    where
      ranked : All Numbers (run_queue_with_nexts pipeline_data)
      ranked =
          All-map (run_queue_with_nexts pipeline_data) (λ rq ns. ranks rq.current.queue_data ns)
            numbers
