-- ===== src/Run/RunQueue/Steps.antt =====
-- What each step of a run does to the job that is run.
use mathlib.Core.Path.{subst}
use evobench.Prelude.{
  ℕ, ◌≡◌, ◌⊎◌, ◌+◌, ◌-◌, ◌<◌, refl, sym, ◌∙◌, Option, none, some, Bool, true, false, ltb,
  if◌then◌else◌, arith, inl, inr, Bool-cases, Option-cases,
}
use evobench.Prelude.Bytes.{Bytes}
use evobench.Prelude.Outcome.{Outcome, ok, err, panic, map_err_at}
use evobench.Prelude.Hoare.{Ends, Triple, Triple-bind, Triple-pure, Triple-if}
use evobench.KeyValFs.AsKey.{Json}
use evobench.KeyValFs.Disk.{Disk}
use evobench.KeyValFs.KeyVal.{Db, KeyValError}
use evobench.KeyValFs.Queue
use evobench.KeyValFs.Queue.{QueueItem, PerhapsLock, not_locked, entry_gone, locked}
use evobench.KeyValFs.Queue.Push.{Holds, Pushed, IsVisible, push_front_keeps}
use evobench.Run.Float.{Float64}
use evobench.Run.Schedule.{ScheduleCondition}
use evobench.Run.Job.{BenchmarkingJob}
use evobench.Run.RunQueue.{
  RunQueue, RunQueueWithNext, JobStatus, active, done, dropped, error, RunError, Run, on_disk,
  beside, attempt, key_val, reinserted, retain, go_on, finish_completed_job,
  handle_out_of_error_budget, after_failure, after_success, one_run, new_status, next_queue,
  succeeded,
}

-- An operation of the database in a run.
pub on_disk-Triple :
    {P A : Type 0} {Pre : Disk → Type 0} (Post : A → Disk → Type 0) (Bad : Disk → Type 0) (m : Db A)
    → Triple Pre m Post Bad
    → Triple (λ s. Pre s.0) (on_disk {P = P} m) (λ a s. Post a s.0) (λ s. Bad s.0)
on_disk-Triple {P} {A} Post Bad m h = record { at = λ s pre. at_result (m s.0) s.1 (h.at s.0 pre) }
  where
    at_result :
        (r : Outcome KeyValError A × Disk) (p : P)
        → Ends Post Bad r
        → Ends (λ a (s : Disk × P). Post a s.0) (λ s. Bad s.0) (beside p (map_err_at r key_val))
    at_result (ok a, w) p h = h
    at_result (err e, w) p h = h
    at_result (panic, w) p h = h

next_queue-cases :
    {F : Type 0} (rq : RunQueueWithNext F) (queue : Option (RunQueue F))
    → next_queue rq ≡ some queue
    → (queue ≡ rq.next) ⊎ (queue ≡ some rq.current)
unfolding next_queue
next_queue-cases rq queue leads = ground (arith, leads)

module _ (f64 : Float64) (json : Json (BenchmarkingJob f64.F)) {P : Type 0}
    (runner : ℕ → Option Bytes → ScheduleCondition f64.F → Run P (Unit {0}))
    (rq : RunQueueWithNext f64.F) (job : BenchmarkingJob f64.F)
    (erroneous_jobs_queue done_jobs_queue : Option (RunQueue f64.F)) (working_directory_id : ℕ)
    (item : QueueItem) (content : Bytes) (visible : IsVisible item.file_name) where
  open f64 use {F}

  -- The file of the item is there.
  abbrev pub Present : Disk × P → Type 0
  Present s = Holds rq.current.queue.base_dir item.file_name content s.0

  -- Some other file of the queue holds the job with these counts.
  abbrev pub In : RunQueue F → ℕ → ℕ → Disk → Type 0
  In queue count budget =
      Pushed rq.current.queue.base_dir item.file_name content json queue.queue.base_dir
        (reinserted f64 job working_directory_id count budget)

  -- The job is in this queue, if there is one, with these counts.
  abbrev pub InSome : Option (RunQueue F) → ℕ → ℕ → Disk → Type 0
  InSome none count budget w = ⊥
  InSome (some queue) count budget w = In queue count budget w

  InSome-some :
      (o : Option (RunQueue F)) (queue : RunQueue F) (count budget : ℕ) (w : Disk)
      → o ≡ some queue
      → InSome o count budget w
      → In queue count budget w
  InSome-some o queue count budget w e there = subst (λ x. InSome x count budget w) e there

  -- What the status of the job says of where it is.
  abbrev pub Fate : JobStatus → Disk → Type 0
  Fate active w =
      (count budget : ℕ) × ((count + budget
          < job.state.remaining_count + job.state.remaining_error_budget)
        × (In rq.current count budget w ⊎ InSome rq.next count budget w))
  Fate (done true) w =
      (count : ℕ) × ((count ≡ 0) × InSome done_jobs_queue count job.state.remaining_error_budget w)
  Fate (done false) w = done_jobs_queue ≡ none
  Fate JobStatus.inactive w = ⊥
  Fate dropped w = rq.next ≡ none
  Fate (error true) w = InSome erroneous_jobs_queue job.state.remaining_count 0 w
  Fate (error false) w = erroneous_jobs_queue ≡ none

  abbrev pub Retained : Option (RunQueue F) → ℕ → ℕ → Bool → Disk → Type 0
  Retained queue count budget true w = InSome queue count budget w
  Retained queue count budget false w = queue ≡ none

  abbrev pub WithFate : JobStatus → Disk × P → Type 0
  WithFate status s = Present s × Fate status s.0

  push_step :
      (queue : RunQueue F) (count budget : ℕ)
      → Triple Present
          (on_disk {P = P} (
            Queue.push_front json queue.queue
              (reinserted f64 job working_directory_id count budget)))
          (λ _ s. Present s × In queue count budget s.0)
          Present
  push_step queue count budget =
      on_disk-Triple (λ _ w. Holds _ _ content w × In queue count budget w) (Holds _ _ content) _
        (push_front_keeps _ _ content visible json queue.queue _)

  retain_step :
      (queue : Option (RunQueue F)) (count budget : ℕ)
      → Triple Present
          (retain f64 json runner rq job erroneous_jobs_queue done_jobs_queue working_directory_id
            queue
            (reinserted f64 job working_directory_id count budget))
          (λ retained s. Present s × Retained queue count budget retained s.0)
          Present
  unfolding retain
  retain_step none count budget = Triple-pure false (λ s h. (h, refl))
  retain_step (some queue) count budget =
      Triple-bind _ (λ _. Triple-pure true (λ s h. h)) _ (push_step queue count budget)

  done_Fate :
      (count : ℕ)
      → count ≡ 0
      → (retained : Bool) (s : Disk × P)
      → Present s × Retained done_jobs_queue count job.state.remaining_error_budget retained s.0
      → WithFate (done retained) s
  done_Fate count zero_count true s (h, there) = (h, (count, (zero_count, there)))
  done_Fate count zero_count false s h = h

  finish_step :
      (count : ℕ)
      → count ≡ 0
      → Triple Present
          (finish_completed_job f64 json runner rq job erroneous_jobs_queue done_jobs_queue
            working_directory_id count)
          WithFate
          Present
  unfolding finish_completed_job
  finish_step count zero_count =
      Triple-bind _ (λ retained. Triple-pure (done retained) (done_Fate count zero_count retained))
        _ (retain_step done_jobs_queue count job.state.remaining_error_budget)

  error_Fate :
      (retained : Bool) (s : Disk × P)
      → Present s × Retained erroneous_jobs_queue job.state.remaining_count 0 retained s.0
      → WithFate (error retained) s
  error_Fate true s h = h
  error_Fate false s h = h

  give_up_step :
      Triple Present
        (handle_out_of_error_budget f64 json runner rq job erroneous_jobs_queue done_jobs_queue
          working_directory_id)
        WithFate
        Present
  unfolding handle_out_of_error_budget
  give_up_step =
      Triple-bind _ (λ retained. Triple-pure (error retained) (error_Fate retained)) _
        (retain_step erroneous_jobs_queue job.state.remaining_count 0)

  failure_step :
      ltb 0 job.state.remaining_error_budget ≡ true
      → Triple Present
          (after_failure f64 json runner rq job erroneous_jobs_queue done_jobs_queue
            working_directory_id)
          WithFate
          Present
  unfolding after_failure
  failure_step some_budget = elim (Bool-cases (ltb 0 (job.state.remaining_error_budget - 1))) [
    | inl more ↦ rw more (
        Triple-bind _
          (λ _. Triple-pure active (λ s h. (
            h.0,
            (
              job.state.remaining_count,
              job.state.remaining_error_budget - 1,
              (ground arith, inl h.1),
            ),
          )))
          _ (push_step rq.current job.state.remaining_count (job.state.remaining_error_budget - 1)))
    | inr no_more ↦ rw no_more give_up_step
  ]

  moved_Fate :
      (queue : Option (RunQueue F)) (count budget : ℕ)
      → (queue ≡ rq.next) ⊎ (queue ≡ some rq.current)
      → count + budget < job.state.remaining_count + job.state.remaining_error_budget
      → (pushed : Bool) (s : Disk × P) → Present s × Retained queue count budget pushed s.0
      → WithFate (if pushed then active else dropped) s
  moved_Fate queue count budget (inl is_next) less true s (h, there) =
      (h, (count, budget, (less, inr (rw (← is_next) there))))
  moved_Fate queue count budget (inl is_next) less false s (h, no_queue) =
      (h, sym is_next ∙ no_queue)
  moved_Fate queue count budget (inr is_current) less true s (h, there) = (
    h,
    (count, budget, (less, inl (InSome-some queue rq.current count budget s.0 is_current there))),
  )
  moved_Fate queue count budget (inr is_current) less false s (h, no_queue) = cc

  go_on_step :
      (queue : Option (RunQueue F)) (count budget : ℕ)
      → next_queue rq ≡ some queue
      → count + budget < job.state.remaining_count + job.state.remaining_error_budget
      → Triple Present
          (go_on f64 json runner rq job erroneous_jobs_queue done_jobs_queue working_directory_id
            queue
            (reinserted f64 job working_directory_id count budget))
          WithFate
          Present
  unfolding go_on
  go_on_step queue count budget leads less =
      Triple-bind _
        (λ pushed.
          Triple-pure (if pushed then active else dropped)
            (moved_Fate queue count budget (next_queue-cases rq queue leads) less pushed))
        _ (retain_step queue count budget)

  success_step :
      ltb 0 job.state.remaining_count ≡ true
      → Triple Present
          (after_success f64 json runner rq job erroneous_jobs_queue done_jobs_queue
            working_directory_id)
          WithFate
          Present
  unfolding after_success
  success_step some_count = elim (Bool-cases (ltb 0 (job.state.remaining_count - 1))) [
    | inl more ↦ rw more (elim (Option-cases (next_queue rq)) [
      | inl unreachable ↦ rw unreachable (record { at = λ s h. h })
      | inr (queue, leads) ↦ rw leads (record {
        at = λ s h.
            (go_on_step queue (job.state.remaining_count - 1) job.state.remaining_error_budget leads
                (ground arith)).at
              s h;
      })
    ])
    | inr no_more ↦ rw no_more (finish_step _ (ground arith))
  ]

  attempt_step :
      Triple Present
        (runner working_directory_id job.public.reason rq.current.schedule_condition)
        (λ _. Present)
        Present
      → Triple Present
          (attempt (runner working_directory_id job.public.reason rq.current.schedule_condition))
          (λ _. Present)
          Present
  unfolding attempt succeeded
  attempt_step runs = record {
    at = λ s h.
        at_result (runner working_directory_id job.public.reason rq.current.schedule_condition s)
          (runs.at s h);
  }
    where
      at_result :
          (r : Outcome RunError (Unit {0}) × (Disk × P))
          → Ends (λ _. Present) Present r
          → Ends (λ _. Present) Present (succeeded r.0 r.1)
      at_result (ok u, s) h = h
      at_result (err e, s) h = h
      at_result (panic, s) h = h

  pub status_step :
      Triple Present
        (runner working_directory_id job.public.reason rq.current.schedule_condition)
        (λ _. Present)
        Present
      → Triple Present
          (new_status f64 json runner rq job erroneous_jobs_queue done_jobs_queue
            working_directory_id)
          WithFate
          Present
  unfolding new_status one_run
  status_step runs = elim (Bool-cases (ltb 0 job.state.remaining_error_budget)) [
    | inl some_budget ↦ rw some_budget (elim (Bool-cases (ltb 0 job.state.remaining_count)) [
      | inl some_count ↦ rw some_count (
          Triple-bind _
            (λ good. Triple-if good (success_step some_count) (failure_step some_budget)) _
            (attempt_step runs))
      | inr no_count ↦ rw no_count (finish_step _ (ground arith))
    ])
    | inr no_budget ↦ rw no_budget give_up_step
  ]
