-- ===== src/Run/RunQueue/Keeps.antt =====
-- No job is lost by a run, whatever fails.
use evobench.Prelude.{ℕ, ◌≡◌, refl, ◌∙◌, Option, none, some, true, false, inl, inr}
use evobench.Prelude.Bytes.{Bytes, same_refl}
use evobench.Prelude.Hoare.{Ends, Ends-mono, Triple, Triple-bind, Triple-map_err, Triple-pure}
use evobench.KeyValFs.AsKey.{Json}
use evobench.KeyValFs.Disk.{Disk, view, call}
use evobench.KeyValFs.Disk.Effects.{call-SameAs}
use evobench.KeyValFs.Queue
use evobench.KeyValFs.Queue.{QueueItem, PerhapsLock, not_locked, entry_gone, locked}
use evobench.KeyValFs.Queue.Push.{Holds, IsVisible, delete_item_lem, Deleted, Deleted-Pushed}
use evobench.Run.Float.{Float64}
use evobench.Run.Schedule.{ScheduleCondition}
use evobench.Run.Job.{BenchmarkingJob}
use evobench.Run.RunQueue.{
  RunQueue, RunQueueWithNext, JobStatus, active, done, dropped, error, Run, on_disk, run_job,
}
use evobench.Run.RunQueue.Steps
use evobench.Run.RunQueue.Steps.{on_disk-Triple}

module _ (f64 : Float64) (json : Json (BenchmarkingJob f64.F)) {P : Type 0}
    (runner : ℕ → Option Bytes → ScheduleCondition f64.F → Run P (Unit {0}))
    (rq : RunQueueWithNext f64.F) (job : BenchmarkingJob f64.F)
    (erroneous_jobs_queue done_jobs_queue : Option (RunQueue f64.F)) (working_directory_id : ℕ)
    (item : QueueItem) (content : Bytes) (visible : IsVisible item.file_name) where
  open f64 use {F}

  abbrev pub Present : Disk × P → Type 0
  Present =
      Steps.Present f64 json runner rq job erroneous_jobs_queue done_jobs_queue working_directory_id
        item content visible

  abbrev In : RunQueue F → ℕ → ℕ → Disk → Type 0
  In =
      Steps.In f64 json runner rq job erroneous_jobs_queue done_jobs_queue working_directory_id item
        content visible

  abbrev InSome : Option (RunQueue F) → ℕ → ℕ → Disk → Type 0
  InSome =
      Steps.InSome f64 json runner rq job erroneous_jobs_queue done_jobs_queue working_directory_id
        item content visible

  abbrev pub Fate : JobStatus → Disk → Type 0
  Fate =
      Steps.Fate f64 json runner rq job erroneous_jobs_queue done_jobs_queue working_directory_id
        item content visible

  abbrev WithFate : JobStatus → Disk × P → Type 0
  WithFate =
      Steps.WithFate f64 json runner rq job erroneous_jobs_queue done_jobs_queue
        working_directory_id item content visible

  -- The file of the item is gone.
  abbrev pub Gone : Disk × P → Type 0
  Gone s = view s.0 rq.current.queue.base_dir item.file_name ≡ none

  lock_step : Triple Present (on_disk {P = P} (Queue.lock_item item)) (λ _. Present) Present
  unfolding Queue.lock_item Queue.lock_as
  lock_step = on_disk-Triple (λ _. Here) Here _ (at_lock item.perhaps_lock)
    where
      Here : Disk → Type 0
      Here = Holds rq.current.queue.base_dir item.file_name content

      at_lock : (l : PerhapsLock) → Triple Here (Queue.lock_as l) (λ _. Here) Here
      at_lock not_locked = Triple-map_err _ _ _ call (record {
        at = λ w h.
            Ends-mono (call w) ((call-SameAs w).at w (λ e g. refl))
              (λ _ w' same_as. same_as _ _ ∙ h) (λ w' same_as. same_as _ _ ∙ h);
      })
      at_lock entry_gone = record { at = λ w h. h }
      at_lock locked = record { at = λ w h. h }

  Deleted-Fate :
      (status : JobStatus) (w w' : Disk)
      (h : Holds rq.current.queue.base_dir item.file_name content w)
      → Deleted rq.current.queue item content w h w'
      → Fate status w
      → Fate status w'
  Deleted-Fate status w w' h deleted = at_status status
    where
      pushed :
          (queue : RunQueue F) (count budget : ℕ)
          → In queue count budget w
          → In queue count budget w'
      pushed queue count budget =
          Deleted-Pushed rq.current.queue item content w h json queue.queue.base_dir _ w' deleted

      in_some :
          (o : Option (RunQueue F)) (count budget : ℕ)
          → InSome o count budget w
          → InSome o count budget w'
      in_some none count budget there = there
      in_some (some queue) count budget there = pushed queue count budget there

      at_status : (status : JobStatus) → Fate status w → Fate status w'
      at_status active (count, budget, (less, inl there)) =
          (count, budget, (less, inl (pushed rq.current count budget there)))
      at_status active (count, budget, (less, inr there)) =
          (count, budget, (less, inr (in_some rq.next count budget there)))
      at_status (done true) (count, (zero_count, there)) =
          (count, (zero_count, in_some done_jobs_queue count _ there))
      at_status (done false) e = e
      at_status JobStatus.inactive e = e
      at_status dropped e = e
      at_status (error true) there = in_some erroneous_jobs_queue _ _ there
      at_status (error false) e = e

  delete_step :
      (status : JobStatus)
      → Triple
          (WithFate status)
          (on_disk {P = P} (Queue.delete_item rq.current.queue item))
          (λ _ s. Gone s × Fate status s.0)
          Present
  delete_step status =
      on_disk-Triple
        {Pre = λ w. Holds rq.current.queue.base_dir item.file_name content w × Fate status w}
        (λ _ w. (view w rq.current.queue.base_dir item.file_name ≡ none) × Fate status w)
        (Holds rq.current.queue.base_dir item.file_name content) _
        (record {
          at = λ w h.
              Ends-mono (Queue.delete_item rq.current.queue item w)
                (delete_item_lem rq.current.queue item content w h.0)
                (λ _ w' deleted.
                  (deleted _ _ ∙ simp (same_refl), Deleted-Fate status w w' h.0 deleted h.1))
                (λ w' same_as. same_as _ _ ∙ h.0);
        })

  -- A job is never lost, whichever call fails. If the run ends in an error or a panic, the item is in
  -- its queue as before. If it ends with a status, the item is gone from the queue, and the job, with
  -- its new counts, is: for `Active` in the same queue or in the next one, and one of its two counts has
  -- become smaller; for `Done(true)` in the queue for done jobs, with no runs left; for `Error(true)` in
  -- the queue for erroneous jobs, with no error budget left. `Dropped`, `Done(false)` and
  -- `Error(false)` arise only if there is no such queue, and `Inactive` never arises. It is assumed
  -- that the item's name is not that of a temporary file, that its file is there, and that the runner
  -- of the job leaves that file alone.
  pub run_job_keeps :
      Triple Present
        (runner working_directory_id job.public.reason rq.current.schedule_condition)
        (λ _. Present)
        Present
      → (s : Disk × P) → Present s
      → Ends
          (λ status s'. Gone s' × Fate status s'.0)
          Present
          (run_job f64 json runner rq job erroneous_jobs_queue done_jobs_queue working_directory_id
            item s)
  unfolding run_job
  run_job_keeps runs s h =
      (Triple-bind _
          (λ _.
            Triple-bind _
              (λ status. Triple-bind _ (λ _. Triple-pure status (λ s h. h)) _ (delete_step status))
              _
              (Steps.status_step f64 json runner rq job erroneous_jobs_queue done_jobs_queue
                working_directory_id item content visible runs))
          _ lock_step).at
        s h
