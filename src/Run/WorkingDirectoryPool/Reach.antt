-- ===== src/Run/WorkingDirectoryPool/Reach.antt =====
-- The calls that the rest of the program makes of a pool in memory, one after the other: those of the daemon and of the
-- polling pool, and those of the subcommand `wd`, which marks and deletes directories by hand,
-- evobench-tools/src/run/sub_command/wd.rs.
use evobench.Prelude.{
  ℕ, ◌≤◌, ◌<◌, ◌≡◌, refl, ap, ◌∙◌, ◌⊎◌, inl, inr, Bool, Bool-cases, true, Option, some, List, [],
  ◌∷◌, arith, keep,
}
use evobench.Prelude.Bytes.{Bytes}
use evobench.Prelude.Outcome.{Outcome, ok, err, panic, pure}
use evobench.Prelude.Hoare.{Ends, Ends-mono}
use evobench.Run.Job.{RunParameters, BenchmarkingJobParameters}
use evobench.Run.RunQueues.Data.{RunQueuesData}
use evobench.Run.WorkingDirectory.{
  WorkingDirectory, Host, Status, status_of, can_be_used_for_jobs, set_and_save_status,
}
use evobench.Run.WorkingDirectory.Saving.{set_and_save_status_lem}
use evobench.Run.WorkingDirectoryPool.Entries
use evobench.Run.WorkingDirectoryPool.Entries.Order.{set-Below, set-Sorted}
use evobench.Run.WorkingDirectoryPool.Entries.Count.{count, set-count_suc}
use evobench.Run.WorkingDirectoryPool.OnEntry.{on_entry-Ends}
use evobench.Run.WorkingDirectoryPool.{
  WorkingDirectoryPool, Do, active_entries, first_or_new, entry_is_active, get_new, get_first,
  get_a_working_directory_for, delete_working_directory, with_entries,
}
use evobench.Run.WorkingDirectoryPool.Entries.{Entry}
use evobench.Run.WorkingDirectoryPool.Invariant.{IsValid, IsUsable, set-IsValid, get_new-Ends}
use evobench.Run.WorkingDirectoryPool.Choice.{get_a_working_directory_for_lem}
use evobench.Run.WorkingDirectoryPool.Process.{
  set_status_of, process_in_working_directory, working_directory_cleanup,
  WorkingDirectoryCleanupToken,
}
use evobench.Run.WorkingDirectoryPool.Process.Results.{
  IsOrderly, process_in_working_directory_lem, working_directory_cleanup_lem,
  delete_working_directory_lem,
}

module _ {W E : Type 0} (on : Host W E) where
  either_way :
      {E' A : Type 0} (x : Outcome E' A × (WorkingDirectoryPool × W))
      → Ends (λ _ sw. IsValid sw.0) (λ sw. IsValid sw.0) x
      → IsValid x.1.0
  either_way (ok a, s) h = h
  either_way (err e, s) h = h
  either_way (panic, s) h = h

  pub first_or_new-Ends :
      (es : List Entry) (pool : WorkingDirectoryPool) (w : W)
      → keep entry_is_active pool.all_entries ≡ es
      → IsValid pool
      → 1 ≤ pool.capacity
      → Ends (λ _ sw. IsValid sw.0) (λ sw. IsValid sw.0) (first_or_new on es (pool, w))
  unfolding first_or_new
  first_or_new-Ends [] pool w e v cap =
      Ends-mono (get_new on (pool, w)) (get_new-Ends on pool w v (rw e (omega arith)))
        (λ id sw h. h.0) (λ sw h. h)
  first_or_new-Ends (x ∷ es) pool w e v cap = v

  -- Marking a directory with a status lets no more of them be used than there is capacity: the status is one that
  -- cannot be used, or the directory could be used before, or there is room. `wd recycle` does not check that.
  abbrev pub Fits : ℕ → Status → WorkingDirectoryPool → Type 0
  Fits id status pool =
      can_be_used_for_jobs status ≡ true
      → IsUsable id pool ⊎ (count pool.all_entries < pool.capacity)

  mark-Ends :
      (id : ℕ) (status : Status) (pool : WorkingDirectoryPool) (w : W)
      → Fits id status pool
      → IsValid pool
      → Ends
          (λ _ sw. IsValid sw.0)
          (λ sw. IsValid sw.0)
          (set_status_of on id status (pure tt) (pool, w))
  unfolding set_status_of
  mark-Ends id status pool w fits v =
      on_entry-Ends on _ _ (λ _ _ sw. status_of sw.0 ≡ status) (λ _ sw. status_of sw.0 ≡ status) id
        (set_and_save_status on status) (pure tt) pool w (λ _. v)
        (λ wd e. (
          Ends-mono (set_and_save_status on status (wd, w)) (set_and_save_status_lem on status wd w)
              (λ _ sw (h, _). ap status_of h) (λ sw h. h),
          (λ _ wd' w' h. marked wd wd' e h, λ wd' w' h. marked wd wd' e h),
        ))
    where
      marked :
          (wd wd' : WorkingDirectory)
          → Entries.get id pool.all_entries ≡ some wd
          → status_of wd' ≡ status
          → IsValid (with_entries (Entries.set id wd') pool)
      marked wd wd' e h = elim (Bool-cases (can_be_used_for_jobs status)) [
        | inr unusable ↦
            set-IsValid pool id wd wd' e
              (λ a. absurd (cc (a, ap can_be_used_for_jobs h ∙ unusable))) v
        | inl usable ↦ elim (fits usable) [
          | inl (wd0, (g, active)) ↦ set-IsValid pool id wd wd' e (λ _. cc (g, e, active)) v
          | inr room ↦ (
            set-Sorted id wd' pool.all_entries v.0,
            (
              set-Below id pool.next_id wd' pool.all_entries v.1.0,
              omega (arith, set-count_suc id wd' pool.all_entries, room),
            ),
          )
        ]
      ]

  -- A call, in any world: the pool as it is afterwards, whether the call succeeded or not. Where an action is
  -- run in a directory, it is one that keeps the pool in order.
  pub data Call (F : Type 0) : WorkingDirectoryPool → WorkingDirectoryPool → Type 0 where
    pick :
        (run_queues_data : RunQueuesData F) (run_parameters : RunParameters)
        (pool : WorkingDirectoryPool) (w : W)
        → Call F pool (get_a_working_directory_for on run_queues_data run_parameters (pool, w)).1.0
    first :
        (pool : WorkingDirectoryPool) (w : W)
        → 1 ≤ pool.capacity
        → Call F pool (get_first on (pool, w)).1.0
    process :
        (id : ℕ) (timestamp : Bytes) (action : Do on Bool)
        (benchmarking_job_parameters : Option BenchmarkingJobParameters) (context : Bytes)
        (have_other_jobs_for_same_commit : Option Bool)
        → IsOrderly on id timestamp action benchmarking_job_parameters context
            have_other_jobs_for_same_commit
        → (pool : WorkingDirectoryPool) (w : W)
        → Call F pool
            (process_in_working_directory on id timestamp action benchmarking_job_parameters context
              have_other_jobs_for_same_commit
              (pool, w)).1.0
    cleanup :
        (token : WorkingDirectoryCleanupToken) (pool : WorkingDirectoryPool) (w : W)
        → Call F pool (working_directory_cleanup on token (pool, w)).1.0
    mark :
        (id : ℕ) (status : Status) (pool : WorkingDirectoryPool) (w : W)
        → Fits id status pool
        → Call F pool (set_status_of on id status (pure tt) (pool, w)).1.0
    delete :
        (id : ℕ) (pool : WorkingDirectoryPool) (w : W)
        → Call F pool (delete_working_directory on id (pool, w)).1.0

  pub data Reach (F : Type 0) (pool : WorkingDirectoryPool) : WorkingDirectoryPool → Type 0 where
    here : Reach F pool pool
    next :
        {between after : WorkingDirectoryPool}
        → Reach F pool between
        → Call F between after
        → Reach F pool after

  Call-IsValid :
      {F : Type 0} {pool after : WorkingDirectoryPool}
      → Call F pool after
      → IsValid pool
      → IsValid after
  unfolding get_first active_entries
  Call-IsValid (pick run_queues_data run_parameters pool w) v =
      either_way (get_a_working_directory_for on run_queues_data run_parameters (pool, w)) (
        Ends-mono (get_a_working_directory_for on run_queues_data run_parameters (pool, w))
          (get_a_working_directory_for_lem on run_queues_data run_parameters pool w v)
          (λ id sw h. h.0) (λ sw h. h))
  Call-IsValid (first pool w cap) v =
      either_way (get_first on (pool, w)) (first_or_new-Ends _ pool w refl v cap)
  Call-IsValid (process id timestamp action parameters context have_other orderly pool w) v =
      either_way
        (process_in_working_directory on id timestamp action parameters context have_other
          (pool, w))
        (Ends-mono
          (process_in_working_directory on id timestamp action parameters context have_other
            (pool, w))
          (process_in_working_directory_lem on id timestamp action parameters context have_other
            pool w v orderly)
          (λ r sw h. h.0) (λ sw h. h))
  Call-IsValid (cleanup token pool w) v =
      either_way (working_directory_cleanup on token (pool, w)) (
        Ends-mono (working_directory_cleanup on token (pool, w))
          (working_directory_cleanup_lem on token pool w v) (λ u sw h. h.0) (λ sw h. h))
  Call-IsValid (mark id status pool w fits) v =
      either_way (set_status_of on id status (pure tt) (pool, w))
        (mark-Ends id status pool w fits v)
  Call-IsValid (delete id pool w) v = either_way (delete_working_directory on id (pool, w)) (
      Ends-mono (delete_working_directory on id (pool, w))
        (delete_working_directory_lem on id pool w v) (λ u sw h. h.0) (λ sw h. h))

  -- From a valid pool any sequence of these calls, successful or not, leads to a valid pool: it is sorted by
  -- identifier, the next identifier is above all of them, and no more directories can be used than there is
  -- capacity. The calls are the choice of a directory, processing with an action that keeps the pool in order, cleanup,
  -- deletion, and marking a directory with a status, that where it can be used again only if there is room; the first
  -- directory is taken only where the capacity is one or more.
  pub Reach-IsValid :
      {F : Type 0} {pool after : WorkingDirectoryPool}
      → Reach F pool after
      → IsValid pool
      → IsValid after
  Reach-IsValid here v = v
  Reach-IsValid (next r c) v = Call-IsValid c (Reach-IsValid r v)
