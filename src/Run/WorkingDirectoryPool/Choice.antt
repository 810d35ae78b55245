-- ===== src/Run/WorkingDirectoryPool/Choice.antt =====
-- Which working directory is chosen for a job.
use evobench.Prelude.{
  ℕ, ◌≤◌, ◌<◌, ◌≡◌, refl, sym, ap, ◌∙◌, Bool, true, false, Option, none, some, List, [], ◌∷◌, ltb,
  Option-cases, inl, inr, arith, keep, Any, Any-keep, ◌⊎◌, ltb→lt,
}
use mathlib.Core.Path.{subst}
use evobench.Prelude.Bytes.{Bytes}
use evobench.Prelude.Outcome.{pure, or_crash, ◌>>=◌}
use evobench.Prelude.Hoare.{Ends, Ends-mono}
use evobench.Prelude.Local.Steps.{bind-Ends, if-Ends}
use evobench.Run.Job.{or_else, RunParameters}
use evobench.Run.RunQueues.Data.{RunQueuesData}
use evobench.Run.WorkingDirectory.{WorkingDirectory, Host, PoolError, is_active, commit_at}
use evobench.Run.WorkingDirectory.Checkout.{commit_at-Ends}
use evobench.Run.WorkingDirectoryPool.{
  WorkingDirectoryPool, get_new, active_len, active_entries, init_commit, init_commits,
  init_active_commit_ids, entry_is_active, commit_is, is_obsolete, fitting, all_known,
  max_by_status, min_by_last_use, try_get_fitting_working_directory_for, new_or_oldest,
  chosen_or_new, get_a_working_directory_for,
}
use evobench.Run.WorkingDirectoryPool.Best.{
  IsBest, IsOldest, Found, max_by_status-Found, min_by_last_use-Found,
}
use evobench.Run.WorkingDirectoryPool.OnEntry.{on_entry-Ends}
use evobench.Run.WorkingDirectoryPool.Entries.{Entry}
use evobench.Run.WorkingDirectoryPool.Entries.Count.{count, Any-get}
use evobench.Run.WorkingDirectoryPool.Invariant.{
  IsValid, IsUsable, IsNew, set-IsValid, get_new-Ends,
}

module _ {W E : Type 0} (on : Host W E) where
  -- Asking for the commit leaves the status as it is.
  same_activity :
      (wd : WorkingDirectory) (w : W)
      → Ends
          (λ _ sw. is_active sw.0 ≡ is_active wd)
          (λ sw. is_active sw.0 ≡ is_active wd)
          (commit_at on (wd, w))
  same_activity wd w =
      Ends-mono (commit_at on (wd, w)) (commit_at-Ends on wd w) (λ c sw e. ap is_active e)
        (λ sw e. ap is_active e)

  init_commit-Ends :
      (id : ℕ) (b : Bool) (pool : WorkingDirectoryPool) (w : W)
      → IsValid pool
      → Ends (λ _ sw. IsValid sw.0) (λ sw. IsValid sw.0) (init_commit on id b (pool, w))
  unfolding init_commit
  init_commit-Ends id false pool w v = v
  init_commit-Ends id true pool w v =
      on_entry-Ends on _ _ (λ wd _ sw. is_active sw.0 ≡ is_active wd)
        (λ wd sw. is_active sw.0 ≡ is_active wd) id (commit_at on) _ pool w (λ e. v)
        (λ wd e. (
          same_activity wd w,
          (
            λ _ wd' w' h. set-IsValid pool id wd wd' e (λ a. sym h ∙ a) v,
            λ wd' w' h. set-IsValid pool id wd wd' e (λ a. sym h ∙ a) v,
          ),
        ))

  init_commits-Ends :
      (es : List Entry) (pool : WorkingDirectoryPool) (w : W)
      → IsValid pool
      → Ends (λ _ sw. IsValid sw.0) (λ sw. IsValid sw.0) (init_commits on es (pool, w))
  unfolding init_commits
  init_commits-Ends [] pool w v = v
  init_commits-Ends (e ∷ es) pool w v =
      bind-Ends _ _ (λ _ sw. IsValid sw.0) (init_commit on (e.0) (entry_is_active e)) _ (pool, w)
        (init_commit-Ends (e.0) (entry_is_active e) pool w v)
        (λ _ (p, w') v'. init_commits-Ends es p w' v')

  init_active_commit_ids-Ends :
      (pool : WorkingDirectoryPool) (w : W)
      → IsValid pool
      → Ends (λ _ sw. IsValid sw.0) (λ sw. IsValid sw.0) (init_active_commit_ids on (pool, w))
  unfolding init_active_commit_ids
  init_active_commit_ids-Ends pool w v = init_commits-Ends pool.all_entries pool w v

  -- How the directory was chosen. One on the commit is preferred, then one for whose commit there is no
  -- job, each time with the best status; then a new one, where there is capacity, and then the one whose
  -- last use is longest ago.
  module _ {F : Type 0} (run_queues_data : RunQueuesData F) (commit : Bytes) where
    abbrev pub on_commit : WorkingDirectoryPool → List Entry
    on_commit pool = keep (commit_is commit) (keep entry_is_active pool.all_entries)

    abbrev pub obsolete : WorkingDirectoryPool → List Entry
    obsolete pool = keep (is_obsolete on run_queues_data) (keep entry_is_active pool.all_entries)

    abbrev pub NoneFits : WorkingDirectoryPool → Type 0
    NoneFits pool = (on_commit pool ≡ []) × (obsolete pool ≡ [])

    pub data Chosen (id : ℕ) (pool : WorkingDirectoryPool) : Type 0 where
      same_commit : (wd : WorkingDirectory) → IsBest (id, wd) (on_commit pool) → Chosen id pool
      not_needed :
          (wd : WorkingDirectory)
          → on_commit pool ≡ []
          → IsBest (id, wd) (obsolete pool)
          → Chosen id pool
      new :
          (before : WorkingDirectoryPool)
          → NoneFits before
          → count before.all_entries < before.capacity
          → IsNew before id pool
          → Chosen id pool
      oldest :
          (wd : WorkingDirectory)
          → NoneFits pool
          → pool.capacity ≤ count pool.all_entries
          → IsOldest (id, wd) (keep entry_is_active pool.all_entries)
          → Chosen id pool

    -- What is guaranteed of the choice.
    abbrev pub IsGood : ℕ → WorkingDirectoryPool → Type 0
    IsGood id pool = IsValid pool × (IsUsable id pool × Chosen id pool)

    usable :
        (p : Entry → Bool) (e : Entry) (pool : WorkingDirectoryPool)
        → IsValid pool
        → Any (λ x. x ≡ e) (keep p (keep entry_is_active pool.all_entries))
        → IsUsable (e.0) pool
    usable p e pool (s, v) place =
        let (wd, h) = Any-get entry_is_active e pool.all_entries s (Any-keep p e _ place) in
        (e.1, (wd, h))

    abbrev Fits : Option Entry → WorkingDirectoryPool → Type 0
    Fits none pool = NoneFits pool
    Fits (some e) pool =
        IsBest e (on_commit pool) ⊎ ((on_commit pool ≡ []) × IsBest e (obsolete pool))

    or_else-Fits :
        (pool : WorkingDirectoryPool) (a b : Option Entry)
        → Found IsBest a (on_commit pool)
        → Found IsBest b (obsolete pool)
        → Fits (or_else a b) pool
    unfolding or_else
    or_else-Fits pool none none h k = (h, k)
    or_else-Fits pool none (some e) h k = inr (h, k)
    or_else-Fits pool (some e) b h k = inl h

    fitting-Fits :
        (pool : WorkingDirectoryPool)
        → Fits (fitting on run_queues_data commit (active_entries pool)) pool
    unfolding fitting active_entries
    fitting-Fits pool =
        or_else-Fits pool (max_by_status (on_commit pool)) (max_by_status (obsolete pool))
          (max_by_status-Found (on_commit pool)) (max_by_status-Found (obsolete pool))

    all_known-Ends :
        (es : List Entry) (pool : WorkingDirectoryPool) (w : W)
        → Ends (λ _ sw. sw.0 ≡ pool) (λ sw. sw.0 ≡ pool) (all_known on run_queues_data es (pool, w))
    unfolding all_known
    all_known-Ends [] pool w = refl
    all_known-Ends (e ∷ es) pool w = elim (Option-cases e.1.commit) [
      | inl n ↦ rw n refl
      | inr (c, n) ↦ rw n (all_known-Ends es pool w)
    ]

    chosen_entry :
        (e : Entry) (pool : WorkingDirectoryPool)
        → IsValid pool
        → Fits (some e) pool
        → IsGood (e.0) pool
    chosen_entry e pool v (inl best) =
        (v, (usable (commit_is commit) e pool v best.0, same_commit (e.1) best))
    chosen_entry e pool v (inr (n, best)) =
        (v, (usable (is_obsolete on run_queues_data) e pool v best.0, not_needed (e.1) n best))

    oldest_entry :
        (pool : WorkingDirectoryPool) (w : W) (o : Option Entry)
        → IsValid pool
        → NoneFits pool
        → pool.capacity ≤ count pool.all_entries
        → Found IsOldest o (keep entry_is_active pool.all_entries)
        → Ends {S = WorkingDirectoryPool × W}
            (λ id sw. IsGood id sw.0)
            (λ sw. IsValid sw.0)
            ((or_crash {E = PoolError E} o >>= λ e. pure (e.0)) (pool, w))
    oldest_entry pool w none v n full h = v
    oldest_entry pool w (some e) v n full h = (
      v,
      (
        (let (g, a) = Any-get entry_is_active e pool.all_entries v.0 h.0 in (e.1, (g, a))),
        oldest (e.1) n full h,
      ),
    )

    new_or_oldest-Ends :
        (pool : WorkingDirectoryPool) (w : W)
        → IsValid pool
        → NoneFits pool
        → Ends
            (λ id sw. IsGood id sw.0)
            (λ sw. IsValid sw.0)
            (new_or_oldest on run_queues_data (pool, w))
    unfolding new_or_oldest active_len active_entries
    new_or_oldest-Ends pool w v n =
        if-Ends _ _ (ltb (count pool.all_entries) pool.capacity) _ _ (pool, w)
          (λ lt.
            let room : count pool.all_entries < pool.capacity = ltb→lt _ _ lt in
            Ends-mono (get_new on (pool, w)) (get_new-Ends on pool w v room)
              (λ id sw (v', (u, i)). (v', (u, new pool n room i))) (λ sw v'. v'))
          (λ ge.
            let full : pool.capacity ≤ count pool.all_entries = ground arith in
            oldest_entry pool w (min_by_last_use (keep entry_is_active pool.all_entries)) v n full
              (min_by_last_use-Found _))

    chosen_or_new-Ends :
        (found : Option Entry) (pool : WorkingDirectoryPool) (w : W)
        → IsValid pool
        → Fits found pool
        → Ends
            (λ id sw. IsGood id sw.0)
            (λ sw. IsValid sw.0)
            (chosen_or_new on run_queues_data found (pool, w))
    unfolding chosen_or_new
    chosen_or_new-Ends none pool w v n = new_or_oldest-Ends pool w v n
    chosen_or_new-Ends (some e) pool w v f = chosen_entry e pool v f

  module _ {F : Type 0} (run_queues_data : RunQueuesData F) (run_parameters : RunParameters) where
    try-Ends :
        (pool : WorkingDirectoryPool) (w : W)
        → IsValid pool
        → Ends
            (λ found sw. IsValid sw.0 × Fits run_queues_data run_parameters.commit_id found sw.0)
            (λ sw. IsValid sw.0)
            (try_get_fitting_working_directory_for on run_queues_data run_parameters (pool, w))
    unfolding try_get_fitting_working_directory_for
    try-Ends pool w v =
        bind-Ends _ _ (λ _ sw. IsValid sw.0) (init_active_commit_ids on) _ (pool, w)
          (init_active_commit_ids-Ends pool w v)
          (λ _ (p, w') v'.
            bind-Ends _ _ (λ _ sw. sw.0 ≡ p) (all_known on run_queues_data (active_entries p)) _
              (p, w')
              (Ends-mono (all_known on run_queues_data (active_entries p) (p, w'))
                (all_known-Ends run_queues_data run_parameters.commit_id (active_entries p) p w')
                (λ _ sw e. e) (λ sw e. subst IsValid (sym e) v'))
              (λ _ sw e.
                subst
                  (λ q.
                    IsValid q
                    × Fits run_queues_data run_parameters.commit_id
                        (fitting on run_queues_data run_parameters.commit_id (active_entries p)) q)
                  (sym e) (v', fitting-Fits run_queues_data run_parameters.commit_id p)))

    -- The choice of a working directory for a job, from a valid pool, whichever call of the host fails: the
    -- pool is valid afterwards, and a success gives a directory that is in the pool and can be used. It
    -- is the directory with the best status on the commit of the job, if any is on it, or else the one
    -- with the best status among those for whose commit there is no job, or else a new one, which is made
    -- only below the capacity, or else, at the capacity, the one whose last use is longest ago.
    pub get_a_working_directory_for_lem :
        (pool : WorkingDirectoryPool) (w : W)
        → IsValid pool
        → Ends
            (λ id sw. IsGood run_queues_data run_parameters.commit_id id sw.0)
            (λ sw. IsValid sw.0)
            (get_a_working_directory_for on run_queues_data run_parameters (pool, w))
    unfolding get_a_working_directory_for
    get_a_working_directory_for_lem pool w v =
        bind-Ends _ _
          (λ found sw. IsValid sw.0 × Fits run_queues_data run_parameters.commit_id found sw.0)
          (try_get_fitting_working_directory_for on run_queues_data run_parameters) _ (pool, w)
          (try-Ends pool w v)
          (λ found (p, w') (v', f).
            chosen_or_new-Ends run_queues_data run_parameters.commit_id found p w' v' f)
