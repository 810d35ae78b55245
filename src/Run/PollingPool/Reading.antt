-- ===== src/Run/PollingPool/Reading.antt =====
-- Looking something up in a directory of the pool: the value that processing gives is that of the action, and the pool
-- stays valid, for any action that leaves the directory as it is.
use evobench.Prelude.{ℕ, ◌≡◌, true, none, some}
use evobench.Prelude.Bytes.{Bytes}
use evobench.Prelude.Outcome.{crash}
use evobench.Prelude.Hoare.{Ends, Ends-mono, Ends-both}
use evobench.Prelude.Local.Steps.{bind-Ends}
use evobench.Run.WorkingDirectory.{WorkingDirectory, Host, is_active}
use evobench.Run.WorkingDirectoryPool.{WorkingDirectoryPool, with_entries, on_entry}
use evobench.Run.WorkingDirectoryPool.Entries
use evobench.Run.WorkingDirectoryPool.Entries.Count.{get-set}
use evobench.Run.WorkingDirectoryPool.Invariant.{IsValid, IsUsable, set-IsValid}
use evobench.Run.WorkingDirectoryPool.OnEntry.{on_entry-Ends}
use evobench.Run.WorkingDirectoryPool.Process.{
  process_in_working_directory, working_directory_cleanup,
}
use evobench.Run.WorkingDirectoryPool.Process.Values.{process_value}
use evobench.Run.WorkingDirectoryPool.Process.Results.{
  IsThere, process_in_working_directory_lem, working_directory_cleanup_lem,
}
use evobench.Run.PollingPool.{In, process_and_clean}

module _ {W E T : Type 0} (on : Host W E) (Q : T → Type 0) where
  -- What is looked up has the property, and the directory stays as it is.
  abbrev pub Reads : In on T → Type 0
  Reads m =
      (wd : WorkingDirectory) (w : W)
      → Ends (λ t sw. (sw.0 ≡ wd) × Q t) (λ sw. sw.0 ≡ wd) (m (wd, w))

  reading-Ends :
      (id : ℕ) (m : In on T) (pool : WorkingDirectoryPool) (w : W)
      → Reads m
      → IsValid pool
      → IsUsable id pool
      → Ends
          (λ t sw. (IsValid sw.0 × IsUsable id sw.0) × Q t)
          (λ sw. IsValid sw.0 × IsThere id sw.0)
          (on_entry on id m crash (pool, w))
  reading-Ends id m pool w reads v (wd, (e, a)) =
      on_entry-Ends on _ _ (λ wd0 t sw. (sw.0 ≡ wd0) × Q t) (λ wd0 sw. sw.0 ≡ wd0) id m crash pool w
        (λ n. absurd (cc (n, e)))
        (λ wd0 e0. (
          reads wd0 w,
          (
            λ t wd' w' (h, q).
                let (v', g) = put_back wd0 wd' e0 h in
                let active : is_active wd' ≡ true = cc (h, e, e0, a) in
                ((v', (wd', (g, active))), q),
            λ wd' w' h. let (v', g) = put_back wd0 wd' e0 h in (v', (wd', g)),
          ),
        ))
    where
      put_back :
          (wd0 wd' : WorkingDirectory)
          → Entries.get id pool.all_entries ≡ some wd0
          → wd' ≡ wd0
          → IsValid (with_entries (Entries.set id wd') pool)
            × (Entries.get id (Entries.set id wd' pool.all_entries) ≡ some wd')
      put_back wd0 wd' e0 h = (
        set-IsValid pool id wd0 wd' e0 (λ act'. cc (h, act')) v,
        get-set id wd0 wd' pool.all_entries e0,
      )

module _ {W E T : Type 0} (on : Host W E) (Q : T → Type 0) where
  -- The pool is valid however the lookup ends, and a value that it gives has the property.
  pub process_and_clean-Ends :
      (id : ℕ) (timestamp : Bytes) (m : In on T) (context : Bytes) (pool : WorkingDirectoryPool)
      (w : W)
      → Reads on Q m
      → IsValid pool
      → Ends
          (λ t sw. IsValid sw.0 × Q t)
          (λ sw. IsValid sw.0)
          (process_and_clean on id timestamp (on_entry on id m crash) context (pool, w))
  unfolding process_and_clean
  process_and_clean-Ends id timestamp m context pool w reads v =
      bind-Ends _ _ (λ r sw. IsValid sw.0 × Q r.0)
        (process_in_working_directory on id timestamp (on_entry on id m crash) none context none) _
        (pool, w)
        (Ends-mono
          (process_in_working_directory on id timestamp (on_entry on id m crash) none context none
            (pool, w))
          (Ends-both _ _ _
            (process_in_working_directory on id timestamp (on_entry on id m crash) none context none
              (pool, w))
            (process_in_working_directory_lem on id timestamp (on_entry on id m crash) none context
              none pool w v
              (λ p w' v' u.
                Ends-mono (on_entry on id m crash (p, w')) (reading-Ends on Q id m p w' reads v' u)
                  (λ t sw h. h.0) (λ sw h. h)))
            (process_value on Q id timestamp (on_entry on id m crash) none context none pool w v
              (λ p w' v' u.
                Ends-mono (on_entry on id m crash (p, w')) (reading-Ends on Q id m p w' reads v' u)
                  (λ t sw h. h.1) (λ sw h. tt))))
          (λ r sw h. (h.0.0, h.1)) (λ sw h. h))
        (λ r (p, w') (v', q).
          bind-Ends _ _ (λ _ sw. IsValid sw.0) (working_directory_cleanup on r.1) _ (p, w')
            (Ends-mono (working_directory_cleanup on r.1 (p, w'))
              (working_directory_cleanup_lem on r.1 p w' v') (λ _ sw h. h.0) (λ sw h. h))
            (λ _ sw v2. (v2, q)))
