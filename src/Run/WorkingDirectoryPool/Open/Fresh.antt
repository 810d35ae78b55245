-- ===== src/Run/WorkingDirectoryPool/Open/Fresh.antt =====
-- A pool that was opened is sorted, and gives no identifier again that a directory in it has.
use evobench.Prelude.{ℕ, ◌<◌, Bool, Option, none, some, List, [], ◌∷◌, All}
use evobench.Prelude.Bytes.{Bytes}
use evobench.Prelude.Hoare.{Ends, Ends-any}
use evobench.Prelude.Local.Steps.{bind-Ends, call-bind}
use evobench.Run.WorkingDirectory.{WorkingDirectoryAutoCleanOpts, Host, host}
use evobench.Run.WorkingDirectoryPool.Entries
use evobench.Run.WorkingDirectoryPool.Entries.{Entry}
use evobench.Run.WorkingDirectoryPool.Entries.Order.{Below, Sorted, insert-Below, insert-Sorted}
use evobench.Run.WorkingDirectoryPool.Scan.{scan_entries}
use evobench.Run.WorkingDirectoryPool.Scan.Bounds.{AreScanned, scan_entries-AreScanned}
use evobench.Run.WorkingDirectoryPool.Open.{
  scanned, open_all, open_pool, Opening, open_working_directory,
}

abbrev pub InOrder : ℕ → List Entry → Type 0
InOrder next_id entries = Sorted entries × Below next_id entries

module _ {W E : Type 0} (on : Host W E) where
  open_all-InOrder :
      (url : Bytes) (omit_check signal_change : Bool) (next_id : ℕ) (found : List (ℕ × Bytes))
      (entries : List Entry) (s : Unit {0} × W)
      → All (λ f. f.0 < next_id) found
      → InOrder next_id entries
      → Ends
          (λ es _. InOrder next_id es)
          (λ _. Unit)
          (open_all on url omit_check signal_change found entries s)
  unfolding open_all
  open_all-InOrder url omit_check signal_change next_id [] entries s h o = o
  open_all-InOrder url omit_check signal_change next_id ((id, path) ∷ found) entries s (h, hs)
        (so, be) =
      bind-Ends _ _ (λ _ _. Unit) (open_working_directory on path url omit_check signal_change) _ s
        (Ends-any (open_working_directory on path url omit_check signal_change s))
        (λ wd s' u.
          open_all-InOrder url omit_check signal_change next_id found (Entries.insert id wd entries)
            s' hs (insert-Sorted id wd entries so, insert-Below id next_id wd entries h be))

  -- A pool that was opened successfully has its entries sorted by identifier, and the next identifier is
  -- above all of them.
  pub open_pool-InOrder :
      (capacity : ℕ) (auto_clean : Option WorkingDirectoryAutoCleanOpts) (git_url base_dir : Bytes)
      (signal_change : Bool) (create_dir : Opening on (Unit {0})) (omit_check : Bool)
      (s : Unit {0} × W)
      → Ends
          (λ pool _. InOrder pool.next_id pool.all_entries)
          (λ _. Unit)
          (open_pool on capacity auto_clean git_url base_dir signal_change create_dir omit_check s)
  unfolding open_pool scanned
  open_pool-InOrder capacity auto_clean git_url base_dir signal_change create_dir omit_check s =
      bind-Ends _ _ (λ _ _. Unit) create_dir _ s (Ends-any (create_dir s))
        (λ u (t, w) v.
          call-bind _ _ on.lock_exclusive host _ t w (λ w'. tt)
            (λ u1 w1 e1.
              call-bind _ _ (on.read_dir base_dir) host _ t w1 (λ w'. tt)
                (λ entries w2 e2.
                  bind-Ends _ _ (λ r _. AreScanned 0 (some r)) (scanned on (scan_entries entries 0))
                    _ (t, w2)
                    (scanned_at (scan_entries entries 0) t w2 (scan_entries-AreScanned entries 0))
                    (λ (found, next_id) s3 (le, h).
                      bind-Ends _ _ (λ es _. InOrder next_id es)
                        (open_all on git_url omit_check signal_change found []) _ s3
                        (open_all-InOrder git_url omit_check signal_change next_id found [] s3 h
                          (tt, tt))
                        (λ es s4 o. o)))))
    where
      scanned_at :
          (o : Option (List (ℕ × Bytes) × ℕ)) (t : Unit {0}) (w : W)
          → AreScanned 0 o
          → Ends (λ r _. AreScanned 0 (some r)) (λ _. Unit) (scanned on o (t, w))
      scanned_at none t w h = tt
      scanned_at (some r) t w h = h
