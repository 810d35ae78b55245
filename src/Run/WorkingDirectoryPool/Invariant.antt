-- ===== src/Run/WorkingDirectoryPool/Invariant.antt =====
-- What holds of a pool at all times: its entries are sorted by identifier, all identifiers are below the next
-- one, and no more directories are active than there is capacity.
use evobench.Prelude.{
  ℕ, ◌+◌, ◌^◌, ◌≤◌, ◌<◌, ◌≡◌, refl, sym, ap, true, some, [], ◌∷◌, ◌++◌, leb, Bool-cases, inl, inr,
  arith, All-map,
}
use mathlib.Core.Path.{subst}
use evobench.Prelude.Bytes.{Bytes}
use evobench.Prelude.Outcome.{◌>>=◌}
use evobench.Prelude.Hoare.{Ends, Ends-mono}
use evobench.Prelude.Local.{get, zoom}
use evobench.Prelude.Local.Steps.{
  bind-Ends, or_fail-bind, or_crash-bind, call-bind, call_pure-bind, zoom-Ends,
}
use evobench.SerdeTypes.GitHash
use evobench.Run.WorkingDirectory.{
  WorkingDirectory, Host, host, is_active, checked_out, set_and_save_status, save_new, now_status,
}
use evobench.Run.WorkingDirectory.Saving.{set_and_save_status_lem}
use evobench.Run.WorkingDirectoryPool.{
  WorkingDirectoryPool, Do, cloned, with_entries, get_new, next_id, clone_repo,
}
use evobench.Run.WorkingDirectoryPool.Entries
use evobench.Run.WorkingDirectoryPool.Entries.Order.{
  Below, Sorted, set-Below, set-Sorted, remove-Below, remove-Sorted, insert_last, Below-last,
  Sorted-last,
}
use evobench.Run.WorkingDirectoryPool.Entries.Count.{
  count, set-count, remove-count, count-last, get-last,
}

abbrev pub IsValid : WorkingDirectoryPool → Type 0
IsValid pool =
    Sorted pool.all_entries
    × (Below pool.next_id pool.all_entries × (count pool.all_entries ≤ pool.capacity))

-- The directory is in the pool and can be used.
abbrev pub IsUsable : ℕ → WorkingDirectoryPool → Type 0
IsUsable id pool =
    (wd : WorkingDirectory) × ((Entries.get id pool.all_entries ≡ some wd) × (is_active wd ≡ true))

abbrev bumped : WorkingDirectoryPool → WorkingDirectoryPool
bumped pool = record pool { next_id = pool.next_id + 1 }

-- The pool with a new directory, which has the next identifier.
abbrev pub grown : WorkingDirectory → WorkingDirectoryPool → WorkingDirectoryPool
grown wd pool = record pool {
  next_id = pool.next_id + 1;
  all_entries = pool.all_entries ++ (pool.next_id, wd) ∷ [];
}

abbrev pub IsNew : WorkingDirectoryPool → ℕ → WorkingDirectoryPool → Type 0
IsNew before id after =
    (id ≡ before.next_id) × ((wd : WorkingDirectory) × (after ≡ grown wd before))

-- A new directory, with the next identifier, where there is room.
new_IsValid :
    (pool : WorkingDirectoryPool) (wd : WorkingDirectory)
    → IsValid pool
    → count pool.all_entries < pool.capacity
    → IsValid (with_entries (Entries.insert pool.next_id wd) (bumped pool))
new_IsValid pool wd (s, (b, c)) room = rw (insert_last pool.next_id wd pool.all_entries b) (
  Sorted-last pool.next_id wd pool.all_entries b s,
  (
    Below-last pool.next_id (pool.next_id + 1) wd pool.all_entries b (omega arith),
    omega (arith, count-last (pool.next_id, wd) pool.all_entries),
  ),
)

new_IsUsable :
    (pool : WorkingDirectoryPool) (wd : WorkingDirectory)
    → IsValid pool
    → is_active wd ≡ true
    → IsUsable pool.next_id (with_entries (Entries.insert pool.next_id wd) (bumped pool))
new_IsUsable pool wd (s, (b, c)) a =
    rw (insert_last pool.next_id wd pool.all_entries b)
      (wd, (get-last pool.next_id wd pool.all_entries b, a))

-- Assignment to an entry that was active or does not become active.
pub set-IsValid :
    (pool : WorkingDirectoryPool) (id : ℕ) (wd wd' : WorkingDirectory)
    → Entries.get id pool.all_entries ≡ some wd
    → (is_active wd' ≡ true → is_active wd ≡ true)
    → IsValid pool
    → IsValid (with_entries (Entries.set id wd') pool)
set-IsValid pool id wd wd' e m (s, (b, c)) = (
  set-Sorted id wd' pool.all_entries s,
  (
    set-Below id pool.next_id wd' pool.all_entries b,
    omega (arith, set-count id wd wd' pool.all_entries e m),
  ),
)

pub remove-IsValid :
    (pool : WorkingDirectoryPool) (id : ℕ)
    → IsValid pool
    → IsValid (with_entries (Entries.remove id) pool)
remove-IsValid pool id (s, (b, c)) = (
  remove-Sorted id pool.all_entries s,
  (
    remove-Below id pool.next_id pool.all_entries b,
    omega (arith, remove-count id pool.all_entries),
  ),
)

module _ {W E : Type 0} (on : Host W E) where
  -- A directory that is checked out can be used.
  checked_out-Ends :
      (wd : WorkingDirectory) (w : W)
      → Ends (λ wd' _. is_active wd' ≡ true) (λ _. Unit) (save_new on checked_out (wd, w))
  checked_out-Ends wd w =
      bind-Ends _ _ (λ _ sw. is_active sw.0 ≡ true) (set_and_save_status on checked_out) (λ _. get)
        (wd, w)
        (Ends-mono (set_and_save_status on checked_out (wd, w))
          (set_and_save_status_lem on checked_out wd w) (λ _ sw (e, _). ap is_active e)
          (λ sw _. tt))
        (λ _ sw h. h)

  saved_clone :
      (pool : WorkingDirectoryPool) (w : W) (wd : WorkingDirectory)
      → Ends
          (λ wd' sw. (sw.0 ≡ pool) × (is_active wd' ≡ true))
          (λ sw. sw.0 ≡ pool)
          (zoom wd (λ _ p. p) (save_new on checked_out) (pool, w))
  saved_clone pool w wd =
      zoom-Ends _ _ (λ wd' _. is_active wd' ≡ true) (λ _. Unit) wd (λ _ p. p)
        (save_new on checked_out) pool w (checked_out-Ends wd w) (λ wd' part w' h. (refl, h))
        (λ part w' h. refl)

  -- The clone is checked out, and the pool stays as it is meanwhile.
  clone_repo-Ends :
      (name : Bytes) (pool : WorkingDirectoryPool) (w : W)
      → Ends
          (λ wd sw. (sw.0 ≡ pool) × (is_active wd ≡ true))
          (λ sw. sw.0 ≡ pool)
          (clone_repo on name (pool, w))
  unfolding clone_repo now_status
  clone_repo-Ends name pool w =
      call-bind _ _ (on.git_clone pool.base_dir pool.git_url name) host _ pool w (λ w'. refl)
        (λ path w1 e1.
          call-bind _ _ (on.get_head_commit_id path) host _ pool w1 (λ w'. refl)
            (λ head w2 e2.
              or_fail-bind _ _ _ (GitHash.from_str head) _ (pool, w2) refl
                (λ commit e3.
                  call_pure-bind _ _ on.now_with_offset host _ _ pool w2 (λ w'. refl)
                    (λ creation w3 e4.
                      or_crash-bind _ _ _ (on.to_systemtime creation) (pool, w3) refl
                        (λ mtime e5. saved_clone pool w3 (
                          cloned path commit
                            (record {
                              creation_timestamp = creation;
                              num_runs = 0;
                              status = checked_out;
                            })
                            mtime pool.signal_change))))))

  -- The next identifier is taken, unless it overflows.
  next_id-bind :
      {B : Type 0} (Post : B → WorkingDirectoryPool × W → Type 0)
      (Bad : WorkingDirectoryPool × W → Type 0) (f : ℕ → Do on B) (pool : WorkingDirectoryPool)
      (w : W)
      → Bad (pool, w)
      → Ends Post Bad (f pool.next_id (bumped pool, w))
      → Ends Post Bad ((next_id on >>= f) (pool, w))
  unfolding next_id
  next_id-bind Post Bad f pool w bad k = elim (Bool-cases (leb (2 ^ 64) (pool.next_id + 1))) [
    | inl e ↦ rw e bad
    | inr e ↦ rw e k
  ]

  bumped-IsValid : (pool : WorkingDirectoryPool) → IsValid pool → IsValid (bumped pool)
  bumped-IsValid pool (s, (b, c)) = (s, (All-map pool.all_entries (λ e h. omega arith) b, c))

  -- A new directory where there is room: the pool is valid however that ends, and a success gives the
  -- identifier of a directory that can be used.
  pub get_new-Ends :
      (pool : WorkingDirectoryPool) (w : W)
      → IsValid pool
      → count pool.all_entries < pool.capacity
      → Ends
          (λ id sw. IsValid sw.0 × (IsUsable id sw.0 × IsNew pool id sw.0))
          (λ sw. IsValid sw.0)
          (get_new on (pool, w))
  unfolding get_new
  get_new-Ends pool w v room = next_id-bind _ _ _ pool w v (
      bind-Ends _ _ (λ wd sw. (sw.0 ≡ bumped pool) × (is_active wd ≡ true)) (clone_repo on _) _
        (bumped pool, w)
        (Ends-mono (clone_repo on _ (bumped pool, w)) (clone_repo-Ends _ (bumped pool) w)
          (λ wd sw h. h) (λ sw e. subst IsValid (sym e) (bumped-IsValid pool v)))
        (λ wd sw (e, a).
          subst
            (λ p.
              IsValid (with_entries (Entries.insert pool.next_id wd) p)
              × (IsUsable pool.next_id (with_entries (Entries.insert pool.next_id wd) p)
                  × IsNew pool pool.next_id (with_entries (Entries.insert pool.next_id wd) p)))
            (sym e)
            (new_IsValid pool wd v room, (new_IsUsable pool wd v a, (refl, (wd, inserted wd))))))
    where
      inserted :
          (wd : WorkingDirectory)
          → with_entries (Entries.insert pool.next_id wd) (bumped pool) ≡ grown wd pool
      inserted wd =
          ap (λ es. record (bumped pool) { all_entries = es })
            (insert_last pool.next_id wd pool.all_entries v.1.0)
