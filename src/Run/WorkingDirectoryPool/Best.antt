-- ===== src/Run/WorkingDirectoryPool/Best.antt =====
-- What the searches for the best status and for the least recent use find.
use evobench.Prelude.{
  ℕ, ◌≤◌, ◌<◌, ◌≡◌, refl, sym, Option, none, some, List, [], ◌∷◌, All, Any, Ordering-cases, inl,
  inr, arith,
}
use mathlib.Core.Path.{subst}
use Prim.Native.Nat.{Ordering, compare}
use evobench.Run.WorkingDirectory.{score, cmp, status_of}
use evobench.Run.WorkingDirectoryPool.{max_from, max_by_status, min_from, min_by_last_use}
use evobench.Run.WorkingDirectoryPool.Entries.{Entry}

abbrev pub rank : Entry → ℕ
rank e = score (status_of e.1)

-- One of the entries, and none of them has a better status.
abbrev pub IsBest : Entry → List Entry → Type 0
IsBest r es = Any (λ x. x ≡ r) es × All (λ x. rank x ≤ rank r) es

-- One of the entries, and none of them was used before it.
abbrev pub IsOldest : Entry → List Entry → Type 0
IsOldest r es = Any (λ x. x ≡ r) es × All (λ x. r.1.last_use ≤ x.1.last_use) es

max_from-IsBest : (best : Entry) (es : List Entry) → IsBest (max_from best es) (best ∷ es)
unfolding max_from cmp
max_from-IsBest best [] = (inl refl, (omega arith, tt))
max_from-IsBest best (e ∷ es) = elim (Ordering-cases (cmp (status_of best.1) (status_of e.1))) [
  | inl lt ↦
      move (rw (lt, max_from) (refl)) (worse (omega (arith, below lt)) (max_from-IsBest e es))
  | inr (inl eq) ↦ move (rw (eq, max_from) (refl)) (worse (below_eq eq) (max_from-IsBest e es))
  | inr (inr gt) ↦ move (rw (gt, max_from) (refl)) (better (above gt) (max_from-IsBest best es))
]
  where
    move :
        {r : Entry}
        → max_from best (e ∷ es) ≡ r
        → IsBest r (best ∷ e ∷ es)
        → IsBest (max_from best (e ∷ es)) (best ∷ e ∷ es)
    move eq h = subst (λ x. IsBest x (best ∷ e ∷ es)) (sym eq) h

    below : compare (rank best) (rank e) ≡ Ordering.lt → rank best < rank e
    below h = ground (arith, h)

    below_eq : compare (rank best) (rank e) ≡ Ordering.eq → rank best ≤ rank e
    below_eq h = ground (arith, h)

    above : compare (rank best) (rank e) ≡ Ordering.gt → rank e ≤ rank best
    above h = ground (arith, h)

    worse : {r : Entry} → rank best ≤ rank e → IsBest r (e ∷ es) → IsBest r (best ∷ e ∷ es)
    worse le (place, (h, hs)) = (inr place, (omega arith, (h, hs)))

    better : {r : Entry} → rank e ≤ rank best → IsBest r (best ∷ es) → IsBest r (best ∷ e ∷ es)
    better le (inl eq, (h, hs)) = (inl eq, (h, (omega arith, hs)))
    better le (inr place, (h, hs)) = (inr (inr place), (h, (omega arith, hs)))

min_from-IsOldest : (best : Entry) (es : List Entry) → IsOldest (min_from best es) (best ∷ es)
unfolding min_from
min_from-IsOldest best [] = (inl refl, (omega arith, tt))
min_from-IsOldest best (e ∷ es) = elim (Ordering-cases (compare best.1.last_use e.1.last_use)) [
  | inl lt ↦
      move (rw (lt, min_from) (refl)) (older (ground (arith, lt)) (min_from-IsOldest best es))
  | inr (inl eq) ↦
      move (rw (eq, min_from) (refl)) (older (ground (arith, eq)) (min_from-IsOldest best es))
  | inr (inr gt) ↦
      move (rw (gt, min_from) (refl)) (newer (ground (arith, gt)) (min_from-IsOldest e es))
]
  where
    move :
        {r : Entry}
        → min_from best (e ∷ es) ≡ r
        → IsOldest r (best ∷ e ∷ es)
        → IsOldest (min_from best (e ∷ es)) (best ∷ e ∷ es)
    move eq h = subst (λ x. IsOldest x (best ∷ e ∷ es)) (sym eq) h

    newer :
        {r : Entry}
        → e.1.last_use ≤ best.1.last_use
        → IsOldest r (e ∷ es)
        → IsOldest r (best ∷ e ∷ es)
    newer le (place, (h, hs)) = (inr place, (omega arith, (h, hs)))

    older :
        {r : Entry}
        → best.1.last_use ≤ e.1.last_use
        → IsOldest r (best ∷ es)
        → IsOldest r (best ∷ e ∷ es)
    older le (inl eq, (h, hs)) = (inl eq, (h, (omega arith, hs)))
    older le (inr place, (h, hs)) = (inr (inr place), (h, (omega arith, hs)))

-- The result of a search: nothing only if there is nothing.
abbrev pub Found : (Entry → List Entry → Type 0) → Option Entry → List Entry → Type 0
Found P none es = es ≡ []
Found P (some e) es = P e es

pub max_by_status-Found : (es : List Entry) → Found IsBest (max_by_status es) es
unfolding max_by_status
max_by_status-Found [] = refl
max_by_status-Found (e ∷ es) = max_from-IsBest e es

pub min_by_last_use-Found : (es : List Entry) → Found IsOldest (min_by_last_use es) es
unfolding min_by_last_use
min_by_last_use-Found [] = refl
min_by_last_use-Found (e ∷ es) = min_from-IsOldest e es
