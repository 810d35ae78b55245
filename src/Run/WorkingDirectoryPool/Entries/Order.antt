-- ===== src/Run/WorkingDirectoryPool/Entries/Order.antt =====
-- The entries of a pool stay sorted by identifier, and below the next identifier.
use evobench.Prelude.{
  ℕ, ◌<◌, ◌≡◌, refl, ap, List, [], ◌∷◌, ◌++◌, ◌==◌, All, All-map, Bool-cases, Ordering-cases, inl,
  inr, arith,
}
use Prim.Native.Nat.{Ordering, compare}
use evobench.Run.WorkingDirectory.{WorkingDirectory}
use evobench.Run.WorkingDirectoryPool.Entries
use evobench.Run.WorkingDirectoryPool.Entries.{Entry}

abbrev pub Below : ℕ → List Entry → Type 0
Below n es = All (λ e. e.0 < n) es

abbrev pub Above : ℕ → List Entry → Type 0
Above n es = All (λ e. n < e.0) es

abbrev pub Sorted : List Entry → Type 0
Sorted [] = Unit
Sorted (e ∷ es) = Above (e.0) es × Sorted es

-- Assignment changes no identifier.
pub set-Below :
    (id n : ℕ) (wd : WorkingDirectory) (es : List Entry)
    → Below n es
    → Below n (Entries.set id wd es)
unfolding Entries.set
set-Below id n wd [] h = tt
set-Below id n wd ((k, wd0) ∷ es) (h, hs) = elim (Bool-cases (k == id)) [
  | inl e ↦ rw e (h, hs)
  | inr e ↦ rw e (h, set-Below id n wd es hs)
]

set-Above :
    (id n : ℕ) (wd : WorkingDirectory) (es : List Entry)
    → Above n es
    → Above n (Entries.set id wd es)
unfolding Entries.set
set-Above id n wd [] h = tt
set-Above id n wd ((k, wd0) ∷ es) (h, hs) = elim (Bool-cases (k == id)) [
  | inl e ↦ rw e (h, hs)
  | inr e ↦ rw e (h, set-Above id n wd es hs)
]

pub set-Sorted :
    (id : ℕ) (wd : WorkingDirectory) (es : List Entry) → Sorted es → Sorted (Entries.set id wd es)
unfolding Entries.set
set-Sorted id wd [] h = tt
set-Sorted id wd ((k, wd0) ∷ es) (h, hs) = elim (Bool-cases (k == id)) [
  | inl e ↦ rw e (h, hs)
  | inr e ↦ rw e (set-Above id k wd es h, set-Sorted id wd es hs)
]

pub remove-Below : (id n : ℕ) (es : List Entry) → Below n es → Below n (Entries.remove id es)
unfolding Entries.remove
remove-Below id n [] h = tt
remove-Below id n ((k, wd0) ∷ es) (h, hs) = elim (Bool-cases (k == id)) [
  | inl e ↦ rw e hs
  | inr e ↦ rw e (h, remove-Below id n es hs)
]

remove-Above : (id n : ℕ) (es : List Entry) → Above n es → Above n (Entries.remove id es)
unfolding Entries.remove
remove-Above id n [] h = tt
remove-Above id n ((k, wd0) ∷ es) (h, hs) = elim (Bool-cases (k == id)) [
  | inl e ↦ rw e hs
  | inr e ↦ rw e (h, remove-Above id n es hs)
]

pub remove-Sorted : (id : ℕ) (es : List Entry) → Sorted es → Sorted (Entries.remove id es)
unfolding Entries.remove
remove-Sorted id [] h = tt
remove-Sorted id ((k, wd0) ∷ es) (h, hs) = elim (Bool-cases (k == id)) [
  | inl e ↦ rw e hs
  | inr e ↦ rw e (remove-Above id k es h, remove-Sorted id es hs)
]

-- Above all identifiers there are, a new entry comes last.
pub insert_last :
    (id : ℕ) (wd : WorkingDirectory) (es : List Entry)
    → Below id es
    → Entries.insert id wd es ≡ es ++ (id, wd) ∷ []
unfolding Entries.insert
insert_last id wd [] h = refl
insert_last id wd ((k, wd0) ∷ es) (h, hs) =
    let g : compare id k ≡ Ordering.gt = ground arith in
    rw (g, Entries.insert) (ap (λ l. (k, wd0) ∷ l) (insert_last id wd es hs))

pub Below-last :
    (id n : ℕ) (wd : WorkingDirectory) (es : List Entry)
    → Below id es
    → id < n
    → Below n (es ++ (id, wd) ∷ [])
Below-last id n wd [] h lt = (lt, tt)
Below-last id n wd ((k, wd0) ∷ es) (h, hs) lt = (omega arith, Below-last id n wd es hs lt)

Above-last :
    (id n : ℕ) (wd : WorkingDirectory) (es : List Entry)
    → Above n es
    → n < id
    → Above n (es ++ (id, wd) ∷ [])
Above-last id n wd [] h lt = (lt, tt)
Above-last id n wd ((k, wd0) ∷ es) (h, hs) lt = (h, Above-last id n wd es hs lt)

pub Sorted-last :
    (id : ℕ) (wd : WorkingDirectory) (es : List Entry)
    → Below id es
    → Sorted es
    → Sorted (es ++ (id, wd) ∷ [])
Sorted-last id wd [] h s = (tt, tt)
Sorted-last id wd ((k, wd0) ∷ es) (h, hs) (a, s) =
    (Above-last id k wd es a h, Sorted-last id wd es hs s)

-- Inserting in a sorted map, wherever the identifier falls.
insert-Above :
    (id n : ℕ) (wd : WorkingDirectory) (es : List Entry)
    → n < id
    → Above n es
    → Above n (Entries.insert id wd es)
unfolding Entries.insert
insert-Above id n wd [] lt h = (lt, tt)
insert-Above id n wd ((k, wd0) ∷ es) lt (h, hs) = elim (Ordering-cases (compare id k)) [
  | inl e ↦ rw (e, Entries.insert) (lt, (h, hs))
  | inr (inl e) ↦ rw (e, Entries.insert) (lt, hs)
  | inr (inr e) ↦ rw (e, Entries.insert) (h, insert-Above id n wd es lt hs)
]

pub insert-Below :
    (id n : ℕ) (wd : WorkingDirectory) (es : List Entry)
    → id < n
    → Below n es
    → Below n (Entries.insert id wd es)
unfolding Entries.insert
insert-Below id n wd [] lt h = (lt, tt)
insert-Below id n wd ((k, wd0) ∷ es) lt (h, hs) = elim (Ordering-cases (compare id k)) [
  | inl e ↦ rw (e, Entries.insert) (lt, (h, hs))
  | inr (inl e) ↦ rw (e, Entries.insert) (lt, hs)
  | inr (inr e) ↦ rw (e, Entries.insert) (h, insert-Below id n wd es lt hs)
]

pub insert-Sorted :
    (id : ℕ) (wd : WorkingDirectory) (es : List Entry)
    → Sorted es
    → Sorted (Entries.insert id wd es)
unfolding Entries.insert
insert-Sorted id wd [] h = (tt, tt)
insert-Sorted id wd ((k, wd0) ∷ es) (h, hs) = elim (Ordering-cases (compare id k)) [
  | inl e ↦
      let lt : id < k = ground (arith, e) in
      rw (e, Entries.insert) ((lt, All-map es (λ x p. omega arith) h), (h, hs))
  | inr (inl e) ↦ let eq : id ≡ k = ground (arith, e) in rw (e, Entries.insert) (rw eq h, hs)
  | inr (inr e) ↦
      let gt : k < id = ground (arith, e) in
      rw (e, Entries.insert) (insert-Above id k wd es gt h, insert-Sorted id wd es hs)
]
