-- ===== src/Run/WorkingDirectoryPool/Entries/Count.antt =====
-- Finding entries, and how many of them are active.
use evobench.Prelude.{
  ℕ, ◌+◌, ◌≤◌, ◌≡◌, refl, ap, sym, ◌∙◌, Bool, true, false, some, List, [], ◌∷◌, ◌++◌, ◌==◌, Any,
  Bool-cases, inl, inr, arith, length, keep, ==_iff,
}
use evobench.Run.WorkingDirectory.{WorkingDirectory, is_active}
use evobench.Run.WorkingDirectoryPool.{entry_is_active}
use evobench.Run.WorkingDirectoryPool.Entries
use evobench.Run.WorkingDirectoryPool.Entries.{Entry}
use evobench.Run.WorkingDirectoryPool.Entries.Order.{Below, Above, Sorted}

abbrev pub count : List Entry → ℕ
count es = length (keep entry_is_active es)

-- An entry adds one or nothing.
bit : Bool → ℕ
bit true = 1
bit false = 0

count_cons : (e : Entry) (es : List Entry) → count (e ∷ es) ≡ bit (entry_is_active e) + count es
unfolding bit
count_cons e es = elim (Bool-cases (entry_is_active e)) [
  | inl h ↦ rw (h, keep) (omega arith)
  | inr h ↦ rw (h, keep) (omega arith)
]

bit_le : (a : Bool) → bit a ≤ 1
unfolding bit
bit_le true = omega arith
bit_le false = omega arith

bit_mono : (a b : Bool) → (a ≡ true → b ≡ true) → bit a ≤ bit b
unfolding bit
bit_mono true true h = omega arith
bit_mono true false h = absurd (cc (h refl))
bit_mono false b h = omega arith

pub get-set :
    (id : ℕ) (wd wd' : WorkingDirectory) (es : List Entry)
    → Entries.get id es ≡ some wd
    → Entries.get id (Entries.set id wd' es) ≡ some wd'
unfolding Entries.get Entries.set
get-set id wd wd' [] h = cc
get-set id wd wd' ((k, wd0) ∷ es) h = elim (Bool-cases (k == id)) [
  | inl e ↦ rw e (rw e refl)
  | inr e ↦ rw e (rw e (get-set id wd wd' es (rw e at h)))
]

-- One more entry is active at most.
pub set-count_suc :
    (id : ℕ) (wd' : WorkingDirectory) (es : List Entry)
    → count (Entries.set id wd' es) ≤ count es + 1
unfolding Entries.set
set-count_suc id wd' [] = omega arith
set-count_suc id wd' ((k, wd0) ∷ es) = elim (Bool-cases (k == id)) [
  | inl e ↦
      rw e (omega (arith, count_cons (k, wd') es, count_cons (k, wd0) es, bit_le (is_active wd')))
  | inr e ↦ rw e (
      omega (
        arith,
        count_cons (k, wd0) (Entries.set id wd' es),
        count_cons (k, wd0) es,
        set-count_suc id wd' es,
      ))
]

-- No more entries are active if the new value is active only where the old one was.
pub set-count :
    (id : ℕ) (wd wd' : WorkingDirectory) (es : List Entry)
    → Entries.get id es ≡ some wd
    → (is_active wd' ≡ true → is_active wd ≡ true)
    → count (Entries.set id wd' es) ≤ count es
unfolding Entries.get Entries.set
set-count id wd wd' [] h m = omega arith
set-count id wd wd' ((k, wd0) ∷ es) h m = elim (Bool-cases (k == id)) [
  | inl e ↦
      let same_wd : wd0 ≡ wd = cc (rw e at h) in
      rw e (
        omega (
          arith,
          count_cons (k, wd') es,
          count_cons (k, wd0) es,
          bit_mono (is_active wd') (is_active wd0) (λ a. ap is_active same_wd ∙ m a),
        ))
  | inr e ↦ rw e (
      omega (
        arith,
        count_cons (k, wd0) (Entries.set id wd' es),
        count_cons (k, wd0) es,
        set-count id wd wd' es (rw e at h) m,
      ))
]

pub remove-count : (id : ℕ) (es : List Entry) → count (Entries.remove id es) ≤ count es
unfolding Entries.remove
remove-count id [] = omega arith
remove-count id ((k, wd0) ∷ es) = elim (Bool-cases (k == id)) [
  | inl e ↦ rw e (omega (arith, count_cons (k, wd0) es))
  | inr e ↦ rw e (
      omega (
        arith,
        count_cons (k, wd0) (Entries.remove id es),
        count_cons (k, wd0) es,
        remove-count id es,
      ))
]

bit_le_one : (b : Bool) → bit b ≤ 1
unfolding bit
bit_le_one true = omega arith
bit_le_one false = omega arith

pub count-last : (e : Entry) (es : List Entry) → count (es ++ e ∷ []) ≤ count es + 1
count-last e [] = omega (arith, count_cons e [], bit_le_one (entry_is_active e))
count-last e (x ∷ es) = omega (arith, count_cons x (es ++ e ∷ []), count_cons x es, count-last e es)

pub get-last :
    (id : ℕ) (wd : WorkingDirectory) (es : List Entry)
    → Below id es
    → Entries.get id (es ++ (id, wd) ∷ []) ≡ some wd
unfolding Entries.get
get-last id wd [] h = let e : (id == id) ≡ true = ground arith in rw e refl
get-last id wd ((k, wd0) ∷ es) (h, hs) =
    let e : (k == id) ≡ false = ground arith in rw e (get-last id wd es hs)

-- What is found by a search in the sorted entries is found by its identifier.
pub Any-get :
    (p : Entry → Bool) (e : Entry) (es : List Entry)
    → Sorted es
    → Any (λ x. x ≡ e) (keep p es)
    → (Entries.get (e.0) es ≡ some (e.1)) × (p e ≡ true)
unfolding Entries.get
Any-get p e [] s h = absurd h
Any-get p e (x ∷ es) (a, s) h = elim (Bool-cases (p x)) [
  | inl px ↦ kept (Any-get p e es s) px (rw (px, keep) at h)
  | inr px ↦ later (Any-get p e es s (rw (px, keep) at h))
]
  where
    above :
        (l : List Entry) → Above (x.0) l → Entries.get (e.0) l ≡ some (e.1) → (x.0 == e.0) ≡ false
    above [] h g = cc
    above (y ∷ l) (h, hs) g = elim (Bool-cases (y.0 == e.0)) [
      | inl eq ↦ let same_id : y.0 ≡ e.0 = (==_iff (y.0) (e.0)).0 eq in ground arith
      | inr ne ↦ above l hs (rw ne at g)
    ]

    later :
        (Entries.get (e.0) es ≡ some (e.1)) × (p e ≡ true)
        → (Entries.get (e.0) (x ∷ es) ≡ some (e.1)) × (p e ≡ true)
    later (g, pe) = let ne : (x.0 == e.0) ≡ false = above es a g in (rw ne g, pe)

    kept :
        (Any (λ x. x ≡ e) (keep p es) → (Entries.get (e.0) es ≡ some (e.1)) × (p e ≡ true))
        → p x ≡ true
        → Any (λ x. x ≡ e) (x ∷ keep p es)
        → (Entries.get (e.0) (x ∷ es) ≡ some (e.1)) × (p e ≡ true)
    kept rest px (inl eq) =
        let same_id : (x.0 == e.0) ≡ true = (==_iff (x.0) (e.0)).1 (ap (λ y. y.0) eq) in
        (rw same_id (ap (λ y. some (y.1)) eq), sym (ap p eq) ∙ px)
    kept rest px (inr h) = later (rest h)
