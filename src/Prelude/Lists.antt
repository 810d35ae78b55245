-- ===== src/Prelude/Lists.antt =====
-- Lists measured and indexed by native numbers, and predicates on lists.
use Prim.Native.Nat.{ℕ, zero, suc, ◌+◌, ◌≤◌}
use mathlib.Core.Path.{◌≡◌, refl, sym, ap, ◌∙◌}
use mathlib.Core.List.{List, [], ◌∷◌, ◌++◌, append_assoc}
use mathlib.Core.Bool.{Bool, true, false}
use mathlib.Core.Logic.{◌⊎◌, inl, inr}
use native.Mathlib.Omega.{arith}

module _ {ℓ} {A : Type ℓ} where
  abbrev pub length : List A → ℕ
  length [] = 0
  length (x ∷ xs) = suc (length xs)

  abbrev pub take : ℕ → List A → List A
  take zero xs = []
  take (suc n) [] = []
  take (suc n) (x ∷ xs) = x ∷ take n xs

  abbrev pub drop : ℕ → List A → List A
  drop zero xs = xs
  drop (suc n) [] = []
  drop (suc n) (x ∷ xs) = drop n xs

  abbrev pub concat : List (List A) → List A
  concat [] = []
  concat (l ∷ ls) = l ++ concat ls

  pub take-drop : (n : ℕ) (xs : List A) → take n xs ++ drop n xs ≡ xs
  take-drop zero xs = refl
  take-drop (suc n) [] = refl
  take-drop (suc n) (x ∷ xs) = ap (λ l. x ∷ l) (take-drop n xs)

  pub length-take : (n : ℕ) (xs : List A) → n ≤ length xs → length (take n xs) ≡ n
  length-take zero xs h = refl
  length-take (suc n) [] h = absurd (omega arith)
  length-take (suc n) (x ∷ xs) h = omega (arith, length-take n xs)

  pub concat-append : (ls ms : List (List A)) → concat (ls ++ ms) ≡ concat ls ++ concat ms
  concat-append [] ms = refl
  concat-append (l ∷ ls) ms =
      ap (λ r. l ++ r) (concat-append ls ms) ∙ sym (append_assoc l (concat ls) (concat ms))

  pub length-append : (xs ys : List A) → length (xs ++ ys) ≡ length xs + length ys
  length-append [] ys = omega arith
  length-append (x ∷ xs) ys = omega (arith, length-append xs ys)

module _ {ℓ κ} {A : Type ℓ} (P : A → Type κ) where
  abbrev pub All : List A → Type κ
  All [] = Unit
  All (x ∷ xs) = P x × All xs

  pub All-append : (xs ys : List A) → All xs → All ys → All (xs ++ ys)
  All-append [] ys hx hy = hy
  All-append (x ∷ xs) ys (px, hx) hy = (px, All-append xs ys hx hy)

-- Some element of the list has the property.
abbrev pub Any {ℓ} : {A : Type ℓ} → (A → Type 0) → List A → Type 0
Any P [] = ⊥
Any P (x ∷ xs) = P x ⊎ Any P xs

pub All-map :
    {A : Type 0} {P Q : A → Type 0} (xs : List A) → ((x : A) → P x → Q x) → All P xs → All Q xs
All-map [] f h = tt
All-map (x ∷ xs) f (h, hs) = (f x h, All-map xs f hs)

pub All-both :
    {A : Type 0} (P Q : A → Type 0) (xs : List A) → All P xs → All Q xs → All (λ x. P x × Q x) xs
All-both P Q [] h k = tt
All-both P Q (x ∷ xs) (h, hs) (k, ks) = ((h, k), All-both P Q xs hs ks)

-- An element that has one property has also what all have.
pub Any-All :
    {A : Type 0} {P Q : A → Type 0} (xs : List A) → Any P xs → All Q xs → (x : A) × (P x × Q x)
Any-All [] h hs = absurd h
Any-All (x ∷ xs) (inl p) (q, qs) = (x, (p, q))
Any-All (x ∷ xs) (inr h) (q, qs) = Any-All xs h qs

module _ {ℓ} {A : Type ℓ} where
  -- The elements that pass the test, in order.
  abbrev pub keep : (A → Bool) → List A → List A
  keep p [] = []
  keep p (x ∷ xs) = elim (p x) [ true ↦ x ∷ keep p xs | false ↦ keep p xs ]

  pub keep-append : (p : A → Bool) (xs ys : List A) → keep p (xs ++ ys) ≡ keep p xs ++ keep p ys
  keep-append p [] ys = refl
  keep-append p (x ∷ xs) ys = ground (arith, keep-append p xs ys)

module _ {A : Type 0} where
  -- What is kept was there before.
  pub Any-keep :
      (p : A → Bool) (e : A) (xs : List A) → Any (λ x. x ≡ e) (keep p xs) → Any (λ x. x ≡ e) xs
  Any-keep p e [] h = h
  Any-keep p e (x ∷ xs) h = kept (p x) (Any-keep p e xs) h
    where
      kept :
          (b : Bool)
          → (Any (λ y. y ≡ e) (keep p xs) → Any (λ y. y ≡ e) xs)
          → Any (λ y. y ≡ e) (elim b [ true ↦ x ∷ keep p xs | false ↦ keep p xs ])
          → (x ≡ e) ⊎ Any (λ y. y ≡ e) xs
      kept true rest (inl h) = inl h
      kept true rest (inr h) = inr (rest h)
      kept false rest h = inr (rest h)

  pub keep-All : (p : A → Bool) (xs : List A) → All (λ x. p x ≡ true) xs → keep p xs ≡ xs
  keep-All p [] h = refl
  keep-All p (x ∷ xs) (h, hs) = rw (h, keep) (ap (λ l. x ∷ l) (keep-All p xs hs))

pub All-take-drop :
    {A : Type 0} (P : A → Type 0) (n : ℕ) (xs : List A)
    → All P xs
    → All P (take n xs) × All P (drop n xs)
All-take-drop P zero xs h = (tt, h)
All-take-drop P (suc n) [] h = (tt, tt)
All-take-drop P (suc n) (x ∷ xs) (h, hs) = let (t, r) = All-take-drop P n xs hs in ((h, t), r)
