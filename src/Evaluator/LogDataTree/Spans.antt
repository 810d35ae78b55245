-- ===== src/Evaluator/LogDataTree/Spans.antt =====
-- What adding and changing a span does to the others.
use mathlib.Core.Option
use evobench.Prelude.{
  ℕ, zero, suc, ◌≤◌, ◌≡◌, ◌≢◌, ◌⊎◌, inl, inr, refl, some, List, [], ◌∷◌, ◌++◌, length, arith,
}
use evobench.Evaluator.LogDataTree.{Span, get_from_db, update_in_db}

pub get-append :
    (id : ℕ) (spans : List Span) (x s : Span)
    → get_from_db id spans ≡ some s
    → get_from_db id (spans ++ x ∷ []) ≡ some s
unfolding get_from_db
get-append id [] x s h = cc
get-append zero (y ∷ spans) x s h = cc
get-append (suc zero) (y ∷ spans) x s h = h
get-append (suc (suc n)) (y ∷ spans) x s h = get-append (suc n) spans x s h

pub get-append_new :
    (spans : List Span) (x : Span) → get_from_db (suc (length spans)) (spans ++ x ∷ []) ≡ some x
unfolding get_from_db
get-append_new [] x = refl
get-append_new (y ∷ spans) x = get-append_new spans x

-- A span of the longer list is one of the list, or the new one.
pub get-append_cases :
    (id : ℕ) (spans : List Span) (x s : Span)
    → get_from_db id (spans ++ x ∷ []) ≡ some s
    → (get_from_db id spans ≡ some s) ⊎ ((id ≡ suc (length spans)) × (x ≡ s))
unfolding get_from_db
get-append_cases zero [] x s h = cc
get-append_cases (suc zero) [] x s h = inr (refl, cc)
get-append_cases (suc (suc n)) [] x s h = cc
get-append_cases zero (y ∷ spans) x s h = cc
get-append_cases (suc zero) (y ∷ spans) x s h = inl h
get-append_cases (suc (suc n)) (y ∷ spans) x s h = elim (get-append_cases (suc n) spans x s h) [
  | inl e ↦ inl e
  | inr (e, f) ↦ inr (omega (arith, e), f)
]

pub get-bounds :
    (id : ℕ) (spans : List Span) (s : Span)
    → get_from_db id spans ≡ some s
    → (1 ≤ id) × (id ≤ length spans)
unfolding get_from_db
get-bounds id [] s h = cc
get-bounds zero (y ∷ spans) s h = cc
get-bounds (suc zero) (y ∷ spans) s h = (omega arith, omega arith)
get-bounds (suc (suc n)) (y ∷ spans) s h =
    let (l, u) = get-bounds (suc n) spans s h in (omega (arith, l), omega (arith, u))

-- In the bounds there is a span.
pub get_within :
    (id : ℕ) (spans : List Span)
    → 1 ≤ id
    → id ≤ length spans
    → (s : Span) × (get_from_db id spans ≡ some s)
unfolding get_from_db
get_within id [] l u = absurd (omega arith)
get_within zero (y ∷ spans) l u = absurd (omega arith)
get_within (suc zero) (y ∷ spans) l u = (y, refl)
get_within (suc (suc n)) (y ∷ spans) l u = get_within (suc n) spans (omega arith) (omega arith)

pub length-update :
    (id : ℕ) (f : Span → Span) (spans : List Span) → length (update_in_db id f spans) ≡ length spans
unfolding update_in_db
length-update id f [] = refl
length-update zero f (y ∷ spans) = refl
length-update (suc zero) f (y ∷ spans) = refl
length-update (suc (suc n)) f (y ∷ spans) = omega (arith, length-update (suc n) f spans)

pub get-update_self :
    (id : ℕ) (f : Span → Span) (spans : List Span)
    → get_from_db id (update_in_db id f spans) ≡ Option.map f (get_from_db id spans)
unfolding get_from_db update_in_db
get-update_self id f [] = refl
get-update_self zero f (y ∷ spans) = refl
get-update_self (suc zero) f (y ∷ spans) = refl
get-update_self (suc (suc n)) f (y ∷ spans) = get-update_self (suc n) f spans

pub get-update_ne :
    (j id : ℕ) (f : Span → Span) (spans : List Span)
    → j ≢ id
    → get_from_db j (update_in_db id f spans) ≡ get_from_db j spans
unfolding get_from_db update_in_db
get-update_ne j id f [] h = refl
get-update_ne j zero f (y ∷ spans) h = refl
get-update_ne zero (suc zero) f (y ∷ spans) h = refl
get-update_ne (suc zero) (suc zero) f (y ∷ spans) h = absurd (h refl)
get-update_ne (suc (suc m)) (suc zero) f (y ∷ spans) h = refl
get-update_ne zero (suc (suc n)) f (y ∷ spans) h = refl
get-update_ne (suc zero) (suc (suc n)) f (y ∷ spans) h = refl
get-update_ne (suc (suc m)) (suc (suc n)) f (y ∷ spans) h =
    get-update_ne (suc m) (suc n) f spans (λ e. h (omega (arith, e)))
