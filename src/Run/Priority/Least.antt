-- ===== src/Run/Priority/Least.antt =====
-- What `min_by_key` finds, for priorities that are numbers.
use Prim.Native.Nat.{Ordering}
use evobench.Prelude.{
  ◌≡◌, ◌≢◌, refl, ◌∙◌, Option, none, some, List, [], ◌∷◌, All, ◌⊎◌, inl, inr, Any,
}
use evobench.Prelude.Outcome.{Outcome, ok, err, panic}
use evobench.Run.Float.{Float64, IsNumber, IsOrdered}
use evobench.Run.Priority.{min_by_key, min_from, some_of}

module _ (f64 : Float64) (laws : IsOrdered f64) where
  open f64 use {F, partial_cmp}

  -- Not greater.
  abbrev pub Le : F → F → Type 0
  Le x y = partial_cmp x y ≢ some Ordering.gt

  Le-refl : (x : F) → IsNumber f64 x → Le x x
  Le-refl x n h = cc (laws.self_eq x n)

  -- A number whose key is no greater than the key of any element.
  abbrev pub Least : {A : Type 0} → (A → F) → A → List A → Type 0
  Least key b xs = All (λ x. Le (key b) (key x)) xs

  module _ (E : Type 0) {A : Type 0} (key : A → F) where
    chosen : Ordering → A → A → List A → Outcome E A
    unfolding min_from
    chosen o best x xs = elim o [
      | Ordering.lt ↦ min_from f64 key best xs
      | Ordering.eq ↦ min_from f64 key best xs
      | Ordering.gt ↦ min_from f64 key x xs
    ]

    min_from-cons :
        (best x : A) (xs : List A) (o : Ordering)
        → partial_cmp (key best) (key x) ≡ some o
        → min_from f64 {E = E} key best (x ∷ xs) ≡ chosen o best x xs
    unfolding min_from chosen
    min_from-cons best x xs o e = rw (min_from, e) refl

    -- The next one is not smaller, and the first is kept.
    keeps :
        (best x : A) (xs : List A) (b : A)
        → IsNumber f64 (key best)
        → IsNumber f64 (key x)
        → Le (key best) (key x)
        → IsNumber f64 (key b) × (Le (key b) (key best) × Least key b xs)
        → IsNumber f64 (key b) × (Le (key b) (key best) × (Le (key b) (key x) × Least key b xs))
    keeps best x xs b n nx le (nb, (b_best, rest)) =
        (nb, (b_best, (laws.le_trans (key b) (key best) (key x) nb n nx b_best le, rest)))

    changes :
        (best x : A) (xs : List A) (b : A)
        → IsNumber f64 (key best)
        → IsNumber f64 (key x)
        → Le (key x) (key best)
        → IsNumber f64 (key b) × (Le (key b) (key x) × Least key b xs)
        → IsNumber f64 (key b) × (Le (key b) (key best) × (Le (key b) (key x) × Least key b xs))
    changes best x xs b n nx le (nb, (b_x, rest)) =
        (nb, (laws.le_trans (key b) (key x) (key best) nb nx n b_x le, (b_x, rest)))

    -- What the search from `best` finds.
    abbrev Found : A → List A → Type 0
    Found best xs =
        (b : A) × ((min_from f64 {E = E} key best xs ≡ ok b)
          × (((best ≡ b) ⊎ Any (λ x. x ≡ b) xs)
              × (IsNumber f64 (key b) × (Le (key b) (key best) × Least key b xs))))

    Found-cons :
        (best x : A) (xs : List A)
        → IsNumber f64 (key best)
        → IsNumber f64 (key x)
        → Found best xs
        → Found x xs
        → (o : Ordering) → partial_cmp (key best) (key x) ≡ some o
        → Found best (x ∷ xs)
    unfolding chosen
    Found-cons best x xs n nx (b, (e, (place, least))) other Ordering.lt cmp = (
      b,
      (
        min_from-cons best x xs Ordering.lt cmp ∙ e,
        (later place, keeps best x xs b n nx (λ g. cc) least),
      ),
    )
      where
        later : (best ≡ b) ⊎ Any (λ y. y ≡ b) xs → (best ≡ b) ⊎ Any (λ y. y ≡ b) (x ∷ xs)
        later (inl e) = inl e
        later (inr m) = inr (inr m)
    Found-cons best x xs n nx (b, (e, (place, least))) other Ordering.eq cmp = (
      b,
      (
        min_from-cons best x xs Ordering.eq cmp ∙ e,
        (later place, keeps best x xs b n nx (λ g. cc) least),
      ),
    )
      where
        later : (best ≡ b) ⊎ Any (λ y. y ≡ b) xs → (best ≡ b) ⊎ Any (λ y. y ≡ b) (x ∷ xs)
        later (inl e) = inl e
        later (inr m) = inr (inr m)
    Found-cons best x xs n nx other (b, (e, (place, least))) Ordering.gt cmp = (
      b,
      (
        min_from-cons best x xs Ordering.gt cmp ∙ e,
        (
          inr place,
          changes best x xs b n nx (λ g. cc (laws.converse (key best) (key x) Ordering.gt cmp))
              least,
        ),
      ),
    )

    min_from-Found :
        (best : A) (xs : List A)
        → IsNumber f64 (key best)
        → All (λ x. IsNumber f64 (key x)) xs
        → Found best xs
    unfolding min_from
    min_from-Found best [] n ns = (best, (refl, (inl refl, (n, (Le-refl (key best) n, tt)))))
    min_from-Found best (x ∷ xs) n (nx, ns) =
        let (o, e) = laws.total (key best) (key x) n nx in
        Found-cons best x xs n nx (min_from-Found best xs n ns) (min_from-Found x xs nx ns) o e

  -- `min_by_key` finds an element with the least key, and none only in an empty list.
  abbrev pub IsLeast : {E A : Type 0} → (A → F) → List A → Outcome E (Option A) → Type 0
  IsLeast key xs (ok none) = xs ≡ []
  IsLeast key xs (ok (some b)) = Any (λ x. x ≡ b) xs × IsNumber f64 (key b) × Least key b xs
  IsLeast key xs (err e) = ⊥
  IsLeast key xs panic = ⊥

  pub min_by_key-IsLeast :
      (E : Type 0) {A : Type 0} (key : A → F) (xs : List A)
      → All (λ x. IsNumber f64 (key x)) xs
      → IsLeast key xs (min_by_key f64 {E = E} key xs)
  unfolding min_by_key some_of
  min_by_key-IsLeast E key [] ns = refl
  min_by_key-IsLeast E key (x ∷ xs) (n, ns) =
      let (b, (found, (place, (nb, least)))) = min_from-Found E key x xs n ns in
      rw found (place, nb, least)
