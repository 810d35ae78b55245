-- ===== src/Join.antt =====
-- Joins of sequences that are sorted by their keys, evobench-tools/src/join.rs. `merge_join_by` of the crate
-- itertools is an interface: its laws are what its documentation says, a step at a time. The slots of the argument, from
-- which each sequence is taken once, are all filled here; at an empty slot the source panics.
pub mod Two
pub mod Many
use Prim.Native.Nat.{Ordering}
use evobench.Prelude.{
  ℕ, zero, suc, ◌/◌, ◌≡◌, Option, none, some, List, [], ◌∷◌, ◌++◌, length, take, drop, map,
}
use evobench.Prelude.Outcome.{Outcome, ok, err, panic}

pub record KeyVal (K V : Type 0) : Type 0 where
  pub key : K
  pub val : V

pub data EitherOrBoth (A B : Type 0) : Type 0 where
  both : A → B → EitherOrBoth A B
  left : A → EitherOrBoth A B
  right : B → EitherOrBoth A B

pub record MergeJoin : Type 1 where
  pub merge_join_by :
      {A B : Type 0} → (A → B → Ordering) → List A → List B → List (EitherOrBoth A B)
  pub no_left :
      {A B : Type 0} (f : A → B → Ordering) (bs : List B) → merge_join_by f [] bs ≡ map right bs
  pub no_right :
      {A B : Type 0} (f : A → B → Ordering) (a : A) (as' : List A)
      → merge_join_by f (a ∷ as') [] ≡ map left (a ∷ as')
  pub less :
      {A B : Type 0} (f : A → B → Ordering) (a : A) (as' : List A) (b : B) (bs : List B)
      → f a b ≡ Ordering.lt
      → merge_join_by f (a ∷ as') (b ∷ bs) ≡ left a ∷ merge_join_by f as' (b ∷ bs)
  pub equal :
      {A B : Type 0} (f : A → B → Ordering) (a : A) (as' : List A) (b : B) (bs : List B)
      → f a b ≡ Ordering.eq
      → merge_join_by f (a ∷ as') (b ∷ bs) ≡ both a b ∷ merge_join_by f as' bs
  pub greater :
      {A B : Type 0} (f : A → B → Ordering) (a : A) (as' : List A) (b : B) (bs : List B)
      → f a b ≡ Ordering.gt
      → merge_join_by f (a ∷ as') (b ∷ bs) ≡ right b ∷ merge_join_by f (a ∷ as') bs

-- The `filter_map` of the join: what is on both sides.
unfoldable pub on_both :
    {K V1 V2 : Type 0} → List (EitherOrBoth (KeyVal K V1) (KeyVal K V2)) → List (KeyVal K (V1 × V2))
on_both [] = []
on_both (both a b ∷ es) = record { key = a.key; val = (a.val, b.val) } ∷ on_both es
on_both (left a ∷ es) = on_both es
on_both (right b ∷ es) = on_both es

unfoldable pub map_val : {K V V' : Type 0} → (V → V') → List (KeyVal K V) → List (KeyVal K V')
map_val f [] = []
map_val f (kv ∷ kvs) = record { key = kv.key; val = f kv.val } ∷ map_val f kvs

module _ (itertools : MergeJoin) {K : Type 0} (cmp : K → K → Ordering) where
  unfoldable pub keyval_inner_join_2 :
      {V1 V2 : Type 0} → List (KeyVal K V1) → List (KeyVal K V2) → List (KeyVal K (V1 × V2))
  unfolding on_both
  keyval_inner_join_2 a b = on_both (itertools.merge_join_by (λ x y. cmp (x.key) (y.key)) a b)

  module _ {V : Type 0} where
    -- `expect` of two results, and their join.
    both_joined :
        Outcome (Unit {0}) (List (KeyVal K (List V)))
        → Outcome (Unit {0}) (List (KeyVal K (List V)))
        → Outcome (Unit {0}) (List (KeyVal K (List V)))
    unfolding map_val
    both_joined (ok ar) (ok br) = ok (map_val (λ v. v.0 ++ v.1) (keyval_inner_join_2 ar br))
    both_joined (ok ar) (err e) = panic
    both_joined (ok ar) panic = panic
    both_joined (err e) br = panic
    both_joined panic br = panic

    -- The answer `None` is an error here. Each call has at most half of the sequences and one more, so
    -- the number of sequences is enough fuel.
    join_fuel : ℕ → List (List (KeyVal K V)) → Outcome (Unit {0}) (List (KeyVal K (List V)))
    unfolding both_joined map_val
    join_fuel zero sequences = err tt
    join_fuel (suc fuel) [] = err tt
    join_fuel (suc fuel) (s ∷ []) = ok (map_val (λ v. v ∷ []) s)
    join_fuel (suc fuel) (s ∷ t ∷ []) = ok (map_val (λ v. v.0 ∷ v.1 ∷ []) (keyval_inner_join_2 s t))
    join_fuel (suc fuel) (s ∷ t ∷ u ∷ rest) =
        let n = length (s ∷ t ∷ u ∷ rest) / 2 in
        both_joined (join_fuel fuel (take n (s ∷ t ∷ u ∷ rest)))
          (join_fuel fuel (drop n (s ∷ t ∷ u ∷ rest)))

    unfoldable pub keyval_inner_join :
        List (List (KeyVal K V)) → Outcome (Unit {0}) (List (KeyVal K (List V)))
    unfolding join_fuel
    keyval_inner_join sequences = join_fuel (length sequences) sequences
