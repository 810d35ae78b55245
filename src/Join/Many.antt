-- ===== src/Join/Many.antt =====
-- The join of any number of sequences.
use Prim.Native.Nat.{Ordering}
use evobench.Prelude.{
  ℕ, zero, suc, ◌+◌, ◌/◌, ◌≤◌, ◌≡◌, refl, sym, ap, ◌∙◌, Option, none, some, List, [], ◌∷◌, ◌++◌,
  All, length, take, drop, take-drop, All-take-drop, length-take, length-append, Ordering-cases,
  inl, inr, arith,
}
use mathlib.Core.Option
use mathlib.Core.Path.{subst}
use evobench.Prelude.Outcome.{Outcome, ok}
use evobench.Join.{
  KeyVal, MergeJoin, map_val, keyval_inner_join_2, both_joined, join_fuel, keyval_inner_join,
}
use evobench.Join.Two
use evobench.Join.Two.{IsOrder, Ascending, find, zip_option, keyval_inner_join_2-IsJoin}

module _ {K : Type 0} (cmp : K → K → Ordering) (order : IsOrder cmp) where
  find-map_val :
      {A B : Type 0} (f : A → B) (k : K) (kvs : List (KeyVal K A))
      → find cmp order k (map_val f kvs) ≡ Option.map f (find cmp order k kvs)
  unfolding find map_val
  find-map_val f k [] = refl
  find-map_val f k (kv ∷ kvs) = elim (Ordering-cases (cmp (kv.key) k)) [
    | inl e ↦ rw (e, find) (find-map_val f k kvs)
    | inr (inl e) ↦ rw (e, find) refl
    | inr (inr e) ↦ rw (e, find) (find-map_val f k kvs)
  ]

  Above-map_val :
      {A B : Type 0} (f : A → B) (k : K) (kvs : List (KeyVal K A))
      → Two.Above cmp order k kvs
      → Two.Above cmp order k (map_val f kvs)
  unfolding map_val
  Above-map_val f k [] h = tt
  Above-map_val f k (kv ∷ kvs) (h, hs) = (h, Above-map_val f k kvs hs)

  Ascending-map_val :
      {A B : Type 0} (f : A → B) (kvs : List (KeyVal K A))
      → Ascending cmp order kvs
      → Ascending cmp order (map_val f kvs)
  unfolding map_val
  Ascending-map_val f [] h = tt
  Ascending-map_val f (kv ∷ kvs) (h, hs) =
      (Above-map_val f (kv.key) kvs h, Ascending-map_val f kvs hs)

module _ {K : Type 0} (cmp : K → K → Ordering) (order : IsOrder cmp) {V : Type 0} where
  -- The values of a key in all sequences, if all have it.
  unfoldable pub find_all : K → List (List (KeyVal K V)) → Option (List V)
  find_all k [] = some []
  find_all k (s ∷ ss) =
      Option.map (λ v. v.0 ∷ v.1) (zip_option cmp order (find cmp order k s) (find_all k ss))

  find_all-append :
      (k : K) (xs ys : List (List (KeyVal K V)))
      → find_all k (xs ++ ys)
        ≡ Option.map (λ v. v.0 ++ v.1) (zip_option cmp order (find_all k xs) (find_all k ys))
  unfolding find_all
  find_all-append k [] ys = kept (find_all k ys)
    where
      kept :
          (o : Option (List V))
          → o ≡ Option.map (λ v. v.0 ++ v.1) (zip_option cmp order (some []) o)
      kept none = refl
      kept (some vs) = refl
  find_all-append k (s ∷ xs) ys =
      ap (put (find cmp order k s)) (find_all-append k xs ys)
      ∙ regroup (find cmp order k s) (find_all k xs) (find_all k ys)
    where
      put : Option V → Option (List V) → Option (List V)
      put o vs = Option.map (λ v. v.0 ∷ v.1) (zip_option cmp order o vs)

      regroup :
          (o : Option V) (p q : Option (List V))
          → put o (Option.map (λ v. v.0 ++ v.1) (zip_option cmp order p q))
            ≡ Option.map (λ v. v.0 ++ v.1) (zip_option cmp order (put o p) q)
      regroup none p q = refl
      regroup (some v) none q = refl
      regroup (some v) (some p) none = refl
      regroup (some v) (some p) (some q) = refl

  -- The sequences are joined: the result ascends, and has a key exactly if all sequences have it, with the
  -- values in the order of the sequences.
  abbrev pub AreJoined :
      List (List (KeyVal K V)) → Outcome (Unit {0}) (List (KeyVal K (List V))) → Type 0
  AreJoined sequences joined =
      (js : List (KeyVal K (List V))) × ((joined ≡ ok js)
        × (Ascending cmp order js × ((k : K) → find cmp order k js ≡ find_all k sequences)))

  module _ (itertools : MergeJoin) where
    one-AreJoined :
        (fuel : ℕ) (s : List (KeyVal K V))
        → Ascending cmp order s
        → AreJoined (s ∷ []) (join_fuel itertools cmp (suc fuel) (s ∷ []))
    unfolding join_fuel find_all
    one-AreJoined fuel s h = (
      _,
      (
        refl,
        (
          Ascending-map_val cmp order _ s h,
          λ k. find-map_val cmp order _ k s ∙ single (find cmp order k s),
        ),
      ),
    )
      where
        single :
            (o : Option V)
            → Option.map (λ v. v ∷ []) o
              ≡ Option.map (λ v. v.0 ∷ v.1) (zip_option cmp order o (some []))
        single none = refl
        single (some v) = refl

    two-AreJoined :
        (fuel : ℕ) (s t : List (KeyVal K V))
        → Ascending cmp order s
        → Ascending cmp order t
        → AreJoined (s ∷ t ∷ []) (join_fuel itertools cmp (suc fuel) (s ∷ t ∷ []))
    unfolding join_fuel find_all
    two-AreJoined fuel s t hs ht =
        let (asc, (above, has)) = keyval_inner_join_2-IsJoin cmp order itertools s t hs ht in
        (
          _,
          (
            refl,
            (
              Ascending-map_val cmp order _ _ asc,
              λ k.
                  find-map_val cmp order _ k (keyval_inner_join_2 itertools cmp s t)
                  ∙ ap (λ o. Option.map (λ v. v.0 ∷ v.1 ∷ []) o) (has k)
                  ∙ pair (find cmp order k s) (find cmp order k t),
            ),
          ),
        )
      where
        pair :
            (o p : Option V)
            → Option.map (λ v. v.0 ∷ v.1 ∷ []) (zip_option cmp order o p)
              ≡ Option.map
                  (λ v. v.0 ∷ v.1)
                  (zip_option cmp order o
                    (Option.map (λ v. v.0 ∷ v.1) (zip_option cmp order p (some []))))
        pair none p = refl
        pair (some v) none = refl
        pair (some v) (some w) = refl

    halves-AreJoined :
        (xs ys : List (List (KeyVal K V))) (x y : Outcome (Unit {0}) (List (KeyVal K (List V))))
        → AreJoined xs x
        → AreJoined ys y
        → AreJoined (xs ++ ys) (both_joined itertools cmp x y)
    unfolding both_joined
    halves-AreJoined xs ys x y (js, (e, (asc, has))) (ks, (f, (asc', has'))) =
        let (asc2, (above, has2)) = keyval_inner_join_2-IsJoin cmp order itertools js ks asc asc' in
        (
          _,
          (
            ap (λ o. both_joined itertools cmp o y) e
                ∙ ap (λ o. both_joined itertools cmp (ok js) o) f,
            (
              Ascending-map_val cmp order _ _ asc2,
              λ k.
                  find-map_val cmp order _ k (keyval_inner_join_2 itertools cmp js ks)
                  ∙ ap (λ o. Option.map (λ v. v.0 ++ v.1) o) (has2 k)
                  ∙ ap
                      (λ o.
                        Option.map (λ v. v.0 ++ v.1) (zip_option cmp order o (find cmp order k ks)))
                      (has k)
                  ∙ ap (λ o. Option.map (λ v. v.0 ++ v.1) (zip_option cmp order (find_all k xs) o))
                      (has' k)
                  ∙ sym (find_all-append k xs ys),
            ),
          ),
        )

    -- The fuel is enough, and no `expect` fails.
    join_fuel-AreJoined :
        (fuel : ℕ) (sequences : List (List (KeyVal K V)))
        → length sequences ≤ fuel
        → 1 ≤ length sequences
        → All (λ s. Ascending cmp order s) sequences
        → AreJoined sequences (join_fuel itertools cmp fuel sequences)
    unfolding join_fuel
    join_fuel-AreJoined fuel [] le ge h = absurd (omega arith)
    join_fuel-AreJoined zero (s ∷ ss) le ge h = absurd (omega arith)
    join_fuel-AreJoined (suc fuel) (s ∷ []) le ge (h, _) = one-AreJoined fuel s h
    join_fuel-AreJoined (suc fuel) (s ∷ t ∷ []) le ge (h, (k, _)) = two-AreJoined fuel s t h k
    join_fuel-AreJoined (suc fuel) (s ∷ t ∷ u ∷ rest) le ge h =
        let l = s ∷ t ∷ u ∷ rest in
        let n = length l / 2 in
        let taken : length (take n l) ≡ n = length-take n l (omega arith) in
        let total : length l ≡ length (take n l) + length (drop n l) =
          ap (λ x. length x) (sym (take-drop n l)) ∙ length-append (take n l) (drop n l) in
        let (ht, hd) = All-take-drop (λ x. Ascending cmp order x) n l h in
        let left_half =
          join_fuel-AreJoined fuel (take n l) (omega (arith, taken)) (omega (arith, taken)) ht in
        let right_half =
          join_fuel-AreJoined fuel (drop n l) (omega (arith, taken, total))
            (omega (arith, taken, total)) hd in
        subst (λ x. AreJoined x (join_fuel itertools cmp (suc fuel) l)) (take-drop n l)
          (halves-AreJoined (take n l) (drop n l) (join_fuel itertools cmp fuel (take n l))
            (join_fuel itertools cmp fuel (drop n l)) left_half right_half)

    -- Of at least one sequence with ascending keys the join is there: its keys ascend, and it has a key
    -- exactly if all sequences have it, with the values in the order of the sequences.
    pub keyval_inner_join-AreJoined :
        (sequences : List (List (KeyVal K V)))
        → 1 ≤ length sequences
        → All (λ s. Ascending cmp order s) sequences
        → AreJoined sequences (keyval_inner_join itertools cmp sequences)
    unfolding keyval_inner_join
    keyval_inner_join-AreJoined sequences ge h =
        join_fuel-AreJoined (length sequences) sequences (omega arith) ge h
