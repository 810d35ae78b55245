-- ===== src/Tests/Numbers.antt =====
-- The theorems on digit numbers and joins at concrete inputs.
use Prim.Native.Nat.{Ordering}
use evobench.Prelude.{
  ℕ, ◌≡◌, refl, true, false, some, List, [], ◌∷◌, ltb, ◌==◌, if◌then◌else◌, map, arith,
}
use evobench.DigitNum.{DigitNumFormat, push_lowest_digit, to_u64, to_string_with_params}
use evobench.DigitNum.Value.{to_u64-push_lowest_digit}
use evobench.DigitNum.Layout.{IsLayout, to_string_with_params_lem}
use evobench.Join.{KeyVal, EitherOrBoth, both, left, right, MergeJoin, keyval_inner_join}
use evobench.Join.Two.{IsOrder}
use evobench.Join.Many.{AreJoined, keyval_inner_join-AreJoined}

to_u64-push_lowest_digit_example : to_u64 (push_lowest_digit 7 (1 ∷ 2 ∷ [])) ≡ some 127
to_u64-push_lowest_digit_example = to_u64-push_lowest_digit 7 (1 ∷ 2 ∷ [])

with_underscores : DigitNumFormat
with_underscores = record { underscores = true; omit_trailing_dot = false }

to_string_with_params_lem_example :
    IsLayout 6 with_underscores (3 ∷ 9 ∷ []) (to_string_with_params 6 with_underscores (3 ∷ 9 ∷ []))
to_string_with_params_lem_example = to_string_with_params_lem 6 with_underscores (3 ∷ 9 ∷ [])

abbrev cmp : ℕ → ℕ → Ordering
cmp a b = if ltb a b then Ordering.lt else (if a == b then Ordering.eq else Ordering.gt)

cmp-IsOrder : IsOrder cmp
cmp-IsOrder = record {
  equal_keys = λ a b e. ground arith;
  same_key = λ a. ground arith;
  converse = λ a b e. ground arith;
  lt_trans = λ a b c e f. ground arith;
}

abbrev merge_by : {A B : Type 0} → (A → B → Ordering) → List A → List B → List (EitherOrBoth A B)
merge_by f [] bs = map right bs
merge_by f (a ∷ as') [] = map left (a ∷ as')
merge_by f (a ∷ as') (b ∷ bs) = elim (f a b) [
  | Ordering.lt ↦ left a ∷ merge_by f as' (b ∷ bs)
  | Ordering.eq ↦ both a b ∷ merge_by f as' bs
  | Ordering.gt ↦ right b ∷ merge_by f (a ∷ as') bs
]

merging : MergeJoin
merging = record {
  merge_join_by = λ f as' bs. merge_by f as' bs;
  no_left = λ f bs. refl;
  no_right = λ f a as'. refl;
  less = λ f a as' b bs e. rw (e, merge_by) refl;
  equal = λ f a as' b bs e. rw (e, merge_by) refl;
  greater = λ f a as' b bs e. rw (e, merge_by) refl;
}

abbrev kv : ℕ → ℕ → KeyVal ℕ ℕ
kv k v = record { key = k; val = v }

abbrev sequences : List (List (KeyVal ℕ ℕ))
sequences = (kv 1 10 ∷ kv 2 20 ∷ []) ∷ (kv 2 21 ∷ kv 3 31 ∷ []) ∷ (kv 0 2 ∷ kv 2 22 ∷ []) ∷ []

keyval_inner_join-AreJoined_example :
    AreJoined cmp cmp-IsOrder sequences (keyval_inner_join merging cmp sequences)
keyval_inner_join-AreJoined_example =
    keyval_inner_join-AreJoined cmp cmp-IsOrder merging sequences (omega arith)
      (((refl, tt), (tt, tt)), (((refl, tt), (tt, tt)), (((refl, tt), (tt, tt)), tt)))
