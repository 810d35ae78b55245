-- ===== src/DigitNum/Layout.antt =====
-- How a digit number is laid out: its dot, its padding and its separators.
use evobench.Prelude.{
  ℕ, zero, suc, ◌+◌, ◌-◌, ◌%◌, ◌≤◌, ◌<◌, ◌≡◌, refl, sym, ap, ◌∙◌, Bool, true, false, List, [], ◌∷◌,
  ◌++◌, ltb, ◌==◌, if◌then◌else◌, length, length-append, take, drop, take-drop, length-take,
  Bool-cases, inl, inr, arith, ltb→lt,
}
use evobench.Prelude.Bytes.{Bytes}
use evobench.Prelude.Grouped.{grouped, grouped_after}
use evobench.DigitNum.{
  DigitNum, DigitNumFormat, separator, write_digits, zeros, first_position, write_after,
  to_string_with_params,
}

abbrev pub ascii : List ℕ → Bytes
ascii [] = []
ascii (d ∷ ds) = (b'0' + d) ∷ ascii ds

abbrev pub before_the_dot : Bool → List ℕ → Bytes
before_the_dot underscores ds = if underscores then grouped (ascii ds) else ascii ds

-- The dot and the digits after it; the dot is left out only if there are none and that is asked for.
abbrev pub from_the_dot : DigitNumFormat → List ℕ → Bytes
from_the_dot params [] = if params.omit_trailing_dot then [] else b'.' ∷ []
from_the_dot params (d ∷ ds) =
    b'.' ∷ (if params.underscores then grouped_after (ascii (d ∷ ds)) else ascii (d ∷ ds))

length-ascii : (ds : List ℕ) → length (ascii ds) ≡ length ds
length-ascii [] = refl
length-ascii (d ∷ ds) = ap suc (length-ascii ds)

write_digits-ascii : (position : ℕ) (ds : List ℕ) → write_digits false position ds ≡ ascii ds
unfolding write_digits separator
write_digits-ascii position [] = refl
write_digits-ascii zero (d ∷ ds) = ap (λ r. (b'0' + d) ∷ r) (write_digits-ascii 2 ds)
write_digits-ascii (suc position) (d ∷ ds) =
    ap (λ r. (b'0' + d) ∷ r) (write_digits-ascii position ds)

write_digits-grouped_after : (ds : List ℕ) → write_digits true 3 ds ≡ grouped_after (ascii ds)
unfolding write_digits separator
write_digits-grouped_after [] = refl
write_digits-grouped_after (a ∷ []) = refl
write_digits-grouped_after (a ∷ b ∷ []) = refl
write_digits-grouped_after (a ∷ b ∷ c ∷ []) = refl
write_digits-grouped_after (a ∷ b ∷ c ∷ d ∷ ds) =
    ap (λ r. (b'0' + a) ∷ (b'0' + b) ∷ (b'0' + c) ∷ b'_' ∷ r) (write_digits-grouped_after (d ∷ ds))

-- Before the dot, the position counts the digits down to the next separator.
write_digits-grouped :
    (position : ℕ) (ds : List ℕ)
    → 1 ≤ position
    → position ≤ 3
    → position % 3 ≡ length ds % 3
    → write_digits true position ds ≡ grouped (ascii ds)
unfolding write_digits separator
write_digits-grouped position [] low high e = refl
write_digits-grouped zero (d ∷ ds) low high e = absurd (omega (arith, low))
write_digits-grouped (suc p) (d ∷ []) low high e = refl
write_digits-grouped (suc zero) (d ∷ e ∷ ds) low high same_rest =
    let three : length (e ∷ ds) % 3 ≡ 0 = omega (arith, same_rest) in
    let n : length (ascii (e ∷ ds)) ≡ length (e ∷ ds) = length-ascii (e ∷ ds) in
    rw (n, three)
      (ap (λ r. (b'0' + d) ∷ b'_' ∷ r)
        (write_digits-grouped 3 (e ∷ ds) (omega arith) (omega arith) (sym three)))
write_digits-grouped (suc (suc p)) (d ∷ e ∷ ds) low high same_rest =
    let n : length (ascii (e ∷ ds)) ≡ length (e ∷ ds) = length-ascii (e ∷ ds) in
    let q : suc p % 3 ≡ length (e ∷ ds) % 3 = omega (arith, same_rest, high) in
    let no_three : (length (e ∷ ds) % 3 == 0) ≡ false = ground (arith, q, high) in
    rw (n, no_three)
      (ap (λ r. (b'0' + d) ∷ r)
        (write_digits-grouped (suc p) (e ∷ ds) (omega arith) (omega (arith, high)) q))

before-written :
    (underscores : Bool) (ds : List ℕ)
    → write_digits underscores (first_position (length ds)) ds ≡ before_the_dot underscores ds
before-written false ds = write_digits-ascii (first_position (length ds)) ds
before-written true ds =
    write_digits-grouped (first_position (length ds)) ds (unfold first_position in ground arith)
      (unfold first_position in ground arith) (unfold first_position in ground arith)

digits_after :
    (underscores : Bool) (ds : List ℕ)
    → write_digits underscores 3 ds ≡ (if underscores then grouped_after (ascii ds) else ascii ds)
digits_after true ds = write_digits-grouped_after ds
digits_after false ds = write_digits-ascii 3 ds

after-written :
    (params : DigitNumFormat) (ds : List ℕ)
    → write_after params (length ds) ds ≡ from_the_dot params ds
unfolding write_after
after-written params [] = unfold write_digits in refl
after-written params (d ∷ ds) =
    let some_digits : (length (d ∷ ds) == 0) ≡ false = ground arith in
    rw some_digits (ap (λ r. b'.' ∷ r) (digits_after params.underscores (d ∷ ds)))

length-zeros : (n : ℕ) → length (zeros n) ≡ n
unfolding zeros
length-zeros zero = refl
length-zeros (suc n) = ap suc (length-zeros n)

length-drop : (n : ℕ) (ds : List ℕ) → length (drop n ds) ≡ length ds - n
length-drop zero ds = omega arith
length-drop (suc n) [] = omega arith
length-drop (suc n) (d ∷ ds) = length-drop n ds ∙ omega arith

-- The digits before and after the dot.
pub record IsLayout (after_dot : ℕ) (params : DigitNumFormat) (ds : DigitNum) (text : Bytes)
    : Type 0 where
  pub whole : List ℕ
  pub fraction : List ℕ
  pub all_digits : whole ++ fraction ≡ zeros (suc after_dot - length ds) ++ ds
  pub precision : length fraction ≡ after_dot
  pub written : text ≡ before_the_dot params.underscores whole ++ from_the_dot params fraction

-- The text of a digit number has exactly its digits, with zeros in front where there are too few for one digit before
-- the dot. As many digits as the precision says follow the dot, which is left out only if there are none and that is
-- asked for. If separators are asked for, they stand between groups of three, counted away from the dot on both
-- sides, and nowhere else.
pub to_string_with_params_lem :
    (after_dot : ℕ) (params : DigitNumFormat) (ds : DigitNum)
    → IsLayout after_dot params ds (to_string_with_params after_dot params ds)
unfolding to_string_with_params
to_string_with_params_lem after_dot params ds = elim (Bool-cases (ltb after_dot (length ds))) [
  | inl e ↦
      let lt : after_dot < length ds = ltb→lt _ _ e in
      let n = length ds - after_dot in
      let no_zeros : suc after_dot - length ds ≡ 0 = omega (arith, lt) in
      let len : length (take n ds) ≡ n = length-take n ds (omega arith) in
      let rest : length (drop n ds) ≡ after_dot = length-drop n ds ∙ omega (arith, lt) in
      record {
        whole = take n ds;
        fraction = drop n ds;
        all_digits = take-drop n ds ∙ rw no_zeros (unfold zeros in refl);
        precision = rest;
        written = rw e (
            ap (λ r. r ++ write_after params after_dot (drop n ds))
              (ap (λ k. write_digits params.underscores (first_position k) (take n ds)) (sym len)
                ∙ before-written params.underscores (take n ds))
            ∙ ap (λ r. before_the_dot params.underscores (take n ds) ++ r)
                (ap (λ k. write_after params k (drop n ds)) (sym rest)
                  ∙ after-written params (drop n ds)));
      }
  | inr e ↦
      let le : length ds ≤ after_dot = ground (arith, e) in
      let missing = after_dot - length ds in
      let one_more : suc after_dot - length ds ≡ suc missing = omega (arith, le) in
      let rest : length (zeros missing ++ ds) ≡ after_dot =
        length-append (zeros missing) ds ∙ rw (length-zeros missing) (omega (arith, le)) in
      record {
        whole = 0 ∷ [];
        fraction = zeros missing ++ ds;
        all_digits = rw one_more (unfold zeros in refl);
        precision = rest;
        written = rw e (
            ap (λ r. b'0' ∷ r)
              (ap (λ k. write_after params k (zeros missing ++ ds)) (sym rest)
                ∙ after-written params (zeros missing ++ ds))
            ∙ ap (λ r. r ++ from_the_dot params (zeros missing ++ ds))
                (before_zero params.underscores));
      }
]
  where
    before_zero : (underscores : Bool) → b'0' ∷ [] ≡ before_the_dot underscores (0 ∷ [])
    before_zero true = refl
    before_zero false = refl
