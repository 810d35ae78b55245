-- ===== src/DigitNum/Value.antt =====
-- What number digits stand for, pushing a digit, and the conversion to `u64`.
use evobench.Prelude.{
  ℕ, ◌+◌, ◌*◌, ◌^◌, ◌≤◌, ◌<◌, ◌≡◌, refl, ap, ◌∙◌, none, some, List, [], ◌∷◌, ◌++◌, ltb,
  if◌then◌else◌, arith,
}
use evobench.DigitNum.{DigitNum, push_lowest_digit, to_u64, to_u64_from}

abbrev pub value_from : ℕ → List ℕ → ℕ
value_from num [] = num
value_from num (d ∷ ds) = value_from (num * 10 + d) ds

abbrev pub value : DigitNum → ℕ
value ds = value_from 0 ds

pub value_from-append :
    (num : ℕ) (xs ys : List ℕ) → value_from num (xs ++ ys) ≡ value_from (value_from num xs) ys
value_from-append num [] ys = refl
value_from-append num (d ∷ xs) ys = value_from-append (num * 10 + d) xs ys

value_from-le : (num : ℕ) (ds : List ℕ) → num ≤ value_from num ds
value_from-le num [] = omega arith
value_from-le num (d ∷ ds) = omega (arith, value_from-le (num * 10 + d) ds)

to_u64_from_lem :
    (num : ℕ) (ds : List ℕ)
    → num < 18446744073709551616
    → to_u64_from num ds
      ≡ (if ltb (value_from num ds) 18446744073709551616 then some (value_from num ds) else none)
unfolding to_u64_from
to_u64_from_lem num [] h = ground arith
to_u64_from_lem num (d ∷ ds) h =
    ground (arith, value_from-le (num * 10 + d) ds, to_u64_from_lem (num * 10 + d) ds)

-- Pushing a digit makes of a number ten times the number and the digit.
value-push : (d : ℕ) (ds : DigitNum) → value (push_lowest_digit d ds) ≡ value ds * 10 + d
unfolding push_lowest_digit
value-push d [] = ground arith
value-push d (x ∷ ds) = value_from-append 0 (x ∷ ds) (d ∷ [])

-- A digit number with a digit pushed stands for ten times the number and the digit. It is converted to `u64`
-- exactly if that is below 2^64, and then to that number.
pub to_u64-push_lowest_digit :
    (d : ℕ) (ds : DigitNum)
    → to_u64 (push_lowest_digit d ds)
      ≡ (if ltb (value ds * 10 + d) (2 ^ 64) then some (value ds * 10 + d) else none)
unfolding to_u64
to_u64-push_lowest_digit d ds =
    to_u64_from_lem 0 (push_lowest_digit d ds) (omega arith)
    ∙ ap (λ n. if ltb n 18446744073709551616 then some n else none) (value-push d ds)
