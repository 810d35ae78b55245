-- ===== src/DigitNum.antt =====
-- Numbers as vectors of decimal digits, evobench-tools/src/digit_num.rs. The precision, the number of digits
-- after the dot, is an argument.
pub mod Layout
pub mod Value
use evobench.Prelude.{
  ℕ, zero, suc, ◌+◌, ◌-◌, ◌*◌, ◌%◌, ◌^◌, Bool, true, false, ◌&&◌, Option, none, some, List, [], ◌∷◌,
  ◌++◌, ltb, leb, ◌==◌, if◌then◌else◌, length, take, drop,
}
use evobench.Prelude.Bytes.{Bytes}

-- `TryFrom<u8> for Digit`; a digit is a number below 10.
unfoldable pub digit_try_from : ℕ → Option ℕ
digit_try_from value = if ltb value 10 then some value else none

-- The highest digit comes first.
abbrev pub DigitNum : Type 0
DigitNum = List ℕ

unfoldable pub push_lowest_digit : ℕ → DigitNum → DigitNum
push_lowest_digit d [] = if d == 0 then [] else d ∷ []
push_lowest_digit d (x ∷ num) = x ∷ num ++ d ∷ []

pub record DigitNumFormat : Type 0 where
  pub underscores : Bool
  pub omit_trailing_dot : Bool

separator : Bool → Bytes
separator true = b'_' ∷ []
separator false = []

-- The loops that write digits: `position` counts down to the next separator.
unfoldable pub write_digits : Bool → ℕ → List ℕ → Bytes
unfolding separator
write_digits underscores position [] = []
write_digits underscores zero (d ∷ ds) =
    separator underscores ++ ((b'0' + d) ∷ write_digits underscores 2 ds)
write_digits underscores (suc position) (d ∷ ds) = (b'0' + d) ∷ write_digits underscores position ds

pub zeros : ℕ → List ℕ
zeros zero = []
zeros (suc n) = 0 ∷ zeros n

first_position : ℕ → ℕ
first_position len_before_dot = if len_before_dot % 3 == 0 then 3 else len_before_dot % 3

-- The rest, with the zeros that are missing after the dot in front.
write_after : DigitNumFormat → ℕ → List ℕ → Bytes
unfolding write_digits
write_after params after_dot ds =
    if after_dot == 0 && params.omit_trailing_dot
    then []
    else b'.' ∷ write_digits params.underscores 3 ds

-- `write`
unfoldable pub to_string_with_params : ℕ → DigitNumFormat → DigitNum → Bytes
unfolding write_digits write_after zeros first_position
to_string_with_params after_dot params ds =
    let len_before_dot = length ds - after_dot in
    if ltb after_dot (length ds)
    then write_digits params.underscores (first_position len_before_dot) (take len_before_dot ds)
      ++ write_after params after_dot (drop len_before_dot ds)
    else b'0' ∷ write_after params after_dot (zeros (after_dot - length ds) ++ ds)

-- With `checked_mul` and `checked_add` in a `u64`.
to_u64_from : ℕ → List ℕ → Option ℕ
to_u64_from num [] = some num
to_u64_from num (d ∷ ds) =
    let rest = to_u64_from (num * 10 + d) ds in
    if ltb (num * 10) (2 ^ 64) then (if ltb (num * 10 + d) (2 ^ 64) then rest else none) else none

-- `TryFrom<&DigitNum> for u64`
unfoldable pub to_u64 : DigitNum → Option ℕ
unfolding to_u64_from
to_u64 ds = to_u64_from 0 ds
