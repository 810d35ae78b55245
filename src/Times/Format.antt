-- ===== src/Times/Format.antt =====
-- Printing durations: the `Display` and `to_string_..` functions of evobench-tools/src/times.rs.
pub mod Groups
use evobench.Prelude.{
  ℕ, ◌+◌, ◌-◌, ◌*◌, ◌/◌, ◌%◌, zero, suc, Option, none, some, List, [], ◌∷◌, ◌++◌, length, take,
  drop, ltb, leb, ◌==◌, if◌then◌else◌,
}
use mathlib.Core.List.{reverse, replicate}
use evobench.Prelude.Bytes.{Bytes, codes}
use evobench.Prelude.Decimal.{decimal}
use evobench.Times.{Time, Checked, u32_max}

zeros : ℕ → Bytes
zeros zero = []
zeros (suc n) = b'0' ∷ zeros n

-- `{n:0width}`
unfoldable pub padded : ℕ → ℕ → Bytes
unfolding zeros
padded width n = let s = decimal n in zeros (width - length s) ++ s

-- `rchunks(3)`: pieces of three bytes from the end, the last one perhaps shorter. The fuel is at least
-- the number of bytes.
rchunks : ℕ → Bytes → List Bytes
rchunks zero xs = []
rchunks (suc fuel) xs =
    let rest = rchunks fuel (take (length xs - 3) xs) in
    if length xs == 0 then [] else drop (length xs - 3) xs ∷ rest

-- `join("_")`
join : List Bytes → Bytes
join [] = []
join (c ∷ []) = c
join (c ∷ d ∷ cs) = c ++ b'_' ∷ join (d ∷ cs)

unfoldable pub format_integer_with_undercores : Bytes → Bytes
unfolding rchunks join
format_integer_with_undercores digits = join (reverse (rchunks (length digits) digits))

unfoldable pub milli_micro : ℕ → ℕ × ℕ
milli_micro usec = (usec / 1000, usec % 1000)

unfoldable pub milli_micro_nano : ℕ → ℕ × ℕ × ℕ
unfolding milli_micro
milli_micro_nano nsec =
    let usec = nsec / 1000 in
    let nano = nsec % 1000 in let (milli, micro) = milli_micro usec in (milli, micro, nano)

print_milli_micro : ℕ → ℕ → Bytes
print_milli_micro milli micro = decimal milli ++ codes "." ++ padded 3 micro ++ codes " ms"

print_milli_micro_nano : ℕ → ℕ → ℕ → Bytes
print_milli_micro_nano milli micro nano =
    decimal milli ++ codes "." ++ padded 3 micro ++ codes "_" ++ padded 3 nano ++ codes " ms"

print_micro_nano : ℕ → ℕ → Bytes
print_micro_nano micro nano = decimal micro ++ codes "." ++ padded 3 nano ++ codes " us"

-- `Display` of `MicroTime` and of `NanoTime`
unfoldable pub show_micro : Time → Bytes
unfolding milli_micro print_milli_micro format_integer_with_undercores
show_micro t =
    let (milli, micro) = milli_micro t.part in
    if leb 1 t.sec
    then format_integer_with_undercores (decimal t.sec)
      ++ codes "."
      ++ padded 3 milli
      ++ codes "_"
      ++ padded 3 micro
      ++ codes " s"
    else (if leb 1000 t.part
        then print_milli_micro milli micro
        else format_integer_with_undercores (decimal t.part) ++ codes " us")

unfoldable pub show_nano : Time → Bytes
unfolding milli_micro_nano print_milli_micro_nano print_micro_nano format_integer_with_undercores
show_nano t =
    let (milli, micro, nano) = milli_micro_nano t.part in
    if leb 1 t.sec
    then format_integer_with_undercores (decimal t.sec)
      ++ codes "."
      ++ padded 3 milli
      ++ codes "_"
      ++ padded 3 micro
      ++ codes "_"
      ++ padded 3 nano
      ++ codes " s"
    else (if ltb 0 milli
        then print_milli_micro_nano milli micro nano
        else (if ltb 0 micro
            then print_micro_nano micro nano
            else format_integer_with_undercores (decimal t.part) ++ codes " ns"))

-- The whole milliseconds are computed in `u32`: a panic if they do not fit.
with_rest : ℕ → ℕ → ℕ → Checked Bytes
with_rest ms width rest =
    if leb ms u32_max then some (decimal ms ++ codes "." ++ padded width rest) else none

unfoldable pub micro_to_string_ms : Time → Checked Bytes
unfolding with_rest
micro_to_string_ms t = with_rest (t.sec * 1000 + t.part / 1_000) 3 (t.part % 1_000)

unfoldable pub nano_to_string_ms : Time → Checked Bytes
unfolding with_rest
nano_to_string_ms t = with_rest (t.sec * 1000 + t.part / 1_000_000) 6 (t.part % 1_000_000)

unfoldable pub micro_to_string_seconds : Time → Bytes
micro_to_string_seconds t = decimal t.sec ++ codes "." ++ padded 6 t.part

unfoldable pub nano_to_string_seconds : Time → Bytes
nano_to_string_seconds t = decimal t.sec ++ codes "." ++ padded 9 t.part
