-- ===== src/Tests/Examples.antt =====
-- The theorems at concrete inputs.
use evobench.Prelude.{◌≡◌, none, some, keep, arith}
use mathlib.Core.Option
use evobench.Prelude.Bytes.{codes}
use evobench.Prelude.Decimal.{decimal, decimal-IsDigit}
use evobench.KeyValFs.TimeKey.{TimeKey, as_filename_str, try_from_filename_str}
use evobench.KeyValFs.TimeKey.RoundTrip.{InRange, try_from-as_filename}
use evobench.Times.{
  Time, nanos, add, checked_sub, micro_from_usec, to_usec, nano_to_nsec, to_increments,
}
use evobench.Times.Arithmetic.{nano, add_lem, checked_sub_lem, from_usec-to_usec}
use evobench.Times.Format.{
  format_integer_with_undercores, micro_to_string_ms, nano_to_string_ms, padded,
}
use evobench.Times.Format.Groups.{
  format_integer_with_undercores_lem, to_string_ms_lem, no_underscore,
}

abbrev t10_9 : Time
t10_9 = record { sec = 10; part = 999_999_999 }

abbrev t3_2 : Time
t3_2 = record { sec = 3; part = 2 }

add_lem_example : add nanos t10_9 t3_2 ≡ some (record { sec = 14; part = 1 })
unfolding add to_increments
add_lem_example =
    add_lem nanos nano t10_9 t3_2 (omega arith, omega arith) (omega arith, omega arith)

-- Equal seconds and fewer parts: a panic.
checked_sub_lem_example : checked_sub nanos (record { sec = 3; part = 1 }) t3_2 ≡ none
unfolding checked_sub to_increments
checked_sub_lem_example =
    checked_sub_lem nanos nano (record { sec = 3; part = 1 }) t3_2 (omega arith, omega arith)
      (omega arith, omega arith)

abbrev half_second : Time
half_second = record { sec = 7; part = 500_000 }

from_usec-to_usec_example :
    (micro_from_usec (to_usec half_second) ≡ some half_second)
    × (Option.map to_usec (micro_from_usec 1_500_000) ≡ some 1_500_000)
unfolding micro_from_usec to_usec
from_usec-to_usec_example = from_usec-to_usec half_second 1_500_000 (omega arith, omega arith)

format_integer_with_undercores_lem_example :
    (format_integer_with_undercores (decimal 1234567) ≡ codes "1_234_567")
    × (keep no_underscore (format_integer_with_undercores (decimal 1234567)) ≡ decimal 1234567)
unfolding decimal
format_integer_with_undercores_lem_example =
    format_integer_with_undercores_lem (decimal 1234567) (decimal-IsDigit 1234567)

to_string_ms_lem_example :
    (micro_to_string_ms half_second ≡ some (codes "7500.000"))
    × (nano_to_string_ms t10_9 ≡ some (codes "10999.999999"))
unfolding micro_to_string_ms nano_to_string_ms to_usec nano_to_nsec padded decimal
to_string_ms_lem_example =
    to_string_ms_lem half_second t10_9 (omega arith, omega arith) (omega arith, omega arith)

abbrev a_key : TimeKey
a_key = record { nanos = 1_700_000_000_123_456_789; pid = 4711; id = 3 }

a_key-InRange : InRange a_key
a_key-InRange = record { nanos = omega arith; pid = omega arith; id = omega arith }

try_from-as_filename_example : try_from_filename_str (as_filename_str a_key) ≡ some a_key
try_from-as_filename_example = try_from-as_filename a_key a_key-InRange
