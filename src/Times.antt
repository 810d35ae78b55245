-- ===== src/Times.antt =====
-- Durations in microseconds and nanoseconds, evobench-tools/src/times.rs. The two types that the
-- macro `define_time` makes are one record here, and `max` is the number of parts in a second. The
-- program is built with overflow checks, so an overflow is a panic.
pub mod Arithmetic
pub mod Format
use evobench.Prelude.{
  ℕ, ◌+◌, ◌-◌, ◌*◌, ◌/◌, ◌%◌, ◌^◌, ◌<◌, Bool, Option, none, some, ltb, leb, if◌then◌else◌,
}

abbrev pub micros : ℕ
micros = 1_000_000

abbrev pub nanos : ℕ
nanos = 1_000_000_000

abbrev pub u32_max : ℕ
u32_max = 4_294_967_295

abbrev pub u64_max : ℕ
u64_max = 18_446_744_073_709_551_615

-- `none` is a panic.
abbrev pub Checked : Type 0 → Type 0
Checked A = Option A

pub record Time : Type 0 where
  pub sec : ℕ
  -- `usec` or `nsec`
  pub part : ℕ

-- Both fields are of type `u32`, and the second is in range.
abbrev pub IsTime : ℕ → Time → Type 0
IsTime max t = (t.sec < 2 ^ 32) × (t.part < max)

unfoldable pub is_valid : ℕ → Time → Bool
is_valid max t = ltb t.part max

unfoldable pub new : ℕ → ℕ → ℕ → Option Time
unfolding is_valid
new max sec part =
    let slf : Time = record { sec = sec; part = part } in
    if is_valid max slf then some slf else none

unfoldable pub to_increments : ℕ → Time → ℕ
to_increments max t = t.sec * max + t.part

u32 : ℕ → Checked ℕ
u32 n = if leb n u32_max then some n else none

with_part : Checked ℕ → ℕ → Checked Time
with_part none part = none
with_part (some sec) part = some (record { sec = sec; part = part })

carry : ℕ → Time → Time → Checked ℕ → Checked Time
unfolding u32 with_part
carry max a b none = none
carry max a b (some part) =
    if leb max part
    then with_part (u32 (a.sec + b.sec + 1)) (part - max)
    else with_part (u32 (a.sec + b.sec)) part

unfoldable pub add : ℕ → Time → Time → Checked Time
unfolding carry
add max a b = carry max a b (u32 (a.part + b.part))

-- `u32::checked_sub`
sub_u32 : ℕ → ℕ → Option ℕ
sub_u32 a b = if leb b a then some (a - b) else none

-- `sec - 1` panics at 0; so does the sum if it leaves the type.
borrow : ℕ → Time → Time → ℕ → Option ℕ → Checked (Option Time)
borrow max a b sec (some part) = some (some (record { sec = sec; part = part }))
borrow max a b sec none =
    if ltb 0 sec
    then (if leb (a.part + max) u32_max
        then some (some (record { sec = sec - 1; part = (a.part + max) - b.part }))
        else none)
    else none

from_seconds : ℕ → Time → Time → Option ℕ → Checked (Option Time)
unfolding borrow sub_u32
from_seconds max a b none = some none
from_seconds max a b (some sec) = borrow max a b sec (sub_u32 a.part b.part)

unfoldable pub checked_sub : ℕ → Time → Time → Checked (Option Time)
unfolding from_seconds
checked_sub max a b = from_seconds max a b (sub_u32 a.sec b.sec)

or_panic : Checked (Option Time) → Checked Time
or_panic none = none
or_panic (some t) = t

-- `Sub`
unfoldable pub sub : ℕ → Time → Time → Checked Time
unfolding or_panic checked_sub
sub max a b = or_panic (checked_sub max a b)

split : ℕ → ℕ → Option Time
split max n =
    if leb (n / max) u32_max then some (record { sec = n / max; part = n % max }) else none

unfoldable pub to_usec : Time → ℕ
to_usec t = t.sec * 1_000_000 + t.part

unfoldable pub micro_from_usec : ℕ → Option Time
unfolding split
micro_from_usec useconds = split micros useconds

unfoldable pub micro_to_nsec : Time → ℕ
micro_to_nsec t = t.sec * 1_000_000_000 + t.part * 1000

unfoldable pub from_nsec : ℕ → Option Time
unfolding split
from_nsec nseconds = split nanos nseconds

unfoldable pub nano_from_usec : ℕ → Option Time
unfolding from_nsec
nano_from_usec useconds =
    if leb (useconds * 1000) u64_max then from_nsec (useconds * 1000) else none

unfoldable pub nano_to_nsec : Time → ℕ
nano_to_nsec t = t.sec * 1_000_000_000 + t.part

-- `From<MicroTime> for NanoTime`
unfoldable pub nano_from_micro : Time → Checked Time
unfolding u32 with_part
nano_from_micro t = with_part (some t.sec) (t.part * 1000)
