-- ===== src/Times/Arithmetic.antt =====
-- The arithmetic of durations is that of their lengths.
use evobench.Prelude.{
  ℕ, ◌≡◌, ◌+◌, ◌-◌, ◌*◌, ◌/◌, ◌%◌, Option, none, some, ltb, leb, arith, if◌then◌else◌,
}
use mathlib.Core.Option
use evobench.Times.{
  Time, IsTime, micros, nanos, Checked, u32, with_part, carry, add, sub_u32, borrow, from_seconds,
  checked_sub, or_panic, sub, split, to_increments, to_usec, micro_from_usec, micro_to_nsec,
  from_nsec, nano_from_usec, nano_to_nsec, nano_from_micro,
}

-- The duration of a number of parts.
abbrev pub of_increments : ℕ → ℕ → Time
of_increments max n = record { sec = n / max; part = n % max }

-- The two types that the macro makes.
pub data IsResolution : ℕ → Type 0 where
  micro : IsResolution micros
  nano : IsResolution nanos

nano_add :
    (a b : Time)
    → IsTime nanos a
    → IsTime nanos b
    → add nanos a b ≡ (
        let n = to_increments nanos a + to_increments nanos b in
        if ltb n (4_294_967_296 * nanos) then some (of_increments nanos n) else none)
unfolding add carry u32 with_part to_increments
nano_add a b ha hb = ground arith

micro_add :
    (a b : Time)
    → IsTime micros a
    → IsTime micros b
    → add micros a b ≡ (
        let n = to_increments micros a + to_increments micros b in
        if ltb n (4_294_967_296 * micros) then some (of_increments micros n) else none)
unfolding add carry u32 with_part to_increments
micro_add a b ha hb = ground arith

-- For both types: the sum of two durations has the sum of their lengths, and the addition panics
-- exactly if that is 2^32 seconds or more.
pub add_lem :
    (max : ℕ)
    → IsResolution max
    → (a b : Time) → IsTime max a
    → IsTime max b
    → add max a b ≡ (
        let n = to_increments max a + to_increments max b in
        if ltb n (4_294_967_296 * max) then some (of_increments max n) else none)
add_lem max micro a b ha hb = micro_add a b ha hb
add_lem max nano a b ha hb = nano_add a b ha hb

-- The difference of two lengths, or what the code does where there is none: it answers `none` if the
-- seconds are fewer, and panics if only the parts are.
abbrev pub difference : ℕ → Time → Time → Checked (Option Time)
difference max a b =
    if leb (to_increments max b) (to_increments max a)
    then some (some (of_increments max (to_increments max a - to_increments max b)))
    else (if ltb a.sec b.sec then some none else none)

nano_sub :
    (a b : Time) → IsTime nanos a → IsTime nanos b → checked_sub nanos a b ≡ difference nanos a b
unfolding checked_sub from_seconds borrow sub_u32 to_increments
nano_sub a b ha hb = ground arith

micro_sub :
    (a b : Time)
    → IsTime micros a
    → IsTime micros b
    → checked_sub micros a b ≡ difference micros a b
unfolding checked_sub from_seconds borrow sub_u32 to_increments
micro_sub a b ha hb = ground arith

-- For both types: `checked_sub` gives the duration whose length is the difference of the lengths, if
-- it is not negative. Otherwise it answers `none` if the first duration has fewer seconds, and it
-- panics if both have the same seconds.
pub checked_sub_lem :
    (max : ℕ)
    → IsResolution max
    → (a b : Time) → IsTime max a
    → IsTime max b
    → checked_sub max a b ≡ difference max a b
checked_sub_lem max micro a b ha hb = micro_sub a b ha hb
checked_sub_lem max nano a b ha hb = nano_sub a b ha hb

-- Subtracting what was added gives the first duration back, for both types, whenever the addition
-- does not panic.
pub sub-add :
    (max : ℕ)
    → IsResolution max
    → (a b : Time) → IsTime max a
    → IsTime max b
    → (c : Time) → add max a b ≡ some c
    → sub max c b ≡ some a
unfolding sub or_panic checked_sub from_seconds borrow sub_u32 add carry u32 with_part to_increments
sub-add max micro a b ha hb c sum = ground (arith, sum)
sub-add max nano a b ha hb c sum = ground (arith, sum)

-- A `MicroTime` goes into microseconds and back, and a number of microseconds into a `MicroTime` and
-- back; it does not fit exactly if it is 2^32 seconds or more.
pub from_usec-to_usec :
    (t : Time) (n : ℕ)
    → IsTime micros t
    → (micro_from_usec (to_usec t) ≡ some t)
      × (Option.map to_usec (micro_from_usec n)
          ≡ (if ltb n (4_294_967_296 * micros) then some n else none))
unfolding micro_from_usec split to_usec
from_usec-to_usec t n h = ground arith

-- A `NanoTime` goes into nanoseconds and back, and a number of nanoseconds into a `NanoTime` and
-- back; it does not fit exactly if it is 2^32 seconds or more.
pub from_nsec-to_nsec :
    (t : Time) (n : ℕ)
    → IsTime nanos t
    → (from_nsec (nano_to_nsec t) ≡ some t)
      × (Option.map nano_to_nsec (from_nsec n)
          ≡ (if ltb n (4_294_967_296 * nanos) then some n else none))
unfolding from_nsec split nano_to_nsec
from_nsec-to_nsec t n h = ground arith

-- Making a `NanoTime` of a `MicroTime` never panics, keeps the length, and gives a `NanoTime` in range.
pub nano_from_micro_lem :
    (t : Time)
    → IsTime micros t
    → (u : Time) × ((nano_from_micro t ≡ some u)
        × ((nano_to_nsec u ≡ micro_to_nsec t) × IsTime nanos u))
unfolding nano_from_micro u32 with_part nano_to_nsec micro_to_nsec
nano_from_micro_lem t h = (
  record { sec = t.sec; part = t.part * 1000 },
  (ground arith, (omega arith, (h.0, omega arith))),
)

-- A `NanoTime` made of microseconds is the one made by way of a `MicroTime`.
pub nano_from_usec_lem :
    (n : ℕ)
    → nano_from_usec n ≡ elim (micro_from_usec n) [ none ↦ none | some t ↦ nano_from_micro t ]
unfolding nano_from_usec from_nsec micro_from_usec split nano_from_micro u32 with_part
nano_from_usec_lem n = ground arith
