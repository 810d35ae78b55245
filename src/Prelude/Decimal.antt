-- ===== src/Prelude/Decimal.antt =====
-- Decimal numbers as Rust's standard library prints (`{}`) and parses (`str::parse`) them.
use mathlib.Core.List.{append_assoc, append-nil, concat-ne-nil}
use evobench.Prelude.Tests.{ltb, leb, ◌==◌, Bool-cases, if◌then◌else◌}
use evobench.Prelude.Lists.{All, All-append}
use evobench.Prelude.Bytes.{Bytes}
use Prim.Native.Nat.{ℕ, zero, suc, ◌+◌, ◌-◌, ◌*◌, ◌/◌, ◌%◌, ◌≤◌, ◌<◌}
use mathlib.Core.Path.{◌≡◌, refl, ap, ◌∙◌}
use mathlib.Core.Logic.{◌≢◌, inl, inr}
use mathlib.Core.Bool.{Bool, ◌&&◌}
use mathlib.Core.Option.{Option, none, some}
use mathlib.Core.List.{[], ◌∷◌, ◌++◌}
use native.Mathlib.Omega.{arith}

-- A number below 10 takes one digit; the fuel is at least the number.
digits : ℕ → ℕ → Bytes
digits zero n = (b'0' + n) ∷ []
digits (suc fuel) n =
    let high = digits fuel (n / 10) in
    if ltb n 10 then (b'0' + n) ∷ [] else high ++ (b'0' + n % 10) ∷ []

-- `format!("{n}")`
unfoldable pub decimal : ℕ → Bytes
unfolding digits
decimal n = digits n n

is_digit : ℕ → Bool
is_digit c = leb b'0' c && leb c b'9'

scan : ℕ → Bytes → ℕ → Option ℕ
scan max [] n = some n
scan max (c ∷ cs) n =
    let m = n * 10 + (c - b'0') in
    let rest = scan max cs m in if is_digit c then (if leb m max then rest else none) else none

unsigned : ℕ → Bytes → Option ℕ
unsigned max [] = none
unsigned max (c ∷ cs) = scan max (c ∷ cs) 0

-- `s.parse::<uN>()`, where the greatest number of the type is `max`: one `+` may stand in front.
unfoldable pub parse_uint : ℕ → Bytes → Option ℕ
unfolding scan unsigned is_digit
parse_uint max [] = none
parse_uint max (c ∷ cs) = if c == b'+' then unsigned max cs else scan max (c ∷ cs) 0

abbrev pub IsDigit : ℕ → Type 0
IsDigit c = (b'0' ≤ c) × (c ≤ b'9')

digits-IsDigit : (fuel n : ℕ) → n ≤ fuel → All IsDigit (digits fuel n)
unfolding digits
digits-IsDigit zero n h = omega arith
digits-IsDigit (suc fuel) n h = ground (
  arith,
  digits-IsDigit fuel (n / 10),
  All-append IsDigit (digits fuel (n / 10)) ((b'0' + n % 10) ∷ []),
)

-- A number is printed with digits only.
pub decimal-IsDigit : (n : ℕ) → All IsDigit (decimal n)
unfolding decimal
decimal-IsDigit n = digits-IsDigit n n (omega arith)

scan_digit :
    (max n d : ℕ) (rest : Bytes)
    → d < 10
    → n * 10 + d ≤ max
    → scan max ((b'0' + d) ∷ rest) n ≡ scan max rest (n * 10 + d)
unfolding scan is_digit
scan_digit max n d rest h fits = ground arith

scan-digits :
    (max fuel n : ℕ) (rest : Bytes)
    → n ≤ fuel
    → n ≤ max
    → scan max (digits fuel n ++ rest) 0 ≡ scan max rest n
unfolding digits
scan-digits max zero n rest h fits =
    scan_digit max 0 n rest (omega arith) (omega arith) ∙ ap (scan max rest) (omega arith)
scan-digits max (suc fuel) n rest h fits = elim (Bool-cases (ltb n 10)) [
  | inl low ↦
      rw low
        (scan_digit max 0 n rest (ground arith) (omega arith) ∙ ap (scan max rest) (omega arith))
  | inr high ↦ rw high (
      rw append_assoc (
        scan-digits max fuel (n / 10) ((b'0' + n % 10) ∷ rest) (ground arith) (omega arith)
        ∙ scan_digit max (n / 10) (n % 10) rest (omega arith) (omega arith)
        ∙ ap (scan max rest) (omega arith)))
]

-- The first byte is a digit, so no sign is read, and what follows is read by `scan`.
parse_uint-digit : (max : ℕ) (s : Bytes) → s ≢ [] → All IsDigit s → parse_uint max s ≡ scan max s 0
unfolding parse_uint
parse_uint-digit max [] h a = absurd (h refl)
parse_uint-digit max (c ∷ cs) h (first, more) = ground arith

digits-ne-nil : (fuel n : ℕ) → digits fuel n ≢ []
unfolding digits
digits-ne-nil zero n = cc
digits-ne-nil (suc fuel) n = elim (Bool-cases (ltb n 10)) [
  | inl low ↦ rw low (cc)
  | inr high ↦ rw high (concat-ne-nil (b'0' + n % 10) (digits fuel (n / 10)))
]

-- What was printed is parsed back, if it fits the type.
pub parse_uint-decimal : (max n : ℕ) → n ≤ max → parse_uint max (decimal n) ≡ some n
unfolding decimal scan
parse_uint-decimal max n h =
    parse_uint-digit max (digits n n) (digits-ne-nil n n) (digits-IsDigit n n (omega arith))
    ∙ scan_all
  where
    scan_all : scan max (digits n n) 0 ≡ some n
    scan_all = rw append-nil at (scan-digits max n n [] (omega arith) h)
