-- ===== src/SerdeTypes/GitHash.antt =====
-- Git hashes, evobench-tools/src/serde_types/git_hash.rs: twenty bytes, printed and parsed as forty hexadecimal digits.
use evobench.Prelude.{
  ℕ, suc, ◌+◌, ◌-◌, ◌*◌, ◌/◌, ◌%◌, ◌<◌, ◌≡◌, refl, ap, Bool, true, false, not, ◌&&◌, Option, none,
  some, [], ◌∷◌, ltb, leb, ◌==◌, if◌then◌else◌, length, keep, keep-All, All, Bool-cases, inl, inr,
  arith, ==_iff,
}
use mathlib.Core.Path.{subst}
use evobench.Prelude.Bytes.{Bytes}
use evobench.Prelude.Chain.{◌>>=◌}

between : ℕ → ℕ → ℕ → Bool
between lo hi b = leb lo b && leb b hi

unfoldable pub decode_hex_digit : ℕ → Option ℕ
unfolding between
decode_hex_digit b =
    if between b'0' b'9' b
    then some (b - b'0')
    else (if between b'a' b'f' b
        then some (b - b'a' + 10)
        else (if between b'A' b'F' b then some (b - b'A' + 10) else none))

-- The bytes of an even number of digits.
unfoldable pub decode_pairs : Bytes → Option Bytes
decode_pairs [] = some []
decode_pairs (a ∷ []) = none
decode_pairs (a ∷ b ∷ rest) = do
  high ← decode_hex_digit a
  low ← decode_hex_digit b
  bytes ← decode_pairs rest
  some ((high * 16 + low) ∷ bytes)

-- `decode_hex`, for an array of `n` bytes.
unfoldable pub decode_hex : ℕ → Bytes → Option Bytes
decode_hex n input = if length input == 2 * n then decode_pairs input else none

-- `TryFrom<&[u8]>`
unfoldable pub try_from : Bytes → Option Bytes
try_from value = if length value == 40 then decode_hex 20 value else none

-- `chars().count()` of a UTF-8 text: the bytes that do not continue a character.
unfoldable pub char_count : Bytes → ℕ
unfolding between
char_count s = length (keep (λ b. not (between 128 191 b)) s)

-- `FromStr`
unfoldable pub from_str : Bytes → Option Bytes
from_str s = if char_count s == length s then try_from s else none

hex_digit : ℕ → ℕ
hex_digit n = if ltb n 10 then b'0' + n else b'a' + (n - 10)

-- `Display`
unfoldable pub to_string : Bytes → Bytes
unfolding hex_digit
to_string [] = []
to_string (b ∷ h) = hex_digit (b / 16) ∷ hex_digit (b % 16) ∷ to_string h

-- What a `GitHash` is.
abbrev pub IsHash : Bytes → Type 0
IsHash h = (length h ≡ 20) × All (λ b. b < 256) h

decode_hex_digit-hex_digit : (n : ℕ) → n < 16 → decode_hex_digit (hex_digit n) ≡ some n
unfolding decode_hex_digit hex_digit between
decode_hex_digit-hex_digit n h = ground arith

decode_pairs-to_string : (h : Bytes) → All (λ b. b < 256) h → decode_pairs (to_string h) ≡ some h
unfolding decode_pairs to_string
decode_pairs-to_string [] h = refl
decode_pairs-to_string (b ∷ h) (lt, lts) = rw (decode_hex_digit-hex_digit (b / 16) (omega arith)) (
    rw (decode_hex_digit-hex_digit (b % 16) (omega arith))
      (rw (decode_pairs-to_string h lts) (ap (λ x. some (x ∷ h)) (omega arith))))

length-to_string : (h : Bytes) → length (to_string h) ≡ 2 * length h
unfolding to_string
length-to_string [] = refl
length-to_string (b ∷ h) = omega (arith, length-to_string h)

starts_char : ℕ → Bool
unfolding between
starts_char b = not (between 128 191 b)

hex_digits-starts_char :
    (h : Bytes) → All (λ b. b < 256) h → All (λ c. starts_char c ≡ true) (to_string h)
unfolding to_string hex_digit starts_char between
hex_digits-starts_char [] h = tt
hex_digits-starts_char (b ∷ h) (lt, lts) =
    (ground arith, (ground arith, hex_digits-starts_char h lts))

char_count-to_string :
    (h : Bytes) → All (λ b. b < 256) h → char_count (to_string h) ≡ length (to_string h)
unfolding char_count starts_char
char_count-to_string h lts =
    ap (λ l. length l) (keep-All starts_char (to_string h) (hex_digits-starts_char h lts))

-- A hash is printed as forty digits that are parsed back to it.
pub from_str-to_string :
    (h : Bytes) → IsHash h → (length (to_string h) ≡ 40) × (from_str (to_string h) ≡ some h)
unfolding from_str try_from decode_hex
from_str-to_string h (len, lts) =
    (forty, rw (char_count-to_string h lts) (rw forty (decode_pairs-to_string h lts)))
  where
    forty : length (to_string h) ≡ 40
    forty = omega (arith, length-to_string h, len)

IsDigitValue : Option ℕ → Type 0
IsDigitValue none = Unit
IsDigitValue (some n) = n < 16

digit-IsDigitValue : (c : ℕ) → IsDigitValue (decode_hex_digit c)
unfolding decode_hex_digit between IsDigitValue
digit-IsDigitValue c = elim (Bool-cases (leb b'0' c && leb c b'9')) [
  | inl e ↦ rw e (ground arith)
  | inr e ↦ rw e (elim (Bool-cases (leb b'a' c && leb c b'f')) [
    | inl e' ↦ rw e' (ground arith)
    | inr e' ↦ rw e' (elim (Bool-cases (leb b'A' c && leb c b'F')) [
      | inl e'' ↦ rw e'' (ground arith)
      | inr e'' ↦ rw e'' tt
    ])
  ])
]

IsDecoded : ℕ → Option Bytes → Type 0
IsDecoded n none = Unit
IsDecoded n (some h) = (2 * length h ≡ n) × All (λ b. b < 256) h

one_more :
    (n : ℕ) (high low : Option ℕ) (bytes : Option Bytes)
    → IsDigitValue high
    → IsDigitValue low
    → IsDecoded n bytes
    → IsDecoded (suc (suc n)) (do h ← high; l ← low; bs ← bytes; some ((h * 16 + l) ∷ bs))
unfolding IsDigitValue IsDecoded
one_more n none low bytes h l d = tt
one_more n (some x) none bytes h l d = tt
one_more n (some x) (some y) none h l d = tt
one_more n (some x) (some y) (some bs) h l (len, lts) = (omega arith, (omega arith, lts))

decode_pairs-IsDecoded : (s : Bytes) → IsDecoded (length s) (decode_pairs s)
unfolding decode_pairs IsDecoded
decode_pairs-IsDecoded [] = (refl, tt)
decode_pairs-IsDecoded (a ∷ []) = tt
decode_pairs-IsDecoded (a ∷ b ∷ s) =
    one_more (length s) (decode_hex_digit a) (decode_hex_digit b) (decode_pairs s)
      (digit-IsDigitValue a) (digit-IsDigitValue b) (decode_pairs-IsDecoded s)

all_tests :
    (b c d : Bool) (o : Option Bytes) (h : Bytes)
    → (if b then (if c then (if d then o else none) else none) else none) ≡ some h
    → (c ≡ true) × (o ≡ some h)
all_tests true true true o h e = (refl, e)
all_tests true true false o h e = cc
all_tests true false d o h e = cc
all_tests false c d o h e = cc

-- Only texts of forty bytes are parsed, and only to hashes.
pub from_str-IsHash : (s h : Bytes) → from_str s ≡ some h → (length s ≡ 40) × IsHash h
unfolding from_str try_from decode_hex IsDecoded
from_str-IsHash s h e =
    let (tested, decoded) =
      all_tests (char_count s == length s) (length s == 40) (length s == 40) (decode_pairs s) h e in
    let forty : length s ≡ 40 = (==_iff (length s) 40).0 tested in
    let (len, lts) = subst (IsDecoded (length s)) decoded (decode_pairs-IsDecoded s) in
    (forty, (omega arith, lts))
