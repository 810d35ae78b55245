-- ===== src/KeyValFs/TimeKey/RoundTrip.antt =====
-- A key is read back from its file name.
use evobench.Prelude.{◌≤◌, ◌≡◌, refl, some, [], ◌∷◌, ◌++◌, arith, All}
use evobench.Prelude.Bytes.{Bytes}
use evobench.Prelude.Decimal.{IsDigit, decimal, decimal-IsDigit, parse_uint-decimal}
use evobench.KeyValFs.TimeKey.{
  TimeKey, max_u32, max_u64, max_u128, as_filename_str, split_once, try_from_filename_str,
}

split_once-append :
    (s rest : Bytes) → All IsDigit s → split_once b'-' (s ++ (b'-' ∷ rest)) ≡ some (s, rest)
unfolding split_once
split_once-append [] rest h = refl
split_once-append (c ∷ s) rest h = ground (arith, split_once-append s rest)

-- The fields of a `TimeKey` have the types u128, u32 and u64.
pub record InRange (key : TimeKey) : Type 0 where
  pub nanos : key.nanos ≤ max_u128
  pub pid : key.pid ≤ max_u32
  pub id : key.id ≤ max_u64

-- The file name of a key whose fields are in the range of their types is parsed back to the key.
pub try_from-as_filename :
    (key : TimeKey) → InRange key → try_from_filename_str (as_filename_str key) ≡ some key
unfolding try_from_filename_str as_filename_str
try_from-as_filename key h = rw (
  split_once-append (decimal key.nanos) _ (decimal-IsDigit key.nanos),
  split_once-append (decimal key.pid) _ (decimal-IsDigit key.pid),
  parse_uint-decimal max_u128 key.nanos h.nanos,
  parse_uint-decimal max_u32 key.pid h.pid,
  parse_uint-decimal max_u64 key.id h.id,
)
