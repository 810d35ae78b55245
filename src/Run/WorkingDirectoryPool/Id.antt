-- ===== src/Run/WorkingDirectoryPool/Id.antt =====
-- The identifiers of working directories, as they are printed and parsed:
-- evobench-tools/src/run/working_directory_pool.rs.
use evobench.Prelude.{
  ℕ, ◌≤◌, ◌≡◌, refl, Bool, true, false, ◌||◌, Option, none, some, List, [], ◌∷◌, ◌==◌,
  if◌then◌else◌, arith, All,
}
use evobench.Prelude.Chain.{◌>>=◌}
use evobench.Prelude.Bytes.{Bytes}
use evobench.Prelude.Decimal.{decimal, parse_uint, parse_uint-decimal, IsDigit, decimal-IsDigit}

pub record WorkingDirectoryIdOpt : Type 0 where
  pub has_prefix : Bool
  pub id : ℕ

abbrev pub u64_max : ℕ
u64_max = 18446744073709551615

-- `strip_prefix("D")`, or else `strip_prefix("d")`.
strip_d : Bytes → Bool × Bytes
strip_d [] = (false, [])
strip_d (c ∷ s) = if (c == b'D') || (c == b'd') then (true, s) else (false, c ∷ s)

id_opt_of : Bool → Option ℕ → Option WorkingDirectoryIdOpt
id_opt_of has_prefix none = none
id_opt_of has_prefix (some n) = some (record { has_prefix = has_prefix; id = n })

-- `WorkingDirectoryIdOpt::from_str`
unfoldable pub id_opt_from_str : Bytes → Option WorkingDirectoryIdOpt
unfolding strip_d id_opt_of
id_opt_from_str s =
    let (has_prefix, number_string) = strip_d s in
    id_opt_of has_prefix (parse_uint u64_max number_string)

unfoldable pub to_working_directory_id : WorkingDirectoryIdOpt → Bool → Option ℕ
to_working_directory_id opt allow_bare =
    if allow_bare || opt.has_prefix then some (opt.id) else none

unfoldable pub finish_parsing_working_directory_ids :
    List WorkingDirectoryIdOpt → Bool → Option (List ℕ)
unfolding to_working_directory_id
finish_parsing_working_directory_ids [] allow_bare = some []
finish_parsing_working_directory_ids (opt ∷ opts) allow_bare = do
  id ← to_working_directory_id opt allow_bare
  ids ← finish_parsing_working_directory_ids opts allow_bare
  some (id ∷ ids)

-- `to_number_string`
unfoldable pub to_directory_file_name : ℕ → Bytes
to_directory_file_name id = decimal id

unfoldable pub from_prefixless_str : Bytes → Option ℕ
from_prefixless_str s = parse_uint u64_max s

-- `Display for WorkingDirectoryId`
unfoldable pub to_string : ℕ → Bytes
to_string id = b'D' ∷ decimal id

-- `FromStr for WorkingDirectoryId`, with the program's setting whether the prefix can be missing.
unfoldable pub from_str : Bool → Bytes → Option ℕ
unfolding id_opt_from_str to_working_directory_id
from_str allow_bare s = do opt ← id_opt_from_str s; to_working_directory_id opt allow_bare

digits-strip_d : (s : Bytes) → All IsDigit s → strip_d s ≡ (false, s)
unfolding strip_d
digits-strip_d [] h = refl
digits-strip_d (c ∷ s) (h, hs) =
    let e : ((c == b'D') || (c == b'd')) ≡ false = ground arith in rw e refl

-- An identifier in the range of its type is parsed back from what is printed: with the prefix always, and
-- bare exactly where that is allowed. The name of its directory is parsed back too.
pub from_str-to_directory_file_name :
    (allow_bare : Bool) (id : ℕ)
    → id ≤ u64_max
    → (from_str allow_bare (to_string id) ≡ some id)
      × ((from_str allow_bare (to_directory_file_name id) ≡ (if allow_bare then some id else none))
          × (from_prefixless_str (to_directory_file_name id) ≡ some id))
unfolding from_str id_opt_from_str id_opt_of to_string strip_d to_working_directory_id
    to_directory_file_name from_prefixless_str
from_str-to_directory_file_name allow_bare id h = (
  rw (parse_uint-decimal u64_max id h) (prefixed allow_bare),
  (
    rw (digits-strip_d (decimal id) (decimal-IsDigit id))
        (rw (parse_uint-decimal u64_max id h) (bare allow_bare)),
    parse_uint-decimal u64_max id h,
  ),
)
  where
    prefixed : (b : Bool) → (if b || true then some id else none) ≡ some id
    prefixed true = refl
    prefixed false = refl

    bare : (b : Bool) → (if b || false then some id else none) ≡ (if b then some id else none)
    bare true = refl
    bare false = refl
