-- ===== src/KeyValFs/AsKey.antt =====
-- The trait `AsKey` of evobench-tools/src/key_val_fs/as_key.rs as an interface, and the value
-- serialization (`serde_json`, a third-party crate) as another.
use evobench.Prelude.{
  ℕ, ◌≡◌, ◌≢◌, ap, Bool, false, not, inl, inr, Bool-cases, arith, ◌&&◌, ◌||◌, Option, none, some,
  [], ◌∷◌, length, leb, ◌==◌, if◌then◌else◌,
}
use evobench.Prelude.Bytes.{Bytes}

pub record AsKey (K : Type 0) : Type 1 where
  pub as_filename_str : K → Bytes
  pub try_from_filename_str : Bytes → Option K
  -- the values of the type, where `K` holds more
  pub InType : K → Type 0
  -- "must convert the output of `as_filename_str` back into a Self equal to the original"
  pub round_trip : (k : K) → InType k → try_from_filename_str (as_filename_str k) ≡ some k

pub record Json (V : Type 0) : Type 0 where
  pub to_string : V → Option Bytes
  pub from_str : Bytes → Option V
  -- what was serialized is read back
  pub reads_back : (v : V) (s : Bytes) → to_string v ≡ some s → from_str s ≡ some v

contains : ℕ → Bytes → Bool
contains b [] = false
contains b (c ∷ cs) = c == b || contains b cs

starts_with_dot : Bytes → Bool
starts_with_dot [] = false
starts_with_dot (b ∷ bs) = b == b'.'

-- The assertions of `verified_as_filename_str`.
unfoldable pub is_filename : Bytes → Bool
unfolding contains starts_with_dot
is_filename s =
    leb (length s) 254
    && leb 1 (length s)
    && not (starts_with_dot s)
    && not (contains b'/' s)
    && not (contains 0 s)

module _ {K : Type 0} (as_key : AsKey K) where
  open as_key use {as_filename_str}

  -- `none` is the panic of a failed assertion.
  unfoldable pub verified_as_filename_str : K → Option Bytes
  unfolding is_filename
  verified_as_filename_str k = let s = as_filename_str k in if is_filename s then some s else none

  -- A name that is verified does not start with a dot.
  pub verified_lem :
      (k : K) (name rest : Bytes) → verified_as_filename_str k ≡ some name → name ≢ b'.' ∷ rest
  unfolding verified_as_filename_str is_filename starts_with_dot
  verified_lem k name rest e dot = elim (Bool-cases (is_filename (as_filename_str k))) [
    | inl h ↦
        let same_name : as_filename_str k ≡ b'.' ∷ rest = cc (e, h, dot) in
        absurd (cc (h, ap is_filename same_name, refuted))
    | inr h ↦ absurd (cc (e, h))
  ]
    where
      refuted : is_filename (b'.' ∷ rest) ≡ false
      refuted = ground arith
