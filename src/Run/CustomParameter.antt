-- ===== src/Run/CustomParameter.antt =====
-- The checked values of custom parameters, evobench-tools/src/run/custom_parameter.rs.
use evobench.Prelude.{
  ℕ, zero, suc, ◌-◌, ◌^◌, ◌≡◌, ◌≢◌, refl, ◌⊎◌, inl, inr, Bool, true, false, ◌||◌, Option, none,
  some, arith, if◌then◌else◌, All, Bool-cases,
}
use evobench.Prelude.Bytes.{Bytes, codes, same, same_iff}
use evobench.Prelude.Decimal.{parse_uint}
use evobench.SerdeTypes.ProperFilename.{
  contains, contains-All, is_proper_filename, is_proper_dirname, has_extension, IsFilename,
  is_proper_filename-IsFilename, is_proper_dirname-IsFilename,
}

pub data CustomParameterType : Type 0 where
  string filename dirname bool non_zero_u32 u32 : CustomParameterType

pub record AllowedCustomParameter : Type 0 where
  pub required : Bool
  pub type : CustomParameterType

pub record CustomParameterValue : Type 0 where
  pub type : CustomParameterType
  pub value : Bytes

abbrev pub u32_max : ℕ
u32_max = 2 ^ 32 - 1

non_zero : Option ℕ → Bool
non_zero none = false
non_zero (some zero) = false
non_zero (some (suc n)) = true

is_number : Option ℕ → Bool
is_number none = false
is_number (some n) = true

-- Whether `checked_from` lets the value pass.
unfoldable pub passes : CustomParameterType → Bytes → Bool
unfolding non_zero is_number
passes CustomParameterType.string v = if contains 0 v then false else true
passes CustomParameterType.filename v = is_proper_filename v
passes CustomParameterType.dirname v = is_proper_dirname v
passes CustomParameterType.bool v = same v (codes "0") || same v (codes "1")
passes CustomParameterType.non_zero_u32 v = non_zero (parse_uint u32_max v)
passes CustomParameterType.u32 v = is_number (parse_uint u32_max v)

unfoldable pub checked_from : CustomParameterType → Bytes → Option CustomParameterValue
unfolding passes
checked_from type v = if passes type v then some (record { type = type; value = v }) else none

-- What the value of each type is.
abbrev pub IsValue : CustomParameterType → Bytes → Type 0
IsValue CustomParameterType.string v = All (λ b. b ≢ 0) v
IsValue CustomParameterType.filename v = IsFilename v
IsValue CustomParameterType.dirname v = IsFilename v × (has_extension v ≡ false)
IsValue CustomParameterType.bool v = (v ≡ codes "0") ⊎ (v ≡ codes "1")
IsValue CustomParameterType.non_zero_u32 v = (n : ℕ) × ((parse_uint u32_max v ≡ some n) × (n ≢ 0))
IsValue CustomParameterType.u32 v = (n : ℕ) × (parse_uint u32_max v ≡ some n)

a_number : (o : Option ℕ) → is_number o ≡ true → (n : ℕ) × (o ≡ some n)
unfolding is_number
a_number none h = absurd (cc h)
a_number (some n) h = (n, refl)

a_non_zero : (o : Option ℕ) → non_zero o ≡ true → (n : ℕ) × ((o ≡ some n) × (n ≢ 0))
unfolding non_zero
a_non_zero none h = absurd (cc h)
a_non_zero (some zero) h = absurd (cc h)
a_non_zero (some (suc n)) h = (suc n, (refl, λ e. omega (arith, e)))

passes-IsValue : (type : CustomParameterType) (v : Bytes) → passes type v ≡ true → IsValue type v
unfolding passes
passes-IsValue CustomParameterType.string v h = elim (Bool-cases (contains 0 v)) [
  | inl e ↦ absurd (cc (rw e at h))
  | inr e ↦ contains-All 0 v e
]
passes-IsValue CustomParameterType.filename v h = is_proper_filename-IsFilename v h
passes-IsValue CustomParameterType.dirname v h = is_proper_dirname-IsFilename v h
passes-IsValue CustomParameterType.bool v h = elim (Bool-cases (same v (codes "0"))) [
  | inl e ↦ inl ((same_iff v (codes "0")).0 e)
  | inr e ↦ inr ((same_iff v (codes "1")).0 (rw e at h))
]
passes-IsValue CustomParameterType.non_zero_u32 v h = a_non_zero (parse_uint u32_max v) h
passes-IsValue CustomParameterType.u32 v h = a_number (parse_uint u32_max v) h

pub checked_from-IsValue :
    (type : CustomParameterType) (v : Bytes) (x : CustomParameterValue)
    → checked_from type v ≡ some x
    → (x ≡ record { type = type; value = v }) × IsValue type v
unfolding checked_from
checked_from-IsValue type v x h = elim (Bool-cases (passes type v)) [
  | inl e ↦ (cc (rw e at h), passes-IsValue type v e)
  | inr e ↦ absurd (cc (rw e at h))
]
