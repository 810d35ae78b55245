-- ===== src/SerdeTypes/AllowedEnvVar.antt =====
-- Names of environment variables, evobench-tools/src/serde_types/allowed_env_var.rs, with the names that are allowed for
-- custom parameters, evobench-tools/src/run/env_vars.rs.
use evobench.Prelude.{
  ℕ, ◌≤◌, ◌≡◌, ◌≢◌, Bool, true, false, not, ◌||◌, Option, none, some, List, [], ◌∷◌, ltb,
  if◌then◌else◌, length, All, Bool-cases, inl, inr, arith,
}
use evobench.Prelude.Bytes.{Bytes, codes, same}
use evobench.SerdeTypes.ProperFilename.{contains, contains-All}

-- The trait.
pub record AllowEnvVar : Type 0 where
  pub max_env_var_name_len : ℕ
  pub allow_env_var : Bytes → Bool

abbrev pub evobench_env_vars : List Bytes
evobench_env_vars =
    codes "EVOBENCH_LOG"
    ∷ codes "BENCH_OUTPUT_LOG"
    ∷ codes "COMMIT_ID"
    ∷ codes "COMMIT_TAGS"
    ∷ codes "DATASET_DIR"
    ∷ []

abbrev pub one_of : List Bytes → Bytes → Bool
one_of [] s = false
one_of (name ∷ names) s = same name s || one_of names s

abbrev pub allowable_custom_env_var : AllowEnvVar
allowable_custom_env_var = record {
  max_env_var_name_len = 80;
  allow_env_var = λ s. not (one_of evobench_env_vars s);
}

-- `FromStr`
unfoldable pub from_str : AllowEnvVar → Bytes → Option Bytes
unfolding contains
from_str a s =
    if contains 0 s || contains b'=' s || ltb a.max_env_var_name_len (length s)
    then none
    else (if a.allow_env_var s then some s else none)

-- A name that the operating system can take, which stands for no variable of the program.
abbrev pub IsName : AllowEnvVar → Bytes → Type 0
IsName a s =
    All (λ b. b ≢ 0) s
    × (All (λ b. b ≢ b'=') s × ((length s ≤ a.max_env_var_name_len) × (a.allow_env_var s ≡ true)))

pub from_str-IsName :
    (a : AllowEnvVar) (s name : Bytes) → from_str a s ≡ some name → (name ≡ s) × IsName a s
unfolding from_str
from_str-IsName a s name h = elim (Bool-cases (contains 0 s)) [
  | inl e ↦ absurd (cc (rw e at h))
  | inr e ↦ elim (Bool-cases (contains b'=' s)) [
    | inl f ↦ absurd (cc (rw (e, f) at h))
    | inr f ↦ elim (Bool-cases (ltb a.max_env_var_name_len (length s))) [
      | inl g ↦ absurd (cc (rw (e, f, g) at h))
      | inr g ↦ elim (Bool-cases (a.allow_env_var s)) [
        | inl k ↦ (
          cc (rw (e, f, g, k) at h),
          (contains-All 0 s e, (contains-All b'=' s f, (ground (arith, g), k))),
        )
        | inr k ↦ absurd (cc (rw (e, f, g, k) at h))
      ]
    ]
  ]
]
