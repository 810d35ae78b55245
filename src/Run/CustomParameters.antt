-- ===== src/Run/CustomParameters.antt =====
-- The checked custom parameters of a job: `CustomParameters::checked_from` of evobench-tools/src/run/key.rs. A BTreeMap is
-- the list of its entries in the order of their keys, so what is inserted in that order comes last.
use evobench.Prelude.{
  ◌≡◌, refl, sym, ap, ◌∙◌, inl, inr, Bool, true, false, ◌||◌, Option, none, some, List, [], ◌∷◌,
  ◌++◌, if◌then◌else◌, Bool-cases, Option-cases,
}
use mathlib.Core.List.{append_assoc, append-nil}
use mathlib.Core.Path.{subst}
use evobench.Prelude.Bytes.{Bytes, same}
use evobench.Prelude.Outcome.{Outcome, ok, err, panic}
use evobench.SerdeTypes.AllowedEnvVar
use evobench.SerdeTypes.AllowedEnvVar.{allowable_custom_env_var, IsName, from_str-IsName}
use evobench.Run.CustomParameter
use evobench.Run.CustomParameter.{
  AllowedCustomParameter, CustomParameterValue, IsValue, checked_from-IsValue,
}

pub data ParameterError : Type 0 where
  duplicated bad_name bad_value invalid_name missing : Bytes → ParameterError

unfoldable pub get : {A : Type 0} → Bytes → List (Bytes × A) → Option A
get key [] = none
get key ((k, a) ∷ entries) = if same k key then some a else get key entries

unfoldable pub contains_key : {A : Type 0} → Bytes → List (Bytes × A) → Bool
contains_key key [] = false
contains_key key ((k, a) ∷ entries) = same k key || contains_key key entries

-- The loop over the parameters that are given.
unfoldable pub check_given :
    List (Bytes × AllowedCustomParameter)
    → List (Bytes × Bytes)
    → List (Bytes × CustomParameterValue)
    → Outcome ParameterError (List (Bytes × CustomParameterValue))
unfolding get contains_key
check_given required [] res = ok res
check_given required ((key, value) ∷ keyvals) res = elim (contains_key key res) [
  | true ↦ err (duplicated key)
  | false ↦ elim (AllowedEnvVar.from_str allowable_custom_env_var key) [
    | none ↦ err (bad_name key)
    | some allowable_key ↦ elim (get allowable_key required) [
      | none ↦ err (invalid_name key)
      | some parameter ↦ elim (CustomParameter.checked_from parameter.type value) [
        | none ↦ err (bad_value key)
        | some val ↦ check_given required keyvals (res ++ (key, val) ∷ [])
      ]
    ]
  ]
]

-- The loop over the parameters that are allowed.
unfoldable pub check_required :
    List (Bytes × AllowedCustomParameter)
    → List (Bytes × CustomParameterValue)
    → Outcome ParameterError (List (Bytes × CustomParameterValue))
unfolding contains_key
check_required [] res = ok res
check_required ((key, parameter) ∷ required) res =
    if parameter.required
    then (if contains_key key res then check_required required res else err (missing key))
    else check_required required res

abbrev pub then_required :
    List (Bytes × AllowedCustomParameter)
    → Outcome ParameterError (List (Bytes × CustomParameterValue))
    → Outcome ParameterError (List (Bytes × CustomParameterValue))
then_required required (ok res) = check_required required res
then_required required (err e) = err e
then_required required panic = panic

unfoldable pub checked_from :
    List (Bytes × Bytes)
    → List (Bytes × AllowedCustomParameter)
    → Outcome ParameterError (List (Bytes × CustomParameterValue))
unfolding check_given check_required
checked_from keyvals required = then_required required (check_given required keyvals [])

-- Each parameter, in order, is under its name and allowed, and its value is one of the type that is required.
abbrev pub AreChecked :
    List (Bytes × AllowedCustomParameter)
    → List (Bytes × Bytes)
    → List (Bytes × CustomParameterValue)
    → Type 0
AreChecked required [] [] = Unit
AreChecked required ((key, value) ∷ keyvals) ((k, x) ∷ res) =
    ((k ≡ key)
      × (x.value ≡ value)
      × IsName allowable_custom_env_var key
      × ((parameter : AllowedCustomParameter) × (get key required ≡ some parameter)
          × (x.type ≡ parameter.type)
          × IsValue parameter.type value))
    × AreChecked required keyvals res
AreChecked required _ _ = ⊥

-- What must be given is there.
abbrev pub AreGiven :
    List (Bytes × AllowedCustomParameter) → List (Bytes × CustomParameterValue) → Type 0
AreGiven [] res = Unit
AreGiven ((key, parameter) ∷ required) res =
    (parameter.required ≡ true → contains_key key res ≡ true) × AreGiven required res

check_required_lem :
    (required : List (Bytes × AllowedCustomParameter))
    (res out : List (Bytes × CustomParameterValue))
    → check_required required res ≡ ok out
    → (out ≡ res) × AreGiven required res
unfolding check_required
check_required_lem [] res out h = (cc h, tt)
check_required_lem ((key, parameter) ∷ required) res out h = elim (Bool-cases parameter.required) [
  | inl e ↦ elim (Bool-cases (contains_key key res)) [
    | inl there ↦
        let (same_res, given) = check_required_lem required res out (rw (e, there) at h) in
        (same_res, (λ _. there, given))
    | inr not_there ↦ absurd (cc (rw (e, not_there) at h))
  ]
  | inr e ↦
      let (same_res, given) = check_required_lem required res out (rw e at h) in
      (same_res, (λ r. absurd (cc (e, r)), given))
]

module _ (required : List (Bytes × AllowedCustomParameter)) where
  abbrev Added :
      List (Bytes × Bytes)
      → List (Bytes × CustomParameterValue)
      → List (Bytes × CustomParameterValue)
      → Type 0
  Added keyvals res out =
      (new : List (Bytes × CustomParameterValue)) × (out ≡ res ++ new)
      × AreChecked required keyvals new

  one_more :
      (key value : Bytes) (x : CustomParameterValue) (keyvals : List (Bytes × Bytes))
      (res out : List (Bytes × CustomParameterValue))
      → AreChecked required ((key, value) ∷ []) ((key, x) ∷ [])
      → Added keyvals (res ++ (key, x) ∷ []) out
      → Added ((key, value) ∷ keyvals) res out
  one_more key value x keyvals res out (one, _) (new, e, checked) =
      ((key, x) ∷ new, e ∙ append_assoc res ((key, x) ∷ []) new, (one, checked))

  check_given_lem :
      (keyvals : List (Bytes × Bytes)) (res out : List (Bytes × CustomParameterValue))
      → check_given required keyvals res ≡ ok out
      → Added keyvals res out
  unfolding check_given
  check_given_lem [] res out h = ([], sym (append-nil res ∙ cc h), tt)
  check_given_lem ((key, value) ∷ keyvals) res out h = elim (Bool-cases (contains_key key res)) [
    | inl e ↦ absurd (cc (rw (check_given, e) at h))
    | inr e ↦ elim (Option-cases (AllowedEnvVar.from_str allowable_custom_env_var key)) [
      | inl f ↦ absurd (cc (rw (check_given, e, f) at h))
      | inr (name, f) ↦ elim (Option-cases (get name required)) [
        | inl g ↦ absurd (cc (rw (check_given, e, f, g) at h))
        | inr (parameter, g) ↦
            elim (Option-cases (CustomParameter.checked_from parameter.type value)) [
              | inl k ↦ absurd (cc (rw (check_given, e, f, g, k) at h))
              | inr (x, k) ↦
                  let (same_name, is_name) = from_str-IsName allowable_custom_env_var key name f in
                  let (same_x, is_value) = checked_from-IsValue parameter.type value x k in
                  let found : get key required ≡ some parameter = rw (← same_name) g in
                  one_more key value x keyvals res out
                    (
                      (
                        refl,
                        ap (λ y. y.value) same_x,
                        is_name,
                        (parameter, found, ap (λ y. y.type) same_x, is_value),
                      ),
                      tt,
                    )
                    (check_given_lem keyvals (res ++ (key, x) ∷ []) out
                      (rw (check_given, e, f, g, k) at h))
            ]
      ]
    ]
  ]

-- Where the parameters of a job are accepted, each of them, in order, is there with its value: its name is allowed in
-- the environment and by the configuration, and the value is one of the type that is configured for the name. All
-- parameters that the configuration requires are there.
pub checked_from_lem :
    (keyvals : List (Bytes × Bytes)) (required : List (Bytes × AllowedCustomParameter))
    (out : List (Bytes × CustomParameterValue))
    → checked_from keyvals required ≡ ok out
    → AreChecked required keyvals out × AreGiven required out
unfolding checked_from
checked_from_lem keyvals required out h = after_given (check_given required keyvals []) refl h
  where
    after_given :
        (r : Outcome ParameterError (List (Bytes × CustomParameterValue)))
        → check_given required keyvals [] ≡ r
        → then_required required r ≡ ok out
        → AreChecked required keyvals out × AreGiven required out
    after_given (ok res) e k =
        let (same_res, given) = check_required_lem required res out k in
        let (new, same_new, checked) = check_given_lem required keyvals [] res e in
        (
          subst (AreChecked required keyvals) (sym (same_res ∙ same_new)) checked,
          subst (AreGiven required) (sym same_res) given,
        )
    after_given (err e) q k = absurd (cc k)
    after_given panic q k = absurd (cc k)
