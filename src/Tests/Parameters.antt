-- ===== src/Tests/Parameters.antt =====
-- The theorem on custom parameters at a concrete input.
use evobench.Prelude.{refl, true, false, List, [], ◌∷◌}
use evobench.Prelude.Bytes.{Bytes, codes, same}
use evobench.Prelude.Decimal.{parse_uint}
use evobench.SerdeTypes.AllowedEnvVar
use evobench.SerdeTypes.ProperFilename.{is_proper_dirname}
use evobench.Run.CustomParameter
use evobench.Run.CustomParameter.{
  CustomParameterType, AllowedCustomParameter, CustomParameterValue, u32_max,
}
use evobench.Run.CustomParameters.{checked_from, checked_from_lem, AreChecked, AreGiven}

abbrev required : List (Bytes × AllowedCustomParameter)
required =
    (codes "DATASET", record { required = true; type = CustomParameterType.dirname })
    ∷ (codes "THREADS", record { required = false; type = CustomParameterType.non_zero_u32 })
    ∷ []

abbrev keyvals : List (Bytes × Bytes)
keyvals = (codes "DATASET", codes "sars") ∷ (codes "THREADS", codes "8") ∷ []

abbrev values : List (Bytes × CustomParameterValue)
values =
    (codes "DATASET", record { type = CustomParameterType.dirname; value = codes "sars" })
    ∷ (codes "THREADS", record { type = CustomParameterType.non_zero_u32; value = codes "8" })
    ∷ []

checked_from_lem_example : AreChecked required keyvals values × AreGiven required values
unfolding checked_from AllowedEnvVar.from_str same CustomParameter.checked_from is_proper_dirname
    parse_uint
checked_from_lem_example = checked_from_lem keyvals required values refl
