-- ===== src/Prelude/Grouped.antt =====
-- The digits of a number in groups of three, counted from the lowest one or, after the dot, from the highest one.
use Prim.Native.Nat.{◌%◌}
use mathlib.Core.List.{[], ◌∷◌}
use evobench.Prelude.Tests.{◌==◌, if◌then◌else◌}
use evobench.Prelude.Lists.{length}
use evobench.Prelude.Bytes.{Bytes}

-- An underscore stands wherever the number of digits that follow is a multiple of three.
abbrev pub grouped : Bytes → Bytes
grouped [] = []
grouped (d ∷ []) = d ∷ []
grouped (d ∷ e ∷ ds) =
    if length (e ∷ ds) % 3 == 0 then d ∷ b'_' ∷ grouped (e ∷ ds) else d ∷ grouped (e ∷ ds)

-- An underscore stands after each three digits that are not the last ones.
abbrev pub grouped_after : Bytes → Bytes
grouped_after (a ∷ b ∷ c ∷ d ∷ ds) = a ∷ b ∷ c ∷ b'_' ∷ grouped_after (d ∷ ds)
grouped_after ds = ds
