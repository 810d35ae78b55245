-- ===== src/Run/Priority.antt =====
-- Priorities, evobench-tools/src/serde_types/priority.rs: an `f64` that is not a NaN.
pub mod Least
use Prim.Native.Nat.{Ordering}
use evobench.Prelude.{Option, none, some, List, [], ◌∷◌}
use evobench.Prelude.Outcome.{Outcome, ok, panic}
use evobench.Run.Float.{Float64}

module _ (f64 : Float64) where
  open f64 use {F, partial_cmp, plus, negate, zero_f, one_f, minus_one_f, some_number_f}

  abbrev pub Priority : Type 0
  Priority = F

  checked : Option Ordering → F → Option Priority
  checked none value = none
  checked (some o) value = some value

  -- `none` is the error `NonComparableNumber`.
  unfoldable pub new : F → Option Priority
  unfolding checked
  new value = checked (partial_cmp value some_number_f) value

  abbrev pub high : Priority
  high = one_f

  abbrev pub normal : Priority
  normal = zero_f

  abbrev pub low : Priority
  low = minus_one_f

  unfoldable pub add : Priority → Priority → Option Priority
  add a b = new (plus a b)

  -- `impl Default`
  abbrev pub default : Priority
  default = zero_f

  unfoldable pub neg : Priority → Priority
  neg a = negate a

  module _ {E A : Type 0} (key : A → Priority) where
    -- One comparison of `min_by_key`: `cmp` panics if there is no answer, and the element that came
    -- first is kept unless the next one is smaller.
    min_from : A → List A → Outcome E A
    min_from best [] = ok best
    min_from best (x ∷ xs) = elim (partial_cmp (key best) (key x)) [
      | none ↦ panic
      | some o ↦ elim o [
        | Ordering.lt ↦ min_from best xs
        | Ordering.eq ↦ min_from best xs
        | Ordering.gt ↦ min_from x xs
      ]
    ]

    some_of : Outcome E A → Outcome E (Option A)
    some_of (ok a) = ok (some a)
    some_of (Outcome.err e) = Outcome.err e
    some_of panic = panic

    -- `Iterator::min_by_key`
    unfoldable pub min_by_key : List A → Outcome E (Option A)
    unfolding min_from some_of
    min_by_key [] = ok none
    min_by_key (x ∷ xs) = some_of (min_from x xs)
