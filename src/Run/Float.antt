-- ===== src/Run/Float.antt =====
-- The type `f64` as an interface: its comparison, which has no answer for a NaN, and the operations
-- that priorities use. The laws are those of IEEE 754.
use Prim.Native.Nat.{Ordering}
use evobench.Prelude.{◌≡◌, ◌≢◌, Option, some}

pub record Float64 : Type 1 where
  pub F : Type 0
  pub partial_cmp : F → F → Option Ordering
  pub plus : F → F → F
  pub negate : F → F
  pub zero_f : F
  pub one_f : F
  pub minus_one_f : F
  pub one_and_half_f : F
  -- the constant 1.23
  pub some_number_f : F

abbrev pub flip : Ordering → Ordering
flip Ordering.lt = Ordering.gt
flip Ordering.eq = Ordering.eq
flip Ordering.gt = Ordering.lt

module _ (f64 : Float64) where
  open f64 use {F, partial_cmp, negate, some_number_f}

  -- Not a NaN: comparable with a number.
  abbrev pub IsNumber : F → Type 0
  IsNumber x = (o : Ordering) × (partial_cmp x some_number_f ≡ some o)

  -- The numbers are totally ordered, and negation turns the order round.
  pub record IsOrdered : Type 0 where
    pub total : (x y : F) → IsNumber x → IsNumber y → (o : Ordering) × (partial_cmp x y ≡ some o)
    pub self_eq : (x : F) → IsNumber x → partial_cmp x x ≡ some Ordering.eq
    -- "less or equal" is transitive
    pub le_trans :
        (x y z : F)
        → IsNumber x
        → IsNumber y
        → IsNumber z
        → partial_cmp x y ≢ some Ordering.gt
        → partial_cmp y z ≢ some Ordering.gt
        → partial_cmp x z ≢ some Ordering.gt
    pub converse :
        (x y : F) (o : Ordering) → partial_cmp x y ≡ some o → partial_cmp y x ≡ some (flip o)
    pub negate_IsNumber : (x : F) → IsNumber x → IsNumber (negate x)
    pub negate_cmp :
        (x y : F) → IsNumber x → IsNumber y → partial_cmp (negate x) (negate y) ≡ partial_cmp y x
