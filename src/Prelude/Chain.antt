-- ===== src/Prelude/Chain.antt =====
-- Chains of calls that give an option: `?` on an option, and `.ok()?`.
use mathlib.Core.Option.{Option, none, some}

infixl 5 ◌>>=◌
abbrev pub ◌>>=◌ {ℓ} : {A : Type 0} {B : Type ℓ} → Option A → (A → Option B) → Option B
none >>= f = none
some a >>= f = f a
