-- ===== src/Prelude/Outcome.antt =====
-- Results of fallible code, and actions that change a state. A Rust function that returns a `Result`
-- ends in `ok`, in `err`, or, where it panics, in `panic`; what it wrote before stays written.
use mathlib.Core.Option.{Option, none, some}

pub data Outcome {ℓ} (E : Type ℓ) (A : Type ℓ) : Type ℓ where
  ok : A → Outcome E A
  err : E → Outcome E A
  panic : Outcome E A

-- An action on states `S`.
abbrev pub Act {ℓ} : Type ℓ → Type ℓ → Type ℓ → Type ℓ
Act S E A = S → Outcome E A × S

module _ {ℓ} {S E A : Type ℓ} where
  abbrev pub pure : A → Act S E A
  pure a s = (ok a, s)

  abbrev pub fail : E → Act S E A
  fail e s = (err e, s)

  abbrev pub crash : Act S E A
  crash s = (panic, s)

  abbrev pub gets : (S → A) → Act S E A
  gets f s = (ok (f s), s)

  abbrev pub lift : Outcome E A → Act S E A
  lift r s = (r, s)

  -- `.ok_or(e)`
  abbrev pub or_fail : Option A → E → Act S E A
  or_fail none e s = (err e, s)
  or_fail (some a) e s = (ok a, s)

  -- `.expect(..)` on an option
  abbrev pub or_crash : Option A → Act S E A
  or_crash none s = (panic, s)
  or_crash (some a) s = (ok a, s)

module _ {ℓ} {S E A B : Type ℓ} where
  abbrev pub resume : Outcome E A → (A → Act S E B) → Act S E B
  resume (ok a) f s = f a s
  resume (err e) f s = (err e, s)
  resume panic f s = (panic, s)

  infixl 10 ◌>>=◌ ◌>>◌
  abbrev pub ◌>>=◌ : Act S E A → (A → Act S E B) → Act S E B
  ◌>>=◌ m f s = resume (m s).0 f (m s).1

  abbrev pub ◌>>◌ : Act S E A → Act S E B → Act S E B
  m >> n = m >>= λ _. n

module _ {ℓ} {S E F A : Type ℓ} where
  abbrev pub map_err_at : Outcome E A × S → (E → F) → Outcome F A × S
  map_err_at (ok a, s) f = (ok a, s)
  map_err_at (err e, s) f = (err (f e), s)
  map_err_at (panic, s) f = (panic, s)

  -- `.map_err(f)`
  abbrev pub map_err : Act S E A → (E → F) → Act S F A
  map_err m f s = map_err_at (m s) f
