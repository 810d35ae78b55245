-- ===== src/Prelude/Local/Cases.antt =====
-- Following an action step by step, with what failed where it fails. `Q` is asked of the outcome and the state at once.
use mathlib.Core.Option.{Option, none, some}
use mathlib.Core.Path.{◌≡◌, refl}
use evobench.Prelude.Outcome.{
  Outcome, ok, err, panic, Act, map_err, map_err_at, resume, or_fail, ◌>>=◌,
}
use evobench.Prelude.Local.{outside}

abbrev pub Failed : {E A : Type 0} → Outcome E A → Type 0
Failed (ok a) = ⊥
Failed (err e) = Unit
Failed panic = Unit

module _ {S E A B : Type 0} (Q : Outcome E B × S → Type 0) (f : A → Act S E B) where
  resume-cases :
      (x : Outcome E A × S)
      → ((o : Outcome E B) → Failed x.0 → Failed o → Q (o, x.1))
      → ((a : A) (s : S) → x ≡ (ok a, s) → Q (f a s))
      → Q (resume x.0 f x.1)
  resume-cases (ok a, s) bad k = k a s refl
  resume-cases (err e, s) bad k = bad (err e) tt tt
  resume-cases (panic, s) bad k = bad panic tt tt

  pub bind-cases :
      (m : Act S E A) (s : S)
      → ((o : Outcome E B) → Failed (m s).0 → Failed o → Q (o, (m s).1))
      → ((a : A) (s' : S) → m s ≡ (ok a, s') → Q (f a s'))
      → Q ((m >>= f) s)
  bind-cases m s bad k = resume-cases (m s) bad k

  pub or_fail-cases :
      (o : Option A) (e : E) (s : S)
      → (o ≡ none → Q (err e, s))
      → ((a : A) → o ≡ some a → Q (f a s))
      → Q ((or_fail o e >>= f) s)
  or_fail-cases none e s bad k = bad refl
  or_fail-cases (some a) e s bad k = k a refl

module _ {S W E F A B : Type 0} (Q : Outcome F B × (S × W) → Type 0) (f : A → Act (S × W) F B) where
  resume_call-cases :
      (x : Outcome E A × W) (g : E → F) (s : S)
      → ((o : Outcome F B) (w' : W) → Failed x.0 → Failed o → Q (o, (s, w')))
      → ((a : A) (w' : W) → x ≡ (ok a, w') → Q (f a (s, w')))
      → Q (resume (map_err_at x g).0 f (s, (map_err_at x g).1))
  resume_call-cases (ok a, w') g s bad k = k a w' refl
  resume_call-cases (err e, w') g s bad k = bad (err (g e)) w' tt tt
  resume_call-cases (panic, w') g s bad k = bad panic w' tt tt

  -- A step outside, which leaves the object as it is.
  pub call-cases :
      (m : Act W E A) (g : E → F) (s : S) (w : W)
      → ((o : Outcome F B) (w' : W) → Failed (m w).0 → Failed o → Q (o, (s, w')))
      → ((a : A) (w' : W) → m w ≡ (ok a, w') → Q (f a (s, w')))
      → Q ((outside (map_err m g) >>= f) (s, w))
  call-cases m g s w bad k = resume_call-cases (m w) g s bad k

module _ {S W E F A : Type 0} (Q : Outcome F A × (S × W) → Type 0) where
  last_call-at :
      (x : Outcome E A × W) (g : E → F) (s : S)
      → ((o : Outcome F A) (w' : W) → Failed x.0 → Failed o → Q (o, (s, w')))
      → ((a : A) (w' : W) → x ≡ (ok a, w') → Q (ok a, (s, w')))
      → Q ((map_err_at x g).0, (s, (map_err_at x g).1))
  last_call-at (ok a, w') g s bad k = k a w' refl
  last_call-at (err e, w') g s bad k = bad (err (g e)) w' tt tt
  last_call-at (panic, w') g s bad k = bad panic w' tt tt

  pub last_call-cases :
      (m : Act W E A) (g : E → F) (s : S) (w : W)
      → ((o : Outcome F A) (w' : W) → Failed (m w).0 → Failed o → Q (o, (s, w')))
      → ((a : A) (w' : W) → m w ≡ (ok a, w') → Q (ok a, (s, w')))
      → Q (outside (map_err m g) (s, w))
  last_call-cases m g s w bad k = last_call-at (m w) g s bad k
