-- ===== src/Prelude/Hoare.antt =====
-- What an action guarantees of the states in which it ends.
use mathlib.Core.Bool.{Bool, true, false}
use evobench.Prelude.Tests.{if◌then◌else◌}
use evobench.Prelude.Outcome.{
  Outcome, ok, err, panic, Act, pure, fail, map_err, map_err_at, resume, ◌>>=◌,
}

-- `Post` of the result and the state after a success, `Bad` of the state after an error or a panic.
abbrev pub Ends {ℓ} : {S E A : Type ℓ} → (A → S → Type ℓ) → (S → Type ℓ) → Outcome E A × S → Type ℓ
Ends Post Bad (ok a, s) = Post a s
Ends Post Bad (err e, s) = Bad s
Ends Post Bad (panic, s) = Bad s

pub record Triple {ℓ} {S E A : Type ℓ} (Pre : S → Type ℓ) (m : Act S E A) (Post : A → S → Type ℓ)
    (Bad : S → Type ℓ) : Type ℓ where
  pub at : (s : S) → Pre s → Ends Post Bad (m s)

module _ {ℓ} {S E A B : Type ℓ} {Mid : A → S → Type ℓ} {Post : B → S → Type ℓ} {Bad : S → Type ℓ}
    (f : A → Act S E B) (k : (a : A) → Triple (Mid a) (f a) Post Bad) where
  resume-Ends : (r : Outcome E A) (s : S) → Ends Mid Bad (r, s) → Ends Post Bad (resume r f s)
  resume-Ends (ok a) s h = (k a).at s h
  resume-Ends (err e) s h = h
  resume-Ends panic s h = h

  pub Triple-bind :
      {Pre : S → Type ℓ} (m : Act S E A) → Triple Pre m Mid Bad → Triple Pre (m >>= f) Post Bad
  Triple-bind m h = record { at = λ s p. resume-Ends (m s).0 (m s).1 (h.at s p) }

module _ {ℓ} {S E F A : Type ℓ} (Post : A → S → Type ℓ) (Bad : S → Type ℓ) (f : E → F) where
  map_err-Ends :
      (r : Outcome E A) (s : S) → Ends Post Bad (r, s) → Ends Post Bad (map_err_at (r, s) f)
  map_err-Ends (ok a) s h = h
  map_err-Ends (err e) s h = h
  map_err-Ends panic s h = h

  pub Triple-map_err :
      {Pre : S → Type ℓ} (m : Act S E A) → Triple Pre m Post Bad → Triple Pre (map_err m f) Post Bad
  Triple-map_err m h = record { at = λ s p. map_err-Ends (m s).0 (m s).1 (h.at s p) }

module _ {ℓ} {S E A : Type ℓ} {Pre : S → Type ℓ} {Post : A → S → Type ℓ} {Bad : S → Type ℓ} where
  pub Triple-pure :
      (a : A) → ((s : S) → Pre s → Post a s) → Triple Pre (pure {S = S} {E = E} a) Post Bad
  Triple-pure a h = record { at = h }

  pub Triple-fail :
      (e : E) → ((s : S) → Pre s → Bad s) → Triple Pre (fail {S = S} {E = E} {A = A} e) Post Bad
  Triple-fail e h = record { at = h }

-- A stronger guarantee gives a weaker one.
pub Ends-mono {ℓ} :
    {S E A : Type ℓ} {Post Post' : A → S → Type ℓ} {Bad Bad' : S → Type ℓ} (x : Outcome E A × S)
    → Ends Post Bad x
    → ((a : A) (s : S) → Post a s → Post' a s)
    → ((s : S) → Bad s → Bad' s)
    → Ends Post' Bad' x
Ends-mono (ok a, s) h post bad = post a s h
Ends-mono (err e, s) h post bad = bad s h
Ends-mono (panic, s) h post bad = bad s h

pub Triple-if {ℓ} :
    {S E A : Type ℓ} {Pre : S → Type ℓ} {Post : A → S → Type ℓ} {Bad : S → Type ℓ} {m n : Act S E A}
    (b : Bool)
    → Triple Pre m Post Bad
    → Triple Pre n Post Bad
    → Triple Pre (if b then m else n) Post Bad
Triple-if true hm hn = hm
Triple-if false hm hn = hn

-- Of any action, that it ends in some way.
pub Ends-any : {S E A : Type 0} (r : Outcome E A × S) → Ends (λ _ _. Unit) (λ _. Unit) r
Ends-any (ok a, s) = tt
Ends-any (err e, s) = tt
Ends-any (panic, s) = tt

pub Triple-any :
    {S E A : Type 0} {Pre : S → Type 0} (m : Act S E A) → Triple Pre m (λ _ _. Unit) (λ _. Unit)
Triple-any m = record { at = λ s h. Ends-any (m s) }

-- Two guarantees of the same action.
pub Ends-both :
    {S E A : Type 0} (Post Post' : A → S → Type 0) (Bad : S → Type 0) (x : Outcome E A × S)
    → Ends Post Bad x
    → Ends Post' (λ _. Unit) x
    → Ends (λ a s. Post a s × Post' a s) Bad x
Ends-both Post Post' Bad (ok a, s) h h' = (h, h')
Ends-both Post Post' Bad (err e, s) h h' = h
Ends-both Post Post' Bad (panic, s) h h' = h
