-- ===== src/Prelude/Local/Steps.antt =====
-- Following an action step by step: what the rest guarantees after a step that succeeded, at the state
-- that the step leaves.
use mathlib.Core.Bool.{Bool, true, false}
use mathlib.Core.Option.{Option, none, some}
use mathlib.Core.Path.{◌≡◌, refl}
use evobench.Prelude.Tests.{if◌then◌else◌}
use evobench.Prelude.Outcome.{
  Outcome, ok, err, panic, Act, pure, map_err, map_err_at, resume, or_fail, or_crash, ◌>>=◌,
}
use evobench.Prelude.Local.{outside, zoom}
use evobench.Prelude.Hoare.{Ends}

module _ {S E A B : Type 0} (Post : B → S → Type 0) (Bad : S → Type 0) where
  bind_at :
      (Mid : A → S → Type 0) (f : A → Act S E B) (x : Outcome E A × S)
      → Ends Mid Bad x
      → ((a : A) (s : S) → Mid a s → Ends Post Bad (f a s))
      → Ends Post Bad (resume x.0 f x.1)
  bind_at Mid f (ok a, s) h k = k a s h
  bind_at Mid f (err e, s) h k = h
  bind_at Mid f (panic, s) h k = h

  pub bind-Ends :
      (Mid : A → S → Type 0) (m : Act S E A) (f : A → Act S E B) (s : S)
      → Ends Mid Bad (m s)
      → ((a : A) (s : S) → Mid a s → Ends Post Bad (f a s))
      → Ends Post Bad ((m >>= f) s)
  bind-Ends Mid m f s h k = bind_at Mid f (m s) h k

  pub or_fail-bind :
      (f : A → Act S E B) (o : Option A) (e : E) (s : S)
      → Bad s
      → ((a : A) → o ≡ some a → Ends Post Bad (f a s))
      → Ends Post Bad ((or_fail o e >>= f) s)
  or_fail-bind f none e s bad k = bad
  or_fail-bind f (some a) e s bad k = k a refl

  pub or_crash-bind :
      (f : A → Act S E B) (o : Option A) (s : S)
      → Bad s
      → ((a : A) → o ≡ some a → Ends Post Bad (f a s))
      → Ends Post Bad ((or_crash o >>= f) s)
  or_crash-bind f none s bad k = bad
  or_crash-bind f (some a) s bad k = k a refl

  pub if-bind :
      (f : A → Act S E B) (b : Bool) (m n : Act S E A) (s : S)
      → (b ≡ true → Ends Post Bad ((m >>= f) s))
      → (b ≡ false → Ends Post Bad ((n >>= f) s))
      → Ends Post Bad (((if b then m else n) >>= f) s)
  if-bind f true m n s if_so if_not = if_so refl
  if-bind f false m n s if_so if_not = if_not refl

pub if-Ends :
    {S E A : Type 0} (Post : A → S → Type 0) (Bad : S → Type 0) (b : Bool) (m n : Act S E A) (s : S)
    → (b ≡ true → Ends Post Bad (m s))
    → (b ≡ false → Ends Post Bad (n s))
    → Ends Post Bad ((if b then m else n) s)
if-Ends Post Bad true m n s if_so if_not = if_so refl
if-Ends Post Bad false m n s if_so if_not = if_not refl

module _ {S W E F A B : Type 0} (Post : B → S × W → Type 0) (Bad : S × W → Type 0) where
  resume_call :
      (x : Outcome E A × W) (g : E → F) (f : A → Act (S × W) F B) (s : S)
      → ((w' : W) → Bad (s, w'))
      → ((a : A) (w' : W) → x ≡ (ok a, w') → Ends Post Bad (f a (s, w')))
      → Ends Post Bad (resume (map_err_at x g).0 f (s, (map_err_at x g).1))
  resume_call (ok a, w') g f s bad k = k a w' refl
  resume_call (err e, w') g f s bad k = bad w'
  resume_call (panic, w') g f s bad k = bad w'

  -- A step outside: the object stays as it is, and the step gave a value.
  pub call-bind :
      (m : Act W E A) (g : E → F) (f : A → Act (S × W) F B) (s : S) (w : W)
      → ((w' : W) → Bad (s, w'))
      → ((a : A) (w' : W) → m w ≡ (ok a, w') → Ends Post Bad (f a (s, w')))
      → Ends Post Bad ((outside (map_err m g) >>= f) (s, w))
  call-bind m g f s w bad k = resume_call (m w) g f s bad k

module _ {S W E F A B C : Type 0} (Post : B → S × W → Type 0) (Bad : S × W → Type 0) where
  resume-pure :
      (x : Outcome E A × W) (g : E → F) (h : A → C) (f : C → Act (S × W) F B) (s : S)
      → ((w' : W) → Bad (s, w'))
      → ((a : A) (w' : W) → x ≡ (ok a, w') → Ends Post Bad (f (h a) (s, w')))
      → Ends Post Bad (
          resume
            (resume {S = S × W} (map_err_at x g).0 (λ a. pure (h a)) (s, (map_err_at x g).1)).0
            f
            (resume {S = S × W} (map_err_at x g).0 (λ a. pure (h a)) (s, (map_err_at x g).1)).1)
  resume-pure (ok a, w') g h f s bad k = k a w' refl
  resume-pure (err e, w') g h f s bad k = bad w'
  resume-pure (panic, w') g h f s bad k = bad w'

  -- A step outside, whose value is made into another.
  pub call_pure-bind :
      (m : Act W E A) (g : E → F) (h : A → C) (f : C → Act (S × W) F B) (s : S) (w : W)
      → ((w' : W) → Bad (s, w'))
      → ((a : A) (w' : W) → m w ≡ (ok a, w') → Ends Post Bad (f (h a) (s, w')))
      → Ends Post Bad (((outside (map_err m g) >>= λ a. pure (h a)) >>= f) (s, w))
  call_pure-bind m g h f s w bad k = resume-pure (m w) g h f s bad k

module _ {S W F A B : Type 0} (Post : B → S × W → Type 0) (Bad : S × W → Type 0) where
  resume_outside :
      (x : Outcome F A × W) (f : A → Act (S × W) F B) (s : S)
      → ((w' : W) → Bad (s, w'))
      → ((a : A) (w' : W) → Ends Post Bad (f a (s, w')))
      → Ends Post Bad (resume x.0 f (s, x.1))
  resume_outside (ok a, w') f s bad k = k a w'
  resume_outside (err e, w') f s bad k = bad w'
  resume_outside (panic, w') f s bad k = bad w'

  pub outside-bind :
      (m : Act W F A) (f : A → Act (S × W) F B) (s : S) (w : W)
      → ((w' : W) → Bad (s, w'))
      → ((a : A) (w' : W) → Ends Post Bad (f a (s, w')))
      → Ends Post Bad ((outside m >>= f) (s, w))
  outside-bind m f s w bad k = resume_outside (m w) f s bad k

  -- A step of a part.
  resume_zoom :
      {T : Type 0} (Mid : A → T × W → Type 0) (Worse : T × W → Type 0) (put_back : T → S → S)
      (f : A → Act (S × W) F B) (s : S) (x : Outcome F A × (T × W))
      → Ends Mid Worse x
      → ((a : A) (t : T) (w' : W) → Mid a (t, w') → Ends Post Bad (f a (put_back t s, w')))
      → ((t : T) (w' : W) → Worse (t, w') → Bad (put_back t s, w'))
      → Ends Post Bad (resume x.0 f (put_back x.1.0 s, x.1.1))
  resume_zoom Mid Worse put_back f s (ok a, (t, w')) h k bad = k a t w' h
  resume_zoom Mid Worse put_back f s (err e, (t, w')) h k bad = bad t w' h
  resume_zoom Mid Worse put_back f s (panic, (t, w')) h k bad = bad t w' h

  pub zoom-bind :
      {T : Type 0} (Mid : A → T × W → Type 0) (Worse : T × W → Type 0) (part : T)
      (put_back : T → S → S) (m : Act (T × W) F A) (f : A → Act (S × W) F B) (s : S) (w : W)
      → Ends Mid Worse (m (part, w))
      → ((a : A) (t : T) (w' : W) → Mid a (t, w') → Ends Post Bad (f a (put_back t s, w')))
      → ((t : T) (w' : W) → Worse (t, w') → Bad (put_back t s, w'))
      → Ends Post Bad ((zoom part put_back m >>= f) (s, w))
  zoom-bind Mid Worse part put_back m f s w h k bad =
      resume_zoom Mid Worse put_back f s (m (part, w)) h k bad

module _ {S W E F A : Type 0} (Post : A → S × W → Type 0) (Bad : S × W → Type 0) where
  call_at :
      (x : Outcome E A × W) (g : E → F) (s : S)
      → ((w' : W) → Bad (s, w'))
      → ((a : A) (w' : W) → x ≡ (ok a, w') → Post a (s, w'))
      → Ends Post Bad ((map_err_at x g).0, (s, (map_err_at x g).1))
  call_at (ok a, w') g s bad k = k a w' refl
  call_at (err e, w') g s bad k = bad w'
  call_at (panic, w') g s bad k = bad w'

  -- A last step outside.
  pub call-Ends :
      (m : Act W E A) (g : E → F) (s : S) (w : W)
      → ((w' : W) → Bad (s, w'))
      → ((a : A) (w' : W) → m w ≡ (ok a, w') → Post a (s, w'))
      → Ends Post Bad (outside (map_err m g) (s, w))
  call-Ends m g s w bad k = call_at (m w) g s bad k

module _ {S W F A : Type 0} (Post : A → S × W → Type 0) (Bad : S × W → Type 0) where
  zoom_at :
      {T : Type 0} (Mid : A → T × W → Type 0) (Worse : T × W → Type 0) (put_back : T → S → S)
      (s : S) (x : Outcome F A × (T × W))
      → Ends Mid Worse x
      → ((a : A) (t : T) (w' : W) → Mid a (t, w') → Post a (put_back t s, w'))
      → ((t : T) (w' : W) → Worse (t, w') → Bad (put_back t s, w'))
      → Ends Post Bad (x.0, (put_back x.1.0 s, x.1.1))
  zoom_at Mid Worse put_back s (ok a, (t, w')) h k bad = k a t w' h
  zoom_at Mid Worse put_back s (err e, (t, w')) h k bad = bad t w' h
  zoom_at Mid Worse put_back s (panic, (t, w')) h k bad = bad t w' h

  pub zoom-Ends :
      {T : Type 0} (Mid : A → T × W → Type 0) (Worse : T × W → Type 0) (part : T)
      (put_back : T → S → S) (m : Act (T × W) F A) (s : S) (w : W)
      → Ends Mid Worse (m (part, w))
      → ((a : A) (t : T) (w' : W) → Mid a (t, w') → Post a (put_back t s, w'))
      → ((t : T) (w' : W) → Worse (t, w') → Bad (put_back t s, w'))
      → Ends Post Bad (zoom part put_back m (s, w))
  zoom-Ends Mid Worse part put_back m s w h k bad =
      zoom_at Mid Worse put_back s (m (part, w)) h k bad
