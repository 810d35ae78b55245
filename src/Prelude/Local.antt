-- ===== src/Prelude/Local.antt =====
-- Actions of an object in memory: its own state stands beside the world that other programs share.
pub mod Cases
pub mod Steps
use evobench.Prelude.Outcome.{ok, Act}

module _ {W E : Type 0} where
  -- What happens in the world leaves the object as it is.
  abbrev pub outside : {S A : Type 0} → Act W E A → Act (S × W) E A
  outside m (s, w) = let r = m w in (r.0, (s, r.1))

  abbrev pub get : {S : Type 0} → Act (S × W) E S
  get (s, w) = (ok s, (s, w))

  abbrev pub modify : {S : Type 0} → (S → S) → Act (S × W) E (Unit {0})
  modify f (s, w) = (ok tt, (f s, w))

  -- A method of a part of the object: the part as it is afterwards is put back.
  abbrev pub zoom : {S T A : Type 0} → T → (T → S → S) → Act (T × W) E A → Act (S × W) E A
  zoom part put_back m (s, w) = let r = m (part, w) in (r.0, (put_back r.1.0 s, r.1.1))
