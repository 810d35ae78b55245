-- ===== src/Prelude/Bytes.antt =====
-- Texts as lists of bytes, with their equality as a Boolean test.
use Prim.Native.Char.{code}
use Prim.Native.String.{String}
use Prim.Native.Nat.{ℕ}
use mathlib.Core.Path.{◌≡◌, refl}
use mathlib.Core.Logic.{◌↔◌}
use mathlib.Core.Bool.{Bool, true, false, ◌&&◌}
use mathlib.Core.List.{List, [], ◌∷◌}
use native.Mathlib.Omega.{arith}
use evobench.Prelude.Tests.{◌==◌}

abbrev pub Bytes : Type 0
Bytes = List ℕ

-- The bytes of an ASCII text.
abbrev pub codes : String → Bytes
codes String.[] = []
codes (String.◌∷◌ c s) = code c ∷ codes s

unfoldable pub same : Bytes → Bytes → Bool
same [] [] = true
same [] (b ∷ r) = false
same (a ∷ l) [] = false
same (a ∷ l) (b ∷ r) = a == b && same l r

same-eq : (l r : Bytes) → same l r ≡ true → l ≡ r
unfolding same
same-eq [] [] h = refl
same-eq [] (b ∷ r) h = cc
same-eq (a ∷ l) [] h = cc
same-eq (a ∷ l) (b ∷ r) h = ground (arith, same-eq l r)

pub same_refl : (l : Bytes) → same l l ≡ true
unfolding same
same_refl [] = refl
same_refl (a ∷ l) = ground (arith, same_refl l)

pub same_sym : (l r : Bytes) → same l r ≡ same r l
unfolding same
same_sym [] [] = refl
same_sym [] (b ∷ r) = refl
same_sym (a ∷ l) [] = refl
same_sym (a ∷ l) (b ∷ r) = ground (arith, same_sym l r)

pub same_iff : (l r : Bytes) → (same l r ≡ true) ↔ (l ≡ r)
same_iff l r = (same-eq l r, λ e. rw (← e) (same_refl l))
