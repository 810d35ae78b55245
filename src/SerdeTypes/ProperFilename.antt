-- ===== src/SerdeTypes/ProperFilename.antt =====
-- Names of files and of directories, evobench-tools/src/serde_types/proper_filename.rs and proper_dirname.rs.
use evobench.Prelude.{
  ℕ, ◌≤◌, ◌≡◌, ◌≢◌, refl, Bool, true, false, not, ◌||◌, ◌&&◌, Option, none, some, [], ◌∷◌, ltb,
  ◌==◌, if◌then◌else◌, length, All, Bool-cases, inl, inr, arith, ==_iff,
}
use evobench.Prelude.Bytes.{Bytes, codes, same, same_iff}

-- `contains` of a text, for an ASCII character.
unfoldable pub contains : ℕ → Bytes → Bool
contains c [] = false
contains c (b ∷ s) = b == c || contains c s

unfoldable pub is_proper_filename : Bytes → Bool
unfolding contains
is_proper_filename v = not (
    same v []
    || same v (codes ".")
    || same v (codes "..")
    || contains b'/' v
    || contains 10 v
    || contains 0 v
    || ltb 255 (length v))

-- What comes before the last dot.
before_last_dot : Bytes → Option Bytes
before_last_dot [] = none
before_last_dot (c ∷ s) = elim (before_last_dot s) [
  | some before ↦ some (c ∷ before)
  | none ↦ if c == b'.' then some [] else none
]

-- `Path::extension` of a path that is one proper file name: a dot in front does not count.
unfoldable pub has_extension : Bytes → Bool
unfolding before_last_dot
has_extension v =
    if same v (codes "..")
    then false
    else elim (before_last_dot v) [ none ↦ false | some [] ↦ false | some (c ∷ s) ↦ true ]

unfoldable pub is_proper_dirname : Bytes → Bool
unfolding is_proper_filename has_extension
is_proper_dirname v = is_proper_filename v && not (has_extension v)

-- One segment of a path, which is not the directory itself or the one above.
abbrev pub IsFilename : Bytes → Type 0
IsFilename v =
    (v ≢ [])
    × (v ≢ codes ".")
    × (v ≢ codes "..")
    × (length v ≤ 255)
    × (All (λ b. b ≢ b'/') v × (All (λ b. b ≢ 10) v × All (λ b. b ≢ 0) v))

pub contains-All : (c : ℕ) (s : Bytes) → contains c s ≡ false → All (λ b. b ≢ c) s
unfolding contains
contains-All c [] h = tt
contains-All c (b ∷ s) h = elim (Bool-cases (b == c)) [
  | inl e ↦ absurd (cc (rw e at h))
  | inr e ↦ (λ q. absurd (cc (e, (==_iff b c).1 q)), contains-All c s (rw e at h))
]

different : (l r : Bytes) → same l r ≡ false → l ≢ r
different l r h e = absurd (cc (h, (same_iff l r).1 e))

is_false : (a : Bool) → not a ≡ true → a ≡ false
is_false true h = absurd (cc h)
is_false false h = refl

all_false :
    (a b c d e f g : Bool)
    → not (a || b || c || d || e || f || g) ≡ true
    → (a ≡ false)
      × ((b ≡ false) × ((c ≡ false) × ((d ≡ false) × ((e ≡ false) × ((f ≡ false) × (g ≡ false))))))
all_false true b c d e f g h = absurd (cc h)
all_false false true c d e f g h = absurd (cc h)
all_false false false true d e f g h = absurd (cc h)
all_false false false false true e f g h = absurd (cc h)
all_false false false false false true f g h = absurd (cc h)
all_false false false false false false true g h = absurd (cc h)
all_false false false false false false false true h = absurd (cc h)
all_false false false false false false false false h =
    (refl, (refl, (refl, (refl, (refl, (refl, refl))))))

pub is_proper_filename-IsFilename : (v : Bytes) → is_proper_filename v ≡ true → IsFilename v
unfolding is_proper_filename
is_proper_filename-IsFilename v h =
    let (a1, (a2, (a3, (a4, (a5, (a6, a7)))))) =
      all_false (same v []) (same v (codes ".")) (same v (codes "..")) (contains b'/' v)
        (contains 10 v) (contains 0 v) (ltb 255 (length v)) h in
    (
      different v [] a1,
      different v (codes ".") a2,
      different v (codes "..") a3,
      ground (arith, a7),
      (contains-All b'/' v a4, (contains-All 10 v a5, contains-All 0 v a6)),
    )

and_true : (a b : Bool) → (a && b) ≡ true → (a ≡ true) × (b ≡ true)
and_true true b h = (refl, h)
and_true false b h = absurd (cc h)

pub is_proper_dirname-IsFilename :
    (v : Bytes) → is_proper_dirname v ≡ true → IsFilename v × (has_extension v ≡ false)
unfolding is_proper_dirname
is_proper_dirname-IsFilename v h =
    let (file, ext) = and_true _ _ h in (is_proper_filename-IsFilename v file, is_false _ ext)
