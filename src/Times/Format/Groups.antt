-- ===== src/Times/Format/Groups.antt =====
-- What printing does to the digits of a number.
use evobench.Prelude.{
  ℕ, ◌≡◌, refl, sym, ap, ◌∙◌, ◌+◌, ◌-◌, ◌*◌, ◌/◌, ◌%◌, ◌≤◌, zero, suc, none, some, List, [], ◌∷◌,
  ◌++◌, length, take, drop, concat, take-drop, length-take, concat-append, keep, keep-append, All,
  Bool, Bool-cases, inl, inr, length-append, leb, leb→le, ◌≢◌, ◌<◌, not, ltb, ◌==◌, if◌then◌else◌,
  arith,
}
use mathlib.Core.List.{reverse, reverse-cons, append-nil, append_assoc}
use evobench.Prelude.Bytes.{Bytes, codes}
use evobench.Prelude.Grouped.{grouped}
use evobench.Prelude.Decimal.{IsDigit, decimal}
use evobench.Times.{Time, IsTime, micros, nanos, to_usec, nano_to_nsec}
use evobench.Times.Format.{
  rchunks, join, format_integer_with_undercores, micro_to_string_ms, nano_to_string_ms, with_rest,
  padded,
}

abbrev pub no_underscore : ℕ → Bool
no_underscore c = not (c == b'_')

keep-join : (cs : List Bytes) → keep no_underscore (join cs) ≡ keep no_underscore (concat cs)
unfolding join
keep-join [] = refl
keep-join (c ∷ []) = ap (keep no_underscore) (sym (append-nil c))
keep-join (c ∷ d ∷ cs) =
    keep-append no_underscore c (b'_' ∷ join (d ∷ cs))
    ∙ ap (λ r. keep no_underscore c ++ r) (keep-join (d ∷ cs))
    ∙ sym (keep-append no_underscore c (concat (d ∷ cs)))

rchunks_step :
    (fuel x : ℕ) (xs : Bytes)
    → rchunks (suc fuel) (x ∷ xs)
      ≡ drop (length (x ∷ xs) - 3) (x ∷ xs) ∷ rchunks fuel (take (length (x ∷ xs) - 3) (x ∷ xs))
unfolding rchunks
rchunks_step fuel x xs = ground arith

concat_snoc : (cs : List Bytes) (c : Bytes) → concat (reverse (c ∷ cs)) ≡ concat (reverse cs) ++ c
concat_snoc cs c =
    ap concat (reverse-cons c cs)
    ∙ concat-append (reverse cs) (c ∷ [])
    ∙ ap (λ r. concat (reverse cs) ++ r) (append-nil c)

concat-rchunks :
    (fuel : ℕ) (xs : Bytes) → length xs ≤ fuel → concat (reverse (rchunks fuel xs)) ≡ xs
unfolding rchunks
concat-rchunks zero [] h = refl
concat-rchunks zero (x ∷ xs) h = absurd (omega arith)
concat-rchunks (suc fuel) [] h = refl
concat-rchunks (suc fuel) (x ∷ xs) h =
    let n = length (x ∷ xs) - 3 in
    rw (rchunks_step fuel x xs, concat_snoc)
      (ap (λ r. r ++ drop n (x ∷ xs))
          (concat-rchunks fuel (take n (x ∷ xs)) (omega (arith, length-take n (x ∷ xs))))
        ∙ take-drop n (x ∷ xs))

keep-digits : (ds : Bytes) → All IsDigit ds → keep no_underscore ds ≡ ds
keep-digits [] h = refl
keep-digits (d ∷ ds) h = ground (arith, keep-digits ds)

grouped_short : (c : Bytes) → length c ≤ 3 → grouped c ≡ c
grouped_short [] h = refl
grouped_short (x ∷ []) h = refl
grouped_short (x ∷ y ∷ []) h = refl
grouped_short (x ∷ y ∷ z ∷ []) h = refl
grouped_short (x ∷ y ∷ z ∷ u ∷ c) h = absurd (omega arith)

-- A group of three at the end is set apart.
grouped_three :
    (y x1 x2 x3 : ℕ) (ys : Bytes)
    → grouped ((y ∷ ys) ++ (x1 ∷ x2 ∷ x3 ∷ [])) ≡ grouped (y ∷ ys) ++ b'_' ∷ x1 ∷ x2 ∷ x3 ∷ []
grouped_three y x1 x2 x3 [] = refl
grouped_three y x1 x2 x3 (z ∷ ys) =
    let same_rest : length ((z ∷ ys) ++ (x1 ∷ x2 ∷ x3 ∷ [])) % 3 ≡ length (z ∷ ys) % 3 =
      rw (length-append (z ∷ ys) (x1 ∷ x2 ∷ x3 ∷ [])) (omega arith) in
    elim (Bool-cases (length (z ∷ ys) % 3 == 0)) [
      | inl e ↦ rw (same_rest, e) (ap (λ r. y ∷ b'_' ∷ r) (grouped_three z x1 x2 x3 ys))
      | inr e ↦ rw (same_rest, e) (ap (λ r. y ∷ r) (grouped_three z x1 x2 x3 ys))
    ]

grouped_split : (ys c : Bytes) → ys ≢ [] → length c ≡ 3 → grouped (ys ++ c) ≡ grouped ys ++ b'_' ∷ c
grouped_split [] c n h = absurd (n refl)
grouped_split (y ∷ ys) [] n h = absurd (omega (arith, h))
grouped_split (y ∷ ys) (x1 ∷ []) n h = absurd (omega (arith, h))
grouped_split (y ∷ ys) (x1 ∷ x2 ∷ []) n h = absurd (omega (arith, h))
grouped_split (y ∷ ys) (x1 ∷ x2 ∷ x3 ∷ []) n h = grouped_three y x1 x2 x3 ys
grouped_split (y ∷ ys) (x1 ∷ x2 ∷ x3 ∷ x4 ∷ c) n h = absurd (omega (arith, h))

join_snoc : (xs : List Bytes) (c : Bytes) → xs ≢ [] → join (xs ++ c ∷ []) ≡ join xs ++ b'_' ∷ c
unfolding join
join_snoc [] c n = absurd (n refl)
join_snoc (x ∷ []) c n = refl
join_snoc (x ∷ y ∷ xs) c n =
    ap (λ r. x ++ b'_' ∷ r) (join_snoc (y ∷ xs) c cc)
    ∙ sym (append_assoc x (b'_' ∷ join (y ∷ xs)) (b'_' ∷ c))

no_rchunks : (fuel : ℕ) → rchunks fuel [] ≡ []
unfolding rchunks
no_rchunks zero = refl
no_rchunks (suc fuel) = refl

length-drop : (n : ℕ) (xs : Bytes) → length (drop n xs) ≡ length xs - n
length-drop zero xs = omega arith
length-drop (suc n) [] = omega arith
length-drop (suc n) (x ∷ xs) = length-drop n xs ∙ omega arith

-- What the pieces are joined to.
grouped-rchunks :
    (fuel : ℕ) (xs : Bytes) → length xs ≤ fuel → join (reverse (rchunks fuel xs)) ≡ grouped xs
unfolding join
grouped-rchunks zero [] h = unfold rchunks in refl
grouped-rchunks zero (x ∷ xs) h = absurd (omega arith)
grouped-rchunks (suc fuel) [] h = unfold rchunks in refl
grouped-rchunks (suc fuel) (x ∷ xs) h = elim (Bool-cases (leb (length (x ∷ xs)) 3)) [
  | inl short ↦
      let small : length (x ∷ xs) ≤ 3 = leb→le _ _ short in
      let n : length (x ∷ xs) - 3 ≡ 0 = omega (arith, small) in
      rw (rchunks_step fuel x xs, n, no_rchunks fuel) (sym (grouped_short (x ∷ xs) small))
  | inr long ↦
      let big : 3 < length (x ∷ xs) = ground (arith, long) in
      let n = length (x ∷ xs) - 3 in
      let ys = take n (x ∷ xs) in
      let c = drop n (x ∷ xs) in
      let len : length ys ≡ n = length-take n (x ∷ xs) (omega arith) in
      let fits : length ys ≤ fuel = omega (arith, len, h, big) in
      let some_ys : ys ≢ [] = λ e. absurd (omega (arith, len, big, ap length e)) in
      let three : length c ≡ 3 = length-drop n (x ∷ xs) ∙ omega (arith, big) in
      let some_pieces : reverse (rchunks fuel ys) ≢ [] =
        λ e. some_ys (sym (concat-rchunks fuel ys fits) ∙ ap concat e) in
      rw (rchunks_step fuel x xs, reverse-cons c (rchunks fuel ys))
        (join_snoc (reverse (rchunks fuel ys)) c some_pieces
          ∙ ap (λ r. r ++ b'_' ∷ c) (grouped-rchunks fuel ys fits)
          ∙ sym (grouped_split ys c some_ys three)
          ∙ ap grouped (take-drop n (x ∷ xs)))
]

-- An integer is printed with its digits, and with an underscore exactly where the number of digits that follow is a
-- positive multiple of three; without the underscores it is the integer.
pub format_integer_with_undercores_lem :
    (ds : Bytes)
    → All IsDigit ds
    → (format_integer_with_undercores ds ≡ grouped ds)
      × (keep no_underscore (format_integer_with_undercores ds) ≡ ds)
unfolding format_integer_with_undercores
format_integer_with_undercores_lem ds h = (
  grouped-rchunks (length ds) ds (omega arith),
  keep-join (reverse (rchunks (length ds) ds))
      ∙ ap (keep no_underscore) (concat-rchunks (length ds) ds (omega arith))
      ∙ keep-digits ds h,
)

-- `to_string_ms` prints the whole milliseconds and the rest of the length, for both types, if there are
-- fewer than 2^32 milliseconds; otherwise it panics.
pub to_string_ms_lem :
    (t u : Time)
    → IsTime micros t
    → IsTime nanos u
    → (micro_to_string_ms t ≡ (
        if ltb (to_usec t / 1000) 4_294_967_296
        then some (decimal (to_usec t / 1000) ++ codes "." ++ padded 3 (to_usec t % 1000))
        else none))
      × (nano_to_string_ms u ≡ (
          if ltb (nano_to_nsec u / 1_000_000) 4_294_967_296
          then some (
              decimal (nano_to_nsec u / 1_000_000)
              ++ codes "."
              ++ padded 6 (nano_to_nsec u % 1_000_000))
          else none))
unfolding micro_to_string_ms nano_to_string_ms with_rest to_usec nano_to_nsec
to_string_ms_lem t u ht hu =
    (rw (micro_ms, micro_rest) (ground arith), rw (nano_ms, nano_rest) (ground arith))
  where
    micro_ms : (t.sec * 1_000_000 + t.part) / 1000 ≡ t.sec * 1000 + t.part / 1_000
    micro_ms = omega arith

    micro_rest : (t.sec * 1_000_000 + t.part) % 1000 ≡ t.part % 1000
    micro_rest = omega arith

    nano_ms : (u.sec * 1_000_000_000 + u.part) / 1_000_000 ≡ u.sec * 1000 + u.part / 1_000_000
    nano_ms = omega arith

    nano_rest : (u.sec * 1_000_000_000 + u.part) % 1_000_000 ≡ u.part % 1_000_000
    nano_rest = omega arith
