-- ===== src/Run/Schedule/Window/After.antt =====
-- Which window `after_datetime` finds.
use evobench.Prelude.{
  ℕ, ◌<◌, ◌≡◌, ◌⊎◌, refl, ap, ◌∙◌, inl, inr, Bool, true, false, ◌&&◌, Option, none, some, arith,
  leb, ltb, if◌then◌else◌, Bool-cases, not, ltb→lt,
}
use evobench.Prelude.Outcome.{Outcome, ok, err, panic}
use evobench.Run.Schedule.Window.{
  LocalNaiveTimeRange, DateTimeRange, Chrono, IsCalendar, contains, starting_on, after_datetime,
  crosses_day_boundary, in_past, in_future, around, try_in, try_out, next_day_range, LocalNaiveTime,
  LocalResult, single, skipped, ambiguous, unambiguous, with_date, unambiguous_local,
}

module _ {A E B : Type 0} where
  try_in-some :
      (o : Option A) (f : A → Outcome E (Option B)) (b : B)
      → try_in o f ≡ ok (some b)
      → (a : A) × (o ≡ some a) × (f a ≡ ok (some b))
  try_in-some none f b h = absurd (cc h)
  try_in-some (some a) f b h = (a, refl, h)

  try_out-some :
      (x : Outcome E (Option A)) (f : A → Outcome E (Option B)) (b : B)
      → try_out x f ≡ ok (some b)
      → (a : A) × (x ≡ ok (some a)) × (f a ≡ ok (some b))
  try_out-some (ok none) f b h = absurd (cc h)
  try_out-some (ok (some a)) f b h = (a, refl, h)
  try_out-some (err e) f b h = absurd (cc h)
  try_out-some panic f b h = absurd (cc h)

  try_in-ok :
      (o : Option A) (f : A → Outcome E (Option B))
      → ((a : A) → (p : Option B) × (f a ≡ ok p))
      → (p : Option B) × (try_in o f ≡ ok p)
  try_in-ok none f h = (none, refl)
  try_in-ok (some a) f h = h a

  try_out-ok :
      (x : Outcome E (Option A)) (f : A → Outcome E (Option B))
      → (o : Option A) × (x ≡ ok o)
      → ((a : A) → (p : Option B) × (f a ≡ ok p))
      → (p : Option B) × (try_out x f ≡ ok p)
  try_out-ok x f (o, e) h = rw e (try_in-ok o f h)

module _ (chrono : Chrono) where
  open chrono use {
    NaiveDate, NaiveTime, from_hms_opt, from_local_datetime, date_naive, add_day, sub_day,
  }

  resolved-single :
      {E : Type 0} (t : LocalNaiveTime) (nd : NaiveDate) (i : ℕ)
      → unambiguous_local chrono {E = E} t nd ≡ ok (some i)
      → (nt : NaiveTime) × (from_local_datetime nd nt ≡ single i)
  unfolding unambiguous_local
  resolved-single {E} t nd i h = at_time (from_hms_opt t.hour t.minute t.second) h
    where
      at_result :
          (x : LocalResult)
          → ◌≡◌ {A = Outcome E (Option ℕ)} (ok (unambiguous x)) (ok (some i))
          → x ≡ single i
      at_result skipped e = absurd (cc e)
      at_result (single v) e = cc e
      at_result (ambiguous v w) e = absurd (cc e)

      at_time :
          (o : Option NaiveTime)
          → with_date chrono {E = E} o nd ≡ ok (some i)
          → (nt : NaiveTime) × (from_local_datetime nd nt ≡ single i)
      at_time none e = absurd (cc e)
      at_time (some nt) e = (nt, at_result (from_local_datetime nd nt) e)

  module _ (calendar : IsCalendar chrono) (now : ℕ) {E : Type 0} {d : NaiveDate}
      (t : LocalNaiveTime) (i : ℕ) where
    pub next_day_later :
        add_day (date_naive now) ≡ some d
        → unambiguous_local chrono {E = E} t d ≡ ok (some i)
        → now < i
    next_day_later e h =
        let (nt, at) = resolved-single t d i h in calendar.next_day_after now nt i e at

    pub prev_day_earlier :
        sub_day (date_naive now) ≡ some d
        → unambiguous_local chrono {E = E} t d ≡ ok (some i)
        → i < now
    prev_day_earlier e h =
        let (nt, at) = resolved-single t d i h in calendar.prev_day_before now nt i e at

module _ (chrono : Chrono) (r : LocalNaiveTimeRange) {E : Type 0} where
  open chrono use {NaiveDate, date_naive, add_day, sub_day}

  -- What a window that was resolved is made of.
  pub starting_on-Parts :
      (nd : NaiveDate) (w : DateTimeRange)
      → starting_on chrono r {E = E} nd ≡ ok (some w)
      → (unambiguous_local chrono {E = E} r.from nd ≡ ok (some w.from))
        × ((nd' : NaiveDate) × ((if crosses_day_boundary r then add_day nd else some nd) ≡ some nd')
            × (unambiguous_local chrono {E = E} r.to nd' ≡ ok (some w.to)))
  unfolding starting_on
  starting_on-Parts nd w h =
      let (from, e, k) = try_out-some (unambiguous_local chrono r.from nd) _ w h in
      let (nd', f, k') =
        try_in-some (if crosses_day_boundary r then add_day nd else some nd) _ w k in
      let (to, g, k2) = try_out-some (unambiguous_local chrono r.to nd') _ w k' in
      let same_w : record { from = from; to = to } ≡ w = cc k2 in
      (e ∙ ap (λ v. ok (some v.from)) same_w, (nd', f, g ∙ ap (λ v. ok (some v.to)) same_w))

  -- No window panics if no time does.
  starting_on-ok :
      ((nd : NaiveDate) → (o : Option ℕ) × (unambiguous_local chrono {E = E} r.from nd ≡ ok o))
      → ((nd : NaiveDate) → (o : Option ℕ) × (unambiguous_local chrono {E = E} r.to nd ≡ ok o))
      → (nd : NaiveDate) → (o : Option DateTimeRange) × (starting_on chrono r {E = E} nd ≡ ok o)
  unfolding starting_on
  starting_on-ok from_ok to_ok nd =
      try_out-ok (unambiguous_local chrono r.from nd) _ (from_ok nd) λ from.
        try_in-ok (if crosses_day_boundary r then add_day nd else some nd) _ λ nd_end.
          try_out-ok (unambiguous_local chrono r.to nd_end) _ (to_ok nd_end)
            λ to. (some (record { from = from; to = to }), refl)

  -- Whether a time is taken does not depend on the date.
  taken :
      (t : LocalNaiveTime) (nd : NaiveDate) (i : Option ℕ)
      → unambiguous_local chrono {E = E} t nd ≡ ok i
      → (nd' : NaiveDate) → (o : Option ℕ) × (unambiguous_local chrono {E = E} t nd' ≡ ok o)
  unfolding unambiguous_local
  taken t nd i h nd' = at_time (chrono.from_hms_opt t.hour t.minute t.second) h
    where
      at_time :
          (o : Option chrono.NaiveTime)
          → with_date chrono {E = E} o nd ≡ ok i
          → (p : Option ℕ) × (with_date chrono {E = E} o nd' ≡ ok p)
      at_time none e = absurd (cc e)
      at_time (some nt) e = (unambiguous (chrono.from_local_datetime nd' nt), refl)

  -- Where one window resolves, no other one panics.
  pub starting_on-again :
      (nd : NaiveDate) (w : DateTimeRange)
      → starting_on chrono r {E = E} nd ≡ ok (some w)
      → (nd' : NaiveDate) → (o : Option DateTimeRange) × (starting_on chrono r {E = E} nd' ≡ ok o)
  starting_on-again nd w h =
      let (f, (d, _, t)) = starting_on-Parts nd w h in
      starting_on-ok (taken r.from nd _ f) (taken r.to d _ t)

  pub from-starting_on :
      (nd : NaiveDate) (w : DateTimeRange)
      → starting_on chrono r {E = E} nd ≡ ok (some w)
      → unambiguous_local chrono {E = E} r.from nd ≡ ok (some w.from)
  from-starting_on nd w h = (starting_on-Parts nd w h).0

  -- A window that does not cross midnight ends on the date on which it starts.
  pub to-starting_on :
      (nd : NaiveDate) (w : DateTimeRange)
      → crosses_day_boundary r ≡ false
      → starting_on chrono r {E = E} nd ≡ ok (some w)
      → unambiguous_local chrono {E = E} r.to nd ≡ ok (some w.to)
  to-starting_on nd w p h =
      let (nd', e, t) = (starting_on-Parts nd w h).1 in
      let same_day : nd ≡ nd' = cc (rw p at e) in rw same_day t

  -- One that crosses midnight ends on the next date.
  pub to-starting_on_crossing :
      (nd : NaiveDate) (w : DateTimeRange)
      → crosses_day_boundary r ≡ true
      → starting_on chrono r {E = E} nd ≡ ok (some w)
      → (nd' : NaiveDate) × (add_day nd ≡ some nd')
        × (unambiguous_local chrono {E = E} r.to nd' ≡ ok (some w.to))
  to-starting_on_crossing nd w p h =
      let (nd', e, t) = (starting_on-Parts nd w h).1 in (nd', rw p at e, t)

-- A time of the clock, and no leap second.
abbrev pub IsClock : LocalNaiveTime → Type 0
IsClock t = (t.hour < 24) × ((t.minute < 60) × (t.second < 60))

module _ (chrono : Chrono) (calendar : IsCalendar chrono) (r : LocalNaiveTimeRange) (now : ℕ) where
  open chrono use {NaiveDate, date_naive, add_day, sub_day}

  next_later :
      {E : Type 0} (nd : NaiveDate) (w : DateTimeRange)
      → add_day (date_naive now) ≡ some nd
      → starting_on chrono r {E = E} nd ≡ ok (some w)
      → now < w.from
  next_later nd w e h =
      next_day_later chrono calendar now r.from w.from e (from-starting_on chrono r nd w h)

  -- What is asked of the window: it holds the time, if that is allowed, or it starts later.
  abbrev pub Fits : Bool → DateTimeRange → Type 0
  Fits allow w = (allow ≡ true) × (contains w now ≡ true) ⊎ (now < w.from)

  -- A result of `after_datetime` that fits; a panic is none.
  pub data Sound (E : Type 0) (allow : Bool) : Outcome E (Option DateTimeRange) → Type 0 where
    unresolved : Sound E allow (ok none)
    resolved : {w : DateTimeRange} → Fits allow w → Sound E allow (ok (some w))

  module _ (E : Type 0) (allow : Bool) (from_clock : IsClock r.from) (to_clock : IsClock r.to) where
    Sound-if :
        (b : Bool) {x y : Outcome E (Option DateTimeRange)}
        → (b ≡ true → Sound E allow x)
        → (b ≡ false → Sound E allow y)
        → Sound E allow (if b then x else y)
    Sound-if true hx hy = hx refl
    Sound-if false hx hy = hy refl

    Sound-try_in :
        {A : Type 0} (o : Option A) (f : A → Outcome E (Option DateTimeRange))
        → ((a : A) → o ≡ some a → Sound E allow (f a))
        → Sound E allow (try_in o f)
    Sound-try_in none f h = unresolved
    Sound-try_in (some a) f h = h a refl

    -- The times of the range are taken, so no window panics.
    resolves :
        (t : LocalNaiveTime) (nd : NaiveDate)
        → IsClock t
        → (o : Option ℕ) × (unambiguous_local chrono {E = E} t nd ≡ ok o)
    unfolding unambiguous_local
    resolves t nd (h, (m, s)) =
        let (nt, e) = calendar.takes t.hour t.minute t.second h m s in
        (unambiguous (chrono.from_local_datetime nd nt), rw e refl)

    starts :
        (nd : NaiveDate) → (o : Option DateTimeRange) × (starting_on chrono r {E = E} nd ≡ ok o)
    starts nd =
        starting_on-ok chrono r (λ d. resolves r.from d from_clock) (λ d. resolves r.to d to_clock)
          nd

    Sound-starting :
        (nd : NaiveDate) (f : DateTimeRange → Outcome E (Option DateTimeRange))
        → ((w : DateTimeRange)
            → starting_on chrono r {E = E} nd ≡ ok (some w)
            → Sound E allow (f w))
        → Sound E allow (try_out (starting_on chrono r nd) f)
    Sound-starting nd f h =
        let (o, e) = starts nd in rw e (Sound-try_in o f λ w g. h w (e ∙ ap ok g))

    Sound-window :
        (nd : NaiveDate)
        → ((w : DateTimeRange) → starting_on chrono r {E = E} nd ≡ ok (some w) → Fits allow w)
        → Sound E allow (starting_on chrono r nd)
    Sound-window nd h = let (o, e) = starts nd in rw e (at o λ w g. h w (e ∙ ap ok g))
      where
        at :
            (o : Option DateTimeRange)
            → ((w : DateTimeRange) → o ≡ some w → Fits allow w)
            → Sound E allow (ok o)
        at none k = unresolved
        at (some w) k = resolved (k w refl)

    next-Sound : Sound E allow (next_day_range chrono r now allow)
    unfolding next_day_range
    next-Sound = Sound-try_in _ _ λ nd e. Sound-window _ λ w h. inr (next_later nd w e h)

    not_both : (w : DateTimeRange) → (not allow && contains w now) ≡ true → now < w.from → ⊥
    unfolding contains
    not_both w p h = ground arith

    in_past-Sound : Sound E allow (in_past chrono r now allow)
    unfolding in_past contains
    in_past-Sound = Sound-try_in _ _ λ nd e. Sound-starting nd _ λ w h.
        Sound-if _ (λ p. absurd (not_both w p (next_later nd w e h)))
          (λ p. resolved (inr (next_later nd w e h)))

    not_early : (i : ℕ) → now < i → ltb now i ≡ false → ⊥
    not_early i h p = ground arith

    in_future-Sound :
        (today : DateTimeRange)
        → now < today.from
        → Sound E allow (in_future chrono r now allow today)
    unfolding in_future
    in_future-Sound today early =
        Sound-if _
          (λ _. Sound-try_in (sub_day (date_naive now)) _ λ nd e. Sound-starting nd _ λ w h.
            Sound-if (contains w now) (λ p. resolved (at_prev w p))
              (λ p.
                Sound-if (ltb now w.from) (λ q. resolved (inr (ltb→lt _ _ q)))
                  (λ q. resolved (inr early))))
          (λ p. absurd (not_early today.from early p))
      where
        at_prev :
            (w : DateTimeRange) → contains w now ≡ true → Fits allow (if allow then w else today)
        at_prev w p = elim (Bool-cases allow) [
          | inl yes_inside ↦ rw yes_inside (inl (refl, p))
          | inr outside ↦ rw outside (inr early)
        ]

    still_to_come :
        (w : DateTimeRange) → contains w now ≡ false → leb w.to now ≡ false → now < w.from
    unfolding contains
    still_to_come w p q = ground arith

    around-Sound : (today : DateTimeRange) → Sound E allow (around chrono r now allow today)
    unfolding around
    around-Sound today =
        Sound-if _ (λ p. Sound-if _ (λ q. resolved (inl (q, p))) (λ q. next-Sound))
          (λ p.
            Sound-if _ (λ q. in_past-Sound) (λ q. in_future-Sound today (still_to_come today p q)))

    -- On a calendar, and for times of the clock without a leap second, `after_datetime` does not panic: neither the
    -- `todo!()`, nor the failure of the assertion, nor that of `expect` is reached. The window that it finds, if the times resolve, holds the time, where
    -- that is allowed, or starts after it.
    pub after_datetime-Sound : Sound E allow (after_datetime chrono r now allow)
    unfolding after_datetime
    after_datetime-Sound = Sound-starting (date_naive now) _ λ w h. around-Sound w
