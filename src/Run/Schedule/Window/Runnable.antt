-- ===== src/Run/Schedule/Window/Runnable.antt =====
-- When a queue with a daily time window is runnable.
use evobench.Prelude.{
  ℕ, ◌<◌, ◌≡◌, refl, true, false, Option, none, some, arith, leb, ltb, if◌then◌else◌, Bool-cases,
  leb→le, lt→ltb, inl, inr,
}
use evobench.Prelude.Outcome.{Outcome, ok}
use evobench.Run.Schedule.{TimeWindow, local_naive_time_window, is_runnable_at, runnable_in}
use evobench.Run.Schedule.Window.{
  LocalNaiveTimeRange, DateTimeRange, Chrono, IsCalendar, contains, starting_on, after_datetime,
  around, in_past, in_future, crosses_day_boundary, try_in, try_out,
}
use evobench.Run.Schedule.Window.After.{
  starting_on-again, next_day_later, prev_day_earlier, from-starting_on, to-starting_on,
  to-starting_on_crossing,
}

abbrev pub window_of : {F : Type 0} → TimeWindow F → LocalNaiveTimeRange
window_of w = record { from = w.from; to = w.to }

not-ltb : (a b : ℕ) → b < a → ltb a b ≡ false
not-ltb a b h = ground arith

-- The answer that is right if one of two windows may hold the time.
abbrev pub Answer :
    {E : Type 0} → DateTimeRange → DateTimeRange → ℕ → Outcome E (Option (Option DateTimeRange))
Answer today yesterday now =
    if contains today now
    then ok (some (some today))
    else if contains yesterday now
    then ok (some (some yesterday))
    else ok none

module _ (chrono : Chrono) (calendar : IsCalendar chrono) (r : LocalNaiveTimeRange) (now : ℕ)
    (E : Type 0) (today yesterday : DateTimeRange) {nd : chrono.NaiveDate}
    (at_today : starting_on chrono r {E = E} (chrono.date_naive now) ≡ ok (some today))
    (day_before : chrono.sub_day (chrono.date_naive now) ≡ some nd)
    (at_yesterday : starting_on chrono r {E = E} nd ≡ ok (some yesterday)) where
  started : ltb now yesterday.from ≡ false
  started = not-ltb now yesterday.from (
      prev_day_earlier chrono calendar now r.from yesterday.from day_before
        (from-starting_on chrono r nd yesterday at_yesterday))

  later_out : (w : DateTimeRange) → now < w.from → contains w now ≡ false
  unfolding contains
  later_out w h = ground arith

  to_come : (w : DateTimeRange) → contains w now ≡ false → leb w.to now ≡ false → now < w.from
  unfolding contains
  to_come w p q = ground arith

  -- If today's window is over, then yesterday's is.
  yesterday_over : leb today.to now ≡ true → contains yesterday now ≡ false
  unfolding contains
  yesterday_over p = elim (Bool-cases (crosses_day_boundary r)) [
    | inl crosses ↦
        let (nd', e, h) = to-starting_on_crossing chrono r _ today crosses at_today in
        absurd (
          omega
            (arith, next_day_later chrono calendar now r.to today.to e h, leb→le today.to now p))
    | inr stays ↦ ground (
      arith,
      prev_day_earlier chrono calendar now r.to yesterday.to day_before
          (to-starting_on chrono r _ yesterday stays at_yesterday),
    )
  ]

  -- The answer of `runnable_in` to a window that is found where none holds the time.
  not_in :
      (w : DateTimeRange) → contains w now ≡ false → runnable_in {E = E} now (ok (some w)) ≡ ok none
  unfolding runnable_in
  not_in w p = rw p

  is_in :
      (w : DateTimeRange)
      → contains w now ≡ true
      → runnable_in {E = E} now (ok (some w)) ≡ ok (some (some w))
  unfolding runnable_in
  is_in w p = rw p

  in_past-Answer : (runnable_in {E = E} now (in_past chrono r now true)) ≡ ok none
  unfolding in_past
  in_past-Answer = at_next (chrono.add_day (chrono.date_naive now)) refl
    where
      at_window :
          (nd' : chrono.NaiveDate)
          → chrono.add_day (chrono.date_naive now) ≡ some nd'
          → (o : Option DateTimeRange) → starting_on chrono r {E = E} nd' ≡ ok o
          → runnable_in {E = E} now (try_in o λ w. ok (some w)) ≡ ok none
      at_window nd' e none h = unfold runnable_in in refl
      at_window nd' e (some w) h = not_in w (
          later_out w (
            next_day_later chrono calendar now r.from w.from e (from-starting_on chrono r nd' w h)))

      at_next :
          (o : Option chrono.NaiveDate)
          → chrono.add_day (chrono.date_naive now) ≡ o
          → runnable_in {E = E} now
              (try_in o λ nd'. try_out (starting_on chrono r nd') λ w. ok (some w))
            ≡ ok none
      at_next none e = unfold runnable_in in refl
      at_next (some nd') e =
          let (found, h) = starting_on-again chrono r (chrono.date_naive now) today at_today nd' in
          rw h (at_window nd' e found h)

  in_future-Answer :
      contains today now ≡ false
      → now < today.from
      → runnable_in {E = E} now (in_future chrono r now true today)
        ≡ (if contains yesterday now then ok (some (some yesterday)) else ok none)
  unfolding in_future runnable_in
  in_future-Answer out early =
      rw (lt→ltb now today.from early, day_before, at_yesterday)
        (elim (Bool-cases (contains yesterday now)) [
          | inl inside ↦ rw (inside, inside)
          | inr outside ↦ rw (outside, started, out)
        ])

  around-Answer :
      runnable_in {E = E} now (around chrono r now true today) ≡ Answer today yesterday now
  unfolding around
  around-Answer = elim (Bool-cases (contains today now)) [
    | inl inside ↦ rw inside (is_in today inside)
    | inr out ↦ elim (Bool-cases (leb today.to now)) [
      | inl over ↦ rw (out, over, yesterday_over over) in_past-Answer
      | inr open_end ↦ rw (out, open_end) (in_future-Answer out (to_come today out open_end))
    ]
  ]

  after_datetime-Answer :
      runnable_in {E = E} now (after_datetime chrono r now true) ≡ Answer today yesterday now
  unfolding after_datetime
  after_datetime-Answer = rw at_today around-Answer

-- Where the times of the window resolve on the day of `now` and on the day before, a queue with a
-- time window is runnable exactly if `now` lies in the window that starts on that day or in the one
-- that started on the day before, and then it is given that window.
pub is_runnable_at_lem :
    (chrono : Chrono)
    → IsCalendar chrono
    → {E F : Type 0} (w : TimeWindow F) (now : ℕ) (today yesterday : DateTimeRange)
      {nd : chrono.NaiveDate}
    → starting_on chrono (window_of w) {E = E} (chrono.date_naive now) ≡ ok (some today)
    → chrono.sub_day (chrono.date_naive now) ≡ some nd
    → starting_on chrono (window_of w) {E = E} nd ≡ ok (some yesterday)
    → is_runnable_at chrono {E = E} (local_naive_time_window w) now ≡ Answer today yesterday now
unfolding is_runnable_at
is_runnable_at_lem chrono calendar {E} w now today yesterday e d f =
    after_datetime-Answer chrono calendar (window_of w) now E today yesterday e d f
