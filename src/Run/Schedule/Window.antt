-- ===== src/Run/Schedule/Window.antt =====
-- Daily time windows, evobench-tools/src/date_and_time/time_ranges.rs, over the third-party calendar
-- `chrono`. A `DateTime<Local>` is compared as an instant, and is modelled as one: a number.
pub mod After
pub mod Runnable
use evobench.Prelude.{
  ℕ, ◌<◌, ◌≡◌, Bool, not, ◌&&◌, ◌||◌, Option, none, some, ltb, leb, ◌==◌, if◌then◌else◌,
}
use evobench.Prelude.Outcome.{Outcome, ok, err, panic}

pub record LocalNaiveTime : Type 0 where
  pub hour : ℕ
  pub minute : ℕ
  pub second : ℕ

-- The derived order: by hour, then minute, then second.
unfoldable pub time_lt : LocalNaiveTime → LocalNaiveTime → Bool
time_lt a b =
    ltb a.hour b.hour
    || a.hour == b.hour && (ltb a.minute b.minute || a.minute == b.minute && ltb a.second b.second)

-- `chrono::LocalResult`
pub data LocalResult : Type 0 where
  skipped : LocalResult
  single : ℕ → LocalResult
  ambiguous : ℕ → ℕ → LocalResult

-- What the code uses of `chrono`.
pub record Chrono : Type 1 where
  pub NaiveDate : Type 0
  pub NaiveTime : Type 0
  -- `NaiveTime::from_hms_opt`
  pub from_hms_opt : ℕ → ℕ → ℕ → Option NaiveTime
  -- `Local.from_local_datetime` of a date and a time
  pub from_local_datetime : NaiveDate → NaiveTime → LocalResult
  -- `DateTime::date_naive`: the local date of an instant
  pub date_naive : ℕ → NaiveDate
  -- `checked_add_days(1)` and `checked_sub_days(1)`
  pub add_day : NaiveDate → Option NaiveDate
  pub sub_day : NaiveDate → Option NaiveDate

-- The match of `with_date_as_unambiguous_local`: none if the local time is skipped or repeated on that date.
abbrev pub unambiguous : LocalResult → Option ℕ
unambiguous skipped = none
unambiguous (single v) = some v
unambiguous (ambiguous v w) = none

module _ (chrono : Chrono) where
  open chrono use {
    NaiveDate, NaiveTime, from_hms_opt, from_local_datetime, date_naive, add_day, sub_day,
  }

  -- The time is converted with `expect`.
  abbrev pub with_date : {E : Type 0} → Option NaiveTime → NaiveDate → Outcome E (Option ℕ)
  with_date none date = panic
  with_date (some t) date = ok (unambiguous (from_local_datetime date t))

  -- `with_date_as_unambiguous_local`
  unfoldable pub unambiguous_local :
      {E : Type 0} → LocalNaiveTime → NaiveDate → Outcome E (Option ℕ)
  unambiguous_local t date = with_date (from_hms_opt t.hour t.minute t.second) date

  -- Times of the clock without a leap second are taken. Local time moves on with the instants: resolved times of the
  -- following date come after each instant of a date, and those of the date before come before it.
  pub record IsCalendar : Type 0 where
    pub takes :
        (hour minute second : ℕ)
        → hour < 24
        → minute < 60
        → second < 60
        → (t : NaiveTime) × (from_hms_opt hour minute second ≡ some t)
    pub next_day_after :
        (now : ℕ) {d : NaiveDate} (t : NaiveTime) (i : ℕ)
        → add_day (date_naive now) ≡ some d
        → from_local_datetime d t ≡ single i
        → now < i
    pub prev_day_before :
        (now : ℕ) {d : NaiveDate} (t : NaiveTime) (i : ℕ)
        → sub_day (date_naive now) ≡ some d
        → from_local_datetime d t ≡ single i
        → i < now

pub record DateTimeRange : Type 0 where
  pub from : ℕ
  pub to : ℕ

-- The end is not in the range.
unfoldable pub contains : DateTimeRange → ℕ → Bool
contains r time = leb r.from time && ltb time r.to

pub record LocalNaiveTimeRange : Type 0 where
  pub from : LocalNaiveTime
  pub to : LocalNaiveTime

unfoldable pub crosses_day_boundary : LocalNaiveTimeRange → Bool
unfolding time_lt
crosses_day_boundary r = time_lt r.to r.from

-- `?` on an option, and on an option that a call gives which may panic.
abbrev pub try_in :
    {A : Type 0} {E B : Type 0} → Option A → (A → Outcome E (Option B)) → Outcome E (Option B)
try_in none f = ok none
try_in (some a) f = f a

abbrev pub try_out :
    {A E B : Type 0} → Outcome E (Option A) → (A → Outcome E (Option B)) → Outcome E (Option B)
try_out (ok o) f = try_in o f
try_out (err e) f = err e
try_out panic f = panic

module _ (chrono : Chrono) (r : LocalNaiveTimeRange) where
  open chrono use {NaiveDate, date_naive, add_day, sub_day}

  -- `with_start_date_as_unambiguous_locals`, and `dtr_from_nd` in `after_datetime`.
  unfoldable pub starting_on : {E : Type 0} → NaiveDate → Outcome E (Option DateTimeRange)
  starting_on nd = try_out (unambiguous_local chrono r.from nd) λ from.
      try_in (if crosses_day_boundary r then add_day nd else some nd) λ nd_end.
        try_out (unambiguous_local chrono r.to nd_end)
          λ to. ok (some (record { from = from; to = to }))

  module _ {E : Type 0} (datetime : ℕ) (allow_time_inside_range : Bool) where
    next_day_range : Outcome E (Option DateTimeRange)
    next_day_range = try_in (add_day (date_naive datetime)) λ nd. starting_on nd

    -- `dtr_today` is over: the window of the next day.
    in_past : Outcome E (Option DateTimeRange)
    in_past = try_in (add_day (date_naive datetime)) λ nd. try_out (starting_on nd) λ next_day.
        if not allow_time_inside_range && contains next_day datetime
        then panic
        else ok (some next_day)

    -- `dtr_today` is to come: the window of the day before may still be open.
    in_future : DateTimeRange → Outcome E (Option DateTimeRange)
    in_future dtr_today =
        if ltb datetime dtr_today.from
        then (try_in (sub_day (date_naive datetime)) λ nd. try_out (starting_on nd) λ prev_day.
            if contains prev_day datetime
            then ok (some (if allow_time_inside_range then prev_day else dtr_today))
            else if ltb datetime prev_day.from
            then ok (some prev_day)
            else ok (some dtr_today))
        else panic

    around : DateTimeRange → Outcome E (Option DateTimeRange)
    unfolding next_day_range in_past in_future
    around dtr_today =
        if contains dtr_today datetime
        then (if allow_time_inside_range then ok (some dtr_today) else next_day_range)
        else if leb dtr_today.to datetime
        then in_past
        else in_future dtr_today

    -- The `todo!()` and the `assert!` of the source are panics.
    unfoldable pub after_datetime : Outcome E (Option DateTimeRange)
    unfolding around
    after_datetime = try_out (starting_on (date_naive datetime)) around
