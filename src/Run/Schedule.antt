-- ===== src/Run/Schedule.antt =====
-- The conditions under which a queue runs: `ScheduleCondition` of evobench-tools/src/run/config.rs,
-- and the daily time windows of evobench-tools/src/date_and_time/time_ranges.rs.
pub mod Window
use evobench.Prelude.{ℕ, Bool, true, false, Option, none, some, List, if◌then◌else◌}
use evobench.Prelude.Bytes.{Bytes}
use evobench.Prelude.Outcome.{Outcome, ok, err, panic}
use evobench.Run.Float.{Float64}
use evobench.Run.Priority
use Window.{Chrono, LocalNaiveTime, DateTimeRange, after_datetime, contains}

pub record TimeWindow (F : Type 0) : Type 0 where
  pub priority : Option F
  pub situation : Bytes
  pub stop_start : Option (List Bytes)
  pub repeatedly : Bool
  pub moves : Bool
  pub from : LocalNaiveTime
  pub to : LocalNaiveTime

pub data ScheduleCondition (F : Type 0) : Type 0 where
  immediately : Bytes → ScheduleCondition F
  local_naive_time_window : TimeWindow F → ScheduleCondition F
  inactive : ScheduleCondition F

module _ {F : Type 0} where
  unfoldable pub is_inactive : ScheduleCondition F → Bool
  is_inactive inactive = true
  is_inactive (immediately situation) = false
  is_inactive (local_naive_time_window w) = false

  unfoldable pub time_range : ScheduleCondition F → Option (LocalNaiveTime × LocalNaiveTime)
  time_range (immediately situation) = none
  time_range (local_naive_time_window w) = some (w.from, w.to)
  time_range inactive = none

  unfoldable pub stop_start : ScheduleCondition F → Option (List Bytes)
  stop_start (immediately situation) = none
  stop_start (local_naive_time_window w) = w.stop_start
  stop_start inactive = none

  unfoldable pub move_when_time_window_ends : ScheduleCondition F → Bool
  move_when_time_window_ends (immediately situation) = false
  move_when_time_window_ends (local_naive_time_window w) = w.moves
  move_when_time_window_ends inactive = false

  unfoldable pub situation : ScheduleCondition F → Option Bytes
  situation (immediately name) = some name
  situation (local_naive_time_window w) = some w.situation
  situation inactive = none

module _ (f64 : Float64) where
  open f64 use {F, one_and_half_f}

  or_default : Option F → F
  or_default none = one_and_half_f
  or_default (some p) = p

  -- A queue with a time window has priority 1.5 unless it says otherwise.
  unfoldable pub priority : ScheduleCondition F → Option F
  unfolding or_default
  priority (immediately situation) = some (Priority.default f64)
  priority (local_naive_time_window w) = some (or_default w.priority)
  priority inactive = none

-- `Some(Some(dtr))` if the window that was found holds the time.
pub runnable_in :
    {E : Type 0} → ℕ → Outcome E (Option DateTimeRange) → Outcome E (Option (Option DateTimeRange))
runnable_in reference_time (ok (some dtr)) =
    if contains dtr reference_time then ok (some (some dtr)) else ok none
runnable_in reference_time (ok none) = ok none
runnable_in reference_time (err e) = err e
runnable_in reference_time panic = panic

module _ (chrono : Chrono) {E F : Type 0} where
  -- `none`: not runnable. `some`: runnable, with the time window if there is one.
  unfoldable pub is_runnable_at :
      ScheduleCondition F → ℕ → Outcome E (Option (Option DateTimeRange))
  unfolding runnable_in
  is_runnable_at (immediately situation) reference_time = ok (some none)
  is_runnable_at (local_naive_time_window w) reference_time =
      runnable_in reference_time
        (after_datetime chrono (record { from = w.from; to = w.to }) reference_time true)
  is_runnable_at inactive reference_time = ok none
