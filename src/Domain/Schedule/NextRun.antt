-- ===== src/Domain/Schedule/NextRun.antt =====
-- About `compute_next_run` of domain/schedule.py.
use task_platform.Common.{
  pos, leb, ltb, false, ◌&&◌, ◌==◌, Bool-cases, ℕ, ◌+◌, ◌*◌, ◌/◌, ◌%◌, ◌≤◌, ◌<◌, ◌≡◌, ◌≢◌, inl, inr,
  true, Option, none, some, arith,
}
use task_platform.Domain.Status.{ScheduleType, interval, daily}
use task_platform.Domain.Effects.{ok}
use task_platform.Domain.Execution.{Instant}
use task_platform.Domain.Schedule.{
  Schedule, Interval, end_of_time, at_time_of_day, one_day, validate_schedule, compute_next_run,
  next_run, check_rule,
}

-- A time of day is below 24 hours, as `datetime.time` guarantees.
abbrev pub TimeFits : Option ℕ → Type 0
TimeFits none = Unit
TimeFits (some t) = t < one_day

-- The step of an accepted rule: a day, or a timedelta of at least a microsecond.
abbrev pub StepIs : ScheduleType → Option Interval → ℕ → Type 0
StepIs daily i d = d ≡ one_day
StepIs interval none d = Unit
StepIs interval (some i) d = (i.timedelta ≡ ok (pos d)) × (1 ≤ d)

future :
    (k : ScheduleType) (i : Option Interval) (t : Option ℕ) (after d : ℕ)
    → check_rule k i t ≡ true
    → TimeFits t
    → StepIs k i d
    → after + d < end_of_time
    → (next : Instant) × (next_run k i t after ≡ ok next) × (after < next) × (next ≤ after + d)
unfolding next_run
future interval none t after d v f step fits = cc
future interval (some s) t after d v f (e, large) fits =
    (after + d, rw e (ground arith), omega arith, omega arith)
future daily i none after d v f step fits = cc
future daily i (some t) after d v f step fits =
    elim (Bool-cases (leb (at_time_of_day after t) after)) [
      | inl e ↦ (at_time_of_day after t + one_day, ground arith, ground arith, ground arith)
      | inr e ↦ (at_time_of_day after t, ground arith, ground arith, ground arith)
    ]

-- An accepted schedule that is daily, with a time of day below 24 hours, or whose interval makes a
-- timedelta of at least a microsecond has a next run when the instant and the step end before the last datetime: it lies
-- strictly after the given instant, and at most the step after it.
pub compute_next_run_later :
    (s : Schedule) (after d : ℕ)
    → validate_schedule s ≡ ok s
    → TimeFits s.time_of_day
    → StepIs s.schedule_type s.interval_seconds d
    → after + d < end_of_time
    → (next : Instant) × (compute_next_run s after ≡ ok next) × (after < next) × (next ≤ after + d)
unfolding validate_schedule compute_next_run
compute_next_run_later s after d v f step fits =
    future s.schedule_type s.interval_seconds s.time_of_day after d (ground arith) f step fits

-- Between an instant and the next one with a given time of day lies no other.
daily_gap :
    (time after between : ℕ)
    → time < one_day
    → after < between
    → between < after / one_day * one_day + time
    → between % one_day ≢ time
daily_gap time after between f lo hi = omega arith

daily_gap_late :
    (time after between : ℕ)
    → time < one_day
    → after / one_day * one_day + time ≤ after
    → after < between
    → between < after / one_day * one_day + time + one_day
    → between % one_day ≢ time
daily_gap_late time after between f late lo hi = omega arith

-- A daily schedule, a day before the last datetime or earlier: its next run is after the given instant
-- by at most a day, has its time of day, and no instant between has that time of day.
pub compute_next_run_daily :
    (s : Schedule) (time after between : ℕ)
    → s.schedule_type ≡ daily
    → s.time_of_day ≡ some time
    → time < one_day
    → after + one_day < end_of_time
    → (next : Instant) × (compute_next_run s after ≡ ok next)
      × (after < next)
      × (next ≤ after + one_day)
      × (next % one_day ≡ time)
      × (ltb after between && ltb between next && (between % one_day == time) ≡ false)
unfolding compute_next_run next_run
compute_next_run_daily s time after between k t f fits =
    rw (k, t)
      (elim (Bool-cases (leb (at_time_of_day after time) after)) [
        | inl late ↦ (
          at_time_of_day after time + one_day,
          ground arith,
          ground arith,
          ground arith,
          omega arith,
          ground (arith, daily_gap_late time after between f),
        )
        | inr early ↦ (
          at_time_of_day after time,
          ground arith,
          ground arith,
          ground arith,
          omega arith,
          ground (arith, daily_gap time after between f),
        )
      ])
