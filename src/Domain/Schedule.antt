-- ===== src/Domain/Schedule.antt =====
-- domain/schedule.py: when a schedule fires next.
pub mod NextRun
use task_platform.Common.{
  ℕ, zero, suc, ◌+◌, ◌-◌, ◌*◌, ◌/◌, ◌%◌, ◌^◌, ◌≤◌, ◌<◌, ◌≡◌, refl, sym, ap, ◌∙◌, ◌≢◌, ◌↔◌, ◌⊎◌, inl,
  inr, Bool, true, false, not, ◌&&◌, ◌||◌, Option, none, some, List, [], ◌∷◌, ◌++◌, map, arith, ltb,
  leb, ◌==◌, if◌then◌else◌, ltb→lt, lt→ltb, leb→le, le→leb, ==_iff, Bool-cases, Option-cases,
  is_some, length, get_last?, take, drop, filter, any, all, find?, All, length-append, ℤ, pos,
  negsuc, pos_part, neg_part, sub_ℕ, ◌+ℤ◌, ◌-ℤ◌, ◌*ℤ◌, ◌≤ℤ◌, ltb_ℤ, Text, codes, text_eq,
  text_eq_iff, text_eq_self, is_blank,
}
use task_platform.Domain.Status.{
  JobStatus, pending, queued, running, success, retrying, failed, canceled, recoverable, JobType,
  demo_success, demo_failure, demo_slow, custom, BackoffStrategy, fixed, exponential, ScheduleType,
  interval, daily, status_eq, status_eq_iff, is_terminal,
}
use task_platform.Domain.Effects.{
  overflow_error, system_exit, Error, value_error, assertion_error, invalid_transition,
  job_not_registered, duplicate_job_name, entity_not_found, integrity_error, invalid_message,
  job_canceled, handler_timeout, handler_error, queue_error, Result, ok, err, Action, and_then,
  pure, raise, lift, gets, modify, continue, ◌>>=◌, ◌>>◌, >>=-eq-ok, on_part,
}
use task_platform.Domain.Execution.{
  Instant, Seconds, one_second, JobExecution, new_execution, JobLog, duration_seconds,
}

abbrev pub one_day : ℕ
one_day = 86400 * one_second

-- A float of seconds, through what the code asks of it: whether it is at most 0, and the timedelta that
-- the standard library makes of it, rounded to microseconds, or the exception that it raises.
pub record Interval : Type 0 where
  pub is_refused : Bool
  pub timedelta : Result Seconds

-- `time_of_day` is the number of microseconds since midnight.
pub record Schedule : Type 0 where
  pub job_id : Text
  pub schedule_type : ScheduleType
  pub id : Text
  pub interval_seconds : Option Interval
  pub time_of_day : Option ℕ
  pub enabled : Bool

abbrev check_rule : ScheduleType → Option Interval → Option ℕ → Bool
check_rule interval none t = false
check_rule interval (some seconds) t = not seconds.is_refused
check_rule daily i none = false
check_rule daily i (some _) = true

-- `Schedule.__post_init__`
unfoldable pub validate_schedule : Schedule → Result Schedule
validate_schedule s =
    if check_rule s.schedule_type s.interval_seconds s.time_of_day then ok s else err value_error

-- `instant + timedelta`, of an instant and a delay whose sum can be represented.
abbrev pub plus_seconds : Instant → Seconds → Instant
plus_seconds t d = t + pos_part d - neg_part d

-- `datetime.combine(after.date(), time_of_day, tzinfo=UTC)`
abbrev pub at_time_of_day : Instant → ℕ → Instant
at_time_of_day after time_of_day = after / one_day * one_day + time_of_day

-- The first instant that `datetime` cannot represent, the year 10000.
abbrev pub end_of_time : Instant
end_of_time = 315537897600000000

-- The sum of an instant and a timedelta, as far as it can be represented.
abbrev pub add_timedelta : Instant → Seconds → Result Instant
add_timedelta t d =
    if ltb (t + pos_part d) (neg_part d)
    then err overflow_error
    else if leb end_of_time (plus_seconds t d)
    then err overflow_error
    else ok (plus_seconds t d)

next_run : ScheduleType → Option Interval → Option ℕ → Instant → Result Instant
next_run interval none t after = err assertion_error
next_run interval (some seconds) t after = and_then seconds.timedelta (add_timedelta after)
next_run daily i none after = err assertion_error
next_run daily i (some time_of_day) after =
    let candidate = at_time_of_day after time_of_day in
    if leb candidate after then add_timedelta candidate (pos one_day) else ok candidate

unfoldable pub compute_next_run : Schedule → Instant → Result Instant
unfolding next_run
compute_next_run s after = next_run s.schedule_type s.interval_seconds s.time_of_day after
