-- ===== src/Domain/Retry.antt =====
-- RetryPolicy of domain/models.py. A negative count of attempts is refused as 0 is, so counts are
-- natural numbers.
pub mod Delays
use task_platform.Common.{
  ℕ, zero, suc, ◌+◌, ◌-◌, ◌*◌, ◌/◌, ◌%◌, ◌^◌, ◌≤◌, ◌<◌, ◌≡◌, refl, sym, ap, ◌∙◌, ◌≢◌, ◌↔◌, ◌⊎◌, inl,
  inr, Bool, true, false, not, ◌&&◌, ◌||◌, Option, none, some, List, [], ◌∷◌, ◌++◌, map, arith, ltb,
  leb, ◌==◌, if◌then◌else◌, ltb→lt, lt→ltb, leb→le, le→leb, ==_iff, Bool-cases, Option-cases,
  is_some, length, get_last?, take, drop, filter, any, all, find?, All, length-append, ℤ, pos,
  negsuc, pos_part, neg_part, sub_ℕ, ◌+ℤ◌, ◌-ℤ◌, ◌*ℤ◌, ◌≤ℤ◌, ltb_ℤ, Text, codes, text_eq,
  text_eq_iff, text_eq_self, is_blank,
}
use task_platform.Domain.Status.{
  JobStatus, pending, queued, running, success, retrying, failed, canceled, recoverable, JobType,
  demo_success, demo_failure, demo_slow, custom, BackoffStrategy, fixed, exponential, ScheduleType,
  interval, daily, status_eq, status_eq_iff, is_terminal,
}
use task_platform.Domain.Effects.{
  overflow_error, Error, value_error, assertion_error, invalid_transition, job_not_registered,
  duplicate_job_name, entity_not_found, integrity_error, invalid_message, job_canceled,
  handler_timeout, handler_error, queue_error, Result, ok, err, Action, and_then, pure, raise, lift,
  gets, modify, continue, ◌>>=◌, ◌>>◌, >>=-eq-ok, on_part,
}
use task_platform.Domain.Execution.{
  Instant, Seconds, one_second, JobExecution, new_execution, JobLog, duration_seconds,
}

pub record RetryPolicy : Type 0 where
  pub max_attempts : ℕ
  pub backoff : BackoffStrategy
  pub base_delay_seconds : Seconds
  pub max_delay_seconds : Seconds

-- `RetryPolicy.__post_init__`: the policy, if its fields are acceptable.
unfoldable pub validate_policy : RetryPolicy → Result RetryPolicy
validate_policy p =
    if ltb p.max_attempts 1
    then err value_error
    else if ltb_ℤ p.base_delay_seconds (pos 0)
    then err value_error
    else if ltb_ℤ p.max_delay_seconds p.base_delay_seconds
    then err value_error
    else ok p

abbrev pub default_policy : RetryPolicy
default_policy = record {
  max_attempts = 3;
  backoff = fixed;
  base_delay_seconds = pos 1000000;
  max_delay_seconds = pos 60000000;
}

-- `min(a, b)` keeps the first of two that are equal.
abbrev pub min_seconds : Seconds → Seconds → Seconds
min_seconds a b = if ltb_ℤ b a then b else a

backoff_delay : BackoffStrategy → Seconds → ℕ → Seconds
unfolding ◌*ℤ◌
backoff_delay fixed base attempt = base
backoff_delay exponential base attempt = base *ℤ pos (2 ^ (attempt - 1))

-- `2 ** (attempt - 1)` is converted to a float, which holds powers of 2 up to the exponent 1023.
abbrev pub is_too_large : BackoffStrategy → ℕ → Bool
is_too_large fixed attempt = false
is_too_large exponential attempt = ltb 1024 attempt

unfoldable pub delay_for_attempt : RetryPolicy → ℕ → Result Seconds
unfolding backoff_delay
delay_for_attempt p attempt =
    if ltb attempt 1
    then err value_error
    else if is_too_large p.backoff attempt
    then err overflow_error
    else ok (min_seconds (backoff_delay p.backoff p.base_delay_seconds attempt) p.max_delay_seconds)

unfoldable pub allows_retry : RetryPolicy → ℕ → Bool
allows_retry p attempt = ltb attempt p.max_attempts
