-- ===== src/Domain/Idempotency.antt =====
-- domain/idempotency.py. How the standard library shows a date and a time of day is a parameter.
use task_platform.Common.{
  ℕ, Option, none, some, ◌++◌, ltb, ◌==◌, if◌then◌else◌, length, Text, codes, is_blank,
}
use task_platform.Domain.Status.{interval, daily}
use task_platform.Domain.Effects.{value_error, Result, ok, err, and_then}
use task_platform.Domain.Execution.{Instant}
use task_platform.Domain.Schedule.{Schedule}

-- `MAX_KEY_LENGTH`
abbrev pub max_key_length : ℕ
max_key_length = 255

-- `date.isoformat()` and `strftime('%H%M%S.%f')` of an instant in UTC.
pub record Calendar : Type 0 where
  pub date_text : Instant → Text
  pub time_text : Instant → Text

abbrev add_partition : Text → Option Text → Result Text
add_partition key none = ok key
add_partition key (some partition) =
    if is_blank partition then err value_error else ok (key ++ (codes ":" ++ partition))

abbrev check_length : Text → Result Text
check_length key = if ltb max_key_length (length key) then err value_error else ok key

unfoldable pub build_idempotency_key : Text → Text → Option Text → Result Text
build_idempotency_key job_id date partition =
    if length job_id == 0
    then err value_error
    else and_then (add_partition (job_id ++ (codes ":" ++ date)) partition) check_length

-- An instant of the model is in UTC.
unfoldable pub scheduled_key : Calendar → Text → Schedule → Instant → Result Text
scheduled_key calendar job_id s at = elim s.schedule_type [
  | daily ↦ build_idempotency_key job_id (calendar.date_text at) (some s.id)
  | interval ↦
      build_idempotency_key job_id (calendar.date_text at)
        (some (s.id ++ (codes "@" ++ calendar.time_text at)))
]
