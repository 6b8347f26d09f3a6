-- ===== src/Db/Mappers.antt =====
-- infrastructure/db/mappers.py: domain values to rows and back.
pub mod RoundTrip
use task_platform.Common.{
  ℕ, zero, suc, ◌+◌, ◌-◌, ◌*◌, ◌/◌, ◌%◌, ◌^◌, ◌≤◌, ◌<◌, ◌≡◌, refl, sym, ap, ◌∙◌, ◌≢◌, ◌↔◌, ◌⊎◌, inl,
  inr, Bool, true, false, not, ◌&&◌, ◌||◌, Option, none, some, List, [], ◌∷◌, ◌++◌, map, arith, ltb,
  leb, ◌==◌, if◌then◌else◌, ltb→lt, lt→ltb, leb→le, le→leb, ==_iff, tests, Bool-cases, Option-cases,
  is_some, length, get_last?, take, drop, filter, any, all, find?, All, length-append, ℤ, pos,
  negsuc, pos_part, neg_part, sub_ℕ, ◌+ℤ◌, ◌-ℤ◌, ◌*ℤ◌, ◌≤ℤ◌, ltb_ℤ, +ℤ_parts, -ℤ_parts, eq_of_parts,
  int_laws, Text, codes, text_eq, text_eq_iff, text_eq_self, is_space, is_blank, reverse,
}
use task_platform.Domain.Effects.{
  Error, value_error, assertion_error, invalid_transition, job_not_registered, duplicate_job_name,
  entity_not_found, integrity_error, invalid_message, job_canceled, handler_timeout, handler_error,
  queue_error, Result, ok, err, Action, and_then, pure, raise, lift, gets, modify, continue, ◌>>=◌,
  ◌>>◌, >>=-eq-ok, on_part,
}
use task_platform.Domain.Execution.{
  Instant, Seconds, one_second, JobExecution, new_execution, duration_seconds, JobLog,
}
use task_platform.Domain.Retry.{
  RetryPolicy, validate_policy, default_policy, min_seconds, delay_for_attempt, allows_retry,
}
use task_platform.Domain.Job.{Job, validate_job}
use task_platform.Domain.Schedule.{
  Schedule, validate_schedule, one_day, plus_seconds, at_time_of_day, compute_next_run,
}
use task_platform.Db.Tables.{
  JobRecord, ScheduleRecord, ExecutionRecord, JobLogRecord, IdempotencyRecord, Database,
  empty_database, is_attempt, update_first, update_where, count_where, sort_by,
}

unfoldable pub job_to_record : Job → JobRecord
job_to_record job = record {
  id = job.id;
  name = job.name;
  job_type = job.job_type;
  handler = job.handler;
  timeout_seconds = job.timeout_seconds;
  retry_max_attempts = job.retry_policy.max_attempts;
  retry_backoff = job.retry_policy.backoff;
  retry_base_delay_seconds = job.retry_policy.base_delay_seconds;
  retry_max_delay_seconds = job.retry_policy.max_delay_seconds;
  enabled = job.enabled;
  created_at = job.created_at;
}

unfoldable pub update_job_record : JobRecord → Job → JobRecord
update_job_record r job = record r {
  name = job.name;
  job_type = job.job_type;
  handler = job.handler;
  timeout_seconds = job.timeout_seconds;
  retry_max_attempts = job.retry_policy.max_attempts;
  retry_backoff = job.retry_policy.backoff;
  retry_base_delay_seconds = job.retry_policy.base_delay_seconds;
  retry_max_delay_seconds = job.retry_policy.max_delay_seconds;
  enabled = job.enabled;
}

-- The constructors `RetryPolicy(...)` and `Job(...)` check their fields.
unfoldable pub record_to_job : JobRecord → Result Job
record_to_job r =
    and_then
      (validate_policy (record {
        max_attempts = r.retry_max_attempts;
        backoff = r.retry_backoff;
        base_delay_seconds = r.retry_base_delay_seconds;
        max_delay_seconds = r.retry_max_delay_seconds;
      }))
      λ policy. validate_job (record {
        name = r.name;
        job_type = r.job_type;
        handler = r.handler;
        id = r.id;
        timeout_seconds = r.timeout_seconds;
        retry_policy = policy;
        enabled = r.enabled;
        created_at = r.created_at;
      })

unfoldable pub schedule_to_record : Schedule → ScheduleRecord
schedule_to_record s = record {
  id = s.id;
  job_id = s.job_id;
  schedule_type = s.schedule_type;
  interval_seconds = s.interval_seconds;
  time_of_day = s.time_of_day;
  enabled = s.enabled;
}

unfoldable pub update_schedule_record : ScheduleRecord → Schedule → ScheduleRecord
update_schedule_record r s = record r {
  schedule_type = s.schedule_type;
  interval_seconds = s.interval_seconds;
  time_of_day = s.time_of_day;
  enabled = s.enabled;
}

unfoldable pub record_to_schedule : ScheduleRecord → Result Schedule
record_to_schedule r = validate_schedule (record {
  job_id = r.job_id;
  schedule_type = r.schedule_type;
  id = r.id;
  interval_seconds = r.interval_seconds;
  time_of_day = r.time_of_day;
  enabled = r.enabled;
})

-- The table gives the new row its number.
unfoldable pub execution_to_record : ℕ → JobExecution → ExecutionRecord
execution_to_record id e = record {
  id = id;
  run_id = e.run_id;
  job_id = e.job_id;
  attempt = e.attempt;
  status = e.status;
  started_at = e.started_at;
  finished_at = e.finished_at;
  error_message = e.error_message;
  timeout_seconds = e.timeout_seconds;
  max_attempts = e.max_attempts;
  cancel_requested = e.cancel_requested;
  next_retry_at = e.next_retry_at;
}

-- `cancel_requested` belongs to the database and is not written back.
unfoldable pub update_execution_record : ExecutionRecord → JobExecution → ExecutionRecord
update_execution_record r e = record r {
  status = e.status;
  started_at = e.started_at;
  finished_at = e.finished_at;
  error_message = e.error_message;
  timeout_seconds = e.timeout_seconds;
  max_attempts = e.max_attempts;
  next_retry_at = e.next_retry_at;
}

unfoldable pub record_to_execution : ExecutionRecord → JobExecution
record_to_execution r = record {
  job_id = r.job_id;
  run_id = r.run_id;
  status = r.status;
  attempt = r.attempt;
  started_at = r.started_at;
  finished_at = r.finished_at;
  error_message = r.error_message;
  timeout_seconds = r.timeout_seconds;
  max_attempts = r.max_attempts;
  cancel_requested = r.cancel_requested;
  next_retry_at = r.next_retry_at;
}

unfoldable pub log_to_record : ℕ → JobLog → JobLogRecord
log_to_record id l = record {
  id = id;
  run_id = l.run_id;
  attempt = l.attempt;
  level = l.level;
  message = l.message;
  created_at = l.created_at;
}

unfoldable pub record_to_log : JobLogRecord → JobLog
record_to_log r = record {
  run_id = r.run_id;
  attempt = r.attempt;
  level = r.level;
  message = r.message;
  created_at = r.created_at;
}
