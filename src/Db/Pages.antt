-- ===== src/Db/Pages.antt =====
-- Pagination in infrastructure/db/repositories.py. A page number or size below zero is refused as 0
-- is, so both are natural numbers.
pub mod Whole
use task_platform.Common.{
  ℕ, ◌+◌, ◌-◌, ◌*◌, ◌/◌, ◌%◌, Bool, true, false, ◌&&◌, Option, none, some, List, map, reverse, ltb,
  leb, ◌==◌, if◌then◌else◌, length, take, drop, filter, Text, text_eq, not, zero, suc, ◌^◌, ◌≤◌,
  ◌<◌, ◌≡◌, refl, sym, ap, ◌∙◌, ◌≢◌, ◌↔◌, ◌⊎◌, inl, inr, ◌||◌, [], ◌∷◌, ◌++◌, arith, ltb→lt, lt→ltb,
  leb→le, le→leb, ==_iff, tests, Bool-cases, Option-cases, is_some, get_last?, any, all, find?,
  sort_with, All, length-append, ℤ, pos, negsuc, pos_part, neg_part, sub_ℕ, ◌+ℤ◌, ◌-ℤ◌, ◌*ℤ◌, ◌≤ℤ◌,
  ltb_ℤ, +ℤ_parts, -ℤ_parts, eq_of_parts, int_laws, codes, text_eq_iff, text_eq_self, text_ltb,
  remove_prefix?, is_space, is_blank,
}
use task_platform.Domain.Status.{
  JobStatus, status_eq, pending, queued, running, success, retrying, failed, canceled, recoverable,
  JobType, demo_success, demo_failure, demo_slow, custom, BackoffStrategy, fixed, exponential,
  ScheduleType, interval, daily, rank, status_eq_iff, is_terminal,
}
use task_platform.Domain.Effects.{
  value_error, Result, ok, err, and_then, Error, assertion_error, invalid_transition,
  job_not_registered, duplicate_job_name, entity_not_found, integrity_error, invalid_message,
  job_canceled, handler_timeout, handler_error, queue_error, injective_ok, Action, pure, raise,
  lift, gets, modify, continue, ◌>>=◌, ◌>>◌, >>=-eq-ok, >>=-eq-err, >>=-keeps, on_part,
}
use task_platform.Domain.Execution.{
  Instant, JobExecution, JobLog, Seconds, one_second, new_execution, duration_seconds,
}
use task_platform.Db.Tables.{
  ExecutionRecord, JobLogRecord, Database, JobRecord, ScheduleRecord, IdempotencyRecord,
  empty_database, is_attempt, update_first, update_where, count_where, sort_by,
}
use task_platform.Domain.Job.{Job, validate_job}
use task_platform.Db.Jobs
use task_platform.Db.Mappers.{
  record_to_execution, record_to_log, job_to_record, update_job_record, record_to_job,
  schedule_to_record, update_schedule_record, record_to_schedule, execution_to_record,
  update_execution_record, log_to_record,
}

pub record Page (A : Type 0) : Type 0 where
  pub items : List A
  pub total : ℕ
  pub page : ℕ
  pub page_size : ℕ

-- The source rounds up by negating twice.
unfoldable pub total_pages : {A : Type 0} → Page A → ℕ
total_pages p =
    if p.page_size == 0
    then 0
    else if p.total % p.page_size == 0
    then p.total / p.page_size
    else p.total / p.page_size + 1

unfoldable pub validate_pagination : ℕ → ℕ → Result Unit
validate_pagination page page_size =
    if ltb page 1 then err value_error else if ltb page_size 1 then err value_error else ok tt

abbrev same_bool : Bool → Bool → Bool
same_bool true b = b
same_bool false b = not b

-- `OFFSET` and `LIMIT` on the selected rows, with their number.
abbrev page_of : {A B : Type 0} → (A → B) → ℕ → ℕ → List A → Result (Page B)
page_of read page page_size rows = and_then (validate_pagination page page_size) (λ _. ok (record {
  items = map read (take page_size (drop ((page - 1) * page_size) rows));
  total = length rows;
  page = page;
  page_size = page_size;
}))

abbrev pub accepts : {A : Type 0} → (A → Bool) → Option A → Bool
accepts test none = true
accepts test (some a) = test a

abbrev pub at_least : Option Instant → Instant → Bool
at_least none bound = false
at_least (some t) bound = leb bound t

abbrev at_most : Option Instant → Instant → Bool
at_most none bound = false
at_most (some t) bound = leb t bound

-- A comparison with NULL selects nothing.
abbrev pub selected :
    Option Text → Option JobStatus → Option Instant → Option Instant → ExecutionRecord → Bool
selected job_id status started_after started_before r =
    accepts (text_eq r.job_id) job_id
    && (accepts (status_eq r.status) status
        && (accepts (at_least r.started_at) started_after
            && accepts (at_most r.started_at) started_before))

-- `ExecutionRepository.list_paginated`, by descending id.
unfoldable pub list_executions :
    Option Text
    → Option JobStatus
    → Option Instant
    → Option Instant
    → ℕ
    → ℕ
    → Database
    → Result (Page JobExecution)
unfolding validate_pagination
list_executions job_id status started_after started_before page page_size db =
    page_of record_to_execution page page_size
      (reverse (filter (selected job_id status started_after started_before) db.executions))

-- `JobRepository.list_paginated`: what was selected is read after the rows are cut to the page.
unfoldable pub list_jobs : Option Bool → ℕ → ℕ → Database → Result (Page Job)
unfolding validate_pagination
list_jobs enabled page page_size db =
    let rows =
      Jobs.in_order (filter (λ (r : JobRecord). accepts (same_bool r.enabled) enabled) db.jobs) in
    and_then (page_of (λ r. r) page page_size rows) λ p. and_then (Jobs.read_rows p.items) λ items.
      ok (record { items = items; total = p.total; page = p.page; page_size = p.page_size })

abbrev is_of_run : Text → Option ℕ → JobLogRecord → Bool
is_of_run run_id attempt r = text_eq r.run_id run_id && accepts (λ n. r.attempt == n) attempt

-- `JobLogRepository.list_by_run`, by ascending id.
unfoldable pub list_logs : Text → Option ℕ → ℕ → ℕ → Database → Result (Page JobLog)
unfolding validate_pagination
list_logs run_id attempt page page_size db =
    page_of record_to_log page page_size (filter (is_of_run run_id attempt) db.logs)
