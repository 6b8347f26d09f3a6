-- ===== src/Db/Jobs.antt =====
-- JobRepository of infrastructure/db/repositories.py.
pub mod Stored
use task_platform.Common.{
  Bool, true, false, not, ◌&&◌, ◌||◌, Option, none, some, [], ◌∷◌, ◌++◌, if◌then◌else◌, filter, any,
  find?, Text, text_eq, List, ltb, ◌==◌, sort_with, text_ltb, ℕ, zero, suc, ◌+◌, ◌-◌, ◌*◌, ◌/◌, ◌%◌,
  ◌^◌, ◌≤◌, ◌<◌, ◌≡◌, refl, sym, ap, ◌∙◌, ◌≢◌, ◌↔◌, ◌⊎◌, inl, inr, map, reverse, arith, leb, ltb→lt,
  lt→ltb, leb→le, le→leb, ==_iff, tests, Bool-cases, Option-cases, is_some, length, get_last?, take,
  drop, all, All, length-append, ℤ, pos, negsuc, pos_part, neg_part, sub_ℕ, ◌+ℤ◌, ◌-ℤ◌, ◌*ℤ◌, ◌≤ℤ◌,
  ltb_ℤ, +ℤ_parts, -ℤ_parts, eq_of_parts, int_laws, codes, text_eq_iff, text_eq_self,
  remove_prefix?, is_space, is_blank,
}
use task_platform.Domain.Effects.{
  entity_not_found, integrity_error, Result, ok, err, Action, and_then, Error, value_error,
  assertion_error, invalid_transition, job_not_registered, duplicate_job_name, invalid_message,
  job_canceled, handler_timeout, handler_error, queue_error, api_error, injective_ok, pure, raise,
  lift, gets, modify, continue, ◌>>=◌, ◌>>◌, >>=-eq-ok, >>=-eq-err, >>=-keeps, on_part,
}
use task_platform.Domain.Job.{Job, validate_job}
use task_platform.Db.Tables.{
  JobRecord, ExecutionRecord, Database, is_attempt, update_first, ScheduleRecord, JobLogRecord,
  IdempotencyRecord, empty_database, update_where, count_where, sort_by,
}
use task_platform.Db.Mappers.{
  job_to_record, update_job_record, record_to_job, schedule_to_record, update_schedule_record,
  record_to_schedule, execution_to_record, update_execution_record, record_to_execution,
  log_to_record, record_to_log,
}

abbrev pub has_id : Text → JobRecord → Bool
has_id job_id r = text_eq r.id job_id

abbrev pub has_name : Text → JobRecord → Bool
has_name name r = text_eq r.name name

-- Reading a row builds a Job, whose constructor may raise.
abbrev pub read_row : Option JobRecord → Result (Option Job)
read_row none = ok none
read_row (some r) = and_then (record_to_job r) (λ j. ok (some j))

unfoldable pub get : Text → Action Database (Option Job)
get job_id db = (read_row (find? (has_id job_id) db.jobs), db)

unfoldable pub get_by_name : Text → Action Database (Option Job)
get_by_name name db = (read_row (find? (has_name name) db.jobs), db)

abbrev is_earlier : JobRecord → JobRecord → Bool
is_earlier a b =
    ltb a.created_at b.created_at || ((a.created_at == b.created_at) && text_ltb a.name b.name)

-- `ORDER BY created_at, name`
abbrev pub in_order : List JobRecord → List JobRecord
in_order rows = sort_with is_earlier rows

abbrev pub read_rows : List JobRecord → Result (List Job)
read_rows [] = ok []
read_rows (r ∷ rows) =
    and_then (record_to_job r) (λ j. and_then (read_rows rows) (λ rest. ok (j ∷ rest)))

unfoldable pub list_all : Action Database (List Job)
list_all db = (read_rows (in_order db.jobs), db)

-- The primary key and the unique name.
unfoldable pub add : Job → Action Database Unit
add job db =
    if any (has_id job.id) db.jobs || any (has_name job.name) db.jobs
    then (err integrity_error, db)
    else (ok tt, record db { jobs = db.jobs ++ job_to_record job ∷ [] })

update_found : Job → Option JobRecord → Action Database Unit
update_found job none db = (err entity_not_found, db)
update_found job (some r) db =
    if any (λ o. has_name job.name o && not (has_id job.id o)) db.jobs
    then (err integrity_error, db)
    else (
      ok tt,
      record db { jobs = update_first (has_id job.id) (λ o. update_job_record o job) db.jobs },
    )

unfoldable pub update : Job → Action Database Unit
unfolding update_found
update job db = update_found job (find? (has_id job.id) db.jobs) db

-- `ON DELETE CASCADE`: the schedules, executions and keys of the job, and the logs of its attempts.
cascade : Text → Database → Database
cascade job_id db =
    let gone = filter (λ (e : ExecutionRecord). text_eq e.job_id job_id) db.executions in
    record db {
      jobs = filter (λ r. not (has_id job_id r)) db.jobs;
      schedules = filter (λ s. not (text_eq s.job_id job_id)) db.schedules;
      executions = filter (λ e. not (text_eq e.job_id job_id)) db.executions;
      logs = filter (λ l. not (any (is_attempt l.run_id l.attempt) gone)) db.logs;
      keys = filter (λ k. not (text_eq k.job_id job_id)) db.keys;
    }

unfoldable pub delete : Text → Action Database Bool
unfolding cascade
delete job_id db =
    if any (has_id job_id) db.jobs then (ok true, cascade job_id db) else (ok false, db)
