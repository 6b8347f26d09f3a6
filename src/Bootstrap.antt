-- ===== src/Bootstrap.antt =====
-- bootstrap.py: the jobs that the code defines, their reconciliation with the database by name, and the
-- schedules that a process starts with. A new job draws its id and its time of creation; they are given
-- for each handler.
pub mod Synced
pub mod Active
use task_platform.Common.{
  ℕ, zero, suc, ◌+◌, ◌-◌, ◌*◌, ◌/◌, ◌%◌, ◌^◌, ◌≤◌, ◌<◌, ◌≡◌, refl, sym, ap, ◌∙◌, ◌≢◌, ◌↔◌, ◌⊎◌, inl,
  inr, Bool, true, false, not, ◌&&◌, ◌||◌, Option, none, some, List, [], ◌∷◌, ◌++◌, map, reverse,
  arith, ltb, leb, ◌==◌, if◌then◌else◌, ltb→lt, lt→ltb, leb→le, le→leb, ==_iff, tests, Bool-cases,
  Option-cases, is_some, length, get_last?, take, drop, filter, any, all, find?, sort_with, All,
  length-append, ℤ, pos, negsuc, pos_part, neg_part, sub_ℕ, ◌+ℤ◌, ◌-ℤ◌, ◌*ℤ◌, ◌≤ℤ◌, ltb_ℤ, +ℤ_parts,
  -ℤ_parts, eq_of_parts, int_laws, Text, codes, text_eq, text_eq_iff, text_eq_self, text_ltb,
  remove_prefix?, is_space, is_blank,
}
use task_platform.Domain.Status.{
  JobStatus, pending, queued, running, success, retrying, failed, canceled, recoverable, JobType,
  demo_success, demo_failure, demo_slow, custom, BackoffStrategy, fixed, exponential, ScheduleType,
  interval, daily, rank, status_eq, status_eq_iff, is_terminal,
}
use task_platform.Domain.Effects.{
  Error, value_error, assertion_error, invalid_transition, job_not_registered, duplicate_job_name,
  entity_not_found, integrity_error, invalid_message, job_canceled, handler_timeout, handler_error,
  queue_error, api_error, Result, ok, err, injective_ok, Action, and_then, and_then-eq-ok, pure,
  raise, lift, gets, modify, continue, ◌>>=◌, ◌>>◌, >>=-eq-ok, >>=-eq-err, >>=-keeps, on_part,
}
use task_platform.Domain.Execution.{
  Instant, Seconds, one_second, JobExecution, new_execution, duration_seconds, JobLog,
}
use task_platform.Domain.Retry.{
  RetryPolicy, validate_policy, default_policy, min_seconds, delay_for_attempt, allows_retry,
}
use task_platform.Domain.Job.{Job, validate_job}
use task_platform.Domain.Schedule.{
  one_day, Schedule, validate_schedule, plus_seconds, at_time_of_day, compute_next_run,
}
use task_platform.Db.Tables.{
  JobRecord, ScheduleRecord, ExecutionRecord, JobLogRecord, IdempotencyRecord, Database,
  empty_database, is_attempt, update_first, update_where, count_where, sort_by,
}
use task_platform.Db.Jobs
use task_platform.Db.Schedules
use task_platform.Registry
use task_platform.Registry.{RegisteredHandler, TaskRegistry}
use task_platform.Common.Dict
use task_platform.Common.Dict.{Dict, Key, text_key}

-- `_EXPLICIT_JOB_DEFINITIONS`
abbrev pub explicit_definitions : List (Text × JobType)
explicit_definitions =
    (codes "demo.success", demo_success)
    ∷ (codes "demo.failure", demo_failure)
    ∷ (codes "demo.slow", demo_slow)
    ∷ []

-- `_auto_job_name`: "." is 46 and "-" is 45.
unfoldable pub auto_job_name : Text → Text
auto_job_name handler_name = map (λ c. if c == 46 then 45 else c) handler_name

-- The draws of `Job(...)` for the job of a handler.
pub record Draws : Type 0 where
  pub new_id : Text → Text
  pub created_at : Text → Instant

unfoldable pub define_job : Draws → JobType → Text → Result Job
unfolding auto_job_name validate_job
define_job draws job_type handler_name = validate_job (record {
  name = auto_job_name handler_name;
  job_type = job_type;
  handler = handler_name;
  id = draws.new_id handler_name;
  timeout_seconds = pos (30 * one_second);
  retry_policy = default_policy;
  enabled = true;
  created_at = draws.created_at handler_name;
})

abbrev set_timeout : Option Seconds → Job → Job
set_timeout none job = job
set_timeout (some t) job = record job { timeout_seconds = t }

abbrev set_policy : Option RetryPolicy → Job → Job
set_policy none job = job
set_policy (some p) job = record job { retry_policy = p }

-- `_build_job_from_handler`
unfoldable pub build_job_from_handler : Draws → RegisteredHandler → Result Job
unfolding define_job
build_job_from_handler draws h =
    and_then (define_job draws custom h.name)
      λ job. ok (set_policy h.retry_policy (set_timeout h.timeout_seconds job))

abbrev pub is_explicit : Text → Bool
is_explicit name = any (λ (d : Text × JobType). text_eq d.0 name) explicit_definitions

-- The two loops of `build_jobs`.
abbrev build_explicit :
    Draws → TaskRegistry → List (Text × JobType) → Dict Text Job → Result (Dict Text Job)
build_explicit draws registry [] jobs = ok jobs
build_explicit draws registry ((handler_name, job_type) ∷ rest) jobs =
    if Registry.is_registered handler_name registry
    then and_then (define_job draws job_type handler_name)
        (λ job. build_explicit draws registry rest (Dict.put jobs (auto_job_name handler_name) job))
    else build_explicit draws registry rest jobs

abbrev build_others : Draws → TaskRegistry → List Text → Dict Text Job → Result (Dict Text Job)
build_others draws registry [] jobs = ok jobs
build_others draws registry (handler_name ∷ rest) jobs =
    if is_explicit handler_name
    then build_others draws registry rest jobs
    else and_then (Registry.get handler_name registry) (λ handler.
      and_then (build_job_from_handler draws handler)
        (λ job. build_others draws registry rest (Dict.put jobs job.name job)))

unfoldable pub build_jobs : Draws → TaskRegistry → Result (Dict Text Job)
unfolding build_job_from_handler
build_jobs draws registry =
    and_then (build_explicit draws registry explicit_definitions [])
      (λ jobs. build_others draws registry (Registry.list_names registry) jobs)

-- What of an existing job the code's definition overwrites.
abbrev pub with_definition : Job → Job → Job
with_definition code_job existing = record existing {
  job_type = code_job.job_type;
  handler = code_job.handler;
  timeout_seconds = code_job.timeout_seconds;
  retry_policy = code_job.retry_policy;
}

abbrev sync_found : Job → Option Job → Action Database Job
sync_found code_job none = Jobs.add code_job >> pure code_job
sync_found code_job (some existing) =
    Jobs.update (with_definition code_job existing) >> pure (with_definition code_job existing)

-- The body of the loop of `sync_jobs_to_db`.
unfoldable pub sync_job : Text → Job → Action Database Job
sync_job name code_job = do existing ← Jobs.get_by_name name; sync_found code_job existing

unfoldable pub sync_all : Dict Text Job → Dict Text Job → Action Database (Dict Text Job)
unfolding sync_job
sync_all [] synced = pure synced
sync_all ((name, code_job) ∷ rest) synced =
    sync_job name code_job >>= λ job. sync_all rest (Dict.put synced name job)

unfoldable pub sync_jobs_to_db : Draws → TaskRegistry → Action Database (Dict Text Job)
unfolding build_jobs sync_all
sync_jobs_to_db draws registry = do desired ← lift (build_jobs draws registry); sync_all desired []

abbrev pub pairs_with : Job → List Schedule → List (Job × Schedule)
pairs_with job schedules = map (λ s. (job, s)) (filter (λ (s : Schedule). s.enabled) schedules)

abbrev pub load_pairs : List Job → Action Database (List (Job × Schedule))
load_pairs [] = pure []
load_pairs (job ∷ jobs) =
    if job.enabled
    then (Schedules.list_by_job job.id >>= λ schedules.
        load_pairs jobs >>= λ rest. pure (pairs_with job schedules ++ rest))
    else load_pairs jobs

unfoldable pub load_active_schedules : Action Database (List (Job × Schedule))
load_active_schedules = do jobs ← Jobs.list_all; load_pairs jobs
