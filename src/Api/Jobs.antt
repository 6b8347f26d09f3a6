-- ===== src/Api/Jobs.antt =====
-- api/routers/jobs.py: the routes under /api/v1/jobs, each with the database that its session reads and
-- writes. The id and the creation time of a new job are arguments.
pub mod Created
pub mod Switched
use task_platform.Common.{
  ℕ, zero, suc, ◌+◌, ◌-◌, ◌*◌, ◌/◌, ◌%◌, ◌^◌, ◌≤◌, ◌<◌, ◌≡◌, refl, sym, ap, ◌∙◌, ◌≢◌, ◌↔◌, ◌⊎◌, inl,
  inr, Bool, true, false, not, ◌&&◌, ◌||◌, Option, none, some, List, [], ◌∷◌, ◌++◌, map, reverse,
  arith, ltb, leb, ◌==◌, if◌then◌else◌, ltb→lt, lt→ltb, leb→le, le→leb, ==_iff, tests, Bool-cases,
  Option-cases, is_some, length, get_last?, take, drop, filter, any, all, find?, sort_with, All,
  length-append, ℤ, pos, negsuc, pos_part, neg_part, sub_ℕ, ◌+ℤ◌, ◌-ℤ◌, ◌*ℤ◌, ◌≤ℤ◌, ltb_ℤ, +ℤ_parts,
  -ℤ_parts, eq_of_parts, int_laws, Text, codes, text_eq, text_eq_iff, text_eq_self, text_ltb,
  remove_prefix?, is_space, is_blank,
}
use task_platform.Domain.Status.{
  JobStatus, pending, queued, running, success, retrying, failed, canceled, recoverable, JobType,
  demo_success, demo_failure, demo_slow, custom, BackoffStrategy, fixed, exponential, ScheduleType,
  interval, daily, rank, status_eq, status_eq_iff, is_terminal,
}
use task_platform.Domain.Effects.{
  Error, value_error, assertion_error, invalid_transition, job_not_registered, duplicate_job_name,
  entity_not_found, integrity_error, invalid_message, job_canceled, handler_timeout, handler_error,
  queue_error, api_error, Result, ok, err, injective_ok, Action, and_then, pure, raise, lift, gets,
  modify, continue, ◌>>=◌, ◌>>◌, >>=-eq-ok, >>=-eq-err, >>=-keeps, on_part,
}
use task_platform.Domain.Execution.{
  Instant, Seconds, one_second, JobExecution, new_execution, duration_seconds, JobLog,
}
use task_platform.Domain.Retry.{
  RetryPolicy, validate_policy, default_policy, min_seconds, delay_for_attempt, allows_retry,
}
use task_platform.Domain.Job.{Job, validate_job}
use task_platform.Db.Tables.{
  JobRecord, ScheduleRecord, ExecutionRecord, JobLogRecord, IdempotencyRecord, Database,
  empty_database, is_attempt, update_first, update_where, count_where, sort_by,
}
use task_platform.Db.Session.{settle, session_scope, session_scope-eq-ok, session_scope-eq-err}
use task_platform.Db.Jobs
use task_platform.Db.Executions
use task_platform.Db.Logs
use task_platform.Db.Pages
use task_platform.Api.Schemas.{
  RetryPolicyIn, JobCreate, Change, unset, null, set, JobUpdate, is_valid_policy, validate_create,
  validate_update, to_policy, JobResponse, ExecutionResponse, execution_response, RunDetailResponse,
  CancelResponse, PageResponse, page_response, is_between, is_empty, is_valid_name,
}
use task_platform.Api.Errors.{
  Response, replied, refused, to_response, respond, validated, respond-eq-ok, respond-eq-api_error,
}
use task_platform.Registry
use task_platform.Registry.{TaskRegistry}
use task_platform.Collector
use task_platform.Collector.{LogCollector}
use task_platform.Executor.Attempt.{
  resolve_timeout_seconds, resolve_retry_policy, AttemptResult, Surroundings, chosen_run_id,
  finish_attempt, start_attempt, with_limits, execute_attempt, cancel_before_start,
}

abbrev pub name_conflict : Text → Error
name_conflict name = api_error 409 (codes "job_name_conflict") (codes "任务名称已存在: " ++ name)

abbrev pub job_not_found : Text → Error
job_not_found job_id = api_error 404 (codes "job_not_found") (codes "任务不存在: " ++ job_id)

abbrev pub handler_not_registered : ℕ → Text → Error
handler_not_registered status handler =
    api_error status (codes "handler_not_registered") (codes "handler 未注册: " ++ handler)

abbrev or_raise : {S A : Type 0} → Error → Option A → Action S A
or_raise e none = raise e
or_raise e (some a) = pure a

-- `_get_or_404`
unfoldable pub get_or_404 : Text → Action Database Job
get_or_404 job_id = do found ← Jobs.get job_id; or_raise (job_not_found job_id) found

-- `except IntegrityError: raise _name_conflict(name)`
abbrev pub as_conflict : Text → Result Unit → Result Unit
as_conflict name (err integrity_error) = err (name_conflict name)
as_conflict name result = result

abbrev pub or_conflict : Text → Action Database Unit → Action Database Unit
or_conflict name m db = let (result, after) = m db in (as_conflict name result, after)

abbrev refuse_if : {S : Type 0} → Bool → Error → Action S Unit
refuse_if true e = raise e
refuse_if false e = pure tt

unfoldable pub list_jobs : Option Bool → ℕ → ℕ → Action Database (PageResponse JobResponse)
list_jobs enabled page page_size = do
  result ← (λ db. (Pages.list_jobs enabled page page_size db, db))
  pure (page_response (λ j. j) result)

-- `Job(...)` with the fields of the request.
unfoldable pub new_job : Text → Instant → JobCreate → Result Job
unfolding to_policy validate_job
new_job new_id now payload = and_then (to_policy payload.retry_policy) λ policy.
    validate_job (record {
      name = payload.name;
      job_type = payload.job_type;
      handler = payload.handler;
      id = new_id;
      timeout_seconds = payload.timeout_seconds;
      retry_policy = policy;
      enabled = payload.enabled;
      created_at = now;
    })

unfoldable pub create_job : TaskRegistry → Text → Instant → JobCreate → Action Database JobResponse
unfolding new_job
create_job registry new_id now payload = do
  refuse_if (not (Registry.is_registered payload.handler registry))
      (handler_not_registered 422 payload.handler)
  existing ← Jobs.get_by_name payload.name
  refuse_if (is_some existing) (name_conflict payload.name)
  job ← lift (new_job new_id now payload)
  or_conflict payload.name (Jobs.add job)
  pure job

unfoldable pub get_job : Text → Action Database JobResponse
unfolding get_or_404
get_job job_id = get_or_404 job_id

abbrev rename : Change Text → Job → Action Database Job
rename (set name) job =
    if text_eq name job.name
    then pure job
    else (Jobs.get_by_name name >>= λ existing.
        refuse_if (is_some existing) (name_conflict name) >> pure (record job { name = name }))
rename _ job = pure job

abbrev with_timeout : Change Seconds → Job → Job
with_timeout (set t) job = record job { timeout_seconds = t }
with_timeout _ job = job

abbrev with_policy : Change RetryPolicyIn → Job → Result Job
with_policy (set p) job =
    and_then (to_policy p) (λ policy. ok (record job { retry_policy = policy }))
with_policy _ job = ok job

abbrev with_enabled : Change Bool → Job → Job
with_enabled (set b) job = record job { enabled = b }
with_enabled _ job = job

unfoldable pub update_job : Text → JobUpdate → Action Database JobResponse
unfolding get_or_404 to_policy
update_job job_id payload = do
  job ← get_or_404 job_id
  renamed ← rename payload.name job
  changed ← lift (with_policy payload.retry_policy (with_timeout payload.timeout_seconds renamed))
  let final = with_enabled payload.enabled changed
  or_conflict final.name (Jobs.update final)
  pure final

unfoldable pub delete_job : Text → Action Database Unit
delete_job job_id = do deleted ← Jobs.delete job_id; refuse_if (not deleted) (job_not_found job_id)

unfoldable pub set_enabled : Bool → Text → Action Database JobResponse
unfolding get_or_404
set_enabled enabled job_id = do
  job ← get_or_404 job_id
  let changed = record job { enabled = enabled }
  Jobs.update changed
  pure changed

unfoldable pub pause_job : Text → Action Database JobResponse
unfolding set_enabled
pause_job job_id = set_enabled false job_id

unfoldable pub resume_job : Text → Action Database JobResponse
unfolding set_enabled
resume_job job_id = set_enabled true job_id

-- What a run shares with the process: its session and the collector of log lines.
pub record Server : Type 0 where
  pub db : Database
  pub collector : LogCollector

abbrev on_db : {A : Type 0} → Action Database A → Action Server A
on_db m = on_part (λ (s : Server). s.db) (λ db s. record s { db = db }) m

-- `except JobNotRegisteredError: raise ApiError(409, ...)`
abbrev as_unregistered : {A : Type 0} → Text → Result A → Result A
as_unregistered handler (err (job_not_registered name)) = err (handler_not_registered 409 handler)
as_unregistered handler result = result

abbrev or_unregistered : {S A : Type 0} → Text → Action S A → Action S A
or_unregistered handler m s = let (result, after) = m s in (as_unregistered handler result, after)

abbrev drain_logs : Text → ℕ → Action Server (List JobLog)
drain_logs run_id attempt s =
    let (logs, rest) = Collector.drain run_id attempt s.collector in
    (ok logs, record s { collector = rest })

abbrev add_logs : List JobLog → Action Database Unit
add_logs [] = pure tt
add_logs (l ∷ logs) = Logs.add_many (l ∷ logs)

unfoldable pub run_job : TaskRegistry → Surroundings Server → Text → Action Server ExecutionResponse
unfolding get_or_404 execute_attempt execution_response
run_job registry world job_id = do
  job ← on_db (get_or_404 job_id)
  result ← or_unregistered job.handler (execute_attempt job registry 1 none (λ e. pure tt) world)
  let execution = result.execution
  logs ← drain_logs execution.run_id execution.attempt
  on_db (Executions.add execution)
  on_db (add_logs logs)
  pure (execution_response execution)
