-- ===== src/Worker.antt =====
-- `Worker.process` of worker.py and what it calls. The heartbeat and other processes act on the state
-- while the handler runs (`meanwhile`); each transaction is one step.
pub mod Saved
pub mod Fetch
pub mod Redelivery
pub mod Acks
use task_platform.Common.{
  ℕ, Bool, true, false, Option, none, some, List, [], ◌∷◌, ◌++◌, if◌then◌else◌, Text, codes,
  text_eq, zero, suc, ◌+◌, ◌-◌, ◌*◌, ◌/◌, ◌%◌, ◌^◌, ◌≤◌, ◌<◌, ◌≡◌, refl, sym, ap, ◌∙◌, ◌≢◌, ◌↔◌,
  ◌⊎◌, inl, inr, not, ◌&&◌, ◌||◌, map, reverse, arith, ltb, leb, ◌==◌, ltb→lt, lt→ltb, leb→le,
  le→leb, ==_iff, tests, Bool-cases, Option-cases, is_some, length, get_last?, take, drop, filter,
  any, all, find?, All, length-append, ℤ, pos, negsuc, pos_part, neg_part, sub_ℕ, ◌+ℤ◌, ◌-ℤ◌, ◌*ℤ◌,
  ◌≤ℤ◌, ltb_ℤ, +ℤ_parts, -ℤ_parts, eq_of_parts, int_laws, text_eq_iff, text_eq_self, remove_prefix?,
  is_space, is_blank,
}
use task_platform.Common.Dict.{
  text_key, nat_key, Key, Dict, get, put, pop, has, get-cons, get-put, get-pop, IsDict, put-IsDict,
  pop-IsDict, pop_absent, length-pop, keys, keys-put,
}
use task_platform.Domain.Status.{
  JobStatus, queued, running, success, retrying, failed, canceled, recoverable, pending, JobType,
  demo_success, demo_failure, demo_slow, custom, BackoffStrategy, fixed, exponential, ScheduleType,
  interval, daily, rank, status_eq, status_eq_iff, is_terminal,
}
use task_platform.Domain.Effects.{
  job_not_registered, Result, ok, err, Action, and_then, pure, lift, gets, ◌>>=◌, ◌>>◌, Error,
  value_error, assertion_error, invalid_transition, duplicate_job_name, entity_not_found,
  integrity_error, invalid_message, job_canceled, handler_timeout, handler_error, queue_error,
  raise, modify, continue, >>=-eq-ok, on_part, >>=-eq-err, >>=-keeps,
}
use task_platform.Domain.Execution.{
  Instant, JobExecution, new_execution, JobLog, Seconds, one_second, duration_seconds,
}
use task_platform.Domain.Cancel
use task_platform.Domain.Cancel.{ActiveRuns}
use task_platform.Domain.Job.{Job, validate_job}
use task_platform.Domain.Retry.{
  delay_for_attempt, RetryPolicy, validate_policy, default_policy, min_seconds, allows_retry,
}
use task_platform.Domain.Schedule.{
  plus_seconds, one_day, Schedule, validate_schedule, at_time_of_day, compute_next_run,
}
use task_platform.Domain.StateMachine.{transition, allowed_transitions, can_transition}
use task_platform.Queue.Message.{TaskMessage, Delivery, validate_message}
use task_platform.Queue.Memory
use task_platform.Queue.Memory.{MemoryQueue}
use task_platform.Db.Tables.{
  Database, JobRecord, ScheduleRecord, ExecutionRecord, JobLogRecord, IdempotencyRecord,
  empty_database, is_attempt, update_first, update_where, count_where, sort_by,
}
use task_platform.Db.Session.{session_scope, settle, session_scope-eq-ok, session_scope-eq-err}
use task_platform.Db.Jobs
use task_platform.Db.Executions
use task_platform.Db.Logs
use task_platform.Db.Keys
use task_platform.Collector
use task_platform.Collector.{LogCollector}
use task_platform.Registry.{
  TaskRegistry, RegisteredHandler, register, is_registered, list_names, clear,
}
use task_platform.Executor.Attempt.{
  AttemptResult, Surroundings, execute_attempt, resolve_timeout_seconds, resolve_retry_policy,
  chosen_run_id, finish_attempt, with_limits, cancel_before_start, start_attempt,
}

-- `_HANDLED_STATUSES`
unfoldable pub is_handled : JobStatus → Bool
is_handled success = true
is_handled failed = true
is_handled canceled = true
is_handled retrying = true
is_handled recoverable = true
is_handled _ = false

pub data Outcome : Type 0 where
  finished retry_scheduled dropped unrunnable duplicate : Outcome

pub record ProcessResult : Type 0 where
  pub outcome : Outcome
  pub execution : Option JobExecution

pub record World : Type 0 where
  pub db : Database
  pub queue : MemoryQueue
  pub active : ActiveRuns
  pub logs : LogCollector

module _ {A : Type 0} where
  -- A transaction on the database.
  abbrev pub in_session : Action Database A → Action World A
  in_session m w = let (r, db) = session_scope m w.db in (r, record w { db = db })

abbrev pub ack : ℕ → Action World Unit
ack id w = (ok tt, record w { queue = (Memory.ack id w.queue).1 })

-- `_check_duplicate`: `some` with the existing attempt, if there is one to report.
handled_attempt : Option JobExecution → Option (Option JobExecution)
unfolding is_handled
handled_attempt none = none
handled_attempt (some e) = if is_handled e.status then some (some e) else none

owned_elsewhere : Text → Option Text → Option (Option JobExecution)
owned_elsewhere run_id none = none
owned_elsewhere run_id (some owner) = if text_eq owner run_id then none else some none

key_owner : Option Text → Database → Option Text
key_owner none db = none
key_owner (some key) db = Keys.get_run_id key db

unfoldable pub check_duplicate : TaskMessage → Database → Option (Option JobExecution)
unfolding handled_attempt owned_elsewhere key_owner
check_duplicate m db = elim (handled_attempt (Executions.get_attempt m.run_id m.attempt db)) [
  | some existing ↦ some existing
  | none ↦ owned_elsewhere m.run_id (key_owner m.idempotency_key db)
]

add_logs : List JobLog → Action Database Unit
add_logs [] = pure tt
add_logs (l ∷ logs) = Logs.add_many (l ∷ logs)

unfoldable pub persist_started : JobExecution → Action World Unit
persist_started e = in_session (Executions.upsert e)

unfoldable pub persist_final : JobExecution → Action World Unit
unfolding add_logs
persist_final e w =
    let (logs, rest) = Collector.drain e.run_id e.attempt w.logs in
    in_session (Executions.upsert e >> add_logs logs) (record w { logs = rest })

-- `_unrunnable`
unfoldable pub unrunnable_execution : Job → TaskMessage → Instant → Result JobExecution
unfolding transition
unrunnable_execution job m now =
    and_then (transition (record (new_execution job.id m.run_id) { attempt = m.attempt }) queued)
      λ q. and_then (transition q running) λ r. and_then (transition r failed) λ f. ok (record f {
        started_at = some now;
        finished_at = some now;
        error_message = some (codes "handler not registered: " ++ job.handler);
      })

unregister : Text → World → World
unregister run_id w = record w { active = Cancel.unregister run_id w.active }

-- After the attempt: the retry is scheduled, the result is saved.
abbrev with_retry_at : Instant → AttemptResult → ℕ → Result JobExecution
with_retry_at now result attempt =
    if result.should_retry
    then and_then (delay_for_attempt result.retry_policy attempt)
        (λ d. ok (record result.execution { next_retry_at = some (plus_seconds now d) }))
    else ok result.execution

abbrev reported_as : AttemptResult → JobExecution → ProcessResult
reported_as result execution = record {
  outcome = if result.should_retry then retry_scheduled else finished;
  execution = some execution;
}

unfoldable pub persist_result : Instant → ℕ → AttemptResult → Action World ProcessResult
persist_result now attempt result = do
  execution ← lift (with_retry_at now result attempt)
  persist_final execution
  pure (reported_as result execution)

unfoldable pub persist_unrunnable : Job → TaskMessage → Instant → Action World ProcessResult
unfolding unrunnable_execution
persist_unrunnable job m now = do
  execution ← lift (unrunnable_execution job m now)
  persist_final execution
  pure (record { outcome = unrunnable; execution = some execution })

-- `except JobNotRegisteredError`, with the `finally` of the block: the run is unregistered after the
-- handler of the exception, and before what follows the block.
abbrev after_attempt :
    Job → TaskMessage → Instant → Result AttemptResult → Action World ProcessResult
after_attempt job m now (ok result) w = persist_result now m.attempt result (unregister m.run_id w)
after_attempt job m now (err (job_not_registered name)) w =
    let (r, w') = persist_unrunnable job m now w in (r, unregister m.run_id w')
after_attempt job m now (err e) w = (err e, unregister m.run_id w)

module _ (registry : TaskRegistry) (now : Instant) (around : Surroundings World) where
  unfoldable pub execute_and_persist : Job → TaskMessage → Action World ProcessResult
  unfolding unregister
  execute_and_persist job m w =
      let (active, token) = Cancel.new_token w.active in
      let started = record w { active = Cancel.register m.run_id token active } in
      let (r, w') =
        execute_attempt job registry m.attempt (some m.run_id) persist_started around started in
      after_attempt job m now r w'

  abbrev run_unless_duplicate :
      Delivery → Job → Option (Option JobExecution) → Action World ProcessResult
  run_unless_duplicate d job (some existing) = do
    ack d.message_id
    pure (record { outcome = duplicate; execution = existing })
  run_unless_duplicate d job none = do
    result ← execute_and_persist job d.message
    ack d.message_id
    pure result

  abbrev with_job : Delivery → Option Job → Action World ProcessResult
  with_job d none = do ack d.message_id; pure (record { outcome = dropped; execution = none })
  with_job d (some job) = do
    duplicate_of ← gets (λ w. check_duplicate d.message w.db)
    run_unless_duplicate d job duplicate_of

  unfoldable pub process : Delivery → Action World ProcessResult
  unfolding execute_and_persist check_duplicate
  process d = do job ← in_session (Jobs.get d.message.job_id); with_job d job
