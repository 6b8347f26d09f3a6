-- ===== src/Executor/Attempt.antt =====
-- `execute_attempt` of executor.py. What the caller's callback does to the caller's state is the
-- action `on_started`; what the rest of the world does to that state while the handler runs is
-- `meanwhile`; how the wait ended, given the timeout in force, is `wait` (see Executor/Wait).
use task_platform.Common.{ℕ, Bool, false, Option, none, some, [], ◌∷◌, if◌then◌else◌, Text}
use task_platform.Domain.Status.{JobStatus, queued, running, success, retrying, failed, canceled}
use task_platform.Domain.Effects.{
  Result, ok, err, system_exit, Action, and_then, lift, modify, ◌>>=◌, ◌>>◌,
}
use task_platform.Domain.Execution.{Instant, Seconds, JobExecution, new_execution}
use task_platform.Domain.Job.{Job}
use task_platform.Domain.Retry.{RetryPolicy, allows_retry}
use task_platform.Domain.StateMachine.{transition}
use task_platform.Registry
use task_platform.Registry.{
  RegisteredHandler, TaskRegistry, register, get, is_registered, list_names, unregister, clear,
}
use task_platform.Executor.Wait.{Ending, returned, exited, stopped, raised}

unfoldable pub resolve_timeout_seconds : Job → RegisteredHandler → Seconds
resolve_timeout_seconds job h = elim h.timeout_seconds [ none ↦ job.timeout_seconds | some t ↦ t ]

unfoldable pub resolve_retry_policy : Job → RegisteredHandler → RetryPolicy
resolve_retry_policy job h = elim h.retry_policy [ none ↦ job.retry_policy | some p ↦ p ]

pub record AttemptResult : Type 0 where
  pub execution : JobExecution
  pub retry_policy : RetryPolicy
  pub should_retry : Bool

-- The instants that the attempt reads, the id that a new run would get, and what happens outside.
pub record Surroundings (S : Type 0) : Type 0 where
  pub new_run_id : Text
  pub started_at : Instant
  pub finished_at : Instant
  pub wait : Seconds → Ending
  pub meanwhile : S → S

-- `run_id if run_id else ...`: an empty text counts as none.
abbrev pub chosen_run_id : Option Text → Text → Text
chosen_run_id none new = new
chosen_run_id (some []) new = new
chosen_run_id (some (c ∷ run_id)) new = c ∷ run_id

abbrev ended : JobExecution → JobStatus → Option Text → Instant → Result JobExecution
ended e target message now =
    and_then (transition (record e { error_message = message }) target)
      λ t. ok (record t { finished_at = some now })

-- The `except` and `else` branches; neither meets what is no Exception, which escapes.
unfoldable pub finish_attempt :
    RetryPolicy → ℕ → Instant → Ending → JobExecution → Result AttemptResult
unfolding transition allows_retry
finish_attempt policy attempt now (stopped message) e =
    and_then (ended e canceled (some message) now)
      λ t. ok (record { execution = t; retry_policy = policy; should_retry = false })
finish_attempt policy attempt now (raised message) e =
    let again = allows_retry policy attempt in
    and_then (ended e (if again then retrying else failed) (some message) now)
      λ t. ok (record { execution = t; retry_policy = policy; should_retry = again })
finish_attempt policy attempt now exited e = err system_exit
finish_attempt policy attempt now returned e =
    and_then (ended e success e.error_message now)
      λ t. ok (record { execution = t; retry_policy = policy; should_retry = false })

-- Up to RUNNING: the execution, before the handler is looked up.
pub start_attempt : Text → Text → ℕ → Instant → Result JobExecution
unfolding transition
start_attempt job_id run_id attempt now =
    and_then (transition (new_execution job_id run_id) queued) λ q.
      and_then (transition q running)
        λ r. ok (record r { started_at = some now; attempt = attempt })

-- The handler's metadata recorded in the execution.
abbrev pub with_limits : Job → RegisteredHandler → JobExecution → JobExecution
with_limits job h e = record e {
  timeout_seconds = some (resolve_timeout_seconds job h);
  max_attempts = some (resolve_retry_policy job h).max_attempts;
}

module _ {S : Type 0} where
  unfoldable pub execute_attempt :
      Job
      → TaskRegistry
      → ℕ
      → Option Text
      → (JobExecution → Action S Unit)
      → Surroundings S
      → Action S AttemptResult
  unfolding start_attempt finish_attempt
  execute_attempt job registry attempt run_id on_started world = do
    begun ←
        lift (start_attempt job.id (chosen_run_id run_id world.new_run_id) attempt world.started_at)
    handler ← lift (Registry.get job.handler registry)
    let execution = with_limits job handler begun
    on_started execution
    modify world.meanwhile
    lift (
        finish_attempt (resolve_retry_policy job handler) attempt world.finished_at
          (world.wait (resolve_timeout_seconds job handler)) execution)

unfoldable pub cancel_before_start : Text → Text → Instant → Result JobExecution
unfolding transition
cancel_before_start job_id run_id now = ended (new_execution job_id run_id) canceled none now
