-- ===== src/Domain/StateMachine.antt =====
-- domain/state_machine.py: the table of transitions, and the one function that changes a status.
pub mod Laws
use task_platform.Common.{
  ℕ, zero, suc, ◌+◌, ◌-◌, ◌*◌, ◌/◌, ◌%◌, ◌^◌, ◌≤◌, ◌<◌, ◌≡◌, refl, sym, ap, ◌∙◌, ◌≢◌, ◌↔◌, ◌⊎◌, inl,
  inr, Bool, true, false, not, ◌&&◌, ◌||◌, Option, none, some, List, [], ◌∷◌, ◌++◌, map, arith, ltb,
  leb, ◌==◌, if◌then◌else◌, ltb→lt, lt→ltb, leb→le, le→leb, ==_iff, Bool-cases, Option-cases,
  is_some, length, get_last?, take, drop, filter, any, all, find?, All, length-append, ℤ, pos,
  negsuc, pos_part, neg_part, sub_ℕ, ◌+ℤ◌, ◌-ℤ◌, ◌*ℤ◌, ◌≤ℤ◌, ltb_ℤ, Text, codes, text_eq,
  text_eq_iff, text_eq_self, is_blank,
}
use task_platform.Domain.Status.{
  JobStatus, pending, queued, running, success, retrying, failed, canceled, recoverable, JobType,
  demo_success, demo_failure, demo_slow, custom, BackoffStrategy, fixed, exponential, ScheduleType,
  interval, daily, status_eq, status_eq_iff, is_terminal,
}
use task_platform.Domain.Effects.{
  Error, value_error, assertion_error, invalid_transition, job_not_registered, duplicate_job_name,
  entity_not_found, integrity_error, invalid_message, job_canceled, handler_timeout, handler_error,
  queue_error, Result, ok, err, Action, and_then, pure, raise, lift, gets, modify, continue, ◌>>=◌,
  ◌>>◌, >>=-eq-ok, on_part,
}
use task_platform.Domain.Execution.{
  Instant, Seconds, one_second, JobExecution, new_execution, JobLog, duration_seconds,
}

-- `_ALLOWED_TRANSITIONS`
unfoldable pub allowed_transitions : JobStatus → List JobStatus
allowed_transitions pending = queued ∷ canceled ∷ []
allowed_transitions queued = running ∷ canceled ∷ []
allowed_transitions running = success ∷ retrying ∷ failed ∷ canceled ∷ recoverable ∷ []
allowed_transitions retrying = queued ∷ recoverable ∷ []
allowed_transitions recoverable = queued ∷ failed ∷ canceled ∷ []
allowed_transitions success = []
allowed_transitions failed = []
allowed_transitions canceled = []

unfoldable pub can_transition : JobStatus → JobStatus → Bool
unfolding allowed_transitions
can_transition current target = any (status_eq target) (allowed_transitions current)

unfoldable pub transition : JobExecution → JobStatus → Result JobExecution
unfolding can_transition
transition execution target =
    if can_transition execution.status target
    then ok (record execution { status = target })
    else err (invalid_transition execution.status target)
