-- ===== src/RetrySweeper.antt =====
-- retry_sweeper.py: the retries that are due are claimed one by one and published. A text
-- `run_id#attempt` is kept as its two parts.
pub mod Restored
use task_platform.Common.{
  ℕ, zero, suc, ◌+◌, ◌-◌, ◌*◌, ◌/◌, ◌%◌, ◌^◌, ◌≤◌, ◌<◌, ◌≡◌, refl, sym, ap, ◌∙◌, ◌≢◌, ◌↔◌, ◌⊎◌, inl,
  inr, Bool, true, false, not, ◌&&◌, ◌||◌, Option, none, some, List, [], ◌∷◌, ◌++◌, map, reverse,
  arith, ltb, leb, ◌==◌, if◌then◌else◌, ltb→lt, lt→ltb, leb→le, le→leb, ==_iff, tests, Bool-cases,
  Option-cases, is_some, length, get_last?, take, drop, filter, any, all, find?, All, length-append,
  ℤ, pos, negsuc, pos_part, neg_part, sub_ℕ, ◌+ℤ◌, ◌-ℤ◌, ◌*ℤ◌, ◌≤ℤ◌, ltb_ℤ, +ℤ_parts, -ℤ_parts,
  eq_of_parts, int_laws, Text, codes, text_eq, text_eq_iff, text_eq_self, remove_prefix?, is_space,
  is_blank,
}
use task_platform.Domain.Status.{
  JobStatus, pending, queued, running, success, retrying, failed, canceled, recoverable, JobType,
  demo_success, demo_failure, demo_slow, custom, BackoffStrategy, fixed, exponential, ScheduleType,
  interval, daily, rank, status_eq, status_eq_iff, is_terminal,
}
use task_platform.Domain.Effects.{
  Error, value_error, assertion_error, invalid_transition, job_not_registered, duplicate_job_name,
  entity_not_found, integrity_error, invalid_message, job_canceled, handler_timeout, handler_error,
  queue_error, Result, ok, err, Action, and_then, pure, raise, lift, gets, modify, continue, ◌>>=◌,
  ◌>>◌, >>=-eq-ok, >>=-eq-err, >>=-keeps, on_part,
}
use task_platform.Domain.Execution.{
  Instant, Seconds, one_second, JobExecution, new_execution, duration_seconds, JobLog,
}
use task_platform.Queue.Message.{TaskMessage, validate_message, Delivery}
use task_platform.Db.Tables.{
  JobRecord, ScheduleRecord, ExecutionRecord, JobLogRecord, IdempotencyRecord, Database,
  empty_database, is_attempt, update_first, update_where, count_where, sort_by,
}
use task_platform.Db.Session.{settle, session_scope, session_scope-eq-ok, session_scope-eq-err}
use task_platform.Db.Executions

pub record Platform (Q : Type 0) : Type 0 where
  pub db : Database
  pub queue : Q

module _ {Q A : Type 0} where
  abbrev pub in_session : Action Database A → Action (Platform Q) A
  in_session m w = let (r, db) = session_scope m w.db in (r, record w { db = db })

abbrev pub next_message : JobExecution → TaskMessage
next_message e = record {
  job_id = e.job_id;
  run_id = e.run_id;
  attempt = e.attempt + 1;
  idempotency_key = none;
}

module _ {Q : Type 0} (publish : TaskMessage → Action Q Unit) where
  -- The `try` block: the message is built and published.
  abbrev pub publish_next : JobExecution → Action Q Unit
  publish_next e = do message ← lift (validate_message (next_message e)); publish message

  abbrev restore_unless_published :
      JobExecution → Result Unit → Action (Platform Q) (List (Text × ℕ))
  restore_unless_published e (ok _) = pure ((e.run_id, e.attempt) ∷ [])
  restore_unless_published e (err _) = do
    in_session (Executions.set_next_retry_at e.run_id e.attempt e.next_retry_at)
    pure []

  abbrev publish_claimed : JobExecution → Bool → Action (Platform Q) (List (Text × ℕ))
  publish_claimed e false w = (ok [], w)
  publish_claimed e true w =
      let (r, queue) = publish_next e w.queue in
      restore_unless_published e r (record w { queue = queue })

  unfoldable pub sweep_one : JobExecution → Action (Platform Q) (List (Text × ℕ))
  sweep_one e = do
    claimed ← in_session (Executions.claim_retry e.run_id e.attempt)
    publish_claimed e claimed

  unfoldable pub sweep_each : List JobExecution → Action (Platform Q) (List (Text × ℕ))
  unfolding sweep_one
  sweep_each [] = pure []
  sweep_each (e ∷ due) = do first ← sweep_one e; rest ← sweep_each due; pure (first ++ rest)

  unfoldable pub sweep_due_retries : Instant → ℕ → Action (Platform Q) (List (Text × ℕ))
  unfolding sweep_each
  sweep_due_retries now limit = do
    due ← in_session (gets (Executions.list_due_retries now limit))
    sweep_each due
