-- ===== src/Worker/Fetch.antt =====
-- `Worker.run_once` of worker.py: a stale delivery is taken over before a new one is consumed.
pub mod Kept
use task_platform.Common.{
  ℕ, ◌+◌, Option, none, some, List, [], ◌∷◌, leb, if◌then◌else◌, Text, zero, suc, ◌-◌, ◌*◌, ◌/◌,
  ◌%◌, ◌^◌, ◌≤◌, ◌<◌, ◌≡◌, refl, sym, ap, ◌∙◌, ◌≢◌, ◌↔◌, ◌⊎◌, inl, inr, Bool, true, false, not,
  ◌&&◌, ◌||◌, ◌++◌, map, reverse, arith, ltb, ◌==◌, ltb→lt, lt→ltb, leb→le, le→leb, ==_iff, tests,
  Bool-cases, Option-cases, is_some, length, get_last?, take, drop, filter, any, all, find?, All,
  length-append, ℤ, pos, negsuc, pos_part, neg_part, sub_ℕ, ◌+ℤ◌, ◌-ℤ◌, ◌*ℤ◌, ◌≤ℤ◌, ltb_ℤ, +ℤ_parts,
  -ℤ_parts, eq_of_parts, int_laws, codes, text_eq, text_eq_iff, text_eq_self, remove_prefix?,
  is_space, is_blank,
}
use task_platform.Domain.Effects.{
  ok, Action, and_then, Error, value_error, assertion_error, invalid_transition, job_not_registered,
  duplicate_job_name, entity_not_found, integrity_error, invalid_message, job_canceled,
  handler_timeout, handler_error, queue_error, Result, err, injective_ok, pure, raise, lift, gets,
  modify, continue, ◌>>=◌, ◌>>◌, >>=-eq-ok, >>=-eq-err, >>=-keeps, on_part,
}
use task_platform.Domain.Execution.{
  Instant, Seconds, one_second, JobExecution, new_execution, duration_seconds, JobLog,
}
use task_platform.Queue.Message.{Delivery, TaskMessage, validate_message}
use task_platform.Queue.Memory
use task_platform.Registry.{
  TaskRegistry, RegisteredHandler, register, get, is_registered, list_names, unregister, clear,
}
use task_platform.Executor.Attempt.{
  Surroundings, resolve_timeout_seconds, resolve_retry_policy, AttemptResult, chosen_run_id,
  finish_attempt, start_attempt, with_limits, execute_attempt, cancel_before_start,
}
use task_platform.Worker.{
  ProcessResult, World, process, is_handled, Outcome, finished, retry_scheduled, dropped,
  unrunnable, duplicate, in_session, ack, handled_attempt, owned_elsewhere, key_owner,
  check_duplicate, add_logs, persist_started, persist_final, unrunnable_execution, with_retry_at,
  reported_as, persist_result, persist_unrunnable, after_attempt, execute_and_persist,
  run_unless_duplicate, with_job,
}

-- The worker's clock of takeovers beside the rest.
pub record Fetching : Type 0 where
  pub world : World
  pub next_reclaim_at : Instant

abbrev consume_next : Text → Instant → Fetching → Option Delivery × Fetching
consume_next consumer now f =
    let (delivery, queue) = Memory.consume consumer now f.world.queue in
    (delivery, record f { world = record f.world { queue = queue } })

abbrev first_or_consume : Text → ℕ → Instant → List Delivery → Fetching → Option Delivery × Fetching
first_or_consume consumer reclaim_interval now [] f =
    consume_next consumer now (record f { next_reclaim_at = now + reclaim_interval })
first_or_consume consumer reclaim_interval now (d ∷ rest) f = (some d, f)

abbrev reclaim : Text → ℕ → ℕ → Instant → Fetching → Option Delivery × Fetching
reclaim consumer stale_after reclaim_interval now f =
    let (claimed, queue) = Memory.claim_stale consumer stale_after 1 now f.world.queue in
    first_or_consume consumer reclaim_interval now claimed
      (record f { world = record f.world { queue = queue } })

-- `_next_delivery`; a message that is waited for is one that is there at `now`.
unfoldable pub next_delivery : Text → Option ℕ → ℕ → Instant → Fetching → Option Delivery × Fetching
next_delivery consumer none reclaim_interval now f = consume_next consumer now f
next_delivery consumer (some stale_after) reclaim_interval now f =
    if leb f.next_reclaim_at now
    then reclaim consumer stale_after reclaim_interval now f
    else consume_next consumer now f

module _ (registry : TaskRegistry) (finished_at : Instant) (around : Surroundings World) where
  abbrev process_fetched : Option Delivery → Action Fetching (Option ProcessResult)
  process_fetched none f = (ok none, f)
  process_fetched (some d) f =
      let (r, world) = process registry finished_at around d f.world in
      (and_then r (λ result. ok (some result)), record f { world = world })

  unfoldable pub run_once : Text → Option ℕ → ℕ → Instant → Action Fetching (Option ProcessResult)
  unfolding next_delivery
  run_once consumer stale_after reclaim_interval now f =
      let (d, fetched) = next_delivery consumer stale_after reclaim_interval now f in
      process_fetched d fetched
