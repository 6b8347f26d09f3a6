-- ===== src/Scheduler.antt =====
-- scheduler.py: the triggers that are due are executed in this process, and a failed attempt is
-- pushed again as a retry. The callbacks and the handlers act on the outside state `S` and on the
-- table of active runs.
pub mod Triggers
use task_platform.Domain.Status.{
  JobStatus, pending, queued, running, success, retrying, failed, canceled, recoverable, JobType,
  demo_success, demo_failure, demo_slow, custom, BackoffStrategy, fixed, exponential, ScheduleType,
  interval, daily, rank, status_eq, status_eq_iff, is_terminal,
}
use task_platform.Common.{
  ℕ, ◌+◌, Bool, true, false, not, ◌&&◌, Option, none, some, List, [], ◌∷◌, ◌++◌, ◌==◌,
  if◌then◌else◌, Text, zero, suc, ◌-◌, ◌*◌, ◌/◌, ◌%◌, ◌^◌, ◌≤◌, ◌<◌, ◌≡◌, refl, sym, ap, ◌∙◌, ◌≢◌,
  ◌↔◌, ◌⊎◌, inl, inr, ◌||◌, map, reverse, arith, ltb, leb, ltb→lt, lt→ltb, leb→le, le→leb, ==_iff,
  tests, Bool-cases, Option-cases, is_some, length, get_last?, take, drop, filter, any, all, find?,
  All, length-append, ℤ, pos, negsuc, pos_part, neg_part, sub_ℕ, ◌+ℤ◌, ◌-ℤ◌, ◌*ℤ◌, ◌≤ℤ◌, ltb_ℤ,
  +ℤ_parts, -ℤ_parts, eq_of_parts, int_laws, codes, text_eq, text_eq_iff, text_eq_self,
  remove_prefix?, is_space, is_blank,
}
use task_platform.Domain.Effects.{
  Result, escapes, ok, err, Action, pure, lift, modify, ◌>>=◌, ◌>>◌, Error, value_error,
  assertion_error, invalid_transition, job_not_registered, duplicate_job_name, entity_not_found,
  integrity_error, invalid_message, job_canceled, handler_timeout, handler_error, queue_error,
  injective_ok, and_then, raise, gets, continue, >>=-eq-ok, >>=-eq-err, >>=-keeps, on_part,
}
use task_platform.Domain.Execution.{
  Instant, JobExecution, Seconds, one_second, new_execution, duration_seconds, JobLog,
}
use task_platform.Domain.Job.{Job, validate_job}
use task_platform.Domain.Retry.{
  delay_for_attempt, RetryPolicy, validate_policy, default_policy, min_seconds, allows_retry,
}
use task_platform.Domain.Schedule.{
  Schedule, plus_seconds, compute_next_run, one_day, validate_schedule, at_time_of_day,
}
use task_platform.Domain.Idempotency.{
  Calendar, scheduled_key, max_key_length, build_idempotency_key,
}
use task_platform.Domain.Cancel
use task_platform.Domain.Cancel.{ActiveRuns}
use task_platform.Registry.{
  TaskRegistry, RegisteredHandler, register, get, is_registered, list_names, unregister, clear,
}
use task_platform.Executor.Attempt.{
  AttemptResult, Surroundings, execute_attempt, resolve_timeout_seconds, resolve_retry_policy,
  chosen_run_id, finish_attempt, start_attempt, with_limits, cancel_before_start,
}
use task_platform.Heap.{
  Entry, Heap, push, pop_due, empty_heap, is_before, insert, take_due, peek_next_run_at,
}

-- The fields of `_HeapEntry` that are not compared.
pub record Planned : Type 0 where
  pub schedule : Schedule
  pub job : Job
  pub attempt_number : ℕ
  pub run_id : Option Text

-- What an attempt can change.
pub record Runs (S : Type 0) : Type 0 where
  pub active : ActiveRuns
  pub outside : S

pub record Scheduler (S : Type 0) : Type 0 where
  pub heap : Heap Planned
  pub runs : Runs S

-- What the scheduler is built with, and what it meets at each entry: a new run id, the surroundings
-- of the attempt and the time at which its retry is planned.
pub record Setting (S : Type 0) : Type 0 where
  pub registry : TaskRegistry
  pub claim : Option (Job → Text → Text → Action S Bool)
  pub on_start : Option (JobExecution → Action S Unit)
  pub calendar : Calendar
  pub new_run_id : Entry Planned → Text
  pub around : Entry Planned → Surroundings (Runs S)
  pub retried_at : Entry Planned → Instant

module _ {S : Type 0} where
  abbrev pub push_planned : Instant → Planned → Action (Scheduler S) Unit
  push_planned at planned = modify (λ s. record s { heap = push at planned s.heap })

  -- `self._push(compute_next_run(...), ...)`: the regular run that comes next.
  abbrev pub push_regular : Schedule → Job → Instant → Action (Scheduler S) Unit
  push_regular schedule job now = do
    next ← lift (compute_next_run schedule now)
    push_planned next (record { schedule = schedule; job = job; attempt_number = 1; run_id = none })

  unfoldable pub add : Job → Schedule → Instant → Action (Scheduler S) Unit
  add job schedule now = push_regular schedule job now

  abbrev pub caught : {A : Type 0} → Action (Runs S) A → Action (Scheduler S) (Result A)
  caught m s = let (r, runs) = m s.runs in (ok r, record s { runs = runs })

  -- The trigger is skipped: no execution is reported.
  abbrev pub skip : Planned → Instant → Action (Scheduler S) (List JobExecution)
  skip planned now = do push_regular planned.schedule planned.job now; pure []

  abbrev on_outside : {A : Type 0} → Action S A → Action (Runs S) A
  on_outside m r = let (a, outside) = m r.outside in (a, record r { outside = outside })

module _ {S : Type 0} (setting : Setting S) (now : Instant) where
  abbrev started : JobExecution → Action (Runs S) Unit
  started e = elim setting.on_start [ none ↦ pure tt | some on_start ↦ on_outside (on_start e) ]

  abbrev known_run_id : Entry Planned → Option Text → Text
  known_run_id entry none = setting.new_run_id entry
  known_run_id entry (some run_id) = run_id

  -- `execute_attempt` between the registration of the run and the `finally` that undoes it.
  abbrev run_attempt : Entry Planned → Text → Action (Runs S) AttemptResult
  run_attempt entry run_id r =
      let (active, token) = Cancel.new_token r.active in
      let (a, after) =
        execute_attempt entry.item.job setting.registry entry.item.attempt_number (some run_id)
          started (setting.around entry)
          (record r { active = Cancel.register run_id token active }) in
      (a, record after { active = Cancel.unregister run_id after.active })

  abbrev push_retry : Entry Planned → AttemptResult → Action (Scheduler S) Unit
  push_retry entry result = do
    delay ← lift (delay_for_attempt result.retry_policy entry.item.attempt_number)
    push_planned (plus_seconds (setting.retried_at entry) delay) (record entry.item {
      attempt_number = entry.item.attempt_number + 1;
      run_id = some result.execution.run_id;
    })

  abbrev push_after : Entry Planned → AttemptResult → Action (Scheduler S) Unit
  push_after entry result =
      if result.should_retry
      then push_retry entry result
      else push_regular entry.item.schedule entry.item.job now

  abbrev after_run : Entry Planned → Result AttemptResult → Action (Scheduler S) (List JobExecution)
  after_run entry (err e) = if escapes e then raise e else skip entry.item now
  after_run entry (ok result) = do push_after entry result; pure (result.execution ∷ [])

  abbrev trigger : Entry Planned → Option Text → Action (Scheduler S) (List JobExecution)
  trigger entry run_id = do
    result ← caught (run_attempt entry (known_run_id entry run_id))
    after_run entry result

  abbrev after_claim : Entry Planned → Result Bool → Action (Scheduler S) (List JobExecution)
  after_claim entry (err e) = skip entry.item now
  after_claim entry (ok false) = skip entry.item now
  after_claim entry (ok true) = trigger entry (some (setting.new_run_id entry))

  abbrev claim_first :
      Entry Planned
      → Bool
      → Option (Job → Text → Text → Action S Bool)
      → Action (Scheduler S) (List JobExecution)
  claim_first entry true (some claim) = do
    key ←
        lift
          (scheduled_key setting.calendar entry.item.job.id entry.item.schedule entry.next_run_at)
    claimed ← caught (on_outside (claim entry.item.job (setting.new_run_id entry) key))
    after_claim entry claimed
  claim_first entry _ _ = trigger entry entry.item.run_id

  unfoldable pub tick_one : Entry Planned → Action (Scheduler S) (List JobExecution)
  tick_one entry =
      if not (entry.item.schedule.enabled && entry.item.job.enabled)
      then skip entry.item now
      else claim_first entry (entry.item.attempt_number == 1) setting.claim

  unfoldable pub tick_all : List (Entry Planned) → Action (Scheduler S) (List JobExecution)
  unfolding tick_one
  tick_all [] = pure []
  tick_all (entry ∷ due) = do first ← tick_one entry; rest ← tick_all due; pure (first ++ rest)

  unfoldable pub tick : Action (Scheduler S) (List JobExecution)
  unfolding tick_all
  tick s = let (due, heap) = pop_due now s.heap in tick_all due (record s { heap = heap })
