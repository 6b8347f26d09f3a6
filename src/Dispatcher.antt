-- ===== src/Dispatcher.antt =====
-- dispatcher.py: the triggers that are due are claimed and published as messages. The queue and the
-- callbacks act on a state of their own, `S`; an exception that the dispatcher logs and drops is a
-- result that it looks at.
pub mod Triggers
use task_platform.Common.{
  ℕ, zero, suc, ◌+◌, ◌-◌, ◌*◌, ◌/◌, ◌%◌, ◌^◌, ◌≤◌, ◌<◌, ◌≡◌, refl, sym, ap, ◌∙◌, ◌≢◌, ◌↔◌, ◌⊎◌, inl,
  inr, Bool, true, false, not, ◌&&◌, ◌||◌, Option, none, some, List, [], ◌∷◌, ◌++◌, map, reverse,
  arith, ltb, leb, ◌==◌, if◌then◌else◌, ltb→lt, lt→ltb, leb→le, le→leb, ==_iff, tests, Bool-cases,
  Option-cases, is_some, length, get_last?, take, drop, filter, any, all, find?, All, length-append,
  ℤ, pos, negsuc, pos_part, neg_part, sub_ℕ, ◌+ℤ◌, ◌-ℤ◌, ◌*ℤ◌, ◌≤ℤ◌, ltb_ℤ, +ℤ_parts, -ℤ_parts,
  eq_of_parts, int_laws, Text, codes, text_eq, text_eq_iff, text_eq_self, remove_prefix?, is_space,
  is_blank,
}
use task_platform.Domain.Status.{
  JobStatus, pending, queued, running, success, retrying, failed, canceled, recoverable, JobType,
  demo_success, demo_failure, demo_slow, custom, BackoffStrategy, fixed, exponential, ScheduleType,
  interval, daily, rank, status_eq, status_eq_iff, is_terminal,
}
use task_platform.Domain.Effects.{
  Error, value_error, assertion_error, invalid_transition, job_not_registered, duplicate_job_name,
  entity_not_found, integrity_error, invalid_message, job_canceled, handler_timeout, handler_error,
  queue_error, Result, ok, err, injective_ok, Action, and_then, pure, raise, lift, gets, modify,
  continue, ◌>>=◌, ◌>>◌, >>=-eq-ok, >>=-eq-err, >>=-keeps, on_part,
}
use task_platform.Domain.Execution.{
  Instant, Seconds, one_second, JobExecution, new_execution, duration_seconds, JobLog,
}
use task_platform.Domain.Job.{Job, validate_job}
use task_platform.Domain.Schedule.{
  one_day, Schedule, validate_schedule, plus_seconds, at_time_of_day, compute_next_run,
}
use task_platform.Domain.StateMachine.{allowed_transitions, can_transition, transition}
use task_platform.Domain.Idempotency.{
  max_key_length, Calendar, build_idempotency_key, scheduled_key,
}
use task_platform.Queue.Message.{TaskMessage, validate_message, Delivery}
use task_platform.Heap.{
  Entry, Heap, empty_heap, is_before, insert, push, take_due, pop_due, peek_next_run_at,
}

pub record Trigger : Type 0 where
  pub schedule : Schedule
  pub job : Job

pub record Dispatcher (S : Type 0) : Type 0 where
  pub heap : Heap Trigger
  pub outside : S

-- What the dispatcher is built with, the run id that each entry gets and the calendar.
pub record Callbacks (S : Type 0) : Type 0 where
  pub publish : TaskMessage → Action S Unit
  pub claim : Option (Job → Text → Text → Action S Bool)
  pub release : Option (Text → Action S Unit)
  pub on_enqueued : Option (JobExecution → Action S Unit)
  pub new_run_id : Entry Trigger → Text
  pub calendar : Calendar

module _ {S : Type 0} where
  abbrev pub push_trigger : Instant → Trigger → Action (Dispatcher S) Unit
  push_trigger at trigger = modify (λ d. record d { heap = push at trigger d.heap })

  -- `try: ... except Exception:` around a callback.
  abbrev pub caught : {A : Type 0} → Action S A → Action (Dispatcher S) (Result A)
  caught m d = let (r, outside) = m d.outside in (ok r, record d { outside = outside })

  unfoldable pub add : Job → Schedule → Instant → Action (Dispatcher S) Unit
  add job s now = do
    next ← lift (compute_next_run s now)
    push_trigger next (record { schedule = s; job = job })

  abbrev pub reschedule : Trigger → Instant → Action (Dispatcher S) Unit
  reschedule trigger now = do
    next ← lift (compute_next_run trigger.schedule now)
    push_trigger next trigger

  -- The trigger is skipped: None is returned.
  abbrev pub skip : Trigger → Instant → Action (Dispatcher S) (Option JobExecution)
  skip trigger now = do reschedule trigger now; pure none

module _ {S : Type 0} (callbacks : Callbacks S) (now : Instant) where
  abbrev claim_key : Job → Text → Text → Action S Bool
  claim_key job run_id key = elim callbacks.claim [
    | none ↦ pure true
    | some claim ↦ claim job run_id key
  ]

  abbrev release_quietly : Text → Action (Dispatcher S) (Result Unit)
  release_quietly key =
      caught (elim callbacks.release [ none ↦ pure tt | some release ↦ release key ])

  abbrev notify : JobExecution → Action (Dispatcher S) (Result Unit)
  notify e =
      caught (elim callbacks.on_enqueued [ none ↦ pure tt | some on_enqueued ↦ on_enqueued e ])

  abbrev after_publish :
      Entry Trigger → Text → Result Unit → Action (Dispatcher S) (Option JobExecution)
  after_publish entry key (err e) = do
    release_quietly key
    push_trigger entry.next_run_at entry.item
    pure none
  after_publish entry key (ok _) = do
    execution ←
        lift (transition (new_execution entry.item.job.id (callbacks.new_run_id entry)) queued)
    notify (record execution { attempt = 1 })
    reschedule entry.item now
    pure (some (record execution { attempt = 1 }))

  abbrev after_claim :
      Entry Trigger → Text → Result Bool → Action (Dispatcher S) (Option JobExecution)
  after_claim entry key (err e) = skip entry.item now
  after_claim entry key (ok false) = skip entry.item now
  after_claim entry key (ok true) = do
    message ← lift (
        validate_message (record {
          job_id = entry.item.job.id;
          run_id = callbacks.new_run_id entry;
          attempt = 1;
          idempotency_key = some key;
        }))
    published ← caught (callbacks.publish message)
    after_publish entry key published

  unfoldable pub dispatch : Entry Trigger → Action (Dispatcher S) (Option JobExecution)
  dispatch entry =
      if not (entry.item.schedule.enabled && entry.item.job.enabled)
      then skip entry.item now
      else do
        key ← lift (
            scheduled_key callbacks.calendar entry.item.job.id entry.item.schedule
              entry.next_run_at)
        claimed ← caught (claim_key entry.item.job (callbacks.new_run_id entry) key)
        after_claim entry key claimed

  abbrev with_execution : Option JobExecution → List JobExecution → List JobExecution
  with_execution none rest = rest
  with_execution (some e) rest = e ∷ rest

  unfoldable pub dispatch_all : List (Entry Trigger) → Action (Dispatcher S) (List JobExecution)
  unfolding dispatch
  dispatch_all [] = pure []
  dispatch_all (entry ∷ due) = do
    first ← dispatch entry
    rest ← dispatch_all due
    pure (with_execution first rest)

  unfoldable pub tick : Action (Dispatcher S) (List JobExecution)
  unfolding dispatch_all
  tick d = let (due, heap) = pop_due now d.heap in dispatch_all due (record d { heap = heap })
