-- ===== src/Dispatcher/Triggers.antt =====
-- About the triggers in the heap over a round of dispatcher.py.
use task_platform.Domain.Idempotency.{scheduled_key}
use task_platform.Domain.Schedule.{compute_next_run}
use task_platform.Domain.StateMachine.{transition}
use task_platform.Domain.Status.{queued}
use task_platform.Queue.Message.{validate_message}
use task_platform.Common.{
  ℕ, ◌≡◌, sym, ap, ◌∙◌, Bool, arith, if◌then◌else◌, refl, true, false, not, ◌&&◌, Option, none,
  some, List, [], ◌∷◌, Text,
}
use task_platform.Domain.Effects.{Result, ok, Action, pure, lift, ◌>>=◌, err, ◌>>◌}
use task_platform.Domain.Execution.{Instant, JobExecution, new_execution}
use task_platform.Heap.{push, Entry, pop_due}
use task_platform.Heap.Adds.{
  Adds, then-Adds, then_keeps, same_count, pure-Adds, lift_then, both_add,
}
use task_platform.Heap.Entries.{count_items, count_items-insert, count_items-take_due}
use task_platform.Dispatcher.{
  Trigger, Dispatcher, push_trigger, caught, Callbacks, reschedule, skip, claim_key,
  release_quietly, notify, after_publish, after_claim, dispatch, with_execution, dispatch_all, tick,
}

abbrev weight : (Trigger → Bool) → Trigger → ℕ
weight test trigger = if test trigger then 1 else 0

module _ {S : Type 0} (test : Trigger → Bool) where
  abbrev pub counted : Dispatcher S → ℕ
  counted d = count_items test d.heap.entries

  caught_then :
      {A B : Type 0} (n : ℕ) (m : Action S A) (f : Result A → Action (Dispatcher S) B)
      → ((a : Result A) → Adds counted n (f a))
      → Adds counted n (caught m >>= f)
  caught_then n m f second =
      then-Adds counted n (caught m) f (same_count counted (caught m) (λ d. refl)) second

  push-Adds :
      (at : Instant) (trigger : Trigger)
      → Adds counted (weight test trigger) (push_trigger at trigger)
  unfolding push
  push-Adds at trigger d b t h =
      ap (λ x. counted x.1) (sym h)
      ∙ count_items-insert test (record { next_run_at = at; seq = d.heap.next_seq; item = trigger })
          d.heap.entries

  reschedule-Adds :
      (trigger : Trigger) (now : Instant)
      → Adds counted (weight test trigger) (reschedule trigger now)
  reschedule-Adds trigger now =
      then-Adds counted (weight test trigger) (lift (compute_next_run trigger.schedule now))
        (λ next. push_trigger next trigger)
        (same_count counted (lift (compute_next_run trigger.schedule now)) (λ d. refl))
        (λ next. push-Adds next trigger)

  skip-Adds :
      (trigger : Trigger) (now : Instant) → Adds counted (weight test trigger) (skip trigger now)
  skip-Adds trigger now =
      then_keeps counted (weight test trigger) (reschedule trigger now) (λ _. pure none)
        (reschedule-Adds trigger now) (λ _. pure-Adds counted none)

  module _ (callbacks : Callbacks S) (now : Instant) where
    after_publish-Adds :
        (entry : Entry Trigger) (key : Text) (r : Result Unit)
        → Adds counted (weight test entry.item) (after_publish callbacks now entry key r)
    after_publish-Adds entry key (err e) =
        then-Adds counted (weight test entry.item) (release_quietly callbacks now key)
          (λ _. push_trigger entry.next_run_at entry.item >> pure none)
          (same_count counted (release_quietly callbacks now key) (λ d. refl))
          (λ _.
            then_keeps counted (weight test entry.item) (push_trigger entry.next_run_at entry.item)
              (λ _. pure none) (push-Adds entry.next_run_at entry.item)
              (λ _. pure-Adds counted none))
    after_publish-Adds entry key (ok u) =
        let trigger = entry.item in
        lift_then counted (weight test trigger)
          (transition (new_execution trigger.job.id (callbacks.new_run_id entry)) queued)
          (λ e.
            notify callbacks now (record e { attempt = 1 })
            >> (reschedule trigger now >> pure (some (record e { attempt = 1 }))))
          λ e.
            then-Adds counted (weight test trigger)
              (notify callbacks now (record e { attempt = 1 }))
              (λ _. reschedule trigger now >> pure (some (record e { attempt = 1 })))
              (same_count counted (notify callbacks now (record e { attempt = 1 })) (λ d. refl))
              (λ _.
                then_keeps counted (weight test trigger) (reschedule trigger now)
                  (λ _. pure (some (record e { attempt = 1 }))) (reschedule-Adds trigger now)
                  (λ _. same_count counted (pure (some (record e { attempt = 1 }))) (λ d. refl)))

    after_claim-Adds :
        (entry : Entry Trigger) (key : Text) (r : Result Bool)
        → Adds counted (weight test entry.item) (after_claim callbacks now entry key r)
    after_claim-Adds entry key (err e) = skip-Adds entry.item now
    after_claim-Adds entry key (ok false) = skip-Adds entry.item now
    after_claim-Adds entry key (ok true) =
        lift_then counted (weight test entry.item)
          (validate_message (record {
            job_id = entry.item.job.id;
            run_id = callbacks.new_run_id entry;
            attempt = 1;
            idempotency_key = some key;
          }))
          (λ message. caught (callbacks.publish message) >>= after_publish callbacks now entry key)
          λ message.
            caught_then (weight test entry.item) (callbacks.publish message)
              (after_publish callbacks now entry key) (after_publish-Adds entry key)

    dispatch-Adds :
        (entry : Entry Trigger)
        → Adds counted (weight test entry.item) (dispatch callbacks now entry)
    unfolding dispatch
    dispatch-Adds entry = by_enabled (not (entry.item.schedule.enabled && entry.item.job.enabled))
      where
        run : Action (Dispatcher S) (Option JobExecution)
        run = do
          key ← lift (
              scheduled_key callbacks.calendar entry.item.job.id entry.item.schedule
                entry.next_run_at)
          claimed ← caught (claim_key callbacks now entry.item.job (callbacks.new_run_id entry) key)
          after_claim callbacks now entry key claimed

        by_enabled :
            (off : Bool)
            → Adds counted (weight test entry.item) (if off then skip entry.item now else run)
        by_enabled true = skip-Adds entry.item now
        by_enabled false =
            lift_then counted (weight test entry.item)
              (scheduled_key callbacks.calendar entry.item.job.id entry.item.schedule
                entry.next_run_at)
              (λ key.
                caught (claim_key callbacks now entry.item.job (callbacks.new_run_id entry) key)
                >>= after_claim callbacks now entry key)
              λ key.
                caught_then (weight test entry.item)
                  (claim_key callbacks now entry.item.job (callbacks.new_run_id entry) key)
                  (after_claim callbacks now entry key) (after_claim-Adds entry key)

    dispatch_all-Adds :
        (due : List (Entry Trigger))
        → Adds counted (count_items test due) (dispatch_all callbacks now due)
    unfolding dispatch_all
    dispatch_all-Adds [] d a t h = pure-Adds counted [] d a t h
    dispatch_all-Adds (entry ∷ due) d a t h =
        let both =
          both_add counted (weight test entry.item) (count_items test due)
            (dispatch callbacks now entry) (λ _. dispatch_all callbacks now due)
            (with_execution callbacks now) (dispatch-Adds entry) (λ _. dispatch_all-Adds due) d a t
            h in
        ground (arith, both)

    -- A round of the dispatcher that returns loses no trigger and doubles none: of every kind of job
    -- and schedule, the heap has as many entries after it as before.
    pub tick-keeps :
        (d : Dispatcher S) {executions : List JobExecution} {t : Dispatcher S}
        → tick callbacks now d ≡ (ok executions, t)
        → count_items test t.heap.entries ≡ count_items test d.heap.entries
    unfolding tick pop_due
    tick-keeps d {executions} {t} h =
        let (due, heap) = pop_due now d.heap in
        let added = dispatch_all-Adds due (record d { heap = heap }) executions t h in
        let split = count_items-take_due test now d.heap.entries in omega (arith, added, split)
