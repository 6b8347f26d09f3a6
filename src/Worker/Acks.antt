-- ===== src/Worker/Acks.antt =====
-- About worker.py: the pending entries and the active runs over a delivery.
use mathlib.Core.Path.{subst}
use task_platform.Executor.Attempt.{AttemptResult, Surroundings, execute_attempt}
use task_platform.Executor.Keeping.{execute_attempt-keeps}
use task_platform.Queue.Memory.{MemoryQueue}
use task_platform.Domain.Cancel.{ActiveRuns}
use task_platform.Queue.Memory
use task_platform.Db.Jobs
use task_platform.Domain.Cancel
use task_platform.Domain.Job.{Job}
use task_platform.Registry.{TaskRegistry}
use task_platform.Queue.Message.{TaskMessage, Delivery}
use task_platform.Common.{
  ℕ, ◌≡◌, refl, sym, ap, ◌∙◌, Option, none, some, arith, Text, inl, inr, false, text_eq_self,
}
use task_platform.Common.Dict
use task_platform.Common.Dict.{Key, text_key, nat_key}
use task_platform.Domain.Effects.{
  key_error, overflow_error, decimal_error, system_exit, api_error, ok, ◌>>◌, >>=-eq-ok, >>=-eq-err,
  >>=-keeps, Error, value_error, assertion_error, invalid_transition, job_not_registered,
  duplicate_job_name, entity_not_found, integrity_error, invalid_message, job_canceled,
  handler_timeout, handler_error, queue_error, Result, err, pure, lift, ◌>>=◌,
}
use task_platform.Domain.Execution.{JobExecution, Instant}
use task_platform.Worker.{
  unrunnable, ProcessResult, World, in_session, ack, check_duplicate, persist_started,
  persist_final, unrunnable_execution, unregister, with_retry_at, persist_result,
  persist_unrunnable, after_attempt, execute_and_persist, run_unless_duplicate, with_job, process,
  reported_as,
}

module _ (registry : TaskRegistry) (now : Instant) (around : Surroundings World) where
  with_job_acks :
      (d : Delivery) (job : Option Job) (w : World) {r : ProcessResult} {t : World}
      → with_job registry now around d job w ≡ (ok r, t)
      → (u : World) × (t.queue ≡ (Memory.ack d.message_id u.queue).1)
  with_job_acks d none w h = (w, ap (λ x. x.1.queue) (sym h))
  with_job_acks d (some job) w {r} {t} h = by_duplicate (check_duplicate d.message w.db) h
    where
      by_duplicate :
          (found : Option (Option JobExecution))
          → run_unless_duplicate registry now around d job found w ≡ (ok r, t)
          → (u : World) × (t.queue ≡ (Memory.ack d.message_id u.queue).1)
      by_duplicate (some existing) e = (w, ap (λ x. x.1.queue) (sym e))
      by_duplicate none e =
          let (result, u, ran, rest) =
            >>=-eq-ok (execute_and_persist registry now around job d.message)
              (λ result. ack d.message_id >> pure result) w e in
          (u, ap (λ x. x.1.queue) (sym rest))

  -- A delivery for which `process` returns, whatever its outcome, is no longer pending.
  pub process_acks :
      (d : Delivery) (w : World) {r : ProcessResult} {t : World}
      → process registry now around d w ≡ (ok r, t)
      → Dict.get t.queue.pending d.message_id ≡ none
  unfolding process Memory.ack
  process_acks d w {r} {t} h =
      let (job, v, found, rest) =
        >>=-eq-ok (in_session (Jobs.get d.message.job_id)) (with_job registry now around d) w h in
      let (u, acked) = with_job_acks d job v rest in
      ap (λ q. Dict.get q.pending d.message_id) acked
      ∙ Dict.get-pop u.queue.pending d.message_id d.message_id
      ∙ ground arith

-- What the transactions leave alone.
abbrev outside : World → MemoryQueue × ActiveRuns
outside w = (w.queue, w.active)

persist_result-outside :
    (now : Instant) (attempt : ℕ) (a : AttemptResult) (w : World)
    → outside (persist_result now attempt a w).1 ≡ outside w
unfolding persist_result persist_final
persist_result-outside now attempt a w =
    >>=-keeps (λ s. outside s ≡ outside w) (lift (with_retry_at now a attempt))
      (λ e. persist_final e >>= λ _. pure (reported_as a e)) w refl
      λ e t kept.
        >>=-keeps (λ s. outside s ≡ outside w) (persist_final e) (λ _. pure (reported_as a e)) t
          kept λ _ u same. same

persist_unrunnable-outside :
    (job : Job) (m : TaskMessage) (now : Instant) (w : World)
    → outside (persist_unrunnable job m now w).1 ≡ outside w
unfolding persist_unrunnable persist_final
persist_unrunnable-outside job m now w =
    >>=-keeps (λ s. outside s ≡ outside w) (lift (unrunnable_execution job m now))
      (λ e. persist_final e >>= λ _. pure (record { outcome = unrunnable; execution = some e })) w
      refl
      λ e t kept.
        >>=-keeps (λ s. outside s ≡ outside w) (persist_final e)
          (λ _. pure (record { outcome = unrunnable; execution = some e })) t kept λ _ u same. same

after_attempt-queue :
    (job : Job) (m : TaskMessage) (now : Instant) (a : Result AttemptResult) (w : World)
    → (after_attempt job m now a w).1.queue ≡ w.queue
unfolding unregister
after_attempt-queue job m now (ok a) w =
    ap (λ o. o.0) (persist_result-outside now m.attempt a (unregister m.run_id w))
after_attempt-queue job m now (err (job_not_registered name)) w =
    ap (λ o. o.0) (persist_unrunnable-outside job m now w)
after_attempt-queue job m now (err value_error) w = refl
after_attempt-queue job m now (err assertion_error) w = refl
after_attempt-queue job m now (err (invalid_transition c g)) w = refl
after_attempt-queue job m now (err (duplicate_job_name n)) w = refl
after_attempt-queue job m now (err entity_not_found) w = refl
after_attempt-queue job m now (err integrity_error) w = refl
after_attempt-queue job m now (err key_error) w = refl
after_attempt-queue job m now (err overflow_error) w = refl
after_attempt-queue job m now (err decimal_error) w = refl
after_attempt-queue job m now (err system_exit) w = refl
after_attempt-queue job m now (err (api_error s c n)) w = refl
after_attempt-queue job m now (err invalid_message) w = refl
after_attempt-queue job m now (err (job_canceled n)) w = refl
after_attempt-queue job m now (err (handler_timeout n)) w = refl
after_attempt-queue job m now (err (handler_error n)) w = refl
after_attempt-queue job m now (err queue_error) w = refl

module _ (registry : TaskRegistry) (now : Instant) (around : Surroundings World)
    (P : MemoryQueue → Type 0) where
  execute_and_persist-keeps_queue :
      (job : Job) (m : TaskMessage) (w : World)
      → ((s : World) → P s.queue → P (around.meanwhile s).queue)
      → P w.queue
      → P (execute_and_persist registry now around job m w).1.queue
  unfolding execute_and_persist persist_started
  execute_and_persist-keeps_queue job m w others p =
      let (active, token) = Cancel.new_token w.active in
      let started : World = record w { active = Cancel.register m.run_id token active } in
      let got =
        execute_attempt job registry m.attempt (some m.run_id) persist_started around started in
      let kept =
        execute_attempt-keeps (λ s. P s.queue) job registry m.attempt (some m.run_id)
          persist_started around (λ e s q. q) others started p in
      subst P (sym (after_attempt-queue job m now got.0 got.1)) kept

  with_job-keeps_queue :
      (d : Delivery) (job : Option Job) (w : World) {e : Error} {t : World}
      → ((s : World) → P s.queue → P (around.meanwhile s).queue)
      → with_job registry now around d job w ≡ (err e, t)
      → P w.queue
      → P t.queue
  with_job-keeps_queue d none w others h p = cc (h)
  with_job-keeps_queue d (some job) w {e} {t} others h p =
      by_duplicate (check_duplicate d.message w.db) h
    where
      by_duplicate :
          (found : Option (Option JobExecution))
          → run_unless_duplicate registry now around d job found w ≡ (err e, t)
          → P t.queue
      by_duplicate (some existing) h = cc (h)
      by_duplicate none h =
          elim (>>=-eq-err (execute_and_persist registry now around job d.message)
            (λ result. ack d.message_id >> pure result) w h) [
              | inl raised_by ↦
                  subst (λ x. P x.1.queue) raised_by
                    (execute_and_persist-keeps_queue job d.message w others p)
              | inr (result, u, ran, rest) ↦ cc (rest)
            ]

  -- A delivery for which `process` raises is not acked: what holds of the queue before, and is kept
  -- by what others do to the state while the handler runs, holds after.
  pub process-keeps_queue :
      (d : Delivery) (w : World) {e : Error} {t : World}
      → ((s : World) → P s.queue → P (around.meanwhile s).queue)
      → process registry now around d w ≡ (err e, t)
      → P w.queue
      → P t.queue
  unfolding process
  process-keeps_queue d w {e} {t} others h p =
      elim (>>=-eq-err (in_session (Jobs.get d.message.job_id)) (with_job registry now around d) w
        h) [
          | inl unread ↦ subst (λ x. P x.1.queue) unread p
          | inr (job, u, found, rest) ↦
              with_job-keeps_queue d job u others rest (subst (λ x. P x.1.queue) found p)
        ]

unregister-absent :
    (run_id : Text) (w : World) → Dict.get (unregister run_id w).active.tokens run_id ≡ none
unfolding unregister Cancel.unregister
unregister-absent run_id w =
    ground (arith, Dict.get-pop w.active.tokens run_id run_id, text_eq_self run_id)

after_attempt-active :
    (job : Job) (m : TaskMessage) (now : Instant) (a : Result AttemptResult) (w : World)
    → Dict.get (after_attempt job m now a w).1.active.tokens m.run_id ≡ none
after_attempt-active job m now (ok a) w =
    ap (λ o. Dict.get o.1.tokens m.run_id)
      (persist_result-outside now m.attempt a (unregister m.run_id w))
    ∙ unregister-absent m.run_id w
after_attempt-active job m now (err (job_not_registered name)) w =
    unregister-absent m.run_id (persist_unrunnable job m now w).1
after_attempt-active job m now (err value_error) w = unregister-absent m.run_id w
after_attempt-active job m now (err assertion_error) w = unregister-absent m.run_id w
after_attempt-active job m now (err (invalid_transition c g)) w = unregister-absent m.run_id w
after_attempt-active job m now (err (duplicate_job_name n)) w = unregister-absent m.run_id w
after_attempt-active job m now (err entity_not_found) w = unregister-absent m.run_id w
after_attempt-active job m now (err integrity_error) w = unregister-absent m.run_id w
after_attempt-active job m now (err key_error) w = unregister-absent m.run_id w
after_attempt-active job m now (err overflow_error) w = unregister-absent m.run_id w
after_attempt-active job m now (err decimal_error) w = unregister-absent m.run_id w
after_attempt-active job m now (err system_exit) w = unregister-absent m.run_id w
after_attempt-active job m now (err (api_error s c n)) w = unregister-absent m.run_id w
after_attempt-active job m now (err invalid_message) w = unregister-absent m.run_id w
after_attempt-active job m now (err (job_canceled n)) w = unregister-absent m.run_id w
after_attempt-active job m now (err (handler_timeout n)) w = unregister-absent m.run_id w
after_attempt-active job m now (err (handler_error n)) w = unregister-absent m.run_id w
after_attempt-active job m now (err queue_error) w = unregister-absent m.run_id w

module _ (registry : TaskRegistry) (now : Instant) (around : Surroundings World) where
  -- However an attempt ends, its run is no longer among the active ones: a request to cancel it
  -- finds nothing in this process.
  pub execute_and_persist-unregisters :
      (job : Job) (m : TaskMessage) (w : World)
      → (Cancel.cancel m.run_id (execute_and_persist registry now around job m w).1.active).0
        ≡ false
  unfolding execute_and_persist Cancel.cancel
  execute_and_persist-unregisters job m w =
      let (active, token) = Cancel.new_token w.active in
      let started : World = record w { active = Cancel.register m.run_id token active } in
      let got =
        execute_attempt job registry m.attempt (some m.run_id) persist_started around started in
      rw (after_attempt-active job m now got.0 got.1) refl
