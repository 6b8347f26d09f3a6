-- ===== src/Worker/Redelivery.antt =====
-- About worker.py: a second delivery of a message.
use mathlib.Core.Path.{subst, subst₂}
use task_platform.Executor.Attempt.{Surroundings}
use task_platform.Queue.Memory
use task_platform.Db.Jobs
use task_platform.Domain.Job.{Job}
use task_platform.Registry.{TaskRegistry}
use task_platform.Queue.Message.{TaskMessage, Delivery}
use task_platform.Common.{◌≡◌, refl, sym, ap, Option, none, some, [], arith, ◌≢◌, true}
use task_platform.Common.Dict.{text_key, nat_key}
use task_platform.Domain.Status.{JobStatus}
use task_platform.Domain.Effects.{ok, ◌>>◌, >>=-eq-ok, pure, injective_ok}
use task_platform.Domain.Execution.{JobExecution, Instant}
use task_platform.Db.Tables.{Database}
use task_platform.Db.Executions
use task_platform.Worker.{
  is_handled, dropped, duplicate, ProcessResult, World, in_session, ack, handled_attempt,
  owned_elsewhere, key_owner, check_duplicate, execute_and_persist, run_unless_duplicate, with_job,
  process,
}
use task_platform.Worker.Saved.{IsSaved, status_in, status_of, execute_and_persist-IsSaved}

IsSaved-same_db :
    (m : TaskMessage) (r : ProcessResult) (v t : World)
    → v.db ≡ t.db
    → IsSaved m r v
    → IsSaved m r t
IsSaved-same_db m r v t same s = record {
  execution = s.execution;
  reported = s.reported;
  same_run = s.same_run;
  same_attempt = s.same_attempt;
  shown = subst (λ db. status_of m.run_id m.attempt db ≡ some s.execution.status) same s.shown;
  handled = s.handled;
}

module _ (registry : TaskRegistry) (now : Instant) (around : Surroundings World) where
  run_unless_duplicate-IsSaved :
      (d : Delivery) (job : Job) (found : Option (Option JobExecution)) (w : World)
      {r : ProcessResult} {t : World}
      → d.message.run_id ≢ []
      → r.outcome ≢ duplicate
      → run_unless_duplicate registry now around d job found w ≡ (ok r, t)
      → IsSaved d.message r t
  run_unless_duplicate-IsSaved d job (some existing) w named new h = absurd (new (cc (h)))
  run_unless_duplicate-IsSaved d job none w {r} {t} named new h =
      let (result, u, ran, rest) =
        >>=-eq-ok (execute_and_persist registry now around job d.message)
          (λ result. ack d.message_id >> pure result) w h in
      let saved = execute_and_persist-IsSaved registry now around job d.message w named ran in
      subst₂ (IsSaved d.message) (injective_ok (ap (λ p. p.0) rest)) (ap (λ p. p.1) rest) (
        IsSaved-same_db d.message result u
          (record u { queue = (Memory.ack d.message_id u.queue).1 }) refl saved)

  with_job-IsSaved :
      (d : Delivery) (job : Option Job) (w : World) {r : ProcessResult} {t : World}
      → d.message.run_id ≢ []
      → r.outcome ≢ dropped
      → r.outcome ≢ duplicate
      → with_job registry now around d job w ≡ (ok r, t)
      → IsSaved d.message r t
  with_job-IsSaved d none w named kept new h = absurd (kept (cc (h)))
  with_job-IsSaved d (some job) w named kept new h =
      run_unless_duplicate-IsSaved d job (check_duplicate d.message w.db) w named new h

  -- A message that `process` ran and acked: the database shows its attempt with the status that the
  -- result reports, which is one of the handled ones.
  pub process-IsSaved :
      (d : Delivery) (w : World) {r : ProcessResult} {t : World}
      → d.message.run_id ≢ []
      → r.outcome ≢ dropped
      → r.outcome ≢ duplicate
      → process registry now around d w ≡ (ok r, t)
      → IsSaved d.message r t
  unfolding process
  process-IsSaved d w named kept new h =
      let (job, u, found, rest) =
        >>=-eq-ok (in_session (Jobs.get d.message.job_id)) (with_job registry now around d) w h in
      with_job-IsSaved d job u named kept new rest

handled_attempt-handled :
    (found : Option JobExecution) (status : JobStatus)
    → status_in found ≡ some status
    → is_handled status ≡ true
    → handled_attempt found ≡ some found
unfolding handled_attempt is_handled
handled_attempt-handled none status shown handled = cc (shown)
handled_attempt-handled (some e) status shown handled = ground arith

-- A message whose attempt has a handled status is a duplicate.
check_duplicate-handled :
    (m : TaskMessage) (db : Database) (status : JobStatus)
    → status_of m.run_id m.attempt db ≡ some status
    → is_handled status ≡ true
    → check_duplicate m db ≡ some (Executions.get_attempt m.run_id m.attempt db)
unfolding check_duplicate
check_duplicate-handled m db status shown handled =
    ap
      (λ a. elim a [
        | some existing ↦ some existing
        | none ↦ owned_elsewhere m.run_id (key_owner m.idempotency_key db)
      ])
      (handled_attempt-handled (Executions.get_attempt m.run_id m.attempt db) status shown handled)

module _ (registry : TaskRegistry) (now : Instant) (around : Surroundings World) where
  process_handled :
      (d : Delivery) (w : World) (job : Job) (status : JobStatus)
      → (Jobs.get d.message.job_id w.db).0 ≡ ok (some job)
      → status_of d.message.run_id d.message.attempt w.db ≡ some status
      → is_handled status ≡ true
      → process registry now around d w ≡ (
        ok (record {
          outcome = duplicate;
          execution = Executions.get_attempt d.message.run_id d.message.attempt w.db;
        }),
        record w { queue = (Memory.ack d.message_id w.queue).1 },
      )
  unfolding process Jobs.get
  process_handled d w job status known shown handled =
      rw known (rw (check_duplicate-handled d.message w.db status shown handled) refl)

  -- A message is not run twice: once `process` has returned for a delivery of it, other than as
  -- dropped or duplicate, any later delivery of the same message, with the database as it was left
  -- and the job still readable, is reported as a duplicate of the attempt in the database and acked,
  -- and nothing but the queue changes.
  pub process_redelivered :
      (d again : Delivery) (w u : World) (job : Job) {r : ProcessResult} {t : World}
      → d.message.run_id ≢ []
      → r.outcome ≢ dropped
      → r.outcome ≢ duplicate
      → process registry now around d w ≡ (ok r, t)
      → again.message ≡ d.message
      → u.db ≡ t.db
      → (Jobs.get again.message.job_id u.db).0 ≡ ok (some job)
      → process registry now around again u ≡ (
        ok (record {
          outcome = duplicate;
          execution = Executions.get_attempt again.message.run_id again.message.attempt u.db;
        }),
        record u { queue = (Memory.ack again.message_id u.queue).1 },
      )
  process_redelivered d again w u job {r} {t} named kept new ran same left known =
      let saved = process-IsSaved registry now around d w named kept new ran in
      process_handled again u job saved.execution.status known
        (subst₂ (λ m db. status_of m.run_id m.attempt db ≡ some saved.execution.status) (sym same)
          (sym left) saved.shown)
        saved.handled
