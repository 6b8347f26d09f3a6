-- ===== src/Worker/Saved.antt =====
-- About worker.py: what the database shows once `process` is through with a message.
use mathlib.Core.Path.{subst, subst₂}
use task_platform.Executor.Attempt.{
  AttemptResult, Surroundings, execute_attempt, chosen_run_id, resolve_timeout_seconds,
  resolve_retry_policy,
}
use task_platform.Executor.Endings.{execute_attempt-eq-ok, end_status, is_exit}
use task_platform.Executor.Wait.{exited, Ending, returned, stopped, raised}
use task_platform.Domain.Cancel
use task_platform.Domain.Job.{Job}
use task_platform.Domain.Retry.{RetryPolicy}
use task_platform.Registry.{TaskRegistry}
use task_platform.Collector
use task_platform.Queue.Message.{TaskMessage}
use task_platform.Common.{
  false, ℕ, ◌≡◌, refl, sym, ap, ◌∙◌, Option, none, some, List, [], ◌∷◌, arith, Text, ◌≢◌, true,
}
use task_platform.Common.Dict.{text_key, nat_key}
use task_platform.Domain.Status.{JobStatus, failed}
use task_platform.Domain.Effects.{
  key_error, overflow_error, decimal_error, system_exit, api_error, ok, ◌>>◌, >>=-eq-ok,
  value_error, assertion_error, invalid_transition, job_not_registered, duplicate_job_name,
  entity_not_found, integrity_error, invalid_message, job_canceled, handler_timeout, handler_error,
  queue_error, Result, err, Action, pure, lift, ◌>>=◌, injective_ok,
}
use task_platform.Domain.Execution.{JobExecution, JobLog, Instant, new_execution}
use task_platform.Db.Tables.{Database}
use task_platform.Db.Session.{session_scope, session_scope-eq-ok}
use task_platform.Db.Executions
use task_platform.Db.Executions.Upsert.{saved, upsert-saved}
use task_platform.Db.Logs
use task_platform.Worker.{
  add_logs, is_handled, unrunnable, ProcessResult, World, persist_started, persist_final,
  unrunnable_execution, unregister, with_retry_at, persist_result, persist_unrunnable,
  after_attempt, execute_and_persist, reported_as,
}

-- What the database shows of an attempt.
abbrev pub status_in : Option JobExecution → Option JobStatus
status_in none = none
status_in (some e) = some e.status

abbrev pub status_of : Text → ℕ → Database → Option JobStatus
status_of run_id attempt db = status_in (Executions.get_attempt run_id attempt db)

add_logs-executions :
    (logs : List JobLog) (db : Database) → (add_logs logs db).1.executions ≡ db.executions
unfolding add_logs Logs.add_many
add_logs-executions [] db = refl
add_logs-executions (l ∷ logs) db = ground arith

attempt_of-executions :
    (run_id : Text) (attempt : ℕ) (a b : Database)
    → a.executions ≡ b.executions
    → Executions.get_attempt run_id attempt a ≡ Executions.get_attempt run_id attempt b
unfolding Executions.get_attempt
attempt_of-executions run_id attempt a b h = ground arith

status-saved : (old : Option JobExecution) (e : JobExecution) → (saved old e).status ≡ e.status
status-saved none e = refl
status-saved (some o) e = refl

-- The transaction of the final save, if it commits, shows the status that was saved.
status_of-commit :
    (e : JobExecution) (logs : List JobLog) (db : Database)
    → (session_scope (Executions.upsert e >> add_logs logs) db).0 ≡ ok tt
    → status_of e.run_id e.attempt (session_scope (Executions.upsert e >> add_logs logs) db).1
      ≡ some e.status
status_of-commit e logs db h =
    let m = Executions.upsert e >> add_logs logs in
    let done = session_scope-eq-ok m db h in
    let (_, u, first, second) = >>=-eq-ok (Executions.upsert e) (λ _. add_logs logs) db done in
    let after : Database = (session_scope m db).1 in
    let kept : after.executions ≡ u.executions =
      ap (λ r. r.1.executions) (sym second) ∙ add_logs-executions logs u in
    let read = upsert-saved e db (ap (λ r. r.0) first) in
    let at_u : (Executions.upsert e db).1 ≡ u = ap (λ r. r.1) first in
    let same = attempt_of-executions e.run_id e.attempt after u kept in
    let found : Executions.get_attempt e.run_id e.attempt after
        ≡ some (saved (Executions.get_attempt e.run_id e.attempt db) e) =
      same
      ∙ subst
          (λ d.
            Executions.get_attempt e.run_id e.attempt d
            ≡ some (saved (Executions.get_attempt e.run_id e.attempt db) e))
          at_u read in
    ap status_in found ∙ ap some (status-saved (Executions.get_attempt e.run_id e.attempt db) e)

-- The same of the whole final save.
status_of-persist_final :
    (e : JobExecution) (w : World)
    → (persist_final e w).0 ≡ ok tt
    → status_of e.run_id e.attempt (persist_final e w).1.db ≡ some e.status
unfolding persist_final
status_of-persist_final e w h =
    status_of-commit e (Collector.drain e.run_id e.attempt w.logs).0 w.db h

-- What a processed message leaves behind: an attempt with the status that the result reports, of
-- the run and the number of the message, and the run no longer active.
pub record IsSaved (m : TaskMessage) (r : ProcessResult) (w : World) : Type 0 where
  pub execution : JobExecution
  pub reported : r.execution ≡ some execution
  pub same_run : execution.run_id ≡ m.run_id
  pub same_attempt : execution.attempt ≡ m.attempt
  pub shown : status_of m.run_id m.attempt w.db ≡ some execution.status
  pub handled : is_handled execution.status ≡ true

with_retry_at-keeps :
    (now : Instant) (result : AttemptResult) (attempt : ℕ) {e : JobExecution}
    → with_retry_at now result attempt ≡ ok e
    → (e.run_id ≡ result.execution.run_id)
      × (e.attempt ≡ result.execution.attempt)
      × (e.status ≡ result.execution.status)
with_retry_at-keeps now result attempt h = ground arith

IsSaved-persist_final :
    (m : TaskMessage) (e : JobExecution) (r : ProcessResult) (w : World)
    → r.execution ≡ some e
    → e.run_id ≡ m.run_id
    → e.attempt ≡ m.attempt
    → is_handled e.status ≡ true
    → (persist_final e w).0 ≡ ok tt
    → IsSaved m r (persist_final e w).1
IsSaved-persist_final m e r w reported run att handled h = record {
  execution = e;
  reported = reported;
  same_run = run;
  same_attempt = att;
  shown =
      subst₂ (λ k n. status_of k n (persist_final e w).1.db ≡ some e.status) run att
        (status_of-persist_final e w h);
  handled = handled;
}

persist_result-IsSaved :
    (now : Instant) (m : TaskMessage) (result : AttemptResult) (w : World) {r : ProcessResult}
    {t : World}
    → result.execution.run_id ≡ m.run_id
    → result.execution.attempt ≡ m.attempt
    → is_handled result.execution.status ≡ true
    → persist_result now m.attempt result w ≡ (ok r, t)
    → IsSaved m r t
unfolding persist_result
persist_result-IsSaved now m result w {r} {t} run att handled h =
    let (e, u, chosen, rest) =
      >>=-eq-ok (lift (with_retry_at now result m.attempt))
        (λ e. persist_final e >>= λ _. pure (reported_as result e)) w h in
    let (_, v, saved_to, last) =
      >>=-eq-ok (persist_final e) (λ _. pure (reported_as result e)) u rest in
    let (same_run, same_attempt, same_status) =
      with_retry_at-keeps now result m.attempt (ap (λ p. p.0) chosen) in
    let at_t = ap (λ p. p.1) saved_to ∙ ap (λ p. p.1) last in
    let reported : reported_as result e ≡ r = injective_ok (ap (λ p. p.0) last) in
    subst (IsSaved m r) at_t (
      IsSaved-persist_final m e r u (sym (ap (λ r. r.execution) reported)) (same_run ∙ run)
        (same_attempt ∙ att) (ap is_handled same_status ∙ handled) (ap (λ p. p.0) saved_to))

unrunnable_execution-keeps :
    (job : Job) (m : TaskMessage) (now : Instant) {e : JobExecution}
    → unrunnable_execution job m now ≡ ok e
    → (e.run_id ≡ m.run_id) × (e.attempt ≡ m.attempt) × (e.status ≡ failed)
unfolding unrunnable_execution new_execution
unrunnable_execution-keeps job m now h = ground arith

persist_unrunnable-IsSaved :
    (job : Job) (m : TaskMessage) (now : Instant) (w : World) {r : ProcessResult} {t : World}
    → persist_unrunnable job m now w ≡ (ok r, t)
    → IsSaved m r t
unfolding persist_unrunnable is_handled
persist_unrunnable-IsSaved job m now w {r} {t} h =
    let (e, u, chosen, rest) =
      >>=-eq-ok (lift (unrunnable_execution job m now))
        (λ e. persist_final e >>= λ _. pure (record { outcome = unrunnable; execution = some e })) w
        h in
    let (_, v, saved_to, last) =
      >>=-eq-ok (persist_final e) (λ _. pure (record { outcome = unrunnable; execution = some e }))
        u rest in
    let (same_run, same_attempt, same_status) =
      unrunnable_execution-keeps job m now (ap (λ p. p.0) chosen) in
    let at_t = ap (λ p. p.1) saved_to ∙ ap (λ p. p.1) last in
    let reported = injective_ok (ap (λ p. p.0) last) in
    subst (IsSaved m r) at_t (
      IsSaved-persist_final m e r u (sym (ap (λ r. r.execution) reported)) same_run same_attempt
        (ap is_handled same_status) (ap (λ p. p.0) saved_to))

-- What the attempt of the message has to be for its end to count as handled.
abbrev IsOwn : TaskMessage → Result AttemptResult → Type 0
IsOwn m (err e) = Unit
IsOwn m (ok a) =
    (a.execution.run_id ≡ m.run_id)
    × (a.execution.attempt ≡ m.attempt)
    × (is_handled a.execution.status ≡ true)

IsSaved-unregister :
    (m : TaskMessage) (r : ProcessResult) (w : World)
    → IsSaved m r w
    → IsSaved m r (unregister m.run_id w)
unfolding unregister
IsSaved-unregister m r w s = record {
  execution = s.execution;
  reported = s.reported;
  same_run = s.same_run;
  same_attempt = s.same_attempt;
  shown = s.shown;
  handled = s.handled;
}

after_attempt-IsSaved :
    (job : Job) (m : TaskMessage) (now : Instant) (a : Result AttemptResult) (w : World)
    {r : ProcessResult} {t : World}
    → IsOwn m a
    → after_attempt job m now a w ≡ (ok r, t)
    → IsSaved m r t
after_attempt-IsSaved job m now (ok a) w (run, att, handled) h =
    persist_result-IsSaved now m a (unregister m.run_id w) run att handled h
after_attempt-IsSaved job m now (err (job_not_registered name)) w {r} {t} own h =
    let done = persist_unrunnable job m now w in
    let got : done ≡ (ok r, done.1) = ap (λ x. (x.0, done.1)) h in
    subst (IsSaved m r) (ap (λ x. x.1) h)
      (IsSaved-unregister m r done.1 (persist_unrunnable-IsSaved job m now w got))
after_attempt-IsSaved job m now (err value_error) w own h = cc (h)
after_attempt-IsSaved job m now (err assertion_error) w own h = cc (h)
after_attempt-IsSaved job m now (err (invalid_transition c g)) w own h = cc (h)
after_attempt-IsSaved job m now (err (duplicate_job_name n)) w own h = cc (h)
after_attempt-IsSaved job m now (err entity_not_found) w own h = cc (h)
after_attempt-IsSaved job m now (err integrity_error) w own h = cc (h)
after_attempt-IsSaved job m now (err key_error) w own h = cc (h)
after_attempt-IsSaved job m now (err overflow_error) w own h = cc (h)
after_attempt-IsSaved job m now (err decimal_error) w own h = cc (h)
after_attempt-IsSaved job m now (err system_exit) w own h = cc (h)
after_attempt-IsSaved job m now (err (api_error s c n)) w own h = cc (h)
after_attempt-IsSaved job m now (err invalid_message) w own h = cc (h)
after_attempt-IsSaved job m now (err (job_canceled n)) w own h = cc (h)
after_attempt-IsSaved job m now (err (handler_timeout n)) w own h = cc (h)
after_attempt-IsSaved job m now (err (handler_error n)) w own h = cc (h)
after_attempt-IsSaved job m now (err queue_error) w own h = cc (h)

end_status-handled :
    (policy : RetryPolicy) (attempt : ℕ) (ending : Ending)
    → is_exit ending ≡ false
    → is_handled (end_status policy attempt ending) ≡ true
unfolding is_handled
end_status-handled policy attempt returned h = refl
end_status-handled policy attempt exited h = cc (h)
end_status-handled policy attempt (stopped m) h = refl
end_status-handled policy attempt (raised m) h = ground arith

chosen_own : (run_id new : Text) → run_id ≢ [] → chosen_run_id (some run_id) new ≡ run_id
chosen_own [] new h = absurd (h refl)
chosen_own (c ∷ run_id) new h = refl

module _ (registry : TaskRegistry) (now : Instant) (around : Surroundings World) where
  execute_attempt-IsOwn :
      (job : Job) (m : TaskMessage) (on_started : JobExecution → Action World Unit) (w : World)
      (a : Result AttemptResult)
      → m.run_id ≢ []
      → (execute_attempt job registry m.attempt (some m.run_id) on_started around w).0 ≡ a
      → IsOwn m a
  unfolding new_execution
  execute_attempt-IsOwn job m on_started w (err e) named h = tt
  execute_attempt-IsOwn job m on_started w (ok a) named h =
      let got = execute_attempt job registry m.attempt (some m.run_id) on_started around w in
      let (handler, ended) =
        execute_attempt-eq-ok job registry m.attempt (some m.run_id) on_started around w
          (ap (λ r. (r, got.1)) h) in
      let (no_exit, ends) = ended in
      (
        ap (λ r. r.execution.run_id) ends ∙ chosen_own m.run_id around.new_run_id named,
        ap (λ r. r.execution.attempt) ends,
        ap (λ r. is_handled r.execution.status) ends
            ∙ end_status-handled (resolve_retry_policy job handler) m.attempt
                (around.wait (resolve_timeout_seconds job handler)) no_exit,
      )

  pub execute_and_persist-IsSaved :
      (job : Job) (m : TaskMessage) (w : World) {r : ProcessResult} {t : World}
      → m.run_id ≢ []
      → execute_and_persist registry now around job m w ≡ (ok r, t)
      → IsSaved m r t
  unfolding execute_and_persist
  execute_and_persist-IsSaved job m w named h =
      let (active, token) = Cancel.new_token w.active in
      let started : World = record w { active = Cancel.register m.run_id token active } in
      let got =
        execute_attempt job registry m.attempt (some m.run_id) persist_started around started in
      after_attempt-IsSaved job m now got.0 got.1
        (execute_attempt-IsOwn job m persist_started started got.0 named refl) h
