-- ===== src/Executor/Endings.antt =====
-- About executor.py: the loop of `_wait_for` and the ends of an attempt.
use task_platform.Common.{
  ◌∙◌, Bool, false, sym, true, ℕ, ◌+◌, ◌≡◌, refl, ap, true, not, ◌&&◌, Option, none, some, List, [],
  ◌∷◌, arith, ltb, leb, if◌then◌else◌, is_some, any, all, Text,
}
use task_platform.Domain.Status.{JobStatus, running, success, retrying, failed, canceled, status_eq}
use task_platform.Domain.Effects.{Error, system_exit, injective_ok, ok, err, Action, Result}
use task_platform.Domain.Execution.{Instant, JobExecution, new_execution}
use task_platform.Domain.Job.{Job}
use task_platform.Domain.Retry.{RetryPolicy}
use task_platform.Registry
use task_platform.Registry.{
  RegisteredHandler, TaskRegistry, register, get, is_registered, list_names, unregister, clear,
}
use task_platform.Executor.Wait.{
  Ending, returned, exited, stopped, raised, Poll, timeout_message, wait_rounds,
}
use task_platform.Executor.Attempt.{
  resolve_timeout_seconds, resolve_retry_policy, AttemptResult, Surroundings, finish_attempt,
  execute_attempt, chosen_run_id, with_limits,
}

-- Once the clock of a round has passed the deadline the wait is over: it ends by then with the
-- handler's own end, with the timeout, or with a cancellation that waited for the grace period.
pub wait_rounds_ends :
    (deadline grace : ℕ) (shown : Text) (limit : Option Instant) (polls : List Poll)
    → any (λ p. leb deadline p.now) polls ≡ true
    → is_some (wait_rounds deadline grace shown limit polls) ≡ true
unfolding wait_rounds
wait_rounds_ends deadline grace shown limit [] h = cc
wait_rounds_ends deadline grace shown limit (p ∷ polls) h = ground (
  arith,
  wait_rounds_ends deadline grace shown limit polls,
  wait_rounds_ends deadline grace shown (some (p.now + grace)) polls,
)

-- A handler that is not seen to end and whose token is never cancelled is waited for up to the
-- deadline and no longer: the first round at or after it raises the timeout and cancels the token.
pub wait_rounds_timeout :
    (deadline grace : ℕ) (shown : Text) (polls : List Poll)
    → all (λ p. not (is_some p.done) && not p.is_cancelled) polls ≡ true
    → wait_rounds deadline grace shown none polls ≡ (
        if any (λ p. leb deadline p.now) polls
        then some (raised (timeout_message shown), true)
        else none)
unfolding wait_rounds
wait_rounds_timeout deadline grace shown [] h = refl
wait_rounds_timeout deadline grace shown (p ∷ polls) h =
    ground (arith, wait_rounds_timeout deadline grace shown polls)

-- The status that an attempt should end with; an exit leaves it RUNNING.
abbrev pub end_status : RetryPolicy → ℕ → Ending → JobStatus
end_status policy attempt returned = success
end_status policy attempt exited = running
end_status policy attempt (stopped _) = canceled
end_status policy attempt (raised _) = if ltb attempt policy.max_attempts then retrying else failed

abbrev pub end_message : Option Text → Ending → Option Text
end_message old returned = old
end_message old exited = old
end_message old (stopped m) = some m
end_message old (raised m) = some m

-- What an attempt that ended should look like, and whether it should be retried: exactly if it is
-- RETRYING.
abbrev pub end_result : RetryPolicy → ℕ → Instant → Ending → JobExecution → AttemptResult
end_result policy attempt now ending e = record {
  execution = record e {
    status = end_status policy attempt ending;
    error_message = end_message e.error_message ending;
    finished_at = some now;
  };
  retry_policy = policy;
  should_retry = status_eq (end_status policy attempt ending) retrying;
}

abbrev pub is_exit : Ending → Bool
is_exit exited = true
is_exit _ = false

-- The result, or the exit that escapes.
abbrev pub end_outcome : RetryPolicy → ℕ → Instant → Ending → JobExecution → Result AttemptResult
end_outcome policy attempt now ending e =
    if is_exit ending then err system_exit else ok (end_result policy attempt now ending e)

end_outcome-eq-ok :
    (policy : RetryPolicy) (attempt : ℕ) (now : Instant) (ending : Ending) (e : JobExecution)
    {result : AttemptResult}
    → end_outcome policy attempt now ending e ≡ ok result
    → (is_exit ending ≡ false) × (result ≡ end_result policy attempt now ending e)
end_outcome-eq-ok policy attempt now returned e h = (refl, sym (injective_ok h))
end_outcome-eq-ok policy attempt now exited e h = cc (h)
end_outcome-eq-ok policy attempt now (stopped m) e h = (refl, sym (injective_ok h))
end_outcome-eq-ok policy attempt now (raised m) e h = (refl, sym (injective_ok h))

pub finish_attempt-end_outcome :
    (policy : RetryPolicy) (attempt : ℕ) (now : Instant) (ending : Ending) (e : JobExecution)
    → e.status ≡ running
    → finish_attempt policy attempt now ending e ≡ end_outcome policy attempt now ending e
unfolding finish_attempt
finish_attempt-end_outcome policy attempt now exited e h = refl
finish_attempt-end_outcome policy attempt now returned e h = ground arith
finish_attempt-end_outcome policy attempt now (stopped m) e h = ground arith
finish_attempt-end_outcome policy attempt now (raised m) e h = ground arith

-- The execution that the callback sees: RUNNING, with its limits.
abbrev pub begun : Job → RegisteredHandler → Text → ℕ → Instant → JobExecution
begun job h run_id attempt now = with_limits job h (record (new_execution job.id run_id) {
  status = running;
  started_at = some now;
  attempt = attempt;
})

module _ {S : Type 0} (job : Job) (registry : TaskRegistry) (attempt : ℕ) (run_id : Option Text)
    (on_started : JobExecution → Action S Unit) (world : Surroundings S) (s : S) where
  -- An attempt whose handler is not registered raises before the callback: the state is untouched.
  pub execute_attempt_unregistered :
      (error : Error)
      → Registry.get job.handler registry ≡ err error
      → execute_attempt job registry attempt run_id on_started world s ≡ (err error, s)
  unfolding execute_attempt new_execution
  execute_attempt_unregistered error h = rw h

  -- A callback that raises ends the attempt with its exception, and the handler is not called.
  pub execute_attempt_not_started :
      (h : RegisteredHandler) (error : Error) (t : S)
      → Registry.get job.handler registry ≡ ok h
      → on_started (begun job h (chosen_run_id run_id world.new_run_id) attempt world.started_at) s
        ≡ (err error, t)
      → execute_attempt job registry attempt run_id on_started world s ≡ (err error, t)
  unfolding execute_attempt new_execution
  execute_attempt_not_started h error t found raises = rw found (rw raises)

  -- With a registered handler and a callback that returns, the callback sees the attempt RUNNING, and
  -- then: a handler that returns ends it in SUCCESS, one that is cancelled in CANCELED, and one that
  -- raises an Exception, or is given up after its timeout, in RETRYING while attempts are left and in
  -- FAILED otherwise, with the message and the time; an exception that is no Exception escapes.
  pub execute_attempt_ends :
      (h : RegisteredHandler) (t : S)
      → Registry.get job.handler registry ≡ ok h
      → on_started (begun job h (chosen_run_id run_id world.new_run_id) attempt world.started_at) s
        ≡ (ok tt, t)
      → execute_attempt job registry attempt run_id on_started world s ≡ (
        end_outcome
            (resolve_retry_policy job h)
            attempt
            world.finished_at
            (world.wait (resolve_timeout_seconds job h))
            (begun job h (chosen_run_id run_id world.new_run_id) attempt world.started_at),
        world.meanwhile t,
      )
  unfolding execute_attempt new_execution
  execute_attempt_ends h t found started =
      let seen = begun job h (chosen_run_id run_id world.new_run_id) attempt world.started_at in
      let ending = world.wait (resolve_timeout_seconds job h) in
      rw found (
        rw started (
          ap (λ r. (r, world.meanwhile t))
            (finish_attempt-end_outcome (resolve_retry_policy job h) attempt world.finished_at
              ending seen refl)))

  abbrev pub Ended : RegisteredHandler → AttemptResult → Type 0
  Ended h result =
      let ending = world.wait (resolve_timeout_seconds job h) in
      (is_exit ending ≡ false)
      × (result
          ≡ end_result (resolve_retry_policy job h) attempt world.finished_at ending
              (begun job h (chosen_run_id run_id world.new_run_id) attempt world.started_at))

  -- An attempt that returned a result had a registered handler and a callback that returned, and
  -- the result is the one that the handler's end asks for.
  pub execute_attempt-eq-ok :
      {result : AttemptResult} {t : S}
      → execute_attempt job registry attempt run_id on_started world s ≡ (ok result, t)
      → (h : RegisteredHandler) × Ended h result
  execute_attempt-eq-ok {result} {t} e = by_handler (Registry.get job.handler registry) refl
    where
      by_start :
          (h : RegisteredHandler)
          → Registry.get job.handler registry ≡ ok h
          → (r : Result Unit × S)
          → on_started
              (begun job h (chosen_run_id run_id world.new_run_id) attempt world.started_at)
              s
            ≡ r
          → (h : RegisteredHandler) × Ended h result
      by_start h found (ok tt, u) started = (
        h,
        end_outcome-eq-ok (resolve_retry_policy job h) attempt world.finished_at
            (world.wait (resolve_timeout_seconds job h))
            (begun job h (chosen_run_id run_id world.new_run_id) attempt world.started_at)
            (ap (λ p. p.0) (sym (execute_attempt_ends h u found started) ∙ e)),
      )
      by_start h found (err x, u) started = cc (e, execute_attempt_not_started h x u found started)

      by_handler :
          (r : Result RegisteredHandler)
          → Registry.get job.handler registry ≡ r
          → (h : RegisteredHandler) × Ended h result
      by_handler (ok h) found =
          by_start h found
            (on_started
              (begun job h (chosen_run_id run_id world.new_run_id) attempt world.started_at) s)
            refl
      by_handler (err x) found = cc (e, execute_attempt_unregistered x found)
