-- ===== src/Tests/Executor.antt =====
-- Attempts of the sample job, and rounds of waiting for its handler.
use task_platform.Common.{
  ℕ, ◌+◌, ◌≡◌, refl, true, false, none, some, List, [], ◌∷◌, leb, if◌then◌else◌, is_some, any,
  codes, text_eq,
}
use task_platform.Domain.Effects.{ok, Action}
use task_platform.Domain.Execution.{JobExecution}
use task_platform.Registry
use task_platform.Common.Dict
use task_platform.Common.Dict.{text_key}
use task_platform.Executor.Wait.{raised, Poll, timeout_message, wait_rounds}
use task_platform.Executor.Attempt.{resolve_retry_policy, Surroundings, execute_attempt}
use task_platform.Executor.Endings.{
  wait_rounds_ends, wait_rounds_timeout, end_outcome, begun, execute_attempt_ends,
}
use task_platform.Tests.Samples.{sample_job, sample_handler, sample_registry}

abbrev quiet : ℕ → Poll
quiet now = record { done = none; now = now; is_cancelled = false }

abbrev quiet_rounds : List Poll
quiet_rounds = quiet 3 ∷ quiet 12 ∷ []

wait_rounds_ends_example : is_some (wait_rounds 10 5 (codes "10.0") none quiet_rounds) ≡ true
wait_rounds_ends_example = wait_rounds_ends 10 5 (codes "10.0") none quiet_rounds refl

wait_rounds_timeout_example : wait_rounds 10 5 (codes "10.0") none quiet_rounds ≡ (
    if any (λ p. leb 10 p.now) quiet_rounds
    then some (raised (timeout_message (codes "10.0")), true)
    else none)
wait_rounds_timeout_example = wait_rounds_timeout 10 5 (codes "10.0") quiet_rounds refl

-- A caller that counts its callbacks.
abbrev count_start : JobExecution → Action ℕ Unit
count_start e n = (ok tt, n + 1)

abbrev around : Surroundings ℕ
around = record {
  new_run_id = codes "r9";
  started_at = 10;
  finished_at = 20;
  wait = λ t. raised (codes "boom");
  meanwhile = λ n. n;
}

abbrev started : JobExecution
started = begun sample_job sample_handler (codes "r1") 1 10

found : Registry.get (codes "report") sample_registry ≡ ok sample_handler
unfolding Registry.get Dict.get text_eq
found = refl

execute_attempt_ends_example :
    execute_attempt sample_job sample_registry 1 (some (codes "r1")) count_start around 0 ≡ (
      end_outcome
          (resolve_retry_policy sample_job sample_handler)
          1
          20
          (raised (codes "boom"))
          started,
      1,
    )
execute_attempt_ends_example =
    execute_attempt_ends sample_job sample_registry 1 (some (codes "r1")) count_start around 0
      sample_handler 1 found refl
