-- ===== src/Executor/Keeping.antt =====
-- About `execute_attempt` of executor.py and the state of its caller.
use task_platform.Common.{ℕ, Option, Text}
use task_platform.Domain.Effects.{Action, Result, lift, modify, ◌>>=◌, ◌>>◌, >>=-keeps}
use task_platform.Domain.Execution.{JobExecution}
use task_platform.Domain.Job.{Job}
use task_platform.Registry
use task_platform.Registry.{RegisteredHandler, TaskRegistry}
use task_platform.Executor.Attempt.{
  AttemptResult, Surroundings, start_attempt, finish_attempt, execute_attempt, chosen_run_id,
  with_limits, resolve_retry_policy, resolve_timeout_seconds,
}

module _ {S : Type 0} (P : S → Type 0) (job : Job) (registry : TaskRegistry) (attempt : ℕ)
    (run_id : Option Text) (on_started : JobExecution → Action S Unit)
    (world : Surroundings S) where
  pub execute_attempt-keeps :
      ((e : JobExecution) (s : S) → P s → P (on_started e s).1)
      → ((s : S) → P s → P (world.meanwhile s))
      → (s : S) → P s
      → P (execute_attempt job registry attempt run_id on_started world s).1
  unfolding execute_attempt
  execute_attempt-keeps callback rest s p =
      >>=-keeps P
        (lift
          (start_attempt job.id (chosen_run_id run_id world.new_run_id) attempt world.started_at))
        (λ begun. after_start begun) s p
        λ begun t q.
          >>=-keeps P (lift (Registry.get job.handler registry)) (λ h. after_lookup begun h) t q
            λ h t q. with_handler begun h t q
    where
      after_lookup : JobExecution → RegisteredHandler → Action S AttemptResult
      after_lookup begun h = do
        on_started (with_limits job h begun)
        modify world.meanwhile
        lift (
            finish_attempt (resolve_retry_policy job h) attempt world.finished_at
              (world.wait (resolve_timeout_seconds job h)) (with_limits job h begun))

      after_start : JobExecution → Action S AttemptResult
      after_start begun = do h ← lift (Registry.get job.handler registry); after_lookup begun h

      with_handler :
          (begun : JobExecution) (h : RegisteredHandler) (t : S)
          → P t
          → P (after_lookup begun h t).1
      with_handler begun h t q =
          let e = with_limits job h begun in
          let end : Result AttemptResult =
            finish_attempt (resolve_retry_policy job h) attempt world.finished_at
              (world.wait (resolve_timeout_seconds job h)) e in
          >>=-keeps P (on_started e) (λ _. modify world.meanwhile >>= λ _. lift end) t
            (callback e t q) λ _ t q. rest t q
