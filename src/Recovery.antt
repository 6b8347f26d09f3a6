-- ===== src/Recovery.antt =====
-- recovery.py: what a process that exited left behind is moved on. A text `run_id#attempt` is kept as
-- its two parts.
use task_platform.Common.{ℕ, Option, none, some, List, [], ◌∷◌, Text, codes}
use task_platform.Domain.Status.{running, recoverable}
use task_platform.Domain.Effects.{Action, pure, lift, gets, ◌>>=◌, ◌>>◌}
use task_platform.Domain.Execution.{Instant, JobExecution}
use task_platform.Domain.StateMachine.{transition}
use task_platform.Db.Tables.{Database}
use task_platform.Db.Executions
use task_platform.Db.Keys

-- `INTERRUPTED_MESSAGE`
abbrev pub interrupted_message : Text
interrupted_message = codes "interrupted: process exited while RUNNING"

pub record RecoveryReport : Type 0 where
  pub recovered : List (Text × ℕ)
  pub released_keys : List Text
  pub recovered_retries : List (Text × ℕ)

-- `ex.error_message or INTERRUPTED_MESSAGE`: an empty text counts as none.
abbrev message_or_interrupted : Option Text → Option Text
message_or_interrupted none = some interrupted_message
message_or_interrupted (some []) = some interrupted_message
message_or_interrupted (some (c ∷ rest)) = some (c ∷ rest)

unfoldable pub recover_running : Instant → List JobExecution → Action Database (List (Text × ℕ))
recover_running now [] = pure []
recover_running now (e ∷ rest) = do
  moved ← lift (transition e recoverable)
  Executions.update (record moved {
    finished_at = some now;
    error_message = message_or_interrupted moved.error_message;
  })
  others ← recover_running now rest
  pure ((e.run_id, e.attempt) ∷ others)

unfoldable pub recover_retries : List JobExecution → Action Database (List (Text × ℕ))
recover_retries [] = pure []
recover_retries (e ∷ rest) = do
  moved ← lift (transition e recoverable)
  Executions.update moved
  others ← recover_retries rest
  pure ((e.run_id, e.attempt) ∷ others)

unfoldable pub release_keys : List Text → Action Database Unit
release_keys [] = pure tt
release_keys (key ∷ keys) = do Keys.release key; release_keys keys

unfoldable pub recover_interrupted : Instant → Action Database RecoveryReport
unfolding recover_running recover_retries release_keys
recover_interrupted now = do
  interrupted ← gets (Executions.list_by_status running)
  recovered ← recover_running now interrupted
  dangling ← gets Executions.list_dangling_retries
  recovered_retries ← recover_retries dangling
  released ← gets Keys.list_orphan_keys
  release_keys released
  pure (record {
    recovered = recovered;
    released_keys = released;
    recovered_retries = recovered_retries;
  })
