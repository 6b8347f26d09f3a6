-- ===== src/Cancellation.antt =====
-- cancellation.py: requests to cancel a run, and one poll of the watcher that passes them on to the
-- runs of this process.
use task_platform.Common.{Option, none, some, List, [], ◌∷◌, if◌then◌else◌, get_last?, Text}
use task_platform.Domain.Status.{JobStatus, running, canceled, recoverable, is_terminal}
use task_platform.Domain.Effects.{ok, Action, pure, lift, gets, ◌>>=◌, ◌>>◌}
use task_platform.Domain.Execution.{Instant, JobExecution}
use task_platform.Domain.StateMachine.{transition}
use task_platform.Db.Tables.{Database}
use task_platform.Db.Executions
use task_platform.Domain.Cancel
use task_platform.Domain.Cancel.{ActiveRuns}

pub data CancelOutcome : Type 0 where
  requested cancelled already_finished not_found not_cancellable : CancelOutcome

abbrev cancel_attempt : Text → Instant → JobExecution → JobStatus → Action Database CancelOutcome
cancel_attempt run_id now last running = do
  Executions.mark_cancel_requested run_id last.attempt
  pure requested
cancel_attempt run_id now last recoverable = do
  moved ← lift (transition last canceled)
  Executions.update (record moved { finished_at = some now })
  pure cancelled
cancel_attempt run_id now last status =
    pure (if is_terminal status then already_finished else not_cancellable)

abbrev cancel_last : Text → Instant → Option JobExecution → Action Database CancelOutcome
cancel_last run_id now none = pure not_found
cancel_last run_id now (some last) = cancel_attempt run_id now last last.status

unfoldable pub request_cancel : Text → Instant → Action Database CancelOutcome
unfolding is_terminal
request_cancel run_id now = do
  attempts ← gets (Executions.list_by_run run_id)
  cancel_last run_id now (get_last? attempts)

-- The state that a poll of the watcher sees.
pub record Watched : Type 0 where
  pub db : Database
  pub active : ActiveRuns

unfoldable pub cancel_all : List Text → ActiveRuns → ActiveRuns
cancel_all [] r = r
cancel_all (run_id ∷ rest) r = cancel_all rest (Cancel.cancel run_id r).1

abbrev poll_ids : List Text → Action Watched (List Text)
poll_ids [] w = (ok [], w)
poll_ids (i ∷ ids) w =
    let found = Executions.list_cancel_requested (i ∷ ids) w.db in
    (ok found, record w { active = cancel_all found w.active })

unfoldable pub poll_once : Action Watched (List Text)
unfolding cancel_all
poll_once w = poll_ids (Cancel.active_ids w.active) w
