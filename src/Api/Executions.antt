-- ===== src/Api/Executions.antt =====
-- api/routers/executions.py: the routes under /api/v1/executions. A query time with no time zone stands
-- for itself: it is refused before the query.
use task_platform.Common.{ℕ, Option, none, some, List, [], ◌∷◌, ◌++◌, map, get_last?, Text, codes}
use task_platform.Domain.Status.{JobStatus}
use task_platform.Domain.Effects.{
  Error, api_error, Result, ok, err, Action, pure, raise, lift, gets, ◌>>=◌, ◌>>◌,
}
use task_platform.Domain.Execution.{Instant, JobExecution, JobLog}
use task_platform.Db.Tables.{Database}
use task_platform.Db.Executions
use task_platform.Db.Pages
use task_platform.Api.Schemas.{
  ExecutionResponse, execution_response, RunDetailResponse, CancelResponse, PageResponse,
  page_response,
}
use task_platform.Cancellation.{
  CancelOutcome, already_finished, not_found, not_cancellable, request_cancel,
}

-- A datetime of a query, with or without a time zone.
pub data QueryTime : Type 0 where
  aware naive : Instant → QueryTime

-- `_require_aware`
unfoldable pub require_aware : Text → Option QueryTime → Result (Option Instant)
require_aware name none = ok none
require_aware name (some (aware t)) = ok (some t)
require_aware name (some (naive t)) =
    err (api_error 422 (codes "validation_error") (name ++ codes " 必须带时区，例如 2026-10-01T00:00:00Z"))

unfoldable pub list_executions :
    Option Text
    → Option JobStatus
    → Option QueryTime
    → Option QueryTime
    → ℕ
    → ℕ
    → Action Database (PageResponse ExecutionResponse)
unfolding require_aware execution_response
list_executions job_id status started_after started_before page page_size = do
  after ← lift (require_aware (codes "started_after") started_after)
  before ← lift (require_aware (codes "started_before") started_before)
  result ← (λ db. (Pages.list_executions job_id status after before page page_size db, db))
  pure (page_response execution_response result)

-- `_run_not_found`
abbrev pub run_not_found : Text → Error
run_not_found run_id = api_error 404 (codes "run_not_found") (codes "运行记录不存在: " ++ run_id)

abbrev detail_of :
    Text → List JobExecution → Option JobExecution → Action Database RunDetailResponse
detail_of run_id attempts none = raise (run_not_found run_id)
detail_of run_id attempts (some last) = pure (record {
  run_id = run_id;
  job_id = last.job_id;
  status = last.status;
  attempts = map execution_response attempts;
})

unfoldable pub get_run : Text → Action Database RunDetailResponse
unfolding execution_response
get_run run_id = do
  attempts ← gets (Executions.list_by_run run_id)
  detail_of run_id attempts (get_last? attempts)

abbrev require_attempts : Text → List JobExecution → Action Database Unit
require_attempts run_id [] = raise (run_not_found run_id)
require_attempts run_id (_ ∷ _) = pure tt

unfoldable pub get_run_logs : Text → Option ℕ → ℕ → ℕ → Action Database (PageResponse JobLog)
get_run_logs run_id attempt page page_size = do
  attempts ← gets (Executions.list_by_run run_id)
  require_attempts run_id attempts
  result ← (λ db. (Pages.list_logs run_id attempt page page_size db, db))
  pure (page_response (λ l. l) result)

unfoldable pub cancel_response : Text → CancelOutcome → Result CancelResponse
cancel_response run_id not_found = err (run_not_found run_id)
cancel_response run_id already_finished =
    err (api_error 409 (codes "run_already_finished") (codes "运行已结束: " ++ run_id))
cancel_response run_id not_cancellable =
    err (api_error 409 (codes "run_not_cancellable") (codes "当前状态不可取消: " ++ run_id))
cancel_response run_id outcome = ok (record { run_id = run_id; outcome = outcome })

unfoldable pub cancel_run : Text → Instant → Action Database CancelResponse
unfolding cancel_response
cancel_run run_id now = do
  outcome ← request_cancel run_id now
  lift (cancel_response run_id outcome)
