-- ===== src/Domain/Job.antt =====
-- Job of domain/models.py.
use task_platform.Common.{Bool, if◌then◌else◌, pos, ltb_ℤ, Text, is_blank}
use task_platform.Domain.Status.{JobType}
use task_platform.Domain.Effects.{value_error, Result, ok, err}
use task_platform.Domain.Execution.{Instant, Seconds}
use task_platform.Domain.Retry.{RetryPolicy}

pub record Job : Type 0 where
  pub name : Text
  pub job_type : JobType
  pub handler : Text
  pub id : Text
  pub timeout_seconds : Seconds
  pub retry_policy : RetryPolicy
  pub enabled : Bool
  pub created_at : Instant

-- `Job.__post_init__`
unfoldable pub validate_job : Job → Result Job
validate_job j =
    if is_blank j.name
    then err value_error
    else if ltb_ℤ (pos 0) j.timeout_seconds
    then ok j
    else err value_error
