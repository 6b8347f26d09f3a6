-- ===== src/Api/Schemas.antt =====
-- api/schemas.py: the requests with the checks that their declarations ask for, and the responses. How
-- the validation library strips a name is a parameter. A request is what the library has parsed: a field
-- that is absent stands at its default, and what a body has beside the declared fields is `extra`.
use task_platform.Common.{
  ℕ, Bool, true, false, not, ◌&&◌, ◌||◌, Option, none, some, List, [], ◌∷◌, map, leb, if◌then◌else◌,
  length, pos, ltb_ℤ, Text,
}
use task_platform.Domain.Status.{JobStatus, JobType, BackoffStrategy}
use task_platform.Domain.Effects.{Result}
use task_platform.Domain.Execution.{Instant, Seconds, JobExecution, duration_seconds}
use task_platform.Domain.Retry.{RetryPolicy, validate_policy}
use task_platform.Domain.Job.{Job}
use task_platform.Cancellation.{CancelOutcome}
use task_platform.Db.Pages.{Page, total_pages}

pub record RetryPolicyIn : Type 0 where
  pub max_attempts : ℕ
  pub backoff : BackoffStrategy
  pub base_delay_seconds : Seconds
  pub max_delay_seconds : Seconds
  pub extra : List Text

pub record JobCreate : Type 0 where
  pub name : Text
  pub handler : Text
  pub job_type : JobType
  pub timeout_seconds : Seconds
  pub retry_policy : RetryPolicyIn
  pub enabled : Bool
  pub extra : List Text

-- A field of a partial update: not in the request, null, or with a value.
pub data Change (A : Type 0) : Type 0 where
  unset null : Change A
  set : A → Change A

pub record JobUpdate : Type 0 where
  pub name : Change Text
  pub timeout_seconds : Change Seconds
  pub retry_policy : Change RetryPolicyIn
  pub enabled : Change Bool
  pub extra : List Text

abbrev pub is_between : ℕ → ℕ → ℕ → Bool
is_between low high n = leb low n && leb n high

abbrev pub is_empty : List Text → Bool
is_empty [] = true
is_empty (_ ∷ _) = false

unfoldable pub is_valid_policy : RetryPolicyIn → Bool
is_valid_policy p =
    is_between 1 20 p.max_attempts
    && (not (ltb_ℤ p.base_delay_seconds (pos 0))
        && (not (ltb_ℤ p.max_delay_seconds (pos 0))
            && (not (ltb_ℤ p.max_delay_seconds p.base_delay_seconds) && is_empty p.extra)))

abbrev pub is_valid_name : Text → Bool
is_valid_name stripped = is_between 1 128 (length stripped)

abbrev is_set : {A : Type 0} → Change A → Bool
is_set unset = false
is_set null = true
is_set (set _) = true

-- The check of the value, and `_check_fields`: no field that is set is null.
abbrev is_valid_change : {A : Type 0} → (A → Bool) → Change A → Bool
is_valid_change test unset = true
is_valid_change test null = false
is_valid_change test (set a) = test a

abbrev on_change : {A : Type 0} → (A → A) → Change A → Change A
on_change f unset = unset
on_change f null = null
on_change f (set a) = set (f a)

module _ (strip : Text → Text) where
  unfoldable pub validate_create : JobCreate → Option JobCreate
  unfolding is_valid_policy
  validate_create c =
      let name = strip c.name in
      if is_valid_name name
        && (is_between 1 128 (length c.handler)
            && (ltb_ℤ (pos 0) c.timeout_seconds
                && (is_valid_policy c.retry_policy && is_empty c.extra)))
      then some (record c { name = name })
      else none

  unfoldable pub validate_update : JobUpdate → Option JobUpdate
  unfolding is_valid_policy
  validate_update u =
      let name = on_change strip u.name in
      if (is_set u.name
          || (is_set u.timeout_seconds || (is_set u.retry_policy || is_set u.enabled)))
        && (is_valid_change is_valid_name name
            && (is_valid_change (ltb_ℤ (pos 0)) u.timeout_seconds
                && (is_valid_change is_valid_policy u.retry_policy
                    && (is_valid_change (λ b. true) u.enabled && is_empty u.extra))))
      then some (record u { name = name })
      else none

-- `RetryPolicy(**payload)`
unfoldable pub to_policy : RetryPolicyIn → Result RetryPolicy
unfolding validate_policy
to_policy p = validate_policy (record {
  max_attempts = p.max_attempts;
  backoff = p.backoff;
  base_delay_seconds = p.base_delay_seconds;
  max_delay_seconds = p.max_delay_seconds;
})

-- The fields of a job, all of them.
abbrev pub JobResponse : Type 0
JobResponse = Job

pub record ExecutionResponse : Type 0 where
  pub run_id : Text
  pub job_id : Text
  pub attempt : ℕ
  pub status : JobStatus
  pub started_at : Option Instant
  pub finished_at : Option Instant
  pub duration_seconds : Seconds
  pub error_message : Option Text
  pub timeout_seconds : Option Seconds
  pub max_attempts : Option ℕ
  pub cancel_requested : Bool

unfoldable pub execution_response : JobExecution → ExecutionResponse
execution_response e = record {
  run_id = e.run_id;
  job_id = e.job_id;
  attempt = e.attempt;
  status = e.status;
  started_at = e.started_at;
  finished_at = e.finished_at;
  duration_seconds = duration_seconds e;
  error_message = e.error_message;
  timeout_seconds = e.timeout_seconds;
  max_attempts = e.max_attempts;
  cancel_requested = e.cancel_requested;
}

pub record RunDetailResponse : Type 0 where
  pub run_id : Text
  pub job_id : Text
  pub status : JobStatus
  pub attempts : List ExecutionResponse

pub record CancelResponse : Type 0 where
  pub run_id : Text
  pub outcome : CancelOutcome

pub record PageResponse (A : Type 0) : Type 0 where
  pub items : List A
  pub total : ℕ
  pub page : ℕ
  pub page_size : ℕ
  pub total_pages : ℕ

abbrev pub page_response : {A B : Type 0} → (A → B) → Page A → PageResponse B
page_response read p = record {
  items = map read p.items;
  total = p.total;
  page = p.page;
  page_size = p.page_size;
  total_pages = total_pages p;
}
