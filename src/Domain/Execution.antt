-- ===== src/Domain/Execution.antt =====
-- JobExecution and JobLog of domain/models.py. An instant is the number of microseconds since
-- the first representable UTC datetime; a number of seconds (a float in the program) is a whole
-- number of microseconds.
use task_platform.Common.{ℕ, Bool, false, Option, none, some, ℤ, pos, sub_ℕ, Text}
use task_platform.Domain.Status.{JobStatus, pending}

abbrev pub Instant : Type 0
Instant = ℕ

abbrev pub Seconds : Type 0
Seconds = ℤ

abbrev pub one_second : ℕ
one_second = 1000000

pub record JobExecution : Type 0 where
  pub job_id : Text
  pub run_id : Text
  pub status : JobStatus
  pub attempt : ℕ
  pub started_at : Option Instant
  pub finished_at : Option Instant
  pub error_message : Option Text
  pub timeout_seconds : Option Seconds
  pub max_attempts : Option ℕ
  pub cancel_requested : Bool
  pub next_retry_at : Option Instant

-- `JobExecution(job_id=..., run_id=...)` with every other field at its default.
unfoldable pub new_execution : Text → Text → JobExecution
new_execution job_id run_id = record {
  job_id = job_id;
  run_id = run_id;
  status = pending;
  attempt = 0;
  started_at = none;
  finished_at = none;
  error_message = none;
  timeout_seconds = none;
  max_attempts = none;
  cancel_requested = false;
  next_retry_at = none;
}

duration_between : Option Instant → Option Instant → Seconds
duration_between (some started) (some finished) = sub_ℕ finished started
duration_between _ _ = pos 0

-- The property `duration_seconds`.
unfoldable pub duration_seconds : JobExecution → Seconds
unfolding duration_between
duration_seconds e = duration_between e.started_at e.finished_at

pub record JobLog : Type 0 where
  pub run_id : Text
  pub attempt : ℕ
  pub level : Text
  pub message : Text
  pub created_at : Instant
