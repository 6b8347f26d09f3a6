-- ===== src/Db/Tables.antt =====
-- infrastructure/db/models.py: the tables. A table lists its rows in the order of insertion, which is
-- the order of their numbers where the table counts them.
pub mod Rows
use task_platform.Common.{
  ℕ, suc, Bool, ◌&&◌, Option, List, [], ◌∷◌, ltb, ◌==◌, if◌then◌else◌, Text, text_eq,
}
use task_platform.Domain.Status.{JobStatus, JobType, BackoffStrategy, ScheduleType}
use task_platform.Domain.Schedule.{Interval}
use task_platform.Domain.Execution.{Instant, Seconds}

pub record JobRecord : Type 0 where
  pub id : Text
  pub name : Text
  pub job_type : JobType
  pub handler : Text
  pub timeout_seconds : Seconds
  pub retry_max_attempts : ℕ
  pub retry_backoff : BackoffStrategy
  pub retry_base_delay_seconds : Seconds
  pub retry_max_delay_seconds : Seconds
  pub enabled : Bool
  pub created_at : Instant

pub record ScheduleRecord : Type 0 where
  pub id : Text
  pub job_id : Text
  pub schedule_type : ScheduleType
  pub interval_seconds : Option Interval
  pub time_of_day : Option ℕ
  pub enabled : Bool

pub record ExecutionRecord : Type 0 where
  pub id : ℕ
  pub run_id : Text
  pub job_id : Text
  pub attempt : ℕ
  pub status : JobStatus
  pub started_at : Option Instant
  pub finished_at : Option Instant
  pub error_message : Option Text
  pub timeout_seconds : Option Seconds
  pub max_attempts : Option ℕ
  pub cancel_requested : Bool
  pub next_retry_at : Option Instant

pub record JobLogRecord : Type 0 where
  pub id : ℕ
  pub run_id : Text
  pub attempt : ℕ
  pub level : Text
  pub message : Text
  pub created_at : Instant

pub record IdempotencyRecord : Type 0 where
  pub key : Text
  pub job_id : Text
  pub run_id : Text
  pub created_at : Instant

pub record Database : Type 0 where
  pub jobs : List JobRecord
  pub schedules : List ScheduleRecord
  pub executions : List ExecutionRecord
  pub logs : List JobLogRecord
  pub keys : List IdempotencyRecord
  pub next_execution_id : ℕ
  pub next_log_id : ℕ

abbrev pub empty_database : Database
empty_database = record {
  jobs = [];
  schedules = [];
  executions = [];
  logs = [];
  keys = [];
  next_execution_id = 1;
  next_log_id = 1;
}

-- The natural key of an attempt.
abbrev pub is_attempt : Text → ℕ → ExecutionRecord → Bool
is_attempt run_id attempt r = text_eq r.run_id run_id && (r.attempt == attempt)

-- The rows after the first that passes the test was changed, and after all that pass were.
module _ {A : Type 0} where
  abbrev pub update_first : (A → Bool) → (A → A) → List A → List A
  update_first test f [] = []
  update_first test f (r ∷ rows) =
      let rest = update_first test f rows in if test r then f r ∷ rows else r ∷ rest

  abbrev pub update_where : (A → Bool) → (A → A) → List A → List A
  update_where test f [] = []
  update_where test f (r ∷ rows) = (if test r then f r else r) ∷ update_where test f rows

  -- The rows that a statement's `WHERE` selects, counted.
  abbrev pub count_where : (A → Bool) → List A → ℕ
  count_where test [] = 0
  count_where test (r ∷ rows) =
      let rest = count_where test rows in if test r then suc rest else rest

  abbrev insert_by : (A → ℕ) → A → List A → List A
  insert_by key a [] = a ∷ []
  insert_by key a (b ∷ bs) =
      let rest = insert_by key a bs in if ltb (key b) (key a) then b ∷ rest else a ∷ b ∷ bs

  -- `ORDER BY`, with the order of the table among equals.
  abbrev pub sort_by : (A → ℕ) → List A → List A
  sort_by key [] = []
  sort_by key (a ∷ rest) = insert_by key a (sort_by key rest)
