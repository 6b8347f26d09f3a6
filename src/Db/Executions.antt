-- ===== src/Db/Executions.antt =====
-- ExecutionRepository of infrastructure/db/repositories.py: one row for each attempt.
pub mod Upsert
pub mod Claims
use task_platform.Common.{
  ℕ, ◌+◌, Bool, true, false, not, ◌&&◌, ◌||◌, Option, none, some, List, [], ◌∷◌, ◌++◌, map, reverse,
  ltb, leb, ◌==◌, if◌then◌else◌, is_some, take, filter, any, find?, Text, text_eq,
}
use task_platform.Domain.Status.{JobStatus, running, success, retrying, failed, status_eq}
use task_platform.Domain.Effects.{entity_not_found, integrity_error, ok, err, Action}
use task_platform.Domain.Execution.{Instant, JobExecution}
use task_platform.Db.Tables.{
  JobRecord, ExecutionRecord, Database, is_attempt, update_first, update_where, count_where,
  sort_by,
}
use task_platform.Db.Mappers.{execution_to_record, update_execution_record, record_to_execution}

-- `_find`
unfoldable pub find_attempt : Text → ℕ → List ExecutionRecord → Option ExecutionRecord
find_attempt run_id attempt = find? (is_attempt run_id attempt)

unfoldable pub get_attempt : Text → ℕ → Database → Option JobExecution
unfolding find_attempt
get_attempt run_id attempt db = elim (find_attempt run_id attempt db.executions) [
  | none ↦ none
  | some r ↦ some (record_to_execution r)
]

-- The unique constraint on (run_id, attempt) and the foreign key to the job.
unfoldable pub add : JobExecution → Action Database Unit
add e db =
    if any (is_attempt e.run_id e.attempt) db.executions
    then (err integrity_error, db)
    else if any (λ (j : JobRecord). text_eq j.id e.job_id) db.jobs
    then (
      ok tt,
      record db {
        executions = db.executions ++ execution_to_record db.next_execution_id e ∷ [];
        next_execution_id = db.next_execution_id + 1;
      },
    )
    else (err integrity_error, db)

unfoldable pub update : JobExecution → Action Database Unit
unfolding find_attempt
update e db = elim (find_attempt e.run_id e.attempt db.executions) [
  | none ↦ (err entity_not_found, db)
  | some _ ↦ (
    ok tt,
    record db {
      executions =
          update_first (is_attempt e.run_id e.attempt) (λ r. update_execution_record r e)
            db.executions;
    },
  )
]

unfoldable pub upsert : JobExecution → Action Database Unit
unfolding add update
upsert e db = elim (find_attempt e.run_id e.attempt db.executions) [
  | none ↦ add e db
  | some _ ↦ update e db
]

unfoldable pub list_by_run : Text → Database → List JobExecution
list_by_run run_id db =
    map record_to_execution
      (sort_by (λ r. r.attempt) (filter (λ r. text_eq r.run_id run_id) db.executions))

unfoldable pub list_by_status : JobStatus → Database → List JobExecution
list_by_status status db =
    map record_to_execution (filter (λ r. status_eq r.status status) db.executions)

-- A later attempt of the same run exists.
abbrev superseded : List ExecutionRecord → ExecutionRecord → Bool
superseded rows r = any (λ later. text_eq later.run_id r.run_id && ltb r.attempt later.attempt) rows

abbrev pub is_dangling : List ExecutionRecord → ExecutionRecord → Bool
is_dangling rows r =
    status_eq r.status retrying && (not (is_some r.next_retry_at) && not (superseded rows r))

unfoldable pub list_dangling_retries : Database → List JobExecution
list_dangling_retries db =
    map record_to_execution (filter (is_dangling db.executions) db.executions)

abbrev is_past : Option Instant → Instant → Bool
is_past none now = false
is_past (some t) now = leb t now

abbrev pub is_due : Instant → ExecutionRecord → Bool
is_due now r = status_eq r.status retrying && is_past r.next_retry_at now

abbrev instant_or_zero : Option Instant → Instant
instant_or_zero none = 0
instant_or_zero (some t) = t

unfoldable pub list_due_retries : Instant → ℕ → Database → List JobExecution
list_due_retries now limit db = map record_to_execution (
    take limit (sort_by (λ r. instant_or_zero r.next_retry_at) (filter (is_due now) db.executions)))

abbrev pub is_scheduled_attempt : Text → ℕ → ExecutionRecord → Bool
is_scheduled_attempt run_id attempt r = is_attempt run_id attempt r && is_some r.next_retry_at

-- One UPDATE statement; the answer says whether it changed exactly one row.
unfoldable pub claim_retry : Text → ℕ → Action Database Bool
claim_retry run_id attempt db = (
  ok (count_where (is_scheduled_attempt run_id attempt) db.executions == 1),
  record db {
    executions =
        update_where (is_scheduled_attempt run_id attempt) (λ r. record r { next_retry_at = none })
          db.executions;
  },
)

unfoldable pub set_next_retry_at : Text → ℕ → Option Instant → Action Database Bool
set_next_retry_at run_id attempt value db = (
  ok (count_where (is_attempt run_id attempt) db.executions == 1),
  record db {
    executions =
        update_where (is_attempt run_id attempt) (λ r. record r { next_retry_at = value })
          db.executions;
  },
)

unfoldable pub mark_cancel_requested : Text → ℕ → Action Database Bool
unfolding find_attempt
mark_cancel_requested run_id attempt db = elim (find_attempt run_id attempt db.executions) [
  | none ↦ (ok false, db)
  | some _ ↦ (
    ok true,
    record db {
      executions =
          update_first (is_attempt run_id attempt) (λ r. record r { cancel_requested = true })
            db.executions;
    },
  )
]

distinct : List Text → List Text
distinct [] = []
distinct (t ∷ rest) = t ∷ filter (λ u. not (text_eq u t)) (distinct rest)

-- `SELECT DISTINCT run_id`: the program does not use the order of the answer.
unfoldable pub list_cancel_requested : List Text → Database → List Text
unfolding distinct
list_cancel_requested run_ids db = distinct (
    map (λ r. r.run_id)
      (filter
        (λ r. any (text_eq r.run_id) run_ids && (status_eq r.status running && r.cancel_requested))
        db.executions))

abbrev pub is_final : JobStatus → Bool
is_final s = status_eq s success || status_eq s failed

-- `ORDER BY id DESC`
unfoldable pub recent_final_statuses : Text → ℕ → Database → List JobStatus
recent_final_statuses job_id limit db = take limit (
    map (λ r. r.status)
      (reverse (filter (λ r. text_eq r.job_id job_id && is_final r.status) db.executions)))
