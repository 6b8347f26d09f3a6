-- ===== src/Db/Statistics.antt =====
-- The statistics of ExecutionRepository of infrastructure/db/repositories.py. An execution is joined
-- with the one job of its id; names are unique, so that the groups of a name are those of a job.
use task_platform.Common.{
  ℕ, zero, suc, Bool, false, ◌&&◌, Option, none, some, List, [], ◌∷◌, ◌++◌, map, ltb, if◌then◌else◌,
  is_some, sort_with, sub_ℕ, Text, text_eq, text_ltb, remove_prefix?,
}
use task_platform.Domain.Status.{
  JobStatus, pending, queued, running, success, retrying, failed, canceled, recoverable, status_eq,
}
use task_platform.Domain.Execution.{Instant, Seconds}
use task_platform.Db.Tables.{JobRecord, ExecutionRecord, Database, count_where}
use task_platform.Db.Executions.{is_final}
use task_platform.Db.Pages.{accepts, at_least}

-- The executions of a job that started in the window.
abbrev pub is_counted : Option Instant → JobRecord → ExecutionRecord → Bool
is_counted since job r = text_eq r.job_id job.id && accepts (at_least r.started_at) since

abbrev by_name : List JobRecord → List JobRecord
by_name jobs = sort_with (λ (a b : JobRecord). text_ltb a.name b.name) jobs

-- The statuses in the order of their texts.
abbrev pub statuses_by_text : List JobStatus
statuses_by_text =
    canceled ∷ failed ∷ pending ∷ queued ∷ recoverable ∷ retrying ∷ running ∷ success ∷ []

-- A group with no row is not reported.
abbrev group_of : {A : Type 0} → A → ℕ → List (A × ℕ)
group_of key zero = []
group_of key (suc n) = (key, suc n) ∷ []

abbrev status_groups :
    Option Instant
    → JobRecord
    → List ExecutionRecord
    → List JobStatus
    → List ((Text × JobStatus) × ℕ)
status_groups since job rows [] = []
status_groups since job rows (s ∷ statuses) =
    group_of (job.name, s) (count_where (λ r. is_counted since job r && status_eq r.status s) rows)
    ++ status_groups since job rows statuses

abbrev all_status_groups :
    Option Instant → List ExecutionRecord → List JobRecord → List ((Text × JobStatus) × ℕ)
all_status_groups since rows [] = []
all_status_groups since rows (job ∷ jobs) =
    status_groups since job rows statuses_by_text ++ all_status_groups since rows jobs

unfoldable pub count_by_job_and_status : Option Instant → Database → List ((Text × JobStatus) × ℕ)
count_by_job_and_status since db = all_status_groups since db.executions (by_name db.jobs)

-- The rows of each job that pass a test, for the jobs that have any.
abbrev pub count_by_job :
    (ExecutionRecord → Bool)
    → Option Instant
    → List ExecutionRecord
    → List JobRecord
    → List (Text × ℕ)
count_by_job test since rows [] = []
count_by_job test since rows (job ∷ jobs) =
    group_of job.name (count_where (λ r. is_counted since job r && test r) rows)
    ++ count_by_job test since rows jobs

unfoldable pub count_retry_attempts_by_job : Option Instant → Database → List (Text × ℕ)
count_retry_attempts_by_job since db =
    count_by_job (λ r. ltb 1 r.attempt) since db.executions db.jobs

-- `startswith`; a comparison with NULL selects nothing.
abbrev message_starts : Text → Option Text → Bool
message_starts prefix none = false
message_starts prefix (some message) = is_some (remove_prefix? prefix message)

unfoldable pub count_timeouts_by_job : Text → Instant → Database → List (Text × ℕ)
unfolding remove_prefix?
count_timeouts_by_job prefix since db =
    count_by_job (λ r. message_starts prefix r.error_message) (some since) db.executions db.jobs

abbrev duration_of : Option Instant → Option Instant → List Seconds
duration_of (some started) (some finished) = sub_ℕ finished started ∷ []
duration_of _ _ = []

abbrev durations_of : Option Instant → JobRecord → List ExecutionRecord → List (Text × Seconds)
durations_of since job [] = []
durations_of since job (r ∷ rows) =
    let rest = durations_of since job rows in
    if is_counted since job r && is_final r.status
    then map (λ d. (job.name, d)) (duration_of r.started_at r.finished_at) ++ rest
    else rest

abbrev all_durations :
    Option Instant → List ExecutionRecord → List JobRecord → List (Text × Seconds)
all_durations since rows [] = []
all_durations since rows (job ∷ jobs) = durations_of since job rows ++ all_durations since rows jobs

-- The order of the answer is not specified.
unfoldable pub list_durations : Option Instant → Database → List (Text × Seconds)
list_durations since db = all_durations since db.executions db.jobs
