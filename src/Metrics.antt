-- ===== src/Metrics.antt =====
-- metrics.py: a snapshot of the executions and the queue. A rate is a fraction, with its two parts.
use task_platform.Common.{
  ℕ, zero, suc, ◌+◌, ◌-◌, not, Option, none, some, List, [], ◌∷◌, ◌++◌, map, ◌==◌, if◌then◌else◌,
  filter, find?, sort_with, pos, pos_part, neg_part, ◌+ℤ◌, ltb_ℤ, Text, text_eq, text_ltb,
}
use task_platform.Domain.Status.{JobStatus, success, failed, status_eq}
use task_platform.Domain.Effects.{value_error, Result, ok, err}
use task_platform.Domain.Execution.{Instant, Seconds}
use task_platform.Db.Tables.{Database}
use task_platform.Db.Statistics
use task_platform.Common.Dict
use task_platform.Common.Dict.{Dict, Key, text_key}

pub record JobMetrics : Type 0 where
  pub job : Text
  pub status_counts : JobStatus → ℕ
  pub retry_attempts : ℕ
  pub duration_count : ℕ
  pub duration_sum : Seconds
  pub duration_max : Seconds

-- `part / whole`
pub record Fraction : Type 0 where
  pub part : ℕ
  pub whole : ℕ

abbrev pub share : ℕ → ℕ → Option Fraction
share part zero = none
share part (suc n) = some (record { part = part; whole = suc n })

abbrev pub finished_count : JobMetrics → ℕ
finished_count m = m.status_counts success + m.status_counts failed

unfoldable pub success_rate : JobMetrics → Option Fraction
success_rate m = share (m.status_counts success) (finished_count m)

unfoldable pub failure_rate : JobMetrics → Option Fraction
failure_rate m = share (m.status_counts failed) (finished_count m)

-- The sum and the count that it is divided by.
unfoldable pub avg_duration_seconds : JobMetrics → Option (Seconds × ℕ)
avg_duration_seconds m =
    if m.duration_count == 0 then none else some (m.duration_sum, m.duration_count)

pub record MetricsSnapshot : Type 0 where
  pub generated_at : Instant
  pub window : Option Seconds
  pub jobs : List JobMetrics
  pub queue_depth : Option ℕ
  pub queue_pending : Option ℕ

unfoldable pub get : Text → MetricsSnapshot → Option JobMetrics
get job s = find? (λ (m : JobMetrics). text_eq m.job job) s.jobs

-- What the queue answers to `depth()` and then to `pending_count()`.
pub record QueueAnswers : Type 0 where
  pub depth : Result ℕ
  pub pending_count : Result ℕ

abbrev both_read : Result ℕ → Result ℕ → Option ℕ × Option ℕ
both_read (ok depth) (ok waiting) = (some depth, some waiting)
both_read _ _ = (none, none)

unfoldable pub read_queue_stats : Option QueueAnswers → Option ℕ × Option ℕ
read_queue_stats none = (none, none)
read_queue_stats (some q) = both_read q.depth q.pending_count

-- `statuses[job][status.value] = count`, with a row of zeros for a job that is new.
abbrev counts_of : Dict Text (JobStatus → ℕ) → Text → JobStatus → ℕ
counts_of d job = elim (Dict.get d job) [ none ↦ λ s. 0 | some counts ↦ counts ]

abbrev set_count : Dict Text (JobStatus → ℕ) → Text → JobStatus → ℕ → Dict Text (JobStatus → ℕ)
set_count d job status n = Dict.put d job (λ s. if status_eq s status then n else counts_of d job s)

unfoldable pub fill_counts :
    List ((Text × JobStatus) × ℕ) → Dict Text (JobStatus → ℕ) → Dict Text (JobStatus → ℕ)
fill_counts [] d = d
fill_counts (((job, status), n) ∷ rest) d = fill_counts rest (set_count d job status n)

-- `{name: n for name, n in rows}`
abbrev fill_dict : List (Text × ℕ) → Dict Text ℕ → Dict Text ℕ
fill_dict [] d = d
fill_dict ((name, n) ∷ rest) d = fill_dict rest (Dict.put d name n)

abbrev number_of : Dict Text ℕ → Text → ℕ
number_of d job = elim (Dict.get d job) [ none ↦ 0 | some n ↦ n ]

-- The three tables of durations.
pub record Durations : Type 0 where
  pub counts : Dict Text ℕ
  pub sums : Dict Text Seconds
  pub maxima : Dict Text Seconds

abbrev seconds_of : Dict Text Seconds → Text → Seconds → Seconds
seconds_of d job default = elim (Dict.get d job) [ none ↦ default | some t ↦ t ]

-- `max(a, b)` keeps the first of two that are equal.
abbrev max_seconds : Seconds → Seconds → Seconds
max_seconds a b = if ltb_ℤ a b then b else a

abbrev add_duration : Durations → Text → Seconds → Durations
add_duration d job seconds = record {
  counts = Dict.put d.counts job (number_of d.counts job + 1);
  sums = Dict.put d.sums job (seconds_of d.sums job (pos 0) +ℤ seconds);
  maxima = Dict.put d.maxima job (max_seconds (seconds_of d.maxima job seconds) seconds);
}

unfoldable pub fill_durations : List (Text × Seconds) → Durations → Durations
fill_durations [] d = d
fill_durations ((job, seconds) ∷ rest) d = fill_durations rest (add_duration d job seconds)

abbrev distinct_names : List Text → List Text
distinct_names [] = []
distinct_names (t ∷ rest) = t ∷ filter (λ u. not (text_eq u t)) (distinct_names rest)

abbrev metrics_of : Dict Text (JobStatus → ℕ) → Dict Text ℕ → Durations → Text → JobMetrics
metrics_of statuses retries durations name = record {
  job = name;
  status_counts = counts_of statuses name;
  retry_attempts = number_of retries name;
  duration_count = number_of durations.counts name;
  duration_sum = seconds_of durations.sums name (pos 0);
  duration_max = seconds_of durations.maxima name (pos 0);
}

abbrev take_snapshot :
    Option QueueAnswers → Option Seconds → Instant → Option Instant → Database → MetricsSnapshot
take_snapshot queue window now since db =
    let statuses = fill_counts (Statistics.count_by_job_and_status since db) [] in
    let retries = fill_dict (Statistics.count_retry_attempts_by_job since db) [] in
    let durations =
      fill_durations (Statistics.list_durations since db)
        (record { counts = []; sums = []; maxima = [] }) in
    let names =
      sort_with text_ltb (
        distinct_names (Dict.keys statuses ++ (Dict.keys retries ++ Dict.keys durations.counts))) in
    let (depth, unacked) = read_queue_stats queue in
    record {
      generated_at = now;
      window = window;
      jobs = map (metrics_of statuses retries durations) names;
      queue_depth = depth;
      queue_pending = unacked;
    }

-- `generated_at - window`; before the first representable instant Python raises an OverflowError.
abbrev pub minus_seconds : Instant → Seconds → Instant
minus_seconds now window = now + neg_part window - pos_part window

unfoldable pub collect_metrics :
    Option QueueAnswers → Option Seconds → Instant → Database → Result MetricsSnapshot
unfolding read_queue_stats fill_counts fill_durations
collect_metrics queue none now db = ok (take_snapshot queue none now none db)
collect_metrics queue (some window) now db =
    if ltb_ℤ (pos 0) window
    then ok (take_snapshot queue (some window) now (some (minus_seconds now window)) db)
    else err value_error
