-- ===== src/Prometheus.antt =====
-- prometheus.py: a snapshot as Prometheus text. The printing of a float with six digits is a parameter.
pub mod Labels
use task_platform.Common.{
  ℕ, zero, suc, ◌+◌, ◌-◌, ◌*◌, ◌/◌, ◌%◌, ◌^◌, ◌≤◌, ◌<◌, ◌≡◌, refl, sym, ap, ◌∙◌, ◌≢◌, ◌↔◌, ◌⊎◌, inl,
  inr, Bool, true, false, not, ◌&&◌, ◌||◌, Option, none, some, List, [], ◌∷◌, ◌++◌, map, reverse,
  arith, ltb, leb, ◌==◌, if◌then◌else◌, ltb→lt, lt→ltb, leb→le, le→leb, ==_iff, tests, Bool-cases,
  Option-cases, is_some, length, get_last?, take, drop, filter, any, all, find?, sort_with, All,
  length-append, ℤ, pos, negsuc, pos_part, neg_part, sub_ℕ, ◌+ℤ◌, ◌-ℤ◌, ◌*ℤ◌, ◌≤ℤ◌, ltb_ℤ, +ℤ_parts,
  -ℤ_parts, eq_of_parts, int_laws, Text, codes, text_eq, text_eq_iff, text_eq_self, text_ltb,
  remove_prefix?, is_space, is_blank,
}
use task_platform.Domain.Status.{
  JobStatus, pending, queued, running, success, retrying, failed, canceled, recoverable, JobType,
  demo_success, demo_failure, demo_slow, custom, BackoffStrategy, fixed, exponential, ScheduleType,
  interval, daily, rank, status_eq, status_eq_iff, is_terminal,
}
use task_platform.Domain.Execution.{
  Instant, Seconds, one_second, JobExecution, new_execution, duration_seconds, JobLog,
}
use task_platform.Common.Decimal.{decimal, value_after, value-decimal}
use task_platform.Metrics.{
  JobMetrics, MetricsSnapshot, Fraction, share, finished_count, success_rate, failure_rate,
  avg_duration_seconds, get, QueueAnswers, read_queue_stats, fill_counts, Durations, fill_durations,
  minus_seconds, collect_metrics,
}

-- `text.replace(c, new)` for one character.
unfoldable pub replace : ℕ → Text → Text → Text
replace c new [] = []
replace c new (d ∷ t) = let rest = replace c new t in if d == c then new ++ rest else d ∷ rest

-- `_escape`: the backslash is 92, the quote 34, the line feed 10 and "n" is 110.
unfoldable pub escape : Text → Text
unfolding replace
escape value =
    replace 10 (92 ∷ 110 ∷ []) (replace 34 (92 ∷ 34 ∷ []) (replace 92 (92 ∷ 92 ∷ []) value))

abbrev quoted : Text × Text → Text
quoted (name, value) = name ++ (codes "=" ++ (34 ∷ escape value ++ 34 ∷ []))

abbrev join : Text → List Text → Text
join separator [] = []
join separator (t ∷ []) = t
join separator (t ∷ u ∷ rest) = t ++ (separator ++ join separator (u ∷ rest))

-- `_labels`
unfoldable pub labels : List (Text × Text) → Text
unfolding escape
labels pairs = codes "{" ++ (join (codes ",") (map quoted pairs) ++ codes "}")

-- `status.value`
abbrev pub status_value : JobStatus → Text
status_value pending = codes "PENDING"
status_value queued = codes "QUEUED"
status_value running = codes "RUNNING"
status_value success = codes "SUCCESS"
status_value retrying = codes "RETRYING"
status_value failed = codes "FAILED"
status_value canceled = codes "CANCELED"
status_value recoverable = codes "RECOVERABLE"

-- `_COUNTER_STATUSES` and `_ACTIVE_STATUSES`
abbrev counter_statuses : List JobStatus
counter_statuses = success ∷ failed ∷ canceled ∷ retrying ∷ []

abbrev active_statuses : List JobStatus
active_statuses = pending ∷ queued ∷ running ∷ recoverable ∷ []

abbrev header : Text → Text → Text → List Text
header name help_text metric_type =
    (codes "# HELP " ++ (name ++ (codes " " ++ help_text)))
    ∷ (codes "# TYPE " ++ (name ++ (codes " " ++ metric_type)))
    ∷ []

abbrev sample : Text → List (Text × Text) → Text → Text
sample name pairs value = name ++ (labels pairs ++ (codes " " ++ value))

abbrev job_label : JobMetrics → Text × Text
job_label j = (codes "job", j.job)

abbrev status_lines : Text → JobMetrics → List JobStatus → List Text
status_lines name j [] = []
status_lines name j (status ∷ rest) =
    sample name (job_label j ∷ (codes "status", status_value status) ∷ [])
      (decimal (j.status_counts status))
    ∷ status_lines name j rest

abbrev for_each : (JobMetrics → List Text) → List JobMetrics → List Text
for_each f [] = []
for_each f (j ∷ jobs) = f j ++ for_each f jobs

abbrev queue_lines : Text → Option ℕ → Option ℕ → List Text
queue_lines queue_name (some depth) (some waiting) =
    header (codes "queue_depth") (codes "Messages not yet consumed.") (codes "gauge")
    ++ (sample (codes "queue_depth") ((codes "queue", queue_name) ∷ []) (decimal depth)
        ∷ header (codes "queue_pending") (codes "Messages consumed but not yet acked.")
            (codes "gauge"))
    ++ sample (codes "queue_pending") ((codes "queue", queue_name) ∷ []) (decimal waiting) ∷ []
queue_lines queue_name _ _ = []

unfoldable pub render_prometheus : (Seconds → Text) → MetricsSnapshot → Text → Text
unfolding labels
render_prometheus fixed_six snapshot queue_name =
    join (10 ∷ []) (
      header (codes "job_execution_total") (codes "Execution attempts by terminal status.")
        (codes "counter")
      ++ (for_each (λ j. status_lines (codes "job_execution_total") j counter_statuses)
            snapshot.jobs
          ++ (header (codes "job_executions_active") (codes "Execution attempts not yet finished.")
                (codes "gauge")
              ++ (for_each (λ j. status_lines (codes "job_executions_active") j active_statuses)
                    snapshot.jobs
                  ++ (header (codes "job_retry_total")
                        (codes "Retry attempts actually executed (attempt > 1).") (codes "counter")
                      ++ (for_each
                            (λ j.
                              sample (codes "job_retry_total") (job_label j ∷ [])
                                (decimal j.retry_attempts)
                              ∷ [])
                            snapshot.jobs
                          ++ (header (codes "job_duration_seconds")
                                (codes "Duration of finished (SUCCESS/FAILED) attempts.")
                                (codes "summary")
                              ++ (for_each
                                    (λ j.
                                      sample (codes "job_duration_seconds_sum") (job_label j ∷ [])
                                        (fixed_six j.duration_sum)
                                      ∷ sample (codes "job_duration_seconds_count")
                                          (job_label j ∷ []) (decimal j.duration_count)
                                      ∷ [])
                                    snapshot.jobs
                                  ++ (header (codes "job_duration_seconds_max")
                                        (codes "Longest finished attempt.") (codes "gauge")
                                      ++ (for_each
                                            (λ j.
                                              sample (codes "job_duration_seconds_max")
                                                (job_label j ∷ []) (fixed_six j.duration_max)
                                              ∷ [])
                                            snapshot.jobs
                                          ++ queue_lines queue_name snapshot.queue_depth
                                              snapshot.queue_pending))))))))))
    ++ 10 ∷ []
