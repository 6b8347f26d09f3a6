-- ===== src/Alerts.antt =====
-- alerts.py: the alerts that the database and the queue give rise to, and the changes between two
-- rounds.
pub mod Failures
pub mod Changes
use task_platform.Common.{
  ℕ, zero, suc, ◌+◌, ◌-◌, ◌*◌, ◌/◌, ◌%◌, ◌^◌, ◌≤◌, ◌<◌, ◌≡◌, refl, sym, ap, ◌∙◌, ◌≢◌, ◌↔◌, ◌⊎◌, inl,
  inr, Bool, true, false, not, ◌&&◌, ◌||◌, Option, none, some, List, [], ◌∷◌, ◌++◌, map, reverse,
  arith, ltb, leb, ◌==◌, if◌then◌else◌, ltb→lt, lt→ltb, leb→le, le→leb, ==_iff, tests, Bool-cases,
  Option-cases, is_some, length, get_last?, take, drop, filter, any, all, find?, sort_with, All,
  length-append, ℤ, pos, negsuc, pos_part, neg_part, sub_ℕ, ◌+ℤ◌, ◌-ℤ◌, ◌*ℤ◌, ◌≤ℤ◌, ltb_ℤ, +ℤ_parts,
  -ℤ_parts, eq_of_parts, int_laws, Text, codes, text_eq, text_eq_iff, text_eq_self, text_ltb,
  remove_prefix?, is_space, is_blank,
}
use task_platform.Domain.Status.{
  JobStatus, pending, queued, running, success, retrying, failed, canceled, recoverable, JobType,
  demo_success, demo_failure, demo_slow, custom, BackoffStrategy, fixed, exponential, ScheduleType,
  interval, daily, rank, status_eq, status_eq_iff, is_terminal,
}
use task_platform.Domain.Effects.{
  Error, value_error, assertion_error, invalid_transition, job_not_registered, duplicate_job_name,
  entity_not_found, integrity_error, invalid_message, job_canceled, handler_timeout, handler_error,
  queue_error, Result, ok, err, injective_ok, Action, and_then, pure, raise, lift, gets, modify,
  continue, ◌>>=◌, ◌>>◌, >>=-eq-ok, >>=-eq-err, >>=-keeps, on_part,
}
use task_platform.Domain.Execution.{
  Instant, Seconds, one_second, JobExecution, new_execution, duration_seconds, JobLog,
}
use task_platform.Domain.Job.{Job, validate_job}
use task_platform.Db.Tables.{
  JobRecord, ScheduleRecord, ExecutionRecord, JobLogRecord, IdempotencyRecord, Database,
  empty_database, is_attempt, update_first, update_where, count_where, sort_by,
}
use task_platform.Db.Jobs
use task_platform.Db.Executions
use task_platform.Db.Statistics
use task_platform.Executor.Wait.{
  timeout_error_prefix, Ending, returned, stopped, raised, Poll, timeout_message, grace_message,
  wait_rounds, wait_for,
}
use task_platform.Metrics.{
  QueueAnswers, read_queue_stats, minus_seconds, JobMetrics, Fraction, share, finished_count,
  success_rate, failure_rate, avg_duration_seconds, MetricsSnapshot, get, fill_counts, Durations,
  fill_durations, collect_metrics,
}
use task_platform.Common.Dict
use task_platform.Common.Dict.{Dict, Key, text_key}
use task_platform.Common.Decimal.{decimal, value_after, value-decimal}

pub data Severity : Type 0 where
  warning critical : Severity

pub record AlertRules : Type 0 where
  pub consecutive_failures : ℕ
  pub timeout_count : ℕ
  pub timeout_window : Seconds
  pub queue_depth : ℕ

-- `AlertRules.__post_init__`
unfoldable pub validate_rules : AlertRules → Result AlertRules
validate_rules r =
    if ltb r.consecutive_failures 1
    then err value_error
    else if ltb r.timeout_count 1
    then err value_error
    else if not (ltb_ℤ (pos 0) r.timeout_window)
    then err value_error
    else if ltb r.queue_depth 1
    then err value_error
    else ok r

pub record Alert : Type 0 where
  pub rule : Text
  pub subject : Text
  pub severity : Severity
  pub message : Text
  pub value : ℕ
  pub threshold : ℕ

-- `Alert.key`
unfoldable pub key_of : Alert → Text
key_of a = a.rule ++ (codes ":" ++ a.subject)

-- `_FAILURE_LOOKBACK`
abbrev pub failure_lookback : ℕ
failure_lookback = 50

-- The loop that counts until the first status that is not FAILED.
unfoldable pub streak_of : List JobStatus → ℕ
streak_of [] = 0
streak_of (failed ∷ rest) = suc (streak_of rest)
streak_of (_ ∷ rest) = 0

abbrev failure_message : Text → ℕ → Text
failure_message name streak =
    codes "任务 " ++ (name ++ (codes " 已连续失败 " ++ (decimal streak ++ codes " 次")))

abbrev lookback_of : AlertRules → ℕ
lookback_of rules =
    if ltb failure_lookback rules.consecutive_failures
    then rules.consecutive_failures
    else failure_lookback

unfoldable pub failure_alerts : AlertRules → Database → Job → List Alert
unfolding streak_of
failure_alerts rules db job =
    let streak = streak_of (Executions.recent_final_statuses job.id (lookback_of rules) db) in
    if leb rules.consecutive_failures streak
    then record {
      rule = codes "consecutive_failures";
      subject = job.name;
      severity = critical;
      message = failure_message job.name streak;
      value = streak;
      threshold = rules.consecutive_failures;
    }
      ∷ []
    else []

abbrev timeout_alert : AlertRules → Text → ℕ → Alert
timeout_alert rules name n = record {
  rule = codes "timeouts";
  subject = name;
  severity = warning;
  message =
      codes "任务 "
      ++ (name
          ++ (codes " 在最近 "
              ++ (decimal (pos_part rules.timeout_window / one_second)
                  ++ (codes " 秒内超时 " ++ (decimal n ++ codes " 次")))));
  value = n;
  threshold = rules.timeout_count;
}

unfoldable pub timeout_alerts : AlertRules → List Text → List (Text × ℕ) → List Alert
timeout_alerts rules enabled [] = []
timeout_alerts rules enabled ((name, n) ∷ rest) =
    let others = timeout_alerts rules enabled rest in
    if any (text_eq name) enabled && leb rules.timeout_count n
    then timeout_alert rules name n ∷ others
    else others

abbrev backlog_alert : AlertRules → Text → ℕ → Alert
backlog_alert rules queue_name depth = record {
  rule = codes "queue_backlog";
  subject = queue_name;
  severity = warning;
  message = codes "队列 " ++ (queue_name ++ (codes " 积压 " ++ (decimal depth ++ codes " 条消息未消费")));
  value = depth;
  threshold = rules.queue_depth;
}

unfoldable pub backlog_alerts : AlertRules → Text → Option ℕ → List Alert
backlog_alerts rules queue_name none = []
backlog_alerts rules queue_name (some depth) =
    if leb rules.queue_depth depth then backlog_alert rules queue_name depth ∷ [] else []

abbrev all_failure_alerts : AlertRules → Database → List Job → List Alert
all_failure_alerts rules db [] = []
all_failure_alerts rules db (job ∷ jobs) =
    failure_alerts rules db job ++ all_failure_alerts rules db jobs

abbrev by_name : List (Text × ℕ) → List (Text × ℕ)
by_name groups = sort_with (λ a b. text_ltb a.0 b.0) groups

unfoldable pub evaluate_alerts :
    AlertRules → Option QueueAnswers → Text → Instant → Action Database (List Alert)
unfolding failure_alerts timeout_alerts backlog_alerts
evaluate_alerts rules queue queue_name now = do
  all_jobs ← Jobs.list_all
  let jobs = filter (λ (j : Job). j.enabled) all_jobs
  timeouts ← gets (
      Statistics.count_timeouts_by_job timeout_error_prefix
        (minus_seconds now rules.timeout_window))
  failures ← gets (λ db. all_failure_alerts rules db jobs)
  pure (
      failures
      ++ (timeout_alerts rules (map (λ (j : Job). j.name) jobs) (by_name timeouts)
          ++ backlog_alerts rules queue_name (read_queue_stats queue).0))

-- `{a.key: a for a in alerts}`
abbrev pub by_key : List Alert → Dict Text Alert → Dict Text Alert
by_key [] d = d
by_key (a ∷ alerts) d = by_key alerts (Dict.put d (key_of a) a)

abbrev pub not_in : Dict Text Alert → Text × Alert → Bool
not_in d e = not (Dict.has d e.0)

-- `AlertTracker.update` on the alerts that are active: those that fired, those that are resolved, and
-- the new active ones.
unfoldable pub update : List Alert → Dict Text Alert → (List Alert × List Alert) × Dict Text Alert
update alerts active =
    let current = by_key alerts [] in
    let fired = map (λ e. e.1) (filter (not_in active) current) in
    let resolved = map (λ e. e.1) (filter (not_in current) active) in ((fired, resolved), current)
