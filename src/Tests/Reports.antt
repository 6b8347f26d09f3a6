-- ===== src/Tests/Reports.antt =====
-- Pages, alerts and counts at a database with runs of one job.
use task_platform.Common.{
  ℕ, ◌≡◌, refl, not, ◌&&◌, none, List, [], ◌∷◌, map, reverse, filter, pos, Text, codes,
}
use task_platform.Domain.Status.{failed}
use task_platform.Domain.Effects.{ok}
use task_platform.Domain.Execution.{JobExecution}
use task_platform.Common.Dict
use task_platform.Common.Dict.{Dict, Key, text_key}
use task_platform.Db.Tables.{ExecutionRecord, Database}
use task_platform.Db.Mappers.{execution_to_record, record_to_execution}
use task_platform.Db.Pages.{Page, total_pages, validate_pagination, selected, list_executions}
use task_platform.Db.Pages.Whole.{collected, collected-list_executions}
use task_platform.Db.Jobs
use task_platform.Alerts.{warning, AlertRules, Alert, by_key, update}
use task_platform.Alerts.Changes.{reports, IsTracked, update_changes}
use task_platform.Tests.Samples.{sample_database, sample_execution}

abbrev failed_row : ℕ → Text → ExecutionRecord
failed_row id run_id = record (execution_to_record id sample_execution) {
  run_id = run_id;
  status = failed;
}

-- Two runs that failed.
abbrev two_failures : Database
two_failures = record sample_database {
  executions = failed_row 1 (codes "r1") ∷ failed_row 2 (codes "r2") ∷ [];
}

-- Pages of one row.
abbrev first_page : Page JobExecution
first_page = record {
  items = record_to_execution (failed_row 2 (codes "r2")) ∷ [];
  total = 2;
  page = 1;
  page_size = 1;
}

first_page_is_read : list_executions none none none none 1 1 two_failures ≡ ok first_page
unfolding list_executions validate_pagination record_to_execution execution_to_record
first_page_is_read = refl

collected-list_executions_example :
    collected (λ k. list_executions none none none none k 1 two_failures) (total_pages first_page)
    ≡ map record_to_execution
        (reverse (filter (selected none none none none) two_failures.executions))
collected-list_executions_example =
    collected-list_executions none none none none 1 1 two_failures first_page_is_read

abbrev two_in_a_row : AlertRules
two_in_a_row = record {
  consecutive_failures = 2;
  timeout_count = 3;
  timeout_window = pos 3600000000;
  queue_depth = 100;
}

abbrev sample_alert : Alert
sample_alert = record {
  rule = codes "timeouts";
  subject = codes "report";
  severity = warning;
  message = [];
  value = 3;
  threshold = 3;
}

abbrev active_alerts : Dict Text Alert
active_alerts = by_key (sample_alert ∷ []) []

active_alerts-IsTracked : IsTracked active_alerts
unfolding Dict.put
active_alerts-IsTracked = (refl, tt)

-- The alert is not reported again, and another one is.
abbrev next_alerts : List Alert
next_alerts = record sample_alert { subject = codes "weekly" } ∷ []

update_changes_example :
    let ((fired, resolved), current) = update next_alerts active_alerts in
    (reports (codes "timeouts:weekly") fired ≡ (
      reports (codes "timeouts:weekly") next_alerts
      && not (Dict.has active_alerts (codes "timeouts:weekly"))))
    × (reports (codes "timeouts:weekly") resolved ≡ (
        Dict.has active_alerts (codes "timeouts:weekly")
        && not (reports (codes "timeouts:weekly") next_alerts)))
    × (Dict.has current (codes "timeouts:weekly") ≡ reports (codes "timeouts:weekly") next_alerts)
    × IsTracked current
update_changes_example =
    update_changes next_alerts active_alerts (codes "timeouts:weekly") active_alerts-IsTracked
