-- ===== src/Tests/Db.antt =====
-- The tables with one job and one attempt of it.
use task_platform.Common.{
  ◌≡◌, refl, true, false, ◌&&◌, none, some, [], ◌∷◌, ◌==◌, if◌then◌else◌, is_some, codes, text_eq,
  is_space, is_blank,
}
use task_platform.Domain.Status.{retrying}
use task_platform.Domain.Effects.{ok}
use task_platform.Domain.Execution.{new_execution}
use task_platform.Domain.Job.{validate_job}
use task_platform.Domain.Retry.{validate_policy}
use task_platform.Db.Tables.{ExecutionRecord, Database}
use task_platform.Db.Mappers.{job_to_record, execution_to_record}
use task_platform.Db.Executions.{find_attempt, get_attempt, upsert, claim_retry}
use task_platform.Db.Executions.Upsert.{job_known, saved, get_attempt-upsert}
use task_platform.Db.Executions.Claims.{claim_retry_wins}
use task_platform.Collector
use task_platform.Db.Keys.{try_claim, get_run_id}
use task_platform.Db.Keys.Owners.{try_claim_first}
use task_platform.Tests.Samples.{sample_policy, sample_job, sample_database, sample_execution}

known : job_known (codes "j1") sample_database ≡ true
unfolding job_to_record text_eq
known = refl

get_attempt-upsert_example :
    ((upsert sample_execution sample_database).0 ≡ ok tt)
    × (get_attempt (codes "r1") 1 (upsert sample_execution sample_database).1 ≡ (
        if text_eq (codes "r1") sample_execution.run_id && (sample_execution.attempt == 1)
        then some (saved (get_attempt (codes "r1") 1 sample_database) sample_execution)
        else get_attempt (codes "r1") 1 sample_database))
unfolding new_execution
get_attempt-upsert_example =
    get_attempt-upsert sample_execution (codes "r1") 1 sample_database known

-- A failed attempt that waits for its retry.
abbrev waiting_row : ExecutionRecord
waiting_row = record (execution_to_record 1 sample_execution) {
  status = retrying;
  next_retry_at = some 100;
}

abbrev waiting_database : Database
waiting_database = record sample_database { executions = waiting_row ∷ [] }

claim_retry_wins_example :
    ((claim_retry (codes "r1") 1 waiting_database).0
      ≡ ok (elim (find_attempt (codes "r1") 1 waiting_database.executions) [
        | none ↦ false
        | some r ↦ is_some r.next_retry_at
      ]))
    × ((claim_retry (codes "r1") 1 (claim_retry (codes "r1") 1 waiting_database).1).0 ≡ ok false)
claim_retry_wins_example = claim_retry_wins (codes "r1") 1 waiting_database (refl, tt)

policy_accepted : validate_policy sample_policy ≡ ok sample_policy
unfolding validate_policy
policy_accepted = refl

job_accepted : validate_job sample_job ≡ ok sample_job
unfolding validate_job is_blank is_space
job_accepted = refl

abbrev two_runs : Collector.LogCollector
two_runs =
    (
      codes "r1",
      record {
        run_id = codes "r1";
        attempt = 0;
        level = codes "INFO";
        message = codes "hello";
        created_at = 3;
      }
          ∷ [],
    )
    ∷ []

first_claim : (try_claim (codes "k") (codes "j1") (codes "r1") 5 sample_database).0 ≡ ok true
unfolding try_claim job_to_record text_eq
first_claim = refl

try_claim_first_example :
    let db = (try_claim (codes "k") (codes "j1") (codes "r1") 5 sample_database).1 in
    (get_run_id (codes "k") db ≡ some (codes "r1"))
    × (try_claim (codes "k") (codes "j1") (codes "r2") 6 db ≡ (ok false, db))
try_claim_first_example =
    try_claim_first (codes "k") (codes "j1") (codes "j1") (codes "r1") (codes "r2") 5 6
      sample_database first_claim
