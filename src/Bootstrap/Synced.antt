-- ===== src/Bootstrap/Synced.antt =====
-- About `sync_jobs_to_db` of bootstrap.py: one job of it.
use task_platform.Common.{
  ◌≡◌, refl, true, false, not, ◌&&◌, some, arith, any, pos, ltb_ℤ, Text, text_eq, is_blank,
}
use task_platform.Domain.Effects.{ok}
use task_platform.Domain.Job.{Job, validate_job}
use task_platform.Db.Tables.{Database}
use task_platform.Db.Jobs
use task_platform.Db.Jobs.Stored.{IsAccepted, get-update, get-with_update}
use task_platform.Bootstrap.{with_definition, sync_job}

-- What the code's definition of a job makes of a job with its name: the runtime state of the row stays.
abbrev pub MatchesDefinition : Job → Job → Job → Type 0
MatchesDefinition code_job existing job =
    (job.id ≡ existing.id)
    × (job.enabled ≡ existing.enabled)
    × (job.created_at ≡ existing.created_at)
    × (job.name ≡ existing.name)
    × (job.handler ≡ code_job.handler)
    × (job.job_type ≡ code_job.job_type)
    × (job.timeout_seconds ≡ code_job.timeout_seconds)
    × (job.retry_policy ≡ code_job.retry_policy)

validate_job-parts :
    (j : Job)
    → validate_job j ≡ ok j
    → (is_blank j.name ≡ false) × (ltb_ℤ (pos 0) j.timeout_seconds ≡ true)
unfolding validate_job
validate_job-parts j h = ground arith

merged-IsAccepted :
    (code_job existing : Job)
    → IsAccepted code_job
    → existing.name ≡ code_job.name
    → IsAccepted (with_definition code_job existing)
unfolding validate_job
merged-IsAccepted code_job existing (policy, valid) same =
    let (named, timed) = validate_job-parts code_job valid in (policy, rw (same, named, timed) refl)

-- When a job is read by a name, and is what is read by its id, and no other row has its name, the
-- reconciliation of an acceptable definition of that name returns, changes no job but that one, and
-- what is then read by the id has the id, the enabled flag and the creation time of the old job and
-- the handler, type, timeout and retry policy of the definition.
pub sync_job_existing :
    (code_job existing : Job) (other : Text) (db : Database)
    → IsAccepted code_job
    → Jobs.get_by_name code_job.name db ≡ (ok (some existing), db)
    → Jobs.get existing.id db ≡ (ok (some existing), db)
    → existing.name ≡ code_job.name
    → any (λ o. Jobs.has_name existing.name o && not (Jobs.has_id existing.id o)) db.jobs ≡ false
    → text_eq other existing.id ≡ false
    → let after = (sync_job code_job.name code_job db).1 in
      (job : Job) × ((sync_job code_job.name code_job db).0 ≡ ok job)
      × (Jobs.get existing.id after ≡ (ok (some job), after))
      × MatchesDefinition code_job existing job
      × ((Jobs.get other after).0 ≡ (Jobs.get other db).0)
unfolding sync_job
sync_job_existing code_job existing other db accepted named found same alone apart =
    let job = with_definition code_job existing in
    let (updated, read) =
      get-update db existing job found refl (merged-IsAccepted code_job existing accepted same)
        alone in
    (
      job,
      rw (named, updated) refl,
      rw (named, updated) read,
      (refl, refl, refl, refl, refl, refl, refl, refl),
      rw (named, updated) (get-with_update db job other apart),
    )
