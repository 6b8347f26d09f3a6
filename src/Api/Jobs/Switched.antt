-- ===== src/Api/Jobs/Switched.antt =====
-- About the routes that pause and resume a job in api/routers/jobs.py.
use task_platform.Common.{
  ◌≡◌, refl, sym, ap, ◌∙◌, Bool, true, false, not, ◌&&◌, some, arith, is_some, any, Text, text_eq,
}
use task_platform.Domain.Effects.{ok}
use task_platform.Domain.Job.{Job, validate_job}
use task_platform.Db.Tables.{JobRecord, Database}
use task_platform.Db.Jobs
use task_platform.Db.Tables.Rows.{any-eq-find?, find?-update_first_other}
use task_platform.Db.Mappers.{update_job_record}
use task_platform.Db.Jobs.Stored.{
  IsAccepted, get-update, get-with_update, with_update, get-eq-ok, record_to_job-eq-ok,
}
use task_platform.Api.Errors.{replied, respond, respond-eq-ok}
use task_platform.Api.Jobs.{get_or_404, get_job, set_enabled, pause_job, resume_job}
use task_platform.Api.Jobs.Created.{get_job-found}

-- The job when it is switched on or off.
abbrev pub switched : Bool → Job → Job
switched enabled job = record job { enabled = enabled }

switched-IsAccepted :
    (enabled : Bool) (job : Job) → IsAccepted job → IsAccepted (switched enabled job)
unfolding validate_job
switched-IsAccepted enabled job (policy, valid) = (policy, ground arith)

get-IsAccepted :
    (db : Database) (job : Job) → Jobs.get job.id db ≡ (ok (some job), db) → IsAccepted job
get-IsAccepted db job h =
    let (r, found, read, id) = get-eq-ok job.id db job h in (record_to_job-eq-ok r job read).0

set_enabled-found :
    (enabled : Bool) (db : Database) (job : Job)
    → Jobs.get job.id db ≡ (ok (some job), db)
    → any (λ o. Jobs.has_name job.name o && not (Jobs.has_id job.id o)) db.jobs ≡ false
    → (set_enabled enabled job.id db
        ≡ (ok (switched enabled job), with_update db (switched enabled job)))
      × (Jobs.get job.id (with_update db (switched enabled job))
          ≡ (ok (some (switched enabled job)), with_update db (switched enabled job)))
unfolding set_enabled get_or_404
set_enabled-found enabled db job h alone =
    let (updated, read) =
      get-update db job (switched enabled job) h refl
        (switched-IsAccepted enabled job (get-IsAccepted db job h)) alone in
    (rw (h, updated) refl, read)

-- No other job takes a name by a change of this one.
alone-with_update :
    (enabled : Bool) (db : Database) (job : Job)
    → any (λ o. Jobs.has_name job.name o && not (Jobs.has_id job.id o)) db.jobs ≡ false
    → any
        (λ o. Jobs.has_name job.name o && not (Jobs.has_id job.id o))
        (with_update db (switched enabled job)).jobs
      ≡ false
unfolding update_job_record
alone-with_update enabled db job alone =
    let is_other : JobRecord → Bool = λ o. Jobs.has_name job.name o && not (Jobs.has_id job.id o) in
    any-eq-find? is_other (with_update db (switched enabled job)).jobs
    ∙ ap is_some (
        find?-update_first_other (Jobs.has_id job.id) is_other
          (λ o. update_job_record o (switched enabled job)) db.jobs
          (λ r p. (rw p (ground arith), rw p (ground arith))))
    ∙ sym (any-eq-find? is_other db.jobs)
    ∙ alone

-- When a job can be read and no other has its name, a request to pause it and then one to resume it are
-- both answered 200, with the job switched off and with the job switched on; after the pause a GET
-- answers the job switched off, after both it answers the job switched on, every other job is read as
-- at first, and the executions and schedules are those that there were.
pub pause_job-resume_job :
    (db : Database) (job : Job) (other : Text)
    → Jobs.get job.id db ≡ (ok (some job), db)
    → any (λ o. Jobs.has_name job.name o && not (Jobs.has_id job.id o)) db.jobs ≡ false
    → text_eq other job.id ≡ false
    → let (paused_reply, paused) = respond 200 (pause_job job.id) db in
      let (resumed_reply, resumed) = respond 200 (resume_job job.id) paused in
      (paused_reply ≡ replied 200 (switched false job))
      × ((respond 200 (get_job job.id) paused).0 ≡ replied 200 (switched false job))
      × (resumed_reply ≡ replied 200 (switched true job))
      × ((respond 200 (get_job job.id) resumed).0 ≡ replied 200 (switched true job))
      × ((Jobs.get other resumed).0 ≡ (Jobs.get other db).0)
      × (resumed.executions ≡ db.executions)
      × (resumed.schedules ≡ db.schedules)
unfolding pause_job resume_job
pause_job-resume_job db job other h alone apart =
    let (off, after_off) = set_enabled-found false db job h alone in
    let paused = with_update db (switched false job) in
    let (on, after_on) =
      set_enabled-found true paused (switched false job) after_off
        (alone-with_update false db job alone) in
    let resumed = with_update paused (switched true job) in
    rw
      (
        respond-eq-ok 200 (set_enabled false job.id) db paused (switched false job) off,
        respond-eq-ok 200 (set_enabled true job.id) paused resumed (switched true job) on,
        get_job-found job.id paused (switched false job) after_off,
        get_job-found job.id resumed (switched true job) after_on,
      )
      (
        refl,
        refl,
        refl,
        refl,
        get-with_update paused (switched true job) other apart
            ∙ get-with_update db (switched false job) other apart,
        refl,
        refl,
      )
