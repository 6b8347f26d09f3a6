-- ===== src/Tests/Api.antt =====
-- Requests to a database with one job.
use task_platform.Common.{
  ◌⊎◌, true, ◌≡◌, refl, true, false, not, ◌&&◌, none, some, [], ◌++◌, if◌then◌else◌, any, pos, Text,
  codes, text_eq, is_space, is_blank,
}
use task_platform.Domain.Status.{custom, fixed}
use task_platform.Domain.Effects.{ok}
use task_platform.Domain.Retry.{validate_policy}
use task_platform.Domain.Job.{Job, validate_job}
use task_platform.Db.Mappers.{job_to_record, record_to_job}
use task_platform.Db.Jobs
use task_platform.Db.Jobs.Stored.{IsAccepted}
use task_platform.Api.Schemas.{JobCreate, is_valid_policy, validate_create}
use task_platform.Api.Errors.{replied, refused, respond}
use task_platform.Api.Jobs.{create_job, get_job, pause_job, resume_job}
use task_platform.Api.Jobs.Created.{job_of, with_job, IsReadable, create_job-get_job}
use task_platform.Api.Jobs.Switched.{switched, pause_job-resume_job}
use task_platform.Bootstrap.{sync_job}
use task_platform.Bootstrap.Synced.{MatchesDefinition, sync_job_existing}
use task_platform.Tests.Samples.{sample_job, sample_registry, sample_database}
use task_platform.Registry

abbrev strip : Text → Text
strip t = if is_blank t then [] else t

abbrev request : JobCreate
request = record {
  name = codes "weekly";
  handler = codes "report";
  job_type = custom;
  timeout_seconds = pos 30000000;
  retry_policy = record {
    max_attempts = 3;
    backoff = fixed;
    base_delay_seconds = pos 1000000;
    max_delay_seconds = pos 60000000;
    extra = [];
  };
  enabled = true;
  extra = [];
}

accepted_request : validate_create strip request ≡ some request
unfolding validate_create is_valid_policy is_blank is_space
accepted_request = refl

new_id_is_new : any (Jobs.has_id (codes "j2")) sample_database.jobs ≡ false
unfolding text_eq job_to_record
new_id_is_new = refl

no_weekly : IsReadable request.name sample_database
unfolding Jobs.get_by_name text_eq job_to_record
no_weekly = (none, refl)

create_job-get_job_example :
    let job = job_of (codes "j2") 9 request in
    (respond 201 (create_job sample_registry (codes "j2") 9 request) sample_database ≡ (
      if not (Registry.is_registered request.handler sample_registry)
      then (
        refused 422 (codes "handler_not_registered") (codes "handler 未注册: " ++ request.handler),
        sample_database,
      )
      else if any (Jobs.has_name request.name) sample_database.jobs
      then (
        refused 409 (codes "job_name_conflict") (codes "任务名称已存在: " ++ request.name),
        sample_database,
      )
      else if is_blank request.name
      then (refused 500 (codes "internal_error") (codes "服务内部错误"), sample_database)
      else (replied 201 job, with_job sample_database job)))
    × ((is_blank request.name ≡ true)
        ⊎ (respond 200 (get_job (codes "j2")) (with_job sample_database job)
            ≡ (replied 200 job, with_job sample_database job)))
create_job-get_job_example =
    create_job-get_job strip sample_registry (codes "j2") 9 request request sample_database
      accepted_request new_id_is_new no_weekly

read_sample : Jobs.get sample_job.id sample_database ≡ (ok (some sample_job), sample_database)
unfolding Jobs.get text_eq job_to_record record_to_job validate_policy validate_job is_blank
    is_space
read_sample = refl

named_sample :
    Jobs.get_by_name sample_job.name sample_database ≡ (ok (some sample_job), sample_database)
unfolding Jobs.get_by_name text_eq job_to_record record_to_job validate_policy validate_job is_blank
    is_space
named_sample = refl

alone_sample :
    any
      (λ o. Jobs.has_name sample_job.name o && not (Jobs.has_id sample_job.id o))
      sample_database.jobs
    ≡ false
unfolding text_eq job_to_record
alone_sample = refl

another_id : text_eq (codes "j2") sample_job.id ≡ false
unfolding text_eq
another_id = refl

pause_job-resume_job_example :
    let (paused_reply, paused) = respond 200 (pause_job sample_job.id) sample_database in
    let (resumed_reply, resumed) = respond 200 (resume_job sample_job.id) paused in
    (paused_reply ≡ replied 200 (switched false sample_job))
    × ((respond 200 (get_job sample_job.id) paused).0 ≡ replied 200 (switched false sample_job))
    × (resumed_reply ≡ replied 200 (switched true sample_job))
    × ((respond 200 (get_job sample_job.id) resumed).0 ≡ replied 200 (switched true sample_job))
    × ((Jobs.get (codes "j2") resumed).0 ≡ (Jobs.get (codes "j2") sample_database).0)
    × (resumed.executions ≡ sample_database.executions)
    × (resumed.schedules ≡ sample_database.schedules)
pause_job-resume_job_example =
    pause_job-resume_job sample_database sample_job (codes "j2") read_sample alone_sample another_id

-- The code gives the job another timeout.
abbrev redefined : Job
redefined = record sample_job { id = codes "j9"; timeout_seconds = pos 5000000; created_at = 77 }

redefined-IsAccepted : IsAccepted redefined
unfolding validate_policy validate_job is_blank is_space
redefined-IsAccepted = (refl, refl)

sync_job_existing_example :
    let after = (sync_job redefined.name redefined sample_database).1 in
    (job : Job) × ((sync_job redefined.name redefined sample_database).0 ≡ ok job)
    × (Jobs.get sample_job.id after ≡ (ok (some job), after))
    × MatchesDefinition redefined sample_job job
    × ((Jobs.get (codes "j2") after).0 ≡ (Jobs.get (codes "j2") sample_database).0)
sync_job_existing_example =
    sync_job_existing redefined sample_job (codes "j2") sample_database redefined-IsAccepted
      named_sample read_sample refl alone_sample another_id
