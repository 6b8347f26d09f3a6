-- ===== src/Db/Mappers/RoundTrip.antt =====
-- About infrastructure/db/mappers.py: reading back what was written to a row.
use task_platform.Common.{◌≡◌, refl}
use task_platform.Domain.Effects.{ok}
use task_platform.Domain.Execution.{JobExecution}
use task_platform.Domain.Retry.{validate_policy}
use task_platform.Domain.Job.{Job, validate_job}
use task_platform.Db.Tables.{JobRecord, ExecutionRecord}
use task_platform.Db.Mappers.{
  job_to_record, update_job_record, record_to_job, update_execution_record, record_to_execution,
}

-- A job that the constructors of it and of its retry policy accept is read back from its row as it
-- was written.
pub record_to_job-job_to_record :
    (j : Job)
    → validate_policy j.retry_policy ≡ ok j.retry_policy
    → validate_job j ≡ ok j
    → record_to_job (job_to_record j) ≡ ok j
unfolding record_to_job job_to_record
record_to_job-job_to_record j p v = rw p v

-- Writing a job back to its row changes what is read to the job, but for the number and the time of
-- creation, which stay those of the row.
pub record_to_job-update_job_record :
    (r : JobRecord) (j : Job)
    → record_to_job (update_job_record r j)
      ≡ record_to_job (job_to_record (record j { id = r.id; created_at = r.created_at }))
unfolding record_to_job job_to_record update_job_record
record_to_job-update_job_record r j = refl

-- An execution written back to the row of its attempt is read back as it was written, but for the
-- request to cancel, which stays that of the row.
pub record_to_execution-update_execution_record :
    (r : ExecutionRecord) (e : JobExecution)
    → r.run_id ≡ e.run_id
    → r.attempt ≡ e.attempt
    → r.job_id ≡ e.job_id
    → record_to_execution (update_execution_record r e)
      ≡ record e { cancel_requested = r.cancel_requested }
unfolding record_to_execution update_execution_record
record_to_execution-update_execution_record r e p q s = cc
