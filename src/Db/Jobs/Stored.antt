-- ===== src/Db/Jobs/Stored.antt =====
-- About JobRepository: what is read after a job was added or written back.
use task_platform.Common.{
  ◌≡◌, refl, ◌⊎◌, inl, inr, false, some, [], ◌∷◌, ◌++◌, arith, any, text_eq_self, sym, ap, ◌∙◌,
  Option, none, Option-cases, is_some, find?, Text, not, ◌&&◌, text_eq, text_eq_iff,
}
use task_platform.Domain.Effects.{value_error, ok, err, Result, and_then-eq-ok}
use task_platform.Domain.Retry.{RetryPolicy, validate_policy}
use task_platform.Domain.Job.{Job, validate_job}
use task_platform.Db.Tables.{Database, JobRecord, update_first}
use task_platform.Db.Tables.Rows.{
  find?-snoc, any-eq-find?, find?-update_first_self, find?-update_first_other, find?-sound,
}
use task_platform.Db.Mappers.{job_to_record, update_job_record, record_to_job}
use task_platform.Db.Mappers.RoundTrip.{
  record_to_job-job_to_record, record_to_job-update_job_record,
}
use task_platform.Db.Jobs.{has_id, has_name, get, add, read_row, get_by_name, update}

-- The constructors of the job and of its policy accept it.
abbrev pub IsAccepted : Job → Type 0
IsAccepted j = (validate_policy j.retry_policy ≡ ok j.retry_policy) × (validate_job j ≡ ok j)

validate_policy_result :
    (p : RetryPolicy) → (validate_policy p ≡ ok p) ⊎ (validate_policy p ≡ err value_error)
unfolding validate_policy
validate_policy_result p = ground arith

validate_job_result : (j : Job) → (validate_job j ≡ ok j) ⊎ (validate_job j ≡ err value_error)
unfolding validate_job
validate_job_result j = ground arith

pub validate_policy-eq-ok :
    (p q : RetryPolicy) → validate_policy p ≡ ok q → (q ≡ p) × (validate_policy q ≡ ok q)
validate_policy-eq-ok p q h = elim (validate_policy_result p) [
  | inl e ↦ (cc (h, e), cc (h, e))
  | inr e ↦ cc (h, e)
]

pub validate_job-eq-ok : (j k : Job) → validate_job j ≡ ok k → (k ≡ j) × (validate_job k ≡ ok k)
validate_job-eq-ok j k h = elim (validate_job_result j) [
  | inl e ↦ (cc (h, e), cc (h, e))
  | inr e ↦ cc (h, e)
]

-- A job whose row was appended is read under its id.
pub get-appended :
    (job : Job) (db : Database)
    → IsAccepted job
    → any (has_id job.id) db.jobs ≡ false
    → let after = record db { jobs = db.jobs ++ job_to_record job ∷ [] } in
      get job.id after ≡ (ok (some job), after)
unfolding get job_to_record
get-appended job db accepted no_id =
    rw
      (
        find?-snoc (has_id job.id) db.jobs (job_to_record job),
        no_id,
        text_eq_self job.id,
        record_to_job-job_to_record job accepted.0 accepted.1,
      )
      refl

pub add-fresh :
    (job : Job) (db : Database)
    → any (has_id job.id) db.jobs ≡ false
    → any (has_name job.name) db.jobs ≡ false
    → add job db ≡ (ok tt, record db { jobs = db.jobs ++ job_to_record job ∷ [] })
unfolding add
add-fresh job db no_id no_name = rw (no_id, no_name) refl

pub get_by_name-absent :
    (name : Text) (db : Database)
    → any (has_name name) db.jobs ≡ false
    → get_by_name name db ≡ (ok none, db)
unfolding get_by_name
get_by_name-absent name db h = elim (Option-cases (find? (has_name name) db.jobs)) [
  | inl e ↦ rw e refl
  | inr (r, e) ↦ cc (h, any-eq-find? (has_name name) db.jobs, ap is_some e)
]

-- A job that is read by its name is there.
pub get_by_name-is_some :
    (name : Text) (db : Database) (existing : Option Job)
    → get_by_name name db ≡ (ok existing, db)
    → is_some existing ≡ any (has_name name) db.jobs
unfolding get_by_name
get_by_name-is_some name db existing h =
    go (find? (has_name name) db.jobs) (ap (λ (p : Result (Option Job) × Database). p.0) h)
    ∙ sym (any-eq-find? (has_name name) db.jobs)
  where
    go : (o : Option JobRecord) → read_row o ≡ ok existing → is_some existing ≡ is_some o
    go o e = ground arith

abbrev policy_of_row : JobRecord → RetryPolicy
policy_of_row r = record {
  max_attempts = r.retry_max_attempts;
  backoff = r.retry_backoff;
  base_delay_seconds = r.retry_base_delay_seconds;
  max_delay_seconds = r.retry_max_delay_seconds;
}

abbrev job_of_row : JobRecord → RetryPolicy → Job
job_of_row r policy = record {
  name = r.name;
  job_type = r.job_type;
  handler = r.handler;
  id = r.id;
  timeout_seconds = r.timeout_seconds;
  retry_policy = policy;
  enabled = r.enabled;
  created_at = r.created_at;
}

pub record_to_job-eq-ok :
    (r : JobRecord) (j : Job)
    → record_to_job r ≡ ok j
    → IsAccepted j × (j.id ≡ r.id) × (j.created_at ≡ r.created_at)
unfolding record_to_job
record_to_job-eq-ok r j h =
    let (policy, checked, rest) =
      and_then-eq-ok (validate_policy (policy_of_row r)) (λ p. validate_job (job_of_row r p)) h in
    let (same, valid) = validate_policy-eq-ok (policy_of_row r) policy checked in
    let (made, accepted) = validate_job-eq-ok (job_of_row r policy) j rest in
    (
      (
        ap (λ (k : Job). validate_policy k.retry_policy) made
            ∙ valid
            ∙ ap (λ (k : Job). ok k.retry_policy) (sym made),
        accepted,
      ),
      ap (λ (k : Job). k.id) made,
      ap (λ (k : Job). k.created_at) made,
    )

-- The row of a job that is read.
pub get-eq-ok :
    (job_id : Text) (db : Database) (job : Job)
    → get job_id db ≡ (ok (some job), db)
    → (r : JobRecord) × (find? (has_id job_id) db.jobs ≡ some r)
      × (record_to_job r ≡ ok job)
      × (r.id ≡ job_id)
unfolding get
get-eq-ok job_id db job h =
    go (find? (has_id job_id) db.jobs) refl (ap (λ (p : Result (Option Job) × Database). p.0) h)
  where
    go :
        (o : Option JobRecord)
        → find? (has_id job_id) db.jobs ≡ o
        → read_row o ≡ ok (some job)
        → (r : JobRecord) × (find? (has_id job_id) db.jobs ≡ some r)
          × (record_to_job r ≡ ok job)
          × (r.id ≡ job_id)
    go none e k = cc
    go (some r) e k = (
      r,
      e,
      (let (a, f, g) = and_then-eq-ok (record_to_job r) (λ j. ok (some j)) k in cc (f, g)),
      (text_eq_iff r.id job_id).0 (find?-sound (has_id job_id) db.jobs e),
    )

abbrev pub with_update : Database → Job → Database
with_update db job = record db {
  jobs = update_first (has_id job.id) (λ o. update_job_record o job) db.jobs;
}

-- A job that is read may be written back with other values, under the same id, if its constructors
-- accept it and no other job has its name: it is then read as it was written.
pub get-update :
    (db : Database) (before job : Job)
    → get job.id db ≡ (ok (some before), db)
    → job.created_at ≡ before.created_at
    → IsAccepted job
    → any (λ o. has_name job.name o && not (has_id job.id o)) db.jobs ≡ false
    → (update job db ≡ (ok tt, with_update db job))
      × (get job.id (with_update db job) ≡ (ok (some job), with_update db job))
unfolding update get update_job_record job_to_record
get-update db before job h same_time accepted alone =
    let (r, found, read, id) = get-eq-ok job.id db before h in
    let (_, _, time) = record_to_job-eq-ok r before read in
    (
      rw (found, alone) refl,
      rw
          (
            find?-update_first_self (has_id job.id) (λ o. update_job_record o job) db.jobs
                (λ o p. p),
            found,
            record_to_job-update_job_record r job,
            id,
            sym time,
            sym same_time,
            record_to_job-job_to_record job accepted.0 accepted.1,
          )
          refl,
    )

-- Every other job is read as before.
pub get-with_update :
    (db : Database) (job : Job) (other : Text)
    → text_eq other job.id ≡ false
    → (get other (with_update db job)).0 ≡ (get other db).0
unfolding get update_job_record
get-with_update db job other apart = ap read_row (
    find?-update_first_other (has_id job.id) (has_id other) (λ o. update_job_record o job) db.jobs
      (λ r p.
        ground (arith, text_eq_iff r.id job.id, text_eq_iff r.id other, text_eq_iff other job.id)))
