-- ===== src/Api/Jobs/Created.antt =====
-- About POST /api/v1/jobs of api/routers/jobs.py.
use task_platform.Common.{
  ◌⊎◌, ◌≡◌, refl, sym, ap, ◌∙◌, inl, inr, Bool, true, false, not, Option, some, [], ◌∷◌, ◌++◌,
  arith, if◌then◌else◌, Bool-cases, any, pos, ltb_ℤ, Text, codes, is_blank,
}
use task_platform.Domain.Effects.{value_error, ok, err}
use task_platform.Domain.Execution.{Instant}
use task_platform.Domain.Retry.{RetryPolicy, validate_policy}
use task_platform.Domain.Job.{Job, validate_job}
use task_platform.Db.Tables.{Database}
use task_platform.Db.Mappers.{job_to_record}
use task_platform.Db.Jobs
use task_platform.Db.Jobs.Stored.{
  IsAccepted, get-appended, add-fresh, get_by_name-absent, get_by_name-is_some,
}
use task_platform.Api.Schemas.{
  RetryPolicyIn, JobCreate, is_valid_policy, validate_create, to_policy, JobResponse, is_valid_name,
}
use task_platform.Api.Errors.{
  Response, replied, refused, respond, respond-eq-ok, respond-eq-value_error, respond-eq-api_error,
}
use task_platform.Api.Jobs.{
  name_conflict, handler_not_registered, get_or_404, create_job, get_job, new_job,
}
use task_platform.Registry
use task_platform.Registry.{TaskRegistry}

-- The policy and the job that a request asks for.
abbrev pub policy_of : RetryPolicyIn → RetryPolicy
policy_of p = record {
  max_attempts = p.max_attempts;
  backoff = p.backoff;
  base_delay_seconds = p.base_delay_seconds;
  max_delay_seconds = p.max_delay_seconds;
}

abbrev pub job_of : Text → Instant → JobCreate → Job
job_of new_id now c = record {
  name = c.name;
  job_type = c.job_type;
  handler = c.handler;
  id = new_id;
  timeout_seconds = c.timeout_seconds;
  retry_policy = policy_of c.retry_policy;
  enabled = c.enabled;
  created_at = now;
}

abbrev pub with_job : Database → Job → Database
with_job db j = record db { jobs = db.jobs ++ job_to_record j ∷ [] }

-- The job that has the name of the request, if there is one, can be read.
abbrev pub IsReadable : Text → Database → Type 0
IsReadable name db = (existing : Option Job) × (Jobs.get_by_name name db ≡ (ok existing, db))

is_valid_policy-accepted :
    (p : RetryPolicyIn)
    → is_valid_policy p ≡ true
    → validate_policy (policy_of p) ≡ ok (policy_of p)
unfolding is_valid_policy validate_policy
is_valid_policy-accepted p h = ground arith

validate_create-parts :
    (strip : Text → Text) (c payload : JobCreate)
    → validate_create strip c ≡ some payload
    → (payload.name ≡ strip c.name)
      × (is_valid_name payload.name ≡ true)
      × (ltb_ℤ (pos 0) payload.timeout_seconds ≡ true)
      × (is_valid_policy payload.retry_policy ≡ true)
unfolding validate_create
validate_create-parts strip c payload h = ground arith

job_of-IsAccepted :
    (strip : Text → Text) (new_id : Text) (now : Instant) (c payload : JobCreate)
    → validate_create strip c ≡ some payload
    → is_blank payload.name ≡ false
    → IsAccepted (job_of new_id now payload)
unfolding validate_job
job_of-IsAccepted strip new_id now c payload h not_blank =
    let (named, valid, later, policy) = validate_create-parts strip c payload h in
    (is_valid_policy-accepted payload.retry_policy policy, rw (not_blank, later) refl)

-- A name of nothing but spaces that the validation lets pass is refused by the constructor of the job.
create_job-blank :
    (strip : Text → Text) (registry : TaskRegistry) (new_id : Text) (now : Instant)
    (c payload : JobCreate) (db : Database)
    → validate_create strip c ≡ some payload
    → is_blank payload.name ≡ true
    → Registry.is_registered payload.handler registry ≡ true
    → any (Jobs.has_name payload.name) db.jobs ≡ false
    → (create_job registry new_id now payload db).0 ≡ err value_error
unfolding create_job new_job to_policy validate_job
create_job-blank strip registry new_id now c payload db h blank known no_name =
    let (named, valid, later, policy) = validate_create-parts strip c payload h in
    rw
      (
        known,
        get_by_name-absent payload.name db no_name,
        is_valid_policy-accepted payload.retry_policy policy,
        blank,
      )
      refl

create_job-fresh :
    (registry : TaskRegistry) (new_id : Text) (now : Instant) (payload : JobCreate) (db : Database)
    → IsAccepted (job_of new_id now payload)
    → Registry.is_registered payload.handler registry ≡ true
    → any (Jobs.has_id new_id) db.jobs ≡ false
    → any (Jobs.has_name payload.name) db.jobs ≡ false
    → create_job registry new_id now payload db
      ≡ (ok (job_of new_id now payload), with_job db (job_of new_id now payload))
unfolding create_job new_job to_policy
create_job-fresh registry new_id now payload db accepted known new_one no_name =
    rw
      (
        known,
        get_by_name-absent payload.name db no_name,
        accepted.0,
        accepted.1,
        add-fresh (job_of new_id now payload) db new_one no_name,
      )
      refl

create_job-taken :
    (registry : TaskRegistry) (new_id : Text) (now : Instant) (payload : JobCreate) (db : Database)
    → Registry.is_registered payload.handler registry ≡ true
    → IsReadable payload.name db
    → any (Jobs.has_name payload.name) db.jobs ≡ true
    → (create_job registry new_id now payload db).0 ≡ err (name_conflict payload.name)
unfolding create_job
create_job-taken registry new_id now payload db known (existing, read) taken =
    rw (known, read, get_by_name-is_some payload.name db existing read, taken) refl

create_job-unknown :
    (registry : TaskRegistry) (new_id : Text) (now : Instant) (payload : JobCreate) (db : Database)
    → Registry.is_registered payload.handler registry ≡ false
    → (create_job registry new_id now payload db).0
      ≡ err (handler_not_registered 422 payload.handler)
unfolding create_job
create_job-unknown registry new_id now payload db unknown = rw unknown refl

pub get_job-found :
    (job_id : Text) (db : Database) (job : Job)
    → Jobs.get job_id db ≡ (ok (some job), db)
    → respond 200 (get_job job_id) db ≡ (replied 200 job, db)
unfolding get_job get_or_404
get_job-found job_id db job h = respond-eq-ok 200 (get_job job_id) db db job (rw h refl)

-- Given a request that passes the validation, an id that no job has and, if a job has the requested
-- name, that it can be read, a request to create a job is answered 422 when the handler is not
-- registered, 409 when the name is taken and 500 when the name is blank for str.strip though the
-- validation let it pass, each with the database as it was, and otherwise 201 with the requested job,
-- which is then added as the last row and is what a GET of its id answers.
pub create_job-get_job :
    (strip : Text → Text) (registry : TaskRegistry) (new_id : Text) (now : Instant)
    (request payload : JobCreate) (db : Database)
    → validate_create strip request ≡ some payload
    → any (Jobs.has_id new_id) db.jobs ≡ false
    → IsReadable payload.name db
    → let job = job_of new_id now payload in
      (respond 201 (create_job registry new_id now payload) db ≡ (
        if not (Registry.is_registered payload.handler registry)
        then (
          refused 422 (codes "handler_not_registered") (codes "handler 未注册: " ++ payload.handler),
          db,
        )
        else if any (Jobs.has_name payload.name) db.jobs
        then (refused 409 (codes "job_name_conflict") (codes "任务名称已存在: " ++ payload.name), db)
        else if is_blank payload.name
        then (refused 500 (codes "internal_error") (codes "服务内部错误"), db)
        else (replied 201 job, with_job db job)))
      × ((is_blank payload.name ≡ true)
          ⊎ (respond 200 (get_job new_id) (with_job db job) ≡ (replied 200 job, with_job db job)))
create_job-get_job strip registry new_id now request payload db valid new_one readable = (
  go,
  elim (Bool-cases (is_blank payload.name)) [
    | inl blank ↦ inl blank
    | inr named ↦ inr (
        get_job-found new_id (with_job db (job_of new_id now payload)) (job_of new_id now payload)
          (get-appended (job_of new_id now payload) db (accepted named) new_one))
  ],
)
  where
    accepted : is_blank payload.name ≡ false → IsAccepted (job_of new_id now payload)
    accepted named = job_of-IsAccepted strip new_id now request payload valid named

    answer : Bool → Bool → Bool → Response JobResponse × Database
    answer known taken blank =
        if not known
        then (
          refused 422 (codes "handler_not_registered") (codes "handler 未注册: " ++ payload.handler),
          db,
        )
        else if taken
        then (refused 409 (codes "job_name_conflict") (codes "任务名称已存在: " ++ payload.name), db)
        else if blank
        then (refused 500 (codes "internal_error") (codes "服务内部错误"), db)
        else (replied 201 (job_of new_id now payload), with_job db (job_of new_id now payload))

    go :
        respond 201 (create_job registry new_id now payload) db
        ≡ answer
            (Registry.is_registered payload.handler registry)
            (any (Jobs.has_name payload.name) db.jobs)
            (is_blank payload.name)
    go = elim (Bool-cases (Registry.is_registered payload.handler registry)) [
      | inr unknown ↦
          respond-eq-api_error 201 (create_job registry new_id now payload) db 422
            (codes "handler_not_registered") (codes "handler 未注册: " ++ payload.handler)
            (create_job-unknown registry new_id now payload db unknown)
          ∙ ap (λ b. answer b (any (Jobs.has_name payload.name) db.jobs) (is_blank payload.name))
              (sym unknown)
      | inl known ↦ elim (Bool-cases (any (Jobs.has_name payload.name) db.jobs)) [
        | inl taken ↦
            respond-eq-api_error 201 (create_job registry new_id now payload) db 409
              (codes "job_name_conflict") (codes "任务名称已存在: " ++ payload.name)
              (create_job-taken registry new_id now payload db known readable taken)
            ∙ cc (known, taken)
        | inr no_name ↦ elim (Bool-cases (is_blank payload.name)) [
          | inl blank ↦
              respond-eq-value_error 201 (create_job registry new_id now payload) db (
                create_job-blank strip registry new_id now request payload db valid blank known
                  no_name)
              ∙ cc (known, no_name, blank)
          | inr named ↦
              respond-eq-ok 201 (create_job registry new_id now payload) db
                (with_job db (job_of new_id now payload)) (job_of new_id now payload)
                (create_job-fresh registry new_id now payload db (accepted named) known new_one
                  no_name)
              ∙ cc (known, no_name, named)
        ]
      ]
    ]
