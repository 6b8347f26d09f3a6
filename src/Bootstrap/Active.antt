-- ===== src/Bootstrap/Active.antt =====
-- About `load_active_schedules` of bootstrap.py.
use task_platform.Common.{
  ◌≡◌, refl, sym, ap, ◌∙◌, inl, inr, Bool, true, false, List, [], ◌∷◌, ◌++◌, arith, if◌then◌else◌,
  Bool-cases, filter, All, Text, text_eq, text_eq_iff,
}
use task_platform.Domain.Effects.{
  Result, ok, err, injective_ok, Action, and_then, and_then-eq-ok, pure, continue, ◌>>=◌,
}
use task_platform.Domain.Job.{Job}
use task_platform.Domain.Schedule.{Schedule, validate_schedule}
use task_platform.Db.Tables.{ScheduleRecord, Database}
use task_platform.Db.Mappers.{record_to_schedule}
use task_platform.Db.Jobs
use task_platform.Db.Schedules
use task_platform.Bootstrap.{pairs_with, load_pairs, load_active_schedules}

-- A job and a schedule of it, both enabled.
abbrev pub IsActive : Job × Schedule → Type 0
IsActive p = (p.0.enabled ≡ true) × (p.1.enabled ≡ true) × (p.1.job_id ≡ p.0.id)

All-append : {A : Type 0} (P : A → Type 0) (xs ys : List A) → All P xs → All P ys → All P (xs ++ ys)
All-append P [] ys h k = k
All-append P (x ∷ xs) ys (p, h) k = (p, All-append P xs ys h k)

abbrev IsOf : Text → Schedule → Type 0
IsOf job_id s = s.job_id ≡ job_id

record_to_schedule-job_id :
    (r : ScheduleRecord) (s : Schedule) → record_to_schedule r ≡ ok s → s.job_id ≡ r.job_id
unfolding record_to_schedule validate_schedule
record_to_schedule-job_id r s h = ground arith

abbrev read_of : Text → List ScheduleRecord → Result (List Schedule)
read_of job_id rows =
    Schedules.read_rows (filter (λ (r : ScheduleRecord). text_eq r.job_id job_id) rows)

read_of-cons :
    (job_id : Text) (r : ScheduleRecord) (rows : List ScheduleRecord)
    → text_eq r.job_id job_id ≡ true
    → read_of job_id (r ∷ rows)
      ≡ and_then
          (record_to_schedule r)
          (λ s. and_then (read_of job_id rows) (λ rest. ok (s ∷ rest)))
read_of-cons job_id r rows e = rw e refl

read_of-skip :
    (job_id : Text) (r : ScheduleRecord) (rows : List ScheduleRecord)
    → text_eq r.job_id job_id ≡ false
    → read_of job_id (r ∷ rows) ≡ read_of job_id rows
read_of-skip job_id r rows e = rw e refl

read_rows-IsOf :
    (job_id : Text) (rows : List ScheduleRecord) (schedules : List Schedule)
    → Schedules.read_rows (filter (λ (r : ScheduleRecord). text_eq r.job_id job_id) rows)
      ≡ ok schedules
    → All (IsOf job_id) schedules
read_rows-IsOf job_id [] schedules h = rw⁻¹ (injective_ok h) tt
read_rows-IsOf job_id (r ∷ rows) schedules h = elim (Bool-cases (text_eq r.job_id job_id)) [
  | inl e ↦
      let (s, first, k) =
        and_then-eq-ok (record_to_schedule r)
          (λ s. and_then (read_of job_id rows) (λ rest. ok (s ∷ rest)))
          (sym (read_of-cons job_id r rows e) ∙ h) in
      let (rest, others, m) = and_then-eq-ok (read_of job_id rows) (λ rest. ok (s ∷ rest)) k in
      rw⁻¹ (injective_ok m) (
        record_to_schedule-job_id r s first ∙ (text_eq_iff r.job_id job_id).0 e,
        read_rows-IsOf job_id rows rest others,
      )
  | inr e ↦ read_rows-IsOf job_id rows schedules (sym (read_of-skip job_id r rows e) ∙ h)
]

pairs_with-IsActive :
    (job : Job) (schedules : List Schedule)
    → job.enabled ≡ true
    → All (IsOf job.id) schedules
    → All IsActive (pairs_with job schedules)
pairs_with-IsActive job [] on all_of = tt
pairs_with-IsActive job (s ∷ schedules) on (of, all_of) = elim (Bool-cases s.enabled) [
  | inl e ↦ rw e ((on, refl, of), pairs_with-IsActive job schedules on all_of)
  | inr e ↦ rw e (pairs_with-IsActive job schedules on all_of)
]

abbrev result_of : {A : Type 0} → Result A × Database → Result A
result_of p = p.0

load_pairs-on :
    (job : Job) (jobs : List Job) (db : Database)
    → job.enabled ≡ true
    → (load_pairs (job ∷ jobs) db).0
      ≡ and_then (read_of job.id db.schedules) (λ schedules.
        and_then (load_pairs jobs db).0 (λ rest. ok (pairs_with job schedules ++ rest)))
unfolding Schedules.list_by_job
load_pairs-on job jobs db e =
    ap (λ (b : Bool). result_of ((if b then with_schedules else load_pairs jobs) db)) e
    ∙ by_schedules (read_of job.id db.schedules)
  where
    with_schedules : Action Database (List (Job × Schedule))
    with_schedules = Schedules.list_by_job job.id >>= λ schedules.
        load_pairs jobs >>= λ rest. pure (pairs_with job schedules ++ rest)

    by_rest :
        (schedules : List Schedule) (r : Result (List (Job × Schedule)) × Database)
        → result_of (continue r.0 (λ rest. pure (pairs_with job schedules ++ rest)) r.1)
          ≡ and_then r.0 (λ rest. ok (pairs_with job schedules ++ rest))
    by_rest schedules (ok rest, t) = refl
    by_rest schedules (err x, t) = refl

    by_schedules :
        (r : Result (List Schedule))
        → result_of (
            continue r
              (λ schedules. load_pairs jobs >>= λ rest. pure (pairs_with job schedules ++ rest))
              db)
          ≡ and_then r (λ schedules.
            and_then (load_pairs jobs db).0 (λ rest. ok (pairs_with job schedules ++ rest)))
    by_schedules (ok schedules) = by_rest schedules (load_pairs jobs db)
    by_schedules (err x) = refl

load_pairs-off :
    (job : Job) (jobs : List Job) (db : Database)
    → job.enabled ≡ false
    → (load_pairs (job ∷ jobs) db).0 ≡ (load_pairs jobs db).0
load_pairs-off job jobs db e = rw e refl

load_pairs-IsActive :
    (jobs : List Job) (db : Database) (pairs : List (Job × Schedule))
    → (load_pairs jobs db).0 ≡ ok pairs
    → All IsActive pairs
load_pairs-IsActive [] db pairs h = rw⁻¹ (injective_ok h) tt
load_pairs-IsActive (job ∷ jobs) db pairs h = elim (Bool-cases job.enabled) [
  | inl e ↦
      let (schedules, read, k) =
        and_then-eq-ok (read_of job.id db.schedules)
          (λ schedules.
            and_then (load_pairs jobs db).0 (λ rest. ok (pairs_with job schedules ++ rest)))
          (sym (load_pairs-on job jobs db e) ∙ h) in
      let (rest, others, m) =
        and_then-eq-ok (load_pairs jobs db).0 (λ rest. ok (pairs_with job schedules ++ rest)) k in
      rw⁻¹ (injective_ok m) (
        All-append IsActive (pairs_with job schedules) rest
          (pairs_with-IsActive job schedules e (read_rows-IsOf job.id db.schedules schedules read))
          (load_pairs-IsActive jobs db rest others))
  | inr e ↦ load_pairs-IsActive jobs db pairs (sym (load_pairs-off job jobs db e) ∙ h)
]

-- What load_active_schedules returns holds only jobs that are enabled, each with a schedule of that job
-- that is enabled, when it returns.
pub load_active_schedules-eq-ok :
    (db : Database) (pairs : List (Job × Schedule))
    → (load_active_schedules db).0 ≡ ok pairs
    → All IsActive pairs
unfolding load_active_schedules Jobs.list_all
load_active_schedules-eq-ok db pairs h = by_jobs (Jobs.read_rows (Jobs.in_order db.jobs)) h
  where
    by_jobs :
        (r : Result (List Job))
        → result_of (continue r load_pairs db) ≡ ok pairs
        → All IsActive pairs
    by_jobs (ok jobs) k = load_pairs-IsActive jobs db pairs k
    by_jobs (err x) k = cc
