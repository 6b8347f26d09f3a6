-- ===== src/Db/Executions/Upsert.antt =====
-- What is read of an attempt after it was saved.
use task_platform.Common.{
  ℕ, ◌+◌, ◌≡◌, ap, inl, inr, Bool, true, false, ◌&&◌, Option, none, some, [], ◌∷◌, ◌++◌, arith,
  ◌==◌, if◌then◌else◌, Bool-cases, Option-cases, any, find?, Text, text_eq, text_eq_iff,
  text_eq_self,
}
use task_platform.Domain.Effects.{ok}
use task_platform.Domain.Execution.{JobExecution}
use task_platform.Db.Tables.{JobRecord, ExecutionRecord, Database, is_attempt, update_first}
use task_platform.Db.Tables.Rows.{
  any-eq-find?, find?-snoc, find?-update_first_self, find?-update_first_other, is_attempt_apart,
  find?-sound,
}
use task_platform.Db.Mappers.{execution_to_record, update_execution_record, record_to_execution}
use task_platform.Db.Executions.{get_attempt, upsert}

abbrev pub job_known : Text → Database → Bool
job_known job_id db = any (λ (j : JobRecord). text_eq j.id job_id) db.jobs

-- What is read after `e` was saved over `old`: the request to cancel and the job are those of the
-- row that was there.
abbrev pub saved : Option JobExecution → JobExecution → JobExecution
saved none e = e
saved (some old) e = record e { cancel_requested = old.cancel_requested; job_id = old.job_id }

abbrev read : Option ExecutionRecord → Option JobExecution
read o = elim o [ none ↦ none | some r ↦ some (record_to_execution r) ]

module _ (e : JobExecution) (db : Database) where
  abbrev own : ExecutionRecord → Bool
  own = is_attempt e.run_id e.attempt

  rows-upsert_new :
      job_known e.job_id db ≡ true
      → find? own db.executions ≡ none
      → upsert e db ≡ (
        ok tt,
        record db {
          executions = db.executions ++ execution_to_record db.next_execution_id e ∷ [];
          next_execution_id = db.next_execution_id + 1;
        },
      )
  unfolding upsert
  rows-upsert_new known new = ground (arith, any-eq-find? own db.executions)

  rows-upsert_old :
      (old : ExecutionRecord)
      → find? own db.executions ≡ some old
      → upsert e db ≡ (
        ok tt,
        record db {
          executions = update_first own (λ r. update_execution_record r e) db.executions;
        },
      )
  unfolding upsert
  rows-upsert_old old found = ground arith

  upsert_ok : job_known e.job_id db ≡ true → (upsert e db).0 ≡ ok tt
  upsert_ok known = elim (Option-cases (find? own db.executions)) [
    | inl new ↦ ap (λ p. p.0) (rows-upsert_new known new)
    | inr (old, found) ↦ ap (λ p. p.0) (rows-upsert_old old found)
  ]

  upsert_self_old :
      (old : ExecutionRecord)
      → find? own db.executions ≡ some old
      → get_attempt e.run_id e.attempt (upsert e db).1
        ≡ some (saved (get_attempt e.run_id e.attempt db) e)
  unfolding get_attempt record_to_execution execution_to_record update_execution_record
  upsert_self_old old found =
      let change = λ (r : ExecutionRecord). update_execution_record r e in
      rw (rows-upsert_old old found) (
        ground (
          arith,
          find?-update_first_self own change db.executions (λ r h. h),
          find?-sound own db.executions {r = old} found,
          text_eq_iff old.run_id e.run_id,
        ))

  upsert_self :
      job_known e.job_id db ≡ true
      → get_attempt e.run_id e.attempt (upsert e db).1
        ≡ some (saved (get_attempt e.run_id e.attempt db) e)
  unfolding get_attempt record_to_execution execution_to_record update_execution_record
  upsert_self known = elim (Option-cases (find? own db.executions)) [
    | inl new ↦ rw (rows-upsert_new known new) (
        ground (
          arith,
          find?-snoc own db.executions (execution_to_record db.next_execution_id e),
          any-eq-find? own db.executions,
          text_eq_self e.run_id,
        ))
    | inr (old, found) ↦ upsert_self_old old found
  ]

  upsert_other :
      (run_id : Text) (attempt : ℕ)
      → job_known e.job_id db ≡ true
      → (text_eq run_id e.run_id && (attempt == e.attempt)) ≡ false
      → get_attempt run_id attempt (upsert e db).1 ≡ get_attempt run_id attempt db
  unfolding get_attempt record_to_execution execution_to_record update_execution_record
  upsert_other run_id attempt known ne = elim (Option-cases (find? own db.executions)) [
    | inl new ↦ rw (rows-upsert_new known new) (
        ground (
          arith,
          find?-snoc (is_attempt run_id attempt) db.executions
              (execution_to_record db.next_execution_id e),
          any-eq-find? (is_attempt run_id attempt) db.executions,
          text_eq_iff run_id e.run_id,
          text_eq_iff e.run_id run_id,
        ))
    | inr (old, found) ↦ rw (rows-upsert_old old found) (
        ap read (
          find?-update_first_other own (is_attempt run_id attempt)
            (λ r. update_execution_record r e) db.executions
            λ r h. (
              is_attempt_apart e.run_id run_id e.attempt attempt r ne h,
              is_attempt_apart e.run_id run_id e.attempt attempt r ne h,
            )))
  ]

-- Saving an attempt of a known job does not raise. Afterwards the attempt is read as it was saved,
-- but for a request to cancel, which is kept; every other attempt is read as before.
pub get_attempt-upsert :
    (e : JobExecution) (run_id : Text) (attempt : ℕ) (db : Database)
    → job_known e.job_id db ≡ true
    → ((upsert e db).0 ≡ ok tt)
      × (get_attempt run_id attempt (upsert e db).1 ≡ (
          if text_eq run_id e.run_id && (attempt == e.attempt)
          then some (saved (get_attempt e.run_id e.attempt db) e)
          else get_attempt run_id attempt db))
get_attempt-upsert e run_id attempt db known = (
  upsert_ok e db known,
  elim (Bool-cases (text_eq run_id e.run_id && (attempt == e.attempt))) [
    | inl same ↦
        let runs : run_id ≡ e.run_id = (text_eq_iff run_id e.run_id).0 (ground arith) in
        let attempts : attempt ≡ e.attempt = ground arith in
        rw (same, runs, attempts) (upsert_self e db known)
    | inr other ↦ rw other (upsert_other e db run_id attempt known other)
  ],
)

-- A save that returned is what is read afterwards.
pub upsert-saved :
    (e : JobExecution) (db : Database)
    → (upsert e db).0 ≡ ok tt
    → get_attempt e.run_id e.attempt (upsert e db).1
      ≡ some (saved (get_attempt e.run_id e.attempt db) e)
unfolding upsert
upsert-saved e db h = elim (Bool-cases (job_known e.job_id db)) [
  | inl known ↦ upsert_self e db known
  | inr unknown ↦ elim (Option-cases (find? (own e db) db.executions)) [
    | inl new ↦ absurd (refused unknown new)
    | inr (old, found) ↦ upsert_self_old e db old found
  ]
]
  where
    refused : job_known e.job_id db ≡ false → find? (own e db) db.executions ≡ none → ⊥
    refused unknown new = ground (arith, any-eq-find? (own e db) db.executions)
