-- ===== src/RetrySweeper/Restored.antt =====
-- About retries of retry_sweeper.py whose message could not be published.
use mathlib.Core.Path.{subst₂, ap₂}
use task_platform.Common.{
  ℕ, ◌≡◌, refl, sym, ap, ◌∙◌, inl, inr, true, false, Option, none, some, List, [], ◌∷◌, arith,
  if◌then◌else◌, Bool-cases, is_some, any, Text, text_eq_iff, ◌==◌,
}
use task_platform.Domain.Effects.{Error, ok, err, Action, injective_ok}
use task_platform.Domain.Execution.{Instant, JobExecution}
use task_platform.Queue.Message.{TaskMessage}
use task_platform.Db.Tables.{ExecutionRecord, is_attempt, update_where, count_where}
use task_platform.Db.Tables.Rows.{IsKeyed}
use task_platform.Db.Executions.{find_attempt, is_scheduled_attempt, claim_retry, set_next_retry_at}
use task_platform.Db.Executions.Claims.{claim_retry_wins}
use task_platform.RetrySweeper.{Platform, publish_next, sweep_one}

module _ (run_id : Text) (attempt : ℕ) where
  abbrev cleared : List ExecutionRecord → List ExecutionRecord
  cleared rows =
      update_where (is_scheduled_attempt run_id attempt) (λ r. record r { next_retry_at = none })
        rows

  abbrev set_to : Option Instant → List ExecutionRecord → List ExecutionRecord
  set_to value rows =
      update_where (is_attempt run_id attempt) (λ r. record r { next_retry_at = value }) rows

  restored_absent :
      (value : Option Instant) (rows : List ExecutionRecord)
      → any (is_attempt run_id attempt) rows ≡ false
      → set_to value (cleared rows) ≡ rows
  restored_absent value [] h = refl
  restored_absent value (r ∷ rows) h = ground (arith, restored_absent value rows)

  restored_row :
      (value : Option Instant) (r : ExecutionRecord)
      → is_attempt run_id attempt r ≡ true
      → r.next_retry_at ≡ value
      → let cleared_row =
          if is_scheduled_attempt run_id attempt r then record r { next_retry_at = none } else r in
        (if is_attempt run_id attempt cleared_row
          then record cleared_row { next_retry_at = value }
          else cleared_row)
        ≡ r
  restored_row value r own h =
      let same : record r { next_retry_at = value } ≡ r =
        ap (λ v. record r { next_retry_at = v }) (sym h) in
      elim (Bool-cases (is_scheduled_attempt run_id attempt r)) [
        | inl due ↦ rw due (rw own same)
        | inr free ↦ rw free (rw own same)
      ]

  -- The row of the attempt gets back the time that was taken from it.
  restored :
      (r : ExecutionRecord) (rows : List ExecutionRecord)
      → IsKeyed rows
      → find_attempt run_id attempt rows ≡ some r
      → set_to r.next_retry_at (cleared rows) ≡ rows
  unfolding find_attempt
  restored r [] k h = cc
  restored r (o ∷ rows) k h = elim (Bool-cases (is_attempt run_id attempt o)) [
    | inl own ↦
        let runs : o.run_id ≡ run_id = (text_eq_iff o.run_id run_id).0 (ground arith) in
        let attempts : o.attempt ≡ attempt = ground arith in
        let alone : any (is_attempt run_id attempt) rows ≡ false =
          subst₂ (λ k n. any (is_attempt k n) rows ≡ false) runs attempts k.0 in
        let it : o.next_retry_at ≡ r.next_retry_at = ground arith in
        ap₂ (λ x l. x ∷ l) (restored_row r.next_retry_at o own it)
          (restored_absent r.next_retry_at rows alone)
    | inr other ↦ ap₂ (λ x l. x ∷ l) (ground arith) (restored r rows k.1 (ground arith))
  ]

module _ {Q : Type 0} (publish : TaskMessage → Action Q Unit) where
  -- If the message of a due retry cannot be published, the sweeper goes on and the database is as it
  -- was before the retry was claimed.
  pub sweep_one_restores :
      (e : JobExecution) (r : ExecutionRecord) (w : Platform Q) (error : Error) (q : Q)
      → IsKeyed w.db.executions
      → find_attempt e.run_id e.attempt w.db.executions ≡ some r
      → is_some r.next_retry_at ≡ true
      → e.next_retry_at ≡ r.next_retry_at
      → publish_next publish e w.queue ≡ (err error, q)
      → sweep_one publish e w ≡ (ok [], record w { queue = q })
  unfolding sweep_one claim_retry set_next_retry_at
  sweep_one_restores e r w error q keyed found due same unsent =
      let counted : (claim_retry e.run_id e.attempt w.db).0 ≡ ok true =
        (claim_retry_wins e.run_id e.attempt w.db keyed).0 ∙ ap ok (ground arith) in
      let won : (count_where (is_scheduled_attempt e.run_id e.attempt) w.db.executions == 1)
          ≡ true =
        injective_ok counted in
      let back : set_to e.run_id e.attempt e.next_retry_at
            (cleared e.run_id e.attempt w.db.executions)
          ≡ w.db.executions =
        ap (λ v. set_to e.run_id e.attempt v (cleared e.run_id e.attempt w.db.executions)) same
        ∙ restored e.run_id e.attempt r w.db.executions keyed found in
      rw won (
        rw unsent (
          ap (λ rows. (ok [], record w { db = record w.db { executions = rows }; queue = q }))
            back))
