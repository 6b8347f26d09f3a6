-- ===== src/Db/Executions/Claims.antt =====
-- About `claim_retry` of infrastructure/db/repositories.py.
use mathlib.Core.Path.{subst₂}
use task_platform.Common.{
  ℕ, ◌≡◌, refl, inl, inr, Bool, false, none, some, List, [], ◌∷◌, arith, if◌then◌else◌, Bool-cases,
  is_some, any, find?, Text, text_eq_iff,
}
use task_platform.Domain.Effects.{ok}
use task_platform.Db.Tables.{ExecutionRecord, Database, is_attempt, update_where, count_where}
use task_platform.Db.Tables.Rows.{IsKeyed}
use task_platform.Db.Executions.{find_attempt, is_scheduled_attempt, claim_retry}

module _ (run_id : Text) (attempt : ℕ) where
  abbrev waiting : ExecutionRecord → Bool
  waiting = is_scheduled_attempt run_id attempt

  count_cleared :
      (rows : List ExecutionRecord)
      → count_where waiting (update_where waiting (λ r. record r { next_retry_at = none }) rows) ≡ 0
  count_cleared [] = refl
  count_cleared (r ∷ rows) = ground (arith, count_cleared rows)

  -- Of two claims of one retry, in whatever order they come to the database, at most the first wins.
  pub claim_retry_once :
      (db : Database) → (claim_retry run_id attempt (claim_retry run_id attempt db).1).0 ≡ ok false
  unfolding claim_retry
  claim_retry_once db = rw (count_cleared db.executions)

  count_absent :
      (rows : List ExecutionRecord)
      → any (is_attempt run_id attempt) rows ≡ false
      → count_where waiting rows ≡ 0
  count_absent [] h = refl
  count_absent (r ∷ rows) h = ground (arith, count_absent rows)

  count_present :
      (rows : List ExecutionRecord)
      → IsKeyed rows
      → count_where waiting rows ≡ (elim (find? (is_attempt run_id attempt) rows) [
        | none ↦ 0
        | some r ↦ if is_some r.next_retry_at then 1 else 0
      ])
  count_present [] h = refl
  count_present (r ∷ rows) h = elim (Bool-cases (is_attempt run_id attempt r)) [
    | inl own ↦
        let runs : r.run_id ≡ run_id = (text_eq_iff r.run_id run_id).0 (ground arith) in
        let attempts : r.attempt ≡ attempt = ground arith in
        let alone : any (is_attempt run_id attempt) rows ≡ false =
          subst₂ (λ k n. any (is_attempt k n) rows ≡ false) runs attempts h.0 in
        ground (arith, count_absent rows alone)
    | inr other ↦ ground (arith, count_present rows h.1)
  ]

-- A claim wins exactly when the attempt has a row with a retry time; it clears that time, so that
-- of two claims, in whatever order they reach the database, at most one wins.
pub claim_retry_wins :
    (run_id : Text) (attempt : ℕ) (db : Database)
    → IsKeyed db.executions
    → ((claim_retry run_id attempt db).0
        ≡ ok (elim (find_attempt run_id attempt db.executions) [
          | none ↦ false
          | some r ↦ is_some r.next_retry_at
        ]))
      × ((claim_retry run_id attempt (claim_retry run_id attempt db).1).0 ≡ ok false)
unfolding claim_retry find_attempt
claim_retry_wins run_id attempt db h = (
  ground (arith, count_present run_id attempt db.executions h),
  claim_retry_once run_id attempt db,
)
