-- ===== src/Alerts/Failures.antt =====
-- About the alert on consecutive failures of alerts.py.
use task_platform.Common.{
  codes, Bool, all, ◌==◌, ℕ, zero, suc, ◌≤◌, ◌≡◌, refl, ap, ◌&&◌, List, [], ◌∷◌, arith, length,
  take, text_eq,
}
use task_platform.Domain.Status.{JobStatus, failed, status_eq}
use task_platform.Domain.Job.{Job}
use task_platform.Db.Tables.{Database}
use task_platform.Db.Executions
use task_platform.Db.Jobs
use task_platform.Db.Statistics
use task_platform.Alerts.{Alert, AlertRules}

-- `n` times FAILED.
abbrev pub all_failed : ℕ → List JobStatus
all_failed zero = []
all_failed (suc n) = failed ∷ all_failed n

take-take : (n m : ℕ) (xs : List JobStatus) → n ≤ m → take n (take m xs) ≡ take n xs
take-take zero m xs h = refl
take-take (suc n) zero xs h = absurd (omega arith)
take-take (suc n) (suc m) [] h = refl
take-take (suc n) (suc m) (x ∷ xs) h = ap (λ t. x ∷ t) (take-take n m xs (omega arith))

-- The most recent final results of the job, as many as the rule asks for, are all there and all FAILED.
abbrev pub is_failing : AlertRules → Database → Job → Bool
is_failing rules db job =
    let recent = Executions.recent_final_statuses job.id rules.consecutive_failures db in
    (length recent == rules.consecutive_failures) && all (status_eq failed) recent

abbrev pub failure_rule : Alert → Bool
failure_rule a = text_eq a.rule (codes "consecutive_failures")
