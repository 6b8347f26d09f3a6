-- ===== src/Domain/Cancel/Tokens.antt =====
-- About requests to cancel and tokens of domain/cancel.py.
use task_platform.Common.{ℕ, ◌≡◌, ◌≢◌, true, false, arith, Text, codes, text_eq_iff, text_eq_self}
use task_platform.Domain.Effects.{job_canceled, err}
use task_platform.Common.Dict
use task_platform.Common.Dict.{Dict, Key, text_key, nat_key, dict_laws, IsDict}
use task_platform.Domain.Cancel.{ActiveRuns, check, register, unregister, cancel}

-- While a run is registered its cancellation is answered with true and fires its token, so that the
-- next check raises, and every other token stays as it was.
pub cancel-register :
    (run_id : Text) (token other : ℕ) (r : ActiveRuns)
    → other ≢ token
    → let (found, after) = cancel run_id (register run_id token r) in
      (found ≡ true)
      × (check token after ≡ err (job_canceled (codes "job canceled")))
      × (after.fired other ≡ r.fired other)
unfolding cancel register check
cancel-register run_id token other r ne =
    ground (arith, Dict.get-put r.tokens run_id run_id token, text_eq_self run_id)

-- After a run is unregistered a request to cancel it finds nothing and changes nothing, while the
-- other runs are found as before.
pub cancel-unregister :
    (run_id other : Text) (r : ActiveRuns)
    → other ≢ run_id
    → (cancel run_id (unregister run_id r) ≡ (false, unregister run_id r))
      × ((cancel other (unregister run_id r)).0 ≡ (cancel other r).0)
unfolding cancel unregister
cancel-unregister run_id other r ne = (
  ground (arith, Dict.get-pop r.tokens run_id run_id, text_eq_self run_id),
  ground (arith, Dict.get-pop r.tokens run_id other, text_eq_iff run_id other),
)
