-- ===== src/Domain/Cancel.antt =====
-- domain/cancel.py: cancel tokens, and the table of the runs that this process executes. A token is
-- a shared object: the table holds its number, and `fired` says which tokens have been cancelled.
pub mod Tokens
use task_platform.Common.{
  ℕ, zero, suc, ◌+◌, ◌-◌, ◌*◌, ◌/◌, ◌%◌, ◌^◌, ◌≤◌, ◌<◌, ◌≡◌, refl, sym, ap, ◌∙◌, ◌≢◌, ◌↔◌, ◌⊎◌, inl,
  inr, Bool, true, false, not, ◌&&◌, ◌||◌, Option, none, some, List, [], ◌∷◌, ◌++◌, map, arith, ltb,
  leb, ◌==◌, if◌then◌else◌, ltb→lt, lt→ltb, leb→le, le→leb, ==_iff, Bool-cases, Option-cases,
  is_some, length, get_last?, take, drop, filter, any, all, find?, All, length-append, ℤ, pos,
  negsuc, pos_part, neg_part, sub_ℕ, ◌+ℤ◌, ◌-ℤ◌, ◌*ℤ◌, ◌≤ℤ◌, ltb_ℤ, Text, codes, text_eq,
  text_eq_iff, text_eq_self, is_blank,
}
use task_platform.Domain.Effects.{
  Error, value_error, assertion_error, invalid_transition, job_not_registered, duplicate_job_name,
  entity_not_found, integrity_error, invalid_message, job_canceled, handler_timeout, handler_error,
  queue_error, Result, ok, err, Action, and_then, pure, raise, lift, gets, modify, continue, ◌>>=◌,
  ◌>>◌, >>=-eq-ok, on_part,
}
use task_platform.Common.Dict
use task_platform.Common.Dict.{Dict, Key, text_key, nat_key, dict_laws, IsDict}

pub record ActiveRuns : Type 0 where
  pub tokens : Dict Text ℕ
  pub fired : ℕ → Bool
  pub next_token : ℕ

abbrev pub no_runs : ActiveRuns
no_runs = record { tokens = []; fired = λ t. false; next_token = 0 }

-- `CancelToken()`: a new token, not cancelled.
unfoldable pub new_token : ActiveRuns → ActiveRuns × ℕ
new_token r = (record r { next_token = r.next_token + 1 }, r.next_token)

-- `CancelToken.cancel`
unfoldable pub fire : ℕ → ActiveRuns → ActiveRuns
fire token r = record r { fired = λ t. if t == token then true else r.fired t }

-- `CancelToken.check`
unfoldable pub check : ℕ → ActiveRuns → Result Unit
check token r = if r.fired token then err (job_canceled (codes "job canceled")) else ok tt

unfoldable pub register : Text → ℕ → ActiveRuns → ActiveRuns
register run_id token r = record r { tokens = Dict.put r.tokens run_id token }

unfoldable pub unregister : Text → ActiveRuns → ActiveRuns
unregister run_id r = record r { tokens = Dict.pop r.tokens run_id }

fire_found : Option ℕ → ActiveRuns → Bool × ActiveRuns
unfolding fire
fire_found none r = (false, r)
fire_found (some token) r = (true, fire token r)

unfoldable pub cancel : Text → ActiveRuns → Bool × ActiveRuns
unfolding fire_found
cancel run_id r = fire_found (Dict.get r.tokens run_id) r

unfoldable pub active_ids : ActiveRuns → List Text
active_ids r = map (λ e. e.0) r.tokens
