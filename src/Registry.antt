-- ===== src/Registry.antt =====
-- registry.py: the handlers by name. A function is known by a number, its identity.
pub mod Lookup
use task_platform.Common.{
  ℕ, zero, suc, ◌+◌, ◌-◌, ◌*◌, ◌/◌, ◌%◌, ◌^◌, ◌≤◌, ◌<◌, ◌≡◌, refl, sym, ap, ◌∙◌, ◌≢◌, ◌↔◌, ◌⊎◌, inl,
  inr, Bool, true, false, not, ◌&&◌, ◌||◌, Option, none, some, List, [], ◌∷◌, ◌++◌, map, reverse,
  arith, ltb, leb, ◌==◌, if◌then◌else◌, ltb→lt, lt→ltb, leb→le, le→leb, ==_iff, tests, Bool-cases,
  Option-cases, is_some, length, get_last?, take, drop, filter, any, all, find?, All, length-append,
  ℤ, pos, negsuc, pos_part, neg_part, sub_ℕ, ◌+ℤ◌, ◌-ℤ◌, ◌*ℤ◌, ◌≤ℤ◌, ltb_ℤ, +ℤ_parts, -ℤ_parts,
  eq_of_parts, int_laws, Text, codes, text_eq, text_eq_iff, text_eq_self, is_space, is_blank,
}
use task_platform.Common.Dict
use task_platform.Common.Dict.{Dict, Key, text_key, nat_key, dict_laws, IsDict}
use task_platform.Domain.Effects.{
  Error, value_error, assertion_error, invalid_transition, job_not_registered, duplicate_job_name,
  entity_not_found, integrity_error, invalid_message, job_canceled, handler_timeout, handler_error,
  queue_error, Result, ok, err, Action, and_then, pure, raise, lift, gets, modify, continue, ◌>>=◌,
  ◌>>◌, >>=-eq-ok, on_part,
}
use task_platform.Domain.Execution.{
  Instant, Seconds, one_second, JobExecution, new_execution, duration_seconds, JobLog,
}
use task_platform.Domain.Retry.{
  RetryPolicy, validate_policy, default_policy, min_seconds, delay_for_attempt, allows_retry,
}

pub record RegisteredHandler : Type 0 where
  pub name : Text
  pub func : ℕ
  pub description : Text
  pub timeout_seconds : Option Seconds
  pub retry_policy : Option RetryPolicy

abbrev pub TaskRegistry : Type 0
TaskRegistry = Dict Text RegisteredHandler

unfoldable pub register : RegisteredHandler → Action TaskRegistry Unit
register h r =
    if Dict.has r h.name then (err (duplicate_job_name h.name), r) else (ok tt, Dict.put r h.name h)

abbrev or_not_registered : Text → Option RegisteredHandler → Result RegisteredHandler
or_not_registered name none = err (job_not_registered name)
or_not_registered name (some h) = ok h

unfoldable pub get : Text → TaskRegistry → Result RegisteredHandler
get name r = or_not_registered name (Dict.get r name)

unfoldable pub is_registered : Text → TaskRegistry → Bool
is_registered name r = Dict.has r name

unfoldable pub list_names : TaskRegistry → List Text
list_names r = map (λ e. e.0) r

unfoldable pub unregister : Text → TaskRegistry → TaskRegistry
unregister name r = Dict.pop r name

unfoldable pub clear : TaskRegistry → TaskRegistry
clear r = []
