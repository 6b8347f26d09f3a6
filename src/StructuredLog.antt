-- ===== src/StructuredLog.antt =====
-- infrastructure/logging/structured.py: the fields of a JSON log line, and the settings. The JSON
-- library, the lower and upper case of a text and the names that logging itself gives to the
-- attributes of a record and to its levels are parameters.
pub mod Redacted
use task_platform.Common.{
  ℕ, zero, suc, ◌+◌, ◌-◌, ◌*◌, ◌/◌, ◌%◌, ◌^◌, ◌≤◌, ◌<◌, ◌≡◌, refl, sym, ap, ◌∙◌, ◌≢◌, ◌↔◌, ◌⊎◌, inl,
  inr, Bool, true, false, not, ◌&&◌, ◌||◌, Option, none, some, List, [], ◌∷◌, ◌++◌, map, reverse,
  arith, ltb, leb, ◌==◌, if◌then◌else◌, ltb→lt, lt→ltb, leb→le, le→leb, ==_iff, tests, Bool-cases,
  Option-cases, is_some, length, get_last?, take, drop, filter, any, all, find?, sort_with, All,
  length-append, ℤ, pos, negsuc, pos_part, neg_part, sub_ℕ, ◌+ℤ◌, ◌-ℤ◌, ◌*ℤ◌, ◌≤ℤ◌, ltb_ℤ, +ℤ_parts,
  -ℤ_parts, eq_of_parts, int_laws, Text, codes, text_eq, text_eq_iff, text_eq_self, text_ltb,
  remove_prefix?, is_space, is_blank,
}
use task_platform.Domain.Effects.{
  Error, value_error, assertion_error, invalid_transition, job_not_registered, duplicate_job_name,
  entity_not_found, integrity_error, key_error, invalid_message, job_canceled, handler_timeout,
  handler_error, queue_error, api_error, Result, ok, err, injective_ok, Action, and_then,
  and_then-eq-ok, pure, raise, lift, gets, modify, continue, ◌>>=◌, ◌>>◌, >>=-eq-ok, >>=-eq-err,
  >>=-keeps, on_part,
}
use task_platform.Common.Dict
use task_platform.Common.Dict.{Dict, Key, text_key}

-- A value of a log line that is a text, or another value.
pub data LogValue : Type 0 where
  log_text : Text → LogValue
  log_other : ℕ → LogValue

-- `record`: what the formatter reads of it, and `vars(record)` in its order.
pub record LogEntry : Type 0 where
  pub timestamp : Text
  pub level : Text
  pub name : Text
  pub message : Text
  pub attributes : List (Text × LogValue)
  pub exception : Option Text

pub record Logging : Type 0 where
  pub lower : Text → Text
  pub is_standard : Text → Bool

-- `_SENSITIVE_PARTS`
abbrev pub sensitive_parts : List Text
sensitive_parts =
    codes "password"
    ∷ codes "passwd"
    ∷ codes "token"
    ∷ codes "secret"
    ∷ codes "authorization"
    ∷ codes "api_key"
    ∷ []

-- `part in text`
abbrev pub contains : Text → Text → Bool
contains part [] = is_some (remove_prefix? part [])
contains part (c ∷ t) = is_some (remove_prefix? part (c ∷ t)) || contains part t

abbrev pub starts_with : Text → Text → Bool
starts_with part t = is_some (remove_prefix? part t)

abbrev pub redacted : LogValue
redacted = log_text (codes "***")

abbrev pub run_id_key : Text
run_id_key = codes "run_id"

abbrev pub job_logger_prefix : Text
job_logger_prefix = codes "task_platform.job."

-- The payload before the loop.
abbrev pub core_fields : Text → LogEntry → Dict Text LogValue
core_fields service r =
    (codes "timestamp", log_text r.timestamp)
    ∷ (codes "level", log_text r.level)
    ∷ (codes "service", log_text service)
    ∷ (codes "logger", log_text r.name)
    ∷ (codes "message", log_text r.message)
    ∷ []

module _ (logging : Logging) where
  -- `_is_sensitive`
  unfoldable pub is_sensitive : Text → Bool
  is_sensitive key = any (λ part. contains part (logging.lower key)) sensitive_parts

  abbrev pub shown : Text → LogValue → LogValue
  shown key value = if is_sensitive key then redacted else value

  abbrev pub is_skipped : Text → Bool
  is_skipped key = logging.is_standard key || starts_with (codes "_") key

  -- The loop over `vars(record)`.
  unfoldable pub add_attributes : List (Text × LogValue) → Dict Text LogValue → Dict Text LogValue
  add_attributes [] payload = payload
  add_attributes ((key, value) ∷ rest) payload = add_attributes rest (
      if is_skipped key || Dict.has payload key
      then payload
      else Dict.put payload key (shown key value))

abbrev pub put_if_new : Text → LogValue → Dict Text LogValue → Dict Text LogValue
put_if_new key value payload = if Dict.has payload key then payload else Dict.put payload key value

abbrev pub add_run_id : Option Text → Dict Text LogValue → Dict Text LogValue
add_run_id none payload = payload
add_run_id (some run_id) payload = put_if_new run_id_key (log_text run_id) payload

abbrev pub add_exception : Option Text → Dict Text LogValue → Dict Text LogValue
add_exception none payload = payload
add_exception (some text) payload = Dict.put payload (codes "exception") (log_text text)

-- `JsonFormatter.format`, before the line is printed.
unfoldable pub payload_of : Logging → Text → LogEntry → Dict Text LogValue
unfolding add_attributes
payload_of logging service r = add_exception r.exception (
    add_run_id (remove_prefix? job_logger_prefix r.name)
      (add_attributes logging r.attributes (core_fields service r)))

-- `resolve_log_format`, from the value of the variable, and from the stripped and lower value.
unfoldable pub resolve_log_format : (Text → Text) → Option Text → Result Text
resolve_log_format normal value =
    let format = normal (elim value [ none ↦ codes "text" | some t ↦ t ]) in
    if text_eq format (codes "text") || text_eq format (codes "json")
    then ok format
    else err value_error

-- `resolve_log_level`, with the level of each name.
unfoldable pub resolve_log_level : (Text → Text) → (Text → Option ℕ) → Option Text → Result ℕ
resolve_log_level normal level_of value =
    elim (level_of (normal (elim value [ none ↦ codes "INFO" | some t ↦ t ]))) [
      | none ↦ err value_error
      | some level ↦ ok level
    ]
