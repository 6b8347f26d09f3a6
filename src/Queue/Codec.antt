-- ===== src/Queue/Codec.antt =====
-- `to_json` and `from_json` of infrastructure/queue/base.py. The JSON library is a parameter: it prints
-- an object, with its keys sorted, and reads a text.
pub mod RoundTrip
use task_platform.Common.{
  ℕ, zero, suc, ◌+◌, ◌-◌, ◌*◌, ◌/◌, ◌%◌, ◌^◌, ◌≤◌, ◌<◌, ◌≡◌, refl, sym, ap, ◌∙◌, ◌≢◌, ◌↔◌, ◌⊎◌, inl,
  inr, Bool, true, false, not, ◌&&◌, ◌||◌, Option, none, some, List, [], ◌∷◌, ◌++◌, map, reverse,
  arith, ltb, leb, ◌==◌, if◌then◌else◌, ltb→lt, lt→ltb, leb→le, le→leb, ==_iff, tests, Bool-cases,
  Option-cases, is_some, length, get_last?, take, drop, filter, any, all, find?, sort_with, All,
  length-append, ℤ, pos, negsuc, pos_part, neg_part, sub_ℕ, ◌+ℤ◌, ◌-ℤ◌, ◌*ℤ◌, ◌≤ℤ◌, ltb_ℤ, +ℤ_parts,
  -ℤ_parts, eq_of_parts, int_laws, Text, codes, text_eq, text_eq_iff, text_eq_self, text_ltb,
  remove_prefix?, is_space, is_blank,
}
use task_platform.Domain.Effects.{
  Error, value_error, assertion_error, invalid_transition, job_not_registered, duplicate_job_name,
  entity_not_found, integrity_error, invalid_message, job_canceled, handler_timeout, handler_error,
  queue_error, api_error, Result, ok, err, injective_ok, Action, and_then, and_then-eq-ok, pure,
  raise, lift, gets, modify, continue, ◌>>=◌, ◌>>◌, >>=-eq-ok, >>=-eq-err, >>=-keeps, on_part,
}
use task_platform.Common.Dict
use task_platform.Common.Dict.{Dict, Key, text_key}
use task_platform.Queue.Message.{TaskMessage, validate_message, Delivery, key_is_blank}

-- The values of an object. A float, a list or an object, which no field accepts, is `json_other`.
pub data Json : Type 0 where
  json_null json_other : Json
  json_bool : Bool → Json
  json_int : ℤ → Json
  json_text : Text → Json

-- A document that is an object, or another value.
pub data Document : Type 0 where
  object : Dict Text Json → Document
  not_object : Document

pub record JsonCodec : Type 0 where
  pub dumps : Dict Text Json → Text
  pub loads : Text → Option Document

abbrev pub key_value : Option Text → Json
key_value none = json_null
key_value (some key) = json_text key

-- `asdict(self)` with its keys sorted.
abbrev pub fields_of : TaskMessage → Dict Text Json
fields_of m =
    (codes "attempt", json_int (pos m.attempt))
    ∷ (codes "idempotency_key", key_value m.idempotency_key)
    ∷ (codes "job_id", json_text m.job_id)
    ∷ (codes "run_id", json_text m.run_id)
    ∷ []

-- The checks of `__post_init__` on a value of any type.
abbrev text_value : Json → Result Text
text_value (json_text t) = if is_blank t then err value_error else ok t
text_value _ = err value_error

abbrev attempt_value : Json → Result ℕ
attempt_value (json_int (pos n)) = if ltb n 1 then err value_error else ok n
attempt_value _ = err value_error

abbrev pub optional_value : Option Json → Result (Option Text)
optional_value none = ok none
optional_value (some json_null) = ok none
optional_value (some value) = and_then (text_value value) (λ t. ok (some t))

-- `TaskMessage(...)`
unfoldable pub make_message : Json → Json → Json → Option Json → Result TaskMessage
make_message job_id run_id attempt key = and_then (text_value job_id) λ j.
    and_then (text_value run_id) λ r. and_then (attempt_value attempt) λ n.
      and_then (optional_value key)
        λ k. ok (record { job_id = j; run_id = r; attempt = n; idempotency_key = k })

-- `except ValueError as exc: raise InvalidMessageError(...)`
abbrev pub as_invalid : Result TaskMessage → Result TaskMessage
as_invalid (ok m) = ok m
as_invalid (err value_error) = err invalid_message
as_invalid (err e) = err e

abbrev message_of_fields :
    Option Json → Option Json → Option Json → Option Json → Result TaskMessage
message_of_fields (some job_id) (some run_id) (some attempt) key =
    as_invalid (make_message job_id run_id attempt key)
message_of_fields _ _ _ key = err invalid_message

abbrev of_loaded : Option Document → Result TaskMessage
of_loaded none = err invalid_message
of_loaded (some not_object) = err invalid_message
of_loaded (some (object fields)) =
    message_of_fields (Dict.get fields (codes "job_id")) (Dict.get fields (codes "run_id"))
      (Dict.get fields (codes "attempt")) (Dict.get fields (codes "idempotency_key"))

module _ (codec : JsonCodec) where
  unfoldable pub to_json : TaskMessage → Text
  to_json m = codec.dumps (fields_of m)

  unfoldable pub from_json : Text → Result TaskMessage
  unfolding make_message
  from_json raw = of_loaded (codec.loads raw)
