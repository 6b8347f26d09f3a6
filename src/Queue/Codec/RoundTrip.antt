-- ===== src/Queue/Codec/RoundTrip.antt =====
-- About `to_json` and `from_json` of infrastructure/queue/base.py.
use task_platform.Common.{◌≡◌, refl, false, Option, none, some, arith, ltb, Text, text_eq, is_blank}
use task_platform.Domain.Effects.{ok}
use task_platform.Common.Dict
use task_platform.Common.Dict.{Dict, Key, text_key}
use task_platform.Queue.Message.{TaskMessage, validate_message, key_is_blank}
use task_platform.Queue.Codec.{
  object, JsonCodec, key_value, fields_of, optional_value, make_message, to_json, from_json,
}

validate_message-parts :
    (m : TaskMessage)
    → validate_message m ≡ ok m
    → (is_blank m.job_id ≡ false)
      × (is_blank m.run_id ≡ false)
      × (ltb m.attempt 1 ≡ false)
      × (key_is_blank m.idempotency_key ≡ false)
unfolding validate_message
validate_message-parts m valid = ground arith

optional_value-key_value :
    (key : Option Text) → key_is_blank key ≡ false → optional_value (some (key_value key)) ≡ ok key
optional_value-key_value none h = refl
optional_value-key_value (some key) h = rw h refl

-- A message that its constructor accepts is read back from its JSON text as it was, by a JSON library
-- that reads back the object that it printed for the message.
pub from_json-to_json :
    (codec : JsonCodec) (m : TaskMessage)
    → codec.loads (codec.dumps (fields_of m)) ≡ some (object (fields_of m))
    → validate_message m ≡ ok m
    → from_json codec (to_json codec m) ≡ ok m
unfolding from_json to_json make_message Dict.get text_eq
from_json-to_json codec m reads valid =
    let (j, r, n, k) = validate_message-parts m valid in
    rw (reads, make_message, j, r, n, optional_value-key_value m.idempotency_key k) refl
