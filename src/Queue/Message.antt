-- ===== src/Queue/Message.antt =====
-- TaskMessage and Delivery of infrastructure/queue/base.py.
use task_platform.Common.{ℕ, Bool, false, Option, none, some, ltb, if◌then◌else◌, Text, is_blank}
use task_platform.Domain.Effects.{value_error, Result, ok, err}

pub record TaskMessage : Type 0 where
  pub job_id : Text
  pub run_id : Text
  pub attempt : ℕ
  pub idempotency_key : Option Text

abbrev pub key_is_blank : Option Text → Bool
key_is_blank none = false
key_is_blank (some key) = is_blank key

-- `TaskMessage.__post_init__` on fields of their declared types.
unfoldable pub validate_message : TaskMessage → Result TaskMessage
validate_message m =
    if is_blank m.job_id
    then err value_error
    else if is_blank m.run_id
    then err value_error
    else if ltb m.attempt 1
    then err value_error
    else if key_is_blank m.idempotency_key
    then err value_error
    else ok m

-- Message ids are the numbers that the queue counts; the text `f"{n}-0"` shows such a number.
pub record Delivery : Type 0 where
  pub message_id : ℕ
  pub message : TaskMessage
  pub consumer : Text
  pub delivery_count : ℕ
