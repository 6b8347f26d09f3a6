-- ===== src/Queue/RedisStream.antt =====
-- infrastructure/queue/redis_stream.py: the queue over the commands of a Redis server. The client library
-- is a parameter, a record of its commands on a state of the server; an entry id is known by a number.
-- The clock decides how long a round of `consume` may block: the caller gives the time for each round.
pub mod Dropped
use task_platform.Common.{
  ℕ, zero, suc, ◌+◌, ◌-◌, ◌*◌, ◌/◌, ◌%◌, ◌^◌, ◌≤◌, ◌<◌, ◌≡◌, refl, sym, ap, ◌∙◌, ◌≢◌, ◌↔◌, ◌⊎◌, inl,
  inr, Bool, true, false, not, ◌&&◌, ◌||◌, Option, none, some, List, [], ◌∷◌, ◌++◌, map, reverse,
  arith, ltb, leb, ◌==◌, if◌then◌else◌, ltb→lt, lt→ltb, leb→le, le→leb, ==_iff, tests, Bool-cases,
  Option-cases, is_some, length, get_last?, take, drop, filter, any, all, find?, sort_with, All,
  length-append, ℤ, pos, negsuc, pos_part, neg_part, sub_ℕ, ◌+ℤ◌, ◌-ℤ◌, ◌*ℤ◌, ◌≤ℤ◌, ltb_ℤ, +ℤ_parts,
  -ℤ_parts, eq_of_parts, int_laws, Text, codes, text_eq, text_eq_iff, text_eq_self, text_ltb,
  remove_prefix?, is_space, is_blank,
}
use task_platform.Domain.Effects.{
  Error, value_error, assertion_error, invalid_transition, job_not_registered, duplicate_job_name,
  entity_not_found, integrity_error, invalid_message, job_canceled, handler_timeout, handler_error,
  queue_error, api_error, Result, ok, err, injective_ok, Action, and_then, and_then-eq-ok, pure,
  raise, lift, gets, modify, continue, ◌>>=◌, ◌>>◌, >>=-eq-ok, >>=-eq-err, >>=-keeps, on_part,
}
use task_platform.Common.Dict
use task_platform.Common.Dict.{Dict, Key, text_key}
use task_platform.Queue.Message.{TaskMessage, validate_message, Delivery, key_is_blank}
use task_platform.Queue.Codec.{
  Json, json_null, json_other, json_bool, json_int, json_text, Document, object, not_object,
  JsonCodec, fields_of, make_message, as_invalid, to_json, from_json, key_value, optional_value,
}

-- An entry of the stream: its id and its fields, which are missing if the entry was deleted.
abbrev pub StreamEntry : Type 0
StreamEntry = ℕ × Option (Dict Text Text)

-- What XPENDING says of one entry.
pub record PendingRow : Type 0 where
  pub consumer : Text
  pub times_delivered : ℕ

-- The commands that the queue sends, for its stream and its group.
pub record Client (S : Type 0) : Type 0 where
  pub xadd : Dict Text Text → S → ℕ × S
  -- one entry at most, after waiting for the given number of milliseconds, if there is one
  pub xreadgroup : Text → Option ℕ → S → List StreamEntry × S
  -- XACK and XDEL in one transaction, with the number of entries that XACK acknowledged
  pub xack_xdel : ℕ → S → ℕ × S
  pub xautoclaim : (consumer : Text) → (min_idle_ms count : ℕ) → S → List StreamEntry × S
  pub xpending_range : ℕ → S → Option PendingRow
  pub xclaim : (consumer : Text) → ℕ → S → List ℕ × S
  pub xlen : S → ℕ
  pub xpending : S → ℕ

-- `fields.get("payload") if fields else None`
abbrev pub payload_of : Option (Dict Text Text) → Option Text
payload_of none = none
payload_of (some fields) = Dict.get fields (codes "payload")

module _ {S : Type 0} (codec : JsonCodec) (client : Client S) where
  unfoldable pub publish : TaskMessage → S → ℕ × S
  unfolding to_json
  publish m s = client.xadd ((codes "payload", to_json codec m) ∷ []) s

  unfoldable pub ack : ℕ → S → Bool × S
  ack id s = let (acked, after) = client.xack_xdel id s in (acked == 1, after)

  -- `_times_delivered`
  unfoldable pub times_delivered : ℕ → S → ℕ
  times_delivered id s = elim (client.xpending_range id s) [
    | none ↦ 1
    | some row ↦ row.times_delivered
  ]

  abbrev pub read_payload : Option Text → Result TaskMessage
  read_payload none = err invalid_message
  read_payload (some raw) = from_json codec raw

  -- The body of the loop of `_to_deliveries`: a delivery, or an invalid message acknowledged.
  abbrev pub deliver : ℕ → Text → Bool → Result TaskMessage → S → List Delivery × S
  deliver id consumer claimed (ok m) s = (
    record {
      message_id = id;
      message = m;
      consumer = consumer;
      delivery_count = if claimed then times_delivered id s else 1;
    }
        ∷ [],
    s,
  )
  deliver id consumer claimed (err e) s = ([], (ack id s).1)

  -- `_to_deliveries`
  unfoldable pub to_deliveries : List StreamEntry → Text → Bool → S → List Delivery × S
  unfolding from_json times_delivered ack
  to_deliveries [] consumer claimed s = ([], s)
  to_deliveries ((id, fields) ∷ entries) consumer claimed s =
      let (first, after) = deliver id consumer claimed (read_payload (payload_of fields)) s in
      let (rest, final) = to_deliveries entries consumer claimed after in (first ++ rest, final)

  abbrev block_of : ℕ → Option ℕ
  block_of zero = none
  block_of (suc ms) = some (suc ms)

  -- `consume`, for as many rounds as there are times to block; none when they are used up.
  unfoldable pub consume : Text → List ℕ → S → Option (Option Delivery) × S
  unfolding to_deliveries
  consume consumer [] s = (none, s)
  consume consumer (ms ∷ blocks) s =
      let (entries, read) = client.xreadgroup consumer (block_of ms) s in
      let (deliveries, after) = to_deliveries entries consumer false read in
      let again = consume consumer blocks after in
      elim entries [
        | [] ↦ (some none, read)
        | _ ∷ _ ↦ elim deliveries [ [] ↦ again | d ∷ _ ↦ (some (some d), after) ]
      ]

  unfoldable pub claim_stale : Text → ℕ → ℕ → S → List Delivery × S
  unfolding to_deliveries
  claim_stale consumer min_idle_ms count s =
      let (entries, after) = client.xautoclaim consumer min_idle_ms count s in
      to_deliveries entries consumer true after

  abbrev is_holder : Text → Option PendingRow → Bool
  is_holder consumer none = false
  is_holder consumer (some row) = text_eq row.consumer consumer

  abbrev is_claimed : List ℕ → Bool
  is_claimed [] = false
  is_claimed (_ ∷ _) = true

  unfoldable pub renew : ℕ → Text → S → Bool × S
  renew id consumer s =
      let (claimed, after) = client.xclaim consumer id s in
      if is_holder consumer (client.xpending_range id s)
      then (is_claimed claimed, after)
      else (false, s)

  -- The stream holds what is not acknowledged, so the difference is not negative on a server.
  unfoldable pub depth : S → ℕ
  depth s = client.xlen s - client.xpending s

  unfoldable pub pending_count : S → ℕ
  pending_count s = client.xpending s
