-- ===== src/Queue/Log.antt =====
-- What infrastructure/queue/base.py promises of a queue, as one log: the messages in the order of
-- their publication, each with the lease that a consumer holds on it, if one does.
use task_platform.Common.{
  ℕ, zero, suc, ◌+◌, Bool, false, not, ◌&&◌, Option, none, some, List, [], ◌∷◌, ◌++◌, map, leb,
  ◌==◌, if◌then◌else◌, is_some, length, filter, any, Text, text_eq,
}
use task_platform.Domain.Execution.{Instant}
use task_platform.Queue.Message.{TaskMessage, Delivery}

pub record Lease : Type 0 where
  pub holder : Text
  pub since : Instant
  pub deliveries : ℕ

pub record Entry : Type 0 where
  pub id : ℕ
  pub message : TaskMessage
  pub lease : Option Lease

pub record Log : Type 0 where
  pub entries : List Entry
  pub next_id : ℕ

abbrev pub empty_log : Log
empty_log = record { entries = []; next_id = 1 }

abbrev pub lease_to : Text → Instant → ℕ → Entry → Entry
lease_to consumer now n e = record e {
  lease = some (record { holder = consumer; since = now; deliveries = n });
}

abbrev pub delivered : Text → ℕ → Entry → Delivery
delivered consumer n e = record {
  message_id = e.id;
  message = e.message;
  consumer = consumer;
  delivery_count = n;
}

-- The first entry that nobody holds goes to the consumer.
abbrev pub lease_first : Text → Instant → List Entry → Option Delivery × List Entry
lease_first consumer now [] = (none, [])
lease_first consumer now (e ∷ entries) =
    let (delivery, rest) = lease_first consumer now entries in
    if is_some e.lease
    then (delivery, e ∷ rest)
    else (some (delivered consumer 1 e), lease_to consumer now 1 e ∷ entries)

-- An entry that is held under an id.
abbrev pub is_held : ℕ → Entry → Bool
is_held id e = (e.id == id) && is_some e.lease

abbrev pub is_held_by : ℕ → Text → Entry → Bool
is_held_by id consumer e =
    (e.id == id) && elim e.lease [ none ↦ false | some l ↦ text_eq l.holder consumer ]

abbrev pub restart : Instant → Entry → Entry
restart now e = elim e.lease [
  | none ↦ e
  | some l ↦ record e { lease = some (record l { since = now }) }
]

abbrev pub renew_held : ℕ → Text → Instant → List Entry → List Entry
renew_held id consumer now entries =
    map (λ e. if is_held_by id consumer e then restart now e else e) entries

abbrev pub is_idle : ℕ → Instant → Entry → Bool
is_idle min_idle now e = elim e.lease [ none ↦ false | some l ↦ leb (min_idle + l.since) now ]

abbrev pub deliveries_of : Entry → ℕ
deliveries_of e = elim e.lease [ none ↦ 0 | some l ↦ l.deliveries ]

-- The first entries that are idle for long enough, up to a number, go to the consumer.
abbrev pub take_idle : Text → Instant → ℕ → ℕ → List Entry → List Delivery × List Entry
take_idle consumer now min_idle count [] = ([], [])
take_idle consumer now min_idle zero entries = ([], entries)
take_idle consumer now min_idle (suc count) (e ∷ entries) =
    let idle = is_idle min_idle now e in
    let n = deliveries_of e + 1 in
    let (taken, rest) =
      take_idle consumer now min_idle (if idle then count else suc count) entries in
    if idle
    then (delivered consumer n e ∷ taken, lease_to consumer now n e ∷ rest)
    else (taken, e ∷ rest)

-- The calls of a queue, with the clock that they read, and their answers.
pub data Call : Type 0 where
  call_publish : TaskMessage → Call
  call_consume : (consumer : Text) (now : Instant) → Call
  call_ack : ℕ → Call
  call_claim_stale : (consumer : Text) (min_idle count : ℕ) (now : Instant) → Call
  call_renew : ℕ → (consumer : Text) (now : Instant) → Call
  call_depth call_pending_count : Call

pub data Answer : Type 0 where
  answer_id answer_number : ℕ → Answer
  answer_delivery : Option Delivery → Answer
  answer_deliveries : List Delivery → Answer
  answer_bool : Bool → Answer

unfoldable pub step : Call → Log → Answer × Log
step (call_publish message) l = (
  answer_id l.next_id,
  record {
    entries = l.entries ++ record { id = l.next_id; message = message; lease = none } ∷ [];
    next_id = l.next_id + 1;
  },
)
step (call_consume consumer now) l =
    let (delivery, entries) = lease_first consumer now l.entries in
    (answer_delivery delivery, record l { entries = entries })
step (call_ack id) l = (
  answer_bool (any (is_held id) l.entries),
  record l { entries = filter (λ e. not (is_held id e)) l.entries },
)
step (call_claim_stale consumer min_idle count now) l =
    let (taken, entries) = take_idle consumer now min_idle count l.entries in
    (answer_deliveries taken, record l { entries = entries })
step (call_renew id consumer now) l = (
  answer_bool (any (is_held_by id consumer) l.entries),
  record l { entries = renew_held id consumer now l.entries },
)
step call_depth l =
    (answer_number (length (filter (λ (e : Entry). not (is_some e.lease)) l.entries)), l)
step call_pending_count l =
    (answer_number (length (filter (λ (e : Entry). is_some e.lease) l.entries)), l)

unfoldable pub run : List Call → Log → List Answer
unfolding step
run [] l = []
run (call ∷ calls) l = let (answer, after) = step call l in answer ∷ run calls after
