-- ===== src/Queue/Memory.antt =====
-- infrastructure/queue/memory.py: the queue with the semantics of a consumer group. The clock is an
-- argument of the operations that read it. Each operation holds the lock throughout, so operations
-- are steps; the wait of `consume` for a message is the caller's choice of when to take the step.
pub mod Keeping
pub mod Leases
pub mod AsLog
pub mod Renewed
pub mod Refines
use task_platform.Common.{
  ℕ, zero, suc, ◌+◌, ◌-◌, ◌*◌, ◌/◌, ◌%◌, ◌^◌, ◌≤◌, ◌<◌, ◌≡◌, refl, sym, ap, ◌∙◌, ◌≢◌, ◌↔◌, ◌⊎◌, inl,
  inr, Bool, true, false, not, ◌&&◌, ◌||◌, Option, none, some, List, [], ◌∷◌, ◌++◌, map, arith, ltb,
  leb, ◌==◌, if◌then◌else◌, ltb→lt, lt→ltb, leb→le, le→leb, ==_iff, Bool-cases, Option-cases,
  is_some, length, get_last?, take, drop, filter, any, all, find?, All, length-append, ℤ, pos,
  negsuc, pos_part, neg_part, sub_ℕ, ◌+ℤ◌, ◌-ℤ◌, ◌*ℤ◌, ◌≤ℤ◌, ltb_ℤ, Text, codes, text_eq,
  text_eq_iff, text_eq_self, is_blank, reverse, tests, sort_with, +ℤ_parts, -ℤ_parts, eq_of_parts,
  int_laws, text_ltb, remove_prefix?, is_space,
}
use task_platform.Common.Dict
use task_platform.Common.Dict.{Dict, Key, text_key, nat_key, dict_laws, IsDict}
use task_platform.Domain.Execution.{
  Instant, Seconds, one_second, JobExecution, new_execution, JobLog, duration_seconds,
}
use task_platform.Queue.Message.{TaskMessage, Delivery, validate_message}

pub record Pending : Type 0 where
  pub message : TaskMessage
  pub consumer : Text
  pub delivered_at : Instant
  pub delivery_count : ℕ

pub record MemoryQueue : Type 0 where
  pub ready : List (ℕ × TaskMessage)
  pub pending : Dict ℕ Pending
  pub seq : ℕ

-- `MemoryQueue()`
abbrev pub empty_queue : MemoryQueue
empty_queue = record { ready = []; pending = []; seq = 1 }

unfoldable pub publish : TaskMessage → MemoryQueue → ℕ × MemoryQueue
publish message q = (q.seq, record q { ready = q.ready ++ (q.seq, message) ∷ []; seq = q.seq + 1 })

take_first : Text → Instant → List (ℕ × TaskMessage) → MemoryQueue → Option Delivery × MemoryQueue
take_first consumer now [] q = (none, q)
take_first consumer now ((id, message) ∷ rest) q = (
  some (record { message_id = id; message = message; consumer = consumer; delivery_count = 1 }),
  record q {
    ready = rest;
    pending =
        Dict.put q.pending id (record {
          message = message;
          consumer = consumer;
          delivered_at = now;
          delivery_count = 1;
        });
  },
)

unfoldable pub consume : Text → Instant → MemoryQueue → Option Delivery × MemoryQueue
unfolding take_first
consume consumer now q = take_first consumer now q.ready q

unfoldable pub ack : ℕ → MemoryQueue → Bool × MemoryQueue
ack id q = (is_some (Dict.get q.pending id), record q { pending = Dict.pop q.pending id })

abbrev pub take_over : Text → Instant → Pending → Pending
take_over consumer now entry = record entry {
  consumer = consumer;
  delivered_at = now;
  delivery_count = entry.delivery_count + 1;
}

abbrev delivery_of : ℕ → Pending → Delivery
delivery_of id entry = record {
  message_id = id;
  message = entry.message;
  consumer = entry.consumer;
  delivery_count = entry.delivery_count;
}

-- The loop of `claim_stale` over the pending entries, in their order; `count` is what is left to
-- claim. `not (now - delivered_at < min_idle)` is written without
-- subtraction.
pub claim_entries : Text → Instant → ℕ → ℕ → Dict ℕ Pending → List Delivery × Dict ℕ Pending
claim_entries consumer now min_idle count [] = ([], [])
claim_entries consumer now min_idle zero entries = ([], entries)
claim_entries consumer now min_idle (suc count) ((id, entry) ∷ entries) =
    let stale = leb (min_idle + entry.delivered_at) now in
    let (claimed, rest) =
      claim_entries consumer now min_idle (if stale then count else suc count) entries in
    if stale
    then (
      delivery_of id (take_over consumer now entry) ∷ claimed,
      (id, take_over consumer now entry) ∷ rest,
    )
    else (claimed, (id, entry) ∷ rest)

unfoldable pub claim_stale : Text → ℕ → ℕ → Instant → MemoryQueue → List Delivery × MemoryQueue
unfolding claim_entries
claim_stale consumer min_idle count now q =
    let (claimed, entries) = claim_entries consumer now min_idle count q.pending in
    (claimed, record q { pending = entries })

renew_entry : ℕ → Text → Instant → Option Pending → MemoryQueue → Bool × MemoryQueue
renew_entry id consumer now none q = (false, q)
renew_entry id consumer now (some entry) q =
    if text_eq entry.consumer consumer
    then (true, record q { pending = Dict.put q.pending id (record entry { delivered_at = now }) })
    else (false, q)

unfoldable pub renew : ℕ → Text → Instant → MemoryQueue → Bool × MemoryQueue
unfolding renew_entry
renew id consumer now q = renew_entry id consumer now (Dict.get q.pending id) q

unfoldable pub depth : MemoryQueue → ℕ
depth q = length q.ready

unfoldable pub pending_count : MemoryQueue → ℕ
pending_count q = length q.pending
