-- ===== src/Queue/Memory/Keeping.antt =====
-- About infrastructure/queue/memory.py: the queue as a map from message ids to messages.
use task_platform.Common.{
  ℕ, zero, suc, ◌+◌, ◌≤◌, ◌≡◌, refl, inl, inr, true, false, ◌&&◌, Option, none, some, List, [], ◌∷◌,
  ◌++◌, arith, leb, ◌==◌, if◌then◌else◌, Bool-cases, is_some, Text, text_eq,
}
use task_platform.Common.Dict
use task_platform.Common.Dict.{Dict, Key, text_key, nat_key, dict_laws, IsDict}
use task_platform.Domain.Execution.{Instant}
use task_platform.Queue.Message.{TaskMessage}
use task_platform.Queue.Memory.{
  Pending, MemoryQueue, empty_queue, publish, take_first, consume, ack, claim_entries, claim_stale,
  renew_entry, renew, depth, pending_count,
}

abbrev held : Option Pending → Option TaskMessage → Option TaskMessage
held (some entry) waiting = some entry.message
held none waiting = waiting

-- The message that goes by an id, consumed or not, until it is acknowledged.
unfoldable pub message_of : MemoryQueue → ℕ → Option TaskMessage
message_of q id = held (Dict.get q.pending id) (Dict.get q.ready id)

pub record IsValid (q : MemoryQueue) : Type 0 where
  pub ready_once : IsDict q.ready
  pub pending_once : IsDict q.pending
  pub ready_known : (id : ℕ) → q.seq ≤ id → Dict.get q.ready id ≡ none
  pub pending_known : (id : ℕ) → q.seq ≤ id → Dict.get q.pending id ≡ none
  pub apart : (id : ℕ) → is_some (Dict.get q.ready id) ≡ true → Dict.get q.pending id ≡ none

pub empty-IsValid : IsValid empty_queue
unfolding Dict.get
empty-IsValid = record {
  ready_once = tt;
  pending_once = tt;
  ready_known = λ id h. refl;
  pending_known = λ id h. refl;
  apart = λ id h. refl;
}

get-snoc :
    (d : Dict ℕ TaskMessage) (a b : ℕ) (m : TaskMessage)
    → Dict.get (d ++ (a, m) ∷ []) b
      ≡ (if is_some (Dict.get d b) then Dict.get d b else if a == b then some m else none)
unfolding Dict.get
get-snoc [] a b m = refl
get-snoc ((j, w) ∷ d) a b m = ground (arith, get-snoc d a b m)

snoc-IsDict :
    (d : Dict ℕ TaskMessage) (a : ℕ) (m : TaskMessage)
    → IsDict d
    → Dict.get d a ≡ none
    → IsDict (d ++ (a, m) ∷ [])
unfolding Dict.get
snoc-IsDict [] a m h e = (refl, tt)
snoc-IsDict ((j, w) ∷ d) a m h e =
    (ground (arith, get-snoc d a j m, h.0), snoc-IsDict d a m h.1 (ground arith))

pub publish-IsValid : (m : TaskMessage) (q : MemoryQueue) → IsValid q → IsValid (publish m q).1
unfolding publish
publish-IsValid m q v = record {
  ready_once = snoc-IsDict q.ready q.seq m v.ready_once (v.ready_known q.seq (omega arith));
  pending_once = v.pending_once;
  ready_known = λ id h. ground (arith, get-snoc q.ready q.seq id m, v.ready_known id (omega arith));
  pending_known = λ id h. v.pending_known id (omega arith);
  apart = λ id h.
      ground (arith, get-snoc q.ready q.seq id m, v.apart id, v.pending_known q.seq (omega arith));
}

-- Publishing gives the message an id that no message has, and changes no other.
pub message_of-publish :
    (m : TaskMessage) (q : MemoryQueue) (id : ℕ)
    → IsValid q
    → (message_of q (publish m q).0 ≡ none)
      × (message_of (publish m q).1 id
          ≡ (if (publish m q).0 == id then some m else message_of q id))
unfolding publish message_of
message_of-publish m q id v = (
  ground (arith, v.ready_known q.seq (omega arith), v.pending_known q.seq (omega arith)),
  ground (
    arith,
    get-snoc q.ready q.seq id m,
    v.pending_known q.seq (omega arith),
    v.ready_known q.seq (omega arith),
  ),
)

pub consume-IsValid :
    (c : Text) (now : Instant) (q : MemoryQueue) → IsValid q → IsValid (consume c now q).1
unfolding consume
consume-IsValid c now q v = go q.ready v
  where
    go :
        (l : List (ℕ × TaskMessage))
        → IsValid (record q { ready = l })
        → IsValid (take_first c now l (record q { ready = l })).1
    go [] v = v
    go ((i, m) ∷ rest) v =
        let entry : Pending = record {
          message = m;
          consumer = c;
          delivered_at = now;
          delivery_count = 1;
        } in
        record {
          ready_once = v.ready_once.1;
          pending_once = Dict.put-IsDict q.pending i entry v.pending_once;
          ready_known =
              λ id h. ground (arith, Dict.get-cons rest i id m, v.ready_known id h, v.ready_once.0);
          pending_known = λ id h. ground (
            arith,
            Dict.get-put q.pending i id entry,
            Dict.get-cons rest i id m,
            v.ready_known id h,
            v.pending_known id h,
          );
          apart = λ id h. ground (
            arith,
            Dict.get-put q.pending i id entry,
            Dict.get-cons rest i id m,
            v.apart id,
            v.ready_once.0,
          );
        }

-- Consuming changes no message that an id stands for: what was taken is pending.
pub message_of-consume :
    (c : Text) (now : Instant) (q : MemoryQueue) (id : ℕ)
    → IsValid q
    → message_of (consume c now q).1 id ≡ message_of q id
unfolding consume message_of
message_of-consume c now q id v = go q.ready v
  where
    go :
        (l : List (ℕ × TaskMessage))
        → IsValid (record q { ready = l })
        → message_of (take_first c now l (record q { ready = l })).1 id
          ≡ message_of (record q { ready = l }) id
    go [] v = refl
    go ((i, m) ∷ rest) v =
        let entry : Pending = record {
          message = m;
          consumer = c;
          delivered_at = now;
          delivery_count = 1;
        } in
        ground (
          arith,
          Dict.get-put q.pending i id entry,
          Dict.get-cons rest i id m,
          v.apart id,
          v.ready_once.0,
        )

pub ack-IsValid : (i : ℕ) (q : MemoryQueue) → IsValid q → IsValid (ack i q).1
unfolding ack
ack-IsValid i q v = record {
  ready_once = v.ready_once;
  pending_once = Dict.pop-IsDict q.pending i v.pending_once;
  ready_known = v.ready_known;
  pending_known = λ id h. ground (arith, Dict.get-pop q.pending i id, v.pending_known id h);
  apart = λ id h. ground (arith, Dict.get-pop q.pending i id, v.apart id h);
}

-- An acknowledgement in a well-formed queue is answered true exactly when the id is pending; it takes away
-- the pending message of that id and no other message, waiting or pending, and a second one is refused.
pub message_of-ack :
    (i : ℕ) (q : MemoryQueue) (id : ℕ)
    → IsValid q
    → ((ack i q).0 ≡ Dict.has q.pending i)
      × (message_of (ack i q).1 id
          ≡ (if Dict.has q.pending i && (i == id) then none else message_of q id))
      × (Dict.has (ack i q).1.pending i ≡ false)
      × ((ack i (ack i q).1).0 ≡ false)
      × (depth (ack i q).1 ≡ depth q)
      × (pending_count (ack i q).1 + (if (ack i q).0 then 1 else 0) ≡ pending_count q)
unfolding ack message_of depth pending_count Dict.has
message_of-ack i q id v = (
  ground arith,
  ground (arith, Dict.get-pop q.pending i id, v.apart i),
  ground (arith, Dict.get-pop q.pending i i),
  ground (arith, Dict.get-pop q.pending i i),
  refl,
  elim (Bool-cases (Dict.has q.pending i)) [
    | inl h ↦ ground (arith, Dict.length-pop q.pending i v.pending_once h)
    | inr h ↦ ground (arith, Dict.pop_absent q.pending i)
  ],
)

claim_entries_message :
    (c : Text) (now : Instant) (idle count : ℕ) (d : Dict ℕ Pending) (id : ℕ)
    (w : Option TaskMessage)
    → (held (Dict.get (claim_entries c now idle count d).1 id) w ≡ held (Dict.get d id) w)
      × (is_some (Dict.get (claim_entries c now idle count d).1 id) ≡ is_some (Dict.get d id))
unfolding claim_entries Dict.get
claim_entries_message c now idle count [] id w = (refl, refl)
claim_entries_message c now idle zero ((j, e) ∷ d) id w = (refl, refl)
claim_entries_message c now idle (suc n) ((j, e) ∷ d) id w =
    let stale = leb (idle + e.delivered_at) now in
    let (same, present) = claim_entries_message c now idle (if stale then n else suc n) d id w in
    (ground arith, ground arith)

claim_entries-IsDict :
    (c : Text) (now : Instant) (idle count : ℕ) (d : Dict ℕ Pending)
    → IsDict d
    → IsDict (claim_entries c now idle count d).1
unfolding claim_entries
claim_entries-IsDict c now idle count [] h = tt
claim_entries-IsDict c now idle zero ((j, e) ∷ d) h = h
claim_entries-IsDict c now idle (suc n) ((j, e) ∷ d) h =
    elim (Bool-cases (leb (idle + e.delivered_at) now)) [
      | inl stale ↦ rw stale (
        ground (arith, claim_entries_message c now idle n d j none, h.0),
        claim_entries-IsDict c now idle n d h.1,
      )
      | inr fresh ↦ rw fresh (
        ground (arith, claim_entries_message c now idle (suc n) d j none, h.0),
        claim_entries-IsDict c now idle (suc n) d h.1,
      )
    ]

pub claim_stale-IsValid :
    (c : Text) (idle count : ℕ) (now : Instant) (q : MemoryQueue)
    → IsValid q
    → IsValid (claim_stale c idle count now q).1
unfolding claim_stale
claim_stale-IsValid c idle count now q v =
    let same = λ (id : ℕ). (claim_entries_message c now idle count q.pending id none).1 in
    record {
      ready_once = v.ready_once;
      pending_once = claim_entries-IsDict c now idle count q.pending v.pending_once;
      ready_known = v.ready_known;
      pending_known = λ id h. ground (arith, same id, v.pending_known id h);
      apart = λ id h. ground (arith, same id, v.apart id h);
    }

pub renew-IsValid :
    (i : ℕ) (c : Text) (now : Instant) (q : MemoryQueue) → IsValid q → IsValid (renew i c now q).1
unfolding renew
renew-IsValid i c now q v = go (Dict.get q.pending i) refl
  where
    go : (o : Option Pending) → Dict.get q.pending i ≡ o → IsValid (renew_entry i c now o q).1
    go none e = v
    go (some entry) e = elim (Bool-cases (text_eq entry.consumer c)) [
      | inl owner ↦
          rw (owner, renew_entry)
            (let entry' : Pending = record entry { delivered_at = now } in
              record {
                ready_once = v.ready_once;
                pending_once = Dict.put-IsDict q.pending i entry' v.pending_once;
                ready_known = v.ready_known;
                pending_known = λ id h.
                    ground (arith, Dict.get-put q.pending i id entry', v.pending_known id h);
                apart = λ id h. ground (arith, Dict.get-put q.pending i id entry', v.apart id h);
              })
      | inr other ↦ rw (other, renew_entry) v
    ]

-- Taking over stale messages changes no message that an id stands for.
pub message_of-claim_stale :
    (c : Text) (idle count : ℕ) (now : Instant) (q : MemoryQueue) (id : ℕ)
    → message_of (claim_stale c idle count now q).1 id ≡ message_of q id
unfolding claim_stale message_of
message_of-claim_stale c idle count now q id =
    (claim_entries_message c now idle count q.pending id (Dict.get q.ready id)).0

pub message_of-renew :
    (i : ℕ) (c : Text) (now : Instant) (q : MemoryQueue) (id : ℕ)
    → message_of (renew i c now q).1 id ≡ message_of q id
unfolding renew message_of
message_of-renew i c now q id = go (Dict.get q.pending i) refl
  where
    go :
        (o : Option Pending)
        → Dict.get q.pending i ≡ o
        → message_of (renew_entry i c now o q).1 id ≡ message_of q id
    go none e = refl
    go (some entry) e =
        ground (arith, Dict.get-put q.pending i id (record entry { delivered_at = now }))
