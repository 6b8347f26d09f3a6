-- ===== src/Queue/Memory/Leases.antt =====
-- Leases of the memory queue: who holds a consumed message, and when another may take it over.
use mathlib.Core.Path.{subst, subst₂}
use task_platform.Common.{
  ℕ, zero, suc, ◌+◌, ◌≤◌, ◌<◌, ◌≡◌, refl, ◌≢◌, inl, inr, Bool, true, false, none, some, List, [],
  ◌∷◌, arith, leb, ◌==◌, if◌then◌else◌, Bool-cases, any, Text, text_eq, text_eq_iff, sym, ◌∙◌,
  Option,
}
use task_platform.Common.Dict
use task_platform.Common.Dict.{Dict, Key, text_key, nat_key, dict_laws, IsDict}
use task_platform.Domain.Execution.{Instant}
use task_platform.Queue.Message.{TaskMessage, Delivery}
use task_platform.Queue.Memory.Keeping.{IsValid}
use task_platform.Queue.Memory.{
  Pending, MemoryQueue, take_first, consume, take_over, claim_entries, claim_stale, renew,
  renew_entry,
}

-- The holder of a lease and the time of its last sign of life.
abbrev pub HoldsSince : MemoryQueue → ℕ → Text → Instant → Type 0
HoldsSince q id consumer since =
    (entry : Pending) × (Dict.get q.pending id ≡ some entry)
    × (entry.consumer ≡ consumer)
    × (entry.delivered_at ≡ since)

-- A consumer holds what it consumed, from the time of the delivery on.
pub consume-HoldsSince :
    (c : Text) (now : Instant) (q : MemoryQueue) {d : Delivery}
    → (consume c now q).0 ≡ some d
    → HoldsSince (consume c now q).1 d.message_id c now
unfolding consume
consume-HoldsSince c now q e = go q.ready e
  where
    go :
        (l : List (ℕ × TaskMessage)) {d : Delivery}
        → (take_first c now l q).0 ≡ some d
        → HoldsSince (take_first c now l q).1 d.message_id c now
    go [] e = cc
    go ((i, m) ∷ rest) {d} e =
        let entry : Pending = record {
          message = m;
          consumer = c;
          delivered_at = now;
          delivery_count = 1;
        } in
        (entry, ground (arith, Dict.get-put q.pending i i entry), refl, refl)

abbrev pub delivers : ℕ → List Delivery → Bool
delivers id = any (λ d. d.message_id == id)

claim_entries_absent :
    (c : Text) (now : Instant) (idle count : ℕ) (d : Dict ℕ Pending) (id : ℕ)
    → Dict.get d id ≡ none
    → delivers id (claim_entries c now idle count d).0 ≡ false
unfolding claim_entries Dict.get
claim_entries_absent c now idle count [] id e = refl
claim_entries_absent c now idle zero ((j, x) ∷ d) id e = refl
claim_entries_absent c now idle (suc n) ((j, x) ∷ d) id e =
    let stale = leb (idle + x.delivered_at) now in
    ground (arith, claim_entries_absent c now idle (if stale then n else suc n) d id)

-- An entry that has not been idle for long enough is neither delivered again nor changed.
claim_entries_fresh :
    (c : Text) (now : Instant) (idle count : ℕ) (d : Dict ℕ Pending) (id : ℕ) (entry : Pending)
    → IsDict d
    → Dict.get d id ≡ some entry
    → now < idle + entry.delivered_at
    → (Dict.get (claim_entries c now idle count d).1 id ≡ some entry)
      × (delivers id (claim_entries c now idle count d).0 ≡ false)
unfolding claim_entries Dict.get
claim_entries_fresh c now idle count [] id entry h e f = cc
claim_entries_fresh c now idle zero ((j, x) ∷ d) id entry h e f = (e, refl)
claim_entries_fresh c now idle (suc n) ((j, x) ∷ d) id entry h e f =
    let stale = leb (idle + x.delivered_at) now in
    ground (
      arith,
      h.0,
      claim_entries_absent c now idle (if stale then n else suc n) d id,
      claim_entries_fresh c now idle (if stale then n else suc n) d id entry h.1,
    )

-- A delivered entry belongs to the consumer that took it over, counts one delivery more and was
-- idle for long enough.
claim_entries_taken :
    (c : Text) (now : Instant) (idle count : ℕ) (d : Dict ℕ Pending) (id : ℕ)
    → IsDict d
    → delivers id (claim_entries c now idle count d).0 ≡ true
    → (entry : Pending) × (Dict.get d id ≡ some entry)
      × (idle + entry.delivered_at ≤ now)
      × (Dict.get (claim_entries c now idle count d).1 id ≡ some (take_over c now entry))
unfolding claim_entries Dict.get
claim_entries_taken c now idle count [] id h e = cc
claim_entries_taken c now idle zero ((j, x) ∷ d) id h e = cc
claim_entries_taken c now idle (suc n) ((j, x) ∷ d) id h e =
    let stale = leb (idle + x.delivered_at) now in
    let count' = if stale then n else suc n in
    elim (Bool-cases (j == id)) [
      | inl same ↦ elim (Bool-cases stale) [
        | inl old ↦ (x, ground arith, ground arith, ground arith)
        | inr fresh ↦ absurd (ground (arith, h.0, claim_entries_absent c now idle count' d id))
      ]
      | inr other ↦
          let (entry, was, idle_long, taken) =
            claim_entries_taken c now idle count' d id h.1 (ground arith) in
          (entry, ground arith, idle_long, ground arith)
    ]

-- A lease that was renewed less than `idle` ago is safe: no consumer is given the message, and the
-- holder stays the holder.
pub claim_stale_fresh :
    (holder other : Text) (since now : Instant) (idle count id : ℕ) (q : MemoryQueue)
    → IsValid q
    → HoldsSince q id holder since
    → now < idle + since
    → (delivers id (claim_stale other idle count now q).0 ≡ false)
      × HoldsSince (claim_stale other idle count now q).1 id holder since
unfolding claim_stale
claim_stale_fresh holder other since now idle count id q v (entry, e, owner, at) f =
    let (kept, absent) =
      claim_entries_fresh other now idle count q.pending id entry v.pending_once e (omega arith) in
    (absent, (entry, kept, owner, at))

-- The same of the entry itself.
renew_entry_cases :
    (caller : Text) (now : Instant) (id : ℕ) (q : MemoryQueue) (entry : Pending) (mine : Bool)
    → text_eq entry.consumer caller ≡ mine
    → ((renew_entry id caller now (some entry) q).0 ≡ mine)
      × (Dict.get (renew_entry id caller now (some entry) q).1.pending id
          ≡ (if mine then some (record entry { delivered_at = now }) else Dict.get q.pending id))
unfolding renew_entry
renew_entry_cases caller now id q entry true h =
    let renewed : Pending = record entry { delivered_at = now } in
    (ground arith, ground (arith, Dict.get-put q.pending id id renewed))
renew_entry_cases caller now id q entry false h = (ground arith, ground arith)

-- A heartbeat succeeds exactly for the holder of the lease and restarts it; whoever else sends one,
-- the holder and its time stay as they were.
pub renew_cases :
    (holder caller : Text) (since now : Instant) (id : ℕ) (q : MemoryQueue)
    → HoldsSince q id holder since
    → ((renew id caller now q).0 ≡ text_eq holder caller)
      × HoldsSince
          (renew id caller now q).1
          id
          holder
          (if text_eq holder caller then now else since)
unfolding renew
renew_cases holder caller since now id q (entry, e, owner, at) =
    let mine = text_eq entry.consumer caller in
    let (answer, left) = renew_entry_cases caller now id q entry mine refl in
    subst₂
      (λ (h : Text) (t : Instant).
        ((renew id caller now q).0 ≡ text_eq h caller)
        × HoldsSince (renew id caller now q).1 id h (if text_eq h caller then now else t))
      owner at
      (subst
        (λ (o : Option Pending).
          ((renew_entry id caller now o q).0 ≡ mine)
          × HoldsSince (renew_entry id caller now o q).1 id entry.consumer
              (if mine then now else entry.delivered_at))
        (sym e) (answer, holds mine (renew_entry id caller now (some entry) q).1 left))
  where
    holds :
        (mine : Bool) (after : MemoryQueue)
        → Dict.get after.pending id
          ≡ (if mine then some (record entry { delivered_at = now }) else Dict.get q.pending id)
        → HoldsSince after id entry.consumer (if mine then now else entry.delivered_at)
    holds true after left = (record entry { delivered_at = now }, left, refl, refl)
    holds false after left = (entry, left ∙ e, refl, refl)

-- Taking over a stale message makes the new consumer its holder, raises the count of deliveries by
-- one and happens only after `idle` without a sign of life; the old holder's heartbeat then fails.
pub claim_stale_taken :
    (old new : Text) (now later : Instant) (idle count id : ℕ) (q : MemoryQueue)
    → IsValid q
    → old ≢ new
    → delivers id (claim_stale new idle count now q).0 ≡ true
    → (entry : Pending) × (Dict.get q.pending id ≡ some entry)
      × (idle + entry.delivered_at ≤ now)
      × (Dict.get (claim_stale new idle count now q).1.pending id ≡ some (take_over new now entry))
      × ((renew id old later (claim_stale new idle count now q).1).0 ≡ false)
unfolding claim_stale renew
claim_stale_taken old new now later idle count id q v ne e =
    let (entry, was, long, taken) =
      claim_entries_taken new now idle count q.pending id v.pending_once e in
    (entry, was, long, taken, ground (arith, taken, text_eq_iff new old))
