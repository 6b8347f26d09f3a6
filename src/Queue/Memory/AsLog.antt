-- ===== src/Queue/Memory/AsLog.antt =====
-- About infrastructure/queue/memory.py: its pending and its ready messages as one list of entries.
use task_platform.Common.{
  ℕ, zero, suc, ◌+◌, ◌≡◌, refl, ap, inl, inr, not, Option, none, some, List, [], ◌∷◌, ◌++◌, map,
  arith, leb, Bool-cases, is_some, length, filter, any, Text,
}
use task_platform.Domain.Execution.{Instant}
use task_platform.Common.Dict
use task_platform.Common.Dict.{Dict, Key, text_key, nat_key, dict_laws, IsDict}
use task_platform.Queue.Message.{TaskMessage, Delivery}
use task_platform.Queue.Memory.{Pending, MemoryQueue, take_over, claim_entries}
use task_platform.Queue.Log.{Entry, Log, delivered, lease_first, is_held, take_idle}

abbrev pub leased : ℕ × Pending → Entry
leased (id, p) = record {
  id = id;
  message = p.message;
  lease =
      some (record { holder = p.consumer; since = p.delivered_at; deliveries = p.delivery_count });
}

abbrev pub waiting : ℕ × TaskMessage → Entry
waiting (id, m) = record { id = id; message = m; lease = none }

abbrev pub log_of : MemoryQueue → Log
log_of q = record { entries = map leased q.pending ++ map waiting q.ready; next_id = q.seq }

-- Lemmas on the list.
pub lease_first-leased :
    (consumer : Text) (now : Instant) (d : Dict ℕ Pending) (entries : List Entry)
    → let r = lease_first consumer now entries in
      lease_first consumer now (map leased d ++ entries) ≡ (r.0, map leased d ++ r.1)
lease_first-leased consumer now [] entries = refl
lease_first-leased consumer now (e ∷ d) entries =
    ap (λ (p : Option Delivery × List Entry). (p.0, leased e ∷ p.1))
      (lease_first-leased consumer now d entries)

pub any-held :
    (id : ℕ) (d : Dict ℕ Pending) (ready : List (ℕ × TaskMessage))
    → any (is_held id) (map leased d ++ map waiting ready) ≡ is_some (Dict.get d id)
unfolding Dict.get
any-held id [] [] = refl
any-held id [] (r ∷ ready) = ground (arith, any-held id [] ready)
any-held id ((j, w) ∷ d) ready = ground (arith, any-held id d ready)

pub filter-not_held :
    (id : ℕ) (d : Dict ℕ Pending) (ready : List (ℕ × TaskMessage))
    → filter (λ e. not (is_held id e)) (map leased d ++ map waiting ready)
      ≡ map leased (Dict.pop d id) ++ map waiting ready
unfolding Dict.pop
filter-not_held id [] [] = refl
filter-not_held id [] (r ∷ ready) = ground (arith, filter-not_held id [] ready)
filter-not_held id ((j, w) ∷ d) ready = ground (arith, filter-not_held id d ready)

pub take_idle-waiting :
    (consumer : Text) (now : Instant) (min_idle count : ℕ) (ready : List (ℕ × TaskMessage))
    → take_idle consumer now min_idle count (map waiting ready) ≡ ([], map waiting ready)
take_idle-waiting consumer now min_idle zero [] = refl
take_idle-waiting consumer now min_idle (suc count) [] = refl
take_idle-waiting consumer now min_idle zero (r ∷ ready) = refl
take_idle-waiting consumer now min_idle (suc count) (r ∷ ready) =
    ap (λ (p : List Delivery × List Entry). (p.0, waiting r ∷ p.1))
      (take_idle-waiting consumer now min_idle (suc count) ready)

pub take_idle-leased :
    (consumer : Text) (now : Instant) (min_idle count : ℕ) (d : Dict ℕ Pending)
    (ready : List (ℕ × TaskMessage))
    → let (claimed, rest) = claim_entries consumer now min_idle count d in
      take_idle consumer now min_idle count (map leased d ++ map waiting ready)
      ≡ (claimed, map leased rest ++ map waiting ready)
unfolding claim_entries
take_idle-leased consumer now min_idle count [] ready =
    take_idle-waiting consumer now min_idle count ready
take_idle-leased consumer now min_idle zero (e ∷ d) ready = refl
take_idle-leased consumer now min_idle (suc count) (e ∷ d) ready =
    elim (Bool-cases (leb (min_idle + e.1.delivered_at) now)) [
      | inl h ↦ rw h (
          ap
            (λ (p : List Delivery × List Entry). (
              delivered consumer (e.1.delivery_count + 1) (leased e) ∷ p.0,
              leased (e.0, take_over consumer now e.1) ∷ p.1,
            ))
            (take_idle-leased consumer now min_idle count d ready))
      | inr h ↦ rw h (
          ap (λ (p : List Delivery × List Entry). (p.0, leased e ∷ p.1))
            (take_idle-leased consumer now min_idle (suc count) d ready))
    ]

pub counts :
    (d : Dict ℕ Pending) (ready : List (ℕ × TaskMessage))
    → let entries = map leased d ++ map waiting ready in
      (length (filter (λ (e : Entry). not (is_some e.lease)) entries) ≡ length ready)
      × (length (filter (λ (e : Entry). is_some e.lease) entries) ≡ length d)
counts [] [] = (refl, refl)
counts [] (r ∷ ready) = (ap suc (counts [] ready).0, (counts [] ready).1)
counts (e ∷ d) ready = ((counts d ready).0, ap suc (counts d ready).1)

pub get_first :
    (id : ℕ) (m : TaskMessage) (rest : List (ℕ × TaskMessage))
    → Dict.get ((id, m) ∷ rest) id ≡ some m
unfolding Dict.get
get_first id m rest = ground arith
