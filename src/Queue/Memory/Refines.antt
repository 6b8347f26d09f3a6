-- ===== src/Queue/Memory/Refines.antt =====
-- About infrastructure/queue/memory.py: its two collections are one log in the order of publication.
use task_platform.Common.{
  map-append, append_assoc, ℕ, ◌+◌, ◌≡◌, refl, sym, ap, ◌∙◌, inl, inr, Option, some, List, [], ◌∷◌,
  ◌++◌, map, Bool-cases, Option-cases, is_some, Text, text_eq,
}
use task_platform.Domain.Execution.{Instant}
use task_platform.Common.Dict
use task_platform.Common.Dict.{Dict, Key, text_key, nat_key, dict_laws, IsDict}
use task_platform.Queue.Message.{TaskMessage, Delivery}
use task_platform.Queue.Memory.{
  Pending, MemoryQueue, empty_queue, publish, take_first, consume, ack, claim_stale, renew_entry,
  renew, depth, pending_count,
}
use task_platform.Queue.Memory.Keeping.{
  IsValid, empty-IsValid, publish-IsValid, consume-IsValid, ack-IsValid, claim_stale-IsValid,
  renew-IsValid,
}
use task_platform.Queue.Log.{
  Entry, empty_log, delivered, Call, call_publish, call_consume, call_ack, call_claim_stale,
  call_renew, call_depth, call_pending_count, Answer, answer_id, answer_number, answer_delivery,
  answer_deliveries, answer_bool, step, run,
}
use task_platform.Queue.Memory.Renewed.{renew_none, renew_some}
use task_platform.Queue.Memory.AsLog.{
  leased, waiting, log_of, lease_first-leased, any-held, filter-not_held, take_idle-leased, counts,
  get_first,
}

-- One call of the code.
unfoldable pub call_memory : Call → MemoryQueue → Answer × MemoryQueue
call_memory (call_publish m) q = let (id, after) = publish m q in (answer_id id, after)
call_memory (call_consume consumer now) q =
    let (d, after) = consume consumer now q in (answer_delivery d, after)
call_memory (call_ack id) q = let (b, after) = ack id q in (answer_bool b, after)
call_memory (call_claim_stale consumer min_idle count now) q =
    let (ds, after) = claim_stale consumer min_idle count now q in (answer_deliveries ds, after)
call_memory (call_renew id consumer now) q =
    let (b, after) = renew id consumer now q in (answer_bool b, after)
call_memory call_depth q = (answer_number (depth q), q)
call_memory call_pending_count q = (answer_number (pending_count q), q)

unfoldable pub run_memory : List Call → MemoryQueue → List Answer
unfolding call_memory
run_memory [] q = []
run_memory (call ∷ calls) q =
    let (answer, after) = call_memory call q in answer ∷ run_memory calls after

abbrev Steps : Call → MemoryQueue → Type 0
Steps call q =
    let (answer, after) = call_memory call q in step call (log_of q) ≡ (answer, log_of after)

call_memory-IsValid : (call : Call) (q : MemoryQueue) → IsValid q → IsValid (call_memory call q).1
unfolding call_memory
call_memory-IsValid (call_publish m) q v = publish-IsValid m q v
call_memory-IsValid (call_consume consumer now) q v = consume-IsValid consumer now q v
call_memory-IsValid (call_ack id) q v = ack-IsValid id q v
call_memory-IsValid (call_claim_stale consumer min_idle count now) q v =
    claim_stale-IsValid consumer min_idle count now q v
call_memory-IsValid (call_renew id consumer now) q v = renew-IsValid id consumer now q v
call_memory-IsValid call_depth q v = v
call_memory-IsValid call_pending_count q v = v

publish-Steps : (m : TaskMessage) (q : MemoryQueue) → Steps (call_publish m) q
unfolding call_memory step publish
publish-Steps m q =
    ap (λ es. (answer_id q.seq, record { entries = es; next_id = q.seq + 1 }))
      (append_assoc (map leased q.pending) (map waiting q.ready) (waiting (q.seq, m) ∷ [])
        ∙ ap (λ l. map leased q.pending ++ l) (sym (map-append waiting q.ready ((q.seq, m) ∷ []))))

ack-Steps : (id : ℕ) (q : MemoryQueue) → Steps (call_ack id) q
unfolding call_memory step ack
ack-Steps id q = rw (any-held id q.pending q.ready, filter-not_held id q.pending q.ready) refl

claim_stale-Steps :
    (consumer : Text) (min_idle count : ℕ) (now : Instant) (q : MemoryQueue)
    → Steps (call_claim_stale consumer min_idle count now) q
unfolding call_memory step claim_stale
claim_stale-Steps consumer min_idle count now q =
    ap
      (λ (p : List Delivery × List Entry).
        (answer_deliveries p.0, record (log_of q) { entries = p.1 }))
      (take_idle-leased consumer now min_idle count q.pending q.ready)

counts_step : (q : MemoryQueue) → Steps call_depth q × Steps call_pending_count q
unfolding call_memory step depth pending_count
counts_step q = (
  ap (λ n. (answer_number n, log_of q)) (counts q.pending q.ready).0,
  ap (λ n. (answer_number n, log_of q)) (counts q.pending q.ready).1,
)

consume-Steps :
    (consumer : Text) (now : Instant) (q : MemoryQueue)
    → IsValid q
    → Steps (call_consume consumer now) q
unfolding call_memory step consume take_first
consume-Steps consumer now q v = go q.ready refl
  where
    new : TaskMessage → Pending
    new m = record { message = m; consumer = consumer; delivered_at = now; delivery_count = 1 }

    appended :
        (id : ℕ) (m : TaskMessage) (rest : List (ℕ × TaskMessage))
        → q.ready ≡ (id, m) ∷ rest
        → map leased (Dict.put q.pending id (new m)) ++ map waiting rest
          ≡ map leased q.pending ++ leased (id, new m) ∷ map waiting rest
    appended id m rest e =
        ap (λ d. map leased d ++ map waiting rest)
          (Dict.put_absent q.pending id (new m)
            (v.apart id (ap (λ d. is_some (Dict.get d id)) e ∙ ap is_some (get_first id m rest))))
        ∙ ap (λ es. es ++ map waiting rest) (map-append leased q.pending ((id, new m) ∷ []))
        ∙ append_assoc (map leased q.pending) (leased (id, new m) ∷ []) (map waiting rest)

    go : (ready : List (ℕ × TaskMessage)) → q.ready ≡ ready → Steps (call_consume consumer now) q
    go [] e = rw e (
        ap
          (λ (p : Option Delivery × List Entry).
            (answer_delivery p.0, record (log_of q) { entries = p.1 }))
          (lease_first-leased consumer now q.pending []))
    go ((id, m) ∷ rest) e = rw e (
        ap
          (λ (p : Option Delivery × List Entry).
            (answer_delivery p.0, record (log_of q) { entries = p.1 }))
          (lease_first-leased consumer now q.pending (waiting (id, m) ∷ map waiting rest))
        ∙ ap
            (λ es. (
              answer_delivery (some (delivered consumer 1 (waiting (id, m)))),
              record { entries = es; next_id = q.seq },
            ))
            (sym (appended id m rest e)))

renew-Steps :
    (id : ℕ) (consumer : Text) (now : Instant) (q : MemoryQueue)
    → IsValid q
    → Steps (call_renew id consumer now) q
unfolding call_memory step renew renew_entry
renew-Steps id consumer now q v = elim (Option-cases (Dict.get q.pending id)) [
  | inl e ↦
      rw
        (
          e,
          (renew_none id consumer now q.pending q.ready e).0,
          (renew_none id consumer now q.pending q.ready e).1,
        )
        refl
  | inr (p, e) ↦
      rw
        (
          e,
          (renew_some id consumer now q.pending q.ready p v.pending_once e).0,
          (renew_some id consumer now q.pending q.ready p v.pending_once e).1,
        )
        (elim (Bool-cases (text_eq p.consumer consumer)) [ inl m ↦ rw m refl | inr m ↦ rw m refl ])
]

call_memory-Steps : (call : Call) (q : MemoryQueue) → IsValid q → Steps call q
call_memory-Steps (call_publish m) q v = publish-Steps m q
call_memory-Steps (call_consume consumer now) q v = consume-Steps consumer now q v
call_memory-Steps (call_ack id) q v = ack-Steps id q
call_memory-Steps (call_claim_stale consumer min_idle count now) q v =
    claim_stale-Steps consumer min_idle count now q
call_memory-Steps (call_renew id consumer now) q v = renew-Steps id consumer now q v
call_memory-Steps call_depth q v = (counts_step q).0
call_memory-Steps call_pending_count q v = (counts_step q).1

-- From any valid queue, every sequence of calls is answered by the code as by the log.
run_memory_valid :
    (calls : List Call) (q : MemoryQueue) → IsValid q → run_memory calls q ≡ run calls (log_of q)
unfolding run_memory run
run_memory_valid [] q v = refl
run_memory_valid (call ∷ calls) q v = rw (call_memory-Steps call q v) (
    ap (λ answers. (call_memory call q).0 ∷ answers)
      (run_memory_valid calls (call_memory call q).1 (call_memory-IsValid call q v)))

-- A new queue answers every sequence of calls as an empty log does, in which a message keeps its place
-- from its publication to its ack and at most carries a lease: publish appends to it, consume leases
-- the first message without a lease, claim_stale the first ones that are idle for long enough, renew
-- restarts the lease of its holder, ack removes a leased message, and the two counts are those of the
-- messages without and with a lease.
pub run_memory-refines : (calls : List Call) → run_memory calls empty_queue ≡ run calls empty_log
run_memory-refines calls = run_memory_valid calls empty_queue empty-IsValid
