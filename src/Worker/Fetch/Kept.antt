-- ===== src/Worker/Fetch/Kept.antt =====
-- About the messages of the queue while `_next_delivery` of worker.py fetches one.
use task_platform.Common.{
  ℕ, ◌≡◌, ◌∙◌, Bool, true, false, Option, none, some, List, [], ◌∷◌, leb, if◌then◌else◌, Text,
}
use task_platform.Domain.Execution.{Instant}
use task_platform.Queue.Message.{Delivery}
use task_platform.Queue.Memory
use task_platform.Queue.Memory.Keeping.{
  IsValid, message_of, message_of-consume, message_of-claim_stale, claim_stale-IsValid,
}
use task_platform.Worker.Fetch.{Fetching, consume_next, first_or_consume, reclaim, next_delivery}

-- Whether the next delivery is taken over, consumed or missing, every message id of a valid queue
-- stands for the same message as before.
pub message_of-next_delivery :
    (consumer : Text) (stale_after : Option ℕ) (reclaim_interval : ℕ) (now : Instant) (f : Fetching)
    (id : ℕ)
    → IsValid f.world.queue
    → message_of (next_delivery consumer stale_after reclaim_interval now f).1.world.queue id
      ≡ message_of f.world.queue id
unfolding next_delivery
message_of-next_delivery consumer none reclaim_interval now f id v =
    message_of-consume consumer now f.world.queue id v
message_of-next_delivery consumer (some stale_after) reclaim_interval now f id v =
    by_time (leb f.next_reclaim_at now)
  where
    after : Memory.MemoryQueue
    after = (Memory.claim_stale consumer stale_after 1 now f.world.queue).1

    reclaimed : Fetching
    reclaimed = record f { world = record f.world { queue = after } }

    queue_of : Option Delivery × Fetching → Memory.MemoryQueue
    queue_of r = r.1.world.queue

    by_claim :
        (claimed : List Delivery)
        → message_of
            (first_or_consume consumer reclaim_interval now claimed reclaimed).1.world.queue
            id
          ≡ message_of f.world.queue id
    by_claim [] =
        message_of-consume consumer now after id
          (claim_stale-IsValid consumer stale_after 1 now f.world.queue v)
        ∙ message_of-claim_stale consumer stale_after 1 now f.world.queue id
    by_claim (d ∷ rest) = message_of-claim_stale consumer stale_after 1 now f.world.queue id

    by_time :
        (due : Bool)
        → message_of
            (queue_of (
              if due
              then reclaim consumer stale_after reclaim_interval now f
              else consume_next consumer now f))
            id
          ≡ message_of f.world.queue id
    by_time true = by_claim (Memory.claim_stale consumer stale_after 1 now f.world.queue).0
    by_time false = message_of-consume consumer now f.world.queue id v
