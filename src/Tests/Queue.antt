-- ===== src/Tests/Queue.antt =====
-- The memory queue at a message that was consumed.
use task_platform.Common.{
  false, ◌+◌, ◌≤◌, ◌≡◌, refl, ◌≢◌, true, false, ◌&&◌, none, some, arith, ◌==◌, if◌then◌else◌, Text,
  codes,
}
use task_platform.Queue.Memory.{
  Pending, MemoryQueue, empty_queue, publish, consume, ack, take_over, claim_stale, renew, depth,
  pending_count,
}
use task_platform.Queue.Memory.Keeping.{
  IsValid, message_of, empty-IsValid, publish-IsValid, consume-IsValid, message_of-ack,
}
use task_platform.Queue.Memory.Leases.{
  HoldsSince, consume-HoldsSince, claim_stale_fresh, claim_stale_taken, delivers,
}
use task_platform.Tests.Samples.{sample_message, sample_delivery}
use task_platform.Common.Dict
use task_platform.Common.Dict.{nat_key}

abbrev published : MemoryQueue
published = (publish sample_message empty_queue).1

-- `w1` holds the message since the instant 5.
abbrev consumed : MemoryQueue
consumed = (consume (codes "w1") 5 published).1

published-IsValid : IsValid published
published-IsValid = publish-IsValid sample_message empty_queue empty-IsValid

consumed-IsValid : IsValid consumed
consumed-IsValid = consume-IsValid (codes "w1") 5 published published-IsValid

message_of-ack_example :
    ((ack 1 consumed).0 ≡ Dict.has consumed.pending 1)
    × (message_of (ack 1 consumed).1 1
        ≡ (if Dict.has consumed.pending 1 && (1 == 1) then none else message_of consumed 1))
    × (Dict.has (ack 1 consumed).1.pending 1 ≡ false)
    × ((ack 1 (ack 1 consumed).1).0 ≡ false)
    × (depth (ack 1 consumed).1 ≡ depth consumed)
    × (pending_count (ack 1 consumed).1 + (if (ack 1 consumed).0 then 1 else 0)
        ≡ pending_count consumed)
message_of-ack_example = message_of-ack 1 consumed 1 consumed-IsValid

got : (consume (codes "w1") 5 published).0 ≡ some sample_delivery
unfolding consume publish
got = refl

consume-HoldsSince_example : HoldsSince consumed 1 (codes "w1") 5
consume-HoldsSince_example = consume-HoldsSince (codes "w1") 5 published got

held_since : HoldsSince consumed 1 (codes "w1") 5
held_since = consume-HoldsSince (codes "w1") 5 published got

claim_stale_fresh_example :
    (delivers 1 (claim_stale (codes "w2") 10 5 14 consumed).0 ≡ false)
    × HoldsSince (claim_stale (codes "w2") 10 5 14 consumed).1 1 (codes "w1") 5
claim_stale_fresh_example =
    claim_stale_fresh (codes "w1") (codes "w2") 5 14 10 5 1 consumed consumed-IsValid held_since
      (omega arith)

abbrev second : Text
second = codes "w1-second"

other_worker : codes "w1" ≢ second
other_worker = λ e. cc (e)

stale : delivers 1 (claim_stale second 10 5 15 consumed).0 ≡ true
unfolding claim_stale consume publish Dict.put Dict.get
stale = refl

claim_stale_taken_example :
    (entry : Pending) × (Dict.get consumed.pending 1 ≡ some entry)
    × (10 + entry.delivered_at ≤ 15)
    × (Dict.get (claim_stale second 10 5 15 consumed).1.pending 1
        ≡ some (take_over second 15 entry))
    × ((renew 1 (codes "w1") 20 (claim_stale second 10 5 15 consumed).1).0 ≡ false)
claim_stale_taken_example =
    claim_stale_taken (codes "w1") second 15 20 10 5 1 consumed consumed-IsValid other_worker stale
