-- ===== src/Tests/Messages.antt =====
-- The queue as a log, its JSON messages and the entries of a stream, and the loop of a process.
use task_platform.Common.{
  ℕ, ◌≡◌, refl, true, false, none, some, List, [], ◌∷◌, codes, is_space, is_blank,
}
use task_platform.Domain.Effects.{ok}
use task_platform.Common.Dict.{text_key}
use task_platform.Queue.Message.{validate_message}
use task_platform.Queue.Log.{
  Call, call_publish, call_consume, call_ack, call_claim_stale, call_renew, call_depth, run,
  empty_log,
}
use task_platform.Queue.Memory.{empty_queue}
use task_platform.Queue.Memory.Refines.{run_memory, run_memory-refines}
use task_platform.Queue.Codec.{object, JsonCodec, fields_of, to_json, from_json}
use task_platform.Queue.Codec.RoundTrip.{from_json-to_json}
use task_platform.Queue.RedisStream.{StreamEntry, Client, to_deliveries}
use task_platform.Queue.RedisStream.Dropped.{
  to_deliveries-new, valid_deliveries, invalid_ids, ack_all,
}
use task_platform.Prometheus.{escape}
use task_platform.Prometheus.Labels.{unescape_from, stays_inside, unescape-escape}
use task_platform.Tests.Samples.{sample_message}

abbrev some_calls : List Call
some_calls =
    call_publish sample_message
    ∷ call_consume (codes "w1") 5
    ∷ call_claim_stale (codes "w2") 10 5 40
    ∷ call_renew 1 (codes "w2") 50
    ∷ call_ack 1
    ∷ call_depth
    ∷ []

run_memory-refines_example : run_memory some_calls empty_queue ≡ run some_calls empty_log
run_memory-refines_example = run_memory-refines some_calls

-- A library that knows one object.
abbrev one_object : JsonCodec
one_object = record {
  dumps = λ fields. codes "{}";
  loads = λ raw. some (object (fields_of sample_message));
}

accepted_message : validate_message sample_message ≡ ok sample_message
unfolding validate_message is_blank is_space
accepted_message = refl

from_json-to_json_example :
    from_json one_object (to_json one_object sample_message) ≡ ok sample_message
from_json-to_json_example = from_json-to_json one_object sample_message refl accepted_message

-- A server that lists the ids that were acknowledged.
abbrev server : Client (List ℕ)
server = record {
  xadd = λ fields s. (1, s);
  xreadgroup = λ consumer block s. ([], s);
  xack_xdel = λ id s. (1, id ∷ s);
  xautoclaim = λ consumer min_idle_ms count s. ([], s);
  xpending_range = λ id s. none;
  xclaim = λ consumer id s. ([], s);
  xlen = λ s. 0;
  xpending = λ s. 0;
}

-- One entry with a payload and one without.
abbrev two_entries : List StreamEntry
two_entries = (4, some ((codes "payload", codes "{}") ∷ [])) ∷ (5, none) ∷ []

to_deliveries-new_example : to_deliveries one_object server two_entries (codes "w1") false [] ≡ (
  valid_deliveries one_object server (codes "w1") two_entries,
  ack_all one_object server (invalid_ids one_object server two_entries) [],
)
to_deliveries-new_example = to_deliveries-new one_object server two_entries (codes "w1") []

unescape-escape_example :
    (unescape_from false (escape (34 ∷ 10 ∷ 92 ∷ [])) ≡ 34 ∷ 10 ∷ 92 ∷ [])
    × (stays_inside false (escape (34 ∷ 10 ∷ 92 ∷ [])) ≡ true)
unescape-escape_example = unescape-escape (34 ∷ 10 ∷ 92 ∷ [])
