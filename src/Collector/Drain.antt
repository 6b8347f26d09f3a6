-- ===== src/Collector/Drain.antt =====
-- About `LogCollector.drain` of infrastructure/logging/collector.py.
use task_platform.Common.{ℕ, ◌≡◌, refl, [], map, arith, if◌then◌else◌, Text, text_eq}
use task_platform.Common.Dict
use task_platform.Common.Dict.{Dict, Key, text_key, nat_key, dict_laws, IsDict}
use task_platform.Domain.Execution.{JobLog}
use task_platform.Collector.{LogCollector, entries_of, drain}

-- A drain hands out all lines of the run, marked with the attempt, and leaves none of them, while
-- the lines of every other run stay.
pub drain_lem :
    (run_id other : Text) (attempt : ℕ) (c : LogCollector)
    → ((drain run_id attempt c).0
        ≡ map (λ (l : JobLog). record l { attempt = attempt }) (entries_of run_id c))
      × (entries_of other (drain run_id attempt c).1
          ≡ (if text_eq run_id other then [] else entries_of other c))
unfolding drain entries_of
drain_lem run_id other attempt c = (refl, ground (arith, Dict.get-pop c run_id other))
