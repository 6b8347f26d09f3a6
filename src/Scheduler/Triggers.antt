-- ===== src/Scheduler/Triggers.antt =====
-- About the triggers in the heap over a round of scheduler.py.
use task_platform.Common.{ℕ, ◌+◌, Bool, some, if◌then◌else◌}
use task_platform.Domain.Execution.{Instant}
use task_platform.Domain.Job.{Job}
use task_platform.Domain.Schedule.{Schedule}
use task_platform.Executor.Attempt.{AttemptResult}
use task_platform.Heap.{Entry}
use task_platform.Heap.Entries.{count_items}
use task_platform.Heap.Adds.{Adds}
use task_platform.Scheduler.{Planned, Scheduler, Setting}

module _ (test : Schedule → Job → Bool) where
  abbrev pub is_kind : Planned → Bool
  is_kind p = test p.schedule p.job

  abbrev weight : Schedule → Job → ℕ
  weight schedule job = if test schedule job then 1 else 0

module _ {S : Type 0} (test : Schedule → Job → Bool) where
  abbrev counted : Scheduler S → ℕ
  counted s = count_items (is_kind test) s.heap.entries

  module _ (setting : Setting S) (now : Instant) where
    abbrev own : Entry Planned → ℕ
    own entry = weight test entry.item.schedule entry.item.job

    abbrev retry_of : Entry Planned → AttemptResult → Planned
    retry_of entry result = record entry.item {
      attempt_number = entry.item.attempt_number + 1;
      run_id = some result.execution.run_id;
    }
