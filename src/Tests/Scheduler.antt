-- ===== src/Tests/Scheduler.antt =====
-- Rounds of the scheduler, the dispatcher and the sweeper with one job.
use task_platform.Common.{
  false, ℕ, ◌+◌, ◌≡◌, refl, Bool, true, none, some, List, [], ◌∷◌, pos, codes, text_eq, is_space,
  is_blank,
}
use task_platform.Domain.Status.{retrying, interval}
use task_platform.Domain.Effects.{queue_error, Result, ok, err, Action}
use task_platform.Domain.Execution.{JobExecution, new_execution}
use task_platform.Domain.Job.{Job}
use task_platform.Domain.Schedule.{Schedule, compute_next_run}
use task_platform.Domain.StateMachine.{allowed_transitions, can_transition, transition}
use task_platform.Domain.Idempotency.{Calendar, build_idempotency_key, scheduled_key}
use task_platform.Domain.Cancel
use task_platform.Queue.Message.{TaskMessage, validate_message}
use task_platform.Db.Tables.{ExecutionRecord}
use task_platform.Db.Mappers.{execution_to_record}
use task_platform.Db.Executions.{find_attempt}
use task_platform.Common.Dict
use task_platform.Registry
use task_platform.Executor.Wait.{raised}
use task_platform.Heap.{empty_heap, push, pop_due}
use task_platform.Heap.Entries.{count_items}
use task_platform.Scheduler
use task_platform.Dispatcher
use task_platform.Dispatcher.Triggers.{tick-keeps}
use task_platform.RetrySweeper
use task_platform.RetrySweeper.Restored.{sweep_one_restores}
use task_platform.Tests.Samples.{sample_job, sample_registry, sample_database, sample_execution}

abbrev hourly : Schedule
hourly = record {
  job_id = codes "j1";
  schedule_type = interval;
  id = codes "s1";
  interval_seconds = some (record { is_refused = false; timedelta = ok (pos 3600000000) });
  time_of_day = none;
  enabled = true;
}

abbrev calendar : Calendar
calendar = record { date_text = λ t. codes "2025-01-01"; time_text = λ t. codes "000000.000000" }

-- A scheduler with one entry that is due; its handler fails.
abbrev setting : Scheduler.Setting ℕ
setting = record {
  registry = sample_registry;
  claim = none;
  on_start = none;
  calendar = calendar;
  new_run_id = λ e. codes "r1";
  around = λ e. record {
    new_run_id = codes "r9";
    started_at = 10;
    finished_at = 20;
    wait = λ t. raised (codes "boom");
    meanwhile = λ w. w;
  };
  retried_at = λ e. 30;
}

abbrev planned : Scheduler.Planned
planned = record { schedule = hourly; job = sample_job; attempt_number = 1; run_id = none }

abbrev scheduler : Scheduler.Scheduler ℕ
scheduler = record {
  heap = push 5 planned empty_heap;
  runs = record { active = Cancel.no_runs; outside = 0 };
}

abbrev after_round : Result (List JobExecution) × Scheduler.Scheduler ℕ
after_round = Scheduler.tick setting 10 scheduler

abbrev reported : Result (List JobExecution) → List JobExecution
reported (ok l) = l
reported (err e) = []

abbrev any_kind : Schedule → Job → Bool
any_kind s j = true

-- A dispatcher with one entry that is due; its queue refuses the message.
abbrev callbacks : Dispatcher.Callbacks ℕ
callbacks = record {
  publish = λ m n. (err queue_error, n + 1);
  claim = none;
  release = some (λ key n. (ok tt, n + 10));
  on_enqueued = none;
  new_run_id = λ e. codes "r1";
  calendar = calendar;
}

abbrev dispatcher : Dispatcher.Dispatcher ℕ
dispatcher = record {
  heap = push 5 (record { schedule = hourly; job = sample_job }) empty_heap;
  outside = 0;
}

abbrev after_dispatch : Result (List JobExecution) × Dispatcher.Dispatcher ℕ
after_dispatch = Dispatcher.tick callbacks 10 dispatcher

dispatch_returns : after_dispatch ≡ (ok [], after_dispatch.1)
unfolding Dispatcher.tick push pop_due compute_next_run scheduled_key build_idempotency_key is_blank
    is_space validate_message new_execution transition can_transition allowed_transitions
dispatch_returns = refl

abbrev any_trigger : Dispatcher.Trigger → Bool
any_trigger t = true

tick-keeps_example :
    count_items any_trigger after_dispatch.1.heap.entries
    ≡ count_items any_trigger dispatcher.heap.entries
tick-keeps_example = tick-keeps any_trigger callbacks 10 dispatcher dispatch_returns

-- A retry that is due, and a queue that refuses its message.
abbrev due_execution : JobExecution
due_execution = record sample_execution { status = retrying; next_retry_at = some 100 }

abbrev due_row : ExecutionRecord
due_row = execution_to_record 1 due_execution

abbrev platform : RetrySweeper.Platform ℕ
platform = record { db = record sample_database { executions = due_row ∷ [] }; queue = 0 }

abbrev refuse : TaskMessage → Action ℕ Unit
refuse m n = (err queue_error, n + 1)

refused : RetrySweeper.publish_next refuse due_execution platform.queue ≡ (err queue_error, 1)
unfolding validate_message is_blank is_space new_execution
refused = refl

row_found : find_attempt (due_execution.run_id) 1 platform.db.executions ≡ some due_row
unfolding find_attempt execution_to_record text_eq new_execution
row_found = refl

sweep_one_restores_example :
    RetrySweeper.sweep_one refuse due_execution platform ≡ (ok [], record platform { queue = 1 })
unfolding execution_to_record
sweep_one_restores_example =
    sweep_one_restores refuse due_execution due_row platform queue_error 1 (refl, tt) row_found refl
      refl refused
