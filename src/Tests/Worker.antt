-- ===== src/Tests/Worker.antt =====
-- Deliveries processed by the worker: the sample message fails once and is then delivered again.
use task_platform.Registry
use task_platform.Collector
use task_platform.Db.Keys
use task_platform.Db.Logs
use task_platform.Domain.Cancel
use task_platform.Db.Mappers.{
  job_to_record, record_to_job, execution_to_record, update_execution_record, record_to_execution,
  log_to_record,
}
use task_platform.Domain.StateMachine.{allowed_transitions, can_transition, transition}
use task_platform.Common.{
  ◌≡◌, refl, ◌≢◌, true, false, none, some, [], ◌∷◌, ◌*ℤ◌, codes, text_eq, is_space, is_blank,
}
use task_platform.Domain.Effects.{value_error, Result, ok, err}
use task_platform.Domain.Execution.{new_execution}
use task_platform.Domain.Retry.{validate_policy, delay_for_attempt, allows_retry}
use task_platform.Domain.Job.{validate_job}
use task_platform.Domain.Cancel.{
  ActiveRuns, no_runs, new_token, fire, check, register, unregister, cancel, active_ids,
}
use task_platform.Queue.Message.{Delivery}
use task_platform.Queue.Memory
use task_platform.Db.Executions
use task_platform.Db.Jobs
use task_platform.Executor.Attempt.{
  resolve_timeout_seconds, resolve_retry_policy, finish_attempt, execute_attempt,
}
use task_platform.Worker.{
  is_handled, retry_scheduled, dropped, duplicate, ProcessResult, World, check_duplicate,
  persist_started, persist_final, unrunnable_execution, persist_result, persist_unrunnable,
  execute_and_persist, process,
}
use task_platform.Worker.Saved.{IsSaved}
use task_platform.Worker.Acks.{process_acks, process-keeps_queue, execute_and_persist-unregisters}
use task_platform.Worker.Redelivery.{process-IsSaved, process_redelivered}
use task_platform.Common.Dict
use task_platform.Common.Dict.{nat_key}
use task_platform.Worker.Fetch.{Fetching, next_delivery}
use task_platform.Worker.Fetch.Kept.{message_of-next_delivery}
use task_platform.Queue.Memory.Keeping.{message_of, publish-IsValid, empty-IsValid}
use task_platform.Tests.Samples.{
  sample_job, sample_registry, sample_message, sample_delivery, sample_database, sample_queue,
  sample_world, sample_around,
}

-- The first delivery schedules a retry.
abbrev first_result : Result ProcessResult × World
first_result = process sample_registry 30 sample_around sample_delivery sample_world

abbrev reported : Result ProcessResult → ProcessResult
reported (ok r) = r
reported (err e) = record { outcome = dropped; execution = none }

abbrev again : Delivery
again = record sample_delivery { message_id = 2; delivery_count = 2 }

named : sample_message.run_id ≢ []
named = λ e. cc (e)

first_run : first_result ≡ (ok (reported first_result.0), first_result.1)
unfolding process Jobs.get text_eq job_to_record record_to_job validate_policy validate_job is_blank
    is_space Executions.get_attempt Executions.add Executions.find_attempt Executions.update
    Executions.upsert execute_attempt new_execution Registry.get Dict.get Dict.pop Dict.put
    persist_started resolve_retry_policy persist_result delay_for_attempt Collector.drain
    Collector.entries_of ◌*ℤ◌ Keys.get_run_id Logs.add_many execution_to_record log_to_record
    record_to_execution update_execution_record Cancel.new_token Cancel.register Cancel.unregister
    allows_retry allowed_transitions can_transition transition finish_attempt
    resolve_timeout_seconds Memory.ack check_duplicate execute_and_persist is_handled persist_final
    persist_unrunnable unrunnable_execution
first_run = refl

first_outcome : (reported first_result.0).outcome ≡ retry_scheduled
unfolding process Jobs.get text_eq job_to_record record_to_job validate_policy validate_job is_blank
    is_space Executions.get_attempt Executions.add Executions.find_attempt Executions.update
    Executions.upsert execute_attempt new_execution Registry.get Dict.get Dict.pop Dict.put
    persist_started resolve_retry_policy persist_result delay_for_attempt Collector.drain
    Collector.entries_of ◌*ℤ◌ Keys.get_run_id Logs.add_many execution_to_record log_to_record
    record_to_execution update_execution_record Cancel.new_token Cancel.register Cancel.unregister
    allows_retry allowed_transitions can_transition transition finish_attempt
    resolve_timeout_seconds Memory.ack check_duplicate execute_and_persist is_handled persist_final
    persist_unrunnable unrunnable_execution
first_outcome = refl

not_dropped : (reported first_result.0).outcome ≢ dropped
not_dropped = λ e. cc (e, first_outcome)

not_duplicate : (reported first_result.0).outcome ≢ duplicate
not_duplicate = λ e. cc (e, first_outcome)

still_known : (Jobs.get (codes "j1") first_result.1.db).0 ≡ ok (some sample_job)
unfolding process Jobs.get text_eq job_to_record record_to_job validate_policy validate_job is_blank
    is_space Executions.get_attempt Executions.add Executions.find_attempt Executions.update
    Executions.upsert execute_attempt new_execution Registry.get Dict.get Dict.pop Dict.put
    persist_started resolve_retry_policy persist_result delay_for_attempt Collector.drain
    Collector.entries_of ◌*ℤ◌ Keys.get_run_id Logs.add_many execution_to_record log_to_record
    record_to_execution update_execution_record Cancel.new_token Cancel.register Cancel.unregister
    allows_retry allowed_transitions can_transition transition finish_attempt
    resolve_timeout_seconds Memory.ack check_duplicate execute_and_persist is_handled persist_final
    persist_unrunnable unrunnable_execution
still_known = refl

process-IsSaved_example : IsSaved sample_message (reported first_result.0) first_result.1
process-IsSaved_example =
    process-IsSaved sample_registry 30 sample_around sample_delivery sample_world named not_dropped
      not_duplicate first_run

process_redelivered_example : process sample_registry 30 sample_around again first_result.1 ≡ (
  ok (record {
    outcome = duplicate;
    execution = Executions.get_attempt (codes "r1") 1 first_result.1.db;
  }),
  record first_result.1 { queue = (Memory.ack 2 first_result.1.queue).1 },
)
process_redelivered_example =
    process_redelivered sample_registry 30 sample_around sample_delivery again sample_world
      first_result.1 sample_job named not_dropped not_duplicate first_run refl refl still_known

process_acks_example : Dict.get first_result.1.queue.pending 1 ≡ none
process_acks_example =
    process_acks sample_registry 30 sample_around sample_delivery sample_world first_run

-- A handler that was unregistered, and a database without the job: nothing can be saved.
abbrev odd_world : World
odd_world = record sample_world {
  db = record sample_database {
    jobs = record (job_to_record sample_job) { retry_max_attempts = 0 } ∷ [];
  };
}

odd_run :
    process sample_registry 30 sample_around sample_delivery odd_world
    ≡ (err value_error, odd_world)
unfolding process Jobs.get text_eq job_to_record record_to_job validate_policy validate_job is_blank
    is_space Executions.get_attempt Executions.add Executions.find_attempt Executions.update
    Executions.upsert execute_attempt new_execution Registry.get Dict.get Dict.pop Dict.put
    persist_started resolve_retry_policy persist_result delay_for_attempt Collector.drain
    Collector.entries_of ◌*ℤ◌ Keys.get_run_id Logs.add_many execution_to_record log_to_record
    record_to_execution update_execution_record Cancel.new_token Cancel.register Cancel.unregister
    allows_retry allowed_transitions can_transition transition finish_attempt
    resolve_timeout_seconds Memory.ack check_duplicate execute_and_persist is_handled persist_final
    persist_unrunnable unrunnable_execution
odd_run = refl

is_pending : Dict.has sample_queue.pending 1 ≡ true
unfolding Dict.has Dict.get
is_pending = refl

process-keeps_queue_example : Dict.has odd_world.queue.pending 1 ≡ true
process-keeps_queue_example =
    process-keeps_queue sample_registry 30 sample_around (λ q. Dict.has q.pending 1 ≡ true)
      sample_delivery odd_world (λ s h. h) odd_run is_pending

-- The same attempt without its delivery.
abbrev first_attempt : Result ProcessResult × World
first_attempt =
    execute_and_persist sample_registry 30 sample_around sample_job sample_message sample_world

execute_and_persist-unregisters_example :
    (Cancel.cancel (codes "r1") first_attempt.1.active).0 ≡ false
execute_and_persist-unregisters_example =
    execute_and_persist-unregisters sample_registry 30 sample_around sample_job sample_message
      sample_world

abbrev idle : Fetching
idle = record {
  world = record sample_world { queue = (Memory.publish sample_message Memory.empty_queue).1 };
  next_reclaim_at = 3;
}

message_of-next_delivery_example :
    message_of (next_delivery (codes "w1") (some 10) 5 7 idle).1.world.queue 1
    ≡ message_of idle.world.queue 1
message_of-next_delivery_example =
    message_of-next_delivery (codes "w1") (some 10) 5 7 idle 1
      (publish-IsValid sample_message Memory.empty_queue empty-IsValid)
