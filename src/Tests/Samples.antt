-- ===== src/Tests/Samples.antt =====
-- Concrete jobs, messages and states for the tests.
use task_platform.Common.{true, none, some, [], ◌∷◌, pos, codes}
use task_platform.Domain.Status.{running, custom, exponential}
use task_platform.Domain.Execution.{JobExecution, new_execution}
use task_platform.Domain.Retry.{RetryPolicy}
use task_platform.Domain.Job.{Job}
use task_platform.Domain.Cancel.{no_runs}
use task_platform.Queue.Message.{TaskMessage, Delivery}
use task_platform.Queue.Memory.{MemoryQueue}
use task_platform.Db.Tables.{Database, empty_database}
use task_platform.Db.Mappers.{job_to_record}
use task_platform.Registry.{RegisteredHandler, TaskRegistry}
use task_platform.Executor.Wait.{raised}
use task_platform.Executor.Attempt.{Surroundings}
use task_platform.Worker.{World}

abbrev pub sample_policy : RetryPolicy
sample_policy = record {
  max_attempts = 3;
  backoff = exponential;
  base_delay_seconds = pos 1000000;
  max_delay_seconds = pos 60000000;
}

abbrev pub sample_job : Job
sample_job = record {
  name = codes "report";
  job_type = custom;
  handler = codes "report";
  id = codes "j1";
  timeout_seconds = pos 300000000;
  retry_policy = sample_policy;
  enabled = true;
  created_at = 0;
}

abbrev pub sample_handler : RegisteredHandler
sample_handler = record {
  name = codes "report";
  func = 7;
  description = [];
  timeout_seconds = none;
  retry_policy = none;
}

abbrev pub sample_registry : TaskRegistry
sample_registry = (codes "report", sample_handler) ∷ []

abbrev pub sample_message : TaskMessage
sample_message = record {
  job_id = codes "j1";
  run_id = codes "r1";
  attempt = 1;
  idempotency_key = none;
}

abbrev pub sample_delivery : Delivery
sample_delivery = record {
  message_id = 1;
  message = sample_message;
  consumer = codes "w1";
  delivery_count = 1;
}

abbrev pub sample_database : Database
sample_database = record empty_database { jobs = job_to_record sample_job ∷ [] }

abbrev pub sample_queue : MemoryQueue
sample_queue = record {
  ready = [];
  pending =
      (
        1,
        record {
          message = sample_message;
          consumer = codes "w1";
          delivered_at = 0;
          delivery_count = 1;
        },
      )
      ∷ [];
  seq = 2;
}

abbrev pub sample_world : World
sample_world = record { db = sample_database; queue = sample_queue; active = no_runs; logs = [] }

-- A handler that fails, after others did nothing.
abbrev pub sample_around : Surroundings World
sample_around = record {
  new_run_id = codes "r9";
  started_at = 10;
  finished_at = 20;
  wait = λ t. raised (codes "boom");
  meanwhile = λ w. w;
}

abbrev pub sample_execution : JobExecution
sample_execution = record (new_execution (codes "j1") (codes "r1")) {
  status = running;
  attempt = 1;
  started_at = some 10;
}
