-- ===== src/Lib.antt =====
-- Verification of the task platform (src/task_platform): jobs are published as messages to a queue,
-- a worker takes a delivery, runs the handler of the job as an attempt and saves what came of it in
-- a database, so that a message that is delivered again is recognised.
--
-- Which file models what (paths from src/task_platform):
--   Domain/Status, StateMachine   domain/enums.py, domain/state_machine.py
--   Domain/Execution, Job, Retry  domain/models.py
--   Domain/Schedule               domain/schedule.py
--   Domain/Cancel, Idempotency    domain/cancel.py, domain/idempotency.py
--   Domain/Effects                Python's exceptions, as results of actions on a state
--   Queue/Message, Codec, Log     infrastructure/queue/base.py: messages, their JSON text, and as a log
--                                 the abstract queue that TaskQueue asks for
--   Queue/Memory, RedisStream     infrastructure/queue/memory.py, redis_stream.py
--   Db/Tables, Mappers, Session   infrastructure/db/models.py, mappers.py, session.py
--   Db/Jobs, Schedules, Executions, Logs, Keys, Pages, Statistics   infrastructure/db/repositories.py
--   Registry, Collector           registry.py, infrastructure/logging/collector.py
--   Executor/Wait, Attempt        executor.py
--   Worker, Worker/Fetch          worker.py
--   RetrySweeper, Recovery        retry_sweeper.py, recovery.py
--   Cancellation                  cancellation.py
--   Heap                          the heaps of scheduler.py and dispatcher.py
--   Scheduler, Dispatcher         scheduler.py, dispatcher.py
--   Metrics, Prometheus, Alerts   metrics.py, prometheus.py, alerts.py
--   Api/Schemas, Errors           api/schemas.py, api/errors.py and the session of api/deps.py
--   Api/Jobs, Executions          api/routers/jobs.py, api/routers/executions.py
--   Bootstrap, Runtime, Faults    bootstrap.py, runtime.py, faults.py
--   Jobs                          jobs/decorators.py, jobs/discovery.py
--   StructuredLog                 infrastructure/logging/structured.py
--   Etl/Records, Quality, Pipeline   etl/records.py, etl/quality.py, etl/pipeline.py
-- A file below one of these holds what is proved of it; Tests holds concrete instances. Functions and
-- fields have the names of the source, private ones without their underscore.
--
-- How the program is modelled. A text is the list of its code points. An instant is the number of
-- microseconds since the first representable one, a number of seconds a whole number of microseconds,
-- positive or negative. A method that changes an object or the database is a function from the state
-- to the new state, with a result or an exception; methods under a lock and transactions are single
-- steps, and what others do between the steps of an attempt is the argument `meanwhile`. A table is
-- the list of its rows in the order of insertion; keys and constraints are checked as the schema
-- does. The clock, new ids and the handler are arguments, and libraries are parameters: the JSON
-- codec, the commands of the redis client, how a name is stripped, how a value is printed. An HTTP
-- request is one transaction, whose exceptions become a response with a status and a code. Recursion is
-- structural: the loop that waits for a handler runs over the list of the rounds it sees, `consume` of
-- the redis queue over the times that its rounds may block, and the loop of a process has fuel, one
-- for each test of the stop event.
--
-- Numbers. A float of seconds is finite and exact, in microseconds; an interval is seen through the
-- timedelta that the standard library makes of it, a next run ends at the year 10000 while the sum
-- of an instant and a retry delay does not, and a power of 2 that no float holds raises. A decimal
-- is finite; products are rounded to the 28 digits of the default context and an amount that does
-- not fit raises, while the sums of amounts are exact, as they are up to 28 digits. An exception
-- that is no Exception comes only from the handler of a job. A text that the JSON library refuses
-- is one that it cannot decode: its limits on digits and on nesting are not modelled.
--
-- Not modelled: the command line, the start of the web application and its routes for health, metrics and
-- alerts, the generator of test data and the files of the daily report,
-- configuration and migrations, and the loops of threads and signal handlers; the decoding of rows
-- is that of the ORM.
pub mod Common
pub mod Domain
pub mod Etl
pub mod Queue
pub mod Db
pub mod Registry
pub mod Collector
pub mod Executor
pub mod Worker
pub mod RetrySweeper
pub mod Recovery
pub mod Cancellation
pub mod Heap
pub mod Dispatcher
pub mod Scheduler
pub mod Metrics
pub mod Alerts
pub mod Api
pub mod Bootstrap
pub mod Jobs
pub mod Faults
pub mod StructuredLog
pub mod Runtime
pub mod Prometheus
pub mod Tests
