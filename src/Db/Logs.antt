-- ===== src/Db/Logs.antt =====
-- JobLogRepository of infrastructure/db/repositories.py.
use task_platform.Common.{ℕ, ◌+◌, List, [], ◌∷◌, ◌++◌, if◌then◌else◌, length, any, all}
use task_platform.Domain.Effects.{integrity_error, ok, err, Action}
use task_platform.Domain.Execution.{JobLog}
use task_platform.Db.Tables.{JobLogRecord, Database, is_attempt}
use task_platform.Db.Mappers.{log_to_record}

number_logs : ℕ → List JobLog → List JobLogRecord
number_logs id [] = []
number_logs id (l ∷ logs) = log_to_record id l ∷ number_logs (id + 1) logs

-- All rows or none: the composite foreign key wants the attempt of every log.
unfoldable pub add_many : List JobLog → Action Database Unit
unfolding number_logs
add_many logs db =
    if all (λ (l : JobLog). any (is_attempt l.run_id l.attempt) db.executions) logs
    then (
      ok tt,
      record db {
        logs = db.logs ++ number_logs db.next_log_id logs;
        next_log_id = db.next_log_id + length logs;
      },
    )
    else (err integrity_error, db)
