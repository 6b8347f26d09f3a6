-- ===== src/Db/Keys.antt =====
-- IdempotencyRepository of infrastructure/db/repositories.py.
pub mod Owners
use task_platform.Common.{
  Bool, true, false, not, Option, none, some, List, [], ◌∷◌, ◌++◌, map, ◌==◌, if◌then◌else◌, filter,
  any, find?, Text, text_eq, ℕ, zero, suc, ◌+◌, ◌-◌, ◌*◌, ◌/◌, ◌%◌, ◌^◌, ◌≤◌, ◌<◌, ◌≡◌, refl, sym,
  ap, ◌∙◌, ◌≢◌, ◌↔◌, ◌⊎◌, inl, inr, ◌&&◌, ◌||◌, reverse, arith, ltb, leb, ltb→lt, lt→ltb, leb→le,
  le→leb, ==_iff, tests, Bool-cases, Option-cases, is_some, length, get_last?, take, drop, all, All,
  length-append, ℤ, pos, negsuc, pos_part, neg_part, sub_ℕ, ◌+ℤ◌, ◌-ℤ◌, ◌*ℤ◌, ◌≤ℤ◌, ltb_ℤ, +ℤ_parts,
  -ℤ_parts, eq_of_parts, int_laws, codes, text_eq_iff, text_eq_self, remove_prefix?, is_space,
  is_blank,
}
use task_platform.Domain.Effects.{
  integrity_error, ok, err, Action, Error, value_error, assertion_error, invalid_transition,
  job_not_registered, duplicate_job_name, entity_not_found, invalid_message, job_canceled,
  handler_timeout, handler_error, queue_error, Result, injective_ok, and_then, pure, raise, lift,
  gets, modify, continue, ◌>>=◌, ◌>>◌, >>=-eq-ok, >>=-eq-err, >>=-keeps, on_part,
}
use task_platform.Domain.Execution.{
  Instant, Seconds, one_second, JobExecution, new_execution, duration_seconds, JobLog,
}
use task_platform.Db.Tables.{
  JobRecord, IdempotencyRecord, Database, count_where, ScheduleRecord, ExecutionRecord,
  JobLogRecord, empty_database, is_attempt, update_first, update_where, sort_by,
}

abbrev pub has_key : Text → IdempotencyRecord → Bool
has_key key r = text_eq r.key key

-- `INSERT … ON CONFLICT DO NOTHING RETURNING`: the foreign key to the job still raises.
unfoldable pub try_claim : Text → Text → Text → Instant → Action Database Bool
try_claim key job_id run_id now db =
    if any (has_key key) db.keys
    then (ok false, db)
    else if any (λ (j : JobRecord). text_eq j.id job_id) db.jobs
    then (
      ok true,
      record db {
        keys =
            db.keys
            ++ record { key = key; job_id = job_id; run_id = run_id; created_at = now } ∷ [];
      },
    )
    else (err integrity_error, db)

unfoldable pub get_run_id : Text → Database → Option Text
get_run_id key db = elim (find? (has_key key) db.keys) [ none ↦ none | some r ↦ some r.run_id ]

unfoldable pub release : Text → Action Database Bool
release key db = (
  ok (count_where (has_key key) db.keys == 1),
  record db { keys = filter (λ r. not (has_key key r)) db.keys },
)

unfoldable pub list_orphan_keys : Database → List Text
list_orphan_keys db =
    map (λ r. r.key)
      (filter (λ r. not (any (λ e. text_eq e.run_id r.run_id) db.executions)) db.keys)
