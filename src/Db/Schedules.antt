-- ===== src/Db/Schedules.antt =====
-- ScheduleRepository of infrastructure/db/repositories.py.
use task_platform.Common.{
  Bool, true, false, not, ◌||◌, Option, none, some, List, [], ◌∷◌, ◌++◌, if◌then◌else◌, filter, any,
  find?, Text, text_eq,
}
use task_platform.Domain.Effects.{
  entity_not_found, integrity_error, Result, ok, err, Action, and_then,
}
use task_platform.Domain.Schedule.{Schedule}
use task_platform.Db.Tables.{JobRecord, ScheduleRecord, Database, update_first}
use task_platform.Db.Mappers.{schedule_to_record, update_schedule_record, record_to_schedule}

abbrev pub has_id : Text → ScheduleRecord → Bool
has_id schedule_id r = text_eq r.id schedule_id

-- The primary key and the foreign key to the job.
unfoldable pub add : Schedule → Action Database Unit
add s db =
    if any (has_id s.id) db.schedules
      || not (any (λ (j : JobRecord). text_eq j.id s.job_id) db.jobs)
    then (err integrity_error, db)
    else (ok tt, record db { schedules = db.schedules ++ schedule_to_record s ∷ [] })

abbrev read_row : Option ScheduleRecord → Result (Option Schedule)
read_row none = ok none
read_row (some r) = and_then (record_to_schedule r) (λ s. ok (some s))

unfoldable pub get : Text → Action Database (Option Schedule)
get schedule_id db = (read_row (find? (has_id schedule_id) db.schedules), db)

-- Reading a row builds a Schedule, whose constructor may raise.
abbrev pub read_rows : List ScheduleRecord → Result (List Schedule)
read_rows [] = ok []
read_rows (r ∷ rows) =
    and_then (record_to_schedule r) (λ s. and_then (read_rows rows) (λ rest. ok (s ∷ rest)))

unfoldable pub list_by_job : Text → Action Database (List Schedule)
list_by_job job_id db =
    (read_rows (filter (λ (r : ScheduleRecord). text_eq r.job_id job_id) db.schedules), db)

unfoldable pub update : Schedule → Action Database Unit
update s db =
    if any (has_id s.id) db.schedules
    then (
      ok tt,
      record db {
        schedules = update_first (has_id s.id) (λ r. update_schedule_record r s) db.schedules;
      },
    )
    else (err entity_not_found, db)

unfoldable pub delete : Text → Action Database Bool
delete schedule_id db =
    if any (has_id schedule_id) db.schedules
    then (ok true, record db { schedules = filter (λ r. not (has_id schedule_id r)) db.schedules })
    else (ok false, db)
