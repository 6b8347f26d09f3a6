-- ===== src/Collector.antt =====
-- infrastructure/logging/collector.py: the log lines of each run, held until they are saved.
pub mod Drain
use task_platform.Common.{
  ℕ, zero, suc, ◌+◌, ◌-◌, ◌*◌, ◌/◌, ◌%◌, ◌^◌, ◌≤◌, ◌<◌, ◌≡◌, refl, sym, ap, ◌∙◌, ◌≢◌, ◌↔◌, ◌⊎◌, inl,
  inr, Bool, true, false, not, ◌&&◌, ◌||◌, Option, none, some, List, [], ◌∷◌, ◌++◌, map, reverse,
  arith, ltb, leb, ◌==◌, if◌then◌else◌, ltb→lt, lt→ltb, leb→le, le→leb, ==_iff, tests, Bool-cases,
  Option-cases, is_some, length, get_last?, take, drop, filter, any, all, find?, All, length-append,
  ℤ, pos, negsuc, pos_part, neg_part, sub_ℕ, ◌+ℤ◌, ◌-ℤ◌, ◌*ℤ◌, ◌≤ℤ◌, ltb_ℤ, +ℤ_parts, -ℤ_parts,
  eq_of_parts, int_laws, Text, codes, text_eq, text_eq_iff, text_eq_self, remove_prefix?, is_space,
  is_blank,
}
use task_platform.Common.Dict
use task_platform.Common.Dict.{Dict, Key, text_key, nat_key, dict_laws, IsDict}
use task_platform.Domain.Execution.{
  Instant, Seconds, one_second, JobExecution, new_execution, duration_seconds, JobLog,
}

-- What `emit` reads of a logging record.
pub record LogRecord : Type 0 where
  pub run_id : Option Text
  pub name : Text
  pub level : Text
  pub message : Text
  pub created : Instant

abbrev pub LogCollector : Type 0
LogCollector = Dict Text (List JobLog)

abbrev job_logger_prefix : Text
job_logger_prefix = codes "task_platform.job."

-- `_extract_run_id`
unfoldable pub extract_run_id : LogRecord → Option Text
unfolding remove_prefix?
extract_run_id r = elim r.run_id [
  | some run_id ↦ some run_id
  | none ↦ remove_prefix? job_logger_prefix r.name
]

-- The entries of a run: the dict makes an empty list for a key that it lacks.
unfoldable pub entries_of : Text → LogCollector → List JobLog
entries_of run_id c = elim (Dict.get c run_id) [ none ↦ [] | some entries ↦ entries ]

abbrev append_entry : Text → LogRecord → LogCollector → LogCollector
append_entry run_id r c = Dict.put c run_id (
    entries_of run_id c
    ++ record {
      run_id = run_id;
      attempt = 0;
      level = r.level;
      message = r.message;
      created_at = r.created;
    }
      ∷ [])

unfoldable pub emit : LogRecord → LogCollector → LogCollector
unfolding extract_run_id entries_of
emit r c = elim (extract_run_id r) [ none ↦ c | some run_id ↦ append_entry run_id r c ]

unfoldable pub drain : Text → ℕ → LogCollector → List JobLog × LogCollector
unfolding entries_of
drain run_id attempt c =
    (map (λ (l : JobLog). record l { attempt = attempt }) (entries_of run_id c), Dict.pop c run_id)
