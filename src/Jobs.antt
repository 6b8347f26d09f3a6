-- ===== src/Jobs.antt =====
-- jobs/decorators.py and jobs/discovery.py: the decorator that registers a function, and the import of
-- the modules of a package. A function is known by a number, as in the registry; what an import runs is a parameter.
pub mod Discovered
pub mod Registered
use task_platform.Common.{
  ℕ, zero, suc, ◌+◌, ◌-◌, ◌*◌, ◌/◌, ◌%◌, ◌^◌, ◌≤◌, ◌<◌, ◌≡◌, refl, sym, ap, ◌∙◌, ◌≢◌, ◌↔◌, ◌⊎◌, inl,
  inr, Bool, true, false, not, ◌&&◌, ◌||◌, Option, none, some, List, [], ◌∷◌, ◌++◌, map, reverse,
  arith, ltb, leb, ◌==◌, if◌then◌else◌, ltb→lt, lt→ltb, leb→le, le→leb, ==_iff, tests, Bool-cases,
  Option-cases, is_some, length, get_last?, take, drop, filter, any, all, find?, sort_with, All,
  length-append, ℤ, pos, negsuc, pos_part, neg_part, sub_ℕ, ◌+ℤ◌, ◌-ℤ◌, ◌*ℤ◌, ◌≤ℤ◌, ltb_ℤ, +ℤ_parts,
  -ℤ_parts, eq_of_parts, int_laws, Text, codes, text_eq, text_eq_iff, text_eq_self, text_ltb,
  remove_prefix?, is_space, is_blank,
}
use task_platform.Domain.Effects.{
  Error, value_error, assertion_error, invalid_transition, job_not_registered, duplicate_job_name,
  entity_not_found, integrity_error, key_error, invalid_message, job_canceled, handler_timeout,
  handler_error, queue_error, api_error, Result, ok, err, injective_ok, Action, and_then,
  and_then-eq-ok, pure, raise, lift, gets, modify, continue, ◌>>=◌, ◌>>◌, >>=-eq-ok, >>=-eq-err,
  >>=-keeps, on_part,
}
use task_platform.Domain.Execution.{
  Instant, Seconds, one_second, JobExecution, new_execution, duration_seconds, JobLog,
}
use task_platform.Domain.Retry.{
  RetryPolicy, validate_policy, default_policy, min_seconds, delay_for_attempt, allows_retry,
}
use task_platform.Registry
use task_platform.Registry.{RegisteredHandler, TaskRegistry}

-- The inner `decorator` of `job`: it registers the function and gives it back.
unfoldable pub decorator : Text → Text → Seconds → RetryPolicy → ℕ → Action TaskRegistry ℕ
decorator name description timeout_seconds retry_policy func = do
  Registry.register (record {
    name = name;
    func = func;
    description = description;
    timeout_seconds = some timeout_seconds;
    retry_policy = some retry_policy;
  })
  pure func

-- The decorator, or the exception of the policy that it is given.
unfoldable pub job : Text → Text → Seconds → RetryPolicy → Result (ℕ → Action TaskRegistry ℕ)
unfolding decorator validate_policy
job name description timeout_seconds retry_policy =
    and_then (validate_policy retry_policy)
      (λ policy. ok (decorator name description timeout_seconds policy))

-- `str.removeprefix`
abbrev short_name : Text → Text → Text
short_name prefix name = elim (remove_prefix? prefix name) [ none ↦ name | some rest ↦ rest ]

-- A module whose short name starts with an underscore.
abbrev pub is_private : Text → Text → Bool
is_private prefix module_name = is_some (remove_prefix? (codes "_") (short_name prefix module_name))

module _ {S : Type 0} (import_module : Text → Action S Unit) (prefix : Text) where
  -- The loop of `discover_jobs` over the names that pkgutil gives, and the list it has so far.
  abbrev pub import_all : List Text → List Text → Action S (List Text)
  import_all [] discovered = pure discovered
  import_all (module_name ∷ names) discovered =
      if is_private prefix module_name
      then import_all names discovered
      else import_module module_name >> import_all names (discovered ++ module_name ∷ [])

unfoldable pub discover_jobs :
    {S : Type 0} → (Text → Action S Unit) → Text → List Text → Action S (List Text)
discover_jobs import_module package_name names =
    import_all import_module (package_name ++ codes ".") names []
