-- ===== src/Registry/Lookup.antt =====
-- What the registry answers after its operations.
use task_platform.Common.{
  ◌≡◌, [], ◌∷◌, ◌++◌, arith, if◌then◌else◌, Text, text_eq, inl, inr, not, ◌&&◌, Bool-cases,
}
use task_platform.Common.Dict
use task_platform.Common.Dict.{Dict, Key, text_key, nat_key, dict_laws, IsDict}
use task_platform.Domain.Effects.{duplicate_job_name, ok, err}
use task_platform.Registry.{
  RegisteredHandler, TaskRegistry, register, get, is_registered, list_names,
}

-- A name that is taken is refused and the registry stays as it was; a new one is registered, found
-- under its name alone and listed last.
pub get-register :
    (h : RegisteredHandler) (name : Text) (r : TaskRegistry)
    → let taken = is_registered h.name r in
      ((register h r).0 ≡ (if taken then err (duplicate_job_name h.name) else ok tt))
      × (get name (register h r).1
          ≡ (if not taken && text_eq h.name name then ok h else get name r))
      × (list_names (register h r).1
          ≡ (if taken then list_names r else list_names r ++ h.name ∷ []))
unfolding is_registered register get list_names
get-register h name r = elim (Bool-cases (Dict.has r h.name)) [
  | inl taken ↦ (ground arith, ground arith, ground arith)
  | inr free ↦ (
    ground arith,
    ground (arith, Dict.get-put r h.name name h),
    ground (arith, Dict.keys-put r h.name h free),
  )
]
