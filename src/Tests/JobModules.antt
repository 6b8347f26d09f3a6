-- ===== src/Tests/JobModules.antt =====
-- A package with a private module and one that decorates a function.
use task_platform.Common.{
  ◌≡◌, refl, List, [], ◌∷◌, if◌then◌else◌, pos, Text, codes, text_eq, remove_prefix?,
}
use task_platform.Domain.Effects.{ok}
use task_platform.Domain.Retry.{validate_policy, default_policy}
use task_platform.Common.Dict
use task_platform.Common.Dict.{Dict, Key, text_key, nat_key, dict_laws, IsDict}
use task_platform.Jobs.Registered.{discover_jobs-registers}
use task_platform.Jobs.{discover_jobs}
use task_platform.Jobs.Discovered.{Decoration, entry_of, import_body}

abbrev greeting : Decoration
greeting = record {
  name = codes "d.g";
  description = [];
  timeout_seconds = pos 5;
  retry_policy = default_policy;
  func = 7;
}

abbrev module_bodies : Text → List Decoration
module_bodies name = if text_eq name (codes "j.d") then greeting ∷ [] else []

abbrev module_names : List Text
module_names = codes "j._x" ∷ codes "j.d" ∷ []

greeting-IsValid : validate_policy greeting.retry_policy ≡ ok default_policy
unfolding validate_policy
greeting-IsValid = refl

discover_jobs-registers_example :
    discover_jobs (import_body module_bodies) (codes "j") module_names []
    ≡ (ok (codes "j.d" ∷ []), entry_of greeting ∷ [])
unfolding remove_prefix? text_eq Dict.get
discover_jobs-registers_example =
    discover_jobs-registers module_bodies (codes "j") module_names [] (greeting-IsValid, tt)
      (refl, tt)
