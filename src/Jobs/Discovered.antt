-- ===== src/Jobs/Discovered.antt =====
-- What a discovery leaves in the registry.
use task_platform.Common.{
  ℕ, ◌≡◌, refl, sym, ap, ◌∙◌, inl, inr, Bool, true, false, not, none, some, List, [], ◌∷◌, ◌++◌,
  map, arith, if◌then◌else◌, Bool-cases, filter, Text, codes, append_assoc, append_nil, map-append,
}
use task_platform.Domain.Effects.{ok, injective_ok, Action, pure, lift, ◌>>=◌, ◌>>◌, >>=-eq-ok}
use task_platform.Domain.Retry.{RetryPolicy, validate_policy}
use task_platform.Domain.Execution.{Seconds}
use task_platform.Common.Dict
use task_platform.Common.Dict.{Dict, Key, text_key, nat_key, dict_laws, IsDict}
use task_platform.Registry
use task_platform.Registry.{RegisteredHandler, TaskRegistry}
use task_platform.Jobs.{decorator, job, is_private, import_all, discover_jobs}

-- A decorated function in the body of a module.
pub record Decoration : Type 0 where
  pub name : Text
  pub description : Text
  pub timeout_seconds : Seconds
  pub retry_policy : RetryPolicy
  pub func : ℕ

abbrev pub handler_of : Decoration → RegisteredHandler
handler_of d = record {
  name = d.name;
  func = d.func;
  description = d.description;
  timeout_seconds = some d.timeout_seconds;
  retry_policy = some d.retry_policy;
}

abbrev pub entry_of : Decoration → Text × RegisteredHandler
entry_of d = (d.name, handler_of d)

-- What the import of a module runs: its decorators, from the first to the last.
unfoldable pub define : Decoration → Action TaskRegistry ℕ
unfolding job decorator validate_policy Registry.register
define d =
    lift (job d.name d.description d.timeout_seconds d.retry_policy) >>= λ decorate. decorate d.func

abbrev pub define_all : List Decoration → Action TaskRegistry Unit
define_all [] = pure tt
define_all (d ∷ ds) = define d >> define_all ds

module _ (bodies : Text → List Decoration) where
  abbrev pub import_body : Text → Action TaskRegistry Unit
  import_body module_name = define_all (bodies module_name)

  abbrev pub decorations_of : List Text → List Decoration
  decorations_of [] = []
  decorations_of (m ∷ names) = bodies m ++ decorations_of names

define-eq-ok :
    (d : Decoration) (r : TaskRegistry) {func : ℕ} {r' : TaskRegistry}
    → define d r ≡ (ok func, r')
    → (Dict.has r d.name ≡ false) × (r' ≡ Dict.put r d.name (handler_of d))
unfolding define job decorator validate_policy Registry.register
define-eq-ok d r h = ground (arith, h)

not_has :
    {V : Type 0}
    → (d : Dict Text V) (name : Text) → Dict.has d name ≡ false
    → Dict.get d name ≡ none
unfolding Dict.has
not_has d name h = ground (arith, h)

-- The state after decorators that returned.
pub define_all-eq-ok :
    (ds : List Decoration) (r : TaskRegistry) {r' : TaskRegistry}
    → Dict.IsDict r
    → define_all ds r ≡ (ok tt, r')
    → (r' ≡ r ++ map entry_of ds) × Dict.IsDict r'
define_all-eq-ok [] r {r'} d h = go (ap (λ p. p.1) h)
  where
    go : {r' : TaskRegistry} → r ≡ r' → (r' ≡ r ++ []) × Dict.IsDict r'
    go e = rw (sym e) (sym (append_nil r), d)
define_all-eq-ok (e ∷ ds) r {r'} d h =
    let (func, u, first, rest) = >>=-eq-ok (define e) (λ _. define_all ds) r h in
    let (free, put_e) = define-eq-ok e r first in
    let (grown, distinct) =
      define_all-eq-ok ds u (rw put_e (Dict.put-IsDict r e.name (handler_of e) d)) rest in
    (
      grown
          ∙ ap (λ t. t ++ map entry_of ds)
              (put_e ∙ Dict.put_absent r e.name (handler_of e) (not_has r e.name free))
          ∙ append_assoc r (entry_of e ∷ []) (map entry_of ds),
      distinct,
    )

-- The names that do not start with an underscore after the prefix.
abbrev pub public_of : Text → List Text → List Text
public_of prefix names = filter (λ name. not (is_private prefix name)) names

module _ (bodies : Text → List Decoration) (prefix : Text) where
  import_all-step :
      (m : Text) (names discovered : List Text) (r : TaskRegistry) (b : Bool)
      → is_private prefix m ≡ b
      → import_all (import_body bodies) prefix (m ∷ names) discovered r ≡ (
          if b
          then import_all (import_body bodies) prefix names discovered r
          else (import_body bodies m
                >> import_all (import_body bodies) prefix names (discovered ++ m ∷ []))
              r)
  import_all-step m names discovered r true e = rw e refl
  import_all-step m names discovered r false e = rw e refl

  import_all-eq-ok :
      (names discovered : List Text) (r : TaskRegistry) {found : List Text} {r' : TaskRegistry}
      → Dict.IsDict r
      → import_all (import_body bodies) prefix names discovered r ≡ (ok found, r')
      → let public = public_of prefix names in
        (found ≡ discovered ++ public)
        × (r' ≡ r ++ map entry_of (decorations_of bodies public))
        × Dict.IsDict r'
  import_all-eq-ok [] discovered r {found} {r'} d h =
      let (grown, distinct) = define_all-eq-ok [] r d (ap (λ p. (ok tt, p.1)) h) in
      (sym (injective_ok (ap (λ p. p.0) h)) ∙ sym (append_nil discovered), grown, distinct)
  import_all-eq-ok (m ∷ names) discovered r {found} {r'} d h =
      elim (Bool-cases (is_private prefix m)) [
        | inl e ↦ rw e (
            import_all-eq-ok names discovered r d
              (sym (import_all-step m names discovered r true e) ∙ h))
        | inr e ↦
            let (unit, u, first, rest) =
              >>=-eq-ok (import_body bodies m)
                (λ _. import_all (import_body bodies) prefix names (discovered ++ m ∷ [])) r
                (sym (import_all-step m names discovered r false e) ∙ h) in
            let (grown, distinct) = define_all-eq-ok (bodies m) r d first in
            let (all_found, all_grown, all_distinct) =
              import_all-eq-ok names (discovered ++ m ∷ []) u distinct rest in
            rw e (
              all_found ∙ append_assoc discovered (m ∷ []) (public_of prefix names),
              all_grown
                  ∙ ap (λ t. t ++ map entry_of (decorations_of bodies (public_of prefix names)))
                      grown
                  ∙ append_assoc r (map entry_of (bodies m))
                      (map entry_of (decorations_of bodies (public_of prefix names)))
                  ∙ ap (λ t. r ++ t)
                      (sym (
                        map-append entry_of (bodies m)
                          (decorations_of bodies (public_of prefix names)))),
              all_distinct,
            )
      ]

-- From a registry whose names are distinct, with imports that run decorators: a discovery that returns
-- lists the modules of the package that are not private, in their order, and has added to the
-- registry exactly the functions that these decorate, in their order, and names are still distinct.
pub discover_jobs-grows :
    (bodies : Text → List Decoration) (package_name : Text) (names : List Text) (r : TaskRegistry)
    (found : List Text) (r' : TaskRegistry)
    → Dict.IsDict r
    → discover_jobs (import_body bodies) package_name names r ≡ (ok found, r')
    → let public = public_of (package_name ++ codes ".") names in
      (found ≡ public) × (r' ≡ r ++ map entry_of (decorations_of bodies public)) × Dict.IsDict r'
unfolding discover_jobs
discover_jobs-grows bodies package_name names r found r' d h =
    import_all-eq-ok bodies (package_name ++ codes ".") names [] r d h
