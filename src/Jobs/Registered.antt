-- ===== src/Jobs/Registered.antt =====
-- A discovery whose modules decorate functions under distinct names returns.
use task_platform.Common.{
  not, Bool, if◌then◌else◌, ◌≡◌, refl, sym, ap, ◌∙◌, none, List, [], ◌∷◌, ◌++◌, map, arith, is_some,
  All, append_assoc, append_nil, Text, text_eq_iff, text_eq_self, true, false, map-append, codes,
}
use task_platform.Domain.Effects.{Result, lift, and_then, pure, continue, ◌>>=◌, ◌>>◌, ok}
use task_platform.Domain.Retry.{validate_policy}
use task_platform.Common.Dict
use task_platform.Common.Dict.{Dict, Key, text_key, nat_key, dict_laws, IsDict}
use task_platform.Registry
use task_platform.Registry.{RegisteredHandler, TaskRegistry}
use task_platform.Jobs.{decorator, job, import_all, discover_jobs, is_private}
use task_platform.Jobs.Discovered.{
  Decoration, handler_of, entry_of, define, define_all, public_of, import_body, decorations_of,
}

-- The policy is one that its constructor accepts.
abbrev pub IsValid : Decoration → Type 0
IsValid d = validate_policy d.retry_policy ≡ ok d.retry_policy

module _ {V : Type 0} where
  has_appended :
      (r : Dict Text V) (name : Text) (v : V) (rest : Dict Text V)
      → is_some (Dict.get (r ++ (name, v) ∷ rest) name) ≡ true
  unfolding Dict.get
  has_appended [] name v rest = rw (text_eq_self name) refl
  has_appended ((j, w) ∷ r) name v rest = ground (arith, has_appended r name v rest)

  free_before :
      (r : Dict Text V) (name : Text) (v : V) (rest : Dict Text V)
      → Dict.IsDict (r ++ (name, v) ∷ rest)
      → Dict.get r name ≡ none
  unfolding Dict.get
  free_before [] name v rest h = refl
  free_before ((j, w) ∷ r) name v rest h =
      ground
        (arith, has_appended r name v rest, free_before r name v rest h.1, h.0, text_eq_iff j name)

module _ {V : Type 0} where
  absent_before :
      (r rest : Dict Text V) (name : Text)
      → Dict.get (r ++ rest) name ≡ none
      → Dict.get r name ≡ none
  unfolding Dict.get
  absent_before [] rest name h = refl
  absent_before ((j, w) ∷ r) rest name h = ground (arith, absent_before r rest name, h)

  IsDict-before : (r rest : Dict Text V) → Dict.IsDict (r ++ rest) → Dict.IsDict r
  IsDict-before [] rest h = tt
  IsDict-before ((j, w) ∷ r) rest (h, hs) = (absent_before r rest j h, IsDict-before r rest hs)

All-append : (ds es : List Decoration) → All IsValid (ds ++ es) → All IsValid ds × All IsValid es
All-append [] es h = (tt, h)
All-append (d ∷ ds) es (h, hs) = let (first, rest) = All-append ds es hs in ((h, first), rest)

register-free :
    (h : RegisteredHandler) (r : TaskRegistry)
    → Dict.get r h.name ≡ none
    → Registry.register h r ≡ (ok tt, r ++ (h.name, h) ∷ [])
unfolding Registry.register Dict.has
register-free h r free = ground (arith, free, Dict.put_absent r h.name h free)

define-ok :
    (d : Decoration) (r : TaskRegistry)
    → IsValid d
    → Dict.get r d.name ≡ none
    → define d r ≡ (ok d.func, r ++ entry_of d ∷ [])
unfolding define job decorator
define-ok d r valid free =
    ap
      (λ m.
        (lift (and_then m (λ policy. ok (decorator d.name d.description d.timeout_seconds policy)))
            >>= λ decorate. decorate d.func)
          r)
      valid
    ∙ ap (λ (s : Result Unit × TaskRegistry). continue s.0 (λ _. pure d.func) s.1)
        (register-free (handler_of d) r free)

define_all-ok :
    (ds : List Decoration) (r : TaskRegistry)
    → All IsValid ds
    → Dict.IsDict (r ++ map entry_of ds)
    → define_all ds r ≡ (ok tt, r ++ map entry_of ds)
define_all-ok [] r valid distinct = ap (λ t. (ok tt, t)) (sym (append_nil r))
define_all-ok (d ∷ ds) r (valid, valids) distinct =
    rw (define-ok d r valid (free_before r d.name (handler_of d) (map entry_of ds) distinct)) (
      define_all-ok ds (r ++ entry_of d ∷ []) valids
        (rw (append_assoc r (entry_of d ∷ []) (map entry_of ds)) distinct)
      ∙ ap (λ t. (ok tt, t)) (append_assoc r (entry_of d ∷ []) (map entry_of ds)))

module _ (bodies : Text → List Decoration) (prefix : Text) where
  import_all-ok :
      (names discovered : List Text) (r : TaskRegistry)
      → All IsValid (decorations_of bodies (public_of prefix names))
      → Dict.IsDict (r ++ map entry_of (decorations_of bodies (public_of prefix names)))
      → import_all (import_body bodies) prefix names discovered r ≡ (
        ok (discovered ++ public_of prefix names),
        r ++ map entry_of (decorations_of bodies (public_of prefix names)),
      )
  import_all-ok [] discovered r valid distinct = rw (append_nil discovered, append_nil r) refl
  import_all-ok (m ∷ names) discovered r valid distinct =
      one (is_private prefix m) (λ discovered r. import_all-ok names discovered r) valid distinct
    where
      one :
          (b : Bool)
          → ((discovered : List Text) (r : TaskRegistry)
              → All IsValid (decorations_of bodies (public_of prefix names))
              → Dict.IsDict (r ++ map entry_of (decorations_of bodies (public_of prefix names)))
              → import_all (import_body bodies) prefix names discovered r ≡ (
                ok (discovered ++ public_of prefix names),
                r ++ map entry_of (decorations_of bodies (public_of prefix names)),
              ))
          → let public = if not b then m ∷ public_of prefix names else public_of prefix names in
            All IsValid (decorations_of bodies public)
            → Dict.IsDict (r ++ map entry_of (decorations_of bodies public))
            → (if b
                  then import_all (import_body bodies) prefix names discovered
                  else (import_body bodies m
                      >> import_all (import_body bodies) prefix names (discovered ++ m ∷ [])))
                r
              ≡ (ok (discovered ++ public), r ++ map entry_of (decorations_of bodies public))
      one true again valid distinct = again discovered r valid distinct
      one false again valid distinct =
          let rest = decorations_of bodies (public_of prefix names) in
          let (valid_m, valid_rest) = All-append (bodies m) rest valid in
          let here = map entry_of (bodies m) in
          let there = map entry_of rest in
          let grown =
            ap (λ t. r ++ t) (map-append entry_of (bodies m) rest)
            ∙ sym (append_assoc r here there) in
          let distinct_rest : Dict.IsDict ((r ++ here) ++ there) = rw (sym grown) distinct in
          let ran =
            define_all-ok (bodies m) r valid_m (IsDict-before (r ++ here) there distinct_rest) in
          ap
            (λ (s : Result Unit × TaskRegistry).
              continue s.0
                (λ _. import_all (import_body bodies) prefix names (discovered ++ m ∷ [])) s.1)
            ran
          ∙ again (discovered ++ m ∷ []) (r ++ here) valid_rest distinct_rest
          ∙ ap (λ t. (ok t, (r ++ here) ++ there))
              (append_assoc discovered (m ∷ []) (public_of prefix names))
          ∙ ap (λ t. (ok (discovered ++ m ∷ public_of prefix names), t)) (sym grown)

-- When every decorator in the modules that are not private has an acceptable policy, and their names
-- and those in the registry are all distinct: a discovery, with imports that run decorators, returns
-- these modules in their order and adds exactly the functions that they decorate, in their order.
pub discover_jobs-registers :
    (bodies : Text → List Decoration) (package_name : Text) (names : List Text) (r : TaskRegistry)
    → let public = public_of (package_name ++ codes ".") names in
      let decorated = decorations_of bodies public in
      All IsValid decorated
      → Dict.IsDict (r ++ map entry_of decorated)
      → discover_jobs (import_body bodies) package_name names r
        ≡ (ok public, r ++ map entry_of decorated)
unfolding discover_jobs
discover_jobs-registers bodies package_name names r valid distinct =
    import_all-ok bodies (package_name ++ codes ".") names [] r valid distinct
