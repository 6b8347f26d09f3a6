-- ===== src/StructuredLog/Redacted.antt =====
-- About `JsonFormatter.format` of infrastructure/logging/structured.py.
use task_platform.Common.{
  ◌≡◌, refl, ap, ◌∙◌, ◌⊎◌, inl, inr, true, false, ◌||◌, Option, none, some, List, [], ◌∷◌, arith,
  Bool-cases, Option-cases, is_some, Text, codes, text_eq, text_eq_iff, remove_prefix?,
}
use task_platform.Common.Dict
use task_platform.Common.Dict.{Dict, Key, text_key}
use task_platform.StructuredLog.{
  LogValue, log_text, LogEntry, Logging, redacted, run_id_key, job_logger_prefix, core_fields,
  is_sensitive, shown, is_skipped, add_attributes, add_run_id, add_exception, payload_of,
}

-- A value that a sensitive key may have in a payload.
abbrev pub IsRedacted : Option LogValue → Type 0
IsRedacted o = (o ≡ none) ⊎ (o ≡ some redacted)

put_elsewhere :
    (payload : Dict Text LogValue) (k key : Text) (v : LogValue)
    → Dict.has payload k ≡ false
    → Dict.has payload key ≡ true
    → (Dict.has (Dict.put payload k v) key ≡ true)
      × (Dict.get (Dict.put payload k v) key ≡ Dict.get payload key)
unfolding Dict.has
put_elsewhere payload k key v new old = elim (Bool-cases (text_eq k key)) [
  | inl e ↦ cc (new, old, ap (Dict.has payload) ((text_eq_iff k key).0 e))
  | inr e ↦ (rw (Dict.get-put payload k key v, e) old, rw (Dict.get-put payload k key v, e) refl)
]

get-put_other :
    (payload : Dict Text LogValue) (k key : Text) (v : LogValue)
    → text_eq k key ≡ false
    → Dict.get (Dict.put payload k v) key ≡ Dict.get payload key
get-put_other payload k key v e = rw (Dict.get-put payload k key v, e) refl

get-add_run_id :
    (run_id : Option Text) (payload : Dict Text LogValue) (key : Text)
    → text_eq run_id_key key ≡ false
    → Dict.get (add_run_id run_id payload) key ≡ Dict.get payload key
get-add_run_id none payload key e = refl
get-add_run_id (some run_id) payload key e = elim (Bool-cases (Dict.has payload run_id_key)) [
  | inl h ↦ rw h refl
  | inr h ↦ rw h (get-put_other payload run_id_key key (log_text run_id) e)
]

get-add_exception :
    (exception : Option Text) (payload : Dict Text LogValue) (key : Text)
    → text_eq (codes "exception") key ≡ false
    → Dict.get (add_exception exception payload) key ≡ Dict.get payload key
get-add_exception none payload key e = refl
get-add_exception (some text) payload key e =
    get-put_other payload (codes "exception") key (log_text text) e

get-absent :
    (payload : Dict Text LogValue) (key : Text)
    → Dict.has payload key ≡ false
    → Dict.get payload key ≡ none
unfolding Dict.has
get-absent payload key h = elim (Option-cases (Dict.get payload key)) [
  | inl e ↦ e
  | inr (v, e) ↦ cc (h, ap is_some e)
]

-- A core field is neither of the two that are added last.
apart_from_core :
    (service : Text) (r : LogEntry) (added core_key : Text)
    → Dict.has (core_fields service r) added ≡ false
    → Dict.has (core_fields service r) core_key ≡ true
    → text_eq added core_key ≡ false
apart_from_core service r added core_key absent core = elim (Bool-cases (text_eq added core_key)) [
  | inl e ↦
      cc (absent, core, ap (Dict.has (core_fields service r)) ((text_eq_iff added core_key).0 e))
  | inr e ↦ e
]

added_absent :
    (service : Text) (r : LogEntry)
    → (Dict.has (core_fields service r) run_id_key ≡ false)
      × (Dict.has (core_fields service r) (codes "exception") ≡ false)
unfolding Dict.has Dict.get text_eq
added_absent service r = (refl, refl)

module _ (logging : Logging) where
  put-IsRedacted :
      (payload : Dict Text LogValue) (k key : Text) (v : LogValue)
      → is_sensitive logging key ≡ true
      → IsRedacted (Dict.get payload key)
      → IsRedacted (Dict.get (Dict.put payload k (shown logging k v)) key)
  put-IsRedacted payload k key v s h = elim (Bool-cases (text_eq k key)) [
    | inl e ↦
        rw (Dict.get-put payload k key (shown logging k v), e, (text_eq_iff k key).0 e, s)
          (inr refl)
    | inr e ↦ rw (Dict.get-put payload k key (shown logging k v), e) h
  ]

  new_of :
      (k : Text) (payload : Dict Text LogValue)
      → (is_skipped logging k || Dict.has payload k) ≡ false
      → Dict.has payload k ≡ false
  new_of k payload e = ground arith

  -- What was in the payload stays.
  get-add_attributes :
      (attributes : List (Text × LogValue)) (payload : Dict Text LogValue) (key : Text)
      → Dict.has payload key ≡ true
      → Dict.get (add_attributes logging attributes payload) key ≡ Dict.get payload key
  unfolding add_attributes
  get-add_attributes [] payload key h = refl
  get-add_attributes ((k, v) ∷ attributes) payload key h =
      elim (Bool-cases (is_skipped logging k || Dict.has payload k)) [
        | inl e ↦ rw e (get-add_attributes attributes payload key h)
        | inr e ↦
            (let (kept, same) =
                put_elsewhere payload k key (shown logging k v) (new_of k payload e) h in
              rw e (
                get-add_attributes attributes (Dict.put payload k (shown logging k v)) key kept
                ∙ same))
      ]

  -- A sensitive key that is new has the redacted value, or none.
  get-add_attributes_sensitive :
      (attributes : List (Text × LogValue)) (payload : Dict Text LogValue) (key : Text)
      → is_sensitive logging key ≡ true
      → IsRedacted (Dict.get payload key)
      → IsRedacted (Dict.get (add_attributes logging attributes payload) key)
  unfolding add_attributes
  get-add_attributes_sensitive [] payload key s h = h
  get-add_attributes_sensitive ((k, v) ∷ attributes) payload key s h =
      elim (Bool-cases (is_skipped logging k || Dict.has payload k)) [
        | inl e ↦ rw e (get-add_attributes_sensitive attributes payload key s h)
        | inr e ↦ rw e (
            get-add_attributes_sensitive attributes (Dict.put payload k (shown logging k v)) key s
              (put-IsRedacted payload k key v s h))
      ]

  -- In the payload of a log line, a sensitive key that is no core field, nor run_id or exception, has
  -- no value or the redacted one, and every core field has the value that the formatter gave it first.
  pub payload_of_lem :
      (service : Text) (r : LogEntry) (key core_key : Text)
      → is_sensitive logging key ≡ true
      → Dict.has (core_fields service r) key ≡ false
      → text_eq run_id_key key ≡ false
      → text_eq (codes "exception") key ≡ false
      → Dict.has (core_fields service r) core_key ≡ true
      → IsRedacted (Dict.get (payload_of logging service r) key)
        × (Dict.get (payload_of logging service r) core_key
            ≡ Dict.get (core_fields service r) core_key)
  unfolding payload_of
  payload_of_lem service r key core_key s new not_run_id not_exception core =
      let core_part = core_fields service r in
      let attributes = add_attributes logging r.attributes core_part in
      let run_id = remove_prefix? job_logger_prefix r.name in
      let (no_run_id, no_exception) = added_absent service r in
      (
        rw
            (
              get-add_exception r.exception (add_run_id run_id attributes) key not_exception,
              get-add_run_id run_id attributes key not_run_id,
            )
            (get-add_attributes_sensitive r.attributes core_part key s
              (inl (get-absent core_part key new))),
        get-add_exception r.exception (add_run_id run_id attributes) core_key
              (apart_from_core service r (codes "exception") core_key no_exception core)
            ∙ get-add_run_id run_id attributes core_key
                (apart_from_core service r run_id_key core_key no_run_id core)
            ∙ get-add_attributes r.attributes core_part core_key core,
      )
