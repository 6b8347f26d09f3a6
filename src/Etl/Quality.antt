-- ===== src/Etl/Quality.antt =====
-- etl/quality.py: the rules, with the values that a UniqueRule has seen as its state, and the checker
-- that applies them to one order after another. `getattr(order, field)` is a projection by the kind of
-- the field. How Python prints a value inside a message is a parameter.
pub mod Report
pub mod Orders
use task_platform.Common.{
  ℕ, zero, suc, ◌+◌, ◌-◌, ◌*◌, ◌/◌, ◌%◌, ◌^◌, ◌≤◌, ◌<◌, ◌≡◌, refl, sym, ap, ◌∙◌, ◌≢◌, ◌↔◌, ◌⊎◌, inl,
  inr, Bool, true, false, not, ◌&&◌, ◌||◌, Option, none, some, List, [], ◌∷◌, ◌++◌, map, reverse,
  arith, ltb, leb, ◌==◌, if◌then◌else◌, ltb→lt, lt→ltb, leb→le, le→leb, ==_iff, tests, Bool-cases,
  Option-cases, is_some, length, get_last?, take, drop, filter, any, all, find?, sort_with, All,
  length-append, ℤ, pos, negsuc, pos_part, neg_part, sub_ℕ, ◌+ℤ◌, ◌-ℤ◌, ◌*ℤ◌, ◌≤ℤ◌, ltb_ℤ, +ℤ_parts,
  -ℤ_parts, eq_of_parts, int_laws, Text, codes, text_eq, text_eq_iff, text_eq_self, text_ltb,
  remove_prefix?, is_space, is_blank,
}
use task_platform.Domain.Effects.{
  Error, value_error, assertion_error, invalid_transition, job_not_registered, duplicate_job_name,
  entity_not_found, integrity_error, invalid_message, job_canceled, handler_timeout, handler_error,
  queue_error, Result, ok, err, injective_ok, Action, and_then, pure, raise, lift, gets, modify,
  continue, ◌>>=◌, ◌>>◌, >>=-eq-ok, >>=-eq-err, >>=-keeps, on_part,
}
use task_platform.Domain.Execution.{
  Instant, Seconds, one_second, JobExecution, new_execution, duration_seconds, JobLog,
}
use task_platform.Common.Dict
use task_platform.Common.Dict.{Dict, Key, text_key}
use task_platform.Etl.Records.{Decimal, decimal_ltb, valid_order_statuses, RawOrder}

pub data Severity : Type 0 where
  error warning : Severity

pub record Violation : Type 0 where
  pub rule : Text
  pub severity : Severity
  pub message : Text

pub data TextField : Type 0 where
  order_id user_id product_id status : TextField

pub data NumberField : Type 0 where
  quantity unit_price discount : NumberField

pub data Field : Type 0 where
  text_field : TextField → Field
  number_field : NumberField → Field
  created_at : Field

abbrev pub text_name : TextField → Text
text_name order_id = codes "order_id"
text_name user_id = codes "user_id"
text_name product_id = codes "product_id"
text_name status = codes "status"

abbrev pub number_name : NumberField → Text
number_name quantity = codes "quantity"
number_name unit_price = codes "unit_price"
number_name discount = codes "discount"

abbrev pub field_name : Field → Text
field_name (text_field f) = text_name f
field_name (number_field f) = number_name f
field_name created_at = codes "created_at"

abbrev pub text_of : TextField → RawOrder → Option Text
text_of order_id o = o.order_id
text_of user_id o = some o.user_id
text_of product_id o = some o.product_id
text_of status o = some o.status

abbrev pub number_of : NumberField → RawOrder → Decimal
number_of quantity o = record { coefficient = o.quantity; places = 0 }
number_of unit_price o = o.unit_price
number_of discount o = o.discount

abbrev pub is_none : Field → RawOrder → Bool
is_none (text_field f) o = not (is_some (text_of f o))
is_none (number_field f) o = false
is_none created_at o = not (is_some o.created_at)

-- The condition of a rule. The first argument of `unique` is `_seen`.
pub data Condition : Type 0 where
  not_null : Field → Condition
  unique : List Text → TextField → Condition
  range : NumberField → Decimal → Bool → Condition
  enum : TextField → List Text → Condition
  reference : TextField → List Text → Condition
  not_future : Instant → Condition

pub record Rule : Type 0 where
  pub name : Text
  pub severity : Severity
  pub condition : Condition

-- Python's formatting: `repr` of a str, `str` of a Decimal, `repr` of a sorted list, `isoformat`.
pub record Format : Type 0 where
  pub repr : Text → Text
  pub number : Decimal → Text
  pub sorted_list : List Text → Text
  pub isoformat : Instant → Text

abbrev pub named : Text → Text → Text
named kind field = kind ++ (codes ":" ++ field)

abbrev error_rule : Text → Text → Condition → Rule
error_rule kind field condition = record {
  name = named kind field;
  severity = error;
  condition = condition;
}

abbrev pub not_null_rule : Field → Rule
not_null_rule f = error_rule (codes "not_null") (field_name f) (not_null f)

abbrev pub unique_rule : TextField → Rule
unique_rule f = error_rule (codes "unique") (text_name f) (unique [] f)

abbrev pub range_rule : NumberField → Decimal → Bool → Rule
range_rule f minimum inclusive =
    error_rule (codes "range") (number_name f) (range f minimum inclusive)

abbrev pub enum_rule : TextField → List Text → Rule
enum_rule f allowed = error_rule (codes "enum") (text_name f) (enum f allowed)

abbrev pub reference_rule : TextField → List Text → Rule
reference_rule f values = error_rule (codes "reference") (text_name f) (reference f values)

abbrev pub not_future_rule : Instant → Rule
not_future_rule now = record {
  name = named (codes "not_future") (codes "created_at");
  severity = warning;
  condition = not_future now;
}

abbrev pub zero_decimal : Decimal
zero_decimal = record { coefficient = pos 0; places = 0 }

abbrev pub default_order_rules : List Text → Instant → List Rule
default_order_rules user_ids now =
    not_null_rule (text_field order_id)
    ∷ not_null_rule created_at
    ∷ unique_rule order_id
    ∷ range_rule quantity zero_decimal false
    ∷ range_rule unit_price zero_decimal true
    ∷ enum_rule status valid_order_statuses
    ∷ reference_rule user_id user_ids
    ∷ not_future_rule now
    ∷ []

abbrev pub in_set : List Text → Text → Bool
in_set values t = any (text_eq t) values

module _ (format : Format) where
  abbrev field_message : Text → Text → Text → Text
  field_message field value rest = field ++ (codes "=" ++ (value ++ rest))

  -- `check` of NotNullRule, UniqueRule, RangeRule, EnumRule, ReferenceRule and NotFutureRule: the
  -- violation, if there is one, and the rule's state afterwards.
  unfoldable pub check_condition : Condition → RawOrder → Option Text × Condition
  check_condition (not_null f) o =
      (if is_none f o then some (field_name f ++ codes " is null") else none, not_null f)
  check_condition (unique seen f) o = elim (text_of f o) [
    | none ↦ (none, unique seen f)
    | some value ↦
        if in_set seen value
        then (
          some (field_message (text_name f) (format.repr value) (codes " is duplicated")),
          unique seen f,
        )
        else (none, unique (value ∷ seen) f)
  ]
  check_condition (range f minimum inclusive) o =
      let value = number_of f o in
      let is_ok =
        if inclusive then not (decimal_ltb value minimum) else decimal_ltb minimum value in
      let op = if inclusive then codes ">=" else codes ">" in
      (
        if is_ok
            then none
            else some (
                field_message (number_name f) (format.number value)
                  (codes " violates " ++ (op ++ (codes " " ++ format.number minimum)))),
        range f minimum inclusive,
      )
  check_condition (enum f allowed) o = elim (text_of f o) [
    | none ↦ (none, enum f allowed)
    | some value ↦ (
      if in_set allowed value
          then none
          else some (
              field_message (text_name f) (format.repr value)
                (codes " not in " ++ format.sorted_list allowed)),
      enum f allowed,
    )
  ]
  check_condition (reference f values) o = elim (text_of f o) [
    | none ↦ (none, reference f values)
    | some value ↦ (
      if in_set values value
          then none
          else some
              (field_message (text_name f) (format.repr value) (codes " has no matching record")),
      reference f values,
    )
  ]
  check_condition (not_future now) o = elim o.created_at [
    | none ↦ (none, not_future now)
    | some value ↦ (
      if leb value now
          then none
          else some (
              field_message (codes "created_at") (format.isoformat value)
                (codes " is later than " ++ format.isoformat now)),
      not_future now,
    )
  ]

pub record RuleResult : Type 0 where
  pub rule : Text
  pub passed : Bool
  pub invalid_count : ℕ

pub record QualityReport : Type 0 where
  pub total_rows : ℕ
  pub quarantined_rows : ℕ
  pub warning_rows : ℕ
  pub results : List RuleResult

abbrev pub is_error : Severity → Bool
is_error error = true
is_error warning = false

unfoldable pub is_quarantined : List Violation → Bool
is_quarantined violations = any (λ (v : Violation). is_error v.severity) violations

unfoldable pub is_warned : List Violation → Bool
is_warned violations = any (λ (v : Violation). not (is_error v.severity)) violations

pub record QualityChecker : Type 0 where
  pub rules : List Rule
  pub failures : Dict Text ℕ
  pub total : ℕ
  pub quarantined : ℕ
  pub warned : ℕ

abbrev all_distinct : List Text → Bool
all_distinct [] = true
all_distinct (t ∷ ts) = not (in_set ts t) && all_distinct ts

abbrev pub rule_names : List Rule → List Text
rule_names rules = map (λ (r : Rule). r.name) rules

-- `QualityChecker.__init__`
unfoldable pub new_checker : List Rule → Result QualityChecker
new_checker rules =
    if all_distinct (rule_names rules)
    then ok (record { rules = rules; failures = []; total = 0; quarantined = 0; warned = 0 })
    else err value_error

-- A `Counter` reads 0 at a key that is missing.
unfoldable pub count_of : Dict Text ℕ → Text → ℕ
count_of d name = elim (Dict.get d name) [ none ↦ 0 | some n ↦ n ]

unfoldable pub increment : Dict Text ℕ → Text → Dict Text ℕ
increment d name = Dict.put d name (suc (count_of d name))

abbrev with_condition : Rule → Condition → Rule
with_condition r c = record { name = r.name; severity = r.severity; condition = c }

abbrev violation : Rule → Text → Violation
violation r message = record { rule = r.name; severity = r.severity; message = message }

-- `violations.append(...)` and `_failures[rule.name] += 1`, when there is a message.
abbrev pub add_violation : Rule → Option Text → List Violation → List Violation
add_violation r none violations = violations
add_violation r (some message) violations = violation r message ∷ violations

abbrev pub note_message : Rule → Option Text → Dict Text ℕ → Dict Text ℕ
note_message r none counts = counts
note_message r (some message) counts = increment counts r.name

abbrev pub add_if : Bool → ℕ → ℕ
add_if b n = if b then suc n else n

module _ (format : Format) where
  -- The loop of `QualityChecker.check` over the rules: the violations, the rules with their new
  -- states, and the counter.
  unfoldable pub apply_rules :
      List Rule → RawOrder → Dict Text ℕ → List Violation × (List Rule × Dict Text ℕ)
  apply_rules [] o counts = ([], ([], counts))
  apply_rules (r ∷ rules) o counts =
      let (message, condition) = check_condition format r.condition o in
      let (violations, (changed, after)) = apply_rules rules o (note_message r message counts) in
      (add_violation r message violations, (with_condition r condition ∷ changed, after))

  -- `QualityChecker.check`
  unfoldable pub check : QualityChecker → RawOrder → List Violation × QualityChecker
  check c o =
      let (violations, (changed, after)) = apply_rules c.rules o c.failures in
      (
        violations,
        record {
          rules = changed;
          failures = after;
          total = suc c.total;
          quarantined = add_if (is_quarantined violations) c.quarantined;
          warned = add_if (is_warned violations) c.warned;
        },
      )

  unfoldable pub check_all : QualityChecker → List RawOrder → List (List Violation) × QualityChecker
  check_all c [] = ([], c)
  check_all c (o ∷ orders) =
      let (violations, changed) = check c o in
      let (others, after) = check_all changed orders in (violations ∷ others, after)

abbrev result_of : Dict Text ℕ → Rule → RuleResult
result_of counts r = record {
  rule = r.name;
  passed = count_of counts r.name == 0;
  invalid_count = count_of counts r.name;
}

unfoldable pub report : QualityChecker → QualityReport
report c = record {
  total_rows = c.total;
  quarantined_rows = c.quarantined;
  warning_rows = c.warned;
  results = map (result_of c.failures) c.rules;
}
