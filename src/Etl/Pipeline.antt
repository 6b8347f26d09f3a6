-- ===== src/Etl/Pipeline.antt =====
-- etl/pipeline.py. The stages are generators that pull one order at a time, so the pipeline takes each
-- order through all of them before it reads the next. An amount is a whole number of cents; the
-- products that it is rounded from are exact, as they are in Python up to 28 digits.
pub mod Groups
pub mod Complete
use task_platform.Common.{
  true, false, ℕ, zero, suc, ◌+◌, ◌-◌, ◌*◌, ◌/◌, ◌%◌, ◌^◌, ◌≤◌, ◌<◌, ◌≡◌, refl, sym, ap, ◌∙◌, ◌≢◌,
  ◌↔◌, ◌⊎◌, inl, inr, Bool, true, false, not, ◌&&◌, ◌||◌, Option, none, some, List, [], ◌∷◌, ◌++◌,
  map, reverse, arith, ltb, leb, ◌==◌, if◌then◌else◌, ltb→lt, lt→ltb, leb→le, le→leb, ==_iff, tests,
  Bool-cases, Option-cases, is_some, length, get_last?, take, drop, filter, any, all, find?,
  sort_with, All, length-append, ℤ, pos, negsuc, pos_part, neg_part, sub_ℕ, ◌+ℤ◌, ◌-ℤ◌, ◌*ℤ◌, ◌≤ℤ◌,
  ltb_ℤ, +ℤ_parts, -ℤ_parts, eq_of_parts, int_laws, Text, codes, text_eq, text_eq_iff, text_eq_self,
  text_ltb, remove_prefix?, is_space, is_blank,
}
use task_platform.Common.Decimal.{decimal}
use task_platform.Domain.Effects.{
  decimal_error, and_then, Error, value_error, assertion_error, invalid_transition,
  job_not_registered, duplicate_job_name, entity_not_found, integrity_error, key_error,
  invalid_message, job_canceled, handler_timeout, handler_error, queue_error, api_error, Result, ok,
  err, injective_ok, Action, and_then, and_then-eq-ok, pure, raise, lift, gets, modify, continue,
  ◌>>=◌, ◌>>◌, >>=-eq-ok, >>=-eq-err, >>=-keeps, on_part,
}
use task_platform.Domain.Execution.{
  Instant, Seconds, one_second, JobExecution, new_execution, duration_seconds, JobLog,
}
use task_platform.Common.Dict
use task_platform.Common.Dict.{Dict, Key, text_key}
use task_platform.Etl.Records.{Decimal, decimal_ltb, valid_order_statuses, RawOrder, RawUser}
use task_platform.Etl.Quality.{
  Severity, error, warning, Violation, TextField, order_id, user_id, product_id, status,
  NumberField, quantity, unit_price, discount, Field, text_field, number_field, created_at,
  text_name, number_name, field_name, text_of, number_of, is_none, Condition, not_null, unique,
  range, enum, reference, not_future, Rule, Format, named, not_null_rule, unique_rule, range_rule,
  enum_rule, reference_rule, not_future_rule, zero_decimal, default_order_rules, in_set,
  check_condition, RuleResult, QualityReport, is_error, is_quarantined, is_warned, QualityChecker,
  rule_names, new_checker, count_of, increment, add_violation, note_message, add_if, apply_rules,
  check, check_all, report,
}

pub record QuarantinedOrder : Type 0 where
  pub order : RawOrder
  pub violations : List Violation

-- A date is the number of days since the first.
pub record CleanOrder : Type 0 where
  pub order_id : Text
  pub user_id : Text
  pub region : Text
  pub order_date : ℕ
  pub status : Text
  pub amount : ℤ

pub record DailyRegionStat : Type 0 where
  pub order_date : ℕ
  pub region : Text
  pub order_count : ℕ
  pub paid_count : ℕ
  pub gmv : ℤ

abbrev magnitude : ℤ → ℕ
magnitude z = pos_part z + neg_part z

abbrev with_sign : ℤ → ℕ → ℤ
with_sign z n = sub_ℕ (if ltb_ℤ z (pos 0) then 0 else n) (if ltb_ℤ z (pos 0) then n else 0)

-- `numerator / denominator` to a whole number, halves away from zero.
unfoldable pub round_half_up : ℤ → ℕ → ℤ
round_half_up z d = with_sign z ((2 * magnitude z + d) / (2 * d))

-- `.quantize(Decimal("0.01"), ROUND_HALF_UP)`, in cents.
unfoldable pub quantize_cents : Decimal → ℤ
unfolding round_half_up ◌*ℤ◌
quantize_cents a = round_half_up (a.coefficient *ℤ pos 100) (10 ^ a.places)

-- The property `avg_order_value`, in cents.
unfoldable pub avg_order_value : DailyRegionStat → ℤ
unfolding round_half_up
avg_order_value s = if s.paid_count == 0 then pos 0 else round_half_up s.gmv s.paid_count

-- Decimal's default context: results have at most 28 digits, and others are rounded, halves to even.
abbrev pub decimal_limit : ℕ
decimal_limit = 10 ^ 28

round_half_even : ℕ → ℕ → ℕ
round_half_even n d =
    let quotient = n / d in
    let twice = 2 * (n % d) in
    if ltb twice d then quotient else if ltb d twice then quotient + 1 else quotient + quotient % 2

without_digits : ℕ → Decimal → Decimal
unfolding round_half_even ◌*ℤ◌
without_digits drop a = record {
  coefficient =
      with_sign a.coefficient
        (round_half_even (magnitude a.coefficient) (10 ^ drop) * 10 ^ (drop - a.places));
  places = a.places - drop;
}

unfoldable pub in_context : Decimal → Decimal
unfolding without_digits
in_context a = elim (ltb (magnitude a.coefficient) decimal_limit) [
  | true ↦ a
  | false ↦ without_digits (length (decimal (magnitude a.coefficient)) - 28) a
]

unfoldable pub decimal_product : Decimal → Decimal → Decimal
unfolding in_context ◌*ℤ◌
decimal_product a b =
    in_context
      (record { coefficient = a.coefficient *ℤ b.coefficient; places = a.places + b.places })

-- `1 - discount`
unfoldable pub one_minus : Decimal → Decimal
unfolding in_context ◌-ℤ◌
one_minus a =
    in_context (record { coefficient = pos (10 ^ a.places) -ℤ a.coefficient; places = a.places })

-- `quantity * unit_price * (1 - discount)`, in cents.
unfoldable pub cents_of : RawOrder → ℤ
unfolding decimal_product one_minus quantize_cents
cents_of o = quantize_cents (
    decimal_product (decimal_product (record { coefficient = o.quantity; places = 0 }) o.unit_price)
      (one_minus o.discount))

abbrev pub fits_context : ℤ → Bool
fits_context cents = ltb (magnitude cents) decimal_limit

-- A quantized result of more than 28 digits is an InvalidOperation.
unfoldable pub amount_of : RawOrder → Result ℤ
unfolding cents_of
amount_of o = if fits_context (cents_of o) then ok (cents_of o) else err decimal_error

abbrev pub one_day : ℕ
one_day = 86400 * one_second

abbrev pub clean_with : RawOrder → Text → Instant → RawUser → ℤ → CleanOrder
clean_with o id created user amount = record {
  order_id = id;
  user_id = o.user_id;
  region = user.region;
  order_date = created / one_day;
  status = o.status;
  amount = amount;
}

abbrev clean_order : RawOrder → Text → Instant → Option RawUser → Result CleanOrder
clean_order o id created none = and_then (amount_of o) (λ amount. err key_error)
clean_order o id created (some user) =
    and_then (amount_of o) (λ amount. ok (clean_with o id created user amount))

abbrev checked_order :
    Dict Text RawUser → RawOrder → Option Text → Option Instant → Result CleanOrder
checked_order users o (some id) (some created) = clean_order o id created (Dict.get users o.user_id)
checked_order users o _ _ = err value_error

-- The body of the loop of `transform`.
unfoldable pub transform_order : Dict Text RawUser → RawOrder → Result CleanOrder
unfolding amount_of
transform_order users o = checked_order users o o.order_id o.created_at

abbrev pub Group : Type 0
Group = ℕ × Text

abbrev pub group_eq : Group → Group → Bool
group_eq a b = (a.0 == b.0) && text_eq a.1 b.1

pub group_eq_iff : (a b : Group) → (group_eq a b ≡ true) ↔ (a ≡ b)
group_eq_iff (i, s) (j, t) = ground (arith, text_eq_iff s t)

instance abbrev pub group_key : Key Group
group_key = record { beq = group_eq; beq_iff = group_eq_iff }

abbrev pub group_of : CleanOrder → Group
group_of o = (o.order_date, o.region)

-- The three counters of `aggregate`.
pub record Totals : Type 0 where
  pub order_counts : Dict Group ℕ
  pub paid_counts : Dict Group ℕ
  pub gmv : Dict Group ℤ

abbrev pub no_totals : Totals
no_totals = record { order_counts = []; paid_counts = []; gmv = [] }

abbrev pub or_default : {A : Type 0} → A → Option A → A
or_default d none = d
or_default d (some a) = a

abbrev pub is_paid : CleanOrder → Bool
is_paid o = text_eq o.status (codes "PAID")

abbrev pub bump : Dict Group ℕ → Group → Dict Group ℕ
bump d g = Dict.put d g (or_default 0 (Dict.get d g) + 1)

abbrev pub counted_totals : Totals → CleanOrder → Totals
counted_totals t o = record t { order_counts = bump t.order_counts (group_of o) }

abbrev pub paid_totals : Totals → CleanOrder → Totals
paid_totals t o =
    let g = group_of o in
    record (counted_totals t o) {
      paid_counts = bump t.paid_counts g;
      gmv = Dict.put t.gmv g (or_default (pos 0) (Dict.get t.gmv g) +ℤ o.amount);
    }

-- The body of the loop of `aggregate`.
unfoldable pub add_order : Totals → CleanOrder → Totals
add_order t o = if is_paid o then paid_totals t o else counted_totals t o

abbrev pub group_ltb : Group → Group → Bool
group_ltb a b = ltb a.0 b.0 || ((a.0 == b.0) && text_ltb a.1 b.1)

abbrev pub stat_of : Totals → Group → DailyRegionStat
stat_of t g = record {
  order_date = g.0;
  region = g.1;
  order_count = or_default 0 (Dict.get t.order_counts g);
  paid_count = or_default 0 (Dict.get t.paid_counts g);
  gmv = or_default (pos 0) (Dict.get t.gmv g);
}

unfoldable pub stats_of : Totals → List DailyRegionStat
stats_of t = map (stat_of t) (sort_with group_ltb (Dict.keys t.order_counts))

abbrev pub add_orders : Totals → List CleanOrder → Totals
add_orders t [] = t
add_orders t (o ∷ orders) = add_orders (add_order t o) orders

unfoldable pub aggregate : List CleanOrder → List DailyRegionStat
unfolding stats_of add_order
aggregate orders = stats_of (add_orders no_totals orders)

-- What the stages hold between two orders, and what `on_quarantine` was called with.
pub record Run : Type 0 where
  pub checker : QualityChecker
  pub totals : Totals
  pub quarantine : List QuarantinedOrder

pub record PipelineResult : Type 0 where
  pub quality : QualityReport
  pub stats : List DailyRegionStat

abbrev pub quarantine_order : RawOrder → List Violation → Run → Run
quarantine_order o violations r = record r {
  quarantine = r.quarantine ++ record { order = o; violations = violations } ∷ [];
}

abbrev pub pass_order : Result CleanOrder → Action Run Unit
pass_order (ok clean) r = (ok tt, record r { totals = add_order r.totals clean })
pass_order (err e) r = (err e, r)

module _ (format : Format) (users : Dict Text RawUser) where
  -- One order through `validate_stream`, `transform` and `aggregate`.
  unfoldable pub process_order : RawOrder → Action Run Unit
  unfolding transform_order add_order
  process_order o r =
      let (violations, after) = check format r.checker o in
      let checked = record r { checker = after } in
      if is_quarantined violations
      then (ok tt, quarantine_order o violations checked)
      else pass_order (transform_order users o) checked

  unfoldable pub process_orders : List RawOrder → Action Run Unit
  unfolding process_order
  process_orders [] = pure tt
  process_orders (o ∷ orders) = process_order o >> process_orders orders

abbrev pub user_map : List RawUser → Dict Text RawUser → Dict Text RawUser
user_map [] d = d
user_map (u ∷ users) d = user_map users (Dict.put d u.user_id u)

abbrev result_of_run : Result Unit × Run → Result PipelineResult × List QuarantinedOrder
result_of_run (ok tt, r) =
    (ok (record { quality = report r.checker; stats = stats_of r.totals }), r.quarantine)
result_of_run (err e, r) = (err e, r.quarantine)

abbrev run_checked :
    Format
    → Dict Text RawUser
    → List RawOrder
    → Result QualityChecker
    → Result PipelineResult × List QuarantinedOrder
run_checked format users orders (err e) = (err e, [])
run_checked format users orders (ok c) = result_of_run (
    process_orders format users orders
      (record { checker = c; totals = no_totals; quarantine = [] }))

-- `run_orders_pipeline`, with the orders that `on_quarantine` received.
unfoldable pub run_orders_pipeline :
    Format → List RawOrder → List RawUser → Instant → Result PipelineResult × List QuarantinedOrder
unfolding process_orders
run_orders_pipeline format orders users now =
    let by_id = user_map users [] in
    run_checked format by_id orders (new_checker (default_order_rules (Dict.keys by_id) now))
