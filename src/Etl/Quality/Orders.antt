-- ===== src/Etl/Quality/Orders.antt =====
-- About the standard rules for orders of etl/quality.py.
use task_platform.Common.{
  ℕ, ◌≡◌, refl, ap, ◌∙◌, inl, inr, Bool, true, false, not, ◌&&◌, ◌||◌, Option, none, some, List, [],
  ◌∷◌, map, arith, ltb, if◌then◌else◌, Bool-cases, Option-cases, is_some, any, pos, ◌*ℤ◌, ltb_ℤ,
  Text, text_eq_iff,
}
use task_platform.Domain.Effects.{ok}
use task_platform.Domain.Execution.{Instant}
use task_platform.Etl.Records.{decimal_ltb, valid_order_statuses, RawOrder}
use task_platform.Etl.Quality.{
  Severity, error, Violation, order_id, user_id, status, quantity, unit_price, text_field,
  created_at, text_of, Condition, not_null, unique, range, enum, reference, not_future, Rule,
  Format, not_null_rule, unique_rule, range_rule, enum_rule, reference_rule, not_future_rule,
  zero_decimal, default_order_rules, in_set, check_condition, is_error, is_quarantined, is_warned,
  QualityChecker, new_checker, with_condition, add_violation, note_message, apply_rules, check,
  check_all,
}
use task_platform.Common.Dict.{Dict, text_key}

-- The order ids of earlier orders.
abbrev pub ids_of : List RawOrder → List Text
ids_of [] = []
ids_of (o ∷ orders) = elim o.order_id [ none ↦ ids_of orders | some t ↦ t ∷ ids_of orders ]

abbrev pub is_new : List RawOrder → Option Text → Bool
is_new earlier none = false
is_new earlier (some t) = not (in_set (ids_of earlier) t)

-- What an order that is not quarantined must satisfy.
abbrev pub is_clean : List Text → List RawOrder → RawOrder → Bool
is_clean user_ids earlier o =
    is_new earlier o.order_id
    && (is_some o.created_at
        && (ltb_ℤ (pos 0) o.quantity
            && (not (ltb_ℤ o.unit_price.coefficient (pos 0))
                && (in_set valid_order_statuses o.status && in_set user_ids o.user_id))))

abbrev pub is_late : Instant → Option Instant → Bool
is_late now none = false
is_late now (some t) = ltb now t

-- The rules when the ids of `seen` have been seen.
abbrev rules_with : List Text → List Text → Instant → List Rule
rules_with seen user_ids now =
    not_null_rule (text_field order_id)
    ∷ not_null_rule created_at
    ∷ record {
      name = (unique_rule order_id).name;
      severity = error;
      condition = unique seen order_id;
    }
    ∷ range_rule quantity zero_decimal false
    ∷ range_rule unit_price zero_decimal true
    ∷ enum_rule status valid_order_statuses
    ∷ reference_rule user_id user_ids
    ∷ not_future_rule now
    ∷ []

abbrev add_seen : List Text → Option Text → List Text
add_seen seen none = seen
add_seen seen (some t) = if in_set seen t then seen else t ∷ seen

abbrev condition_after : Condition → RawOrder → Condition
condition_after (unique seen f) o = unique (add_seen seen (text_of f o)) f
condition_after condition o = condition

abbrev rule_after : RawOrder → Rule → Rule
rule_after o r = with_condition r (condition_after r.condition o)

module _ (format : Format) where
  check_condition-after :
      (condition : Condition) (o : RawOrder)
      → (check_condition format condition o).1 ≡ condition_after condition o
  unfolding check_condition
  check_condition-after (not_null f) o = refl
  check_condition-after (unique seen f) o = ground arith
  check_condition-after (range f minimum inclusive) o = refl
  check_condition-after (enum f allowed) o = ground arith
  check_condition-after (reference f values) o = ground arith
  check_condition-after (not_future now) o = ground arith

  apply_rules-after :
      (rules : List Rule) (o : RawOrder) (d : Dict Text ℕ)
      → (apply_rules format rules o d).1.0 ≡ map (rule_after o) rules
  unfolding apply_rules
  apply_rules-after [] o d = refl
  apply_rules-after (r ∷ rules) o d = cc (
    check_condition-after r.condition o,
    apply_rules-after rules o (note_message r (check_condition format r.condition o).0 d),
  )

  -- Whether one of the rules that the test takes is violated.
  abbrev violates : (Severity → Bool) → RawOrder → Rule → Bool
  violates test o r = test r.severity && is_some (check_condition format r.condition o).0

  any-add_violation :
      (test : Severity → Bool) (r : Rule) (message : Option Text) (violations : List Violation)
      → any (λ (v : Violation). test v.severity) (add_violation r message violations) ≡ (
          (test r.severity && is_some message)
          || any (λ (v : Violation). test v.severity) violations)
  any-add_violation test r none violations = ground arith
  any-add_violation test r (some message) violations = ground arith

  any-apply_rules :
      (test : Severity → Bool) (rules : List Rule) (o : RawOrder) (d : Dict Text ℕ)
      → any (λ (v : Violation). test v.severity) (apply_rules format rules o d).0
        ≡ any (violates test o) rules
  unfolding apply_rules
  any-apply_rules test [] o d = refl
  any-apply_rules test (r ∷ rules) o d =
      let message = (check_condition format r.condition o).0 in
      any-add_violation test r message (apply_rules format rules o (note_message r message d)).0
      ∙ ap (λ b. violates test o r || b) (any-apply_rules test rules o (note_message r message d))

  in_set-add_seen :
      (seen : List Text) (o : RawOrder) (orders : List RawOrder) (t : Text)
      → (in_set (add_seen seen o.order_id) t || in_set (ids_of orders) t)
        ≡ (in_set seen t || in_set (ids_of (o ∷ orders)) t)
  in_set-add_seen seen o orders t = elim (Option-cases o.order_id) [
    | inl e ↦ rw e refl
    | inr (a, e) ↦ rw e (elim (Bool-cases (in_set seen a)) [
      | inl h ↦ ground (arith, text_eq_iff a t, text_eq_iff t a)
      | inr h ↦ ground arith
    ])
  ]

  check_all-rules :
      (user_ids : List Text) (now : Instant) (orders : List RawOrder) (c : QualityChecker)
      (seen : List Text)
      → c.rules ≡ rules_with seen user_ids now
      → (after : List Text) × ((check_all format c orders).1.rules ≡ rules_with after user_ids now)
        × ((t : Text) → in_set after t ≡ (in_set seen t || in_set (ids_of orders) t))
  unfolding check_all check
  check_all-rules user_ids now [] c seen e = (seen, e, λ t. ground arith)
  check_all-rules user_ids now (o ∷ orders) c seen e =
      let (after, changed, same) =
        check_all-rules user_ids now orders (check format c o).1 (add_seen seen o.order_id)
          (apply_rules-after c.rules o c.failures ∙ ap (map (rule_after o)) e) in
      (after, changed, λ t. same t ∙ in_set-add_seen seen o orders t)

  unique-message :
      (seen : List Text) (o : RawOrder)
      → is_some (check_condition format (unique seen order_id) o).0
        ≡ elim o.order_id [ none ↦ false | some t ↦ in_set seen t ]
  unfolding check_condition
  unique-message seen o = ground arith

  quantity-message :
      (o : RawOrder)
      → is_some (check_condition format (range quantity zero_decimal false) o).0
        ≡ not (ltb_ℤ (pos 0) o.quantity)
  unfolding check_condition decimal_ltb ◌*ℤ◌
  quantity-message o = ground arith

  price-message :
      (o : RawOrder)
      → is_some (check_condition format (range unit_price zero_decimal true) o).0
        ≡ ltb_ℤ o.unit_price.coefficient (pos 0)
  unfolding check_condition decimal_ltb ◌*ℤ◌
  price-message o = ground arith

  other-messages :
      (user_ids : List Text) (now : Instant) (o : RawOrder)
      → (is_some (check_condition format (enum status valid_order_statuses) o).0
          ≡ not (in_set valid_order_statuses o.status))
        × (is_some (check_condition format (reference user_id user_ids) o).0
            ≡ not (in_set user_ids o.user_id))
        × (is_some (check_condition format (not_null (text_field order_id)) o).0
            ≡ not (is_some o.order_id))
        × (is_some (check_condition format (not_null created_at) o).0 ≡ not (is_some o.created_at))
        × (is_some (check_condition format (not_future now) o).0 ≡ is_late now o.created_at)
  unfolding check_condition
  other-messages user_ids now o =
      (ground arith, ground arith, ground arith, ground arith, ground arith)

  quarantined-rules_with :
      (seen user_ids : List Text) (now : Instant) (o : RawOrder) (earlier : List RawOrder)
      → ((t : Text) → in_set seen t ≡ in_set (ids_of earlier) t)
      → any (violates is_error o) (rules_with seen user_ids now) ≡ not (is_clean user_ids earlier o)
  quarantined-rules_with seen user_ids now o earlier same =
      rw
        (
          unique-message seen o,
          quantity-message o,
          price-message o,
          (other-messages user_ids now o).0,
          (other-messages user_ids now o).1,
          (other-messages user_ids now o).2,
          (other-messages user_ids now o).3,
        )
        (elim (Option-cases o.order_id) [
          | inl e ↦ rw e refl
          | inr (t, e) ↦ rw (e, same t) (ground arith)
        ])

  warned-rules_with :
      (seen user_ids : List Text) (now : Instant) (o : RawOrder)
      → any (violates (λ s. not (is_error s)) o) (rules_with seen user_ids now)
        ≡ is_late now o.created_at
  warned-rules_with seen user_ids now o = rw ((other-messages user_ids now o).4) (ground arith)

new_checker-rules :
    (rules : List Rule) (c : QualityChecker) → new_checker rules ≡ ok c → c.rules ≡ rules
unfolding new_checker
new_checker-rules rules c made = ground arith

-- When a new checker with the standard rules has checked any earlier orders, its check of one more order
-- reports an error exactly when the order lacks its id or its time, repeats an earlier order's id, has a
-- quantity that is not positive or a negative price, an unknown status or an unknown user; and it
-- reports a warning exactly when the order's time is later than the reference time.
pub check-default_order_rules :
    (format : Format) (user_ids : List Text) (now : Instant) (c : QualityChecker)
    (earlier : List RawOrder) (o : RawOrder)
    → new_checker (default_order_rules user_ids now) ≡ ok c
    → let violations = (check format (check_all format c earlier).1 o).0 in
      (is_quarantined violations ≡ not (is_clean user_ids earlier o))
      × (is_warned violations ≡ is_late now o.created_at)
unfolding check is_quarantined is_warned
check-default_order_rules format user_ids now c earlier o made =
    let (after, changed, same) =
      check_all-rules format user_ids now earlier c []
        (new_checker-rules (default_order_rules user_ids now) c made) in
    let ran = (check_all format c earlier).1 in
    (
      any-apply_rules format is_error ran.rules o ran.failures
          ∙ ap (any (violates format is_error o)) changed
          ∙ quarantined-rules_with format after user_ids now o earlier same,
      any-apply_rules format (λ s. not (is_error s)) ran.rules o ran.failures
          ∙ ap (any (violates format (λ s. not (is_error s)) o)) changed
          ∙ warned-rules_with format after user_ids now o,
    )
