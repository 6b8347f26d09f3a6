-- ===== src/Etl/Quality/Report.antt =====
-- About the report of etl/quality.py: its numbers against the violations that the checks returned.
use task_platform.Domain.Effects.{ok}
use task_platform.Common.{
  ℕ, suc, ◌+◌, ◌≡◌, refl, ap, ◌∙◌, List, [], ◌∷◌, arith, ◌==◌, length, filter, Text, text_eq,
  text_eq_iff, Option, none, some, map,
}
use task_platform.Common.Dict
use task_platform.Common.Dict.{Dict, Key, text_key}
use task_platform.Etl.Records.{RawOrder}
use task_platform.Etl.Quality.{
  Violation, Rule, Format, check_condition, RuleResult, is_quarantined, is_warned, QualityChecker,
  rule_names, count_of, increment, add_if, apply_rules, check, check_all, new_checker,
  add_violation, note_message, result_of, report,
}

abbrev pub violations_of : Text → List Violation → ℕ
violations_of name violations = length (filter (λ (v : Violation). text_eq v.rule name) violations)

abbrev pub all_violations_of : Text → List (List Violation) → ℕ
all_violations_of name [] = 0
all_violations_of name (violations ∷ rest) =
    violations_of name violations + all_violations_of name rest

abbrev pub expected_result : List (List Violation) → Rule → RuleResult
expected_result violations r =
    let n = all_violations_of r.name violations in
    record { rule = r.name; passed = n == 0; invalid_count = n }

count_of-increment :
    (d : Dict Text ℕ) (a b : Text)
    → count_of (increment d a) b ≡ count_of d b + add_if (text_eq a b) 0
unfolding count_of increment
count_of-increment d a b = ground (arith, text_eq_iff a b, Dict.get-put d a b (suc (count_of d a)))

count_of-note_message :
    (r : Rule) (message : Option Text) (d : Dict Text ℕ) (vs : List Violation) (name : Text)
    → count_of (note_message r message d) name + violations_of name vs
      ≡ count_of d name + violations_of name (add_violation r message vs)
count_of-note_message r none d vs name = refl
count_of-note_message r (some message) d vs name = ground (arith, count_of-increment d r.name name)

apply_rules-counts :
    (format : Format) (rules : List Rule) (o : RawOrder) (d : Dict Text ℕ) (name : Text)
    → count_of (apply_rules format rules o d).1.1 name
      ≡ count_of d name + violations_of name (apply_rules format rules o d).0
unfolding apply_rules
apply_rules-counts format [] o d name = omega arith
apply_rules-counts format (r ∷ rules) o d name =
    let message = (check_condition format r.condition o).0 in
    let d' = note_message r message d in
    apply_rules-counts format rules o d' name
    ∙ count_of-note_message r message d (apply_rules format rules o d').0 name

apply_rules-names :
    (format : Format) (rules : List Rule) (o : RawOrder) (d : Dict Text ℕ)
    → rule_names (apply_rules format rules o d).1.0 ≡ rule_names rules
unfolding apply_rules
apply_rules-names format [] o d = refl
apply_rules-names format (r ∷ rules) o d =
    ap (λ ns. r.name ∷ ns)
      (apply_rules-names format rules o (note_message r (check_condition format r.condition o).0 d))

module _ (format : Format) where
  check_all-counts :
      (c : QualityChecker) (orders : List RawOrder) (name : Text)
      → count_of (check_all format c orders).1.failures name
        ≡ count_of c.failures name + all_violations_of name (check_all format c orders).0
  unfolding check_all check
  check_all-counts c [] name = omega arith
  check_all-counts c (o ∷ orders) name = omega (
    arith,
    check_all-counts (check format c o).1 orders name,
    apply_rules-counts format c.rules o c.failures name,
  )

  check_all-names :
      (c : QualityChecker) (orders : List RawOrder)
      → rule_names (check_all format c orders).1.rules ≡ rule_names c.rules
  unfolding check_all check
  check_all-names c [] = refl
  check_all-names c (o ∷ orders) =
      check_all-names (check format c o).1 orders ∙ apply_rules-names format c.rules o c.failures

  check_all-total :
      (c : QualityChecker) (orders : List RawOrder)
      → (check_all format c orders).1.total ≡ c.total + length orders
  unfolding check_all check
  check_all-total c [] = omega arith
  check_all-total c (o ∷ orders) = omega (arith, check_all-total (check format c o).1 orders)

  check_all-quarantined :
      (c : QualityChecker) (orders : List RawOrder)
      → (check_all format c orders).1.quarantined
        ≡ c.quarantined + length (filter is_quarantined (check_all format c orders).0)
  unfolding check_all check
  check_all-quarantined c [] = omega arith
  check_all-quarantined c (o ∷ orders) =
      ground (arith, check_all-quarantined (check format c o).1 orders)

  check_all-warned :
      (c : QualityChecker) (orders : List RawOrder)
      → (check_all format c orders).1.warned
        ≡ c.warned + length (filter is_warned (check_all format c orders).0)
  unfolding check_all check
  check_all-warned c [] = omega arith
  check_all-warned c (o ∷ orders) = ground (arith, check_all-warned (check format c o).1 orders)

results_by_name :
    (counts : Dict Text ℕ) (violations : List (List Violation))
    → ((name : Text) → count_of counts name ≡ all_violations_of name violations)
    → (ran rules : List Rule) → rule_names ran ≡ rule_names rules
    → map (result_of counts) ran ≡ map (expected_result violations) rules
results_by_name counts violations same [] [] e = refl
results_by_name counts violations same [] (r ∷ rules) e = cc
results_by_name counts violations same (r ∷ ran) [] e = cc
results_by_name counts violations same (q ∷ ran) (r ∷ rules) e =
    cc (same_head, results_by_name counts violations same ran rules (cc (e)))
  where
    head_of : q.name ≡ r.name
    head_of = cc (e)

    same_head : result_of counts q ≡ expected_result violations r
    same_head =
        ap
          (λ name. record {
            rule = name;
            passed = count_of counts name == 0;
            invalid_count = count_of counts name;
          })
          head_of
        ∙ ap (λ n. record { rule = r.name; passed = n == 0; invalid_count = n }) (same r.name)

abbrev fresh : List Rule → QualityChecker
fresh rules = record { rules = rules; failures = []; total = 0; quarantined = 0; warned = 0 }

new_checker-eq-ok :
    (rules : List Rule) (c : QualityChecker) → new_checker rules ≡ ok c → c ≡ fresh rules
unfolding new_checker
new_checker-eq-ok rules c made = ground arith

fresh-counts :
    (format : Format) (rules : List Rule) (orders : List RawOrder) (name : Text)
    → count_of (check_all format (fresh rules) orders).1.failures name
      ≡ all_violations_of name (check_all format (fresh rules) orders).0
unfolding count_of Dict.get
fresh-counts format rules orders name =
    omega (arith, check_all-counts format (fresh rules) orders name)

fresh-sums :
    (format : Format) (rules : List Rule) (orders : List RawOrder)
    → let c = (check_all format (fresh rules) orders).1 in
      let violations = (check_all format (fresh rules) orders).0 in
      (c.total ≡ length orders)
      × (c.quarantined ≡ length (filter is_quarantined violations))
      × (c.warned ≡ length (filter is_warned violations))
fresh-sums format rules orders = (
  omega (arith, check_all-total format (fresh rules) orders),
  omega (arith, check_all-quarantined format (fresh rules) orders),
  omega (arith, check_all-warned format (fresh rules) orders),
)

-- After a checker that has just been made has checked any list of orders, its report counts the orders,
-- those of them whose violations hold an error, those whose violations hold a warning, and for each
-- rule, in the rules' order, the violations that were returned under its name; a rule has passed exactly
-- when that number is 0.
pub report-check_all :
    (format : Format) (rules : List Rule) (orders : List RawOrder) (c : QualityChecker)
    → new_checker rules ≡ ok c
    → report (check_all format c orders).1 ≡ record {
      total_rows = length orders;
      quarantined_rows = length (filter is_quarantined (check_all format c orders).0);
      warning_rows = length (filter is_warned (check_all format c orders).0);
      results = map (expected_result (check_all format c orders).0) rules;
    }
unfolding report
report-check_all format rules orders c made = rw (new_checker-eq-ok rules c made) (
    cc (
      (fresh-sums format rules orders).0,
      (fresh-sums format rules orders).1,
      (fresh-sums format rules orders).2,
      results_by_name (check_all format (fresh rules) orders).1.failures
          (check_all format (fresh rules) orders).0 (fresh-counts format rules orders)
          (check_all format (fresh rules) orders).1.rules rules
          (check_all-names format (fresh rules) orders),
    ))
