-- ===== src/Tests/Etl.antt =====
-- Three orders, of which one has no id and one repeats an id.
use task_platform.Common.{
  ltb, ltb→lt, true, ◌+◌, ◌≡◌, refl, not, none, some, List, [], ◌∷◌, map, length, filter, sort_with,
  pos, ◌-ℤ◌, ◌*ℤ◌, codes, text_eq,
}
use task_platform.Domain.Effects.{ok}
use task_platform.Common.Dict
use task_platform.Common.Dict.{Dict, Key, text_key}
use task_platform.Etl.Records.{RawOrder, RawUser}
use task_platform.Etl.Quality.{
  Rule, Format, default_order_rules, is_quarantined, is_warned, QualityChecker, new_checker, check,
  check_all, report,
}
use task_platform.Etl.Quality.Report.{expected_result, report-check_all}
use task_platform.Etl.Quality.Orders.{is_clean, check-default_order_rules, is_late}
use task_platform.Etl.Pipeline.{
  CleanOrder, round_half_up, quantize_cents, cents_of, decimal_limit, decimal_product, one_minus,
  in_context, amount_of, transform_order, group_key, group_ltb, aggregate, PipelineResult, user_map,
  run_orders_pipeline,
}
use task_platform.Etl.Pipeline.Groups.{expected_stat, groups_from, aggregate_lem}
use task_platform.Etl.Pipeline.Complete.{cleaned, run_orders_pipeline-ok, total_cents}

abbrev plain : Format
plain = record { repr = λ t. t; number = λ d. []; sorted_list = λ ts. []; isoformat = λ t. [] }

abbrev sample_user : RawUser
sample_user = record {
  user_id = codes "u1";
  region = codes "north";
  register_date = 0;
  member_level = [];
}

abbrev sample_order : RawOrder
sample_order = record {
  order_id = some (codes "o1");
  user_id = codes "u1";
  product_id = codes "p1";
  quantity = pos 2;
  unit_price = record { coefficient = pos 1250; places = 2 };
  discount = record { coefficient = pos 10; places = 2 };
  status = codes "PAID";
  created_at = some 5;
}

abbrev nameless : RawOrder
nameless = record sample_order { order_id = none }

abbrev sample_orders : List RawOrder
sample_orders = sample_order ∷ nameless ∷ sample_order ∷ []

abbrev sample_rules : List Rule
sample_rules = default_order_rules (codes "u1" ∷ []) 10

abbrev sample_checker : QualityChecker
sample_checker = record {
  rules = sample_rules;
  failures = [];
  total = 0;
  quarantined = 0;
  warned = 0;
}

made : new_checker sample_rules ≡ ok sample_checker
unfolding new_checker text_eq
made = refl

report-check_all_example : report (check_all plain sample_checker sample_orders).1 ≡ record {
  total_rows = length sample_orders;
  quarantined_rows =
      length (filter is_quarantined (check_all plain sample_checker sample_orders).0);
  warning_rows = length (filter is_warned (check_all plain sample_checker sample_orders).0);
  results = map (expected_result (check_all plain sample_checker sample_orders).0) sample_rules;
}
report-check_all_example = report-check_all plain sample_rules sample_orders sample_checker made

check-default_order_rules_example :
    let violations =
      (check plain (check_all plain sample_checker (sample_order ∷ [])).1 nameless).0 in
    (is_quarantined violations ≡ not (is_clean (codes "u1" ∷ []) (sample_order ∷ []) nameless))
    × (is_warned violations ≡ is_late 10 nameless.created_at)
check-default_order_rules_example =
    check-default_order_rules plain (codes "u1" ∷ []) 10 sample_checker (sample_order ∷ []) nameless
      made

amounts_fit : ltb (total_cents sample_orders) decimal_limit ≡ true
unfolding cents_of decimal_product one_minus in_context quantize_cents round_half_up ◌*ℤ◌ ◌-ℤ◌
amounts_fit = refl

run_orders_pipeline-ok_example :
    let (result, quarantine) = run_orders_pipeline plain sample_orders (sample_user ∷ []) 10 in
    let clean = cleaned (user_map (sample_user ∷ []) []) [] sample_orders in
    (done : PipelineResult) × (result ≡ ok done)
    × (done.quality.total_rows ≡ length sample_orders)
    × (done.quality.quarantined_rows ≡ length quarantine)
    × (length quarantine + length clean ≡ length sample_orders)
    × (done.stats ≡ aggregate clean)
run_orders_pipeline-ok_example =
    run_orders_pipeline-ok plain sample_orders (sample_user ∷ []) 10
      (ltb→lt (total_cents sample_orders) decimal_limit amounts_fit)

abbrev clean_sample : CleanOrder
clean_sample = record {
  order_id = codes "o1";
  user_id = codes "u1";
  region = codes "north";
  order_date = 0;
  status = codes "PAID";
  amount = pos 2250;
}

-- 2 * 12.50 * (1 - 0.10) is 22.50.
transformed : transform_order ((codes "u1", sample_user) ∷ []) sample_order ≡ ok clean_sample
unfolding transform_order amount_of cents_of decimal_product one_minus in_context quantize_cents
    round_half_up ◌*ℤ◌ ◌-ℤ◌ Dict.get text_eq
transformed = refl

aggregate_lem_example :
    aggregate (clean_sample ∷ clean_sample ∷ [])
    ≡ map
        (expected_stat (clean_sample ∷ clean_sample ∷ []))
        (sort_with group_ltb (groups_from [] (clean_sample ∷ clean_sample ∷ [])))
aggregate_lem_example = aggregate_lem (clean_sample ∷ clean_sample ∷ [])
