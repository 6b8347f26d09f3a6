-- ===== src/Etl/Pipeline/Complete.antt =====
-- About `run_orders_pipeline` of etl/pipeline.py.
use task_platform.Common.{
  ℕ, ◌<◌, lt→ltb, All, suc, ◌+◌, ◌≡◌, refl, sym, ap, ◌∙◌, inl, inr, Bool, true, false, not, Option,
  none, some, List, [], ◌∷◌, ◌++◌, arith, Bool-cases, Option-cases, is_some, length, length-append,
  Text, text_eq, text_eq_iff,
}
use task_platform.Domain.Effects.{Result, ok}
use task_platform.Domain.Execution.{Instant}
use task_platform.Common.Dict
use task_platform.Common.Dict.{Dict, Key, text_key}
use task_platform.Etl.Records.{RawOrder, RawUser}
use task_platform.Etl.Quality.{
  Format, default_order_rules, in_set, is_quarantined, QualityChecker, new_checker, add_if, check,
  check_all, report,
}
use task_platform.Etl.Quality.Orders.{is_clean, check-default_order_rules}
use task_platform.Etl.Pipeline.{
  QuarantinedOrder, CleanOrder, checked_order, transform_order, group_key, Totals, no_totals,
  add_order, stats_of, add_orders, aggregate, Run, PipelineResult, quarantine_order, process_order,
  magnitude, decimal_limit, cents_of, fits_context, amount_of, process_orders, user_map,
  run_orders_pipeline, clean_with,
}

in_set-has : (d : Dict Text RawUser) (t : Text) → in_set (Dict.keys d) t ≡ Dict.has d t
unfolding Dict.has Dict.get
in_set-has [] t = refl
in_set-has ((j, u) ∷ d) t = ground (arith, in_set-has d t, text_eq_iff j t, text_eq_iff t j)

is_clean-parts :
    (ids : List Text) (earlier : List RawOrder) (o : RawOrder)
    → is_clean ids earlier o ≡ true
    → (is_some o.order_id ≡ true) × (is_some o.created_at ≡ true) × (in_set ids o.user_id ≡ true)
is_clean-parts ids earlier o h = elim (Option-cases o.order_id) [
  | inl e ↦ cc (h, e)
  | inr (id, e) ↦ (ap is_some e, ground arith, ground arith)
]

has-get : (d : Dict Text RawUser) (t : Text) → Dict.has d t ≡ is_some (Dict.get d t)
unfolding Dict.has
has-get d t = refl

-- The amount of an order has at most 28 digits, in cents.
abbrev pub Fits : RawOrder → Type 0
Fits o = fits_context (cents_of o) ≡ true

amount_of-Fits : (o : RawOrder) → Fits o → amount_of o ≡ ok (cents_of o)
unfolding amount_of
amount_of-Fits o fits = rw fits refl

-- An order that the standard rules let pass, and whose amount fits, can be transformed.
transform_order-clean :
    (users : Dict Text RawUser) (earlier : List RawOrder) (o : RawOrder)
    → is_clean (Dict.keys users) earlier o ≡ true
    → Fits o
    → (c : CleanOrder) × (transform_order users o ≡ ok c)
unfolding transform_order
transform_order-clean users earlier o h fits =
    by_parts o.order_id refl o.created_at refl (Dict.get users o.user_id) refl
  where
    by_parts :
        (id : Option Text)
        → o.order_id ≡ id
        → (created : Option Instant) → o.created_at ≡ created
        → (user : Option RawUser) → Dict.get users o.user_id ≡ user
        → (c : CleanOrder) × (checked_order users o o.order_id o.created_at ≡ ok c)
    by_parts none e created f user g =
        cc ((is_clean-parts (Dict.keys users) earlier o h).0, ap is_some e)
    by_parts (some id) e none f user g =
        cc ((is_clean-parts (Dict.keys users) earlier o h).1, ap is_some f)
    by_parts (some id) e (some created) f none g = cc (
      (is_clean-parts (Dict.keys users) earlier o h).2,
      in_set-has users o.user_id,
      has-get users o.user_id,
      ap is_some g,
    )
    by_parts (some id) e (some created) f (some user) g =
        (clean_with o id created user (cents_of o), rw (e, f, g, amount_of-Fits o fits) refl)

check_all-snoc :
    (format : Format) (c : QualityChecker) (earlier : List RawOrder) (o : RawOrder)
    → (check_all format c (earlier ++ o ∷ [])).1 ≡ (check format (check_all format c earlier).1 o).1
unfolding check_all
check_all-snoc format c [] o = refl
check_all-snoc format c (e ∷ earlier) o = check_all-snoc format (check format c e).1 earlier o

-- The orders that pass, transformed.
abbrev clean_list : Bool → Result CleanOrder → List CleanOrder
clean_list true (ok c) = c ∷ []
clean_list _ _ = []

abbrev pub cleaned : Dict Text RawUser → List RawOrder → List RawOrder → List CleanOrder
cleaned users earlier [] = []
cleaned users earlier (o ∷ orders) =
    clean_list (is_clean (Dict.keys users) earlier o) (transform_order users o)
    ++ cleaned users (earlier ++ o ∷ []) orders

check-counts :
    (format : Format) (c : QualityChecker) (o : RawOrder)
    → ((check format c o).1.quarantined
        ≡ add_if (is_quarantined (check format c o).0) c.quarantined)
      × ((check format c o).1.total ≡ suc c.total)
unfolding check
check-counts format c o = (refl, refl)

length-snoc : {A : Type 0} (xs : List A) (x : A) → length (xs ++ x ∷ []) ≡ length xs + 1
length-snoc xs x = length-append xs (x ∷ [])

module _ (format : Format) (users : Dict Text RawUser) (now : Instant) (c : QualityChecker)
    (made : new_checker (default_order_rules (Dict.keys users) now) ≡ ok c) where
  abbrev Agrees : List RawOrder → Run → Type 0
  Agrees earlier r =
      (r.checker ≡ (check_all format c earlier).1) × (r.checker.quarantined ≡ length r.quarantine)

  -- One order.
  process_order-Agrees :
      (earlier : List RawOrder) (o : RawOrder) (r : Run)
      → Fits o
      → Agrees earlier r
      → (after : Run) × (process_order format users o r ≡ (ok tt, after))
        × Agrees (earlier ++ o ∷ []) after
        × (after.totals
            ≡ add_orders r.totals
                (clean_list (is_clean (Dict.keys users) earlier o) (transform_order users o)))
        × (length after.quarantine
              + length (clean_list (is_clean (Dict.keys users) earlier o) (transform_order users o))
            ≡ length r.quarantine + 1)
        × (after.checker.total ≡ r.checker.total + 1)
  unfolding process_order
  process_order-Agrees earlier o r fits (same, counted) =
      elim (Bool-cases (is_clean (Dict.keys users) earlier o)) [
        | inl e ↦
            let (ck, t) = transform_order-clean users earlier o e fits in
            let passes : is_quarantined (check format r.checker o).0 ≡ false =
              quarantined ∙ ap not e in
            (
              record r { checker = (check format r.checker o).1; totals = add_order r.totals ck },
              rw (passes, t) refl,
              (next_checker, (check-counts format r.checker o).0 ∙ rw passes counted),
              rw (e, t) refl,
              rw (e, t) refl,
              omega (arith, (check-counts format r.checker o).1),
            )
        | inr e ↦
            let fails : is_quarantined (check format r.checker o).0 ≡ true =
              quarantined ∙ ap not e in
            let more : (check format r.checker o).1.quarantined ≡ suc r.checker.quarantined =
              (check-counts format r.checker o).0
              ∙ ap (λ b. add_if b r.checker.quarantined) fails in
            let item : QuarantinedOrder = record {
              order = o;
              violations = (check format r.checker o).0;
            } in
            (
              quarantine_order o (check format r.checker o).0
                  (record r { checker = (check format r.checker o).1 }),
              rw fails refl,
              (next_checker, omega (arith, more, counted, length-snoc r.quarantine item)),
              rw e refl,
              rw e (omega (arith, length-snoc r.quarantine item)),
              omega (arith, (check-counts format r.checker o).1),
            )
      ]
    where
      quarantined :
          is_quarantined (check format r.checker o).0 ≡ not (is_clean (Dict.keys users) earlier o)
      quarantined =
          ap (λ k. is_quarantined (check format k o).0) same
          ∙ (check-default_order_rules format (Dict.keys users) now c earlier o made).0

      next_checker : (check format r.checker o).1 ≡ (check_all format c (earlier ++ o ∷ [])).1
      next_checker = ap (λ k. (check format k o).1) same ∙ sym (check_all-snoc format c earlier o)

  add_orders-append :
      (t : Totals) (xs ys : List CleanOrder)
      → add_orders t (xs ++ ys) ≡ add_orders (add_orders t xs) ys
  add_orders-append t [] ys = refl
  add_orders-append t (x ∷ xs) ys = add_orders-append (add_order t x) xs ys

  -- The whole loop.
  process_orders-Agrees :
      (orders earlier : List RawOrder) (r : Run)
      → All Fits orders
      → Agrees earlier r
      → (after : Run) × (process_orders format users orders r ≡ (ok tt, after))
        × (after.checker.quarantined ≡ length after.quarantine)
        × (after.totals ≡ add_orders r.totals (cleaned users earlier orders))
        × (length after.quarantine + length (cleaned users earlier orders)
            ≡ length r.quarantine + length orders)
        × (after.checker.total ≡ r.checker.total + length orders)
  unfolding process_orders
  process_orders-Agrees [] earlier r fits (same, counted) =
      (r, refl, counted, refl, omega arith, omega arith)
  process_orders-Agrees (o ∷ orders) earlier r (fit, fits) agrees =
      let (mid, first, agrees', totals, kept, number) =
        process_order-Agrees earlier o r fit agrees in
      let (after, rest, counted, totals', kept', number') =
        process_orders-Agrees orders (earlier ++ o ∷ []) mid fits agrees' in
      let one = clean_list (is_clean (Dict.keys users) earlier o) (transform_order users o) in
      let others = cleaned users (earlier ++ o ∷ []) orders in
      (
        after,
        rw first rest,
        counted,
        totals'
            ∙ ap (λ t. add_orders t others) totals
            ∙ sym (add_orders-append r.totals one others),
        omega (arith, kept, kept', length-append one others),
        omega (arith, number, number'),
      )

abbrev standard_checker : List Text → Instant → QualityChecker
standard_checker ids now = record {
  rules = default_order_rules ids now;
  failures = [];
  total = 0;
  quarantined = 0;
  warned = 0;
}

new_checker-standard :
    (ids : List Text) (now : Instant)
    → new_checker (default_order_rules ids now) ≡ ok (standard_checker ids now)
unfolding new_checker text_eq
new_checker-standard ids now = refl

-- The amounts in cents, without their signs, added up.
abbrev pub total_cents : List RawOrder → ℕ
total_cents [] = 0
total_cents (o ∷ orders) = magnitude (cents_of o) + total_cents orders

total_cents-Fits : (orders : List RawOrder) → total_cents orders < decimal_limit → All Fits orders
total_cents-Fits [] h = tt
total_cents-Fits (o ∷ orders) h = (
  lt→ltb (magnitude (cents_of o)) decimal_limit (omega arith),
  total_cents-Fits orders (omega arith),
)

-- For orders whose decimals are finite and whose amounts in cents, without their signs, add up to a
-- number of at most 28 digits, and any users, the pipeline returns: its quality report counts all
-- orders, and as quarantined as many as were handed to on_quarantine; the other orders, transformed,
-- are as many as are left, and the statistics are their aggregation.
pub run_orders_pipeline-ok :
    (format : Format) (orders : List RawOrder) (users : List RawUser) (now : Instant)
    → total_cents orders < decimal_limit
    → let (result, quarantine) = run_orders_pipeline format orders users now in
      let clean = cleaned (user_map users []) [] orders in
      (done : PipelineResult) × (result ≡ ok done)
      × (done.quality.total_rows ≡ length orders)
      × (done.quality.quarantined_rows ≡ length quarantine)
      × (length quarantine + length clean ≡ length orders)
      × (done.stats ≡ aggregate clean)
unfolding run_orders_pipeline report aggregate check_all
run_orders_pipeline-ok format orders users now fits =
    let by_id = user_map users [] in
    let c = standard_checker (Dict.keys by_id) now in
    let made = new_checker-standard (Dict.keys by_id) now in
    let (after, ran, counted, totals, kept, number) =
      process_orders-Agrees format by_id now c made orders []
        (record { checker = c; totals = no_totals; quarantine = [] }) (total_cents-Fits orders fits)
        (refl, refl) in
    (
      record { quality = report after.checker; stats = stats_of after.totals },
      rw (made, ran) refl,
      omega (arith, number),
      rw (made, ran) counted,
      rw (made, ran) (omega (arith, kept)),
      ap stats_of totals,
    )
