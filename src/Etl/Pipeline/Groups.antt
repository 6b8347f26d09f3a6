-- ===== src/Etl/Pipeline/Groups.antt =====
-- About `aggregate` of etl/pipeline.py.
use task_platform.Common.{
  ◌+◌, ◌≡◌, refl, ap, ◌∙◌, inl, inr, Bool, true, false, ◌&&◌, List, [], ◌∷◌, ◌++◌, map, arith,
  if◌then◌else◌, Bool-cases, length, filter, any, sort_with, ℤ, pos, ◌+ℤ◌,
}
use task_platform.Common.Dict
use task_platform.Common.Dict.{Dict, Key, text_key}
use task_platform.Etl.Pipeline.{
  CleanOrder, DailyRegionStat, Group, group_eq, group_eq_iff, group_key, group_of, Totals,
  no_totals, or_default, is_paid, bump, add_order, group_ltb, stat_of, stats_of, add_orders,
  aggregate, counted_totals, paid_totals,
}

abbrev pub is_in : Group → CleanOrder → Bool
is_in g o = group_eq (group_of o) g

abbrev pub is_paid_in : Group → CleanOrder → Bool
is_paid_in g o = is_in g o && is_paid o

-- The sum of the amounts, from a first value on.
abbrev pub sum_from : ℤ → List CleanOrder → ℤ
sum_from z [] = z
sum_from z (o ∷ orders) = sum_from (z +ℤ o.amount) orders

-- The row of a group by its definition, from the orders themselves.
abbrev pub expected_stat : List CleanOrder → Group → DailyRegionStat
expected_stat orders g = record {
  order_date = g.0;
  region = g.1;
  order_count = length (filter (is_in g) orders);
  paid_count = length (filter (is_paid_in g) orders);
  gmv = sum_from (pos 0) (filter (is_paid_in g) orders);
}

order_counts-add_order :
    (t : Totals) (o : CleanOrder) (g : Group)
    → or_default 0 (Dict.get (add_order t o).order_counts g) ≡ (
        if is_in g o
        then or_default 0 (Dict.get t.order_counts g) + 1
        else or_default 0 (Dict.get t.order_counts g))
unfolding add_order
order_counts-add_order t o g = ground (
  arith,
  group_eq_iff (group_of o) g,
  Dict.get-put t.order_counts (group_of o) g
      (or_default 0 (Dict.get t.order_counts (group_of o)) + 1),
)

paid_counts-add_order :
    (t : Totals) (o : CleanOrder) (g : Group)
    → or_default 0 (Dict.get (add_order t o).paid_counts g) ≡ (
        if is_paid_in g o
        then or_default 0 (Dict.get t.paid_counts g) + 1
        else or_default 0 (Dict.get t.paid_counts g))
unfolding add_order
paid_counts-add_order t o g = ground (
  arith,
  group_eq_iff (group_of o) g,
  Dict.get-put t.paid_counts (group_of o) g
      (or_default 0 (Dict.get t.paid_counts (group_of o)) + 1),
)

gmv-add_order :
    (t : Totals) (o : CleanOrder) (g : Group)
    → or_default (pos 0) (Dict.get (add_order t o).gmv g) ≡ (
        if is_paid_in g o
        then or_default (pos 0) (Dict.get t.gmv g) +ℤ o.amount
        else or_default (pos 0) (Dict.get t.gmv g))
unfolding add_order
gmv-add_order t o g = ground (
  arith,
  group_eq_iff (group_of o) g,
  Dict.get-put t.gmv (group_of o) g (or_default (pos 0) (Dict.get t.gmv (group_of o)) +ℤ o.amount),
)

-- The totals of a group, after more orders.
stat_of-add_orders :
    (orders : List CleanOrder) (t : Totals) (g : Group)
    → (or_default 0 (Dict.get (add_orders t orders).order_counts g)
        ≡ or_default 0 (Dict.get t.order_counts g) + length (filter (is_in g) orders))
      × (or_default 0 (Dict.get (add_orders t orders).paid_counts g)
          ≡ or_default 0 (Dict.get t.paid_counts g) + length (filter (is_paid_in g) orders))
      × (or_default (pos 0) (Dict.get (add_orders t orders).gmv g)
          ≡ sum_from (or_default (pos 0) (Dict.get t.gmv g)) (filter (is_paid_in g) orders))
stat_of-add_orders [] t g = (omega arith, omega arith, refl)
stat_of-add_orders (o ∷ orders) t g =
    let (counts, paid, sums) = stat_of-add_orders orders (add_order t o) g in
    (
      ground (arith, counts, order_counts-add_order t o g),
      ground (arith, paid, paid_counts-add_order t o g),
      elim (Bool-cases (is_paid_in g o)) [
        | inl e ↦ rw (sums, gmv-add_order t o g, e) refl
        | inr e ↦ rw (sums, gmv-add_order t o g, e) refl
      ],
    )

-- The groups of the orders, each once, in the order of their first orders.
abbrev pub add_group : List Group → Group → List Group
add_group groups g = if any (λ j. group_eq j g) groups then groups else groups ++ g ∷ []

abbrev pub groups_from : List Group → List CleanOrder → List Group
groups_from groups [] = groups
groups_from groups (o ∷ orders) = groups_from (add_group groups (group_of o)) orders

keys-add_order :
    (t : Totals) (o : CleanOrder)
    → Dict.keys (add_order t o).order_counts ≡ add_group (Dict.keys t.order_counts) (group_of o)
unfolding add_order
keys-add_order t o =
    let g = group_of o in
    let n = or_default 0 (Dict.get t.order_counts g) + 1 in
    counted (is_paid o) ∙ elim (Bool-cases (Dict.has t.order_counts g)) [
      | inl e ↦
          Dict.keys-put_present t.order_counts g n e ∙ rw (Dict.any-keys t.order_counts g, e) refl
      | inr e ↦ Dict.keys-put t.order_counts g n e ∙ rw (Dict.any-keys t.order_counts g, e) refl
    ]
  where
    counted :
        (b : Bool)
        → Dict.keys (if b then paid_totals t o else counted_totals t o).order_counts
          ≡ Dict.keys (bump t.order_counts (group_of o))
    counted true = refl
    counted false = refl

keys-add_orders :
    (orders : List CleanOrder) (t : Totals)
    → Dict.keys (add_orders t orders).order_counts ≡ groups_from (Dict.keys t.order_counts) orders
keys-add_orders [] t = refl
keys-add_orders (o ∷ orders) t =
    keys-add_orders orders (add_order t o) ∙ ap (λ gs. groups_from gs orders) (keys-add_order t o)

map-same :
    {A B : Type 0} (f g : A → B) → ((a : A) → f a ≡ g a) → (xs : List A) → map f xs ≡ map g xs
map-same f g same [] = refl
map-same f g same (x ∷ xs) = cc (same x, map-same f g same xs)

stat_of-no_totals :
    (orders : List CleanOrder) (g : Group)
    → stat_of (add_orders no_totals orders) g ≡ expected_stat orders g
unfolding Dict.get
stat_of-no_totals orders g =
    let (counts, paid, sums) = stat_of-add_orders orders no_totals g in
    let counts' : or_default 0 (Dict.get (add_orders no_totals orders).order_counts g)
        ≡ length (filter (is_in g) orders) =
      omega (arith, counts) in
    let paid' : or_default 0 (Dict.get (add_orders no_totals orders).paid_counts g)
        ≡ length (filter (is_paid_in g) orders) =
      omega (arith, paid) in
    cc (counts', paid', sums)

-- The report has one row for each date and region of which there is an order, sorted by date and then
-- region, and each row counts the orders of its group, counts those of them that are paid, and sums
-- the amounts of the paid ones.
pub aggregate_lem :
    (orders : List CleanOrder)
    → aggregate orders ≡ map (expected_stat orders) (sort_with group_ltb (groups_from [] orders))
unfolding aggregate stats_of
aggregate_lem orders =
    map-same (stat_of (add_orders no_totals orders)) (expected_stat orders)
      (stat_of-no_totals orders)
      (sort_with group_ltb (Dict.keys (add_orders no_totals orders).order_counts))
    ∙ ap (λ gs. map (expected_stat orders) (sort_with group_ltb gs))
        (keys-add_orders orders no_totals)
