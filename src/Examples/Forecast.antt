-- ===== src/Examples/Forecast.antt =====
-- The forecast feature at two lines of one supplier and location.
use mathlib.Core.Path.{sym, subst}
use mathlib.Core.List.Permᴰ
use mathlib.Core.List.{Memᴰ}
use forecast_e_zoo.Common.{
  ◌*◌, All, ◌≡◌, ◌<◌, ◌⊎◌, refl, true, Option, some, List, [], ◌∷◌, arith, length,
}
use forecast_e_zoo.Common.Text.{Text, codes, text_eq}
use forecast_e_zoo.Common.Time.{truncate_day}
use forecast_e_zoo.Common.Int.{ℤ, pos, ◌+ℤ◌, ◌*ℤ◌, quot_ℤ}
use forecast_e_zoo.Common.Sorting.Unique.{Increasing}
use forecast_e_zoo.Examples.Fixed.{thousandths, thousandths-IsOrdered}
use forecast_e_zoo.Forecast.Forecaster.{group_from, predict_batch}
use forecast_e_zoo.Forecast.Forecaster.Range.{IsForecast, predict_batch-IsForecast}
use forecast_e_zoo.Forecast.Models.{DemandPoint, CalculationLine, ReplenishmentPlan, draft}
use forecast_e_zoo.Forecast.Calculator.{Input, new, compute}
use forecast_e_zoo.Forecast.Calculator.Bounds.{IsOrderable, compute-IsOrderable}
use forecast_e_zoo.Forecast.Constructor.{
  SupplierConfig, Aggregator, less, eligible_supplier, config_of, rounded_total, build_plans,
}
use forecast_e_zoo.Forecast.Constructor.Groups.{ordered, total_from}
use forecast_e_zoo.Forecast.Constructor.Order.{
  Visits, build_plans-Increasing, build_plans-visit_irrelevant,
}
use forecast_e_zoo.Forecast.Constructor.Accounts.{build_plans-accounts, build_plans_complete}

abbrev item : Input ℤ
item = record {
  product_id = codes "p1";
  location_id = codes "l1";
  supplier_id = some (codes "s1");
  current_stock = pos 3000;
  in_transit = pos 0;
  daily_demand = pos 2000;
  lead_time_days = pos 5;
  std_dev = pos 500;
}

abbrev line : ℤ → CalculationLine ℤ
line qty = record {
  product_id = codes "p1";
  location_id = codes "l1";
  supplier_id = some (codes "s1");
  current_stock = pos 3000;
  in_transit = pos 0;
  daily_demand = pos 2000;
  lead_time_days = pos 5;
  safety_stock = pos 0;
  reorder_point = pos 10000;
  target_stock = pos 24000;
  reorder_qty = qty;
}

abbrev lines : List (CalculationLine ℤ)
lines = line (pos 4000) ∷ line (pos 5000) ∷ []

abbrev supplier : Text → Option (SupplierConfig ℤ)
supplier s = some (record { moq = pos 2000; multiplier = pos 4000 })

abbrev in_order : List (Aggregator ℤ) → List (Aggregator ℤ)
in_order gs = gs

in_order-Visits : Visits in_order
in_order-Visits gs = Permᴰ.refl gs

abbrev plan : ReplenishmentPlan ℤ
plan = record {
  supplier_id = codes "s1";
  location_id = codes "l1";
  plan_date = 86400000000000;
  total_qty = pos 12000;
  lines_count = 2;
  status = draft;
}

one_plan : build_plans thousandths in_order lines supplier 86400000000007 ≡ plan ∷ []
unfolding build_plans text_eq ◌+ℤ◌ quot_ℤ ◌*ℤ◌
one_plan = refl

plan-Memᴰ : Memᴰ plan (build_plans thousandths in_order lines supplier 86400000000007)
plan-Memᴰ = subst (Memᴰ plan) (sym one_plan) (Memᴰ.head refl)

build_plans-accounts_example :
    let qs = ordered thousandths (codes "s1") (codes "l1") lines in
    (0 < length qs)
    × (2 ≡ length qs)
    × (pos 12000
        ≡ rounded_total thousandths
            (config_of thousandths supplier (codes "s1"))
            (total_from thousandths (pos 0) qs))
    × (86400000000000 ≡ truncate_day 86400000000007)
    × (draft ≡ draft)
build_plans-accounts_example =
    build_plans-accounts thousandths in_order lines supplier 86400000000007 in_order-Visits
      plan-Memᴰ

some_ordered : 0 < length (ordered thousandths (codes "s1") (codes "l1") lines)
unfolding ordered eligible_supplier text_eq
some_ordered = omega arith

build_plans_complete_example :
    let total =
      total_from thousandths (pos 0) (ordered thousandths (codes "s1") (codes "l1") lines) in
    ((p : ReplenishmentPlan ℤ) × Memᴰ p
        (build_plans thousandths in_order lines supplier 86400000000007)
      × (p.supplier_id ≡ codes "s1")
      × (p.location_id ≡ codes "l1"))
    ⊎ ((thousandths.lt (pos 0) (pos 2000) ≡ true) × (thousandths.lt total (pos 2000) ≡ true))
build_plans_complete_example =
    build_plans_complete thousandths in_order lines supplier 86400000000007 in_order-Visits
      (codes "s1") (codes "l1") some_ordered

build_plans-Increasing_example :
    Increasing less (build_plans thousandths in_order lines supplier 86400000000007)
build_plans-Increasing_example =
    build_plans-Increasing thousandths lines supplier 86400000000007 in_order in_order-Visits

build_plans-visit_irrelevant_example :
    build_plans thousandths in_order lines supplier 86400000000007
    ≡ build_plans thousandths (λ gs. gs) lines supplier 86400000000007
build_plans-visit_irrelevant_example =
    build_plans-visit_irrelevant thousandths lines supplier 86400000000007 in_order (λ gs. gs)
      in_order-Visits in_order-Visits

compute-IsOrderable_example : IsOrderable thousandths (compute thousandths (new thousandths) item)
compute-IsOrderable_example =
    compute-IsOrderable thousandths thousandths-IsOrdered (new thousandths) item

abbrev sale : DemandPoint ℤ
sale = record {
  product_id = codes "p1";
  location_id = codes "l1";
  as_of_date = 86400000000000;
  qty_sold = pos 3000;
}

predict_batch-IsForecast_example :
    let out = predict_batch thousandths (λ t. 1) (λ gs. gs) (sale ∷ []) 172800000000000 (pos 14) in
    (length out ≡ length (group_from (sale ∷ []) []) * 14)
    × All
        (IsForecast thousandths thousandths-IsOrdered (λ t. 1) (truncate_day 172800000000000) 14)
        out
predict_batch-IsForecast_example =
    predict_batch-IsForecast thousandths thousandths-IsOrdered (λ t. 1) (λ gs. gs) sale []
      172800000000000 14 (omega arith)
