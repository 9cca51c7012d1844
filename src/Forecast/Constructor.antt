-- ===== src/Forecast/Constructor.antt =====
-- internal/features/forecast/constructor/constructor.go: grouping of calculation lines into
-- replenishment plans by supplier and location, with minimum order quantity and rounding.
pub mod Order
pub mod Groups
pub mod Accounts
use forecast_e_zoo.Common.{
  ℕ, ◌+◌, Bool, true, false, not, ◌&&◌, Option, none, some, List, [], ◌∷◌, ◌++◌, if◌then◌else◌,
}
use forecast_e_zoo.Common.Text.{Text, text_eq, text_lt}
use forecast_e_zoo.Common.Time.{Time, truncate_day}
use forecast_e_zoo.Common.Float.{Float64}
use forecast_e_zoo.Common.Sorting.{exchange_sort}
use forecast_e_zoo.Forecast.Models.{CalculationLine, ReplenishmentPlan, PlanStatus, draft}

pub record SupplierConfig (V : Type 0) : Type 0 where
  pub moq : V
  pub multiplier : V

-- One value of the map `groups`, with its key `{supplier, location}`.
pub record Aggregator (V : Type 0) : Type 0 where
  pub supplier : Text
  pub location : Text
  pub total_qty : V
  pub lines_count : ℕ

-- The comparison of two map keys.
abbrev pub same_key : Text → Text → Text → Text → Bool
same_key s l s' l' = text_eq s s' && text_eq l l'

unfoldable pub less : {V : Type 0} → ReplenishmentPlan V → ReplenishmentPlan V → Bool
less a b =
    if not (text_eq a.supplier_id b.supplier_id)
    then text_lt a.supplier_id b.supplier_id
    else text_lt a.location_id b.location_id

-- The two nested loops that swap `plans[i]` with each lesser `plans[j]` behind it.
unfoldable pub sort_plans : {V : Type 0} → List (ReplenishmentPlan V) → List (ReplenishmentPlan V)
unfolding exchange_sort less
sort_plans = exchange_sort less

-- `plans = append(plans, …)` or `continue`
abbrev pub with_plan :
    {V : Type 0}
    → Option (ReplenishmentPlan V)
    → List (ReplenishmentPlan V)
    → List (ReplenishmentPlan V)
with_plan none ps = ps
with_plan (some p) ps = p ∷ ps

module _ (f : Float64) where
  open f use {Val, lit, add, mul, div, ceil, lt, le}

  -- The two `continue`s of the grouping loop: the supplier that an orderable line is grouped under.
  unfoldable pub eligible_supplier : CalculationLine Val → Option Text
  eligible_supplier ln = elim ln.supplier_id [
    | none ↦ none
    | some s ↦ if text_eq s [] then none else if le ln.reorder_qty (lit 0 0) then none else some s
  ]

  -- `agg.totalQty += ln.ReorderQty; agg.linesCount++`
  abbrev pub bump : Val → Aggregator Val → Aggregator Val
  bump qty agg = record agg { total_qty = add agg.total_qty qty; lines_count = agg.lines_count + 1 }

  -- Looks the key up in `groups`, makes its aggregator where it is missing, and bumps it.
  unfoldable pub add_to_group : Text → Text → Val → List (Aggregator Val) → List (Aggregator Val)
  add_to_group s l qty [] =
      bump qty (record { supplier = s; location = l; total_qty = lit 0 0; lines_count = 0 }) ∷ []
  add_to_group s l qty (g ∷ gs) =
      let rest = add_to_group s l qty gs in
      if same_key s l g.supplier g.location then bump qty g ∷ gs else g ∷ rest

  unfoldable pub group_line : CalculationLine Val → List (Aggregator Val) → List (Aggregator Val)
  unfolding eligible_supplier add_to_group
  group_line ln gs = elim (eligible_supplier ln) [
    | none ↦ gs
    | some s ↦ add_to_group s ln.location_id ln.reorder_qty gs
  ]

  unfoldable pub group_lines :
      List (CalculationLine Val) → List (Aggregator Val) → List (Aggregator Val)
  unfolding group_line
  group_lines [] gs = gs
  group_lines (ln ∷ lns) gs = group_lines lns (group_line ln gs)

  abbrev pub default_config : SupplierConfig Val
  default_config = record { moq = lit 0 0; multiplier = lit 1 0 }

  abbrev pub config_of : (Text → Option (SupplierConfig Val)) → Text → SupplierConfig Val
  config_of suppliers s = elim (suppliers s) [ none ↦ default_config | some v ↦ v ]

  -- `total` after the multiplier
  abbrev pub rounded_total : SupplierConfig Val → Val → Val
  rounded_total cfg total =
      if lt (lit 1 0) cfg.multiplier
      then mul (ceil (div total cfg.multiplier)) cfg.multiplier
      else total

  abbrev pub draft_plan :
      (Text → Option (SupplierConfig Val)) → Time → Aggregator Val → ReplenishmentPlan Val
  draft_plan suppliers plan_date agg = record {
    supplier_id = agg.supplier;
    location_id = agg.location;
    plan_date = truncate_day plan_date;
    total_qty = rounded_total (config_of suppliers agg.supplier) agg.total_qty;
    lines_count = agg.lines_count;
    status = draft;
  }

  -- One round of the loop over `groups`: no plan below the minimum order quantity.
  unfoldable pub plan_of :
      (Text → Option (SupplierConfig Val)) → Time → Aggregator Val → Option (ReplenishmentPlan Val)
  unfolding truncate_day
  plan_of suppliers plan_date agg =
      let cfg = config_of suppliers agg.supplier in
      if lt (lit 0 0) cfg.moq && lt agg.total_qty cfg.moq
      then none
      else some (draft_plan suppliers plan_date agg)

  unfoldable pub plans_of :
      (Text → Option (SupplierConfig Val))
      → Time
      → List (Aggregator Val)
      → List (ReplenishmentPlan Val)
  unfolding plan_of
  plans_of suppliers plan_date [] = []
  plans_of suppliers plan_date (g ∷ gs) =
      with_plan (plan_of suppliers plan_date g) (plans_of suppliers plan_date gs)

  -- `visit` is the order in which the runtime iterates over the map `groups`.
  unfoldable pub build_plans :
      (List (Aggregator Val) → List (Aggregator Val))
      → List (CalculationLine Val)
      → (Text → Option (SupplierConfig Val))
      → Time
      → List (ReplenishmentPlan Val)
  unfolding group_lines plans_of sort_plans
  build_plans visit lines suppliers plan_date =
      sort_plans (plans_of suppliers plan_date (visit (group_lines lines [])))
