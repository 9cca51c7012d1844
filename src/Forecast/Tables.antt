-- ===== src/Forecast/Tables.antt =====
-- internal/features/forecast/repository (runs.go, marts_reader.go, bulk_writes.go and plans.go): the
-- statements of the feature on its tables and on the marts that it reads.
use forecast_e_zoo.Common.{
  ℕ, suc, ◌==◌, leb, Bool, true, false, Option, none, some, List, [], ◌∷◌, ◌++◌, ◌&&◌,
  if◌then◌else◌, keep, map, length, ◌+◌,
}
use forecast_e_zoo.Common.Text.{Text}
use forecast_e_zoo.Common.Time.{Time}
use forecast_e_zoo.Common.Session.{
  Error, plan_not_found, plan_not_draft, forecast_run_not_found, Result, ok, err, Action, ◌>>=◌,
  ◌>>◌, pure, raise, statement,
}
use forecast_e_zoo.Forecast.Models.{
  running, committed, failed, ForecastRun, InsertRunInput, PlanStatus, draft, approved, cancelled,
  converted, CalcInputRow, DemandPoint, SupplierScore, Forecast, CalculationLine, ReplenishmentPlan,
}

-- A row of forecast.forecasts, of forecast.calculation_lines and of forecast.replenishment_plans:
-- what the services write, with the keys.
pub record ForecastRow (V : Type 0) : Type 0 where
  pub run_id : ℕ
  pub forecast : Forecast V
  pub model_name : Text
  pub confidence : V

pub record LineRow (V : Type 0) : Type 0 where
  pub run_id : ℕ
  pub line : CalculationLine V

pub record PlanRow (V : Type 0) : Type 0 where
  pub id : ℕ
  pub run_id : ℕ
  pub plan : ReplenishmentPlan V
  pub approved_by : Option Text

-- The tables. Identifiers are numbers, given out in turn for gen_random_uuid(). `scores` is what the
-- server makes of marts.mart_supplier_scorecard between two dates: the averages by supplier.
pub record ForecastTables (V : Type 0) : Type 0 where
  pub runs : List ForecastRun
  pub forecasts : List (ForecastRow V)
  pub lines : List (LineRow V)
  pub plans : List (PlanRow V)
  pub next_run : ℕ
  pub next_plan : ℕ
  pub calc_input : List (CalcInputRow V)
  pub demand : List (DemandPoint V)  -- by product, location and date
  pub scores : Time → Time → List (SupplierScore V)
  pub latest_etl_run : Option ℕ

abbrev pub ForecastAction : Type 0 → Type 0 → Type 0
ForecastAction V = Action (ForecastTables V)

-- A row with `status = 'running'`, as insert_run.sql makes it.
abbrev pub new_run : ℕ → InsertRunInput → ForecastRun
new_run id i = record {
  id = id;
  status = running;
  horizon_days = i.horizon_days;
  snapshot_etl_run_id = i.snapshot_etl_run_id;
  forecasts_count = 0;
  lines_count = 0;
  plans_count = 0;
  error_message = none;
}

-- UPDATE forecast.forecast_runs SET … WHERE id = $1
abbrev pub set_run : ℕ → (ForecastRun → ForecastRun) → List ForecastRun → List ForecastRun
set_run id f = map λ (r : ForecastRun). if r.id == id then f r else r

abbrev pub with_counts : ℕ → ℕ → ℕ → ForecastRun → ForecastRun
with_counts forecasts lines plans r = record r {
  status = committed;
  forecasts_count = forecasts;
  lines_count = lines;
  plans_count = plans;
}

abbrev pub with_failure : Error → ForecastRun → ForecastRun
with_failure e r = record r { status = failed; error_message = some e }

-- NULLIF(supplier_id, '') of the line that was sent with '' for no supplier
abbrev pub nullif_empty : Option Text → Option Text
nullif_empty none = none
nullif_empty (some []) = none
nullif_empty (some (c ∷ s)) = some (c ∷ s)

unfoldable pub find_run : ℕ → List ForecastRun → Result ForecastRun
find_run id [] = err forecast_run_not_found
find_run id (r ∷ rs) = let rest = find_run id rs in if r.id == id then ok r else rest

abbrev pub is_draft : PlanStatus → Bool
is_draft draft = true
is_draft approved = false
is_draft cancelled = false
is_draft converted = false

module _ {V : Type 0} where
  -- No row is no error here: the marts may be empty.
  unfoldable pub get_latest_committed_etl_run_id : ForecastAction V (Option ℕ)
  get_latest_committed_etl_run_id = statement (λ t. (ok t.latest_etl_run, t))

  unfoldable pub insert_run : InsertRunInput → ForecastAction V ForecastRun
  insert_run i = statement (λ t. (
    ok (new_run t.next_run i),
    record t { runs = t.runs ++ new_run t.next_run i ∷ []; next_run = suc t.next_run },
  ))

  unfoldable pub update_run_committed : ℕ → ℕ → ℕ → ℕ → ForecastAction V (Unit {0})
  update_run_committed id forecasts lines plans =
      statement
        (λ t. (ok tt, record t { runs = set_run id (with_counts forecasts lines plans) t.runs }))

  unfoldable pub update_run_failed : ℕ → Error → ForecastAction V (Unit {0})
  update_run_failed id e =
      statement (λ t. (ok tt, record t { runs = set_run id (with_failure e) t.runs }))

  unfoldable pub get_run_by_id : ℕ → ForecastAction V ForecastRun
  get_run_by_id id = statement (λ t. (find_run id t.runs, t))

  -- With no run of the pipeline given: every row.
  unfoldable pub read_calc_input : ForecastAction V (List (CalcInputRow V))
  read_calc_input = statement (λ t. (ok t.calc_input, t))

  abbrev pub in_window : Time → Time → List (DemandPoint V) → List (DemandPoint V)
  in_window from to = keep (λ (p : DemandPoint V). leb from p.as_of_date && leb p.as_of_date to)

  unfoldable pub read_demand_window : Time → Time → ForecastAction V (List (DemandPoint V))
  read_demand_window from to = statement (λ t. (ok (in_window from to t.demand), t))

  unfoldable pub read_supplier_scores : Time → Time → ForecastAction V (List (SupplierScore V))
  read_supplier_scores from to = statement (λ t. (ok (t.scores from to), t))

  abbrev pub forecast_rows : ℕ → Text → V → List (Forecast V) → List (ForecastRow V)
  forecast_rows id name confidence = map λ (x : Forecast V). record {
    run_id = id;
    forecast = x;
    model_name = name;
    confidence = confidence;
  }

  unfoldable pub bulk_insert_forecasts :
      ℕ → List (Forecast V) → Text → V → ForecastAction V (Unit {0})
  bulk_insert_forecasts id [] name confidence = pure tt
  bulk_insert_forecasts id (x ∷ xs) name confidence = statement (λ t.
      (ok tt, record t { forecasts = t.forecasts ++ forecast_rows id name confidence (x ∷ xs) }))

  abbrev pub line_rows : ℕ → List (CalculationLine V) → List (LineRow V)
  line_rows id = map λ (l : CalculationLine V). record {
    run_id = id;
    line = record l { supplier_id = nullif_empty l.supplier_id };
  }

  unfoldable pub bulk_insert_calculation_lines :
      ℕ → List (CalculationLine V) → ForecastAction V (Unit {0})
  bulk_insert_calculation_lines id [] = pure tt
  bulk_insert_calculation_lines id (l ∷ ls) =
      statement (λ t. (ok tt, record t { lines = t.lines ++ line_rows id (l ∷ ls) }))

  -- Rows with `status = 'draft'`.
  abbrev pub plan_rows : ℕ → ℕ → List (ReplenishmentPlan V) → List (PlanRow V)
  plan_rows id next [] = []
  plan_rows id next (p ∷ ps) =
      record { id = next; run_id = id; plan = record p { status = draft }; approved_by = none }
      ∷ plan_rows id (suc next) ps

  unfoldable pub bulk_insert_plans : ℕ → List (ReplenishmentPlan V) → ForecastAction V (Unit {0})
  bulk_insert_plans id [] = pure tt
  bulk_insert_plans id (p ∷ ps) = statement (λ t. (
    ok tt,
    record t {
      plans = t.plans ++ plan_rows id t.next_plan (p ∷ ps);
      next_plan = t.next_plan + length (p ∷ ps);
    },
  ))

  abbrev pub approve : Text → PlanRow V → PlanRow V
  approve by r = record r { plan = record (r.plan) { status = approved }; approved_by = some by }

  -- update_plan_approve.sql: the first row that it returns, and the rows.
  unfoldable pub approved_row : ℕ → Text → List (PlanRow V) → Option (PlanRow V)
  approved_row id by [] = none
  approved_row id by (r ∷ rs) =
      let rest = approved_row id by rs in
      if r.id == id && is_draft r.plan.status then some (approve by r) else rest

  unfoldable pub approve_rows : ℕ → Text → List (PlanRow V) → List (PlanRow V)
  approve_rows id by [] = []
  approve_rows id by (r ∷ rs) =
      let rest = approve_rows id by rs in
      if r.id == id && is_draft r.plan.status then approve by r ∷ rest else r ∷ rest

  unfoldable pub find_plan : ℕ → List (PlanRow V) → Result (PlanRow V)
  find_plan id [] = err plan_not_found
  find_plan id (r ∷ rs) = let rest = find_plan id rs in if r.id == id then ok r else rest

  unfoldable pub get_plan_by_id : ℕ → ForecastAction V (PlanRow V)
  get_plan_by_id id = statement (λ t. (find_plan id t.plans, t))

  -- UPDATE … RETURNING on one plan
  unfoldable pub update_plan_approve : ℕ → Text → ForecastAction V (Option (PlanRow V))
  update_plan_approve id by =
      statement
        (λ t. (ok (approved_row id by t.plans), record t { plans = approve_rows id by t.plans }))

  -- What other sessions do to the tables between the UPDATE and the SELECT.
  abbrev pub others_act : (ForecastTables V → ForecastTables V) → ForecastAction V (Unit {0})
  others_act others s = (ok tt, record s { tables = others s.tables })

  abbrev pub existing_plan : PlanRow V → ForecastAction V (PlanRow V)
  existing_plan r = if is_draft r.plan.status then pure r else raise plan_not_draft

  unfoldable pub approve_plan :
      (ForecastTables V → ForecastTables V) → ℕ → Text → ForecastAction V (PlanRow V)
  unfolding update_plan_approve get_plan_by_id
  approve_plan others id by = do
    updated ← update_plan_approve id by
    elim updated [
      | some r ↦ pure r
      | none ↦ (do others_act others; r ← get_plan_by_id id; existing_plan r)
    ]
