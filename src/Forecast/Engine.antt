-- ===== src/Forecast/Engine.antt =====
-- internal/features/forecast/engine/engine.go: one run of the forecast, from the marts to the draft
-- plans, with its record in forecast.forecast_runs. `visit_series`, `visit_groups` and `visit_demand`
-- are the orders in which the runtime iterates over the maps; `iso_week` is time.ISOWeek.
pub mod Written
pub mod Recorded
pub mod Committed
use forecast_e_zoo.Common.{
  ℕ, suc, ◌+◌, ◌==◌, Bool, true, false, Option, none, some, List, [], ◌∷◌, ◌++◌, ◌&&◌,
  if◌then◌else◌, length,
}
use forecast_e_zoo.Common.Text.{Text, text_eq, codes}
use forecast_e_zoo.Common.Time.{Time, truncate_day, sub_days}
use forecast_e_zoo.Common.Int.{ℤ, pos, leb_ℤ, ltb_ℤ}
use forecast_e_zoo.Common.Float.{Float64}
use forecast_e_zoo.Common.Dict.{Dict, lookup, insert}
use forecast_e_zoo.Common.Session.{Error, Result, ok, err, Session, ◌>>=◌, ◌>>◌, pure}
use forecast_e_zoo.Forecast.Models.{
  CalcInputRow, SupplierScore, Forecast, CalculationLine, ReplenishmentPlan, ForecastRun,
  InsertRunInput,
}
use forecast_e_zoo.Forecast.Calculator.{Input, new, lead_time_default, compute_batch}
use forecast_e_zoo.Forecast.Constructor.{Aggregator, build_plans}
use forecast_e_zoo.Forecast.Forecaster.{Series, predict_batch}
use forecast_e_zoo.Forecast.Tables.{
  ForecastAction, get_latest_committed_etl_run_id, insert_run, update_run_committed,
  update_run_failed, read_calc_input, read_demand_window, read_supplier_scores,
  bulk_insert_forecasts, bulk_insert_calculation_lines, bulk_insert_plans,
}

-- `PresetRunID` is absent where it is uuid.Nil.
pub record RunInput : Type 0 where
  pub as_of : Time
  pub horizon_days : ℤ
  pub preset_run_id : Option ℕ

pub record RunCounts : Type 0 where
  pub forecasts : ℕ
  pub lines : ℕ
  pub plans : ℕ

pub record RunResult : Type 0 where
  pub run_id : ℕ
  pub counts : RunCounts
  pub snapshot_etl_run : Option ℕ

-- One entry of the maps `sums` and `counts`, with their key.
pub record DemandSum (V : Type 0) : Type 0 where
  pub product : Text
  pub location : Text
  pub sum : V
  pub count : ℕ

abbrev pub horizon_default : ℤ
horizon_default = pos 14

abbrev pub lookback_days : ℕ
lookback_days = 30

-- constants.ModelSMASeasonal
abbrev pub model_sma_seasonal : Text
model_sma_seasonal = codes "sma_seasonal"

-- ProductID + "|" + LocationID
abbrev pub demand_key : Text → Text → Text
demand_key product location = product ++ codes "|" ++ location

abbrev pub used_horizon : RunInput → ℤ
used_horizon i = if leb_ℤ i.horizon_days (pos 0) then horizon_default else i.horizon_days

-- The row that the caller has inserted, or one of the engine's own.
unfoldable pub start_run : {V : Type 0} → Option ℕ → InsertRunInput → ForecastAction V ℕ
unfolding insert_run
start_run none i = do run ← insert_run i; pure run.id
start_run (some id) i = pure id

-- What Run does when the work has ended; the error is that of the work, not that of UpdateRunFailed.
unfoldable pub settle : {V : Type 0} → ℕ → Option ℕ → Result RunCounts → ForecastAction V RunResult
unfolding update_run_committed update_run_failed
settle id snapshot (err e) s = (err e, (update_run_failed id e s).1)
settle id snapshot (ok counts) s =
    (do
      update_run_committed id counts.forecasts counts.lines counts.plans
      pure (record { run_id = id; counts = counts; snapshot_etl_run = snapshot }))
      s

module _ (f : Float64) where
  open f use {Val, lit, of_int, to_int, add, div, lt}

  -- One round of the loop of buildLeadTimeMap.
  abbrev pub put_lead_time : SupplierScore Val → Dict ℤ → Dict ℤ
  put_lead_time s m = elim s.lead_time_actual_avg [
    | none ↦ m
    | some avg ↦
        if lt (lit 0 0) avg then insert s.supplier_id (to_int (add avg (lit 500 1))) m else m
  ]

  unfoldable pub build_lead_time_map : List (SupplierScore Val) → Dict ℤ → Dict ℤ
  build_lead_time_map [] m = m
  build_lead_time_map (s ∷ ss) m = build_lead_time_map ss (put_lead_time s m)

  -- `sums[k] += f.ForecastQty; counts[k]++`
  unfoldable pub add_forecast : Forecast Val → List (DemandSum Val) → List (DemandSum Val)
  add_forecast x [] =
      record {
        product = x.product_id;
        location = x.location_id;
        sum = add (lit 0 0) x.forecast_qty;
        count = 1;
      }
      ∷ []
  add_forecast x (d ∷ ds) =
      let rest = add_forecast x ds in
      if text_eq d.product x.product_id && text_eq d.location x.location_id
      then record d { sum = add d.sum x.forecast_qty; count = d.count + 1 } ∷ ds
      else d ∷ rest

  unfoldable pub sum_forecasts : List (Forecast Val) → List (DemandSum Val) → List (DemandSum Val)
  unfolding add_forecast
  sum_forecasts [] ds = ds
  sum_forecasts (x ∷ xs) ds = sum_forecasts xs (add_forecast x ds)

  abbrev pub average_demand : ℤ → DemandSum Val → Val
  average_demand horizon d = div d.sum (of_int (if d.count == 0 then horizon else pos d.count))

  unfoldable pub demand_map : ℤ → List (DemandSum Val) → Dict Val → Dict Val
  demand_map horizon [] m = m
  demand_map horizon (d ∷ ds) m =
      demand_map horizon ds (insert (demand_key d.product d.location) (average_demand horizon d) m)

  unfoldable pub build_daily_demand_map :
      (List (DemandSum Val) → List (DemandSum Val)) → List (Forecast Val) → ℤ → Dict Val
  unfolding sum_forecasts demand_map
  build_daily_demand_map visit forecasts horizon =
      demand_map horizon (visit (sum_forecasts forecasts [])) []

  unfoldable pub demand_of : Dict Val → CalcInputRow Val → Val
  demand_of daily r = elim (lookup (demand_key r.product_id r.location_id) daily) [
    | some d ↦ d
    | none ↦ elim r.daily_demand [ some d ↦ d | none ↦ lit 0 0 ]
  ]

  -- `if v, ok := leadTimeMap[*r.SupplierID]; ok && v > 0`
  abbrev pub scored_lead_time : Option ℤ → ℤ
  scored_lead_time none = lead_time_default
  scored_lead_time (some v) = if ltb_ℤ (pos 0) v then v else lead_time_default

  abbrev pub supplier_lead_time : Dict ℤ → Option Text → ℤ
  supplier_lead_time m none = lead_time_default
  supplier_lead_time m (some s) = scored_lead_time (lookup s m)

  unfoldable pub lead_time_of : Dict ℤ → CalcInputRow Val → ℤ
  lead_time_of m r = elim r.lead_time_days [
    | none ↦ supplier_lead_time m r.supplier_id
    | some n ↦ if ltb_ℤ (pos 0) n then n else supplier_lead_time m r.supplier_id
  ]

  -- `StdDev` is not set, and so zero.
  unfoldable pub build_calc_inputs : List (CalcInputRow Val) → Dict Val → Dict ℤ → List (Input Val)
  unfolding demand_of lead_time_of
  build_calc_inputs [] daily lead = []
  build_calc_inputs (r ∷ rs) daily lead =
      record {
        product_id = r.product_id;
        location_id = r.location_id;
        supplier_id = r.supplier_id;
        current_stock = r.on_hand;
        in_transit = r.in_transit;
        daily_demand = demand_of daily r;
        lead_time_days = lead_time_of lead r;
        std_dev = lit 0 0;
      }
      ∷ build_calc_inputs rs daily lead

  -- The three writes of runInner, each a statement of its own.
  unfoldable pub write_outputs :
      ℕ
      → List (Forecast Val)
      → List (CalculationLine Val)
      → List (ReplenishmentPlan Val)
      → ForecastAction Val RunCounts
  unfolding bulk_insert_forecasts bulk_insert_calculation_lines bulk_insert_plans
  write_outputs run_id forecasts lines plans = do
    bulk_insert_forecasts run_id forecasts model_sma_seasonal (lit 800 1)
    bulk_insert_calculation_lines run_id lines
    bulk_insert_plans run_id plans
    pure (record { forecasts = length forecasts; lines = length lines; plans = length plans })

  module _ (iso_week : Time → ℕ) (visit_series : List (Series Val) → List (Series Val))
      (visit_groups : List (Aggregator Val) → List (Aggregator Val))
      (visit_demand : List (DemandSum Val) → List (DemandSum Val)) where
    -- runInner behind its first statement
    unfoldable pub run_rows : ℕ → Time → ℤ → List (CalcInputRow Val) → ForecastAction Val RunCounts
    unfolding read_demand_window read_supplier_scores write_outputs
    run_rows run_id as_of horizon [] = pure (record { forecasts = 0; lines = 0; plans = 0 })
    run_rows run_id as_of horizon (r ∷ rs) = do
      demand ← read_demand_window (sub_days as_of lookback_days) (sub_days as_of 1)
      let forecasts = predict_batch f iso_week visit_series demand as_of horizon
      scores ← read_supplier_scores (sub_days as_of 28) as_of
      let inputs =
          build_calc_inputs (r ∷ rs) (build_daily_demand_map visit_demand forecasts horizon)
            (build_lead_time_map scores [])
      let lines = compute_batch f (new f) inputs
      write_outputs run_id forecasts lines (build_plans f visit_groups lines (λ s. none) as_of)

    unfoldable pub run_inner : ℕ → Time → ℤ → ForecastAction Val RunCounts
    unfolding read_calc_input run_rows
    run_inner run_id as_of horizon = do
      calc_rows ← read_calc_input
      run_rows run_id as_of horizon calc_rows

    unfoldable pub finish_run : ℕ → Option ℕ → RunInput → ForecastAction Val RunResult
    unfolding settle run_inner
    finish_run id snapshot i s =
        let (r, s') = run_inner id (truncate_day i.as_of) (used_horizon i) s in
        settle id snapshot r s'

    unfoldable pub run : RunInput → ForecastAction Val RunResult
    unfolding get_latest_committed_etl_run_id start_run finish_run
    run i = do
      snapshot ← get_latest_committed_etl_run_id
      id ←
          start_run i.preset_run_id
            (record { horizon_days = used_horizon i; snapshot_etl_run_id = snapshot })
      finish_run id snapshot i
