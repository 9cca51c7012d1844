-- ===== src/Forecast/Engine/Committed.antt =====
-- A forecast run against its specification: what the marts determine, and what reaches the tables.
use forecast_e_zoo.Common.{ℕ, ◌≡◌, refl, sym, ◌⊎◌, inl, inr, Bool, Option, none, List, [], ◌∷◌}
use forecast_e_zoo.Common.Time.{Time, truncate_day, sub_days}
use forecast_e_zoo.Common.Int.{ℤ}
use forecast_e_zoo.Common.Float.{Float64}
use forecast_e_zoo.Common.Session.{Error, Session, ◌>>=◌}
use forecast_e_zoo.Common.Session.Ends.{Ends, statement_then-Ends, Ends-weaken}
use forecast_e_zoo.Forecast.Models.{CalcInputRow, DemandPoint, SupplierScore, InsertRunInput}
use forecast_e_zoo.Forecast.Calculator.{new, compute_batch}
use forecast_e_zoo.Forecast.Constructor.{Aggregator, build_plans}
use forecast_e_zoo.Forecast.Forecaster.{Series, predict_batch}
use forecast_e_zoo.Forecast.Tables.{
  ForecastTables, ForecastAction, get_latest_committed_etl_run_id, read_calc_input,
  read_demand_window, read_supplier_scores, in_window,
}
use forecast_e_zoo.Forecast.Engine.{
  RunInput, RunCounts, RunResult, DemandSum, lookback_days, used_horizon, build_lead_time_map,
  build_daily_demand_map, build_calc_inputs, write_outputs, run_rows, run_inner, start_run,
  finish_run, run,
}
use forecast_e_zoo.Forecast.Engine.Written.{
  Outputs, nothing, counts_of, Partly, written, written-nothing, Wrote, Stopped,
  write_outputs-Wrote,
}
use forecast_e_zoo.Forecast.Engine.Recorded.{
  result, Left, counted_run, used_run, started, settle-Ends, start_run_then,
}

module _ (f : Float64) (iso_week : Time → ℕ)
    (visit_series : List (Series f.Val) → List (Series f.Val))
    (visit_groups : List (Aggregator f.Val) → List (Aggregator f.Val))
    (visit_demand : List (DemandSum f.Val) → List (DemandSum f.Val)) where
  open f use {Val, lit}

  abbrev outputs_from :
      Time
      → ℤ
      → List (CalcInputRow Val)
      → List (DemandPoint Val)
      → List (SupplierScore Val)
      → Outputs Val
  outputs_from as_of horizon rows demand scores =
      let forecasts = predict_batch f iso_week visit_series demand as_of horizon in
      let lines = compute_batch f (new f) (
        build_calc_inputs f rows (build_daily_demand_map f visit_demand forecasts horizon)
          (build_lead_time_map f scores [])) in
      record {
        forecasts = forecasts;
        lines = lines;
        plans = build_plans f visit_groups lines (λ s. none) as_of;
      }

  -- What the rows to calculate, the sales of the last 30 days and the scores determine: nothing,
  -- not even a forecast, where there is no row.
  abbrev pub outputs_of : Time → ℤ → ForecastTables Val → List (CalcInputRow Val) → Outputs Val
  outputs_of as_of horizon t [] = nothing
  outputs_of as_of horizon t (r ∷ rs) =
      outputs_from as_of horizon (r ∷ rs)
        (in_window (sub_days as_of lookback_days) (sub_days as_of 1) t.demand)
        (t.scores (sub_days as_of 28) as_of)

  abbrev after_scores :
      ℕ
      → Time
      → ℤ
      → List (CalcInputRow Val)
      → List (DemandPoint Val)
      → List (SupplierScore Val)
      → ForecastAction Val RunCounts
  after_scores id as_of horizon rows demand scores =
      let o = outputs_from as_of horizon rows demand scores in
      write_outputs f id o.forecasts o.lines o.plans

  run_rows-Wrote :
      (id : ℕ) (as_of : Time) (horizon : ℤ) (rows : List (CalcInputRow Val))
      (s : Session (ForecastTables Val))
      → let o = outputs_of as_of horizon s.tables rows in
        Ends
          (Wrote f id o s.tables)
          (Stopped f id o s.tables)
          (run_rows f iso_week visit_series visit_groups visit_demand id as_of horizon rows s)
  unfolding run_rows read_demand_window read_supplier_scores
  run_rows-Wrote id as_of horizon [] s = (refl, sym (written-nothing (lit 800 1) id s.tables))
  run_rows-Wrote id as_of horizon (r ∷ rs) s =
      let demand = in_window (sub_days as_of lookback_days) (sub_days as_of 1) s.tables.demand in
      let o = outputs_of as_of horizon s.tables (r ∷ rs) in
      statement_then-Ends (Wrote f id o s.tables) (Stopped f id o s.tables) _ (λ t. t)
        (λ d.
          read_supplier_scores (sub_days as_of 28) as_of
          >>= after_scores id as_of horizon (r ∷ rs) d)
        s
        (λ fs.
          statement_then-Ends (Wrote f id o s.tables) (Stopped f id o s.tables) _ (λ t. t)
            (after_scores id as_of horizon (r ∷ rs) demand) (record s { faults = fs })
            (λ fs1. write_outputs-Wrote f id o s.tables (record s { faults = fs1 }) refl)
            (inl refl))
        (inl refl)

  run_inner-Wrote :
      (id : ℕ) (as_of : Time) (horizon : ℤ) (s : Session (ForecastTables Val))
      → let o = outputs_of as_of horizon s.tables s.tables.calc_input in
        Ends
          (Wrote f id o s.tables)
          (Stopped f id o s.tables)
          (run_inner f iso_week visit_series visit_groups visit_demand id as_of horizon s)
  unfolding run_inner read_calc_input
  run_inner-Wrote id as_of horizon s =
      let o = outputs_of as_of horizon s.tables s.tables.calc_input in
      statement_then-Ends (Wrote f id o s.tables) (Stopped f id o s.tables) (λ t. t.calc_input)
        (λ t. t) (run_rows f iso_week visit_series visit_groups visit_demand id as_of horizon) s
        (λ fs. run_rows-Wrote id as_of horizon s.tables.calc_input (record s { faults = fs }))
        (inl refl)

  abbrev pub run_input : RunInput → Option ℕ → InsertRunInput
  run_input i snapshot = record { horizon_days = used_horizon i; snapshot_etl_run_id = snapshot }

  -- What the run determines, of the start of its day.
  abbrev pub made : RunInput → ForecastTables Val → Outputs Val
  made i t = outputs_of (truncate_day i.as_of) (used_horizon i) t t.calc_input

  module _ (id : ℕ) (snapshot : Option ℕ) (i : RunInput) (t : ForecastTables Val) where
    abbrev pub Finished : RunResult → ForecastTables Val → Type 0
    Finished res t' =
        (res ≡ result id snapshot (counts_of (made i t)))
        × (t' ≡ counted_run id (counts_of (made i t)) (written (lit 800 1) id (made i t) t))

    abbrev pub Broken : Error → ForecastTables Val → Type 0
    Broken e t' = (p : ForecastTables Val) × Partly (lit 800 1) id (made i t) t p × Left id p e t'

    finish_run-Ends :
        (fs : List Bool)
        → Ends Finished Broken (
            finish_run f iso_week visit_series visit_groups visit_demand id snapshot i
              (record { tables = t; faults = fs }))
    unfolding finish_run
    finish_run-Ends fs =
        settle-Ends id snapshot Finished Broken
          (run_inner f iso_week visit_series visit_groups visit_demand id (truncate_day i.as_of)
            (used_horizon i) (record { tables = t; faults = fs }))
          (run_inner-Wrote id (truncate_day i.as_of) (used_horizon i)
            (record { tables = t; faults = fs }))
          (λ c t' w.
            rw (w.0, w.1)
              ((refl, refl), (written (lit 800 1) id (made i t) t, inr (inr (inr refl)), inl refl)))
          (λ e p t' w l. (p, w, l))

  -- Whichever statements the database refuses, a run with its record (inserted, or the given one)
  -- either succeeds, with the outputs that the marts determine appended under the id of the run, the
  -- run committed with their numbers, these numbers returned, and nothing else changed; or it reports
  -- an error, and then there is at most the row of the run, with some of the three writes in their
  -- order, and that run is failed with this error, or still as it was.
  pub run-Implements :
      (i : RunInput) (s : Session (ForecastTables Val))
      → let t = s.tables in
        let id = used_run i.preset_run_id t in
        let begun = started i.preset_run_id (run_input i t.latest_etl_run) t in
        Ends
          (Finished id t.latest_etl_run i begun)
          (λ e t'. (t' ≡ t) ⊎ Broken id t.latest_etl_run i begun e t')
          (run f iso_week visit_series visit_groups visit_demand i s)
  unfolding run get_latest_committed_etl_run_id
  run-Implements i s =
      let t = s.tables in
      let id = used_run i.preset_run_id t in
      let begun = started i.preset_run_id (run_input i t.latest_etl_run) t in
      let P = Finished id t.latest_etl_run i begun in
      let Q = λ (e : Error) (t' : ForecastTables Val).
        (t' ≡ t) ⊎ Broken id t.latest_etl_run i begun e t' in
      let rest = λ (snapshot : Option ℕ) (id : ℕ).
        finish_run f iso_week visit_series visit_groups visit_demand id snapshot i in
      statement_then-Ends P Q (λ t. t.latest_etl_run) (λ t. t)
        (λ snapshot. start_run i.preset_run_id (run_input i snapshot) >>= rest snapshot) s
        (λ fs.
          start_run_then P Q i.preset_run_id (run_input i t.latest_etl_run) (rest t.latest_etl_run)
            (record s { faults = fs })
            (λ fs1.
              Ends-weaken (rest t.latest_etl_run id (record { tables = begun; faults = fs1 }))
                (λ a t p. p) (λ e t q. inr q) (finish_run-Ends id t.latest_etl_run i begun fs1))
            (inl refl))
        (inl refl)
