-- ===== src/Examples/Runs.antt =====
-- A run of the forecast over one row, and the approval of its plan.
use forecast_e_zoo.Common.{◌≡◌, ◌⊎◌, false, none, some, [], ◌∷◌, arith}
use forecast_e_zoo.Common.Text.{codes}
use forecast_e_zoo.Common.Int.{ℤ, pos}
use forecast_e_zoo.Common.Session.Ends.{Ends}
use forecast_e_zoo.Examples.Fixed.{thousandths}
use forecast_e_zoo.Forecast.Models.{CalcInputRow, draft, converted}
use forecast_e_zoo.Forecast.Tables.{ForecastTables, PlanRow, approve_plan}
use forecast_e_zoo.Forecast.Plans.{IsApproved, IsRefused, approve_plan-IsApproved}
use forecast_e_zoo.Forecast.Engine.{RunInput, run}
use forecast_e_zoo.Forecast.Engine.Recorded.{started}
use forecast_e_zoo.Forecast.Engine.Committed.{run_input, Finished, Broken, run-Implements}

abbrev row : CalcInputRow ℤ
row = record {
  product_id = codes "p1";
  location_id = codes "l1";
  on_hand = pos 3000;
  in_transit = pos 0;
  daily_demand = some (pos 2000);
  supplier_id = some (codes "s1");
  lead_time_days = some (pos 5);
}

abbrev plan_row : PlanRow ℤ
plan_row = record {
  id = 4;
  run_id = 1;
  plan = record {
    supplier_id = codes "s1";
    location_id = codes "l1";
    plan_date = 86400000000000;
    total_qty = pos 12000;
    lines_count = 2;
    status = draft;
  };
  approved_by = none;
}

abbrev tables : ForecastTables ℤ
tables = record {
  runs = [];
  forecasts = [];
  lines = [];
  plans =
      plan_row
      ∷ record plan_row { id = 5; plan = record (plan_row.plan) { status = converted } }
      ∷ [];
  next_run = 2;
  next_plan = 6;
  calc_input = row ∷ [];
  demand =
      record {
        product_id = codes "p1";
        location_id = codes "l1";
        as_of_date = 8640000000000000;
        qty_sold = pos 3000;
      }
      ∷ [];
  scores = λ from to. [];
  latest_etl_run = some 7;
}

abbrev input : RunInput
input = record { as_of = 8726400000000000; horizon_days = pos 0; preset_run_id = none }

run-Implements_example :
    let begun =
      started none
        (run_input thousandths (λ t. 1) (λ gs. gs) (λ gs. gs) (λ ds. ds) input (some 7))
        tables in
    Ends
      (Finished thousandths (λ t. 1) (λ gs. gs) (λ gs. gs) (λ ds. ds) 2 (some 7) input begun)
      (λ e t'.
        (t' ≡ tables)
        ⊎ Broken thousandths (λ t. 1) (λ gs. gs) (λ gs. gs) (λ ds. ds) 2 (some 7) input begun e t')
      (run thousandths
        (λ t. 1)
        (λ gs. gs)
        (λ gs. gs)
        (λ ds. ds)
        input
        (record { tables = tables; faults = false ∷ [] }))
run-Implements_example =
    run-Implements thousandths (λ t. 1) (λ gs. gs) (λ gs. gs) (λ ds. ds) input
      (record { tables = tables; faults = false ∷ [] })

approve_plan-IsApproved_example :
    Ends
      (IsApproved tables 4 (codes "ann"))
      (λ e t'. (t' ≡ tables) × IsRefused tables 4 e)
      (approve_plan (λ t. t) 4 (codes "ann") (record { tables = tables; faults = [] }))
approve_plan-IsApproved_example =
    approve_plan-IsApproved 4 (codes "ann") tables ((omega arith, tt), (tt, tt)) []
