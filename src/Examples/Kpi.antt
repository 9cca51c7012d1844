-- ===== src/Examples/Kpi.antt =====
-- The KPI feature at one row of each mart, with a database that refuses the second insertion.
use forecast_e_zoo.Common.{
  ◌≡◌, ◌⊎◌, true, false, none, some, List, [], ◌∷◌, keep, All, length, arith,
}
use forecast_e_zoo.Common.Text.{Text, codes}
use forecast_e_zoo.Common.Int.{ℤ, pos}
use forecast_e_zoo.Common.Session.{Session, database, internal}
use forecast_e_zoo.Examples.Fixed.{thousandths, thousandths-IsOrdered}
use forecast_e_zoo.Kpi.Calibration.{
  KpiCalibration, ScopeKeys, scope_supplier, resolve, new_resolver, empty_calibration,
}
use forecast_e_zoo.Kpi.Calibration.Specific.{first_match, hierarchy, resolve-most_specific}
use forecast_e_zoo.Kpi.Calculators.{
  DemandHistoryAgg, CalcInputRow, SupplierScorecardRow, parse_osa_params, parse_stock_days_params,
  compute_osa, compute_otif, compute_stock_days, otif_defaults,
}
use forecast_e_zoo.Kpi.Calculators.Bounds.{
  IsShare, compute_otif_no_errors, compute_stock_days-range, compute_osa-IsShare,
}
use forecast_e_zoo.Kpi.Engine.{KpiSnapshot, KpiTables, Decoders, RunInput, date, run, run_kpi}
use forecast_e_zoo.Kpi.Engine.Quality.{run_kpi-within_budget}
use forecast_e_zoo.Kpi.Engine.Frame.{Holds, other_day, run-replaces}

abbrev by_supplier : KpiCalibration
by_supplier = record {
  id = 4;
  kpi_name = codes "otif";
  scope_type = scope_supplier;
  scope_id = some (codes "s1");
  params = codes "{}";
}

abbrev keys : ScopeKeys
keys = record {
  product_location = none;
  location_id = none;
  supplier_id = some (codes "s1");
  category_id = none;
}

resolve-most_specific_example :
    resolve (new_resolver (by_supplier ∷ [])) (codes "otif") keys
    ≡ (elim (first_match (codes "otif") (hierarchy keys) (by_supplier ∷ [])) [
      | some c ↦ c
      | none ↦ empty_calibration (codes "otif")
    ])
resolve-most_specific_example = resolve-most_specific (by_supplier ∷ []) (codes "otif") keys

abbrev days : List DemandHistoryAgg
days =
    record {
      product_id = codes "p1";
      location_id = codes "l1";
      days_observed = pos 20;
      days_oos = pos 5;
    }
    ∷ []

abbrev week : List (SupplierScorecardRow ℤ)
week =
    record {
      supplier_id = codes "s1";
      lines_delivered = pos 10;
      lines_late = pos 4;
      fill_rate_avg = some (pos 900);
    }
    ∷ []

abbrev stock : List (CalcInputRow ℤ)
stock =
    record {
      product_id = codes "p1";
      location_id = codes "l1";
      on_hand = pos 9000;
      in_transit = pos 0;
      daily_demand = some (pos 2000);
    }
    ∷ []

-- A decoder that leaves the defaults as they are.
abbrev unchanged : {A : Type 0} → Text → A → A
unchanged raw defaults = defaults

compute_otif_no_errors_example : (compute_otif thousandths week (otif_defaults thousandths)).1 ≡ 0
compute_otif_no_errors_example =
    compute_otif_no_errors thousandths thousandths-IsOrdered week (otif_defaults thousandths)

compute_stock_days-range_example :
    let params = parse_stock_days_params thousandths unchanged [] in
    let (out, errs) = compute_stock_days thousandths stock params in
    All
      (λ s.
        (thousandths.lt s.value (pos 0) ≡ false) × (thousandths.lt params.cap_days s.value ≡ false))
      out
    × (length out ≡ 1)
    × (errs ≡ 0)
compute_stock_days-range_example =
    compute_stock_days-range thousandths thousandths-IsOrdered unchanged [] stock

compute_osa-IsShare_example :
    All
      (λ s. IsShare thousandths thousandths-IsOrdered s.value)
      (compute_osa thousandths days (parse_osa_params unchanged [])).0
compute_osa-IsShare_example =
    compute_osa-IsShare thousandths thousandths-IsOrdered unchanged [] days (omega arith, tt)

abbrev decoders : Decoders ℤ
decoders = record { osa = unchanged; otif = unchanged; stock_days = unchanged }

abbrev old_snapshot : KpiSnapshot ℤ
old_snapshot = record {
  id = 0;
  as_of_date = 40;
  kpi_name = codes "osa";
  scope_type = codes "product_location";
  scope_id = none;
  value = pos 100;
  calibration_id = none;
  etl_run_id = none;
}

abbrev tables : KpiTables ℤ
tables = record {
  calibrations = by_supplier ∷ [];
  snapshots = old_snapshot ∷ [];
  next_id = 1;
  demand_history = λ from to. days;
  calculation_input = stock;
  supplier_scorecard = λ from to. week;
}

abbrev db : Session (KpiTables ℤ)
db = record { tables = tables; faults = false ∷ false ∷ false ∷ false ∷ false ∷ true ∷ [] }

abbrev input : RunInput
input = record { run_id = 1; as_of_date = 3456000000000000; kpi_names = []; etl_run_id = none }

run-replaces_example :
    let ((res, e), db') = run thousandths decoders input db in
    ((db'.tables ≡ tables) × (e ≡ some database))
    ⊎ Holds thousandths decoders input 1
        (keep (other_day (date 3456000000000000)) (old_snapshot ∷ []))
        db'.tables
run-replaces_example = run-replaces thousandths decoders input db

run_kpi-within_budget_example :
    let e =
      (run_kpi thousandths decoders
        (codes "otif")
        input
        (new_resolver (by_supplier ∷ []))
        db).0.1 in
    (e ≡ none) ⊎ (e ≡ some database) ⊎ (e ≡ some internal)
run_kpi-within_budget_example =
    run_kpi-within_budget thousandths thousandths-IsOrdered decoders (codes "otif") input
      (new_resolver (by_supplier ∷ [])) db
