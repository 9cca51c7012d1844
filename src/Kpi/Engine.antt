-- ===== src/Kpi/Engine.antt =====
-- internal/features/kpi/engine/engine.go, with the repository methods that it calls
-- (repository/snapshots.go, repository/calibrations.go and their queries): the refresh of the
-- snapshots of one date. Logging and metrics are left out.
pub mod Frame
pub mod Quality
use forecast_e_zoo.Common.{
  ℕ, zero, suc, ◌+◌, ◌/◌, ◌==◌, ltb, Bool, true, false, not, Option, none, some, List, [], ◌∷◌,
  ◌++◌, ◌&&◌, ◌||◌, if◌then◌else◌, length, keep,
}
use forecast_e_zoo.Common.Text.{Text, text_eq, codes}
use forecast_e_zoo.Common.Time.{Time, day_ns, sub_days}
use forecast_e_zoo.Common.Int.{ℤ, pos, pos_part}
use forecast_e_zoo.Common.Float.{Float64}
use forecast_e_zoo.Common.Dict.{Dict, insert}
use forecast_e_zoo.Common.Session.{
  Error, internal, quality_threshold_exceeded, Result, ok, err, Session, Action, ◌>>=◌, pure, raise,
  statement,
}
use forecast_e_zoo.Kpi.Calibration.{
  KpiCalibration, ScopeKeys, Resolver, new_resolver, resolve, scope_product_location,
  scope_supplier, scope_location,
}
use forecast_e_zoo.Kpi.Calculators.{
  DemandHistoryAgg, CalcInputRow, SupplierScorecardRow, ComputedSnapshot, OsaParams, OtifParams,
  StockDaysParams, kpi_osa, kpi_otif, kpi_stock_days, parse_osa_params, parse_otif_params,
  parse_stock_days_params, compute_osa, compute_otif, compute_stock_days,
}

-- A row of kpi.kpi_snapshots; `as_of_date` is the number of the day.
pub record KpiSnapshot (V : Type 0) : Type 0 where
  pub id : ℕ
  pub as_of_date : ℕ
  pub kpi_name : Text
  pub scope_type : Text
  pub scope_id : Option Text
  pub value : V
  pub calibration_id : Option ℕ
  pub etl_run_id : Option ℕ

-- The tables of the feature, and the marts as what the three read queries select from them.
pub record KpiTables (V : Type 0) : Type 0 where
  pub calibrations : List KpiCalibration  -- in the order of select_calibrations.sql
  pub snapshots : List (KpiSnapshot V)
  pub next_id : ℕ  -- stands for gen_random_uuid()
  pub demand_history : Time → Time → List DemandHistoryAgg
  pub calculation_input : List (CalcInputRow V)
  pub supplier_scorecard : Time → Time → List (SupplierScorecardRow V)

-- The decoders of encoding/json for the three parameter types.
pub record Decoders (V : Type 0) : Type 0 where
  pub osa : Text → OsaParams → OsaParams
  pub otif : Text → OtifParams V → OtifParams V
  pub stock_days : Text → StockDaysParams V → StockDaysParams V

pub record RunInput : Type 0 where
  pub run_id : ℕ
  pub as_of_date : Time
  pub kpi_names : List Text
  pub etl_run_id : Option ℕ

pub record RunResult : Type 0 where
  pub run_id : ℕ
  pub snapshot : Dict ℕ
  pub errors : Dict Error

-- t::date
abbrev pub date : Time → ℕ
date t = t / day_ns

-- `name = ANY(names)`
unfoldable pub any_name : Text → List Text → Bool
any_name k [] = false
any_name k (n ∷ ns) = text_eq k n || any_name k ns

-- A row that delete_snapshots_for_refresh.sql selects; no names stand for all of them.
unfoldable pub selected : {V : Type 0} → ℕ → List Text → KpiSnapshot V → Bool
selected day [] s = s.as_of_date == day
selected day (n ∷ ns) s = s.as_of_date == day && any_name s.kpi_name (n ∷ ns)

-- `in.KpiNames`, or all three
abbrev pub all_kpis : List Text → List Text
all_kpis [] = kpi_osa ∷ kpi_otif ∷ kpi_stock_days ∷ []
all_kpis (k ∷ ks) = k ∷ ks

abbrev pub no_keys : ScopeKeys
no_keys = record {
  product_location = none;
  location_id = none;
  supplier_id = none;
  category_id = none;
}

unfoldable pub global_params : Resolver → Text → Text
global_params r kpi = elim (resolve r kpi no_keys).params [ [] ↦ codes "{}" | b ∷ raw ↦ b ∷ raw ]

unfoldable pub matched_calibration_id : {V : Type 0} → Resolver → ComputedSnapshot V → ℕ
matched_calibration_id r s =
    let at = λ (scope : Text). if text_eq s.scope_type scope then s.scope_id else none in
    (resolve r s.kpi_name (record {
      product_location = at scope_product_location;
      location_id = at scope_location;
      supplier_id = at scope_supplier;
      category_id = none;
    })).id

module _ (f : Float64) (json : Decoders f.Val) where
  open f use {Val, lit, of_int, div, lt}

  abbrev pub KpiAction : Type 0 → Type 0
  KpiAction = Action (KpiTables Val)

  unfoldable pub delete_snapshots_for_date : Time → List Text → KpiAction (Unit {0})
  unfolding selected statement
  delete_snapshots_for_date day names = statement (λ t.
      (ok tt, record t { snapshots = keep (λ s. not (selected (date day) names s)) t.snapshots }))

  unfoldable pub list_calibrations : KpiAction (List KpiCalibration)
  unfolding statement
  list_calibrations = statement (λ t. (ok t.calibrations, t))

  unfoldable pub insert_snapshot : RunInput → ComputedSnapshot Val → Option ℕ → KpiAction (Unit {0})
  unfolding statement
  insert_snapshot i s calibration = statement (λ t. (
    ok tt,
    record t {
      snapshots =
          t.snapshots
          ++ record {
            id = t.next_id;
            as_of_date = date i.as_of_date;
            kpi_name = s.kpi_name;
            scope_type = s.scope_type;
            scope_id = s.scope_id;
            value = s.value;
            calibration_id = calibration;
            etl_run_id = i.etl_run_id;
          }
            ∷ [];
      next_id = suc t.next_id;
    },
  ))

  -- The snapshots, the error count and the number of candidates.
  unfoldable pub compute_kpi :
      Text → RunInput → Resolver → KpiAction (List (ComputedSnapshot Val) × ℕ × ℕ)
  unfolding statement
  compute_kpi kpi i r =
      if text_eq kpi kpi_osa
      then (do
        let params = parse_osa_params json.osa (global_params r kpi)
        let from = sub_days i.as_of_date (pos_part params.lookback_days)
        rows ← statement (λ t. (ok (t.demand_history from (sub_days i.as_of_date 1)), t))
        let (snaps, errs) = compute_osa f rows params
        pure (snaps, errs, length rows))
      else if text_eq kpi kpi_otif
      then (do
        let params = parse_otif_params f json.otif (global_params r kpi)
        rows ←
            statement (λ t. (ok (t.supplier_scorecard (sub_days i.as_of_date 28) i.as_of_date), t))
        let (snaps, errs) = compute_otif f rows params
        pure (snaps, errs, length rows))
      else if text_eq kpi kpi_stock_days
      then (do
        let params = parse_stock_days_params f json.stock_days (global_params r kpi)
        rows ← statement (λ t. (ok t.calculation_input, t))
        let (snaps, errs) = compute_stock_days f rows params
        pure (snaps, errs, length rows))
      else raise internal

  -- The loop of `runKpi`, which stops at the first insert that fails: the rows written, and its error.
  unfoldable pub write_snapshots :
      RunInput
      → Resolver
      → List (ComputedSnapshot Val)
      → ℕ
      → Session (KpiTables Val)
      → (ℕ × Option Error) × Session (KpiTables Val)
  write_snapshots i r [] written db = ((written, none), db)
  write_snapshots i r (s ∷ snaps) written db =
      let id = matched_calibration_id r s in
      let calibration : Option ℕ = if id == 0 then none else some id in
      let (res, db') = insert_snapshot i s calibration db in
      let rest = write_snapshots i r snaps (suc written) db' in
      elim res [ ok _ ↦ rest | err e ↦ ((written, some e), db') ]

  -- More than 5% of the candidates are errors.
  unfoldable pub over_budget : ℕ → ℕ → Bool
  over_budget errs total =
      ltb 0 total && lt (lit 50 1) (div (of_int (pos errs)) (of_int (pos total)))

  unfoldable pub run_kpi :
      Text
      → RunInput
      → Resolver
      → Session (KpiTables Val)
      → (ℕ × Option Error) × Session (KpiTables Val)
  run_kpi kpi i r db =
      let (res, db') = compute_kpi kpi i r db in
      elim res [
        | err e ↦ ((0, some e), db')
        | ok (snaps, errs, total) ↦
            if over_budget errs total
            then ((0, some quality_threshold_exceeded), db')
            else write_snapshots i r snaps 0 db'
      ]

  -- The loop over the indicators, with the two maps of the result.
  unfoldable pub run_kpis :
      List Text
      → RunInput
      → Resolver
      → RunResult
      → Session (KpiTables Val)
      → RunResult × Session (KpiTables Val)
  run_kpis [] i r res db = (res, db)
  run_kpis (kpi ∷ kpis) i r res db =
      let ((count, e), db') = run_kpi kpi i r db in
      run_kpis kpis i r
        (record res {
          snapshot = insert kpi count res.snapshot;
          errors = elim e [ none ↦ res.errors | some x ↦ insert kpi x res.errors ];
        })
        db'

  unfoldable pub run :
      RunInput → Session (KpiTables Val) → (RunResult × Option Error) × Session (KpiTables Val)
  run i db =
      let kpis = all_kpis i.kpi_names in
      let nothing : RunResult = record { run_id = 0; snapshot = []; errors = [] } in
      let (deleted, db1) = delete_snapshots_for_date i.as_of_date kpis db in
      elim deleted [
        | err e ↦ ((nothing, some e), db1)
        | ok _ ↦
            let (listed, db2) = list_calibrations db1 in
            elim listed [
              | err e ↦ ((nothing, some e), db2)
              | ok all ↦
                  let (res, db3) =
                    run_kpis kpis i (new_resolver all) (record nothing { run_id = i.run_id }) db2 in
                  if length res.errors == length kpis
                  then ((res, some internal), db3)
                  else ((res, none), db3)
            ]
      ]
