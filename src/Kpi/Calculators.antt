-- ===== src/Kpi/Calculators.antt =====
-- internal/features/kpi/calculators: the parameters and formulas of on-shelf availability (osa.go),
-- on time in full (otif.go) and stock days (stock_days.go). `encoding/json` is the parameter
-- `unmarshal`, which decodes into given defaults and whose error the source ignores.
pub mod Bounds
use forecast_e_zoo.Common.{
  ℕ, suc, ◌+◌, Bool, true, false, Option, none, some, List, [], ◌∷◌, ◌++◌, ◌||◌, ◌&&◌,
  if◌then◌else◌,
}
use forecast_e_zoo.Common.Text.{Text, codes}
use forecast_e_zoo.Common.Int.{ℤ, pos, ◌+ℤ◌, ltb_ℤ, leb_ℤ}
use forecast_e_zoo.Common.Float.{Float64}
use forecast_e_zoo.Kpi.Calibration.{scope_product_location, scope_supplier}

abbrev pub kpi_osa : Text
kpi_osa = codes "osa"

abbrev pub kpi_otif : Text
kpi_otif = codes "otif"

abbrev pub kpi_stock_days : Text
kpi_stock_days = codes "stock_days"

-- Rows of the marts: models/snapshot.go and models/calibration.go.
pub record DemandHistoryAgg : Type 0 where
  pub product_id : Text
  pub location_id : Text
  pub days_observed : ℤ
  pub days_oos : ℤ

pub record CalcInputRow (V : Type 0) : Type 0 where
  pub product_id : Text
  pub location_id : Text
  pub on_hand : V
  pub in_transit : V
  pub daily_demand : Option V

pub record SupplierScorecardRow (V : Type 0) : Type 0 where
  pub supplier_id : Text
  pub lines_delivered : ℤ
  pub lines_late : ℤ
  pub fill_rate_avg : Option V

pub record ComputedSnapshot (V : Type 0) : Type 0 where
  pub kpi_name : Text
  pub scope_type : Text
  pub scope_id : Option Text
  pub value : V

pub record OsaParams : Type 0 where
  pub lookback_days : ℤ
  pub min_observations : ℤ

pub record OtifParams (V : Type 0) : Type 0 where
  pub late_grace_hours : ℤ
  pub fill_rate_threshold : V

pub record StockDaysParams (V : Type 0) : Type 0 where
  pub include_in_transit : Bool
  pub min_daily_demand : V
  pub cap_days : V

-- ProductID + "|" + LocationID
abbrev pub pair_key : Text → Text → Text
pair_key p l = p ++ (codes "|" ++ l)

abbrev pub osa_defaults : OsaParams
osa_defaults = record { lookback_days = pos 30; min_observations = pos 7 }

unfoldable pub parse_osa_params : (Text → OsaParams → OsaParams) → Text → OsaParams
parse_osa_params unmarshal [] = osa_defaults
parse_osa_params unmarshal (b ∷ raw) =
    let p = unmarshal (b ∷ raw) osa_defaults in
    record {
      lookback_days = if leb_ℤ p.lookback_days (pos 0) then pos 30 else p.lookback_days;
      min_observations = if leb_ℤ p.min_observations (pos 0) then pos 7 else p.min_observations;
    }

module _ (f : Float64) where
  open f use {Val, lit, of_int, add, sub, div, lt, le}

  unfoldable pub osa_value : DemandHistoryAgg → Val
  osa_value r =
      let osa = sub (lit 1 0) (div (of_int r.days_oos) (of_int r.days_observed)) in
      if lt osa (lit 0 0) then lit 0 0 else osa

  -- The error count of `ComputeOSA` is the constant 0.
  unfoldable pub compute_osa : List DemandHistoryAgg → OsaParams → List (ComputedSnapshot Val) × ℕ
  unfolding osa_value
  compute_osa [] params = ([], 0)
  compute_osa (r ∷ rows) params =
      let (out, errs) = compute_osa rows params in
      if ltb_ℤ r.days_observed params.min_observations then (out, errs) else (
        record {
          kpi_name = kpi_osa;
          scope_type = scope_product_location;
          scope_id = some (pair_key r.product_id r.location_id);
          value = osa_value r;
        }
            ∷ out,
        errs,
      )

  abbrev pub otif_defaults : OtifParams Val
  otif_defaults = record { late_grace_hours = pos 0; fill_rate_threshold = lit 950 1 }

  unfoldable pub parse_otif_params :
      (Text → OtifParams Val → OtifParams Val) → Text → OtifParams Val
  parse_otif_params unmarshal [] = otif_defaults
  parse_otif_params unmarshal (b ∷ raw) =
      let p = unmarshal (b ∷ raw) otif_defaults in
      record {
        late_grace_hours = if ltb_ℤ p.late_grace_hours (pos 0) then pos 0 else p.late_grace_hours;
        fill_rate_threshold =
            if le p.fill_rate_threshold (lit 0 0) || lt (lit 1 0) p.fill_rate_threshold
            then lit 950 1
            else p.fill_rate_threshold;
      }

  -- `linesShort`: all lines of a week whose fill rate is below the threshold.
  unfoldable pub lines_short : SupplierScorecardRow Val → OtifParams Val → ℤ
  lines_short r params = elim r.fill_rate_avg [
    | none ↦ pos 0
    | some rate ↦ if lt rate params.fill_rate_threshold then r.lines_delivered else pos 0
  ]

  -- `bad`, capped at the delivered lines
  unfoldable pub bad_lines : SupplierScorecardRow Val → OtifParams Val → ℤ
  bad_lines r params =
      let bad = r.lines_late +ℤ lines_short r params in
      if ltb_ℤ r.lines_delivered bad then r.lines_delivered else bad

  unfoldable pub otif_value : SupplierScorecardRow Val → OtifParams Val → Val
  otif_value r params = sub (lit 1 0) (div (of_int (bad_lines r params)) (of_int r.lines_delivered))

  unfoldable pub compute_otif :
      List (SupplierScorecardRow Val) → OtifParams Val → List (ComputedSnapshot Val) × ℕ
  unfolding otif_value
  compute_otif [] params = ([], 0)
  compute_otif (r ∷ rows) params =
      let (out, errs) = compute_otif rows params in
      if leb_ℤ r.lines_delivered (pos 0)
      then (out, errs)
      else if lt (otif_value r params) (lit 0 0)
      then (out, suc errs)
      else (
        record {
          kpi_name = kpi_otif;
          scope_type = scope_supplier;
          scope_id = some r.supplier_id;
          value = otif_value r params;
        }
            ∷ out,
        errs,
      )

  abbrev pub stock_days_defaults : StockDaysParams Val
  stock_days_defaults = record {
    include_in_transit = true;
    min_daily_demand = lit 1 1;
    cap_days = lit 365 0;
  }

  unfoldable pub parse_stock_days_params :
      (Text → StockDaysParams Val → StockDaysParams Val) → Text → StockDaysParams Val
  parse_stock_days_params unmarshal [] = stock_days_defaults
  parse_stock_days_params unmarshal (b ∷ raw) =
      let p = unmarshal (b ∷ raw) stock_days_defaults in
      record p {
        min_daily_demand = if le p.min_daily_demand (lit 0 0) then lit 1 1 else p.min_daily_demand;
        cap_days = if le p.cap_days (lit 0 0) then lit 365 0 else p.cap_days;
      }

  unfoldable pub stock_days_value : CalcInputRow Val → StockDaysParams Val → Val
  stock_days_value r params =
      let stock = if params.include_in_transit then add r.on_hand r.in_transit else r.on_hand in
      let demand : Val = elim r.daily_demand [
        | none ↦ params.min_daily_demand
        | some d ↦ if lt params.min_daily_demand d then d else params.min_daily_demand
      ] in
      let days = div stock demand in
      let capped = if lt params.cap_days days then params.cap_days else days in
      if lt capped (lit 0 0) then lit 0 0 else capped

  -- The error count of `ComputeStockDays` is the constant 0.
  unfoldable pub compute_stock_days :
      List (CalcInputRow Val) → StockDaysParams Val → List (ComputedSnapshot Val) × ℕ
  unfolding stock_days_value
  compute_stock_days [] params = ([], 0)
  compute_stock_days (r ∷ rows) params =
      let (out, errs) = compute_stock_days rows params in
      (
        record {
          kpi_name = kpi_stock_days;
          scope_type = scope_product_location;
          scope_id = some (pair_key r.product_id r.location_id);
          value = stock_days_value r params;
        }
            ∷ out,
        errs,
      )
