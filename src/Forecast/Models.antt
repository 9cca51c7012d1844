-- ===== src/Forecast/Models.antt =====
-- internal/features/forecast/models/models.go: the records that the engine reads and writes. `V` is
-- the type of a `float64`; columns that the database fills in (`CreatedAt` and the like) are left out.
use forecast_e_zoo.Common.{ℕ, Option}
use forecast_e_zoo.Common.Text.{Text}
use forecast_e_zoo.Common.Time.{Time}
use forecast_e_zoo.Common.Int.{ℤ}
use forecast_e_zoo.Common.Session.{Error}

-- forecast.replenishment_plans.status; `converted` is added by the orders feature.
pub data PlanStatus : Type 0 where
  draft approved cancelled converted : PlanStatus

-- forecast.forecast_runs.status
pub data RunStatus : Type 0 where
  running committed failed : RunStatus

pub record InsertRunInput : Type 0 where
  pub horizon_days : ℤ
  pub snapshot_etl_run_id : Option ℕ

-- The error message is kept as the error itself.
pub record ForecastRun : Type 0 where
  pub id : ℕ
  pub status : RunStatus
  pub horizon_days : ℤ
  pub snapshot_etl_run_id : Option ℕ
  pub forecasts_count : ℕ
  pub lines_count : ℕ
  pub plans_count : ℕ
  pub error_message : Option Error

pub record CalcInputRow (V : Type 0) : Type 0 where
  pub product_id : Text
  pub location_id : Text
  pub on_hand : V
  pub in_transit : V
  pub daily_demand : Option V
  pub supplier_id : Option Text
  pub lead_time_days : Option ℤ

pub record DemandPoint (V : Type 0) : Type 0 where
  pub product_id : Text
  pub location_id : Text
  pub as_of_date : Time
  pub qty_sold : V

pub record SupplierScore (V : Type 0) : Type 0 where
  pub supplier_id : Text
  pub lead_time_actual_avg : Option V

pub record Forecast (V : Type 0) : Type 0 where
  pub product_id : Text
  pub location_id : Text
  pub forecast_date : Time
  pub forecast_qty : V
  pub lower_bound : V
  pub upper_bound : V
  pub confidence : V

pub record CalculationLine (V : Type 0) : Type 0 where
  pub product_id : Text
  pub location_id : Text
  pub supplier_id : Option Text
  pub current_stock : V
  pub in_transit : V
  pub daily_demand : V
  pub lead_time_days : ℤ
  pub safety_stock : V
  pub reorder_point : V
  pub target_stock : V
  pub reorder_qty : V

pub record ReplenishmentPlan (V : Type 0) : Type 0 where
  pub supplier_id : Text
  pub location_id : Text
  pub plan_date : Time
  pub total_qty : V
  pub lines_count : ℕ
  pub status : PlanStatus
