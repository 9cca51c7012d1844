-- ===== src/Forecast/Calculator/Bounds.antt =====
-- The bounds that `Compute` keeps, and its order quantity on every branch.
use forecast_e_zoo.Common.{◌≡◌, false, arith, if◌then◌else◌, List, [], ◌∷◌, All}
use forecast_e_zoo.Common.Int.{pos, ◌≤ℤ◌}
use forecast_e_zoo.Common.Float.{Float64, IsOrdered}
use forecast_e_zoo.Forecast.Models.{CalculationLine}
use forecast_e_zoo.Forecast.Calculator.{Input, Calculator, compute, compute_batch}

-- A line that may be stored and ordered from.
pub record IsOrderable (f : Float64) (line : CalculationLine f.Val) : Type 0 where
  pub lead_time : pos 1 ≤ℤ line.lead_time_days
  pub safety : f.lt line.safety_stock (f.lit 0 0) ≡ false
  pub quantity : f.lt line.reorder_qty (f.lit 0 0) ≡ false
  -- nothing without demand, and otherwise the shortfall against the target stock
  pub shortfall :
      let rest = f.sub (f.sub line.target_stock line.current_stock) line.in_transit in
      line.reorder_qty ≡ (
        if f.le line.daily_demand (f.lit 0 0)
        then f.lit 0 0
        else if f.lt rest (f.lit 0 0)
        then f.lit 0 0
        else rest)

module _ (f : Float64) (ordered : IsOrdered f) (c : Calculator f.Val) where
  -- For every input the line has a positive lead time, a safety stock and an order quantity that
  -- are not below zero, and its order quantity is nothing without demand and otherwise the shortfall
  -- against the target stock, or nothing.
  pub compute-IsOrderable : (i : Input f.Val) → IsOrderable f (compute f c i)
  unfolding compute
  compute-IsOrderable i = ground (arith, ordered.lt_irrefl (f.lit 0 0))

  compute_batch-IsOrderable : (is : List (Input f.Val)) → All (IsOrderable f) (compute_batch f c is)
  unfolding compute_batch
  compute_batch-IsOrderable [] = tt
  compute_batch-IsOrderable (i ∷ is) = (compute-IsOrderable i, compute_batch-IsOrderable is)
