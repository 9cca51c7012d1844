-- ===== src/Forecast/Calculator.antt =====
-- internal/features/forecast/calculator/calculator.go: reorder point, safety stock, target stock and
-- order quantity of one product at one location.
pub mod Bounds
use forecast_e_zoo.Common.{
  ℕ, ◌≡◌, refl, Bool, true, false, Option, List, [], ◌∷◌, map, arith, if◌then◌else◌,
}
use forecast_e_zoo.Common.Text.{Text}
use forecast_e_zoo.Common.Int.{ℤ, pos, ◌≤ℤ◌, leb_ℤ}
use forecast_e_zoo.Common.Float.{Float64, IsOrdered}
use forecast_e_zoo.Forecast.Models.{CalculationLine}

pub record Input (V : Type 0) : Type 0 where
  pub product_id : Text
  pub location_id : Text
  pub supplier_id : Option Text
  pub current_stock : V
  pub in_transit : V
  pub daily_demand : V
  pub lead_time_days : ℤ
  pub std_dev : V

pub record Calculator (V : Type 0) : Type 0 where
  pub z : V
  pub cycle_days : ℤ

abbrev pub lead_time_default : ℤ
lead_time_default = pos 7

abbrev pub cycle_stock_days : ℤ
cycle_stock_days = pos 7

module _ (f : Float64) where
  open f use {Val, lit, of_int, add, sub, mul, sqrt, lt, le}

  abbrev pub zero_val : Val
  zero_val = lit 0 0

  unfoldable pub new : Calculator Val
  new = record { z = lit 1960 1; cycle_days = cycle_stock_days }

  unfoldable pub compute : Calculator Val → Input Val → CalculationLine Val
  compute c i =
      let lead_time =
        if leb_ℤ i.lead_time_days (pos 0) then lead_time_default else i.lead_time_days in
      let lead_time_demand = mul i.daily_demand (of_int lead_time) in
      let raw_safety = mul (mul c.z i.std_dev) (sqrt (of_int lead_time)) in
      let safety_stock = if lt raw_safety zero_val then zero_val else raw_safety in
      let reorder_point = add safety_stock lead_time_demand in
      let cycle_stock = mul i.daily_demand (of_int c.cycle_days) in
      let target_stock = add reorder_point cycle_stock in
      let raw_qty = sub (sub target_stock i.current_stock) i.in_transit in
      let positive_qty = if lt raw_qty zero_val then zero_val else raw_qty in
      let reorder_qty = if le i.daily_demand zero_val then zero_val else positive_qty in
      record {
        product_id = i.product_id;
        location_id = i.location_id;
        supplier_id = i.supplier_id;
        current_stock = i.current_stock;
        in_transit = i.in_transit;
        daily_demand = i.daily_demand;
        lead_time_days = lead_time;
        safety_stock = safety_stock;
        reorder_point = reorder_point;
        target_stock = target_stock;
        reorder_qty = reorder_qty;
      }

  unfoldable pub compute_batch : Calculator Val → List (Input Val) → List (CalculationLine Val)
  unfolding compute
  compute_batch c [] = []
  compute_batch c (i ∷ is) = compute c i ∷ compute_batch c is
