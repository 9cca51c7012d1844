-- ===== src/Forecast/Forecaster/Range.antt =====
-- How many forecasts there are, for which days, and that their quantities are numbers not below zero.
use mathlib.Core.Path.{◌≡◌, refl, ap, subst}
use forecast_e_zoo.Common.{
  All-append, ℕ, zero, suc, ◌+◌, ◌*◌, ◌<◌, false, List, [], ◌∷◌, arith, length, All, length-append,
}
use forecast_e_zoo.Common.Time.{Time, truncate_day, add_days}
use forecast_e_zoo.Common.Int.{pos, leb_ℤ}
use forecast_e_zoo.Common.Float.{Float64, IsOrdered}
use forecast_e_zoo.Forecast.Models.{DemandPoint, Forecast}
use forecast_e_zoo.Forecast.Forecaster.{
  Series, SeriesStats, group_from, predict, compute_stats, forecast_days, forecast_each,
  predict_batch,
}

module _ (f : Float64) (ordered : IsOrdered f) (iso_week : Time → ℕ) where
  open f use {Val, lit, lt, is_nan, is_inf}

  -- A number that is not below zero.
  abbrev pub IsQuantity : Val → Type 0
  IsQuantity v = (lt v (lit 0 0) ≡ false) × (is_nan v ≡ false) × (is_inf v ≡ false)

  predict-IsQuantity : (s : SeriesStats Val) (date : Time) → IsQuantity (predict f iso_week s date)
  unfolding predict
  predict-IsQuantity s date = ground (arith, ordered.lt_irrefl (lit 0 0), ordered.zero_finite)

  -- A forecast for one of the days before the horizon.
  abbrev pub IsForecast : Time → ℕ → Forecast Val → Type 0
  IsForecast first horizon x =
      IsQuantity x.forecast_qty × ((i : ℕ) × (i < horizon) × (x.forecast_date ≡ add_days first i))

  forecast_days-IsForecast :
      (g : Series Val) (first : Time) (left i : ℕ)
      → (length (forecast_days f iso_week g first left i) ≡ left)
        × All (IsForecast first (i + left)) (forecast_days f iso_week g first left i)
  unfolding forecast_days
  forecast_days-IsForecast g first zero i = (refl, tt)
  forecast_days-IsForecast g first (suc left) i =
      let (len, rest) = forecast_days-IsForecast g first left (suc i) in
      (
        ap suc len,
        (
          (
            predict-IsQuantity (compute_stats f iso_week g.points) (add_days first i),
            (i, omega arith, refl),
          ),
          subst (λ n. All (IsForecast first n) (forecast_days f iso_week g first left (suc i)))
              (omega arith) rest,
        ),
      )

  forecast_each-IsForecast :
      (gs : List (Series Val)) (first : Time) (horizon : ℕ)
      → (length (forecast_each f iso_week gs first horizon) ≡ length gs * horizon)
        × All (IsForecast first horizon) (forecast_each f iso_week gs first horizon)
  unfolding forecast_each
  forecast_each-IsForecast [] first horizon = (omega arith, tt)
  forecast_each-IsForecast (g ∷ gs) first horizon =
      let (len, days) = forecast_days-IsForecast g first horizon 0 in
      let (more, rest) = forecast_each-IsForecast gs first horizon in
      (
        ground (
          arith,
          len,
          more,
          length-append (forecast_days f iso_week g first horizon 0)
              (forecast_each f iso_week gs first horizon),
        ),
        All-append (IsForecast first horizon) (forecast_days f iso_week g first horizon 0)
            (forecast_each f iso_week gs first horizon)
            (subst (λ n. All (IsForecast first n) (forecast_days f iso_week g first horizon 0))
              (omega arith) days)
            rest,
      )

  -- With a positive horizon and a history, there are as many forecasts as visited series times days
  -- of the horizon; each is for one of these days, counted from the start of the given day, and its
  -- quantity is a finite number that is not below zero, whatever the history.
  pub predict_batch-IsForecast :
      (visit : List (Series Val) → List (Series Val)) (p : DemandPoint Val)
      (ps : List (DemandPoint Val)) (as_of : Time) (horizon : ℕ)
      → 0 < horizon
      → let out = predict_batch f iso_week visit (p ∷ ps) as_of (pos horizon) in
        (length out ≡ length (visit (group_from (p ∷ ps) [])) * horizon)
        × All (IsForecast (truncate_day as_of) horizon) out
  unfolding predict_batch
  predict_batch-IsForecast visit p ps as_of horizon h =
      rw (positive, predict_batch)
        (forecast_each-IsForecast (visit (group_from (p ∷ ps) [])) (truncate_day as_of) horizon)
    where
      positive : leb_ℤ (pos horizon) (pos 0) ≡ false
      positive = ground arith
