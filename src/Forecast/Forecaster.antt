-- ===== src/Forecast/Forecaster.antt =====
-- internal/features/forecast/forecaster/moving_average.go: the forecast of one series from its average
-- with multipliers by day of the week and week of the year. `iso_week` is the week number of
-- time.ISOWeek; `visit` is the order in which the runtime iterates over the map of series.
pub mod Range
use forecast_e_zoo.Common.{
  ℕ, zero, suc, ◌+◌, ◌==◌, ltb, leb, Bool, true, false, List, [], ◌∷◌, ◌++◌, ◌&&◌, ◌||◌,
  if◌then◌else◌, length,
}
use forecast_e_zoo.Common.Text.{Text, text_eq}
use forecast_e_zoo.Common.Time.{Time, truncate_day, add_days, weekday}
use forecast_e_zoo.Common.Int.{ℤ, pos, leb_ℤ, pos_part}
use forecast_e_zoo.Common.Float.{Float64}
use forecast_e_zoo.Forecast.Models.{DemandPoint, Forecast}

-- woyMinSeasons
abbrev pub woy_min_seasons : ℕ
woy_min_seasons = 4

-- A map with numbers as keys: what reading it gives, zero where there is no entry.
abbrev pub update : {V : Type 0} → ℕ → V → (ℕ → V) → ℕ → V
update k v m j = if k == j then v else m j

-- An entry of the map of series: its key and its points.
pub record Series (V : Type 0) : Type 0 where
  pub product : Text
  pub location : Text
  pub points : List (DemandPoint V)

pub record SeriesStats (V : Type 0) : Type 0 where
  pub observations : ℕ
  pub sum : V
  pub average : V
  pub dow_sum : ℕ → V
  pub dow_count : ℕ → ℕ
  pub woy_sum : ℕ → V
  pub woy_count : ℕ → ℕ
  pub woy_seen : List ℕ  -- its length is woySeasonsCount

unfoldable pub append_point : {V : Type 0} → DemandPoint V → List (Series V) → List (Series V)
append_point p [] =
    record { product = p.product_id; location = p.location_id; points = p ∷ [] } ∷ []
append_point p (g ∷ gs) =
    let rest = append_point p gs in
    if text_eq g.product p.product_id && text_eq g.location p.location_id
    then record g { points = g.points ++ p ∷ [] } ∷ gs
    else g ∷ rest

unfoldable pub group_from : {V : Type 0} → List (DemandPoint V) → List (Series V) → List (Series V)
unfolding append_point
group_from [] gs = gs
group_from (p ∷ ps) gs = group_from ps (append_point p gs)

abbrev pub seen_week : ℕ → List ℕ → Bool
seen_week w [] = false
seen_week w (x ∷ xs) = let rest = seen_week w xs in if x == w then true else rest

module _ (f : Float64) (iso_week : Time → ℕ) where
  open f use {Val, lit, of_int, add, sub, mul, div, lt, eq, is_nan, is_inf}

  abbrev pub no_stats : SeriesStats Val
  no_stats = record {
    observations = 0;
    sum = lit 0 0;
    average = lit 0 0;
    dow_sum = λ k. lit 0 0;
    dow_count = λ k. 0;
    woy_sum = λ k. lit 0 0;
    woy_count = λ k. 0;
    woy_seen = [];
  }

  -- The body of the loop of `computeStats`.
  unfoldable pub add_point : DemandPoint Val → SeriesStats Val → SeriesStats Val
  add_point p s =
      let dow = weekday p.as_of_date in
      let woy = iso_week p.as_of_date in
      record {
        observations = s.observations;
        sum = add s.sum p.qty_sold;
        average = s.average;
        dow_sum = update dow (add (s.dow_sum dow) p.qty_sold) s.dow_sum;
        dow_count = update dow (s.dow_count dow + 1) s.dow_count;
        woy_sum = update woy (add (s.woy_sum woy) p.qty_sold) s.woy_sum;
        woy_count = update woy (s.woy_count woy + 1) s.woy_count;
        woy_seen = if seen_week woy s.woy_seen then s.woy_seen else woy ∷ s.woy_seen;
      }

  unfoldable pub add_points : List (DemandPoint Val) → SeriesStats Val → SeriesStats Val
  unfolding add_point
  add_points [] s = s
  add_points (p ∷ ps) s = add_points ps (add_point p s)

  unfoldable pub compute_stats : List (DemandPoint Val) → SeriesStats Val
  compute_stats [] = no_stats
  compute_stats (p ∷ ps) =
      let s = add_points (p ∷ ps) no_stats in
      let n = length (p ∷ ps) in record s { observations = n; average = div s.sum (of_int (pos n)) }

  -- `(sum[k] / float64(count[k])) / average`, or 1
  abbrev pub multiplier : ℕ → Val → Val → Val
  multiplier count sum average =
      if ltb 0 count then div (div sum (of_int (pos count))) average else lit 1 0

  unfoldable pub predict : SeriesStats Val → Time → Val
  predict s date =
      let dow_mul = multiplier (s.dow_count (weekday date)) (s.dow_sum (weekday date)) s.average in
      let woy_mul =
        if leb woy_min_seasons (length s.woy_seen)
        then multiplier (s.woy_count (iso_week date)) (s.woy_sum (iso_week date)) s.average
        else lit 1 0 in
      let q = mul (mul s.average dow_mul) woy_mul in
      let clamped = if lt q (lit 0 0) then lit 0 0 else q in
      if s.observations == 0 || eq s.average (lit 0 0)
      then lit 0 0
      else if is_nan clamped || is_inf clamped
      then lit 0 0
      else clamped

  abbrev pub forecast_at : Series Val → Time → Forecast Val
  forecast_at g date =
      let qty = predict (compute_stats g.points) date in
      record {
        product_id = g.product;
        location_id = g.location;
        forecast_date = date;
        forecast_qty = qty;
        lower_bound = mul qty (sub (lit 1 0) (lit 200 1));
        upper_bound = mul qty (add (lit 1 0) (lit 200 1));
        confidence = lit 800 1;
      }

  -- The inner loop, from day `i` with `left` days to go.
  unfoldable pub forecast_days : Series Val → Time → ℕ → ℕ → List (Forecast Val)
  forecast_days g first zero i = []
  forecast_days g first (suc left) i =
      forecast_at g (add_days first i) ∷ forecast_days g first left (suc i)

  unfoldable pub forecast_each : List (Series Val) → Time → ℕ → List (Forecast Val)
  unfolding forecast_days
  forecast_each [] first horizon = []
  forecast_each (g ∷ gs) first horizon =
      forecast_days g first horizon 0 ++ forecast_each gs first horizon

  unfoldable pub predict_batch :
      (List (Series Val) → List (Series Val))
      → List (DemandPoint Val)
      → Time
      → ℤ
      → List (Forecast Val)
  unfolding group_from forecast_each truncate_day
  predict_batch visit [] as_of horizon = []
  predict_batch visit (p ∷ ps) as_of horizon =
      if leb_ℤ horizon (pos 0)
      then []
      else forecast_each (visit (group_from (p ∷ ps) [])) (truncate_day as_of) (pos_part horizon)
