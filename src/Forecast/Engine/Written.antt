-- ===== src/Forecast/Engine/Written.antt =====
-- The three writes of a forecast run, any of which the database may refuse.
use mathlib.Core.Path.{subst}
use mathlib.Core.List.{append-nil}
use forecast_e_zoo.Common.{
  ℕ, ◌+◌, ◌≡◌, refl, ◌⊎◌, inl, inr, Bool, List, [], ◌∷◌, ◌++◌, length, arith,
}
use forecast_e_zoo.Common.Float.{Float64}
use forecast_e_zoo.Common.Session.{Error, database, Session, ◌>>=◌, pure}
use forecast_e_zoo.Common.Session.Ends.{Ends, statement_then-Ends}
use forecast_e_zoo.Forecast.Models.{Forecast, CalculationLine, ReplenishmentPlan}
use forecast_e_zoo.Forecast.Tables.{
  ForecastTables, ForecastAction, bulk_insert_forecasts, bulk_insert_calculation_lines,
  bulk_insert_plans, forecast_rows, line_rows, plan_rows,
}
use forecast_e_zoo.Forecast.Engine.{RunCounts, model_sma_seasonal, write_outputs}

pub record Outputs (V : Type 0) : Type 0 where
  pub forecasts : List (Forecast V)
  pub lines : List (CalculationLine V)
  pub plans : List (ReplenishmentPlan V)

abbrev pub nothing : {V : Type 0} → Outputs V
nothing = record { forecasts = []; lines = []; plans = [] }

abbrev pub counts_of : {V : Type 0} → Outputs V → RunCounts
counts_of o = record {
  forecasts = length o.forecasts;
  lines = length o.lines;
  plans = length o.plans;
}

module _ {V : Type 0} (confidence : V) (id : ℕ) where
  abbrev pub with_forecasts : List (Forecast V) → ForecastTables V → ForecastTables V
  with_forecasts xs t = record t {
    forecasts = t.forecasts ++ forecast_rows id model_sma_seasonal confidence xs;
  }

  abbrev pub with_lines : List (CalculationLine V) → ForecastTables V → ForecastTables V
  with_lines ls t = record t { lines = t.lines ++ line_rows id ls }

  abbrev pub with_plans : List (ReplenishmentPlan V) → ForecastTables V → ForecastTables V
  with_plans ps t = record t {
    plans = t.plans ++ plan_rows id t.next_plan ps;
    next_plan = t.next_plan + length ps;
  }

  abbrev pub written : Outputs V → ForecastTables V → ForecastTables V
  written o t = with_plans o.plans (with_lines o.lines (with_forecasts o.forecasts t))

  -- What is there when a write is refused: the writes before it.
  abbrev pub Partly : Outputs V → ForecastTables V → ForecastTables V → Type 0
  Partly o t t' =
      (t' ≡ t)
      ⊎ (t' ≡ with_forecasts o.forecasts t)
      ⊎ (t' ≡ with_lines o.lines (with_forecasts o.forecasts t))
      ⊎ (t' ≡ written o t)

pub with_plans-nil :
    {V : Type 0} (confidence : V) (id : ℕ) (t : ForecastTables V)
    → with_plans confidence id [] t ≡ t
with_plans-nil confidence id t = ground (arith, append-nil t.plans)

pub written-nothing :
    {V : Type 0} (confidence : V) (id : ℕ) (t : ForecastTables V)
    → written confidence id nothing t ≡ t
written-nothing confidence id t =
    ground (arith, append-nil t.plans, append-nil t.lines, append-nil t.forecasts)

module _ {V B : Type 0} (P : B → ForecastTables V → Type 0) (Q : Error → ForecastTables V → Type 0)
    (confidence : V) (id : ℕ) (k : Unit {0} → ForecastAction V B)
    (s : Session (ForecastTables V)) where
  insert_forecasts_then :
      (xs : List (Forecast V))
      → ((fs : List Bool)
          → Ends P Q
              (k tt (record { tables = with_forecasts confidence id xs s.tables; faults = fs })))
      → Q database s.tables
      → Ends P Q ((bulk_insert_forecasts id xs model_sma_seasonal confidence >>= k) s)
  unfolding bulk_insert_forecasts
  insert_forecasts_then [] h j = rw (append-nil s.tables.forecasts) at (h s.faults)
  insert_forecasts_then (x ∷ xs) h j = statement_then-Ends P Q (λ t. tt) _ k s h j

  insert_lines_then :
      (ls : List (CalculationLine V))
      → ((fs : List Bool)
          → Ends P Q (k tt (record { tables = with_lines confidence id ls s.tables; faults = fs })))
      → Q database s.tables
      → Ends P Q ((bulk_insert_calculation_lines id ls >>= k) s)
  unfolding bulk_insert_calculation_lines
  insert_lines_then [] h j = rw (append-nil s.tables.lines) at (h s.faults)
  insert_lines_then (l ∷ ls) h j = statement_then-Ends P Q (λ t. tt) _ k s h j

  insert_plans_then :
      (ps : List (ReplenishmentPlan V))
      → ((fs : List Bool)
          → Ends P Q (k tt (record { tables = with_plans confidence id ps s.tables; faults = fs })))
      → Q database s.tables
      → Ends P Q ((bulk_insert_plans id ps >>= k) s)
  unfolding bulk_insert_plans
  insert_plans_then [] h j =
      subst (λ t. Ends P Q (k tt (record { tables = t; faults = s.faults })))
        (with_plans-nil confidence id s.tables) (h s.faults)
  insert_plans_then (p ∷ ps) h j = statement_then-Ends P Q (λ t. tt) _ k s h j

module _ (f : Float64) (id : ℕ) (o : Outputs f.Val) (t : ForecastTables f.Val) where
  -- All of the three writes, or those before the one that is refused.
  abbrev pub Wrote : RunCounts → ForecastTables f.Val → Type 0
  Wrote c t' = (c ≡ counts_of o) × (t' ≡ written (f.lit 800 1) id o t)

  abbrev pub Stopped : Error → ForecastTables f.Val → Type 0
  Stopped e t' = Partly (f.lit 800 1) id o t t'

  abbrev after_plans : Unit {0} → ForecastAction f.Val RunCounts
  after_plans _ = pure (counts_of o)

  abbrev after_lines : Unit {0} → ForecastAction f.Val RunCounts
  after_lines _ = bulk_insert_plans id o.plans >>= after_plans

  abbrev after_forecasts : Unit {0} → ForecastAction f.Val RunCounts
  after_forecasts _ = bulk_insert_calculation_lines id o.lines >>= after_lines

  pub write_outputs-Wrote :
      (s : Session (ForecastTables f.Val))
      → s.tables ≡ t
      → Ends Wrote Stopped (write_outputs f id o.forecasts o.lines o.plans s)
  unfolding write_outputs
  write_outputs-Wrote s e =
      insert_forecasts_then Wrote Stopped (f.lit 800 1) id after_forecasts s o.forecasts
        (λ fs1.
          insert_lines_then Wrote Stopped (f.lit 800 1) id after_lines _ o.lines
            (λ fs2.
              insert_plans_then Wrote Stopped (f.lit 800 1) id after_plans _ o.plans
                (λ fs3. (refl, rw e)) (inr (inr (inl (rw e)))))
            (inr (inl (rw e))))
        (inl e)
