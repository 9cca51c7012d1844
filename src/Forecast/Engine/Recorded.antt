-- ===== src/Forecast/Engine/Recorded.antt =====
-- The record of a forecast run, from its start to its end.
use forecast_e_zoo.Common.{
  ℕ, suc, ◌≡◌, refl, ◌⊎◌, inl, inr, Bool, Option, none, some, List, [], ◌∷◌, ◌++◌, List-cases,
  Bool-cases,
}
use forecast_e_zoo.Common.Session.{
  Error, database, Result, ok, err, Session, ◌>>=◌, pure, statement,
}
use forecast_e_zoo.Common.Session.Ends.{Ends, statement_then-Ends, bind-Ends}
use forecast_e_zoo.Forecast.Models.{InsertRunInput}
use forecast_e_zoo.Forecast.Tables.{
  ForecastTables, ForecastAction, insert_run, update_run_committed, update_run_failed, new_run,
  set_run, with_counts, with_failure,
}
use forecast_e_zoo.Forecast.Engine.{RunCounts, RunResult, start_run, settle}

-- What is left of a failed run: the record of it may have been refused too.
abbrev pub result : ℕ → Option ℕ → RunCounts → RunResult
result id snapshot c = record { run_id = id; counts = c; snapshot_etl_run = snapshot }

abbrev pub Left : {V : Type 0} → ℕ → ForecastTables V → Error → ForecastTables V → Type 0
Left id p e t' = (t' ≡ p) ⊎ (t' ≡ record p { runs = set_run id (with_failure e) p.runs })

update_run_failed-Left :
    {V : Type 0} (id : ℕ) (e : Error) (s : Session (ForecastTables V))
    → Left id s.tables e (update_run_failed id e s).1.tables
unfolding update_run_failed statement
update_run_failed-Left id e s = elim (List-cases s.faults) [
  | inl none_left ↦ rw (none_left, update_run_failed, statement) (inr refl)
  | inr (b, _, q) ↦ elim (Bool-cases b) [
    | inl refused ↦ rw (q, refused, update_run_failed, statement) (inl refl)
    | inr served ↦ rw (q, served, update_run_failed, statement) (inr refl)
  ]
]

abbrev pub counted_run : {V : Type 0} → ℕ → RunCounts → ForecastTables V → ForecastTables V
counted_run id c t = record t { runs = set_run id (with_counts c.forecasts c.lines c.plans) t.runs }

module _ {V : Type 0} (id : ℕ) (snapshot : Option ℕ) where
  pub settle-Ends :
      (P : RunResult → ForecastTables V → Type 0) (Q : Error → ForecastTables V → Type 0)
      {P' : RunCounts → ForecastTables V → Type 0} {Q' : Error → ForecastTables V → Type 0}
      (r : Result RunCounts × Session (ForecastTables V))
      → Ends P' Q' r
      → ((c : RunCounts) (t : ForecastTables V)
          → P' c t
          → P (result id snapshot c) (counted_run id c t) × Q database t)
      → ((e : Error) (t t' : ForecastTables V) → Q' e t → Left id t e t' → Q e t')
      → Ends P Q (settle id snapshot r.0 r.1)
  unfolding settle update_run_committed
  settle-Ends P Q (ok c, s) h good bad =
      statement_then-Ends P Q (λ t. tt) (counted_run id c) (λ _. pure (result id snapshot c)) s
        (λ fs. (good c s.tables h).0) (good c s.tables h).1
  settle-Ends P Q (err e, s) h good bad =
      bad e s.tables (update_run_failed id e s).1.tables h (update_run_failed-Left id e s)

-- The row that a run keeps its record in, and the tables with it.
abbrev pub used_run : {V : Type 0} → Option ℕ → ForecastTables V → ℕ
used_run none t = t.next_run
used_run (some id) t = id

abbrev pub started : {V : Type 0} → Option ℕ → InsertRunInput → ForecastTables V → ForecastTables V
started none i t = record t {
  runs = t.runs ++ new_run t.next_run i ∷ [];
  next_run = suc t.next_run;
}
started (some id) i t = t

pub start_run_then :
    {V B : Type 0} (P : B → ForecastTables V → Type 0) (Q : Error → ForecastTables V → Type 0)
    (preset : Option ℕ) (i : InsertRunInput) (k : ℕ → ForecastAction V B)
    (s : Session (ForecastTables V))
    → ((fs : List Bool)
        → Ends P Q (
            k
              (used_run preset s.tables)
              (record { tables = started preset i s.tables; faults = fs })))
    → Q database s.tables
    → Ends P Q ((start_run preset i >>= k) s)
unfolding start_run insert_run
start_run_then P Q none i k s h j = bind-Ends P Q (start_run none i) k s (
    statement_then-Ends _ Q (λ t. new_run t.next_run i) (λ t. started none i t) (λ r. pure r.id) s
      (λ fs. h) j)
start_run_then P Q (some id) i k s h j = h s.faults
