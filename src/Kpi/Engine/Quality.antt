-- ===== src/Kpi/Engine/Quality.antt =====
-- The quality gate of the engine: which errors an indicator can end with.
use mathlib.Core.Path.{◌≡◌, refl}
use forecast_e_zoo.Common.{
  ℕ, suc, Bool, true, false, Option, none, some, List, [], ◌∷◌, inl, inr, ◌⊎◌, arith, if◌then◌else◌,
  Bool-cases, ◌==◌,
}
use forecast_e_zoo.Common.Text.{Text, text_eq}
use forecast_e_zoo.Common.Float.{Float64, IsOrdered}
use forecast_e_zoo.Common.Session.{
  Error, database, internal, quality_threshold_exceeded, Result, ok, err, Session, statement,
}
use forecast_e_zoo.Kpi.Calibration.{Resolver}
use forecast_e_zoo.Kpi.Calculators.{
  DemandHistoryAgg, CalcInputRow, ComputedSnapshot, OsaParams, StockDaysParams, compute_osa,
  compute_stock_days, kpi_osa, kpi_otif, kpi_stock_days,
}
use forecast_e_zoo.Kpi.Calculators.Bounds.{compute_otif_no_errors}
use forecast_e_zoo.Kpi.Engine.{
  KpiTables, Decoders, RunInput, compute_kpi, over_budget, write_snapshots, run_kpi,
  insert_snapshot, matched_calibration_id,
}

module _ (f : Float64) (ordered : IsOrdered f) (json : Decoders f.Val) where
  open f use {Val, lit, lt}

  compute_osa_no_errors :
      (rows : List DemandHistoryAgg) (params : OsaParams) → (compute_osa f rows params).1 ≡ 0
  unfolding compute_osa
  compute_osa_no_errors [] params = refl
  compute_osa_no_errors (r ∷ rows) params = ground (arith, compute_osa_no_errors rows params)

  compute_stock_days_no_errors :
      (rows : List (CalcInputRow Val)) (params : StockDaysParams Val)
      → (compute_stock_days f rows params).1 ≡ 0
  unfolding compute_stock_days
  compute_stock_days_no_errors [] params = refl
  compute_stock_days_no_errors (r ∷ rows) params = compute_stock_days_no_errors rows params

  -- Without errors no number of candidates is over the budget.
  within_budget : (n : ℕ) → over_budget f json 0 n ≡ false
  unfolding over_budget
  within_budget n = ground (
    arith,
    ordered.zero_ratio n,
    ordered.lit_pos 50 1 (omega arith) (omega arith),
    ordered.lt_le (lit 50 1) (lit 0 0),
  )

  -- A computation fails for another reason than quality, or counts no error.
  abbrev Clean : Result (List (ComputedSnapshot Val) × ℕ × ℕ) → Type 0
  Clean (ok (snaps, errs, total)) = errs ≡ 0
  Clean (err e) = (e ≡ database) ⊎ (e ≡ internal)

  compute_kpi-Clean :
      (kpi : Text) (i : RunInput) (r : Resolver) (db : Session (KpiTables Val))
      → Clean (compute_kpi f json kpi i r db).0
  unfolding compute_kpi statement
  compute_kpi-Clean kpi i r db = elim (Bool-cases (text_eq kpi kpi_osa)) [
    | inl e ↦ osa e db.faults
    | inr n ↦ elim (Bool-cases (text_eq kpi kpi_otif)) [
      | inl e ↦ otif n e db.faults
      | inr m ↦ elim (Bool-cases (text_eq kpi kpi_stock_days)) [
        | inl e ↦ stock n m e db.faults
        | inr k ↦ rw (n, m, k, compute_kpi) (inr refl)
      ]
    ]
  ]
    where
      osa :
          text_eq kpi kpi_osa ≡ true
          → (fs : List Bool) → Clean (compute_kpi f json kpi i r (record db { faults = fs })).0
      osa e [] = rw (e, compute_kpi) (compute_osa_no_errors _ _)
      osa e (true ∷ fs) = rw (e, compute_kpi) (inl refl)
      osa e (false ∷ fs) = rw (e, compute_kpi) (compute_osa_no_errors _ _)

      otif :
          text_eq kpi kpi_osa ≡ false
          → text_eq kpi kpi_otif ≡ true
          → (fs : List Bool) → Clean (compute_kpi f json kpi i r (record db { faults = fs })).0
      otif n e [] = rw (n, e, compute_kpi) (compute_otif_no_errors f ordered _ _)
      otif n e (true ∷ fs) = rw (n, e, compute_kpi) (inl refl)
      otif n e (false ∷ fs) = rw (n, e, compute_kpi) (compute_otif_no_errors f ordered _ _)

      stock :
          text_eq kpi kpi_osa ≡ false
          → text_eq kpi kpi_otif ≡ false
          → text_eq kpi kpi_stock_days ≡ true
          → (fs : List Bool) → Clean (compute_kpi f json kpi i r (record db { faults = fs })).0
      stock n m e [] = rw (n, m, e, compute_kpi) (compute_stock_days_no_errors _ _)
      stock n m e (true ∷ fs) = rw (n, m, e, compute_kpi) (inl refl)
      stock n m e (false ∷ fs) = rw (n, m, e, compute_kpi) (compute_stock_days_no_errors _ _)

  insert_snapshot-database :
      (i : RunInput) (s : ComputedSnapshot Val) (calibration : Option ℕ)
      (db : Session (KpiTables Val))
      → let res = (insert_snapshot f json i s calibration db).0 in
        (res ≡ ok tt) ⊎ (res ≡ err database)
  unfolding insert_snapshot statement
  insert_snapshot-database i s calibration db = ground arith

  -- The loop of insertions ends without an error or with the error of the database.
  write_snapshots-database :
      (i : RunInput) (r : Resolver) (snaps : List (ComputedSnapshot Val)) (n : ℕ)
      (db : Session (KpiTables Val))
      → let e = (write_snapshots f json i r snaps n db).0.1 in (e ≡ none) ⊎ (e ≡ some database)
  unfolding write_snapshots
  write_snapshots-database i r [] n db = inl refl
  write_snapshots-database i r (s ∷ snaps) n db =
      go (insert_snapshot f json i s calibration db).0 (insert_snapshot-database i s calibration db)
        (write_snapshots-database i r snaps (suc n) after)
    where
      id : ℕ
      id = matched_calibration_id r s

      calibration : Option ℕ
      calibration = if id == 0 then none else some id

      after : Session (KpiTables Val)
      after = (insert_snapshot f json i s calibration db).1

      go :
          (res : Result (Unit {0}))
          → (res ≡ ok tt) ⊎ (res ≡ err database)
          → (let e = (write_snapshots f json i r snaps (suc n) after).0.1 in
              (e ≡ none) ⊎ (e ≡ some database))
          → let out : (ℕ × Option Error) × Session (KpiTables Val) = elim res [
            | ok _ ↦ write_snapshots f json i r snaps (suc n) after
            | err e ↦ ((n, some e), after)
          ] in
            (out.0.1 ≡ none) ⊎ (out.0.1 ≡ some database)
      go (ok u) h k = k
      go (err e) h k = ground arith

  -- An indicator never ends with the error of the quality gate, whatever the marts and whichever
  -- statements the database refuses: it ends with no error, with the error of the database, or, for
  -- an unknown name, with an internal one.
  pub run_kpi-within_budget :
      (kpi : Text) (i : RunInput) (r : Resolver) (db : Session (KpiTables Val))
      → let e = (run_kpi f json kpi i r db).0.1 in
        (e ≡ none) ⊎ (e ≡ some database) ⊎ (e ≡ some internal)
  unfolding run_kpi
  run_kpi-within_budget kpi i r db =
      go (compute_kpi f json kpi i r db).0 (compute_kpi-Clean kpi i r db)
    where
      after : Session (KpiTables Val)
      after = (compute_kpi f json kpi i r db).1

      Ends : (ℕ × Option Error) × Session (KpiTables Val) → Type 0
      Ends out = (out.0.1 ≡ none) ⊎ (out.0.1 ≡ some database) ⊎ (out.0.1 ≡ some internal)

      go :
          (res : Result (List (ComputedSnapshot Val) × ℕ × ℕ))
          → Clean res
          → Ends (elim res [
            | err e ↦ ((0, some e), after)
            | ok (snaps, errs, total) ↦
                if over_budget f json errs total
                then ((0, some quality_threshold_exceeded), after)
                else write_snapshots f json i r snaps 0 after
          ])
      go (err e) c = ground arith
      go (ok (snaps, errs, total)) c =
          rw (c, within_budget total)
            (elim (write_snapshots-database i r snaps 0 after) [
              | inl e ↦ inl e
              | inr e ↦ inr (inl e)
            ])
