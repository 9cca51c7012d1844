-- ===== src/Kpi/Engine/Frame.antt =====
-- What a refresh leaves alone, and what it replaces, whichever statements the database refuses.
use mathlib.Core.Path.{◌≡◌, refl, ◌∙◌}
use forecast_e_zoo.Common.{
  All-snoc, ℕ, suc, ◌≤◌, Bool, true, false, not, Option, none, some, List, [], ◌∷◌, ◌++◌, inl, inr,
  ◌⊎◌, arith, if◌then◌else◌, ◌||◌, ◌==◌, leb, All, keep, Bool-cases, length,
}
use forecast_e_zoo.Common.Text.{Text}
use forecast_e_zoo.Common.Float.{Float64}
use forecast_e_zoo.Common.Session.{
  Error, database, quality_threshold_exceeded, Result, ok, err, Session, Result-cases,
}
use forecast_e_zoo.Kpi.Calibration.{KpiCalibration, Resolver, new_resolver}
use forecast_e_zoo.Kpi.Calculators.{ComputedSnapshot}
use forecast_e_zoo.Kpi.Engine.{
  KpiSnapshot, KpiTables, Decoders, RunInput, RunResult, date, selected, all_kpis,
  matched_calibration_id, over_budget, delete_snapshots_for_date, list_calibrations,
  insert_snapshot, compute_kpi, write_snapshots, run_kpi, run_kpis, run,
}

-- A row of another day.
abbrev pub other_day : {V : Type 0} → ℕ → KpiSnapshot V → Bool
other_day day s = not (s.as_of_date == day)

-- A row that the refresh does not replace, or one whose id was given out from `start` on.
abbrev pub fresh : {V : Type 0} → ℕ → List Text → ℕ → KpiSnapshot V → Bool
fresh day names start s = not (selected day names s) || leb start s.id

keep-append :
    {A : Type 0} (p : A → Bool) (xs : List A) (y : A)
    → p y ≡ false
    → keep p (xs ++ y ∷ []) ≡ keep p xs
keep-append p [] y h = rw h refl
keep-append p (x ∷ xs) y h = rw (keep-append p xs y h) refl

keep-keep :
    {A : Type 0} (p q : A → Bool)
    → ((x : A) → p x ≡ true → q x ≡ true)
    → (xs : List A) → keep p (keep q xs) ≡ keep p xs
keep-keep p q h [] = refl
keep-keep p q h (x ∷ xs) = ground (arith, h x, keep-keep p q h xs)

All-keep :
    {A : Type 0} (q p : A → Bool)
    → ((x : A) → q x ≡ true → p x ≡ true)
    → (xs : List A) → All (λ x. p x ≡ true) (keep q xs)
All-keep q p h [] = tt
All-keep q p h (x ∷ xs) = elim (Bool-cases (q x)) [
  | inl e ↦ rw e (h x e, All-keep q p h xs)
  | inr e ↦ rw e (All-keep q p h xs)
]

module _ (f : Float64) (json : Decoders f.Val) (i : RunInput) where
  open f use {Val}

  -- The rows of other days are `base`, and the rows to be replaced are fresh.
  abbrev pub Holds : ℕ → List (KpiSnapshot Val) → KpiTables Val → Type 0
  Holds start base t =
      (start ≤ t.next_id)
      × (keep (other_day (date i.as_of_date)) t.snapshots ≡ base)
      × All (λ s. fresh (date i.as_of_date) (all_kpis i.kpi_names) start s ≡ true) t.snapshots

  compute_kpi-same_tables :
      (kpi : Text) (r : Resolver) (db : Session (KpiTables Val))
      → (compute_kpi f json kpi i r db).1.tables ≡ db.tables
  unfolding compute_kpi
  compute_kpi-same_tables kpi r db = ground arith

  module _ {start : ℕ} {base : List (KpiSnapshot Val)} where
    insert_snapshot-Holds :
        (s : ComputedSnapshot Val) (calibration : Option ℕ) (db : Session (KpiTables Val))
        → Holds start base db.tables
        → Holds start base (insert_snapshot f json i s calibration db).1.tables
    unfolding insert_snapshot
    insert_snapshot-Holds s calibration db h = go db.faults
      where
        added : KpiSnapshot Val
        added = record {
          id = db.tables.next_id;
          as_of_date = date i.as_of_date;
          kpi_name = s.kpi_name;
          scope_type = s.scope_type;
          scope_id = s.scope_id;
          value = s.value;
          calibration_id = calibration;
          etl_run_id = i.etl_run_id;
        }

        inserted : Holds start base (record db.tables {
          snapshots = db.tables.snapshots ++ added ∷ [];
          next_id = suc db.tables.next_id;
        })
        inserted = (
          omega (arith, h.0),
          keep-append (other_day (date i.as_of_date)) db.tables.snapshots added (ground arith)
              ∙ h.1,
          All-snoc (λ s. fresh (date i.as_of_date) (all_kpis i.kpi_names) start s ≡ true)
              db.tables.snapshots h.2 (ground (arith, h.0)),
        )

        go :
            (faults : List Bool)
            → Holds start base
                (insert_snapshot f json i s calibration (record db { faults = faults })).1.tables
        go [] = inserted
        go (true ∷ fs) = h
        go (false ∷ fs) = inserted

    write_snapshots-Holds :
        (r : Resolver) (snaps : List (ComputedSnapshot Val)) (written : ℕ)
        (db : Session (KpiTables Val))
        → Holds start base db.tables
        → Holds start base (write_snapshots f json i r snaps written db).1.tables
    unfolding write_snapshots
    write_snapshots-Holds r [] written db h = h
    write_snapshots-Holds r (s ∷ snaps) written db h =
        go (insert_snapshot f json i s calibration db).0
          (write_snapshots-Holds r snaps (suc written) after after-Holds)
      where
        id : ℕ
        id = matched_calibration_id r s

        calibration : Option ℕ
        calibration = if id == 0 then none else some id

        after : Session (KpiTables Val)
        after = (insert_snapshot f json i s calibration db).1

        after-Holds : Holds start base after.tables
        after-Holds = insert_snapshot-Holds s calibration db h

        go :
            (res : Result (Unit {0}))
            → Holds start base (write_snapshots f json i r snaps (suc written) after).1.tables
            → let out : (ℕ × Option Error) × Session (KpiTables Val) = elim res [
              | ok _ ↦ write_snapshots f json i r snaps (suc written) after
              | err e ↦ ((written, some e), after)
            ] in
              Holds start base out.1.tables
        go (ok u) k = k
        go (err e) k = after-Holds

    run_kpi-Holds :
        (kpi : Text) (r : Resolver) (db : Session (KpiTables Val))
        → Holds start base db.tables
        → Holds start base (run_kpi f json kpi i r db).1.tables
    unfolding run_kpi
    run_kpi-Holds kpi r db h = go (compute_kpi f json kpi i r db).0
      where
        after : Session (KpiTables Val)
        after = (compute_kpi f json kpi i r db).1

        after-Holds : Holds start base after.tables
        after-Holds = rw (compute_kpi-same_tables kpi r db) h

        gate :
            (stop : Bool) (snaps : List (ComputedSnapshot Val))
            → let out : (ℕ × Option Error) × Session (KpiTables Val) =
                if stop
                then ((0, some quality_threshold_exceeded), after)
                else write_snapshots f json i r snaps 0 after in
              Holds start base out.1.tables
        gate true snaps = after-Holds
        gate false snaps = write_snapshots-Holds r snaps 0 after after-Holds

        go :
            (res : Result (List (ComputedSnapshot Val) × ℕ × ℕ))
            → let out : (ℕ × Option Error) × Session (KpiTables Val) = elim res [
              | err e ↦ ((0, some e), after)
              | ok (snaps, errs, total) ↦
                  if over_budget f json errs total
                  then ((0, some quality_threshold_exceeded), after)
                  else write_snapshots f json i r snaps 0 after
            ] in
              Holds start base out.1.tables
        go (err e) = after-Holds
        go (ok (snaps, errs, total)) = gate (over_budget f json errs total) snaps

    run_kpis-Holds :
        (kpis : List Text) (r : Resolver) (res : RunResult) (db : Session (KpiTables Val))
        → Holds start base db.tables
        → Holds start base (run_kpis f json kpis i r res db).1.tables
    unfolding run_kpis
    run_kpis-Holds [] r res db h = h
    run_kpis-Holds (kpi ∷ kpis) r res db h = run_kpis-Holds kpis r _ _ (run_kpi-Holds kpi r db h)

  other_kept :
      (s : KpiSnapshot Val)
      → other_day (date i.as_of_date) s ≡ true
      → not (selected (date i.as_of_date) (all_kpis i.kpi_names) s) ≡ true
  unfolding selected
  other_kept s h = go i.kpi_names
    where
      go : (ks : List Text) → not (selected (date i.as_of_date) (all_kpis ks) s) ≡ true
      go [] = ground arith
      go (k ∷ ks) = ground arith

  delete_snapshots_for_date-Holds :
      (db : Session (KpiTables Val))
      → let (res, db') = delete_snapshots_for_date f json i.as_of_date (all_kpis i.kpi_names) db in
        ((db'.tables ≡ db.tables) × (res ≡ err database))
        ⊎ Holds db.tables.next_id
            (keep (other_day (date i.as_of_date)) db.tables.snapshots)
            db'.tables
  unfolding delete_snapshots_for_date
  delete_snapshots_for_date-Holds db = go db.faults
    where
      deleted : (s : KpiSnapshot Val) → Bool
      deleted s = not (selected (date i.as_of_date) (all_kpis i.kpi_names) s)

      done :
          Holds db.tables.next_id
            (keep (other_day (date i.as_of_date)) db.tables.snapshots)
            (record db.tables {
              snapshots =
                  keep
                    (λ s. not (selected (date i.as_of_date) (all_kpis i.kpi_names) s))
                    db.tables.snapshots;
            })
      done = (
        omega arith,
        keep-keep (other_day (date i.as_of_date))
            (λ s. not (selected (date i.as_of_date) (all_kpis i.kpi_names) s)) other_kept
            db.tables.snapshots,
        All-keep (λ s. not (selected (date i.as_of_date) (all_kpis i.kpi_names) s))
            (fresh (date i.as_of_date) (all_kpis i.kpi_names) db.tables.next_id)
            (λ s h. ground arith) db.tables.snapshots,
      )

      go :
          (faults : List Bool)
          → let (res, db') =
              delete_snapshots_for_date f json i.as_of_date
                (all_kpis i.kpi_names)
                (record db { faults = faults }) in
            ((db'.tables ≡ db.tables) × (res ≡ err database))
            ⊎ Holds db.tables.next_id
                (keep (other_day (date i.as_of_date)) db.tables.snapshots)
                db'.tables
      go [] = inr done
      go (true ∷ fs) = inl (refl, refl)
      go (false ∷ fs) = inr done

  list_calibrations-same_tables :
      (db : Session (KpiTables Val)) → (list_calibrations f json db).1.tables ≡ db.tables
  unfolding list_calibrations
  list_calibrations-same_tables db = ground arith

  -- Whichever statements of a refresh the database refuses: either the refresh reports the database
  -- error and leaves every table as it was, or the rows of all other days are the ones that there
  -- were, in their order, and every row of the refreshed day and indicators is one that this refresh
  -- has inserted (its id was not yet given out).
  pub run-replaces :
      (db : Session (KpiTables Val))
      → let ((res, e), db') = run f json i db in
        ((db'.tables ≡ db.tables) × (e ≡ some database))
        ⊎ Holds db.tables.next_id
            (keep (other_day (date i.as_of_date)) db.tables.snapshots)
            db'.tables
  unfolding run
  run-replaces db = elim (delete_snapshots_for_date-Holds db) [
    | inl (same, e) ↦ inl (rw (e, run) (same, refl))
    | inr h ↦ inr (elim (Result-cases deleted.0) [
      | inr (e, k) ↦ rw (k, run) h
      | inl (u, k) ↦ elim (Result-cases listed.0) [
        | inr (e, k2) ↦ rw (k, k2, run) (rw (list_calibrations-same_tables deleted.1) h)
        | inl (all, k2) ↦
            let end =
              run_kpis-Holds (all_kpis i.kpi_names) (new_resolver all)
                (record { run_id = i.run_id; snapshot = []; errors = [] }) listed.1
                (rw (list_calibrations-same_tables deleted.1) h) in
            elim (Bool-cases (length (outcome all).0.errors == length (all_kpis i.kpi_names))) [
              | inl b ↦ rw (k, k2, b, run) end
              | inr b ↦ rw (k, k2, b, run) end
            ]
      ]
    ])
  ]
    where
      deleted : Result (Unit {0}) × Session (KpiTables Val)
      deleted = delete_snapshots_for_date f json i.as_of_date (all_kpis i.kpi_names) db

      listed : Result (List KpiCalibration) × Session (KpiTables Val)
      listed = list_calibrations f json deleted.1

      outcome : List KpiCalibration → RunResult × Session (KpiTables Val)
      outcome all =
          run_kpis f json (all_kpis i.kpi_names) i (new_resolver all)
            (record { run_id = i.run_id; snapshot = []; errors = [] }) listed.1
