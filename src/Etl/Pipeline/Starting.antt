-- ===== src/Etl/Pipeline/Starting.antt =====
-- How a run of the pipeline starts.
use forecast_e_zoo.Common.{
  ℕ, suc, ◌≡◌, refl, ◌⊎◌, inl, inr, Bool, true, false, Bool-cases, Option, List, [], ◌∷◌, ◌++◌,
  arith, if◌then◌else◌,
}
use forecast_e_zoo.Common.Text.{Text}
use forecast_e_zoo.Common.Session.{
  Error, database, bad_request, etl_run_already_running, ◌>>=◌, ◌>>◌, pure,
}
use forecast_e_zoo.Common.Session.Ends.{Ends, statement_then-Ends}
use forecast_e_zoo.Etl.Tables.{
  EtlRun, EtlTables, insert_etl_run, round_trip, try_advisory_xact_lock,
}
use forecast_e_zoo.Etl.Pipeline.{new_etl_run, is_valid_trigger, start_locked, try_start}

module _ {M : Type 0} (trigger : Text) (requester : Option Text) (parent : Option ℕ)
    (t : EtlTables M) where
  abbrev pub fresh_run : EtlRun
  fresh_run = new_etl_run t.next_run trigger requester parent

  abbrev pub with_run : EtlTables M
  with_run = record t { runs = t.runs ++ fresh_run ∷ []; next_run = suc t.next_run }

  -- The run is added, running, and no run that is there has a say in it.
  abbrev pub HasStarted : EtlRun → EtlTables M → Type 0
  HasStarted r t' =
      (is_valid_trigger trigger ≡ true) × (t.lock_busy ≡ false) × (r ≡ fresh_run) × (t' ≡ with_run)

  -- The reason of the error; a failure of the commit leaves the run behind.
  abbrev pub HasNotStarted : Error → EtlTables M → Type 0
  HasNotStarted e t' =
      ((t' ≡ t)
        × ((e ≡ database)
            ⊎ ((e ≡ bad_request) × (is_valid_trigger trigger ≡ false))
            ⊎ ((e ≡ etl_run_already_running) × (t.lock_busy ≡ true))))
      ⊎ ((t' ≡ with_run) × (e ≡ database))

  start_locked-Ends :
      (locked : Bool) (fs : List Bool)
      → is_valid_trigger trigger ≡ true
      → (if t.lock_busy then false else true) ≡ locked
      → Ends HasStarted HasNotStarted
          (start_locked trigger requester parent locked (record { tables = t; faults = fs }))
  unfolding insert_etl_run round_trip
  start_locked-Ends false fs v l = inl (refl, inr (inr (refl, ground arith)))
  start_locked-Ends true fs v l =
      statement_then-Ends HasStarted HasNotStarted (λ t. tt)
        (λ t'. record t' { runs = t'.runs ++ fresh_run ∷ []; next_run = suc t'.next_run })
        (λ _. round_trip >> pure fresh_run) (record { tables = t; faults = fs })
        (λ fs1.
          statement_then-Ends HasStarted HasNotStarted (λ t. tt) (λ t. t) (λ _. pure fresh_run)
            (record { tables = with_run; faults = fs1 }) (λ fs2. (v, ground arith, refl, refl))
            (inr (refl, refl)))
        (inl (refl, inl refl))

  -- Whichever statements the database refuses, a start either adds a running run and returns it, and
  -- then the trigger is known and no other transaction held the lock; or it fails, with no table
  -- changed and for the reason that the error names, or with the running run left behind when only
  -- the commit failed.
  pub try_start-HasStarted :
      (fs : List Bool)
      → Ends HasStarted HasNotStarted
          (try_start trigger requester parent (record { tables = t; faults = fs }))
  unfolding try_start round_trip try_advisory_xact_lock
  try_start-HasStarted fs = elim (Bool-cases (is_valid_trigger trigger)) [
    | inl v ↦ rw v (
        statement_then-Ends HasStarted HasNotStarted (λ t. tt) (λ t. t)
          (λ _. try_advisory_xact_lock >>= start_locked trigger requester parent)
          (record { tables = t; faults = fs })
          (λ fs1.
            statement_then-Ends HasStarted HasNotStarted (λ t. if t.lock_busy then false else true)
              (λ t. t) (start_locked trigger requester parent) (record { tables = t; faults = fs1 })
              (λ fs2. start_locked-Ends (if t.lock_busy then false else true) fs2 v refl)
              (inl (refl, inl refl)))
          (inl (refl, inl refl)))
    | inr v ↦ rw v (inl (refl, inr (inl (refl, v))))
  ]
