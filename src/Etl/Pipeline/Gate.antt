-- ===== src/Etl/Pipeline/Gate.antt =====
-- What a run of the pipeline leaves: the marts are flipped as a whole behind the quality gate, or stay.
use forecast_e_zoo.Common.{
  ℕ, ◌≡◌, refl, sym, ap, ◌⊎◌, inl, inr, Bool, true, false, Bool-cases, List, [], ◌∷◌, ◌++◌,
}
use forecast_e_zoo.Common.Dict.{Dict}
use forecast_e_zoo.Common.Float.{Float64}
use forecast_e_zoo.Common.Session.{Error, Result, ok, err, Session, ◌>>=◌, pure, statement}
use forecast_e_zoo.Common.Session.Ends.{Ends}
use forecast_e_zoo.Etl.Validation.{Dataset}
use forecast_e_zoo.Etl.Engine.{Engine, run}
use forecast_e_zoo.Etl.Tables.{
  Reason, snapshot, bad_source_load_id, extract, quality_threshold, loader, EtlRun, EtlTables,
  EtlAction, RejectLogEntry, patch_runs, update_etl_run_status, insert_reject_entries,
  violations_to_reject_entries,
}
use forecast_e_zoo.Etl.Pipeline.{
  Builder, ApplyParams, Extracted, no_snapshot, bad_load_id, not_extracted, staged, Outcome,
  run_committed, run_failed, committed_patch, failed_patch, source_patch, best_effort, mark_failed,
  exceeds, max_lines, apply, after_apply, gate, run_async,
}
use forecast_e_zoo.Etl.Pipeline.Flip.{flipped, IsFlipped, apply-Ends}

module _ {M B : Type 0} (P : B → EtlTables M → Type 0) (Q : Error → EtlTables M → Type 0) where
  -- Whether the statement is served or not, the chain goes on.
  best_effort_then :
      (after : EtlTables M → EtlTables M) (k : Unit {0} → EtlAction M B) (s : Session (EtlTables M))
      → ((fs : List Bool) → Ends P Q (k tt (record { tables = after s.tables; faults = fs })))
      → ((fs : List Bool) → Ends P Q (k tt (record s { faults = fs })))
      → Ends P Q ((best_effort (statement (λ t. (ok tt, after t))) >>= k) s)
  unfolding statement
  best_effort_then after k s h j = go s.faults
    where
      go :
          (fs : List Bool)
          → Ends P Q
              ((best_effort (statement (λ t. (ok tt, after t))) >>= k) (record s { faults = fs }))
      go [] = h []
      go (true ∷ fs) = j fs
      go (false ∷ fs) = h fs

  -- The reject log is written in full, or not at all.
  insert_reject_entries_then :
      (es : List RejectLogEntry) (k : Unit {0} → EtlAction M B) (s : Session (EtlTables M))
      → ((log : List RejectLogEntry) (fs : List Bool)
          → Ends P Q
              (k tt (record { tables = record (s.tables) { reject_log = log }; faults = fs })))
      → Ends P Q ((best_effort (insert_reject_entries es) >>= k) s)
  unfolding insert_reject_entries
  insert_reject_entries_then [] k s h = h s.tables.reject_log s.faults
  insert_reject_entries_then (e ∷ es) k s h =
      best_effort_then (λ t. record t { reject_log = t.reject_log ++ e ∷ es }) k s
        (h (s.tables.reject_log ++ e ∷ es)) (h s.tables.reject_log)

module _ {M : Type 0} (id : ℕ) (t : EtlTables M) where
  -- The runs, with the load of the run recorded or not.
  abbrev pub Sourced : List EtlRun → Type 0
  Sourced rs = (rs ≡ t.runs) ⊎ ((load : ℕ) × (rs ≡ patch_runs id (source_patch load) t.runs))

  -- The marts as they were; the run is failed, for this reason, or as it was.
  abbrev pub HasFailed : Reason → EtlTables M → Type 0
  HasFailed reason t' =
      (t'.marts ≡ t.marts)
      × ((rs : List EtlRun) × Sourced rs
          × ((t'.runs ≡ rs) ⊎ (t'.runs ≡ patch_runs id (failed_patch reason) rs)))

  -- Every flip is one of the marts that there were, and recorded with the run.
  abbrev pub HasCommitted : (M → M) → ApplyParams M → EtlTables M → Type 0
  HasCommitted create_staging p t' =
      (summary : Dict ℕ) × (rs : List EtlRun) × Sourced rs
      × (flipped create_staging p t.marts ≡ ok (summary, t'.marts))
      × (t'.runs ≡ patch_runs id (committed_patch p summary) rs)

module _ {M : Type 0} (id : ℕ) (P : Outcome → EtlTables M → Type 0) where
  mark_failed-Ends :
      (reason : Reason) (s : Session (EtlTables M))
      → P (run_failed reason) s.tables
      → P
          (run_failed reason)
          (record (s.tables) { runs = patch_runs id (failed_patch reason) s.tables.runs })
      → Ends P (λ e t'. ⊥) (mark_failed id reason s)
  unfolding mark_failed update_etl_run_status
  mark_failed-Ends reason s h j =
      best_effort_then P (λ e t'. ⊥)
        (λ t. record t { runs = patch_runs id (failed_patch reason) t.runs })
        (λ _. pure (run_failed reason)) s (λ fs. j) (λ fs. h)

module _ (f : Float64) {M : Type 0} (threshold : f.Val) (create_staging : M → M)
    (builders : List (Builder M)) (e : Engine f.Val) (id : ℕ) where
  -- What Apply is called with, at the end of a run over this data.
  abbrev pub params_of : ℕ → Dataset f.Val → ℕ → (M → Result (Unit {0}) × M) → ApplyParams M
  params_of load ds lines populate = record {
    run_id = id;
    source_load_id = load;
    builders = builders;
    lines_total = max_lines (run e ds).lines_total lines;
    lines_failed = (run e ds).lines_failed;
    populate_staging = populate;
  }

  -- How a run may end.
  abbrev pub HasEnded : Extracted f.Val M → EtlTables M → Outcome → EtlTables M → Type 0
  HasEnded x t (run_failed reason) t' = HasFailed id t reason t'
  HasEnded (staged load ds lines populate) t run_committed t' =
      let p = params_of load ds lines populate in
      (exceeds f threshold p.lines_failed p.lines_total ≡ false)
      × HasCommitted id t create_staging p t'
  HasEnded no_snapshot t run_committed t' = ⊥
  HasEnded bad_load_id t run_committed t' = ⊥
  HasEnded (not_extracted load) t run_committed t' = ⊥

  failed_Ends :
      (x : Extracted f.Val M) (reason : Reason) (t : EtlTables M) (s : Session (EtlTables M))
      → s.tables.marts ≡ t.marts
      → Sourced id t s.tables.runs
      → Ends (HasEnded x t) (λ e t'. ⊥) (mark_failed id reason s)
  failed_Ends x reason t s same src =
      mark_failed-Ends id (HasEnded x t) reason s (same, (s.tables.runs, src, inl refl))
        (same, (s.tables.runs, src, inr refl))

  module _ (load : ℕ) (ds : Dataset f.Val) (lines : ℕ) (populate : M → Result (Unit {0}) × M)
      (t : EtlTables M) where
    abbrev params : ApplyParams M
    params = params_of load ds lines populate

    after_apply-Ends :
        (u : EtlTables M) (r : Result (Dict ℕ) × Session (EtlTables M))
        → u.marts ≡ t.marts
        → Sourced id t u.runs
        → exceeds f threshold params.lines_failed params.lines_total ≡ false
        → Ends (IsFlipped create_staging params u) (λ e t'. t' ≡ u) r
        → Ends (HasEnded (staged load ds lines populate) t) (λ e t'. ⊥) (after_apply id r.0 r.1)
    after_apply-Ends u (ok summary, s) same src passed h =
        let marts : s.tables.marts ≡ h.0 = ap (λ (x : EtlTables M). x.marts) h.2 in
        let runs : s.tables.runs ≡ patch_runs id (committed_patch params summary) u.runs =
          ap (λ (x : EtlTables M). x.runs) h.2 in
        (passed, (summary, u.runs, src, rw (marts, sym same) h.1, runs))
    after_apply-Ends u (err e, s) same src passed h =
        failed_Ends (staged load ds lines populate) loader t s (rw h same) (rw h src)

    gate-Ends :
        (s : Session (EtlTables M))
        → s.tables.marts ≡ t.marts
        → Sourced id t s.tables.runs
        → Ends
            (HasEnded (staged load ds lines populate) t)
            (λ e t'. ⊥)
            (gate f threshold create_staging builders id load populate params.lines_total
              params.lines_failed s)
    unfolding gate
    gate-Ends s same src =
        elim (Bool-cases (exceeds f threshold params.lines_failed params.lines_total)) [
          | inl over ↦
              rw over (failed_Ends (staged load ds lines populate) quality_threshold t s same src)
          | inr passed ↦ rw passed (
              after_apply-Ends s.tables (apply create_staging params s) same src passed
                (apply-Ends create_staging params s.tables s.faults))
        ]

    after_source : EtlAction M Outcome
    after_source =
        best_effort (insert_reject_entries (violations_to_reject_entries id (run e ds).violations))
        >>= λ _.
            gate f threshold create_staging builders id load populate params.lines_total
              params.lines_failed

    validated-Ends :
        (s : Session (EtlTables M))
        → s.tables.marts ≡ t.marts
        → Sourced id t s.tables.runs
        → Ends (HasEnded (staged load ds lines populate) t) (λ e t'. ⊥) (after_source s)
    unfolding after_source
    validated-Ends s same src =
        insert_reject_entries_then (HasEnded (staged load ds lines populate) t) (λ e t'. ⊥)
          (violations_to_reject_entries id (run e ds).violations)
          (λ _.
            gate f threshold create_staging builders id load populate params.lines_total
              params.lines_failed)
          s
          (λ log fs.
            gate-Ends (record { tables = record (s.tables) { reject_log = log }; faults = fs }) same
              src)

  -- Whatever the snapshot service answers, whichever statements the database refuses and whatever the
  -- builders do, a run of the pipeline ends, and reports no error. If it ends as committed, the data
  -- were extracted, the rate of failed lines is not above the threshold, the marts are those that all
  -- builders, one after the other, made of the marts before, and the run is committed with their
  -- summary and the numbers of lines. If it ends as failed, the marts are as they were, and the run is
  -- failed for the named reason, or still as it was but for its load.
  pub run_async-HasEnded :
      (x : Extracted f.Val M) (s : Session (EtlTables M))
      → Ends
          (HasEnded x s.tables)
          (λ e t'. ⊥)
          (run_async f threshold create_staging builders e id x s)
  unfolding run_async update_etl_run_status after_source
  run_async-HasEnded no_snapshot s = failed_Ends no_snapshot snapshot s.tables s refl (inl refl)
  run_async-HasEnded bad_load_id s =
      failed_Ends bad_load_id bad_source_load_id s.tables s refl (inl refl)
  run_async-HasEnded (not_extracted load) s =
      best_effort_then (HasEnded (not_extracted load) s.tables) (λ e t'. ⊥)
        (λ t. record t { runs = patch_runs id (source_patch load) t.runs })
        (λ _. mark_failed id extract) s
        (λ fs.
          failed_Ends (not_extracted load) extract s.tables
            (record {
              tables = record (s.tables) { runs = patch_runs id (source_patch load) s.tables.runs };
              faults = fs;
            })
            refl (inr (load, refl)))
        (λ fs.
          failed_Ends (not_extracted load) extract s.tables (record s { faults = fs }) refl
            (inl refl))
  run_async-HasEnded (staged load ds lines populate) s =
      best_effort_then (HasEnded (staged load ds lines populate) s.tables) (λ e t'. ⊥)
        (λ t. record t { runs = patch_runs id (source_patch load) t.runs })
        (λ _. after_source load ds lines populate s.tables) s
        (λ fs.
          validated-Ends load ds lines populate s.tables
            (record {
              tables = record (s.tables) { runs = patch_runs id (source_patch load) s.tables.runs };
              faults = fs;
            })
            refl (inr (load, refl)))
        (λ fs.
          validated-Ends load ds lines populate s.tables (record s { faults = fs }) refl (inl refl))
