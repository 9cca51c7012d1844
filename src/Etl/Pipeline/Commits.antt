-- ===== src/Etl/Pipeline/Commits.antt =====
-- When a run of the pipeline commits.
use forecast_e_zoo.Common.{ℕ, ◌==◌, ◌≡◌, ◌≢◌, refl, ap, inl, inr, false, List, [], ◌∷◌, ◌++◌, arith}
use forecast_e_zoo.Common.Text.{Text}
use forecast_e_zoo.Common.Dict.{Dict}
use forecast_e_zoo.Common.Float.{Float64}
use forecast_e_zoo.Common.Session.{
  Result, ok, err, Session, ◌>>=◌, ◌>>◌, pure, statement, Result-cases,
}
use forecast_e_zoo.Etl.Validation.{Value, Row, Dataset}
use forecast_e_zoo.Etl.Engine.{Engine, FileSchema, parse_schema, run, critical_count, soft_count}
use forecast_e_zoo.Etl.Engine.Loaded.{parse_schema-run}
use forecast_e_zoo.Etl.Tables.{
  EtlRun, EtlTables, EtlAction, RejectLogEntry, update_etl_run_status, round_trip,
  insert_reject_entries, violations_to_reject_entries, patch_runs,
}
use forecast_e_zoo.Etl.Pipeline.{
  uuid_nil, Builder, ApplyParams, staged, Outcome, run_committed, source_patch, committed_patch,
  add_summary, build_all, apply_body, apply_builders, apply_checked, apply, exceeds, gate,
  run_async,
}
use forecast_e_zoo.Etl.Pipeline.Flip.{built, flipped}
use forecast_e_zoo.Etl.Pipeline.Gate.{params_of}

-- A session in which every statement is served.
abbrev served : {M : Type 0} → EtlTables M → Session (EtlTables M)
served t = record { tables = t; faults = [] }

bind_served :
    {M A B : Type 0} (action : EtlAction M A) (k : A → EtlAction M B) {s s' : Session (EtlTables M)}
    {a : A}
    → action s ≡ (ok a, s')
    → (action >>= k) s ≡ k a s'
bind_served {M} {A} {B} action k e =
    ap
      (λ (r : Result A × Session (EtlTables M)).
        let out : Result B × Session (EtlTables M) = elim r.0 [
          | ok a ↦ k a r.1
          | err x ↦ (err x, r.1)
        ] in
        out)
      e

module _ {M : Type 0} where
  build_all-served :
      (run load : ℕ) (bs : List (Builder M)) (summary summary' : Dict ℕ) (t : EtlTables M) (m : M)
      → built run load bs summary t.marts ≡ ok (summary', m)
      → build_all run load bs summary (served t) ≡ (ok summary', served (record t { marts = m }))
  unfolding build_all built statement
  build_all-served run load [] summary summary' t m e = ground arith
  build_all-served run load (b ∷ bs) summary summary' t m e =
      elim (Result-cases (b.build run load t.marts).0) [
        | inl (rows, q) ↦ rw q (
            build_all-served run load bs (add_summary b.name rows summary) summary'
              (record t { marts = (b.build run load t.marts).1 }) m (rw (q, built) at e))
        | inr (x, q) ↦ absurd (ground arith)
      ]

  module _ (create_staging : M → M) (p : ApplyParams M) (summary : Dict ℕ) (m : M) where
    abbrev after_flip : EtlTables M → EtlTables M
    after_flip t = record t {
      marts = m;
      runs = patch_runs p.run_id (committed_patch p summary) t.runs;
    }

    abbrev end_apply : Dict ℕ → EtlAction M (Dict ℕ)
    end_apply summary =
        update_etl_run_status p.run_id (committed_patch p summary) >> (round_trip >> pure summary)

    apply_body-served :
        (t : EtlTables M)
        → flipped create_staging p t.marts ≡ ok (summary, m)
        → apply_body create_staging p (served t) ≡ (ok summary, served (after_flip t))
    unfolding apply_body flipped statement update_etl_run_status round_trip
    apply_body-served t e = elim (Result-cases (p.populate_staging (create_staging t.marts)).0) [
      | inl (u, q) ↦ rw q (
          bind_served (build_all p.run_id p.source_load_id p.builders []) end_apply (
            build_all-served p.run_id p.source_load_id p.builders [] summary
              (record t { marts = (p.populate_staging (create_staging t.marts)).1 }) m
              (rw (q, flipped) at e)))
      | inr (x, q) ↦ absurd (ground arith)
    ]

    apply_checked-served :
        (bs : List (Builder M)) (t : EtlTables M)
        → bs ≢ []
        → flipped create_staging p t.marts ≡ ok (summary, m)
        → apply_checked bs create_staging p (served t) ≡ (ok summary, served (after_flip t))
    unfolding apply_checked apply_builders statement round_trip
    apply_checked-served [] t n e = absurd (n refl)
    apply_checked-served (b ∷ bs) t n e = rw (apply_body-served t e) refl

insert_reject_entries-served :
    {M : Type 0} (es : List RejectLogEntry) (t : EtlTables M)
    → (log : List RejectLogEntry) × ((insert_reject_entries es (served t)).1
        ≡ served (record t { reject_log = log }))
unfolding insert_reject_entries statement
insert_reject_entries-served [] t = (t.reject_log, refl)
insert_reject_entries-served (e ∷ es) t = (t.reject_log ++ e ∷ es, refl)

module _ (f : Float64) {M : Type 0} (threshold : f.Val) (create_staging : M → M)
    (builders : List (Builder M)) (e : Engine f.Val) (id : ℕ) where
  -- The run is committed, with the marts and the summary that the builders make.
  abbrev pub IsCommitted :
      ApplyParams M → Dict ℕ → M → List EtlRun → Result Outcome × Session (EtlTables M) → Type 0
  IsCommitted p summary m runs out =
      (out.0 ≡ ok run_committed)
      × (out.1.tables.marts ≡ m)
      × (out.1.tables.runs ≡ patch_runs p.run_id (committed_patch p summary) runs)

  gate_commits :
      (p : ApplyParams M) (t : EtlTables M) (summary : Dict ℕ) (m : M)
      → p.builders ≢ []
      → (p.run_id == uuid_nil) ≡ false
      → (p.source_load_id == uuid_nil) ≡ false
      → flipped create_staging p t.marts ≡ ok (summary, m)
      → exceeds f threshold p.lines_failed p.lines_total ≡ false
      → IsCommitted p summary m t.runs (
          gate f threshold create_staging p.builders p.run_id p.source_load_id p.populate_staging
            p.lines_total p.lines_failed
            (served t))
  unfolding gate apply
  gate_commits p t summary m n i j k passed =
      rw (passed, i, j)
        (rw (apply_checked-served create_staging p summary m p.builders t n k) (refl, refl, refl))

  module _ (sprint : Value f.Val → Text) (print_row : Row f.Val → Text) (sc : FileSchema)
      (loaded : parse_schema f sprint print_row sc ≡ ok e) where
    -- Without critical violations the failed lines are the soft ones.
    all_soft :
        (ds : Dataset f.Val)
        → critical_count (run e ds) ≡ 0
        → (run e ds).lines_failed ≡ soft_count (run e ds)
    all_soft ds none_critical =
        omega (arith, (parse_schema-run f sprint print_row sc e ds loaded).1)

    -- With rules of an accepted configuration, a run of the pipeline over extracted data commits, if
    -- no violation is critical, the number of soft ones over the number of lines is not above the
    -- threshold, there are builders, none of them nor the staging fails, every statement is served,
    -- and the ids of the run and of the load are not nil. The marts are then those that the builders
    -- make of the staged data, and the run is recorded as committed with their summary.
    pub run_async_commits :
        (load : ℕ) (ds : Dataset f.Val) (lines : ℕ) (populate : M → Result (Unit {0}) × M)
        (t : EtlTables M) (summary : Dict ℕ) (m : M)
        → let p = params_of f threshold create_staging builders e id load ds lines populate in
          builders ≢ []
          → id ≢ uuid_nil
          → load ≢ uuid_nil
          → flipped create_staging p t.marts ≡ ok (summary, m)
          → critical_count (run e ds) ≡ 0
          → exceeds f threshold (soft_count (run e ds)) p.lines_total ≡ false
          → IsCommitted p summary m (patch_runs id (source_patch load) t.runs) (
              run_async f threshold create_staging builders e id
                (staged load ds lines populate)
                (record { tables = t; faults = [] }))
    unfolding run_async statement update_etl_run_status
    run_async_commits load ds lines populate t summary m n i j k none_critical passed =
        let p = params_of f threshold create_staging builders e id load ds lines populate in
        let sourced = record t { runs = patch_runs id (source_patch load) t.runs } in
        let logged =
          insert_reject_entries-served (violations_to_reject_entries id (run e ds).violations)
            sourced in
        rw logged.1 (
          gate_commits p (record sourced { reject_log = logged.0 }) summary m n (ground arith)
            (ground arith) k (rw (all_soft ds none_critical) passed))
