-- ===== src/Etl/Pipeline/Flip.antt =====
-- The transaction that flips the marts: all builders and the status, or nothing.
use forecast_e_zoo.Common.{◌==◌, Bool-cases, ℕ, ◌≡◌, refl, inl, inr, Bool, List, [], ◌∷◌}
use forecast_e_zoo.Common.Dict.{Dict}
use forecast_e_zoo.Common.Session.{
  Error, database, Result, ok, err, Session, ◌>>=◌, ◌>>◌, pure, Result-cases,
}
use forecast_e_zoo.Common.Session.Ends.{Ends, statement_then-Ends, statement-Ends_any, bind-Ends}
use forecast_e_zoo.Etl.Tables.{EtlTables, EtlAction, patch_runs, update_etl_run_status, round_trip}
use forecast_e_zoo.Etl.Pipeline.{
  Builder, ApplyParams, add_summary, build_all, on_marts, committed_patch, apply_body,
  undo_on_error, apply_builders, apply_checked, apply, uuid_nil,
}

-- The marts that the builders make, one after the other, where none of them fails.
unfoldable pub built : {M : Type 0} → ℕ → ℕ → List (Builder M) → Dict ℕ → M → Result (Dict ℕ × M)
built run load [] summary m = ok (summary, m)
built run load (b ∷ bs) summary m = elim (b.build run load m).0 [
  | ok rows ↦ built run load bs (add_summary b.name rows summary) (b.build run load m).1
  | err e ↦ err e
]

module _ {M : Type 0} (P : Dict ℕ → EtlTables M → Type 0) (Q : Error → EtlTables M → Type 0)
    (bad : (e : Error) (t : EtlTables M) → Q e t) (run load : ℕ) where
  build_all-Ends :
      (bs : List (Builder M)) (summary : Dict ℕ) (s : Session (EtlTables M))
      → ((summary' : Dict ℕ) (m : M)
          → built run load bs summary s.tables.marts ≡ ok (summary', m)
          → P summary' (record (s.tables) { marts = m }))
      → Ends P Q (build_all run load bs summary s)
  unfolding build_all built
  build_all-Ends [] summary s good = good summary s.tables.marts refl
  build_all-Ends (b ∷ bs) summary s good =
      bind-Ends P Q (on_marts (b.build run load))
        (λ rows. build_all run load bs (add_summary b.name rows summary)) s
        (statement-Ends_any
          (λ rows t.
            (fs : List Bool)
            → Ends P Q (
                build_all run load bs (add_summary b.name rows summary)
                  (record { tables = t; faults = fs })))
          Q (λ t. ((b.build run load t.marts).0, record t { marts = (b.build run load t.marts).1 }))
          s
          (λ fs. elim (Result-cases (b.build run load s.tables.marts).0) [
            | inl (rows, e) ↦ rw e λ fs1.
                build_all-Ends bs (add_summary b.name rows summary)
                  (record {
                    tables = record (s.tables) { marts = (b.build run load s.tables.marts).1 };
                    faults = fs1;
                  })
                  (λ sm m q. good sm m (rw (e, built) q))
            | inr (x, e) ↦ rw e (bad x _)
          ])
          (bad database s.tables))

-- The marts that Apply makes of those that there are, with the summary.
unfoldable pub flipped : {M : Type 0} → (M → M) → ApplyParams M → M → Result (Dict ℕ × M)
flipped create_staging p m = elim (p.populate_staging (create_staging m)).0 [
  | ok _ ↦ built p.run_id p.source_load_id p.builders [] (p.populate_staging (create_staging m)).1
  | err e ↦ err e
]

module _ {M : Type 0} (create_staging : M → M) (p : ApplyParams M) (t : EtlTables M) where
  abbrev pub IsFlipped : Dict ℕ → EtlTables M → Type 0
  IsFlipped summary t' =
      (m : M) × (flipped create_staging p t.marts ≡ ok (summary, m))
      × (t' ≡ record t { marts = m; runs = patch_runs p.run_id (committed_patch p summary) t.runs })

  abbrev end_apply : Dict ℕ → EtlAction M (Dict ℕ)
  end_apply summary =
      update_etl_run_status p.run_id (committed_patch p summary) >> (round_trip >> pure summary)

  abbrev build_and_end : Unit {0} → EtlAction M (Dict ℕ)
  build_and_end _ = build_all p.run_id p.source_load_id p.builders [] >>= end_apply

  -- Nothing is said of an error, since it is undone.
  abbrev Any : Error → EtlTables M → Type 0
  Any e t' = Unit

  end_apply-Ends :
      (summary : Dict ℕ) (m : M) (fs : List Bool)
      → flipped create_staging p t.marts ≡ ok (summary, m)
      → Ends IsFlipped Any
          (end_apply summary (record { tables = record t { marts = m }; faults = fs }))
  unfolding update_etl_run_status round_trip
  end_apply-Ends summary m fs e =
      statement_then-Ends IsFlipped Any (λ t. tt)
        (λ t. record t { runs = patch_runs p.run_id (committed_patch p summary) t.runs })
        (λ _. round_trip >> pure summary) (record { tables = record t { marts = m }; faults = fs })
        (λ fs1.
          statement_then-Ends IsFlipped Any (λ t. tt) (λ t. t) (λ _. pure summary)
            (record {
              tables = record t {
                marts = m;
                runs = patch_runs p.run_id (committed_patch p summary) t.runs;
              };
              faults = fs1;
            })
            (λ fs2. (m, e, refl)) tt)
        tt

  build_and_end-Ends :
      (m : M) (fs : List Bool)
      → ((summary : Dict ℕ) (m' : M)
          → built p.run_id p.source_load_id p.builders [] m ≡ ok (summary, m')
          → flipped create_staging p t.marts ≡ ok (summary, m'))
      → Ends IsFlipped Any
          (build_and_end tt (record { tables = record t { marts = m }; faults = fs }))
  build_and_end-Ends m fs e =
      let s : Session (EtlTables M) = record { tables = record t { marts = m }; faults = fs } in
      bind-Ends IsFlipped Any (build_all p.run_id p.source_load_id p.builders []) end_apply s (
        build_all-Ends
          (λ summary t'.
            (fs : List Bool)
            → Ends IsFlipped Any (end_apply summary (record { tables = t'; faults = fs })))
          Any (λ e t. tt) p.run_id p.source_load_id p.builders [] s
          (λ summary m' q fs1. end_apply-Ends summary m' fs1 (e summary m' q)))

  apply_body-Ends :
      (fs : List Bool)
      → Ends IsFlipped Any (apply_body create_staging p (record { tables = t; faults = fs }))
  unfolding apply_body flipped
  apply_body-Ends fs =
      statement_then-Ends IsFlipped Any (λ t. tt) (λ t. record t { marts = create_staging t.marts })
        (λ _. on_marts p.populate_staging >>= build_and_end) (record { tables = t; faults = fs })
        (λ fs1.
          bind-Ends IsFlipped Any (on_marts p.populate_staging) build_and_end
            (record { tables = record t { marts = create_staging t.marts }; faults = fs1 })
            (statement-Ends_any
              (λ u t'.
                (fs : List Bool)
                → Ends IsFlipped Any (build_and_end u (record { tables = t'; faults = fs })))
              Any
              (λ t'. (
                (p.populate_staging t'.marts).0,
                record t' { marts = (p.populate_staging t'.marts).1 },
              ))
              (record { tables = record t { marts = create_staging t.marts }; faults = fs1 })
              (λ fs2. elim (Result-cases (p.populate_staging (create_staging t.marts)).0) [
                | inl (u, e) ↦ rw e λ fs3.
                    build_and_end-Ends (p.populate_staging (create_staging t.marts)).1 fs3
                      (λ summary m q. rw (e, flipped) q)
                | inr (x, e) ↦ rw e tt
              ])
              tt))
        tt

  undo-Ends :
      (r : Result (Dict ℕ) × Session (EtlTables M))
      → Ends IsFlipped Any r
      → Ends IsFlipped (λ e t'. t' ≡ t) (undo_on_error t r)
  undo-Ends (ok a, s) h = h
  undo-Ends (err e, s) h = refl

  apply_checked-Ends :
      (bs : List (Builder M)) (fs : List Bool)
      → Ends IsFlipped
          (λ e t'. t' ≡ t)
          (apply_checked bs create_staging p (record { tables = t; faults = fs }))
  unfolding apply_checked apply_builders round_trip
  apply_checked-Ends [] fs = refl
  apply_checked-Ends (b ∷ bs) fs =
      statement_then-Ends IsFlipped (λ e t'. t' ≡ t) (λ t. tt) (λ t. t)
        (λ _ s. undo_on_error s.tables (apply_body create_staging p s))
        (record { tables = t; faults = fs })
        (λ fs1.
          undo-Ends (apply_body create_staging p (record { tables = t; faults = fs1 }))
            (apply_body-Ends fs1))
        refl

  pub apply-Ends :
      (fs : List Bool)
      → Ends IsFlipped
          (λ e t'. t' ≡ t)
          (apply create_staging p (record { tables = t; faults = fs }))
  unfolding apply
  apply-Ends fs = elim (Bool-cases (p.run_id == uuid_nil)) [
    | inl a ↦ rw a refl
    | inr a ↦ elim (Bool-cases (p.source_load_id == uuid_nil)) [
      | inl b ↦ rw (a, b) refl
      | inr b ↦ rw (a, b) (apply_checked-Ends p.builders fs)
    ]
  ]
