-- ===== src/Forecast/Plans.antt =====
-- internal/features/forecast/repository/plans.go: the approval of a draft plan.
use forecast_e_zoo.Common.{
  ℕ, ==_iff, ◌≡◌, ◌≢◌, refl, ◌⊎◌, inl, inr, Bool, true, false, Bool-cases, Option, none, some,
  Option-cases, List, [], ◌∷◌, All, if◌then◌else◌, arith,
}
use forecast_e_zoo.Common.Text.{Text}
use forecast_e_zoo.Common.Session.{
  Error, database, plan_not_found, plan_not_draft, Result, ok, err, ◌>>=◌, Result-cases, pure,
  statement,
}
use forecast_e_zoo.Common.Session.Ends.{Ends, statement_then-Ends, statement-Ends_any, bind-Ends}
use forecast_e_zoo.Forecast.Tables.{
  ForecastTables, ForecastAction, PlanRow, is_draft, approve, approved_row, approve_rows, find_plan,
  get_plan_by_id, update_plan_approve, approve_plan, existing_plan,
}

module _ {V : Type 0} where
  -- The primary key.
  abbrev pub Distinct : List (PlanRow V) → Type 0
  Distinct [] = Unit
  Distinct (r ∷ rs) = All (λ (q : PlanRow V). q.id ≢ r.id) rs × Distinct rs

  -- What finding and testing one plan says of its approval.
  abbrev pub decided : Text → Result (PlanRow V) → Option (PlanRow V)
  decided by (ok p) = if is_draft p.plan.status then some (approve by p) else none
  decided by (err e) = none

  approved_row_absent :
      (id : ℕ) (by : Text) (k : ℕ) (rs : List (PlanRow V))
      → All (λ (q : PlanRow V). q.id ≢ k) rs
      → k ≡ id
      → approved_row id by rs ≡ none
  unfolding approved_row
  approved_row_absent id by k [] h e = refl
  approved_row_absent id by k (r ∷ rs) h e = ground (arith, approved_row_absent id by k rs)

  approved_row-decided :
      (id : ℕ) (by : Text) (rs : List (PlanRow V))
      → Distinct rs
      → approved_row id by rs ≡ decided by (find_plan id rs)
  unfolding approved_row find_plan
  approved_row-decided id by [] h = refl
  approved_row-decided id by (r ∷ rs) h =
      ground
        (arith, ==_iff r.id id, approved_row_absent id by r.id rs, approved_row-decided id by rs)

  approve_rows_unchanged :
      (id : ℕ) (by : Text) (rs : List (PlanRow V))
      → approved_row id by rs ≡ none
      → approve_rows id by rs ≡ rs
  unfolding approved_row approve_rows
  approve_rows_unchanged id by [] h = refl
  approve_rows_unchanged id by (r ∷ rs) h = ground (arith, approve_rows_unchanged id by rs)

  find_plan-approve_rows :
      (id : ℕ) (by : Text) (rs : List (PlanRow V)) (r : PlanRow V)
      → Distinct rs
      → approved_row id by rs ≡ some r
      → find_plan id (approve_rows id by rs) ≡ ok r
  unfolding approved_row approve_rows find_plan
  find_plan-approve_rows id by [] r h e = cc
  find_plan-approve_rows id by (q ∷ rs) r h e =
      ground (
        arith,
        ==_iff q.id id,
        approved_row_absent id by q.id rs,
        find_plan-approve_rows id by rs r,
      )

  find_plan-approve_rows_other :
      (id j : ℕ) (by : Text) (rs : List (PlanRow V))
      → j ≢ id
      → find_plan j (approve_rows id by rs) ≡ find_plan j rs
  unfolding approve_rows find_plan
  find_plan-approve_rows_other id j by [] h = refl
  find_plan-approve_rows_other id j by (q ∷ rs) h =
      ground (arith, find_plan-approve_rows_other id j by rs)

  find_plan_error :
      (id : ℕ) (rs : List (PlanRow V)) (e : Error) → find_plan id rs ≡ err e → e ≡ plan_not_found
  unfolding find_plan
  find_plan_error id [] e h = ground arith
  find_plan_error id (r ∷ rs) e h = ground (arith, find_plan_error id rs e)

  -- The plan was a draft, is now approved by this person, and no other plan has changed.
  abbrev pub IsApproved : ForecastTables V → ℕ → Text → PlanRow V → ForecastTables V → Type 0
  IsApproved t id by r t' =
      (p : PlanRow V) × (find_plan id t.plans ≡ ok p)
      × (is_draft p.plan.status ≡ true)
      × (r ≡ approve by p)
      × (find_plan id t'.plans ≡ ok r)
      × ((j : ℕ) → j ≢ id → find_plan j t'.plans ≡ find_plan j t.plans)

  -- The reason that the error names.
  abbrev pub IsRefused : ForecastTables V → ℕ → Error → Type 0
  IsRefused t id e =
      (e ≡ database)
      ⊎ ((e ≡ plan_not_found) × (find_plan id t.plans ≡ err plan_not_found))
      ⊎ ((e ≡ plan_not_draft)
          × ((p : PlanRow V) × (find_plan id t.plans ≡ ok p) × (is_draft p.plan.status ≡ false)))

  abbrev after_update : ℕ → Text → Option (PlanRow V) → ForecastAction V (PlanRow V)
  after_update id by (some r) = pure r
  after_update id by none = get_plan_by_id id >>= existing_plan

  module _ (id : ℕ) (by : Text) (t : ForecastTables V) (distinct : Distinct t.plans) where
    approved_row-some :
        (r : PlanRow V)
        → approved_row id by t.plans ≡ some r
        → IsApproved t id by r (record t { plans = approve_rows id by t.plans })
    approved_row-some r e = elim (Result-cases (find_plan id t.plans)) [
      | inr (x, q) ↦ absurd (ground (arith, approved_row-decided id by t.plans))
      | inl (p, q) ↦ (
        p,
        q,
        ground (arith, approved_row-decided id by t.plans),
        ground (arith, approved_row-decided id by t.plans),
        find_plan-approve_rows id by t.plans r distinct e,
        λ j n. find_plan-approve_rows_other id j by t.plans n,
      )
    ]

    not_updated :
        approved_row id by t.plans ≡ none
        → (fs : List Bool)
        → Ends
            (IsApproved t id by)
            (λ e t'. (t' ≡ t) × IsRefused t id e)
            ((get_plan_by_id id >>= existing_plan) (record { tables = t; faults = fs }))
    unfolding get_plan_by_id statement
    not_updated none_there fs =
        bind-Ends (IsApproved t id by) Q (get_plan_by_id id) existing_plan
          (record { tables = t; faults = fs })
          (statement-Ends_any
            (λ r t'.
              (fs : List Bool)
              → Ends (IsApproved t id by) Q (existing_plan r (record { tables = t'; faults = fs })))
            Q (λ t'. (find_plan id t'.plans, t')) (record { tables = t; faults = fs })
            (λ fs. found fs (find_plan id t.plans) refl) (refl, inl refl))
      where
        Q : Error → ForecastTables V → Type 0
        Q e t' = (t' ≡ t) × IsRefused t id e

        found :
            (fs : List Bool) (x : Result (PlanRow V))
            → find_plan id t.plans ≡ x
            → Ends
                (λ r t'.
                  (fs : List Bool)
                  → Ends
                      (IsApproved t id by)
                      Q
                      (existing_plan r (record { tables = t'; faults = fs })))
                Q
                (x, record { tables = t; faults = fs })
        found fs (err e) q =
            (refl, inr (inl (find_plan_error id t.plans e q, cc (find_plan_error id t.plans e q))))
        found fs (ok p) q = λ fs1. elim (Bool-cases (is_draft p.plan.status)) [
          | inl d ↦ absurd (ground (arith, approved_row-decided id by t.plans))
          | inr d ↦ rw d (refl, inr (inr (refl, (p, q, d))))
        ]

    -- Where plans have distinct ids and no other session comes between its statements, whichever of
    -- them the database refuses, an approval either succeeds, and then the plan was there as a draft,
    -- is returned and now found as approved by this person, and every other plan is found as before;
    -- or it fails with no table changed, for the reason that the error names: the database, no such
    -- plan, or a plan that is no draft.
    pub approve_plan-IsApproved :
        (fs : List Bool)
        → Ends
            (IsApproved t id by)
            (λ e t'. (t' ≡ t) × IsRefused t id e)
            (approve_plan (λ t. t) id by (record { tables = t; faults = fs }))
    unfolding approve_plan update_plan_approve
    approve_plan-IsApproved fs =
        statement_then-Ends (IsApproved t id by) (λ e t'. (t' ≡ t) × IsRefused t id e)
          (λ t. approved_row id by t.plans) (λ t. record t { plans = approve_rows id by t.plans })
          (after_update id by) (record { tables = t; faults = fs })
          (elim (Option-cases (approved_row id by t.plans)) [
            | inl e ↦ λ fs1. rw (e, approve_rows_unchanged id by t.plans e) (not_updated e fs1)
            | inr (r, e) ↦ λ fs1. rw e (approved_row-some r e)
          ])
          (refl, inl refl)
