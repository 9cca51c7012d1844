-- ===== src/Forecast/Constructor/Accounts.antt =====
-- What the plans of `BuildPlans` account for.
use mathlib.Core.Path.{◌≡◌, refl, sym, ◌∙◌, ap, subst}
use mathlib.Core.List.Permᴰ
use mathlib.Core.List.{Memᴰ}
use forecast_e_zoo.Common.{
  ◌<◌, true, Option, none, some, List, [], ◌∷◌, inl, inr, arith, Bool-cases, ◌⊎◌, ◌&&◌, length,
}
use forecast_e_zoo.Common.Text.{Text}
use forecast_e_zoo.Common.Time.{Time, truncate_day}
use forecast_e_zoo.Common.Float.{Float64}
use forecast_e_zoo.Common.Sorting.{Elem-perm, exchange_sort-perm}
use forecast_e_zoo.Forecast.Models.{CalculationLine, ReplenishmentPlan, draft}
use forecast_e_zoo.Forecast.Constructor.{
  SupplierConfig, Aggregator, less, with_plan, group_lines, config_of, rounded_total, draft_plan,
  plan_of, plans_of, build_plans,
}
use forecast_e_zoo.Forecast.Constructor.Order.{Visits}
use forecast_e_zoo.Forecast.Constructor.Groups.{
  ordered, total_from, group_of, group_lines-holds, group_lines-complete,
}

with_plan-elem :
    {V : Type 0} (o : Option (ReplenishmentPlan V)) {ps : List (ReplenishmentPlan V)}
    {p : ReplenishmentPlan V}
    → Memᴰ p (with_plan o ps)
    → (o ≡ some p) ⊎ Memᴰ p ps
with_plan-elem none m = inr m
with_plan-elem (some q) (Memᴰ.head e) = inl (ap some (sym e))
with_plan-elem (some q) (Memᴰ.tail m) = inr m

elem-with_plan :
    {V : Type 0} (o : Option (ReplenishmentPlan V)) {ps : List (ReplenishmentPlan V)}
    {p : ReplenishmentPlan V}
    → Memᴰ p ps
    → Memᴰ p (with_plan o ps)
elem-with_plan none m = m
elem-with_plan (some q) m = Memᴰ.tail m

module _ (f : Float64) (sup : Text → Option (SupplierConfig f.Val)) (t : Time) where
  open f use {Val, lit, lt}

  plans_of-elem :
      (gs : List (Aggregator Val)) {p : ReplenishmentPlan Val}
      → Memᴰ p (plans_of f sup t gs)
      → (g : Aggregator Val) × Memᴰ g gs × (plan_of f sup t g ≡ some p)
  unfolding plans_of
  plans_of-elem [] m = elim m [ ]
  plans_of-elem (x ∷ xs) {p} m = elim (with_plan-elem (plan_of f sup t x) m) [
    | inl e ↦ (x, Memᴰ.head refl, e)
    | inr n ↦ let (g, k, e) = plans_of-elem xs n in (g, Memᴰ.tail k, e)
  ]

  elem-plans_of :
      (gs : List (Aggregator Val)) {g : Aggregator Val} {p : ReplenishmentPlan Val}
      → Memᴰ g gs
      → plan_of f sup t g ≡ some p
      → Memᴰ p (plans_of f sup t gs)
  unfolding plans_of
  elem-plans_of [] m e = elim m [ ]
  elem-plans_of (x ∷ xs) {g} {p} (Memᴰ.head k) e =
      let made : plan_of f sup t x ≡ some p = ap (plan_of f sup t) (sym k) ∙ e in
      subst (λ o. Memᴰ p (with_plan o (plans_of f sup t xs))) (sym made) (Memᴰ.head refl)
  elem-plans_of (x ∷ xs) {g} {p} (Memᴰ.tail m) e =
      elem-with_plan (plan_of f sup t x) (elem-plans_of xs m e)

  -- The statement of the plan's contents, from the group that the plan was made of.
  plan_of-accounts :
      (lines : List (CalculationLine Val)) (g : Aggregator Val) {p : ReplenishmentPlan Val}
      → plan_of f sup t g ≡ some p
      → 0 < length (ordered f g.supplier g.location lines)
      → g ≡ group_of f g.supplier g.location (ordered f g.supplier g.location lines)
      → let qs = ordered f p.supplier_id p.location_id lines in
        (0 < length qs)
        × (p.lines_count ≡ length qs)
        × (p.total_qty
            ≡ rounded_total f (config_of f sup p.supplier_id) (total_from f (lit 0 0) qs))
        × (p.plan_date ≡ truncate_day t)
        × (p.status ≡ draft)
  unfolding plan_of
  plan_of-accounts lines g {p} e h k = ground arith

  plan_of_cases :
      (g : Aggregator Val)
      → let cfg = config_of f sup g.supplier in
        ((p : ReplenishmentPlan Val) × (plan_of f sup t g ≡ some p)
          × (p.supplier_id ≡ g.supplier)
          × (p.location_id ≡ g.location))
        ⊎ ((lt (lit 0 0) cfg.moq ≡ true) × (lt g.total_qty cfg.moq ≡ true))
  unfolding plan_of
  plan_of_cases g =
      let cfg = config_of f sup g.supplier in
      elim (Bool-cases (lt (lit 0 0) cfg.moq && lt g.total_qty cfg.moq)) [
        | inl e ↦ inr (ground arith)
        | inr e ↦ inl (draft_plan f sup t g, rw (e, plan_of), refl, refl)
      ]

module _ (f : Float64) (visit : List (Aggregator f.Val) → List (Aggregator f.Val))
    (lines : List (CalculationLine f.Val)) (sup : Text → Option (SupplierConfig f.Val)) (t : Time)
    (visits : Visits visit) where
  open f use {Val, lit, lt}

  -- Every plan stands for at least one orderable line, counts exactly the orderable lines of its
  -- supplier and location, and carries their sum, rounded up to the supplier's multiple; its date is
  -- the start of the day, and its status is draft.
  pub build_plans-accounts :
      {p : ReplenishmentPlan Val}
      → Memᴰ p (build_plans f visit lines sup t)
      → let qs = ordered f p.supplier_id p.location_id lines in
        (0 < length qs)
        × (p.lines_count ≡ length qs)
        × (p.total_qty
            ≡ rounded_total f (config_of f sup p.supplier_id) (total_from f (lit 0 0) qs))
        × (p.plan_date ≡ truncate_day t)
        × (p.status ≡ draft)
  unfolding build_plans
  build_plans-accounts {p} m =
      let ps = plans_of f sup t (visit (group_lines f lines [])) in
      let (g, k, e) =
        plans_of-elem f sup t (visit (group_lines f lines []))
          (Elem-perm (exchange_sort-perm less ps) m) in
      let (some_line, whole) =
        group_lines-holds f lines (Elem-perm (Permᴰ.symm (visits (group_lines f lines []))) k) in
      plan_of-accounts f sup t lines g e some_line whole

  -- The only orderable lines in no plan are those of a supplier and location whose sum is below a
  -- positive minimum order quantity.
  pub build_plans_complete :
      (s l : Text)
      → 0 < length (ordered f s l lines)
      → let cfg = config_of f sup s in
        let total = total_from f (lit 0 0) (ordered f s l lines) in
        ((p : ReplenishmentPlan Val) × Memᴰ p (build_plans f visit lines sup t)
          × (p.supplier_id ≡ s)
          × (p.location_id ≡ l))
        ⊎ ((lt (lit 0 0) cfg.moq ≡ true) × (lt total cfg.moq ≡ true))
  unfolding build_plans
  build_plans_complete s l h =
      let g = group_of f s l (ordered f s l lines) in
      let held = Elem-perm (visits (group_lines f lines [])) (group_lines-complete f s l lines h) in
      let ps = plans_of f sup t (visit (group_lines f lines [])) in
      elim (plan_of_cases f sup t g) [
        | inl (p, e, es, el) ↦ inl (
          p,
          Elem-perm (Permᴰ.symm (exchange_sort-perm less ps))
              (elem-plans_of f sup t (visit (group_lines f lines [])) held e),
          es,
          el,
        )
        | inr low ↦ inr low
      ]
