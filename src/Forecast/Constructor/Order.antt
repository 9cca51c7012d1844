-- ===== src/Forecast/Constructor/Order.antt =====
-- The order of the plans that `BuildPlans` returns: it is fixed by the keys, whatever the order in
-- which the runtime iterates over the map of groups.
use mathlib.Core.Path.{◌≡◌, refl, sym, subst}
use mathlib.Core.List.Permᴰ
use mathlib.Core.List.{Permᴰ}
use forecast_e_zoo.Common.{
  true, false, Option, none, some, List, [], ◌∷◌, inl, inr, arith, All, Bool-cases, Option-cases,
}
use forecast_e_zoo.Common.Text.{
  Text, text_lt, text_eq_iff, text_lt_irrefl, text_lt_trans, text_lt_total, text_lt-false_trans,
}
use forecast_e_zoo.Common.Time.{Time}
use forecast_e_zoo.Common.Float.{Float64}
use forecast_e_zoo.Common.Sorting.{Related, Related-perm, Comparable}
use forecast_e_zoo.Common.Sorting.Unique.{
  exchange_sort_unique, exchange_sort-Increasing, Increasing,
}
use forecast_e_zoo.Forecast.Models.{CalculationLine, ReplenishmentPlan}
use forecast_e_zoo.Forecast.Constructor.{
  SupplierConfig, Aggregator, same_key, less, with_plan, eligible_supplier, add_to_group,
  group_line, group_lines, plan_of, plans_of, build_plans,
}

text_lt_asym : (s t : Text) → text_lt s t ≡ true → text_lt t s ≡ false
text_lt_asym s t h = elim (Bool-cases (text_lt t s)) [
  | inl k ↦ cc (text_lt_trans s t s h k, text_lt_irrefl s)
  | inr k ↦ k
]

less_asym : {V : Type 0} (a b : ReplenishmentPlan V) → less a b ≡ true → less b a ≡ false
unfolding less
less_asym a b h = ground (
  arith,
  text_eq_iff a.supplier_id b.supplier_id,
  text_eq_iff b.supplier_id a.supplier_id,
  text_lt_asym a.supplier_id b.supplier_id,
  text_lt_asym a.location_id b.location_id,
)

less_nlt_trans :
    {V : Type 0} (a b c : ReplenishmentPlan V)
    → less a b ≡ false
    → less b c ≡ false
    → less a c ≡ false
unfolding less
less_nlt_trans a b c h k = ground (
  arith,
  text_eq_iff a.supplier_id b.supplier_id,
  text_eq_iff b.supplier_id c.supplier_id,
  text_eq_iff a.supplier_id c.supplier_id,
  text_lt_total a.supplier_id b.supplier_id,
  text_lt-false_trans a.supplier_id b.supplier_id c.supplier_id,
  text_lt-false_trans b.supplier_id a.supplier_id c.supplier_id,
  text_lt_asym a.supplier_id b.supplier_id,
  text_lt_asym b.supplier_id c.supplier_id,
  text_lt_asym a.supplier_id c.supplier_id,
  text_lt_total a.supplier_id c.supplier_id,
  text_lt-false_trans a.location_id b.location_id c.location_id,
)

-- Two groups with different keys.
abbrev pub Apart : {V : Type 0} → Aggregator V → Aggregator V → Type 0
Apart g h = same_key g.supplier g.location h.supplier h.location ≡ false

pub Apart-symm : {V : Type 0} (g h : Aggregator V) → Apart g h → Apart h g
Apart-symm g h a = ground (
  arith,
  text_eq_iff g.supplier h.supplier,
  text_eq_iff h.supplier g.supplier,
  text_eq_iff g.location h.location,
  text_eq_iff h.location g.location,
)

with_plan-perm :
    {V : Type 0} (o : Option (ReplenishmentPlan V)) {ps qs : List (ReplenishmentPlan V)}
    → Permᴰ ps qs
    → Permᴰ (with_plan o ps) (with_plan o qs)
with_plan-perm none d = d
with_plan-perm (some p) d = Permᴰ.cons refl d

with_plan-swap :
    {V : Type 0} (o o' : Option (ReplenishmentPlan V)) (ps : List (ReplenishmentPlan V))
    → Permᴰ (with_plan o (with_plan o' ps)) (with_plan o' (with_plan o ps))
with_plan-swap none o' ps = Permᴰ.refl (with_plan o' ps)
with_plan-swap (some p) none ps = Permᴰ.refl (p ∷ ps)
with_plan-swap (some p) (some q) ps = Permᴰ.swap refl refl

module _ (f : Float64) where
  open f use {Val}

  -- No group of the list has the key (s, l).
  abbrev Absent : Text → Text → List (Aggregator Val) → Type 0
  Absent s l = All (λ g. same_key s l g.supplier g.location ≡ false)

  add_to_group-Absent :
      (s' l' s l : Text) (qty : Val) (gs : List (Aggregator Val))
      → same_key s' l' s l ≡ false
      → Absent s' l' gs
      → Absent s' l' (add_to_group f s l qty gs)
  unfolding add_to_group
  add_to_group-Absent s' l' s l qty [] ne h = (ne, tt)
  add_to_group-Absent s' l' s l qty (g ∷ gs) ne h =
      elim (Bool-cases (same_key s l g.supplier g.location)) [
        | inl e ↦ rw e h
        | inr e ↦ rw e (h.0, add_to_group-Absent s' l' s l qty gs ne h.1)
      ]

  add_to_group-Apart :
      (s l : Text) (qty : Val) (gs : List (Aggregator Val))
      → Related Apart gs
      → Related Apart (add_to_group f s l qty gs)
  unfolding add_to_group
  add_to_group-Apart s l qty [] h = (tt, tt)
  add_to_group-Apart s l qty (g ∷ gs) h = elim (Bool-cases (same_key s l g.supplier g.location)) [
    | inl e ↦ rw e h
    | inr e ↦ rw e (
      add_to_group-Absent g.supplier g.location s l qty gs (swapped e) h.0,
      add_to_group-Apart s l qty gs h.1,
    )
  ]
    where
      swapped :
          same_key s l g.supplier g.location ≡ false → same_key g.supplier g.location s l ≡ false
      swapped e = ground (
        arith,
        text_eq_iff s g.supplier,
        text_eq_iff g.supplier s,
        text_eq_iff l g.location,
        text_eq_iff g.location l,
      )

  group_line-Apart :
      (ln : CalculationLine Val) (gs : List (Aggregator Val))
      → Related Apart gs
      → Related Apart (group_line f ln gs)
  unfolding group_line
  group_line-Apart ln gs h = elim (Option-cases (eligible_supplier f ln)) [
    | inl e ↦ subst (Related Apart) (sym (skip e)) h
    | inr (s, e) ↦
        subst (Related Apart) (sym (taken s e))
          (add_to_group-Apart s ln.location_id ln.reorder_qty gs h)
  ]
    where
      skip : eligible_supplier f ln ≡ none → group_line f ln gs ≡ gs
      skip e = rw (e, group_line)

      taken :
          (s : Text)
          → eligible_supplier f ln ≡ some s
          → group_line f ln gs ≡ add_to_group f s ln.location_id ln.reorder_qty gs
      taken s e = rw (e, group_line)

  -- A map has one group for each key.
  pub group_lines-Apart :
      (lines : List (CalculationLine Val)) (gs : List (Aggregator Val))
      → Related Apart gs
      → Related Apart (group_lines f lines gs)
  unfolding group_lines
  group_lines-Apart [] gs h = h
  group_lines-Apart (ln ∷ lns) gs h =
      group_lines-Apart lns (group_line f ln gs) (group_line-Apart ln gs h)

  plan_of-key :
      (sup : Text → Option (SupplierConfig Val)) (t : Time) (g : Aggregator Val)
      {p : ReplenishmentPlan Val}
      → plan_of f sup t g ≡ some p
      → (p.supplier_id ≡ g.supplier) × (p.location_id ≡ g.location)
  unfolding plan_of
  plan_of-key sup t g h = ground arith

  Comparable-of_Apart :
      (sup : Text → Option (SupplierConfig Val)) (t : Time) (g h : Aggregator Val)
      {p q : ReplenishmentPlan Val}
      → Apart g h
      → plan_of f sup t g ≡ some p
      → plan_of f sup t h ≡ some q
      → Comparable less p q
  unfolding less
  Comparable-of_Apart sup t g h {p} {q} a e k =
      let (es, el) = plan_of-key sup t g e in
      let (ks, kl) = plan_of-key sup t h k in
      ground (
        arith,
        text_eq_iff g.supplier h.supplier,
        text_eq_iff g.location h.location,
        text_eq_iff p.supplier_id q.supplier_id,
        text_eq_iff q.supplier_id p.supplier_id,
        text_lt_total p.supplier_id q.supplier_id,
        text_lt_total p.location_id q.location_id,
      )

  plans_of-above :
      (sup : Text → Option (SupplierConfig Val)) (t : Time) (g : Aggregator Val)
      {p : ReplenishmentPlan Val} (gs : List (Aggregator Val))
      → plan_of f sup t g ≡ some p
      → All (Apart g) gs
      → All (Comparable less p) (plans_of f sup t gs)
  unfolding plans_of
  plans_of-above sup t g [] e h = tt
  plans_of-above sup t g (x ∷ xs) e h = elim (Option-cases (plan_of f sup t x)) [
    | inl k ↦ rw (k, plans_of) (plans_of-above sup t g xs e h.1)
    | inr (q, k) ↦
        rw (k, plans_of) (Comparable-of_Apart sup t g x h.0 e k, plans_of-above sup t g xs e h.1)
  ]

  plans_of-Comparable :
      (sup : Text → Option (SupplierConfig Val)) (t : Time) (gs : List (Aggregator Val))
      → Related Apart gs
      → Related (Comparable less) (plans_of f sup t gs)
  unfolding plans_of
  plans_of-Comparable sup t [] h = tt
  plans_of-Comparable sup t (x ∷ xs) h = elim (Option-cases (plan_of f sup t x)) [
    | inl k ↦ rw (k, plans_of) (plans_of-Comparable sup t xs h.1)
    | inr (q, k) ↦
        rw (k, plans_of) (plans_of-above sup t x xs k h.0, plans_of-Comparable sup t xs h.1)
  ]

  plans_of-perm :
      (sup : Text → Option (SupplierConfig Val)) (t : Time) {gs hs : List (Aggregator Val)}
      → Permᴰ gs hs
      → Permᴰ (plans_of f sup t gs) (plans_of f sup t hs)
  unfolding plans_of
  plans_of-perm sup t Permᴰ.nil = Permᴰ.nil
  plans_of-perm sup t (Permᴰ.cons {a = a} {l₁ = l} {l₂ = l'} e d) =
      subst (λ x. Permᴰ (plans_of f sup t (a ∷ l)) (plans_of f sup t (x ∷ l'))) e
        (with_plan-perm (plan_of f sup t a) (plans_of-perm sup t d))
  plans_of-perm sup t (Permᴰ.swap {a = a} {b = b} {a' = a'} {l = l} e e') =
      subst (λ x. Permᴰ (plans_of f sup t (a ∷ b ∷ l)) (plans_of f sup t (a' ∷ x ∷ l))) e
        (subst (λ x. Permᴰ (plans_of f sup t (a ∷ b ∷ l)) (plans_of f sup t (x ∷ a ∷ l))) e'
          (with_plan-swap (plan_of f sup t a) (plan_of f sup t b) (plans_of f sup t l)))
  plans_of-perm sup t (Permᴰ.trans d d') =
      Permᴰ.trans (plans_of-perm sup t d) (plans_of-perm sup t d')

-- A legal order of iteration over a map: some rearrangement of its entries.
abbrev pub Visits : {A : Type 0} → (List A → List A) → Type 0
Visits {A} visit = (gs : List A) → Permᴰ gs (visit gs)

module _ (f : Float64) (lines : List (CalculationLine f.Val))
    (sup : Text → Option (SupplierConfig f.Val)) (t : Time) where
  visited-Comparable :
      (visit : List (Aggregator f.Val) → List (Aggregator f.Val))
      → Visits visit
      → Related (Comparable less) (plans_of f sup t (visit (group_lines f lines [])))
  visited-Comparable visit h =
      plans_of-Comparable f sup t (visit (group_lines f lines []))
        (Related-perm Apart-symm (h (group_lines f lines [])) (group_lines-Apart f lines [] tt))

  -- For every legal order of iteration over the map of groups the plans come out in strictly
  -- increasing order of (supplier, location): in particular there is at most one plan for a
  -- supplier and a location.
  pub build_plans-Increasing :
      (visit : List (Aggregator f.Val) → List (Aggregator f.Val))
      → Visits visit
      → Increasing less (build_plans f visit lines sup t)
  unfolding build_plans
  build_plans-Increasing visit h =
      exchange_sort-Increasing less less_nlt_trans less_asym
        (plans_of f sup t (visit (group_lines f lines []))) (visited-Comparable visit h)

  -- The plans do not depend on the order in which the runtime iterates over the map of groups: any
  -- two legal orders give the same list.
  pub build_plans-visit_irrelevant :
      (visit visit' : List (Aggregator f.Val) → List (Aggregator f.Val))
      → Visits visit
      → Visits visit'
      → build_plans f visit lines sup t ≡ build_plans f visit' lines sup t
  unfolding build_plans
  build_plans-visit_irrelevant visit visit' h h' =
      exchange_sort_unique less less_nlt_trans less_asym
        (plans_of f sup t (visit (group_lines f lines [])))
        (plans_of f sup t (visit' (group_lines f lines [])))
        (plans_of-perm f sup t
          (Permᴰ.trans (Permᴰ.symm (h (group_lines f lines []))) (h' (group_lines f lines []))))
        (visited-Comparable visit h)
