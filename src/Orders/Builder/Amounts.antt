-- ===== src/Orders/Builder/Amounts.antt =====
-- The totals of a built order against its lines, and what holds of each line.
use mathlib.Core.Path.{◌≡◌, refl, sym, ◌∙◌, ap}
use mathlib.Core.List.{append-nil, append_assoc, map-append}
use forecast_e_zoo.Common.{
  All-snoc, Bool, true, false, not, Option, none, some, List, [], ◌∷◌, ◌++◌, ◌&&◌, ◌||◌, ◌⊎◌, inl,
  inr, arith, if◌then◌else◌, All, Bool-cases, Option-cases, map, keep,
}
use forecast_e_zoo.Common.Text.{Text}
use forecast_e_zoo.Common.Time.{Time}
use forecast_e_zoo.Common.Float.{Float64}
use forecast_e_zoo.Common.Dict.{Dict}
use forecast_e_zoo.Orders.Models.{PlanLine, ProductMaster, BulkLine, source_missing}
use forecast_e_zoo.Orders.Builder.{
  Inputs, Totals, no_totals, pick_price, add_line, add_lines, build,
}

module _ (f : Float64) where
  open f use {Val, lit, add, mul, le}

  -- The quantities added up in the order of the lines.
  abbrev pub quantity_from : Val → List (BulkLine Val) → Val
  quantity_from acc [] = acc
  quantity_from acc (l ∷ ls) = quantity_from (add acc l.qty) ls

  abbrev pub with_amount : Val → Option Val → Val
  with_amount acc none = acc
  with_amount acc (some a) = add acc a

  -- The amounts that are there, added up in the order of the lines.
  abbrev pub amount_from : Val → List (BulkLine Val) → Val
  amount_from acc [] = acc
  amount_from acc (l ∷ ls) = amount_from (with_amount acc l.line_amount) ls

  abbrev pub priced : BulkLine Val → Bool
  priced l = elim l.line_amount [ none ↦ false | some _ ↦ true ]

  abbrev pub any_priced : List (BulkLine Val) → Bool
  any_priced [] = false
  any_priced (l ∷ ls) = priced l || any_priced ls

  abbrev pub any_unpriced : List (BulkLine Val) → Bool
  any_unpriced [] = false
  any_unpriced (l ∷ ls) = not (priced l) || any_unpriced ls

  -- A positive quantity, with the amount that its price makes.
  abbrev pub IsPricedLine : BulkLine Val → Type 0
  IsPricedLine l =
      (le l.qty (lit 0 0) ≡ false)
      × ((l.unit_price ≡ none) × (l.line_amount ≡ none) × (l.pricing_source ≡ source_missing)
          ⊎ (p : Val) × (l.unit_price ≡ some p) × (l.line_amount ≡ some (mul p l.qty)))

  -- The variables of the loop say what they should of the lines so far.
  abbrev Kept : Totals f → Type 0
  Kept t =
      (t.total_qty ≡ quantity_from (lit 0 0) t.bulk)
      × (t.sum_amount ≡ amount_from (lit 0 0) t.bulk)
      × (t.any_missing_price ≡ any_unpriced t.bulk)
      × (t.has_any_amount ≡ any_priced t.bulk)
      × All IsPricedLine t.bulk

  quantity_from-snoc :
      (acc : Val) (ls : List (BulkLine Val)) (l : BulkLine Val)
      → quantity_from acc (ls ++ l ∷ []) ≡ add (quantity_from acc ls) l.qty
  quantity_from-snoc acc [] l = refl
  quantity_from-snoc acc (x ∷ xs) l = quantity_from-snoc (add acc x.qty) xs l

  amount_from-snoc :
      (acc : Val) (ls : List (BulkLine Val)) (l : BulkLine Val)
      → amount_from acc (ls ++ l ∷ []) ≡ with_amount (amount_from acc ls) l.line_amount
  amount_from-snoc acc [] l = refl
  amount_from-snoc acc (x ∷ xs) l = amount_from-snoc (with_amount acc x.line_amount) xs l

  any_priced-snoc :
      (ls : List (BulkLine Val)) (l : BulkLine Val)
      → any_priced (ls ++ l ∷ []) ≡ any_priced ls || priced l
  any_priced-snoc [] l = ground arith
  any_priced-snoc (x ∷ xs) l = ground (arith, any_priced-snoc xs l)

  any_unpriced-snoc :
      (ls : List (BulkLine Val)) (l : BulkLine Val)
      → any_unpriced (ls ++ l ∷ []) ≡ any_unpriced ls || not (priced l)
  any_unpriced-snoc [] l = ground arith
  any_unpriced-snoc (x ∷ xs) l = ground (arith, any_unpriced-snoc xs l)

  -- A line without a price has the source of missing prices.
  pick_price-missing :
      (id : Text) (products : Dict (ProductMaster Val)) (default : Option Val)
      → (pick_price f id products default).0 ≡ none
      → (pick_price f id products default).1 ≡ source_missing
  unfolding pick_price
  pick_price-missing id products default h = ground arith

  -- One more line keeps it.
  append-Kept :
      (t : Totals f) (l : BulkLine Val)
      → IsPricedLine l
      → Kept t
      → Kept (record {
        bulk = t.bulk ++ l ∷ [];
        total_qty = add t.total_qty l.qty;
        sum_amount = with_amount t.sum_amount l.line_amount;
        any_missing_price = t.any_missing_price || not (priced l);
        has_any_amount = t.has_any_amount || priced l;
      })
  append-Kept t l h (q, a, m, s, lines) = (
    rw (quantity_from-snoc (lit 0 0) t.bulk l) (ap (λ x. add x l.qty) q),
    rw (amount_from-snoc (lit 0 0) t.bulk l) (ap (λ x. with_amount x l.line_amount) a),
    rw (any_unpriced-snoc t.bulk l) (ap (λ x. x || not (priced l)) m),
    rw (any_priced-snoc t.bulk l) (ap (λ x. x || priced l) s),
    All-snoc IsPricedLine t.bulk lines h,
  )

  true-or : (b : Bool) → b || true ≡ true
  true-or b = ground arith

  false-or : (b : Bool) → b || false ≡ b
  false-or b = ground arith

  add_line-Kept :
      (products : Dict (ProductMaster Val)) (default : Option Val) (l : PlanLine Val) (t : Totals f)
      → le l.reorder_qty (lit 0 0) ≡ false
      → Kept t
      → Kept (add_line f products default l t)
  unfolding add_line
  add_line-Kept products default l t h k =
      elim (Option-cases (pick_price f l.product_id products default).0) [
        | inl e ↦
            rw (e, add_line)
              (simp (true-or, false-or) at
                (append-Kept t (line none)
                  (h, inl (e, refl, pick_price-missing l.product_id products default e)) k))
        | inr (p, e) ↦
            rw (e, add_line)
              (simp (true-or, false-or) at
                (append-Kept t (line (some (mul p l.reorder_qty))) (h, inr (p, e, refl)) k))
      ]
    where
      line : Option Val → BulkLine Val
      line amount = record {
        product_id = l.product_id;
        qty = l.reorder_qty;
        unit_price = (pick_price f l.product_id products default).0;
        line_amount = amount;
        pricing_source = (pick_price f l.product_id products default).1;
      }

  add_lines-Kept :
      (products : Dict (ProductMaster Val)) (default : Option Val) (ls : List (PlanLine Val))
      (t : Totals f)
      → Kept t
      → Kept (add_lines f products default ls t)
  unfolding add_lines
  add_lines-Kept products default [] t k = k
  add_lines-Kept products default (l ∷ ls) t k = elim (Bool-cases (le l.reorder_qty (lit 0 0))) [
    | inl e ↦ rw (e, add_lines) (add_lines-Kept products default ls t k)
    | inr e ↦
        rw (e, add_lines)
          (add_lines-Kept products default ls (add_line f products default l t)
            (add_line-Kept products default l t e k))
  ]

  -- Every line of a built order has a positive quantity, and either a price with the amount that it
  -- makes or neither, with the source marked as missing. The total quantity is the sum of the lines'
  -- quantities; the total amount is the sum of the lines' amounts if there are lines and all have a
  -- price, and is absent otherwise.
  pub build-amounts :
      (quoted : Text → Text) (now : Time) (i : Inputs f)
      → let out = build f quoted now i in
        All IsPricedLine out.lines
        × (out.order.total_qty ≡ quantity_from (lit 0 0) out.lines)
        × (out.order.total_amount ≡ (
            if any_priced out.lines && not (any_unpriced out.lines)
            then some (amount_from (lit 0 0) out.lines)
            else none))
  unfolding build
  build-amounts quoted now i =
      let (q, a, m, s, lines) =
        add_lines-Kept i.products i.supplier.default_unit_price i.lines (no_totals f)
          (refl, refl, refl, refl, tt) in
      (lines, q, ground (arith, q, a, m, s))

  -- The product and the quantity of each line.
  abbrev pub of_line : BulkLine Val → Text × Val
  of_line l = (l.product_id, l.qty)

  abbrev pub of_plan_line : PlanLine Val → Text × Val
  of_plan_line l = (l.product_id, l.reorder_qty)

  add_line-appends :
      (products : Dict (ProductMaster Val)) (default : Option Val) (l : PlanLine Val) (t : Totals f)
      → map of_line (add_line f products default l t).bulk
        ≡ map of_line t.bulk ++ of_plan_line l ∷ []
  unfolding add_line
  add_line-appends products default l t =
      elim (Option-cases (pick_price f l.product_id products default).0) [
        | inl e ↦ rw (e, add_line) (map-append of_line t.bulk _)
        | inr (p, e) ↦ rw (e, add_line) (map-append of_line t.bulk _)
      ]

  add_lines-appends :
      (products : Dict (ProductMaster Val)) (default : Option Val) (ls : List (PlanLine Val))
      (t : Totals f)
      → map of_line (add_lines f products default ls t).bulk
        ≡ map of_line t.bulk ++ map of_plan_line (keep (λ l. not (le l.reorder_qty (lit 0 0))) ls)
  unfolding add_lines
  add_lines-appends products default [] t = sym (append-nil (map of_line t.bulk))
  add_lines-appends products default (l ∷ ls) t = elim (Bool-cases (le l.reorder_qty (lit 0 0))) [
    | inl e ↦ rw (e, add_lines) (add_lines-appends products default ls t)
    | inr e ↦
        rw (e, add_lines)
          (add_lines-appends products default ls (add_line f products default l t)
            ∙ rw (add_line-appends products default l t) (
                append_assoc (map of_line t.bulk) (of_plan_line l ∷ [])
                  (map of_plan_line (keep (λ x. not (le x.reorder_qty (lit 0 0))) ls))))
  ]

  -- The lines of a built order are the lines of the plan whose quantity is positive, in their order:
  -- none is lost, added or changed in product or quantity.
  pub build-lines :
      (quoted : Text → Text) (now : Time) (i : Inputs f)
      → map of_line (build f quoted now i).lines
        ≡ map of_plan_line (keep (λ l. not (le l.reorder_qty (lit 0 0))) i.lines)
  unfolding build
  build-lines quoted now i =
      add_lines-appends i.products i.supplier.default_unit_price i.lines (no_totals f)
