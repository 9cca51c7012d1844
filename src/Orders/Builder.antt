-- ===== src/Orders/Builder.antt =====
-- internal/features/orders/builder/po_builder.go: a purchase order and its lines from a plan.
pub mod Amounts
use forecast_e_zoo.Common.{
  ℕ, ◌==◌, Bool, true, false, not, Option, none, some, List, [], ◌∷◌, ◌++◌, ◌&&◌, if◌then◌else◌,
}
use forecast_e_zoo.Common.Text.{Text, codes, text_eq}
use forecast_e_zoo.Common.Time.{Time, add_days, truncate_day}
use forecast_e_zoo.Common.Int.{ℤ, pos, leb_ℤ, pos_part}
use forecast_e_zoo.Common.Float.{Float64}
use forecast_e_zoo.Common.Dict.{Dict, lookup}
use forecast_e_zoo.Orders.Models.{
  ApprovedPlan, PlanLine, SupplierMaster, ProductMaster, InsertPoInput, BulkLine, source_product,
  source_supplier_default, source_missing,
}

module _ (f : Float64) where
  open f use {Val, lit, add, mul, le}

  pub record Inputs : Type 0 where
    pub plan : ApprovedPlan Val
    pub lines : List (PlanLine Val)
    pub supplier : SupplierMaster Val
    pub products : Dict (ProductMaster Val)
    pub po_number : Text
    pub created_at : Time

  -- The variables of the loop.
  pub record Totals : Type 0 where
    pub bulk : List (BulkLine Val)
    pub total_qty : Val
    pub sum_amount : Val
    pub any_missing_price : Bool
    pub has_any_amount : Bool

  pub record Outputs : Type 0 where
    pub order : InsertPoInput Val
    pub lines : List (BulkLine Val)
    pub notes : List Text

  -- The default of the supplier, or no price.
  abbrev pub supplier_price : Option Val → Option Val × Text
  supplier_price none = (none, source_missing)
  supplier_price (some v) = (some v, source_supplier_default)

  unfoldable pub pick_price : Text → Dict (ProductMaster Val) → Option Val → Option Val × Text
  pick_price product_id products default = elim (lookup product_id products) [
    | none ↦ supplier_price default
    | some pm ↦ elim pm.unit_price [
      | none ↦ supplier_price default
      | some v ↦ (some v, source_product)
    ]
  ]

  -- The body of the loop for a line with a positive quantity.
  unfoldable pub add_line : Dict (ProductMaster Val) → Option Val → PlanLine Val → Totals → Totals
  add_line products default l t =
      let (price, source) = pick_price l.product_id products default in
      let line : Option Val → BulkLine Val = λ amount. record {
        product_id = l.product_id;
        qty = l.reorder_qty;
        unit_price = price;
        line_amount = amount;
        pricing_source = source;
      } in
      elim price [
        | some p ↦ record {
          bulk = t.bulk ++ line (some (mul p l.reorder_qty)) ∷ [];
          total_qty = add t.total_qty l.reorder_qty;
          sum_amount = add t.sum_amount (mul p l.reorder_qty);
          any_missing_price = t.any_missing_price;
          has_any_amount = true;
        }
        | none ↦ record {
          bulk = t.bulk ++ line none ∷ [];
          total_qty = add t.total_qty l.reorder_qty;
          sum_amount = t.sum_amount;
          any_missing_price = true;
          has_any_amount = t.has_any_amount;
        }
      ]

  unfoldable pub add_lines :
      Dict (ProductMaster Val) → Option Val → List (PlanLine Val) → Totals → Totals
  add_lines products default [] t = t
  add_lines products default (l ∷ ls) t =
      add_lines products default ls
        (if le l.reorder_qty (lit 0 0) then t else add_line products default l t)

  abbrev pub no_totals : Totals
  no_totals = record {
    bulk = [];
    total_qty = lit 0 0;
    sum_amount = lit 0 0;
    any_missing_price = false;
    has_any_amount = false;
  }

  -- strings.Join(notes, "; ")
  unfoldable pub join_notes : List Text → Option Text
  join_notes [] = none
  join_notes (n ∷ ns) =
      let rest = join_notes ns in some (elim rest [ none ↦ n | some r ↦ n ++ (codes "; " ++ r) ])

  -- `quoted` is the verb %q of fmt.
  unfoldable pub currency_note : (Text → Text) → Inputs → List Text
  currency_note quoted i = elim i.supplier.currency [
    | [] ↦
        if i.supplier.has_mart_row
        then []
        else (codes "supplier "
            ++ (quoted i.plan.supplier_id ++ codes " has no master row, using defaults"))
          ∷ []
    | c ∷ s ↦ []
  ]

  -- `now` is the clock, for inputs that name no time.
  unfoldable pub build : (Text → Text) → Time → Inputs → Outputs
  build quoted now i =
      let currency : Text = elim i.supplier.currency [ [] ↦ codes "UAH" | c ∷ s ↦ c ∷ s ] in
      let lead_time =
        if leb_ℤ i.supplier.lead_time_days (pos 0) then 7 else pos_part i.supplier.lead_time_days in
      let t = add_lines i.products i.supplier.default_unit_price i.lines no_totals in
      let priced = t.has_any_amount && not t.any_missing_price in
      let notes =
        if priced
        then currency_note quoted i
        else if t.any_missing_price
        then currency_note quoted i
          ++ codes "some line(s) missing unit_price; total_amount left NULL" ∷ []
        else currency_note quoted i in
      record {
        order = record {
          po_number = i.po_number;
          plan_id = i.plan.id;
          supplier_id = i.plan.supplier_id;
          location_id = i.plan.location_id;
          total_qty = t.total_qty;
          total_amount = if priced then some t.sum_amount else none;
          currency = currency;
          delivery_date =
              some (
                truncate_day
                  (add_days (if i.created_at == 0 then now else i.created_at) lead_time));
          notes = join_notes notes;
        };
        lines = t.bulk;
        notes = notes;
      }
