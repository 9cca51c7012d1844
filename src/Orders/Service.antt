-- ===== src/Orders/Service.antt =====
-- internal/features/orders/service: the build of an order from an approved plan (`buildOne` of
-- build.go, with numbering/generator.go) and the cancellation of an order (service.go). The statements that the source sends through the pool while
-- a transaction is open read tables that the transaction does not change. Logging is left out.
pub mod Plans
pub mod Cancelling
use forecast_e_zoo.Common.{
  ℕ, zero, suc, ◌-◌, length, ltb, Bool, true, false, not, Option, none, some, List, [], ◌∷◌, ◌++◌,
  ◌||◌, if◌then◌else◌,
}
use forecast_e_zoo.Common.Text.{Text, codes, text_eq}
use forecast_e_zoo.Common.Time.{Time}
use forecast_e_zoo.Common.Int.{ℤ, pos, leb_ℤ, ltb_ℤ, pos_part}
use forecast_e_zoo.Common.Float.{Float64}
use forecast_e_zoo.Common.Dict.{Dict, insert}
use forecast_e_zoo.Common.Session.{
  Error, po_not_cancellable, Result, ok, err, Session, Action, ◌>>=◌, ◌>>◌, pure, raise,
}
use forecast_e_zoo.Orders.Models.{
  ApprovedPlan, PlanLine, SupplierMaster, ProductMaster, PurchaseOrder, BuildResult, CancelInput,
  is_cancellable_status,
}
use forecast_e_zoo.Orders.Builder.{Inputs, Outputs, build}
use forecast_e_zoo.Orders.Tables.{
  OrderTables, OrderAction, select_approved_plans_for_update, select_plan_lines_for_build,
  get_supplier_master, get_product_master, next_sequence_tx, insert_purchase_order_tx,
  insert_po_lines_bulk_tx, insert_po_status_history_tx, mark_plan_converted_tx, get_po_by_id,
  cancel_po_tx, round_trip, rolled_back, transaction,
}

unfoldable pub seen : Text → List Text → Bool
seen id [] = false
seen id (x ∷ xs) = let rest = seen id xs in if text_eq x id then true else rest

-- The loop of `uniqueProductIDs`; `out` stands for the map as well, which has the same elements.
unfoldable pub unique_from : {V : Type 0} → List (PlanLine V) → List Text → List Text
unfolding seen
unique_from [] out = out
unique_from (l ∷ ls) out =
    unique_from ls (if seen l.product_id out then out else out ++ l.product_id ∷ [])

unfoldable pub unique_product_ids : {V : Type 0} → List (PlanLine V) → List Text
unique_product_ids ls = unique_from ls []

-- What the standard library prints: a day as 20060102, a number in decimal digits, and a quoted
-- string (%q).
pub record Printing : Type 0 where
  pub day : Time → Text
  pub decimal : ℕ → Text
  pub quoted : Text → Text

unfoldable pub zeros : ℕ → Text
zeros zero = []
zeros (suc n) = 48 ∷ zeros n

-- `numbering.Format`: PO-YYYYMMDD-NNNNNN, where a longer number keeps its digits.
unfoldable pub po_number : Printing → Time → ℕ → Text
unfolding zeros
po_number print date n =
    let digits = print.decimal n in
    codes "PO-" ++ (print.day date ++ (codes "-" ++ (zeros (6 - length digits) ++ digits)))

module _ (f : Float64) (print : Printing) where
  open f use {Val}

  unfoldable pub load_products :
      List Text → Dict (ProductMaster Val) → OrderAction Val (Dict (ProductMaster Val))
  unfolding insert
  load_products [] products = pure products
  load_products (id ∷ ids) products = do
    pm ← get_product_master id
    load_products ids (insert id pm products)

  -- The master of a supplier that has no row.
  abbrev pub no_master : Text → SupplierMaster Val
  no_master id = record {
    supplier_id = id;
    currency = [];
    lead_time_days = pos 0;
    default_unit_price = none;
    has_mart_row = false;
  }

  -- The steps 6 and 7 of `buildOne`.
  unfoldable pub write_order : ℕ → Outputs f → OrderAction Val (Unit {0})
  write_order plan_id out = do
    po ← insert_purchase_order_tx out.order
    insert_po_lines_bulk_tx po.id out.lines
    insert_po_status_history_tx (record {
      po_id = po.id;
      from_status = none;
      to_status = po.status;
      reason = some (codes "built from approved plan");
      changed_by = none;
    })
    mark_plan_converted_tx plan_id

  abbrev pub inputs :
      ApprovedPlan Val
      → Time
      → List (PlanLine Val)
      → SupplierMaster Val
      → Dict (ProductMaster Val)
      → ℕ
      → Inputs f
  inputs p now lines supplier products sequence = record {
    plan = p;
    lines = lines;
    supplier = supplier;
    products = products;
    po_number = po_number print now sequence;
    created_at = now;
  }

  -- The steps 2 to 7 of `buildOne`, for a plan with lines.
  unfoldable pub build_from_lines :
      ApprovedPlan Val → Time → List (PlanLine Val) → OrderAction Val (Unit {0})
  build_from_lines p now lines = do
    supplier ← get_supplier_master no_master p.supplier_id
    products ← load_products (unique_product_ids lines) []
    sequence ← next_sequence_tx
    write_order p.id (build f print.quoted now (inputs p now lines supplier products sequence))

  unfoldable pub build_one : ApprovedPlan Val → Time → OrderAction Val (Unit {0})
  build_one p now = do
    lines ← select_plan_lines_for_build p.run_id p.supplier_id p.location_id
    elim lines [ [] ↦ pure tt | l ∷ ls ↦ build_from_lines p now (l ∷ ls) ]

  unfoldable pub cancel : CancelInput → OrderAction Val (PurchaseOrder Val)
  cancel i = transaction (do
    current ← get_po_by_id i.po_id
    (if is_cancellable_status current.status then pure tt else raise po_not_cancellable)
    po ← cancel_po_tx i.po_id i.reason
    insert_po_status_history_tx (record {
      po_id = po.id;
      from_status = some current.status;
      to_status = po.status;
      reason = some i.reason;
      changed_by = some i.changed_by;
    })
    pure po)
