-- ===== src/Examples/Orders.antt =====
-- The order builder feature at one plan with two lines, of which one has a price.
use forecast_e_zoo.Common.{
  ℕ, ◌≡◌, ◌⊎◌, true, false, not, none, some, List, [], ◌∷◌, ◌&&◌, map, keep, All, if◌then◌else◌,
  ◌==◌,
}
use forecast_e_zoo.Common.Text.{Text, codes}
use forecast_e_zoo.Common.Int.{ℤ, pos}
use forecast_e_zoo.Common.Session.{Session, ok, failed}
use forecast_e_zoo.Examples.Fixed.{thousandths}
use forecast_e_zoo.Orders.Models.{
  ApprovedPlan, PlanLine, CancelInput, PurchaseOrder, plan_approved, is_cancellable_status,
}
use forecast_e_zoo.Orders.Builder.{Inputs, build}
use forecast_e_zoo.Orders.Builder.Amounts.{
  IsPricedLine, quantity_from, amount_from, any_priced, any_unpriced, of_line, of_plan_line,
  build-amounts, build-lines,
}
use forecast_e_zoo.Orders.Tables.{
  OrderTables, any_approved, find_po, cancelled, cancel_rows, new_order, mark_plan_converted_tx,
}
use forecast_e_zoo.Orders.Service.{Printing, cancel, build_from_lines}
use forecast_e_zoo.Orders.Service.Cancelling.{audit, cancel-audited}
use forecast_e_zoo.Orders.Service.Plans.{
  From, Written, mark_plan_converted_tx-once, build_from_lines-Written,
}

abbrev plan : ApprovedPlan ℤ
plan = record {
  id = 3;
  run_id = 1;
  supplier_id = codes "s1";
  location_id = codes "l1";
  plan_date = 0;
  total_qty = pos 9000;
  lines_count = pos 2;
}

abbrev line : Text → ℤ → PlanLine ℤ
line product qty = record {
  product_id = product;
  location_id = codes "l1";
  supplier_id = some (codes "s1");
  reorder_qty = qty;
}

abbrev lines : List (PlanLine ℤ)
lines = line (codes "p1") (pos 4000) ∷ line (codes "p2") (pos 5000) ∷ []

abbrev inputs : Inputs thousandths
inputs = record {
  plan = plan;
  lines = lines;
  supplier = record {
    supplier_id = codes "s1";
    currency = [];
    lead_time_days = pos 0;
    default_unit_price = none;
    has_mart_row = false;
  };
  products =
      (
        codes "p1",
        record { product_id = codes "p1"; unit_price = some (pos 2500); has_mart_row = true },
      )
      ∷ [];
  po_number = codes "PO-1";
  created_at = 86400000000000;
}

abbrev quoted : Text → Text
quoted s = s

abbrev print : Printing
print = record { day = λ t. codes "20261126"; decimal = λ n. codes "1"; quoted = quoted }

build-amounts_example :
    let out = build thousandths quoted 0 inputs in
    All (IsPricedLine thousandths) out.lines
    × (out.order.total_qty ≡ quantity_from thousandths (pos 0) out.lines)
    × (out.order.total_amount ≡ (
        if any_priced thousandths out.lines && not (any_unpriced thousandths out.lines)
        then some (amount_from thousandths (pos 0) out.lines)
        else none))
build-amounts_example = build-amounts thousandths quoted 0 inputs

build-lines_example :
    map (of_line thousandths) (build thousandths quoted 0 inputs).lines
    ≡ map (of_plan_line thousandths) (keep (λ l. not (thousandths.le l.reorder_qty (pos 0))) lines)
build-lines_example = build-lines thousandths quoted 0 inputs

abbrev order : PurchaseOrder ℤ
order = new_order 0 (record {
  po_number = codes "PO-0";
  plan_id = 2;
  supplier_id = codes "s1";
  location_id = codes "l1";
  total_qty = pos 1000;
  total_amount = none;
  currency = codes "UAH";
  delivery_date = none;
  notes = none;
})

abbrev tables : OrderTables ℤ
tables = record {
  plans = record { plan = plan; status = plan_approved } ∷ [];
  orders = order ∷ [];
  lines = [];
  history = [];
  next_id = 1;
  next_sequence = 1;
  plan_lines = λ run supplier location. lines;
  supplier_rows = λ id. none;
  product_rows = λ id. none;
  locked = λ id. false;
}

abbrev db : Session (OrderTables ℤ)
db = record { tables = tables; faults = [] }

abbrev wish : CancelInput
wish = record { po_id = 0; reason = codes "mistake"; changed_by = codes "ann" }

cancel-audited_example :
    let (res, db') = cancel thousandths print wish db in
    ((db'.tables ≡ tables) × (failed res ≡ true))
    ⊎ ((before : PurchaseOrder ℤ) × (find_po 0 (order ∷ []) ≡ ok before)
        × (is_cancellable_status before.status ≡ true)
        × (res ≡ ok (cancelled (codes "mistake") before))
        × (db'.tables ≡ record tables {
          orders = cancel_rows 0 (codes "mistake") (order ∷ []);
          history = audit thousandths print wish before (cancelled (codes "mistake") before) ∷ [];
        }))
cancel-audited_example = cancel-audited thousandths print wish db

mark_plan_converted_tx-once_example :
    let (res, db') = mark_plan_converted_tx 3 db in
    ((db'.tables ≡ tables) × (failed res ≡ true))
    ⊎ (any_approved 3 tables.plans ≡ true)
      × ((j : ℕ)
          → any_approved j db'.tables.plans
            ≡ (if 3 == j then false else any_approved j tables.plans))
mark_plan_converted_tx-once_example = mark_plan_converted_tx-once 3 db

build_from_lines-Written_example :
    let (res, db') = build_from_lines thousandths print plan 5 lines db in
    (failed res ≡ true)
    ⊎ ((i : Inputs thousandths) × From thousandths print plan lines i
        × Written thousandths print 3 (build thousandths quoted 5 i) tables db'.tables)
build_from_lines-Written_example = build_from_lines-Written thousandths print plan 5 lines db
