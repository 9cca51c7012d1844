-- ===== src/Orders/Tables.antt =====
-- internal/features/orders/repository: the statements of build.go, queries.go and masters.go on the
-- tables of the feature.
use forecast_e_zoo.Common.{
  ℕ, suc, ◌==◌, Bool, true, false, not, Option, none, some, List, [], ◌∷◌, ◌++◌, ◌&&◌,
  if◌then◌else◌, take, keep, map,
}
use forecast_e_zoo.Common.Text.{Text, text_eq}
use forecast_e_zoo.Common.Session.{
  no_rows, purchase_order_not_found, po_not_cancellable, Result, ok, err, Session, Action, ◌>>=◌,
  ◌>>◌, pure, statement,
}
use forecast_e_zoo.Orders.Models.{
  ApprovedPlan, PlanLine, SupplierMaster, ProductMaster, InsertPoInput, BulkLine, PurchaseOrder,
  PoLine, PoStatusHistory, po_ready_to_send, po_cancelled, plan_approved, plan_converted,
  is_cancellable_status,
}

-- A plan with its status.
pub record PlanRow (V : Type 0) : Type 0 where
  pub plan : ApprovedPlan V
  pub status : Text

-- The tables. Those that the feature only reads are functions: the lines of a plan in the order of
-- select_plan_lines_for_build.sql, and the masters.
pub record OrderTables (V : Type 0) : Type 0 where
  pub plans : List (PlanRow V)  -- by plan_date and id
  pub orders : List (PurchaseOrder V)
  pub lines : List (PoLine V)
  pub history : List PoStatusHistory
  pub next_id : ℕ  -- stands for gen_random_uuid()
  pub next_sequence : ℕ
  pub plan_lines : ℕ → Text → Text → List (PlanLine V)
  pub supplier_rows : Text → Option (SupplierMaster V)
  pub product_rows : Text → Option (ProductMaster V)
  pub locked : ℕ → Bool  -- the plans that other transactions hold

abbrev pub OrderAction : Type 0 → Type 0 → Type 0
OrderAction V = Action (OrderTables V)

module _ {V : Type 0} where
  unfoldable pub select_approved_plans_for_update : ℕ → OrderAction V (List (ApprovedPlan V))
  select_approved_plans_for_update limit = statement (λ t. (
    ok (
        map (λ r. r.plan)
          (take limit
            (keep (λ r. text_eq r.status plan_approved && not (t.locked r.plan.id)) t.plans))),
    t,
  ))

  unfoldable pub select_plan_lines_for_build : ℕ → Text → Text → OrderAction V (List (PlanLine V))
  select_plan_lines_for_build run_id supplier location =
      statement (λ t. (ok (t.plan_lines run_id supplier location), t))

  unfoldable pub get_supplier_master :
      (Text → SupplierMaster V) → Text → OrderAction V (SupplierMaster V)
  get_supplier_master absent id =
      statement (λ t. (ok (elim (t.supplier_rows id) [ none ↦ absent id | some s ↦ s ]), t))

  unfoldable pub get_product_master : Text → OrderAction V (ProductMaster V)
  get_product_master id = statement (λ t. (
    ok (elim (t.product_rows id) [
      | none ↦ record { product_id = id; unit_price = none; has_mart_row = false }
      | some p ↦ p
    ]),
    t,
  ))

  -- A sequence moves on even if its transaction is rolled back.
  unfoldable pub next_sequence_tx : OrderAction V ℕ
  next_sequence_tx =
      statement (λ t. (ok t.next_sequence, record t { next_sequence = suc t.next_sequence }))

  abbrev pub new_order : ℕ → InsertPoInput V → PurchaseOrder V
  new_order id i = record {
    id = id;
    order = i;
    status = po_ready_to_send;
    sent_at = none;
    cancel_reason = none;
  }

  unfoldable pub insert_purchase_order_tx : InsertPoInput V → OrderAction V (PurchaseOrder V)
  insert_purchase_order_tx i = statement (λ t. (
    ok (new_order t.next_id i),
    record t { orders = t.orders ++ new_order t.next_id i ∷ []; next_id = suc t.next_id },
  ))

  unfoldable pub insert_po_lines_bulk_tx : ℕ → List (BulkLine V) → OrderAction V (Unit {0})
  insert_po_lines_bulk_tx id [] = pure tt
  insert_po_lines_bulk_tx id (l ∷ ls) = statement (λ t.
      (ok tt, record t { lines = t.lines ++ map (λ b. record { po_id = id; line = b }) (l ∷ ls) }))

  unfoldable pub insert_po_status_history_tx : PoStatusHistory → OrderAction V (Unit {0})
  insert_po_status_history_tx h =
      statement (λ t. (ok tt, record t { history = t.history ++ h ∷ [] }))

  -- `WHERE id = $1 AND status = 'approved' RETURNING id`
  unfoldable pub any_approved : ℕ → List (PlanRow V) → Bool
  any_approved id [] = false
  any_approved id (r ∷ rs) =
      let rest = any_approved id rs in
      if r.plan.id == id && text_eq r.status plan_approved then true else rest

  unfoldable pub convert_plans : ℕ → List (PlanRow V) → List (PlanRow V)
  convert_plans id [] = []
  convert_plans id (r ∷ rs) =
      let rest = convert_plans id rs in
      if r.plan.id == id && text_eq r.status plan_approved
      then record r { status = plan_converted } ∷ rest
      else r ∷ rest

  unfoldable pub mark_plan_converted_tx : ℕ → OrderAction V (Unit {0})
  mark_plan_converted_tx id = statement (λ t.
      if any_approved id t.plans
      then (ok tt, record t { plans = convert_plans id t.plans })
      else (err no_rows, t))

  unfoldable pub find_po : ℕ → List (PurchaseOrder V) → Result (PurchaseOrder V)
  find_po id [] = err purchase_order_not_found
  find_po id (o ∷ os) = let rest = find_po id os in if o.id == id then ok o else rest

  unfoldable pub get_po_by_id : ℕ → OrderAction V (PurchaseOrder V)
  get_po_by_id id = statement (λ t. (find_po id t.orders, t))

  abbrev pub cancelled : Text → PurchaseOrder V → PurchaseOrder V
  cancelled reason o = record o { status = po_cancelled; cancel_reason = some reason }

  -- update_po_cancel.sql: the first row that it returns, and the rows.
  unfoldable pub cancelled_row : ℕ → Text → List (PurchaseOrder V) → Option (PurchaseOrder V)
  cancelled_row id reason [] = none
  cancelled_row id reason (o ∷ os) =
      let rest = cancelled_row id reason os in
      if o.id == id && is_cancellable_status o.status then some (cancelled reason o) else rest

  unfoldable pub cancel_rows : ℕ → Text → List (PurchaseOrder V) → List (PurchaseOrder V)
  cancel_rows id reason [] = []
  cancel_rows id reason (o ∷ os) =
      let rest = cancel_rows id reason os in
      if o.id == id && is_cancellable_status o.status then cancelled reason o ∷ rest else o ∷ rest

  unfoldable pub cancel_po_tx : ℕ → Text → OrderAction V (PurchaseOrder V)
  cancel_po_tx id reason = statement (λ t. elim (cancelled_row id reason t.orders) [
    | none ↦ (err po_not_cancellable, t)
    | some o ↦ (ok o, record t { orders = cancel_rows id reason t.orders })
  ])

  -- Begin and commit are statements that change no row.
  unfoldable pub round_trip : OrderAction V (Unit {0})
  round_trip = statement (λ t. (ok tt, t))

  -- A transaction: an error in the body or at the commit undoes the body, but for the sequence.
  abbrev pub rolled_back : OrderTables V → Session (OrderTables V) → Session (OrderTables V)
  rolled_back before db = record db {
    tables = record before { next_sequence = db.tables.next_sequence };
  }

unfoldable pub transaction : {V A : Type 0} → OrderAction V A → OrderAction V A
transaction body db =
    let (begun, db1) = round_trip db in
    elim begun [
      | err e ↦ (err e, db1)
      | ok _ ↦
          let (res, db2) = (do a ← body; round_trip; pure a) db1 in
          elim res [ ok a ↦ (ok a, db2) | err e ↦ (err e, rolled_back db1.tables db2) ]
    ]
