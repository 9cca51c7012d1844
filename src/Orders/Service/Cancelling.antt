-- ===== src/Orders/Service/Cancelling.antt =====
-- The cancellation of an order and its audit record.
use mathlib.Core.Path.{◌≡◌}
use forecast_e_zoo.Common.{true, false, some, List, [], ◌∷◌, ◌++◌, inl, inr, ◌⊎◌, arith, Bool-cases}
use forecast_e_zoo.Common.Float.{Float64}
use forecast_e_zoo.Common.Session.{Error, ok, err, Session, failed, statement, Result-cases}
use forecast_e_zoo.Orders.Models.{
  PurchaseOrder, PoStatusHistory, CancelInput, is_cancellable_status,
}
use forecast_e_zoo.Orders.Tables.{
  OrderTables, find_po, get_po_by_id, cancelled, cancelled_row, cancel_rows, cancel_po_tx,
  insert_po_status_history_tx, round_trip, transaction,
}
use forecast_e_zoo.Orders.Service.{Printing, cancel}

module _ (f : Float64) (print : Printing) (i : CancelInput) where
  open f use {Val}

  abbrev pub audit : PurchaseOrder Val → PurchaseOrder Val → PoStatusHistory
  audit before after = record {
    po_id = after.id;
    from_status = some before.status;
    to_status = after.status;
    reason = some i.reason;
    changed_by = some i.changed_by;
  }

  cancelled_row-find_po :
      (os : List (PurchaseOrder Val)) (o : PurchaseOrder Val)
      → find_po i.po_id os ≡ ok o
      → is_cancellable_status o.status ≡ true
      → cancelled_row i.po_id i.reason os ≡ some (cancelled i.reason o)
  unfolding find_po cancelled_row
  cancelled_row-find_po [] o h k = cc
  cancelled_row-find_po (x ∷ xs) o h k = ground (arith, cancelled_row-find_po xs o)

  missing :
      (db : Session (OrderTables Val)) (e : Error)
      → find_po i.po_id db.tables.orders ≡ err e
      → let (res, db') = cancel f print i db in (db'.tables ≡ db.tables) × (failed res ≡ true)
  unfolding cancel transaction get_po_by_id round_trip statement
  missing db e h = ground arith

  refused :
      (db : Session (OrderTables Val)) (before : PurchaseOrder Val)
      → find_po i.po_id db.tables.orders ≡ ok before
      → is_cancellable_status before.status ≡ false
      → let (res, db') = cancel f print i db in (db'.tables ≡ db.tables) × (failed res ≡ true)
  unfolding cancel transaction get_po_by_id round_trip statement
  refused db before h k = ground arith

  done :
      (db : Session (OrderTables Val)) (before : PurchaseOrder Val)
      → find_po i.po_id db.tables.orders ≡ ok before
      → is_cancellable_status before.status ≡ true
      → cancelled_row i.po_id i.reason db.tables.orders ≡ some (cancelled i.reason before)
      → let (res, db') = cancel f print i db in
        ((db'.tables ≡ db.tables) × (failed res ≡ true))
        ⊎ (res ≡ ok (cancelled i.reason before))
          × (db'.tables ≡ record db.tables {
            orders = cancel_rows i.po_id i.reason db.tables.orders;
            history = db.tables.history ++ audit before (cancelled i.reason before) ∷ [];
          })
  unfolding cancel transaction get_po_by_id cancel_po_tx insert_po_status_history_tx round_trip
      statement
  done db before h k r = ground arith

  -- Cancelling an order, whichever statements the database refuses, either fails and changes no
  -- table, or finds the order in a status that allows it, sets its rows to cancelled with the given
  -- reason, and adds one record of the change, from the status found to cancelled, with the reason
  -- and the person; nothing else changes.
  pub cancel-audited :
      (db : Session (OrderTables Val))
      → let (res, db') = cancel f print i db in
        ((db'.tables ≡ db.tables) × (failed res ≡ true))
        ⊎ ((before : PurchaseOrder Val) × (find_po i.po_id db.tables.orders ≡ ok before)
            × (is_cancellable_status before.status ≡ true)
            × (res ≡ ok (cancelled i.reason before))
            × (db'.tables ≡ record db.tables {
              orders = cancel_rows i.po_id i.reason db.tables.orders;
              history = db.tables.history ++ audit before (cancelled i.reason before) ∷ [];
            }))
  cancel-audited db = elim (Result-cases (find_po i.po_id db.tables.orders)) [
    | inr (e, h) ↦ inl (missing db e h)
    | inl (before, h) ↦ elim (Bool-cases (is_cancellable_status before.status)) [
      | inr k ↦ inl (refused db before h k)
      | inl k ↦ elim (done db before h k (cancelled_row-find_po db.tables.orders before h k)) [
        | inl none_done ↦ inl none_done
        | inr (r, t) ↦ inr (before, h, k, r, t)
      ]
    ]
  ]
