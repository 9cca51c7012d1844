-- ===== src/Channels/Router.antt =====
-- internal/features/channels/router_svc/channel_router.go, with the repository methods that it calls
-- (repository/queries.go and their SQL). The senders are a parameter, the registry by channel type.
-- Metrics and logging are left out. Between the begin and the end of a transaction no other process
-- changes the rows; `locked` tells the rows that other transactions hold.
pub mod Atomic
pub mod Counts
pub mod Retrying
use forecast_e_zoo.Common.{
  ℕ, zero, suc, ◌+◌, ◌==◌, leb, ltb, Bool, true, false, Option, none, some, List, [], ◌∷◌, ◌++◌,
  ◌&&◌, ◌||◌, not, if◌then◌else◌, length, take, keep, map,
}
use forecast_e_zoo.Common.Text.{Text, text_eq}
use forecast_e_zoo.Common.Time.{Time}
use forecast_e_zoo.Common.Int.{ℤ, pos, leb_ℤ, pos_part}
use forecast_e_zoo.Common.Session.{
  Error, purchase_order_not_found, channel_not_configured, po_not_ready_to_send, Result, ok, err,
  Session, Action, ◌>>=◌, ◌>>◌, pure, raise, statement,
}
use forecast_e_zoo.Channels.Models.{
  SupplierChannelConfig, PurchaseOrderForSend, SendError, SendResult, SendAttempt, SendRunResult,
  status_pending, status_success, status_failed, status_skipped, po_ready_to_send, po_sent,
}

-- A row of orders.purchase_orders, as far as the feature reads and writes it.
pub record PurchaseOrderRow : Type 0 where
  pub po : PurchaseOrderForSend
  pub status : Text
  pub sent_at : Option Time
  pub sent_to_channel : Option Text

pub record ChannelTables : Type 0 where
  pub configs : List SupplierChannelConfig
  pub attempts : List SendAttempt
  pub orders : List PurchaseOrderRow
  pub next_id : ℕ  -- stands for gen_random_uuid()
  pub now : Time
  pub locked : ℕ → Bool

abbrev pub ChannelAction : Type 0 → Type 0
ChannelAction = Action ChannelTables

-- A registered `ChannelSender`.
abbrev pub Sender : Type 0
Sender = PurchaseOrderForSend → SupplierChannelConfig → SendResult × Option SendError

abbrev pub is_ready : ℕ → PurchaseOrderRow → Bool
is_ready id o = o.po.id == id && text_eq o.status po_ready_to_send

-- ORDER BY created_at ASC
unfoldable pub insert_by_created :
    PurchaseOrderForSend → List PurchaseOrderForSend → List PurchaseOrderForSend
insert_by_created p [] = p ∷ []
insert_by_created p (q ∷ qs) =
    let rest = insert_by_created p qs in
    if leb p.created_at q.created_at then p ∷ q ∷ qs else q ∷ rest

unfoldable pub ready_by_created : (ℕ → Bool) → List PurchaseOrderRow → List PurchaseOrderForSend
unfolding insert_by_created
ready_by_created locked [] = []
ready_by_created locked (o ∷ os) =
    let rest = ready_by_created locked os in
    if text_eq o.status po_ready_to_send && not (locked o.po.id)
    then insert_by_created o.po rest
    else rest

unfoldable pub select_ready_to_send_pos : ℕ → ChannelAction (List PurchaseOrderForSend)
select_ready_to_send_pos limit =
    statement (λ t. (ok (take limit (ready_by_created t.locked t.orders)), t))

unfoldable pub find_config : Text → List SupplierChannelConfig → Result SupplierChannelConfig
find_config s [] = err channel_not_configured
find_config s (c ∷ cs) =
    let rest = find_config s cs in if text_eq c.supplier_id s && c.is_active then ok c else rest

unfoldable pub get_supplier_channel_config : Text → ChannelAction SupplierChannelConfig
get_supplier_channel_config s = statement (λ t. (find_config s t.configs, t))

unfoldable pub find_order : ℕ → List PurchaseOrderRow → Result (PurchaseOrderForSend × Text)
find_order id [] = err purchase_order_not_found
find_order id (o ∷ os) =
    let rest = find_order id os in if o.po.id == id then ok (o.po, o.status) else rest

unfoldable pub get_po_by_id_for_send : ℕ → ChannelAction (PurchaseOrderForSend × Text)
get_po_by_id_for_send id = statement (λ t. (find_order id t.orders, t))

-- The new row, with its id.
abbrev pub pending_attempt : ChannelTables → PurchaseOrderForSend → Text → ℕ → SendAttempt
pending_attempt t po channel_type retry = record {
  id = t.next_id;
  po_id = po.id;
  supplier_id = po.supplier_id;
  channel_type = channel_type;
  started_at = t.now;
  finished_at = none;
  status = status_pending;
  http_status_code = none;
  request_body = none;
  response_body = none;
  error_message = none;
  retry_count = retry;
  external_ref = none;
}

unfoldable pub insert_send_attempt : PurchaseOrderForSend → Text → ℕ → ChannelAction (ℕ × Time)
insert_send_attempt po channel_type retry = statement (λ t. (
  ok (t.next_id, t.now),
  record t {
    attempts = t.attempts ++ pending_attempt t po channel_type retry ∷ [];
    next_id = suc t.next_id;
  },
))

abbrev pub finished : Time → Text → SendResult → SendAttempt → SendAttempt
finished now status res a = record a {
  finished_at = some now;
  status = status;
  http_status_code = res.http_status_code;
  request_body = res.request_body;
  response_body = res.response_body;
  error_message = res.error_message;
  retry_count = res.retry_count;
  external_ref = res.external_ref;
}

unfoldable pub update_attempts :
    ℕ → Time → (SendAttempt → SendAttempt) → List SendAttempt → List SendAttempt
update_attempts id started change [] = []
update_attempts id started change (a ∷ more) =
    let rest = update_attempts id started change more in
    if a.id == id && a.started_at == started then change a ∷ rest else a ∷ rest

unfoldable pub finish_send_attempt : ℕ → Time → Text → SendResult → ChannelAction (Unit {0})
finish_send_attempt id started status res = statement (λ t. (
  ok tt,
  record t { attempts = update_attempts id started (finished t.now status res) t.attempts },
))

unfoldable pub any_ready : ℕ → List PurchaseOrderRow → Bool
any_ready id [] = false
any_ready id (o ∷ os) = is_ready id o || any_ready id os

unfoldable pub mark_sent : ℕ → Text → Time → List PurchaseOrderRow → List PurchaseOrderRow
mark_sent id channel_type now [] = []
mark_sent id channel_type now (o ∷ os) =
    let rest = mark_sent id channel_type now os in
    if is_ready id o
    then record o { status = po_sent; sent_at = some now; sent_to_channel = some channel_type }
      ∷ rest
    else o ∷ rest

unfoldable pub mark_po_sent_tx : ℕ → Text → ChannelAction (Unit {0})
mark_po_sent_tx id channel_type = statement (λ t.
    if any_ready id t.orders
    then (ok tt, record t { orders = mark_sent id channel_type t.now t.orders })
    else (err po_not_ready_to_send, t))

-- The latest successful attempt for the order.
unfoldable pub latest_success : ℕ → List SendAttempt → Option SendAttempt
latest_success id [] = none
latest_success id (a ∷ more) =
    let rest = latest_success id more in
    if a.po_id == id && text_eq a.status status_success
    then elim rest [
      | none ↦ some a
      | some b ↦ if leb b.started_at a.started_at then some a else some b
    ]
    else rest

unfoldable pub find_existing_success_attempt : ℕ → ChannelAction (Option SendAttempt)
find_existing_success_attempt id = statement (λ t. (ok (latest_success id t.attempts), t))

-- Begin and commit are statements that change no row.
unfoldable pub round_trip : ChannelAction (Unit {0})
round_trip = statement (λ t. (ok tt, t))

unfoldable pub final_status : SendResult → Text
final_status res =
    if text_eq res.status [] || text_eq res.status status_pending then status_failed else res.status

-- The calls from the insertion of the attempt to the commit.
unfoldable pub record_attempt :
    Sender → SupplierChannelConfig → PurchaseOrderForSend → ℕ → ChannelAction Text
unfolding statement
record_attempt channel cfg po retry = do
  (id, started) ← insert_send_attempt po cfg.channel_type retry
  let (res, send_err) = channel po cfg
  let status = final_status res
  finish_send_attempt id started status res
  (if text_eq status status_success then mark_po_sent_tx po.id cfg.channel_type else pure tt)
  round_trip
  pure status

-- The status that `sendOne` returns for the error of a call.
abbrev pub outcome_of : Error → Text
outcome_of po_not_ready_to_send = status_skipped
outcome_of _ = status_failed

-- The transaction of `sendOne`: any return before the end of the commit rolls it back.
unfoldable pub send_in_transaction :
    Sender
    → SupplierChannelConfig
    → PurchaseOrderForSend
    → ℕ
    → Session ChannelTables
    → Text × Session ChannelTables
send_in_transaction channel cfg po retry db =
    let (res, db') = record_attempt channel cfg po retry db in
    elim res [
      | ok status ↦ (status, db')
      | err e ↦ (outcome_of e, record db' { tables = db.tables })
    ]

-- The counters after one more order.
abbrev pub counted : Text → SendRunResult → SendRunResult
counted outcome res =
    if text_eq outcome status_success
    then record res { pos_sent = suc res.pos_sent }
    else if text_eq outcome status_skipped
    then record res { pos_skipped = suc res.pos_skipped }
    else record res { pos_failed = suc res.pos_failed }

-- The transaction in which `SendAll` selects the orders.
unfoldable pub ready_orders : ℕ → ChannelAction (List PurchaseOrderForSend)
ready_orders limit = do round_trip; orders ← select_ready_to_send_pos limit; round_trip; pure orders

-- `maxPOs`, or 500
abbrev pub run_limit : ℤ → ℕ
run_limit max_pos = if leb_ℤ max_pos (pos 0) then 500 else pos_part max_pos

-- The id of the latest successful attempt, the status and the reference; an error of the lookup is
-- dropped.
abbrev pub sent_as : Text → Result (Option SendAttempt) → Option ℕ × Text × Option Text
sent_as outcome (err _) = (none, outcome, none)
sent_as outcome (ok none) = (none, outcome, none)
sent_as outcome (ok (some a)) = (some a.id, outcome, a.external_ref)

module _ (registry : Text → Option Sender) where
  unfoldable pub send_one :
      PurchaseOrderForSend → ℕ → Session ChannelTables → Text × Session ChannelTables
  send_one po retry db =
      let (configured, db1) = get_supplier_channel_config po.supplier_id db in
      elim configured [
        | err _ ↦ (status_skipped, db1)
        | ok cfg ↦ elim (registry cfg.channel_type) [
          | none ↦ (status_skipped, db1)
          | some channel ↦
              let (begun, db2) = round_trip db1 in
              elim begun [
                | err _ ↦ (status_failed, db2)
                | ok _ ↦ send_in_transaction channel cfg po retry db2
              ]
        ]
      ]

  -- The loop of `SendAll`, with the counters of the result.
  unfoldable pub send_each :
      List PurchaseOrderForSend
      → SendRunResult
      → Session ChannelTables
      → SendRunResult × Session ChannelTables
  send_each [] res db = (res, db)
  send_each (po ∷ orders) res db =
      let (outcome, db') = send_one po 0 db in send_each orders (counted outcome res) db'

  unfoldable pub send_all :
      ℕ → ℤ → Session ChannelTables → Result SendRunResult × Session ChannelTables
  send_all run_id max_pos db =
      let none_yet : SendRunResult = record {
        run_id = run_id;
        pos_processed = 0;
        pos_sent = 0;
        pos_failed = 0;
        pos_skipped = 0;
      } in
      let (selected, db1) = ready_orders (run_limit max_pos) db in
      elim selected [
        | err e ↦ (err e, db1)
        | ok orders ↦
            let (res, db2) = send_each orders none_yet db1 in
            (ok (record res { pos_processed = length orders }), db2)
      ]

  -- What follows the idempotency lookup of `SendByID`.
  abbrev pub send_found :
      ℕ
      → PurchaseOrderForSend
      → Text
      → Option SendAttempt
      → ChannelAction (Option ℕ × Text × Option Text)
  send_found id po status (some a) = pure (some a.id, status_success, a.external_ref)
  send_found id po status none =
      if text_eq status po_ready_to_send
      then (λ db.
          let (outcome, db1) = send_one po 0 db in
          let (found, db2) = find_existing_success_attempt id db1 in
          (ok (sent_as outcome found), db2))
      else raise po_not_ready_to_send

  unfoldable pub send_by_id : ℕ → ChannelAction (Option ℕ × Text × Option Text)
  send_by_id id = do
    (po, status) ← get_po_by_id_for_send id
    existing ← find_existing_success_attempt id
    send_found id po status existing
