-- ===== src/Channels/Router/Counts.antt =====
-- What runs of the router keep: no order is recorded as sent twice, and every order is counted once.
use mathlib.Core.Path.{◌≡◌, refl, ◌∙◌, ap}
use forecast_e_zoo.Common.{
  ℕ, suc, ◌+◌, ◌≤◌, false, Option, List, [], ◌∷◌, ◌++◌, inl, inr, ◌&&◌, ◌==◌, arith, if◌then◌else◌,
  length, length-take,
}
use forecast_e_zoo.Common.Text.{Text, text_eq}
use forecast_e_zoo.Common.Int.{ℤ}
use forecast_e_zoo.Common.Session.{Result, ok, err, Session, statement, Result-cases}
use forecast_e_zoo.Channels.Models.{
  PurchaseOrderForSend, SendAttempt, SendRunResult, status_success, po_ready_to_send, po_sent,
}
use forecast_e_zoo.Channels.Router.{
  ChannelTables, PurchaseOrderRow, Sender, any_ready, mark_sent, send_one, send_each, send_all,
  select_ready_to_send_pos, round_trip, counted, ready_orders, run_limit, ready_by_created,
}
use forecast_e_zoo.Channels.Router.Atomic.{Below, send_one-atomic}

-- The successful attempts for an order.
abbrev pub successes : ℕ → List SendAttempt → ℕ
successes id [] = 0
successes id (a ∷ xs) =
    let rest = successes id xs in
    if a.po_id == id && text_eq a.status status_success then suc rest else rest

-- The ids of the attempts were given out before, and every order has at most one successful attempt,
-- and none while it is ready to be sent.
abbrev pub OneSuccess : ChannelTables → Type 0
OneSuccess t =
    Below t.next_id t.attempts
    × ((id : ℕ) → successes id t.attempts + (if any_ready id t.orders then 1 else 0) ≤ 1)

Below-snoc :
    (n : ℕ) (xs : List SendAttempt) (a : SendAttempt)
    → Below n xs
    → a.id ≡ n
    → Below (suc n) (xs ++ a ∷ [])
Below-snoc n [] a h e = (omega arith, tt)
Below-snoc n (x ∷ xs) a h e = (omega (arith, h.0), Below-snoc n xs a h.1 e)

successes-snoc :
    (id : ℕ) (xs : List SendAttempt) (a : SendAttempt)
    → successes id (xs ++ a ∷ [])
      ≡ successes id xs + (if a.po_id == id && text_eq a.status status_success then 1 else 0)
successes-snoc id [] a = ground arith
successes-snoc id (x ∷ xs) a = ground (arith, successes-snoc id xs a)

sent_not_ready : text_eq po_sent po_ready_to_send ≡ false
unfolding text_eq
sent_not_ready = refl

any_ready-mark_sent :
    (id j : ℕ) (channel_type : Text) (now : ℕ) (os : List PurchaseOrderRow)
    → any_ready id (mark_sent j channel_type now os) ≡ (if j == id then false else any_ready id os)
unfolding any_ready mark_sent
any_ready-mark_sent id j channel_type now [] = ground arith
any_ready-mark_sent id j channel_type now (o ∷ os) =
    ground (arith, sent_not_ready, any_ready-mark_sent id j channel_type now os)

-- The numbers of a result add up, and an error changes nothing.
abbrev pub Summed : ℕ → ChannelTables → ChannelTables → Result SendRunResult → Type 0
Summed limit t t' (ok r) =
    (r.pos_sent + r.pos_failed + r.pos_skipped ≡ r.pos_processed) × (r.pos_processed ≤ limit)
Summed limit t t' (err e) = t' ≡ t

counted_sum :
    (outcome : Text) (res : SendRunResult)
    → let out = counted outcome res in
      out.pos_sent + out.pos_failed + out.pos_skipped
      ≡ res.pos_sent + res.pos_failed + res.pos_skipped + 1
counted_sum outcome res = ground arith

ready_orders-same :
    (limit : ℕ) (db : Session ChannelTables) → (ready_orders limit db).1.tables ≡ db.tables
unfolding ready_orders round_trip select_ready_to_send_pos statement
ready_orders-same limit db = ground arith

ready_orders-bounded :
    (limit : ℕ) (db : Session ChannelTables) {orders : List PurchaseOrderForSend}
    → (ready_orders limit db).0 ≡ ok orders
    → length orders ≤ limit
unfolding ready_orders round_trip select_ready_to_send_pos statement
ready_orders-bounded limit db h =
    ground (arith, length-take limit (ready_by_created db.tables.locked db.tables.orders))

module _ (registry : Text → Option Sender) where
  -- Sending an order keeps that every order has at most one successful attempt, and none while it is
  -- ready, for every sender and whichever statements the database refuses.
  pub send_one-OneSuccess :
      (po : PurchaseOrderForSend) (retry : ℕ) (db : Session ChannelTables)
      → OneSuccess db.tables
      → OneSuccess (send_one registry po retry db).1.tables
  send_one-OneSuccess po retry db h = elim (send_one-atomic registry po retry db h.0) [
    | inl (same, s) ↦ rw same h
    | inr ((a, grown, of, st, fresh), ended, next, orders) ↦
        rw (grown, next)
          (
            Below-snoc db.tables.next_id db.tables.attempts a h.0 fresh,
            λ id. elim orders [
              | inl (n, same) ↦ rw same (
                  ground (
                    arith,
                    h.1 id,
                    successes-snoc id db.tables.attempts a,
                    ap (λ x. text_eq x status_success) st,
                  ))
              | inr (y, ready, (channel_type, marked)) ↦ rw marked (
                  ground (
                    arith,
                    of,
                    h.1 id,
                    successes-snoc id db.tables.attempts a,
                    any_ready-mark_sent id po.id channel_type db.tables.now db.tables.orders,
                  ))
            ],
          )
  ]

  send_each-OneSuccess :
      (pos : List PurchaseOrderForSend) (res : SendRunResult) (db : Session ChannelTables)
      → OneSuccess db.tables
      → OneSuccess (send_each registry pos res db).1.tables
  unfolding send_each
  send_each-OneSuccess [] res db h = h
  send_each-OneSuccess (po ∷ pos) res db h =
      send_each-OneSuccess pos _ (send_one registry po 0 db).1 (send_one-OneSuccess po 0 db h)

  send_each-adds_up :
      (pos : List PurchaseOrderForSend) (res : SendRunResult) (db : Session ChannelTables)
      → let (out, db') = send_each registry pos res db in
        out.pos_sent + out.pos_failed + out.pos_skipped
        ≡ res.pos_sent + res.pos_failed + res.pos_skipped + length pos
  unfolding send_each
  send_each-adds_up [] res db = omega arith
  send_each-adds_up (po ∷ pos) res db = omega (
    arith,
    send_each-adds_up pos (counted (send_one registry po 0 db).0 res) (send_one registry po 0 db).1,
    counted_sum (send_one registry po 0 db).0 res,
  )

  -- A run over all orders keeps that every order has at most one successful attempt, and none while
  -- it is ready. When it returns a result, its numbers of sent, failed and skipped orders add up to
  -- the number of orders processed, which is at most the limit (500 where none is given); when it
  -- returns an error, no table has changed.
  pub send_all-OneSuccess :
      (run_id : ℕ) (max_pos : ℤ) (db : Session ChannelTables)
      → OneSuccess db.tables
      → let (res, db') = send_all registry run_id max_pos db in
        OneSuccess db'.tables × Summed (run_limit max_pos) db.tables db'.tables res
  unfolding send_all
  send_all-OneSuccess run_id max_pos db h = elim (Result-cases selected.0) [
    | inr (e, k) ↦ rw (k, send_all) (rw same h, same)
    | inl (orders, k) ↦
        rw (k, send_all)
          (
            send_each-OneSuccess orders none_yet selected.1 (rw same h),
            (
              send_each-adds_up orders none_yet selected.1 ∙ omega arith,
              ready_orders-bounded (run_limit max_pos) db k,
            ),
          )
  ]
    where
      selected : Result (List PurchaseOrderForSend) × Session ChannelTables
      selected = ready_orders (run_limit max_pos) db

      same : selected.1.tables ≡ db.tables
      same = ready_orders-same (run_limit max_pos) db

      none_yet : SendRunResult
      none_yet = record {
        run_id = run_id;
        pos_processed = 0;
        pos_sent = 0;
        pos_failed = 0;
        pos_skipped = 0;
      }
