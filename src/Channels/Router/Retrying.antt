-- ===== src/Channels/Router/Retrying.antt =====
-- SendByID called once more for an order whose successful attempt it has found or made.
use mathlib.Core.Path.{◌≡◌, refl, ◌∙◌, ap, sym, subst}
use forecast_e_zoo.Common.{
  ℕ, zero, suc, Bool, true, false, Option, none, some, Bool-cases, List, [], ◌∷◌, inl, inr, ◌||◌,
  ◌==◌, arith, if◌then◌else◌,
}
use forecast_e_zoo.Common.Text.{Text, text_eq}
use forecast_e_zoo.Common.Session.{
  Error, Action, database, Result, ok, err, Session, ◌>>=◌, statement, Result-cases,
}
use forecast_e_zoo.Channels.Models.{
  PurchaseOrderForSend, SendAttempt, status_success, po_ready_to_send, po_sent,
}
use forecast_e_zoo.Channels.Router.{
  ChannelTables, PurchaseOrderRow, Sender, is_ready, mark_sent, latest_success, send_one, sent_as,
  send_found, send_by_id, find_order, get_po_by_id_for_send, find_existing_success_attempt,
}
use forecast_e_zoo.Channels.Router.Atomic.{Below, send_one-atomic}

-- One of the next n statements is refused.
abbrev pub any_refused : ℕ → List Bool → Bool
any_refused zero fs = false
any_refused (suc n) [] = false
any_refused (suc n) (refused ∷ fs) = let rest = any_refused n fs in refused || rest

find_order-mark_sent :
    (id j : ℕ) (channel_type : Text) (now : ℕ) (os : List PurchaseOrderRow)
    (x : PurchaseOrderForSend × Text)
    → find_order id os ≡ ok x
    → (y : PurchaseOrderForSend × Text) × (find_order id (mark_sent j channel_type now os) ≡ ok y)
unfolding find_order mark_sent
find_order-mark_sent id j channel_type now [] x h = absurd (ground arith)
find_order-mark_sent id j channel_type now (o ∷ os) x h = elim (Bool-cases (o.po.id == id)) [
  | inl e ↦ elim (Bool-cases (is_ready j o)) [
    | inl r ↦ rw (r, e) ((o.po, po_sent), refl)
    | inr r ↦ rw (r, e) ((o.po, o.status), refl)
  ]
  | inr e ↦
      let rest = find_order-mark_sent id j channel_type now os x (ground arith) in
      elim (Bool-cases (is_ready j o)) [ inl r ↦ rw (r, e) rest | inr r ↦ rw (r, e) rest ]
]

ok_injective : {A : Type 0} {x y : A} → ok x ≡ ok y → x ≡ y
ok_injective e = cc

not_ok : {A : Type 0} {e : Error} {a : A} → err e ≡ ok a → ⊥
not_ok h = cc

module _ {S A B : Type 0} (m : Action S A) (next : A → Action S B) (s : Session S) where
  bind_ok : {a : A} → (m s).0 ≡ ok a → (m >>= next) s ≡ next a (m s).1
  bind_ok h = rw (h, ◌>>=◌) refl

  bind_err : {e : Error} → (m s).0 ≡ err e → (m >>= next) s ≡ (err e, (m s).1)
  bind_err h = rw (h, ◌>>=◌) refl

sent_as-some :
    (outcome : Text) (r : Result (Option SendAttempt)) (k : ℕ) (status : Text) (ext : Option Text)
    → sent_as outcome r ≡ (some k, status, ext)
    → (a : SendAttempt) × (r ≡ ok (some a)) × (a.id ≡ k) × (a.external_ref ≡ ext)
sent_as-some outcome (err e) k status ext h = absurd (ground arith)
sent_as-some outcome (ok none) k status ext h = absurd (ground arith)
sent_as-some outcome (ok (some a)) k status ext h = (a, refl, ground arith, ground arith)

-- The order is there, and its latest successful attempt is one with this id and reference.
abbrev pub IsSent : ℕ → ℕ → Option Text → ChannelTables → Type 0
IsSent id k ext t =
    (a : SendAttempt) × (latest_success id t.attempts ≡ some a)
    × (a.id ≡ k)
    × (a.external_ref ≡ ext)
    × ((x : PurchaseOrderForSend × Text) × (find_order id t.orders ≡ ok x))

module _ (registry : Text → Option Sender) (id : ℕ) where
  send_by_id-found :
      (t : ChannelTables) (fs : List Bool) (a : SendAttempt) (x : PurchaseOrderForSend × Text)
      → latest_success id t.attempts ≡ some a
      → find_order id t.orders ≡ ok x
      → let again = send_by_id registry id (record { tables = t; faults = fs }) in
        (again.1.tables ≡ t)
        × (again.0 ≡ (
            if any_refused 2 fs
            then err database
            else ok (some a.id, status_success, a.external_ref)))
  unfolding send_by_id get_po_by_id_for_send find_existing_success_attempt statement
  send_by_id-found t [] a x h o = ground arith
  send_by_id-found t (true ∷ fs) a x h o = ground arith
  send_by_id-found t (false ∷ []) a x h o = ground arith
  send_by_id-found t (false ∷ b ∷ fs) a x h o = ground arith

  get_po-found :
      (db : Session ChannelTables)
      → ((get_po_by_id_for_send id db).1.tables ≡ db.tables)
        × ((x : PurchaseOrderForSend × Text)
            → (get_po_by_id_for_send id db).0 ≡ ok x
            → find_order id db.tables.orders ≡ ok x)
  unfolding get_po_by_id_for_send statement
  get_po-found db = ground arith

  find_existing-found :
      (db : Session ChannelTables)
      → ((find_existing_success_attempt id db).1.tables ≡ db.tables)
        × ((o : Option SendAttempt)
            → (find_existing_success_attempt id db).0 ≡ ok o
            → latest_success id db.tables.attempts ≡ o)
  unfolding find_existing_success_attempt statement
  find_existing-found db = ground arith

  -- An order that is found before it is sent is found after it.
  send_one-found :
      (po : PurchaseOrderForSend) (db : Session ChannelTables) (x : PurchaseOrderForSend × Text)
      → Below db.tables.next_id db.tables.attempts
      → find_order id db.tables.orders ≡ ok x
      → (y : PurchaseOrderForSend × Text) × (find_order id
            (send_one registry po 0 db).1.tables.orders
          ≡ ok y)
  send_one-found po db x below h = elim (send_one-atomic registry po 0 db below) [
    | inl (same, s) ↦ rw same (x, h)
    | inr (_, ended, next, orders) ↦ elim orders [
      | inl (n, same) ↦ rw same (x, h)
      | inr (y, ready, (channel_type, marked)) ↦
          rw marked (find_order-mark_sent id po.id channel_type db.tables.now db.tables.orders x h)
    ]
  ]

  -- The idempotency lookup, and what follows it.
  abbrev look_up :
      PurchaseOrderForSend × Text → Action ChannelTables (Option ℕ × Text × Option Text)
  look_up x = find_existing_success_attempt id >>= send_found registry id x.0 x.1

  module _ (k : ℕ) (status : Text) (ext : Option Text) where
    send_found-IsSent :
        (db : Session ChannelTables) (po : PurchaseOrderForSend) (ready : Text)
        (o : Option SendAttempt) (x : PurchaseOrderForSend × Text)
        → Below db.tables.next_id db.tables.attempts
        → latest_success id db.tables.attempts ≡ o
        → find_order id db.tables.orders ≡ ok x
        → (send_found registry id po ready o db).0 ≡ ok (some k, status, ext)
        → IsSent id k ext (send_found registry id po ready o db).1.tables
    send_found-IsSent db po ready (some a) x below latest there h =
        (a, latest, ground arith, ground arith, (x, there))
    send_found-IsSent db po ready none x below latest there h =
        elim (Bool-cases (text_eq ready po_ready_to_send)) [
          | inr n ↦ absurd (ground arith)
          | inl r ↦
              let sent = (send_one registry po 0 db).1 in
              let looked = find_existing-found sent in
              let named =
                sent_as-some (send_one registry po 0 db).0 (find_existing_success_attempt id sent).0
                  k status ext (ok_injective (rw r at h)) in
              rw (r, looked.0)
                (
                  named.0,
                  looked.1 (some named.0) named.1,
                  named.2,
                  named.3,
                  send_one-found po db x below there,
                )
        ]

    send_by_id-IsSent :
        (db : Session ChannelTables)
        → Below db.tables.next_id db.tables.attempts
        → (send_by_id registry id db).0 ≡ ok (some k, status, ext)
        → IsSent id k ext (send_by_id registry id db).1.tables
    unfolding send_by_id
    send_by_id-IsSent db below h =
        let selected = (get_po_by_id_for_send id db).1 in
        let there = get_po-found db in
        let looked = find_existing-found selected in
        elim (Result-cases (get_po_by_id_for_send id db).0) [
          | inr (e, q) ↦
              absurd (
                not_ok (sym (ap (λ r. r.0) (bind_err (get_po_by_id_for_send id) look_up db q)) ∙ h))
          | inl (x, q) ↦ elim (Result-cases (find_existing_success_attempt id selected).0) [
            | inr (e, p) ↦ absurd (
                not_ok (
                  sym (
                    ap (λ r. r.0)
                      (bind_ok (get_po_by_id_for_send id) look_up db q
                        ∙ bind_err (find_existing_success_attempt id)
                            (send_found registry id x.0 x.1) selected p))
                  ∙ h))
            | inl (o, p) ↦
                let whole =
                  bind_ok (get_po_by_id_for_send id) look_up db q
                  ∙ bind_ok (find_existing_success_attempt id) (send_found registry id x.0 x.1)
                      selected p in
                subst
                  (λ (r : Result (Option ℕ × Text × Option Text) × Session ChannelTables).
                    r.0 ≡ ok (some k, status, ext) → IsSent id k ext r.1.tables)
                  (sym whole)
                  (send_found-IsSent (find_existing_success_attempt id selected).1 x.0 x.1 o x
                    (rw (looked.0, there.0) below) (rw looked.0 (looked.1 o p))
                    (rw (looked.0, there.0) (there.1 x q)))
                  h
          ]
        ]

  -- Once a call for an order has returned the id of a successful attempt, whatever the call did and
  -- whichever statements it was refused, if every attempt before it has an id that was given out: the
  -- next call on the tables that it left changes none of them, so that nothing is sent again, and
  -- returns success with the same id and reference, whatever status the order has by then, unless one
  -- of its two statements is refused: then, and only then, it returns the error of the database.
  pub send_by_id-idempotent :
      (db : Session ChannelTables) (k : ℕ) (status : Text) (ext : Option Text) (fs : List Bool)
      → Below db.tables.next_id db.tables.attempts
      → (send_by_id registry id db).0 ≡ ok (some k, status, ext)
      → let t = (send_by_id registry id db).1.tables in
        let again = send_by_id registry id (record { tables = t; faults = fs }) in
        (again.1.tables ≡ t)
        × (again.0 ≡ (if any_refused 2 fs then err database else ok (some k, status_success, ext)))
  send_by_id-idempotent db k status ext fs below h =
      let sent = send_by_id-IsSent k status ext db below h in
      let again =
        send_by_id-found (send_by_id registry id db).1.tables fs sent.0 sent.4.0 sent.1 sent.4.1 in
      (again.0, rw (← sent.2, ← sent.3) again.1)
