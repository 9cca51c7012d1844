-- ===== src/Channels/Router/Atomic.antt =====
-- The transaction of `sendOne`: it is carried out as a whole or leaves no trace.
use mathlib.Core.Path.{◌≡◌, refl, sym, ◌∙◌}
use forecast_e_zoo.Common.{
  ℕ, suc, ◌<◌, true, false, Option, List, [], ◌∷◌, ◌++◌, inl, inr, ◌⊎◌, arith, if◌then◌else◌, All,
  Bool-cases, Option-cases,
}
use forecast_e_zoo.Common.Text.{Text, text_eq}
use forecast_e_zoo.Common.Session.{Error, Result, ok, Session, failed, statement, Result-cases}
use forecast_e_zoo.Channels.Models.{
  SupplierChannelConfig, PurchaseOrderForSend, SendResult, SendAttempt, status_pending,
  status_success, status_failed, status_skipped,
}
use forecast_e_zoo.Channels.Router.{
  ChannelTables, Sender, any_ready, mark_sent, pending_attempt, finished, update_attempts,
  final_status, record_attempt, send_in_transaction, send_one, insert_send_attempt,
  finish_send_attempt, mark_po_sent_tx, round_trip, get_supplier_channel_config, outcome_of,
}

-- Every id was given out before `n`.
abbrev pub Below : ℕ → List SendAttempt → Type 0
Below n = All (λ a. a.id < n)

update_attempts-append :
    (n now : ℕ) (change : SendAttempt → SendAttempt) (xs : List SendAttempt) (a : SendAttempt)
    → Below n xs
    → a.id ≡ n
    → a.started_at ≡ now
    → update_attempts n now change (xs ++ a ∷ []) ≡ xs ++ change a ∷ []
unfolding update_attempts
update_attempts-append n now change [] a h e t = ground arith
update_attempts-append n now change (x ∷ xs) a h e t =
    ground (arith, h.0, update_attempts-append n now change xs a h.1 e t)

outcome_of-cases : (e : Error) → (outcome_of e ≡ status_skipped) ⊎ (outcome_of e ≡ status_failed)
outcome_of-cases e = ground arith

failed_ended : text_eq status_failed status_pending ≡ false
unfolding text_eq
failed_ended = refl

final_status-ended : (res : SendResult) → text_eq (final_status res) status_pending ≡ false
unfolding final_status
final_status-ended res = ground (arith, failed_ended)

module _ (channel : Sender) (cfg : SupplierChannelConfig) (po : PurchaseOrderForSend)
    (retry : ℕ) where
  -- The row that a recorded attempt ends as.
  abbrev recorded : ChannelTables → SendAttempt
  recorded t =
      finished t.now (final_status (channel po cfg).0) (channel po cfg).0
        (pending_attempt t po cfg.channel_type retry)

  abbrev tables_after : ChannelTables → ChannelTables
  tables_after t =
      let logged = record t {
        attempts =
            update_attempts t.next_id t.now
              (finished t.now (final_status (channel po cfg).0) (channel po cfg).0)
              (t.attempts ++ pending_attempt t po cfg.channel_type retry ∷ []);
        next_id = suc t.next_id;
      } in
      if text_eq (final_status (channel po cfg).0) status_success
      then record logged { orders = mark_sent po.id cfg.channel_type t.now t.orders }
      else logged

  record_attempt-commits :
      (db : Session ChannelTables)
      → let (res, db') = record_attempt channel cfg po retry db in
        (failed res ≡ true)
        ⊎ (res ≡ ok (final_status (channel po cfg).0))
          × (db'.tables ≡ tables_after db.tables)
          × ((text_eq (final_status (channel po cfg).0) status_success ≡ false)
              ⊎ (any_ready po.id db.tables.orders ≡ true))
  unfolding record_attempt insert_send_attempt finish_send_attempt mark_po_sent_tx round_trip
  record_attempt-commits db = ground arith

  send_in_transaction-atomic :
      (db : Session ChannelTables)
      → let (status, db') = send_in_transaction channel cfg po retry db in
        ((db'.tables ≡ db.tables) × ((status ≡ status_skipped) ⊎ (status ≡ status_failed)))
        ⊎ (status ≡ final_status (channel po cfg).0)
          × (db'.tables ≡ tables_after db.tables)
          × ((text_eq (final_status (channel po cfg).0) status_success ≡ false)
              ⊎ (any_ready po.id db.tables.orders ≡ true))
  unfolding send_in_transaction
  send_in_transaction-atomic db = elim (Result-cases (record_attempt channel cfg po retry db).0) [
    | inr (e, k) ↦ rw (k, send_in_transaction) (inl (refl, outcome_of-cases e))
    | inl (status, k) ↦
        rw (k, send_in_transaction)
          (elim (record_attempt-commits db) [
            | inl e ↦ cc
            | inr (e, t, r) ↦ inr (ground arith, t, r)
          ])
  ]

get_supplier_channel_config-same :
    (s : Text) (db : Session ChannelTables)
    → (get_supplier_channel_config s db).1.tables ≡ db.tables
unfolding get_supplier_channel_config statement
get_supplier_channel_config-same s db = ground arith

round_trip-same : (db : Session ChannelTables) → (round_trip db).1.tables ≡ db.tables
unfolding round_trip statement
round_trip-same db = ground arith

module _ (registry : Text → Option Sender) (po : PurchaseOrderForSend) (retry : ℕ) where
  -- A new row ends the table of attempts, for this order and with the returned status, which is not
  -- pending; and the order was and is no longer ready to be sent exactly if the status is success.
  abbrev pub Recorded : ChannelTables → Text → ChannelTables → Type 0
  Recorded t status t' =
      ((a : SendAttempt) × (t'.attempts ≡ t.attempts ++ a ∷ [])
        × (a.po_id ≡ po.id)
        × (a.status ≡ status)
        × (a.id ≡ t.next_id))
      × (text_eq status status_pending ≡ false)
      × (t'.next_id ≡ suc t.next_id)
      × ((text_eq status status_success ≡ false) × (t'.orders ≡ t.orders)
          ⊎ (text_eq status status_success ≡ true)
            × (any_ready po.id t.orders ≡ true)
            × ((channel_type : Text) × (t'.orders ≡ mark_sent po.id channel_type t.now t.orders)))

  tables_after-Recorded :
      (channel : Sender) (cfg : SupplierChannelConfig) (t : ChannelTables)
      → Below t.next_id t.attempts
      → (text_eq (final_status (channel po cfg).0) status_success ≡ false)
        ⊎ (any_ready po.id t.orders ≡ true)
      → Recorded t (final_status (channel po cfg).0) (tables_after channel cfg po retry t)
  tables_after-Recorded channel cfg t h r =
      elim (Bool-cases (text_eq (final_status (channel po cfg).0) status_success)) [
        | inl b ↦ rw b (
          (recorded channel cfg po retry t, appended, refl, refl, refl),
          final_status-ended (channel po cfg).0,
          refl,
          inr (refl, elim r [ inl n ↦ cc | inr y ↦ y ], (cfg.channel_type, refl)),
        )
        | inr b ↦ rw b (
          (recorded channel cfg po retry t, appended, refl, refl, refl),
          final_status-ended (channel po cfg).0,
          refl,
          inl (refl, refl),
        )
      ]
    where
      appended :
          update_attempts t.next_id t.now
            (finished t.now (final_status (channel po cfg).0) (channel po cfg).0)
            (t.attempts ++ pending_attempt t po cfg.channel_type retry ∷ [])
          ≡ t.attempts ++ recorded channel cfg po retry t ∷ []
      appended =
          update_attempts-append t.next_id t.now
            (finished t.now (final_status (channel po cfg).0) (channel po cfg).0) t.attempts
            (pending_attempt t po cfg.channel_type retry) h refl refl

  within :
      (channel : Sender) (cfg : SupplierChannelConfig) (t : ChannelTables)
      (db : Session ChannelTables) {status : Text} {t' : ChannelTables}
      → db.tables ≡ t
      → Below t.next_id t.attempts
      → ((t' ≡ db.tables) × ((status ≡ status_skipped) ⊎ (status ≡ status_failed)))
        ⊎ (status ≡ final_status (channel po cfg).0)
          × (t' ≡ tables_after channel cfg po retry db.tables)
          × ((text_eq (final_status (channel po cfg).0) status_success ≡ false)
              ⊎ (any_ready po.id db.tables.orders ≡ true))
      → ((t' ≡ t) × ((status ≡ status_skipped) ⊎ (status ≡ status_failed))) ⊎ Recorded t status t'
  within channel cfg t db e h (inl (same, s)) = inl (same ∙ e, s)
  within channel cfg t db e h (inr (s, after, r)) =
      inr (rw (s, after, e) (tables_after-Recorded channel cfg t h (rw (sym e) r)))

  -- Sending an order is atomic, for every sender and whichever statements the database refuses, if
  -- the ids of the attempts were given out before: either no table changes and the order counts as
  -- skipped or failed, or one attempt is recorded, with the returned status, which is not pending,
  -- and the order leaves the ready state, in which it was, exactly if that status is success.
  pub send_one-atomic :
      (db : Session ChannelTables)
      → Below db.tables.next_id db.tables.attempts
      → let (status, db') = send_one registry po retry db in
        ((db'.tables ≡ db.tables) × ((status ≡ status_skipped) ⊎ (status ≡ status_failed)))
        ⊎ Recorded db.tables status db'.tables
  unfolding send_one
  send_one-atomic db h = elim (Result-cases configured.0) [
    | inr (e, k) ↦ rw (k, send_one) (inl (same1, inl refl))
    | inl (cfg, k) ↦ elim (Option-cases (registry cfg.channel_type)) [
      | inl n ↦ rw (k, n, send_one) (inl (same1, inl refl))
      | inr (channel, n) ↦ elim (Result-cases (round_trip configured.1).0) [
        | inr (e, b) ↦ rw (k, n, b, send_one) (inl (same2, inr refl))
        | inl (u, b) ↦ rw (k, n, b, send_one) (sent channel cfg)
      ]
    ]
  ]
    where
      configured : Result SupplierChannelConfig × Session ChannelTables
      configured = get_supplier_channel_config po.supplier_id db

      same1 : configured.1.tables ≡ db.tables
      same1 = get_supplier_channel_config-same po.supplier_id db

      same2 : (round_trip configured.1).1.tables ≡ db.tables
      same2 = round_trip-same configured.1 ∙ same1

      sent :
          (channel : Sender) (cfg : SupplierChannelConfig)
          → let (status, db') =
              send_in_transaction channel cfg po retry (round_trip configured.1).1 in
            ((db'.tables ≡ db.tables) × ((status ≡ status_skipped) ⊎ (status ≡ status_failed)))
            ⊎ Recorded db.tables status db'.tables
      sent channel cfg =
          within channel cfg db.tables (round_trip configured.1).1 same2 h
            (send_in_transaction-atomic channel cfg po retry (round_trip configured.1).1)
