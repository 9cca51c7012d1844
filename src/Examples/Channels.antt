-- ===== src/Examples/Channels.antt =====
-- The channel routing feature at one order that is ready to be sent.
use forecast_e_zoo.Common.{
  zero, suc, ◌+◌, ◌≡◌, ◌≢◌, ◌≤◌, ◌⊎◌, refl, true, false, Option, none, some, [], ◌∷◌, All, length,
  arith, if◌then◌else◌,
}
use forecast_e_zoo.Common.Text.{Text, codes, text_eq}
use forecast_e_zoo.Common.Int.{pos, ◌≤ℤ◌}
use forecast_e_zoo.Common.Session.{database, Session, ok, err, statement}
use forecast_e_zoo.Channels.Models.{
  SendAttemptFilter, SupplierChannelConfig, PurchaseOrderForSend, status_success, status_skipped,
  status_failed, po_ready_to_send, channel_types, auth_modes, is_known,
}
use forecast_e_zoo.Channels.Validators.{
  validate_list_filter, list_limit, validate_send_attempt_status, Parsers,
  UpsertChannelConfigRequest, validate_upsert_config, validate_channel_type, validate_auth_mode,
  accepted,
}
use forecast_e_zoo.Channels.Validators.Accepted.{
  IsKnownStatus, validate_list_filter_sound, validate_upsert_config_sound,
}
use forecast_e_zoo.Channels.Sender.{Outside, backoff_cap, retries, send}
use forecast_e_zoo.Channels.Sender.Retry.{Keyed, Ended, send-Looped}
use forecast_e_zoo.Channels.Router.{
  ChannelTables, Sender, run_limit, latest_success, send_one, send_all, send_by_id,
  get_po_by_id_for_send, find_order, find_existing_success_attempt, get_supplier_channel_config,
  find_config, round_trip, send_in_transaction, record_attempt, insert_send_attempt, final_status,
  finish_send_attempt, update_attempts, mark_po_sent_tx, any_ready, mark_sent,
}
use forecast_e_zoo.Channels.Router.Atomic.{Recorded, send_one-atomic}
use forecast_e_zoo.Channels.Router.Counts.{
  OneSuccess, Summed, send_one-OneSuccess, send_all-OneSuccess,
}
use forecast_e_zoo.Channels.Router.Retrying.{any_refused, send_by_id-idempotent}

abbrev order : PurchaseOrderForSend
order = record {
  id = 7;
  po_number = codes "PO-1";
  supplier_id = codes "s1";
  location_id = codes "l1";
  created_at = 5;
}

abbrev config : SupplierChannelConfig
config = record {
  supplier_id = codes "s1";
  channel_type = codes "erp_api";
  endpoint_url = codes "https://erp/";
  auth_mode = codes "api_key";
  auth_credentials_ref = none;
  timeout_sec = pos 30;
  retry_max = pos 2;
  is_active = true;
}

-- A client that is busy at first and then accepts.
abbrev outside : Outside
outside = record {
  format = λ po. some (codes "{}", codes "application/json");
  new_request = λ attempt url. true;
  secret = λ attempt ref. some (codes "key");
  reply = λ attempt req. elim attempt [
    | zero ↦ some (record { status_code = 503; body = [] })
    | suc n ↦ some (record { status_code = 201; body = [] })
  ];
  now = λ attempt. attempt;
}

abbrev registry : Text → Option Sender
registry channel = some (λ po cfg. (send outside po cfg).0)

abbrev tables : ChannelTables
tables = record {
  configs = config ∷ [];
  attempts = [];
  orders =
      record { po = order; status = po_ready_to_send; sent_at = none; sent_to_channel = none } ∷ [];
  next_id = 1;
  now = 9;
  locked = λ id. false;
}

abbrev served : Session ChannelTables
served = record { tables = tables; faults = [] }

-- The fourth statement, the end of the attempt, is refused.
abbrev refusing : Session ChannelTables
refusing = record { tables = tables; faults = false ∷ false ∷ false ∷ true ∷ [] }

send-Looped_example :
    let ((res, e), reqs, pauses) = send outside order config in
    (length reqs ≤ retries config + 1)
    × (length pauses ≤ retries config)
    × All (λ p. p ≤ backoff_cap) pauses
    × All (Keyed order) reqs
    × Ended res e
send-Looped_example = send-Looped outside order config

send_one-atomic_example :
    let (status, db') = send_one registry order 0 refusing in
    ((db'.tables ≡ tables) × ((status ≡ status_skipped) ⊎ (status ≡ status_failed)))
    ⊎ Recorded registry order 0 tables status db'.tables
send_one-atomic_example = send_one-atomic registry order 0 refusing tt

tables-OneSuccess : OneSuccess tables
tables-OneSuccess = (tt, λ id. ground arith)

send_one-OneSuccess_example : OneSuccess (send_one registry order 0 served).1.tables
send_one-OneSuccess_example = send_one-OneSuccess registry order 0 served tables-OneSuccess

send_all-OneSuccess_example :
    let (res, db') = send_all registry 3 (pos 10) served in
    OneSuccess db'.tables × Summed (run_limit (pos 10)) tables db'.tables res
send_all-OneSuccess_example = send_all-OneSuccess registry 3 (pos 10) served tables-OneSuccess

-- A sender that is served at its first request.
abbrev accepting : Text → Option Sender
accepting channel = some (λ po cfg. (
  record {
    status = status_success;
    http_status_code = some 201;
    request_body = none;
    response_body = none;
    error_message = none;
    retry_count = 0;
    external_ref = some (codes "E1");
    finished_at = some 9;
  },
  none,
))

order_sent : (send_by_id accepting 7 served).0 ≡ ok (some 1, status_success, some (codes "E1"))
unfolding send_by_id get_po_by_id_for_send find_order find_existing_success_attempt latest_success
    send_one get_supplier_channel_config find_config round_trip send_in_transaction record_attempt
    insert_send_attempt final_status finish_send_attempt update_attempts mark_po_sent_tx any_ready
    mark_sent statement text_eq
order_sent = refl

send_by_id-idempotent_example :
    let t = (send_by_id accepting 7 served).1.tables in
    let again = send_by_id accepting 7 (record { tables = t; faults = false ∷ true ∷ [] }) in
    (again.1.tables ≡ t)
    × (again.0 ≡ (
        if any_refused 2 (false ∷ true ∷ [])
        then err database
        else ok (some 1, status_success, some (codes "E1"))))
send_by_id-idempotent_example =
    send_by_id-idempotent accepting 7 served 1 status_success (some (codes "E1"))
      (false ∷ true ∷ []) tt order_sent

abbrev parsers : Parsers
parsers = record { uuid = λ s. none; time = λ s. none; trim_space = λ s. s }

abbrev request : UpsertChannelConfigRequest
request = record {
  channel_type = codes "erp_api";
  endpoint_url = codes "https://erp/";
  auth_mode = codes "api_key";
  auth_credentials_ref = none;
  timeout_sec = pos 0;
  retry_max = pos 2;
  is_active = none;
}

request_accepted : validate_upsert_config parsers (codes "s1") (some request) ≡ ok config
unfolding validate_upsert_config validate_channel_type text_eq validate_auth_mode accepted
request_accepted = refl

validate_upsert_config_sound_example :
    (is_known channel_types (codes "erp_api") ≡ true)
    × (is_known auth_modes (codes "api_key") ≡ true)
    × (codes "s1" ≢ [])
    × (codes "https://erp/" ≢ [])
    × (pos 1 ≤ℤ pos 30)
    × (pos 1 ≤ℤ pos 2)
    × (pos (retries config) ≡ pos 2)
validate_upsert_config_sound_example =
    validate_upsert_config_sound parsers (codes "s1") request config request_accepted

abbrev filter : SendAttemptFilter
filter = record {
  po_id = none;
  supplier_id = none;
  status = some status_failed;
  from = none;
  to = none;
  limit = pos 50;
  cursor = [];
}

filter_accepted : validate_list_filter parsers [] [] (codes "failed") [] [] [] (pos 0) ≡ ok filter
unfolding validate_list_filter list_limit validate_send_attempt_status text_eq is_known
filter_accepted = refl

validate_list_filter_sound_example :
    (pos 1 ≤ℤ pos 50) × (pos 50 ≤ℤ pos 500) × IsKnownStatus (some status_failed)
validate_list_filter_sound_example =
    validate_list_filter_sound parsers [] [] (codes "failed") [] [] [] (pos 0) filter
      filter_accepted
