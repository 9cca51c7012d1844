-- ===== src/Channels/Models.antt =====
-- internal/features/channels/models/models.go, constants/constants.go and the result type of
-- sender/sender.go. Error messages are kept as the errors that they print.
use forecast_e_zoo.Common.{ℕ, Bool, false, Option, List, [], ◌∷◌, ◌||◌}
use forecast_e_zoo.Common.Text.{Text, codes, text_eq}
use forecast_e_zoo.Common.Time.{Time}
use forecast_e_zoo.Common.Int.{ℤ}

abbrev pub status_pending : Text
status_pending = codes "pending"

abbrev pub status_success : Text
status_success = codes "success"

abbrev pub status_failed : Text
status_failed = codes "failed"

abbrev pub status_skipped : Text
status_skipped = codes "skipped"

abbrev pub po_ready_to_send : Text
po_ready_to_send = codes "ready_to_send"

abbrev pub po_sent : Text
po_sent = codes "sent"

abbrev pub channel_types : List Text
channel_types =
    codes "erp_api" ∷ codes "edi_x12" ∷ codes "edi_edifact" ∷ codes "1c_xml" ∷ codes "crm" ∷ []

abbrev pub auth_modes : List Text
auth_modes = codes "api_key" ∷ codes "oauth2" ∷ codes "mtls" ∷ codes "none" ∷ []

abbrev pub send_attempt_statuses : List Text
send_attempt_statuses = status_pending ∷ status_success ∷ status_failed ∷ status_skipped ∷ []

-- The loop of `IsKnownChannelType`, `IsKnownAuthMode` and `IsKnownSendAttemptStatus`.
unfoldable pub is_known : List Text → Text → Bool
is_known [] s = false
is_known (v ∷ vs) s = text_eq v s || is_known vs s

pub record SupplierChannelConfig : Type 0 where
  pub supplier_id : Text
  pub channel_type : Text
  pub endpoint_url : Text
  pub auth_mode : Text
  pub auth_credentials_ref : Option Text
  pub timeout_sec : ℤ
  pub retry_max : ℤ
  pub is_active : Bool

pub record PurchaseOrderForSend : Type 0 where
  pub id : ℕ
  pub po_number : Text
  pub supplier_id : Text
  pub location_id : Text
  pub created_at : Time

pub data SendError : Type 0 where
  format_failed empty_endpoint request_failed auth_failed network_failed retries_exhausted :
      SendError
  http_status : ℕ → SendError

-- What the audit column says: an error, the last error of a run of retries, or a client error with
-- the head of its body.
pub data AuditMessage : Type 0 where
  failure : SendError → AuditMessage
  retry_exhausted : Option SendError → AuditMessage
  client_error : ℕ → Text → AuditMessage

pub record SendResult : Type 0 where
  pub external_ref : Option Text
  pub status : Text
  pub http_status_code : Option ℕ
  pub request_body : Option Text
  pub response_body : Option Text
  pub error_message : Option AuditMessage
  pub retry_count : ℕ
  pub finished_at : Option Time

-- A row of channels.send_attempts.
pub record SendAttempt : Type 0 where
  pub id : ℕ
  pub po_id : ℕ
  pub supplier_id : Text
  pub channel_type : Text
  pub started_at : Time
  pub finished_at : Option Time
  pub status : Text
  pub http_status_code : Option ℕ
  pub request_body : Option Text
  pub response_body : Option Text
  pub error_message : Option AuditMessage
  pub retry_count : ℕ
  pub external_ref : Option Text

pub record SendAttemptFilter : Type 0 where
  pub po_id : Option ℕ
  pub supplier_id : Option Text
  pub status : Option Text
  pub from : Option Time
  pub to : Option Time
  pub limit : ℤ
  pub cursor : Text

pub record SendRunResult : Type 0 where
  pub run_id : ℕ
  pub pos_processed : ℕ
  pub pos_sent : ℕ
  pub pos_failed : ℕ
  pub pos_skipped : ℕ
