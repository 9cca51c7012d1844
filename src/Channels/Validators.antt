-- ===== src/Channels/Validators.antt =====
-- internal/features/channels/validators/validators.go. Parsing of UUIDs and of RFC 3339 times, and
-- strings.TrimSpace, are parameters; messages are left out.
pub mod Accepted
use forecast_e_zoo.Common.{
  ℕ, Bool, true, false, Option, none, some, List, [], ◌∷◌, if◌then◌else◌, ◌||◌,
}
use forecast_e_zoo.Common.Text.{Text}
use forecast_e_zoo.Common.Time.{Time}
use forecast_e_zoo.Common.Int.{ℤ, pos, leb_ℤ, ltb_ℤ}
use forecast_e_zoo.Common.Session.{
  Error, bad_request, invalid_channel_type, invalid_auth_mode, Result, ok, err,
}
use forecast_e_zoo.Channels.Models.{
  channel_types, auth_modes, send_attempt_statuses, is_known, SendAttemptFilter,
  SupplierChannelConfig,
}

abbrev pub limit_max : ℤ
limit_max = pos 500

pub record Parsers : Type 0 where
  pub uuid : Text → Option ℕ
  pub time : Text → Option Time
  pub trim_space : Text → Text

pub record UpsertChannelConfigRequest : Type 0 where
  pub channel_type : Text
  pub endpoint_url : Text
  pub auth_mode : Text
  pub auth_credentials_ref : Option Text
  pub timeout_sec : ℤ
  pub retry_max : ℤ
  pub is_active : Option Bool

abbrev pub and_then : {A B : Type 0} → Result A → (A → Result B) → Result B
and_then (ok a) k = k a
and_then (err e) k = err e

unfoldable pub validate_channel_type : Text → Result (Unit {0})
unfolding is_known
validate_channel_type s = if is_known channel_types s then ok tt else err invalid_channel_type

unfoldable pub validate_auth_mode : Text → Result (Unit {0})
unfolding is_known
validate_auth_mode s = if is_known auth_modes s then ok tt else err invalid_auth_mode

unfoldable pub validate_send_attempt_status : Text → Result (Unit {0})
unfolding is_known
validate_send_attempt_status s = if is_known send_attempt_statuses s then ok tt else err bad_request

-- An empty parameter is absent.
abbrev pub optional : {A : Type 0} → (Text → Result A) → Text → Result (Option A)
optional parse [] = ok none
optional parse (c ∷ s) = and_then (parse (c ∷ s)) λ a. ok (some a)

abbrev pub parsed : {A : Type 0} → (Text → Option A) → Text → Result A
parsed parse s = elim (parse s) [ none ↦ err bad_request | some a ↦ ok a ]

unfoldable pub list_limit : ℤ → Result ℤ
list_limit limit =
    if leb_ℤ limit (pos 0)
    then ok (pos 50)
    else if ltb_ℤ limit_max limit
    then err bad_request
    else ok limit

-- The end of `ValidateUpsertConfig`: the check of the retries, and the defaults.
unfoldable pub accepted : UpsertChannelConfigRequest → Text → Text → Result SupplierChannelConfig
accepted req id url =
    if ltb_ℤ req.retry_max (pos 0)
    then err bad_request
    else ok (record {
      supplier_id = id;
      channel_type = req.channel_type;
      endpoint_url = url;
      auth_mode = req.auth_mode;
      auth_credentials_ref = req.auth_credentials_ref;
      timeout_sec = if leb_ℤ req.timeout_sec (pos 0) then pos 30 else req.timeout_sec;
      retry_max = if leb_ℤ req.retry_max (pos 0) then pos 3 else req.retry_max;
      is_active = elim req.is_active [ none ↦ true | some b ↦ b ];
    })

module _ (parse : Parsers) where
  -- The arguments in the order of the source: po_id, supplier, status, from, to, cursor, limit.
  unfoldable pub validate_list_filter :
      Text → Text → Text → Text → Text → Text → ℤ → Result SendAttemptFilter
  validate_list_filter po_id supplier status from to cursor limit = and_then (list_limit limit) λ l.
      and_then (optional (parsed parse.uuid) po_id) λ po.
        and_then (optional (λ s. ok (parse.trim_space s)) supplier) λ sup.
          and_then (optional (λ s. and_then (validate_send_attempt_status s) (λ u. ok s)) status)
            λ st. and_then (optional (parsed parse.time) from) λ f.
              and_then (optional (parsed parse.time) to) λ t. ok (record {
                po_id = po;
                supplier_id = sup;
                status = st;
                from = f;
                to = t;
                limit = l;
                cursor = cursor;
              })

  abbrev pub non_empty : Text → Result Text
  non_empty [] = err bad_request
  non_empty (c ∷ s) = ok (c ∷ s)

  -- `none` is a nil body.
  unfoldable pub validate_upsert_config :
      Text → Option UpsertChannelConfigRequest → Result SupplierChannelConfig
  validate_upsert_config supplier none = err bad_request
  validate_upsert_config supplier (some req) =
      and_then (non_empty (parse.trim_space supplier)) λ id.
        and_then (validate_channel_type req.channel_type) λ _.
          and_then (validate_auth_mode req.auth_mode)
            λ _. and_then (non_empty (parse.trim_space req.endpoint_url)) λ url. accepted req id url

-- `none` is a nil body.
unfoldable pub validate_trigger_send : Option ℤ → Result ℤ
validate_trigger_send none = ok (pos 0)
validate_trigger_send (some n) =
    if ltb_ℤ n (pos 0) || ltb_ℤ limit_max n then err bad_request else ok n
