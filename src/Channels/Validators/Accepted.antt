-- ===== src/Channels/Validators/Accepted.antt =====
-- What a channel configuration and a filter of attempts look like once they are accepted.
use mathlib.Core.Path.{◌≡◌, refl, subst}
use forecast_e_zoo.Common.{Option, none, some, ◌≢◌, true, [], ◌∷◌, arith}
use forecast_e_zoo.Common.Text.{Text}
use forecast_e_zoo.Common.Int.{ℤ, pos, ◌≤ℤ◌}
use forecast_e_zoo.Common.Session.{Result, ok, err}
use forecast_e_zoo.Channels.Models.{
  SendAttemptFilter, send_attempt_statuses, SupplierChannelConfig, channel_types, auth_modes,
  is_known,
}
use forecast_e_zoo.Channels.Sender.{retries}
use forecast_e_zoo.Channels.Validators.{
  optional, parsed, list_limit, validate_send_attempt_status, validate_list_filter, Parsers,
  UpsertChannelConfigRequest, and_then, accepted, non_empty, validate_upsert_config,
  validate_channel_type, validate_auth_mode,
}

and_then-ok :
    {A B : Type 0} (r : Result A) (k : A → Result B) {b : B}
    → and_then r k ≡ ok b
    → (a : A) × (r ≡ ok a) × (k a ≡ ok b)
and_then-ok (ok a) k h = (a, refl, h)
and_then-ok (err e) k h = cc

non_empty-ok : (parse : Parsers) (s t : Text) → non_empty parse s ≡ ok t → t ≢ []
non_empty-ok parse [] t h = cc
non_empty-ok parse (c ∷ s) t h = λ e. cc

known_channel_type :
    (s : Text) {u : Unit {0}} → validate_channel_type s ≡ ok u → is_known channel_types s ≡ true
unfolding validate_channel_type
known_channel_type s h = ground arith

known_auth_mode :
    (s : Text) {u : Unit {0}} → validate_auth_mode s ≡ ok u → is_known auth_modes s ≡ true
unfolding validate_auth_mode
known_auth_mode s h = ground arith

accepted-fields :
    (req : UpsertChannelConfigRequest) (id url : Text) (c : SupplierChannelConfig)
    → accepted req id url ≡ ok c
    → (c.channel_type ≡ req.channel_type)
      × (c.auth_mode ≡ req.auth_mode)
      × (c.supplier_id ≡ id)
      × (c.endpoint_url ≡ url)
      × (pos 1 ≤ℤ c.timeout_sec)
      × (pos 1 ≤ℤ c.retry_max)
unfolding accepted
accepted-fields req id url c h = ground arith

retries_exact : (c : SupplierChannelConfig) → pos 1 ≤ℤ c.retry_max → pos (retries c) ≡ c.retry_max
unfolding retries
retries_exact c h = ground arith

-- An accepted configuration names a known channel type and a known way of authentication, has a
-- supplier and an endpoint, and its timeout and its number of retries are at least one, so that the
-- sender uses that number as it stands.
pub validate_upsert_config_sound :
    (parse : Parsers) (supplier : Text) (req : UpsertChannelConfigRequest)
    (c : SupplierChannelConfig)
    → validate_upsert_config parse supplier (some req) ≡ ok c
    → (is_known channel_types c.channel_type ≡ true)
      × (is_known auth_modes c.auth_mode ≡ true)
      × (c.supplier_id ≢ [])
      × (c.endpoint_url ≢ [])
      × (pos 1 ≤ℤ c.timeout_sec)
      × (pos 1 ≤ℤ c.retry_max)
      × (pos (retries c) ≡ c.retry_max)
unfolding validate_upsert_config
validate_upsert_config_sound parse supplier req c h =
    let (id, h1, k1) = and_then-ok (non_empty parse (parse.trim_space supplier)) _ h in
    let (u, h2, k2) = and_then-ok (validate_channel_type req.channel_type) _ k1 in
    let (v, h3, k3) = and_then-ok (validate_auth_mode req.auth_mode) _ k2 in
    let (url, h4, k4) = and_then-ok (non_empty parse (parse.trim_space req.endpoint_url)) _ k3 in
    let (ct, am, si, eu, timeout, retry) = accepted-fields req id url c k4 in
    (
      rw ct (known_channel_type req.channel_type h2),
      rw am (known_auth_mode req.auth_mode h3),
      rw si (non_empty-ok parse (parse.trim_space supplier) id h1),
      rw eu (non_empty-ok parse (parse.trim_space req.endpoint_url) url h4),
      timeout,
      retry,
      retries_exact c retry,
    )

list_limit-range : (limit l : ℤ) → list_limit limit ≡ ok l → (pos 1 ≤ℤ l) × (l ≤ℤ pos 500)
unfolding list_limit
list_limit-range limit l h = ground arith

-- A status of a filter: absent, or a known one.
abbrev pub IsKnownStatus : Option Text → Type 0
IsKnownStatus none = Unit
IsKnownStatus (some s) = is_known send_attempt_statuses s ≡ true

known_status :
    (status : Text) (o : Option Text)
    → optional (λ s. and_then (validate_send_attempt_status s) (λ u. ok s)) status ≡ ok o
    → IsKnownStatus o
unfolding validate_send_attempt_status
known_status [] none h = tt
known_status [] (some x) h = cc
known_status (c ∷ s) none h = tt
known_status (c ∷ s) (some x) h = ground arith

ok-status : {r f : SendAttemptFilter} → ok r ≡ ok f → r.status ≡ f.status
ok-status h = ground arith

-- An accepted filter asks for at least one and at most 500 attempts, by a known status if by any.
pub validate_list_filter_sound :
    (parse : Parsers) (po supplier status from to cursor : Text) (limit : ℤ) (f : SendAttemptFilter)
    → validate_list_filter parse po supplier status from to cursor limit ≡ ok f
    → (pos 1 ≤ℤ f.limit) × (f.limit ≤ℤ pos 500) × IsKnownStatus f.status
unfolding validate_list_filter
validate_list_filter_sound parse po supplier status from to cursor limit f h =
    let (l, h1, k1) = and_then-ok (list_limit limit) _ h in
    let (a, h2, k2) = and_then-ok (optional (parsed parse.uuid) po) _ k1 in
    let (b, h3, k3) = and_then-ok (optional (λ s. ok (parse.trim_space s)) supplier) _ k2 in
    let (c, h4, k4) =
      and_then-ok (optional (λ s. and_then (validate_send_attempt_status s) (λ u. ok s)) status) _
        k3 in
    let (d, h5, k5) = and_then-ok (optional (parsed parse.time) from) _ k4 in
    let (e, h6, k6) = and_then-ok (optional (parsed parse.time) to) _ k5 in
    let (low, high) = list_limit-range limit l h1 in
    (
      ground (arith, low, k6),
      ground (arith, high, k6),
      subst IsKnownStatus (ok-status k6) (known_status status c h4),
    )
