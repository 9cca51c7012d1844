-- ===== src/Channels/Sender.antt =====
-- internal/features/channels/sender/erp_api_sender.go and auth/api_key.go: one logical send of a
-- purchase order, with its retries. What lies outside is a record of functions: the formatter, the
-- construction of a request, the secret store, the HTTP client and the clock, each asked once an
-- attempt. The requests handed to the client and the pauses are returned with the result.
pub mod Retry
use forecast_e_zoo.Common.{
  ℕ, zero, suc, ◌+◌, ◌*◌, ◌==◌, ltb, leb, Bool, true, false, Option, none, some, List, [], ◌∷◌,
  ◌++◌, ◌&&◌, ◌||◌, if◌then◌else◌, length, take,
}
use forecast_e_zoo.Common.Text.{Text, codes}
use forecast_e_zoo.Common.Time.{Time}
use forecast_e_zoo.Common.Int.{ℤ, pos, leb_ℤ, pos_part}
use forecast_e_zoo.Channels.Models.{
  SupplierChannelConfig, PurchaseOrderForSend, SendError, format_failed, empty_endpoint,
  request_failed, auth_failed, network_failed, retries_exhausted, http_status, AuditMessage,
  failure, retry_exhausted, client_error, SendResult, status_success, status_failed, status_pending,
}

-- Milliseconds.
abbrev pub initial_backoff : ℕ
initial_backoff = 200

abbrev pub backoff_cap : ℕ
backoff_cap = 30000

-- Doubled, up to the cap.
abbrev pub next_backoff : ℕ → ℕ
next_backoff backoff = if ltb backoff_cap (backoff * 2) then backoff_cap else backoff * 2

abbrev pub max_body_dump_bytes : ℕ
max_body_dump_bytes = 8192

pub record Request : Type 0 where
  pub endpoint : Text
  pub content_type : Text
  pub idempotency_key : Text
  pub authorization : Text
  pub body : Text

pub record Response : Type 0 where
  pub status_code : ℕ
  pub body : Text

pub record Outside : Type 0 where
  pub format : PurchaseOrderForSend → Option (Text × Text)  -- the body and its content type
  pub new_request : ℕ → Text → Bool  -- whether the URL makes a request
  pub secret : ℕ → Text → Option Text
  pub reply : ℕ → Request → Option Response  -- `none` is an error of the network
  pub now : ℕ → Time

abbrev pub ptr_str : Text → Option Text
ptr_str [] = none
ptr_str (c ∷ s) = some (c ∷ s)

-- strings.TrimRight(s, "/")
unfoldable pub trim_slashes : Text → Text
trim_slashes [] = []
trim_slashes (c ∷ s) =
    let rest = trim_slashes s in
    elim rest [ [] ↦ if c == 47 then [] else c ∷ [] | d ∷ t ↦ c ∷ d ∷ t ]

unfoldable pub truncate_for_audit : Text → ℕ → Text
truncate_for_audit b n = if leb (length b) n then b else take n b ++ codes "...[truncated]"

-- The rest of the text where it begins with the key.
unfoldable pub strip_prefix : Text → Text → Option Text
strip_prefix [] s = some s
strip_prefix (k ∷ key) [] = none
strip_prefix (k ∷ key) (c ∷ s) = let rest = strip_prefix key s in if k == c then rest else none

-- The rest of the text behind the first occurrence of the key.
unfoldable pub after_key : Text → Text → Option Text
unfolding strip_prefix
after_key key [] = strip_prefix key []
after_key key (c ∷ s) =
    let rest = after_key key s in elim (strip_prefix key (c ∷ s)) [ some t ↦ some t | none ↦ rest ]

-- The text up to the next quotation mark.
unfoldable pub until_quote : Text → Option Text
until_quote [] = none
until_quote (c ∷ s) =
    let rest = until_quote s in
    if c == 34 then some [] else elim rest [ some t ↦ some (c ∷ t) | none ↦ none ]

-- `"key":"`
abbrev pub json_key : Text → Text
json_key k = 34 ∷ (k ++ (34 ∷ 58 ∷ 34 ∷ []))

unfoldable pub first_ref : List Text → Text → Text
unfolding after_key until_quote
first_ref [] body = []
first_ref (k ∷ ks) body =
    let rest = first_ref ks body in
    elim (after_key (json_key k) body) [
      | none ↦ rest
      | some t ↦ elim (until_quote t) [ none ↦ rest | some r ↦ r ]
    ]

unfoldable pub extract_external_ref : Text → Text
extract_external_ref body =
    first_ref (codes "external_ref" ∷ codes "id" ∷ codes "po_number" ∷ []) body

unfoldable pub secret_ref : SupplierChannelConfig → Text
secret_ref cfg = elim cfg.auth_credentials_ref [
  | none ↦ codes "CHANNEL_AUTH_ERP_API"
  | some r ↦ elim r [ [] ↦ codes "CHANNEL_AUTH_ERP_API" | c ∷ s ↦ c ∷ s ]
]

abbrev pub bearer : Option Text → Option Text
bearer none = none
bearer (some []) = none
bearer (some (c ∷ tok)) = some (codes "Bearer " ++ (c ∷ tok))

-- The header `Authorization` that `APIKeyProvider.Apply` sets; `none` is its error.
unfoldable pub apply : (Text → Option Text) → SupplierChannelConfig → Option Text
apply lookup cfg = bearer (lookup (secret_ref cfg))

-- Whether to retry, and the error.
unfoldable pub handle_response : Response → SendResult → (Bool × Option SendError) × SendResult
handle_response resp res =
    let code = resp.status_code in
    let resp_body = take (suc max_body_dump_bytes) resp.body in
    let seen = record res {
      http_status_code = some code;
      response_body = ptr_str (truncate_for_audit resp_body max_body_dump_bytes);
    } in
    if leb 200 code && ltb code 300
    then (
      (false, none),
      record seen {
        status = status_success;
        external_ref = elim (extract_external_ref resp_body) [
          | [] ↦ res.external_ref
          | c ∷ s ↦ some (c ∷ s)
        ];
      },
    )
    else if code == 429 || leb 500 code
    then ((true, some (http_status code)), record seen { status = status_pending })
    else (
      (false, some (http_status code)),
      record seen {
        status = status_failed;
        error_message = some (client_error code (truncate_for_audit resp_body 256));
      },
    )

-- How one pass of the loop ends.
pub data Step : Type 0 where
  stop : SendResult → Option SendError → Step
  again : SendResult → Option SendError → Step

module _ (o : Outside) (po : PurchaseOrderForSend) (cfg : SupplierChannelConfig)
    (body content_type endpoint : Text) where
  -- The body of the loop behind the pause, with the requests that reach the client.
  unfoldable pub attempt_once : ℕ → SendResult → List Request × Step
  attempt_once attempt res =
      if o.new_request attempt endpoint
      then elim (apply (o.secret attempt) cfg) [
        | none ↦ (
          [],
          stop
              (record res {
                status = status_failed;
                error_message = some (failure auth_failed);
                finished_at = some (o.now attempt);
              })
              (some auth_failed),
        )
        | some authorization ↦
            let req : Request = record {
              endpoint = endpoint;
              content_type = content_type;
              idempotency_key = po.po_number;
              authorization = authorization;
              body = body;
            } in
            elim (o.reply attempt req) [
              | none ↦ (req ∷ [], again res (some network_failed))
              | some resp ↦
                  let ((should_retry, e), res') = handle_response resp res in
                  if should_retry
                  then (req ∷ [], again res' e)
                  else (req ∷ [], stop (record res' { finished_at = some (o.now attempt) }) e)
            ]
      ]
      else ([], again res (some request_failed))

  -- Behind the loop.
  unfoldable pub exhausted : ℕ → Option SendError → SendResult → SendResult × Option SendError
  exhausted attempt last_err res = (
    record res {
      status = status_failed;
      error_message = some (retry_exhausted last_err);
      finished_at = some (o.now attempt);
    },
    elim last_err [ none ↦ some retries_exhausted | some e ↦ some e ],
  )

  -- The pause before a retry: the pauses, the next pause and the result.
  abbrev pub pause : ℕ → ℕ → SendResult → List ℕ × ℕ × SendResult
  pause zero backoff res = ([], backoff, res)
  pause (suc n) backoff res =
      (backoff ∷ [], next_backoff backoff, record res { retry_count = suc n })

  -- The loop with `left` passes to go: the result, its error, the requests and the pauses.
  unfoldable pub attempts :
      ℕ
      → ℕ
      → ℕ
      → Option SendError
      → SendResult
      → (SendResult × Option SendError) × List Request × List ℕ
  attempts zero attempt backoff last_err res = (exhausted attempt last_err res, [], [])
  attempts (suc left) attempt backoff last_err res =
      let (slept, next, res1) = pause attempt backoff res in
      let (reqs, step) = attempt_once attempt res1 in
      elim step [
        | stop res2 e ↦ ((res2, e), reqs, slept)
        | again res2 e ↦
            let (out, more, pauses) = attempts left (suc attempt) next e res2 in
            (out, reqs ++ more, slept ++ pauses)
      ]

-- `cfg.RetryMax`, or 3
unfoldable pub retries : SupplierChannelConfig → ℕ
retries cfg = if leb_ℤ cfg.retry_max (pos 0) then 3 else pos_part cfg.retry_max

abbrev pub new_result : SendResult
new_result = record {
  external_ref = none;
  status = [];
  http_status_code = none;
  request_body = none;
  response_body = none;
  error_message = none;
  retry_count = 0;
  finished_at = none;
}

unfoldable pub send :
    Outside
    → PurchaseOrderForSend
    → SupplierChannelConfig
    → (SendResult × Option SendError) × List Request × List ℕ
send o po cfg = elim (o.format po) [
  | none ↦ (
    (
      record new_result {
        status = status_failed;
        error_message = some (failure format_failed);
        finished_at = some (o.now 0);
      },
      some format_failed,
    ),
    [],
    [],
  )
  | some (body, content_type) ↦
      let res = record new_result {
        request_body = ptr_str (truncate_for_audit body max_body_dump_bytes);
      } in
      elim (trim_slashes cfg.endpoint_url) [
        | [] ↦ (
          (
            record res {
              status = status_failed;
              error_message = some (failure empty_endpoint);
              finished_at = some (o.now 0);
            },
            some empty_endpoint,
          ),
          [],
          [],
        )
        | c ∷ s ↦
            attempts o po cfg body content_type (c ∷ s) (suc (retries cfg)) 0 initial_backoff none
              res
      ]
]
