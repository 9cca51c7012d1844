-- ===== src/Channels/Sender/Retry.antt =====
-- The retries of `Send`: how many there are, how long the pauses, what the requests carry, and how
-- the call ends.
use mathlib.Core.Path.{◌≡◌, refl}
use forecast_e_zoo.Common.{
  All-append, ℕ, zero, suc, ◌+◌, ◌≤◌, true, Option, none, some, List, [], ◌∷◌, ◌++◌, inl, inr, ◌⊎◌,
  arith, length, length-append, List-cases, All, Bool-cases, Option-cases,
}
use forecast_e_zoo.Common.Text.{Text, codes}
use forecast_e_zoo.Channels.Models.{
  SupplierChannelConfig, PurchaseOrderForSend, SendError, auth_failed, format_failed,
  empty_endpoint, retries_exhausted, http_status, SendResult, status_success, status_failed,
}
use forecast_e_zoo.Channels.Sender.{
  initial_backoff, backoff_cap, next_backoff, Request, Response, Outside, trim_slashes, secret_ref,
  bearer, apply, handle_response, Step, stop, again, attempt_once, exhausted, attempts, retries,
  send, new_result, ptr_str, truncate_for_audit, max_body_dump_bytes,
}

-- A call has ended: with success and no error, or with failure and an error.
abbrev pub Ended : SendResult → Option SendError → Type 0
Ended res e =
    (((res.status ≡ status_success) × (e ≡ none))
      ⊎ ((res.status ≡ status_failed) × ((x : SendError) × (e ≡ some x))))
    × ((t : ℕ) × (res.finished_at ≡ some t))

handle_response-ends :
    (resp : Response) (res : SendResult)
    → let ((retry, e), res') = handle_response resp res in
      (retry ≡ true)
      ⊎ ((res'.status ≡ status_success) × (e ≡ none))
      ⊎ ((res'.status ≡ status_failed) × (e ≡ some (http_status resp.status_code)))
unfolding handle_response
handle_response-ends resp res = ground arith

-- A request carries the number of the order as its key, and a token.
abbrev pub Keyed : PurchaseOrderForSend → Request → Type 0
Keyed po r =
    (r.idempotency_key ≡ po.po_number)
    × ((token : Text) × (r.authorization ≡ codes "Bearer " ++ token))

apply-bearer :
    (lookup : Text → Option Text) (cfg : SupplierChannelConfig) {a : Text}
    → apply lookup cfg ≡ some a
    → (token : Text) × (a ≡ codes "Bearer " ++ token)
unfolding apply
apply-bearer lookup cfg {a} h = go (lookup (secret_ref cfg)) h
  where
    go : (o : Option Text) → bearer o ≡ some a → (token : Text) × (a ≡ codes "Bearer " ++ token)
    go none k = cc
    go (some []) k = cc
    go (some (c ∷ tok)) k = (c ∷ tok, ground arith)

module _ (o : Outside) (po : PurchaseOrderForSend) (cfg : SupplierChannelConfig)
    (body content_type endpoint : Text) where
  -- What one pass of the loop does: at most one request, and if it is the last one the call has ended.
  abbrev Passed : List Request × Step → Type 0
  Passed (reqs, step) =
      (length reqs ≤ 1)
      × All (Keyed po) reqs
      × elim step [ stop res e ↦ Ended res e | again res e ↦ Unit ]

  attempt_once-Passed :
      (attempt : ℕ) (res : SendResult)
      → Passed (attempt_once o po cfg body content_type endpoint attempt res)
  unfolding attempt_once
  attempt_once-Passed attempt res = elim (Bool-cases (o.new_request attempt endpoint)) [
    | inr e ↦ rw e (omega arith, tt, tt)
    | inl e ↦ rw e (elim (Option-cases (apply (o.secret attempt) cfg)) [
      | inl k ↦ rw k (omega arith, tt, (inr (refl, (auth_failed, refl)), (o.now attempt, refl)))
      | inr (a, k) ↦ rw k (elim (Option-cases (o.reply attempt (made a))) [
        | inl r ↦ rw r (omega arith, (keyed a k, tt), tt)
        | inr (resp, r) ↦ rw r (elim (handle_response-ends resp res) [
          | inl y ↦ rw y (omega arith, (keyed a k, tt), tt)
          | inr (inl (st, e')) ↦ elim (Bool-cases (handle_response resp res).0.0) [
            | inl b ↦ rw b (omega arith, (keyed a k, tt), tt)
            | inr b ↦ rw b (omega arith, (keyed a k, tt), (inl (st, e'), (o.now attempt, refl)))
          ]
          | inr (inr (st, e')) ↦ elim (Bool-cases (handle_response resp res).0.0) [
            | inl b ↦ rw b (omega arith, (keyed a k, tt), tt)
            | inr b ↦ rw b (
              omega arith,
              (keyed a k, tt),
              (inr (st, (http_status resp.status_code, e')), (o.now attempt, refl)),
            )
          ]
        ])
      ])
    ])
  ]
    where
      made : Text → Request
      made a = record {
        endpoint = endpoint;
        content_type = content_type;
        idempotency_key = po.po_number;
        authorization = a;
        body = body;
      }

      keyed : (a : Text) → apply (o.secret attempt) cfg ≡ some a → Keyed po (made a)
      keyed a k = (refl, apply-bearer (o.secret attempt) cfg k)

  abbrev Outcome : Type 0
  Outcome = (SendResult × Option SendError) × List Request × List ℕ

  -- What the loop does with at most so many requests and so many pauses.
  abbrev Looped : ℕ → ℕ → Outcome → Type 0
  Looped most_requests most_pauses ((res, e), reqs, pauses) =
      (length reqs ≤ most_requests)
      × (length pauses ≤ most_pauses)
      × All (λ p. p ≤ backoff_cap) pauses
      × All (Keyed po) reqs
      × Ended res e

  -- One pass before a rest of the loop.
  pass-Looped :
      (once : List Request × Step) (slept : List ℕ) (rest : SendResult → Option SendError → Outcome)
      (m n p : ℕ)
      → length slept + n ≤ p
      → Passed once
      → All (λ p. p ≤ backoff_cap) slept
      → ((res : SendResult) (e : Option SendError) → Looped m n (rest res e))
      → let out : Outcome = elim once.1 [
        | stop res2 e ↦ ((res2, e), once.0, slept)
        | again res2 e ↦
            let (out, more, pauses) = rest res2 e in (out, once.0 ++ more, slept ++ pauses)
      ] in
        Looped (suc m) p out
  pass-Looped (reqs, stop res e) slept rest m n p l h k r =
      (omega (arith, h.0), omega (arith, l), k, h.1, h.2)
  pass-Looped (reqs, again res e) slept rest m n p l h k r =
      let (a, b, c, d, end) = r res e in
      (
        omega (arith, h.0, a, length-append reqs (rest res e).1),
        omega (arith, b, l, length-append slept (rest res e).2),
        All-append (λ p. p ≤ backoff_cap) slept (rest res e).2 k c,
        All-append (Keyed po) reqs (rest res e).1 h.1 d,
        end,
      )

  attempts-Looped :
      (left n backoff : ℕ) (last_err : Option SendError) (res : SendResult)
      → backoff ≤ backoff_cap
      → Looped left left
          (attempts o po cfg body content_type endpoint left (suc n) backoff last_err res)
  unfolding attempts exhausted
  attempts-Looped zero n backoff last_err res h =
      (omega arith, omega arith, tt, tt, (inr (refl, given last_err), (o.now (suc n), refl)))
    where
      given :
          (e : Option SendError)
          → (x : SendError) × (elim e [ none ↦ some retries_exhausted | some y ↦ some y ] ≡ some x)
      given none = (retries_exhausted, refl)
      given (some y) = (y, refl)
  attempts-Looped (suc left) n backoff last_err res h =
      pass-Looped
        (attempt_once o po cfg body content_type endpoint (suc n)
          (record res { retry_count = suc n }))
        (backoff ∷ [])
        (λ res2 e.
          attempts o po cfg body content_type endpoint left (suc (suc n)) (next_backoff backoff) e
            res2)
        left left (suc left) (omega arith)
        (attempt_once-Passed (suc n) (record res { retry_count = suc n })) (h, tt)
        (λ res2 e. attempts-Looped left (suc n) (next_backoff backoff) e res2 (ground arith))

  first-Looped :
      (left : ℕ) (res : SendResult)
      → Looped
          (suc left)
          left
          (attempts o po cfg body content_type endpoint (suc left) 0 initial_backoff none res)
  unfolding attempts
  first-Looped left res =
      pass-Looped (attempt_once o po cfg body content_type endpoint 0 res) []
        (λ res2 e. attempts o po cfg body content_type endpoint left 1 initial_backoff e res2) left
        left left (omega arith) (attempt_once-Passed 0 res) tt
        (λ res2 e. attempts-Looped left 0 initial_backoff e res2 (omega arith))

-- A send makes at most one request more than the retries of its configuration and at most that many
-- pauses, each of at most 30 seconds; every request carries the number of the order as its
-- idempotency key, and a bearer token; and the call ends at a recorded time, either with success and
-- no error or with failure and an error, never pending.
pub send-Looped :
    (o : Outside) (po : PurchaseOrderForSend) (cfg : SupplierChannelConfig)
    → let ((res, e), reqs, pauses) = send o po cfg in
      (length reqs ≤ retries cfg + 1)
      × (length pauses ≤ retries cfg)
      × All (λ p. p ≤ backoff_cap) pauses
      × All (Keyed po) reqs
      × Ended res e
unfolding send
send-Looped o po cfg = elim (Option-cases (o.format po)) [
  | inl k ↦
      rw (k, send)
        (omega arith, omega arith, tt, tt, (inr (refl, (format_failed, refl)), (o.now 0, refl)))
  | inr ((body, content_type), k) ↦ (elim (List-cases (trim_slashes cfg.endpoint_url)) [
    | inl e ↦
        rw (k, e, send)
          (omega arith, omega arith, tt, tt, (inr (refl, (empty_endpoint, refl)), (o.now 0, refl)))
    | inr (c, s, e) ↦ rw (k, e, send) (ready body content_type (c ∷ s))
  ])
]
  where
    ready :
        (body content_type endpoint : Text)
        → let ((res, e), reqs, pauses) =
            attempts o po cfg body content_type endpoint
              (suc (retries cfg))
              0
              initial_backoff
              none
              (record new_result {
                request_body = ptr_str (truncate_for_audit body max_body_dump_bytes);
              }) in
          (length reqs ≤ retries cfg + 1)
          × (length pauses ≤ retries cfg)
          × All (λ p. p ≤ backoff_cap) pauses
          × All (Keyed po) reqs
          × Ended res e
    ready body content_type endpoint =
        let (a, b, c, d, end) =
          first-Looped o po cfg body content_type endpoint (retries cfg) (record new_result {
            request_body = ptr_str (truncate_for_audit body max_body_dump_bytes);
          }) in
        (omega (arith, a), b, c, d, end)
