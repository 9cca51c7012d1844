-- ===== src/Etl/Extractor/Client/Repeating.antt =====
-- How the repetitions of a request in Client.Do end.
use forecast_e_zoo.Common.{
  ℕ, zero, suc, ◌+◌, ◌≤◌, ◌<◌, ◌≡◌, refl, ap, ◌∙◌, Bool, true, false, List, ◌⊎◌, arith,
}
use forecast_e_zoo.Common.Text.{Text}
use forecast_e_zoo.Etl.Extractor.{not_exported}
use forecast_e_zoo.Etl.Extractor.Client.{
  Answer, answered, broken, canceled, Outcome, response, request_canceled, retry_exhausted, Call,
  ClientConfig, initial_backoff, retries, cap, is_retried, next_backoff, sent_once, one_more,
  attempted, attempts, do_request, fetched_page,
}

-- The answers after which another request is sent.
abbrev is_repeated : Answer → Bool
is_repeated canceled = false
is_repeated broken = true
is_repeated (answered status) = is_retried status

-- From this attempt on, so many answers ask for another request.
abbrev Repeated : (ℕ → Answer) → ℕ → ℕ → Type 0
Repeated reply attempt zero = Unit
Repeated reply attempt (suc n) =
    (is_repeated (reply attempt) ≡ true) × Repeated reply (suc attempt) n

abbrev outcome_of : Answer → Outcome
outcome_of canceled = request_canceled
outcome_of broken = retry_exhausted
outcome_of (answered status) = response status

attempted-last :
    (a : Answer) (rest : Call) → is_repeated a ≡ false → attempted a rest ≡ sent_once (outcome_of a)
attempted-last canceled rest h = refl
attempted-last broken rest h = absurd (ground arith)
attempted-last (answered status) rest h = rw h refl

attempted-again :
    (a : Answer) (rest : Call) → is_repeated a ≡ true → attempted a rest ≡ one_more rest
attempted-again canceled rest h = absurd (ground arith)
attempted-again broken rest h = refl
attempted-again (answered status) rest h = rw h refl

-- The outcome of a call and the requests it has sent, which the pauses do not change.
abbrev result : Call → Outcome × ℕ
result call = (call.outcome, call.requests)

module _ (reply : ℕ → Answer) (limit : ℕ) where
  result-attempts :
      (left attempt backoff : ℕ)
      → (next : ℕ) × (result (attempts reply limit (suc left) attempt backoff)
          ≡ result (attempted (reply attempt) (attempts reply limit left (suc attempt) next)))
  unfolding attempts
  result-attempts left zero backoff = (backoff, refl)
  result-attempts left (suc n) backoff = (next_backoff limit backoff, refl)

  attempts-ended :
      (n left attempt backoff last : ℕ)
      → n < left
      → last ≡ attempt + n
      → Repeated reply attempt n
      → is_repeated (reply last) ≡ false
      → result (attempts reply limit left attempt backoff) ≡ (outcome_of (reply last), suc n)
  attempts-ended n zero attempt backoff last h e r end = absurd (omega arith)
  attempts-ended zero (suc left) attempt backoff last h e r end =
      let here : last ≡ attempt = omega arith in
      let (next, step) = result-attempts left attempt backoff in
      step
      ∙ ap result (
          attempted-last (reply attempt) (attempts reply limit left (suc attempt) next)
            (rw here at end))
      ∙ rw here refl
  attempts-ended (suc n) (suc left) attempt backoff last h e (again, r) end =
      let (next, step) = result-attempts left attempt backoff in
      let later = attempts-ended n left (suc attempt) next last (omega arith) (omega arith) r end in
      step
      ∙ ap result
          (attempted-again (reply attempt) (attempts reply limit left (suc attempt) next) again)
      ∙ ap (λ (p : Outcome × ℕ). (p.0, suc p.1)) later

  attempts-exhausted :
      (left attempt backoff : ℕ)
      → Repeated reply attempt left
      → result (attempts reply limit left attempt backoff) ≡ (retry_exhausted, left)
  unfolding attempts
  attempts-exhausted zero attempt backoff r = refl
  attempts-exhausted (suc left) attempt backoff (again, r) =
      let (next, step) = result-attempts left attempt backoff in
      let later = attempts-exhausted left (suc attempt) next r in
      step
      ∙ ap result
          (attempted-again (reply attempt) (attempts reply limit left (suc attempt) next) again)
      ∙ ap (λ (p : Outcome × ℕ). (p.0, suc p.1)) later

-- A call with a token ends with the first answer that asks for no other request, when it comes within
-- the retries, after one request for each answer up to it.
do_request-ended :
    (cfg : ClientConfig) (reply : ℕ → Answer) (n : ℕ)
    → n ≤ retries cfg
    → Repeated reply 0 n
    → is_repeated (reply n) ≡ false
    → result (do_request cfg true reply) ≡ (outcome_of (reply n), suc n)
unfolding do_request
do_request-ended cfg reply n h r end =
    attempts-ended reply (cap cfg) n (suc (retries cfg)) 0 initial_backoff n (omega arith)
      (omega arith) r end

-- When every answer asks for another request, the call fails after one more request than retries.
do_request-exhausted :
    (cfg : ClientConfig) (reply : ℕ → Answer)
    → Repeated reply 0 (suc (retries cfg))
    → result (do_request cfg true reply) ≡ (retry_exhausted, suc (retries cfg))
unfolding do_request
do_request-exhausted cfg reply r =
    attempts-exhausted reply (cap cfg) (suc (retries cfg)) 0 initial_backoff r

-- An entity that the source does not export (404 or 501) is an empty page after the first request,
-- although the other statuses from 500 on are tried again.
do_request_not_exported :
    {A : Type 0} (cfg : ClientConfig) (reply : ℕ → Answer) (status : ℕ) (rows : List A)
    (next : Text)
    → (status ≡ 404) ⊎ (status ≡ 501)
    → reply 0 ≡ answered status
    → let call = do_request cfg true reply in
      (fetched_page rows next call.outcome ≡ not_exported) × (call.requests ≡ 1)
unfolding fetched_page
do_request_not_exported cfg reply status rows next missing h =
    let end : is_repeated (answered status) ≡ false = ground (arith, missing) in
    let call = do_request-ended cfg reply 0 (omega arith) tt (rw h end) in
    let named : fetched_page rows next (response status) ≡ not_exported = ground (arith, missing) in
    (ap (λ (p : Outcome × ℕ). fetched_page rows next p.0) call ∙ rw h named, ap (λ p. p.1) call)
