-- ===== src/Etl/Extractor/Client.antt =====
-- internal/features/etl_validation/extractor/client.go: one call of `Client.Do`, with its repetitions.
-- What the HTTP library answers to each attempt, and whether there is a token, are parameters. Times
-- are milliseconds. Only the status of an answer is kept.
pub mod Repeating
use forecast_e_zoo.Common.{
  ℕ, zero, suc, ◌*◌, ◌==◌, leb, ltb, Bool, true, false, List, [], ◌∷◌, ◌&&◌, ◌||◌, not,
  if◌then◌else◌,
}
use forecast_e_zoo.Common.Text.{Text}
use forecast_e_zoo.Etl.Extractor.{Fetched, fetched, unchanged, not_exported, unavailable}
use forecast_e_zoo.Common.Int.{ℤ, pos, leb_ℤ, pos_part}

pub data Answer : Type 0 where
  answered : ℕ → Answer  -- the status
  broken : Answer
  canceled : Answer  -- canceled, or after the deadline

-- How a call ends.
pub data Outcome : Type 0 where
  response : ℕ → Outcome
  no_token : Outcome
  request_canceled : Outcome
  retry_exhausted : Outcome

-- Ended calls, with the requests that were sent and the pauses before them.
pub record Call : Type 0 where
  pub outcome : Outcome
  pub requests : ℕ
  pub pauses : List ℕ

pub record ClientConfig : Type 0 where
  pub retry_max : ℤ
  pub backoff_cap : ℤ

abbrev pub default_retry_max : ℕ
default_retry_max = 3

abbrev pub default_backoff_cap : ℕ
default_backoff_cap = 30000

abbrev pub initial_backoff : ℕ
initial_backoff = 100

abbrev pub backoff_multiplier : ℕ
backoff_multiplier = 2

-- The limits that `NewClient` leaves in the configuration.
abbrev pub retries : ClientConfig → ℕ
retries cfg = if leb_ℤ cfg.retry_max (pos 0) then default_retry_max else pos_part cfg.retry_max

abbrev pub cap : ClientConfig → ℕ
cap cfg = if leb_ℤ cfg.backoff_cap (pos 0) then default_backoff_cap else pos_part cfg.backoff_cap

-- The statuses that are worth another request.
abbrev pub is_retried : ℕ → Bool
is_retried status = (leb 500 status && not (status == 501)) || status == 429

abbrev pub next_backoff : ℕ → ℕ → ℕ
next_backoff limit backoff =
    let doubled = backoff * backoff_multiplier in if ltb limit doubled then limit else doubled

abbrev pub sent_once : Outcome → Call
sent_once o = record { outcome = o; requests = 1; pauses = [] }

abbrev pub one_more : Call → Call
one_more call = record call { requests = suc call.requests }

abbrev pub after_pause : ℕ → Call → Call
after_pause backoff call = record call { pauses = backoff ∷ call.pauses }

-- The request of an attempt; `rest` is what the next attempts make of the call.
abbrev pub attempted : Answer → Call → Call
attempted canceled rest = sent_once request_canceled
attempted broken rest = one_more rest
attempted (answered status) rest =
    if is_retried status then one_more rest else sent_once (response status)

-- The loop of `Do`, with `left` attempts up to the limit.
unfoldable pub attempts : (ℕ → Answer) → ℕ → ℕ → ℕ → ℕ → Call
attempts reply limit zero attempt backoff = record {
  outcome = retry_exhausted;
  requests = 0;
  pauses = [];
}
attempts reply limit (suc left) zero backoff =
    attempted (reply 0) (attempts reply limit left 1 backoff)
attempts reply limit (suc left) (suc n) backoff = after_pause backoff (
    attempted (reply (suc n))
      (attempts reply limit left (suc (suc n)) (next_backoff limit backoff)))

unfoldable pub do_request : ClientConfig → Bool → (ℕ → Answer) → Call
unfolding attempts
do_request cfg false reply = record { outcome = no_token; requests = 0; pauses = [] }
do_request cfg true reply = attempts reply (cap cfg) (suc (retries cfg)) 0 initial_backoff

-- What `fetchPage` makes of a call by its status; the rows and the next cursor are those of the answer.
unfoldable pub fetched_page : {A : Type 0} → List A → Text → Outcome → Fetched A
fetched_page rows next (response status) =
    if status == 200
    then fetched rows next
    else if status == 304
    then unchanged
    else if status == 404 || status == 501
    then not_exported
    else unavailable
fetched_page rows next no_token = unavailable
fetched_page rows next request_canceled = unavailable
fetched_page rows next retry_exhausted = unavailable
