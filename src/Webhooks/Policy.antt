-- ===== src/Webhooks/Policy.antt =====
-- lib/integrations/customer-webhooks/delivery-policy.ts: what the outcome of an attempt means for a
-- delivery. `none` is a throw; `Date.parse` is the parameter `parse_date`, where a time before the
-- epoch may be given as the epoch, since the delay is at least 0.
pub mod Laws
use signalstack_sms.Prelude.{
  ℕ, ◌+◌, ◌-◌, ◌*◌, ◌/◌, ◌^◌, min, max, Bool, true, false, not, ◌&&◌, ◌||◌, Option, none, some,
  List, [], ◌∷◌, leb, ltb, ◌==◌, if◌then◌else◌, is_some, is_none, or_else, length, all,
}
use signalstack_sms.Text.{Text, is_digit, trim, between}

abbrev pub max_backoff_seconds : ℕ
max_backoff_seconds = 21600

pub data TransportFailure : Type 0 where
  network timeout unsafe_endpoint : TransportFailure

pub data Outcome : Type 0 where
  delivered retry failed disable : Outcome

pub data Reason : Type 0 where
  acknowledged receiver_gone unsafe_endpoint retryable_transport retryable_status attempts_exhausted
        permanent_status :
      Reason

pub record Decision : Type 0 where
  pub outcome : Outcome
  pub reason : Reason
  pub retry_delay_seconds : Option ℕ
  pub retry_after_accepted : Bool

pub record AttemptResult : Type 0 where
  pub attempt_number : ℕ
  pub max_attempts : ℕ
  pub status_code : Option ℕ
  pub transport_failure : Option TransportFailure
  pub retry_after_header : Option Text
  pub now_milliseconds : ℕ

abbrev pub decision : Outcome → Reason → Decision
decision o r = record {
  outcome = o;
  reason = r;
  retry_delay_seconds = none;
  retry_after_accepted = false;
}

-- `customerWebhookBackoffSeconds`, at an attempt number that is in its bounds.
unfoldable pub backoff_seconds : ℕ → ℕ
backoff_seconds n = min max_backoff_seconds (30 * 4 ^ (n - 1))

abbrev pub decimal_value : ℕ → Text → ℕ
decimal_value acc [] = acc
decimal_value acc (c ∷ s) = decimal_value (acc * 10 + (c - b'0')) s

-- `parseCustomerWebhookRetryAfter`
unfoldable pub parse_retry_after : (Text → Option ℕ) → Option Text → ℕ → Option ℕ
parse_retry_after parse_date none now = none
parse_retry_after parse_date (some value) now =
    if between 1 128 (length value)
    then (if between 1 10 (length (trim value)) && all is_digit (trim value)
        then some (min (decimal_value 0 (trim value)) max_backoff_seconds)
        else elim (parse_date (trim value)) [
          | none ↦ none
          | some at_time ↦ some (min ((at_time - now + 999) / 1000) max_backoff_seconds)
        ])
    else none

-- `assertAttemptBounds`
unfoldable pub attempt_bounds_hold : ℕ → ℕ → Bool
attempt_bounds_hold n limit = between 1 12 limit && between 1 limit n

-- The result has exactly one kind, and a status is in range.
abbrev pub result_is_valid : Option ℕ → Option TransportFailure → Bool
result_is_valid (some code) none = between 100 599 code
result_is_valid none (some f) = true
result_is_valid _ _ = false

abbrev pub is_acknowledged : Option ℕ → Bool
is_acknowledged none = false
is_acknowledged (some code) = between 200 299 code

abbrev pub is_gone : Option ℕ → Bool
is_gone none = false
is_gone (some code) = code == 410

abbrev pub is_unsafe : Option TransportFailure → Bool
is_unsafe (some TransportFailure.unsafe_endpoint) = true
is_unsafe _ = false

abbrev pub is_retryable_status : Option ℕ → Bool
is_retryable_status none = false
is_retryable_status (some code) =
    code == 408 || code == 409 || code == 425 || code == 429 || between 500 599 code

-- The decision to try again.
unfoldable pub retry_decision : (Text → Option ℕ) → AttemptResult → Decision
unfolding backoff_seconds
retry_decision parse_date r =
    let after = parse_retry_after parse_date r.retry_after_header r.now_milliseconds in
    record {
      outcome = Outcome.retry;
      reason = if is_some r.transport_failure then retryable_transport else retryable_status;
      retry_delay_seconds =
          some (min max_backoff_seconds (max (backoff_seconds r.attempt_number) (or_else after 0)));
      retry_after_accepted = is_some after;
    }

-- `classifyCustomerWebhookAttempt`
unfoldable pub classify_attempt : (Text → Option ℕ) → AttemptResult → Option Decision
unfolding attempt_bounds_hold
classify_attempt parse_date r =
    if not (attempt_bounds_hold r.attempt_number r.max_attempts)
    then none
    else if not (result_is_valid r.status_code r.transport_failure)
    then none
    else if is_acknowledged r.status_code
    then some (decision Outcome.delivered acknowledged)
    else if is_gone r.status_code
    then some (decision Outcome.disable receiver_gone)
    else if is_unsafe r.transport_failure
    then some (decision Outcome.disable Reason.unsafe_endpoint)
    else if not (is_some r.transport_failure || is_retryable_status r.status_code)
    then some (decision Outcome.failed permanent_status)
    else if leb r.max_attempts r.attempt_number
    then some (decision Outcome.failed attempts_exhausted)
    else some (retry_decision parse_date r)
