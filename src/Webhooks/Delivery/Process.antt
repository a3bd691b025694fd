-- ===== src/Webhooks/Delivery/Process.antt =====
-- worker.ts, `processClaimedCustomerWebhookDelivery` and the batch around it. Signing the request
-- and posting it are outside of the model: how they end is an argument.
use signalstack_sms.Prelude.{
  ℕ, ◌+◌, String, Bool, true, false, Option, none, some, List, [], ◌∷◌, if◌then◌else◌,
}
use signalstack_sms.Text.{Text}
use signalstack_sms.Webhooks.Policy.{
  Decision, Outcome, Reason, TransportFailure, decision, classify_attempt,
}
use signalstack_sms.Webhooks.Model.{Tx, ◌>>=◌, return}
use signalstack_sms.Webhooks.Delivery.{Claim, Prepared}
use signalstack_sms.Webhooks.Delivery.Finalize.{finalize_claimed_delivery, is_delivered, is_retry}

-- What `createSignedRequest` may throw.
pub data PreparationError : Type 0 where
  preparation : (code : String) (retryable : Bool) → PreparationError
  invalid_master_key signing_secret unexpected : PreparationError

pub data TransportCode : Type 0 where
  invalid_request unsafe_endpoint dns_timeout dns_lookup_failed request_timeout response_timeout
        response_too_large network_error :
      TransportCode

-- How `postCustomerWebhook` ends.
pub data PostResult : Type 0 where
  responded : (status_code : ℕ) (retry_after : Option Text) → PostResult
  transport_error : TransportCode → PostResult
  post_threw : PostResult

pub data ClaimOutcome : Type 0 where
  delivered retry failed skipped : ClaimOutcome

pub record Verdict : Type 0 where
  pub decision : Decision
  pub status_code : Option ℕ
  pub error_code : Option String

abbrev pub transport_code : TransportCode → String
transport_code invalid_request = "INVALID_REQUEST"
transport_code unsafe_endpoint = "UNSAFE_ENDPOINT"
transport_code dns_timeout = "DNS_TIMEOUT"
transport_code dns_lookup_failed = "DNS_LOOKUP_FAILED"
transport_code request_timeout = "REQUEST_TIMEOUT"
transport_code response_timeout = "RESPONSE_TIMEOUT"
transport_code response_too_large = "RESPONSE_TOO_LARGE"
transport_code network_error = "NETWORK_ERROR"

abbrev pub transport_failure : TransportCode → TransportFailure
transport_failure TransportCode.unsafe_endpoint = TransportFailure.unsafe_endpoint
transport_failure TransportCode.dns_timeout = TransportFailure.timeout
transport_failure TransportCode.request_timeout = TransportFailure.timeout
transport_failure TransportCode.response_timeout = TransportFailure.timeout
transport_failure _ = TransportFailure.network

abbrev pub is_permanent : TransportCode → Bool
is_permanent TransportCode.invalid_request = true
is_permanent TransportCode.response_too_large = true
is_permanent _ = false

abbrev pub permanent_failure : Decision
permanent_failure = decision Outcome.failed Reason.permanent_status

module _ (parse_date : Text → Option ℕ) (p : Prepared) (now : ℕ) where
  -- `retryOrDisableDecision`
  unfoldable pub retry_or_disable : TransportFailure → Option Decision
  retry_or_disable f = classify_attempt parse_date (record {
    attempt_number = p.attempt_number;
    max_attempts = p.max_attempts;
    status_code = none;
    transport_failure = some f;
    retry_after_header = none;
    now_milliseconds = now;
  })

  abbrev pub with_code : Option ℕ → String → Option Decision → Option Verdict
  with_code status code none = none
  with_code status code (some q) =
      some (record { decision = q; status_code = status; error_code = some code })

  -- `classifyPreparationFailure`
  unfoldable pub classify_preparation_failure : PreparationError → Option Verdict
  classify_preparation_failure (preparation code retryable) =
      with_code none code
        (if retryable then retry_or_disable TransportFailure.network else some permanent_failure)
  classify_preparation_failure invalid_master_key =
      with_code none "SIGNING_KEY_UNAVAILABLE" (retry_or_disable TransportFailure.network)
  classify_preparation_failure signing_secret =
      with_code none "SIGNING_SECRET_DECRYPTION_FAILED" (some permanent_failure)
  classify_preparation_failure unexpected =
      with_code none "DELIVERY_PREPARATION_FAILED" (retry_or_disable TransportFailure.network)

  -- `classifyTransportFailure`, of an error of the transport and of any other error
  unfoldable pub classify_transport_failure : Option ℕ → Option TransportCode → Option Verdict
  classify_transport_failure status none =
      with_code status "NETWORK_ERROR" (retry_or_disable TransportFailure.network)
  classify_transport_failure status (some code) = with_code status (transport_code code) (
      if is_permanent code
      then some permanent_failure
      else retry_or_disable (transport_failure code))

  unfoldable pub classify_response : ℕ → Option Text → Option Decision
  classify_response status retry_after = classify_attempt parse_date (record {
    attempt_number = p.attempt_number;
    max_attempts = p.max_attempts;
    status_code = some status;
    transport_failure = none;
    retry_after_header = retry_after;
    now_milliseconds = now;
  })

  -- A throw of the classification itself is caught as a failure of the transport.
  unfoldable pub classify_post : PostResult → Option Verdict
  classify_post (responded status retry_after) = elim (classify_response status retry_after) [
    | none ↦ classify_transport_failure (some status) none
    | some q ↦ some (record { decision = q; status_code = some status; error_code = none })
  ]
  classify_post (transport_error code) = classify_transport_failure none (some code)
  classify_post post_threw = classify_transport_failure none none

  -- The request is only posted when it was signed.
  unfoldable pub decide_attempt : Option PreparationError → PostResult → Option Verdict
  decide_attempt (some e) post = classify_preparation_failure e
  decide_attempt none post = classify_post post

unfoldable pub claim_outcome : Bool → Outcome → ClaimOutcome
claim_outcome false o = skipped
claim_outcome true o = if is_delivered o then delivered else if is_retry o then retry else failed

module _ (delivery_id : String → String) (event_id : String) where
  -- What follows the attempt: its verdict is written in a transaction of its own.
  unfoldable pub record_verdict : Claim → Prepared → Option Verdict → ℕ → Tx ClaimOutcome
  record_verdict c p none now db = none
  record_verdict c p (some v) now db =
      (finalize_claimed_delivery delivery_id event_id c p v.decision
            (record {
              request_timestamp = p.request_timestamp;
              status_code = v.status_code;
              error_code = v.error_code;
            })
            now
          >>= λ finalized. return (claim_outcome finalized v.decision.outcome))
        db

-- The four counts of `processDueCustomerWebhookDeliveries`; a throw counts as skipped.
pub record RunResult : Type 0 where
  pub claimed : ℕ
  pub delivered_count : ℕ
  pub retried : ℕ
  pub failed_count : ℕ
  pub skipped_count : ℕ

unfoldable pub count_outcome : Option ClaimOutcome → RunResult → RunResult
count_outcome (some delivered) r = record r { delivered_count = r.delivered_count + 1 }
count_outcome (some retry) r = record r { retried = r.retried + 1 }
count_outcome (some failed) r = record r { failed_count = r.failed_count + 1 }
count_outcome (some skipped) r = record r { skipped_count = r.skipped_count + 1 }
count_outcome none r = record r { skipped_count = r.skipped_count + 1 }

unfoldable pub count_outcomes : List (Option ClaimOutcome) → RunResult → RunResult
count_outcomes [] r = r
count_outcomes (o ∷ rest) r = count_outcomes rest (count_outcome o r)
