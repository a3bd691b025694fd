-- ===== src/Webhooks/Tests.antt =====
-- One delivery of one event, and the theorems on deliveries at it.
use signalstack_sms.Prelude.{
  ℕ, String, true, false, none, some, Option, [], ◌∷◌, ◌≡◌, ◌⊎◌, refl, find, find_row, update_row,
  codes,
}
use signalstack_sms.Text.{Text, trim, trim_start, is_space, is_digit, is_lower}
use signalstack_sms.Webhooks.Policy.{
  Outcome, Reason, acknowledged, Decision, AttemptResult, decision, backoff_seconds,
  parse_retry_after, retry_decision, classify_attempt, attempt_bounds_hold, receiver_gone,
}
use signalstack_sms.Webhooks.Policy.Laws.{IsBounded, classify_attempt-IsBounded}
use signalstack_sms.Webhooks.Model.{
  DeliveryStatus, decided, Endpoint, Delivery, DeliveryAttempt, Store, find_delivery, find_endpoint,
  find_attempt, update_delivery, update_attempt, update_endpoint, create_attempt, same_attempt,
}
use signalstack_sms.Webhooks.Outbox.{
  is_bounded_identifier, new_event, write_event, deliveries_for, is_subscribed, active_secret,
  add_delivery, new_delivery, OutboxInput, enqueue_event, outbox_input_is_valid,
  is_customer_webhook_event_type, is_bounded_safe_text, is_aggregate_type,
}
use signalstack_sms.Webhooks.Outbox.Laws.{enqueue_event-once}
use signalstack_sms.Webhooks.Delivery.{
  Claim, Prepared, Evidence, is_identifier, is_processing_token, claim_is_valid,
  prepared_matches_claim, evidence_is_valid,
}
use signalstack_sms.Webhooks.Delivery.Prepare.{
  is_held, delivery_endpoint, included, unfinished_attempt, new_attempt, prepared_delivery,
  leased_delivery, reserve_attempt, prepare_held, prepare_claimed_delivery, close_attempt,
}
use signalstack_sms.Webhooks.Delivery.Finalize.{
  is_current, is_reserved, finalize_current, finalize_claimed_delivery, completed_attempt, settle,
  deliver, delivered_delivery, healthy_endpoint, error_of, fail_delivery,
}
use signalstack_sms.Webhooks.Delivery.Process.{responded, decide_attempt, record_verdict}
use signalstack_sms.Webhooks.Delivery.Rows.{Progresses, Keeps}
use signalstack_sms.Webhooks.Delivery.Trace.{Step, Run, Run-Progresses, Run-Keeps}
use signalstack_sms.Webhooks.Delivery.Laws.{Completes, record_verdict-Completes}
use signalstack_sms.Webhooks.Delivery.Safety.{
  IsHolder, QuietAfter, finalize_claimed_delivery-IsHolder, fail_delivery-QuietAfter,
}

abbrev token : String
token = "11111111-1111-4111-8111-111111111111"

abbrev claim : Claim
claim = record { delivery_id = "d1"; expected_org_id = "o1"; processing_token = token }

abbrev endpoint : Endpoint
endpoint = record {
  id = "e1";
  org_id = "o1";
  canonical_url = "https://hooks.example/in";
  is_active = true;
  consecutive_failures = 2;
  last_failure_at = none;
  last_success_at = none;
  disabled_at = none;
}

abbrev delivery : Delivery
delivery = record {
  id = "d1";
  org_id = "o1";
  endpoint_id = "e1";
  subscription_id = "s1";
  event_id = "v1";
  signing_secret_id = "k1";
  status = DeliveryStatus.processing;
  attempt_count = 0;
  max_attempts = 8;
  next_attempt_at = 1000;
  processing_token = some token;
  processing_expires_at = some 40000;
  generation = 1;
  delivered_at = none;
  failed_at = none;
  last_status_code = none;
  last_error_code = none;
}

abbrev claimed : Store
claimed = record {
  endpoints = endpoint ∷ [];
  subscriptions =
      record { id = "s1"; org_id = "o1"; endpoint_id = "e1"; event_types = "message.sent" ∷ [] }
      ∷ [];
  secrets =
      record { id = "k1"; org_id = "o1"; subscription_id = "s1"; version = 1; retired_at = none }
      ∷ [];
  events =
      record {
        id = "v1";
        org_id = "o1";
        deduplication_key = "m1";
        type = "message.sent";
        aggregate_type = "message";
        aggregate_id = none;
        occurred_at = 1000;
      }
      ∷ [];
  deliveries = delivery ∷ [];
  attempts = [];
  audits = [];
}

abbrev prepared : Prepared
prepared = record {
  org_id = "o1";
  delivery_id = "d1";
  endpoint_id = "e1";
  endpoint_url = "https://hooks.example/in";
  subscription_id = "s1";
  event_id = "v1";
  event_type = "message.sent";
  secret_id = "k1";
  secret_version = 1;
  attempt_id = "a1";
  request_timestamp = 20000;
  attempt_number = 1;
  max_attempts = 8;
  generation = 1;
  started_at = 20500;
}

abbrev attempt : DeliveryAttempt
attempt = record {
  id = "a1";
  org_id = "o1";
  delivery_id = "d1";
  generation = 1;
  attempt_number = 1;
  request_timestamp = 20000;
  status_code = none;
  outcome = none;
  error_code = none;
  started_at = 20500;
  finished_at = none;
}

abbrev reserved : Store
reserved = record claimed {
  deliveries = record delivery { processing_expires_at = some 50500 } ∷ [];
  attempts = attempt ∷ [];
}

prepares : prepare_claimed_delivery "a1" claim 20500 claimed ≡ some (some prepared, reserved)
unfolding prepare_claimed_delivery claim_is_valid is_identifier is_bounded_identifier trim
    trim_start is_space is_digit is_processing_token is_held find_delivery find_row included
    delivery_endpoint find_endpoint prepare_held unfinished_attempt reserve_attempt new_attempt
    create_attempt same_attempt update_delivery update_row leased_delivery prepared_delivery
prepares = refl

abbrev no_date : Text → Option ℕ
no_date s = none

abbrev ids : String → String
ids s = s

abbrev ok : Decision
ok = decision Outcome.delivered acknowledged

abbrev answered : Evidence
answered = record { request_timestamp = 20000; status_code = some 204; error_code = none }

abbrev sent : Store
sent = record reserved {
  endpoints = record endpoint { consecutive_failures = 0; last_success_at = some 21000 } ∷ [];
  deliveries =
      record delivery {
        status = DeliveryStatus.delivered;
        attempt_count = 1;
        processing_token = none;
        processing_expires_at = none;
        delivered_at = some 21000;
        last_status_code = some 204;
      }
      ∷ [];
  attempts =
      record attempt {
        status_code = some 204;
        outcome = some (decided Outcome.delivered);
        finished_at = some 21000;
      }
      ∷ [];
}

finalizes :
    finalize_claimed_delivery ids "v2" claim prepared ok answered 21000 reserved ≡ some (true, sent)
unfolding finalize_claimed_delivery claim_is_valid prepared_matches_claim evidence_is_valid
    is_identifier is_bounded_identifier trim trim_start is_space is_digit is_processing_token
    is_current is_held find_delivery find_row delivery_endpoint find_endpoint finalize_current
    find_attempt is_reserved update_attempt update_row completed_attempt close_attempt error_of
    settle deliver update_delivery delivered_delivery update_endpoint healthy_endpoint
finalizes = refl

run : Run claimed sent
run =
    Run.then_step (Run.then_step Run.start (Step.prepare "a1" claim 20500 (some prepared) prepares))
      (Step.finalize ids "v2" claim prepared ok answered 21000 true finalizes)

delivery-found : find_delivery "d1" claimed ≡ some delivery
unfolding find_delivery find_row
delivery-found = refl

attempt-found : find_attempt "a1" reserved ≡ some attempt
unfolding find_attempt find_row
attempt-found = refl

Run-Progresses_example : (d : Delivery) × (find_delivery "d1" sent ≡ some d) × Progresses delivery d
Run-Progresses_example = Run-Progresses "d1" delivery run delivery-found

Run-Keeps_example : (a : DeliveryAttempt) × (find_attempt "a1" sent ≡ some a) × Keeps attempt a
Run-Keeps_example =
    Run-Keeps "a1" attempt
      (Run.then_step Run.start
        (Step.finalize ids "v2" claim prepared ok answered 21000 true finalizes))
      attempt-found

finalize_claimed_delivery-IsHolder_example :
    (true ≡ false × sent ≡ reserved) ⊎ IsHolder claim prepared reserved
finalize_claimed_delivery-IsHolder_example =
    finalize_claimed_delivery-IsHolder ids "v2" claim prepared ok answered 21000 reserved sent true
      finalizes

prepared-matches : prepared_matches_claim claim prepared ≡ true
unfolding prepared_matches_claim is_identifier is_bounded_identifier trim trim_start is_space
prepared-matches = refl

record_verdict-Completes_example :
    Completes "d1" prepared
      (decide_attempt no_date prepared 20000 none (responded 503 none))
      21000
      (record_verdict ids "v2" claim prepared
        (decide_attempt no_date prepared 20000 none (responded 503 none))
        21000
        reserved)
record_verdict-Completes_example =
    record_verdict-Completes ids "v2" no_date "a1" claim 20500 20000 21000 claimed reserved prepared
      none (responded 503 none) prepares prepared-matches refl refl

endpoint-found : find_endpoint "e1" reserved ≡ some endpoint
unfolding find_endpoint find_row
endpoint-found = refl

abbrev gone : Decision
gone = decision Outcome.disable receiver_gone

fail_delivery-QuietAfter_example :
    QuietAfter ids "v2" delivery
      (fail_delivery ids "v2" prepared gone answered 21000 delivery endpoint reserved)
fail_delivery-QuietAfter_example =
    fail_delivery-QuietAfter ids "v2" prepared gone answered 21000 delivery endpoint reserved
      endpoint-found refl

abbrev unavailable : AttemptResult
unavailable = record {
  attempt_number = 2;
  max_attempts = 8;
  status_code = some 503;
  transport_failure = none;
  retry_after_header = some (codes "600");
  now_milliseconds = 20000;
}

abbrev later : Decision
later = record {
  outcome = Outcome.retry;
  reason = Reason.retryable_status;
  retry_delay_seconds = some 600;
  retry_after_accepted = true;
}

classifies : classify_attempt no_date unavailable ≡ some later
unfolding classify_attempt attempt_bounds_hold retry_decision backoff_seconds parse_retry_after trim
    trim_start is_space is_digit
classifies = refl

classify_attempt-IsBounded_example : IsBounded unavailable later
classify_attempt-IsBounded_example =
    classify_attempt-IsBounded no_date unavailable later classifies refl

abbrev sent_event : OutboxInput
sent_event = record {
  org_id = "o1";
  deduplication_key = "m1";
  type = "message.sent";
  aggregate_type = "message";
  aggregate_id = none;
}

abbrev quiet : Store
quiet = record claimed { events = []; deliveries = [] }

abbrev enqueued : Store
enqueued = record quiet {
  events =
      record {
        id = "v9";
        org_id = "o1";
        deduplication_key = "m1";
        type = "message.sent";
        aggregate_type = "message";
        aggregate_id = none;
        occurred_at = 2000;
      }
      ∷ [];
  deliveries =
      record {
        id = "s1";
        org_id = "o1";
        endpoint_id = "e1";
        subscription_id = "s1";
        event_id = "v9";
        signing_secret_id = "k1";
        status = DeliveryStatus.pending;
        attempt_count = 0;
        max_attempts = 8;
        next_attempt_at = 2000;
        processing_token = none;
        processing_expires_at = none;
        generation = 1;
        delivered_at = none;
        failed_at = none;
        last_status_code = none;
        last_error_code = none;
      }
      ∷ [];
}

enqueues : enqueue_event ids "v9" sent_event 2000 quiet ≡ some (tt, enqueued)
unfolding enqueue_event outbox_input_is_valid is_bounded_identifier trim trim_start is_space
    is_customer_webhook_event_type is_bounded_safe_text is_aggregate_type is_lower is_digit
    new_event write_event deliveries_for is_subscribed find_endpoint find_row active_secret find
    add_delivery new_delivery
enqueues = refl

enqueue_event-once_example : enqueue_event ids "v10" sent_event 3000 enqueued ≡ some (tt, enqueued)
enqueue_event-once_example =
    enqueue_event-once ids "v9" "v10" sent_event 2000 3000 quiet enqueued enqueues
