-- ===== src/Webhooks/Delivery/Finalize.antt =====
-- worker.ts, `finalizeClaimedCustomerWebhookDelivery`: an attempt's outcome, its delivery's next
-- status and its endpoint's failures, in one transaction. `none` is a throw.
use Prim.Native.String
use signalstack_sms.Prelude.{
  ℕ, ◌+◌, ◌-◌, ◌*◌, String, Bool, true, false, not, ◌&&◌, ◌||◌, Option, none, some, [], ◌∷◌, ◌++◌,
  map, leb, ◌==◌, str_eq, if◌then◌else◌, or_option, keep_if,
}
use signalstack_sms.Webhooks.Policy.{Decision, Outcome, Reason}
use signalstack_sms.Webhooks.Model.{
  DeliveryStatus, decided, Endpoint, Delivery, DeliveryAttempt, Tx, ◌>>◌, return, status_is,
  find_delivery, find_attempt, update_delivery, update_endpoint, update_attempt,
}
use signalstack_sms.Webhooks.Outbox.{OutboxInput, enqueue_event}
use signalstack_sms.Webhooks.Delivery.{
  Claim, Prepared, Evidence, claim_is_valid, prepared_matches_claim, evidence_is_valid,
}
use signalstack_sms.Webhooks.Delivery.Prepare.{is_held, is_open, delivery_endpoint, close_attempt}

abbrev pub auto_disable_terminal_failures : ℕ
auto_disable_terminal_failures = 10

abbrev pub reason_code : Reason → String
reason_code Reason.acknowledged = "acknowledged"
reason_code Reason.receiver_gone = "receiver-gone"
reason_code Reason.unsafe_endpoint = "unsafe-endpoint"
reason_code Reason.retryable_transport = "retryable-transport"
reason_code Reason.retryable_status = "retryable-status"
reason_code Reason.attempts_exhausted = "attempts-exhausted"
reason_code Reason.permanent_status = "permanent-status"

abbrev pub is_delivered : Outcome → Bool
is_delivered Outcome.delivered = true
is_delivered _ = false

abbrev pub is_retry : Outcome → Bool
is_retry Outcome.retry = true
is_retry _ = false

abbrev pub is_disable : Outcome → Bool
is_disable Outcome.disable = true
is_disable _ = false

-- The condition under which a claim's attempt is still the delivery's current one.
unfoldable pub is_current : Claim → Prepared → Delivery → Bool
is_current c p d =
    is_held c d
    && d.generation == p.generation
    && d.attempt_count == p.attempt_number - 1
    && str_eq d.endpoint_id p.endpoint_id

-- The condition under which the attempt that was reserved still waits for its outcome.
unfoldable pub is_reserved : Prepared → DeliveryAttempt → Bool
is_reserved p a =
    str_eq a.org_id p.org_id
    && str_eq a.delivery_id p.delivery_id
    && a.generation == p.generation
    && a.attempt_number == p.attempt_number
    && a.request_timestamp == p.request_timestamp
    && is_open a

unfoldable pub error_of : Decision → Option String → Option String
error_of d code =
    or_option code (if is_delivered d.outcome then none else some (reason_code d.reason))

unfoldable pub completed_attempt : Decision → Evidence → ℕ → DeliveryAttempt → DeliveryAttempt
unfolding close_attempt
completed_attempt d ev now a =
    close_attempt (decided d.outcome) ev.status_code (error_of d ev.error_code) now a

unfoldable pub suppressed_delivery : Prepared → Evidence → Delivery → Delivery
suppressed_delivery p ev d = record d {
  status = DeliveryStatus.canceled;
  attempt_count = p.attempt_number;
  processing_token = none;
  processing_expires_at = none;
  last_status_code = ev.status_code;
  last_error_code = some "ENDPOINT_DISABLED";
}

unfoldable pub delivered_delivery : Prepared → Evidence → ℕ → Delivery → Delivery
delivered_delivery p ev now d = record d {
  status = DeliveryStatus.delivered;
  attempt_count = p.attempt_number;
  processing_token = none;
  processing_expires_at = none;
  delivered_at = some now;
  failed_at = none;
  last_status_code = ev.status_code;
  last_error_code = none;
}

unfoldable pub retried_delivery : Prepared → Evidence → Decision → ℕ → ℕ → Delivery → Delivery
retried_delivery p ev q delay now d = record d {
  status = DeliveryStatus.pending;
  attempt_count = p.attempt_number;
  processing_token = none;
  processing_expires_at = none;
  next_attempt_at = now + delay * 1000;
  last_status_code = ev.status_code;
  last_error_code = or_option ev.error_code (some (reason_code q.reason));
}

unfoldable pub failed_delivery : Prepared → Evidence → Decision → ℕ → Delivery → Delivery
failed_delivery p ev q now d = record d {
  status = DeliveryStatus.failed;
  attempt_count = p.attempt_number;
  processing_token = none;
  processing_expires_at = none;
  failed_at = some now;
  last_status_code = ev.status_code;
  last_error_code = or_option ev.error_code (some (reason_code q.reason));
}

unfoldable pub healthy_endpoint : ℕ → Endpoint → Endpoint
healthy_endpoint now e = record e { consecutive_failures = 0; last_success_at = some now }

unfoldable pub failing_endpoint : ℕ → Bool → ℕ → Endpoint → Endpoint
failing_endpoint n disables now e = record e {
  consecutive_failures = n;
  last_failure_at = some now;
  is_active = if disables then false else e.is_active;
  disabled_at = if disables then some now else e.disabled_at;
}

-- The other deliveries that wait for the endpoint.
unfoldable pub waits_for : Delivery → Delivery → Bool
waits_for d x =
    str_eq x.org_id d.org_id
    && str_eq x.endpoint_id d.endpoint_id
    && not (str_eq x.id d.id)
    && status_is x.status DeliveryStatus.pending

unfoldable pub canceled_if_waiting : Delivery → Delivery → Delivery
canceled_if_waiting d x =
    if waits_for d x
    then record x {
      status = DeliveryStatus.canceled;
      processing_token = none;
      processing_expires_at = none;
    }
    else x

unfoldable pub cancel_waiting : Delivery → Tx (Unit {0})
cancel_waiting d db =
    some (tt, record db { deliveries = map (canceled_if_waiting d) db.deliveries })

unfoldable pub audit_disabled : Delivery → Tx (Unit {0})
audit_disabled d db = some (
  tt,
  record db {
    audits =
        db.audits
        ++ record {
          org_id = d.org_id;
          action = "customer_webhook_endpoint.auto_disabled";
          subject_id = d.endpoint_id;
        }
          ∷ [];
  },
)

unfoldable pub disabled_event : Delivery → OutboxInput
disabled_event d = record {
  org_id = d.org_id;
  deduplication_key =
      String.◌++◌ "webhook.endpoint.disabled:" (String.◌++◌ d.endpoint_id (String.◌++◌ ":" d.id));
  type = "webhook.endpoint.disabled";
  aggregate_type = "customer_webhook_endpoint";
  aggregate_id = some d.endpoint_id;
}

-- `tryEnqueueEndpointDisabledEvent`: a failure rolls back to the savepoint and is only logged.
unfoldable pub try_enqueue_disabled : (String → String) → String → Delivery → ℕ → Tx (Unit {0})
try_enqueue_disabled delivery_id event_id d now db =
    elim (enqueue_event delivery_id event_id (disabled_event d) now db) [
      | none ↦ some (tt, db)
      | some r ↦ some r
    ]

-- `decision.outcome === "retry" && decision.retryDelaySeconds !== null`
abbrev pub retry_delay : Decision → Option ℕ
retry_delay q = if is_retry q.outcome then q.retry_delay_seconds else none

module _ (delivery_id : String → String) (event_id : String) where
  unfoldable pub disable_endpoint : Delivery → ℕ → Tx (Unit {0})
  disable_endpoint d now =
      cancel_waiting d >> audit_disabled d >> try_enqueue_disabled delivery_id event_id d now

  unfoldable pub fail_delivery : Prepared → Decision → Evidence → ℕ → Delivery → Endpoint → Tx Bool
  fail_delivery p q ev now d e db =
      let n = e.consecutive_failures + 1 in
      let disables = is_disable q.outcome || leb auto_disable_terminal_failures n in
      if disables
      then (update_delivery d.id (failed_delivery p ev q now)
            >> update_endpoint d.endpoint_id (failing_endpoint n true now)
            >> disable_endpoint d now
            >> return true)
          db
      else (update_delivery d.id (failed_delivery p ev q now)
            >> update_endpoint d.endpoint_id (failing_endpoint n false now)
            >> return true)
          db

  unfoldable pub deliver : Prepared → Evidence → ℕ → Delivery → Endpoint → Tx Bool
  deliver p ev now d e db =
      if e.is_active
      then (update_delivery d.id (delivered_delivery p ev now)
            >> update_endpoint d.endpoint_id (healthy_endpoint now)
            >> return true)
          db
      else (update_delivery d.id (delivered_delivery p ev now) >> return true) db

  -- What follows once the attempt's outcome is written.
  unfoldable pub settle : Prepared → Decision → Evidence → ℕ → Delivery → Endpoint → Tx Bool
  settle p q ev now d e db =
      if not e.is_active && not (is_delivered q.outcome)
      then (update_delivery d.id (suppressed_delivery p ev) >> return true) db
      else if is_delivered q.outcome
      then deliver p ev now d e db
      else elim (retry_delay q) [
        | none ↦ fail_delivery p q ev now d e db
        | some delay ↦ (update_delivery d.id (retried_delivery p ev q delay now) >> return true) db
      ]

  unfoldable pub finalize_current :
      Prepared → Decision → Evidence → ℕ → Delivery → Endpoint → Tx Bool
  finalize_current p q ev now d e db =
      elim (keep_if (is_reserved p) (find_attempt p.attempt_id db)) [
        | none ↦ some (false, db)
        | some a ↦ (update_attempt a.id (completed_attempt q ev now) >> settle p q ev now d e) db
      ]

  -- `finalizeClaimedCustomerWebhookDelivery`
  unfoldable pub finalize_claimed_delivery : Claim → Prepared → Decision → Evidence → ℕ → Tx Bool
  finalize_claimed_delivery c p q ev now db =
      if not (
        claim_is_valid c
        && prepared_matches_claim c p
        && evidence_is_valid ev
        && ev.request_timestamp == p.request_timestamp)
      then none
      else elim (keep_if (is_current c p) (find_delivery c.delivery_id db)) [
        | none ↦ some (false, db)
        | some d ↦ elim (delivery_endpoint d db) [
          | none ↦ none
          | some e ↦ finalize_current p q ev now d e db
        ]
      ]
