-- ===== src/Webhooks/Delivery/Dispatch.antt =====
-- The claiming query of lib/db/customer-webhook-dispatch.ts, which the database runs: the function
-- `claim_due_customer_webhook_deliveries` of
-- prisma/migrations/20260711060000_customer_webhook_attempt_reservations/migration.sql. Deliveries
-- at disabled endpoints are given up first; then due ones are claimed, each as a step of its own.
use signalstack_sms.Prelude.{
  ℕ, ◌+◌, max, String, Bool, true, false, not, ◌&&◌, ◌||◌, Option, none, some, List, [], ◌∷◌, map,
  leb, ltb, ◌==◌, str_eq, if◌then◌else◌, is_none, or_option, any,
}
use signalstack_sms.Webhooks.Model.{
  DeliveryStatus, AttemptOutcome, Endpoint, Delivery, DeliveryAttempt, Store, Tx, ◌>>◌, return,
  status_is, find_delivery, find_endpoint, update_delivery,
}
use signalstack_sms.Webhooks.Delivery.Prepare.{is_open, close_attempt}

abbrev is_active_endpoint : Option Endpoint → Bool
is_active_endpoint none = false
is_active_endpoint (some e) = e.is_active

abbrev is_disabled_endpoint : Option Endpoint → Bool
is_disabled_endpoint none = false
is_disabled_endpoint (some e) = not e.is_active

-- `processingExpiresAt <= effective_now`, false where there is none
abbrev has_expired : ℕ → Option ℕ → Bool
has_expired now none = false
has_expired now (some expires) = leb expires now

-- The endpoint's state, read once for both updates.
unfoldable pub is_stranded : ℕ → Store → Delivery → Bool
is_stranded now db d =
    is_disabled_endpoint (find_endpoint d.endpoint_id db)
    && status_is d.status DeliveryStatus.processing
    && has_expired now d.processing_expires_at

unfoldable pub is_last_attempt : DeliveryAttempt → Delivery → Bool
is_last_attempt a d =
    str_eq a.org_id d.org_id
    && str_eq a.delivery_id d.id
    && a.generation == d.generation
    && a.attempt_number == d.attempt_count + 1

unfoldable pub abandoned_attempt : ℕ → Store → DeliveryAttempt → DeliveryAttempt
unfolding close_attempt
abandoned_attempt now db a =
    if is_open a && any (λ d. is_last_attempt a d && is_stranded now db d) db.deliveries
    then close_attempt AttemptOutcome.ambiguous a.status_code
        (some "ENDPOINT_DISABLED_LEASE_EXPIRED") now a
    else a

unfoldable pub highest_attempt : Delivery → ℕ → List DeliveryAttempt → ℕ
highest_attempt d n [] = n
highest_attempt d n (a ∷ rows) =
    let rest = highest_attempt d n rows in
    if str_eq a.org_id d.org_id && str_eq a.delivery_id d.id && a.generation == d.generation
    then max a.attempt_number rest
    else rest

unfoldable pub given_up : ℕ → Store → Delivery → Delivery
given_up now db d =
    if is_disabled_endpoint (find_endpoint d.endpoint_id db)
      && (status_is d.status DeliveryStatus.pending || is_stranded now db d)
    then record d {
      status = DeliveryStatus.canceled;
      attempt_count = max d.attempt_count (highest_attempt d d.attempt_count db.attempts);
      processing_token = none;
      processing_expires_at = none;
      last_error_code = or_option d.last_error_code (some "ENDPOINT_DISABLED");
    }
    else d

unfoldable pub give_up_disabled : ℕ → Tx (Unit {0})
give_up_disabled now db = some (
  tt,
  record db {
    attempts = map (abandoned_attempt now db) db.attempts;
    deliveries = map (given_up now db) db.deliveries;
  },
)

-- The candidates of the claim: pending, or abandoned by the worker whose lease has expired.
unfoldable pub is_due : ℕ → Store → Delivery → Bool
is_due now db d =
    is_active_endpoint (find_endpoint d.endpoint_id db)
    && ltb d.attempt_count d.max_attempts
    && leb d.next_attempt_at now
    && (status_is d.status DeliveryStatus.pending
        || status_is d.status DeliveryStatus.processing
          && (is_none d.processing_token
              || is_none d.processing_expires_at
              || has_expired now d.processing_expires_at))

unfoldable pub claimed_delivery : String → ℕ → ℕ → Delivery → Delivery
claimed_delivery token lease_ms now d = record d {
  status = DeliveryStatus.processing;
  processing_token = some token;
  processing_expires_at = some (now + lease_ms);
}

-- The claim of one delivery, by its identifier; `true` when it was due.
unfoldable pub claim_delivery : String → ℕ → ℕ → String → Tx Bool
claim_delivery token lease_ms now id db = elim (find_delivery id db) [
  | none ↦ some (false, db)
  | some d ↦
      if is_due now db d
      then (update_delivery id (claimed_delivery token lease_ms now) >> return true) db
      else some (false, db)
]
