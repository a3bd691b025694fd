-- ===== src/Webhooks/Delivery/Prepare.antt =====
-- worker.ts, `prepareClaimedCustomerWebhookDelivery`: the reservation of an attempt before its
-- request is sent. `none` is a throw; the new attempt's identifier is an argument.
use signalstack_sms.Prelude.{
  ℕ, ◌+◌, ◌-◌, ◌%◌, String, Bool, false, not, ◌&&◌, Option, none, some, List, [], ◌∷◌, leb, ltb,
  ◌==◌, str_eq, if◌then◌else◌, is_none, keep_if, find_row,
}
use signalstack_sms.Webhooks.Model.{
  DeliveryStatus, AttemptOutcome, Endpoint, Subscription, Event, SigningSecret, Delivery,
  DeliveryAttempt, Store, Tx, ◌>>◌, return, status_is, find_delivery, find_endpoint, find_attempt,
  update_delivery, update_attempt, create_attempt,
}
use signalstack_sms.Webhooks.Delivery.{Claim, Prepared, claim_is_valid}

abbrev pub processing_lease_ms : ℕ
processing_lease_ms = 30000

abbrev pub holds_token : String → Option String → Bool
holds_token token none = false
holds_token token (some t) = str_eq t token

-- The condition under which a delivery is read as held by the claim.
unfoldable pub is_held : Claim → Delivery → Bool
is_held c d =
    str_eq d.org_id c.expected_org_id
    && status_is d.status DeliveryStatus.processing
    && holds_token c.processing_token d.processing_token

abbrev pub lease_is_live : ℕ → Option ℕ → Bool
lease_is_live now none = false
lease_is_live now (some expires) = ltb now expires

-- The rows that are read with a delivery; its foreign keys say that they are there.
pub record Included : Type 0 where
  pub endpoint : Endpoint
  pub event : Event
  pub secret : SigningSecret

unfoldable pub delivery_endpoint : Delivery → Store → Option Endpoint
delivery_endpoint d db = elim (find_row Subscription.id d.subscription_id db.subscriptions) [
  | none ↦ none
  | some s ↦ find_endpoint s.endpoint_id db
]

unfoldable pub included : Delivery → Store → Option Included
included d db =
    all_found (delivery_endpoint d db) (find_row Event.id d.event_id db.events)
      (find_row SigningSecret.id d.signing_secret_id db.secrets)
  where
    all_found : Option Endpoint → Option Event → Option SigningSecret → Option Included
    all_found (some e) (some v) (some k) = some (record { endpoint = e; event = v; secret = k })
    all_found _ _ _ = none

abbrev pub is_open : DeliveryAttempt → Bool
is_open a = is_none a.outcome && is_none a.finished_at

abbrev attempt_of : Delivery → DeliveryAttempt → Bool
attempt_of d a =
    str_eq a.org_id d.org_id && str_eq a.delivery_id d.id && a.generation == d.generation

-- The open attempt of the delivery's generation that has the highest number.
unfoldable pub unfinished_attempt : Delivery → List DeliveryAttempt → Option DeliveryAttempt
unfinished_attempt d [] = none
unfinished_attempt d (a ∷ rows) =
    let later = unfinished_attempt d rows in
    if attempt_of d a && is_open a then higher a later else later
  where
    higher : DeliveryAttempt → Option DeliveryAttempt → Option DeliveryAttempt
    higher x none = some x
    higher x (some y) = some (if ltb x.attempt_number y.attempt_number then y else x)

unfoldable pub close_attempt :
    AttemptOutcome → Option ℕ → Option String → ℕ → DeliveryAttempt → DeliveryAttempt
close_attempt o status code now a = record a {
  status_code = status;
  outcome = some o;
  error_code = code;
  finished_at = some now;
}

-- `data: { outcome: "ambiguous", errorCode: "WORKER_LEASE_EXPIRED", … }`
unfoldable pub lost_attempt : ℕ → DeliveryAttempt → DeliveryAttempt
unfolding close_attempt
lost_attempt now a =
    close_attempt AttemptOutcome.ambiguous a.status_code (some "WORKER_LEASE_EXPIRED") now a

unfoldable pub exhausted_delivery : ℕ → ℕ → Delivery → Delivery
exhausted_delivery n now d = record d {
  status = DeliveryStatus.failed;
  attempt_count = n;
  processing_token = none;
  processing_expires_at = none;
  failed_at = some now;
  last_error_code = some "AMBIGUOUS_ATTEMPT_EXHAUSTED";
}

unfoldable pub recovered_delivery : ℕ → Delivery → Delivery
recovered_delivery n d = record d {
  attempt_count = n;
  last_error_code = some "WORKER_LEASE_EXPIRED";
}

unfoldable pub leased_delivery : ℕ → Delivery → Delivery
leased_delivery now d = record d { processing_expires_at = some (now + processing_lease_ms) }

unfoldable pub new_attempt : String → ℕ → ℕ → Delivery → DeliveryAttempt
new_attempt id n now d = record {
  id = id;
  org_id = d.org_id;
  delivery_id = d.id;
  generation = d.generation;
  attempt_number = n;
  request_timestamp = now - now % 1000;
  status_code = none;
  outcome = none;
  error_code = none;
  started_at = now;
  finished_at = none;
}

unfoldable pub prepared_delivery : String → ℕ → ℕ → Delivery → Included → Prepared
prepared_delivery id n now d i = record {
  org_id = d.org_id;
  delivery_id = d.id;
  endpoint_id = d.endpoint_id;
  endpoint_url = i.endpoint.canonical_url;
  subscription_id = d.subscription_id;
  event_id = d.event_id;
  event_type = i.event.type;
  secret_id = i.secret.id;
  secret_version = i.secret.version;
  attempt_id = id;
  request_timestamp = now - now % 1000;
  attempt_number = n;
  max_attempts = d.max_attempts;
  generation = d.generation;
  started_at = now;
}

-- The next attempt is written as started, and the lease is renewed.
unfoldable pub reserve_attempt : String → ℕ → Delivery → Included → ℕ → Tx (Option Prepared)
reserve_attempt id now d i completed db =
    if leb d.max_attempts completed
    then some (none, db)
    else (create_attempt (new_attempt id (completed + 1) now d)
          >> update_delivery d.id (leased_delivery now)
          >> return (some (prepared_delivery id (completed + 1) now d i)))
        db

-- An attempt whose worker was lost counts as made: whether its request arrived is not known.
unfoldable pub recover_attempt :
    String → ℕ → Delivery → Included → DeliveryAttempt → Tx (Option Prepared)
recover_attempt id now d i a db =
    if not (a.attempt_number == d.attempt_count + 1)
    then none
    else elim (keep_if is_open (find_attempt a.id db)) [
      | none ↦ none
      | some _ ↦
          if leb d.max_attempts a.attempt_number
          then (update_attempt a.id (lost_attempt now)
                >> update_delivery d.id (exhausted_delivery a.attempt_number now)
                >> return none)
              db
          else (update_attempt a.id (lost_attempt now)
                >> update_delivery d.id (recovered_delivery a.attempt_number)
                >> reserve_attempt id now d i a.attempt_number)
              db
    ]

unfoldable pub prepare_held : String → ℕ → Delivery → Included → Tx (Option Prepared)
prepare_held id now d i db =
    if not i.endpoint.is_active
    then some (none, db)
    else if not (lease_is_live now d.processing_expires_at)
    then some (none, db)
    else elim (unfinished_attempt d db.attempts) [
      | none ↦ reserve_attempt id now d i d.attempt_count db
      | some a ↦ recover_attempt id now d i a db
    ]

-- `prepareClaimedCustomerWebhookDelivery`
unfoldable pub prepare_claimed_delivery : String → Claim → ℕ → Tx (Option Prepared)
prepare_claimed_delivery id c now db =
    if not (claim_is_valid c)
    then none
    else elim (keep_if (is_held c) (find_delivery c.delivery_id db)) [
      | none ↦ some (none, db)
      | some d ↦ elim (included d db) [ none ↦ none | some i ↦ prepare_held id now d i db ]
    ]
