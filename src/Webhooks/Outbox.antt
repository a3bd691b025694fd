-- ===== src/Webhooks/Outbox.antt =====
-- outbox.ts and catalog.ts: an event and its deliveries are written inside the caller's transaction.
-- The new identifiers (`event_id`, and `delivery_id` of a subscription) are arguments.
pub mod Laws
use signalstack_sms.Prelude.{
  ℕ, String, Bool, true, false, not, ◌&&◌, ◌||◌, Option, none, some, List, [], ◌∷◌, ◌++◌, ◌==◌, any,
  all, length, codes, str_eq, if◌then◌else◌, is_none, find, leb, ltb,
}
use signalstack_sms.Text.{Text, trim, between, is_lower, is_digit}
use signalstack_sms.Webhooks.Model.{
  Endpoint, Subscription, SigningSecret, Event, Delivery, DeliveryStatus, Store, Tx, find_endpoint,
}

pub customer_webhook_event_types : List String
customer_webhook_event_types =
    "contact.created" ∷ "contact.updated" ∷ "contact.archived" ∷ "message.accepted" ∷ "message.sent"
    ∷ "message.delivered" ∷ "message.failed" ∷ "message.received" ∷ "message.status.updated"
    ∷ "campaign.scheduled" ∷ "campaign.started" ∷ "campaign.completed" ∷ "campaign.failed"
    ∷ "campaign.canceled" ∷ "conversation.created" ∷ "conversation.updated"
    ∷ "webhook.endpoint.disabled" ∷ []

unfoldable pub is_customer_webhook_event_type : String → Bool
unfolding customer_webhook_event_types
is_customer_webhook_event_type value = any (str_eq value) customer_webhook_event_types

texts_equal : Text → Text → Bool
texts_equal [] [] = true
texts_equal (a ∷ s) (b ∷ t) = a == b && texts_equal s t
texts_equal _ _ = false

unfoldable pub is_bounded_identifier : ℕ → Text → Bool
unfolding texts_equal
is_bounded_identifier maximum value =
    between 1 maximum (length value)
    && texts_equal (trim value) value
    && not (any (λ c. ltb c 32) value)

unfoldable pub is_bounded_safe_text : ℕ → Text → Bool
is_bounded_safe_text maximum value =
    is_bounded_identifier maximum value && not (any (λ c. c == 10 || c == 13) value)

-- `^[a-z][a-z0-9_.-]{0,63}$`
unfoldable pub is_aggregate_type : Text → Bool
is_aggregate_type [] = false
is_aggregate_type (c ∷ s) =
    is_lower c
    && all (λ d. is_lower d || is_digit d || d == b'_' || d == b'.' || d == b'-') s
    && leb (length s) 63

abbrev aggregate_id_is_valid : Option String → Bool
aggregate_id_is_valid none = true
aggregate_id_is_valid (some id) = is_bounded_identifier 191 (codes id)

-- What a caller gives, with the time of the database's clock.
pub record OutboxInput : Type 0 where
  pub org_id : String
  pub deduplication_key : String
  pub type : String
  pub aggregate_type : String
  pub aggregate_id : Option String

-- `validateOutboxInput`
unfoldable pub outbox_input_is_valid : OutboxInput → Bool
outbox_input_is_valid i =
    is_bounded_identifier 191 (codes i.org_id)
    && is_customer_webhook_event_type i.type
    && is_bounded_safe_text 191 (codes i.deduplication_key)
    && is_aggregate_type (codes i.aggregate_type)
    && aggregate_id_is_valid i.aggregate_id

abbrev pub same_event : OutboxInput → Event → Bool
same_event i e = str_eq e.org_id i.org_id && str_eq e.deduplication_key i.deduplication_key

abbrev pub endpoint_is_active : Option Endpoint → Bool
endpoint_is_active none = false
endpoint_is_active (some e) = e.is_active

-- The subscriptions of the organization to the type, at endpoints that are active.
unfoldable pub is_subscribed : OutboxInput → Store → Subscription → Bool
is_subscribed i db s =
    str_eq s.org_id i.org_id
    && any (str_eq i.type) s.event_types
    && endpoint_is_active (find_endpoint s.endpoint_id db)

unfoldable pub active_secret : Subscription → Store → Option SigningSecret
active_secret s db =
    find (λ k. str_eq k.org_id s.org_id && str_eq k.subscription_id s.id && is_none k.retired_at)
      db.secrets

abbrev pub customer_webhook_max_attempts : ℕ
customer_webhook_max_attempts = 8

-- A new delivery of an event to a subscription.
unfoldable pub new_delivery : Event → String → Subscription → SigningSecret → Delivery
new_delivery e id s k = record {
  id = id;
  org_id = e.org_id;
  endpoint_id = s.endpoint_id;
  subscription_id = s.id;
  event_id = e.id;
  signing_secret_id = k.id;
  status = DeliveryStatus.pending;
  attempt_count = 0;
  max_attempts = customer_webhook_max_attempts;
  next_attempt_at = e.occurred_at;
  processing_token = none;
  processing_expires_at = none;
  generation = 1;
  delivered_at = none;
  failed_at = none;
  last_status_code = none;
  last_error_code = none;
}

-- The event and its deliveries, written together.
unfoldable pub write_event : Store → Event → Option (List Delivery) → Option (Unit {0} × Store)
write_event db e none = none
write_event db e (some ds) =
    some (tt, record db { events = db.events ++ e ∷ []; deliveries = db.deliveries ++ ds })

-- The row of an event.
unfoldable pub new_event : String → OutboxInput → ℕ → Event
new_event event_id i now = record {
  id = event_id;
  org_id = i.org_id;
  deduplication_key = i.deduplication_key;
  type = i.type;
  aggregate_type = i.aggregate_type;
  aggregate_id = i.aggregate_id;
  occurred_at = now;
}

-- One more delivery; a subscription without an active secret throws.
unfoldable pub add_delivery :
    Event
    → String
    → Subscription
    → Option (List Delivery)
    → Option SigningSecret
    → Option (List Delivery)
add_delivery e id s (some ds) (some k) = some (new_delivery e id s k ∷ ds)
add_delivery e id s _ _ = none

module _ (delivery_id : String → String) where
  -- The deliveries to the subscriptions of the list.
  unfoldable pub deliveries_for :
      OutboxInput → Event → Store → List Subscription → Option (List Delivery)
  deliveries_for i e db [] = some []
  deliveries_for i e db (s ∷ rest) =
      let others = deliveries_for i e db rest in
      if is_subscribed i db s
      then add_delivery e (delivery_id s.id) s others (active_secret s db)
      else others

  -- `enqueueCustomerWebhookEvent`
  unfoldable pub enqueue_event : String → OutboxInput → ℕ → Tx (Unit {0})
  enqueue_event event_id i now db =
      if not (outbox_input_is_valid i)
      then none
      else if any (same_event i) db.events
      then some (tt, db)
      else let e = new_event event_id i now in
        write_event db e (deliveries_for i e db db.subscriptions)
