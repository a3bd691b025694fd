-- ===== src/Webhooks/Model.antt =====
-- The tables of the customer webhooks (prisma/schema.prisma) as lists of rows, and transactions on
-- them: `none` is a throw, whose writes are rolled back. Times are milliseconds.
use signalstack_sms.Prelude.{
  ℕ, String, Bool, ◌&&◌, ◌||◌, Option, none, some, List, [], ◌∷◌, ◌++◌, ◌==◌, str_eq, any,
  if◌then◌else◌, find_row, update_row,
}
use signalstack_sms.Webhooks.Policy.{Outcome}

pub data DeliveryStatus : Type 0 where
  pending processing delivered failed canceled : DeliveryStatus

pub data AttemptOutcome : Type 0 where
  decided : Outcome → AttemptOutcome
  ambiguous : AttemptOutcome

pub record Endpoint : Type 0 where
  pub id : String
  pub org_id : String
  pub canonical_url : String
  pub is_active : Bool
  pub consecutive_failures : ℕ
  pub last_failure_at : Option ℕ
  pub last_success_at : Option ℕ
  pub disabled_at : Option ℕ

pub record Subscription : Type 0 where
  pub id : String
  pub org_id : String
  pub endpoint_id : String
  pub event_types : List String

pub record SigningSecret : Type 0 where
  pub id : String
  pub org_id : String
  pub subscription_id : String
  pub version : ℕ
  pub retired_at : Option ℕ

pub record Event : Type 0 where
  pub id : String
  pub org_id : String
  pub deduplication_key : String
  pub type : String
  pub aggregate_type : String
  pub aggregate_id : Option String
  pub occurred_at : ℕ

pub record Delivery : Type 0 where
  pub id : String
  pub org_id : String
  pub endpoint_id : String
  pub subscription_id : String
  pub event_id : String
  pub signing_secret_id : String
  pub status : DeliveryStatus
  pub attempt_count : ℕ
  pub max_attempts : ℕ
  pub next_attempt_at : ℕ
  pub processing_token : Option String
  pub processing_expires_at : Option ℕ
  pub generation : ℕ
  pub delivered_at : Option ℕ
  pub failed_at : Option ℕ
  pub last_status_code : Option ℕ
  pub last_error_code : Option String

pub record DeliveryAttempt : Type 0 where
  pub id : String
  pub org_id : String
  pub delivery_id : String
  pub generation : ℕ
  pub attempt_number : ℕ
  pub request_timestamp : ℕ
  pub status_code : Option ℕ
  pub outcome : Option AttemptOutcome
  pub error_code : Option String
  pub started_at : ℕ
  pub finished_at : Option ℕ

pub record AuditEvent : Type 0 where
  pub org_id : String
  pub action : String
  pub subject_id : String

-- The secrets stand in descending order of their version.
pub record Store : Type 0 where
  pub endpoints : List Endpoint
  pub subscriptions : List Subscription
  pub secrets : List SigningSecret
  pub events : List Event
  pub deliveries : List Delivery
  pub attempts : List DeliveryAttempt
  pub audits : List AuditEvent

abbrev pub Tx : Type 0 → Type 0
Tx A = Store → Option (A × Store)

infixl 5 ◌>>=◌ ◌>>◌
abbrev pub ◌>>=◌ : {A B : Type 0} → Tx A → (A → Tx B) → Tx B
◌>>=◌ m f db = elim (m db) [ none ↦ none | some (a, db') ↦ f a db' ]

abbrev pub ◌>>◌ : {B : Type 0} → Tx (Unit {0}) → Tx B → Tx B
m >> k = m >>= λ _. k

abbrev pub return : {A : Type 0} → A → Tx A
return a db = some (a, db)

abbrev status_rank : DeliveryStatus → ℕ
status_rank DeliveryStatus.pending = 0
status_rank DeliveryStatus.processing = 1
status_rank DeliveryStatus.delivered = 2
status_rank DeliveryStatus.failed = 3
status_rank DeliveryStatus.canceled = 4

abbrev pub status_is : DeliveryStatus → DeliveryStatus → Bool
status_is s t = status_rank s == status_rank t

unfoldable pub find_delivery : String → Store → Option Delivery
find_delivery id db = find_row Delivery.id id db.deliveries

unfoldable pub find_endpoint : String → Store → Option Endpoint
find_endpoint id db = find_row Endpoint.id id db.endpoints

unfoldable pub update_delivery : String → (Delivery → Delivery) → Tx (Unit {0})
update_delivery id f db =
    some (tt, record db { deliveries = update_row Delivery.id id f db.deliveries })

unfoldable pub update_endpoint : String → (Endpoint → Endpoint) → Tx (Unit {0})
update_endpoint id f db =
    some (tt, record db { endpoints = update_row Endpoint.id id f db.endpoints })

unfoldable pub update_attempt : String → (DeliveryAttempt → DeliveryAttempt) → Tx (Unit {0})
update_attempt id f db =
    some (tt, record db { attempts = update_row DeliveryAttempt.id id f db.attempts })

-- The keys `id` and `(orgId, deliveryId, generation, attemptNumber)` are unique.
unfoldable pub same_attempt : DeliveryAttempt → DeliveryAttempt → Bool
same_attempt a b =
    str_eq b.id a.id
    || str_eq b.org_id a.org_id
      && str_eq b.delivery_id a.delivery_id
      && b.generation == a.generation
      && b.attempt_number == a.attempt_number

unfoldable pub create_attempt : DeliveryAttempt → Tx (Unit {0})
create_attempt a db =
    if any (same_attempt a) db.attempts
    then none
    else some (tt, record db { attempts = db.attempts ++ a ∷ [] })

unfoldable pub find_attempt : String → Store → Option DeliveryAttempt
find_attempt id db = find_row DeliveryAttempt.id id db.attempts
