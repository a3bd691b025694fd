-- ===== src/Messaging/Worker/Defs.antt =====
-- What the transactions of the worker share: claims, prepared attempts, closing an attempt, and the
-- lifecycle events.
use Prim.Native.String
use signalstack_sms.Prelude.{
  ℕ, String, Bool, not, ◌&&◌, Option, none, some, List, [], ◌∷◌, ◌++◌, leb, ◌==◌, str_eq,
  if◌then◌else◌, is_none, is_some, any, codes,
}
use signalstack_sms.Text.{is_hex, matches_shape}
use signalstack_sms.Messaging.Model.{
  Message, Attempt, Event, Database, Transport, dummy, twilio, update_attempt, Tx, ◌>>◌, return,
}

pub record Claim : Type 0 where
  pub attempt_id : String
  pub expected_org_id : String
  pub processing_token : String

pub record ProviderSnapshot : Type 0 where
  pub provider_account_id : String
  pub external_account_id : String
  pub provider_credential_secret_id : String
  pub provider_credential_version : ℕ

pub record Prepared : Type 0 where
  pub org_id : String
  pub attempt_id : String
  pub message_id : String
  pub attempt_number : ℕ
  pub processing_token : String
  pub transport : Transport
  pub provider_call_started_at : Option ℕ
  pub provider_snapshot : Option ProviderSnapshot
  pub provider_phone_number_id : Option String
  pub from : String
  pub destination : String
  pub body : String
  pub media_urls : List String
  pub request_fingerprint : String
  pub callback_correlation_id : String
  pub status_callback_url : Option String

abbrev hexes : ℕ → List (ℕ → Bool) → List (ℕ → Bool)
hexes ℕ.zero rest = rest
hexes (ℕ.suc n) rest = is_hex ∷ hexes n rest

abbrev dash : ℕ → Bool
dash c = c == b'-'

abbrev variant : ℕ → Bool
variant c = any (λ d. c == d) (codes "89abAB")

-- `isUuidV4`
unfoldable pub is_uuid_v4 : String → Bool
unfolding is_hex matches_shape
is_uuid_v4 value =
    matches_shape
      (hexes 8 (
        dash
        ∷ hexes 4
            (dash ∷ (λ c. c == b'4') ∷ hexes 3 (dash ∷ variant ∷ hexes 3 (dash ∷ hexes 12 [])))))
      (codes value)

-- `assertClaim`
unfoldable pub claim_is_valid : Claim → Bool
claim_is_valid c =
    not (str_eq c.attempt_id "")
    && not (str_eq c.expected_org_id "")
    && is_uuid_v4 c.processing_token

-- `assertPreparedMatchesClaim`
unfoldable pub prepared_matches_claim : Claim → Prepared → Bool
prepared_matches_claim c p =
    str_eq p.org_id c.expected_org_id
    && str_eq p.attempt_id c.attempt_id
    && str_eq p.processing_token c.processing_token
    && leb 1 p.attempt_number
    && leb p.attempt_number 3
    && by_transport p.transport
  where
    by_transport : Transport → Bool
    by_transport dummy =
        is_none p.provider_call_started_at
        && is_none p.provider_snapshot
        && is_none p.provider_phone_number_id
        && is_none p.status_callback_url
    by_transport twilio =
        is_some p.provider_call_started_at
        && is_some p.provider_snapshot
        && is_some p.provider_phone_number_id
        && is_some p.status_callback_url
        && is_uuid_v4 p.callback_correlation_id

-- `closeAttempt`: the given changes, and the claim is given up.
unfoldable pub closed_by : (Attempt → Attempt) → Attempt → Attempt
closed_by changes a = record (changes a) { processing_token = none; processing_expires_at = none }

unfoldable pub close_attempt : String → (Attempt → Attempt) → Tx (Unit {0})
close_attempt id changes = update_attempt id (closed_by changes)

-- The event's name for a status, as it stands in the lifecycle events.
pub data Lifecycle : Type 0 where
  scheduled sent delivered failed cancelled ambiguous : Lifecycle

abbrev pub lifecycle_name : Lifecycle → String
lifecycle_name scheduled = "scheduled"
lifecycle_name sent = "sent"
lifecycle_name delivered = "delivered"
lifecycle_name failed = "failed"
lifecycle_name cancelled = "cancelled"
lifecycle_name ambiguous = "ambiguous"

-- The specific type of an event, for the statuses that have one.
abbrev pub specific_type : Lifecycle → Option String
specific_type sent = some "message.sent"
specific_type delivered = some "message.delivered"
specific_type failed = some "message.failed"
specific_type _ = none

abbrev pub same_event : Event → Event → Bool
same_event e f = str_eq f.org_id e.org_id && str_eq f.deduplication_key e.deduplication_key

abbrev pub joined : List String → String
joined [] = ""
joined (s ∷ rest) = String.◌++◌ s (joined rest)

-- One lifecycle event of a message.
abbrev pub lifecycle_event :
    Message → Lifecycle → ℕ → Option String → Option String → String → String → Event
lifecycle_event m status n provider_status provider_error_code type key = record {
  org_id = m.org_id;
  deduplication_key = key;
  type = type;
  aggregate_id = m.id;
  application_status = lifecycle_name status;
  attempt_number = n;
  provider_status = provider_status;
  provider_error_code = provider_error_code;
}

-- `enqueueCustomerWebhookEvent`, as far as the event's own row goes: a second event with the same
-- organization and key is not written. `accepts` says whether the call's own checks pass (the input's
-- bounds, and that each active subscription has a signing secret); if not, the transaction throws.
module _ (accepts : Event → Database → Bool) (decimal : ℕ → String) where
  unfoldable pub enqueue : Event → Tx (Unit {0})
  enqueue e db =
      if accepts e db
      then some (
        tt,
        (if any (same_event e) db.events then db else record db { events = db.events ++ e ∷ [] }),
      )
      else none

  -- The event of the specific type, where the status has one.
  unfoldable pub enqueue_specific :
      Message → Lifecycle → ℕ → Option String → Option String → Option String → Tx (Unit {0})
  enqueue_specific m status n provider_status provider_error_code none = return tt
  enqueue_specific m status n provider_status provider_error_code (some type) = enqueue (
      lifecycle_event m status n provider_status provider_error_code type
        (joined (type ∷ ":" ∷ m.id ∷ ":" ∷ decimal n ∷ [])))

  -- The event that every change of status has.
  abbrev pub status_event : Message → Lifecycle → ℕ → Option String → Option String → Event
  status_event m status n provider_status provider_error_code =
      lifecycle_event m status n provider_status provider_error_code "message.status.updated" (
        joined
          ("message.status.updated:" ∷ m.id ∷ ":" ∷ lifecycle_name status ∷ ":" ∷ decimal n ∷ []))

  -- `enqueueMessageLifecycleEvents`
  unfoldable pub enqueue_lifecycle :
      Message → Lifecycle → ℕ → Option String → Option String → Tx (Unit {0})
  enqueue_lifecycle m status n provider_status provider_error_code = do
    enqueue (status_event m status n provider_status provider_error_code)
    enqueue_specific m status n provider_status provider_error_code (specific_type status)
