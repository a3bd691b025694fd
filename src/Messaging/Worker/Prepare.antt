-- ===== src/Messaging/Worker/Prepare.antt =====
-- `prepareClaimedDirectMessageAttempt`: the guards, in their order, and the write that begins the
-- provider call. The transaction's row locks make it atomic, so the reads it repeats after a lock
-- see what the first ones saw.
use signalstack_sms.Prelude.{
  ℕ, String, Bool, true, false, ◌&&◌, ◌||◌, Option, none, some, List, [], ◌∷◌, ltb, leb, ◌==◌,
  str_eq, if◌then◌else◌, is_none, is_some, or_else, or_option, any, codes, keep_if, find, find_row,
}
use signalstack_sms.Text.{Text}
use signalstack_sms.Compliance.Gates.Defs.{
  ComplianceProfile, ConsentEvidence, ConsentStatus, is_opted_out, gate_allows,
}
use signalstack_sms.Messaging.Model.{
  Message, Attempt, Event, Database, MessageStatus, AttemptStatus, Transport, dummy, twilio,
  message_is, attempt_is, option_eq, is_dummy, find_attempt, find_message, update_attempt,
  update_message, Tx, ◌>>◌, return,
}
use signalstack_sms.Messaging.Readiness.{
  Environment, Readiness, direct_message_worker_readiness, is_text,
}
use signalstack_sms.Messaging.Worker.Defs.{
  Claim, Prepared, ProviderSnapshot, claim_is_valid, close_attempt, Lifecycle, enqueue_lifecycle,
}

pub record ContactRow : Type 0 where
  pub id : String
  pub org_id : String
  pub phone : String
  pub consent_status : ConsentStatus
  pub opted_out_at : Option ℕ
  pub archived_at : Option ℕ
  pub evidence : ConsentEvidence

pub record OrganizationRow : Type 0 where
  pub id : String
  pub timezone : String
  pub demo_mode : Bool
  pub profile : Option ComplianceProfile

pub record AccountRow : Type 0 where
  pub id : String
  pub org_id : String
  pub provider : String
  pub verified : Bool
  pub revoked_at : Option ℕ
  pub external_account_id : String

pub record SenderRow : Type 0 where
  pub id : String
  pub org_id : String
  pub provider : String
  pub provider_account_id : String
  pub verified : Bool
  pub disabled_at : Option ℕ
  pub phone_number : String
  pub capabilities : List String

pub record SecretRow : Type 0 where
  pub id : String
  pub org_id : String
  pub provider_account_id : String
  pub version : ℕ
  pub active_from : ℕ
  pub retired_at : Option ℕ

-- The tables that the transaction only reads; secrets in descending order of their version.
pub record Directory : Type 0 where
  pub contacts : List ContactRow
  pub organizations : List OrganizationRow
  pub accounts : List AccountRow
  pub senders : List SenderRow
  pub secrets : List SecretRow

-- What the model takes from elsewhere: JavaScript's `toUpperCase` and `toLowerCase`, the `Intl` date
-- format, the URL and key parsers, the number format, the status callback URL of lib/messaging/
-- status-callback-correlation.ts (`none` where it throws), and the checks of the webhook outbox.
pub record Host : Type 0 where
  pub upper_case : Text → Text
  pub lower_case : String → String
  pub format_hour : ℕ → String → Option ℕ
  pub valid_https_origin : String → Bool
  pub valid_master_key : String → Bool
  pub decimal : ℕ → String
  pub callback_url : String → String → String → String → String → Option String
  pub accepts : Event → Database → Bool

pub data PrepareResult : Type 0 where
  prepared : Prepared → PrepareResult
  cancelled skipped : PrepareResult

lists_eq : List String → List String → Bool
lists_eq [] [] = true
lists_eq (a ∷ s) (b ∷ t) = str_eq a b && lists_eq s t
lists_eq _ _ = false

-- The message's payload as it was accepted is still the attempt's.
unfoldable pub accepted_payload_matches : Message → Attempt → Bool
unfolding lists_eq
accepted_payload_matches m a =
    str_eq m.direction "OUTBOUND"
    && transport_eq m.transport a.transport
    && option_eq m.destination (some a.destination)
    && str_eq m.body a.body
    && option_eq m.request_fingerprint (some a.request_fingerprint)
    && m.attempt_count == a.attempt_number
    && lists_eq m.media_urls a.media_urls
  where
    transport_eq : Transport → Transport → Bool
    transport_eq dummy dummy = true
    transport_eq twilio twilio = true
    transport_eq _ _ = false

-- The condition under which a claim still holds its attempt, before the provider call.
unfoldable pub holds_claim : Claim → Attempt → Bool
holds_claim c a =
    str_eq a.org_id c.expected_org_id
    && attempt_is a.status AttemptStatus.processing
    && option_eq a.processing_token (some c.processing_token)
    && is_none a.completed_at
    && is_none a.provider_call_started_at

abbrev pub lease_runs : Option ℕ → ℕ → Bool
lease_runs none now = false
lease_runs (some t) now = ltb now t

abbrev pub is_processing : Message → Bool
is_processing m = message_is m.application_status MessageStatus.processing

-- The condition of the write that begins the call.
unfoldable pub still_holds : Claim → Attempt → ℕ → Bool
still_holds c a now = holds_claim c a && lease_runs a.processing_expires_at now

unfoldable pub recipient_is_blocked : ContactRow → Bool
recipient_is_blocked contact =
    is_some contact.archived_at
    || is_some contact.opted_out_at
    || is_opted_out contact.consent_status

-- An empty identifier is falsy.
abbrev pub contact_of : Option String → String → Directory → Option ContactRow
contact_of none org dir = none
contact_of (some id) org dir =
    if str_eq id ""
    then none
    else keep_if (λ c. str_eq c.org_id org) (find_row ContactRow.id id dir.contacts)

-- The changes with which a claimed attempt is cancelled, and those of its message.
unfoldable pub cancelled_attempt : String → ℕ → Attempt → Attempt
cancelled_attempt code now a = record a {
  status = AttemptStatus.cancelled;
  error_code = some code;
  provider_error_code = none;
  disposition = some "terminal";
  completed_at = some now;
}

unfoldable pub cancelled_message : ℕ → Message → Message
cancelled_message now m = record m {
  application_status = MessageStatus.cancelled;
  cancelled_at = or_option m.cancelled_at (some now);
}

unfoldable pub prepared_attempt :
    Attempt → Claim → Option ℕ → Option ProviderSnapshot → String → Option String → Prepared
prepared_attempt a c started snapshot from url = record {
  org_id = a.org_id;
  attempt_id = a.id;
  message_id = a.message_id;
  attempt_number = a.attempt_number;
  processing_token = c.processing_token;
  transport = a.transport;
  provider_call_started_at = started;
  provider_snapshot = snapshot;
  provider_phone_number_id = a.provider_phone_number_id;
  from = from;
  destination = a.destination;
  body = a.body;
  media_urls = a.media_urls;
  request_fingerprint = a.request_fingerprint;
  callback_correlation_id = a.callback_correlation_id;
  status_callback_url = url;
}

-- `updateMany` with which the provider call begins.
unfoldable pub started_attempt : SecretRow → ℕ → Attempt → Attempt
started_attempt secret now a = record a {
  provider_credential_secret_id = some secret.id;
  provider_credential_version = some secret.version;
  provider_call_started_at = some now;
}

-- `readiness.allowed && readiness.transport === "twilio"`
abbrev pub is_ready_for_twilio : Readiness → Bool
is_ready_for_twilio (Readiness.allowed twilio) = true
is_ready_for_twilio _ = false

-- Both parts of the binding to a provider; an empty identifier is falsy.
abbrev pub both : Option String → Option String → Option (String × String)
both (some x) (some y) = if str_eq x "" || str_eq y "" then none else some (x, y)
both _ _ = none

module _ (host : Host) where
  unfoldable pub cancel_claimed_attempt : Message → Attempt → ℕ → String → Tx PrepareResult
  cancel_claimed_attempt m a now code = do
    close_attempt a.id (cancelled_attempt code now)
    update_message a.message_id (cancelled_message now)
    enqueue_lifecycle host.accepts host.decimal m Lifecycle.cancelled a.attempt_number none none
    return cancelled

  unfoldable pub sender_capability_allows : List String → List String → Bool
  sender_capability_allows capabilities [] =
      any (λ c. str_eq (host.lower_case c) "sms") capabilities
  sender_capability_allows capabilities (_ ∷ _) =
      any (λ c. str_eq (host.lower_case c) "mms") capabilities

  -- The send-time gate on the contact as it is now.
  unfoldable pub gate_passes : Environment → OrganizationRow → ContactRow → Attempt → ℕ → Bool
  gate_passes env org contact a now = gate_allows host.upper_case host.format_hour (record {
    demo_mode = is_text env.demo_mode "true" || org.demo_mode;
    live_messaging_enabled = is_text env.live_messaging_enabled "true";
    messaging_provider = or_else env.messaging_provider "dummy";
    compliance_profile = org.profile;
    contact = some (record {
      phone = some (codes a.destination);
      state = none;
      consent_status = contact.consent_status;
      opted_out_at = contact.opted_out_at;
      archived_at = contact.archived_at;
      evidence = contact.evidence;
    });
    quiet_hours = some (record { now = now; time_zone = org.timezone; state = none });
  })

  -- The provider's account, sender and newest active secret, if all are at hand.
  unfoldable pub provider_authority :
      Directory
      → String
      → String
      → String
      → ℕ
      → List String
      → Option (AccountRow × SenderRow × SecretRow)
  provider_authority dir org account_id sender_id now media =
      elim (keep_if
        (λ a.
          str_eq a.org_id org && str_eq a.provider "twilio" && a.verified && is_none a.revoked_at)
        (find_row AccountRow.id account_id dir.accounts)) [
          | none ↦ none
          | some account ↦
              elim (keep_if
                (λ s.
                  str_eq s.org_id org
                  && str_eq s.provider "twilio"
                  && str_eq s.provider_account_id account_id
                  && s.verified
                  && is_none s.disabled_at)
                (find_row SenderRow.id sender_id dir.senders)) [
                  | none ↦ none
                  | some sender ↦
                      elim (find
                        (λ k.
                          str_eq k.org_id org
                          && str_eq k.provider_account_id account_id
                          && leb k.active_from now
                          && is_none k.retired_at)
                        dir.secrets) [
                          | none ↦ none
                          | some secret ↦
                              if sender_capability_allows sender.capabilities media
                              then some (account, sender, secret)
                              else none
                        ]
                ]
        ]

  -- The last stage: the callback URL, and the conditional write that begins the call.
  unfoldable pub begin_call :
      Claim
      → Environment
      → ℕ
      → Message
      → Attempt
      → AccountRow × SenderRow × SecretRow
      → Tx PrepareResult
  begin_call c env now m a authority db =
      elim (host.callback_url (or_else env.app_url "") c.expected_org_id a.id
        a.callback_correlation_id (or_else env.secrets_master_key "")) [
          | none ↦ cancel_claimed_attempt m a now "CALLBACK_AUTHORITY_UNAVAILABLE" db
          | some url ↦
              if still_holds c a now
              then (do
                update_attempt a.id (started_attempt authority.2 now)
                return (
                    prepared (
                      prepared_attempt a c (some now)
                        (some (record {
                          provider_account_id = authority.0.id;
                          external_account_id = authority.0.external_account_id;
                          provider_credential_secret_id = authority.2.id;
                          provider_credential_version = authority.2.version;
                        }))
                        authority.1.phone_number (some url))))
                  db
              else return skipped db
        ]

  -- The stage after the gate: the binding and the provider's authority.
  unfoldable pub prepare_authority :
      Claim → Environment → Directory → ℕ → Message → Attempt → Tx PrepareResult
  prepare_authority c env dir now m a db =
      elim (both a.provider_account_id a.provider_phone_number_id) [
        | none ↦ cancel_claimed_attempt m a now "PROVIDER_BINDING_UNAVAILABLE" db
        | some binding ↦
            elim (provider_authority dir c.expected_org_id binding.0 binding.1 now a.media_urls) [
              | none ↦ cancel_claimed_attempt m a now "PROVIDER_AUTHORITY_UNAVAILABLE" db
              | some authority ↦ begin_call c env now m a authority db
            ]
      ]

  -- The stage of the live transport, from the worker's readiness to the gate.
  unfoldable pub prepare_live :
      Claim
      → Environment
      → Directory
      → ℕ
      → Message
      → Attempt
      → ContactRow
      → OrganizationRow
      → Tx PrepareResult
  prepare_live c env dir now m a contact org db =
      if is_ready_for_twilio (
        direct_message_worker_readiness host.lower_case host.valid_https_origin
          host.valid_master_key env)
      then (if gate_passes env org contact a now
          then prepare_authority c env dir now m a db
          else cancel_claimed_attempt m a now "MESSAGING_HARD_GATE_BLOCKED" db)
      else cancel_claimed_attempt m a now "LIVE_WORKER_NOT_AUTHORIZED" db

  -- The stage of the dummy transport.
  unfoldable pub prepare_dummy : Claim → ℕ → Message → Attempt → ContactRow → Tx PrepareResult
  prepare_dummy c now m a contact db =
      if recipient_is_blocked contact
      then cancel_claimed_attempt m a now "RECIPIENT_BLOCKED" db
      else return (prepared (prepared_attempt a c none none "+15555550199" none)) db

  -- The stage of the recipient.
  unfoldable pub prepare_recipient :
      Claim → Environment → Directory → ℕ → Message → Attempt → Tx PrepareResult
  prepare_recipient c env dir now m a db = elim (contact_of m.contact_id c.expected_org_id dir) [
    | none ↦ cancel_claimed_attempt m a now "CONTACT_NOT_AVAILABLE" db
    | some contact ↦ elim (find_row OrganizationRow.id c.expected_org_id dir.organizations) [
      | none ↦ cancel_claimed_attempt m a now "CONTACT_NOT_AVAILABLE" db
      | some org ↦
          if str_eq contact.phone a.destination
          then (if is_dummy a.transport
              then prepare_dummy c now m a contact db
              else prepare_live c env dir now m a contact org db)
          else cancel_claimed_attempt m a now "CONTACT_NOT_AVAILABLE" db
    ]
  ]

  -- The whole transaction; an invalid claim throws.
  unfoldable pub prepare_claimed_attempt : Claim → Environment → Directory → ℕ → Tx PrepareResult
  prepare_claimed_attempt c env dir now db =
      if claim_is_valid c
      then elim (keep_if (holds_claim c) (find_attempt c.attempt_id db)) [
        | none ↦ return skipped db
        | some a ↦ elim (keep_if is_processing (find_message a.message_id db)) [
          | none ↦ return skipped db
          | some m ↦
              if accepted_payload_matches m a
              then (if lease_runs a.processing_expires_at now
                  then prepare_recipient c env dir now m a db
                  else return skipped db)
              else cancel_claimed_attempt m a now "ACCEPTED_PAYLOAD_MISMATCH" db
        ]
      ]
      else none
