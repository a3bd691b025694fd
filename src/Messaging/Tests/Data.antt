-- ===== src/Messaging/Tests/Data.antt =====
-- One message with one attempt, claimed by a worker, and what is around it.
use signalstack_sms.Prelude.{String, true, false, none, some, List, [], ◌∷◌, map, codes}
use signalstack_sms.Text.{to_upper}
use signalstack_sms.Compliance.Gates.Defs.{
  ConsentStatus, A2pRegistrationStatus, ConsentEvidence, ComplianceProfile,
}
use signalstack_sms.Messaging.Model.{
  Message, Attempt, Database, MessageStatus, AttemptStatus, twilio,
}
use signalstack_sms.Messaging.Policy.{CreateResult, ProviderMessageStatus}
use signalstack_sms.Messaging.Readiness.{Environment}
use signalstack_sms.Messaging.Worker.Defs.{Claim, Prepared}
use signalstack_sms.Messaging.Worker.Prepare.{Host, Directory, ContactRow, SecretRow}

abbrev pub host : Host
host = record {
  upper_case = map to_upper;
  lower_case = λ s. s;
  format_hour = λ now zone. some 12;
  valid_https_origin = λ s. true;
  valid_master_key = λ s. true;
  decimal = λ n. "1";
  callback_url = λ base org attempt correlation key. some "https://app.example/callback";
  accepts = λ e db. true;
}

abbrev pub event_key : List String → String
event_key [] = ""
event_key (s ∷ rest) = s

abbrev pub token : String
token = "11111111-1111-4111-8111-111111111111"

abbrev pub other_token : String
other_token = "22222222-2222-4222-9222-222222222222"

abbrev pub claim : Claim
claim = record { attempt_id = "a1"; expected_org_id = "o1"; processing_token = token }

abbrev pub other_claim : Claim
other_claim = record { attempt_id = "a1"; expected_org_id = "o1"; processing_token = other_token }

abbrev pub live_environment : Environment
live_environment = record {
  worker_enabled = some "true";
  worker_deployment_class = some "production-live-direct";
  runtime_process = some "worker";
  demo_mode = some "false";
  live_messaging_enabled = some "true";
  messaging_provider = some "twilio";
  app_url = some "https://app.example";
  secrets_master_key = some "key";
  node_env = some "production";
  vercel_env = none;
  deployment_env = none;
  app_env = none;
}

abbrev pub demo_environment : Environment
demo_environment = record live_environment {
  live_messaging_enabled = none;
  demo_mode = some "true";
  worker_deployment_class = none;
  messaging_provider = none;
  node_env = some "development";
}

abbrev pub evidence : ConsentEvidence
evidence = record {
  consent_captured_at = some (some 5);
  consent_method = some (codes "form");
  consent_disclosure = some (codes "terms");
}

abbrev pub profile : ComplianceProfile
profile = record {
  business_name = codes "Shop";
  messaging_use_case = codes "orders";
  opt_in_description = codes "form";
  privacy_policy_url = codes "p";
  terms_of_service_url = codes "t";
  a2p_registration_status = A2pRegistrationStatus.approved;
}

abbrev pub contact : ContactRow
contact = record {
  id = "c1";
  org_id = "o1";
  phone = "+12125550123";
  consent_status = ConsentStatus.opted_in;
  opted_out_at = none;
  archived_at = none;
  evidence = evidence;
}

abbrev pub secret : SecretRow
secret = record {
  id = "k1";
  org_id = "o1";
  provider_account_id = "p1";
  version = 1;
  active_from = 1;
  retired_at = none;
}

abbrev pub directory : Directory
directory = record {
  contacts = contact ∷ [];
  organizations =
      record { id = "o1"; timezone = "America/New_York"; demo_mode = false; profile = some profile }
      ∷ [];
  accounts =
      record {
        id = "p1";
        org_id = "o1";
        provider = "twilio";
        verified = true;
        revoked_at = none;
        external_account_id = "AC1";
      }
      ∷ [];
  senders =
      record {
        id = "s1";
        org_id = "o1";
        provider = "twilio";
        provider_account_id = "p1";
        verified = true;
        disabled_at = none;
        phone_number = "+12125550100";
        capabilities = "sms" ∷ [];
      }
      ∷ [];
  secrets = secret ∷ [];
}

abbrev pub message : Message
message = record {
  id = "m1";
  org_id = "o1";
  contact_id = some "c1";
  conversation_id = none;
  direction = "OUTBOUND";
  body = "hello";
  application_status = MessageStatus.processing;
  transport = twilio;
  destination = some "+12125550123";
  media_urls = [];
  request_fingerprint = some "f1";
  provider_message_id = none;
  provider_status = none;
  provider_error_code = none;
  delivered_at = none;
  failed_at = none;
  accepted_at = 100;
  scheduled_at = none;
  sent_at = none;
  cancelled_at = none;
  ambiguous_at = none;
  attempt_count = 1;
  idempotency_key = "i1";
}

abbrev pub attempt : Attempt
attempt = record {
  id = "a1";
  org_id = "o1";
  message_id = "m1";
  attempt_number = 1;
  retry_of_attempt_id = none;
  status = AttemptStatus.processing;
  transport = twilio;
  due_at = 100;
  processing_token = some token;
  processing_expires_at = some 30000;
  claimed_at = some 200;
  provider_call_started_at = none;
  provider_account_id = some "p1";
  provider_credential_secret_id = none;
  provider_credential_version = none;
  provider_phone_number_id = some "s1";
  destination = "+12125550123";
  body = "hello";
  media_urls = [];
  request_fingerprint = "f1";
  callback_correlation_id = token;
  provider_message_id = none;
  provider_status = none;
  provider_error_code = none;
  error_code = none;
  disposition = none;
  completed_at = none;
  reconciled_at = none;
  reconciled_by_user_id = none;
  reconciliation_note = none;
}

abbrev pub with_rows : Message → Attempt → Database
with_rows m a = record {
  messages = m ∷ [];
  attempts = a ∷ [];
  events = [];
  audits = [];
  memberships = record { org_id = "o1"; user_id = "u1" } ∷ [];
}

abbrev pub claimed : Database
claimed = with_rows message attempt

-- What the worker prepares at time 300, and the rows that it leaves.
abbrev pub prepared_message : Prepared
prepared_message = record {
  org_id = "o1";
  attempt_id = "a1";
  message_id = "m1";
  attempt_number = 1;
  processing_token = token;
  transport = twilio;
  provider_call_started_at = some 300;
  provider_snapshot = some (record {
    provider_account_id = "p1";
    external_account_id = "AC1";
    provider_credential_secret_id = "k1";
    provider_credential_version = 1;
  });
  provider_phone_number_id = some "s1";
  from = "+12125550100";
  destination = "+12125550123";
  body = "hello";
  media_urls = [];
  request_fingerprint = "f1";
  callback_correlation_id = token;
  status_callback_url = some "https://app.example/callback";
}

abbrev pub begun_attempt : Attempt
begun_attempt = record attempt {
  provider_credential_secret_id = some "k1";
  provider_credential_version = some 1;
  provider_call_started_at = some 300;
}

abbrev pub begun : Database
begun = with_rows message begun_attempt

-- The lease has run out at time 40000, and the attempt is closed as ambiguous.
abbrev pub unsure_attempt : Attempt
unsure_attempt = record begun_attempt {
  status = AttemptStatus.ambiguous;
  processing_token = none;
  processing_expires_at = none;
  completed_at = some 40000;
  error_code = some "WORKER_LEASE_EXPIRED_AFTER_FRONTIER";
  disposition = some "ambiguous";
}

abbrev pub unsure : Database
unsure =
    with_rows
      (record message { application_status = MessageStatus.ambiguous; ambiguous_at = some 40000 })
      unsure_attempt

abbrev pub answer : CreateResult
answer = record {
  provider_message_id = "SM0123456789abcdef0123456789abcdef";
  external_account_id = "AC1";
  status = ProviderMessageStatus.queued;
  provider_status = "queued";
  to = "+12125550123";
  from = some "+12125550100";
  messaging_service_id = none;
  provider_error_code = none;
}
