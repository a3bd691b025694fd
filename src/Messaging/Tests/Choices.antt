-- ===== src/Messaging/Tests/Choices.antt =====
-- The theorems on single operations, at concrete rows.
use signalstack_sms.Prelude.{
  ℕ, ◌+◌, true, false, ◌&&◌, Option, none, some, ◌≡◌, ◌≢◌, ◌⊎◌, ◌↔◌, refl, is_some, leb, ltb,
  find_row, update_row, or_else,
}
use signalstack_sms.Text.{is_safe_code}
use signalstack_sms.Messaging.Model.{
  Message, Attempt, Database, MessageStatus, dummy, twilio, find_attempt, find_message,
  update_attempt, update_message, create_attempt, clashes, same_key, require, has_membership,
  message_is,
}
use signalstack_sms.Messaging.Policy.{
  Decision, Disposition, ErrorClassification, decide_create_error, decide_retry,
  normalize_safe_code, normalize_provider_code, is_retryable_disposition,
}
use signalstack_sms.Messaging.Policy.Laws.{
  is_retry, HasSafeCodes, decide_create_error-is_retry, decide_create_error-due,
  decide_create_error-is_some, decide_create_error-HasSafeCodes,
}
use signalstack_sms.Messaging.Readiness.{
  allowed, is_text, direct_message_worker_readiness, dummy_readiness,
  environment_is_production_like,
}
use signalstack_sms.Messaging.Readiness.Laws.{
  IsLiveEnvironment, direct_message_worker_readiness-live_iff,
  direct_message_worker_readiness-dummy,
}
use signalstack_sms.Messaging.Worker.Defs.{claim_is_valid, is_uuid_v4, enqueue}
use signalstack_sms.Messaging.Worker.Prepare.{PrepareResult, prepare_claimed_attempt}
use signalstack_sms.Messaging.Worker.Finalize.{successor}
use signalstack_sms.Messaging.Cancellation.{
  CancelResult, conflict, current_attempt, is_cancellable, cancel_attempt, cancel_direct_message,
}
use signalstack_sms.Messaging.Cancellation.Laws.{
  cancel_direct_message-begun, cancel_direct_message-unsent,
}
use signalstack_sms.Messaging.Review.Defs.{
  Reviewed, done, attest_not_sent, attested_attempt, in_org, can_attest, can_retry, has_retry,
  has_later, retry_attested, shows_can_retry, shows_can_attest, audit, review_actor_is_valid,
  identifier_is_valid, rescheduled_message,
}
use signalstack_sms.Messaging.Review.Laws.{attest_not_sent-can_retry, can_retry-shows_can_retry}
use signalstack_sms.Messaging.Review.Once.{retry_attested-once}
use signalstack_sms.Messaging.Frontier.Trace.{Run}
use signalstack_sms.Messaging.Tests.Data.{
  host, event_key, claim, token, other_token, live_environment, demo_environment, directory,
  message, attempt, claimed, begun, begun_attempt, unsure, unsure_attempt,
}

-- A provider error that may be tried again, with a code that is not safe.
busy : ErrorClassification
busy = record {
  disposition = Disposition.retryable;
  is_retryable = true;
  safe_code = "bad code";
  provider_code = some "30001";
}

busy_decision :
    decide_create_error busy 1 (some 400)
    ≡ some (Decision.retry "PROVIDER_OPERATION_FAILED" none 5400)
unfolding decide_create_error decide_retry normalize_safe_code normalize_provider_code is_safe_code
    busy
busy_decision = refl

is_retry_example :
    is_retry (decide_create_error busy 1 (some 400))
    ≡ (leb 1 1 && ltb 1 3 && is_retryable_disposition busy.disposition && busy.is_retryable)
is_retry_example = decide_create_error-is_retry busy 1 400

abbrev first_number : ℕ
first_number = 1

abbrev first_due : ℕ
first_due = 5400

abbrev clock : Option ℕ
clock = some 400

due_example :
    ((first_number ≡ 1) × (first_due ≡ 400 + 5000))
    ⊎ ((first_number ≡ 2) × (first_due ≡ 400 + 30000))
due_example = decide_create_error-due busy 1 400 "PROVIDER_OPERATION_FAILED" none 5400 busy_decision

decided_example : is_some (decide_create_error busy 3 clock) ≡ (is_some clock && leb 1 3 && leb 3 3)
decided_example = decide_create_error-is_some busy 3 clock

safe_codes_example : HasSafeCodes (decide_create_error busy 2 (some 400))
safe_codes_example = decide_create_error-HasSafeCodes busy 2 (some 400)

live_iff_example :
    (direct_message_worker_readiness host.lower_case host.valid_https_origin host.valid_master_key
        live_environment
      ≡ allowed twilio)
    ↔ IsLiveEnvironment host.lower_case host.valid_https_origin host.valid_master_key
        live_environment
live_iff_example =
    direct_message_worker_readiness-live_iff host.lower_case host.valid_https_origin
      host.valid_master_key live_environment

demo_ready :
    direct_message_worker_readiness host.lower_case host.valid_https_origin host.valid_master_key
      demo_environment
    ≡ allowed dummy
unfolding direct_message_worker_readiness dummy_readiness environment_is_production_like
demo_ready = refl

demo_example :
    (environment_is_production_like host.lower_case host.valid_https_origin host.valid_master_key
        demo_environment
      ≡ false)
    × (is_text demo_environment.live_messaging_enabled "true" ≡ false)
    × (or_else demo_environment.messaging_provider "dummy" ≡ "dummy")
demo_example =
    direct_message_worker_readiness-dummy host.lower_case host.valid_https_origin
      host.valid_master_key demo_environment demo_ready

message_read : find_message "m1" begun ≡ some message
unfolding find_message find_row
message_read = refl

attempt_read : find_attempt "a1" begun ≡ some begun_attempt
unfolding find_attempt find_row
attempt_read = refl

current_read : current_attempt "o1" "m1" begun.attempts ≡ some begun_attempt
unfolding current_attempt
current_read = refl

begun_conflict_example : cancel_direct_message host "o1" "m1" 350 begun ≡ some (conflict, begun)
begun_conflict_example =
    cancel_direct_message-begun host "o1" "m1" 350 begun message begun_attempt begun_attempt
      message_read refl refl current_read attempt_read refl refl

-- The database that a transaction leaves.
abbrev left_by : Option (CancelResult × Database) → Database
left_by none = claimed
left_by (some (r, db)) = db

cancelled : Database
cancelled = left_by (cancel_direct_message host "o1" "m1" 250 claimed)

cancels :
    cancel_direct_message host "o1" "m1" 250 claimed ≡ some (CancelResult.done false, cancelled)
unfolding cancelled cancel_direct_message find_message find_attempt find_row current_attempt
    cancel_attempt is_cancellable update_attempt update_message update_row enqueue
cancels = refl

claimed_current : current_attempt "o1" "m1" claimed.attempts ≡ some attempt
unfolding current_attempt
claimed_current = refl

claim_valid : claim_is_valid claim ≡ true
unfolding claim_is_valid is_uuid_v4
claim_valid = refl

unsent_example :
    prepare_claimed_attempt host claim live_environment directory 300 cancelled
    ≡ some (PrepareResult.skipped, cancelled)
unsent_example =
    cancel_direct_message-unsent host event_key "o1" "m1" 250 300 claimed cancelled cancelled
      attempt claim live_environment directory cancels claimed_current Run.start refl claim_valid

unsure_message : Message
unsure_message = record message {
  application_status = MessageStatus.ambiguous;
  ambiguous_at = some 40000;
}

unsure_read : in_org "o1" "a1" unsure ≡ some (unsure_message, unsure_attempt)
unfolding in_org find_attempt find_message find_row unsure_message
unsure_read = refl

attestable : can_attest unsure_message unsure_attempt unsure ≡ true
unfolding can_attest has_retry unsure_message
attestable = refl

unsure_ambiguous : message_is unsure_message.application_status MessageStatus.ambiguous ≡ true
unfolding unsure_message
unsure_ambiguous = refl

unsure_last : has_later unsure_attempt unsure.attempts ≡ false
unfolding has_later
unsure_last = refl

reviewer_valid : review_actor_is_valid "o1" "a1" "u1" ≡ true
unfolding review_actor_is_valid identifier_is_valid
reviewer_valid = refl

reviewer_admitted : has_membership "o1" "u1" unsure ≡ true
unfolding has_membership
reviewer_admitted = refl

attest_example :
    (db : Database) × (b : Attempt) × (attest_not_sent "o1" "a1" "u1" "not in the log" 50000 unsure
      ≡ done db)
    × (in_org "o1" "a1" db ≡ some (unsure_message, b))
    × (can_retry unsure_message b db ≡ true)
attest_example =
    attest_not_sent-can_retry "o1" "a1" "u1" "not in the log" 50000 unsure unsure_message
      unsure_attempt reviewer_valid reviewer_admitted refl unsure_read attestable unsure_ambiguous
      refl unsure_last

shown_example :
    (can_retry unsure_message unsure_attempt unsure ≡ true
      → shows_can_retry unsure_message unsure_attempt unsure ≡ true)
    × (can_attest unsure_message unsure_attempt unsure ≡ true
        → shows_can_attest unsure_message unsure_attempt ≡ true)
shown_example = can_retry-shows_can_retry unsure_message unsure_attempt unsure

abbrev reviewed : Reviewed → Database
reviewed (done db) = db
reviewed _ = unsure

attested : Database
attested = reviewed (attest_not_sent "o1" "a1" "u1" "not in the log" 50000 unsure)

retried : Database
retried = reviewed (retry_attested host event_key "o1" "a1" "u1" "a2" other_token 60000 attested)

retries :
    retry_attested host event_key "o1" "a1" "u1" "a2" other_token 60000 attested ≡ done retried
unfolding retried attested attest_not_sent attested_attempt in_org find_attempt find_message
    find_row can_attest has_retry update_attempt update_row update_message audit can_retry has_later
    retry_attested create_attempt clashes same_key successor enqueue rescheduled_message require
    has_membership review_actor_is_valid identifier_is_valid
retries = refl

retried_once_example :
    retry_attested host event_key "o1" "a1" "u1" "a3" token 70000 retried ≢ done retried
retried_once_example =
    retry_attested-once host event_key attested retried retried retried "o1" "o1" "a1" "u1" "u1"
      "a2" "a3" other_token token 60000 70000 retries Run.start
