-- ===== src/Messaging/Worker/Finalize.antt =====
-- `finalizeClaimedDirectMessageAttempt` and `markDirectMessageResultPersistenceAmbiguous`.
-- A new row's identifier and the successor's correlation are arguments.
use signalstack_sms.Prelude.{
  ℕ, ◌+◌, max, String, Bool, true, false, ◌&&◌, Option, none, some, leb, ◌==◌, str_eq,
  if◌then◌else◌, is_none, or_option, keep_if,
}
use signalstack_sms.Messaging.Model.{
  Message, Attempt, MessageStatus, AttemptStatus, attempt_is, option_eq, is_dummy, find_attempt,
  find_message, update_message, create_attempt, require, provider_id_is_free, Tx, ◌>>◌, return,
}
use signalstack_sms.Messaging.Policy.{Decision, CreateResult, max_time}
use signalstack_sms.Messaging.Worker.Defs.{
  Claim, Prepared, claim_is_valid, prepared_matches_claim, is_uuid_v4, close_attempt, Lifecycle,
  enqueue_lifecycle,
}
use signalstack_sms.Messaging.Worker.Prepare.{Host, is_processing}

abbrev time_eq : Option ℕ → Option ℕ → Bool
time_eq none none = true
time_eq (some a) (some b) = a == b
time_eq _ _ = false

-- The condition under which an attempt still waits for this claim's answer.
unfoldable pub awaits_answer : Claim → Prepared → Attempt → Bool
awaits_answer c p a =
    str_eq a.org_id c.expected_org_id
    && str_eq a.message_id p.message_id
    && attempt_is a.status AttemptStatus.processing
    && option_eq a.processing_token (some c.processing_token)
    && is_none a.completed_at
    && time_eq a.provider_call_started_at
        (if is_dummy p.transport then none else p.provider_call_started_at)

unfoldable pub failed_attempt :
    String → Option String → String → Option CreateResult → ℕ → Attempt → Attempt
failed_attempt code provider_code disposition result now a = record a {
  status = AttemptStatus.failed;
  provider_message_id = message_id result;
  provider_status = status result;
  error_code = some code;
  provider_error_code = provider_code;
  disposition = some disposition;
  completed_at = some now;
}
  where
    -- An `undefined` value leaves the column as it is.
    message_id : Option CreateResult → Option String
    message_id none = a.provider_message_id
    message_id (some r) = some r.provider_message_id

    status : Option CreateResult → Option String
    status none = a.provider_status
    status (some r) = some r.provider_status

unfoldable pub ambiguous_attempt : String → Option String → ℕ → Attempt → Attempt
ambiguous_attempt code provider_code now a = record a {
  status = AttemptStatus.ambiguous;
  error_code = some code;
  provider_error_code = provider_code;
  disposition = some "ambiguous";
  completed_at = some now;
}

unfoldable pub succeeded_attempt : CreateResult → ℕ → Attempt → Attempt
succeeded_attempt r now a = record a {
  status = AttemptStatus.succeeded;
  provider_message_id = some r.provider_message_id;
  provider_status = some r.provider_status;
  provider_error_code = r.provider_error_code;
  error_code = none;
  disposition = some "success";
  completed_at = some now;
}

unfoldable pub scheduled_message : ℕ → ℕ → Option String → Message → Message
scheduled_message due n provider_code m = record m {
  application_status = MessageStatus.scheduled;
  scheduled_at = some due;
  attempt_count = n;
  provider_error_code = provider_code;
}

unfoldable pub ambiguous_message : Option String → ℕ → Message → Message
ambiguous_message provider_code now m = record m {
  application_status = MessageStatus.ambiguous;
  ambiguous_at = or_option m.ambiguous_at (some now);
  provider_error_code = provider_code;
}

unfoldable pub failed_message : Option String → Option CreateResult → ℕ → Message → Message
failed_message provider_code result now m = record m {
  application_status = MessageStatus.failed;
  failed_at = some now;
  provider_message_id = message_id result;
  provider_error_code = provider_code;
  provider_status = status result;
}
  where
    message_id : Option CreateResult → Option String
    message_id none = m.provider_message_id
    message_id (some r) = some r.provider_message_id

    status : Option CreateResult → Option String
    status none = none
    status (some r) = some r.provider_status

unfoldable pub sent_message : Bool → CreateResult → ℕ → Message → Message
sent_message delivered r now m = record m {
  application_status = if delivered then MessageStatus.delivered else MessageStatus.sent;
  provider_message_id = some r.provider_message_id;
  provider_status = some r.provider_status;
  provider_error_code = r.provider_error_code;
  sent_at = or_option m.sent_at (some now);
  delivered_at = if delivered then some now else m.delivered_at;
  failed_at = none;
}

-- The successor of an attempt that is tried again.
unfoldable pub successor : String → String → ℕ → Attempt → Attempt
successor id correlation due a = record a {
  id = id;
  attempt_number = a.attempt_number + 1;
  retry_of_attempt_id = some a.id;
  status = AttemptStatus.queued;
  due_at = due;
  processing_token = none;
  processing_expires_at = none;
  claimed_at = none;
  provider_call_started_at = none;
  provider_credential_secret_id = none;
  provider_credential_version = none;
  callback_correlation_id = correlation;
  provider_message_id = none;
  provider_status = none;
  provider_error_code = none;
  error_code = none;
  disposition = none;
  completed_at = none;
  reconciled_at = none;
  reconciled_by_user_id = none;
  reconciliation_note = none;
}

module _ (host : Host) (new_id correlation : String) where
  abbrev lifecycle : Message → Lifecycle → ℕ → Option String → Option String → Tx (Unit {0})
  lifecycle = enqueue_lifecycle host.accepts host.decimal

  -- A delay that has led out of the range of a `Date` throws, and so does a bad correlation.
  unfoldable pub record_retry : Message → Attempt → String → Option String → ℕ → ℕ → Tx Bool
  record_retry m a code provider_code next now db =
      if leb (max next now) max_time && is_uuid_v4 correlation
      then (do
        close_attempt a.id (failed_attempt code provider_code "retryable" none now)
        create_attempt (successor new_id correlation (max next now) a)
        update_message a.message_id
            (scheduled_message (max next now) (a.attempt_number + 1) provider_code)
        lifecycle m Lifecycle.scheduled (a.attempt_number + 1) none provider_code
        return true)
          db
      else none

  unfoldable pub record_ambiguous : Message → Attempt → String → Option String → ℕ → Tx Bool
  record_ambiguous m a code provider_code now = do
    close_attempt a.id (ambiguous_attempt code provider_code now)
    update_message a.message_id (ambiguous_message provider_code now)
    lifecycle m Lifecycle.ambiguous a.attempt_number none provider_code
    return true

  abbrev result_status : Option CreateResult → Option String
  result_status none = none
  result_status (some r) = some r.provider_status

  abbrev pub result_id : Option CreateResult → Option String
  result_id none = none
  result_id (some r) = some r.provider_message_id

  -- The provider's identifier is written on both rows, so that it throws where another message or
  -- attempt has it.
  unfoldable pub record_failed :
      Message → Attempt → String → Option String → Bool → Option CreateResult → ℕ → Tx Bool
  record_failed m a code provider_code is_terminal result now = do
    require (provider_id_is_free a (result_id result))
    close_attempt a.id (
        failed_attempt code provider_code (if is_terminal then "terminal" else "retryable") result
          now)
    update_message a.message_id (failed_message provider_code result now)
    lifecycle m Lifecycle.failed a.attempt_number (result_status result) provider_code
    return true

  unfoldable pub record_success : Message → Attempt → Bool → CreateResult → ℕ → Tx Bool
  record_success m a delivered r now = do
    require (provider_id_is_free a (some r.provider_message_id))
    close_attempt a.id (succeeded_attempt r now)
    update_message a.message_id (sent_message delivered r now)
    lifecycle m (if delivered then Lifecycle.delivered else Lifecycle.sent) a.attempt_number
        (some r.provider_status) r.provider_error_code
    return true

  unfoldable pub record_decision : Message → Attempt → ℕ → Decision → Tx Bool
  record_decision m a now (Decision.retry code provider_code next) =
      record_retry m a code provider_code next now
  record_decision m a now (Decision.ambiguous code provider_code) =
      record_ambiguous m a code provider_code now
  record_decision m a now (Decision.failed code provider_code is_terminal result) =
      record_failed m a code provider_code is_terminal result now
  record_decision m a now (Decision.sent r) = record_success m a false r now
  record_decision m a now (Decision.delivered r) = record_success m a true r now

  unfoldable pub finalize_claimed_attempt : Claim → Prepared → Decision → ℕ → Tx Bool
  finalize_claimed_attempt c p decision now db =
      if claim_is_valid c && prepared_matches_claim c p
      then elim (keep_if (λ a. awaits_answer c p a && a.attempt_number == p.attempt_number)
          (find_attempt c.attempt_id db)) [
            | none ↦ return false db
            | some a ↦ elim (keep_if is_processing (find_message a.message_id db)) [
              | none ↦ return false db
              | some m ↦ record_decision m a now decision db
            ]
          ]
      else none

-- `markDirectMessageResultPersistenceAmbiguous`, which writes no lifecycle event.
unfoldable pub mark_persistence_ambiguous : Claim → Prepared → ℕ → Tx Bool
mark_persistence_ambiguous c p now db =
    if claim_is_valid c && prepared_matches_claim c p
    then elim (keep_if (awaits_answer c p) (find_attempt c.attempt_id db)) [
      | none ↦ return false db
      | some a ↦ elim (keep_if is_processing (find_message a.message_id db)) [
        | none ↦ return false db
        | some m ↦
            (do
              close_attempt a.id
                  (ambiguous_attempt "PROVIDER_RESULT_PERSISTENCE_UNCERTAIN" none now)
              update_message a.message_id (unsure_message now)
              return true)
              db
      ]
    ]
    else none
  where
    unsure_message : ℕ → Message → Message
    unsure_message t m = record m {
      application_status = MessageStatus.ambiguous;
      ambiguous_at = or_option m.ambiguous_at (some t);
    }
