-- ===== src/Messaging/Review/Defs.antt =====
-- The transactions, and the flags that the review screen is given.
use Prim.Native.String
use signalstack_sms.Prelude.{
  ℕ, ◌+◌, String, Bool, true, false, not, ◌&&◌, ◌||◌, Option, none, some, List, [], ◌∷◌, ◌++◌, ltb,
  leb, ◌==◌, str_eq, if◌then◌else◌, is_none, is_some, or_option, keep_if, length, any, codes,
}
use signalstack_sms.Messaging.Model.{
  Message, Attempt, Event, Database, MessageStatus, AttemptStatus, message_is, attempt_is,
  option_eq, find_attempt, find_message, update_attempt, update_message, create_attempt, Tx, ◌>>◌,
  require, has_membership, message_key_is_free,
}
use signalstack_sms.Messaging.Policy.{
  ProviderMessageStatus, CreateResult, is_terminal_failure_status, upper_status,
  direct_message_max_attempts,
}
use signalstack_sms.Messaging.Worker.Defs.{enqueue}
use signalstack_sms.Messaging.Worker.Prepare.{Host}
use signalstack_sms.Messaging.Worker.Finalize.{successor}

pub data ReviewError : Type 0 where
  invalid not_found conflict : ReviewError

-- A transaction that may end in a review error, which rolls it back; `none` is any other exception.
pub data Reviewed : Type 0 where
  done : Database → Reviewed
  refused : ReviewError → Reviewed
  threw : Reviewed

abbrev pub finished : Option (Unit {0} × Database) → Reviewed
finished none = threw
finished (some (_, db)) = done db

unfoldable pub audit : String → String → String → String → Tx (Unit {0})
audit org actor action id db = some (
  tt,
  record db {
    audits =
        db.audits
        ++ record { org_id = org; actor_user_id = actor; action = action; subject_id = id } ∷ [];
  },
)

-- `attempt.retries.length > 0`
unfoldable pub has_retry : Attempt → List Attempt → Bool
has_retry a rows =
    any (λ b. str_eq b.message_id a.message_id && option_eq b.retry_of_attempt_id (some a.id)) rows

unfoldable pub has_later : Attempt → List Attempt → Bool
has_later a rows =
    any
      (λ b.
        str_eq b.org_id a.org_id
        && str_eq b.message_id a.message_id
        && ltb a.attempt_number b.attempt_number)
      rows

unfoldable pub can_attest : Message → Attempt → Database → Bool
can_attest m a db =
    attempt_is a.status AttemptStatus.ambiguous
    && is_none a.provider_message_id
    && is_none m.provider_message_id
    && is_none a.provider_status
    && is_none m.provider_status
    && is_none a.reconciled_at
    && not (has_retry a db.attempts)

unfoldable pub attested_attempt : String → String → ℕ → Attempt → Attempt
attested_attempt actor reason now a = record a {
  status = AttemptStatus.resolved_not_sent;
  disposition = some "not_sent";
  reconciled_at = some now;
  reconciled_by_user_id = some actor;
  reconciliation_note = some reason;
}

-- The attempt with its message, in the organization.
unfoldable pub in_org : String → String → Database → Option (Message × Attempt)
in_org org id db = elim (keep_if (λ a. str_eq a.org_id org) (find_attempt id db)) [
  | none ↦ none
  | some a ↦ elim (find_message a.message_id db) [ none ↦ none | some m ↦ some (m, a) ]
]

abbrev is_letter_or_digit : ℕ → Bool
is_letter_or_digit c =
    leb b'a' c && leb c b'z' || leb b'A' c && leb c b'Z' || leb b'0' c && leb c b'9'

abbrev is_identifier_tail : ℕ → Bool
is_identifier_tail c = is_letter_or_digit c || c == b'_' || c == b'-'

-- `assertIdentifier`. An identifier of these characters is its own `trim()`.
unfoldable pub identifier_is_valid : String → Bool
identifier_is_valid value =
    leb 1 (length (codes value)) && leb (length (codes value)) 191 && has_shape (codes value)
  where
    has_shape : List ℕ → Bool
    has_shape [] = false
    has_shape (c ∷ rest) = is_letter_or_digit c && not (any (λ d. not (is_identifier_tail d)) rest)

-- `assertReviewActor`
unfoldable pub review_actor_is_valid : String → String → String → Bool
review_actor_is_valid org id actor =
    identifier_is_valid org && identifier_is_valid id && identifier_is_valid actor

-- The reason is given as it is after `trim()`.
unfoldable pub attest_not_sent : String → String → String → String → ℕ → Database → Reviewed
attest_not_sent org id actor reason now db =
    if review_actor_is_valid org id actor
      && (leb 10 (length (codes reason)) && leb (length (codes reason)) 500)
    then elim (in_org org id db) [
      | none ↦ refused not_found
      | some (m, a) ↦
          if can_attest m a db
          then finished (
              (do
                require (has_membership org actor)
                update_attempt id (attested_attempt actor reason now)
                audit org actor "MESSAGE_ATTEMPT_ATTESTED_NOT_SENT" id)
                db)
          else refused conflict
    ]
    else refused invalid

unfoldable pub can_retry : Message → Attempt → Database → Bool
can_retry m a db =
    attempt_is a.status AttemptStatus.resolved_not_sent
    && is_some a.reconciled_at
    && is_none a.provider_message_id
    && is_none m.provider_message_id
    && message_is m.application_status MessageStatus.ambiguous
    && ltb a.attempt_number direct_message_max_attempts
    && not (has_retry a db.attempts)
    && not (has_later a db.attempts)

unfoldable pub rescheduled_message : ℕ → ℕ → Message → Message
rescheduled_message now n m = record m {
  application_status = MessageStatus.scheduled;
  scheduled_at = some now;
  attempt_count = n;
  provider_status = none;
  provider_error_code = none;
}

-- `messageAttemptEventDeduplicationKey` (a digest of its parts) is the parameter `event_key`.
module _ (host : Host) (event_key : List String → String) where
  unfoldable pub retry_event : Message → Attempt → String → Event
  retry_event m a successor_id = record {
    org_id = m.org_id;
    deduplication_key =
        event_key ("message.status.updated" ∷ a.message_id ∷ successor_id ∷ "scheduled" ∷ []);
    type = "message.status.updated";
    aggregate_id = a.message_id;
    application_status = "SCHEDULED";
    attempt_number = a.attempt_number + 1;
    provider_status = none;
    provider_error_code = none;
  }

  unfoldable pub retry_attested :
      String → String → String → String → String → ℕ → Database → Reviewed
  retry_attested org id actor successor_id correlation now db =
      if review_actor_is_valid org id actor
        && (identifier_is_valid successor_id && identifier_is_valid correlation)
      then elim (in_org org id db) [
        | none ↦ refused not_found
        | some (m, a) ↦
            if can_retry m a db
            then finished (
                (do
                  create_attempt (successor successor_id correlation now a)
                  update_message a.message_id (rescheduled_message now (a.attempt_number + 1))
                  enqueue host.accepts host.decimal (retry_event m a successor_id)
                  audit org actor "MESSAGE_ATTEMPT_RETRY_CREATED" id)
                  db)
            else refused conflict
      ]
      else refused invalid

  -- `applicationStatusFromFetched`
  unfoldable pub application_status_from : ProviderMessageStatus → MessageStatus
  application_status_from s =
      if is_terminal_failure_status s
      then MessageStatus.failed
      else if is_delivered s
      then MessageStatus.delivered
      else MessageStatus.sent
    where
      is_delivered : ProviderMessageStatus → Bool
      is_delivered ProviderMessageStatus.delivered = true
      is_delivered ProviderMessageStatus.received = true
      is_delivered ProviderMessageStatus.read = true
      is_delivered _ = false

  unfoldable pub reconciled_attempt : CreateResult → String → String → ℕ → Attempt → Attempt
  reconciled_attempt r actor note now a = record a {
    status =
        if is_terminal_failure_status r.status
        then AttemptStatus.failed
        else AttemptStatus.succeeded;
    provider_status = some r.provider_status;
    provider_error_code = r.provider_error_code;
    error_code =
        if is_terminal_failure_status r.status
        then some (String.◌++◌ "PROVIDER_STATUS_" (upper_status r.status))
        else none;
    disposition = some (if is_terminal_failure_status r.status then "terminal" else "success");
    reconciled_at = some now;
    reconciled_by_user_id = some actor;
    reconciliation_note = some note;
  }

  unfoldable pub reconciled_message : CreateResult → ℕ → Message → Message
  reconciled_message r now m = with_times (application_status_from r.status) (record m {
    application_status = application_status_from r.status;
    provider_message_id = some r.provider_message_id;
    provider_status = some r.provider_status;
    provider_error_code = r.provider_error_code;
  })
    where
      with_times : MessageStatus → Message → Message
      with_times MessageStatus.failed n = record n {
        delivered_at = none;
        failed_at = or_option m.failed_at (some now);
      }
      with_times MessageStatus.delivered n = record n {
        sent_at = or_option m.sent_at (some now);
        delivered_at = or_option m.delivered_at (some now);
        failed_at = none;
      }
      with_times _ n = record n { sent_at = or_option m.sent_at (some now) }

  abbrev code_part : Option String → List String
  code_part none = []
  code_part (some s) = s ∷ []

  abbrev lifecycle_type : MessageStatus → String
  lifecycle_type MessageStatus.delivered = "message.delivered"
  lifecycle_type MessageStatus.failed = "message.failed"
  lifecycle_type _ = "message.sent"

  abbrev status_name : MessageStatus → String
  status_name MessageStatus.delivered = "DELIVERED"
  status_name MessageStatus.failed = "FAILED"
  status_name _ = "SENT"

  unfoldable pub reconciled_event : Message → Attempt → CreateResult → String → String → Event
  reconciled_event m a r type key = record {
    org_id = m.org_id;
    deduplication_key = key;
    type = type;
    aggregate_id = m.id;
    application_status = status_name (application_status_from r.status);
    attempt_number = a.attempt_number;
    provider_status = some r.provider_status;
    provider_error_code = r.provider_error_code;
  }

  -- `enqueueReconciliationEvents`
  unfoldable pub enqueue_reconciliation : Message → Attempt → CreateResult → Tx (Unit {0})
  enqueue_reconciliation m a r = do
    enqueue host.accepts host.decimal (
        reconciled_event m a r "message.status.updated" (
          event_key (
            "message.status.updated"
            ∷ m.id
            ∷ a.id
            ∷ r.provider_status
            ∷ code_part r.provider_error_code)))
    enqueue host.accepts host.decimal (
        reconciled_event m a r (lifecycle_type (application_status_from r.status))
          (event_key (lifecycle_type (application_status_from r.status) ∷ m.id ∷ a.id ∷ [])))

  -- What the reads and the conditional writes of that transaction ask of the rows.
  unfoldable pub can_reconcile : Message → Attempt → CreateResult → Bool
  can_reconcile m a r =
      attempt_is a.status AttemptStatus.ambiguous
      && option_eq a.provider_message_id (some r.provider_message_id)
      && is_none a.reconciled_at
      && message_is m.application_status MessageStatus.ambiguous
      && (is_none m.provider_message_id
          || option_eq m.provider_message_id (some r.provider_message_id))

  -- The test of the actor and the second transaction of `reconcileDeliveryAttempt`, on evidence that matches; `current` is
  -- whether the provider's account, sender and secret are still those of the first transaction.
  unfoldable pub apply_reconciliation :
      String → String → String → String → CreateResult → Bool → ℕ → Database → Reviewed
  apply_reconciliation org id actor note r current now db =
      if review_actor_is_valid org id actor
      then elim (in_org org id db) [
        | none ↦ refused conflict
        | some (m, a) ↦
            if current && can_reconcile m a r
            then finished (
                (do
                  require (λ db'.
                      has_membership org actor db'
                      && message_key_is_free a (some r.provider_message_id) db')
                  update_attempt id (reconciled_attempt r actor note now)
                  update_message a.message_id (reconciled_message r now)
                  enqueue_reconciliation m a r
                  audit org actor "MESSAGE_ATTEMPT_RECONCILED" id)
                  db)
            else refused conflict
      ]
      else refused invalid

-- The flags of `projectReviewAttempt`.
unfoldable pub shows_can_retry : Message → Attempt → Database → Bool
shows_can_retry m a db =
    attempt_is a.status AttemptStatus.resolved_not_sent
    && message_is m.application_status MessageStatus.ambiguous
    && is_none a.provider_message_id
    && is_none m.provider_message_id
    && ltb a.attempt_number direct_message_max_attempts
    && not (has_retry a db.attempts)

unfoldable pub shows_can_attest : Message → Attempt → Bool
shows_can_attest m a =
    attempt_is a.status AttemptStatus.ambiguous
    && is_none a.provider_message_id
    && is_none m.provider_message_id
    && is_none a.provider_status
