-- ===== src/Messaging/Cancellation.antt =====
-- lib/messaging/direct-message-cancellation.ts. The second read under the locks sees what the first
-- one saw, since the transaction is atomic here.
pub mod Laws
use Prim.Native.String
use signalstack_sms.Prelude.{
  ℕ, String, Bool, true, false, not, ◌&&◌, ◌||◌, Option, none, some, List, [], ◌∷◌, leb, ◌==◌,
  str_eq, if◌then◌else◌, is_none, keep_if,
}
use signalstack_sms.Messaging.Model.{
  Message, Attempt, Event, Database, MessageStatus, AttemptStatus, message_is, attempt_is,
  find_attempt, find_message, update_attempt, update_message, Tx, ◌>>=◌, ◌>>◌, return,
}
use signalstack_sms.Messaging.Dispatch.{message_is_open}
use signalstack_sms.Messaging.Worker.Defs.{closed_by, enqueue, joined}
use signalstack_sms.Messaging.Worker.Prepare.{Host}

pub data CancelResult : Type 0 where
  done : Bool → CancelResult
  not_found conflict : CancelResult

-- The attempt with the highest number: of the rows of the message, the last that beats all before it.
unfoldable pub current_attempt : String → String → List Attempt → Option Attempt
current_attempt org message_id [] = none
current_attempt org message_id (a ∷ rows) =
    let rest = current_attempt org message_id rows in
    if str_eq a.org_id org && str_eq a.message_id message_id then higher a rest else rest
  where
    higher : Attempt → Option Attempt → Option Attempt
    higher x none = some x
    higher x (some y) = if leb y.attempt_number x.attempt_number then some x else some y

abbrev attempt_is_open : AttemptStatus → Bool
attempt_is_open AttemptStatus.queued = true
attempt_is_open AttemptStatus.processing = true
attempt_is_open _ = false

-- Before the call frontier.
unfoldable pub is_cancellable : Message → Attempt → Bool
is_cancellable m a =
    message_is_open m.application_status
    && attempt_is_open a.status
    && is_none a.provider_call_started_at
    && is_none a.completed_at

unfoldable pub api_cancelled_attempt : ℕ → Attempt → Attempt
api_cancelled_attempt now a = record a {
  status = AttemptStatus.cancelled;
  processing_token = none;
  processing_expires_at = none;
  error_code = some "CANCELLED_BY_API";
  disposition = some "terminal";
  completed_at = some now;
}

unfoldable pub api_cancelled_message : ℕ → Message → Message
api_cancelled_message now m = record m {
  application_status = MessageStatus.cancelled;
  cancelled_at = some now;
}

module _ (host : Host) where
  unfoldable pub cancel_event : Message → Attempt → Event
  cancel_event m a = record {
    org_id = m.org_id;
    deduplication_key =
        joined
          ("message.status.updated:" ∷ m.id ∷ ":cancelled:" ∷ host.decimal a.attempt_number ∷ []);
    type = "message.status.updated";
    aggregate_id = m.id;
    application_status = "cancelled";
    attempt_number = a.attempt_number;
    provider_status = m.provider_status;
    provider_error_code = m.provider_error_code;
  }

  unfoldable pub cancel_attempt : Message → Attempt → ℕ → Tx CancelResult
  cancel_attempt m a now db =
      if is_cancellable m a
      then (do
        update_attempt a.id (api_cancelled_attempt now)
        update_message m.id (api_cancelled_message now)
        enqueue host.accepts host.decimal (cancel_event m a)
        return (done false))
          db
      else return conflict db

  unfoldable pub cancel_direct_message : String → String → ℕ → Tx CancelResult
  cancel_direct_message org message_id now db =
      elim (keep_if (λ m. str_eq m.org_id org) (find_message message_id db)) [
        | none ↦ return not_found db
        | some m ↦
            if message_is m.application_status MessageStatus.cancelled
            then return (done true) db
            else elim (current_attempt org message_id db.attempts) [
              | none ↦ return conflict db
              | some snapshot ↦
                  elim (keep_if (λ a. str_eq a.org_id org && str_eq a.message_id message_id)
                    (find_attempt snapshot.id db)) [
                      | none ↦ return conflict db
                      | some a ↦ cancel_attempt m a now db
                    ]
            ]
      ]
