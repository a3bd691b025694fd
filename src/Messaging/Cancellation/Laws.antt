-- ===== src/Messaging/Cancellation/Laws.antt =====
-- Cancelling and the provider's call exclude each other.
use signalstack_sms.Prelude.{
  ℕ, String, Bool, true, false, ◌&&◌, Option, none, some, List, ◌≡◌, refl, sym, subst, arith,
  keep_if, keep_if-some, str_eq, find_row-updated, update_row, is_some, if_case, option_case,
}
use signalstack_sms.Messaging.Model.{
  Message, Attempt, Database, MessageStatus, message_is, find_attempt, find_message, update_attempt,
  find_attempt-id, find_attempt-key,
}
use signalstack_sms.Messaging.Readiness.{Environment}
use signalstack_sms.Messaging.Worker.Defs.{Claim, claim_is_valid}
use signalstack_sms.Messaging.Worker.Prepare.{
  Host, Directory, PrepareResult, prepare_claimed_attempt,
}
use signalstack_sms.Messaging.Cancellation.{
  CancelResult, conflict, current_attempt, is_cancellable, api_cancelled_attempt,
  api_cancelled_message, cancel_event, cancel_attempt, cancel_direct_message,
}
use signalstack_sms.Messaging.Frontier.Row.{is_closed}
use signalstack_sms.Messaging.Frontier.Keep.{
  Keeps, >>-Keeping, update_message-Keeping, enqueue-Keeping, return-Keeping,
}
use signalstack_sms.Messaging.Frontier.Steps.{same}
use signalstack_sms.Messaging.Frontier.Trace.{Run, find_attempt-From}
use signalstack_sms.Messaging.Frontier.Once.{closed-skipped}

begun-uncancellable :
    (m : Message) (a : Attempt)
    → is_some a.provider_call_started_at ≡ true
    → is_cancellable m a ≡ false
unfolding is_cancellable
begun-uncancellable m a h = ground arith

-- When the provider call of a message's current attempt has begun, the message is not cancelled: the
-- request is a conflict and writes nothing (unless the message has been cancelled before).
pub cancel_direct_message-begun :
    (host : Host) (org id : String) (now : ℕ) (db : Database) (m : Message) (s a : Attempt)
    → find_message id db ≡ some m
    → str_eq m.org_id org ≡ true
    → message_is m.application_status MessageStatus.cancelled ≡ false
    → current_attempt org id db.attempts ≡ some s
    → find_attempt s.id db ≡ some a
    → (str_eq a.org_id org && str_eq a.message_id id) ≡ true
    → is_some a.provider_call_started_at ≡ true
    → cancel_direct_message host org id now db ≡ some (conflict, db)
unfolding cancel_direct_message cancel_attempt
cancel_direct_message-begun host org id now db m s a m_found owned live current found own begun =
    ground (arith, begun-uncancellable m a begun)

-- After a cancellation the attempt is closed.
abbrev Closes : String → Option (CancelResult × Database) → Type 0
Closes id (some (CancelResult.done false, db)) =
    (b : Attempt) × (find_attempt id db ≡ some b) × (is_closed b.status ≡ true)
Closes id _ = Unit

Keeps-Closes :
    (id : String) (b : Attempt) (db : Database) (o : Option (CancelResult × Database))
    → find_attempt id db ≡ some b
    → is_closed b.status ≡ true
    → Keeps db.attempts o
    → Closes id o
Keeps-Closes id b db none e h k = tt
Keeps-Closes id b db (some (CancelResult.done true, db')) e h k = tt
Keeps-Closes id b db (some (CancelResult.done false, db')) e h k =
    let (c, found, adv) = find_attempt-From id db db' b k e in (c, found, adv.closed h)
Keeps-Closes id b db (some (CancelResult.not_found, db')) e h k = tt
Keeps-Closes id b db (some (CancelResult.conflict, db')) e h k = tt

api_cancelled_attempt-closed :
    (now : ℕ) (a : Attempt) → is_closed (api_cancelled_attempt now a).status ≡ true
unfolding api_cancelled_attempt
api_cancelled_attempt-closed now a = refl

api_cancelled_attempt-id : (now : ℕ) (a : Attempt) → (api_cancelled_attempt now a).id ≡ a.id
unfolding api_cancelled_attempt
api_cancelled_attempt-id now a = refl

cancel_attempt-Closes :
    (host : Host) (m : Message) (a : Attempt) (now : ℕ) (db : Database)
    → find_attempt a.id db ≡ some a
    → Closes a.id (cancel_attempt host m a now db)
unfolding cancel_attempt update_attempt find_attempt
cancel_attempt-Closes host m a now db found =
    let after : Database = record db {
      attempts = update_row Attempt.id a.id (api_cancelled_attempt now) db.attempts;
    } in
    if_case (Closes a.id) (is_cancellable m a) _ _
      (λ _.
        Keeps-Closes a.id (api_cancelled_attempt now a) after _
          (find_row-updated Attempt.id a.id (api_cancelled_attempt now) db.attempts a found
            (api_cancelled_attempt-id now a))
          (api_cancelled_attempt-closed now a)
          ((>>-Keeping (update_message-Keeping m.id (api_cancelled_message now)) (
              >>-Keeping (enqueue-Keeping host.accepts host.decimal (cancel_event host m a))
                (return-Keeping (CancelResult.done false)))).run
            after (same after)))
      (λ _. tt)

cancel_direct_message-Closes :
    (host : Host) (org id : String) (now : ℕ) (db : Database) (s : Attempt)
    → current_attempt org id db.attempts ≡ some s
    → Closes s.id (cancel_direct_message host org id now db)
unfolding cancel_direct_message
cancel_direct_message-Closes host org id now db s current =
    option_case (Closes s.id) (keep_if (λ m. str_eq m.org_id org) (find_message id db)) _ _
      (λ _. tt)
      λ m _.
        if_case (Closes s.id) (message_is m.application_status MessageStatus.cancelled) _ _
          (λ _. tt)
          (λ _.
            let test : Attempt → Bool = λ a. str_eq a.org_id org && str_eq a.message_id id in
            rw current (
              option_case (Closes s.id) (keep_if test (find_attempt s.id db)) _ _ (λ _. tt)
                λ a kept.
                  let (found, _) = keep_if-some test (find_attempt s.id db) a kept in
                  subst (λ k. Closes k (cancel_attempt host m a now db))
                    (find_attempt-key s.id db a found)
                    (cancel_attempt-Closes host m a now db (find_attempt-id s.id db a found))))

-- A message whose cancellation was done is not sent: after any run of committed transactions, a
-- worker's valid claim on the attempt that was current is skipped and writes nothing.
pub cancel_direct_message-unsent :
    (host : Host) (event_key : List String → String) (org id : String) (cancelled_at now : ℕ)
    (db db1 db2 : Database) (s : Attempt) (c : Claim) (env : Environment) (dir : Directory)
    → cancel_direct_message host org id cancelled_at db ≡ some (CancelResult.done false, db1)
    → current_attempt org id db.attempts ≡ some s
    → Run host event_key db1 db2
    → c.attempt_id ≡ s.id
    → claim_is_valid c ≡ true
    → prepare_claimed_attempt host c env dir now db2 ≡ some (PrepareResult.skipped, db2)
cancel_direct_message-unsent host event_key org id cancelled_at now db db1 db2 s c env dir e current
      run claimed valid =
    let (b, found, closed) =
      subst (Closes s.id) e (cancel_direct_message-Closes host org id cancelled_at db s current) in
    closed-skipped host event_key b c env dir now run
      (subst (λ k. find_attempt k db1 ≡ some b) (sym claimed) found) closed valid
