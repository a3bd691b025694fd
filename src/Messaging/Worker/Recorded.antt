-- ===== src/Messaging/Worker/Recorded.antt =====
-- What `finalizeClaimedDirectMessageAttempt` leaves on the rows when it records an answer.
use signalstack_sms.Prelude.{
  ℕ, ◌+◌, max, String, Bool, true, false, ◌&&◌, Option, none, some, List, [], ◌∷◌, ◌++◌, ◌≡◌, refl,
  sym, ◌∙◌, arith, any, Bool-cases, inl, inr, find_row, update_row, find_row-updated,
  find_row-append, any-update_row, leb, if◌then◌else◌, ◌==◌,
}
use signalstack_sms.Messaging.Model.{
  Message, Attempt, Event, Database, MessageStatus, AttemptStatus, Tx, find_attempt, find_message,
  update_attempt, update_message, create_attempt, clashes, find_attempt-id, require,
  provider_id_is_free, same_key,
}
use signalstack_sms.Messaging.Policy.{Decision, CreateResult, max_time}
use signalstack_sms.Messaging.Worker.Defs.{
  Claim, Prepared, Lifecycle, specific_type, same_event, enqueue, enqueue_specific,
  enqueue_lifecycle, status_event, close_attempt, closed_by, claim_is_valid, prepared_matches_claim,
  is_uuid_v4,
}
use signalstack_sms.Messaging.Worker.Prepare.{Host, is_processing}
use signalstack_sms.Messaging.Worker.Finalize.{
  awaits_answer, successor, failed_attempt, ambiguous_attempt, succeeded_attempt, scheduled_message,
  ambiguous_message, failed_message, sent_message, record_retry, record_ambiguous, record_failed,
  result_id, record_success, record_decision, finalize_claimed_attempt,
}

-- The status that a decision gives to its attempt and to its message.
abbrev pub attempt_status_of : Decision → AttemptStatus
attempt_status_of (Decision.sent _) = AttemptStatus.succeeded
attempt_status_of (Decision.delivered _) = AttemptStatus.succeeded
attempt_status_of (Decision.ambiguous _ _) = AttemptStatus.ambiguous
attempt_status_of (Decision.failed _ _ _ _) = AttemptStatus.failed
attempt_status_of (Decision.retry _ _ _) = AttemptStatus.failed

abbrev pub message_status_of : Decision → MessageStatus
message_status_of (Decision.sent _) = MessageStatus.sent
message_status_of (Decision.delivered _) = MessageStatus.delivered
message_status_of (Decision.ambiguous _ _) = MessageStatus.ambiguous
message_status_of (Decision.failed _ _ _ _) = MessageStatus.failed
message_status_of (Decision.retry _ _ _) = MessageStatus.scheduled

-- What else a decision asks. An answer with the provider's identifier: no other message and no other
-- attempt of the account has it. A retry: a time in the range of a date, a valid correlation, and a
-- new row whose keys are free.
abbrev pub CanRecord : String → String → Attempt → ℕ → Database → Decision → Type 0
CanRecord new_id correlation a now db (Decision.retry code provider next) =
    (leb (max next now) max_time && is_uuid_v4 correlation ≡ true)
    × (any (clashes (successor new_id correlation (max next now) a)) db.attempts ≡ false)
CanRecord new_id correlation a now db (Decision.sent r) =
    provider_id_is_free a (some r.provider_message_id) db ≡ true
CanRecord new_id correlation a now db (Decision.delivered r) =
    provider_id_is_free a (some r.provider_message_id) db ≡ true
CanRecord new_id correlation a now db (Decision.failed code provider is_terminal (some r)) =
    provider_id_is_free a (some r.provider_message_id) db ≡ true
CanRecord new_id correlation a now db (Decision.failed code provider is_terminal none) = Unit
CanRecord new_id correlation a now db (Decision.ambiguous code provider) = Unit

-- The transaction commits, and the rows of the attempt and of its message are as they should be.
pub record IsRecorded (a : Attempt) (d : Decision) (now : ℕ) (o : Option (Bool × Database))
    : Type 0 where
  pub db : Database
  pub attempt : Attempt
  pub message : Message
  pub commits : o ≡ some (true, db)
  pub attempt_found : find_attempt a.id db ≡ some attempt
  pub attempt_status : attempt.status ≡ attempt_status_of d
  pub completed : attempt.completed_at ≡ some now
  pub released : attempt.processing_token ≡ none
  pub message_found : find_message a.message_id db ≡ some message
  pub message_status : message.application_status ≡ message_status_of d

-- A transaction that commits and writes nothing but events.
abbrev OnlyEvents : Database → Option (Unit {0} × Database) → Type 0
OnlyEvents db o = (events : List Event) × (o ≡ some (tt, record db { events = events }))

then-accepted :
    (o : Option (Unit {0} × Database)) (g : Tx (Unit {0})) (db : Database)
    → OnlyEvents db o
    → ((db' : Database) → OnlyEvents db' (g db'))
    → OnlyEvents db (elim o [ none ↦ none | some (_, db') ↦ g db' ])
then-accepted o g db (first, e) h =
    let (second, e') = h (record db { events = first }) in (second, rw e e')

module _ (accepts : Event → Database → Bool) (decimal : ℕ → String)
    (accepts_all : (e : Event) (db : Database) → accepts e db ≡ true) where
  enqueue-accepted :
      (e : Event) (db : Database)
      → (events : List Event) × (enqueue accepts decimal e db
          ≡ some (tt, record db { events = events }))
  unfolding enqueue
  enqueue-accepted e db = elim (Bool-cases (any (same_event e) db.events)) [
    | inl old ↦ (db.events, rw (accepts_all e db, old))
    | inr new ↦ (db.events ++ e ∷ [], rw (accepts_all e db, new))
  ]

  enqueue_specific-accepted :
      (m : Message) (s : Lifecycle) (n : ℕ) (status code type : Option String) (db : Database)
      → (events : List Event) × (enqueue_specific accepts decimal m s n status code type db
          ≡ some (tt, record db { events = events }))
  unfolding enqueue_specific
  enqueue_specific-accepted m s n status code none db = (db.events, refl)
  enqueue_specific-accepted m s n status code (some type) db = enqueue-accepted _ db

  enqueue_lifecycle-accepted :
      (m : Message) (s : Lifecycle) (n : ℕ) (status code : Option String) (db : Database)
      → (events : List Event) × (enqueue_lifecycle accepts decimal m s n status code db
          ≡ some (tt, record db { events = events }))
  unfolding enqueue_lifecycle
  enqueue_lifecycle-accepted m s n status code db =
      then-accepted (enqueue accepts decimal (status_event accepts decimal m s n status code) db)
        (enqueue_specific accepts decimal m s n status code (specific_type s)) db
        (enqueue-accepted (status_event accepts decimal m s n status code) db)
        (enqueue_specific-accepted m s n status code (specific_type s))

-- The rows as the answer leaves them, and events that are written after them.
module _ (a : Attempt) (m : Message) (d : Decision) (now : ℕ) (f : Attempt → Attempt)
    (g : Message → Message) (db : Database) (rows : List Attempt)
    (found : find_attempt a.id db ≡ some a) (m_found : find_message a.message_id db ≡ some m) where
  IsRecorded-after :
      (f a).id ≡ a.id
      → (f a).status ≡ attempt_status_of d
      → (f a).completed_at ≡ some now
      → (g m).id ≡ m.id
      → (g m).application_status ≡ message_status_of d
      → (o : Option (Unit {0} × Database)) → find_row Attempt.id a.id rows ≡ some (closed_by f a)
      → OnlyEvents
          (record db {
            attempts = rows;
            messages = update_row Message.id a.message_id g db.messages;
          })
          o
      → IsRecorded a d now (elim o [ none ↦ none | some (_, db') ↦ some (true, db') ])
  unfolding find_attempt find_message closed_by
  IsRecorded-after same_id status completed same_message m_status o row (events, e) = record {
    db = record {
      attempts = rows;
      messages = update_row Message.id a.message_id g db.messages;
      events = events;
      audits = db.audits;
      memberships = db.memberships;
    };
    attempt = closed_by f a;
    message = g m;
    commits = rw e;
    attempt_found = row;
    attempt_status = status;
    completed = completed;
    released = refl;
    message_found = find_row-updated Message.id a.message_id g db.messages m m_found same_message;
    message_status = m_status;
  }

closed_row :
    (a : Attempt) (f : Attempt → Attempt) (db : Database)
    → find_attempt a.id db ≡ some a
    → (f a).id ≡ a.id
    → find_row Attempt.id a.id (update_row Attempt.id a.id (closed_by f) db.attempts)
      ≡ some (closed_by f a)
unfolding find_attempt closed_by
closed_row a f db found same =
    find_row-updated Attempt.id a.id (closed_by f) db.attempts a found same

-- A new row at the end hides no other.
closed_row-append :
    (a new : Attempt) (f : Attempt → Attempt) (db : Database)
    → find_attempt a.id db ≡ some a
    → (f a).id ≡ a.id
    → find_row Attempt.id a.id (update_row Attempt.id a.id (closed_by f) db.attempts ++ new ∷ [])
      ≡ some (closed_by f a)
closed_row-append a new f db found same =
    find_row-append Attempt.id a.id (update_row Attempt.id a.id (closed_by f) db.attempts)
      (new ∷ []) (closed_by f a) (closed_row a f db found same)

created-IsRecorded :
    (a : Attempt) (d : Decision) (now : ℕ) (new : Attempt) (k : Tx Bool) (db : Database)
    → any (clashes new) db.attempts ≡ false
    → IsRecorded a d now (k (record db { attempts = db.attempts ++ new ∷ [] }))
    → IsRecorded a d now (elim (create_attempt new db) [ none ↦ none | some (_, db') ↦ k db' ])
unfolding create_attempt
created-IsRecorded a d now new k db fresh h = rw fresh h

required-IsRecorded :
    (a : Attempt) (d : Decision) (now : ℕ) (ok : Database → Bool) (k : Tx Bool) (db : Database)
    → ok db ≡ true
    → IsRecorded a d now (k db)
    → IsRecorded a d now (elim (require ok db) [ none ↦ none | some (_, db') ↦ k db' ])
unfolding require
required-IsRecorded a d now ok k db holds h = rw holds h

pub closed-clashes :
    (x : Attempt) (code : String) (provider : Option String) (now : ℕ) (b : Attempt)
    → clashes x (closed_by (failed_attempt code provider "retryable" none now) b) ≡ clashes x b
unfolding clashes same_key closed_by failed_attempt
closed-clashes x code provider now b = refl

module _ (host : Host) (new_id correlation : String)
    (accepts_all : (e : Event) (db : Database) → host.accepts e db ≡ true) (a : Attempt)
    (m : Message) (now : ℕ) (db : Database) (found : find_attempt a.id db ≡ some a)
    (m_found : find_message a.message_id db ≡ some m) where
  record_success-IsRecorded :
      (delivered : Bool) (r : CreateResult) (d : Decision)
      → attempt_status_of d ≡ AttemptStatus.succeeded
      → message_status_of d ≡ (if delivered then MessageStatus.delivered else MessageStatus.sent)
      → provider_id_is_free a (some r.provider_message_id) db ≡ true
      → IsRecorded a d now (record_success host new_id correlation m a delivered r now db)
  unfolding record_success close_attempt update_attempt update_message succeeded_attempt
      sent_message
  record_success-IsRecorded delivered r d e e' free =
      required-IsRecorded a d now (provider_id_is_free a (some r.provider_message_id)) _ db free (
        IsRecorded-after a m d now (succeeded_attempt r now) (sent_message delivered r now) db _
          found m_found refl (sym e) refl refl (sym e') _
          (closed_row a (succeeded_attempt r now) db found refl)
          (enqueue_lifecycle-accepted host.accepts host.decimal accepts_all m _ a.attempt_number _ _
            _))

  record_failed-IsRecorded :
      (code : String) (provider : Option String) (is_terminal : Bool) (result : Option CreateResult)
      → provider_id_is_free a (result_id host new_id correlation result) db ≡ true
      → IsRecorded a
          (Decision.failed code provider is_terminal result)
          now
          (record_failed host new_id correlation m a code provider is_terminal result now db)
  unfolding record_failed close_attempt update_attempt update_message failed_attempt failed_message
  record_failed-IsRecorded code provider is_terminal result free =
      required-IsRecorded a (Decision.failed code provider is_terminal result) now
        (provider_id_is_free a (result_id host new_id correlation result)) _ db free
        (IsRecorded-after a m (Decision.failed code provider is_terminal result) now
          (failed_attempt code provider (if is_terminal then "terminal" else "retryable") result
            now)
          (failed_message provider result now) db _ found m_found refl refl refl refl refl _
          (closed_row a
            (failed_attempt code provider (if is_terminal then "terminal" else "retryable") result
              now)
            db found refl)
          (enqueue_lifecycle-accepted host.accepts host.decimal accepts_all m _ a.attempt_number _ _
            _))

  record_decision-IsRecorded :
      (d : Decision)
      → CanRecord new_id correlation a now db d
      → IsRecorded a d now (record_decision host new_id correlation m a now d db)
  unfolding record_decision record_ambiguous record_failed record_retry close_attempt update_attempt
      update_message ambiguous_attempt ambiguous_message failed_attempt failed_message
      scheduled_message
  record_decision-IsRecorded (Decision.sent r) can =
      record_success-IsRecorded false r (Decision.sent r) refl refl can
  record_decision-IsRecorded (Decision.delivered r) can =
      record_success-IsRecorded true r (Decision.delivered r) refl refl can
  record_decision-IsRecorded (Decision.ambiguous code provider) can =
      IsRecorded-after a m (Decision.ambiguous code provider) now
        (ambiguous_attempt code provider now) (ambiguous_message provider now) db _ found m_found
        refl refl refl refl refl _
        (closed_row a (ambiguous_attempt code provider now) db found refl)
        (enqueue_lifecycle-accepted host.accepts host.decimal accepts_all m _ a.attempt_number _ _
          _)
  record_decision-IsRecorded (Decision.failed code provider is_terminal none) can =
      record_failed-IsRecorded code provider is_terminal none refl
  record_decision-IsRecorded (Decision.failed code provider is_terminal (some r)) can =
      record_failed-IsRecorded code provider is_terminal (some r) can
  record_decision-IsRecorded (Decision.retry code provider next) (in_range, fresh) =
      let after =
        any-update_row Attempt.id a.id
          (closed_by (failed_attempt code provider "retryable" none now))
          (clashes (successor new_id correlation (max next now) a))
          (closed-clashes (successor new_id correlation (max next now) a) code provider now)
          db.attempts in
      rw in_range (
        created-IsRecorded a (Decision.retry code provider next) now
          (successor new_id correlation (max next now) a) _ _ (after ∙ fresh)
          (IsRecorded-after a m (Decision.retry code provider next) now
            (failed_attempt code provider "retryable" none now)
            (scheduled_message (max next now) (a.attempt_number + 1) provider) db _ found m_found
            refl refl refl refl refl _
            (closed_row-append a (successor new_id correlation (max next now) a)
              (failed_attempt code provider "retryable" none now) db found refl)
            (enqueue_lifecycle-accepted host.accepts host.decimal accepts_all m _ _ _ _ _)))

-- Where the customer events are accepted, the answer to a valid claim is recorded whatever it is: if
-- the attempt waits for it with the prepared number, the message is processing, the provider's
-- identifier (if the answer has one) is on no other message or attempt, and (for a retry) the new
-- time and correlation are valid and the new row's keys are free, then the transaction commits, the attempt is completed
-- and released with the decision's status, and the message has the decision's status.
pub finalize_claimed_attempt-IsRecorded :
    (host : Host) (new_id correlation : String) (c : Claim) (p : Prepared) (d : Decision) (now : ℕ)
    (db : Database) (a : Attempt) (m : Message)
    → ((e : Event) (db : Database) → host.accepts e db ≡ true)
    → claim_is_valid c ≡ true
    → prepared_matches_claim c p ≡ true
    → find_attempt c.attempt_id db ≡ some a
    → awaits_answer c p a ≡ true
    → a.attempt_number ≡ p.attempt_number
    → find_message a.message_id db ≡ some m
    → is_processing m ≡ true
    → CanRecord new_id correlation a now db d
    → IsRecorded a d now (finalize_claimed_attempt host new_id correlation c p d now db)
unfolding finalize_claimed_attempt
finalize_claimed_attempt-IsRecorded host new_id correlation c p d now db a m accepts_all valid fits
      found waits same_number m_found processing can =
    let numbers : (a.attempt_number == p.attempt_number) ≡ true = ground arith in
    rw (valid, fits, found, waits, numbers, m_found, processing)
      (record_decision-IsRecorded host new_id correlation accepts_all a m now db
        (find_attempt-id c.attempt_id db a found) m_found d can)
