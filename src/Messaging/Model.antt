-- ===== src/Messaging/Model.antt =====
-- The tables that the direct-message code reads and writes (prisma/schema.prisma), as lists of rows,
-- and the transaction monad: `none` is a transaction that throws, whose writes are rolled back.
-- Times are milliseconds since the epoch; identifiers and texts that are only compared are `String`.
use signalstack_sms.Prelude.{
  ℕ, String, Bool, true, false, ◌&&◌, Option, none, some, List, [], ◌∷◌, ◌++◌, ◌==◌, str_eq,
  if◌then◌else◌, arith, ap, ◌≡◌, subst, sym, find_row-key, find_row, update_row, any, ◌||◌, not,
}

pub data MessageStatus : Type 0 where
  accepted scheduled processing sent delivered failed cancelled ambiguous : MessageStatus

pub data AttemptStatus : Type 0 where
  queued processing succeeded failed cancelled ambiguous resolved_not_sent : AttemptStatus

pub data Transport : Type 0 where
  dummy twilio : Transport

pub record Message : Type 0 where
  pub id : String
  pub org_id : String
  pub contact_id : Option String
  pub conversation_id : Option String
  pub direction : String
  pub body : String
  pub application_status : MessageStatus
  pub transport : Transport
  pub destination : Option String
  pub media_urls : List String
  pub request_fingerprint : Option String
  pub provider_message_id : Option String
  pub provider_status : Option String
  pub provider_error_code : Option String
  pub delivered_at : Option ℕ
  pub failed_at : Option ℕ
  pub accepted_at : ℕ
  pub scheduled_at : Option ℕ
  pub sent_at : Option ℕ
  pub cancelled_at : Option ℕ
  pub ambiguous_at : Option ℕ
  pub attempt_count : ℕ
  pub idempotency_key : String

pub record Attempt : Type 0 where
  pub id : String
  pub org_id : String
  pub message_id : String
  pub attempt_number : ℕ
  pub retry_of_attempt_id : Option String
  pub status : AttemptStatus
  pub transport : Transport
  pub due_at : ℕ
  pub processing_token : Option String
  pub processing_expires_at : Option ℕ
  pub claimed_at : Option ℕ
  pub provider_call_started_at : Option ℕ
  pub provider_account_id : Option String
  pub provider_credential_secret_id : Option String
  pub provider_credential_version : Option ℕ
  pub provider_phone_number_id : Option String
  pub destination : String
  pub body : String
  pub media_urls : List String
  pub request_fingerprint : String
  pub callback_correlation_id : String
  pub provider_message_id : Option String
  pub provider_status : Option String
  pub provider_error_code : Option String
  pub error_code : Option String
  pub disposition : Option String
  pub completed_at : Option ℕ
  pub reconciled_at : Option ℕ
  pub reconciled_by_user_id : Option String
  pub reconciliation_note : Option String

-- A row of the customer webhook outbox, as the transactions write it.
pub record Event : Type 0 where
  pub org_id : String
  pub deduplication_key : String
  pub type : String
  pub aggregate_id : String
  pub application_status : String
  pub attempt_number : ℕ
  pub provider_status : Option String
  pub provider_error_code : Option String

pub record AuditEvent : Type 0 where
  pub org_id : String
  pub actor_user_id : String
  pub action : String
  pub subject_id : String

-- Who belongs to which organization.
pub record Membership : Type 0 where
  pub org_id : String
  pub user_id : String

pub record Database : Type 0 where
  pub messages : List Message
  pub attempts : List Attempt
  pub events : List Event
  pub audits : List AuditEvent
  pub memberships : List Membership

abbrev pub Tx : Type 0 → Type 0
Tx A = Database → Option (A × Database)

infixl 5 ◌>>=◌ ◌>>◌
abbrev pub ◌>>=◌ : {A B : Type 0} → Tx A → (A → Tx B) → Tx B
◌>>=◌ m f db = elim (m db) [ none ↦ none | some (a, db') ↦ f a db' ]

abbrev pub ◌>>◌ : {B : Type 0} → Tx (Unit {0}) → Tx B → Tx B
m >> k = m >>= λ _. k

abbrev pub return : {A : Type 0} → A → Tx A
return a db = some (a, db)

abbrev pub throw : {A : Type 0} → Tx A
throw db = none

abbrev pub get : Tx Database
get db = some (db, db)

unfoldable pub find_attempt : String → Database → Option Attempt
find_attempt id db = find_row Attempt.id id db.attempts

pub find_attempt-id :
    (id : String) (db : Database) (a : Attempt)
    → find_attempt id db ≡ some a
    → find_attempt a.id db ≡ some a
unfolding find_attempt
find_attempt-id id db a e =
    subst (λ k. find_row Attempt.id k db.attempts ≡ some a)
      (sym (find_row-key Attempt.id id db.attempts a e)) e

pub find_attempt-key :
    (id : String) (db : Database) (a : Attempt) → find_attempt id db ≡ some a → a.id ≡ id
unfolding find_attempt
find_attempt-key id db a e = find_row-key Attempt.id id db.attempts a e

unfoldable pub find_message : String → Database → Option Message
find_message id db = find_row Message.id id db.messages

unfoldable pub update_attempt : String → (Attempt → Attempt) → Tx (Unit {0})
update_attempt id f db = some (tt, record db { attempts = update_row Attempt.id id f db.attempts })

unfoldable pub update_message : String → (Message → Message) → Tx (Unit {0})
update_message id f db = some (tt, record db { messages = update_row Message.id id f db.messages })

-- A condition that the database checks on a write: where it fails, the transaction throws.
unfoldable pub require : (Database → Bool) → Tx (Unit {0})
require ok db = if ok db then some (tt, db) else none

require-holds :
    (ok : Database → Bool) (db : Database) → ok db ≡ true → require ok db ≡ some (tt, db)
unfolding require
require-holds ok db h = ground arith

pub require-then :
    {B : Type 0} (ok : Database → Bool) (k : Tx B) (db : Database)
    → ok db ≡ true
    → (require ok >> k) db ≡ k db
require-then {B} ok k db h = ap then_k (require-holds ok db h)
  where
    then_k : Option (Unit {0} × Database) → Option (B × Database)
    then_k o = elim o [ none ↦ none | some (_, db') ↦ k db' ]

require-fails : (ok : Database → Bool) (db : Database) → ok db ≡ false → require ok db ≡ none
unfolding require
require-fails ok db h = ground arith

pub require-stops :
    {B : Type 0} (ok : Database → Bool) (k : Tx B) (db : Database)
    → ok db ≡ false
    → (require ok >> k) db ≡ none
require-stops {B} ok k db h = ap then_k (require-fails ok db h)
  where
    then_k : Option (Unit {0} × Database) → Option (B × Database)
    then_k o = elim o [ none ↦ none | some (_, db') ↦ k db' ]

-- The keys `id` and `(messageId, attemptNumber)`.
unfoldable pub same_key : Attempt → Attempt → Bool
same_key a b =
    str_eq b.id a.id || str_eq b.message_id a.message_id && b.attempt_number == a.attempt_number

-- A null is equal to nothing.
abbrev pub both_are : Option String → Option String → Bool
both_are (some s) (some t) = str_eq s t
both_are _ _ = false

-- The key `(orgId, providerAccountId, providerMessageId)`, with `id` for the last.
abbrev pub has_provider_id : Attempt → Option String → Attempt → Bool
has_provider_id a id b =
    str_eq b.org_id a.org_id
    && both_are b.provider_account_id a.provider_account_id
    && both_are b.provider_message_id id

-- The unique keys of the table: a second row with one of them throws.
unfoldable pub clashes : Attempt → Attempt → Bool
clashes a b =
    same_key a b
    || str_eq b.callback_correlation_id a.callback_correlation_id
    || has_provider_id a a.provider_message_id b

-- No other message of the attempt's organization has the provider's identifier.
unfoldable pub message_key_is_free : Attempt → Option String → Database → Bool
message_key_is_free a id db = not (any other_has db.messages)
  where
    other_has : Message → Bool
    other_has m =
        not (str_eq m.id a.message_id)
        && str_eq m.org_id a.org_id
        && both_are m.provider_message_id id

-- Nor has another attempt of the same provider account.
unfoldable pub attempt_key_is_free : Attempt → Option String → Database → Bool
attempt_key_is_free a id db =
    not (any (λ b. not (str_eq b.id a.id) && has_provider_id a id b) db.attempts)

-- The unique keys of both tables, for the identifier that is written on the attempt and its message,
-- if one is.
abbrev pub provider_id_is_free : Attempt → Option String → Database → Bool
provider_id_is_free a none db = true
provider_id_is_free a (some id) db =
    message_key_is_free a (some id) db && attempt_key_is_free a (some id) db

-- The foreign key `(orgId, reconciledByUserId)` of an attempt.
unfoldable pub has_membership : String → String → Database → Bool
has_membership org user db = any (λ k. str_eq k.org_id org && str_eq k.user_id user) db.memberships

unfoldable pub create_attempt : Attempt → Tx (Unit {0})
create_attempt a db =
    if any (clashes a) db.attempts
    then none
    else some (tt, record db { attempts = db.attempts ++ a ∷ [] })

abbrev message_rank : MessageStatus → ℕ
message_rank MessageStatus.accepted = 0
message_rank MessageStatus.scheduled = 1
message_rank MessageStatus.processing = 2
message_rank MessageStatus.sent = 3
message_rank MessageStatus.delivered = 4
message_rank MessageStatus.failed = 5
message_rank MessageStatus.cancelled = 6
message_rank MessageStatus.ambiguous = 7

abbrev attempt_rank : AttemptStatus → ℕ
attempt_rank AttemptStatus.queued = 0
attempt_rank AttemptStatus.processing = 1
attempt_rank AttemptStatus.succeeded = 2
attempt_rank AttemptStatus.failed = 3
attempt_rank AttemptStatus.cancelled = 4
attempt_rank AttemptStatus.ambiguous = 5
attempt_rank AttemptStatus.resolved_not_sent = 6

-- `===` on the enumerations.
abbrev pub message_is : MessageStatus → MessageStatus → Bool
message_is s t = message_rank s == message_rank t

abbrev pub attempt_is : AttemptStatus → AttemptStatus → Bool
attempt_is s t = attempt_rank s == attempt_rank t

abbrev pub is_dummy : Transport → Bool
is_dummy dummy = true
is_dummy twilio = false

abbrev pub option_eq : Option String → Option String → Bool
option_eq none none = true
option_eq (some a) (some b) = str_eq a b
option_eq _ _ = false
