-- ===== src/Messaging/Dispatch.antt =====
-- lib/db/message-attempt-dispatch.ts and the two SQL functions that it calls
-- (prisma/migrations/20260712020000_message_attempt_dispatch_security): claiming due attempts under a
-- lease, and closing the attempts whose lease ran out after the provider call had begun.
-- The rows that a statement picks (`picked`, after ORDER BY, LIMIT and SKIP LOCKED) are a parameter;
-- each is tested against the statement's condition.
use signalstack_sms.Prelude.{
  ℕ, ◌+◌, max, String, Bool, true, false, ◌&&◌, ◌||◌, Option, none, some, List, [], ◌∷◌, leb,
  if◌then◌else◌, is_none, is_some, or_option, min,
}
use signalstack_sms.Messaging.Model.{
  Message, Attempt, MessageStatus, AttemptStatus, message_is, attempt_is, find_attempt,
  find_message, update_attempt, update_message, Tx, ◌>>=◌, ◌>>◌, return,
}

abbrev pub message_attempt_processing_lease_ms : ℕ
message_attempt_processing_lease_ms = 30000

-- `boundedBatchSize` at a finite whole number.
unfoldable pub bounded_batch_size : ℕ → ℕ
bounded_batch_size value = min 100 (max 1 value)

abbrev pub message_is_open : MessageStatus → Bool
message_is_open MessageStatus.accepted = true
message_is_open MessageStatus.scheduled = true
message_is_open MessageStatus.processing = true
message_is_open _ = false

-- The lease is missing or has run out.
abbrev lease_is_over : Attempt → ℕ → Bool
lease_is_over a now = is_none a.processing_token || expired a.processing_expires_at
  where
    expired : Option ℕ → Bool
    expired none = true
    expired (some t) = leb t now

unfoldable pub is_claimable : Attempt → Message → ℕ → Bool
is_claimable a m now =
    leb a.due_at now
    && is_none a.completed_at
    && is_none a.provider_call_started_at
    && message_is_open m.application_status
    && (attempt_is a.status AttemptStatus.queued
        || (attempt_is a.status AttemptStatus.processing && lease_is_over a now))

unfoldable pub is_recoverable : Attempt → Message → ℕ → Bool
is_recoverable a m now =
    attempt_is a.status AttemptStatus.processing
    && is_some a.provider_call_started_at
    && ran_out a.processing_expires_at
    && is_none a.completed_at
    && message_is m.application_status MessageStatus.processing
  where
    ran_out : Option ℕ → Bool
    ran_out none = false
    ran_out (some t) = leb t now

unfoldable pub claimed_attempt : String → ℕ → Attempt → Attempt
claimed_attempt token now a = record a {
  status = AttemptStatus.processing;
  processing_token = some token;
  processing_expires_at = some (now + message_attempt_processing_lease_ms);
  claimed_at = some now;
}

unfoldable pub claimed_message : ℕ → Message → Message
claimed_message n m = record m {
  application_status = MessageStatus.processing;
  attempt_count = max m.attempt_count n;
}

unfoldable pub recovered_attempt : ℕ → Attempt → Attempt
recovered_attempt now a = record a {
  status = AttemptStatus.ambiguous;
  processing_token = none;
  processing_expires_at = none;
  completed_at = some now;
  error_code = or_option a.error_code (some "WORKER_LEASE_EXPIRED_AFTER_FRONTIER");
  disposition = some "ambiguous";
}

unfoldable pub recovered_message : ℕ → Message → Message
recovered_message now m = record m {
  application_status = MessageStatus.ambiguous;
  ambiguous_at = or_option m.ambiguous_at (some now);
}

-- One row of `claim_due_message_attempts`; whether it was claimed.
unfoldable pub claim_attempt : String → ℕ → String → Tx Bool
claim_attempt token now id db = elim (find_attempt id db) [
  | none ↦ some (false, db)
  | some a ↦ elim (find_message a.message_id db) [
    | none ↦ some (false, db)
    | some m ↦
        if is_claimable a m now
        then (do
          update_attempt id (claimed_attempt token now)
          update_message a.message_id (claimed_message a.attempt_number)
          return true)
            db
        else some (false, db)
  ]
]

-- One row of `recover_expired_message_attempts`.
unfoldable pub recover_attempt : ℕ → String → Tx Bool
recover_attempt now id db = elim (find_attempt id db) [
  | none ↦ some (false, db)
  | some a ↦ elim (find_message a.message_id db) [
    | none ↦ some (false, db)
    | some m ↦
        if is_recoverable a m now
        then (do
          update_attempt id (recovered_attempt now)
          update_message a.message_id (recovered_message now)
          return true)
            db
        else some (false, db)
  ]
]

-- A batch, with the rows that it returns.
unfoldable pub each_row : (String → Tx Bool) → List String → Tx (List String)
each_row step [] = return []
each_row step (id ∷ ids) = do
  hit ← step id
  rest ← each_row step ids
  return (if hit then id ∷ rest else rest)
