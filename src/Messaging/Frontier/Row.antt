-- ===== src/Messaging/Frontier/Row.antt =====
-- The permitted changes of one attempt.
use signalstack_sms.Prelude.{Bool, true, false, ◌≡◌, arith, is_some, ◌≤◌}
use signalstack_sms.Messaging.Model.{Attempt, AttemptStatus}
use signalstack_sms.Messaging.Policy.{direct_message_max_attempts}

-- The statuses that no operation leaves.
abbrev pub is_final : AttemptStatus → Bool
is_final AttemptStatus.succeeded = true
is_final AttemptStatus.failed = true
is_final AttemptStatus.cancelled = true
is_final AttemptStatus.resolved_not_sent = true
is_final _ = false

abbrev pub is_closed : AttemptStatus → Bool
is_closed AttemptStatus.queued = false
is_closed AttemptStatus.processing = false
is_closed _ = true

-- What is sent, to whom and under which key never changes; the time at which the provider call began
-- and the time of completion, once set, stay; a closed attempt stays closed, and a final status stays.
pub record Advances (a b : Attempt) : Type 0 where
  pub id : a.id ≡ b.id
  pub org_id : a.org_id ≡ b.org_id
  pub message_id : a.message_id ≡ b.message_id
  pub attempt_number : a.attempt_number ≡ b.attempt_number
  pub retry_of : a.retry_of_attempt_id ≡ b.retry_of_attempt_id
  pub destination : a.destination ≡ b.destination
  pub body : a.body ≡ b.body
  pub media_urls : a.media_urls ≡ b.media_urls
  pub request_fingerprint : a.request_fingerprint ≡ b.request_fingerprint
  pub started :
      is_some a.provider_call_started_at ≡ true
      → b.provider_call_started_at ≡ a.provider_call_started_at
  pub completed : is_some a.completed_at ≡ true → b.completed_at ≡ a.completed_at
  pub closed : is_closed a.status ≡ true → is_closed b.status ≡ true
  pub final : is_final a.status ≡ true → b.status ≡ a.status

pub Advances-refl : (a : Attempt) → Advances a a
Advances-refl a = ground arith

pub Advances-trans : (a b c : Attempt) → Advances a b → Advances b c → Advances a c
Advances-trans a b c p q = ground arith

-- The attempt numbers that the retry budget allows.
abbrev pub IsWithinBudget : Attempt → Type 0
IsWithinBudget a = (1 ≤ a.attempt_number) × (a.attempt_number ≤ direct_message_max_attempts)

pub Advances-IsWithinBudget : (a b : Attempt) → Advances a b → IsWithinBudget a → IsWithinBudget b
Advances-IsWithinBudget a b p q = omega (arith, p.attempt_number)
