-- ===== src/Messaging/Policy.antt =====
-- lib/messaging/outbox/policy.ts: what the outcome of a provider call means for an attempt.
-- A `Date` is a time or invalid; an invalid attempt number, clock or date throws (`none`).
pub mod Laws
use signalstack_sms.Prelude.{
  ℕ, ◌+◌, String, Bool, true, false, ◌&&◌, ◌||◌, Option, none, some, ltb, leb, ◌==◌, if◌then◌else◌,
  codes, is_none,
}
use signalstack_sms.Text.{is_safe_code}
use Prim.Native.String

abbrev pub direct_message_max_attempts : ℕ
direct_message_max_attempts = 3

-- `DIRECT_MESSAGE_RETRY_DELAYS_MS[attemptNumber - 1]`
abbrev pub retry_delay_ms : ℕ → Option ℕ
retry_delay_ms n = if n == 1 then some 5000 else if n == 2 then some 30000 else none

pub data ProviderMessageStatus : Type 0 where
  accepted scheduled queued sending sent delivered receiving received read failed undelivered
        canceled unknown :
      ProviderMessageStatus

pub record CreateResult : Type 0 where
  pub provider_message_id : String
  pub external_account_id : String
  pub status : ProviderMessageStatus
  pub provider_status : String
  pub to : String
  pub from : Option String
  pub messaging_service_id : Option String
  pub provider_error_code : Option String

pub data Disposition : Type 0 where
  terminal retryable ambiguous : Disposition

pub record ErrorClassification : Type 0 where
  pub disposition : Disposition
  pub is_retryable : Bool
  pub safe_code : String
  pub provider_code : Option String

pub data Decision : Type 0 where
  sent : CreateResult → Decision
  delivered : CreateResult → Decision
  -- error code, provider error code, whether the disposition is terminal, and the result, if any
  failed : String → Option String → Bool → Option CreateResult → Decision
  retry : String → Option String → ℕ → Decision
  ambiguous : String → Option String → Decision

-- `status.toUpperCase()` at the terminal failures
abbrev pub upper_status : ProviderMessageStatus → String
upper_status failed = "FAILED"
upper_status undelivered = "UNDELIVERED"
upper_status canceled = "CANCELED"
upper_status _ = ""

abbrev pub is_terminal_failure_status : ProviderMessageStatus → Bool
is_terminal_failure_status failed = true
is_terminal_failure_status undelivered = true
is_terminal_failure_status canceled = true
is_terminal_failure_status _ = false

abbrev pub is_delivered_status : ProviderMessageStatus → Bool
is_delivered_status delivered = true
is_delivered_status _ = false

unfoldable pub decide_create_result : CreateResult → Decision
decide_create_result result =
    if is_delivered_status result.status
    then delivered result
    else if is_terminal_failure_status result.status
    then failed (String.◌++◌ "PROVIDER_STATUS_" (upper_status result.status))
        result.provider_error_code true (some result)
    else sent result

unfoldable pub normalize_safe_code : String → String
normalize_safe_code value =
    if is_safe_code 1 127 (codes value) then value else "PROVIDER_OPERATION_FAILED"

-- The empty text is falsy, and no pattern accepts it.
unfoldable pub normalize_provider_code : Option String → Option String
normalize_provider_code none = none
normalize_provider_code (some value) = if is_safe_code 1 127 (codes value) then some value else none

abbrev pub is_ambiguous : Disposition → Bool
is_ambiguous ambiguous = true
is_ambiguous _ = false

abbrev pub is_retryable_disposition : Disposition → Bool
is_retryable_disposition retryable = true
is_retryable_disposition _ = false

abbrev pub attempt_number_is_valid : ℕ → Bool
attempt_number_is_valid n = leb 1 n && leb n direct_message_max_attempts

-- `new Date(t)`: a time value beyond the range of a `Date` is invalid.
abbrev pub max_time : ℕ
max_time = 8640000000000000

-- The branch of the retryable errors; a missing delay throws.
unfoldable pub decide_retry : ErrorClassification → ℕ → ℕ → Option Decision
unfolding normalize_safe_code normalize_provider_code
decide_retry c attempt_number now =
    if ltb attempt_number direct_message_max_attempts
    then elim (retry_delay_ms attempt_number) [
      | none ↦ none
      | some delay ↦ some (
          retry (normalize_safe_code c.safe_code) (normalize_provider_code c.provider_code)
            (now + delay))
    ]
    else some
        (failed "AUTOMATIC_RETRIES_EXHAUSTED" (normalize_provider_code c.provider_code) false none)

unfoldable pub decide_create_error : ErrorClassification → ℕ → Option ℕ → Option Decision
unfolding decide_retry
decide_create_error c attempt_number none = none
decide_create_error c attempt_number (some now) =
    if attempt_number_is_valid attempt_number
    then if is_ambiguous c.disposition
      then some
          (ambiguous (normalize_safe_code c.safe_code) (normalize_provider_code c.provider_code))
      else if is_retryable_disposition c.disposition && c.is_retryable
      then decide_retry c attempt_number now
      else some (
          failed (normalize_safe_code c.safe_code) (normalize_provider_code c.provider_code) true
            none)
    else none
