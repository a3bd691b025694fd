-- ===== src/Messaging/Policy/Laws.antt =====
-- When a provider error is tried again, and what the decisions may carry to the database.
use signalstack_sms.Prelude.{
  ℕ, ◌+◌, String, Bool, true, false, ◌&&◌, Option, none, some, ◌≡◌, refl, arith, if_case,
  option_case, ◌⊎◌, ltb, leb, codes, is_some,
}
use signalstack_sms.Text.{is_safe_code}
use signalstack_sms.Messaging.Policy.{
  Decision, ErrorClassification, decide_create_error, decide_retry, normalize_safe_code,
  normalize_provider_code, retry_delay_ms, is_ambiguous, is_retryable_disposition,
  attempt_number_is_valid, direct_message_max_attempts,
}

abbrev pub is_retry : Option Decision → Bool
is_retry (some (Decision.retry _ _ _)) = true
is_retry _ = false

-- A classified provider error leads to a retry exactly if it is marked as retryable in both ways and
-- the attempt's number is 1 or 2; whatever else holds of it and of the clock.
pub decide_create_error-is_retry :
    (e : ErrorClassification) (n now : ℕ)
    → is_retry (decide_create_error e n (some now)) ≡ (
        leb 1 n
        && ltb n direct_message_max_attempts
        && is_retryable_disposition e.disposition
        && e.is_retryable)
unfolding decide_create_error decide_retry
decide_create_error-is_retry e n now = ground arith

-- The delay before a retry is five seconds after the first attempt and thirty after the second.
pub decide_create_error-due :
    (e : ErrorClassification) (n now : ℕ) (code : String) (provider : Option String) (due : ℕ)
    → decide_create_error e n (some now) ≡ some (Decision.retry code provider due)
    → ((n ≡ 1) × (due ≡ now + 5000)) ⊎ ((n ≡ 2) × (due ≡ now + 30000))
unfolding decide_create_error decide_retry
decide_create_error-due e n now code provider due h = ground arith

-- A decision is reached (the code does not throw) exactly if the clock is valid and the attempt's
-- number is between 1 and three.
pub decide_create_error-is_some :
    (e : ErrorClassification) (n : ℕ) (t : Option ℕ)
    → is_some (decide_create_error e n t)
      ≡ (is_some t && leb 1 n && leb n direct_message_max_attempts)
unfolding decide_create_error decide_retry
decide_create_error-is_some e n none = refl
decide_create_error-is_some e n (some now) = ground arith

-- A text of the form `^[A-Z][A-Z0-9_]{1,127}$`.
abbrev pub IsSafe : String → Type 0
IsSafe code = is_safe_code 1 127 (codes code) ≡ true

abbrev IsSafeOption : Option String → Type 0
IsSafeOption none = Unit
IsSafeOption (some code) = IsSafe code

-- What a decision on an error carries.
abbrev pub HasSafeCodes : Option Decision → Type 0
HasSafeCodes none = Unit
HasSafeCodes (some (Decision.sent r)) = Unit
HasSafeCodes (some (Decision.delivered r)) = Unit
HasSafeCodes (some (Decision.failed code provider _ _)) = IsSafe code × IsSafeOption provider
HasSafeCodes (some (Decision.retry code provider _)) = IsSafe code × IsSafeOption provider
HasSafeCodes (some (Decision.ambiguous code provider)) = IsSafe code × IsSafeOption provider

normalize_safe_code-IsSafe : (code : String) → IsSafe (normalize_safe_code code)
unfolding normalize_safe_code is_safe_code
normalize_safe_code-IsSafe code =
    if_case IsSafe (is_safe_code 1 127 (codes code)) code "PROVIDER_OPERATION_FAILED" (λ h. h)
      (λ _. refl)

normalize_provider_code-IsSafeOption :
    (code : Option String) → IsSafeOption (normalize_provider_code code)
unfolding normalize_provider_code
normalize_provider_code-IsSafeOption none = tt
normalize_provider_code-IsSafeOption (some code) =
    if_case IsSafeOption (is_safe_code 1 127 (codes code)) (some code) none (λ h. h) (λ _. tt)

exhausted-IsSafe : IsSafe "AUTOMATIC_RETRIES_EXHAUSTED"
unfolding is_safe_code
exhausted-IsSafe = refl

decide_retry-HasSafeCodes :
    (e : ErrorClassification) (n now : ℕ) → HasSafeCodes (decide_retry e n now)
unfolding decide_retry
decide_retry-HasSafeCodes e n now =
    if_case HasSafeCodes (ltb n direct_message_max_attempts) _ _
      (λ _.
        option_case HasSafeCodes (retry_delay_ms n) none
          (λ delay. some (
            Decision.retry (normalize_safe_code e.safe_code)
              (normalize_provider_code e.provider_code) (now + delay)))
          (λ _. tt)
          (λ delay _. (
            normalize_safe_code-IsSafe e.safe_code,
            normalize_provider_code-IsSafeOption e.provider_code,
          )))
      (λ _. (exhausted-IsSafe, normalize_provider_code-IsSafeOption e.provider_code))

-- Whatever an adapter puts into the codes of a classified error, the codes that the decision carries
-- to the database and to customers are safe: a capital, then 1 to 127 capitals, digits or underscores.
pub decide_create_error-HasSafeCodes :
    (e : ErrorClassification) (n : ℕ) (t : Option ℕ) → HasSafeCodes (decide_create_error e n t)
unfolding decide_create_error
decide_create_error-HasSafeCodes e n none = tt
decide_create_error-HasSafeCodes e n (some now) =
    let safe : IsSafe (normalize_safe_code e.safe_code)
        × IsSafeOption (normalize_provider_code e.provider_code) =
      (
        normalize_safe_code-IsSafe e.safe_code,
        normalize_provider_code-IsSafeOption e.provider_code,
      ) in
    if_case HasSafeCodes (attempt_number_is_valid n) _ _
      (λ _.
        if_case HasSafeCodes (is_ambiguous e.disposition) _ _ (λ _. safe)
          (λ _.
            if_case HasSafeCodes (is_retryable_disposition e.disposition && e.is_retryable) _ _
              (λ _. decide_retry-HasSafeCodes e n now) (λ _. safe)))
      (λ _. tt)
