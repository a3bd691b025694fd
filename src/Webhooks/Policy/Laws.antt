-- ===== src/Webhooks/Policy/Laws.antt =====
-- When a delivery is tried again, and after how long.
use signalstack_sms.Prelude.{
  ℕ, ◌≤◌, ◌<◌, true, false, not, ◌||◌, Option, none, some, ◌≡◌, refl, arith, leb, is_some, if_case,
  subst,
}
use signalstack_sms.Text.{Text}
use signalstack_sms.Webhooks.Policy.{
  Decision, Outcome, AttemptResult, max_backoff_seconds, backoff_seconds, attempt_bounds_hold,
  result_is_valid, is_acknowledged, is_gone, is_unsafe, is_retryable_status, retry_decision,
  classify_attempt,
}

-- What a decision to try again carries: a delay between the attempt's backoff and six hours.
pub record IsBounded (r : AttemptResult) (d : Decision) : Type 0 where
  pub delay : ℕ
  pub delayed : d.retry_delay_seconds ≡ some delay
  pub at_least : backoff_seconds r.attempt_number ≤ delay
  pub at_most : delay ≤ max_backoff_seconds
  pub room : r.attempt_number < r.max_attempts

abbrev Retries : AttemptResult → Option Decision → Type 0
Retries r none = Unit
Retries r (some d) = d.outcome ≡ Outcome.retry → IsBounded r d

backoff_seconds-bounded : (n : ℕ) → backoff_seconds n ≤ max_backoff_seconds
unfolding backoff_seconds
backoff_seconds-bounded n = omega arith

retry_decision-IsBounded :
    (parse_date : Text → Option ℕ) (r : AttemptResult)
    → leb r.max_attempts r.attempt_number ≡ false
    → IsBounded r (retry_decision parse_date r)
unfolding retry_decision
retry_decision-IsBounded parse_date r h = record {
  delay = _;
  delayed = refl;
  at_least = omega (arith, backoff_seconds-bounded r.attempt_number);
  at_most = omega arith;
  room = ground arith;
}

classify_attempt-Retries :
    (parse_date : Text → Option ℕ) (r : AttemptResult) → Retries r (classify_attempt parse_date r)
unfolding classify_attempt
classify_attempt-Retries parse_date r =
    if_case (Retries r) (not (attempt_bounds_hold r.attempt_number r.max_attempts)) _ _ (λ _. tt)
      λ _.
        if_case (Retries r) (not (result_is_valid r.status_code r.transport_failure)) _ _ (λ _. tt)
          λ _.
            if_case (Retries r) (is_acknowledged r.status_code) _ _ (λ _ e. absurd (cc))
              λ _.
                if_case (Retries r) (is_gone r.status_code) _ _ (λ _ e. absurd (cc))
                  λ _.
                    if_case (Retries r) (is_unsafe r.transport_failure) _ _ (λ _ e. absurd (cc))
                      λ _.
                        if_case (Retries r)
                          (not (is_some r.transport_failure || is_retryable_status r.status_code)) _
                          _ (λ _ e. absurd (cc))
                          λ _.
                            if_case (Retries r) (leb r.max_attempts r.attempt_number) _ _
                              (λ _ e. absurd (cc))
                              (λ room _. retry_decision-IsBounded parse_date r room)

-- A decision to try a delivery again is only taken while attempts are left, and its delay lies
-- between the exponential backoff of the attempt and six hours, whatever the receiver's Retry-After
-- header says.
pub classify_attempt-IsBounded :
    (parse_date : Text → Option ℕ) (r : AttemptResult) (d : Decision)
    → classify_attempt parse_date r ≡ some d
    → d.outcome ≡ Outcome.retry
    → IsBounded r d
classify_attempt-IsBounded parse_date r d e =
    subst (Retries r) e (classify_attempt-Retries parse_date r)

-- An attempt within its bounds, with one valid kind of result, has a decision.
pub classify_attempt-is_some :
    (parse_date : Text → Option ℕ) (r : AttemptResult)
    → attempt_bounds_hold r.attempt_number r.max_attempts ≡ true
    → result_is_valid r.status_code r.transport_failure ≡ true
    → is_some (classify_attempt parse_date r) ≡ true
unfolding classify_attempt
classify_attempt-is_some parse_date r bounds valid =
    let Decides : Option Decision → Type 0 = λ o. is_some o ≡ true in
    rw (bounds, valid)
      (if_case Decides (is_acknowledged r.status_code) _ _ (λ _. refl)
        λ _.
          if_case Decides (is_gone r.status_code) _ _ (λ _. refl)
            λ _.
              if_case Decides (is_unsafe r.transport_failure) _ _ (λ _. refl)
                λ _.
                  if_case Decides
                    (not (is_some r.transport_failure || is_retryable_status r.status_code)) _ _
                    (λ _. refl)
                    λ _.
                      if_case Decides (leb r.max_attempts r.attempt_number) _ _ (λ _. refl)
                        (λ _. refl))
