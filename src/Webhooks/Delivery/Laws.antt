-- ===== src/Webhooks/Delivery/Laws.antt =====
-- A prepared attempt is settled however it ends, and a claim that was lost settles nothing.
use signalstack_sms.Prelude.{
  ℕ, ◌<◌, String, Bool, true, false, ◌&&◌, Option, none, some, ◌≡◌, ◌⊎◌, refl, sym, inl, inr, arith,
  ap, subst, ◌==◌, option_case, find_row, update_row, find_row-key, find_row-updated, is_some,
  codes,
}
use signalstack_sms.Text.{Text, between, is_safe_code, is_upper, is_digit}
use signalstack_sms.Webhooks.Policy.{
  Decision, Outcome, AttemptResult, TransportFailure, classify_attempt, attempt_bounds_hold,
}
use signalstack_sms.Webhooks.Policy.Laws.{classify_attempt-IsBounded, classify_attempt-is_some}
use signalstack_sms.Webhooks.Model.{
  Delivery, DeliveryAttempt, Store, find_delivery, find_attempt, update_attempt,
}
use signalstack_sms.Webhooks.Delivery.{
  Claim, Prepared, Evidence, status_code_is_valid, error_code_is_valid, claim_is_valid,
  prepared_matches_claim, evidence_is_valid,
}
use signalstack_sms.Webhooks.Delivery.Prepare.{close_attempt, prepare_claimed_delivery}
use signalstack_sms.Webhooks.Delivery.Finalize.{
  completed_attempt, finalize_current, finalize_claimed_delivery,
}
use signalstack_sms.Webhooks.Delivery.Process.{
  PreparationError, preparation, invalid_master_key, signing_secret, unexpected, TransportCode,
  PostResult, responded, transport_error, post_threw, ClaimOutcome, Verdict, with_code,
  permanent_failure, decide_attempt, claim_outcome, record_verdict, retry_or_disable,
  classify_preparation_failure, classify_transport_failure, classify_response, classify_post,
}
use signalstack_sms.Webhooks.Delivery.Rows.{is_terminal}
use signalstack_sms.Webhooks.Delivery.Steps.{find_attempt-own}
use signalstack_sms.Webhooks.Delivery.Ready.{IsReady, Reserves, prepare_claimed_delivery-Reserves}
use signalstack_sms.Webhooks.Delivery.Progress.{IsSettled, IsWaiting, Settles, settle-Settles}

abbrev inputs_hold : Claim → Prepared → Evidence → Bool
inputs_hold c p ev =
    claim_is_valid c
    && prepared_matches_claim c p
    && evidence_is_valid ev
    && ev.request_timestamp == p.request_timestamp

module _ (delivery_id : String → String) (event_id : String) (c : Claim) (p : Prepared)
    (q : Decision) (ev : Evidence) (now : ℕ) where
  finalize_claimed_delivery-Settles :
      (db : Store)
      → inputs_hold c p ev ≡ true
      → IsReady c p db
      → Settles c.delivery_id p q now
          (finalize_claimed_delivery delivery_id event_id c p q ev now db)
  unfolding finalize_claimed_delivery finalize_current update_attempt find_attempt completed_attempt
      close_attempt find_delivery
  finalize_claimed_delivery-Settles db valid r =
      let a = r.attempt in
      let key : a.id ≡ p.attempt_id =
        find_row-key DeliveryAttempt.id p.attempt_id db.attempts a r.stored in
      rw (valid, r.found, r.current, r.reached, r.stored, r.reserved, Settles)
        (settle-Settles delivery_id event_id c.delivery_id p q ev now r.delivery r.endpoint
          (completed_attempt q ev now a) (sym r.limit) refl (record db { attempts = _ }) r.found
          (subst
            (λ k.
              find_row DeliveryAttempt.id k
                (update_row DeliveryAttempt.id a.id (completed_attempt q ev now) db.attempts)
              ≡ some (completed_attempt q ev now a))
            key
            (find_row-updated DeliveryAttempt.id a.id (completed_attempt q ev now) db.attempts a
              (find_attempt-own p.attempt_id db a r.stored) refl)))

-- A decision that only tries again while attempts are left.
abbrev Spares : Prepared → Option Decision → Type 0
Spares p none = ⊥
Spares p (some q) = q.outcome ≡ Outcome.retry → p.attempt_number < p.max_attempts

pub record IsRecordable (p : Prepared) (v : Verdict) : Type 0 where
  pub status : status_code_is_valid v.status_code ≡ true
  pub error : error_code_is_valid v.error_code ≡ true
  pub spares : v.decision.outcome ≡ Outcome.retry → p.attempt_number < p.max_attempts

abbrev pub Records : Prepared → Option Verdict → Type 0
Records p none = ⊥
Records p (some v) = IsRecordable p v

-- What the model takes from the signing code and from the HTTP client: an error's code is written
-- in capitals, and a status is between 100 and 599.
abbrev pub preparation_is_valid : Option PreparationError → Bool
preparation_is_valid (some (preparation code retryable)) = is_safe_code 0 63 (codes code)
preparation_is_valid _ = true

abbrev pub post_is_valid : PostResult → Bool
post_is_valid (responded status retry_after) = between 100 599 status
post_is_valid _ = true

module _ (parse_date : Text → Option ℕ) (p : Prepared) (now : ℕ)
    (bounds : attempt_bounds_hold p.attempt_number p.max_attempts ≡ true) where
  spared :
      (r : AttemptResult)
      → (o : Option Decision) → classify_attempt parse_date r ≡ o
      → r.attempt_number ≡ p.attempt_number
      → r.max_attempts ≡ p.max_attempts
      → is_some o ≡ true
      → Spares p o
  spared r none e n m h = absurd (cc)
  spared r (some q) e n m h = λ again.
      let b = classify_attempt-IsBounded parse_date r q e again in omega (arith, b.room, n, m)

  retry_or_disable-Spares : (f : TransportFailure) → Spares p (retry_or_disable parse_date p now f)
  unfolding retry_or_disable
  retry_or_disable-Spares f =
      spared _ _ refl refl refl (classify_attempt-is_some parse_date _ bounds refl)

  with_code-Records :
      (status : Option ℕ) (code : String) (o : Option Decision)
      → status_code_is_valid status ≡ true
      → is_safe_code 0 63 (codes code) ≡ true
      → Spares p o
      → Records p (with_code parse_date p now status code o)
  with_code-Records status code none h k s = absurd s
  with_code-Records status code (some q) h k s = record { status = h; error = k; spares = s }

  transport-Records :
      (code : TransportCode)
      → Records p (classify_transport_failure parse_date p now none (some code))
  unfolding classify_transport_failure is_safe_code is_upper is_digit
  transport-Records TransportCode.invalid_request =
      with_code-Records none _ (some permanent_failure) refl refl (λ e. absurd (cc))
  transport-Records TransportCode.response_too_large =
      with_code-Records none _ (some permanent_failure) refl refl (λ e. absurd (cc))
  transport-Records TransportCode.unsafe_endpoint =
      with_code-Records none _ _ refl refl
        (retry_or_disable-Spares TransportFailure.unsafe_endpoint)
  transport-Records TransportCode.dns_timeout =
      with_code-Records none _ _ refl refl (retry_or_disable-Spares TransportFailure.timeout)
  transport-Records TransportCode.dns_lookup_failed =
      with_code-Records none _ _ refl refl (retry_or_disable-Spares TransportFailure.network)
  transport-Records TransportCode.request_timeout =
      with_code-Records none _ _ refl refl (retry_or_disable-Spares TransportFailure.timeout)
  transport-Records TransportCode.response_timeout =
      with_code-Records none _ _ refl refl (retry_or_disable-Spares TransportFailure.timeout)
  transport-Records TransportCode.network_error =
      with_code-Records none _ _ refl refl (retry_or_disable-Spares TransportFailure.network)

  -- Whatever happens to an attempt, there is a verdict, and it can be recorded.
  decide_attempt-Records :
      (prep : Option PreparationError) (post : PostResult)
      → preparation_is_valid prep ≡ true
      → post_is_valid post ≡ true
      → Records p (decide_attempt parse_date p now prep post)
  unfolding decide_attempt classify_preparation_failure classify_post classify_transport_failure
      classify_response is_safe_code is_upper is_digit
  decide_attempt-Records (some (preparation code true)) post h k =
      with_code-Records none code _ refl h (retry_or_disable-Spares TransportFailure.network)
  decide_attempt-Records (some (preparation code false)) post h k =
      with_code-Records none code (some permanent_failure) refl h (λ e. absurd (cc))
  decide_attempt-Records (some invalid_master_key) post h k =
      with_code-Records none _ _ refl refl (retry_or_disable-Spares TransportFailure.network)
  decide_attempt-Records (some signing_secret) post h k =
      with_code-Records none _ (some permanent_failure) refl refl (λ e. absurd (cc))
  decide_attempt-Records (some unexpected) post h k =
      with_code-Records none _ _ refl refl (retry_or_disable-Spares TransportFailure.network)
  decide_attempt-Records none (responded status retry_after) h k =
      let o = classify_response parse_date p now status retry_after in
      let s : is_some o ≡ true = classify_attempt-is_some parse_date _ bounds k in
      option_case (Records p) o _ _ (λ e. absurd (cc))
        λ q e. record { status = k; error = refl; spares = spared _ (some q) e refl refl refl }
  decide_attempt-Records none (transport_error code) h k = transport-Records code
  decide_attempt-Records none post_threw h k =
      with_code-Records none _ _ refl refl (retry_or_disable-Spares TransportFailure.network)

-- The delivery has ended, or it waits and has attempts left.
pub record IsDone (id : String) (p : Prepared) (v : Verdict) (now : ℕ) (db : Store) : Type 0 where
  pub delivery : Delivery
  pub settled : IsSettled id p v.decision now delivery db
  pub ends :
      (is_terminal delivery.status ≡ true)
      ⊎ (IsWaiting v.decision now delivery × delivery.attempt_count < delivery.max_attempts)

abbrev pub Completes :
    String → Prepared → Option Verdict → ℕ → Option (ClaimOutcome × Store) → Type 0
Completes id p none now o = ⊥
Completes id p (some v) now none = ⊥
Completes id p (some v) now (some (r, db)) =
    (r ≡ claim_outcome true v.decision.outcome) × IsDone id p v now db

module _ (c : Claim) (p : Prepared) (v : Verdict) (now : ℕ) where
  settled-IsDone :
      (d : Delivery) (db : Store)
      → IsRecordable p v
      → IsSettled c.delivery_id p v.decision now d db
      → IsDone c.delivery_id p v now db
  settled-IsDone d db r s = record {
    delivery = d;
    settled = s;
    ends = elim s.progress [
      | inl ended ↦ inl ended
      | inr waits ↦ inr (waits, omega (arith, r.spares waits.decided, s.counted, s.limit))
    ];
  }

  outcome-Completes :
      (o : Option (Bool × Store))
      → IsRecordable p v
      → Settles c.delivery_id p v.decision now o
      → Completes c.delivery_id p
          (some v)
          now
          (elim o [ none ↦ none | some (b, db) ↦ some (claim_outcome b v.decision.outcome, db) ])
  outcome-Completes none r s = absurd s
  outcome-Completes (some (b, db)) r (sure, d, s) =
      (ap (λ x. claim_outcome x v.decision.outcome) sure, settled-IsDone d db r s)

recorded-inputs :
    (c : Claim) (p : Prepared) (v : Verdict)
    → claim_is_valid c ≡ true
    → prepared_matches_claim c p ≡ true
    → IsRecordable p v
    → inputs_hold c p (record {
      request_timestamp = p.request_timestamp;
      status_code = v.status_code;
      error_code = v.error_code;
    })
      ≡ true
unfolding evidence_is_valid
recorded-inputs c p v h m k = ground (arith, k.status, k.error)

prepared-bounds :
    (c : Claim) (p : Prepared)
    → prepared_matches_claim c p ≡ true
    → attempt_bounds_hold p.attempt_number p.max_attempts ≡ true
unfolding prepared_matches_claim attempt_bounds_hold
prepared-bounds c p h = ground arith

prepare-valid :
    (id : String) (c : Claim) (now : ℕ) (db : Store) (r : Option Prepared × Store)
    → prepare_claimed_delivery id c now db ≡ some r
    → claim_is_valid c ≡ true
unfolding prepare_claimed_delivery
prepare-valid id c now db r e = ground arith

module _ (delivery_id : String → String) (event_id : String) where
  ready-Completes :
      (c : Claim) (p : Prepared) (o : Option Verdict) (now : ℕ) (db : Store)
      → claim_is_valid c ≡ true
      → prepared_matches_claim c p ≡ true
      → IsReady c p db
      → Records p o
      → Completes c.delivery_id p o now (record_verdict delivery_id event_id c p o now db)
  unfolding record_verdict
  ready-Completes c p none now db h m r k = absurd k
  ready-Completes c p (some v) now db h m r k = outcome-Completes c p v now _ k (
      finalize_claimed_delivery-Settles delivery_id event_id c p v.decision _ now db
        (recorded-inputs c p v h m k) r)

  -- When a claim was prepared, and what was prepared matches it, then however signing and posting end
  -- (an answer has a status between 100 and 599, and an error of the signing code has a code that
  -- evidence accepts), the verdict is recorded, if no other transaction comes between: the attempt is
  -- counted and closed, the lease is given back, the worker reports the verdict, and the delivery has
  -- ended, or it waits for its next attempt as the verdict says and has attempts left.
  pub record_verdict-Completes :
      (parse_date : Text → Option ℕ) (id : String) (c : Claim) (started policy_now now : ℕ)
      (db db' : Store) (p : Prepared) (prep : Option PreparationError) (post : PostResult)
      → prepare_claimed_delivery id c started db ≡ some (some p, db')
      → prepared_matches_claim c p ≡ true
      → preparation_is_valid prep ≡ true
      → post_is_valid post ≡ true
      → Completes c.delivery_id p (decide_attempt parse_date p policy_now prep post) now (
          record_verdict delivery_id event_id c p
            (decide_attempt parse_date p policy_now prep post)
            now
            db')
  record_verdict-Completes parse_date id c started policy_now now db db' p prep post e m h k =
      ready-Completes c p (decide_attempt parse_date p policy_now prep post) now db'
        (prepare-valid id c started db (some p, db') e) m
        (subst (Reserves c) e (prepare_claimed_delivery-Reserves id c started db))
        (decide_attempt-Records parse_date p policy_now (prepared-bounds c p m) prep post h k)
