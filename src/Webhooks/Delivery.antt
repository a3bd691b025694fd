-- ===== src/Webhooks/Delivery.antt =====
-- worker.ts and lib/db/customer-webhook-dispatch.ts: the worker's claims, what it prepares for an
-- attempt, and the tests on them. The payload and the signing envelope, which only the signing code
-- reads, are left out of a prepared delivery; dates are numbers of milliseconds.
pub mod Prepare
pub mod Finalize
pub mod Process
pub mod Dispatch
pub mod Rows
pub mod Steps
pub mod Outcomes
pub mod Trace
pub mod Ready
pub mod Progress
pub mod Laws
pub mod Safety
use signalstack_sms.Prelude.{
  ℕ, ◌+◌, ◌-◌, ◌%◌, ◌*◌, min, max, String, Bool, true, false, not, ◌&&◌, ◌||◌, Option, none, some,
  List, [], ◌∷◌, ◌++◌, leb, ltb, ◌==◌, if◌then◌else◌, any, all, length, codes, str_eq,
}
use signalstack_sms.Text.{Text, between, is_digit, is_safe_code}
use signalstack_sms.Webhooks.Outbox.{is_bounded_identifier}

pub record Claim : Type 0 where
  pub delivery_id : String
  pub expected_org_id : String
  pub processing_token : String

pub record Prepared : Type 0 where
  pub org_id : String
  pub delivery_id : String
  pub endpoint_id : String
  pub endpoint_url : String
  pub subscription_id : String
  pub event_id : String
  pub event_type : String
  pub secret_id : String
  pub secret_version : ℕ
  pub attempt_id : String
  pub request_timestamp : ℕ
  pub attempt_number : ℕ
  pub max_attempts : ℕ
  pub generation : ℕ
  pub started_at : ℕ

pub record Evidence : Type 0 where
  pub request_timestamp : ℕ
  pub status_code : Option ℕ
  pub error_code : Option String

-- `isIdentifier`
unfoldable pub is_identifier : Text → Bool
is_identifier value = is_bounded_identifier 191 value && not (any (λ c. c == 127) value)

abbrev is_lower_hex : ℕ → Bool
is_lower_hex c = is_digit c || between b'a' b'f' c

-- One class of characters for each place of the text.
matches : List (ℕ → Bool) → Text → Bool
matches [] [] = true
matches (p ∷ ps) (c ∷ s) = p c && matches ps s
matches _ _ = false

abbrev hex_digits : List (ℕ → Bool) → List (ℕ → Bool)
hex_digits rest = is_lower_hex ∷ is_lower_hex ∷ is_lower_hex ∷ rest

abbrev dash : ℕ → Bool
dash c = c == b'-'

processing_token_pattern : List (ℕ → Bool)
processing_token_pattern =
    hex_digits (hex_digits (is_lower_hex ∷ is_lower_hex ∷ dash ∷ []))
    ++ hex_digits (is_lower_hex ∷ dash ∷ (λ c. c == b'4') ∷ [])
    ++ hex_digits
        (dash ∷ (λ c. c == b'8' || c == b'9' || c == b'a' || c == b'b') ∷ hex_digits (dash ∷ []))
    ++ hex_digits (hex_digits (hex_digits (hex_digits [])))

-- `isProcessingToken`
unfoldable pub is_processing_token : Text → Bool
unfolding processing_token_pattern matches
is_processing_token value = matches processing_token_pattern value

-- `assertCustomerWebhookDeliveryClaim`
unfoldable pub claim_is_valid : Claim → Bool
claim_is_valid c =
    is_identifier (codes c.delivery_id)
    && is_identifier (codes c.expected_org_id)
    && is_processing_token (codes c.processing_token)

-- `assertPreparedDeliveryMatchesClaim`
unfoldable pub prepared_matches_claim : Claim → Prepared → Bool
prepared_matches_claim c p =
    str_eq p.org_id c.expected_org_id
    && str_eq p.delivery_id c.delivery_id
    && is_identifier (codes p.endpoint_id)
    && is_identifier (codes p.subscription_id)
    && is_identifier (codes p.event_id)
    && is_identifier (codes p.secret_id)
    && is_identifier (codes p.attempt_id)
    && leb 1 p.secret_version
    && leb 1 p.generation
    && leb 1 p.attempt_number
    && leb p.attempt_number p.max_attempts
    && leb p.max_attempts 12
    && p.request_timestamp % 1000 == 0
    && leb p.request_timestamp p.started_at
    && ltb (p.started_at - p.request_timestamp) 1000

abbrev pub status_code_is_valid : Option ℕ → Bool
status_code_is_valid none = true
status_code_is_valid (some code) = between 100 599 code

abbrev pub error_code_is_valid : Option String → Bool
error_code_is_valid none = true
error_code_is_valid (some code) = is_safe_code 0 63 (codes code)

-- `assertFinalizationEvidence`
unfoldable pub evidence_is_valid : Evidence → Bool
evidence_is_valid e = status_code_is_valid e.status_code && error_code_is_valid e.error_code

-- A row that the claiming query returns.
pub record DispatchRow : Type 0 where
  pub delivery_id : String
  pub org_id : String

-- The rows as claims; a malformed or a repeated identity throws.
unfoldable pub dispatch_claims : String → List String → List DispatchRow → Option (List Claim)
dispatch_claims token seen [] = some []
dispatch_claims token seen (r ∷ rows) =
    let rest = dispatch_claims token (r.delivery_id ∷ seen) rows in
    if not (is_identifier (codes r.delivery_id) && is_identifier (codes r.org_id))
    then none
    else if any (str_eq r.delivery_id) seen
    then none
    else elim rest [
      | none ↦ none
      | some claims ↦ some (
          record {
            delivery_id = r.delivery_id;
            expected_org_id = r.org_id;
            processing_token = token;
          }
          ∷ claims)
    ]

-- `claimDueCustomerWebhookDeliveries`: the claiming query is an argument.
unfoldable pub claim_due_deliveries : ℕ → String → (ℕ → List DispatchRow) → Option (List Claim)
claim_due_deliveries max_deliveries token claim_rows =
    let bounded = min 100 (max 1 max_deliveries) in
    if not (is_processing_token (codes token))
    then none
    else if not (leb (length (claim_rows bounded)) bounded)
    then none
    else dispatch_claims token [] (claim_rows bounded)
