-- ===== src/Messaging/Worker/Process.antt =====
-- `providerCreateResultMatchesPrepared`, the decision on the provider's answer, and
-- `processClaimedDirectMessageAttempt`, where nothing else comes between its transactions.
use Prim.Native.String
use signalstack_sms.Prelude.{
  ℕ, String, Bool, true, false, ◌&&◌, ◌||◌, Option, none, some, ◌∷◌, leb, ◌==◌, str_eq,
  if◌then◌else◌, is_none, codes, length, all,
}
use signalstack_sms.Text.{Text, is_hex, is_safe_code}
use signalstack_sms.Messaging.Model.{Database, Transport, dummy, twilio, option_eq}
use signalstack_sms.Messaging.Policy.{
  Decision, CreateResult, ErrorClassification, decide_create_result, decide_create_error,
}
use signalstack_sms.Messaging.Readiness.{Environment}
use signalstack_sms.Messaging.Worker.Defs.{
  Claim, Prepared, ProviderSnapshot, prepared_matches_claim,
}
use signalstack_sms.Messaging.Worker.Prepare.{
  Host, Directory, PrepareResult, prepare_claimed_attempt,
}
use signalstack_sms.Messaging.Worker.Finalize.{finalize_claimed_attempt, mark_persistence_ambiguous}

-- `^(?:SM|MM)[A-Fa-f0-9]{32}$`
is_twilio_message_id : Text → Bool
unfolding is_hex
is_twilio_message_id (a ∷ b ∷ s) =
    (a == b'S' || a == b'M') && b == b'M' && all is_hex s && length s == 32
is_twilio_message_id _ = false

abbrev expected_account : Option ProviderSnapshot → String
expected_account none = "dummy-account"
expected_account (some s) = s.external_account_id

abbrev size_within : ℕ → ℕ → String → Bool
size_within lo hi s = leb lo (length (codes s)) && leb (length (codes s)) hi

unfoldable pub create_result_matches_prepared : CreateResult → Prepared → Bool
unfolding is_twilio_message_id is_safe_code
create_result_matches_prepared r p =
    str_eq r.external_account_id (expected_account p.provider_snapshot)
    && str_eq r.to p.destination
    && option_eq r.from (some p.from)
    && is_none r.messaging_service_id
    && size_within 2 191 r.provider_message_id
    && id_fits p.transport
    && size_within 1 64 r.provider_status
    && code_fits r.provider_error_code
  where
    id_fits : Transport → Bool
    id_fits dummy = str_eq r.provider_message_id (String.◌++◌ "dummy_" p.request_fingerprint)
    id_fits twilio = is_twilio_message_id (codes r.provider_message_id)

    code_fits : Option String → Bool
    code_fits none = true
    code_fits (some s) = is_safe_code 0 127 (codes s)

-- What the call gives: no adapter could be made, an answer, or an error that was classified.
pub data ProviderCall : Type 0 where
  no_adapter : ProviderCall
  answered : CreateResult → ProviderCall
  raised : ErrorClassification → ProviderCall

unfoldable pub decide_call : Prepared → ProviderCall → Option ℕ → Option Decision
decide_call p no_adapter now = some (Decision.ambiguous "PROVIDER_CREDENTIAL_UNAVAILABLE" none)
decide_call p (answered r) now =
    if create_result_matches_prepared r p
    then some (decide_create_result r)
    else some (Decision.ambiguous "PROVIDER_RESPONSE_MISMATCH" none)
decide_call p (raised e) now = decide_create_error e p.attempt_number now

pub data ClaimOutcome : Type 0 where
  sent delivered retried failed ambiguous cancelled skipped : ClaimOutcome

unfoldable pub outcome_from_decision : Decision → ClaimOutcome
outcome_from_decision (Decision.sent _) = sent
outcome_from_decision (Decision.delivered _) = delivered
outcome_from_decision (Decision.failed _ _ _ _) = failed
outcome_from_decision (Decision.retry _ _ _) = retried
outcome_from_decision (Decision.ambiguous _ _) = ambiguous

-- What a claim came to (`none` if the function throws) and the database after the transactions that
-- have committed.
abbrev pub Processed : Type 0
Processed = Option ClaimOutcome × Database

module _ (host : Host) (new_id correlation : String) (c : Claim) where
  -- After the attempt to record the uncertainty: unless that was done, the first error is thrown.
  unfoldable pub after_mark : Database → Option (Bool × Database) → Processed
  after_mark db (some (true, db')) = (some ambiguous, db')
  after_mark db (some (false, db')) = (none, db')
  after_mark db none = (none, db)

  -- After the attempt to record the decision: if that threw, the uncertainty is recorded, unless no
  -- adapter could be made.
  unfoldable pub after_finalize :
      Prepared → Decision → Bool → ℕ → Database → Option (Bool × Database) → Processed
  after_finalize p decision guarded now db (some (true, db')) =
      (some (outcome_from_decision decision), db')
  after_finalize p decision guarded now db (some (false, db')) = (some skipped, db')
  after_finalize p decision true now db none = after_mark db (mark_persistence_ambiguous c p now db)
  after_finalize p decision false now db none = (none, db)

  -- Without an adapter, a failure to record the decision is not caught.
  abbrev pub is_guarded : ProviderCall → Bool
  is_guarded no_adapter = false
  is_guarded _ = true

  unfoldable pub after_decision :
      Prepared → ProviderCall → ℕ → Database → Option Decision → Processed
  after_decision p call now db none = (none, db)
  after_decision p call now db (some decision) =
      after_finalize p decision (is_guarded call) now db
        (finalize_claimed_attempt host new_id correlation c p decision now db)

  unfoldable pub after_prepare :
      ProviderCall → ℕ → Database → Option (PrepareResult × Database) → Processed
  after_prepare call now db none = (none, db)
  after_prepare call now db (some (PrepareResult.cancelled, db')) = (some cancelled, db')
  after_prepare call now db (some (PrepareResult.skipped, db')) = (some skipped, db')
  after_prepare call now db (some (PrepareResult.prepared p, db')) =
      if prepared_matches_claim c p
      then after_decision p call now db' (decide_call p call (some now))
      else (none, db')

  -- The call is made between the transactions; what it gives is an argument.
  unfoldable pub process_claimed_attempt :
      Environment → Directory → ProviderCall → ℕ → ℕ → Database → Processed
  process_claimed_attempt env dir call now later db =
      after_prepare call later db (prepare_claimed_attempt host c env dir now db)
