-- ===== src/Messaging/Tests/Runs.antt =====
-- The theorems on runs, at concrete runs.
use signalstack_sms.Prelude.{
  String, none, ◌∷◌, [], find, find_row, update_row, true, false, ◌≤◌, some, ◌≡◌, ◌≢◌, ◌⊎◌, refl,
  subst, arith, All,
}
use signalstack_sms.Messaging.Model.{
  Attempt, find_attempt, find_message, option_eq, update_attempt, update_message,
  provider_id_is_free, message_key_is_free, attempt_key_is_free,
}
use signalstack_sms.Messaging.Dispatch.{
  recover_attempt, is_recoverable, recovered_attempt, recovered_message,
}
use signalstack_sms.Messaging.Worker.Prepare.{
  PrepareResult, prepare_claimed_attempt, holds_claim, accepted_payload_matches, prepare_recipient,
  prepare_live, gate_passes, prepare_authority, provider_authority, sender_capability_allows,
  begin_call, still_holds, started_attempt, prepared_attempt,
}
use signalstack_sms.Messaging.Worker.Defs.{
  Prepared, claim_is_valid, is_uuid_v4, prepared_matches_claim,
}
use signalstack_sms.Messaging.Worker.Finalize.{awaits_answer, finalize_claimed_attempt}
use signalstack_sms.Messaging.Worker.Recorded.{IsRecorded, finalize_claimed_attempt-IsRecorded}
use signalstack_sms.Messaging.Readiness.{Environment, Readiness, ReadinessReason}
use signalstack_sms.Messaging.Worker.Batch.{process_due}
use signalstack_sms.Messaging.Worker.Blocked.{IsAtRest, process_due-IsAtRest}
use signalstack_sms.Messaging.Policy.{Decision, decide_create_result}
use signalstack_sms.Messaging.Worker.Process.{
  ProviderCall, decide_call, create_result_matches_prepared, process_claimed_attempt,
}
use signalstack_sms.Messaging.Worker.Concluded.{IsConcluded, process_claimed_attempt-Concludes}
use signalstack_sms.Messaging.Frontier.Row.{Advances, IsWithinBudget}
use signalstack_sms.Messaging.Readiness.{direct_message_worker_readiness, live_readiness}
use signalstack_sms.Compliance.Gates.Defs.{
  gate_allows, gate_reasons, compliance_profile_is_complete, has_complete_consent_evidence,
  resolved_zone, resolved_state,
}
use signalstack_sms.Compliance.QuietHours.{
  is_within_quiet_hours, local_hour_in_time_zone, window_for_state,
}
use signalstack_sms.Compliance.AreaCodes.{resolve_timezone_from_phone}
use signalstack_sms.Text.{trim, trim_start, is_space}
use signalstack_sms.Messaging.Worker.Authority.{IsAuthorized, prepare_claimed_attempt-IsAuthorized}
use signalstack_sms.Messaging.Frontier.Trace.{
  Step, Run, Run-at_most_three, Run-IsWithinBudget, Run-Advances,
}
use signalstack_sms.Messaging.Worker.Process.{ProviderCall}
use signalstack_sms.Messaging.Worker.Batch.{Turn, process_claims}
use signalstack_sms.Messaging.Worker.Counts.{total, total-process_claims}
use signalstack_sms.Messaging.Frontier.Unique.{count_of}
use signalstack_sms.Messaging.Frontier.Once.{
  prepare_claimed_attempt-once, begun-skipped, closed-skipped, finalize_claimed_attempt-reclaimed,
  finalize_claimed_attempt-once,
}
use signalstack_sms.Messaging.Tests.Data.{
  host, event_key, claim, other_claim, live_environment, directory, claimed, begun, unsure,
  prepared_message, begun_attempt, unsure_attempt, message, token, other_token, answer,
}

begins :
    prepare_claimed_attempt host claim live_environment directory 300 claimed
    ≡ some (PrepareResult.prepared prepared_message, begun)
unfolding prepare_claimed_attempt claim_is_valid is_uuid_v4 holds_claim find_attempt find_row
    find_message accepted_payload_matches prepare_recipient prepare_live
    direct_message_worker_readiness live_readiness gate_passes gate_allows gate_reasons
    compliance_profile_is_complete has_complete_consent_evidence is_within_quiet_hours
    local_hour_in_time_zone window_for_state resolved_zone resolved_state
    resolve_timezone_from_phone trim trim_start is_space prepare_authority provider_authority find
    sender_capability_allows begin_call still_holds update_attempt update_row started_attempt
    prepared_attempt
begins = refl

recovers : recover_attempt 40000 "a1" begun ≡ some (true, unsure)
unfolding recover_attempt is_recoverable recovered_attempt recovered_message find_attempt
    find_message find_row update_attempt update_message update_row
recovers = refl

Run-to_unsure : Run host event_key begun unsure
Run-to_unsure = Run.then_step Run.start (Step.recover 40000 "a1" true recovers)

begun_found : find_attempt "a1" begun ≡ some begun_attempt
unfolding find_attempt find_row
begun_found = refl

unsure_found : find_attempt "a1" unsure ≡ some unsure_attempt
unfolding find_attempt find_row
unsure_found = refl

claim_valid : claim_is_valid claim ≡ true
unfolding claim_is_valid is_uuid_v4
claim_valid = refl

other_claim_valid : claim_is_valid other_claim ≡ true
unfolding claim_is_valid is_uuid_v4
other_claim_valid = refl

fits : prepared_matches_claim claim prepared_message ≡ true
unfolding prepared_matches_claim is_uuid_v4
fits = refl

other_prepared : Prepared
other_prepared = record prepared_message { processing_token = other_token }

other_fits : prepared_matches_claim other_claim other_prepared ≡ true
unfolding prepared_matches_claim is_uuid_v4 other_prepared
other_fits = refl

waits : awaits_answer claim prepared_message begun_attempt ≡ true
unfolding awaits_answer
waits = refl

answer_free : provider_id_is_free begun_attempt (some answer.provider_message_id) begun ≡ true
unfolding message_key_is_free attempt_key_is_free
answer_free = refl

message_found : find_message "m1" begun ≡ some message
unfolding find_message find_row
message_found = refl

tokens_differ : begun_attempt.processing_token ≢ some other_claim.processing_token
tokens_differ e = let h : false ≡ true = subst (λ o. option_eq o (some token) ≡ true) e refl in cc

once_example :
    prepare_claimed_attempt host other_claim live_environment directory 50000 unsure
    ≡ some (PrepareResult.skipped, unsure)
once_example =
    prepare_claimed_attempt-once host event_key claimed begun unsure claim other_claim
      live_environment live_environment directory directory 300 50000 prepared_message begins refl
      Run-to_unsure refl other_claim_valid

IsAuthorized-example :
    IsAuthorized host claim live_environment directory 300 claimed prepared_message begun
IsAuthorized-example =
    prepare_claimed_attempt-IsAuthorized host claim live_environment directory 300 claimed begun
      prepared_message begins

budget_example : All IsWithinBudget unsure.attempts
budget_example = Run-IsWithinBudget host event_key Run-to_unsure ((omega arith, omega arith), tt)

at_most_three_example : count_of "m1" unsure.attempts ≤ 3
at_most_three_example =
    Run-at_most_three host event_key "m1" Run-to_unsure (refl, tt) ((omega arith, omega arith), tt)

Advances-example : (b : Attempt) × (find_attempt "a1" unsure ≡ some b) × Advances begun_attempt b
Advances-example = Run-Advances host event_key "a1" begun_attempt Run-to_unsure begun_found

begun_skipped_example :
    prepare_claimed_attempt host other_claim live_environment directory 50000 unsure
    ≡ some (PrepareResult.skipped, unsure)
begun_skipped_example =
    begun-skipped host event_key begun_attempt other_claim live_environment directory 50000
      Run-to_unsure begun_found refl other_claim_valid

closed_skipped_example :
    prepare_claimed_attempt host other_claim live_environment directory 50000 unsure
    ≡ some (PrepareResult.skipped, unsure)
closed_skipped_example =
    closed-skipped host event_key unsure_attempt other_claim live_environment directory 50000
      Run.start unsure_found refl other_claim_valid

IsRecorded-example : IsRecorded begun_attempt (Decision.sent answer) 400 (
    finalize_claimed_attempt host "a2" token claim prepared_message
      (Decision.sent answer)
      400
      begun)
IsRecorded-example =
    finalize_claimed_attempt-IsRecorded host "a2" token claim prepared_message
      (Decision.sent answer) 400 begun begun_attempt message (λ e db. refl) claim_valid fits
      begun_found waits refl message_found refl answer_free

decided :
    decide_call prepared_message (ProviderCall.answered answer) (some 400)
    ≡ some (Decision.sent answer)
unfolding decide_call create_result_matches_prepared decide_create_result
decided = refl

IsConcluded-example : IsConcluded "a2" token begun_attempt 400 begun (Decision.sent answer) (
    process_claimed_attempt host "a2" token claim live_environment directory
      (ProviderCall.answered answer)
      300
      400
      claimed)
IsConcluded-example =
    process_claimed_attempt-Concludes host "a2" token claim prepared_message live_environment
      directory (ProviderCall.answered answer) (Decision.sent answer) 300 400 claimed begun
      begun_attempt message (λ e db. refl) begins claim_valid fits begun_found waits refl
      message_found refl refl decided

reclaimed_example :
    finalize_claimed_attempt host "a2" token other_claim other_prepared
      (Decision.sent answer)
      400
      begun
    ≡ some (false, begun)
reclaimed_example =
    finalize_claimed_attempt-reclaimed host "a2" token other_claim other_prepared
      (Decision.sent answer) 400 begun begun_attempt other_claim_valid other_fits begun_found
      tokens_differ

late_answer_example :
    finalize_claimed_attempt host "a2" token claim prepared_message
      (Decision.sent answer)
      50000
      unsure
    ≡ some (false, unsure)
late_answer_example =
    finalize_claimed_attempt-once host event_key "a2" token claim prepared_message
      (Decision.sent answer) 50000 unsure_attempt Run.start unsure_found refl claim_valid fits

abbrev turn : String → Turn
turn id = record {
  new_id = "a2";
  correlation = token;
  directory = directory;
  call = ProviderCall.answered answer;
  now = 300;
  later = 400;
}

abbrev keyless_environment : Environment
keyless_environment = record live_environment { secrets_master_key = none }

keyless_refused :
    direct_message_worker_readiness host.lower_case host.valid_https_origin host.valid_master_key
      keyless_environment
    ≡ Readiness.refused ReadinessReason.live_worker_invalid
unfolding direct_message_worker_readiness live_readiness
keyless_refused = refl

IsAtRest-example :
    let db' =
      (process_due host keyless_environment turn other_token 40000
        ("a1" ∷ [])
        ("a1" ∷ [])
        begun).1 in
    ((b : Attempt) × (find_attempt "a1" db' ≡ some b) × IsAtRest 40000 begun_attempt b)
    × ((ReadinessReason.live_worker_invalid ≡ ReadinessReason.live_worker_invalid) ⊎ (db' ≡ begun))
IsAtRest-example =
    process_due-IsAtRest host keyless_environment turn other_token 40000 ("a1" ∷ []) ("a1" ∷ [])
      begun ReadinessReason.live_worker_invalid "a1" begun_attempt keyless_refused begun_found

total_example :
    total (process_claims host live_environment turn token 0 ("a1" ∷ []) claimed).0.counts
    ≡ (process_claims host live_environment turn token 0 ("a1" ∷ []) claimed).0.claimed
total_example = total-process_claims host live_environment turn token 0 ("a1" ∷ []) claimed
