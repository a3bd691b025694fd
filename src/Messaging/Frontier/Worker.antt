-- ===== src/Messaging/Frontier/Worker.antt =====
-- The worker's transactions advance the attempts that they find.
use signalstack_sms.Prelude.{
  ℕ, String, Bool, true, false, ◌&&◌, Option, none, some, ◌≡◌, arith, keep_if, keep_if-some,
  find_row, sym, str_eq, ◌==◌, max, leb, ◌<◌,
}
use mathlib.Core.Path.{subst}
use signalstack_sms.Messaging.Model.{
  Message, Attempt, Database, is_dummy, find_attempt, find_message,
}
use signalstack_sms.Messaging.Policy.{Decision, CreateResult, max_time, direct_message_max_attempts}
use signalstack_sms.Messaging.Readiness.{Environment, direct_message_worker_readiness}
use signalstack_sms.Messaging.Worker.Defs.{
  Claim, Prepared, close_attempt, closed_by, claim_is_valid, is_uuid_v4, prepared_matches_claim,
}
use signalstack_sms.Messaging.Worker.Prepare.{
  Host, Directory, ContactRow, OrganizationRow, AccountRow, SenderRow, SecretRow, holds_claim,
  is_processing, still_holds, recipient_is_blocked, contact_of, is_ready_for_twilio, both,
  provider_authority, gate_passes, accepted_payload_matches, lease_runs, cancelled_attempt,
  started_attempt, cancel_claimed_attempt, begin_call, prepare_authority, prepare_live,
  prepare_dummy, prepare_recipient, prepare_claimed_attempt,
}
use signalstack_sms.Messaging.Worker.Finalize.{
  awaits_answer, successor, failed_attempt, ambiguous_attempt, succeeded_attempt, record_retry,
  record_ambiguous, record_failed, result_id, record_success, record_decision,
  finalize_claimed_attempt, mark_persistence_ambiguous,
}
use signalstack_sms.Messaging.Model.{find_attempt-id}
use signalstack_sms.Messaging.Worker.Defs.{Lifecycle}
use signalstack_sms.Messaging.Model.{AttemptStatus, attempt_is, provider_id_is_free}
use signalstack_sms.Messaging.Worker.Batch.{record_recovered}
use signalstack_sms.Messaging.Frontier.Row.{Advances, IsWithinBudget}
use signalstack_sms.Messaging.Frontier.Keep.{
  Keeps, if-Keeps, elim-Keeps, return-Keeping, >>-Keeping, update_message-Keeping,
  create_attempt-Keeping, enqueue_lifecycle-Keeping, update_attempt-Keeps, require-Keeps,
}
use signalstack_sms.Messaging.Frontier.Steps.{same}

cancelled-Advances :
    (c : Claim) (a : Attempt) (code : String) (now : ℕ)
    → holds_claim c a ≡ true
    → Advances a (closed_by (cancelled_attempt code now) a)
unfolding holds_claim closed_by cancelled_attempt
cancelled-Advances c a code now h = ground arith

started-Advances :
    (c : Claim) (a : Attempt) (secret : SecretRow) (now : ℕ)
    → holds_claim c a ≡ true
    → Advances a (started_attempt secret now a)
unfolding holds_claim started_attempt
started-Advances c a secret now h = ground arith

module _ (host : Host) (c : Claim) (env : Environment) (dir : Directory) (now : ℕ) (m : Message)
    (a : Attempt) (db : Database) (found : find_attempt a.id db ≡ some a)
    (held : holds_claim c a ≡ true) where
  cancel_claimed_attempt-Keeps :
      (code : String) → Keeps db.attempts (cancel_claimed_attempt host m a now code db)
  unfolding cancel_claimed_attempt close_attempt
  cancel_claimed_attempt-Keeps code =
      update_attempt-Keeps a.id _ _ db a found (cancelled-Advances c a code now held) (
        >>-Keeping (update_message-Keeping _ _)
          (>>-Keeping (enqueue_lifecycle-Keeping _ _ _ _ _ _ _) (return-Keeping _)))

  begin_call-Keeps :
      (authority : AccountRow × SenderRow × SecretRow)
      → Keeps db.attempts (begin_call host c env now m a authority db)
  unfolding begin_call
  begin_call-Keeps authority =
      elim-Keeps db.attempts (host.callback_url _ _ _ _ _) _ _ (cancel_claimed_attempt-Keeps _)
        λ url _.
          if-Keeps db.attempts (still_holds c a now) _ _
            (λ _.
              update_attempt-Keeps a.id _ _ db a found (started-Advances c a authority.2 now held)
                (return-Keeping _))
            (λ _. same db)

  prepare_authority-Keeps : Keeps db.attempts (prepare_authority host c env dir now m a db)
  unfolding prepare_authority
  prepare_authority-Keeps =
      elim-Keeps db.attempts (both a.provider_account_id a.provider_phone_number_id) _ _
        (cancel_claimed_attempt-Keeps _)
        λ binding _.
          elim-Keeps db.attempts
            (provider_authority host dir c.expected_org_id binding.0 binding.1 now a.media_urls) _ _
            (cancel_claimed_attempt-Keeps _) λ authority _. begin_call-Keeps authority

  prepare_live-Keeps :
      (contact : ContactRow) (org : OrganizationRow)
      → Keeps db.attempts (prepare_live host c env dir now m a contact org db)
  unfolding prepare_live
  prepare_live-Keeps contact org =
      if-Keeps db.attempts
        (is_ready_for_twilio (
          direct_message_worker_readiness host.lower_case host.valid_https_origin
            host.valid_master_key env))
        _ _
        (λ _.
          if-Keeps db.attempts (gate_passes host env org contact a now) _ _
            (λ _. prepare_authority-Keeps) (λ _. cancel_claimed_attempt-Keeps _))
        (λ _. cancel_claimed_attempt-Keeps _)

  prepare_dummy-Keeps :
      (contact : ContactRow) → Keeps db.attempts (prepare_dummy host c now m a contact db)
  unfolding prepare_dummy
  prepare_dummy-Keeps contact =
      if-Keeps db.attempts (recipient_is_blocked contact) _ _ (λ _. cancel_claimed_attempt-Keeps _)
        (λ _. same db)

  prepare_recipient-Keeps : Keeps db.attempts (prepare_recipient host c env dir now m a db)
  unfolding prepare_recipient
  prepare_recipient-Keeps =
      elim-Keeps db.attempts (contact_of m.contact_id c.expected_org_id dir) _ _
        (cancel_claimed_attempt-Keeps _)
        λ contact _.
          elim-Keeps db.attempts (find_row OrganizationRow.id c.expected_org_id dir.organizations) _
            _ (cancel_claimed_attempt-Keeps _)
            λ org _.
              if-Keeps db.attempts (str_eq contact.phone a.destination) _ _
                (λ _.
                  if-Keeps db.attempts (is_dummy a.transport) _ _ (λ _. prepare_dummy-Keeps contact)
                    (λ _. prepare_live-Keeps contact org))
                (λ _. cancel_claimed_attempt-Keeps _)

and-eq-true : (a b : Bool) → (a && b) ≡ true → (a ≡ true) × (b ≡ true)
and-eq-true a b h = ground arith

same_number :
    (a : Attempt) (p : Prepared)
    → (a.attempt_number == p.attempt_number) ≡ true
    → a.attempt_number ≡ p.attempt_number
same_number a p h = ground arith

-- The whole of `prepareClaimedDirectMessageAttempt`.
pub prepare_claimed_attempt-Keeps :
    (host : Host) (c : Claim) (env : Environment) (dir : Directory) (now : ℕ) (db : Database)
    → Keeps db.attempts (prepare_claimed_attempt host c env dir now db)
unfolding prepare_claimed_attempt
prepare_claimed_attempt-Keeps host c env dir now db =
    if-Keeps db.attempts (claim_is_valid c) _ none
      (λ _.
        elim-Keeps db.attempts (keep_if (holds_claim c) (find_attempt c.attempt_id db)) _ _
          (same db)
          λ a kept.
            let (at_id, held) =
              keep_if-some (holds_claim c) (find_attempt c.attempt_id db) a kept in
            let found = find_attempt-id c.attempt_id db a at_id in
            elim-Keeps db.attempts (keep_if is_processing (find_message a.message_id db)) _ _
              (same db)
              λ m _.
                if-Keeps db.attempts (accepted_payload_matches m a) _ _
                  (λ _.
                    if-Keeps db.attempts (lease_runs a.processing_expires_at now) _ _
                      (λ _. prepare_recipient-Keeps host c env dir now m a db found held)
                      (λ _. same db))
                  (λ _. cancel_claimed_attempt-Keeps host c env dir now m a db found held _))
      (λ _. tt)

failed-Advances :
    (c : Claim) (p : Prepared) (a : Attempt) (code disposition : String) (provider : Option String)
    (r : Option CreateResult) (now : ℕ)
    → awaits_answer c p a ≡ true
    → Advances a (closed_by (failed_attempt code provider disposition r now) a)
unfolding awaits_answer closed_by failed_attempt
failed-Advances c p a code disposition provider r now h = ground arith

ambiguous-Advances :
    (c : Claim) (p : Prepared) (a : Attempt) (code : String) (provider : Option String) (now : ℕ)
    → awaits_answer c p a ≡ true
    → Advances a (closed_by (ambiguous_attempt code provider now) a)
unfolding awaits_answer closed_by ambiguous_attempt
ambiguous-Advances c p a code provider now h = ground arith

succeeded-Advances :
    (c : Claim) (p : Prepared) (a : Attempt) (r : CreateResult) (now : ℕ)
    → awaits_answer c p a ≡ true
    → Advances a (closed_by (succeeded_attempt r now) a)
unfolding awaits_answer closed_by succeeded_attempt
succeeded-Advances c p a r now h = ground arith

successor-IsWithinBudget :
    (new_id correlation : String) (due : ℕ) (a : Attempt)
    → a.attempt_number < direct_message_max_attempts
    → IsWithinBudget (successor new_id correlation due a)
unfolding successor
successor-IsWithinBudget new_id correlation due a h = (omega arith, omega arith)

-- A retry is only decided while the budget has room.
abbrev pub IsAffordable : ℕ → Decision → Type 0
IsAffordable n (Decision.retry _ _ _) = n < direct_message_max_attempts
IsAffordable n _ = Unit

module _ (host : Host) (new_id correlation : String) (c : Claim) (p : Prepared) (m : Message)
    (a : Attempt) (now : ℕ) (db : Database) (found : find_attempt a.id db ≡ some a)
    (waits : awaits_answer c p a ≡ true) where
  record_success-Keeps :
      (delivered : Bool) (r : CreateResult)
      → Keeps db.attempts (record_success host new_id correlation m a delivered r now db)
  unfolding record_success close_attempt
  record_success-Keeps delivered r =
      require-Keeps db.attempts (provider_id_is_free a (some r.provider_message_id)) _ db (
        update_attempt-Keeps a.id _ _ db a found (succeeded-Advances c p a r now waits) (
          >>-Keeping (update_message-Keeping _ _)
            (>>-Keeping (enqueue_lifecycle-Keeping _ _ _ _ _ _ _) (return-Keeping _))))

  record_decision-Keeps :
      (decision : Decision)
      → IsAffordable a.attempt_number decision
      → Keeps db.attempts (record_decision host new_id correlation m a now decision db)
  unfolding record_decision record_retry record_ambiguous record_failed close_attempt
  record_decision-Keeps (Decision.sent r) afford = record_success-Keeps false r
  record_decision-Keeps (Decision.delivered r) afford = record_success-Keeps true r
  record_decision-Keeps (Decision.ambiguous code provider) afford =
      update_attempt-Keeps a.id _ _ db a found (ambiguous-Advances c p a code provider now waits) (
        >>-Keeping (update_message-Keeping _ _)
          (>>-Keeping (enqueue_lifecycle-Keeping _ _ _ _ _ _ _) (return-Keeping _)))
  record_decision-Keeps (Decision.failed code provider is_terminal result) afford =
      require-Keeps db.attempts (provider_id_is_free a (result_id host new_id correlation result)) _
        db
        (update_attempt-Keeps a.id _ _ db a found
          (failed-Advances c p a code _ provider result now waits)
          (>>-Keeping (update_message-Keeping _ _)
            (>>-Keeping (enqueue_lifecycle-Keeping _ _ _ _ _ _ _) (return-Keeping _))))
  record_decision-Keeps (Decision.retry code provider next) afford =
      if-Keeps db.attempts (leb (max next now) max_time && is_uuid_v4 correlation) _ none
        (λ _.
          update_attempt-Keeps a.id _ _ db a found
            (failed-Advances c p a code "retryable" provider none now waits)
            (>>-Keeping
              (create_attempt-Keeping (successor new_id correlation (max next now) a)
                (successor-IsWithinBudget new_id correlation (max next now) a afford))
              (>>-Keeping (update_message-Keeping _ _)
                (>>-Keeping (enqueue_lifecycle-Keeping _ _ _ _ _ _ _) (return-Keeping _)))))
        (λ _. tt)

-- The whole of `finalizeClaimedDirectMessageAttempt`.
pub finalize_claimed_attempt-Keeps :
    (host : Host) (new_id correlation : String) (c : Claim) (p : Prepared) (d : Decision) (now : ℕ)
    (db : Database)
    → IsAffordable p.attempt_number d
    → Keeps db.attempts (finalize_claimed_attempt host new_id correlation c p d now db)
unfolding finalize_claimed_attempt
finalize_claimed_attempt-Keeps host new_id correlation c p d now db afford =
    if-Keeps db.attempts (claim_is_valid c && prepared_matches_claim c p) _ none
      (λ _.
        let test = λ (a : Attempt). awaits_answer c p a && a.attempt_number == p.attempt_number in
        elim-Keeps db.attempts (keep_if test (find_attempt c.attempt_id db)) _ _ (same db) λ a kept.
          let (at_id, waits) = keep_if-some test (find_attempt c.attempt_id db) a kept in
          let found = find_attempt-id c.attempt_id db a at_id in
          elim-Keeps db.attempts (keep_if is_processing (find_message a.message_id db)) _ _
            (same db)
            λ m _.
              record_decision-Keeps host new_id correlation c p m a now db found
                (and-eq-true _ _ waits).0 d
                (subst (λ n. IsAffordable n d) (sym (same_number a p ((and-eq-true _ _ waits).1)))
                  afford))
      (λ _. tt)

pub mark_persistence_ambiguous-Keeps :
    (c : Claim) (p : Prepared) (now : ℕ) (db : Database)
    → Keeps db.attempts (mark_persistence_ambiguous c p now db)
unfolding mark_persistence_ambiguous close_attempt
mark_persistence_ambiguous-Keeps c p now db =
    if-Keeps db.attempts (claim_is_valid c && prepared_matches_claim c p) _ none
      (λ _.
        elim-Keeps db.attempts (keep_if (awaits_answer c p) (find_attempt c.attempt_id db)) _ _
          (same db)
          λ a kept.
            let (at_id, waits) =
              keep_if-some (awaits_answer c p) (find_attempt c.attempt_id db) a kept in
            elim-Keeps db.attempts (keep_if is_processing (find_message a.message_id db)) _ _
              (same db)
              λ m _.
                update_attempt-Keeps a.id _ _ db a (find_attempt-id c.attempt_id db a at_id)
                  (ambiguous-Advances c p a _ none now waits)
                  (>>-Keeping (update_message-Keeping _ _) (return-Keeping _)))
      (λ _. tt)

pub record_recovered-Keeps :
    (host : Host) (org id : String) (db : Database)
    → Keeps db.attempts (record_recovered host org id db)
unfolding record_recovered
record_recovered-Keeps host org id db =
    let test : Attempt → Bool =
      λ a. str_eq a.org_id org && attempt_is a.status AttemptStatus.ambiguous in
    elim-Keeps db.attempts (keep_if test (find_attempt id db)) _ _ (same db) λ a _.
      elim-Keeps db.attempts (find_message a.message_id db) _ _ (same db) λ m _.
        (enqueue_lifecycle-Keeping host.accepts host.decimal m Lifecycle.ambiguous a.attempt_number
            a.provider_status a.provider_error_code).run
          db (same db)
