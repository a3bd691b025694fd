-- ===== src/Messaging/Worker/Concluded.antt =====
-- What `processClaimedDirectMessageAttempt` leaves of an attempt whose provider call has been made.
use signalstack_sms.Prelude.{
  ℕ, max, String, Bool, true, false, ◌&&◌, Option, none, some, ◌≡◌, ◌⊎◌, refl, ◌∙◌, arith, any,
  Bool-cases, inl, inr, find_row-updated, any-update_row, leb, ◌==◌,
}
use signalstack_sms.Messaging.Model.{
  Message, Attempt, Event, Database, MessageStatus, AttemptStatus, Tx, find_attempt, find_message,
  update_attempt, update_message, create_attempt, clashes, find_attempt-id, require-stops,
  provider_id_is_free,
}
use signalstack_sms.Messaging.Policy.{Decision, max_time}
use signalstack_sms.Messaging.Readiness.{Environment}
use signalstack_sms.Messaging.Worker.Defs.{
  Claim, Prepared, close_attempt, closed_by, claim_is_valid, prepared_matches_claim, is_uuid_v4,
}
use signalstack_sms.Messaging.Worker.Prepare.{
  Host, Directory, PrepareResult, prepare_claimed_attempt, is_processing,
}
use signalstack_sms.Messaging.Worker.Finalize.{
  awaits_answer, successor, failed_attempt, ambiguous_attempt, record_retry, record_failed,
  record_success, record_decision, finalize_claimed_attempt, mark_persistence_ambiguous,
}
use signalstack_sms.Messaging.Worker.Recorded.{
  attempt_status_of, message_status_of, CanRecord, IsRecorded, closed-clashes,
  finalize_claimed_attempt-IsRecorded,
}
use signalstack_sms.Messaging.Worker.Process.{
  ProviderCall, Processed, ClaimOutcome, outcome_from_decision, decide_call, is_guarded, after_mark,
  after_finalize, after_decision, after_prepare, process_claimed_attempt,
}

created-stops :
    (new : Attempt) (k : Tx Bool) (db : Database)
    → any (clashes new) db.attempts ≡ true
    → elim (create_attempt new db) [ none ↦ none | some (_, db') ↦ k db' ] ≡ none
unfolding create_attempt
created-stops new k db taken = rw taken refl

-- A decision that cannot be recorded throws.
module _ (host : Host) (new_id correlation : String) (m : Message) (a : Attempt) (now : ℕ)
    (db : Database) where
  abbrev RecordsOrThrows : Decision → Type 0
  RecordsOrThrows d =
      CanRecord new_id correlation a now db d
      ⊎ (record_decision host new_id correlation m a now d db ≡ none)

  record_retry-throws :
      (code : String) (provider : Option String) (next : ℕ)
      → (leb (max next now) max_time && is_uuid_v4 correlation) ≡ true
      → any (clashes (successor new_id correlation (max next now) a)) db.attempts ≡ true
      → record_retry host new_id correlation m a code provider next now db ≡ none
  unfolding record_retry close_attempt update_attempt
  record_retry-throws code provider next in_range taken =
      let after =
        any-update_row Attempt.id a.id
          (closed_by (failed_attempt code provider "retryable" none now))
          (clashes (successor new_id correlation (max next now) a))
          (closed-clashes (successor new_id correlation (max next now) a) code provider now)
          db.attempts in
      rw in_range
        (created-stops (successor new_id correlation (max next now) a) _ _ (after ∙ taken))

  record_retry-bad :
      (code : String) (provider : Option String) (next : ℕ)
      → (leb (max next now) max_time && is_uuid_v4 correlation) ≡ false
      → record_retry host new_id correlation m a code provider next now db ≡ none
  unfolding record_retry
  record_retry-bad code provider next bad = rw bad refl

  record_decision-or : (d : Decision) → RecordsOrThrows d
  unfolding record_decision record_success record_failed
  record_decision-or (Decision.ambiguous code provider) = inl tt
  record_decision-or (Decision.failed code provider is_terminal none) = inl tt
  record_decision-or (Decision.failed code provider is_terminal (some r)) =
      elim (Bool-cases (provider_id_is_free a (some r.provider_message_id) db)) [
        | inl free ↦ inl free
        | inr taken ↦
            inr (require-stops (provider_id_is_free a (some r.provider_message_id)) _ db taken)
      ]
  record_decision-or (Decision.sent r) =
      elim (Bool-cases (provider_id_is_free a (some r.provider_message_id) db)) [
        | inl free ↦ inl free
        | inr taken ↦
            inr (require-stops (provider_id_is_free a (some r.provider_message_id)) _ db taken)
      ]
  record_decision-or (Decision.delivered r) =
      elim (Bool-cases (provider_id_is_free a (some r.provider_message_id) db)) [
        | inl free ↦ inl free
        | inr taken ↦
            inr (require-stops (provider_id_is_free a (some r.provider_message_id)) _ db taken)
      ]
  record_decision-or (Decision.retry code provider next) =
      elim (Bool-cases (leb (max next now) max_time && is_uuid_v4 correlation)) [
        | inr bad ↦ inr (record_retry-bad code provider next bad)
        | inl in_range ↦
            elim (Bool-cases
              (any (clashes (successor new_id correlation (max next now) a)) db.attempts)) [
                | inr fresh ↦ inl (in_range, fresh)
                | inl taken ↦ inr (record_retry-throws code provider next in_range taken)
              ]
      ]

-- What the processing of a claim says of a recorded decision, and of one that could not be recorded.
abbrev Told :
    String
    → String
    → Attempt
    → ℕ
    → Database
    → Decision
    → Option ClaimOutcome
    → Attempt
    → Message
    → Type 0
Told new_id correlation a now db d outcome b m =
    (CanRecord new_id correlation a now db d
      × (outcome ≡ some (outcome_from_decision d))
      × (b.status ≡ attempt_status_of d)
      × (m.application_status ≡ message_status_of d))
    ⊎ (¬ CanRecord new_id correlation a now db d
        × (outcome ≡ some ClaimOutcome.ambiguous)
        × (b.status ≡ AttemptStatus.ambiguous)
        × (b.error_code ≡ some "PROVIDER_RESULT_PERSISTENCE_UNCERTAIN")
        × (m.application_status ≡ MessageStatus.ambiguous))

-- The attempt is completed and released; if its decision can be recorded, the decision's outcome is
-- returned and both rows have its statuses, and if not, both rows are ambiguous.
pub record IsConcluded (new_id correlation : String) (a : Attempt) (now : ℕ) (db : Database)
    (d : Decision) (r : Processed) : Type 0 where
  pub attempt : Attempt
  pub message : Message
  pub attempt_found : find_attempt a.id r.1 ≡ some attempt
  pub completed : attempt.completed_at ≡ some now
  pub released : attempt.processing_token ≡ none
  pub message_found : find_message a.message_id r.1 ≡ some message
  pub told : Told new_id correlation a now db d r.0 attempt message

-- The uncertainty is on both rows.
record IsMarked (a : Attempt) (now : ℕ) (o : Option (Bool × Database)) : Type 0 where
  pub db : Database
  pub attempt : Attempt
  pub message : Message
  pub commits : o ≡ some (true, db)
  pub attempt_found : find_attempt a.id db ≡ some attempt
  pub status : attempt.status ≡ AttemptStatus.ambiguous
  pub error_code : attempt.error_code ≡ some "PROVIDER_RESULT_PERSISTENCE_UNCERTAIN"
  pub completed : attempt.completed_at ≡ some now
  pub released : attempt.processing_token ≡ none
  pub message_found : find_message a.message_id db ≡ some message
  pub message_status : message.application_status ≡ MessageStatus.ambiguous

module _ (c : Claim) (p : Prepared) (now : ℕ) (db : Database) (a : Attempt) (m : Message)
    (valid : claim_is_valid c ≡ true) (fits : prepared_matches_claim c p ≡ true)
    (found : find_attempt c.attempt_id db ≡ some a) (waits : awaits_answer c p a ≡ true)
    (m_found : find_message a.message_id db ≡ some m) (processing : is_processing m ≡ true) where
  mark-IsMarked : IsMarked a now (mark_persistence_ambiguous c p now db)
  unfolding mark_persistence_ambiguous close_attempt update_attempt update_message closed_by
      ambiguous_attempt find_attempt find_message
  mark-IsMarked =
      rw (valid, fits, found, waits, m_found, processing)
        (record {
          db = _;
          attempt =
              closed_by (ambiguous_attempt "PROVIDER_RESULT_PERSISTENCE_UNCERTAIN" none now) a;
          message = _;
          commits = refl;
          attempt_found =
              find_row-updated Attempt.id a.id
                (closed_by (ambiguous_attempt "PROVIDER_RESULT_PERSISTENCE_UNCERTAIN" none now))
                db.attempts a (find_attempt-id c.attempt_id db a found) refl;
          status = refl;
          error_code = refl;
          completed = refl;
          released = refl;
          message_found = find_row-updated Message.id a.message_id _ db.messages m m_found refl;
          message_status = refl;
        })

  module _ (host : Host) (new_id correlation : String) (d : Decision)
      (same_number : a.attempt_number ≡ p.attempt_number)
      (accepts_all : (e : Event) (db : Database) → host.accepts e db ≡ true) where
    finalize-record_decision :
        finalize_claimed_attempt host new_id correlation c p d now db
        ≡ record_decision host new_id correlation m a now d db
    unfolding finalize_claimed_attempt
    finalize-record_decision =
        let numbers : (a.attempt_number == p.attempt_number) ≡ true = ground arith in
        rw (valid, fits, found, waits, numbers, m_found, processing) refl

    abbrev Concludes : Processed → Type 0
    Concludes r = IsConcluded new_id correlation a now db d r

    recorded-Concludes :
        (o : Option (Bool × Database))
        → CanRecord new_id correlation a now db d
        → IsRecorded a d now o
        → Concludes (after_finalize host new_id correlation c p d true now db o)
    unfolding after_finalize
    recorded-Concludes o can h =
        rw (h.commits, Concludes, after_finalize)
          (record {
            attempt = h.attempt;
            message = h.message;
            attempt_found = h.attempt_found;
            completed = h.completed;
            released = h.released;
            message_found = h.message_found;
            told = inl (can, refl, h.attempt_status, h.message_status);
          })

    marked-Concludes :
        (o : Option (Bool × Database))
        → ¬ CanRecord new_id correlation a now db d
        → IsMarked a now o
        → Concludes (after_mark host new_id correlation c db o)
    unfolding after_mark
    marked-Concludes o cannot h =
        rw (h.commits, Concludes, after_mark)
          (record {
            attempt = h.attempt;
            message = h.message;
            attempt_found = h.attempt_found;
            completed = h.completed;
            released = h.released;
            message_found = h.message_found;
            told = inr (cannot, refl, h.status, h.error_code, h.message_status);
          })

    finalized :
        CanRecord new_id correlation a now db d
        → IsRecorded a d now (finalize_claimed_attempt host new_id correlation c p d now db)
    finalized =
        finalize_claimed_attempt-IsRecorded host new_id correlation c p d now db a m accepts_all
          valid fits found waits same_number m_found processing

    never-CanRecord :
        (o : Option (Bool × Database))
        → (CanRecord new_id correlation a now db d → IsRecorded a d now o)
        → o ≡ none
        → ¬ CanRecord new_id correlation a now db d
    never-CanRecord o records e can = let commits = (records can).commits in cc

    finalize-Concludes : Concludes (
        after_finalize host new_id correlation c p d true now db
          (finalize_claimed_attempt host new_id correlation c p d now db))
    unfolding after_finalize
    finalize-Concludes = elim (record_decision-or host new_id correlation m a now db d) [
      | inl can ↦
          recorded-Concludes (finalize_claimed_attempt host new_id correlation c p d now db) can
            (finalized can)
      | inr throws ↦
          let gone : finalize_claimed_attempt host new_id correlation c p d now db ≡ none =
            finalize-record_decision ∙ throws in
          rw (gone, Concludes, after_finalize)
            (marked-Concludes (mark_persistence_ambiguous c p now db)
              (never-CanRecord _ finalized gone) mark-IsMarked)
    ]

-- Where the customer events are accepted, an adapter could be made and the call led to a decision:
-- if the attempt was prepared and waits for the answer, the processing of its claim returns, and
-- leaves the attempt completed and released. If the decision can be recorded, its outcome is
-- returned and both rows have its statuses. If it cannot be (the provider's identifier is on another
-- message or attempt, or a retry's time, correlation or keys are not valid), the outcome is ambiguous
-- and both rows are ambiguous.
pub process_claimed_attempt-Concludes :
    (host : Host) (new_id correlation : String) (c : Claim) (p : Prepared) (env : Environment)
    (dir : Directory) (call : ProviderCall) (d : Decision) (started now : ℕ) (db0 db : Database)
    (a : Attempt) (m : Message)
    → ((e : Event) (db : Database) → host.accepts e db ≡ true)
    → prepare_claimed_attempt host c env dir started db0 ≡ some (PrepareResult.prepared p, db)
    → claim_is_valid c ≡ true
    → prepared_matches_claim c p ≡ true
    → find_attempt c.attempt_id db ≡ some a
    → awaits_answer c p a ≡ true
    → a.attempt_number ≡ p.attempt_number
    → find_message a.message_id db ≡ some m
    → is_processing m ≡ true
    → is_guarded host new_id correlation c call ≡ true
    → decide_call p call (some now) ≡ some d
    → IsConcluded new_id correlation a now db d
        (process_claimed_attempt host new_id correlation c env dir call started now db0)
unfolding process_claimed_attempt after_prepare after_decision
process_claimed_attempt-Concludes host new_id correlation c p env dir call d started now db0 db a m
      accepts_all prepares valid fits found waits same_number m_found processing guarded decided =
    rw (prepares, fits, decided, guarded)
      (finalize-Concludes c p now db a m valid fits found waits m_found processing host new_id
        correlation d same_number accepts_all)
