-- ===== src/Messaging/Frontier/Trace.antt =====
-- Runs: any sequence of transactions on direct messages, by any number of workers, users and
-- operators, in any order. A transaction that throws is no step, since it is rolled back.
use signalstack_sms.Prelude.{
  ℕ, ◌+◌, ◌&&◌, String, Bool, Option, none, some, List, ◌≡◌, if_case, option_case, arith, ltb, ◌≤◌,
  Evolves-trans, Evolves-All, Evolves-find_row, All, subst, sym,
}
use signalstack_sms.Messaging.Model.{Attempt, Membership, Database, find_attempt}
use signalstack_sms.Messaging.Policy.{
  Decision, CreateResult, ErrorClassification, direct_message_max_attempts, decide_create_result,
  decide_create_error, decide_retry, is_ambiguous, is_retryable_disposition,
  attempt_number_is_valid, is_delivered_status, is_terminal_failure_status, normalize_safe_code,
  normalize_provider_code, retry_delay_ms,
}
use signalstack_sms.Messaging.Dispatch.{claim_attempt, recover_attempt}
use signalstack_sms.Messaging.Readiness.{Environment}
use signalstack_sms.Messaging.Worker.Defs.{Claim, Prepared}
use signalstack_sms.Messaging.Worker.Prepare.{
  Host, Directory, PrepareResult, prepare_claimed_attempt,
}
use signalstack_sms.Messaging.Worker.Finalize.{finalize_claimed_attempt, mark_persistence_ambiguous}
use signalstack_sms.Messaging.Worker.Process.{
  ProviderCall, no_adapter, answered, raised, decide_call, create_result_matches_prepared,
}
use signalstack_sms.Messaging.Worker.Batch.{record_recovered}
use signalstack_sms.Messaging.Cancellation.{CancelResult, cancel_direct_message}
use signalstack_sms.Messaging.Review.Defs.{
  done, attest_not_sent, retry_attested, apply_reconciliation,
}
use signalstack_sms.Messaging.Frontier.Unique.{IsUnique, count_of, count_of_le}
use signalstack_sms.Messaging.Frontier.Row.{
  Advances, Advances-trans, IsWithinBudget, Advances-IsWithinBudget,
}
use signalstack_sms.Messaging.Frontier.Keep.{From, Keeps}
use signalstack_sms.Messaging.Frontier.Steps.{same, claim_attempt-Keeps, recover_attempt-Keeps}
use signalstack_sms.Messaging.Frontier.Worker.{
  IsAffordable, prepare_claimed_attempt-Keeps, finalize_claimed_attempt-Keeps,
  mark_persistence_ambiguous-Keeps, record_recovered-Keeps,
}
use signalstack_sms.Messaging.Frontier.Operator.{
  ReviewKeeps, cancel_direct_message-Keeps, attest_not_sent-ReviewKeeps, retry_attested-ReviewKeeps,
  apply_reconciliation-ReviewKeeps,
}

-- One transaction that commits.
pub data Step (host : Host) (event_key : List String → String) (db db' : Database) : Type 0 where
  claim :
      (token : String) (now : ℕ) (id : String) (hit : Bool)
      → claim_attempt token now id db ≡ some (hit, db')
      → Step host event_key db db'
  recover :
      (now : ℕ) (id : String) (hit : Bool)
      → recover_attempt now id db ≡ some (hit, db')
      → Step host event_key db db'
  prepare :
      (c : Claim) (env : Environment) (dir : Directory) (now : ℕ) (r : PrepareResult)
      → prepare_claimed_attempt host c env dir now db ≡ some (r, db')
      → Step host event_key db db'
  finalize :
      (new_id correlation : String) (c : Claim) (p : Prepared) (call : ProviderCall) (t : Option ℕ)
      (d : Decision) (now : ℕ) (hit : Bool)
      → decide_call p call t ≡ some d
      → finalize_claimed_attempt host new_id correlation c p d now db ≡ some (hit, db')
      → Step host event_key db db'
  mark :
      (c : Claim) (p : Prepared) (now : ℕ) (hit : Bool)
      → mark_persistence_ambiguous c p now db ≡ some (hit, db')
      → Step host event_key db db'
  record_event :
      (org id : String)
      → record_recovered host org id db ≡ some (tt, db')
      → Step host event_key db db'
  cancel :
      (org id : String) (now : ℕ) (r : CancelResult)
      → cancel_direct_message host org id now db ≡ some (r, db')
      → Step host event_key db db'
  attest :
      (org id actor reason : String) (now : ℕ)
      → attest_not_sent org id actor reason now db ≡ done db'
      → Step host event_key db db'
  retry :
      (org id actor new_id correlation : String) (now : ℕ)
      → retry_attested host event_key org id actor new_id correlation now db ≡ done db'
      → Step host event_key db db'
  reconcile :
      (org id actor note : String) (r : CreateResult) (current : Bool) (now : ℕ)
      → apply_reconciliation host event_key org id actor note r current now db ≡ done db'
      → Step host event_key db db'
  -- Memberships come and go by transactions that write no table of messages.
  admit :
      (rows : List Membership) → db' ≡ record db { memberships = rows } → Step host event_key db db'

-- A run of transactions.
pub data Run (host : Host) (event_key : List String → String) (db : Database)
    : Database → Type 0 where
  start : Run host event_key db db
  then_step :
      {db1 db2 : Database}
      → Run host event_key db db1
      → Step host event_key db1 db2
      → Run host event_key db db2

abbrev Affords : ℕ → Option Decision → Type 0
Affords n none = Unit
Affords n (some d) = IsAffordable n d

decide_retry-Affords : (e : ErrorClassification) (n now : ℕ) → Affords n (decide_retry e n now)
unfolding decide_retry
decide_retry-Affords e n now =
    if_case (Affords n) (ltb n direct_message_max_attempts) _ _
      (λ h.
        option_case (Affords n) (retry_delay_ms n) none
          (λ delay. some (
            Decision.retry (normalize_safe_code e.safe_code)
              (normalize_provider_code e.provider_code) (now + delay)))
          (λ _. tt) (λ delay _. ground arith))
      (λ _. tt)

decide_create_error-Affords :
    (e : ErrorClassification) (n : ℕ) (t : Option ℕ) → Affords n (decide_create_error e n t)
unfolding decide_create_error
decide_create_error-Affords e n none = tt
decide_create_error-Affords e n (some now) =
    if_case (Affords n) (attempt_number_is_valid n) _ _
      (λ _.
        if_case (Affords n) (is_ambiguous e.disposition) _ _ (λ _. tt)
          (λ _.
            if_case (Affords n) (is_retryable_disposition e.disposition && e.is_retryable) _ _
              (λ _. decide_retry-Affords e n now) (λ _. tt)))
      (λ _. tt)

decide_create_result-Affords :
    (r : CreateResult) (n : ℕ) → Affords n (some (decide_create_result r))
unfolding decide_create_result
decide_create_result-Affords r n =
    if_case (λ d. Affords n (some d)) (is_delivered_status r.status) _ _ (λ _. tt)
      (λ _.
        if_case (λ d. Affords n (some d)) (is_terminal_failure_status r.status) _ _ (λ _. tt)
          (λ _. tt))

decide_call-Affords :
    (p : Prepared) (call : ProviderCall) (t : Option ℕ)
    → Affords p.attempt_number (decide_call p call t)
unfolding decide_call
decide_call-Affords p no_adapter t = tt
decide_call-Affords p (answered r) t =
    if_case (Affords p.attempt_number) (create_result_matches_prepared r p) _ _
      (λ _. decide_create_result-Affords r p.attempt_number) (λ _. tt)
decide_call-Affords p (raised e) t = decide_create_error-Affords e p.attempt_number t

decide_call-IsAffordable :
    (p : Prepared) (call : ProviderCall) (t : Option ℕ) (d : Decision)
    → decide_call p call t ≡ some d
    → IsAffordable p.attempt_number d
decide_call-IsAffordable p call t d e =
    subst (Affords p.attempt_number) e (decide_call-Affords p call t)

pub find_attempt-From :
    (id : String) (db db' : Database) (a : Attempt)
    → From db.attempts db'
    → find_attempt id db ≡ some a
    → (b : Attempt) × (find_attempt id db' ≡ some b) × Advances a b
unfolding find_attempt
find_attempt-From id db db' a h e =
    Evolves-find_row Attempt.id Advances IsWithinBudget (λ x y adv. adv.id) id db.attempts
      db'.attempts a h.0 e

module _ (host : Host) (event_key : List String → String) where
  Step-From : (db db' : Database) → Step host event_key db db' → From db.attempts db'
  Step-From db db' (Step.claim token now id hit e) =
      subst (Keeps db.attempts) e (claim_attempt-Keeps token now id db)
  Step-From db db' (Step.recover now id hit e) =
      subst (Keeps db.attempts) e (recover_attempt-Keeps now id db)
  Step-From db db' (Step.prepare c env dir now r e) =
      subst (Keeps db.attempts) e (prepare_claimed_attempt-Keeps host c env dir now db)
  Step-From db db' (Step.finalize new_id correlation c p call t d now hit decided e) =
      subst (Keeps db.attempts) e (
        finalize_claimed_attempt-Keeps host new_id correlation c p d now db
          (decide_call-IsAffordable p call t d decided))
  Step-From db db' (Step.mark c p now hit e) =
      subst (Keeps db.attempts) e (mark_persistence_ambiguous-Keeps c p now db)
  Step-From db db' (Step.record_event org id e) =
      subst (Keeps db.attempts) e (record_recovered-Keeps host org id db)
  Step-From db db' (Step.cancel org id now r e) =
      subst (Keeps db.attempts) e (cancel_direct_message-Keeps host org id now db)
  Step-From db db' (Step.attest org id actor reason now e) =
      subst (ReviewKeeps db.attempts) e (attest_not_sent-ReviewKeeps org id actor reason now db)
  Step-From db db' (Step.retry org id actor new_id correlation now e) =
      subst (ReviewKeeps db.attempts) e
        (retry_attested-ReviewKeeps host event_key org id actor new_id correlation now db)
  Step-From db db' (Step.reconcile org id actor note r current now e) =
      subst (ReviewKeeps db.attempts) e
        (apply_reconciliation-ReviewKeeps host event_key org id actor note r current now db)
  Step-From db db' (Step.admit rows e) =
      subst (From db.attempts) (sym e) (same (record db { memberships = rows }))

  pub Run-From : {db db' : Database} → Run host event_key db db' → From db.attempts db'
  Run-From {db} start = same db
  Run-From {db} {db'} (then_step {db1} run step) =
      let (evolved, unique) = Run-From run in
      let (evolves, keeps_unique) = Step-From db1 db' step in
      (
        Evolves-trans Advances IsWithinBudget Advances-trans Advances-IsWithinBudget db.attempts
            db1.attempts db'.attempts evolved evolves,
        λ u. keeps_unique (unique u),
      )

  -- In a run of committed transactions from a database in which every attempt's number is between 1
  -- and the maximum of three, every attempt's number stays so.
  pub Run-IsWithinBudget :
      {db db' : Database}
      → Run host event_key db db'
      → All IsWithinBudget db.attempts
      → All IsWithinBudget db'.attempts
  Run-IsWithinBudget {db} {db'} run h =
      Evolves-All Advances IsWithinBudget Advances-trans Advances-IsWithinBudget db.attempts
        db'.attempts ((Run-From run).0) h

  -- If no message has more than one attempt of one number, and every number is between 1 and three,
  -- then after any run of committed transactions each message still has at most three attempts.
  pub Run-at_most_three :
      {db db' : Database} (message_id : String)
      → Run host event_key db db'
      → IsUnique db.attempts
      → All IsWithinBudget db.attempts
      → count_of message_id db'.attempts ≤ direct_message_max_attempts
  Run-at_most_three {db'} message_id run unique budget =
      count_of_le message_id db'.attempts ((Run-From run).1 unique) (Run-IsWithinBudget run budget)

  -- An attempt that is in the database is in it after any run of committed transactions, and it has
  -- advanced: its key, number, predecessor, recipient, body, media and fingerprint are the same; the
  -- start of its provider call and its completion, once set, are kept; a closed attempt is closed,
  -- and one that succeeded, failed, was cancelled or was resolved as not sent keeps that status.
  pub Run-Advances :
      {db db' : Database} (id : String) (a : Attempt)
      → Run host event_key db db'
      → find_attempt id db ≡ some a
      → (b : Attempt) × (find_attempt id db' ≡ some b) × Advances a b
  unfolding find_attempt
  Run-Advances {db} {db'} id a run e =
      Evolves-find_row Attempt.id Advances IsWithinBudget (λ x y h. h.id) id db.attempts
        db'.attempts a ((Run-From run).0) e
