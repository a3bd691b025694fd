-- ===== src/Messaging/Frontier/Once.antt =====
-- What the advance of rows gives: a call begins once, a closed attempt stays out of the workers'
-- hands, and a late answer changes nothing.
use signalstack_sms.Prelude.{
  ℕ, String, true, false, Option, none, some, List, ◌≡◌, ◌≢◌, refl, arith, subst, sym,
  if◌then◌else◌, is_some, eq_iff, ap, ◌∙◌,
}
use signalstack_sms.Messaging.Model.{
  Attempt, Database, Transport, twilio, is_dummy, find_attempt, option_eq,
}
use signalstack_sms.Messaging.Policy.{Decision}
use signalstack_sms.Messaging.Readiness.{Environment}
use signalstack_sms.Messaging.Worker.Defs.{Claim, Prepared, claim_is_valid, prepared_matches_claim}
use signalstack_sms.Messaging.Worker.Prepare.{
  Host, Directory, PrepareResult, holds_claim, recipient_is_blocked, started_attempt,
  prepare_claimed_attempt,
}
use signalstack_sms.Messaging.Worker.Finalize.{awaits_answer, finalize_claimed_attempt}
use signalstack_sms.Messaging.Worker.Authority.{IsLive, prepare_claimed_attempt-IsAuthorized}
use signalstack_sms.Messaging.Frontier.Row.{is_closed}
use signalstack_sms.Messaging.Frontier.Trace.{Run, Run-Advances}

prepare_claimed_attempt-skipped :
    (host : Host) (c : Claim) (env : Environment) (dir : Directory) (now : ℕ) (db : Database)
    (a : Attempt)
    → claim_is_valid c ≡ true
    → find_attempt c.attempt_id db ≡ some a
    → holds_claim c a ≡ false
    → prepare_claimed_attempt host c env dir now db ≡ some (PrepareResult.skipped, db)
unfolding prepare_claimed_attempt
prepare_claimed_attempt-skipped host c env dir now db a valid found held = rw (valid, found, held)

begun-unclaimed :
    (c : Claim) (a : Attempt) → is_some a.provider_call_started_at ≡ true → holds_claim c a ≡ false
unfolding holds_claim
begun-unclaimed c a h = ground arith

closed-unclaimed : (c : Claim) (a : Attempt) → is_closed a.status ≡ true → holds_claim c a ≡ false
unfolding holds_claim
closed-unclaimed c a h = ground arith

started_attempt-is_some :
    (s : _) (now : ℕ) (a : Attempt)
    → is_some (started_attempt s now a).provider_call_started_at ≡ true
unfolding started_attempt
started_attempt-is_some s now a = refl

is_dummy-false : (t u : Transport) → t ≡ twilio → t ≡ u → is_dummy u ≡ false
is_dummy-false t u e h = cc (e, h)

module _ (host : Host) (event_key : List String → String) where
  -- An attempt whose provider call has begun is not prepared by any later run's worker: with a valid
  -- claim, the transaction skips it and writes nothing.
  pub begun-skipped :
      {db db' : Database} (a : Attempt) (c : Claim) (env : Environment) (dir : Directory) (now : ℕ)
      → Run host event_key db db'
      → find_attempt c.attempt_id db ≡ some a
      → is_some a.provider_call_started_at ≡ true
      → claim_is_valid c ≡ true
      → prepare_claimed_attempt host c env dir now db' ≡ some (PrepareResult.skipped, db')
  begun-skipped {db'} a c env dir now run found begun valid =
      let (b, later, adv) = Run-Advances host event_key c.attempt_id a run found in
      prepare_claimed_attempt-skipped host c env dir now db' b valid later
        (begun-unclaimed c b (ap is_some (adv.started begun) ∙ begun))

  -- An attempt that is completed (it succeeded, failed, was cancelled, is ambiguous or was resolved
  -- as not sent) is not prepared by any later run's worker: with a valid claim, the transaction skips
  -- it and writes nothing.
  pub closed-skipped :
      {db db' : Database} (a : Attempt) (c : Claim) (env : Environment) (dir : Directory) (now : ℕ)
      → Run host event_key db db'
      → find_attempt c.attempt_id db ≡ some a
      → is_closed a.status ≡ true
      → claim_is_valid c ≡ true
      → prepare_claimed_attempt host c env dir now db' ≡ some (PrepareResult.skipped, db')
  closed-skipped {db'} a c env dir now run found closed valid =
      let (b, later, adv) = Run-Advances host event_key c.attempt_id a run found in
      prepare_claimed_attempt-skipped host c env dir now db' b valid later
        (closed-unclaimed c b (adv.closed closed))

  -- If a transaction prepares an attempt for the live provider, then after any run of committed
  -- transactions no worker prepares it again: with a valid claim on the attempt, by whatever token,
  -- environment and time, the transaction skips it and writes nothing.
  pub prepare_claimed_attempt-once :
      (db db1 db2 : Database) (c1 c2 : Claim) (env1 env2 : Environment) (dir1 dir2 : Directory)
      (now1 now2 : ℕ) (p : Prepared)
      → prepare_claimed_attempt host c1 env1 dir1 now1 db ≡ some (PrepareResult.prepared p, db1)
      → p.transport ≡ twilio
      → Run host event_key db1 db2
      → p.attempt_id ≡ c2.attempt_id
      → claim_is_valid c2 ≡ true
      → prepare_claimed_attempt host c2 env2 dir2 now2 db2 ≡ some (PrepareResult.skipped, db2)
  prepare_claimed_attempt-once db db1 db2 c1 c2 env1 env2 dir1 dir2 now1 now2 p e live run id
        valid =
      let auth = prepare_claimed_attempt-IsAuthorized host c1 env1 dir1 now1 db db1 p e in
      let goes : IsLive host env1 now1 auth.contact auth.org auth.attempt db1 =
        subst
          (λ b.
            if b
            then (recipient_is_blocked auth.contact ≡ false) × (db1 ≡ db)
            else IsLive host env1 now1 auth.contact auth.org auth.attempt db1)
          (is_dummy-false p.transport auth.attempt.transport live auth.transport) auth.cleared in
      begun-skipped (started_attempt goes.secret now1 auth.attempt) c2 env2 dir2 now2 run
        (subst (λ k. find_attempt k db1 ≡ some (started_attempt goes.secret now1 auth.attempt))
          (sym auth.attempt_id ∙ id) goes.begun)
        (started_attempt-is_some goes.secret now1 auth.attempt) valid

finalize_claimed_attempt-ignored :
    (host : Host) (new_id correlation : String) (c : Claim) (p : Prepared) (d : Decision) (now : ℕ)
    (db : Database) (a : Attempt)
    → claim_is_valid c ≡ true
    → prepared_matches_claim c p ≡ true
    → find_attempt c.attempt_id db ≡ some a
    → awaits_answer c p a ≡ false
    → finalize_claimed_attempt host new_id correlation c p d now db ≡ some (false, db)
unfolding finalize_claimed_attempt
finalize_claimed_attempt-ignored host new_id correlation c p d now db a valid fits found waits =
    rw (valid, fits, found, waits)

option_eq-false : (o : Option String) (s : String) → o ≢ some s → option_eq o (some s) ≡ false
option_eq-false none s h = refl
option_eq-false (some r) s h = ground (arith, eq_iff r s)

reclaimed-awaits_answer :
    (c : Claim) (p : Prepared) (a : Attempt)
    → a.processing_token ≢ some c.processing_token
    → awaits_answer c p a ≡ false
unfolding awaits_answer
reclaimed-awaits_answer c p a h =
    ground (arith, option_eq-false a.processing_token c.processing_token h)

closed-awaits_answer :
    (c : Claim) (p : Prepared) (a : Attempt)
    → is_closed a.status ≡ true
    → awaits_answer c p a ≡ false
unfolding awaits_answer
closed-awaits_answer c p a h = ground arith

-- The answer to a claim that the attempt no longer carries (its lease ran out and another worker has
-- claimed it, or nobody has) is not recorded: the transaction says so and writes nothing.
pub finalize_claimed_attempt-reclaimed :
    (host : Host) (new_id correlation : String) (c : Claim) (p : Prepared) (d : Decision) (now : ℕ)
    (db : Database) (a : Attempt)
    → claim_is_valid c ≡ true
    → prepared_matches_claim c p ≡ true
    → find_attempt c.attempt_id db ≡ some a
    → a.processing_token ≢ some c.processing_token
    → finalize_claimed_attempt host new_id correlation c p d now db ≡ some (false, db)
finalize_claimed_attempt-reclaimed host new_id correlation c p d now db a valid fits found other =
    finalize_claimed_attempt-ignored host new_id correlation c p d now db a valid fits found
      (reclaimed-awaits_answer c p a other)

-- An answer is recorded once: when the attempt has been closed, then after any run of committed
-- transactions a further answer under a valid claim changes nothing.
pub finalize_claimed_attempt-once :
    (host : Host) (event_key : List String → String) {db db' : Database}
    (new_id correlation : String) (c : Claim) (p : Prepared) (d : Decision) (now : ℕ) (a : Attempt)
    → Run host event_key db db'
    → find_attempt c.attempt_id db ≡ some a
    → is_closed a.status ≡ true
    → claim_is_valid c ≡ true
    → prepared_matches_claim c p ≡ true
    → finalize_claimed_attempt host new_id correlation c p d now db' ≡ some (false, db')
finalize_claimed_attempt-once host event_key {db'} new_id correlation c p d now a run found closed
      valid fits =
    let (b, later, adv) = Run-Advances host event_key c.attempt_id a run found in
    finalize_claimed_attempt-ignored host new_id correlation c p d now db' b valid fits later
      (closed-awaits_answer c p b (adv.closed closed))
