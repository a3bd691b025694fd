-- ===== src/Messaging/Frontier/Process.antt =====
-- Processing a claim is a run of committed transactions.
use signalstack_sms.Prelude.{
  ℕ, String, Bool, true, false, Option, none, some, List, ◌≡◌, refl, if_case,
}
use signalstack_sms.Messaging.Model.{Database}
use signalstack_sms.Messaging.Policy.{Decision}
use signalstack_sms.Messaging.Readiness.{Environment}
use signalstack_sms.Messaging.Worker.Defs.{Claim, Prepared, prepared_matches_claim}
use signalstack_sms.Messaging.Worker.Prepare.{
  Host, Directory, PrepareResult, prepare_claimed_attempt,
}
use signalstack_sms.Messaging.Worker.Finalize.{finalize_claimed_attempt, mark_persistence_ambiguous}
use signalstack_sms.Messaging.Worker.Process.{
  ProviderCall, Processed, decide_call, after_mark, after_finalize, after_decision, after_prepare,
  is_guarded, process_claimed_attempt,
}
use signalstack_sms.Messaging.Frontier.Trace.{Step, Run}

module _ (host : Host) (event_key : List String → String) (new_id correlation : String) (c : Claim)
    (start : Database) where
  abbrev RunsTo : Database → Type 0
  RunsTo db = Run host event_key start db

  after_mark-RunsTo :
      (p : Prepared) (now : ℕ) (db : Database) (o : Option (Bool × Database))
      → RunsTo db
      → mark_persistence_ambiguous c p now db ≡ o
      → RunsTo (after_mark host new_id correlation c db o).1
  unfolding after_mark
  after_mark-RunsTo p now db none run e = run
  after_mark-RunsTo p now db (some (true, db')) run e = Run.then_step run (Step.mark c p now true e)
  after_mark-RunsTo p now db (some (false, db')) run e =
      Run.then_step run (Step.mark c p now false e)

  after_finalize-RunsTo :
      (p : Prepared) (call : ProviderCall) (d : Decision) (guarded : Bool) (now : ℕ) (db : Database)
      (o : Option (Bool × Database))
      → RunsTo db
      → decide_call p call (some now) ≡ some d
      → finalize_claimed_attempt host new_id correlation c p d now db ≡ o
      → RunsTo (after_finalize host new_id correlation c p d guarded now db o).1
  unfolding after_finalize
  after_finalize-RunsTo p call d guarded now db (some (true, db')) run decided e =
      Run.then_step run (Step.finalize new_id correlation c p call (some now) d now true decided e)
  after_finalize-RunsTo p call d guarded now db (some (false, db')) run decided e =
      Run.then_step run (Step.finalize new_id correlation c p call (some now) d now false decided e)
  after_finalize-RunsTo p call d true now db none run decided e =
      after_mark-RunsTo p now db (mark_persistence_ambiguous c p now db) run refl
  after_finalize-RunsTo p call d false now db none run decided e = run

  after_decision-RunsTo :
      (p : Prepared) (call : ProviderCall) (now : ℕ) (db : Database) (o : Option Decision)
      → RunsTo db
      → decide_call p call (some now) ≡ o
      → RunsTo (after_decision host new_id correlation c p call now db o).1
  unfolding after_decision
  after_decision-RunsTo p call now db none run e = run
  after_decision-RunsTo p call now db (some d) run e =
      after_finalize-RunsTo p call d (is_guarded host new_id correlation c call) now db
        (finalize_claimed_attempt host new_id correlation c p d now db) run e refl

  after_prepare-RunsTo :
      (env : Environment) (dir : Directory) (call : ProviderCall) (now later : ℕ)
      (o : Option (PrepareResult × Database))
      → prepare_claimed_attempt host c env dir now start ≡ o
      → RunsTo (after_prepare host new_id correlation c call later start o).1
  unfolding after_prepare
  after_prepare-RunsTo env dir call now later none e = Run.start
  after_prepare-RunsTo env dir call now later (some (PrepareResult.cancelled, db)) e =
      Run.then_step Run.start (Step.prepare c env dir now PrepareResult.cancelled e)
  after_prepare-RunsTo env dir call now later (some (PrepareResult.skipped, db)) e =
      Run.then_step Run.start (Step.prepare c env dir now PrepareResult.skipped e)
  after_prepare-RunsTo env dir call now later (some (PrepareResult.prepared p, db)) e =
      let run = Run.then_step Run.start (Step.prepare c env dir now (PrepareResult.prepared p) e) in
      if_case (λ (r : Processed). RunsTo r.1) (prepared_matches_claim c p) _ _
        (λ _. after_decision-RunsTo p call later db (decide_call p call (some later)) run refl)
        (λ _. run)

-- Whatever the provider's call gives, and wherever the processing of a claim throws, the database is
-- left as a run of committed transactions leaves it.
pub process_claimed_attempt-Run :
    (host : Host) (event_key : List String → String) (new_id correlation : String) (c : Claim)
    (env : Environment) (dir : Directory) (call : ProviderCall) (now later : ℕ) (db : Database)
    → Run host event_key db
        (process_claimed_attempt host new_id correlation c env dir call now later db).1
unfolding process_claimed_attempt
process_claimed_attempt-Run host event_key new_id correlation c env dir call now later db =
    after_prepare-RunsTo host event_key new_id correlation c db env dir call now later
      (prepare_claimed_attempt host c env dir now db) refl
