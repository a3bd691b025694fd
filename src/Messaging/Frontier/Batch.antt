-- ===== src/Messaging/Frontier/Batch.antt =====
-- A whole pass of the worker is a run of committed steps.
use signalstack_sms.Prelude.{
  ℕ, String, Bool, Option, none, some, List, [], ◌∷◌, ◌≡◌, refl, if_case, map, length,
  if◌then◌else◌,
}
use signalstack_sms.Messaging.Model.{Database, Tx, find_attempt}
use signalstack_sms.Messaging.Dispatch.{claim_attempt, recover_attempt, each_row}
use signalstack_sms.Messaging.Readiness.{Environment, Readiness, direct_message_worker_readiness}
use signalstack_sms.Messaging.Worker.Defs.{Claim}
use signalstack_sms.Messaging.Worker.Prepare.{Host}
use signalstack_sms.Messaging.Worker.Batch.{
  Turn, Counts, WorkerRunResult, no_counts, org_of, claim_of, recovery_is_authorized,
  record_recovered, left, record_all, process_all, process_claims, after_dispatch, after_recover,
  after_recovery, process_due,
}
use signalstack_sms.Messaging.Frontier.Trace.{Step, Run}
use signalstack_sms.Messaging.Frontier.Process.{process_claimed_attempt-Run}

module _ (host : Host) (event_key : List String → String) where
  Run-append :
      (db db1 db2 : Database)
      → Run host event_key db db1
      → Run host event_key db1 db2
      → Run host event_key db db2
  Run-append db db1 db2 run Run.start = run
  Run-append db db1 db2 run (Run.then_step {db1 = mid} rest step) =
      Run.then_step (Run-append db db1 mid run rest) step

  module _ (start : Database) where
    abbrev RunsTo : Database → Type 0
    RunsTo db = Run host event_key start db

    abbrev RunsOut : Option (List String × Database) → Type 0
    RunsOut none = Unit
    RunsOut (some (ids, db)) = RunsTo db

    last-RunsOut :
        (f : List String → List String) (o : Option (List String × Database))
        → RunsOut o
        → RunsOut (elim o [ none ↦ none | some (rest, db) ↦ some (f rest, db) ])
    last-RunsOut f none h = tt
    last-RunsOut f (some (rest, db)) h = h

    module _ (step : String → Tx Bool)
        (steps : (id : String) (hit : Bool) (db db' : Database)
          → step id db ≡ some (hit, db')
          → Step host event_key db db') where
      each_row-RunsOut :
          (ids : List String) (db : Database) → RunsTo db → RunsOut (each_row step ids db)
      unfolding each_row
      each_row-RunsOut [] db run = run
      each_row-RunsOut (id ∷ ids) db run =
          row (step id db) refl (λ db' later. each_row-RunsOut ids db' later)
        where
          row :
              (o : Option (Bool × Database))
              → step id db ≡ o
              → ((db' : Database) → RunsTo db' → RunsOut (each_row step ids db'))
              → RunsOut (elim o [
                | none ↦ none
                | some (hit, db') ↦ elim (each_row step ids db') [
                  | none ↦ none
                  | some (rest, db'') ↦ some (if hit then id ∷ rest else rest, db'')
                ]
              ])
          row none e rest = tt
          row (some (hit, db')) e others =
              last-RunsOut (λ rest. if hit then id ∷ rest else rest) (each_row step ids db')
                (others db' (Run.then_step run (steps id hit db db' e)))

    left-RunsTo :
        (org id : String) (db : Database) (o : Option (Unit {0} × Database))
        → RunsTo db
        → record_recovered host org id db ≡ o
        → RunsTo (left host db o)
    unfolding left
    left-RunsTo org id db none run e = run
    left-RunsTo org id db (some (_, db')) run e = Run.then_step run (Step.record_event org id e)

    record_all-RunsTo :
        (ids : List String) (db : Database) → RunsTo db → RunsTo (record_all host ids db)
    unfolding record_all
    record_all-RunsTo [] db run = run
    record_all-RunsTo (id ∷ ids) db run =
        record_all-RunsTo ids _ (left-RunsTo (org_of (find_attempt id db)) id db _ run refl)

    process_all-RunsTo :
        (env : Environment) (turn : String → Turn) (claims : List Claim) (n : Counts)
        (db : Database)
        → RunsTo db
        → RunsTo (process_all host env turn claims n db).1
    unfolding process_all
    process_all-RunsTo env turn [] n db run = run
    process_all-RunsTo env turn (c ∷ claims) n db run = process_all-RunsTo env turn claims _ _ (
        Run-append start db _ run (
          process_claimed_attempt-Run host event_key (turn c.attempt_id).new_id
            (turn c.attempt_id).correlation c env (turn c.attempt_id).directory
            (turn c.attempt_id).call (turn c.attempt_id).now (turn c.attempt_id).later db))

    claims-RunsTo :
        (env : Environment) (turn : String → Turn) (token : String) (n : ℕ) (ids : List String)
        (db : Database)
        → RunsTo db
        → RunsTo (process_claims host env turn token n ids db).1
    unfolding process_claims
    claims-RunsTo env turn token n ids db run =
        process_all-RunsTo env turn (map (claim_of token db) ids) no_counts db run

    after_dispatch-RunsTo :
        (env : Environment) (turn : String → Turn) (token : String) (n : ℕ) (db : Database)
        (o : Option (List String × Database))
        → RunsTo db
        → RunsOut o
        → RunsTo (after_dispatch host env turn token n db o).1
    unfolding after_dispatch
    after_dispatch-RunsTo env turn token n db none run h = run
    after_dispatch-RunsTo env turn token n db (some (ids, db')) run h =
        claims-RunsTo env turn token n ids db' h

    after_recovery-RunsTo :
        (env : Environment) (ready : Readiness) (turn : String → Turn) (token : String) (now : ℕ)
        (picked : List String) (n : ℕ) (db : Database)
        → RunsTo db
        → RunsTo (after_recovery host env ready turn token now picked n db).1
    unfolding after_recovery
    after_recovery-RunsTo env (Readiness.refused reason) turn token now picked n db run = run
    after_recovery-RunsTo env (Readiness.allowed t) turn token now picked n db run =
        after_dispatch-RunsTo env turn token n db (each_row (claim_attempt token now) picked db) run
          (each_row-RunsOut (claim_attempt token now)
            (λ id hit db1 db2 e. Step.claim token now id hit e) picked db run)

    after_recover-RunsTo :
        (env : Environment) (ready : Readiness) (turn : String → Turn) (token : String) (now : ℕ)
        (due : List String) (db : Database) (o : Option (List String × Database))
        → RunsTo db
        → RunsOut o
        → RunsTo (after_recover host env ready turn token now due db o).1
    unfolding after_recover
    after_recover-RunsTo env ready turn token now due db none run h = run
    after_recover-RunsTo env ready turn token now due db (some (ids, db')) run h =
        after_recovery-RunsTo env ready turn token now due (length ids) (record_all host ids db')
          (record_all-RunsTo ids db' h)

-- A whole pass of the worker (recovery, the events of what was recovered, the dispatch and every
-- claim, whatever the provider answers and wherever it throws) leaves the database as a run of
-- committed steps does.
pub process_due-Run :
    (host : Host) (event_key : List String → String) (env : Environment) (turn : String → Turn)
    (token : String) (now : ℕ) (expired due : List String) (db : Database)
    → Run host event_key db (process_due host env turn token now expired due db).1
unfolding process_due
process_due-Run host event_key env turn token now expired due db =
    let ready : Readiness =
      direct_message_worker_readiness host.lower_case host.valid_https_origin host.valid_master_key
        env in
    if_case (λ (r : Option WorkerRunResult × Database). Run host event_key db r.1)
      (recovery_is_authorized ready) _ _
      (λ _.
        after_recover-RunsTo host event_key db env ready turn token now due db
          (each_row (recover_attempt now) expired db) Run.start
          (each_row-RunsOut host event_key db (recover_attempt now)
            (λ id hit db1 db2 e. Step.recover now id hit e) expired db Run.start))
      (λ _. Run.start)
