-- ===== src/Messaging/Review/Once.antt =====
-- An attested attempt is retried once.
use signalstack_sms.Prelude.{
  ℕ, ◌+◌, String, Bool, true, false, ◌&&◌, Option, none, some, List, [], ◌∷◌, ◌++◌, ◌≡◌, ◌≢◌, refl,
  subst, ◌∙◌, arith, any, if_case, Evolves, str_eq, eq_refl, if◌then◌else◌,
}
use signalstack_sms.Messaging.Model.{
  Message, Attempt, Database, Tx, ◌>>◌, find_attempt, create_attempt, update_message, clashes,
  option_eq,
}
use signalstack_sms.Messaging.Worker.Prepare.{Host}
use signalstack_sms.Messaging.Worker.Finalize.{successor}
use signalstack_sms.Messaging.Review.Defs.{
  Reviewed, done, refused, not_found, conflict, finished, in_org, has_retry, can_retry,
  retry_attested, rescheduled_message, retry_event, audit, review_actor_is_valid,
  identifier_is_valid,
}
use signalstack_sms.Messaging.Worker.Defs.{enqueue}
use signalstack_sms.Messaging.Frontier.Row.{Advances, IsWithinBudget}
use signalstack_sms.Messaging.Frontier.Keep.{
  From, Keeping, Keeps, >>-Keeping, update_message-Keeping, enqueue-Keeping, audit-Keeping,
}
use signalstack_sms.Messaging.Frontier.Steps.{same}
use signalstack_sms.Messaging.Frontier.Operator.{
  in_org-find, ReviewKeeps, retry_attested-ReviewKeeps,
}
use signalstack_sms.Messaging.Frontier.Trace.{Run, Run-Advances, Run-From, find_attempt-From}

links : Attempt → Attempt → Bool
links a b = str_eq b.message_id a.message_id && option_eq b.retry_of_attempt_id (some a.id)

has_retry-Evolves :
    (a : Attempt) (rows rows' : List Attempt)
    → Evolves Advances IsWithinBudget rows rows'
    → has_retry a rows ≡ true
    → has_retry a rows' ≡ true
unfolding has_retry
has_retry-Evolves a [] rows' h e = cc
has_retry-Evolves a (b ∷ rows) [] h e = absurd h
has_retry-Evolves a (b ∷ rows) (c ∷ rows') (adv, h) e =
    ground (arith, adv.message_id, adv.retry_of, has_retry-Evolves a rows rows' h)

has_retry-advanced :
    (a b : Attempt) (rows : List Attempt) → Advances a b → has_retry b rows ≡ has_retry a rows
unfolding has_retry
has_retry-advanced a b rows h = rw (h.id, h.message_id)

has_retry-append :
    (a : Attempt) (id correlation : String) (now : ℕ) (rows : List Attempt)
    → has_retry a (rows ++ successor id correlation now a ∷ []) ≡ true
unfolding has_retry successor
has_retry-append a id correlation now [] = rw (eq_refl a.message_id, eq_refl a.id)
has_retry-append a id correlation now (b ∷ rows) =
    ground (arith, has_retry-append a id correlation now rows)

-- A retry that is done has found its attempt, and its table is one with the successor, advanced.
record HasRetried (id : String) (db db' : Database) : Type 0 where
  pub attempt : Attempt
  pub new_id : String
  pub correlation : String
  pub at : ℕ
  pub found : find_attempt id db ≡ some attempt
  pub evolved :
      Evolves Advances IsWithinBudget
        (db.attempts ++ successor new_id correlation at attempt ∷ [])
        db'.attempts

abbrev Retried : String → Database → Reviewed → Type 0
Retried id db (done db') = HasRetried id db db'
Retried id db _ = Unit

finished-Retried :
    (id : String) (db : Database) (o : Option (Unit {0} × Database)) (a : Attempt)
    (new_id correlation : String) (now : ℕ)
    → find_attempt id db ≡ some a
    → Keeps (db.attempts ++ successor new_id correlation now a ∷ []) o
    → Retried id db (finished o)
finished-Retried id db none a new_id correlation now e h = tt
finished-Retried id db (some (_, db')) a new_id correlation now e h = record {
  attempt = a;
  new_id = new_id;
  correlation = correlation;
  at = now;
  found = e;
  evolved = h.0;
}

create_attempt-Keeps :
    (a : Attempt) (k : Tx (Unit {0})) (db : Database)
    → Keeping (db.attempts ++ a ∷ []) k
    → Keeps (db.attempts ++ a ∷ []) ((create_attempt a >> k) db)
unfolding create_attempt
create_attempt-Keeps a k db h = created (any (clashes a) db.attempts)
  where
    appended : Bool → Option (Unit {0} × Database)
    appended b = if b then none else some (tt, record db { attempts = db.attempts ++ a ∷ [] })

    created :
        (b : Bool)
        → Keeps (db.attempts ++ a ∷ []) (elim (appended b) [ none ↦ none | some (_, db') ↦ k db' ])
    created true = tt
    created false = h.run _ (same (record db { attempts = db.attempts ++ a ∷ [] }))

module _ (host : Host) (event_key : List String → String) where
  retry_attested-Retried :
      (org id actor new_id correlation : String) (now : ℕ) (db : Database)
      → Retried id db (retry_attested host event_key org id actor new_id correlation now db)
  unfolding retry_attested
  retry_attested-Retried org id actor new_id correlation now db =
      if_case (Retried id db)
        (review_actor_is_valid org id actor
          && (identifier_is_valid new_id && identifier_is_valid correlation))
        _ _ (λ _. at_read (in_org org id db) refl) (λ _. tt)
    where
      at_test :
          (m : Message) (a : Attempt) (b : Bool) (o : Option (Unit {0} × Database)) (e : _)
          → find_attempt id db ≡ some a
          → Keeps (db.attempts ++ successor new_id correlation now a ∷ []) o
          → Retried id db (if b then finished o else refused e)
      at_test m a true o e found kept = finished-Retried id db o a new_id correlation now found kept
      at_test m a false o e found kept = tt

      at_read :
          (r : Option (Message × Attempt))
          → in_org org id db ≡ r
          → Retried id db (elim r [
            | none ↦ refused not_found
            | some (m, a) ↦
                if can_retry m a db
                then finished (
                    (do
                      create_attempt (successor new_id correlation now a)
                      update_message a.message_id (rescheduled_message now (a.attempt_number + 1))
                      enqueue host.accepts host.decimal (retry_event host event_key m a new_id)
                      audit org actor "MESSAGE_ATTEMPT_RETRY_CREATED" id)
                      db)
                else refused conflict
          ])
      at_read none e = tt
      at_read (some (m, a)) e = at_test m a (can_retry m a db) _ _ (in_org-find org id db m a e) (
          create_attempt-Keeps (successor new_id correlation now a) _ db (
            >>-Keeping (update_message-Keeping _ _)
              (>>-Keeping (enqueue-Keeping _ _ _) (audit-Keeping _ _ _ _))))

  -- A retry is refused where the attempt already has one.
  has_retry-not_done :
      (org id actor new_id correlation : String) (now : ℕ) (db db' : Database) (a : Attempt)
      → find_attempt id db ≡ some a
      → has_retry a db.attempts ≡ true
      → retry_attested host event_key org id actor new_id correlation now db ≢ done db'
  unfolding retry_attested can_retry in_org
  has_retry-not_done org id actor new_id correlation now db db' a found old = λ e. ground arith

  -- An attested attempt is retried at most once: after a retry that is done and any run of committed
  -- transactions, no further retry of the same attempt is done, by whatever operator and with
  -- whatever identifiers.
  pub retry_attested-once :
      (db db1 db2 db3 : Database)
      (org org' id actor actor' new_id new_id' correlation correlation' : String) (now later : ℕ)
      → retry_attested host event_key org id actor new_id correlation now db ≡ done db1
      → Run host event_key db1 db2
      → retry_attested host event_key org' id actor' new_id' correlation' later db2 ≢ done db3
  retry_attested-once db db1 db2 db3 org org' id actor actor' new_id new_id' correlation
        correlation' now later e run =
      let step : HasRetried id db db1 =
        subst (Retried id db) e (retry_attested-Retried org id actor new_id correlation now db) in
      let kept : From db.attempts db1 =
        subst (ReviewKeeps db.attempts) e
          (retry_attested-ReviewKeeps host event_key org id actor new_id correlation now db) in
      let (b, b_found, b_adv) = find_attempt-From id db db1 step.attempt kept step.found in
      let (c, c_found, c_adv) = Run-Advances host event_key id b run b_found in
      let linked : has_retry step.attempt db2.attempts ≡ true =
        has_retry-Evolves step.attempt db1.attempts db2.attempts ((Run-From host event_key run).0) (
          has_retry-Evolves step.attempt _ db1.attempts step.evolved
            (has_retry-append step.attempt step.new_id step.correlation step.at db.attempts)) in
      has_retry-not_done org' id actor' new_id' correlation' later db2 db3 c c_found (
        has_retry-advanced b c db2.attempts c_adv
        ∙ has_retry-advanced step.attempt b db2.attempts b_adv
        ∙ linked)
