-- ===== src/Messaging/Frontier/Operator.antt =====
-- Cancelling and reviewing advance the attempts that they find.
use signalstack_sms.Prelude.{
  ℕ, String, Bool, true, false, ◌&&◌, Option, none, some, List, ◌≡◌, refl, arith, keep_if,
  keep_if-some, str_eq, if◌then◌else◌, leb, length, codes,
}
use signalstack_sms.Messaging.Model.{
  Message, Attempt, Database, MessageStatus, message_is, find_attempt, find_message, has_membership,
  message_key_is_free,
}
use signalstack_sms.Messaging.Policy.{CreateResult}
use signalstack_sms.Messaging.Worker.Prepare.{Host}
use signalstack_sms.Messaging.Worker.Finalize.{successor}
use signalstack_sms.Messaging.Cancellation.{
  is_cancellable, api_cancelled_attempt, cancel_attempt, cancel_direct_message, current_attempt,
}
use signalstack_sms.Messaging.Review.Defs.{
  Reviewed, done, finished, in_org, can_attest, attested_attempt, attest_not_sent, can_retry,
  retry_attested, reconciled_attempt, apply_reconciliation, can_reconcile, enqueue_reconciliation,
  review_actor_is_valid, identifier_is_valid,
}
use signalstack_sms.Messaging.Frontier.Row.{Advances, IsWithinBudget}
use signalstack_sms.Messaging.Frontier.Keep.{
  From, Keeps, if-Keeps, elim-Keeps, return-Keeping, >>-Keeping, update_message-Keeping,
  create_attempt-Keeping, enqueue-Keeping, audit-Keeping, update_attempt-Keeps, require-Keeps,
}
use signalstack_sms.Messaging.Frontier.Steps.{same}
use signalstack_sms.Messaging.Model.{find_attempt-id}

api_cancelled-Advances :
    (m : Message) (a : Attempt) (now : ℕ)
    → is_cancellable m a ≡ true
    → Advances a (api_cancelled_attempt now a)
unfolding is_cancellable api_cancelled_attempt
api_cancelled-Advances m a now h = ground arith

pub cancel_direct_message-Keeps :
    (host : Host) (org id : String) (now : ℕ) (db : Database)
    → Keeps db.attempts (cancel_direct_message host org id now db)
unfolding cancel_direct_message cancel_attempt
cancel_direct_message-Keeps host org id now db =
    elim-Keeps db.attempts (keep_if (λ m. str_eq m.org_id org) (find_message id db)) _ _ (same db)
      λ m _.
        if-Keeps db.attempts (message_is m.application_status MessageStatus.cancelled) _ _
          (λ _. same db)
          (λ _.
            elim-Keeps db.attempts (current_attempt org id db.attempts) _ _ (same db) λ snapshot _.
              let test = λ (a : Attempt). str_eq a.org_id org && str_eq a.message_id id in
              elim-Keeps db.attempts (keep_if test (find_attempt snapshot.id db)) _ _ (same db)
                λ a kept.
                  let found =
                    find_attempt-id snapshot.id db a
                      (keep_if-some test (find_attempt snapshot.id db) a kept).0 in
                  if-Keeps db.attempts (is_cancellable m a) _ _
                    (λ h.
                      update_attempt-Keeps a.id _ _ db a found (api_cancelled-Advances m a now h) (
                        >>-Keeping (update_message-Keeping _ _)
                          (>>-Keeping (enqueue-Keeping _ _ _) (return-Keeping _))))
                    (λ _. same db))

-- A review that is done has kept the attempts.
abbrev pub ReviewKeeps : List Attempt → Reviewed → Type 0
ReviewKeeps base (done db) = From base db
ReviewKeeps base _ = Unit

finished-ReviewKeeps :
    (base : List Attempt) (o : Option (Unit {0} × Database))
    → Keeps base o
    → ReviewKeeps base (finished o)
finished-ReviewKeeps base none h = tt
finished-ReviewKeeps base (some (_, db)) h = h

if-ReviewKeeps :
    (base : List Attempt) (b : Bool) (x y : Reviewed)
    → (b ≡ true → ReviewKeeps base x)
    → ReviewKeeps base y
    → ReviewKeeps base (if b then x else y)
if-ReviewKeeps base true x y h k = h refl
if-ReviewKeeps base false x y h k = k

elim-ReviewKeeps :
    (base : List Attempt) (o : Option (Message × Attempt)) (n : Reviewed)
    (f : Message → Attempt → Reviewed)
    → ReviewKeeps base n
    → ((m : Message) (a : Attempt) → o ≡ some (m, a) → ReviewKeeps base (f m a))
    → ReviewKeeps base (elim o [ none ↦ n | some (m, a) ↦ f m a ])
elim-ReviewKeeps base none n f h k = h
elim-ReviewKeeps base (some (m, a)) n f h k = k m a refl

pub in_org-find :
    (org id : String) (db : Database) (m : Message) (a : Attempt)
    → in_org org id db ≡ some (m, a)
    → find_attempt id db ≡ some a
unfolding in_org
in_org-find org id db m a e = ground arith

reconciled-Advances :
    (host : Host) (event_key : List String → String) (m : Message) (a : Attempt) (r : CreateResult)
    (actor note : String) (now : ℕ)
    → can_reconcile host event_key m a r ≡ true
    → Advances a (reconciled_attempt host event_key r actor note now a)
unfolding can_reconcile reconciled_attempt
reconciled-Advances host event_key m a r actor note now h = ground arith

attested-Advances :
    (m : Message) (a : Attempt) (db : Database) (actor reason : String) (now : ℕ)
    → can_attest m a db ≡ true
    → Advances a (attested_attempt actor reason now a)
unfolding can_attest attested_attempt
attested-Advances m a db actor reason now h = ground arith

pub attest_not_sent-ReviewKeeps :
    (org id actor reason : String) (now : ℕ) (db : Database)
    → ReviewKeeps db.attempts (attest_not_sent org id actor reason now db)
unfolding attest_not_sent
attest_not_sent-ReviewKeeps org id actor reason now db =
    if-ReviewKeeps db.attempts
      (review_actor_is_valid org id actor
        && (leb 10 (length (codes reason)) && leb (length (codes reason)) 500))
      _ _
      (λ _. elim-ReviewKeeps db.attempts (in_org org id db) _ _ tt λ m a found.
        if-ReviewKeeps db.attempts (can_attest m a db) _ _
          (λ h. finished-ReviewKeeps db.attempts _ (
            require-Keeps db.attempts (has_membership org actor) _ db (
              update_attempt-Keeps id _ _ db a (in_org-find org id db m a found)
                (attested-Advances m a db actor reason now h) (audit-Keeping _ _ _ _))))
          tt)
      tt

retry-IsWithinBudget :
    (m : Message) (a : Attempt) (db : Database) (id correlation : String) (now : ℕ)
    → can_retry m a db ≡ true
    → IsWithinBudget (successor id correlation now a)
unfolding can_retry successor
retry-IsWithinBudget m a db id correlation now h = ground arith

module _ (host : Host) (event_key : List String → String) where
  pub retry_attested-ReviewKeeps :
      (org id actor new_id correlation : String) (now : ℕ) (db : Database)
      → ReviewKeeps db.attempts
          (retry_attested host event_key org id actor new_id correlation now db)
  unfolding retry_attested
  retry_attested-ReviewKeeps org id actor new_id correlation now db =
      if-ReviewKeeps db.attempts
        (review_actor_is_valid org id actor
          && (identifier_is_valid new_id && identifier_is_valid correlation))
        _ _
        (λ _. elim-ReviewKeeps db.attempts (in_org org id db) _ _ tt λ m a found.
          if-ReviewKeeps db.attempts (can_retry m a db) _ _
            (λ h. finished-ReviewKeeps db.attempts _ (
              (>>-Keeping
                  (create_attempt-Keeping _ (retry-IsWithinBudget m a db new_id correlation now h))
                  (>>-Keeping (update_message-Keeping _ _)
                    (>>-Keeping (enqueue-Keeping _ _ _) (audit-Keeping _ _ _ _)))).run
                db (same db)))
            tt)
        tt

  pub apply_reconciliation-ReviewKeeps :
      (org id actor note : String) (r : CreateResult) (current : Bool) (now : ℕ) (db : Database)
      → ReviewKeeps db.attempts
          (apply_reconciliation host event_key org id actor note r current now db)
  unfolding apply_reconciliation enqueue_reconciliation
  apply_reconciliation-ReviewKeeps org id actor note r current now db =
      if-ReviewKeeps db.attempts (review_actor_is_valid org id actor) _ _
        (λ _. elim-ReviewKeeps db.attempts (in_org org id db) _ _ tt λ m a found.
          if-ReviewKeeps db.attempts (current && can_reconcile host event_key m a r) _ _
            (λ h. finished-ReviewKeeps db.attempts _ (
              require-Keeps db.attempts
                (λ db'.
                  has_membership org actor db'
                  && message_key_is_free a (some r.provider_message_id) db')
                _ db
                (update_attempt-Keeps id _ _ db a (in_org-find org id db m a found)
                  (reconciled-Advances host event_key m a r actor note now (ground arith))
                  (>>-Keeping (update_message-Keeping _ _) (
                    >>-Keeping (>>-Keeping (enqueue-Keeping _ _ _) (enqueue-Keeping _ _ _))
                      (audit-Keeping _ _ _ _))))))
            tt)
        tt
