-- ===== src/Messaging/Review/Laws.antt =====
-- The review of ambiguous attempts: attesting that nothing was sent opens the way to one retry.
use signalstack_sms.Prelude.{
  ℕ, String, true, false, ◌&&◌, some, List, [], ◌∷◌, ◌++◌, ◌≡◌, refl, ap, ◌∙◌, arith, str_eq,
  update_row, find_row-updated, any-update_row, leb, ltb, length, codes,
}
use signalstack_sms.Messaging.Model.{
  Message, Attempt, Database, MessageStatus, message_is, option_eq, find_attempt, find_message,
  update_attempt, require-then, has_membership,
}
use signalstack_sms.Messaging.Policy.{direct_message_max_attempts}
use signalstack_sms.Messaging.Review.Defs.{
  done, finished, in_org, has_retry, has_later, can_attest, attested_attempt, attest_not_sent,
  can_retry, audit, shows_can_retry, review_actor_is_valid, shows_can_attest,
}

-- Every attempt that can be retried is shown as such, and so is every attempt that can be attested.
pub can_retry-shows_can_retry :
    (m : Message) (a : Attempt) (db : Database)
    → (can_retry m a db ≡ true → shows_can_retry m a db ≡ true)
      × (can_attest m a db ≡ true → shows_can_attest m a ≡ true)
unfolding can_retry shows_can_retry can_attest shows_can_attest
can_retry-shows_can_retry m a db = (λ h. ground arith, λ h. ground arith)

module _ (org id actor reason : String) (now : ℕ) where
  attested-db : Database → Database
  attested-db db = record db {
    attempts = update_row Attempt.id id (attested_attempt actor reason now) db.attempts;
    audits =
        db.audits
        ++ record {
          org_id = org;
          actor_user_id = actor;
          action = "MESSAGE_ATTEMPT_ATTESTED_NOT_SENT";
          subject_id = id;
        }
          ∷ [];
  }

  attest_not_sent-done :
      (db : Database) (m : Message) (a : Attempt)
      → review_actor_is_valid org id actor ≡ true
      → has_membership org actor db ≡ true
      → (leb 10 (length (codes reason)) && leb (length (codes reason)) 500) ≡ true
      → in_org org id db ≡ some (m, a)
      → can_attest m a db ≡ true
      → attest_not_sent org id actor reason now db ≡ done (attested-db db)
  unfolding attest_not_sent attested-db update_attempt audit
  attest_not_sent-done db m a valid member size found ok =
      rw (valid, size, found, ok)
        (ap finished (require-then (has_membership org actor) _ db member))

  attested-same_links :
      (b : Attempt) (a : Attempt)
      → (str_eq (attested_attempt actor reason now a).message_id b.message_id
          && option_eq (attested_attempt actor reason now a).retry_of_attempt_id (some b.id))
        ≡ (str_eq a.message_id b.message_id && option_eq a.retry_of_attempt_id (some b.id))
  unfolding attested_attempt
  attested-same_links b a = refl

  attested-same_order :
      (b : Attempt) (a : Attempt)
      → (str_eq (attested_attempt actor reason now a).org_id b.org_id
          && str_eq (attested_attempt actor reason now a).message_id b.message_id
          && ltb b.attempt_number (attested_attempt actor reason now a).attempt_number)
        ≡ (str_eq a.org_id b.org_id
            && str_eq a.message_id b.message_id
            && ltb b.attempt_number a.attempt_number)
  unfolding attested_attempt
  attested-same_order b a = refl

  attested-has_retry :
      (a : Attempt) (rows : List Attempt)
      → has_retry
          (attested_attempt actor reason now a)
          (update_row Attempt.id id (attested_attempt actor reason now) rows)
        ≡ has_retry a rows
  unfolding has_retry attested_attempt
  attested-has_retry a rows =
      any-update_row Attempt.id id (attested_attempt actor reason now)
        (λ b. str_eq b.message_id a.message_id && option_eq b.retry_of_attempt_id (some a.id))
        (attested-same_links a) rows

  attested-has_later :
      (a : Attempt) (rows : List Attempt)
      → has_later
          (attested_attempt actor reason now a)
          (update_row Attempt.id id (attested_attempt actor reason now) rows)
        ≡ has_later a rows
  unfolding has_later attested_attempt
  attested-has_later a rows =
      any-update_row Attempt.id id (attested_attempt actor reason now)
        (λ b.
          str_eq b.org_id a.org_id
          && str_eq b.message_id a.message_id
          && ltb a.attempt_number b.attempt_number)
        (attested-same_order a) rows

  attested-can_retry :
      (db : Database) (m : Message) (a : Attempt)
      → can_attest m a db ≡ true
      → message_is m.application_status MessageStatus.ambiguous ≡ true
      → ltb a.attempt_number direct_message_max_attempts ≡ true
      → has_later a db.attempts ≡ false
      → can_retry m (attested_attempt actor reason now a) (attested-db db) ≡ true
  unfolding can_retry can_attest attested-db attested_attempt
  attested-can_retry db m a ok unsure early last = ground (
    arith,
    ok,
    unsure,
    early,
    last,
    attested-has_retry a db.attempts,
    attested-has_later a db.attempts,
  )

  attested-find :
      (db : Database) (a : Attempt)
      → find_attempt id db ≡ some a
      → find_attempt id (attested-db db) ≡ some (attested_attempt actor reason now a)
  unfolding find_attempt attested-db attested_attempt
  attested-find db a e =
      find_row-updated Attempt.id id (attested_attempt actor reason now) db.attempts a e refl

  attested-find_message :
      (db : Database) (a : Attempt)
      → find_message (attested_attempt actor reason now a).message_id (attested-db db)
        ≡ find_message a.message_id db
  unfolding find_message attested-db attested_attempt
  attested-find_message db a = refl

  attested-org : (a : Attempt) → (attested_attempt actor reason now a).org_id ≡ a.org_id
  unfolding attested_attempt
  attested-org a = refl

  in_org-parts :
      (db : Database) (m : Message) (a : Attempt)
      → in_org org id db ≡ some (m, a)
      → (find_attempt id db ≡ some a)
        × (str_eq a.org_id org ≡ true)
        × (find_message a.message_id db ≡ some m)
  unfolding in_org
  in_org-parts db m a e = (ground arith, ground arith, ground arith)

  in_org-whole :
      (db : Database) (m : Message) (a : Attempt)
      → find_attempt id db ≡ some a
      → str_eq a.org_id org ≡ true
      → find_message a.message_id db ≡ some m
      → in_org org id db ≡ some (m, a)
  unfolding in_org
  in_org-whole db m a h k l = ground arith

  attested-in_org :
      (db : Database) (m : Message) (a : Attempt)
      → in_org org id db ≡ some (m, a)
      → in_org org id (attested-db db) ≡ some (m, attested_attempt actor reason now a)
  attested-in_org db m a e =
      let (found, owned, m_found) = in_org-parts db m a e in
      in_org-whole (attested-db db) m (attested_attempt actor reason now a)
        (attested-find db a found) (ap (λ o. str_eq o org) (attested-org a) ∙ owned)
        (attested-find_message db a ∙ m_found)

  -- Where an ambiguous attempt of an ambiguous message may be attested as not sent, by a member of
  -- the organization, with valid identifiers and a reason of 10 to 500 characters, the attestation
  -- is done, and afterwards the attempt may be retried if its
  -- number is below the maximum and it is the message's last.
  pub attest_not_sent-can_retry :
      (db : Database) (m : Message) (a : Attempt)
      → review_actor_is_valid org id actor ≡ true
      → has_membership org actor db ≡ true
      → (leb 10 (length (codes reason)) && leb (length (codes reason)) 500) ≡ true
      → in_org org id db ≡ some (m, a)
      → can_attest m a db ≡ true
      → message_is m.application_status MessageStatus.ambiguous ≡ true
      → ltb a.attempt_number direct_message_max_attempts ≡ true
      → has_later a db.attempts ≡ false
      → (db' : Database) × (b : Attempt) × (attest_not_sent org id actor reason now db ≡ done db')
        × (in_org org id db' ≡ some (m, b))
        × (can_retry m b db' ≡ true)
  attest_not_sent-can_retry db m a valid member size found ok unsure early last = (
    attested-db db,
    attested_attempt actor reason now a,
    attest_not_sent-done db m a valid member size found ok,
    attested-in_org db m a found,
    attested-can_retry db m a ok unsure early last,
  )
