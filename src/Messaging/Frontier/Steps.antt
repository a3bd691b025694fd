-- ===== src/Messaging/Frontier/Steps.antt =====
-- Every transaction on direct messages advances the attempts that it finds.
use signalstack_sms.Prelude.{ℕ, String, true, ◌≡◌, arith, Evolves-refl}
use signalstack_sms.Messaging.Model.{Message, Attempt, Database, find_attempt, find_message}
use signalstack_sms.Messaging.Dispatch.{
  is_claimable, is_recoverable, claimed_attempt, recovered_attempt, claim_attempt, recover_attempt,
}
use signalstack_sms.Messaging.Frontier.Row.{Advances, Advances-refl, IsWithinBudget}
use signalstack_sms.Messaging.Frontier.Keep.{
  From, Keeps, if-Keeps, elim-Keeps, return-Keeping, >>-Keeping, update_message-Keeping,
  update_attempt-Keeps,
}

pub same : (db : Database) → From db.attempts db
same db = (Evolves-refl Advances IsWithinBudget Advances-refl db.attempts, λ u. u)

claimed-Advances :
    (a : Attempt) (m : Message) (now : ℕ) (token : String)
    → is_claimable a m now ≡ true
    → Advances a (claimed_attempt token now a)
unfolding is_claimable claimed_attempt
claimed-Advances a m now token h = ground arith

recovered-Advances :
    (a : Attempt) (m : Message) (now : ℕ)
    → is_recoverable a m now ≡ true
    → Advances a (recovered_attempt now a)
unfolding is_recoverable recovered_attempt
recovered-Advances a m now h = ground arith

pub claim_attempt-Keeps :
    (token : String) (now : ℕ) (id : String) (db : Database)
    → Keeps db.attempts (claim_attempt token now id db)
unfolding claim_attempt
claim_attempt-Keeps token now id db =
    elim-Keeps db.attempts (find_attempt id db) _ _ (same db) λ a found.
      elim-Keeps db.attempts (find_message a.message_id db) _ _ (same db) λ m _.
        if-Keeps db.attempts (is_claimable a m now) _ _
          (λ h.
            update_attempt-Keeps id _ _ db a found (claimed-Advances a m now token h)
              (>>-Keeping (update_message-Keeping _ _) (return-Keeping true)))
          (λ _. same db)

pub recover_attempt-Keeps :
    (now : ℕ) (id : String) (db : Database) → Keeps db.attempts (recover_attempt now id db)
unfolding recover_attempt
recover_attempt-Keeps now id db =
    elim-Keeps db.attempts (find_attempt id db) _ _ (same db) λ a found.
      elim-Keeps db.attempts (find_message a.message_id db) _ _ (same db) λ m _.
        if-Keeps db.attempts (is_recoverable a m now) _ _
          (λ h.
            update_attempt-Keeps id _ _ db a found (recovered-Advances a m now h)
              (>>-Keeping (update_message-Keeping _ _) (return-Keeping true)))
          (λ _. same db)
