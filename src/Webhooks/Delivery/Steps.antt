-- ===== src/Webhooks/Delivery/Steps.antt =====
-- Every transaction on the deliveries keeps the attempts that have an outcome and the deliveries
-- that have ended.
use signalstack_sms.Prelude.{
  ℕ, ◌+◌, String, true, false, not, some, ◌≡◌, refl, sym, inl, inr, arith, subst, any, leb, ◌==◌,
  if_case, option_case, Bool-cases, keep_if, keep_if-some, Evolves-map, find_row, find_row-key,
  find_row-updated,
}
use signalstack_sms.Webhooks.Model.{
  Delivery, DeliveryAttempt, Store, find_delivery, find_attempt, update_delivery, update_attempt,
  create_attempt, same_attempt,
}
use signalstack_sms.Webhooks.Delivery.{Claim, claim_is_valid}
use signalstack_sms.Webhooks.Delivery.Prepare.{
  Included, lease_is_live, is_held, is_open, included, unfinished_attempt, new_attempt,
  leased_delivery, lost_attempt, exhausted_delivery, recovered_delivery, close_attempt,
  reserve_attempt, recover_attempt, prepare_held, prepare_claimed_delivery,
}
use signalstack_sms.Webhooks.Delivery.Dispatch.{
  is_due, abandoned_attempt, given_up, is_stranded, claimed_delivery, claim_delivery,
  give_up_disabled,
}
use signalstack_sms.Webhooks.Delivery.Rows.{
  is_terminal, Progresses, Keeps, Any, same, From-trans, Holds, Holds-From, update_delivery-Holds,
  update_attempt-Holds, appended-From,
}

pub find_delivery-key :
    (id : String) (db : Store) (d : Delivery) → find_delivery id db ≡ some d → d.id ≡ id
unfolding find_delivery
find_delivery-key id db d e = find_row-key Delivery.id id db.deliveries d e

pub find_delivery-own :
    (id : String) (db : Store) (d : Delivery)
    → find_delivery id db ≡ some d
    → find_delivery d.id db ≡ some d
find_delivery-own id db d e =
    subst (λ k. find_delivery k db ≡ some d) (sym (find_delivery-key id db d e)) e

pub find_attempt-own :
    (id : String) (db : Store) (a : DeliveryAttempt)
    → find_attempt id db ≡ some a
    → find_attempt a.id db ≡ some a
unfolding find_attempt
find_attempt-own id db a e =
    subst (λ k. find_row DeliveryAttempt.id k db.attempts ≡ some a)
      (sym (find_row-key DeliveryAttempt.id id db.attempts a e)) e

pub is_held-live : (c : Claim) (d : Delivery) → is_held c d ≡ true → is_terminal d.status ≡ false
unfolding is_held
is_held-live c d h = ground arith

claimed-Progresses :
    (token : String) (lease now : ℕ) (db : Store) (d : Delivery)
    → is_due now db d ≡ true
    → Progresses d (claimed_delivery token lease now d)
unfolding is_due claimed_delivery
claimed-Progresses token lease now db d h = ground arith

pub claim_delivery-Holds :
    (token : String) (lease now : ℕ) (id : String) (db : Store)
    → Holds db (claim_delivery token lease now id db)
unfolding claim_delivery update_delivery
claim_delivery-Holds token lease now id db =
    option_case (Holds db) (find_delivery id db) _ _ (λ _. same db)
      λ d found.
        if_case (Holds db) (is_due now db d) _ _
          (λ h. update_delivery-Holds db id _ d found (claimed-Progresses token lease now db d h))
          (λ _. same db)

given_up-Progresses : (now : ℕ) (db : Store) (d : Delivery) → Progresses d (given_up now db d)
unfolding given_up is_stranded
given_up-Progresses now db d = ground arith

abandoned-Keeps :
    (now : ℕ) (db : Store) (a : DeliveryAttempt) → Keeps a (abandoned_attempt now db a)
unfolding abandoned_attempt close_attempt
abandoned-Keeps now db a = ground arith

pub give_up_disabled-Holds : (now : ℕ) (db : Store) → Holds db (give_up_disabled now db)
unfolding give_up_disabled
give_up_disabled-Holds now db = record {
  deliveries = Evolves-map Progresses Any _ (given_up-Progresses now db) db.deliveries;
  attempts = Evolves-map Keeps Any _ (abandoned-Keeps now db) db.attempts;
}

leased-Progresses :
    (now : ℕ) (d : Delivery) → is_terminal d.status ≡ false → Progresses d (leased_delivery now d)
unfolding leased_delivery
leased-Progresses now d h = ground arith

reserve_attempt-Holds :
    (id : String) (now : ℕ) (d x : Delivery) (i : Included) (n : ℕ) (db : Store)
    → find_delivery d.id db ≡ some x
    → is_terminal x.status ≡ false
    → Holds db (reserve_attempt id now d i n db)
unfolding reserve_attempt create_attempt update_delivery find_delivery
reserve_attempt-Holds id now d x i n db found live =
    if_case (Holds db) (leb d.max_attempts n) _ _ (λ _. same db)
      λ _. elim (Bool-cases (any (same_attempt (new_attempt id (n + 1) now d)) db.attempts)) [
        | inl old ↦ rw (old, Holds) tt
        | inr new ↦
            rw (new, Holds)
              (From-trans (appended-From db (new_attempt id (n + 1) now d))
                (update_delivery-Holds _ d.id _ x found (leased-Progresses now x live)))
      ]

module _ (now : ℕ) (a : DeliveryAttempt) where
  lost-Keeps : is_open a ≡ true → Keeps a (lost_attempt now a)
  unfolding lost_attempt close_attempt
  lost-Keeps h = ground arith

module _ (d : Delivery) (n : ℕ) where
  exhausted-Progresses :
      (now : ℕ)
      → d.attempt_count + 1 ≡ n
      → is_terminal d.status ≡ false
      → Progresses d (exhausted_delivery n now d)
  unfolding exhausted_delivery
  exhausted-Progresses now h live = ground arith

  recovered-Progresses :
      d.attempt_count + 1 ≡ n → is_terminal d.status ≡ false → Progresses d (recovered_delivery n d)
  unfolding recovered_delivery
  recovered-Progresses h live = ground arith

recover_attempt-Holds :
    (id : String) (now : ℕ) (d : Delivery) (i : Included) (a : DeliveryAttempt) (db : Store)
    → find_delivery d.id db ≡ some d
    → is_terminal d.status ≡ false
    → Holds db (recover_attempt id now d i a db)
unfolding recover_attempt update_attempt update_delivery find_delivery recovered_delivery
recover_attempt-Holds id now d i a db found live =
    if_case (Holds db) (not (a.attempt_number == d.attempt_count + 1)) _ _ (λ _. tt)
      λ follows.
        option_case (Holds db) (keep_if is_open (find_attempt a.id db)) _ _ (λ _. tt)
          λ b kept.
            let (read, unclosed) = keep_if-some is_open (find_attempt a.id db) b kept in
            let closed =
              update_attempt-Holds db a.id (lost_attempt now) b read (lost-Keeps now b unclosed) in
            if_case (Holds db) (leb d.max_attempts a.attempt_number) _ _
              (λ _. From-trans closed (
                update_delivery-Holds _ d.id _ d found
                  (exhausted-Progresses d a.attempt_number now (ground arith) live)))
              (λ _.
                Holds-From (reserve_attempt id now d i a.attempt_number _)
                  (From-trans closed (
                    update_delivery-Holds _ d.id _ d found
                      (recovered-Progresses d a.attempt_number (ground arith) live)))
                  (reserve_attempt-Holds id now d (recovered_delivery a.attempt_number d) i
                    a.attempt_number _
                    (find_row-updated Delivery.id d.id _ db.deliveries d found refl) live))

pub prepare_claimed_delivery-Holds :
    (id : String) (c : Claim) (now : ℕ) (db : Store)
    → Holds db (prepare_claimed_delivery id c now db)
unfolding prepare_claimed_delivery prepare_held
prepare_claimed_delivery-Holds id c now db =
    if_case (Holds db) (not (claim_is_valid c)) _ _ (λ _. tt)
      λ _.
        option_case (Holds db) (keep_if (is_held c) (find_delivery c.delivery_id db)) _ _
          (λ _. same db)
          λ d kept.
            let (read, held) = keep_if-some (is_held c) (find_delivery c.delivery_id db) d kept in
            let found = find_delivery-own c.delivery_id db d read in
            let live = is_held-live c d held in
            option_case (Holds db) (included d db) _ _ (λ _. tt)
              λ i _.
                if_case (Holds db) (not i.endpoint.is_active) _ _ (λ _. same db)
                  λ _.
                    if_case (Holds db) (not (lease_is_live now d.processing_expires_at)) _ _
                      (λ _. same db)
                      λ _.
                        option_case (Holds db) (unfinished_attempt d db.attempts) _ _
                          (λ _. reserve_attempt-Holds id now d d i d.attempt_count db found live)
                          (λ a _. recover_attempt-Holds id now d i a db found live)
