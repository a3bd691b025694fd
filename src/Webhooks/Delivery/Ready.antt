-- ===== src/Webhooks/Delivery/Ready.antt =====
-- What a successful preparation leaves in the store for the transaction that records the outcome.
use signalstack_sms.Prelude.{
  ℕ, ◌+◌, String, true, false, not, Option, none, some, List, [], ◌∷◌, ◌++◌, ◌≡◌, refl, sym, inl,
  inr, arith, subst, any, leb, eq_refl, eq_iff, ◌==◌, if_case, option_case, Bool-cases, keep_if,
  keep_if-some, find_row, update_row, find_row-updated,
}
use signalstack_sms.Webhooks.Model.{
  Endpoint, Delivery, DeliveryAttempt, Store, find_delivery, find_endpoint, find_attempt,
  update_delivery, update_attempt, create_attempt, same_attempt,
}
use signalstack_sms.Webhooks.Delivery.{Claim, Prepared, claim_is_valid}
use signalstack_sms.Webhooks.Delivery.Prepare.{
  Included, lease_is_live, is_held, is_open, included, unfinished_attempt, new_attempt,
  leased_delivery, prepared_delivery, recovered_delivery, reserve_attempt, recover_attempt,
  prepare_held, prepare_claimed_delivery, delivery_endpoint,
}
use signalstack_sms.Webhooks.Delivery.Finalize.{is_current, is_reserved}
use signalstack_sms.Webhooks.Delivery.Steps.{find_delivery-key, find_delivery-own}

-- The claim is current, and the attempt that was reserved waits for its outcome.
pub record IsReady (c : Claim) (p : Prepared) (db : Store) : Type 0 where
  pub delivery : Delivery
  pub found : find_delivery c.delivery_id db ≡ some delivery
  pub current : is_current c p delivery ≡ true
  pub limit : p.max_attempts ≡ delivery.max_attempts
  pub endpoint : Endpoint
  pub reached : delivery_endpoint delivery db ≡ some endpoint
  pub attempt : DeliveryAttempt
  pub stored : find_attempt p.attempt_id db ≡ some attempt
  pub reserved : is_reserved p attempt ≡ true

abbrev pub Reserves : Claim → Option (Option Prepared × Store) → Type 0
Reserves c none = Unit
Reserves c (some (none, db)) = Unit
Reserves c (some (some p, db)) = IsReady c p db

created_attempt-found :
    (a : DeliveryAttempt) (rows : List DeliveryAttempt)
    → any (same_attempt a) rows ≡ false
    → find_row DeliveryAttempt.id a.id (rows ++ a ∷ []) ≡ some a
unfolding same_attempt find_row
created_attempt-found a [] h = rw (eq_refl a.id) refl
created_attempt-found a (b ∷ rows) h = ground (arith, created_attempt-found a rows)

-- The delivery as it was read, or with a lost attempt counted.
record IsCounted (c : Claim) (d x : Delivery) (n : ℕ) : Type 0 where
  pub held : is_held c x ≡ true
  pub count : x.attempt_count ≡ n
  pub endpoint_id : x.endpoint_id ≡ d.endpoint_id
  pub subscription_id : x.subscription_id ≡ d.subscription_id
  pub generation : x.generation ≡ d.generation
  pub max_attempts : x.max_attempts ≡ d.max_attempts

leased-is_current :
    (c : Claim) (id : String) (now : ℕ) (d x : Delivery) (i : Included) (n : ℕ)
    → IsCounted c d x n
    → is_current c (prepared_delivery id (n + 1) now d i) (leased_delivery now x) ≡ true
unfolding is_current is_held prepared_delivery leased_delivery
leased-is_current c id now d x i n h =
    ground (arith, h.held, h.count, h.generation, h.endpoint_id, eq_iff x.endpoint_id d.endpoint_id)

new_attempt-is_reserved :
    (id : String) (now n : ℕ) (d : Delivery) (i : Included)
    → is_reserved (prepared_delivery id n now d i) (new_attempt id n now d) ≡ true
unfolding is_reserved prepared_delivery new_attempt
new_attempt-is_reserved id now n d i = ground (arith, eq_refl d.org_id, eq_refl d.id)

module _ (c : Claim) (id : String) (now : ℕ) (d : Delivery) (i : Included)
    (key : d.id ≡ c.delivery_id) where
  reserve_attempt-Reserves :
      (x : Delivery) (n : ℕ) (db : Store)
      → find_delivery d.id db ≡ some x
      → x.id ≡ d.id
      → IsCounted c d x n
      → delivery_endpoint d db ≡ some i.endpoint
      → Reserves c (reserve_attempt id now d i n db)
  unfolding reserve_attempt create_attempt update_delivery find_delivery find_attempt
      delivery_endpoint find_endpoint prepared_delivery leased_delivery new_attempt
  reserve_attempt-Reserves x n db found same_id h reached =
      if_case (Reserves c) (leb d.max_attempts n) _ _ (λ _. tt)
        λ _. elim (Bool-cases (any (same_attempt (new_attempt id (n + 1) now d)) db.attempts)) [
          | inl old ↦ rw (old, Reserves) tt
          | inr new ↦
              rw (new, Reserves)
                (record {
                  delivery = leased_delivery now x;
                  found =
                      subst
                        (λ k.
                          find_row Delivery.id k
                            (update_row Delivery.id d.id (leased_delivery now) db.deliveries)
                          ≡ some (leased_delivery now x))
                        key
                        (find_row-updated Delivery.id d.id (leased_delivery now) db.deliveries x
                          found refl);
                  current = leased-is_current c id now d x i n h;
                  limit = sym h.max_attempts;
                  endpoint = i.endpoint;
                  reached = rw h.subscription_id reached;
                  attempt = new_attempt id (n + 1) now d;
                  stored = created_attempt-found (new_attempt id (n + 1) now d) db.attempts new;
                  reserved = new_attempt-is_reserved id now (n + 1) d i;
                })
        ]

  recover_attempt-Reserves :
      (a : DeliveryAttempt) (db : Store)
      → find_delivery d.id db ≡ some d
      → is_held c d ≡ true
      → delivery_endpoint d db ≡ some i.endpoint
      → Reserves c (recover_attempt id now d i a db)
  unfolding recover_attempt update_attempt update_delivery find_delivery recovered_delivery
      delivery_endpoint find_endpoint is_held
  recover_attempt-Reserves a db found held reached =
      if_case (Reserves c) (not (a.attempt_number == d.attempt_count + 1)) _ _ (λ _. tt)
        λ _.
          option_case (Reserves c) (keep_if is_open (find_attempt a.id db)) _ _ (λ _. tt)
            λ b _.
              if_case (Reserves c) (leb d.max_attempts a.attempt_number) _ _ (λ _. tt)
                λ _.
                  reserve_attempt-Reserves (recovered_delivery a.attempt_number d) a.attempt_number
                    (record db { attempts = _; deliveries = _ })
                    (find_row-updated Delivery.id d.id _ db.deliveries d found refl) refl
                    (record {
                      held = held;
                      count = refl;
                      endpoint_id = refl;
                      subscription_id = refl;
                      generation = refl;
                      max_attempts = refl;
                    })
                    reached

included-endpoint :
    (d : Delivery) (i : Included) (db : Store)
    → included d db ≡ some i
    → delivery_endpoint d db ≡ some i.endpoint
unfolding included
included-endpoint d i db e = ground arith

pub prepare_claimed_delivery-Reserves :
    (id : String) (c : Claim) (now : ℕ) (db : Store)
    → Reserves c (prepare_claimed_delivery id c now db)
unfolding prepare_claimed_delivery prepare_held
prepare_claimed_delivery-Reserves id c now db =
    if_case (Reserves c) (not (claim_is_valid c)) _ _ (λ _. tt)
      λ _.
        option_case (Reserves c) (keep_if (is_held c) (find_delivery c.delivery_id db)) _ _
          (λ _. tt)
          λ d kept.
            let (read, held) = keep_if-some (is_held c) (find_delivery c.delivery_id db) d kept in
            let key = find_delivery-key c.delivery_id db d read in
            let found = find_delivery-own c.delivery_id db d read in
            option_case (Reserves c) (included d db) _ _ (λ _. tt)
              λ i there.
                let reached = included-endpoint d i db there in
                if_case (Reserves c) (not i.endpoint.is_active) _ _ (λ _. tt)
                  λ _.
                    if_case (Reserves c) (not (lease_is_live now d.processing_expires_at)) _ _
                      (λ _. tt)
                      λ _.
                        option_case (Reserves c) (unfinished_attempt d db.attempts) _ _
                          (λ _.
                            reserve_attempt-Reserves c id now d i key d d.attempt_count db found
                              refl
                              (record {
                                held = held;
                                count = refl;
                                endpoint_id = refl;
                                subscription_id = refl;
                                generation = refl;
                                max_attempts = refl;
                              })
                              reached)
                          (λ a _. recover_attempt-Reserves c id now d i key a db found held reached)
