-- ===== src/Webhooks/Delivery/Progress.antt =====
-- Recording an outcome makes progress: the delivery ends, or waits with an attempt less to make.
use signalstack_sms.Prelude.{
  ℕ, ◌+◌, ◌*◌, String, Bool, true, false, not, ◌&&◌, ◌||◌, Option, none, some, List, ◌≡◌, ◌⊎◌, refl,
  sym, inl, inr, arith, ◌∙◌, ap, subst, leb, if_case, option_case, find_row, update_row,
  find_row-key, find_row-updated, Evolves-find_row,
}
use signalstack_sms.Webhooks.Policy.{Decision, Outcome}
use signalstack_sms.Webhooks.Model.{
  DeliveryStatus, Endpoint, Delivery, DeliveryAttempt, Store, return, find_delivery, find_attempt,
  update_delivery, update_endpoint,
}
use signalstack_sms.Webhooks.Delivery.{Prepared, Evidence}
use signalstack_sms.Webhooks.Delivery.Prepare.{is_open}
use signalstack_sms.Webhooks.Delivery.Finalize.{
  suppressed_delivery, delivered_delivery, retried_delivery, failed_delivery, disable_endpoint,
  fail_delivery, deliver, settle, is_delivered, is_disable, retry_delay,
  auto_disable_terminal_failures,
}
use signalstack_sms.Webhooks.Delivery.Rows.{is_terminal, Progresses, Keeps, Any, From, Ends}
use signalstack_sms.Webhooks.Delivery.Steps.{find_delivery-own}
use signalstack_sms.Webhooks.Delivery.Outcomes.{disable_endpoint-Ends}

-- A delivery waits for its next attempt as a decision to try again says.
pub record IsWaiting (q : Decision) (now : ℕ) (d : Delivery) : Type 0 where
  pub pending : d.status ≡ DeliveryStatus.pending
  pub decided : q.outcome ≡ Outcome.retry
  pub delay : ℕ
  pub delayed : q.retry_delay_seconds ≡ some delay
  pub due : d.next_attempt_at ≡ now + delay * 1000

-- The attempt is counted and closed, the lease is given back, and the delivery has ended or waits.
pub record IsSettled (id : String) (p : Prepared) (q : Decision) (now : ℕ) (delivery : Delivery)
    (db : Store) : Type 0 where
  pub found : find_delivery id db ≡ some delivery
  pub counted : delivery.attempt_count ≡ p.attempt_number
  pub limit : delivery.max_attempts ≡ p.max_attempts
  pub released : delivery.processing_token ≡ none
  pub progress : (is_terminal delivery.status ≡ true) ⊎ IsWaiting q now delivery
  pub attempt : DeliveryAttempt
  pub stored : find_attempt p.attempt_id db ≡ some attempt
  pub closed : is_open attempt ≡ false

abbrev pub Settles : String → Prepared → Decision → ℕ → Option (Bool × Store) → Type 0
Settles id p q now none = ⊥
Settles id p q now (some (finalized, db)) =
    (finalized ≡ true) × (d : Delivery) × IsSettled id p q now d db

ended-later :
    (id : String) (db db' : Store) (d : Delivery)
    → From db db'
    → find_delivery id db ≡ some d
    → is_terminal d.status ≡ true
    → find_delivery id db' ≡ some d
unfolding find_delivery
ended-later id db db' d h e final =
    let (d', found, adv) =
      Evolves-find_row Delivery.id Progresses Any (λ x y k. k.id) id db.deliveries db'.deliveries d
        h.deliveries e in
    found ∙ ap some (sym (adv.final final))

closed-later :
    (id : String) (db db' : Store) (a : DeliveryAttempt)
    → From db db'
    → find_attempt id db ≡ some a
    → is_open a ≡ false
    → find_attempt id db' ≡ some a
unfolding find_attempt
closed-later id db db' a h e final =
    let (a', found, kept) =
      Evolves-find_row DeliveryAttempt.id Keeps Any (λ x y k. k.id) id db.attempts db'.attempts a
        h.attempts e in
    found ∙ ap some (sym (kept.final final))

-- A delivery that has ended is settled whatever is written after it.
IsSettled-later :
    (id : String) (p : Prepared) (q : Decision) (now : ℕ) (d : Delivery) (db db' : Store)
    → From db db'
    → IsSettled id p q now d db
    → is_terminal d.status ≡ true
    → IsSettled id p q now d db'
IsSettled-later id p q now d db db' h s final = record {
  found = ended-later id db db' d h s.found final;
  counted = s.counted;
  limit = s.limit;
  released = s.released;
  progress = inl final;
  attempt = s.attempt;
  stored = closed-later p.attempt_id db db' s.attempt h s.stored s.closed;
  closed = s.closed;
}

module _ (id : String) (p : Prepared) (q : Decision) (ev : Evidence) (now : ℕ) where
  -- What an update of the delivery's row leaves, the attempt being closed.
  updated-IsSettled :
      (f : Delivery → Delivery) (d : Delivery) (a : DeliveryAttempt) (db : Store)
      → find_delivery id db ≡ some d
      → find_attempt p.attempt_id db ≡ some a
      → is_open a ≡ false
      → (f d).id ≡ d.id
      → (f d).attempt_count ≡ p.attempt_number
      → (f d).max_attempts ≡ p.max_attempts
      → (f d).processing_token ≡ none
      → (is_terminal (f d).status ≡ true) ⊎ IsWaiting q now (f d)
      → IsSettled id p q now
          (f d)
          (record db { deliveries = update_row Delivery.id d.id f db.deliveries })
  unfolding find_delivery find_attempt
  updated-IsSettled f d a db e stored closed key counted limit released progress = record {
    found =
        subst
          (λ k. find_row Delivery.id k (update_row Delivery.id d.id f db.deliveries) ≡ some (f d))
          (find_row-key Delivery.id id db.deliveries d e)
          (find_row-updated Delivery.id d.id f db.deliveries d (find_delivery-own id db d e) key);
    counted = counted;
    limit = limit;
    released = released;
    progress = progress;
    attempt = a;
    stored = stored;
    closed = closed;
  }

  IsSettled-others :
      (d : Delivery) (db : Store) (es : List Endpoint)
      → IsSettled id p q now d db
      → IsSettled id p q now d (record db { endpoints = es })
  unfolding find_delivery find_attempt
  IsSettled-others d db es s = record {
    found = s.found;
    counted = s.counted;
    limit = s.limit;
    released = s.released;
    progress = s.progress;
    attempt = s.attempt;
    stored = s.stored;
    closed = s.closed;
  }

module _ (delivery_id : String → String) (event_id : String) (id : String) (p : Prepared)
    (q : Decision) (ev : Evidence) (now : ℕ) (d : Delivery) (e : Endpoint) (a : DeliveryAttempt)
    (limit : d.max_attempts ≡ p.max_attempts) (closed : is_open a ≡ false) where
  ended-Settles :
      (x : Delivery) (db : Store) (o : Option (Unit {0} × Store))
      → Ends db o
      → IsSettled id p q now x db
      → is_terminal x.status ≡ true
      → Settles id p q now (elim o [ none ↦ none | some (u, db') ↦ return true db' ])
  ended-Settles x db none h s final = absurd h
  ended-Settles x db (some (u, db')) h s final =
      (refl, x, IsSettled-later id p q now x db db' h s final)

  fail_delivery-Settles :
      (db : Store)
      → find_delivery id db ≡ some d
      → find_attempt p.attempt_id db ≡ some a
      → Settles id p q now (fail_delivery delivery_id event_id p q ev now d e db)
  unfolding fail_delivery update_delivery update_endpoint failed_delivery
  fail_delivery-Settles db found stored =
      let failed =
        updated-IsSettled id p q ev now (failed_delivery p ev q now) d a db found stored closed refl
          refl limit refl (inl refl) in
      if_case (Settles id p q now)
        (is_disable q.outcome || leb auto_disable_terminal_failures (e.consecutive_failures + 1)) _
        _
        (λ _.
          ended-Settles (failed_delivery p ev q now d) (record db { deliveries = _; endpoints = _ })
            (disable_endpoint delivery_id event_id d now
              (record db { deliveries = _; endpoints = _ }))
            (disable_endpoint-Ends delivery_id event_id d now
              (record db { deliveries = _; endpoints = _ }))
            (IsSettled-others id p q ev now _ _ _ failed) refl)
        (λ _. (refl, _, IsSettled-others id p q ev now _ _ _ failed))

  pub settle-Settles :
      (db : Store)
      → find_delivery id db ≡ some d
      → find_attempt p.attempt_id db ≡ some a
      → Settles id p q now (settle delivery_id event_id p q ev now d e db)
  unfolding settle deliver update_delivery update_endpoint suppressed_delivery delivered_delivery
      retried_delivery
  settle-Settles db found stored =
      let ends =
        λ (f : Delivery → Delivery). updated-IsSettled id p q ev now f d a db found stored closed in
      if_case (Settles id p q now) (not e.is_active && not (is_delivered q.outcome)) _ _
        (λ _. (refl, _, ends (suppressed_delivery p ev) refl refl limit refl (inl refl)))
        λ _.
          let done = ends (delivered_delivery p ev now) refl refl limit refl (inl refl) in
          if_case (Settles id p q now) (is_delivered q.outcome) _ _
            (λ _.
              if_case (Settles id p q now) e.is_active _ _
                (λ _. (refl, _, IsSettled-others id p q ev now _ _ _ done)) (λ _. (refl, _, done)))
            λ _.
              option_case (Settles id p q now) (retry_delay q) _ _
                (λ _. fail_delivery-Settles db found stored)
                (λ n delayed. (
                  refl,
                  _,
                  ends (retried_delivery p ev q n now) refl refl limit refl (
                      inr (record {
                        pending = refl;
                        decided = ground arith;
                        delay = n;
                        delayed = ground arith;
                        due = refl;
                      })),
                ))
