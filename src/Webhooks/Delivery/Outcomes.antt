-- ===== src/Webhooks/Delivery/Outcomes.antt =====
-- The transactions that record an outcome or add an event keep the attempts that have an outcome
-- and the deliveries that have ended.
use signalstack_sms.Prelude.{
  ℕ, ◌+◌, String, true, not, ◌&&◌, ◌||◌, Option, none, some, List, map, ◌≡◌, arith, any, leb, ◌==◌,
  ◌≤◌, if_case, option_case, keep_if, keep_if-some, Evolves-append, Evolves-refl, Evolves-map,
}
use signalstack_sms.Webhooks.Policy.{Decision}
use signalstack_sms.Webhooks.Model.{
  Endpoint, Delivery, DeliveryAttempt, Event, Store, ◌>>◌, return, find_delivery, find_attempt,
  update_delivery, update_endpoint, update_attempt,
}
use signalstack_sms.Webhooks.Outbox.{
  OutboxInput, outbox_input_is_valid, same_event, deliveries_for, new_event, write_event,
  enqueue_event,
}
use signalstack_sms.Webhooks.Delivery.{
  Claim, Prepared, Evidence, claim_is_valid, prepared_matches_claim, evidence_is_valid,
}
use signalstack_sms.Webhooks.Delivery.Prepare.{is_held, close_attempt, delivery_endpoint}
use signalstack_sms.Webhooks.Delivery.Finalize.{
  is_current, is_reserved, completed_attempt, suppressed_delivery, delivered_delivery,
  retried_delivery, failed_delivery, canceled_if_waiting, waits_for, cancel_waiting, audit_disabled,
  disabled_event, try_enqueue_disabled, disable_endpoint, fail_delivery, deliver, settle,
  finalize_current, finalize_claimed_delivery, is_delivered, is_disable, retry_delay,
  auto_disable_terminal_failures,
}
use signalstack_sms.Webhooks.Delivery.Rows.{
  Progresses, Keeps, Progresses-refl, Keeps-refl, Any, All-Any, From, same, From-others, Holds,
  Holds-From, Ends, Ends-Holds, Ends-From, >>-Holds, update_delivery-Holds, update_attempt-Holds,
}
use signalstack_sms.Webhooks.Delivery.Steps.{find_delivery-own, find_attempt-own}

write_event-Holds :
    (db : Store) (e : Event) (o : Option (List Delivery)) → Holds db (write_event db e o)
unfolding write_event
write_event-Holds db e none = tt
write_event-Holds db e (some ds) = record {
  deliveries = Evolves-append Progresses Any Progresses-refl db.deliveries ds (All-Any ds);
  attempts = Evolves-refl Keeps Any Keeps-refl db.attempts;
}

canceled-Progresses : (d x : Delivery) → Progresses x (canceled_if_waiting d x)
unfolding canceled_if_waiting waits_for
canceled-Progresses d x = ground arith

cancel_waiting-From :
    (d : Delivery) (db : Store)
    → From db (record db { deliveries = map (canceled_if_waiting d) db.deliveries })
cancel_waiting-From d db = record {
  deliveries = Evolves-map Progresses Any _ (canceled-Progresses d) db.deliveries;
  attempts = Evolves-refl Keeps Any Keeps-refl db.attempts;
}

-- What a current claim's outcome may do to the delivery: it ends it or makes it wait, with one more
-- attempt counted.
module _ (c : Claim) (p : Prepared) (ev : Evidence) (now : ℕ) (d : Delivery)
    (h : is_current c p d ≡ true) (u : 1 ≤ p.attempt_number) where
  suppressed-Progresses : Progresses d (suppressed_delivery p ev d)
  unfolding is_current is_held suppressed_delivery
  suppressed-Progresses = ground arith

  delivered-Progresses : Progresses d (delivered_delivery p ev now d)
  unfolding is_current is_held delivered_delivery
  delivered-Progresses = ground arith

  retried-Progresses : (q : Decision) (n : ℕ) → Progresses d (retried_delivery p ev q n now d)
  unfolding is_current is_held retried_delivery
  retried-Progresses q n = ground arith

  failed-Progresses : (q : Decision) → Progresses d (failed_delivery p ev q now d)
  unfolding is_current is_held failed_delivery
  failed-Progresses q = ground arith

completed-Keeps :
    (q : Decision) (ev : Evidence) (now : ℕ) (p : Prepared) (a : DeliveryAttempt)
    → is_reserved p a ≡ true
    → Keeps a (completed_attempt q ev now a)
unfolding is_reserved completed_attempt close_attempt
completed-Keeps q ev now p a h = ground arith

module _ (delivery_id : String → String) (event_id : String) where
  pub enqueue_event-Holds :
      (i : OutboxInput) (now : ℕ) (db : Store)
      → Holds db (enqueue_event delivery_id event_id i now db)
  unfolding enqueue_event
  enqueue_event-Holds i now db =
      if_case (Holds db) (not (outbox_input_is_valid i)) _ _ (λ _. tt)
        λ _.
          if_case (Holds db) (any (same_event i) db.events) _ _ (λ _. same db)
            λ _.
              write_event-Holds db (new_event event_id i now)
                (deliveries_for delivery_id i (new_event event_id i now) db db.subscriptions)

  try_enqueue-Ends :
      (d : Delivery) (now : ℕ) (db : Store)
      → Ends db (try_enqueue_disabled delivery_id event_id d now db)
  unfolding try_enqueue_disabled
  try_enqueue-Ends d now db =
      kept (enqueue_event delivery_id event_id (disabled_event d) now db)
        (enqueue_event-Holds (disabled_event d) now db)
    where
      kept :
          (o : Option (Unit {0} × Store))
          → Holds db o
          → Ends db (elim o [ none ↦ some (tt, db) | some r ↦ some r ])
      kept none h = same db
      kept (some r) h = h

  pub disable_endpoint-Ends :
      (d : Delivery) (now : ℕ) (db : Store)
      → Ends db (disable_endpoint delivery_id event_id d now db)
  unfolding disable_endpoint cancel_waiting audit_disabled
  disable_endpoint-Ends d now db =
      Ends-From
        (try_enqueue_disabled delivery_id event_id d now (record db { deliveries = _; audits = _ }))
        (From-others _ db.endpoints _ (cancel_waiting-From d db))
        (try_enqueue-Ends d now (record db { deliveries = _; audits = _ }))

  module _ (c : Claim) (p : Prepared) (q : Decision) (ev : Evidence) (now : ℕ) (d : Delivery)
      (e : Endpoint) (h : is_current c p d ≡ true) (u : 1 ≤ p.attempt_number) where
    fail_delivery-Holds :
        (db : Store)
        → find_delivery d.id db ≡ some d
        → Holds db (fail_delivery delivery_id event_id p q ev now d e db)
    unfolding fail_delivery update_delivery update_endpoint
    fail_delivery-Holds db found =
        let failed =
          update_delivery-Holds db d.id _ d found (failed-Progresses c p ev now d h u q) in
        if_case (Holds db)
          (is_disable q.outcome || leb auto_disable_terminal_failures (e.consecutive_failures + 1))
          _ _
          (λ _.
            Holds-From
              ((disable_endpoint delivery_id event_id d now >> return true)
                (record db { deliveries = _; endpoints = _ }))
              (From-others _ _ _ failed)
              (>>-Holds (record db { deliveries = _; endpoints = _ })
                (disable_endpoint delivery_id event_id d now
                  (record db { deliveries = _; endpoints = _ }))
                (return true)
                (Ends-Holds _
                  (disable_endpoint delivery_id event_id d now
                    (record db { deliveries = _; endpoints = _ }))
                  (disable_endpoint-Ends d now (record db { deliveries = _; endpoints = _ })))
                same))
          (λ _. From-others _ _ _ failed)

    settle-Holds :
        (db : Store)
        → find_delivery d.id db ≡ some d
        → Holds db (settle delivery_id event_id p q ev now d e db)
    unfolding settle deliver update_delivery update_endpoint
    settle-Holds db found =
        let of = update_delivery-Holds db d.id in
        if_case (Holds db) (not e.is_active && not (is_delivered q.outcome)) _ _
          (λ _. of _ d found (suppressed-Progresses c p ev now d h u))
          λ _.
            if_case (Holds db) (is_delivered q.outcome) _ _
              (λ _.
                if_case (Holds db) e.is_active _ _
                  (λ _. From-others _ _ _ (of _ d found (delivered-Progresses c p ev now d h u)))
                  (λ _. of _ d found (delivered-Progresses c p ev now d h u)))
              λ _.
                option_case (Holds db) (retry_delay q) _ _ (λ _. fail_delivery-Holds db found)
                  (λ n _. of _ d found (retried-Progresses c p ev now d h u q n))

  prepared-numbered :
      (c : Claim) (p : Prepared) → prepared_matches_claim c p ≡ true → 1 ≤ p.attempt_number
  unfolding prepared_matches_claim
  prepared-numbered c p h = ground arith

  pub finalize_claimed_delivery-Holds :
      (c : Claim) (p : Prepared) (q : Decision) (ev : Evidence) (now : ℕ) (db : Store)
      → Holds db (finalize_claimed_delivery delivery_id event_id c p q ev now db)
  unfolding finalize_claimed_delivery finalize_current update_attempt find_delivery
  finalize_claimed_delivery-Holds c p q ev now db =
      if_case (Holds db)
        (not (
          claim_is_valid c
          && prepared_matches_claim c p
          && evidence_is_valid ev
          && ev.request_timestamp == p.request_timestamp))
        _ _ (λ _. tt)
        λ valid.
          option_case (Holds db) (keep_if (is_current c p) (find_delivery c.delivery_id db)) _ _
            (λ _. same db)
            λ d kept.
              let (read, current) =
                keep_if-some (is_current c p) (find_delivery c.delivery_id db) d kept in
              option_case (Holds db) (delivery_endpoint d db) _ _ (λ _. tt)
                λ e _.
                  option_case (Holds db) (keep_if (is_reserved p) (find_attempt p.attempt_id db)) _
                    _ (λ _. same db)
                    λ a waits.
                      let (stored, reserved) =
                        keep_if-some (is_reserved p) (find_attempt p.attempt_id db) a waits in
                      Holds-From
                        (settle delivery_id event_id p q ev now d e (record db { attempts = _ }))
                        (update_attempt-Holds db a.id _ a
                          (find_attempt-own p.attempt_id db a stored)
                          (completed-Keeps q ev now p a reserved))
                        (settle-Holds c p q ev now d e current
                          (prepared-numbered c p (ground arith)) (record db { attempts = _ })
                          (find_delivery-own c.delivery_id db d read))
