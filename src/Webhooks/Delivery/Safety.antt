-- ===== src/Webhooks/Delivery/Safety.antt =====
-- Only the worker that holds the delivery writes its outcome, and an endpoint that is disabled for
-- its failures has nothing left to be sent.
use signalstack_sms.Prelude.{
  ℕ, ◌+◌, String, Bool, true, false, not, ◌&&◌, ◌||◌, Option, none, some, List, [], ◌∷◌, map, ◌≡◌,
  ◌⊎◌, refl, inl, inr, arith, subst, ap, any, leb, eq_iff, is_none, ◌-◌, All, All-append, ◌==◌,
  if_case, option_case, keep_if, keep_if-some, update_row, find_row-updated,
}
use signalstack_sms.Webhooks.Policy.{Decision}
use signalstack_sms.Webhooks.Model.{
  DeliveryStatus, status_is, Endpoint, Subscription, SigningSecret, Event, Delivery,
  DeliveryAttempt, Store, return, find_delivery, find_attempt, find_endpoint, update_delivery,
  update_endpoint,
}
use signalstack_sms.Webhooks.Outbox.{
  OutboxInput, is_subscribed, active_secret, new_delivery, add_delivery, deliveries_for,
  write_event, new_event, enqueue_event, outbox_input_is_valid, same_event, endpoint_is_active,
}
use signalstack_sms.Webhooks.Delivery.{
  Claim, Prepared, Evidence, claim_is_valid, prepared_matches_claim, evidence_is_valid,
}
use signalstack_sms.Webhooks.Delivery.Prepare.{delivery_endpoint, holds_token, is_held}
use signalstack_sms.Webhooks.Delivery.Finalize.{
  is_current, is_reserved, finalize_current, finalize_claimed_delivery, fail_delivery,
  failing_endpoint, failed_delivery, is_disable, auto_disable_terminal_failures, waits_for,
  canceled_if_waiting, cancel_waiting, audit_disabled, disabled_event, try_enqueue_disabled,
  disable_endpoint,
}

-- The row of the delivery is being processed under the claim's own token, in its organization, with
-- the prepared generation and endpoint and one attempt less than the prepared number, and the row of
-- the prepared attempt is neither finished nor has an outcome.
pub record IsHolder (c : Claim) (p : Prepared) (db : Store) : Type 0 where
  pub delivery : Delivery
  pub found : find_delivery c.delivery_id db ≡ some delivery
  pub org_id : delivery.org_id ≡ c.expected_org_id
  pub status : delivery.status ≡ DeliveryStatus.processing
  pub token : delivery.processing_token ≡ some c.processing_token
  pub generation : delivery.generation ≡ p.generation
  pub endpoint_id : delivery.endpoint_id ≡ p.endpoint_id
  pub count : delivery.attempt_count ≡ p.attempt_number - 1
  pub attempt : DeliveryAttempt
  pub stored : find_attempt p.attempt_id db ≡ some attempt
  pub attempt_delivery : attempt.delivery_id ≡ p.delivery_id
  pub attempt_number : attempt.attempt_number ≡ p.attempt_number
  pub outcome : attempt.outcome ≡ none
  pub finished_at : attempt.finished_at ≡ none

processing-of :
    (s : DeliveryStatus)
    → status_is s DeliveryStatus.processing ≡ true
    → s ≡ DeliveryStatus.processing
processing-of DeliveryStatus.processing h = refl
processing-of DeliveryStatus.pending h = cc
processing-of DeliveryStatus.delivered h = cc
processing-of DeliveryStatus.failed h = cc
processing-of DeliveryStatus.canceled h = cc

holds_token-of : (t : String) (o : Option String) → holds_token t o ≡ true → o ≡ some t
holds_token-of t none h = cc
holds_token-of t (some s) h = ap some ((eq_iff s t).0 h)

none-of : {A : Type 0} (o : Option A) → is_none o ≡ true → o ≡ none
none-of none h = refl
none-of (some a) h = cc

IsHolder-of :
    (c : Claim) (p : Prepared) (db : Store) (d : Delivery) (a : DeliveryAttempt)
    → find_delivery c.delivery_id db ≡ some d
    → is_current c p d ≡ true
    → find_attempt p.attempt_id db ≡ some a
    → is_reserved p a ≡ true
    → IsHolder c p db
unfolding is_current is_held is_reserved
IsHolder-of c p db d a found current stored reserved = record {
  delivery = d;
  found = found;
  org_id = (eq_iff d.org_id c.expected_org_id).0 (ground arith);
  status = processing-of d.status (ground arith);
  token = holds_token-of c.processing_token d.processing_token (ground arith);
  generation = ground arith;
  endpoint_id = (eq_iff d.endpoint_id p.endpoint_id).0 (ground arith);
  count = ground arith;
  attempt = a;
  stored = stored;
  attempt_delivery = (eq_iff a.delivery_id p.delivery_id).0 (ground arith);
  attempt_number = ground arith;
  outcome = none-of a.outcome (ground arith);
  finished_at = none-of a.finished_at (ground arith);
}

abbrev Respects : Claim → Prepared → Store → Option (Bool × Store) → Type 0
Respects c p db none = Unit
Respects c p db (some (finalized, db')) = (finalized ≡ false × db' ≡ db) ⊎ IsHolder c p db

held-Respects :
    (c : Claim) (p : Prepared) (db : Store) (o : Option (Bool × Store))
    → IsHolder c p db
    → Respects c p db o
held-Respects c p db none h = tt
held-Respects c p db (some (b, db')) h = inr h

module _ (delivery_id : String → String) (event_id : String) where
  finalize-Respects :
      (c : Claim) (p : Prepared) (q : Decision) (ev : Evidence) (now : ℕ) (db : Store)
      → Respects c p db (finalize_claimed_delivery delivery_id event_id c p q ev now db)
  unfolding finalize_claimed_delivery finalize_current
  finalize-Respects c p q ev now db =
      if_case (Respects c p db)
        (not (
          claim_is_valid c
          && prepared_matches_claim c p
          && evidence_is_valid ev
          && ev.request_timestamp == p.request_timestamp))
        _ _ (λ _. tt)
        λ _.
          option_case (Respects c p db) (keep_if (is_current c p) (find_delivery c.delivery_id db))
            _ _ (λ _. inl (refl, refl))
            λ d kept.
              let (found, current) =
                keep_if-some (is_current c p) (find_delivery c.delivery_id db) d kept in
              option_case (Respects c p db) (delivery_endpoint d db) _ _ (λ _. tt)
                λ e _.
                  option_case (Respects c p db)
                    (keep_if (is_reserved p) (find_attempt p.attempt_id db)) _ _
                    (λ _. inl (refl, refl))
                    λ a waits.
                      let (stored, reserved) =
                        keep_if-some (is_reserved p) (find_attempt p.attempt_id db) a waits in
                      held-Respects c p db _ (IsHolder-of c p db d a found current stored reserved)

  -- A finalization that commits either writes nothing and says so, or before it the delivery was
  -- being processed under the claim's own token, in its organization, with the prepared generation
  -- and endpoint and one attempt less than the prepared number, and the prepared attempt, of that
  -- number, was not finished and had no outcome: a worker whose lease was taken over under another
  -- token cannot overwrite what the next one does.
  pub finalize_claimed_delivery-IsHolder :
      (c : Claim) (p : Prepared) (q : Decision) (ev : Evidence) (now : ℕ) (db db' : Store)
      (finalized : Bool)
      → finalize_claimed_delivery delivery_id event_id c p q ev now db ≡ some (finalized, db')
      → (finalized ≡ false × db' ≡ db) ⊎ IsHolder c p db
  finalize_claimed_delivery-IsHolder c p q ev now db db' finalized e =
      subst (Respects c p db) e (finalize-Respects c p q ev now db)

  abbrev pub IsQuiet : Delivery → Delivery → Type 0
  IsQuiet d x = waits_for d x ≡ false

  canceled-IsQuiet :
      (d : Delivery) (rows : List Delivery) → All (IsQuiet d) (map (canceled_if_waiting d) rows)
  unfolding canceled_if_waiting waits_for
  canceled-IsQuiet d [] = tt
  canceled-IsQuiet d (x ∷ rows) = (ground arith, canceled-IsQuiet d rows)

  abbrev AllQuiet : Delivery → Option (List Delivery) → Type 0
  AllQuiet d none = Unit
  AllQuiet d (some ds) = All (IsQuiet d) ds

  -- A delivery that is made for an event goes to an endpoint that is active.
  new-IsQuiet :
      (d : Delivery) (i : OutboxInput) (e : Event) (db : Store) (s : Subscription)
      (k : SigningSecret) (id : String)
      → endpoint_is_active (find_endpoint d.endpoint_id db) ≡ false
      → is_subscribed i db s ≡ true
      → IsQuiet d (new_delivery e id s k)
  unfolding is_subscribed waits_for new_delivery find_endpoint
  new-IsQuiet d i e db s k id off on = ground (arith, eq_iff s.endpoint_id d.endpoint_id)

  add_delivery-AllQuiet :
      (d : Delivery) (i : OutboxInput) (e : Event) (db : Store) (s : Subscription) (id : String)
      (o : Option (List Delivery)) (k : Option SigningSecret)
      → endpoint_is_active (find_endpoint d.endpoint_id db) ≡ false
      → is_subscribed i db s ≡ true
      → AllQuiet d o
      → AllQuiet d (add_delivery e id s o k)
  unfolding add_delivery
  add_delivery-AllQuiet d i e db s id none k off on h = tt
  add_delivery-AllQuiet d i e db s id (some ds) none off on h = tt
  add_delivery-AllQuiet d i e db s id (some ds) (some k) off on h =
      (new-IsQuiet d i e db s k id off on, h)

  deliveries_for-AllQuiet :
      (d : Delivery) (i : OutboxInput) (e : Event) (db : Store) (rows : List Subscription)
      → endpoint_is_active (find_endpoint d.endpoint_id db) ≡ false
      → AllQuiet d (deliveries_for delivery_id i e db rows)
  unfolding deliveries_for
  deliveries_for-AllQuiet d i e db [] off = tt
  deliveries_for-AllQuiet d i e db (s ∷ rows) off =
      let others = deliveries_for-AllQuiet d i e db rows off in
      if_case (AllQuiet d) (is_subscribed i db s) _ _
        (λ on.
          add_delivery-AllQuiet d i e db s (delivery_id s.id)
            (deliveries_for delivery_id i e db rows) (active_secret s db) off on others)
        (λ _. others)

  abbrev pub QuietAfter : {A : Type 0} → Delivery → Option (A × Store) → Type 0
  QuietAfter d none = Unit
  QuietAfter d (some (a, db)) = All (IsQuiet d) db.deliveries

  write_event-QuietAfter :
      (d : Delivery) (db : Store) (e : Event) (o : Option (List Delivery))
      → All (IsQuiet d) db.deliveries
      → AllQuiet d o
      → QuietAfter d (write_event db e o)
  unfolding write_event
  write_event-QuietAfter d db e none h k = tt
  write_event-QuietAfter d db e (some ds) h k = All-append (IsQuiet d) db.deliveries ds h k

  try_enqueue-QuietAfter :
      (d : Delivery) (now : ℕ) (db : Store)
      → endpoint_is_active (find_endpoint d.endpoint_id db) ≡ false
      → All (IsQuiet d) db.deliveries
      → QuietAfter d (try_enqueue_disabled delivery_id event_id d now db)
  unfolding try_enqueue_disabled enqueue_event
  try_enqueue-QuietAfter d now db off h = caught _ (
      if_case (QuietAfter d) (not (outbox_input_is_valid (disabled_event d))) _ _ (λ _. tt)
        λ _.
          if_case (QuietAfter d) (any (same_event (disabled_event d)) db.events) _ _ (λ _. h)
            λ _.
              let e = new_event event_id (disabled_event d) now in
              write_event-QuietAfter d db e
                (deliveries_for delivery_id (disabled_event d) e db db.subscriptions) h
                (deliveries_for-AllQuiet d (disabled_event d) e db db.subscriptions off))
    where
      caught :
          (o : Option (Unit {0} × Store))
          → QuietAfter d o
          → QuietAfter d (elim o [ none ↦ some (tt, db) | some r ↦ some r ])
      caught none k = h
      caught (some r) k = k

  then-QuietAfter :
      (d : Delivery) (o : Option (Unit {0} × Store))
      → QuietAfter d o
      → QuietAfter d (elim o [ none ↦ none | some (u, db) ↦ return true db ])
  then-QuietAfter d none h = tt
  then-QuietAfter d (some (u, db)) h = h

  -- When a delivery fails for good, and the failure is the tenth in a row at its endpoint or the
  -- receiver's answer disables it, then afterwards no other delivery of the organization waits for
  -- that endpoint; the event that reports the disabling adds none either.
  pub fail_delivery-QuietAfter :
      (p : Prepared) (q : Decision) (ev : Evidence) (now : ℕ) (d : Delivery) (e : Endpoint)
      (db : Store)
      → find_endpoint d.endpoint_id db ≡ some e
      → (is_disable q.outcome || leb auto_disable_terminal_failures (e.consecutive_failures + 1))
        ≡ true
      → QuietAfter d (fail_delivery delivery_id event_id p q ev now d e db)
  unfolding fail_delivery disable_endpoint cancel_waiting audit_disabled update_delivery
      update_endpoint find_endpoint failing_endpoint
  fail_delivery-QuietAfter p q ev now d e db there h =
      rw (h, QuietAfter)
        (then-QuietAfter d
          (try_enqueue_disabled delivery_id event_id d now
            (record db { endpoints = _; deliveries = _; audits = _ }))
          (try_enqueue-QuietAfter d now (record db { endpoints = _; deliveries = _; audits = _ })
            (ap endpoint_is_active (
              find_row-updated Endpoint.id d.endpoint_id
                (failing_endpoint (e.consecutive_failures + 1) true now) db.endpoints e there refl))
            (canceled-IsQuiet d
              (update_row Delivery.id d.id (failed_delivery p ev q now) db.deliveries))))
