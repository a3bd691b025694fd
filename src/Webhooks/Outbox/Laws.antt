-- ===== src/Webhooks/Outbox/Laws.antt =====
-- An event is written once.
use signalstack_sms.Prelude.{
  ℕ, String, true, not, Option, none, some, List, [], ◌∷◌, ◌++◌, ◌≡◌, refl, subst, arith, any,
  if_case, eq_refl,
}
use signalstack_sms.Webhooks.Model.{Event, Delivery, Store}
use signalstack_sms.Webhooks.Outbox.{
  OutboxInput, outbox_input_is_valid, same_event, new_event, write_event, deliveries_for,
  enqueue_event,
}

-- The event of the input is in the store, unless the transaction threw.
abbrev Holds : OutboxInput → Option (Unit {0} × Store) → Type 0
Holds i none = Unit
Holds i (some (u, db)) = (outbox_input_is_valid i ≡ true) × (any (same_event i) db.events ≡ true)

any-appended :
    (i : OutboxInput) (e : Event) (rows : List Event)
    → same_event i e ≡ true
    → any (same_event i) (rows ++ e ∷ []) ≡ true
any-appended i e [] h = ground arith
any-appended i e (x ∷ rows) h = ground (arith, any-appended i e rows)

new_event-same :
    (event_id : String) (i : OutboxInput) (now : ℕ) → same_event i (new_event event_id i now) ≡ true
unfolding new_event
new_event-same event_id i now = ground (arith, eq_refl i.org_id, eq_refl i.deduplication_key)

write_event-Holds :
    (i : OutboxInput) (event_id : String) (now : ℕ) (db : Store) (o : Option (List Delivery))
    → outbox_input_is_valid i ≡ true
    → Holds i (write_event db (new_event event_id i now) o)
unfolding write_event
write_event-Holds i event_id now db none h = tt
write_event-Holds i event_id now db (some ds) h =
    (h, any-appended i (new_event event_id i now) db.events (new_event-same event_id i now))

module _ (delivery_id : String → String) where
  enqueue_event-Holds :
      (event_id : String) (i : OutboxInput) (now : ℕ) (db : Store)
      → Holds i (enqueue_event delivery_id event_id i now db)
  unfolding enqueue_event
  enqueue_event-Holds event_id i now db =
      if_case (Holds i) (not (outbox_input_is_valid i)) _ _ (λ _. tt)
        λ valid.
          if_case (Holds i) (any (same_event i) db.events) _ _ (λ old. (ground arith, old))
            (λ _.
              write_event-Holds i event_id now db
                (deliveries_for delivery_id i (new_event event_id i now) db db.subscriptions)
                (ground arith))

  repeated :
      (event_id : String) (i : OutboxInput) (now : ℕ) (db : Store)
      → outbox_input_is_valid i ≡ true
      → any (same_event i) db.events ≡ true
      → enqueue_event delivery_id event_id i now db ≡ some (tt, db)
  unfolding enqueue_event
  repeated event_id i now db valid old = rw (valid, old) refl

  -- Enqueueing an event again, after it was enqueued, changes nothing, whatever the new identifier
  -- and the time: no second event and no second delivery is written for one deduplication key.
  pub enqueue_event-once :
      (event_id other_id : String) (i : OutboxInput) (now later : ℕ) (db db' : Store)
      → enqueue_event delivery_id event_id i now db ≡ some (tt, db')
      → enqueue_event delivery_id other_id i later db' ≡ some (tt, db')
  enqueue_event-once event_id other_id i now later db db' e =
      let (valid, old) = subst (Holds i) e (enqueue_event-Holds event_id i now db) in
      repeated other_id i later db' valid old
