-- ===== src/Webhooks/Delivery/Trace.antt =====
-- Runs: any sequence of committed transactions on deliveries, by any number of workers and callers,
-- in any order. A transaction that throws is no step, since it is rolled back.
use signalstack_sms.Prelude.{ℕ, String, Bool, Option, some, ◌≡◌, subst, Evolves-find_row}
use signalstack_sms.Webhooks.Policy.{Decision}
use signalstack_sms.Webhooks.Model.{Delivery, DeliveryAttempt, Store, find_delivery, find_attempt}
use signalstack_sms.Webhooks.Outbox.{OutboxInput, enqueue_event}
use signalstack_sms.Webhooks.Delivery.{Claim, Prepared, Evidence}
use signalstack_sms.Webhooks.Delivery.Prepare.{prepare_claimed_delivery}
use signalstack_sms.Webhooks.Delivery.Finalize.{finalize_claimed_delivery}
use signalstack_sms.Webhooks.Delivery.Dispatch.{claim_delivery, give_up_disabled}
use signalstack_sms.Webhooks.Delivery.Rows.{Progresses, Keeps, Any, From, same, From-trans, Holds}
use signalstack_sms.Webhooks.Delivery.Steps.{
  claim_delivery-Holds, give_up_disabled-Holds, prepare_claimed_delivery-Holds,
}
use signalstack_sms.Webhooks.Delivery.Outcomes.{
  enqueue_event-Holds, finalize_claimed_delivery-Holds,
}

-- One transaction that commits.
pub data Step (db db' : Store) : Type 0 where
  enqueue :
      (delivery_id : String → String) (event_id : String) (i : OutboxInput) (now : ℕ)
      → enqueue_event delivery_id event_id i now db ≡ some (tt, db')
      → Step db db'
  give_up : (now : ℕ) → give_up_disabled now db ≡ some (tt, db') → Step db db'
  claim :
      (token : String) (lease_ms now : ℕ) (id : String) (hit : Bool)
      → claim_delivery token lease_ms now id db ≡ some (hit, db')
      → Step db db'
  prepare :
      (id : String) (c : Claim) (now : ℕ) (p : Option Prepared)
      → prepare_claimed_delivery id c now db ≡ some (p, db')
      → Step db db'
  finalize :
      (delivery_id : String → String) (event_id : String) (c : Claim) (p : Prepared) (q : Decision)
      (ev : Evidence) (now : ℕ) (finalized : Bool)
      → finalize_claimed_delivery delivery_id event_id c p q ev now db ≡ some (finalized, db')
      → Step db db'

pub data Run (db : Store) : Store → Type 0 where
  start : Run db db
  then_step : {db1 db2 : Store} → Run db db1 → Step db1 db2 → Run db db2

Step-From : (db db' : Store) → Step db db' → From db db'
Step-From db db' (Step.enqueue delivery_id event_id i now e) =
    subst (Holds db) e (enqueue_event-Holds delivery_id event_id i now db)
Step-From db db' (Step.give_up now e) = subst (Holds db) e (give_up_disabled-Holds now db)
Step-From db db' (Step.claim token lease_ms now id hit e) =
    subst (Holds db) e (claim_delivery-Holds token lease_ms now id db)
Step-From db db' (Step.prepare id c now p e) =
    subst (Holds db) e (prepare_claimed_delivery-Holds id c now db)
Step-From db db' (Step.finalize delivery_id event_id c p q ev now finalized e) =
    subst (Holds db) e (finalize_claimed_delivery-Holds delivery_id event_id c p q ev now db)

Run-From : {db db' : Store} → Run db db' → From db db'
Run-From {db} start = same db
Run-From {db} {db'} (then_step {db1} run step) = From-trans (Run-From run) (Step-From db1 db' step)

-- A delivery that is in the store is in it after any run of committed transactions, for the same
-- event, endpoint, subscription, generation and maximum, with no fewer attempts counted; and one
-- that was delivered, failed or canceled is the same in every field.
pub Run-Progresses :
    {db db' : Store} (id : String) (d : Delivery)
    → Run db db'
    → find_delivery id db ≡ some d
    → (d' : Delivery) × (find_delivery id db' ≡ some d') × Progresses d d'
unfolding find_delivery
Run-Progresses {db} {db'} id d run e =
    Evolves-find_row Delivery.id Progresses Any (λ x y h. h.id) id db.deliveries db'.deliveries d
      ((Run-From run).deliveries) e

-- An attempt that is in the store is in it after any run of committed transactions, with its
-- delivery, generation, number and request time; and once it has an outcome or an end, no field of
-- it changes again.
pub Run-Keeps :
    {db db' : Store} (id : String) (a : DeliveryAttempt)
    → Run db db'
    → find_attempt id db ≡ some a
    → (a' : DeliveryAttempt) × (find_attempt id db' ≡ some a') × Keeps a a'
unfolding find_attempt
Run-Keeps {db} {db'} id a run e =
    Evolves-find_row DeliveryAttempt.id Keeps Any (λ x y h. h.id) id db.attempts db'.attempts a
      ((Run-From run).attempts) e
