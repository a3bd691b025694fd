-- ===== src/Webhooks/Delivery/Rows.antt =====
-- What no transaction of the webhooks does to a delivery or to an attempt, and the transactions
-- that keep it.
use signalstack_sms.Prelude.{
  ◌≤◌, String, Bool, true, false, Option, none, some, List, [], ◌∷◌, ◌++◌, ◌≡◌, refl, arith, ◌∙◌,
  All, Evolves, Evolves-trans, Evolves-append, Evolves-update_row, Evolves-refl,
}
use signalstack_sms.Webhooks.Model.{
  DeliveryStatus, AuditEvent, Endpoint, Delivery, DeliveryAttempt, Store, Tx, find_delivery,
  find_attempt, update_delivery, update_endpoint, update_attempt,
}
use signalstack_sms.Webhooks.Delivery.Prepare.{is_open}

abbrev pub is_terminal : DeliveryStatus → Bool
is_terminal DeliveryStatus.pending = false
is_terminal DeliveryStatus.processing = false
is_terminal _ = true

-- A delivery keeps its identity and what it is about, its attempts are never forgotten, and one
-- that has ended never changes.
pub record Progresses (a b : Delivery) : Type 0 where
  pub id : a.id ≡ b.id
  pub org_id : a.org_id ≡ b.org_id
  pub endpoint_id : a.endpoint_id ≡ b.endpoint_id
  pub subscription_id : a.subscription_id ≡ b.subscription_id
  pub event_id : a.event_id ≡ b.event_id
  pub max_attempts : a.max_attempts ≡ b.max_attempts
  pub generation : a.generation ≡ b.generation
  pub counted : a.attempt_count ≤ b.attempt_count
  pub final : is_terminal a.status ≡ true → a ≡ b

-- An attempt keeps its identity and its request's time, and once it has an outcome it never changes.
pub record Keeps (a b : DeliveryAttempt) : Type 0 where
  pub id : a.id ≡ b.id
  pub delivery_id : a.delivery_id ≡ b.delivery_id
  pub generation : a.generation ≡ b.generation
  pub attempt_number : a.attempt_number ≡ b.attempt_number
  pub request_timestamp : a.request_timestamp ≡ b.request_timestamp
  pub final : is_open a ≡ false → a ≡ b

pub Progresses-refl : (a : Delivery) → Progresses a a
Progresses-refl a = record {
  id = refl;
  org_id = refl;
  endpoint_id = refl;
  subscription_id = refl;
  event_id = refl;
  max_attempts = refl;
  generation = refl;
  counted = omega arith;
  final = λ _. refl;
}

pub Keeps-refl : (a : DeliveryAttempt) → Keeps a a
Keeps-refl a = record {
  id = refl;
  delivery_id = refl;
  generation = refl;
  attempt_number = refl;
  request_timestamp = refl;
  final = λ _. refl;
}

pub Progresses-trans : (a b c : Delivery) → Progresses a b → Progresses b c → Progresses a c
Progresses-trans a b c h k = record {
  id = h.id ∙ k.id;
  org_id = h.org_id ∙ k.org_id;
  endpoint_id = h.endpoint_id ∙ k.endpoint_id;
  subscription_id = h.subscription_id ∙ k.subscription_id;
  event_id = h.event_id ∙ k.event_id;
  max_attempts = h.max_attempts ∙ k.max_attempts;
  generation = h.generation ∙ k.generation;
  counted = omega (arith, h.counted, k.counted);
  final = λ t. let e : a ≡ b = h.final t in e ∙ k.final (rw (← e) t);
}

pub Keeps-trans : (a b c : DeliveryAttempt) → Keeps a b → Keeps b c → Keeps a c
Keeps-trans a b c h k = record {
  id = h.id ∙ k.id;
  delivery_id = h.delivery_id ∙ k.delivery_id;
  generation = h.generation ∙ k.generation;
  attempt_number = h.attempt_number ∙ k.attempt_number;
  request_timestamp = h.request_timestamp ∙ k.request_timestamp;
  final = λ t. let e : a ≡ b = h.final t in e ∙ k.final (rw (← e) t);
}

abbrev pub Any : {A : Type 0} → A → Type 0
Any a = Unit

pub All-Any : {A : Type 0} (xs : List A) → All (Any {A = A}) xs
All-Any [] = tt
All-Any (x ∷ xs) = (tt, All-Any xs)

-- The rows of `base` are in the store, each as it was or advanced.
pub record From (base db : Store) : Type 0 where
  pub deliveries : Evolves Progresses Any base.deliveries db.deliveries
  pub attempts : Evolves Keeps Any base.attempts db.attempts

pub same : (db : Store) → From db db
same db = record {
  deliveries = Evolves-refl Progresses Any Progresses-refl db.deliveries;
  attempts = Evolves-refl Keeps Any Keeps-refl db.attempts;
}

pub From-trans : {a b c : Store} → From a b → From b c → From a c
From-trans {a} {b} {c} h k = record {
  deliveries =
      Evolves-trans Progresses Any Progresses-trans (λ _ _ _ _. tt) a.deliveries b.deliveries
        c.deliveries h.deliveries k.deliveries;
  attempts =
      Evolves-trans Keeps Any Keeps-trans (λ _ _ _ _. tt) a.attempts b.attempts c.attempts
        h.attempts k.attempts;
}

pub From-others :
    {base : Store} (db : Store) (es : List Endpoint) (audits : List AuditEvent)
    → From base db
    → From base (record db { endpoints = es; audits = audits })
From-others db es audits h = record { deliveries = h.deliveries; attempts = h.attempts }

-- So it is after a transaction that does not throw.
abbrev pub Holds : {A : Type 0} → Store → Option (A × Store) → Type 0
Holds base none = Unit
Holds base (some (a, db)) = From base db

pub Holds-From :
    {A : Type 0} {base db : Store} (o : Option (A × Store))
    → From base db
    → Holds db o
    → Holds base o
Holds-From none h k = tt
Holds-From (some (a, db')) h k = From-trans h k

-- A transaction that cannot throw.
abbrev pub Ends : {A : Type 0} → Store → Option (A × Store) → Type 0
Ends base none = ⊥
Ends base (some (a, db)) = From base db

pub Ends-Holds : {A : Type 0} (base : Store) (o : Option (A × Store)) → Ends base o → Holds base o
Ends-Holds base none h = absurd h
Ends-Holds base (some (a, db)) h = h

pub Ends-From :
    {A : Type 0} {base db : Store} (o : Option (A × Store)) → From base db → Ends db o → Ends base o
Ends-From none h k = absurd k
Ends-From (some (a, db')) h k = From-trans h k

pub >>-Holds :
    {B : Type 0} (base : Store) (o : Option (Unit {0} × Store)) (k : Tx B)
    → Holds base o
    → ((db : Store) → Holds db (k db))
    → Holds base (elim o [ none ↦ none | some (a, db') ↦ k db' ])
>>-Holds base none k h g = tt
>>-Holds base (some (a, db')) k h g = Holds-From (k db') h (g db')

module _ (db : Store) where
  pub update_delivery-Holds :
      (id : String) (f : Delivery → Delivery) (d : Delivery)
      → find_delivery id db ≡ some d
      → Progresses d (f d)
      → Holds db (update_delivery id f db)
  unfolding update_delivery find_delivery
  update_delivery-Holds id f d e h = record {
    deliveries =
        Evolves-update_row Delivery.id Progresses Any Progresses-refl id f db.deliveries d e h;
    attempts = Evolves-refl Keeps Any Keeps-refl db.attempts;
  }

  pub update_attempt-Holds :
      (id : String) (f : DeliveryAttempt → DeliveryAttempt) (a : DeliveryAttempt)
      → find_attempt id db ≡ some a
      → Keeps a (f a)
      → Holds db (update_attempt id f db)
  unfolding update_attempt find_attempt
  update_attempt-Holds id f a e h = record {
    deliveries = Evolves-refl Progresses Any Progresses-refl db.deliveries;
    attempts = Evolves-update_row DeliveryAttempt.id Keeps Any Keeps-refl id f db.attempts a e h;
  }

  pub update_endpoint-Holds :
      (id : String) (f : Endpoint → Endpoint) → Holds db (update_endpoint id f db)
  unfolding update_endpoint
  update_endpoint-Holds id f = record {
    deliveries = Evolves-refl Progresses Any Progresses-refl db.deliveries;
    attempts = Evolves-refl Keeps Any Keeps-refl db.attempts;
  }

  pub appended-From :
      (a : DeliveryAttempt) → From db (record db { attempts = db.attempts ++ a ∷ [] })
  appended-From a = record {
    deliveries = Evolves-refl Progresses Any Progresses-refl db.deliveries;
    attempts = Evolves-append Keeps Any Keeps-refl db.attempts (a ∷ []) (tt, tt);
  }
