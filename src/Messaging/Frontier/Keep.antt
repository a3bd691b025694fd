-- ===== src/Messaging/Frontier/Keep.antt =====
-- Transactions under which every attempt that is there advances.
use signalstack_sms.Prelude.{
  ℕ, String, Bool, true, false, Option, none, some, List, [], ◌∷◌, ◌++◌, ◌≡◌, refl, inl, inr,
  Bool-cases, any, Evolves, Evolves-trans, Evolves-append, Evolves-update_row, if◌then◌else◌,
}
use signalstack_sms.Messaging.Model.{
  Message, Attempt, Event, Database, Tx, ◌>>◌, return, throw, find_attempt, update_attempt,
  update_message, create_attempt, clashes, require,
}
use signalstack_sms.Messaging.Worker.Defs.{
  enqueue, same_event, enqueue_specific, enqueue_lifecycle, Lifecycle,
}
use signalstack_sms.Messaging.Review.Defs.{audit}
use signalstack_sms.Messaging.Frontier.Unique.{
  IsUnique, any-clashes, IsUnique-append, IsUnique-update_row,
}
use signalstack_sms.Messaging.Frontier.Row.{
  Advances, Advances-refl, Advances-trans, IsWithinBudget, Advances-IsWithinBudget,
}

-- The attempts of `base` are in the database, each as it was or advanced, those that are new have a
-- number within the budget, and unique keys stay unique.
abbrev pub From : List Attempt → Database → Type 0
From base db =
    Evolves Advances IsWithinBudget base db.attempts × (IsUnique base → IsUnique db.attempts)

-- So it is after a transaction that does not throw.
abbrev pub Keeps : {A : Type 0} → List Attempt → Option (A × Database) → Type 0
Keeps base none = Unit
Keeps base (some (a, db)) = From base db

-- A transaction that keeps this, from every database.
pub record Keeping {A : Type 0} (base : List Attempt) (m : Tx A) : Type 0 where
  pub run : (db : Database) → From base db → Keeps base (m db)

pub if-Keeps :
    {A : Type 0} (base : List Attempt) (b : Bool) (x y : Option (A × Database))
    → (b ≡ true → Keeps base x)
    → (b ≡ false → Keeps base y)
    → Keeps base (if b then x else y)
if-Keeps base true x y h k = h refl
if-Keeps base false x y h k = k refl

pub elim-Keeps :
    {X A : Type 0} (base : List Attempt) (o : Option X) (n : Option (A × Database))
    (f : X → Option (A × Database))
    → Keeps base n
    → ((x : X) → o ≡ some x → Keeps base (f x))
    → Keeps base (elim o [ none ↦ n | some x ↦ f x ])
elim-Keeps base none n f h k = h
elim-Keeps base (some x) n f h k = k x refl

after-Keeps :
    {A B : Type 0} (base : List Attempt) (o : Option (A × Database)) (f : A → Tx B)
    → Keeps base o
    → ((a : A) → Keeping base (f a))
    → Keeps base (elim o [ none ↦ none | some (a, db') ↦ f a db' ])
after-Keeps base none f h k = tt
after-Keeps base (some (a, db')) f h k = (k a).run db' h

module _ {base : List Attempt} where
  pub return-Keeping : {A : Type 0} (a : A) → Keeping base (return a)
  return-Keeping a = record { run = λ db h. h }

  pub throw-Keeping : {A : Type 0} → Keeping {A = A} base throw
  throw-Keeping = record { run = λ db h. tt }

  pub >>-Keeping :
      {B : Type 0} {m : Tx (Unit {0})} {k : Tx B}
      → Keeping base m
      → Keeping base k
      → Keeping base (m >> k)
  >>-Keeping {m} {k} p q = record {
    run = λ db h. after-Keeps base (m db) (λ _. k) (p.run db h) (λ _. q);
  }

  pub update_message-Keeping :
      (id : String) (f : Message → Message) → Keeping base (update_message id f)
  unfolding update_message
  update_message-Keeping id f = record { run = λ db h. h }

  pub create_attempt-Keeping : (a : Attempt) → IsWithinBudget a → Keeping base (create_attempt a)
  unfolding create_attempt
  create_attempt-Keeping a w = record {
    run = λ db h.
        if-Keeps base (any (clashes a) db.attempts) none _ (λ _. tt)
          (λ fresh. (
            Evolves-trans Advances IsWithinBudget Advances-trans Advances-IsWithinBudget base
                db.attempts (db.attempts ++ a ∷ []) h.0
                (Evolves-append Advances IsWithinBudget Advances-refl db.attempts (a ∷ []) (w, tt)),
            λ u. IsUnique-append a db.attempts (h.1 u) (any-clashes a db.attempts fresh),
          ));
  }

  pub audit-Keeping : (org actor action id : String) → Keeping base (audit org actor action id)
  unfolding audit
  audit-Keeping org actor action id = record { run = λ db h. h }

  module _ (accepts : Event → Database → Bool) (decimal : ℕ → String) where
    pub enqueue-Keeping : (e : Event) → Keeping base (enqueue accepts decimal e)
    unfolding enqueue
    enqueue-Keeping e = record {
      run = λ db h.
          if-Keeps base (accepts e db) _ none
            (λ _. elim (Bool-cases (any (same_event e) db.events)) [
              | inl old ↦ rw old h
              | inr new ↦ rw new h
            ])
            (λ _. tt);
    }

    enqueue_specific-Keeping :
        (m : Message) (s : Lifecycle) (n : ℕ) (status code type : Option String)
        → Keeping base (enqueue_specific accepts decimal m s n status code type)
    unfolding enqueue_specific
    enqueue_specific-Keeping m s n status code none = return-Keeping tt
    enqueue_specific-Keeping m s n status code (some type) = enqueue-Keeping _

    pub enqueue_lifecycle-Keeping :
        (m : Message) (s : Lifecycle) (n : ℕ) (status code : Option String)
        → Keeping base (enqueue_lifecycle accepts decimal m s n status code)
    unfolding enqueue_lifecycle
    enqueue_lifecycle-Keeping m s n status code =
        >>-Keeping (enqueue-Keeping _) (enqueue_specific-Keeping m s n status code _)

-- A condition that the database checks, and what follows it.
pub require-Keeps :
    {B : Type 0} (base : List Attempt) (ok : Database → Bool) (k : Tx B) (db : Database)
    → Keeps base (k db)
    → Keeps base ((require ok >> k) db)
unfolding require
require-Keeps base ok k db h = checked (ok db)
  where
    answer : Bool → Option (Unit {0} × Database)
    answer b = if b then some (tt, db) else none

    checked : (b : Bool) → Keeps base (elim (answer b) [ none ↦ none | some (_, db') ↦ k db' ])
    checked true = h
    checked false = tt

-- An update of a row that was found, and what follows it.
pub update_attempt-Keeps :
    {B : Type 0} (id : String) (f : Attempt → Attempt) (k : Tx B) (db : Database) (a : Attempt)
    → find_attempt id db ≡ some a
    → Advances a (f a)
    → Keeping db.attempts k
    → Keeps db.attempts ((update_attempt id f >> k) db)
unfolding update_attempt find_attempt
update_attempt-Keeps id f k db a e h q =
    q.run (record db { attempts = _ })
      (
        Evolves-update_row Attempt.id Advances IsWithinBudget Advances-refl id f db.attempts a e h,
        IsUnique-update_row id f db.attempts a e h,
      )
