-- ===== src/Messaging/Worker/Blocked.antt =====
-- What `processDueDirectMessageAttempts` does where the environment does not allow sending.
use signalstack_sms.Prelude.{
  ℕ, String, Bool, true, ◌&&◌, Option, none, some, List, [], ◌∷◌, ◌≡◌, ◌⊎◌, refl, sym, ◌∙◌, subst,
  arith, inl, inr, any, if_case, option_case, keep_if, str_eq, is_some, is_none, Evolves,
  Evolves-refl, Evolves-trans, Evolves-update_row, Evolves-find_row, if◌then◌else◌,
}
use signalstack_sms.Messaging.Model.{
  Message, Attempt, Event, Database, AttemptStatus, Tx, find_attempt, find_message, attempt_is,
  update_attempt, update_message,
}
use signalstack_sms.Messaging.Dispatch.{
  recover_attempt, is_recoverable, recovered_attempt, each_row,
}
use signalstack_sms.Messaging.Readiness.{
  Environment, Readiness, ReadinessReason, direct_message_worker_readiness,
}
use signalstack_sms.Messaging.Worker.Defs.{
  Lifecycle, enqueue, same_event, enqueue_specific, enqueue_lifecycle,
}
use signalstack_sms.Messaging.Worker.Prepare.{Host}
use signalstack_sms.Messaging.Worker.Batch.{
  Turn, record_recovered, left, record_all, after_recovery, after_recover, process_due, org_of,
}

-- The attempt is as it was; or its call had begun and was not completed, and now it is closed as
-- ambiguous, without a token, and the start of its call is as it was.
abbrev pub IsAtRest : ℕ → Attempt → Attempt → Type 0
IsAtRest now a b =
    (b ≡ a)
    ⊎ ((attempt_is a.status AttemptStatus.processing ≡ true)
        × (is_some a.provider_call_started_at ≡ true)
        × (is_none a.completed_at ≡ true)
        × (b.id ≡ a.id)
        × (b.status ≡ AttemptStatus.ambiguous)
        × (b.provider_call_started_at ≡ a.provider_call_started_at)
        × (b.processing_token ≡ none)
        × (b.completed_at ≡ some now))

IsAtRest-id : (now : ℕ) (a b : Attempt) → IsAtRest now a b → a.id ≡ b.id
IsAtRest-id now a b (inl same) = cc
IsAtRest-id now a b (inr (p, q, r, same, s, t, u, v)) = sym same

IsAtRest-trans :
    (now : ℕ) (a b d : Attempt) → IsAtRest now a b → IsAtRest now b d → IsAtRest now a d
IsAtRest-trans now a b d (inl same) k = subst (λ x. IsAtRest now x d) same k
IsAtRest-trans now a b d (inr h) (inl same) = subst (λ x. IsAtRest now a x) (sym same) (inr h)
IsAtRest-trans now a b d (inr (p, q, r, same, closed, t, u, v))
      (inr (open_still, e, f, g, i, j, k, l)) =
    let bad : attempt_is AttemptStatus.ambiguous AttemptStatus.processing ≡ true =
      subst (λ s. attempt_is s AttemptStatus.processing ≡ true) closed open_still in
    absurd (cc)

abbrev NoRow : Attempt → Type 0
NoRow a = ⊥

-- Every row is at rest, and there are no new ones.
abbrev AreAtRest : ℕ → List Attempt → List Attempt → Type 0
AreAtRest now = Evolves (IsAtRest now) NoRow

module _ (now : ℕ) where
  abbrev After : {A : Type 0} → List Attempt → Option (A × Database) → Type 0
  After base none = Unit
  After base (some (_, db)) = AreAtRest now base db.attempts

  rest : (rows : List Attempt) → AreAtRest now rows rows
  rest rows = Evolves-refl (IsAtRest now) NoRow (λ a. inl refl) rows

  recovered-IsAtRest :
      (a : Attempt) (m : Message)
      → is_recoverable a m now ≡ true
      → IsAtRest now a (recovered_attempt now a)
  unfolding is_recoverable recovered_attempt
  recovered-IsAtRest a m h =
      inr (ground arith, ground arith, ground arith, refl, refl, refl, refl, refl)

  recover_attempt-After :
      (id : String) (db : Database) → After db.attempts (recover_attempt now id db)
  unfolding recover_attempt update_attempt update_message find_attempt
  recover_attempt-After id db =
      option_case (After db.attempts) (find_attempt id db) _ _ (λ _. rest db.attempts)
        λ a found.
          option_case (After db.attempts) (find_message a.message_id db) _ _ (λ _. rest db.attempts)
            λ m _.
              if_case (After db.attempts) (is_recoverable a m now) _ _
                (λ h.
                  Evolves-update_row Attempt.id (IsAtRest now) NoRow (λ x. inl refl) id
                    (recovered_attempt now) db.attempts a found (recovered-IsAtRest a m h))
                (λ _. rest db.attempts)

  joins :
      (base rows rows' : List Attempt)
      → AreAtRest now base rows
      → AreAtRest now rows rows'
      → AreAtRest now base rows'
  joins = Evolves-trans (IsAtRest now) NoRow (IsAtRest-trans now) (λ a b h k. k)

  each_row-After :
      (ids : List String) (db : Database)
      → After db.attempts (each_row (recover_attempt now) ids db)
  unfolding each_row
  each_row-After [] db = rest db.attempts
  each_row-After (id ∷ ids) db =
      row (recover_attempt now id db) (recover_attempt-After id db) (λ db'. each_row-After ids db')
    where
      rows :
          (hit : Bool) (db' : Database) (o : Option (List String × Database))
          → AreAtRest now db.attempts db'.attempts
          → After db'.attempts o
          → After db.attempts (elim o [
            | none ↦ none
            | some (others, db'') ↦ some (if hit then id ∷ others else others, db'')
          ])
      rows hit db' none h k = tt
      rows hit db' (some (others, db'')) h k = joins _ _ _ h k

      row :
          (o : Option (Bool × Database))
          → After db.attempts o
          → ((db' : Database) → After db'.attempts (each_row (recover_attempt now) ids db'))
          → After db.attempts (elim o [
            | none ↦ none
            | some (hit, db') ↦ elim (each_row (recover_attempt now) ids db') [
              | none ↦ none
              | some (others, db'') ↦ some (if hit then id ∷ others else others, db'')
            ]
          ])
      row none h others = tt
      row (some (hit, db')) h others = rows hit db' _ h (others db')

-- Writing the events changes no attempt.
abbrev SameAttempts : Database → Option (Unit {0} × Database) → Type 0
SameAttempts db none = Unit
SameAttempts db (some (_, db')) = db'.attempts ≡ db.attempts

then-SameAttempts :
    (db : Database) (o : Option (Unit {0} × Database)) (k : Tx (Unit {0}))
    → SameAttempts db o
    → ((db' : Database) → SameAttempts db' (k db'))
    → SameAttempts db (elim o [ none ↦ none | some (_, db') ↦ k db' ])
then-SameAttempts db none k h g = tt
then-SameAttempts db (some (_, db1)) k h g = seen_from (k db1) (g db1)
  where
    seen_from : (o : Option (Unit {0} × Database)) → SameAttempts db1 o → SameAttempts db o
    seen_from none e = tt
    seen_from (some (_, db2)) e = e ∙ h

module _ (host : Host) where
  enqueue-SameAttempts :
      (e : Event) (db : Database) → SameAttempts db (enqueue host.accepts host.decimal e db)
  unfolding enqueue
  enqueue-SameAttempts e db =
      if_case (SameAttempts db) (host.accepts e db) _ _
        (λ _.
          if_case (λ x. SameAttempts db (some (tt, x))) (any (same_event e) db.events) _ _
            (λ _. refl) (λ _. refl))
        (λ _. tt)

  specific-SameAttempts :
      (m : Message) (s : Lifecycle) (n : ℕ) (status code type : Option String) (db : Database)
      → SameAttempts db (enqueue_specific host.accepts host.decimal m s n status code type db)
  unfolding enqueue_specific
  specific-SameAttempts m s n status code none db = refl
  specific-SameAttempts m s n status code (some type) db = enqueue-SameAttempts _ db

  record_recovered-SameAttempts :
      (org id : String) (db : Database) → SameAttempts db (record_recovered host org id db)
  unfolding record_recovered enqueue_lifecycle
  record_recovered-SameAttempts org id db =
      option_case (SameAttempts db)
        (keep_if (λ a. str_eq a.org_id org && attempt_is a.status AttemptStatus.ambiguous)
          (find_attempt id db))
        _ _ (λ _. refl)
        λ a _.
          option_case (SameAttempts db) (find_message a.message_id db) _ _ (λ _. refl)
            λ m _.
              then-SameAttempts db _ _ (enqueue-SameAttempts _ db)
                (λ db'. specific-SameAttempts m Lifecycle.ambiguous a.attempt_number _ _ _ db')

  left-attempts :
      (db : Database) (o : Option (Unit {0} × Database))
      → SameAttempts db o
      → (left host db o).attempts ≡ db.attempts
  unfolding left
  left-attempts db none h = refl
  left-attempts db (some (_, db')) h = h

  record_all-attempts :
      (ids : List String) (db : Database) → (record_all host ids db).attempts ≡ db.attempts
  unfolding record_all
  record_all-attempts [] db = refl
  record_all-attempts (id ∷ ids) db =
      record_all-attempts ids
        (left host db (record_recovered host (org_of (find_attempt id db)) id db))
      ∙ left-attempts db _ (record_recovered-SameAttempts (org_of (find_attempt id db)) id db)

  module _ (env : Environment) (turn : String → Turn) (token : String) (now : ℕ) where
    after_recover-rest :
        (reason : ReadinessReason) (due : List String) (db : Database)
        (o : Option (List String × Database))
        → After now db.attempts o
        → AreAtRest now db.attempts
            (after_recover host env (Readiness.refused reason) turn token now due db o).1.attempts
    unfolding after_recover after_recovery
    after_recover-rest reason due db none h = rest now db.attempts
    after_recover-rest reason due db (some (ids, db')) h =
        subst (AreAtRest now db.attempts) (sym (record_all-attempts ids db')) h

    abbrev Blocks : List String → List String → Database → ReadinessReason → Type 0
    Blocks expired due db reason =
        AreAtRest now db.attempts (process_due host env turn token now expired due db).1.attempts
        × ((reason ≡ ReadinessReason.live_worker_invalid)
            ⊎ ((process_due host env turn token now expired due db).1 ≡ db))

    process_due-Blocks :
        (expired due : List String) (db : Database) (reason : ReadinessReason)
        → direct_message_worker_readiness host.lower_case host.valid_https_origin
            host.valid_master_key env
          ≡ Readiness.refused reason
        → Blocks expired due db reason
    unfolding process_due
    process_due-Blocks expired due db ReadinessReason.live_worker_invalid e = rw e (
      after_recover-rest ReadinessReason.live_worker_invalid due db _
          (each_row-After now expired db),
      inl refl,
    )
    process_due-Blocks expired due db ReadinessReason.worker_disabled e =
        rw e (rest now db.attempts, inr refl)
    process_due-Blocks expired due db ReadinessReason.worker_process_invalid e =
        rw e (rest now db.attempts, inr refl)
    process_due-Blocks expired due db ReadinessReason.demo_worker_invalid e =
        rw e (rest now db.attempts, inr refl)

    -- Where the environment refuses sending, a pass of the worker claims nothing and begins no call:
    -- every attempt is as it was, or its call had begun without being completed and it is now closed
    -- as ambiguous, with the start of its call as it was. Unless the reason is that the live
    -- configuration is not valid, the pass changes nothing at all.
    pub process_due-IsAtRest :
        (expired due : List String) (db : Database) (reason : ReadinessReason) (id : String)
        (a : Attempt)
        → direct_message_worker_readiness host.lower_case host.valid_https_origin
            host.valid_master_key env
          ≡ Readiness.refused reason
        → find_attempt id db ≡ some a
        → let db' = (process_due host env turn token now expired due db).1 in
          ((b : Attempt) × (find_attempt id db' ≡ some b) × IsAtRest now a b)
          × ((reason ≡ ReadinessReason.live_worker_invalid) ⊎ (db' ≡ db))
    unfolding find_attempt
    process_due-IsAtRest expired due db reason id a refuses found =
        let (rests, nothing) = process_due-Blocks expired due db reason refuses in
        (
          Evolves-find_row Attempt.id (IsAtRest now) NoRow (IsAtRest-id now) id db.attempts _ a
              rests found,
          nothing,
        )
