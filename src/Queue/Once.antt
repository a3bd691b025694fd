-- ===== src/Queue/Once.antt =====
-- The messages of a job, through the whole of processing it.
use signalstack_sms.Prelude.{
  ℕ, Bool, true, false, ◌&&◌, Option, none, some, List, [], ◌∷◌, ◌++◌, ◌≡◌, refl, sym, ◌∙◌, ap,
  subst, arith, option_case, str_eq, eq_iff, keep_if, map, any, All, All-append, Bool-cases, inl,
  inr,
}
use mathlib.Core.List.{append_assoc, append-nil}
use signalstack_sms.Compliance.Gates.Defs.{preflight_campaign_recipients}
use signalstack_sms.Queue.Model.{
  JobStatus, CampaignStatus, Job, Campaign, Contact, Message, Store, Exec, commit, continue, finish,
  is_scheduled, find_campaign,
}
use signalstack_sms.Queue.Claims.{
  SkipReason, send_preflight_failed, invalid_campaign, stale_schedule, invalid_payload,
  processing_failed, renew_claimed_job, transition_claimed_job, transition_with_campaign,
  own_payload, failing_transition, fail_claimed_job,
}
use signalstack_sms.Queue.Process.{
  Host, JobResult, processed, skipped, Addressee, addressees, sendable, write_marks, same_message,
  same_provider_id, upsert_message, outbound_message, send_one, send_all, send_campaign,
  preflight_campaign, active_schedule, process_campaign, process_claimed_job, recover_job,
  process_claimed_job_safely,
}
use signalstack_sms.Queue.Allowed.{IsAllowed, addressees-All, sendable-IsAllowed-All}
use signalstack_sms.Queue.Sends.{
  IsUnique, IsAddressed, IsSent, Sends, Silent, renew-Silent, transition-Silent,
  with_campaign-Silent, failing-Silent,
}

same_message_sym : (m n : Message) → same_message m n ≡ false → same_message n m ≡ false
same_message_sym m n h = ground (
  arith,
  eq_iff m.org_id n.org_id,
  eq_iff n.org_id m.org_id,
  eq_iff m.idempotency_key n.idempotency_key,
  eq_iff n.idempotency_key m.idempotency_key,
)

any-append :
    (m n : Message) (ms : List Message)
    → any (same_message m) ms ≡ false
    → same_message m n ≡ false
    → any (same_message m) (ms ++ n ∷ []) ≡ false
any-append m n [] h k = ground arith
any-append m n (x ∷ ms) h k = ground (arith, any-append m n ms)

IsUnique-append :
    (m : Message) (ms : List Message)
    → IsUnique ms
    → any (same_message m) ms ≡ false
    → IsUnique (ms ++ m ∷ [])
IsUnique-append m [] u h = (refl, tt)
IsUnique-append m (x ∷ ms) (first, rest) h = (
  any-append x m ms first (same_message_sym m x (ground arith)),
  IsUnique-append m ms rest (ground arith),
)

module _ (claim : Job) (ks : List Contact) (ms : List Message) where
  silent-IsSent :
      (db db' : Store)
      → (db'.contacts ≡ db.contacts) × (db'.messages ≡ db.messages)
      → IsSent claim ks ms db
      → IsSent claim ks ms db'
  silent-IsSent db db' (c, m) h = record {
    contacts = c ∙ h.contacts;
    more = h.more;
    added = m ∙ h.added;
    addressed = h.addressed;
    unique = λ u. subst IsUnique (sym m) (h.unique u);
  }

  commit-Sends :
      {A : Type 0} (o : Option (A × Store)) (db : Store)
      → Silent db o
      → IsSent claim ks ms db
      → Sends {A = A} claim ks ms (elim o [ none ↦ (none, db) | some (a, db') ↦ (some a, db') ])
  commit-Sends none db k h = h
  commit-Sends (some (a, db')) db k h = silent-IsSent db db' k h

  continue-Sends :
      {A B : Type 0} (r : Option A × Store) (k : Exec B)
      → Sends claim ks ms r
      → ((db : Store) → IsSent claim ks ms db → Sends claim ks ms (k db))
      → Sends claim ks ms (continue r k)
  continue-Sends (none, db) k h g = h
  continue-Sends (some a, db) k h g = g db h

  upsert-Sends :
      (m : Message) (db : Store)
      → IsAddressed claim ks m
      → IsSent claim ks ms db
      → Sends claim ks ms (commit (upsert_message m) db)
  unfolding upsert_message
  upsert-Sends m db a h = elim (Bool-cases (any (same_message m) db.messages)) [
    | inl old ↦ rw (old, Sends, commit, upsert_message) h
    | inr new ↦ elim (Bool-cases (any (same_provider_id m) db.messages)) [
      | inl taken ↦ rw (new, taken, Sends, commit, upsert_message) h
      | inr free ↦
          rw (new, free, Sends, commit, upsert_message)
            (record {
              contacts = h.contacts;
              more = h.more ++ m ∷ [];
              added = ap (λ x. x ++ m ∷ []) h.added ∙ append_assoc ms h.more (m ∷ []);
              addressed = All-append (IsAddressed claim ks) h.more (m ∷ []) h.addressed (a, tt);
              unique = λ u. IsUnique-append m db.messages (h.unique u) new;
            })
    ]
  ]

  fail-Sends :
      (host : Host) (b : Bool) (db : Store)
      → IsSent claim ks ms db
      → Sends claim ks ms (fail_claimed_job host.parse_date claim b db)
  unfolding fail_claimed_job
  fail-Sends host b db h =
      kept (failing_transition host.parse_date claim (own_payload claim) b db)
        (failing-Silent host claim (own_payload claim) b db)
    where
      kept :
          (o : Option (Unit {0} × Store))
          → Silent db o
          → Sends {A = Unit {0}} claim ks ms
              (elim o [ none ↦ (some tt, db) | some (u, db') ↦ (some tt, db') ])
      kept none k = h
      kept (some (u, db')) k = silent-IsSent db db' k h

  module _ (host : Host) (c : Campaign) where
    outbound-IsAddressed :
        (a : Addressee)
        → IsAllowed claim ks a
        → IsAddressed claim ks (outbound_message host claim c a)
    unfolding outbound_message
    outbound-IsAddressed a h = record {
      contact = a.contact;
      found = h.known.found;
      own = h.known.own;
      allowed = h.allowed;
      org_id = refl;
      key = refl;
    }

    send_one-Sends :
        (a : Addressee) (db : Store)
        → IsAllowed claim ks a
        → IsSent claim ks ms db
        → Sends claim ks ms (send_one host claim c a db)
    unfolding send_one
    send_one-Sends a db h k =
        let now = host.clock a.recipient.contact_id in
        continue-Sends (commit (renew_claimed_job claim now) db)
          (commit (upsert_message (outbound_message host claim c a)))
          (commit-Sends (renew_claimed_job claim now db) db (renew-Silent claim now db) k)
          (λ db' k'.
            upsert-Sends (outbound_message host claim c a) db' (outbound-IsAddressed a h) k')

    send_all-Sends :
        (group : List Addressee) (db : Store)
        → All (IsAllowed claim ks) group
        → IsSent claim ks ms db
        → Sends claim ks ms (send_all host claim c group db)
    unfolding send_all
    send_all-Sends [] db h k = k
    send_all-Sends (a ∷ rest) db (h, hs) k =
        continue-Sends (send_one host claim c a db) (send_all host claim c rest)
          (send_one-Sends a db h k) (λ db' k'. send_all-Sends rest db' hs k')

    send_campaign-Sends :
        (t : ℕ) (group : List Addressee) (db : Store)
        → All (IsAllowed claim ks) group
        → IsSent claim ks ms db
        → Sends claim ks ms (send_campaign host claim c t group db)
    unfolding send_campaign
    send_campaign-Sends t [] db h k =
        continue-Sends (fail_claimed_job host.parse_date claim true db)
          (finish (skipped send_preflight_failed)) (fail-Sends host true db k) (λ db' k'. k')
    send_campaign-Sends t (a ∷ rest) db h k =
        let moves =
          transition_with_campaign claim JobStatus.completed c.id CampaignStatus.completed t true in
        continue-Sends (continue (send_all host claim c (a ∷ rest) db) (commit moves))
          (finish processed)
          (continue-Sends (send_all host claim c (a ∷ rest) db) (commit moves)
            (send_all-Sends (a ∷ rest) db h k)
            (λ db' k'.
              commit-Sends (moves db') db'
                (with_campaign-Silent claim JobStatus.completed c.id CampaignStatus.completed t true
                  db')
                k'))
          (λ db' k'. k')

nothing-IsSent : {claim : Job} (db : Store) → IsSent claim db.contacts db.messages db
nothing-IsSent db = record {
  contacts = refl;
  more = [];
  added = sym (append-nil db.messages);
  addressed = tt;
  unique = λ u. u;
}

module _ (host : Host) (claim : Job) where
  preflight_campaign-Sends :
      (c : Campaign) (t : ℕ) (db : Store)
      → Sends claim db.contacts db.messages
          (preflight_campaign host claim c t (addressees claim c db db.recipients) db)
  unfolding preflight_campaign write_marks
  preflight_campaign-Sends c t db =
      let group = addressees claim c db db.recipients in
      let ps = (preflight_campaign_recipients (map (λ a. a.contact.card) group) none).recipients in
      send_campaign-Sends claim db.contacts db.messages host c t (sendable ps group)
        (record db { recipients = _ })
        (sendable-IsAllowed-All claim db.contacts group (addressees-All claim c db db.recipients))
        (silent-IsSent claim db.contacts db.messages db (record db { recipients = _ }) (refl, refl)
          (nothing-IsSent db))

  transition-Sends :
      (s : JobStatus) (r : SkipReason) (db : Store)
      → Sends claim db.contacts db.messages
          (continue (commit (transition_claimed_job claim s) db) (finish (skipped r)))
  transition-Sends s r db =
      continue-Sends claim db.contacts db.messages (commit (transition_claimed_job claim s) db)
        (finish (skipped r))
        (commit-Sends claim db.contacts db.messages (transition_claimed_job claim s db) db
          (transition-Silent claim s db) (nothing-IsSent db))
        (λ db' k. k)

  process_claimed_job-Sends :
      (db : Store) → Sends claim db.contacts db.messages (process_claimed_job host claim db)
  unfolding process_claimed_job process_campaign
  process_claimed_job-Sends db =
      let Ends : Option JobResult × Store → Type 0 = Sends claim db.contacts db.messages in
      option_case Ends (own_payload claim) _ _
        (λ _. transition-Sends JobStatus.failed invalid_payload db)
        λ p _.
          option_case Ends
            (keep_if (λ c. str_eq c.org_id claim.org_id && is_scheduled c.status)
              (find_campaign p.campaign_id db))
            _ _ (λ _. transition-Sends JobStatus.failed invalid_campaign db)
            λ c _.
              option_case Ends (active_schedule host p c) _ _
                (λ _. transition-Sends JobStatus.cancelled stale_schedule db)
                (λ t _. preflight_campaign-Sends c t db)

  recover_job-Sends :
      (ks : List Contact) (ms : List Message) (r : Option JobResult × Store)
      → Sends claim ks ms r
      → Sends claim ks ms (recover_job host claim r)
  unfolding recover_job
  recover_job-Sends ks ms (some r, db) h = h
  recover_job-Sends ks ms (none, db) h =
      continue-Sends claim ks ms (fail_claimed_job host.parse_date claim false db)
        (finish (skipped processing_failed)) (fail-Sends claim ks ms host false db h) (λ db' k. k)

  -- Processing a job, whatever becomes of it, only adds messages: each is addressed to a contact of
  -- the job's organization that the preflight allows, under the key of the job and the contact; and
  -- if no two messages of an organization had one key before, none have one afterwards, so a job that
  -- is processed again sends no contact a second message.
  pub process_claimed_job_safely-Sends :
      (db : Store) → Sends claim db.contacts db.messages (process_claimed_job_safely host claim db)
  unfolding process_claimed_job_safely
  process_claimed_job_safely-Sends db =
      recover_job-Sends db.contacts db.messages (process_claimed_job host claim db)
        (process_claimed_job-Sends db)
