-- ===== src/Messaging/Worker/Authority.antt =====
-- What `prepareClaimedDirectMessageAttempt` has checked when it lets an attempt go to its provider.
use signalstack_sms.Prelude.{
  ℕ, String, true, false, Option, none, some, ◌≡◌, refl, subst, if_case, option_case, update_row,
  keep_if, keep_if-some, find_row, find_row-updated, str_eq, eq_iff, if◌then◌else◌, or_else,
}
use signalstack_sms.Messaging.Model.{
  Message, Attempt, Database, find_attempt-id, dummy, twilio, is_dummy, find_attempt, find_message,
  update_attempt, update_message,
}
use signalstack_sms.Messaging.Readiness.{Environment, Readiness, direct_message_worker_readiness}
use signalstack_sms.Messaging.Worker.Defs.{
  Claim, Prepared, claim_is_valid, close_attempt, enqueue_lifecycle, Lifecycle,
}
use signalstack_sms.Messaging.Worker.Prepare.{
  Host, Directory, ContactRow, OrganizationRow, AccountRow, SenderRow, SecretRow, PrepareResult,
  holds_claim, is_processing, still_holds, recipient_is_blocked, contact_of, is_ready_for_twilio,
  both, provider_authority, gate_passes, accepted_payload_matches, lease_runs, started_attempt,
  prepared_attempt, cancel_claimed_attempt, begin_call, prepare_authority, prepare_live,
  prepare_dummy, prepare_recipient, prepare_claimed_attempt,
}

-- `P` holds of each attempt that the transaction prepares, with the database that it leaves.
abbrev Ensures : (Prepared → Database → Type 0) → Option (PrepareResult × Database) → Type 0
Ensures P (some (PrepareResult.prepared p, db)) = P p db
Ensures P _ = Unit

-- What is asked of a live attempt.
pub record IsLive (host : Host) (env : Environment) (now : ℕ) (contact : ContactRow)
    (org : OrganizationRow) (a : Attempt) (db' : Database) : Type 0 where
  pub ready :
      direct_message_worker_readiness host.lower_case host.valid_https_origin host.valid_master_key
        env
      ≡ Readiness.allowed twilio
  pub gate : gate_passes host env org contact a now ≡ true
  pub secret : SecretRow
  pub begun : find_attempt a.id db' ≡ some (started_attempt secret now a)

-- What is asked of either kind: a live attempt has begun, a dummy one leaves the database as it was.
abbrev pub IsCleared :
    Host → Environment → ℕ → ContactRow → OrganizationRow → Attempt → Database → Database → Type 0
IsCleared host env now contact org a db db' =
    if is_dummy a.transport
    then (recipient_is_blocked contact ≡ false) × (db' ≡ db)
    else IsLive host env now contact org a db'

pub record IsAuthorized (host : Host) (c : Claim) (env : Environment) (dir : Directory) (now : ℕ)
    (db : Database) (p : Prepared) (db' : Database) : Type 0 where
  pub attempt : Attempt
  pub message : Message
  pub contact : ContactRow
  pub org : OrganizationRow
  pub found : find_attempt c.attempt_id db ≡ some attempt
  pub held : holds_claim c attempt ≡ true
  pub message_found : find_message attempt.message_id db ≡ some message
  pub processing : is_processing message ≡ true
  pub payload : accepted_payload_matches message attempt ≡ true
  pub lease : lease_runs attempt.processing_expires_at now ≡ true
  pub contact_found : contact_of message.contact_id c.expected_org_id dir ≡ some contact
  pub org_found : find_row OrganizationRow.id c.expected_org_id dir.organizations ≡ some org
  pub same_phone : contact.phone ≡ attempt.destination
  pub cleared : IsCleared host env now contact org attempt db db'
  pub attempt_id : p.attempt_id ≡ attempt.id
  pub transport : p.transport ≡ attempt.transport
  pub destination : p.destination ≡ attempt.destination
  pub body : p.body ≡ attempt.body
  pub media_urls : p.media_urls ≡ attempt.media_urls

-- Of a prepared attempt: whose it is.
abbrev IsOf : Attempt → Prepared → Type 0
IsOf a p =
    (p.attempt_id ≡ a.id)
    × (p.transport ≡ a.transport)
    × (p.destination ≡ a.destination)
    × (p.body ≡ a.body)
    × (p.media_urls ≡ a.media_urls)

prepared_attempt-IsOf :
    (a : Attempt) (c : Claim) (t : Option ℕ) (s : _) (from : String) (url : Option String)
    → IsOf a (prepared_attempt a c t s from url)
unfolding prepared_attempt
prepared_attempt-IsOf a c t s from url = (refl, refl, refl, refl, refl)

started_attempt-id : (s : SecretRow) (now : ℕ) (a : Attempt) → (started_attempt s now a).id ≡ a.id
unfolding started_attempt
started_attempt-id s now a = refl

module _ (host : Host) (c : Claim) (env : Environment) (dir : Directory) (now : ℕ) (m : Message)
    (a : Attempt) (db : Database) (found : find_attempt a.id db ≡ some a) where
  cancel_claimed_attempt-Ensures :
      (P : Prepared → Database → Type 0) (code : String)
      → Ensures P (cancel_claimed_attempt host m a now code db)
  unfolding cancel_claimed_attempt close_attempt update_attempt update_message
  cancel_claimed_attempt-Ensures P code = after (
      enqueue_lifecycle host.accepts host.decimal m Lifecycle.cancelled a.attempt_number none none
        _)
    where
      after :
          (o : Option (Unit {0} × Database))
          → Ensures P (elim o [ none ↦ none | some (_, d) ↦ some (PrepareResult.cancelled, d) ])
      after none = tt
      after (some (_, d)) = tt

  begun-find :
      (secret : SecretRow)
      → find_attempt a.id (record db {
        attempts = update_row Attempt.id a.id (started_attempt secret now) db.attempts;
      })
        ≡ some (started_attempt secret now a)
  unfolding find_attempt
  begun-find secret =
      find_row-updated Attempt.id a.id (started_attempt secret now) db.attempts a found
        (started_attempt-id secret now a)

  module _ (contact : ContactRow) (org : OrganizationRow)
      (ready : direct_message_worker_readiness host.lower_case host.valid_https_origin
          host.valid_master_key env
        ≡ Readiness.allowed twilio)
      (gate : gate_passes host env org contact a now ≡ true) where
    abbrev GoesLive : Prepared → Database → Type 0
    GoesLive p db' = IsOf a p × IsLive host env now contact org a db'

    begin_call-Ensures :
        (authority : AccountRow × SenderRow × SecretRow)
        → Ensures GoesLive (begin_call host c env now m a authority db)
    unfolding begin_call update_attempt
    begin_call-Ensures authority =
        option_case (Ensures GoesLive)
          (host.callback_url (or_else env.app_url "") c.expected_org_id a.id
            a.callback_correlation_id (or_else env.secrets_master_key ""))
          _ _ (λ _. cancel_claimed_attempt-Ensures GoesLive _)
          λ url _.
            if_case (Ensures GoesLive) (still_holds c a now) _ _
              (λ _. (
                prepared_attempt-IsOf a c _ _ _ _,
                record {
                  ready = ready;
                  gate = gate;
                  secret = authority.2;
                  begun = begun-find authority.2;
                },
              ))
              (λ _. tt)

    prepare_authority-Ensures : Ensures GoesLive (prepare_authority host c env dir now m a db)
    unfolding prepare_authority
    prepare_authority-Ensures =
        option_case (Ensures GoesLive) (both a.provider_account_id a.provider_phone_number_id) _ _
          (λ _. cancel_claimed_attempt-Ensures GoesLive _)
          λ binding _.
            option_case (Ensures GoesLive)
              (provider_authority host dir c.expected_org_id binding.0 binding.1 now a.media_urls) _
              _ (λ _. cancel_claimed_attempt-Ensures GoesLive _)
              λ authority _. begin_call-Ensures authority

  abbrev Clears : ContactRow → OrganizationRow → Prepared → Database → Type 0
  Clears contact org p db' = IsOf a p × IsCleared host env now contact org a db db'

  ready_iff : (r : Readiness) → is_ready_for_twilio r ≡ true → r ≡ Readiness.allowed twilio
  ready_iff (Readiness.allowed twilio) h = refl
  ready_iff (Readiness.allowed dummy) h = cc
  ready_iff (Readiness.refused reason) h = cc

  Ensures-map :
      (P Q : Prepared → Database → Type 0)
      → ((p : Prepared) (d : Database) → P p d → Q p d)
      → (o : Option (PrepareResult × Database)) → Ensures P o
      → Ensures Q o
  Ensures-map P Q f none h = tt
  Ensures-map P Q f (some (PrepareResult.prepared p, d)) h = f p d h
  Ensures-map P Q f (some (PrepareResult.cancelled, d)) h = tt
  Ensures-map P Q f (some (PrepareResult.skipped, d)) h = tt

  prepare_live-Ensures :
      (contact : ContactRow) (org : OrganizationRow)
      → is_dummy a.transport ≡ false
      → Ensures (Clears contact org) (prepare_live host c env dir now m a contact org db)
  unfolding prepare_live
  prepare_live-Ensures contact org live =
      let readiness =
        direct_message_worker_readiness host.lower_case host.valid_https_origin
          host.valid_master_key env in
      if_case (Ensures (Clears contact org)) (is_ready_for_twilio readiness) _ _
        (λ ready.
          if_case (Ensures (Clears contact org)) (gate_passes host env org contact a now) _ _
            (λ gate.
              Ensures-map (GoesLive contact org (ready_iff readiness ready) gate)
                (Clears contact org) (λ p d (whose, goes). (whose, rw live goes))
                (prepare_authority host c env dir now m a db)
                (prepare_authority-Ensures contact org (ready_iff readiness ready) gate))
            (λ _. cancel_claimed_attempt-Ensures (Clears contact org) _))
        (λ _. cancel_claimed_attempt-Ensures (Clears contact org) _)

  prepare_dummy-Ensures :
      (contact : ContactRow) (org : OrganizationRow)
      → is_dummy a.transport ≡ true
      → Ensures (Clears contact org) (prepare_dummy host c now m a contact db)
  unfolding prepare_dummy
  prepare_dummy-Ensures contact org is_demo =
      if_case (Ensures (Clears contact org)) (recipient_is_blocked contact) _ _
        (λ _. cancel_claimed_attempt-Ensures (Clears contact org) _)
        (λ open_recipient. (
          prepared_attempt-IsOf a c none none "+15555550199" none,
          rw is_demo (open_recipient, refl),
        ))

  module _ (claimed : find_attempt c.attempt_id db ≡ some a) (held : holds_claim c a ≡ true)
      (message_found : find_message a.message_id db ≡ some m) (processing : is_processing m ≡ true)
      (payload : accepted_payload_matches m a ≡ true)
      (lease : lease_runs a.processing_expires_at now ≡ true) where
    abbrev Authorizes : Prepared → Database → Type 0
    Authorizes p db' = IsAuthorized host c env dir now db p db'

    prepare_recipient-Ensures : Ensures Authorizes (prepare_recipient host c env dir now m a db)
    unfolding prepare_recipient
    prepare_recipient-Ensures =
        option_case (Ensures Authorizes) (contact_of m.contact_id c.expected_org_id dir) _ _
          (λ _. cancel_claimed_attempt-Ensures Authorizes _)
          λ contact contact_found.
            option_case (Ensures Authorizes)
              (find_row OrganizationRow.id c.expected_org_id dir.organizations) _ _
              (λ _. cancel_claimed_attempt-Ensures Authorizes _)
              λ org org_found.
                if_case (Ensures Authorizes) (str_eq contact.phone a.destination) _ _
                  (λ same_phone.
                    let collect : (p : Prepared) (d : Database)
                        → Clears contact org p d
                        → Authorizes p d =
                      λ p d h. record {
                        attempt = a;
                        message = m;
                        contact = contact;
                        org = org;
                        found = claimed;
                        held = held;
                        message_found = message_found;
                        processing = processing;
                        payload = payload;
                        lease = lease;
                        contact_found = contact_found;
                        org_found = org_found;
                        same_phone = (eq_iff contact.phone a.destination).0 same_phone;
                        cleared = h.1;
                        attempt_id = h.0.0;
                        transport = h.0.1;
                        destination = h.0.2;
                        body = h.0.3;
                        media_urls = h.0.4;
                      } in
                    if_case (Ensures Authorizes) (is_dummy a.transport) _ _
                      (λ is_demo.
                        Ensures-map (Clears contact org) Authorizes collect _
                          (prepare_dummy-Ensures contact org is_demo))
                      (λ live.
                        Ensures-map (Clears contact org) Authorizes collect _
                          (prepare_live-Ensures contact org live)))
                  (λ _. cancel_claimed_attempt-Ensures Authorizes _)

prepare_claimed_attempt-Ensures :
    (host : Host) (c : Claim) (env : Environment) (dir : Directory) (now : ℕ) (db : Database)
    → Ensures (IsAuthorized host c env dir now db) (prepare_claimed_attempt host c env dir now db)
unfolding prepare_claimed_attempt
prepare_claimed_attempt-Ensures host c env dir now db =
    let P = IsAuthorized host c env dir now db in
    if_case (Ensures P) (claim_is_valid c) _ none
      (λ _.
        option_case (Ensures P) (keep_if (holds_claim c) (find_attempt c.attempt_id db)) _ _
          (λ _. tt)
          λ a kept.
            let (at_id, held) =
              keep_if-some (holds_claim c) (find_attempt c.attempt_id db) a kept in
            let found = find_attempt-id c.attempt_id db a at_id in
            option_case (Ensures P) (keep_if is_processing (find_message a.message_id db)) _ _
              (λ _. tt)
              λ m read.
                let (m_found, processing) =
                  keep_if-some is_processing (find_message a.message_id db) m read in
                if_case (Ensures P) (accepted_payload_matches m a) _ _
                  (λ payload.
                    if_case (Ensures P) (lease_runs a.processing_expires_at now) _ _
                      (λ lease.
                        prepare_recipient-Ensures host c env dir now m a db found at_id held m_found
                          processing payload lease)
                      (λ _. tt))
                  (λ _. cancel_claimed_attempt-Ensures host c env dir now m a db found P _))
      (λ _. tt)

-- When an attempt is prepared for its provider, the claim holds it (same organization and token,
-- processing, not completed, no call begun) and its lease runs; its message is processing with the
-- payload that was accepted; the recipient is a contact of the organization with the attempt's
-- number; a dummy attempt's recipient is not blocked and the database is as it was; a live attempt
-- has a worker that is ready for the live provider, has passed the hard gate on the contact as it is
-- now, and the start of its call is on its row; and what is sent is what the row says.
pub prepare_claimed_attempt-IsAuthorized :
    (host : Host) (c : Claim) (env : Environment) (dir : Directory) (now : ℕ) (db db' : Database)
    (p : Prepared)
    → prepare_claimed_attempt host c env dir now db ≡ some (PrepareResult.prepared p, db')
    → IsAuthorized host c env dir now db p db'
prepare_claimed_attempt-IsAuthorized host c env dir now db db' p e =
    subst (Ensures (IsAuthorized host c env dir now db)) e
      (prepare_claimed_attempt-Ensures host c env dir now db)
