-- ===== src/Queue/Settle.antt =====
-- Processing a job that is held: every way to end it releases it.
use signalstack_sms.Prelude.{
  ℕ, String, Bool, true, false, Option, none, some, List, [], ◌∷◌, ◌≡◌, refl, arith, if_case,
  option_case, keep_if, find_row,
}
use signalstack_sms.Queue.Model.{
  JobStatus, CampaignStatus, Payload, Job, Campaign, Store, commit, continue, finish, job_is,
  find_job, find_campaign,
}
use signalstack_sms.Queue.Claims.{
  send_preflight_failed, transition_claimed_job, still_scheduled, move_campaign, renew_claimed_job,
  transition_with_campaign, own_payload, failing_transition, fail_claimed_job,
}
use signalstack_sms.Queue.Process.{
  Host, processed, skipped, Addressee, upsert_message, outbound_message, send_one, send_all,
  send_campaign,
}
use signalstack_sms.Queue.Release.{
  IsHeld, IsReleased, StillHeld, Settles, Releases, LeavesReleased, continue_held, renew-StillHeld,
  upsert-StillHeld, transition-Releases, move-IsReleased,
}

-- The campaign that a job is about can still be moved.
abbrev pub IsMovable : Job → List Campaign → String → ℕ → Type 0
IsMovable claim cs id t =
    (c : Campaign) × (find_row Campaign.id id cs ≡ some c) × (still_scheduled claim t c ≡ true)

module _ (claim : Job) (cs : List Campaign) where
  Settles-of :
      (o : Option (Unit {0} × Store)) (db : Store)
      → IsHeld claim cs db
      → LeavesReleased claim o
      → Settles {A = Unit {0}} claim cs
          (elim o [ none ↦ (none, db) | some (u, db') ↦ (some u, db') ])
  Settles-of none db h k = h
  Settles-of (some (u, db')) db h k = k

  pub then_finish :
      {A B : Type 0} (a : B) (r : Option A × Store)
      → Settles claim cs r
      → Settles claim cs (continue r (finish a))
  then_finish a (none, db) h = h
  then_finish a (some u, db) h = h

  released_finish :
      {A B : Type 0} (a : B) (r : Option A × Store)
      → Releases claim r
      → Settles claim cs (continue r (finish a))
  released_finish a (none, db) h = absurd h
  released_finish a (some u, db) h = h

  pub transition-Settles :
      (s : JobStatus) (db : Store)
      → job_is s JobStatus.processing ≡ false
      → IsHeld claim cs db
      → Settles claim cs (commit (transition_claimed_job claim s) db)
  transition-Settles s db idle h =
      let (db', e, released, _) = transition-Releases claim cs s db idle h in
      rw (e, Settles, commit) released

  transition_with_campaign-LeavesReleased :
      (s : JobStatus) (id : String) (c : CampaignStatus) (t : ℕ) (b : Bool) (db : Store)
      → job_is s JobStatus.processing ≡ false
      → IsHeld claim cs db
      → LeavesReleased claim (transition_with_campaign claim s id c t b db)
  unfolding transition_with_campaign
  transition_with_campaign-LeavesReleased s id c t b db idle h =
      let (db', e, released, _) = transition-Releases claim cs s db idle h in
      rw (e, transition_with_campaign) (move-IsReleased claim cs id c t db' released b)

  campaign-found :
      (id : String) (c : Campaign) (db : Store)
      → db.campaigns ≡ cs
      → find_row Campaign.id id cs ≡ some c
      → find_campaign id db ≡ some c
  unfolding find_campaign
  campaign-found id c db same e = rw same e

  moved-IsReleased :
      (db : Store) (rows : List Campaign)
      → IsReleased claim db
      → IsReleased claim (record db { campaigns = rows })
  unfolding find_job
  moved-IsReleased db rows h = record { job = h.job; found = h.found; idle = h.idle; free = h.free }

  abbrev Given : Option (Unit {0} × Store) → Type 0
  Given none = ⊥
  Given (some (u, db)) = IsReleased claim db

  move-Given :
      (id : String) (s : CampaignStatus) (t : ℕ) (b : Bool) (db : Store)
      → IsReleased claim db
      → db.campaigns ≡ cs
      → (b ≡ true → IsMovable claim cs id t)
      → Given (move_campaign claim id s t b db)
  unfolding move_campaign
  move-Given id s t b db h same movable =
      option_case Given (keep_if (still_scheduled claim t) (find_campaign id db)) _ _
        (λ gone.
          if_case Given b _ _
            (λ required.
              let (c, found, still) = movable required in
              absurd (
                keep-absurd (find_campaign id db) c (campaign-found id c db same found) still gone))
            (λ _. h))
        (λ c _. moved-IsReleased db _ h)
    where
      keep-absurd :
          (o : Option Campaign) (c : Campaign)
          → o ≡ some c
          → still_scheduled claim t c ≡ true
          → keep_if (still_scheduled claim t) o ≡ none
          → ⊥
      keep-absurd none c e k g = ground arith
      keep-absurd (some d) c e k g = ground arith

  failing_transition-Given :
      (host : Host) (required : Bool) (o : Option Payload) (db : Store)
      → IsHeld claim cs db
      → ((p : Payload)
          → o ≡ some p
          → required ≡ true
          → IsMovable claim cs p.campaign_id (host.parse_date p.scheduled_at))
      → Given (failing_transition host.parse_date claim o required db)
  unfolding failing_transition transition_with_campaign
  failing_transition-Given host required none db h movable =
      let (db', e, released, same) = transition-Releases claim cs JobStatus.failed db refl h in
      rw (e, Given) released
  failing_transition-Given host required (some p) db h movable =
      let (db', e, released, same) = transition-Releases claim cs JobStatus.failed db refl h in
      rw (e, transition_with_campaign)
        (move-Given p.campaign_id CampaignStatus.paused (host.parse_date p.scheduled_at) required
          db' released same (movable p refl))

  Given-of :
      (o : Option (Unit {0} × Store)) (db : Store)
      → Given o
      → Releases {A = Unit {0}} claim
          (elim o [ none ↦ (some tt, db) | some (u, db') ↦ (some tt, db') ])
  Given-of none db h = absurd h
  Given-of (some (u, db')) db h = h

  pub fail-Releases :
      (host : Host) (required : Bool) (db : Store)
      → IsHeld claim cs db
      → ((p : Payload)
          → own_payload claim ≡ some p
          → required ≡ true
          → IsMovable claim cs p.campaign_id (host.parse_date p.scheduled_at))
      → Releases claim (fail_claimed_job host.parse_date claim required db)
  unfolding fail_claimed_job
  fail-Releases host required db h movable =
      Given-of (failing_transition host.parse_date claim (own_payload claim) required db) db
        (failing_transition-Given host required (own_payload claim) db h movable)

  module _ (host : Host) (c : Campaign) where
    send_one-StillHeld :
        (a : Addressee) (db : Store)
        → IsHeld claim cs db
        → StillHeld claim cs (send_one host claim c a db)
    unfolding send_one
    send_one-StillHeld a db h =
        continue_held claim cs (StillHeld claim cs)
          (commit (renew_claimed_job claim (host.clock a.recipient.contact_id)) db)
          (commit (upsert_message (outbound_message host claim c a)))
          (renew-StillHeld claim cs (host.clock a.recipient.contact_id) db h) (λ db' h'. h')
          (λ db' h'. upsert-StillHeld claim cs (outbound_message host claim c a) db' h')

    send_all-StillHeld :
        (group : List Addressee) (db : Store)
        → IsHeld claim cs db
        → StillHeld claim cs (send_all host claim c group db)
    unfolding send_all
    send_all-StillHeld [] db h = h
    send_all-StillHeld (a ∷ rest) db h =
        continue_held claim cs (StillHeld claim cs) (send_one host claim c a db)
          (send_all host claim c rest) (send_one-StillHeld a db h) (λ db' h'. h')
          (λ db' h'. send_all-StillHeld rest db' h')

    pub send_campaign-Settles :
        (t : ℕ) (group : List Addressee) (db : Store)
        → IsHeld claim cs db
        → ((p : Payload)
            → own_payload claim ≡ some p
            → IsMovable claim cs p.campaign_id (host.parse_date p.scheduled_at))
        → Settles claim cs (send_campaign host claim c t group db)
    unfolding send_campaign
    send_campaign-Settles t [] db h movable =
        released_finish (skipped send_preflight_failed)
          (fail_claimed_job host.parse_date claim true db)
          (fail-Releases host true db h (λ p e _. movable p e))
    send_campaign-Settles t (a ∷ rest) db h movable =
        then_finish processed
          (continue (send_all host claim c (a ∷ rest) db) (
            commit (
              transition_with_campaign claim JobStatus.completed c.id CampaignStatus.completed t
                true)))
          (continue_held claim cs (Settles claim cs) (send_all host claim c (a ∷ rest) db)
            (commit (
              transition_with_campaign claim JobStatus.completed c.id CampaignStatus.completed t
                true))
            (send_all-StillHeld (a ∷ rest) db h) (λ db' h'. h')
            (λ db' h'.
              Settles-of
                (transition_with_campaign claim JobStatus.completed c.id CampaignStatus.completed t
                  true db')
                db' h'
                (transition_with_campaign-LeavesReleased JobStatus.completed c.id
                  CampaignStatus.completed t true db' refl h')))
