-- ===== src/Queue/Laws.antt =====
-- The whole of processing a job: it is released, and a completed one completes its campaign.
use signalstack_sms.Prelude.{
  ℕ, String, true, false, ◌&&◌, Option, none, some, List, ◌≡◌, refl, sym, ◌∙◌, ap, subst, arith,
  option_case, str_eq, eq_iff, keep_if, keep_if-some, find_row, map,
}
use signalstack_sms.Compliance.Gates.Defs.{preflight_campaign_recipients}
use signalstack_sms.Queue.Model.{
  JobStatus, Payload, Job, Campaign, Store, commit, continue, finish, is_scheduled, find_campaign,
}
use signalstack_sms.Queue.Claims.{
  invalid_campaign, stale_schedule, invalid_payload, processing_failed, transition_claimed_job,
  still_scheduled, own_payload, fail_claimed_job,
}
use signalstack_sms.Queue.Process.{
  Host, JobResult, skipped, Addressee, addressees, sendable, write_marks, send_campaign,
  preflight_campaign, active_schedule, process_campaign, process_claimed_job, recover_job,
  process_claimed_job_safely,
}
use signalstack_sms.Queue.Release.{IsHeld, Settles, Releases, continue_held, marks-StillHeld}
use signalstack_sms.Queue.Settle.{
  IsMovable, then_finish, transition-Settles, fail-Releases, send_campaign-Settles,
}

module _ (host : Host) (dates : (t : ℕ) → host.parse_date (host.to_iso t) ≡ t) (claim : Job) where
  active_schedule-movable :
      (p : Payload) (c : Campaign) (t : ℕ)
      → str_eq c.org_id claim.org_id && is_scheduled c.status ≡ true
      → active_schedule host p c ≡ some t
      → still_scheduled claim (host.parse_date p.scheduled_at) c ≡ true
  unfolding active_schedule still_scheduled
  active_schedule-movable p c t h e =
      let (at_time, same) =
        keep_if-some (λ u. str_eq (host.to_iso u) p.scheduled_at) c.scheduled_at t e in
      let text : host.to_iso t ≡ p.scheduled_at =
        ground (arith, eq_iff (host.to_iso t) p.scheduled_at) in
      let date : host.parse_date p.scheduled_at ≡ t = ap host.parse_date (sym text) ∙ dates t in
      rw (date, at_time) (ground (arith))

  payload_unique : (p q : Payload) → own_payload claim ≡ some p → own_payload claim ≡ some q → p ≡ q
  payload_unique p q h k = ground arith

  campaign-row :
      (id : String) (c : Campaign) (db : Store)
      → find_campaign id db ≡ some c
      → find_row Campaign.id id db.campaigns ≡ some c
  unfolding find_campaign
  campaign-row id c db e = e

  preflight_campaign-Settles :
      (c : Campaign) (cs : List Campaign) (t : ℕ) (group : List Addressee) (db : Store)
      → IsHeld claim cs db
      → ((p : Payload)
          → own_payload claim ≡ some p
          → IsMovable claim cs p.campaign_id (host.parse_date p.scheduled_at))
      → Settles claim cs (preflight_campaign host claim c t group db)
  unfolding preflight_campaign
  preflight_campaign-Settles c cs t group db h movable =
      let ps = (preflight_campaign_recipients (map (λ a. a.contact.card) group) none).recipients in
      continue_held claim cs (Settles claim cs) (commit (write_marks ps group) db)
        (send_campaign host claim c t (sendable ps group)) (marks-StillHeld claim cs ps group db h)
        (λ db' h'. h')
        (λ db' h'. send_campaign-Settles claim cs host c t (sendable ps group) db' h' movable)

  process_campaign-Settles :
      (p : Payload) (db : Store)
      → own_payload claim ≡ some p
      → IsHeld claim db.campaigns db
      → Settles claim db.campaigns (process_campaign host claim p db)
  unfolding process_campaign
  process_campaign-Settles p db own h =
      let Ends : Option JobResult × Store → Type 0 = Settles claim db.campaigns in
      option_case Ends
        (keep_if (λ c. str_eq c.org_id claim.org_id && is_scheduled c.status)
          (find_campaign p.campaign_id db))
        _ _
        (λ _.
          then_finish claim db.campaigns (skipped invalid_campaign)
            (commit (transition_claimed_job claim JobStatus.failed) db)
            (transition-Settles claim db.campaigns JobStatus.failed db refl h))
        λ c kept.
          let (found, fits) =
            keep_if-some (λ c. str_eq c.org_id claim.org_id && is_scheduled c.status)
              (find_campaign p.campaign_id db) c kept in
          option_case Ends (active_schedule host p c) _ _
            (λ _.
              then_finish claim db.campaigns (skipped stale_schedule)
                (commit (transition_claimed_job claim JobStatus.cancelled) db)
                (transition-Settles claim db.campaigns JobStatus.cancelled db refl h))
            λ t active.
              preflight_campaign-Settles c db.campaigns t (addressees claim c db db.recipients) db h
                (λ q e.
                  subst
                    (λ x.
                      IsMovable claim db.campaigns x.campaign_id (host.parse_date x.scheduled_at))
                    (payload_unique p q own e)
                    (
                      c,
                      campaign-row p.campaign_id c db found,
                      active_schedule-movable p c t fits active,
                    ))

  process_claimed_job-Settles :
      (db : Store)
      → IsHeld claim db.campaigns db
      → Settles claim db.campaigns (process_claimed_job host claim db)
  unfolding process_claimed_job
  process_claimed_job-Settles db h =
      option_case (Settles claim db.campaigns) (own_payload claim) _ _
        (λ _.
          then_finish claim db.campaigns (skipped invalid_payload)
            (commit (transition_claimed_job claim JobStatus.failed) db)
            (transition-Settles claim db.campaigns JobStatus.failed db refl h))
        (λ p own. process_campaign-Settles p db own h)

  released_after :
      {A B : Type 0} (a : B) (r : Option A × Store)
      → Releases claim r
      → Releases claim (continue r (finish a))
  released_after a (none, db) h = absurd h
  released_after a (some u, db) h = h

  recover_job-Releases :
      (cs : List Campaign) (r : Option JobResult × Store)
      → Settles claim cs r
      → Releases claim (recover_job host claim r)
  unfolding recover_job
  recover_job-Releases cs (some r, db) h = h
  recover_job-Releases cs (none, db) h =
      released_after (skipped processing_failed) (fail_claimed_job host.parse_date claim false db)
        (fail-Releases claim cs host false db h (λ p e required. absurd (cc)))

  -- A worker that holds a job always returns, and the job is then no longer being processed and has
  -- no token: whether the payload, the campaign or the schedule is not the expected one, every
  -- recipient is blocked, messages are sent, or writing a message throws because another one has
  -- the provider's identifier. The claim and the campaigns are taken not to be changed by others
  -- meanwhile, a date to survive being written as a text, and no transaction to fail but by its own
  -- conditions and the unique keys of `Message`.
  pub process_claimed_job_safely-Releases :
      (db : Store)
      → IsHeld claim db.campaigns db
      → Releases claim (process_claimed_job_safely host claim db)
  unfolding process_claimed_job_safely
  process_claimed_job_safely-Releases db h =
      recover_job-Releases db.campaigns (process_claimed_job host claim db)
        (process_claimed_job-Settles db h)
