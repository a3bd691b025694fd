-- ===== src/Queue/Completion.antt =====
-- What a job that was processed leaves: the job and its campaign are completed together.
use signalstack_sms.Prelude.{
  ℕ, String, true, false, ◌&&◌, Option, none, some, List, [], ◌∷◌, ◌≡◌, refl, subst, option_case,
  str_eq, keep_if, keep_if-some, find_row, find_row-key, find_row-updated, map,
}
use signalstack_sms.Compliance.Gates.Defs.{preflight_campaign_recipients}
use signalstack_sms.Queue.Model.{
  JobStatus, CampaignStatus, Payload, Job, Campaign, Store, Tx, commit, continue, finish,
  is_scheduled, find_job, find_campaign,
}
use signalstack_sms.Queue.Claims.{
  SkipReason, send_preflight_failed, invalid_campaign, stale_schedule, invalid_payload,
  processing_failed, holds_job, write_job, released_job, transition_claimed_job, still_scheduled,
  moved_campaign, move_campaign, transition_with_campaign, own_payload, fail_claimed_job,
}
use signalstack_sms.Queue.Process.{
  Host, JobResult, processed, skipped, Addressee, addressees, sendable, write_marks, send_all,
  send_campaign, preflight_campaign, active_schedule, process_campaign, process_claimed_job,
  recover_job, process_claimed_job_safely,
}

-- The job and the campaign of a payload are completed in the store.
pub record IsCompleted (claim : Job) (id : String) (db : Store) : Type 0 where
  pub job : Job
  pub found : find_job claim.id db ≡ some job
  pub ended : job.status ≡ JobStatus.completed
  pub campaign : Campaign
  pub there : find_campaign id db ≡ some campaign
  pub moved : campaign.status ≡ CampaignStatus.completed

-- If the result is that the job was processed, it is completed, with the campaign of its payload.
abbrev pub Completes : Job → Option JobResult × Store → Type 0
Completes claim (none, db) = Unit
Completes claim (some (skipped r), db) = Unit
Completes claim (some processed, db) =
    (p : Payload) × (own_payload claim ≡ some p) × IsCompleted claim p.campaign_id db

abbrev Moves : Job → String → Option (Unit {0} × Store) → Type 0
Moves claim id none = Unit
Moves claim id (some (u, db)) = IsCompleted claim id db

module _ (claim : Job) where
  released-found :
      (s : JobStatus) (j : Job) (db : Store)
      → find_job claim.id db ≡ some j
      → find_job claim.id (write_job claim (released_job s) db) ≡ some (released_job s j)
  unfolding find_job write_job released_job
  released-found s j db e = find_row-updated Job.id claim.id (released_job s) db.jobs j e refl

  released-status : (s : JobStatus) (j : Job) → (released_job s j).status ≡ s
  unfolding released_job
  released-status s j = refl

  move_campaign-Moves :
      (id : String) (t : ℕ) (j : Job) (db : Store)
      → find_job claim.id db ≡ some j
      → j.status ≡ JobStatus.completed
      → Moves claim id (move_campaign claim id CampaignStatus.completed t true db)
  unfolding move_campaign find_job find_campaign moved_campaign
  move_campaign-Moves id t j db found ended =
      option_case (Moves claim id)
        (keep_if (still_scheduled claim t) (find_row Campaign.id id db.campaigns)) _ _ (λ _. tt)
        λ c kept.
          let (read, _) =
            keep_if-some (still_scheduled claim t) (find_row Campaign.id id db.campaigns) c kept in
          record {
            job = j;
            found = found;
            ended = ended;
            campaign = moved_campaign CampaignStatus.completed c;
            there =
                find_row-updated Campaign.id id (moved_campaign CampaignStatus.completed)
                  db.campaigns c read refl;
            moved = refl;
          }

  abbrev Ended : Option (Unit {0} × Store) → Type 0
  Ended none = Unit
  Ended (some (u, db)) =
      (j : Job) × (find_job claim.id db ≡ some j) × (j.status ≡ JobStatus.completed)

  transition-Ended : (db : Store) → Ended (transition_claimed_job claim JobStatus.completed db)
  unfolding transition_claimed_job
  transition-Ended db =
      option_case Ended (keep_if (holds_job claim) (find_job claim.id db)) _ _ (λ _. tt)
        λ j kept.
          let (read, _) = keep_if-some (holds_job claim) (find_job claim.id db) j kept in
          (
            released_job JobStatus.completed j,
            released-found JobStatus.completed j db read,
            released-status JobStatus.completed j,
          )

  Ended-Moves :
      (id : String) (t : ℕ) (o : Option (Unit {0} × Store))
      → Ended o
      → Moves claim id (elim o [
        | none ↦ none
        | some (u, db) ↦ move_campaign claim id CampaignStatus.completed t true db
      ])
  Ended-Moves id t none h = tt
  Ended-Moves id t (some (u, db)) (j, found, ended) = move_campaign-Moves id t j db found ended

  transition-Moves :
      (id : String) (t : ℕ) (db : Store)
      → Moves claim id
          (transition_with_campaign claim JobStatus.completed id CampaignStatus.completed t true db)
  unfolding transition_with_campaign
  transition-Moves id t db =
      Ended-Moves id t (transition_claimed_job claim JobStatus.completed db) (transition-Ended db)

  finish-Completes :
      (p : Payload) (o : Option (Unit {0} × Store)) (db : Store)
      → own_payload claim ≡ some p
      → Moves claim p.campaign_id o
      → Completes claim (
          continue {A = Unit {0}}
            (elim o [ none ↦ (none, db) | some (u, db') ↦ (some u, db') ])
            (finish processed))
  finish-Completes p none db own h = tt
  finish-Completes p (some (u, db')) db own h = (p, own, h)

  skipped-Completes :
      {A : Type 0} (r : SkipReason) (x : Option A × Store)
      → Completes claim (continue x (finish (skipped r)))
  skipped-Completes r (none, db) = tt
  skipped-Completes r (some a, db) = tt

  chained-Completes :
      (x : Option (Unit {0}) × Store) (m : Tx (Unit {0}))
      → ((db : Store) → Completes claim (continue (commit m db) (finish processed)))
      → Completes claim (continue (continue x (commit m)) (finish processed))
  chained-Completes (none, db) m h = tt
  chained-Completes (some u, db) m h = h db

  module _ (host : Host) where
    send_campaign-Completes :
        (p : Payload) (c : Campaign) (t : ℕ) (group : List Addressee) (db : Store)
        → own_payload claim ≡ some p
        → c.id ≡ p.campaign_id
        → Completes claim (send_campaign host claim c t group db)
    unfolding send_campaign
    send_campaign-Completes p c t [] db own same =
        skipped-Completes send_preflight_failed (fail_claimed_job host.parse_date claim true db)
    send_campaign-Completes p c t (a ∷ rest) db own same =
        let moves =
          transition_with_campaign claim JobStatus.completed c.id CampaignStatus.completed t true in
        chained-Completes (send_all host claim c (a ∷ rest) db) moves (λ db'.
          finish-Completes p (moves db') db' own
            (subst (λ id. Moves claim id (moves db')) same (transition-Moves c.id t db')))

    preflight_campaign-Completes :
        (p : Payload) (c : Campaign) (t : ℕ) (group : List Addressee) (db : Store)
        → own_payload claim ≡ some p
        → c.id ≡ p.campaign_id
        → Completes claim (preflight_campaign host claim c t group db)
    unfolding preflight_campaign write_marks
    preflight_campaign-Completes p c t group db own same =
        let ps =
          (preflight_campaign_recipients (map (λ a. a.contact.card) group) none).recipients in
        send_campaign-Completes p c t (sendable ps group) (record db { recipients = _ }) own same

    campaign-key :
        (id : String) (c : Campaign) (db : Store) → find_campaign id db ≡ some c → c.id ≡ id
    unfolding find_campaign
    campaign-key id c db e = find_row-key Campaign.id id db.campaigns c e

    process_claimed_job-Completes :
        (db : Store) → Completes claim (process_claimed_job host claim db)
    unfolding process_claimed_job process_campaign
    process_claimed_job-Completes db =
        option_case (Completes claim) (own_payload claim) _ _
          (λ _.
            skipped-Completes invalid_payload
              (commit (transition_claimed_job claim JobStatus.failed) db))
          λ p own.
            option_case (Completes claim)
              (keep_if (λ c. str_eq c.org_id claim.org_id && is_scheduled c.status)
                (find_campaign p.campaign_id db))
              _ _
              (λ _.
                skipped-Completes invalid_campaign
                  (commit (transition_claimed_job claim JobStatus.failed) db))
              λ c kept.
                let (read, _) =
                  keep_if-some (λ c. str_eq c.org_id claim.org_id && is_scheduled c.status)
                    (find_campaign p.campaign_id db) c kept in
                option_case (Completes claim) (active_schedule host p c) _ _
                  (λ _.
                    skipped-Completes stale_schedule
                      (commit (transition_claimed_job claim JobStatus.cancelled) db))
                  (λ t _.
                    preflight_campaign-Completes p c t (addressees claim c db db.recipients) db own
                      (campaign-key p.campaign_id c db read))

    recover_job-Completes :
        (x : Option JobResult × Store)
        → Completes claim x
        → Completes claim (recover_job host claim x)
    unfolding recover_job
    recover_job-Completes (some r, db) h = h
    recover_job-Completes (none, db) h =
        skipped-Completes processing_failed (fail_claimed_job host.parse_date claim false db)

    -- A job that is reported as processed is completed in the store, and so is the campaign of its
    -- payload.
    pub process_claimed_job_safely-Completes :
        (db : Store) → Completes claim (process_claimed_job_safely host claim db)
    unfolding process_claimed_job_safely
    process_claimed_job_safely-Completes db =
        recover_job-Completes (process_claimed_job host claim db) (process_claimed_job-Completes db)
