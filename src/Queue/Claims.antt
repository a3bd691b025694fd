-- ===== src/Queue/Claims.antt =====
-- lib/queue/worker.ts: the transactions on a job under its processing claim. A claim is lost when the
-- job's token is another one; then the transaction throws.
use signalstack_sms.Prelude.{
  ℕ, ◌+◌, ◌*◌, String, Bool, true, false, not, ◌&&◌, ◌||◌, Option, none, some, leb, ltb, ◌==◌,
  str_eq, if◌then◌else◌, is_none, keep_if, update_row,
}
use signalstack_sms.Queue.Model.{
  JobStatus, CampaignStatus, Payload, Job, Campaign, Store, Tx, Exec, job_is, is_scheduled,
  find_job, find_campaign,
}

abbrev pub queue_job_processing_lease_ms : ℕ
queue_job_processing_lease_ms = 5 * 60 * 1000

pub record Reference : Type 0 where
  pub queue_job_id : String
  pub expected_org_id : String

pub data SkipReason : Type 0 where
  missing_job not_due already_claimed invalid_payload invalid_campaign stale_schedule
        send_preflight_failed processing_failed :
      SkipReason

abbrev is_active_job : JobStatus → Bool
is_active_job JobStatus.queued = true
is_active_job JobStatus.processing = true
is_active_job _ = false

abbrev has_expired : ℕ → Option ℕ → Bool
has_expired now none = true
has_expired now (some expires) = leb expires now

-- A job that may be claimed: queued, or left behind by a worker whose lease has expired.
unfoldable pub is_free : ℕ → Job → Bool
is_free now j =
    job_is j.status JobStatus.queued
    || job_is j.status JobStatus.processing
      && (is_none j.processing_token || has_expired now j.processing_expires_at)

unfoldable pub claimed_job : String → ℕ → Job → Job
claimed_job token now j = record j {
  status = JobStatus.processing;
  processing_token = some token;
  processing_expires_at = some (now + queue_job_processing_lease_ms);
}

unfoldable pub write_job : Job → (Job → Job) → Store → Store
write_job j f db = record db { jobs = update_row Job.id j.id f db.jobs }

-- `claimScheduledCampaignQueueJob`: the candidate's own organization is that of the reference.
pub data ClaimResult : Type 0 where
  refused : SkipReason → ClaimResult
  claimed : Job → ClaimResult

unfoldable pub claim_scheduled_job : String → Reference → ℕ → Tx ClaimResult
claim_scheduled_job token r now db =
    elim (keep_if (λ j. str_eq j.org_id r.expected_org_id && is_active_job j.status)
      (find_job r.queue_job_id db)) [
        | none ↦ some (refused missing_job, db)
        | some j ↦
            if ltb now j.run_at
            then some (refused not_due, db)
            else if not (is_free now j)
            then some (refused already_claimed, db)
            else some (claimed (claimed_job token now j), write_job j (claimed_job token now) db)
      ]

abbrev same_token : Option String → Option String → Bool
same_token none none = true
same_token (some a) (some b) = str_eq a b
same_token _ _ = false

-- The condition of every write under a claim.
unfoldable pub holds_job : Job → Job → Bool
holds_job claim j =
    str_eq j.org_id claim.org_id
    && job_is j.status JobStatus.processing
    && same_token j.processing_token claim.processing_token

-- `renewClaimedQueueJob`
unfoldable pub renewed_job : ℕ → Job → Job
renewed_job now j = record j { processing_expires_at = some (now + queue_job_processing_lease_ms) }

unfoldable pub renew_claimed_job : Job → ℕ → Tx (Unit {0})
renew_claimed_job claim now db = elim (keep_if (holds_job claim) (find_job claim.id db)) [
  | none ↦ none
  | some j ↦ some (tt, write_job claim (renewed_job now) db)
]

unfoldable pub released_job : JobStatus → Job → Job
released_job s j = record j { status = s; processing_token = none; processing_expires_at = none }

-- `transitionClaimedQueueJob`
unfoldable pub transition_claimed_job : Job → JobStatus → Tx (Unit {0})
transition_claimed_job claim s db = elim (keep_if (holds_job claim) (find_job claim.id db)) [
  | none ↦ none
  | some j ↦ some (tt, write_job claim (released_job s) db)
]

abbrev pub time_is : ℕ → Option ℕ → Bool
time_is t none = false
time_is t (some u) = u == t

-- The campaign as it was when the job was scheduled.
unfoldable pub still_scheduled : Job → ℕ → Campaign → Bool
still_scheduled claim scheduled_at c =
    str_eq c.org_id claim.org_id && is_scheduled c.status && time_is scheduled_at c.scheduled_at

unfoldable pub moved_campaign : CampaignStatus → Campaign → Campaign
moved_campaign s c = record c { status = s }

unfoldable pub move_campaign : Job → String → CampaignStatus → ℕ → Bool → Tx (Unit {0})
move_campaign claim id s scheduled_at required db =
    elim (keep_if (still_scheduled claim scheduled_at) (find_campaign id db)) [
      | none ↦ if required then none else some (tt, db)
      | some c ↦
          some (
            tt,
            record db { campaigns = update_row Campaign.id id (moved_campaign s) db.campaigns },
          )
    ]

-- `transitionClaimedQueueJobWithCampaign`
unfoldable pub transition_with_campaign :
    Job → JobStatus → String → CampaignStatus → ℕ → Bool → Tx (Unit {0})
transition_with_campaign claim s id cs scheduled_at required db =
    elim (transition_claimed_job claim s db) [
      | none ↦ none
      | some (u, db') ↦ move_campaign claim id cs scheduled_at required db'
    ]

abbrev names_campaign : String → Option String → Bool
names_campaign id none = false
names_campaign id (some c) = str_eq c id

-- The payload, when it is about the job's own organization and campaign.
unfoldable pub own_payload : Job → Option Payload
own_payload j =
    keep_if (λ p. str_eq p.org_id j.org_id && names_campaign p.campaign_id j.campaign_id) j.payload

module _ (parse_date : String → ℕ) where
  -- The transition of `failClaimedQueueJob`, which pauses the campaign that the payload is about.
  unfoldable pub failing_transition : Job → Option Payload → Bool → Tx (Unit {0})
  failing_transition claim none required = transition_claimed_job claim JobStatus.failed
  failing_transition claim (some p) required =
      transition_with_campaign claim JobStatus.failed p.campaign_id CampaignStatus.paused
        (parse_date p.scheduled_at) required

  -- `failClaimedQueueJob`: an error of the transition itself is only logged.
  unfoldable pub fail_claimed_job : Job → Bool → Exec (Unit {0})
  fail_claimed_job claim required db =
      elim (failing_transition claim (own_payload claim) required db) [
        | none ↦ (some tt, db)
        | some (u, db') ↦ (some tt, db')
      ]
