-- ===== src/Queue/Process.antt =====
-- lib/queue/worker.ts, `processClaimedScheduledCampaignQueueJob` and what runs it. The rendering of a
-- template, the demo provider, dates as texts and the clock are parameters.
use Prim.Native.String
use signalstack_sms.Prelude.{
  ℕ, String, Bool, true, false, ◌&&◌, Option, none, some, List, [], ◌∷◌, ◌++◌, map, any, str_eq,
  if◌then◌else◌, or_else, keep_if, update_row,
}
use signalstack_sms.Compliance.Gates.Defs.{
  PreflightRecipient, BlockReason, preflight_campaign_recipients,
}
use signalstack_sms.Queue.Model.{
  JobStatus, CampaignStatus, RecipientStatus, Payload, Job, Campaign, Contact, Recipient, Message,
  Store, Tx, Exec, commit, finish, ◌>>>◌, is_scheduled, find_campaign, find_contact,
}
use signalstack_sms.Queue.Claims.{
  Reference, SkipReason, invalid_payload, invalid_campaign, stale_schedule, send_preflight_failed,
  processing_failed, ClaimResult, refused, claimed, claim_scheduled_job, renew_claimed_job,
  transition_claimed_job, transition_with_campaign, own_payload, fail_claimed_job,
}

pub record Values : Type 0 where
  pub phone : String
  pub email : String
  pub first_name : String
  pub last_name : String
  pub display_name : String

pub record SendResult : Type 0 where
  pub provider_message_id : String
  pub status : String

-- What the code calls: `renderTemplate`, `dummyProvider.send` (at the phone, the body and the key),
-- `toISOString`, `new Date` of a text, and the time at which a contact's turn comes.
pub record Host : Type 0 where
  pub render_template : String → Values → String
  pub send : String → String → String → SendResult
  pub to_iso : ℕ → String
  pub parse_date : String → ℕ
  pub clock : String → ℕ

-- What `processClaimedScheduledCampaignQueueJob` returns.
pub data JobResult : Type 0 where
  processed : JobResult
  skipped : SkipReason → JobResult

-- `campaignMessageValues`
unfoldable pub campaign_message_values : Contact → Values
campaign_message_values c = record {
  phone = c.card.phone;
  email = or_else c.email "";
  first_name = or_else c.first_name "";
  last_name = or_else c.last_name "";
  display_name = or_else c.display_name (or_else c.first_name c.card.phone);
}

-- `outboundCampaignMessageIdempotencyKey`
unfoldable pub outbound_message_key : String → String → String → String
outbound_message_key org_id queue_job_id contact_id =
    String.◌++◌ "dummy-outbound:"
      (String.◌++◌ org_id (String.◌++◌ ":" (String.◌++◌ queue_job_id (String.◌++◌ ":" contact_id))))

pub record Addressee : Type 0 where
  pub recipient : Recipient
  pub contact : Contact

-- The recipients of a campaign with their contacts, both of the job's organization.
unfoldable pub addressee : Job → Campaign → Store → Recipient → Option Addressee
addressee job c db r =
    if str_eq r.campaign_id c.id && str_eq r.org_id job.org_id
    then elim (keep_if (λ k. str_eq k.org_id job.org_id) (find_contact r.contact_id db)) [
      | none ↦ none
      | some k ↦ some (record { recipient = r; contact = k })
    ]
    else none

unfoldable pub addressees : Job → Campaign → Store → List Recipient → List Addressee
addressees job c db [] = []
addressees job c db (r ∷ rows) = elim (addressee job c db r) [
  | none ↦ addressees job c db rows
  | some a ↦ a ∷ addressees job c db rows
]

-- `preflightByContactId.get(id)`: of two entries with one id the later one is in the map.
unfoldable pub preflight_of : String → List PreflightRecipient → Option PreflightRecipient
preflight_of id [] = none
preflight_of id (p ∷ rest) = elim (preflight_of id rest) [
  | some later ↦ some later
  | none ↦ if str_eq p.contact_id id then some p else none
]

abbrev pub passes : Option PreflightRecipient → Bool
passes none = false
passes (some p) = p.allowed

unfoldable pub is_sendable : List PreflightRecipient → Addressee → Bool
is_sendable ps a = passes (preflight_of a.recipient.contact_id ps)

unfoldable pub sendable : List PreflightRecipient → List Addressee → List Addressee
sendable ps [] = []
sendable ps (a ∷ rest) =
    let others = sendable ps rest in if is_sendable ps a then a ∷ others else others

abbrev reasons_of : Option PreflightRecipient → Option (List BlockReason)
reasons_of none = none
reasons_of (some p) = some p.reasons

-- The new status of a recipient of the campaign. The code writes the blocked ones in groups of one
-- reason; the rows of the groups are distinct.
unfoldable pub marked_recipient : List PreflightRecipient → Addressee → Recipient → Recipient
marked_recipient ps a r =
    if is_sendable ps a
    then record r { status = RecipientStatus.pending; block_reasons = none }
    else record r {
      status = RecipientStatus.blocked;
      block_reasons = reasons_of (preflight_of a.recipient.contact_id ps);
    }

unfoldable pub mark_recipients :
    List PreflightRecipient → List Addressee → List Recipient → List Recipient
mark_recipients ps [] rows = rows
mark_recipients ps (a ∷ rest) rows =
    mark_recipients ps rest (update_row Recipient.id a.recipient.id (marked_recipient ps a) rows)

unfoldable pub write_marks : List PreflightRecipient → List Addressee → Tx (Unit {0})
write_marks ps group db =
    some (tt, record db { recipients = mark_recipients ps group db.recipients })

abbrev pub same_message : Message → Message → Bool
same_message m n = str_eq n.org_id m.org_id && str_eq n.idempotency_key m.idempotency_key

-- The other unique key of the table, the organization with the provider's identifier.
abbrev pub same_provider_id : Message → Message → Bool
same_provider_id m n =
    str_eq n.org_id m.org_id && str_eq n.provider_message_id m.provider_message_id

-- `message.upsert` with an empty update. It throws where another message of the organization has the
-- provider's identifier.
unfoldable pub upsert_message : Message → Tx (Unit {0})
upsert_message m db =
    if any (same_message m) db.messages
    then some (tt, db)
    else if any (same_provider_id m) db.messages
    then none
    else some (tt, record db { messages = db.messages ++ m ∷ [] })

module _ (host : Host) where
  unfoldable pub outbound_message : Job → Campaign → Addressee → Message
  outbound_message job c a =
      let key = outbound_message_key job.org_id job.id a.recipient.contact_id in
      let body = host.render_template c.body (campaign_message_values a.contact) in
      let sent : SendResult = host.send a.contact.card.phone body key in
      record {
        org_id = job.org_id;
        contact_id = a.recipient.contact_id;
        campaign_id = c.id;
        body = body;
        provider_message_id = sent.provider_message_id;
        provider_status = sent.status;
        idempotency_key = key;
      }

  unfoldable pub send_one : Job → Campaign → Addressee → Exec (Unit {0})
  send_one job c a =
      commit (renew_claimed_job job (host.clock a.recipient.contact_id))
      >>> commit (upsert_message (outbound_message job c a))

  unfoldable pub send_all : Job → Campaign → List Addressee → Exec (Unit {0})
  send_all job c [] = finish tt
  send_all job c (a ∷ rest) = send_one job c a >>> send_all job c rest

  -- What follows the preflight.
  unfoldable pub send_campaign : Job → Campaign → ℕ → List Addressee → Exec JobResult
  send_campaign job c scheduled_at [] =
      fail_claimed_job host.parse_date job true >>> finish (skipped send_preflight_failed)
  send_campaign job c scheduled_at (a ∷ rest) =
      send_all job c (a ∷ rest)
      >>> commit (
          transition_with_campaign job JobStatus.completed c.id CampaignStatus.completed
            scheduled_at true)
      >>> finish processed

  unfoldable pub preflight_campaign : Job → Campaign → ℕ → List Addressee → Exec JobResult
  preflight_campaign job c scheduled_at group =
      let ps = (preflight_campaign_recipients (map (λ a. a.contact.card) group) none).recipients in
      commit (write_marks ps group) >>> send_campaign job c scheduled_at (sendable ps group)

  -- `activeScheduledAt.toISOString() === payload.scheduledAt`, with the campaign's time
  unfoldable pub active_schedule : Payload → Campaign → Option ℕ
  active_schedule p c = keep_if (λ t. str_eq (host.to_iso t) p.scheduled_at) c.scheduled_at

  unfoldable pub process_campaign : Job → Payload → Exec JobResult
  process_campaign job p db =
      elim (keep_if (λ c. str_eq c.org_id job.org_id && is_scheduled c.status)
        (find_campaign p.campaign_id db)) [
          | none ↦
              (commit (transition_claimed_job job JobStatus.failed)
                  >>> finish (skipped invalid_campaign))
                db
          | some c ↦ elim (active_schedule p c) [
            | none ↦
                (commit (transition_claimed_job job JobStatus.cancelled)
                    >>> finish (skipped stale_schedule))
                  db
            | some t ↦ preflight_campaign job c t (addressees job c db db.recipients) db
          ]
        ]

  -- `processClaimedScheduledCampaignQueueJob`
  unfoldable pub process_claimed_job : Job → Exec JobResult
  process_claimed_job job db = elim (own_payload job) [
    | none ↦
        (commit (transition_claimed_job job JobStatus.failed) >>> finish (skipped invalid_payload))
          db
    | some p ↦ process_campaign job p db
  ]

  -- `processClaimedQueueJobSafely`: a throw fails the job.
  unfoldable pub recover_job : Job → Option JobResult × Store → Option JobResult × Store
  recover_job job (some r, db) = (some r, db)
  recover_job job (none, db) =
      (fail_claimed_job host.parse_date job false >>> finish (skipped processing_failed)) db

  unfoldable pub process_claimed_job_safely : Job → Exec JobResult
  process_claimed_job_safely job db = recover_job job (process_claimed_job job db)

  -- `processScheduledCampaignQueueJobById`, where the worker is allowed to run
  unfoldable pub run_claimed : Option ClaimResult × Store → Option JobResult × Store
  run_claimed (none, db) = (none, db)
  run_claimed (some (refused r), db) = (some (skipped r), db)
  run_claimed (some (claimed job), db) = process_claimed_job_safely job db

  unfoldable pub process_job_by_id : String → Reference → ℕ → Exec JobResult
  process_job_by_id token r now db = run_claimed (commit (claim_scheduled_job token r now) db)
