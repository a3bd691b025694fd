-- ===== src/Queue/Model.antt =====
-- The tables of the campaign queue (prisma/schema.prisma) as lists of rows. A transaction throws as
-- `none` and is rolled back; a program of several transactions keeps what was committed before a
-- throw. Times are milliseconds.
use signalstack_sms.Prelude.{ℕ, String, Bool, true, false, Option, none, some, List, ◌==◌, find_row}
use signalstack_sms.Compliance.Gates.Defs.{PreflightContact, BlockReason}

pub data JobStatus : Type 0 where
  queued processing completed failed cancelled : JobStatus

pub data CampaignStatus : Type 0 where
  draft scheduled paused completed : CampaignStatus

pub data RecipientStatus : Type 0 where
  pending blocked : RecipientStatus

-- A payload that the schema of lib/queue/jobs.ts accepts; its version is the literal 1.
pub record Payload : Type 0 where
  pub org_id : String
  pub campaign_id : String
  pub scheduled_at : String

-- Every job is of the one type `SCHEDULED_CAMPAIGN`; `payload` is what parsing it gives.
pub record Job : Type 0 where
  pub id : String
  pub org_id : String
  pub campaign_id : Option String
  pub status : JobStatus
  pub payload : Option Payload
  pub run_at : ℕ
  pub processing_token : Option String
  pub processing_expires_at : Option ℕ

pub record Campaign : Type 0 where
  pub id : String
  pub org_id : String
  pub status : CampaignStatus
  pub body : String
  pub scheduled_at : Option ℕ

pub record Contact : Type 0 where
  pub org_id : String
  pub card : PreflightContact
  pub email : Option String
  pub first_name : Option String
  pub last_name : Option String
  pub display_name : Option String

-- The code joins the reasons of a block with commas.
pub record Recipient : Type 0 where
  pub id : String
  pub org_id : String
  pub campaign_id : String
  pub contact_id : String
  pub status : RecipientStatus
  pub block_reasons : Option (List BlockReason)

pub record Message : Type 0 where
  pub org_id : String
  pub contact_id : String
  pub campaign_id : String
  pub body : String
  pub provider_message_id : String
  pub provider_status : String
  pub idempotency_key : String

pub record Store : Type 0 where
  pub jobs : List Job
  pub campaigns : List Campaign
  pub contacts : List Contact
  pub recipients : List Recipient
  pub messages : List Message

abbrev pub Tx : Type 0 → Type 0
Tx A = Store → Option (A × Store)

-- A program of several transactions: its result, or `none` for a throw, and the store it leaves.
abbrev pub Exec : Type 0 → Type 0
Exec A = Store → Option A × Store

abbrev pub commit : {A : Type 0} → Tx A → Exec A
commit m db = elim (m db) [ none ↦ (none, db) | some (a, db') ↦ (some a, db') ]

abbrev pub finish : {A : Type 0} → A → Exec A
finish a db = (some a, db)

abbrev pub continue : {A B : Type 0} → Option A × Store → Exec B → Option B × Store
continue (none, db) k = (none, db)
continue (some a, db) k = k db

infixl 5 ◌>>>◌
abbrev pub ◌>>>◌ : {A B : Type 0} → Exec A → Exec B → Exec B
◌>>>◌ m k db = continue (m db) k

abbrev job_rank : JobStatus → ℕ
job_rank JobStatus.queued = 0
job_rank JobStatus.processing = 1
job_rank JobStatus.completed = 2
job_rank JobStatus.failed = 3
job_rank JobStatus.cancelled = 4

abbrev pub job_is : JobStatus → JobStatus → Bool
job_is s t = job_rank s == job_rank t

abbrev pub is_scheduled : CampaignStatus → Bool
is_scheduled CampaignStatus.scheduled = true
is_scheduled _ = false

unfoldable pub find_job : String → Store → Option Job
find_job id db = find_row Job.id id db.jobs

unfoldable pub find_campaign : String → Store → Option Campaign
find_campaign id db = find_row Campaign.id id db.campaigns

abbrev pub contact_id : Contact → String
contact_id c = c.card.id

unfoldable pub find_contact : String → Store → Option Contact
find_contact id db = find_row contact_id id db.contacts
