-- ===== src/Queue/Sends.antt =====
-- Which messages a job leads to: at most one of each key, and only to allowed contacts.
use signalstack_sms.Prelude.{
  ℕ, String, Bool, true, false, Option, none, some, List, [], ◌∷◌, ◌++◌, ◌≡◌, refl, ◌∙◌, if_case,
  option_case, keep_if, find_row, any, All,
}
use signalstack_sms.Queue.Model.{
  JobStatus, CampaignStatus, Payload, Job, Contact, Message, Store, Tx, contact_id,
}
use signalstack_sms.Queue.Claims.{
  renew_claimed_job, transition_claimed_job, move_campaign, still_scheduled,
  transition_with_campaign, failing_transition, write_job, holds_job,
}
use signalstack_sms.Queue.Model.{find_job, find_campaign}
use signalstack_sms.Queue.Process.{Host, same_message, outbound_message_key}
use signalstack_sms.Queue.Allowed.{allowed_contact}

-- No two messages of an organization have one idempotency key.
abbrev pub IsUnique : List Message → Type 0
IsUnique [] = Unit
IsUnique (m ∷ rest) = (any (same_message m) rest ≡ false) × IsUnique rest

-- A message of the job to a contact of its organization that the preflight allows.
pub record IsAddressed (claim : Job) (ks : List Contact) (m : Message) : Type 0 where
  pub contact : Contact
  pub found : find_row contact_id m.contact_id ks ≡ some contact
  pub own : contact.org_id ≡ claim.org_id
  pub allowed : allowed_contact contact ≡ true
  pub org_id : m.org_id ≡ claim.org_id
  pub key : m.idempotency_key ≡ outbound_message_key claim.org_id claim.id m.contact_id

-- The messages of the store are those from before and new ones, all addressed so.
pub record IsSent (claim : Job) (ks : List Contact) (ms : List Message) (db : Store) : Type 0 where
  pub contacts : db.contacts ≡ ks
  pub more : List Message
  pub added : db.messages ≡ ms ++ more
  pub addressed : All (IsAddressed claim ks) more
  pub unique : IsUnique ms → IsUnique db.messages

abbrev pub Sends : {A : Type 0} → Job → List Contact → List Message → Option A × Store → Type 0
Sends claim ks ms (r, db) = IsSent claim ks ms db

-- A transaction that writes neither messages nor contacts.
abbrev pub Silent : {A : Type 0} → Store → Option (A × Store) → Type 0
Silent db none = Unit
Silent db (some (a, db')) = (db'.contacts ≡ db.contacts) × (db'.messages ≡ db.messages)

pub renew-Silent : (claim : Job) (now : ℕ) (db : Store) → Silent db (renew_claimed_job claim now db)
unfolding renew_claimed_job write_job
renew-Silent claim now db =
    option_case (Silent db) (keep_if (holds_job claim) (find_job claim.id db)) _ _ (λ _. tt)
      (λ j _. (refl, refl))

pub transition-Silent :
    (claim : Job) (s : JobStatus) (db : Store) → Silent db (transition_claimed_job claim s db)
unfolding transition_claimed_job write_job
transition-Silent claim s db =
    option_case (Silent db) (keep_if (holds_job claim) (find_job claim.id db)) _ _ (λ _. tt)
      (λ j _. (refl, refl))

move-Silent :
    (claim : Job) (id : String) (s : CampaignStatus) (t : ℕ) (b : Bool) (db : Store)
    → Silent db (move_campaign claim id s t b db)
unfolding move_campaign
move-Silent claim id s t b db =
    option_case (Silent db) (keep_if (still_scheduled claim t) (find_campaign id db)) _ _
      (λ _. if_case (Silent db) b _ _ (λ _. tt) (λ _. (refl, refl))) (λ c _. (refl, refl))

then-Silent :
    (db : Store) (o : Option (Unit {0} × Store)) (k : Tx (Unit {0}))
    → Silent db o
    → ((db' : Store) → Silent db' (k db'))
    → Silent db (elim o [ none ↦ none | some (u, db') ↦ k db' ])
then-Silent db none k h g = tt
then-Silent db (some (u, db1)) k (c, m) g = silent_from (k db1) (g db1)
  where
    silent_from : (o : Option (Unit {0} × Store)) → Silent db1 o → Silent db o
    silent_from none h = tt
    silent_from (some (v, db2)) (c', m') = (c' ∙ c, m' ∙ m)

pub with_campaign-Silent :
    (claim : Job) (s : JobStatus) (id : String) (cs : CampaignStatus) (t : ℕ) (b : Bool)
    (db : Store)
    → Silent db (transition_with_campaign claim s id cs t b db)
unfolding transition_with_campaign
with_campaign-Silent claim s id cs t b db =
    then-Silent db (transition_claimed_job claim s db) (move_campaign claim id cs t b)
      (transition-Silent claim s db) (move-Silent claim id cs t b)

pub failing-Silent :
    (host : Host) (claim : Job) (o : Option Payload) (b : Bool) (db : Store)
    → Silent db (failing_transition host.parse_date claim o b db)
unfolding failing_transition
failing-Silent host claim none b db = transition-Silent claim JobStatus.failed db
failing-Silent host claim (some p) b db =
    with_campaign-Silent claim JobStatus.failed p.campaign_id CampaignStatus.paused
      (host.parse_date p.scheduled_at) b db
