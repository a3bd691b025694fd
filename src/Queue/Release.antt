-- ===== src/Queue/Release.antt =====
-- A job that a worker holds is released however it ends.
use signalstack_sms.Prelude.{
  ℕ, String, Bool, true, false, Option, none, some, List, ◌≡◌, refl, ◌∙◌, if_case, option_case, any,
  keep_if, find_row-updated, inl, inr, Bool-cases,
}
use signalstack_sms.Compliance.Gates.Defs.{PreflightRecipient}
use signalstack_sms.Queue.Model.{
  JobStatus, CampaignStatus, Job, Campaign, Message, Store, Tx, Exec, commit, continue, job_is,
  find_job, find_campaign,
}
use signalstack_sms.Queue.Claims.{
  holds_job, renewed_job, renew_claimed_job, released_job, transition_claimed_job, still_scheduled,
  move_campaign, write_job,
}
use signalstack_sms.Queue.Process.{
  Addressee, write_marks, same_message, same_provider_id, upsert_message,
}

pub commit_case :
    {A : Type 0} (P : Option A × Store → Type 0) (m : Tx A) (db : Store)
    → (m db ≡ none → P (none, db))
    → ((a : A) (db' : Store) → m db ≡ some (a, db') → P (some a, db'))
    → P (commit m db)
commit_case {A} P m db h k = cases (m db) h k
  where
    cases :
        (o : Option (A × Store))
        → (o ≡ none → P (none, db))
        → ((a : A) (db' : Store) → o ≡ some (a, db') → P (some a, db'))
        → P (elim o [ none ↦ (none, db) | some (a, db') ↦ (some a, db') ])
    cases none f g = f refl
    cases (some (a, db')) f g = g a db' refl

-- The job is in the store and held by the claim, and no campaign has changed.
pub record IsHeld (claim : Job) (campaigns : List Campaign) (db : Store) : Type 0 where
  pub job : Job
  pub found : find_job claim.id db ≡ some job
  pub held : holds_job claim job ≡ true
  pub same : db.campaigns ≡ campaigns

-- The job is in the store, and no worker is processing it.
pub record IsReleased (claim : Job) (db : Store) : Type 0 where
  pub job : Job
  pub found : find_job claim.id db ≡ some job
  pub idle : job_is job.status JobStatus.processing ≡ false
  pub free : job.processing_token ≡ none

abbrev pub StillHeld : {A : Type 0} → Job → List Campaign → Option A × Store → Type 0
StillHeld claim cs (r, db) = IsHeld claim cs db

-- After a program that ended the job, or threw before it did.
abbrev pub Settles : {A : Type 0} → Job → List Campaign → Option A × Store → Type 0
Settles claim cs (none, db) = IsHeld claim cs db
Settles claim cs (some r, db) = IsReleased claim db

abbrev pub Releases : {A : Type 0} → Job → Option A × Store → Type 0
Releases claim (none, db) = ⊥
Releases claim (some r, db) = IsReleased claim db

abbrev pub LeavesReleased : Job → Option (Unit {0} × Store) → Type 0
LeavesReleased claim none = Unit
LeavesReleased claim (some (u, db)) = IsReleased claim db

module _ (claim : Job) (cs : List Campaign) where
  pub continue_held :
      {A B : Type 0} (P : Option B × Store → Type 0) (r : Option A × Store) (k : Exec B)
      → StillHeld claim cs r
      → ((db : Store) → IsHeld claim cs db → P (none, db))
      → ((db : Store) → IsHeld claim cs db → P (k db))
      → P (continue r k)
  continue_held P (none, db) k h f g = f db h
  continue_held P (some a, db) k h f g = g db h

  written-found :
      (f : Job → Job) (j : Job) (db : Store)
      → find_job claim.id db ≡ some j
      → (f j).id ≡ j.id
      → find_job claim.id (write_job claim f db) ≡ some (f j)
  unfolding find_job write_job
  written-found f j db found same = find_row-updated Job.id claim.id f db.jobs j found same

  written-campaigns : (f : Job → Job) (db : Store) → (write_job claim f db).campaigns ≡ db.campaigns
  unfolding write_job
  written-campaigns f db = refl

  renewed-held :
      (now : ℕ) (j : Job) → holds_job claim j ≡ true → holds_job claim (renewed_job now j) ≡ true
  unfolding holds_job renewed_job
  renewed-held now j h = h

  renewed-id : (now : ℕ) (j : Job) → (renewed_job now j).id ≡ j.id
  unfolding renewed_job
  renewed-id now j = refl

  pub renew-StillHeld :
      (now : ℕ) (db : Store)
      → IsHeld claim cs db
      → StillHeld claim cs (commit (renew_claimed_job claim now) db)
  unfolding renew_claimed_job
  renew-StillHeld now db h =
      rw (h.found, h.held, StillHeld, commit, renew_claimed_job, keep_if)
        (record {
          job = renewed_job now h.job;
          found = written-found (renewed_job now) h.job db h.found (renewed-id now h.job);
          held = renewed-held now h.job h.held;
          same = written-campaigns (renewed_job now) db ∙ h.same;
        })

  pub upsert-StillHeld :
      (m : Message) (db : Store)
      → IsHeld claim cs db
      → StillHeld claim cs (commit (upsert_message m) db)
  unfolding upsert_message find_job
  upsert-StillHeld m db h = elim (Bool-cases (any (same_message m) db.messages)) [
    | inl old ↦ rw (old, StillHeld, commit, upsert_message) h
    | inr new ↦ elim (Bool-cases (any (same_provider_id m) db.messages)) [
      | inl taken ↦ rw (new, taken, StillHeld, commit, upsert_message) h
      | inr free ↦
          rw (new, free, StillHeld, commit, upsert_message)
            (record { job = h.job; found = h.found; held = h.held; same = h.same })
    ]
  ]

  pub marks-StillHeld :
      (ps : List PreflightRecipient) (group : List Addressee) (db : Store)
      → IsHeld claim cs db
      → StillHeld claim cs (commit (write_marks ps group) db)
  unfolding write_marks find_job
  marks-StillHeld ps group db h = record {
    job = h.job;
    found = h.found;
    held = h.held;
    same = h.same;
  }

  released-idle :
      (s : JobStatus) (j : Job)
      → job_is s JobStatus.processing ≡ false
      → job_is (released_job s j).status JobStatus.processing ≡ false
  unfolding released_job
  released-idle s j h = h

  released-free : (s : JobStatus) (j : Job) → (released_job s j).processing_token ≡ none
  unfolding released_job
  released-free s j = refl

  released-id : (s : JobStatus) (j : Job) → (released_job s j).id ≡ j.id
  unfolding released_job
  released-id s j = refl

  pub transition-Releases :
      (s : JobStatus) (db : Store)
      → job_is s JobStatus.processing ≡ false
      → IsHeld claim cs db
      → (db' : Store) × (transition_claimed_job claim s db ≡ some (tt, db'))
        × IsReleased claim db'
        × (db'.campaigns ≡ cs)
  unfolding transition_claimed_job
  transition-Releases s db idle h = (
    write_job claim (released_job s) db,
    rw (h.found, h.held, transition_claimed_job, keep_if) refl,
    record {
      job = released_job s h.job;
      found = written-found (released_job s) h.job db h.found (released-id s h.job);
      idle = released-idle s h.job idle;
      free = released-free s h.job;
    },
    written-campaigns (released_job s) db ∙ h.same,
  )

  -- A transition of the job and its campaign, which may only fail where the campaign is required.
  pub move-IsReleased :
      (id : String) (s : CampaignStatus) (t : ℕ) (db : Store)
      → IsReleased claim db
      → (b : Bool) → LeavesReleased claim (move_campaign claim id s t b db)
  unfolding move_campaign find_job
  move-IsReleased id s t db h b =
      option_case (LeavesReleased claim) (keep_if (still_scheduled claim t) (find_campaign id db)) _
        _ (λ _. if_case (LeavesReleased claim) b _ _ (λ _. tt) (λ _. h))
        (λ c _. record { job = h.job; found = h.found; idle = h.idle; free = h.free })
