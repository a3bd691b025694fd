-- ===== src/Queue/Tests.antt =====
-- A campaign to two contacts, one of whom has opted out, and the worker that holds its job.
use signalstack_sms.Prelude.{ℕ, zero, suc, ap, String, none, some, [], ◌∷◌, ◌≡◌, refl, find_row}
use signalstack_sms.Compliance.Gates.Defs.{ConsentStatus}
use signalstack_sms.Queue.Model.{
  JobStatus, CampaignStatus, RecipientStatus, Job, Contact, Recipient, Store, find_job,
}
use signalstack_sms.Queue.Claims.{holds_job}
use signalstack_sms.Queue.Process.{Host, process_claimed_job_safely}
use signalstack_sms.Queue.Release.{IsHeld, Releases}
use signalstack_sms.Queue.Laws.{process_claimed_job_safely-Releases}
use signalstack_sms.Queue.Sends.{Sends}
use signalstack_sms.Queue.Completion.{Completes, process_claimed_job_safely-Completes}
use signalstack_sms.Queue.Once.{process_claimed_job_safely-Sends}

-- Dates as texts of as many strokes as the date has milliseconds.
abbrev strokes : ℕ → String
strokes zero = String.[]
strokes (suc t) = String.◌∷◌ "1" (strokes t)

abbrev stroke_count : String → ℕ
stroke_count String.[] = 0
stroke_count (String.◌∷◌ c s) = suc (stroke_count s)

strokes-counted : (t : ℕ) → stroke_count (strokes t) ≡ t
strokes-counted zero = refl
strokes-counted (suc t) = ap suc (strokes-counted t)

abbrev host : Host
host = record {
  render_template = λ body values. body;
  send = λ phone body key. record { provider_message_id = key; status = "sent" };
  to_iso = strokes;
  parse_date = stroke_count;
  clock = λ contact. 60000;
}

abbrev job : Job
job = record {
  id = "j1";
  org_id = "o1";
  campaign_id = some "c1";
  status = JobStatus.processing;
  payload = some (record { org_id = "o1"; campaign_id = "c1"; scheduled_at = "111" });
  run_at = 3;
  processing_token = some "t1";
  processing_expires_at = some 300050;
}

abbrev contact : String → ConsentStatus → Contact
contact id consent = record {
  org_id = "o1";
  card = record {
    id = id;
    phone = "+14155550100";
    consent_status = consent;
    opted_out_at = none;
    archived_at = none;
  };
  email = none;
  first_name = some "Ada";
  last_name = none;
  display_name = none;
}

abbrev recipient : String → String → Recipient
recipient id contact_id = record {
  id = id;
  org_id = "o1";
  campaign_id = "c1";
  contact_id = contact_id;
  status = RecipientStatus.pending;
  block_reasons = none;
}

abbrev store : Store
store = record {
  jobs = job ∷ [];
  campaigns =
      record {
        id = "c1";
        org_id = "o1";
        status = CampaignStatus.scheduled;
        body = "Hello";
        scheduled_at = some 3;
      }
      ∷ [];
  contacts = contact "k1" ConsentStatus.opted_in ∷ contact "k2" ConsentStatus.opted_out ∷ [];
  recipients = recipient "r1" "k1" ∷ recipient "r2" "k2" ∷ [];
  messages = [];
}

job-IsHeld : IsHeld job store.campaigns store
unfolding find_job find_row holds_job
job-IsHeld = record { job = job; found = refl; held = refl; same = refl }

-- Another message has the provider's identifier already, so that writing the campaign's throws.
abbrev taken_store : Store
taken_store = record store {
  messages =
      record {
        org_id = "o1";
        contact_id = "k1";
        campaign_id = "c0";
        body = "Hello";
        provider_message_id = "dummy-outbound:o1:j1:k1";
        provider_status = "sent";
        idempotency_key = "another";
      }
      ∷ [];
}

taken-IsHeld : IsHeld job taken_store.campaigns taken_store
unfolding find_job find_row holds_job
taken-IsHeld = record { job = job; found = refl; held = refl; same = refl }

process_claimed_job_safely-Releases_example :
    Releases job (process_claimed_job_safely host job taken_store)
process_claimed_job_safely-Releases_example =
    process_claimed_job_safely-Releases host strokes-counted job taken_store taken-IsHeld

process_claimed_job_safely-Sends_example :
    Sends job store.contacts store.messages (process_claimed_job_safely host job store)
process_claimed_job_safely-Sends_example = process_claimed_job_safely-Sends host job store

process_claimed_job_safely-Completes_example :
    Completes job (process_claimed_job_safely host job store)
process_claimed_job_safely-Completes_example = process_claimed_job_safely-Completes job host store
