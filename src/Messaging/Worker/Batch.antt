-- ===== src/Messaging/Worker/Batch.antt =====
-- `processDueDirectMessageAttempts`: recovery, the events of recovered attempts, and one pass over the
-- claims. What comes from outside during a claim (the provider's answer, the clock, identifiers) is
-- its turn.
use signalstack_sms.Prelude.{
  ℕ, ◌+◌, String, Bool, true, false, Option, none, some, List, [], ◌∷◌, length, map, keep_if,
  str_eq, ◌&&◌, if◌then◌else◌,
}
use signalstack_sms.Messaging.Model.{
  Attempt, Database, AttemptStatus, attempt_is, find_attempt, find_message, Tx, return,
}
use signalstack_sms.Messaging.Dispatch.{claim_attempt, recover_attempt, each_row}
use signalstack_sms.Messaging.Readiness.{
  Environment, Readiness, ReadinessReason, direct_message_worker_readiness,
}
use signalstack_sms.Messaging.Worker.Defs.{Claim, Lifecycle, enqueue_lifecycle}
use signalstack_sms.Messaging.Worker.Prepare.{Host, Directory}
use signalstack_sms.Messaging.Worker.Process.{
  ProviderCall, ClaimOutcome, sent, delivered, retried, failed, ambiguous, cancelled, skipped,
  process_claimed_attempt,
}

pub record Turn : Type 0 where
  pub new_id : String
  pub correlation : String
  pub directory : Directory
  pub call : ProviderCall
  pub now : ℕ
  pub later : ℕ

pub record Counts : Type 0 where
  pub sent : ℕ
  pub delivered : ℕ
  pub retried : ℕ
  pub failed : ℕ
  pub ambiguous : ℕ
  pub cancelled : ℕ
  pub skipped : ℕ

pub record WorkerRunResult : Type 0 where
  pub recovered : ℕ
  pub claimed : ℕ
  pub counts : Counts
  pub reason : Option ReadinessReason

abbrev pub no_counts : Counts
no_counts = record {
  sent = 0;
  delivered = 0;
  retried = 0;
  failed = 0;
  ambiguous = 0;
  cancelled = 0;
  skipped = 0;
}

-- `counts[outcome] += 1`; a claim that throws is counted as skipped.
unfoldable pub count : Option ClaimOutcome → Counts → Counts
count (some sent) n = record n { sent = n.sent + 1 }
count (some delivered) n = record n { delivered = n.delivered + 1 }
count (some retried) n = record n { retried = n.retried + 1 }
count (some failed) n = record n { failed = n.failed + 1 }
count (some ambiguous) n = record n { ambiguous = n.ambiguous + 1 }
count (some cancelled) n = record n { cancelled = n.cancelled + 1 }
count (some skipped) n = record n { skipped = n.skipped + 1 }
count none n = record n { skipped = n.skipped + 1 }

-- The organization of an attempt, as the dispatch functions return it.
abbrev pub org_of : Option Attempt → String
org_of none = ""
org_of (some a) = a.org_id

unfoldable pub claim_of : String → Database → String → Claim
claim_of token db id = record {
  attempt_id = id;
  expected_org_id = org_of (find_attempt id db);
  processing_token = token;
}

-- `recoveryAuthorized`
abbrev pub recovery_is_authorized : Readiness → Bool
recovery_is_authorized (Readiness.allowed _) = true
recovery_is_authorized (Readiness.refused ReadinessReason.live_worker_invalid) = true
recovery_is_authorized (Readiness.refused _) = false

abbrev pub blocked : ℕ → ReadinessReason → WorkerRunResult
blocked n reason = record { recovered = n; claimed = 0; counts = no_counts; reason = some reason }

module _ (host : Host) where
  -- `recordRecoveredDirectMessageAmbiguity`
  unfoldable pub record_recovered : String → String → Tx (Unit {0})
  record_recovered org id db =
      elim (keep_if (λ a. str_eq a.org_id org && attempt_is a.status AttemptStatus.ambiguous)
        (find_attempt id db)) [
          | none ↦ return tt db
          | some a ↦ elim (find_message a.message_id db) [
            | none ↦ return tt db
            | some m ↦
                enqueue_lifecycle host.accepts host.decimal m Lifecycle.ambiguous a.attempt_number
                  a.provider_status a.provider_error_code db
          ]
        ]

  unfoldable pub left : Database → Option (Unit {0} × Database) → Database
  left db none = db
  left db (some (_, db')) = db'

  -- A throw is logged, and its transaction is rolled back.
  unfoldable pub record_all : List String → Database → Database
  record_all [] db = db
  record_all (id ∷ ids) db =
      record_all ids (left db (record_recovered (org_of (find_attempt id db)) id db))

  -- The claims, one after another.
  unfoldable pub process_all :
      Environment → (String → Turn) → List Claim → Counts → Database → Counts × Database
  process_all env turn [] n db = (n, db)
  process_all env turn (c ∷ claims) n db =
      let t = turn c.attempt_id in
      let r =
        process_claimed_attempt host t.new_id t.correlation c env t.directory t.call t.now t.later
          db in
      process_all env turn claims (count r.0 n) r.1

  -- The pass over the claims that the dispatch has made.
  unfoldable pub process_claims :
      Environment
      → (String → Turn)
      → String
      → ℕ
      → List String
      → Database
      → WorkerRunResult × Database
  process_claims env turn token recovered ids db =
      let (n, db') = process_all env turn (map (claim_of token db) ids) no_counts db in
      (record { recovered = recovered; claimed = length ids; counts = n; reason = none }, db')

  -- After the dispatch; one that throws ends the call.
  unfoldable pub after_dispatch :
      Environment
      → (String → Turn)
      → String
      → ℕ
      → Database
      → Option (List String × Database)
      → Option WorkerRunResult × Database
  after_dispatch env turn token n db none = (none, db)
  after_dispatch env turn token n db (some (ids, db')) =
      let (r, db'') = process_claims env turn token n ids db' in (some r, db'')

  -- After the events of the recovered attempts.
  unfoldable pub after_recovery :
      Environment
      → Readiness
      → (String → Turn)
      → String
      → ℕ
      → List String
      → ℕ
      → Database
      → Option WorkerRunResult × Database
  after_recovery env (Readiness.refused reason) turn token now picked n db =
      (some (blocked n reason), db)
  after_recovery env (Readiness.allowed _) turn token now picked n db =
      after_dispatch env turn token n db (each_row (claim_attempt token now) picked db)

  -- After the recovery; one that throws ends the call.
  unfoldable pub after_recover :
      Environment
      → Readiness
      → (String → Turn)
      → String
      → ℕ
      → List String
      → Database
      → Option (List String × Database)
      → Option WorkerRunResult × Database
  after_recover env ready turn token now due db none = (none, db)
  after_recover env ready turn token now due db (some (ids, db')) =
      after_recovery env ready turn token now due (length ids) (record_all ids db')

  -- `expired` and `due` are the rows that the two dispatch statements pick. A readiness that allows
  -- sending authorizes recovery, so a call without it has a reason.
  unfoldable pub process_due :
      Environment
      → (String → Turn)
      → String
      → ℕ
      → List String
      → List String
      → Database
      → Option WorkerRunResult × Database
  process_due env turn token now expired due db =
      let ready =
        direct_message_worker_readiness host.lower_case host.valid_https_origin
          host.valid_master_key env in
      if recovery_is_authorized ready
      then after_recover env ready turn token now due db (each_row (recover_attempt now) expired db)
      else (some (blocked 0 (reason_of ready)), db)
    where
      reason_of : Readiness → ReadinessReason
      reason_of (Readiness.allowed _) = ReadinessReason.worker_disabled
      reason_of (Readiness.refused reason) = reason
