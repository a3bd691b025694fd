-- ===== src/Messaging/Worker/Counts.antt =====
-- The counts of a worker's pass add up.
use signalstack_sms.Prelude.{
  ℕ, ◌+◌, String, Option, none, some, List, [], ◌∷◌, ◌≡◌, refl, arith, length, map, ◌∙◌,
}
use signalstack_sms.Messaging.Model.{Database}
use signalstack_sms.Messaging.Readiness.{Environment}
use signalstack_sms.Messaging.Worker.Defs.{Claim}
use signalstack_sms.Messaging.Worker.Prepare.{Host}
use signalstack_sms.Messaging.Worker.Process.{ClaimOutcome}
use signalstack_sms.Messaging.Worker.Batch.{
  Turn, Counts, no_counts, count, claim_of, process_all, process_claims,
}

abbrev pub total : Counts → ℕ
total n = n.sent + n.delivered + n.retried + n.failed + n.ambiguous + n.cancelled + n.skipped

total-count : (o : Option ClaimOutcome) (n : Counts) → total (count o n) ≡ total n + 1
unfolding count
total-count (some ClaimOutcome.sent) n = omega arith
total-count (some ClaimOutcome.delivered) n = omega arith
total-count (some ClaimOutcome.retried) n = omega arith
total-count (some ClaimOutcome.failed) n = omega arith
total-count (some ClaimOutcome.ambiguous) n = omega arith
total-count (some ClaimOutcome.cancelled) n = omega arith
total-count (some ClaimOutcome.skipped) n = omega arith
total-count none n = omega arith

total-process_all :
    (host : Host) (env : Environment) (turn : String → Turn) (claims : List Claim) (n : Counts)
    (db : Database)
    → total (process_all host env turn claims n db).0 ≡ total n + length claims
unfolding process_all
total-process_all host env turn [] n db = omega arith
total-process_all host env turn (c ∷ claims) n db =
    omega (arith, total-process_all host env turn claims _ _, total-count _ n)

length-map : {A B : Type 0} (f : A → B) (xs : List A) → length (map f xs) ≡ length xs
length-map f [] = refl
length-map f (x ∷ xs) = omega (arith, length-map f xs)

-- However the provider answers and wherever a claim throws, the outcomes that a pass reports add up to
-- the number of attempts that it claimed.
pub total-process_claims :
    (host : Host) (env : Environment) (turn : String → Turn) (token : String) (recovered : ℕ)
    (ids : List String) (db : Database)
    → total (process_claims host env turn token recovered ids db).0.counts
      ≡ (process_claims host env turn token recovered ids db).0.claimed
unfolding process_claims
total-process_claims host env turn token recovered ids db =
    total-process_all host env turn (map (claim_of token db) ids) no_counts db
    ∙ omega (arith, length-map (claim_of token db) ids)
