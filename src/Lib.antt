-- ===== src/Lib.antt =====
-- signalstack-sms, the parts that decide whether and how an SMS is sent, that report it to webhooks,
-- and that run scheduled campaigns.
--
-- A message is accepted with a first delivery attempt. A worker claims due attempts under a lease,
-- prepares each (all guards, then the write that begins the provider's call), calls the provider,
-- decides what the answer means and records it. A retry is a new attempt row. A user may cancel a
-- message before the call begins; an attempt whose outcome is not known is ambiguous, and an operator
-- reconciles it, or attests that nothing was sent and retries it.
--
-- Prelude and Text hold shared helpers: Boolean tests, lists, tables keyed by a string, and texts as
-- lists of code units.
--
-- Compliance:
-- * AreaCodes is lib/compliance/area-codes.ts, QuietHours is quiet-hours.ts, OptOut is opt-out.ts.
-- * Gates/Defs is gates.ts with consent-evidence.ts, and lib/messaging/send-preflight.ts
--   (`preflightCampaignRecipients`); Gates/Laws holds the proofs.
--
-- Messaging:
-- * Model holds the tables `Message`, `MessageAttempt` and `Membership` of prisma/schema.prisma with the
--   unique keys of the first two, the events of the webhook outbox and the audit events, and the transaction monad: a transaction is a function
--   from a database to an optional result with a database, and `none` is a throw, which rolls back.
-- * Policy is lib/messaging/outbox/policy.ts, Readiness is outbox/readiness.ts.
-- * Dispatch is lib/db/message-attempt-dispatch.ts with the two SQL functions that it calls.
-- * Worker is lib/messaging/outbox/worker.ts: Defs (claims, closing, events), Prepare
--   (`prepareClaimedDirectMessageAttempt`), Finalize (`finalizeClaimedDirectMessageAttempt` and
--   `markDirectMessageResultPersistenceAmbiguous`), Process (`processClaimedDirectMessageAttempt`), Batch
--   (`processDueDirectMessageAttempts`); Authority, Recorded, Concluded, Counts and Blocked hold
--   proofs about preparing, recording, the end of a claim, counting, and passes that may not send.
-- * Cancellation is lib/messaging/direct-message-cancellation.ts.
-- * Review is lib/messaging/delivery-attempt-review.ts.
-- * Frontier holds the theorems on runs: Row (how one attempt may change), Keep (transactions that
--   change attempts only so), Unique (keys), Steps, Worker and Operator (each operation), Trace (runs
--   of transactions in any order), Process and Batch (the worker's work as a run), Once (what follows
--   for the provider's call).
-- * Tests holds concrete rows and runs.
--
-- Webhooks (lib/integrations/customer-webhooks): an event is written with a delivery for each
-- subscription, in the transaction of what it reports. A worker claims due deliveries under a lease,
-- reserves an attempt, signs and posts the request, and records what the answer means.
-- * Policy is delivery-policy.ts; Model holds the webhook tables and their transaction monad; Outbox
--   is outbox.ts with catalog.ts.
-- * Delivery holds the worker's claims and the tests on them (worker.ts, and
--   lib/db/customer-webhook-dispatch.ts), Delivery/Prepare is
--   `prepareClaimedCustomerWebhookDelivery`, Delivery/Finalize
--   `finalizeClaimedCustomerWebhookDelivery`, Delivery/Process
--   `processClaimedCustomerWebhookDelivery` and the counts of a pass, Delivery/Dispatch the SQL
--   function that claims deliveries.
-- * Rows, Steps, Outcomes and Trace (in Delivery) say how rows may change, for each operation and in
--   runs; Ready, Progress and Laws follow an attempt from its preparation to its end; Safety is about
--   workers that lost a delivery and endpoints that are disabled.
--
-- Queue (lib/queue): a scheduled campaign is a job that a worker claims and runs.
-- * Model holds the tables; Claims the transactions on a job under its claim, and Process
--   `processClaimedScheduledCampaignQueueJob` with `processClaimedQueueJobSafely` and
--   `processScheduledCampaignQueueJobById` (all of worker.ts). A program of several transactions
--   keeps what was committed before a throw.
-- * Release, Settle and Laws follow the claim; Allowed, Sends and Once follow the messages,
--   and Completion what a processed job leaves.
--
-- Csv: Parse is lib/csv/parse.ts (`parseCsvCells`), Escape is lib/csv/escape.ts with the lines of
-- app/api/contacts/segments/export/route.ts, RoundTrip holds the proofs.
--
-- Limits: Window is the limiter of lib/rate-limit/api-rate-limit.ts that counts in memory
-- (`checkApiRateLimit`), Bounds holds the proofs.
--
-- Each of these has a module Tests with concrete data.
--
-- A transaction is atomic: the code locks the rows that it reads and writes, so a read that it
-- repeats after a lock sees what the first one saw. Runs interleave whole transactions. Times are
-- natural numbers of milliseconds; a `Date` that may be invalid is optional. Structural recursion is
-- the only recursion, so nothing runs on fuel.
--
-- Of the constraints that the database checks, the models have the unique keys of `Message` and
-- `MessageAttempt` wherever a row is created or a provider's identifier is written, the membership of
-- a reviewer, the deduplication keys of the events, and the existence of the rows that are read. The
-- other ones are taken to hold; in particular the clock of a worker is taken not to run backwards
-- between the start and the end of a webhook attempt (its end may not precede its start), and the
-- database not to fail for reasons of its own.
--
-- Parameters stand for what the code calls and this repository does not define, or for parts that are
-- not modelled: upper and lower case, the hour in a time zone, the parsers of URLs and keys, the
-- signed callback URL, the decimal form of a number, the digest of event keys, and whether the webhook
-- outbox accepts a message's event. The rows that the dispatch statements pick are arguments too, and
-- so are new identifiers, the reading of dates, the rendering of templates, the demo provider, and how
-- signing and posting a webhook end.
--
-- Not modelled: the HTTP routes and the user interface, the payload and the signature of a webhook and
-- its transport, the administration of endpoints, the mirror of the queue in BullMQ, the
-- counts of requests in Redis, authentication, and the polling loops of the workers.
pub mod Prelude
pub mod Text
pub mod Compliance
pub mod Messaging
pub mod Webhooks
pub mod Csv
pub mod Queue
pub mod Limits
