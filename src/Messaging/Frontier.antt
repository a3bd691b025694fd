-- ===== src/Messaging/Frontier.antt =====
-- How the rows of `MessageAttempt` may change, whatever transaction runs: the theorems about every
-- operation of lib/messaging/outbox/worker.ts, direct-message-cancellation.ts,
-- delivery-attempt-review.ts and the dispatch functions.
pub mod Row
pub mod Unique
pub mod Keep
pub mod Steps
pub mod Worker
pub mod Operator
pub mod Trace
pub mod Once
pub mod Process
pub mod Batch
