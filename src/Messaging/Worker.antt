-- ===== src/Messaging/Worker.antt =====
-- lib/messaging/outbox/worker.ts: preparing a claimed attempt, recording the provider's answer, and
-- marking an answer that could not be recorded.
pub mod Defs
pub mod Prepare
pub mod Finalize
pub mod Process
pub mod Authority
pub mod Recorded
pub mod Concluded
pub mod Batch
pub mod Counts
pub mod Blocked
