-- ===== src/Queue.antt =====
-- lib/queue: the jobs that send scheduled campaigns, and the worker that claims and runs them.
pub mod Model
pub mod Claims
pub mod Process
pub mod Release
pub mod Settle
pub mod Laws
pub mod Allowed
pub mod Sends
pub mod Once
pub mod Completion
pub mod Tests
