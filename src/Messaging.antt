-- ===== src/Messaging.antt =====
-- Direct messages: the rows of the database and the transactions on them
-- (lib/messaging and lib/db/message-attempt-dispatch.ts).
pub mod Model
pub mod Policy
pub mod Dispatch
pub mod Readiness
pub mod Worker
pub mod Cancellation
pub mod Review
pub mod Frontier
pub mod Tests
