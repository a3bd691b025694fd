-- ===== src/Messaging/Tests.antt =====
-- Concrete rows and runs of the direct-message code.
pub mod Data
pub mod Runs
pub mod Choices
