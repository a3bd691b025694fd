-- ===== src/Webhooks.antt =====
-- lib/integrations/customer-webhooks: events for an organization's own endpoints, their deliveries,
-- and the worker that sends them.
pub mod Policy
pub mod Model
pub mod Outbox
pub mod Delivery
pub mod Tests
