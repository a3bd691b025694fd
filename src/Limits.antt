-- ===== src/Limits.antt =====
-- lib/rate-limit/api-rate-limit.ts: the fixed windows of the limiter that holds its counts in memory.
-- The counts in Redis, which the code asks first where it is configured, are outside of the model.
pub mod Window
pub mod Bounds
pub mod Tests
