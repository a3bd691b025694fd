-- ===== src/Compliance.antt =====
-- The compliance rules for outbound messages (lib/compliance).
pub mod AreaCodes
pub mod QuietHours
pub mod OptOut
pub mod Gates
pub mod Tests
