-- ===== src/Compliance/Gates.antt =====
-- lib/compliance/gates.ts, lib/compliance/consent-evidence.ts and lib/messaging/send-preflight.ts:
-- whether a message may be sent, with the reasons against it.
pub mod Defs
pub mod Laws
