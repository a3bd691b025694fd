-- ===== src/Messaging/Review.antt =====
-- lib/messaging/delivery-attempt-review.ts: what an operator may do with an attempt whose outcome is
-- not known: record the provider's evidence, attest that it was not sent, and retry it. A transaction
-- that throws one of the review errors is `none`; the errors are told apart in `ReviewError`.
pub mod Defs
pub mod Laws
pub mod Once
