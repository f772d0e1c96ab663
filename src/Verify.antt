-- ===== src/Verify.antt =====
-- orchestrators/ticket-verification-orchestrator: the two routes that admit an attendee (Scan).
pub mod Scan
pub mod Once
pub mod Refusal
mod Tests
