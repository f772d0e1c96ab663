-- ===== src/Market.antt =====
-- What a ticket's owner does with it beside the transfer: orchestrators/marketplace-orchestrator
-- (Resale) and orchestrators/qr-orchestrator (Code); and orchestrators/credit-orchestrator, which
-- fills an account (TopUp).
pub mod Resale
pub mod ResaleLaws
pub mod Code
pub mod TopUp
pub mod TopUpOnce
mod Tests
