-- ===== src/Otp.antt =====
-- services/otp-wrapper: its two routes with their rate limit (Wrapper).
pub mod Wrapper
pub mod Limit
pub mod Overlap
mod Tests
