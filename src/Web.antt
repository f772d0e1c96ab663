-- ===== src/Web.antt =====
-- What a service answers: a value, or the `code` of its JSON error body. Also the values that JSON
-- fields take.
use ticketremaster_b.Base.{ℕ}

-- The `code` texts of all parts of the program.
pub data Code : Type 0 where
  service_unavailable validation_error internal_error : Code
  auth_forbidden forbidden : Code
  ticket_not_found listing_not_found transfer_not_found transaction_not_found : Code
  event_not_found user_not_found : Code
  email_already_exists user_not_flagged invalid_token token_expired : Code
  event_cancelled event_in_past event_already_cancelled invalid_date : Code
  otp_send_failed otp_verify_failed otp_rate_limit_exceeded : Code
  duplicate_qr_hash invalid_datetime : Code
  transfer_expired invalid_state : Code
  seat_unavailable payment_hold_expired insufficient_credits credit_deduction_failed : Code
  inventory_not_found seat_not_available deadlock_failed database_error release_failed : Code
  concurrent_scan qr_invalid qr_expired already_checked_in wrong_hall wrong_event : Code

pub data Result (A : Type 0) : Type 0 where
  ok : A → Result A
  err : Code → Result A

-- A field that holds a time: JSON null, a text that is no time, or a time in seconds, in UTC.
pub data Stamp : Type 0 where
  null unparsable : Stamp
  at : ℕ → Stamp
