-- ===== src/Otp/Wrapper.antt =====
-- services/otp-wrapper/routes.py. What the provider answers is an argument; its answers have the
-- result under one of several names, and the first that is there counts.
use ticketremaster_b.Base.{
  ℕ, suc, Bool, true, false, Option, none, some, List, [], ◌∷◌, leb, if◌then◌else◌,
}
use ticketremaster_b.Base.Table.{Table, lookup, insert, erase}
use ticketremaster_b.Web.{
  Result, ok, err, validation_error, otp_send_failed, otp_verify_failed, otp_rate_limit_exceeded,
}

-- The keys `otp:rate:<phone>` and `otp:lock:<phone>` of Redis.
pub record RateState : Type 0 where
  pub rate : Table ℕ
  pub locks : Table ℕ

-- POST /SendOTP: no usable answer, or the fields under which the identifier may stand.
unfoldable pub first_present : List (Option ℕ) → Option ℕ
first_present [] = none
first_present (none ∷ rest) = first_present rest
first_present (some s ∷ rest) = some s

-- `send_otp`, with the provider as a function of the phone number
unfoldable pub send_otp : (ℕ → Option (List (Option ℕ))) → Option ℕ → Result ℕ
send_otp provider none = err validation_error
send_otp provider (some phone) = elim (provider phone) [
  | none ↦ err otp_send_failed
  | some fields ↦ elim (first_present fields) [ none ↦ err otp_send_failed | some sid ↦ ok sid ]
]

-- POST /VerifyOTP: the status 400, no usable answer, or whether the code is right.
pub data Verdict : Type 0 where
  rejected unusable : Verdict
  answered : Bool → Verdict

-- `_get_redis_client` is asked anew by the check, the increment and the reset: whether it answers a
-- client.
pub record Connections : Type 0 where
  pub at_check : Bool
  pub at_increment : Bool
  pub at_reset : Bool

-- The number of attempts that stands for a phone.
unfoldable pub attempts_of : ℕ → RateState → ℕ
attempts_of phone s = elim (lookup phone s.rate) [ none ↦ 0 | some n ↦ n ]

unfoldable pub is_locked : ℕ → RateState → Bool
is_locked phone s = elim (lookup phone s.locks) [ none ↦ false | some n ↦ true ]

module _ (limit lockout : ℕ) where
  -- `_check_rate_limit`: whether the check is allowed; without Redis it always is
  unfoldable pub check_rate_limit : Bool → ℕ → RateState → Bool × RateState
  check_rate_limit connects phone s =
      if connects
      then (if is_locked phone s
          then (false, s)
          else if leb limit (attempts_of phone s)
          then (false, record s { locks = insert phone lockout s.locks })
          else (true, s))
      else (true, s)

  -- `_increment_attempt`, with the number that it answers
  unfoldable pub increment_attempt : Bool → ℕ → RateState → ℕ × RateState
  increment_attempt connects phone s =
      if connects
      then (
        suc (attempts_of phone s),
        record s { rate = insert phone (suc (attempts_of phone s)) s.rate },
      )
      else (0, s)

  -- `_reset_attempts`
  unfoldable pub reset_attempts : Bool → ℕ → RateState → RateState
  reset_attempts connects phone s =
      if connects then record s { rate = erase phone s.rate; locks = erase phone s.locks } else s

  unfoldable pub on_verdict : Connections → ℕ → Verdict → RateState → Result Bool × RateState
  on_verdict redis phone unusable s = (err otp_verify_failed, s)
  on_verdict redis phone (answered true) s = (ok true, reset_attempts redis.at_reset phone s)
  on_verdict redis phone (answered false) s = (ok false, s)
  on_verdict redis phone rejected s =
      let (attempts, s') = increment_attempt redis.at_increment phone s in
      (if leb limit attempts then err otp_rate_limit_exceeded else ok false, s')

  -- `verify_otp` while no other request comes between its check and what follows; the provider is
  -- asked where the check is allowed
  unfoldable pub verify_otp : Connections → ℕ → Verdict → RateState → Result Bool × RateState
  verify_otp redis phone verdict s =
      let (allowed, s') = check_rate_limit redis.at_check phone s in
      if allowed then on_verdict redis phone verdict s' else (err otp_rate_limit_exceeded, s')
