-- ===== src/Otp/Limit.antt =====
-- The rate limit of services/otp-wrapper at its bound.
use ticketremaster_b.Base.{ℕ, ◌≤◌, ◌≡◌, refl, ◌⊎◌, inl, inr, true, false, leb, Bool-cases, arith}
use ticketremaster_b.Base.Table.{insert, lookup-insert}
use ticketremaster_b.Web.{err, otp_rate_limit_exceeded}
use ticketremaster_b.Otp.Wrapper.{
  RateState, Connections, Verdict, attempts_of, is_locked, check_rate_limit, verify_otp,
}

locked_now :
    (phone lockout : ℕ) (s : RateState)
    → is_locked phone (record s { locks = insert phone lockout s.locks }) ≡ true
unfolding is_locked
locked_now phone lockout s = ground (arith, lookup-insert phone phone lockout s.locks)

-- At the limit no code is accepted: where Redis is there at the check and a phone stands with the
-- limit of wrong codes, or is locked, the request is refused without a look at what the provider
-- would say, the attempts stay, and the phone is locked afterwards.
pub limit_refuses :
    (limit lockout phone : ℕ) (redis : Connections) (verdict : Verdict) (s : RateState)
    → redis.at_check ≡ true
    → (is_locked phone s ≡ true) ⊎ (limit ≤ attempts_of phone s)
    → ((verify_otp limit lockout redis phone verdict s).0 ≡ err otp_rate_limit_exceeded)
      × ((verify_otp limit lockout redis phone verdict s).1.rate ≡ s.rate)
      × (is_locked phone (verify_otp limit lockout redis phone verdict s).1 ≡ true)
unfolding verify_otp check_rate_limit
limit_refuses limit lockout phone redis verdict s up stopped =
    elim (Bool-cases (is_locked phone s)) [
      | inl l ↦ rw (up, l) (refl, refl, l)
      | inr l ↦ rw (up, l, at_limit l) (refl, refl, locked_now phone lockout s)
    ]
  where
    at_limit : is_locked phone s ≡ false → leb limit (attempts_of phone s) ≡ true
    at_limit l = ground (arith, l, stopped)
