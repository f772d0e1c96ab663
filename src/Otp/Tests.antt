-- ===== src/Otp/Tests.antt =====
-- A phone with one wrong code too many.
use ticketremaster_b.Base.{◌≡◌, refl, inr, true, false, [], ◌∷◌, List, arith}
use ticketremaster_b.Base.Table.{lookup, insert}
use ticketremaster_b.Web.{err, otp_rate_limit_exceeded}
use ticketremaster_b.Otp.Wrapper.{
  RateState, Connections, rejected, answered, attempts_of, is_locked, verify_otp, check_rate_limit,
  on_verdict, increment_attempt,
}
use ticketremaster_b.Otp.Overlap.{
  Serving, VerifyStep, arriving, leaving, step, let_through, finish, run,
}
use ticketremaster_b.Otp.Limit.{limit_refuses}

-- Redis is there at the check alone.
abbrev redis : Connections
redis = record { at_check = true; at_increment = false; at_reset = false }

abbrev connected : Connections
connected = record { at_check = true; at_increment = true; at_reset = true }

abbrev spent : RateState
spent = record { rate = (66, 5) ∷ []; locks = [] }

limit_refuses_example :
    ((verify_otp 5 900 redis 66 (answered true) spent).0 ≡ err otp_rate_limit_exceeded)
    × ((verify_otp 5 900 redis 66 (answered true) spent).1.rate ≡ (66, 5) ∷ [])
    × (is_locked 66 (verify_otp 5 900 redis 66 (answered true) spent).1 ≡ true)
unfolding attempts_of lookup
limit_refuses_example = limit_refuses 5 900 66 redis (answered true) spent refl (inr (omega arith))

-- One wrong code is left, and two requests overlap.
abbrev nearly_spent : Serving
nearly_spent = record { redis = record { rate = (66, 4) ∷ []; locks = [] }; in_flight = λ p. 0 }

abbrev steps : List VerifyStep
steps =
    arriving 66 ∷ arriving 66 ∷ leaving 66 connected rejected ∷ leaving 66 connected rejected ∷ []

-- Both are let through, and the limit of 5 is passed.
overrun : attempts_of 66 (run 5 900 2 steps nearly_spent).redis ≡ 6
unfolding attempts_of lookup run step let_through finish check_rate_limit is_locked on_verdict
    increment_attempt insert
overrun = refl
