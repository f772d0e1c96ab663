-- ===== src/Otp/Overlap.antt =====
-- The rate limit of services/otp-wrapper/routes.py with overlapping requests: `verify_otp` checks
-- before it asks the provider and counts after it, and other requests come in between.
use ticketremaster_b.Base.{
  ℕ, zero, suc, ◌+◌, ◌≤◌, Bool, true, false, List, [], ◌∷◌, ltb, ◌==◌, if◌then◌else◌,
}
use ticketremaster_b.Otp.Wrapper.{
  RateState, Connections, Verdict, attempts_of, check_rate_limit, on_verdict,
}

-- A request arrives and is checked; or one that was let through gets the provider's verdict.
pub data VerifyStep : Type 0 where
  arriving : ℕ → VerifyStep
  leaving : ℕ → Connections → Verdict → VerifyStep

-- `in_flight` is the number of requests for a phone that were let through and wait for the
-- provider.
pub record Serving : Type 0 where
  pub redis : RateState
  pub in_flight : ℕ → ℕ

abbrev set_count : ℕ → ℕ → (ℕ → ℕ) → ℕ → ℕ
set_count phone n f p = if p == phone then n else f p

module _ (limit lockout workers : ℕ) where
  -- What follows a check, by whether it is allowed.
  unfoldable pub let_through : ℕ → Bool × RateState → Serving → Serving
  let_through phone (true, r) s = record {
    redis = r;
    in_flight = set_count phone (suc (s.in_flight phone)) s.in_flight;
  }
  let_through phone (false, r) s = record s { redis = r }

  -- What a verdict leads to, by the number of requests in flight.
  unfoldable pub finish : ℕ → Connections → Verdict → ℕ → Serving → Serving
  finish phone redis verdict zero s = s
  finish phone redis verdict (suc n) s = record {
    redis = (on_verdict limit lockout redis phone verdict s.redis).1;
    in_flight = set_count phone n s.in_flight;
  }

  -- Redis answers at each check, and `workers` bounds the requests in flight for one phone.
  unfoldable pub step : VerifyStep → Serving → Serving
  step (arriving phone) s =
      if ltb (s.in_flight phone) workers
      then let_through phone (check_rate_limit limit lockout true phone s.redis) s
      else s
  step (leaving phone redis verdict) s = finish phone redis verdict (s.in_flight phone) s

  unfoldable pub run : List VerifyStep → Serving → Serving
  run [] s = s
  run (st ∷ rest) s = run rest (step st s)

-- No more requests are in flight for a phone than there are workers; and its wrong codes with the
-- requests in flight stay below the sum of the limit and the workers.
abbrev pub IsLimited : ℕ → ℕ → Serving → Type 0
IsLimited limit workers s =
    (phone : ℕ)
    → (s.in_flight phone ≤ workers)
      × (suc (attempts_of phone s.redis + s.in_flight phone) ≤ limit + workers)
