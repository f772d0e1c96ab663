-- ===== src/Purchase/ServiceBreaker.antt =====
-- `class CircuitBreaker` of orchestrators/ticket-purchase-orchestrator/service_client.py.
-- `threshold` is CIRCUIT_BREAKER_FAILURE_THRESHOLD, `recovery` CIRCUIT_BREAKER_RECOVERY_SECONDS and
-- `tests` CIRCUIT_BREAKER_HALF_OPEN_MAX_REQUESTS.
use ticketremaster_b.Base.{
  ℕ, suc, ◌+◌, ◌<◌, ◌≡◌, true, false, Bool, Option, none, some, List, [], ◌∷◌, ltb, leb, arith,
  if◌then◌else◌,
}

pub data BreakerState : Type 0 where
  closed open_now half_open : BreakerState

pub record CircuitBreaker : Type 0 where
  pub state : BreakerState
  pub failure_count : ℕ
  pub last_failure_time : Option ℕ
  pub half_open_successes : ℕ

-- How the call of `func` ends: with a result, with a `ServiceHTTPError` whose status is under 500,
-- or with any other exception.
pub data Outcome : Type 0 where
  returns client_error raises : Outcome

module _ (recovery : ℕ) where
  -- `_should_attempt_reset`
  unfoldable pub should_attempt_reset : ℕ → CircuitBreaker → Bool
  should_attempt_reset now b = elim b.last_failure_time [
    | none ↦ true
    | some t ↦ leb (t + recovery) now
  ]

  -- The section at the start of `call`: whether `func` is called.
  unfoldable pub enter_call : ℕ → CircuitBreaker → Bool × CircuitBreaker
  enter_call now b = elim b.state [
    | open_now ↦
        if should_attempt_reset now b
        then (true, record b { state = half_open; half_open_successes = 0 })
        else (false, b)
    | closed ↦ (true, b)
    | half_open ↦ (true, b)
  ]

module _ (tests : ℕ) where
  -- `_on_success`
  unfoldable pub on_success : CircuitBreaker → CircuitBreaker
  on_success b = elim b.state [
    | half_open ↦
        if leb tests (suc b.half_open_successes)
        then record b {
          state = closed;
          failure_count = 0;
          half_open_successes = suc b.half_open_successes;
        }
        else record b { half_open_successes = suc b.half_open_successes }
    | closed ↦ record b { failure_count = 0 }
    | open_now ↦ record b { failure_count = 0 }
  ]

module _ (threshold : ℕ) where
  -- `_on_failure`
  unfoldable pub on_failure : ℕ → CircuitBreaker → CircuitBreaker
  on_failure now b = record b {
    state = if leb threshold (suc b.failure_count) then open_now else b.state;
    failure_count = suc b.failure_count;
    last_failure_time = some now;
  }

module _ (threshold recovery tests : ℕ) where
  -- The section at the end of `call`.
  unfoldable pub leave_call : Outcome → ℕ → CircuitBreaker → CircuitBreaker
  leave_call returns later b = on_success tests b
  leave_call client_error later b = on_success tests b
  leave_call raises later b = on_failure threshold later b

  -- `call`, with no other call at the same time: it begins at `now` and ends at `later`.
  unfoldable pub call : Outcome → ℕ → ℕ → CircuitBreaker → Bool × CircuitBreaker
  call outcome now later b =
      let (go, b₁) = enter_call recovery now b in
      if go then (true, leave_call outcome later b₁) else (false, b₁)

-- The sections of calls that may overlap, in the order in which they get the lock.
pub data CallSection : Type 0 where
  enters : ℕ → CallSection
  leaves : Outcome → ℕ → CallSection

module _ (threshold recovery tests : ℕ) where
  unfoldable pub run_section : CallSection → CircuitBreaker → CircuitBreaker
  run_section (enters now) b = (enter_call recovery now b).1
  run_section (leaves outcome now) b = leave_call threshold recovery tests outcome now b

  unfoldable pub run_calls : List CallSection → CircuitBreaker → CircuitBreaker
  run_calls [] b = b
  run_calls (s ∷ rest) b = run_calls rest (run_section s b)

abbrev pub is_closed : BreakerState → Bool
is_closed closed = true
is_closed _ = false

abbrev pub is_half_open : BreakerState → Bool
is_half_open half_open = true
is_half_open _ = false

-- A closed breaker has not counted enough failures, and one that is half open not enough successes.
pub record IsBounded (threshold tests : ℕ) (b : CircuitBreaker) : Type 0 where
  pub failures : is_closed b.state ≡ true → b.failure_count < threshold
  pub successes : is_half_open b.state ≡ true → b.half_open_successes < tests

-- The breaker is closed exactly when it has counted fewer failures than the threshold.
abbrev pub IsCounted : ℕ → CircuitBreaker → Type 0
IsCounted threshold b = is_closed b.state ≡ ltb b.failure_count threshold

module _ (threshold recovery tests : ℕ) (some_failures : 0 < threshold)
    (some_tests : 0 < tests) where
  run_section-IsBounded :
      (s : CallSection) (b : CircuitBreaker)
      → IsBounded threshold tests b
      → IsBounded threshold tests (run_section threshold recovery tests s b)
  unfolding run_section enter_call leave_call on_success on_failure
  run_section-IsBounded (enters now) b h = record {
    failures = ground (arith, h.failures);
    successes = ground (arith, h.successes);
  }
  run_section-IsBounded (leaves returns now) b h = record {
    failures = ground (arith, h.failures);
    successes = ground (arith, h.successes);
  }
  run_section-IsBounded (leaves client_error now) b h = record {
    failures = ground (arith, h.failures);
    successes = ground (arith, h.successes);
  }
  run_section-IsBounded (leaves raises now) b h = record {
    failures = ground (arith, h.failures);
    successes = ground (arith, h.successes);
  }

  -- However calls overlap, a closed breaker has counted fewer failures in a row than the threshold,
  -- and a half open one fewer successes than it takes to close, if it was so before and both
  -- numbers are positive.
  pub run_calls-IsBounded :
      (l : List CallSection) (b : CircuitBreaker)
      → IsBounded threshold tests b
      → IsBounded threshold tests (run_calls threshold recovery tests l b)
  unfolding run_calls
  run_calls-IsBounded [] b h = h
  run_calls-IsBounded (s ∷ rest) b h = run_calls-IsBounded rest _ (run_section-IsBounded s b h)

  -- Where no calls overlap, a call, however it ends, keeps it that the breaker is closed exactly
  -- when it has counted fewer failures than the threshold, if the threshold and the number of
  -- tests are positive.
  pub call-IsCounted :
      (outcome : Outcome) (now later : ℕ) (b : CircuitBreaker)
      → IsCounted threshold b
      → IsCounted threshold (call threshold recovery tests outcome now later b).1
  unfolding call enter_call leave_call on_success on_failure should_attempt_reset
  call-IsCounted returns now later b h = ground arith
  call-IsCounted client_error now later b h = ground arith
  call-IsCounted raises now later b h = ground arith
