-- ===== src/Purchase/BreakerTests.antt =====
-- The circuit breakers on small runs.
use ticketremaster_b.Base.{refl, true, false, none, List, [], ◌∷◌, arith}
use ticketremaster_b.Purchase.Breaker.{
  Breaker, Section, admits, gives_up, succeeds, run_sections, IsSound, run_sections-IsSound,
}
use ticketremaster_b.Purchase.ServiceBreaker.{
  BreakerState, CircuitBreaker, returns, raises, CallSection, enters, leaves, run_calls, IsBounded,
  run_calls-IsBounded,
}

abbrev closed : Breaker
closed = record { failures = 0; last_failure_time = 0; is_open = false }

abbrev opened : Breaker
opened = record { failures = 3; last_failure_time = 100; is_open = true }

abbrev sections : List Section
sections = admits 90 ∷ gives_up 91 ∷ gives_up 92 ∷ gives_up 93 ∷ admits 124 ∷ succeeds ∷ []

run_sections-IsSound_example : IsSound 3 30 (run_sections 3 30 sections closed)
run_sections-IsSound_example = run_sections-IsSound 3 30 (omega arith) sections closed refl

abbrev fresh_breaker : CircuitBreaker
fresh_breaker = record {
  state = BreakerState.closed;
  failure_count = 0;
  last_failure_time = none;
  half_open_successes = 0;
}

abbrev call_sections : List CallSection
call_sections =
    enters 90
    ∷ enters 91
    ∷ leaves raises 92
    ∷ leaves raises 93
    ∷ leaves raises 94
    ∷ enters 130
    ∷ leaves returns 131
    ∷ []

run_calls-IsBounded_example : IsBounded 3 1 (run_calls 3 30 1 call_sections fresh_breaker)
run_calls-IsBounded_example =
    run_calls-IsBounded 3 30 1 (omega arith) (omega arith) call_sections fresh_breaker
      (record { failures = λ _. omega arith; successes = λ _. omega arith })
