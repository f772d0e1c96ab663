-- ===== src/Purchase/Breaker.antt =====
-- The circuit breaker of `_get_redis_client` in
-- orchestrators/ticket-purchase-orchestrator/routes.py. Each of its three critical sections is a
-- step; `threshold` is REDIS_CB_FAILURE_THRESHOLD and `recovery` REDIS_CB_RECOVERY_SECONDS.
use ticketremaster_b.Base.{
  ℕ, suc, ◌+◌, ◌<◌, ◌≤◌, ◌≡◌, true, false, Bool, List, [], ◌∷◌, ◌||◌, ltb, leb, arith,
  if◌then◌else◌,
}

pub record Breaker : Type 0 where
  pub failures : ℕ
  pub last_failure_time : ℕ
  pub is_open : Bool

module _ (recovery : ℕ) where
  -- The section before the connection: whether to go on.
  unfoldable pub admit : ℕ → Breaker → Bool × Breaker
  admit now b =
      if b.is_open
      then (if ltb (b.last_failure_time + recovery) now
          then (true, record b { failures = 0; is_open = false })
          else (false, b))
      else (true, b)

-- The section after a successful ping.
unfoldable pub succeed : Breaker → Breaker
succeed b = if ltb 0 b.failures then record b { failures = 0; is_open = false } else b

module _ (threshold : ℕ) where
  -- The section of the handler.
  unfoldable pub give_up : ℕ → Breaker → Breaker
  give_up now b = record {
    failures = suc b.failures;
    last_failure_time = now;
    is_open = b.is_open || leb threshold (suc b.failures);
  }

module _ (threshold recovery : ℕ) where
  -- `_get_redis_client`: whether there is a client. `url` says whether REDIS_URL is set, `pings`
  -- whether the server answers, `later` is the time after the attempt.
  unfoldable pub get_redis_client : Bool → Bool → ℕ → ℕ → Breaker → Bool × Breaker
  get_redis_client url pings now later b =
      if url
      then (let (go, b₁) = admit recovery now b in
          if go
          then (if pings then (true, succeed b₁) else (false, give_up threshold later b₁))
          else (false, b₁))
      else (false, b)

-- The sections of several requests, in the order in which they get the lock.
pub data Section : Type 0 where
  admits gives_up : ℕ → Section
  succeeds : Section

module _ (threshold recovery : ℕ) where
  unfoldable pub enter : Section → Breaker → Breaker
  enter (admits now) b = (admit recovery now b).1
  enter (gives_up now) b = give_up threshold now b
  enter succeeds b = succeed b

  unfoldable pub run_sections : List Section → Breaker → Breaker
  run_sections [] b = b
  run_sections (s ∷ rest) b = run_sections rest (enter s b)

  -- The breaker is open exactly when it has counted enough failures.
  abbrev pub IsSound : Breaker → Type 0
  IsSound b = b.is_open ≡ leb threshold b.failures

  enter-IsSound : 0 < threshold → (s : Section) (b : Breaker) → IsSound b → IsSound (enter s b)
  unfolding enter admit succeed give_up
  enter-IsSound h (admits now) b p = ground arith
  enter-IsSound h (gives_up now) b p = ground arith
  enter-IsSound h succeeds b p = ground arith

  -- Whatever requests go through the sections in whatever order, the breaker is open exactly when
  -- its count of failures has reached `threshold`, if it was so before and the threshold is
  -- positive.
  pub run_sections-IsSound :
      0 < threshold → (l : List Section) (b : Breaker) → IsSound b → IsSound (run_sections l b)
  unfolding run_sections
  run_sections-IsSound h [] b p = p
  run_sections-IsSound h (s ∷ rest) b p = run_sections-IsSound h rest _ (enter-IsSound h s b p)

  -- With REDIS_URL set and a positive threshold, a breaker that is open exactly when its count has
  -- reached `threshold`, and whose count has, gives no client and does not change until `recovery`
  -- has passed since the last failure; after that, if the server answers, there is a client and
  -- the count starts again at 0.
  pub get_redis_client_open :
      (b : Breaker) (now later : ℕ)
      → 0 < threshold
      → IsSound b
      → threshold ≤ b.failures
      → (now ≤ b.last_failure_time + recovery
          → (pings : Bool)
          → get_redis_client threshold recovery true pings now later b ≡ (false, b))
        × (b.last_failure_time + recovery < now
            → get_redis_client threshold recovery true true now later b
              ≡ (true, record b { failures = 0; is_open = false }))
  unfolding get_redis_client admit succeed
  get_redis_client_open b now later h p n = (λ le pings. ground arith, λ lt. ground arith)
