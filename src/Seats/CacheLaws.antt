-- ===== src/Seats/CacheLaws.antt =====
-- What `_delete_hold_cache` comes to, over all its attempts.
use ticketremaster_b.Base.{
  ℕ, zero, suc, ◌≡◌, refl, Bool, false, ◌∷◌, not, ◌||◌, ◌==◌, arith, if◌then◌else◌,
}
use ticketremaster_b.Base.Table.{erase}
use ticketremaster_b.Seats.Model.{SeatState}
use ticketremaster_b.Seats.Cache.{
  Redis, delete_attempts, delete_hold_cache, log_cache_invalidation_failure,
}

-- One of the attempts from the given number on goes through.
abbrev pub any_works : ℕ → ℕ → Redis → Bool
any_works zero attempt redis = false
any_works (suc left) attempt redis = not (redis.fails attempt) || any_works left (suc attempt) redis

delete_attempts_lem :
    (left attempt k : ℕ) (redis : Redis) (s : SeatState)
    → delete_attempts left attempt k redis s ≡ (
        if any_works left attempt redis
        then record s { holds = erase k s.holds }
        else if left == 0
        then s
        else log_cache_invalidation_failure k redis s)
unfolding delete_attempts
delete_attempts_lem zero attempt k redis s = refl
delete_attempts_lem (suc left) attempt k redis s =
    ground (arith, delete_attempts_lem left (suc attempt) k redis s)

-- The hold leaves the cache exactly when there is a client and one of the attempts goes through;
-- a client whose attempts, at least one, all fail leaves the cache alone and the seat among the
-- dead letters, if their queue is up; nothing else changes.
pub delete_hold_cache_lem :
    (attempts k : ℕ) (redis : Redis) (s : SeatState)
    → delete_hold_cache attempts k redis s ≡ (
        if not redis.connects
        then s
        else if any_works attempts 0 redis
        then record s { holds = erase k s.holds }
        else if (attempts == 0) || not redis.dead_letter_up
        then s
        else record s { dead_letters = k ∷ s.dead_letters })
unfolding delete_hold_cache log_cache_invalidation_failure
delete_hold_cache_lem attempts k redis s = ground (arith, delete_attempts_lem attempts 0 k redis s)
