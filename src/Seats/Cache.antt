-- ===== src/Seats/Cache.antt =====
-- The Redis helpers of services/seat-inventory-service/grpc_server.py.
use ticketremaster_b.Base.{
  ℕ, zero, suc, Bool, Option, none, some, List, [], ◌∷◌, ◌&&◌, ◌==◌, if◌then◌else◌,
}
use ticketremaster_b.Base.Table.{insert, erase}
use ticketremaster_b.Seats.Model.{HoldEntry, ReleaseEntry, SeatState}

-- One use of the server: whether `_get_redis_client` gives a client, whether the command of each
-- attempt raises, and whether the dead letter queue takes a message.
pub record Redis : Type 0 where
  pub connects : Bool
  pub fails : ℕ → Bool
  pub dead_letter_up : Bool

-- `_write_hold_cache`
unfoldable pub write_hold_cache : ℕ → HoldEntry → Redis → SeatState → SeatState
write_hold_cache inventory_id entry redis s =
    if redis.connects
    then (if redis.fails 0 then s else record s { holds = insert inventory_id entry s.holds })
    else s

-- `_log_cache_invalidation_failure`
unfoldable pub log_cache_invalidation_failure : ℕ → Redis → SeatState → SeatState
log_cache_invalidation_failure inventory_id redis s =
    if redis.dead_letter_up then record s { dead_letters = inventory_id ∷ s.dead_letters } else s

-- The loop of `_delete_hold_cache`: the attempts left, and the number of this attempt.
unfoldable pub delete_attempts : ℕ → ℕ → ℕ → Redis → SeatState → SeatState
delete_attempts zero attempt inventory_id redis s = s
delete_attempts (suc left) attempt inventory_id redis s =
    let retry = delete_attempts left (suc attempt) inventory_id redis s in
    if redis.fails attempt
    then (if left == 0 then log_cache_invalidation_failure inventory_id redis s else retry)
    else record s { holds = erase inventory_id s.holds }

-- `_delete_hold_cache`; `attempts` is CACHE_RETRY_ATTEMPTS.
unfoldable pub delete_hold_cache : ℕ → ℕ → Redis → SeatState → SeatState
delete_hold_cache attempts inventory_id redis s =
    if redis.connects then delete_attempts attempts 0 inventory_id redis s else s

unfoldable pub find_release : ℕ → ℕ → List ReleaseEntry → Option Bool
find_release inventory_id hold_token [] = none
find_release inventory_id hold_token (e ∷ rest) =
    if (e.inventory_id == inventory_id) && (e.hold_token == hold_token)
    then some e.success
    else find_release inventory_id hold_token rest

-- `_check_idempotency`
unfoldable pub check_idempotency : ℕ → ℕ → Redis → SeatState → Option Bool
check_idempotency inventory_id hold_token redis s =
    if redis.connects
    then (if redis.fails 0 then none else find_release inventory_id hold_token s.releases)
    else none

-- `_cache_idempotency_result`; a later entry hides an earlier one.
unfoldable pub cache_idempotency_result : ReleaseEntry → Redis → SeatState → SeatState
cache_idempotency_result entry redis s =
    if redis.connects
    then (if redis.fails 0 then s else record s { releases = entry ∷ s.releases })
    else s
