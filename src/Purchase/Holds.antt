-- ===== src/Purchase/Holds.antt =====
-- The routes POST and DELETE /purchase/hold/<inventory_id> of
-- orchestrators/ticket-purchase-orchestrator/routes.py, and the consumer of expired holds in
-- dlx_consumer.py.
use ticketremaster_b.Base.{ℕ, zero, suc, true, false, ◌∷◌}
use ticketremaster_b.Web.{
  Code, ok, err, service_unavailable, seat_unavailable, internal_error, inventory_not_found,
  seat_not_available, deadlock_failed, database_error,
}
use ticketremaster_b.Seats.Model.{SeatState}
use ticketremaster_b.Seats.Hold.{SeatCode, no_code, HoldSeatRequest, HoldSeatResponse, HoldEnv}
use ticketremaster_b.Seats.Calls.{SeatRequest, CallEnv}
use ticketremaster_b.World.Model.{World, Action, failing, ignore, ◌>>=◌, require}
use ticketremaster_b.World.Calls.{rpc_hold_seat, rpc_release_seat}

-- What an attempt to publish comes to; an exception may also come after the message was taken.
pub data Publish : Type 0 where
  sent not_sent sent_and_raised : Publish

unfoldable pub enqueue : {A : Type 0} → SeatRequest → World A → World A
enqueue message w = record w { expiring = message ∷ w.expiring }

-- What an attempt leads to: the world with the message, or what the later attempts come to, without
-- it or with it.
abbrev pub after_publish : {A : Type 0} → Publish → World A → World A → World A → World A
after_publish sent taken later later_taken = taken
after_publish not_sent taken later later_taken = later
after_publish sent_and_raised taken later later_taken = later_taken

-- The loop of `_publish_hold_ttl`: the attempts left, and the number of this attempt.
unfoldable pub publish_attempts :
    {A : Type 0} → ℕ → ℕ → (ℕ → Publish) → SeatRequest → World A → World A
publish_attempts zero attempt env message w = w
publish_attempts (suc left) attempt env message w =
    after_publish (env attempt) (enqueue message w)
      (publish_attempts left (suc attempt) env message w)
      (publish_attempts left (suc attempt) env message (enqueue message w))

-- `_publish_hold_ttl`, with its MAX_RETRIES
unfoldable pub publish_hold_ttl : {A : Type 0} → (ℕ → Publish) → SeatRequest → World A → World A
publish_hold_ttl env message w = publish_attempts 3 0 env message w

-- `resp.error_code or "SEAT_UNAVAILABLE"`
unfoldable pub hold_code : SeatCode → Code
hold_code no_code = seat_unavailable
hold_code SeatCode.inventory_not_found = inventory_not_found
hold_code SeatCode.seat_not_available = seat_not_available
hold_code SeatCode.deadlock_failed = deadlock_failed
hold_code SeatCode.database_error = database_error
hold_code SeatCode.internal_error = internal_error

-- What the hold route meets: the attempts of the seat service, and the broker.
pub record HoldRouteEnv : Type 0 where
  pub attempt_envs : ℕ → HoldEnv
  pub cache_attempts : ℕ
  pub others : ℕ → SeatState → SeatState
  pub max_attempts : ℕ
  pub publishes : ℕ → Publish

abbrev pub message_of : HoldSeatRequest → ℕ → SeatRequest
message_of req token = record {
  inventory_id = req.inventory_id;
  user_id = req.user_id;
  hold_token = token;
}

-- What follows the reply of `HoldSeat`.
unfoldable pub on_hold_reply :
    {A : Type 0} → HoldSeatRequest → HoldRouteEnv → HoldSeatResponse → Action A ℕ
on_hold_reply req env reply w = elim reply.success [
  | true ↦ (ok reply.hold_token, publish_hold_ttl env.publishes (message_of req reply.hold_token) w)
  | false ↦ (err (hold_code reply.error_code), w)
]

module _ {A : Type 0} (meanwhile : ℕ → World A → World A) where
  -- `hold_seat`; the value is the token
  unfoldable pub hold_route : HoldSeatRequest → HoldRouteEnv → Action A ℕ
  hold_route req env = do
    reply ← failing service_unavailable (
        rpc_hold_seat meanwhile req env.attempt_envs env.cache_attempts env.others env.max_attempts)
    on_hold_reply req env reply

  -- `release_hold`. On a refusal it reads `resp.error_code`, a field that the reply does not have,
  -- and the exception is answered as a server error.
  unfoldable pub release_hold : ℕ → SeatRequest → CallEnv → Action A (Unit {0})
  release_hold cache_attempts req env = do
    released ← failing service_unavailable (rpc_release_seat meanwhile cache_attempts req env)
    require released internal_error

  -- `on_expired`: the message is acknowledged, or dropped after an `RpcError`
  unfoldable pub on_expired : ℕ → CallEnv → SeatRequest → Action A (Unit {0})
  on_expired cache_attempts env message =
      ignore (rpc_release_seat meanwhile cache_attempts message env)
