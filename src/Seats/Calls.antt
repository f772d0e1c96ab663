-- ===== src/Seats/Calls.antt =====
-- `ReleaseSeat`, `SellSeat` and `GetSeatStatus` of
-- services/seat-inventory-service/grpc_server.py.
use ticketremaster_b.Base.{ℕ, Bool, true, false, Option, none, some, ◌&&◌, same, if◌then◌else◌}
use ticketremaster_b.Base.Table.{lookup, insert}
use ticketremaster_b.Seats.Model.{
  available, sold, is_held, SeatInventory, SeatState, hold_has_expired, clear_hold,
}
use ticketremaster_b.Seats.Cache.{
  Redis, delete_hold_cache, check_idempotency, cache_idempotency_result,
}
use ticketremaster_b.Seats.Hold.{ReplyStatus, seat, not_found}

-- The requests of `ReleaseSeat` and `SellSeat` have the same fields.
pub record SeatRequest : Type 0 where
  pub inventory_id : ℕ
  pub user_id : ℕ
  pub hold_token : ℕ

-- What a call meets: the clock, whether the query or the commit raises (the caller then sees an
-- `RpcError` and the session is rolled back), and the uses of Redis.
pub record CallEnv : Type 0 where
  pub now : ℕ
  pub query_fault : Bool
  pub commit_fault : Bool
  pub check_redis : Redis
  pub delete_redis : Redis
  pub result_redis : Redis

-- The condition under which `SellSeat` and `ReleaseSeat` go on.
unfoldable pub holds_seat : SeatRequest → SeatInventory → Bool
holds_seat req row =
    is_held row.status
    && same row.held_by_user_id (some req.user_id)
    && same row.hold_token (some req.hold_token)

unfoldable pub sell_row : SeatInventory → SeatInventory
sell_row row = record row {
  status = sold;
  held_by_user_id = none;
  hold_token = none;
  held_until = none;
}

unfoldable pub can_take : SeatRequest → Option SeatInventory → Bool
can_take req none = false
can_take req (some row) = holds_seat req row

-- The row that the session writes back.
abbrev pub written :
    ℕ → (SeatInventory → SeatInventory) → Option SeatInventory → SeatState → SeatState
written k f none s = s
written k f (some row) s = record s { rows = insert k (f row) s.rows }

-- A remembered result is the reply.
abbrev pub cached_or : Option Bool → SeatState → Option Bool × SeatState → Option Bool × SeatState
cached_or (some success) s rest = (some success, s)
cached_or none s rest = rest

module _ (req : SeatRequest) (env : CallEnv) where
  unfoldable pub remember : Bool → SeatState → SeatState
  remember success s =
      cache_idempotency_result
        (record { inventory_id = req.inventory_id; hold_token = req.hold_token; success = success })
        env.result_redis s

module _ (retries : ℕ) (req : SeatRequest) (env : CallEnv) where
  unfoldable pub release_uncached : SeatState → Option Bool × SeatState
  release_uncached s =
      let found = lookup req.inventory_id s.rows in
      if env.query_fault
      then (none, s)
      else if can_take req found
      then (if env.commit_fault then (none, s) else (
        some true,
        remember req env true (
            delete_hold_cache retries req.inventory_id env.delete_redis
              (written req.inventory_id clear_hold found s)),
      ))
      else (some false, remember req env false s)

  -- `ReleaseSeat`: the reply's `success`, `none` for an `RpcError`
  unfoldable pub release_seat : SeatState → Option Bool × SeatState
  release_seat s =
      cached_or (check_idempotency req.inventory_id req.hold_token env.check_redis s) s
        (release_uncached s)

  -- `SellSeat`
  unfoldable pub sell_seat : SeatState → Option Bool × SeatState
  sell_seat s =
      let found = lookup req.inventory_id s.rows in
      if env.query_fault
      then (none, s)
      else if can_take req found
      then (if env.commit_fault then (none, s) else (
        some true,
        delete_hold_cache retries req.inventory_id env.delete_redis
            (written req.inventory_id sell_row found s),
      ))
      else (some false, s)

pub record SeatStatusResponse : Type 0 where
  pub inventory_id : ℕ
  pub status : ReplyStatus
  pub held_until : Option ℕ

module _ (retries : ℕ) (inventory_id : ℕ) (env : CallEnv) where
  unfoldable pub status_of :
      Option SeatInventory → SeatState → Option SeatStatusResponse × SeatState
  status_of none s =
      (some (record { inventory_id = inventory_id; status = not_found; held_until = none }), s)
  status_of (some row) s =
      if hold_has_expired row env.now
      then (if env.commit_fault then (none, s) else (
        some (record { inventory_id = inventory_id; status = seat available; held_until = none }),
        delete_hold_cache retries inventory_id env.delete_redis
            (record s { rows = insert inventory_id (clear_hold row) s.rows }),
      ))
      else (
        some (record {
          inventory_id = inventory_id;
          status = seat row.status;
          held_until = row.held_until;
        }),
        s,
      )

  -- `GetSeatStatus`
  unfoldable pub get_seat_status : SeatState → Option SeatStatusResponse × SeatState
  get_seat_status s =
      if env.query_fault then (none, s) else status_of (lookup inventory_id s.rows) s
