-- ===== src/Seats/Hold.antt =====
-- `HoldSeat` of services/seat-inventory-service/grpc_server.py.
use ticketremaster_b.Base.{
  ℕ, zero, suc, ◌+◌, Bool, true, false, Option, none, some, ◌||◌, ◌&&◌, not, ◌==◌, if◌then◌else◌,
}
use ticketremaster_b.Base.Int.{ℤ, pos, negsuc}
use ticketremaster_b.Base.Table.{lookup, insert}
use ticketremaster_b.Seats.Model.{
  SeatStatus, held, is_available, SeatInventory, HoldEntry, SeatState, hold_has_expired, clear_hold,
}
use ticketremaster_b.Seats.Cache.{Redis, write_hold_cache, delete_hold_cache}

pub record HoldSeatRequest : Type 0 where
  pub inventory_id : ℕ
  pub user_id : ℕ
  pub hold_duration_seconds : ℤ

-- The `status` text of a reply: that of a row, or one of the two that the service writes itself.
pub data ReplyStatus : Type 0 where
  seat : SeatStatus → ReplyStatus
  not_found error : ReplyStatus

-- The `error_code` texts; `no_code` is the empty one.
pub data SeatCode : Type 0 where
  no_code inventory_not_found seat_not_available : SeatCode
  deadlock_failed database_error internal_error : SeatCode

-- An empty `held_until` is `none`, an empty `hold_token` 0.
pub record HoldSeatResponse : Type 0 where
  pub success : Bool
  pub status : ReplyStatus
  pub held_until : Option ℕ
  pub error_code : SeatCode
  pub hold_token : ℕ

-- What a database call may raise: `OperationalError`, with its code 40P01 and its text, or else.
pub data DbError : Type 0 where
  operational : Bool → Bool → DbError
  unexpected : DbError

-- `_is_deadlock_error`
unfoldable pub is_deadlock_error : DbError → Bool
is_deadlock_error (operational pgcode text) = pgcode || text
is_deadlock_error unexpected = false

-- What one attempt meets: the clock, `uuid4`, which database call raises, and the two uses of
-- Redis.
pub record HoldEnv : Type 0 where
  pub now : ℕ
  pub token : ℕ
  pub query_fault : Option DbError
  pub flush_fault : Option DbError
  pub update_fault : Option DbError
  pub commit_fault : Option DbError
  pub delete_redis : Redis
  pub write_redis : Redis

unfoldable pub hold_seconds : ℤ → ℕ
hold_seconds (pos (suc n)) = suc n
hold_seconds (pos zero) = 300
hold_seconds (negsuc n) = 300

abbrev pub refused : ReplyStatus → Option ℕ → SeatCode → HoldSeatResponse
refused status held_until code = record {
  success = false;
  status = status;
  held_until = held_until;
  error_code = code;
  hold_token = 0;
}

abbrev pub granted : ℕ → ℕ → HoldSeatResponse
granted until token = record {
  success = true;
  status = seat held;
  held_until = some until;
  error_code = no_code;
  hold_token = token;
}

pub data Attempt : Type 0 where
  done : HoldSeatResponse → Attempt
  raised : DbError → Attempt

-- `latest = db.session.get(...)` after a lost update.
abbrev pub lost_update : Option SeatInventory → HoldSeatResponse
lost_update none = refused not_found none seat_not_available
lost_update (some latest) = refused (seat latest.status) latest.held_until seat_not_available

-- The number of rows that the UPDATE with `status == 'available'` matches.
unfoldable pub updated_rows : SeatInventory → ℕ
updated_rows row = if is_available row.status then 1 else 0

-- An exception from a database call leaves the `try`; it rolls the session back, so the rows stay.
abbrev pub or_raise : Option DbError → SeatState → Attempt × SeatState → Attempt × SeatState
or_raise (some e) s rest = (raised e, s)
or_raise none s rest = rest

module _ (req : HoldSeatRequest) (env : HoldEnv) where
  unfoldable pub held_row : SeatInventory → SeatInventory
  held_row row = record row {
    status = held;
    held_by_user_id = some req.user_id;
    hold_token = some env.token;
    held_until = some (env.now + hold_seconds req.hold_duration_seconds);
  }

  unfoldable pub hold_entry : HoldEntry
  hold_entry = record {
    held_by_user_id = req.user_id;
    hold_token = env.token;
    held_until = env.now + hold_seconds req.hold_duration_seconds;
  }

  -- the commit and what follows it
  unfoldable pub commit_hold : SeatInventory → SeatState → Attempt × SeatState
  commit_hold row s = or_raise env.commit_fault s (
    done (granted (env.now + hold_seconds req.hold_duration_seconds) env.token),
    write_hold_cache req.inventory_id hold_entry env.write_redis
        (record s { rows = insert req.inventory_id (held_row row) s.rows }),
  )

  -- from the test for 'available' on; `row` is what the session holds, `s` has the committed rows
  unfoldable pub hold_locked : SeatInventory → SeatState → Attempt × SeatState
  hold_locked row s =
      if is_available row.status
      then or_raise env.update_fault s (
          if updated_rows row == 1
          then commit_hold row s
          else (done (lost_update (lookup req.inventory_id s.rows)), s))
      else (done (refused (seat row.status) row.held_until seat_not_available), s)

  module _ (retries : ℕ) where
    unfoldable pub hold_found : Option SeatInventory → SeatState → Attempt × SeatState
    hold_found none s = (done (refused not_found none inventory_not_found), s)
    hold_found (some row) s =
        if hold_has_expired row env.now
        then or_raise env.flush_fault s (
            hold_locked (clear_hold row)
              (delete_hold_cache retries req.inventory_id env.delete_redis s))
        else hold_locked row s

    -- The body of the `try`; `retries` is CACHE_RETRY_ATTEMPTS.
    unfoldable pub hold_attempt : SeatState → Attempt × SeatState
    hold_attempt s = or_raise env.query_fault s (hold_found (lookup req.inventory_id s.rows) s)

-- What the handlers answer to an exception, other than a retry.
unfoldable pub give_up : DbError → HoldSeatResponse
give_up (operational pgcode text) =
    if is_deadlock_error (operational pgcode text)
    then refused error none deadlock_failed
    else refused error none database_error
give_up unexpected = refused error none internal_error

-- What the loop does with the outcome of an attempt: `more` says whether an attempt is left, and
-- the last argument is what the later attempts come to.
unfoldable pub after_attempt :
    Bool
    → Attempt × SeatState
    → Option HoldSeatResponse × SeatState
    → Option HoldSeatResponse × SeatState
after_attempt more (done response, s) again = (some response, s)
after_attempt more (raised e, s) again =
    if is_deadlock_error e && more then again else (some (give_up e), s)

module _ (req : HoldSeatRequest) (envs : ℕ → HoldEnv) (retries : ℕ)
    (meanwhile : ℕ → SeatState → SeatState) where
  -- The loop of `HoldSeat`: the attempts left, and the number of this one. `meanwhile` is what
  -- other calls do to the state while this one sleeps after an attempt.
  unfoldable pub hold_attempts : ℕ → ℕ → SeatState → Option HoldSeatResponse × SeatState
  hold_attempts zero attempt s = (none, s)
  hold_attempts (suc left) attempt s =
      let o = hold_attempt req (envs attempt) retries s in
      let again = hold_attempts left (suc attempt) (meanwhile attempt o.1) in
      after_attempt (not (left == 0)) o again

  -- `HoldSeat`; the first number is MAX_DEADLOCK_RETRIES.
  unfoldable pub hold_seat : ℕ → SeatState → Option HoldSeatResponse × SeatState
  hold_seat max_retries s = hold_attempts max_retries 0 s
