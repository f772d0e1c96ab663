-- ===== src/Seats/Model.antt =====
-- services/seat-inventory-service/models.py, and what the service keeps in Redis.
-- Identifiers and tokens are texts that the code only compares and tests for emptiness: a number
-- stands for each, 0 for the empty text. A time is a number of seconds, in UTC.
use ticketremaster_b.Base.{ℕ, Bool, true, false, Option, none, some, List, leb}
use ticketremaster_b.Base.Table.{Table}

-- `other` is any other text that the batch route stores.
pub data SeatStatus : Type 0 where
  available held sold : SeatStatus
  other : ℕ → SeatStatus

-- `status == 'available'`, `status == 'held'`, `status == 'sold'`
unfoldable pub is_available : SeatStatus → Bool
is_available available = true
is_available _ = false

unfoldable pub is_held : SeatStatus → Bool
is_held held = true
is_held _ = false

unfoldable pub is_sold : SeatStatus → Bool
is_sold sold = true
is_sold _ = false

-- `class SeatInventory`, without its key and the two time stamps that no code reads.
pub record SeatInventory : Type 0 where
  pub event_id : ℕ
  pub seat_id : ℕ
  pub status : SeatStatus
  pub held_by_user_id : Option ℕ
  pub hold_token : Option ℕ
  pub held_until : Option ℕ

-- The payload under `hold:<inventory_id>`; its status is always "held".
pub record HoldEntry : Type 0 where
  pub held_by_user_id : ℕ
  pub hold_token : ℕ
  pub held_until : ℕ

-- The value under `idempotent:release:<inventory_id>:<hold_token>`.
pub record ReleaseEntry : Type 0 where
  pub inventory_id : ℕ
  pub hold_token : ℕ
  pub success : Bool

-- The committed rows, the two key spaces of Redis, and the dead letters.
pub record SeatState : Type 0 where
  pub rows : Table SeatInventory
  pub holds : Table HoldEntry
  pub releases : List ReleaseEntry
  pub dead_letters : List ℕ

-- `heldUntil <= now` on a nullable column
abbrev past : Option ℕ → ℕ → Bool
past none now = false
past (some t) now = leb t now

abbrev when_held : SeatStatus → Bool → Bool
when_held held b = b
when_held _ b = false

-- `_hold_has_expired`
unfoldable pub hold_has_expired : SeatInventory → ℕ → Bool
hold_has_expired row now = when_held row.status (past row.held_until now)

-- `_clear_hold`
unfoldable pub clear_hold : SeatInventory → SeatInventory
clear_hold row = record row {
  status = available;
  held_by_user_id = none;
  hold_token = none;
  held_until = none;
}
