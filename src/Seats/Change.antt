-- ===== src/Seats/Change.antt =====
-- The life of one seat row, as an abstract machine: what any call may do to a row.
use ticketremaster_b.Base.{ℕ, ◌≡◌, ◌≢◌, ◌⊎◌, inl, inr, true, none, some, arith}
use ticketremaster_b.Base.Table.{Table, lookup, insert}
use ticketremaster_b.Seats.Model.{
  held, is_available, is_held, is_sold, SeatInventory, hold_has_expired, clear_hold,
}
use ticketremaster_b.Seats.Calls.{sell_row}

-- At a time, a free seat or one whose hold has run out is taken; a held seat is freed or sold.
pub data Change (now : ℕ) (row : SeatInventory) : SeatInventory → Type 0 where
  take :
      (user token until : ℕ)
      → (is_available row.status ≡ true) ⊎ (hold_has_expired row now ≡ true)
      → Change now row (record row {
        status = held;
        held_by_user_id = some user;
        hold_token = some token;
        held_until = some until;
      })
  free : is_held row.status ≡ true → Change now row (clear_hold row)
  sell : is_held row.status ≡ true → Change now row (sell_row row)

-- The table keeps every row but at most the one at `k`, which makes one change.
pub data RowsChange (now k : ℕ) (old : Table SeatInventory) : Table SeatInventory → Type 0 where
  kept : RowsChange now k old old
  changed :
      (row row' : SeatInventory)
      → lookup k old ≡ some row
      → Change now row row'
      → RowsChange now k old (insert k row' old)

-- Only a held row names a holder, a token or a time.
pub record IsConsistent (row : SeatInventory) : Type 0 where
  pub holder : is_held row.status ≢ true → row.held_by_user_id ≡ none
  pub token : is_held row.status ≢ true → row.hold_token ≡ none
  pub until : is_held row.status ≢ true → row.held_until ≡ none

pub Change-IsConsistent :
    {now : ℕ} {row row' : SeatInventory} → Change now row row' → IsConsistent row'
unfolding clear_hold sell_row is_held
Change-IsConsistent (take user token until h) = ground arith
Change-IsConsistent (free h) = ground arith
Change-IsConsistent (sell h) = ground arith

-- A sold row makes no change.
pub Change-not_sold :
    {now : ℕ} {row row' : SeatInventory} → Change now row row' → is_sold row.status ≢ true
unfolding is_sold is_available is_held hold_has_expired
Change-not_sold {now} {row} (take user token until (inl h)) = ground arith
Change-not_sold {now} {row} (take user token until (inr h)) = ground arith
Change-not_sold {now} {row} (free h) = ground arith
Change-not_sold {now} {row} (sell h) = ground arith
