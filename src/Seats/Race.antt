-- ===== src/Seats/Race.antt =====
-- `GetSeatStatus` reads the row without a lock, unlike the other calls: another call may commit
-- between its read and its write. `status_of` on the row that was read, in the state of the write,
-- is what it does then; the columns of the event and the seat, which nothing writes, are the same
-- in both.
use ticketremaster_b.Base.{ℕ, ◌≡◌, refl, inl, inr, true, false, some, arith}
use ticketremaster_b.Base.Table.{lookup, insert, lookup-insert}
use ticketremaster_b.Seats.Model.{
  is_available, is_sold, SeatInventory, SeatState, hold_has_expired, clear_hold,
}
use ticketremaster_b.Seats.Cache.{delete_hold_cache}
use ticketremaster_b.Seats.Calls.{SeatRequest, CallEnv, sell_row, sell_seat, status_of}
use ticketremaster_b.Seats.CallLaws.{sell_seat_effect}
use ticketremaster_b.Seats.Refine.{rows-delete_hold_cache}

sold_after :
    (m : ℕ) (req : SeatRequest) (call : CallEnv) (s : SeatState)
    → (sell_seat m req call s).0 ≡ some true
    → (row : SeatInventory) × (lookup req.inventory_id (sell_seat m req call s).1.rows ≡ some row)
      × (is_sold row.status ≡ true)
sold_after m req call s says_yes = elim (sell_seat_effect m req call s) [
  | inl (refused, _) ↦ absurd (refused says_yes)
  | inr (_, (row, _, _, _, _, rows)) ↦ (
    sell_row row,
    ground (arith, rows, lookup-insert req.inventory_id req.inventory_id (sell_row row) s.rows),
    unfold sell_row is_sold in refl,
  )
]

-- A `GetSeatStatus` that reads a held row past its time, before a `SellSeat` sells the seat, and
-- writes after it, makes the sold seat available again, if its commit goes through.
pub stale_status_unsells :
    (m n : ℕ) (req : SeatRequest) (call env : CallEnv) (s : SeatState) (row : SeatInventory)
    → lookup req.inventory_id s.rows ≡ some row
    → hold_has_expired row env.now ≡ true
    → env.commit_fault ≡ false
    → (sell_seat m req call s).0 ≡ some true
    → ((bought : SeatInventory) × (lookup req.inventory_id (sell_seat m req call s).1.rows
          ≡ some bought)
        × (is_sold bought.status ≡ true))
      × ((after : SeatInventory) × (lookup req.inventory_id
              (status_of n req.inventory_id env (some row) (sell_seat m req call s).1).1.rows
            ≡ some after)
          × (is_available after.status ≡ true))
unfolding status_of clear_hold is_available
stale_status_unsells m n req call env s row at expired c says_yes =
    let t : SeatState = (sell_seat m req call s).1 in
    let u : SeatState = record t { rows = insert req.inventory_id (clear_hold row) t.rows } in
    let kept_rows : (delete_hold_cache n req.inventory_id env.delete_redis u).rows ≡ u.rows =
      rows-delete_hold_cache n req.inventory_id env.delete_redis u in
    (
      sold_after m req call s says_yes,
      (
        clear_hold row,
        rw (expired, c)
            (ground (
              arith,
              kept_rows,
              lookup-insert req.inventory_id req.inventory_id (clear_hold row) t.rows,
            )),
        refl,
      ),
    )
