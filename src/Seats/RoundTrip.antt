-- ===== src/Seats/RoundTrip.antt =====
-- A hold and what may come after it.
use ticketremaster_b.Base.{ℕ, ◌+◌, ◌<◌, ◌≡◌, refl, ◌⊎◌, inl, inr, true, false, none, some, arith}
use ticketremaster_b.Base.Table.{Table, lookup, insert, lookup-insert}
use ticketremaster_b.Seats.Model.{
  is_available, is_held, is_sold, SeatInventory, SeatState, hold_has_expired, clear_hold,
}
use ticketremaster_b.Seats.Cache.{check_idempotency}
use ticketremaster_b.Seats.Hold.{
  HoldSeatRequest, HoldEnv, Attempt, done, raised, held_row, hold_seconds, hold_attempt,
}
use ticketremaster_b.Seats.Calls.{
  SeatRequest, CallEnv, can_take, holds_seat, sell_row, sell_seat, release_seat,
}
use ticketremaster_b.Seats.Laws.{Granted, Refused, hold_attempt_outcome}
use ticketremaster_b.Seats.CallLaws.{sell_seat_iff, sell_seat_effect, release_seat_takes}

-- The attempt answers a success.
abbrev pub Succeeds : Attempt × SeatState → Type 0
Succeeds (done r, t) = r.success ≡ true
Succeeds (raised e, t) = ⊥

-- The call of the user that the hold was given to, under the token that it was given.
abbrev pub holder_request : HoldSeatRequest → HoldEnv → SeatRequest
holder_request req env = record {
  inventory_id = req.inventory_id;
  user_id = req.user_id;
  hold_token = env.token;
}

abbrev Held : HoldSeatRequest → HoldEnv → Table SeatInventory → Type 0
Held req env rows =
    (row : SeatInventory) × (lookup req.inventory_id rows ≡ some (held_row req env row))

Granted-Held :
    (req : HoldSeatRequest) (env : HoldEnv) (old : Table SeatInventory) (o : Attempt × SeatState)
    → Granted req env old o ⊎ Refused old o
    → Succeeds o
    → Held req env o.1.rows
Granted-Held req env old o (inl (row, at, free_seat, new, r)) h =
    (row, rw new (found_inserted req.inventory_id (held_row req env row) old))
  where
    found_inserted :
        (k : ℕ) (v : SeatInventory) (t : Table SeatInventory) → lookup k (insert k v t) ≡ some v
    found_inserted k v t = ground (arith, lookup-insert k k v t)
Granted-Held req env old (done r, t) (inr (failed, e)) h = absurd (ground arith)
Granted-Held req env old (raised e, t) (inr _) h = absurd h

module _ (req : HoldSeatRequest) (env : HoldEnv) (n : ℕ) (s : SeatState)
    (success : Succeeds (hold_attempt req env n s)) where
  abbrev after_hold : SeatState
  after_hold = (hold_attempt req env n s).1

  hold-Held : Held req env after_hold.rows
  hold-Held = Granted-Held req env s.rows _ (hold_attempt_outcome req env n s) success

  may_take : can_take (holder_request req env) (lookup req.inventory_id after_hold.rows) ≡ true
  unfolding can_take holds_seat held_row is_held
  may_take = let (row, at) = hold-Held in rw at (ground arith)

  -- In the state that a successful hold leaves, `SellSeat` for the same user and token says yes
  -- and the seat is sold, if the database answers.
  pub hold_then_sell :
      (m : ℕ) (call : CallEnv)
      → call.query_fault ≡ false
      → call.commit_fault ≡ false
      → ((sell_seat m (holder_request req env) call after_hold).0 ≡ some true)
        × ((row : SeatInventory) × (lookup req.inventory_id
                (sell_seat m (holder_request req env) call after_hold).1.rows
              ≡ some row)
            × (is_sold row.status ≡ true))
  hold_then_sell m call q c =
      let yes_now = (sell_seat_iff m (holder_request req env) call after_hold).1 (q, may_take, c) in
      (yes_now, sold_row yes_now)
    where
      sold_row :
          (sell_seat m (holder_request req env) call after_hold).0 ≡ some true
          → (row : SeatInventory) × (lookup req.inventory_id
                (sell_seat m (holder_request req env) call after_hold).1.rows
              ≡ some row)
            × (is_sold row.status ≡ true)
      sold_row y = elim (sell_seat_effect m (holder_request req env) call after_hold) [
        | inl (refused, _) ↦ absurd (refused y)
        | inr (_, (row, _, _, _, _, rows)) ↦ (
          sell_row row,
          ground (
            arith,
            rows,
            lookup-insert req.inventory_id req.inventory_id (sell_row row) after_hold.rows,
          ),
          unfold sell_row is_sold in refl,
        )
      ]

  -- In the state that a successful hold leaves, `ReleaseSeat` for the same user and token says yes
  -- and the seat is available and names no holder, if the database answers and no earlier answer
  -- for the seat and the token is found in Redis.
  pub hold_then_release :
      (m : ℕ) (call : CallEnv)
      → check_idempotency req.inventory_id env.token call.check_redis after_hold ≡ none
      → call.query_fault ≡ false
      → call.commit_fault ≡ false
      → ((release_seat m (holder_request req env) call after_hold).0 ≡ some true)
        × ((row : SeatInventory) × (lookup req.inventory_id
                (release_seat m (holder_request req env) call after_hold).1.rows
              ≡ some row)
            × (is_available row.status ≡ true)
            × (row.held_by_user_id ≡ none))
  hold_then_release m call i q c =
      let (yes_now, (row, _, _, _, _, rows)) =
        release_seat_takes m (holder_request req env) call after_hold i q may_take c in
      (
        yes_now,
        (
          clear_hold row,
          ground (
            arith,
            rows,
            lookup-insert req.inventory_id req.inventory_id (clear_hold row) after_hold.rows,
          ),
          unfold clear_hold is_available in refl,
          unfold clear_hold in refl,
        ),
      )

  -- In the state that a successful hold leaves, every attempt to hold the same seat whose clock
  -- reads less than the time of the hold is refused or raises, whoever makes it, and changes no
  -- row.
  pub hold_excludes :
      (other : HoldSeatRequest) (later : HoldEnv) (m : ℕ)
      → other.inventory_id ≡ req.inventory_id
      → later.now < env.now + hold_seconds req.hold_duration_seconds
      → Refused after_hold.rows (hold_attempt other later m after_hold)
  hold_excludes other later m same_seat before =
      elim (hold_attempt_outcome other later m after_hold) [
        | inr r ↦ r
        | inl (row, at, free_seat, _, _) ↦ absurd (clash row (rw same_seat at at) free_seat)
      ]
    where
      clash :
          (row : SeatInventory)
          → lookup req.inventory_id after_hold.rows ≡ some row
          → (is_available row.status ≡ true) ⊎ (hold_has_expired row later.now ≡ true)
          → ⊥
      clash row at (inl h) =
          let (r, at') = hold-Held in unfold is_available held_row in ground arith
      clash row at (inr h) =
          let (r, at') = hold-Held in unfold hold_has_expired held_row in ground arith
