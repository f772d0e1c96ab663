-- ===== src/Seats/CallLaws.antt =====
-- What `SellSeat`, `ReleaseSeat` and `GetSeatStatus` promise.
use ticketremaster_b.Base.{
  ℕ, ◌≡◌, ◌≢◌, refl, Bool, ◌↔◌, ◌⊎◌, inl, inr, true, false, Option, none, some, arith, ◌==◌,
  if◌then◌else◌, Option-cases, Bool-cases,
}
use ticketremaster_b.Base.Table.{Table, lookup, insert, lookup-insert}
use ticketremaster_b.Seats.Model.{is_held, SeatInventory, SeatState, hold_has_expired, clear_hold}
use ticketremaster_b.Seats.Cache.{delete_hold_cache, check_idempotency}
use ticketremaster_b.Seats.Hold.{seat, not_found}
use ticketremaster_b.Seats.Calls.{
  SeatRequest, CallEnv, holds_seat, can_take, sell_row, written, remember, release_uncached,
  release_seat, sell_seat, get_seat_status, status_of, SeatStatusResponse,
}
use ticketremaster_b.Seats.Refine.{rows-delete_hold_cache, rows-remember}

-- The row that a call may take, and what it names.
pub taken_row :
    (req : SeatRequest) (found : Option SeatInventory)
    → can_take req found ≡ true
    → (row : SeatInventory) × (found ≡ some row)
      × (is_held row.status ≡ true)
      × (row.held_by_user_id ≡ some req.user_id)
      × (row.hold_token ≡ some req.hold_token)
unfolding can_take holds_seat
taken_row req none h = absurd (ground arith)
taken_row req (some row) h = (row, refl, ground arith, ground arith, ground arith)

-- What a yes has found and written, for a call that turns the row `row` into `f row`.
abbrev pub Took :
    SeatRequest
    → (SeatInventory → SeatInventory)
    → Table SeatInventory
    → Table SeatInventory
    → Type 0
Took req f old new =
    (row : SeatInventory) × (lookup req.inventory_id old ≡ some row)
    × (is_held row.status ≡ true)
    × (row.held_by_user_id ≡ some req.user_id)
    × (row.hold_token ≡ some req.hold_token)
    × (new ≡ insert req.inventory_id (f row) old)

Took-written :
    (req : SeatRequest) (f : SeatInventory → SeatInventory) (s : SeatState)
    → can_take req (lookup req.inventory_id s.rows) ≡ true
    → Took req f s.rows (written req.inventory_id f (lookup req.inventory_id s.rows) s).rows
Took-written req f s c = let (row, e, h, u, t) = taken_row req _ c in (row, e, h, u, t, rw e)

-- `SellSeat` says yes exactly when the query and the commit go through and the row is held by this
-- user under this token, whatever the time.
pub sell_seat_iff :
    (n : ℕ) (req : SeatRequest) (env : CallEnv) (s : SeatState)
    → ((sell_seat n req env s).0 ≡ some true) ↔ (
        (env.query_fault ≡ false)
        × (can_take req (lookup req.inventory_id s.rows) ≡ true)
        × (env.commit_fault ≡ false))
unfolding sell_seat
sell_seat_iff n req env s = (λ h. ground arith, λ h. ground arith)

-- Any answer of `SellSeat` but yes leaves the whole state as it was; a yes was given to the user
-- and the token of a held row, which is now sold and names no holder, token or time, and no other
-- row has changed.
pub sell_seat_effect :
    (n : ℕ) (req : SeatRequest) (env : CallEnv) (s : SeatState)
    → (((sell_seat n req env s).0 ≢ some true) × ((sell_seat n req env s).1 ≡ s))
      ⊎ (((sell_seat n req env s).0 ≡ some true)
          × Took req sell_row s.rows (sell_seat n req env s).1.rows)
sell_seat_effect n req env s = elim (Bool-cases env.query_fault) [
  | inl q ↦ inl (unfold sell_seat in ground arith)
  | inr q ↦ elim (Bool-cases (can_take req (lookup req.inventory_id s.rows))) [
    | inr c ↦ inl (unfold sell_seat in ground arith)
    | inl c ↦ elim (Bool-cases env.commit_fault) [
      | inl k ↦ inl (unfold sell_seat in ground arith)
      | inr k ↦ inr (sold_now q c k)
    ]
  ]
]
  where
    sold_now :
        env.query_fault ≡ false
        → can_take req (lookup req.inventory_id s.rows) ≡ true
        → env.commit_fault ≡ false
        → ((sell_seat n req env s).0 ≡ some true)
          × Took req sell_row s.rows (sell_seat n req env s).1.rows
    sold_now q c k =
        unfold sell_seat in
        rw (q, c, k) (refl, rw rows-delete_hold_cache (Took-written req sell_row s c))

-- A release that finds no remembered answer and no fault takes the row.
pub release_seat_takes :
    (n : ℕ) (req : SeatRequest) (env : CallEnv) (s : SeatState)
    → check_idempotency req.inventory_id req.hold_token env.check_redis s ≡ none
    → env.query_fault ≡ false
    → can_take req (lookup req.inventory_id s.rows) ≡ true
    → env.commit_fault ≡ false
    → ((release_seat n req env s).0 ≡ some true)
      × Took req clear_hold s.rows (release_seat n req env s).1.rows
unfolding release_seat release_uncached
release_seat_takes n req env s m q c k =
    rw (m, q, c, k)
      (refl, rw (rows-remember, rows-delete_hold_cache) (Took-written req clear_hold s c))

-- An answer of `ReleaseSeat` other than yes changes no row; a yes is one that Redis remembers for
-- this seat and this token, and changes nothing, or was given to the user and the token of a held
-- row, which is now available.
pub release_seat_effect :
    (n : ℕ) (req : SeatRequest) (env : CallEnv) (s : SeatState)
    → ((release_seat n req env s).1.rows ≡ s.rows)
        × (((release_seat n req env s).0 ≢ some true)
            ⊎ ((check_idempotency req.inventory_id req.hold_token env.check_redis s ≡ some true)
                × ((release_seat n req env s).1 ≡ s)))
      ⊎ ((release_seat n req env s).0 ≡ some true)
        × Took req clear_hold s.rows (release_seat n req env s).1.rows
unfolding remember
release_seat_effect n req env s =
    elim (Option-cases (check_idempotency req.inventory_id req.hold_token env.check_redis s)) [
      | inr (b, m) ↦ inl (unfold release_seat in rw m (refl, replayed b))
      | inl m ↦ elim (Bool-cases env.query_fault) [
        | inl q ↦ inl (
            unfold release_seat release_uncached in
            rw (m, q) (refl, inl (λ e. absurd (ground arith))))
        | inr q ↦ elim (Bool-cases (can_take req (lookup req.inventory_id s.rows))) [
          | inr c ↦ inl (
              unfold release_seat release_uncached in
              rw (m, q, c) (rows-remember req env false s, inl (λ e. cc)))
          | inl c ↦ elim (Bool-cases env.commit_fault) [
            | inl k ↦ inl (
                unfold release_seat release_uncached in
                rw (m, q, c, k) (refl, inl (λ e. absurd (ground arith))))
            | inr k ↦ inr (release_seat_takes n req env s m q c k)
          ]
        ]
      ]
    ]
  where
    replayed : (b : Bool) → (some b ≢ some true) ⊎ ((some b ≡ some true) × (s ≡ s))
    replayed true = inr (refl, refl)
    replayed false = inl (λ e. absurd (ground arith))

-- The row as it counts at a time: a hold that has run out is no hold.
abbrev pub effective : ℕ → Option SeatInventory → Option SeatInventory
effective now none = none
effective now (some row) = some (if hold_has_expired row now then clear_hold row else row)

abbrev pub describe : ℕ → Option SeatInventory → SeatStatusResponse
describe k none = record { inventory_id = k; status = not_found; held_until = none }
describe k (some row) = record {
  inventory_id = k;
  status = seat row.status;
  held_until = row.held_until;
}

-- When the database answers, `GetSeatStatus` leaves under the key the row as it counts at this
-- time, no other row changes, and the reply describes that row.
pub get_seat_status-effective :
    (n k : ℕ) (env : CallEnv) (s : SeatState)
    → env.query_fault ≡ false
    → env.commit_fault ≡ false
    → ((get_seat_status n k env s).0 ≡ some (describe k (effective env.now (lookup k s.rows))))
      × ((j : ℕ)
          → lookup j (get_seat_status n k env s).1.rows
            ≡ (if k == j then effective env.now (lookup k s.rows) else lookup j s.rows))
unfolding get_seat_status status_of clear_hold
get_seat_status-effective n k env s q c = rw q (at _ refl)
  where
    at :
        (found : Option SeatInventory)
        → lookup k s.rows ≡ found
        → ((status_of n k env found s).0 ≡ some (describe k (effective env.now found)))
          × ((j : ℕ)
              → lookup j (status_of n k env found s).1.rows
                ≡ (if k == j then effective env.now found else lookup j s.rows))
    at none h = (refl, λ j. ground arith)
    at (some row) h =
        let t : SeatState = record s { rows = insert k (clear_hold row) s.rows } in
        let kept_rows : (delete_hold_cache n k env.delete_redis t).rows ≡ t.rows =
          rows-delete_hold_cache n k env.delete_redis t in
        (ground arith, λ j. ground (arith, kept_rows, lookup-insert k j (clear_hold row) s.rows))
