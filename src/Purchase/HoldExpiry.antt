-- ===== src/Purchase/HoldExpiry.antt =====
-- What a hold that nobody confirms comes to.
use ticketremaster_b.Base.{
  ℕ, suc, ◌<◌, ◌≡◌, refl, ap, ◌∙◌, inl, inr, true, false, Option, none, some, List, [], ◌∷◌, arith,
  Bool-cases,
}
use ticketremaster_b.Base.Table.{Table, lookup, lookup-insert}
use ticketremaster_b.Web.{Result, ok, err, service_unavailable}
use ticketremaster_b.Seats.Model.{is_available, is_held, SeatInventory, SeatState, clear_hold}
use ticketremaster_b.Seats.Cache.{check_idempotency}
use ticketremaster_b.Seats.Hold.{
  HoldSeatRequest, HoldSeatResponse, HoldEnv, Attempt, done, raised, held_row, hold_seat,
}
use ticketremaster_b.Seats.Calls.{SeatRequest, CallEnv, can_take, holds_seat}
use ticketremaster_b.Seats.Laws.{GrantedBy, found_by, hold_seat_answers}
use ticketremaster_b.Seats.CallLaws.{release_seat_takes}
use ticketremaster_b.World.Model.{World, Action, failing, ◌>>=◌}
use ticketremaster_b.World.Calls.{
  arrive, spend_fate, next_fate, meet, remote, at_seats, rpc_hold_seat, rpc_release_seat,
}
use ticketremaster_b.Purchase.Holds.{
  publish_hold_ttl, publish_attempts, HoldRouteEnv, message_of, on_hold_reply, hold_route,
  on_expired,
}
use ticketremaster_b.Purchase.HoldQueue.{
  publish_attempts-Published, some_taken, Newest, publish_attempts-Newest,
}

abbrev token_of : Attempt → ℕ
token_of (done r) = r.hold_token
token_of (raised e) = 0

-- After a success the row is held under the token of the reply.
granted_can_take :
    (req : HoldSeatRequest) (envs : ℕ → HoldEnv) (n : ℕ) (others : ℕ → SeatState → SeatState)
    (max : ℕ) (s : SeatState) (r : HoldSeatResponse) (t : SeatState)
    → GrantedBy req envs n others max s (some r, t)
    → r.success ≡ true
    → can_take (message_of req r.hold_token) (lookup req.inventory_id t.rows) ≡ true
unfolding can_take holds_seat held_row is_held
granted_can_take req envs n others max s r t g success =
    let (i, _, _, (row, at, free_seat, rows, reply), _) = g success in
    let old : Table SeatInventory = (found_by req envs n others s i).rows in
    let token : r.hold_token ≡ (envs i).token = ap token_of reply in
    rw (rows, token)
      (ground
        (arith, lookup-insert req.inventory_id req.inventory_id (held_row req (envs i) row) old))

-- A message about a seat that is held by its user under its token frees the seat.
pub on_expired_frees :
    {A : Type 0} (n : ℕ) (env : CallEnv) (m : SeatRequest) (w : World A)
    → w.fates ≡ []
    → can_take m (lookup m.inventory_id w.seats.rows) ≡ true
    → check_idempotency m.inventory_id m.hold_token env.check_redis w.seats ≡ none
    → env.query_fault ≡ false
    → env.commit_fault ≡ false
    → (row : SeatInventory) × (lookup m.inventory_id (on_expired (λ i v. v) n env m w).1.seats.rows
        ≡ some row)
      × (is_available row.status ≡ true)
      × (row.held_by_user_id ≡ none)
unfolding on_expired rpc_release_seat remote arrive next_fate spend_fate meet at_seats
on_expired_frees n env m w calm held_row_there fresh q c =
    let (_, (row, _, _, _, _, rows)) =
      release_seat_takes n m env w.seats fresh q held_row_there c in
    rw calm (
      clear_hold row,
      ground
          (arith, rows, lookup-insert m.inventory_id m.inventory_id (clear_hold row) w.seats.rows),
      unfold clear_hold is_available in refl,
      unfold clear_hold in refl,
    )

-- The route once the seat service has answered.
abbrev replied :
    {A : Type 0}
    → HoldSeatRequest
    → HoldRouteEnv
    → World A
    → Option HoldSeatResponse × SeatState
    → Result ℕ × World A
replied req env w (none, s) = (err service_unavailable, record w { seats = s })
replied req env w (some r, s) = on_hold_reply req env r (record w { seats = s })

abbrev counted : {A : Type 0} → World A → World A
counted w = record w { calls = suc w.calls }

at_seats_is :
    {A B : Type 0} (f : SeatState → Option B × SeatState) (w : World A) (o : Option B × SeatState)
    → f w.seats ≡ o
    → at_seats f w
      ≡ (elim o.0 [ some b ↦ ok b | none ↦ err service_unavailable ], record w { seats = o.1 })
unfolding at_seats
at_seats_is f w o e = rw e refl

-- The route once the call has returned.
abbrev answered :
    {A : Type 0}
    → HoldSeatRequest
    → HoldRouteEnv
    → Result HoldSeatResponse × World A
    → Result ℕ × World A
answered req env (ok r, v) = on_hold_reply req env r v
answered req env (err c, v) = (err service_unavailable, v)

answered_lem :
    {A : Type 0} (req : HoldSeatRequest) (env : HoldRouteEnv)
    (p : Result HoldSeatResponse × World A) (w : World A)
    → (failing service_unavailable (λ _. p) >>= on_hold_reply req env) w ≡ answered req env p
answered_lem req env (ok r, v) w = refl
answered_lem req env (err c, v) w = refl

replied_lem :
    {A : Type 0} (req : HoldSeatRequest) (env : HoldRouteEnv) (w : World A)
    (o : Option HoldSeatResponse × SeatState)
    → answered req env
        (elim o.0 [ some b ↦ ok b | none ↦ err service_unavailable ], record w { seats = o.1 })
      ≡ replied req env w o
replied_lem req env w (none, s) = refl
replied_lem req env w (some r, s) = refl

calm_remote :
    {A B : Type 0} (m : Action A B) (w : World A)
    → w.fates ≡ []
    → remote (λ i v. v) m w ≡ m (counted w)
unfolding remote arrive next_fate spend_fate meet
calm_remote m w calm = simp calm

hold_route-replied :
    {A : Type 0} (req : HoldSeatRequest) (env : HoldRouteEnv) (w : World A)
    → w.fates ≡ []
    → hold_route (λ i v. v) req env w
      ≡ replied req env
          (counted w)
          (hold_seat req env.attempt_envs env.cache_attempts env.others env.max_attempts w.seats)
unfolding hold_route rpc_hold_seat
hold_route-replied req env w calm =
    let f = hold_seat req env.attempt_envs env.cache_attempts env.others env.max_attempts in
    answered_lem req env (remote (λ i v. v) (at_seats f) w) w
    ∙ ap (answered req env)
        (calm_remote (at_seats f) w calm ∙ at_seats_is f (counted w) (f w.seats) refl)
    ∙ replied_lem req env (counted w) (f w.seats)

-- The seat may be taken by the message of the token, which is in the queue, and every call is
-- delivered.
abbrev Expires : {A : Type 0} → HoldSeatRequest → ℕ → World A → Type 0
Expires req token v =
    (can_take (message_of req token) (lookup req.inventory_id v.seats.rows) ≡ true)
    × (v.fates ≡ [])
    × Newest (message_of req token) v

reply-Expires :
    {A : Type 0} (req : HoldSeatRequest) (env : HoldRouteEnv) (w : World A) (s₀ : SeatState)
    (o : Option HoldSeatResponse × SeatState) (token : ℕ)
    → w.fates ≡ []
    → some_taken 3 0 env.publishes ≡ true
    → GrantedBy req env.attempt_envs env.cache_attempts env.others env.max_attempts s₀ o
    → (replied req env w o).0 ≡ ok token
    → Expires req token (replied req env w o).1
unfolding on_hold_reply publish_hold_ttl
reply-Expires req env w s₀ (none, s) token calm up g e = absurd (ground arith)
reply-Expires req env w s₀ (some r, s) token calm up g e = elim (Bool-cases r.success) [
  | inr f ↦ absurd (ground arith)
  | inl success ↦
      let (same_seats, same_fates) =
        publish_attempts-Published 3 0 env.publishes (message_of req r.hold_token)
          (record w { seats = s }) in
      let token_is : r.hold_token ≡ token = ground arith in
      let newest : Newest (message_of req r.hold_token) (
          publish_attempts 3 0 env.publishes (message_of req r.hold_token)
            (record w { seats = s })) =
        publish_attempts-Newest 3 0 env.publishes (message_of req r.hold_token)
          (record w { seats = s }) up in
      rw (success, same_seats, same_fates, ← token_is)
        (
          granted_can_take req env.attempt_envs env.cache_attempts env.others env.max_attempts s₀ r
              s g success,
          calm,
          newest,
        )
]

-- A hold that nobody confirms ends: where one of the three attempts to publish gets through, a
-- granted hold leaves a message as the newest of the queue of holds, and what the consumer does
-- with this message makes the seat available, and its row names no holder. Every call is delivered
-- and no other request comes between, `HoldSeat` has at least one attempt, the database answers the
-- release, and Redis has no earlier answer for the seat and the token.
pub hold_expires :
    {A : Type 0} (req : HoldSeatRequest) (env : HoldRouteEnv) (w : World A) (token n : ℕ)
    (release_env : CallEnv)
    → w.fates ≡ []
    → 0 < env.max_attempts
    → some_taken 3 0 env.publishes ≡ true
    → (hold_route (λ i v. v) req env w).0 ≡ ok token
    → check_idempotency req.inventory_id token release_env.check_redis
        (hold_route (λ i v. v) req env w).1.seats
      ≡ none
    → release_env.query_fault ≡ false
    → release_env.commit_fault ≡ false
    → (m : SeatRequest) × (rest : List SeatRequest) × ((hold_route (λ i v. v) req env w).1.expiring
        ≡ m ∷ rest)
      × (row : SeatInventory) × (lookup req.inventory_id
            (on_expired (λ i v. v) n release_env m (hold_route (λ i v. v) req env w).1).1.seats.rows
          ≡ some row)
      × (is_available row.status ≡ true)
      × (row.held_by_user_id ≡ none)
hold_expires req env w token n release_env calm some_attempt up granted_now fresh q c =
    let (may_take, calm_after, (rest, newest)) = after_route in
    let (row, at, free_seat, holder) =
      on_expired_frees n release_env (message_of req token) _ calm_after may_take fresh q c in
    (message_of req token, rest, newest, row, at, free_seat, holder)
  where
    after_route : Expires req token (hold_route (λ i v. v) req env w).1
    after_route = rw (hold_route-replied req env w calm) (
        reply-Expires req env (counted w) w.seats _ token calm up
          (hold_seat_answers req env.attempt_envs env.cache_attempts env.others env.max_attempts
            w.seats some_attempt).1
          (rw (hold_route-replied req env w calm) at granted_now))
