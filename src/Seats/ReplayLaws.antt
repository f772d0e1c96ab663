-- ===== src/Seats/ReplayLaws.antt =====
-- The answers of `ReleaseSeat` that Redis remembers.
use ticketremaster_b.Base.{
  ℕ, ◌≡◌, ap, inl, inr, true, false, Bool, Option, none, some, arith, Option-cases,
}
use ticketremaster_b.Base.Table.{lookup}
use ticketremaster_b.Seats.Model.{SeatState, clear_hold}
use ticketremaster_b.Seats.Cache.{
  Redis, delete_hold_cache, check_idempotency, cache_idempotency_result, find_release,
}
use ticketremaster_b.Seats.Calls.{
  SeatRequest, CallEnv, written, remember, release_uncached, release_seat,
}

abbrev pub Works : Redis → Type 0
Works redis = (redis.connects ≡ true) × (redis.fails 0 ≡ false)

find_release-remember :
    (req : SeatRequest) (env : CallEnv) (b : Bool) (s : SeatState)
    → Works env.result_redis
    → find_release req.inventory_id req.hold_token (remember req env b s).releases ≡ some b
unfolding remember cache_idempotency_result find_release
find_release-remember req env b s w = ground arith

-- While Redis works, an answer of `ReleaseSeat` is remembered: the next one finds it.
release_seat-remembered :
    (n : ℕ) (req : SeatRequest) (env : CallEnv) (s : SeatState) (b : Bool)
    → Works env.result_redis
    → (release_seat n req env s).0 ≡ some b
    → find_release req.inventory_id req.hold_token (release_seat n req env s).1.releases ≡ some b
release_seat-remembered n req env s b w h =
    elim (Option-cases (check_idempotency req.inventory_id req.hold_token env.check_redis s)) [
      | inl m ↦ fresh m
      | inr (c, m) ↦ hit c m
    ]
  where
    hit :
        (c : Bool)
        → check_idempotency req.inventory_id req.hold_token env.check_redis s ≡ some c
        → find_release req.inventory_id req.hold_token (release_seat n req env s).1.releases
          ≡ some b
    hit c m = unfold release_seat check_idempotency in ground arith

    fresh :
        check_idempotency req.inventory_id req.hold_token env.check_redis s ≡ none
        → find_release req.inventory_id req.hold_token (release_seat n req env s).1.releases
          ≡ some b
    fresh m =
        unfold release_seat release_uncached in
        ground (
          arith,
          find_release-remember req env true
              (delete_hold_cache n req.inventory_id env.delete_redis
                (written req.inventory_id clear_hold (lookup req.inventory_id s.rows) s))
              w,
          find_release-remember req env false s w,
        )

release_seat_hit :
    (n : ℕ) (req : SeatRequest) (env : CallEnv) (s : SeatState) (b : Bool)
    → Works env.check_redis
    → find_release req.inventory_id req.hold_token s.releases ≡ some b
    → release_seat n req env s ≡ (some b, s)
unfolding release_seat check_idempotency
release_seat_hit n req env s b w h = ground arith

-- While Redis works and keeps the answer, a repeated `ReleaseSeat` gets the same answer and changes
-- nothing.
pub release_seat_replay :
    (n n' : ℕ) (req : SeatRequest) (env env' : CallEnv) (s : SeatState) (b : Bool)
    → Works env.result_redis
    → Works env'.check_redis
    → (release_seat n req env s).0 ≡ some b
    → release_seat n' req env' (release_seat n req env s).1 ≡ (some b, (release_seat n req env s).1)
release_seat_replay n n' req env env' s b w w' h =
    release_seat_hit n' req env' _ b w' (release_seat-remembered n req env s b w h)

-- The answers are remembered by seat and token, without the user: while Redis works, once another
-- user has been refused, the holder of the same seat and token is refused too.
pub release_refused_for_holder :
    (n n' : ℕ) (req holder : SeatRequest) (env env' : CallEnv) (s : SeatState)
    → req.inventory_id ≡ holder.inventory_id
    → req.hold_token ≡ holder.hold_token
    → Works env.result_redis
    → Works env'.check_redis
    → (release_seat n req env s).0 ≡ some false
    → (release_seat n' holder env' (release_seat n req env s).1).0 ≡ some false
release_refused_for_holder n n' req holder env env' s ei et w w' h =
    ap (λ (r : Option Bool × SeatState). r.0)
      (release_seat_hit n' holder env' _ false w'
        (rw (← ei, ← et) (release_seat-remembered n req env s false w h)))
