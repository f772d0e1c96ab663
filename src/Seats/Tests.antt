-- ===== src/Seats/Tests.antt =====
-- Runs of the seat service on small states, and the theorems about it at these.
use ticketremaster_b.Base.{
  ℕ, zero, suc, ◌≡◌, ◌≢◌, refl, ◌⊎◌, true, false, none, some, [], ◌∷◌, ◌==◌, arith, if◌then◌else◌,
}
use ticketremaster_b.Base.Int.{pos}
use ticketremaster_b.Base.Table.{lookup}
use ticketremaster_b.Seats.Model.{
  available, held, sold, is_sold, is_held, is_available, SeatInventory, SeatState, hold_has_expired,
  clear_hold,
}
use ticketremaster_b.Seats.Cache.{
  Redis, check_idempotency, delete_hold_cache, write_hold_cache, find_release,
}
use ticketremaster_b.Seats.Hold.{
  HoldSeatRequest, HoldEnv, operational, hold_attempt, hold_found, hold_locked, commit_hold,
  updated_rows, hold_seconds,
}
use ticketremaster_b.Seats.Calls.{
  SeatRequest, CallEnv, can_take, holds_seat, sell_row, sell_seat, release_seat, release_uncached,
  get_seat_status,
}
use ticketremaster_b.Seats.Steps.{
  hold, sell, here, next, Follows, clock_of, Step-Follows, sold_forever,
}
use ticketremaster_b.Seats.Consistent.{AllConsistent, Reach-AllConsistent}
use ticketremaster_b.Seats.Laws.{Granted, Refused, hold_attempt_outcome}
use ticketremaster_b.Seats.CallLaws.{
  sell_seat_effect, release_seat_effect, get_seat_status-effective, effective, describe, Took,
}
use ticketremaster_b.Seats.ReplayLaws.{release_seat_replay, release_refused_for_holder}
use ticketremaster_b.Seats.CacheLaws.{delete_hold_cache_lem}
use ticketremaster_b.Seats.RoundTrip.{
  hold_then_sell, hold_then_release, hold_excludes, holder_request,
}
use ticketremaster_b.Seats.Race.{stale_status_unsells}
use ticketremaster_b.Seats.Calls.{status_of, holds_seat}

abbrev works : Redis
works = record { connects = true; fails = λ _. false; dead_letter_up = true }

abbrev fails_always : Redis
fails_always = record { connects = true; fails = λ _. true; dead_letter_up = true }

abbrev free_seat : SeatInventory
free_seat = record {
  event_id = 3;
  seat_id = 7;
  status = available;
  held_by_user_id = none;
  hold_token = none;
  held_until = none;
}

abbrev state_of : SeatInventory → SeatState
state_of row = record { rows = (1, row) ∷ []; holds = []; releases = []; dead_letters = [] }

abbrev start : SeatState
start = state_of free_seat

abbrev held_row_of_user : SeatInventory
held_row_of_user = record free_seat {
  status = held;
  held_by_user_id = some 5;
  hold_token = some 9;
  held_until = some 1300;
}

abbrev held_state : SeatState
held_state = state_of held_row_of_user

abbrev sold_state : SeatState
sold_state = state_of (record free_seat { status = sold })

abbrev hold_req : HoldSeatRequest
hold_req = record { inventory_id = 1; user_id = 5; hold_duration_seconds = pos 300 }

abbrev hold_env : HoldEnv
hold_env = record {
  now = 1000;
  token = 9;
  query_fault = none;
  flush_fault = none;
  update_fault = none;
  commit_fault = none;
  delete_redis = works;
  write_redis = works;
}

-- The first attempt meets a deadlock.
abbrev hold_envs : ℕ → HoldEnv
hold_envs zero = record hold_env { update_fault = some (operational true false) }
hold_envs (suc n) = hold_env

abbrev holder : SeatRequest
holder = record { inventory_id = 1; user_id = 5; hold_token = 9 }

abbrev stranger : SeatRequest
stranger = record { inventory_id = 1; user_id = 6; hold_token = 9 }

abbrev call_env : CallEnv
call_env = record {
  now = 1100;
  query_fault = false;
  commit_fault = false;
  check_redis = works;
  delete_redis = works;
  result_redis = works;
}

hold_attempt_outcome_example :
    Granted hold_req hold_env start.rows (hold_attempt hold_req hold_env 3 start)
    ⊎ Refused start.rows (hold_attempt hold_req hold_env 3 start)
hold_attempt_outcome_example = hold_attempt_outcome hold_req hold_env 3 start

hold_excludes_example : Refused (hold_attempt hold_req hold_env 3 start).1.rows (
    hold_attempt
      (record hold_req { user_id = 6 })
      (record hold_env { now = 1200 })
      3
      (hold_attempt hold_req hold_env 3 start).1)
unfolding hold_attempt hold_found hold_locked commit_hold lookup hold_has_expired is_available
    updated_rows hold_seconds
hold_excludes_example =
    hold_excludes hold_req hold_env 3 start refl (record hold_req { user_id = 6 })
      (record hold_env { now = 1200 }) 3 refl (omega arith)

hold_then_sell_example :
    ((sell_seat 3
        (holder_request hold_req hold_env)
        call_env
        (hold_attempt hold_req hold_env 3 start).1).0
      ≡ some true)
    × ((row : SeatInventory) × (lookup 1
            (sell_seat 3
              (holder_request hold_req hold_env)
              call_env
              (hold_attempt hold_req hold_env 3 start).1).1.rows
          ≡ some row)
        × (is_sold row.status ≡ true))
unfolding hold_attempt hold_found hold_locked commit_hold lookup hold_has_expired is_available
    updated_rows hold_seconds
hold_then_sell_example = hold_then_sell hold_req hold_env 3 start refl 3 call_env refl refl

hold_then_release_example :
    ((release_seat 3
        (holder_request hold_req hold_env)
        call_env
        (hold_attempt hold_req hold_env 3 start).1).0
      ≡ some true)
    × ((row : SeatInventory) × (lookup 1
            (release_seat 3
              (holder_request hold_req hold_env)
              call_env
              (hold_attempt hold_req hold_env 3 start).1).1.rows
          ≡ some row)
        × (is_available row.status ≡ true)
        × (row.held_by_user_id ≡ none))
unfolding hold_attempt hold_found hold_locked commit_hold lookup hold_has_expired is_available
    updated_rows hold_seconds check_idempotency find_release write_hold_cache
hold_then_release_example =
    hold_then_release hold_req hold_env 3 start refl 3 call_env refl refl refl

sell_seat_effect_example :
    (((sell_seat 3 holder call_env held_state).0 ≢ some true)
      × ((sell_seat 3 holder call_env held_state).1 ≡ held_state))
    ⊎ (((sell_seat 3 holder call_env held_state).0 ≡ some true)
        × Took holder sell_row held_state.rows (sell_seat 3 holder call_env held_state).1.rows)
sell_seat_effect_example = sell_seat_effect 3 holder call_env held_state

release_seat_effect_example :
    (((release_seat 3 holder call_env held_state).1.rows ≡ held_state.rows)
      × (((release_seat 3 holder call_env held_state).0 ≢ some true)
          ⊎ ((check_idempotency holder.inventory_id holder.hold_token works held_state ≡ some true)
              × ((release_seat 3 holder call_env held_state).1 ≡ held_state))))
    ⊎ (((release_seat 3 holder call_env held_state).0 ≡ some true)
        × Took holder clear_hold held_state.rows (release_seat 3 holder call_env held_state).1.rows)
release_seat_effect_example = release_seat_effect 3 holder call_env held_state

release_seat_replay_example :
    release_seat 3 holder call_env (release_seat 3 holder call_env held_state).1
    ≡ (some true, (release_seat 3 holder call_env held_state).1)
unfolding release_seat release_uncached check_idempotency find_release can_take holds_seat lookup
    is_held
release_seat_replay_example =
    release_seat_replay 3 3 holder call_env call_env held_state true (refl, refl) (refl, refl) refl

release_refused_for_holder_example :
    (release_seat 3 holder call_env (release_seat 3 stranger call_env held_state).1).0 ≡ some false
unfolding release_seat release_uncached check_idempotency find_release can_take holds_seat lookup
    is_held
release_refused_for_holder_example =
    release_refused_for_holder 3 3 stranger holder call_env call_env held_state refl refl
      (refl, refl) (refl, refl) refl

get_seat_status-effective_example :
    ((get_seat_status 3 1 call_env held_state).0
      ≡ some (describe 1 (effective 1100 (lookup 1 held_state.rows))))
    × ((j : ℕ)
        → lookup j (get_seat_status 3 1 call_env held_state).1.rows ≡ (
            if 1 == j then effective 1100 (lookup 1 held_state.rows) else lookup j held_state.rows))
get_seat_status-effective_example = get_seat_status-effective 3 1 call_env held_state refl refl

delete_hold_cache_lem_example :
    delete_hold_cache 3 1 fails_always held_state ≡ record held_state { dead_letters = 1 ∷ [] }
delete_hold_cache_lem_example = delete_hold_cache_lem 3 1 fails_always held_state

sold_forever_example :
    lookup 1 (sell_seat 3 holder call_env sold_state).1.rows
    ≡ some (record free_seat { status = sold })
unfolding lookup is_sold
sold_forever_example =
    sold_forever 1 (record free_seat { status = sold }) (next here (sell 3 holder call_env)) refl
      refl

Step-Follows_example : Follows 1000 start.rows (hold_attempt hold_req hold_env 3 start).1.rows
unfolding clock_of
Step-Follows_example = Step-Follows (hold hold_req hold_env 3)

start-AllConsistent : AllConsistent start.rows
unfolding lookup
start-AllConsistent k row at = record {
  holder = λ _. ground arith;
  token = λ _. ground arith;
  until = λ _. ground arith;
}

Reach-AllConsistent_example : AllConsistent (hold_attempt hold_req hold_env 3 start).1.rows
Reach-AllConsistent_example =
    Reach-AllConsistent (next here (hold hold_req hold_env 3)) start-AllConsistent

stale_status_unsells_example :
    ((bought : SeatInventory) × (lookup 1 (sell_seat 3 holder call_env held_state).1.rows
        ≡ some bought)
      × (is_sold bought.status ≡ true))
    × ((after : SeatInventory) × (lookup 1
            (status_of 3 1
              (record call_env { now = 1300 })
              (some held_row_of_user)
              (sell_seat 3 holder call_env held_state).1).1.rows
          ≡ some after)
        × (is_available after.status ≡ true))
unfolding lookup hold_has_expired sell_seat can_take holds_seat is_held
stale_status_unsells_example =
    stale_status_unsells 3 3 holder call_env (record call_env { now = 1300 }) held_state
      held_row_of_user refl refl refl refl
