-- ===== src/Purchase/Tests.antt =====
-- A purchase, a failed compensation and a hold that ends, on small states.
use ticketremaster_b.Base.{ℕ, ◌≡◌, refl, true, false, none, some, List, [], ◌∷◌, arith}
use ticketremaster_b.Base.Int.{ℤ, pos}
use ticketremaster_b.Base.Table.{lookup}
use ticketremaster_b.Web.{err, credit_deduction_failed}
use ticketremaster_b.Seats.Model.{held, sold, is_sold, SeatInventory, SeatState}
use ticketremaster_b.Seats.Cache.{Redis}
use ticketremaster_b.Seats.Calls.{CallEnv, SeatRequest}
use ticketremaster_b.Services.Events.{Event}
use ticketremaster_b.World.Model.{World, CreditService, lost_reply}
use ticketremaster_b.Purchase.Confirm.{ConfirmRequest, ConfirmEnv, confirm_purchase, compensate}
use ticketremaster_b.Purchase.OneTicket.{OneTicket}
use ticketremaster_b.Purchase.OneTicketSaga.{Rely}
use ticketremaster_b.Purchase.NoDoubleSale.{confirm_purchase-OneTicket}
use ticketremaster_b.Purchase.Compensation.{compensate_undoes_nothing}
use ticketremaster_b.Seats.Model.{available, is_available, hold_has_expired}
use ticketremaster_b.Seats.Cache.{check_idempotency, find_release, write_hold_cache}
use ticketremaster_b.Seats.Hold.{
  HoldSeatRequest, HoldEnv, hold_seat, hold_attempts, after_attempt, hold_attempt, hold_found,
  hold_locked, commit_hold, updated_rows, hold_seconds,
}
use ticketremaster_b.World.Calls.{
  rpc_hold_seat, remote, arrive, next_fate, spend_fate, meet, at_seats,
}
use ticketremaster_b.Purchase.Holds.{
  HoldRouteEnv, sent, hold_route, on_hold_reply, on_expired, publish_hold_ttl, publish_attempts,
  enqueue,
}
use ticketremaster_b.Purchase.HoldExpiry.{hold_expires}
use ticketremaster_b.Purchase.HoldQueue.{is_taken, some_taken}

abbrev works : Redis
works = record { connects = true; fails = λ _. false; dead_letter_up = true }

abbrev call_env : CallEnv
call_env = record {
  now = 1100;
  query_fault = false;
  commit_fault = false;
  check_redis = works;
  delete_redis = works;
  result_redis = works;
}

-- A credit service with one account.
abbrev one_account : CreditService ℤ
one_account = record {
  get = λ u a.
      some (record { credit_balance = some a; capital_credit_balance = none; balance = none });
  patch = λ u v a. (true, v);
}

abbrev request : ConfirmRequest
request = record { user_id = 5; inventory_id = 1; event_id = 3; hold_token = 9 }

abbrev env : ConfirmEnv
env = record {
  redis_reads = false;
  cache_attempts = 3;
  status_env = call_env;
  sell_env = call_env;
  release_env = call_env;
  qr_hash = 88;
  dead_letter_up = true;
}

abbrev held_row : SeatInventory
held_row = record {
  event_id = 3;
  seat_id = 7;
  status = held;
  held_by_user_id = some 5;
  hold_token = some 9;
  held_until = some 1300;
}

abbrev show : Event
show = record {
  venue_id = 2;
  name = 1;
  date = 9000;
  description = none;
  event_type = 1;
  image = none;
  price = pos 50;
  cancelled_at = none;
}

abbrev seats : SeatState
seats = record { rows = (1, held_row) ∷ []; holds = []; releases = []; dead_letters = [] }

abbrev world : World ℤ
world = record {
  clock = 1100;
  calls = 0;
  fates = [];
  seats = seats;
  tickets = [];
  listings = [];
  transfers = [];
  ledger = [];
  events = (3, show) ∷ [];
  account = pos 120;
  dead_letters = [];
  expiring = [];
  timeouts = [];
  users = [];
  logs = [];
}

abbrev sold_row : SeatInventory
sold_row = record held_row {
  status = sold;
  held_by_user_id = none;
  hold_token = none;
  held_until = none;
}

-- The same with the seat sold, and with the answer of the first call lost.
abbrev sold_world : World ℤ
sold_world = record world {
  seats = record seats { rows = (1, sold_row) ∷ [] };
  fates = lost_reply ∷ [];
}

nobody : Rely {A = ℤ} (λ n w. w)
nobody = record { keeps = λ r n w h. h }

no_tickets : (w : World ℤ) → w.tickets ≡ [] → OneTicket none w
unfolding lookup
no_tickets w e = record {
  unique = λ i j t u a b p. absurd (ground arith);
  sold = λ i t a. absurd (ground arith);
  kept_sold = λ k p. absurd (ground arith);
  no_ticket = λ k p. absurd (ground arith);
}

-- Before every call of one purchase a whole other purchase of the same seat.
abbrev rival : ℕ → World ℤ → World ℤ
rival n w =
    (confirm_purchase one_account (λ m v. v) (λ _. 78) (record request { user_id = 6 }) env w).1

rival-Rely : Rely rival
rival-Rely = record {
  keeps = λ r n w h.
      confirm_purchase-OneTicket one_account (λ m v. v) nobody (λ _. 78)
        (record request { user_id = 6 }) env r w h;
}

confirm_purchase-OneTicket_example :
    OneTicket none (confirm_purchase one_account rival (λ _. 77) request env world).1
confirm_purchase-OneTicket_example =
    confirm_purchase-OneTicket one_account rival rival-Rely (λ _. 77) request env none world
      (no_tickets world refl)

compensate_undoes_nothing_example :
    ((compensate (λ n w. w) request env 77 sold_world).0 ≡ err credit_deduction_failed)
    × ((compensate (λ n w. w) request env 77 sold_world).1.tickets ≡ [])
    × ((compensate (λ n w. w) request env 77 sold_world).1.seats.rows ≡ (1, sold_row) ∷ [])
unfolding lookup is_sold
compensate_undoes_nothing_example =
    compensate_undoes_nothing (λ n w. w) request env 77 sold_world sold_row (λ n w. (refl, refl))
      refl refl

abbrev hold_req : HoldSeatRequest
hold_req = record { inventory_id = 1; user_id = 5; hold_duration_seconds = pos 300 }

abbrev hold_env : HoldEnv
hold_env = record {
  now = 1000;
  token = 9;
  query_fault = none;
  flush_fault = none;
  update_fault = none;
  commit_fault = none;
  delete_redis = works;
  write_redis = works;
}

abbrev route_env : HoldRouteEnv
route_env = record {
  attempt_envs = λ _. hold_env;
  cache_attempts = 3;
  others = λ _ s. s;
  max_attempts = 3;
  publishes = λ _. sent;
}

abbrev free_world : World ℤ
free_world = record world {
  seats = record seats {
    rows =
        (
          1,
          record held_row {
            status = available;
            held_by_user_id = none;
            hold_token = none;
            held_until = none;
          },
        )
        ∷ [];
  };
}

hold_expires_example :
    (m : SeatRequest) × (rest : List SeatRequest) × ((hold_route
        (λ i v. v)
        hold_req
        route_env
        free_world).1.expiring
      ≡ m ∷ rest)
    × (row : SeatInventory) × (lookup 1
          (on_expired
            (λ i v. v)
            3
            call_env
            m
            (hold_route (λ i v. v) hold_req route_env free_world).1).1.seats.rows
        ≡ some row)
    × (is_available row.status ≡ true)
    × (row.held_by_user_id ≡ none)
unfolding hold_route rpc_hold_seat remote arrive next_fate spend_fate meet at_seats on_hold_reply
    hold_seat hold_attempts after_attempt hold_attempt hold_found hold_locked commit_hold lookup
    hold_has_expired is_available updated_rows hold_seconds check_idempotency find_release
    write_hold_cache publish_hold_ttl publish_attempts enqueue some_taken is_taken
hold_expires_example =
    hold_expires hold_req route_env free_world 9 3 call_env refl (omega arith) refl refl refl refl
      refl
