-- ===== src/Verify/Tests.antt =====
-- A ticket at the door, twice.
use ticketremaster_b.Base.{ℕ, ◌≡◌, refl, true, none, some, [], ◌∷◌}
use ticketremaster_b.Base.Int.{pos}
use ticketremaster_b.Base.Table.{lookup}
use ticketremaster_b.Base.Lists.{select}
use ticketremaster_b.Seats.Model.{SeatState, sold, is_sold}
use ticketremaster_b.Seats.Routes.{list_inventory_by_event, to_public}
use ticketremaster_b.Services.Tickets.{Ticket, active, is_active}
use ticketremaster_b.Services.Logs.{any_checked_in, get_ticket_logs}
use ticketremaster_b.World.Model.{World, lost_reply}
use ticketremaster_b.World.Calls.{
  remote, arrive, next_fate, spend_fate, meet, call_get_event, call_get_ticket_logs,
}
use ticketremaster_b.World.Hoare.{Ends}
use ticketremaster_b.Verify.Scan.{
  Gatekeeper, LockRedis, find_seat, seat_is_sold, conflicts, or_default, log, check, read_sold,
  let_in, admit, manual_verify, scan,
}
use ticketremaster_b.Verify.Once.{admitted, admit_once}
use ticketremaster_b.Verify.Refusal.{refusals_change_no_ticket}

abbrev ticket : Ticket
ticket = record {
  inventory_id = 1;
  owner_id = 6;
  venue_id = 2;
  event_id = 3;
  price = pos 50;
  status = active;
  qr_hash = some 88;
  qr_timestamp = some 1090;
}

abbrev seats : SeatState
seats = record {
  rows =
      (
        1,
        record {
          event_id = 3;
          seat_id = 7;
          status = sold;
          held_by_user_id = none;
          hold_token = none;
          held_until = none;
        },
      )
      ∷ [];
  holds = [];
  releases = [];
  dead_letters = [];
}

abbrev world : World ℕ
world = record {
  clock = 1100;
  calls = 0;
  fates = [];
  seats = seats;
  tickets = (4, ticket) ∷ [];
  listings = [];
  transfers = [];
  ledger = [];
  events =
      (
        3,
        record {
          venue_id = 2;
          name = 1;
          date = 9000;
          description = none;
          event_type = 1;
          image = none;
          price = pos 50;
          cancelled_at = none;
        },
      )
      ∷ [];
  account = 0;
  dead_letters = [];
  expiring = [];
  timeouts = [];
  users = [];
  logs = [];
}

abbrev keeper : Gatekeeper
keeper = record { staff_id = 9; venue_id = some 2; selected_event_id = none }

abbrev redis : LockRedis
redis = record { connects = true; sets = λ n. some true }

admit_once_example :
    Ends
      (λ _ v. ⊥)
      (λ v. admitted 4 v.logs ≡ true)
      (admit (λ n w. w) keeper 4 ticket (admit (λ n w. w) keeper 4 ticket world).1)
unfolding admit call_get_event remote arrive next_fate spend_fate meet lookup read_sold or_default
    find_seat list_inventory_by_event to_public seat_is_sold is_sold check is_active
    call_get_ticket_logs get_ticket_logs any_checked_in let_in conflicts log select
admit_once_example = admit_once keeper keeper 4 ticket ticket world refl refl

refusals_change_no_ticket_example :
    Ends
      (λ _ v. Unit {0})
      (λ v. v.tickets ≡ world.tickets)
      (scan (λ n w. w) keeper 60 300 3 redis (some 88) (record world { fates = lost_reply ∷ [] }))
    × Ends
        (λ _ v. Unit {0})
        (λ v. v.tickets ≡ world.tickets)
        (manual_verify (λ n w. w) keeper (some 88) (record world { fates = lost_reply ∷ [] }))
refusals_change_no_ticket_example =
    refusals_change_no_ticket (λ n w. w) (λ n w. refl) keeper 60 300 3 redis (some 88)
      (record world { fates = lost_reply ∷ [] })
