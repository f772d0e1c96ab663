-- ===== src/Market/Tests.antt =====
-- A payment that is confirmed and comes again.
use ticketremaster_b.Base.{◌≡◌, refl, true, none, some, [], ◌∷◌}
use ticketremaster_b.Base.Int.{ℤ, pos, ◌+ℤ◌}
use ticketremaster_b.Web.{ok}
use ticketremaster_b.Base.Table.{lookup}
use ticketremaster_b.Services.Tickets.{Ticket, TicketStatus, is_active, hash_taken}
use ticketremaster_b.Services.Listings.{ListingStatus}
use ticketremaster_b.Market.Resale.{list_ticket, delist, asked_price}
use ticketremaster_b.Market.ResaleLaws.{list_then_delist}
use ticketremaster_b.Seats.Model.{SeatState}
use ticketremaster_b.World.Model.{World, CreditService}
use ticketremaster_b.World.Calls.{arrive, credit_get, credit_patch, call_create_transaction}
use ticketremaster_b.Market.TopUp.{Payment, Stripe, fill, receive, confirm_payment, shown_balance}
use ticketremaster_b.Market.TopUpOnce.{fill_once}

abbrev one_account : CreditService ℤ
one_account = record {
  get = λ u a.
      some (record { credit_balance = some a; capital_credit_balance = none; balance = none });
  patch = λ u v a. (true, v);
}

abbrev payment : Payment
payment = record { user_id = 5; credits = pos 30; payment_intent_id = 77 }

abbrev stripe : Stripe
stripe = record { retrieve = λ k. some payment; construct_event = λ e. some (some payment) }

abbrev seats : SeatState
seats = record { rows = []; holds = []; releases = []; dead_letters = [] }

abbrev world : World ℤ
world = record {
  clock = 1100;
  calls = 0;
  fates = [];
  seats = seats;
  tickets = [];
  listings = [];
  transfers = [];
  ledger = [];
  events = [];
  account = pos 120;
  dead_letters = [];
  expiring = [];
  timeouts = [];
  users = [];
  logs = [];
}

abbrev filled : World ℤ
filled = (fill one_account stripe (λ n w. w) payment world).1

fill_once_example :
    (((receive one_account stripe (λ n w. w) (some payment) filled).1.account ≡ filled.account)
      × ((receive one_account stripe (λ n w. w) (some payment) filled).1.ledger ≡ filled.ledger))
    × (((confirm_payment one_account stripe (λ n w. w) 5 77 payment filled).1.account
          ≡ filled.account)
        × ((confirm_payment one_account stripe (λ n w. w) 5 77 payment filled).1.ledger
            ≡ filled.ledger))
unfolding fill credit_get credit_patch arrive shown_balance call_create_transaction ◌+ℤ◌
fill_once_example = fill_once one_account stripe payment payment 5 (pos 150) world refl refl refl

abbrev ticket : Ticket
ticket = record {
  inventory_id = 1;
  owner_id = 6;
  venue_id = 2;
  event_id = 3;
  price = pos 50;
  status = TicketStatus.active;
  qr_hash = some 88;
  qr_timestamp = some 1090;
}

abbrev shop : World ℤ
shop = record world { tickets = (4, ticket) ∷ [] }

list_then_delist_example :
    ((list_ticket (λ n w. w) 6 (some 4) none 9 shop).0 ≡ ok 9)
    × ((delist (λ n w. w) 6 9 (list_ticket (λ n w. w) 6 (some 4) none 9 shop).1).0 ≡ ok tt)
    × (lookup 4 (delist (λ n w. w) 6 9 (list_ticket (λ n w. w) 6 (some 4) none 9 shop).1).1.tickets
        ≡ some ticket)
    × (lookup 9 (delist (λ n w. w) 6 9 (list_ticket (λ n w. w) 6 (some 4) none 9 shop).1).1.listings
        ≡ some (record {
          ticket_id = 4;
          seller_id = 6;
          price = pos 50;
          status = ListingStatus.cancelled;
        }))
unfolding lookup is_active hash_taken asked_price
list_then_delist_example = list_then_delist 6 4 9 none ticket shop refl refl refl refl refl
