-- ===== src/Transfer/SagaTests.antt =====
-- A transfer from the first request to the saga, on a small state.
use ticketremaster_b.Base.{
  ℕ, ◌≡◌, refl, inl, true, false, none, some, [], ◌∷◌, List, arith, ◌==◌, if◌then◌else◌,
}
use ticketremaster_b.Base.Int.{ℤ, pos, ◌-ℤ◌, ◌+ℤ◌}
use ticketremaster_b.Base.Table.{lookup}
use ticketremaster_b.Seats.Model.{SeatState}
use ticketremaster_b.Services.Listings.{Listing, active}
use ticketremaster_b.Services.Tickets.{Ticket}
use ticketremaster_b.Services.Tickets
use ticketremaster_b.Services.Users.{User, user}
use ticketremaster_b.World.Model.{World, get_credit_balance, CreditService, Keeps, lost_reply}
use ticketremaster_b.World.Hoare.{Ends}
use ticketremaster_b.Transfer.Sequence.{serve}
use ticketremaster_b.Transfer.Routes.{
  seller_verify, given, read_transfer, buyer_verify, initiate, initiate_on, request_of,
  send_to_user, otp_send, otp_check, check_user, publish_transfer_timeout, is_pending_buyer_otp,
  is_pending_seller_otp, awaited_buyer_sid, awaited_seller_sid, pass_to_seller, settle, if_found,
  require_credits, saga_request,
}
use ticketremaster_b.Transfer.Saga.{
  credit_seller, log_buyer, log_seller, transfer_ticket, complete_listing, complete_transfer,
  patch_ticket,
}
use ticketremaster_b.World.Calls.{
  call_get_transfer, call_get_user, call_get_listing, call_create_transfer, call_patch_transfer,
  call_update_listing, call_update_ticket, call_create_transaction, credit_get, credit_patch,
  remote, meet, next_fate, arrive, spend_fate, at_tickets, at_listings, at_transfers, at_ledger,
}
use ticketremaster_b.Services.Listings
use ticketremaster_b.Services.Listings.{get_listing, is_active, update_listing}
use ticketremaster_b.Services.Transfers.{
  create_transfer, get_transfer, get_found, patch_transfer, patch_found, patched, is_empty,
  expires_now, is_transfer_expired, has_ended,
}
use ticketremaster_b.Services.Users.{get_user, user_or_missing}
use ticketremaster_b.Services.Ledger.{create_credit_transaction}
use ticketremaster_b.Base.Table.{insert}
use ticketremaster_b.Transfer.Saga.{SagaRequest, Completed, both_logged, compensate, execute_saga}
use ticketremaster_b.Transfer.Credits.{Balances, execute_saga-Balances}
use ticketremaster_b.Transfer.Gate.{Gate}
use ticketremaster_b.Transfer.Routes.{OtpService}
use ticketremaster_b.Transfer.Sequence.{
  TransferRequest, initiating, buyer_verifying, seller_verifying, serve_all,
}
use ticketremaster_b.Transfer.TicketLost.{compensate_gives_back_credits_alone}

-- One balance for each user.
abbrev Accounts : Type 0
Accounts = ℕ → ℤ

abbrev accounts : CreditService Accounts
accounts = record {
  get = λ u a.
      some (record { credit_balance = some (a u); capital_credit_balance = none; balance = none });
  patch = λ u v a. (true, λ x. if x == u then v else a x);
}

abbrev balance : ℕ → Accounts → ℤ
balance u a = a u

accounts-Keeps : Keeps accounts balance
accounts-Keeps = record {
  reads = λ u r a e. unfold get_credit_balance in ground arith;
  writes = λ u v a e. ground arith;
  fails = λ u v a e. inl (ground arith);
  others = λ u x v a n. ground arith;
}

abbrev otp : OtpService
otp = record { send = λ n phone. some phone; verify = λ n sid code phone. some (code == sid) }

abbrev someone : ℕ → User
someone phone = record {
  email = phone;
  password = 1;
  salt = 1;
  phone_number = phone;
  role = user;
  is_flagged = false;
  venue_id = none;
  favorite_events = [];
}

abbrev ticket : Ticket
ticket = record {
  inventory_id = 1;
  owner_id = 5;
  venue_id = 2;
  event_id = 3;
  price = pos 50;
  status = Tickets.listed;
  qr_hash = none;
  qr_timestamp = none;
}

abbrev seats : SeatState
seats = record { rows = []; holds = []; releases = []; dead_letters = [] }

abbrev world : World Accounts
world = record {
  clock = 1100;
  calls = 0;
  fates = [];
  seats = seats;
  tickets = (4, ticket) ∷ [];
  listings = (2, record { ticket_id = 4; seller_id = 5; price = pos 50; status = active }) ∷ [];
  transfers = [];
  ledger = [];
  events = [];
  account = λ u. pos 120;
  dead_letters = [];
  expiring = [];
  timeouts = [];
  users = (5, someone 55) ∷ (6, someone 66) ∷ [];
  logs = [];
}

abbrev request : SagaRequest
request = record {
  transfer_id = 8;
  buyer_id = 6;
  seller_id = 5;
  credit_amount = pos 50;
  ticket_id = some 4;
  listing_id = 2;
  buyer_balance = pos 120;
  seller_balance = pos 120;
}

execute_saga-Balances_example :
    Ends
      (λ _ v. Balances balance 6 5 (pos 120 -ℤ pos 50) (pos 120 +ℤ pos 50) v)
      (λ v. Balances balance 6 5 (pos 120) (pos 120) v)
      (execute_saga accounts (λ n w. w) request true (record world { fates = lost_reply ∷ [] }))
execute_saga-Balances_example =
    execute_saga-Balances accounts balance accounts-Keeps (λ u v a. refl) (λ n w. w) (λ n w. refl)
      request true (omega arith) (record world { fates = lost_reply ∷ [] }) (refl, refl)

-- The ticket has gone to the buyer, and the next step fails.
abbrev half_done : Completed
half_done = record both_logged { ticket_transferred = true }

abbrev half_world : World Accounts
half_world = record world {
  tickets = (4, record ticket { owner_id = 6 }) ∷ [];
  account = λ u. if u == 6 then pos 70 else pos 170;
}

compensate_gives_back_credits_alone_example :
    Ends
      (λ _ v. ⊥)
      (λ v. (v.tickets ≡ half_world.tickets) × Balances balance 6 5 (pos 120) (pos 120) v)
      (compensate accounts (λ n w. w) request true half_done half_world)
compensate_gives_back_credits_alone_example =
    compensate_gives_back_credits_alone accounts balance accounts-Keeps (λ u v a. refl) (λ n w. w)
      (λ n w. refl) (λ n w. refl) request true half_done half_world (omega arith) refl refl

abbrev requests : List TransferRequest
requests =
    initiating 6 8 true (some 2)
    ∷ buyer_verifying 6 8 (some 66)
    ∷ seller_verifying true 5 8 (some 55)
    ∷ []

-- The buyer has given a right code for the one transfer.
abbrev Right : ℕ → Type 0
Right k = k ≡ 8

-- The requests move the ticket and the credits.
flow_completes :
    lookup 4 (serve_all accounts otp (λ n w. w) requests world).tickets
    ≡ some (record ticket { owner_id = 6; status = Tickets.active })
unfolding serve_all serve seller_verify given read_transfer buyer_verify initiate initiate_on
    request_of send_to_user otp_send otp_check check_user publish_transfer_timeout
    is_pending_buyer_otp is_pending_seller_otp awaited_buyer_sid awaited_seller_sid pass_to_seller
    settle if_found require_credits saga_request credit_seller log_buyer log_seller transfer_ticket
    complete_listing complete_transfer patch_ticket call_get_transfer call_get_user call_get_listing
    call_create_transfer call_patch_transfer call_update_listing call_update_ticket
    call_create_transaction credit_get credit_patch remote meet next_fate arrive spend_fate
    at_tickets at_listings at_transfers at_ledger get_listing is_active update_listing
    create_transfer get_transfer get_found patch_transfer patch_found patched is_empty expires_now
    is_transfer_expired has_ended get_user user_or_missing create_credit_transaction insert
    Listings.is_allowed Listings.update_found Tickets.update_ticket Tickets.update_found
    Tickets.is_allowed Tickets.is_empty Tickets.patched Tickets.hash_taken execute_saga lookup
    get_credit_balance ◌-ℤ◌ ◌+ℤ◌
flow_completes = refl
