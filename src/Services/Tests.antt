-- ===== src/Services/Tests.antt =====
-- The theorems about the services at small tables.
use ticketremaster_b.Base.{◌≡◌, refl, false, none, some, [], ◌∷◌, arith}
use ticketremaster_b.Base.Int.{pos}
use ticketremaster_b.Base.Table.{Table, lookup, insert}
use ticketremaster_b.Web.{err, invalid_state}
use ticketremaster_b.Services.Tickets.{
  Ticket, NewTicket, TicketPatch, no_patch, active, listed, payment_failed, to_ticket,
  create_ticket, update_ticket, is_allowed,
}
use ticketremaster_b.Services.TicketLaws.{AllAllowed, routes-AllAllowed}
use ticketremaster_b.Services.Transfers.{
  Transfer, pending_buyer_otp, cancelled, has_ended, cancel_transfer, cancel_found,
}
use ticketremaster_b.Services.TransferLaws.{cancel_transfer_once}
use ticketremaster_b.Services.Listings.{Listing, ListingStatus, ListingPatch}

abbrev body : NewTicket
body = record {
  inventory_id = 1;
  owner_id = 5;
  venue_id = 2;
  event_id = 3;
  price = pos 50;
  status = some active;
}

abbrev tickets : Table Ticket
tickets = (4, to_ticket 8 1000 body) ∷ []

abbrev mark_failed : TicketPatch
mark_failed = record no_patch { status = some payment_failed }

abbrev list_it : TicketPatch
list_it = record no_patch { status = some listed }

tickets-AllAllowed : AllAllowed tickets
unfolding lookup is_allowed
tickets-AllAllowed k t at = ground arith

routes-AllAllowed_example :
    AllAllowed (create_ticket 6 9 1000 (some body) tickets).1
    × AllAllowed (update_ticket 6 mark_failed tickets).1
routes-AllAllowed_example = routes-AllAllowed 6 9 1000 body mark_failed tickets tickets-AllAllowed

abbrev transfer : Transfer
transfer = record {
  listing_id = 2;
  buyer_id = 6;
  seller_id = 5;
  status = pending_buyer_otp;
  credit_amount = pos 50;
  buyer_otp_verified = false;
  seller_otp_verified = false;
  buyer_verification_sid = none;
  seller_verification_sid = none;
  completed_at = none;
  expires_at = 5000;
}

abbrev transfers : Table Transfer
transfers = (8, transfer) ∷ []

cancel_transfer_once_example :
    ((u : Transfer) × (lookup 8 transfers ≡ some u)
      × (has_ended u.status ≡ false)
      × ((cancel_transfer 8 transfers).1 ≡ insert 8 (record u { status = cancelled }) transfers))
    × (cancel_transfer 8 (cancel_transfer 8 transfers).1
        ≡ (err invalid_state, (cancel_transfer 8 transfers).1))
unfolding cancel_transfer cancel_found has_ended lookup
cancel_transfer_once_example =
    cancel_transfer_once 8 transfers (record transfer { status = cancelled }) refl

abbrev listings : Table Listing
listings =
    (2, record { ticket_id = 4; seller_id = 5; price = pos 50; status = ListingStatus.active }) ∷ []

abbrev complete_it : ListingPatch
complete_it = record { status = some ListingStatus.completed; unsupported = false }
