-- ===== src/Transfer/Tests.antt =====
-- A timeout message about a transfer that waits for its buyer.
use ticketremaster_b.Base.{ℕ, ◌≡◌, refl, inl, false, none, [], ◌∷◌}
use ticketremaster_b.Base.Int.{pos}
use ticketremaster_b.Base.Table.{lookup, insert}
use ticketremaster_b.Seats.Model.{SeatState}
use ticketremaster_b.Services.Listings.{Listing, active, other}
use ticketremaster_b.Services.Transfers.{
  Transfer, pending_buyer_otp, expires_now, is_transfer_expired, has_ended,
}
use ticketremaster_b.World.Model.{World, TimeoutMessage, lost_reply}
use ticketremaster_b.Transfer.Timeout.{
  is_stuck, on_timeout_message, KeptOrExpired, timeout_cancels_nothing, timeout_reactivates,
}

abbrev transfer : Transfer
transfer = record {
  listing_id = 2;
  buyer_id = 6;
  seller_id = 5;
  status = pending_buyer_otp;
  credit_amount = pos 50;
  buyer_otp_verified = false;
  seller_otp_verified = false;
  buyer_verification_sid = none;
  seller_verification_sid = none;
  completed_at = none;
  expires_at = 5000;
}

abbrev listing : Listing
listing = record { ticket_id = 4; seller_id = 5; price = pos 50; status = other 1 }

abbrev seats : SeatState
seats = record { rows = []; holds = []; releases = []; dead_letters = [] }

abbrev world : World ℕ
world = record {
  clock = 1100;
  calls = 0;
  fates = [];
  seats = seats;
  tickets = [];
  listings = (2, listing) ∷ [];
  transfers = (8, transfer) ∷ [];
  ledger = [];
  events = [];
  account = 0;
  dead_letters = [];
  expiring = [];
  timeouts = [];
  users = [];
  logs = [];
}

abbrev message : TimeoutMessage
message = record { transfer_id = 8; listing_id = 2 }

timeout_cancels_nothing_example :
    KeptOrExpired world.transfers
      (on_timeout_message (λ n w. w) message (record world { fates = lost_reply ∷ [] })).1
timeout_cancels_nothing_example =
    timeout_cancels_nothing (λ n w. w) message world.transfers
      (record world { fates = lost_reply ∷ [] }) (λ n v h. h) (λ j t at. inl at)

timeout_reactivates_example :
    ((on_timeout_message (λ n v. v) message world).1.transfers ≡ world.transfers)
    × ((on_timeout_message (λ n v. v) message world).1.listings
        ≡ insert 2 (record listing { status = active }) world.listings)
unfolding lookup is_stuck expires_now is_transfer_expired has_ended
timeout_reactivates_example =
    timeout_reactivates message world transfer listing refl refl refl refl refl
