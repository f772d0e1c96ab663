-- ===== src/Transfer/ViewTests.antt =====
-- The rows that the routes show, on a small state.
use ticketremaster_b.Base.{ℕ, zero, suc, ◌≡◌, refl, true, false, none, some, [], ◌∷◌, ◌||◌, ◌==◌}
use ticketremaster_b.Base.Int.{pos}
use ticketremaster_b.Base.Lists.{select}
use ticketremaster_b.Base.Table.{insert}
use ticketremaster_b.Web.{ok}
use ticketremaster_b.Seats.Model.{SeatState}
use ticketremaster_b.Services.ListRoutes.{list_transfers}
use ticketremaster_b.Services.Transfers.{
  Transfer, pending_seller_otp, pending_seller_acceptance, pending_buyer_otp,
}
use ticketremaster_b.World.Model.{World}
use ticketremaster_b.World.Calls.{remote, meet, next_fate, arrive, spend_fate}
use ticketremaster_b.World.Hoare.{Ends}
use ticketremaster_b.Transfer.Routes.{
  is_pending_buyer_otp, is_pending_seller_otp, is_pending_seller_acceptance,
}
use ticketremaster_b.Transfer.Views.{
  unique_from, call_list_transfers, get_pending_transfers, get_my_pending_transfers,
  get_transfer_history, get_transfer,
}
use ticketremaster_b.Transfer.ViewRows.{AllPass, IsUnique}
use ticketremaster_b.Transfer.ViewLaws.{waits_for_seller, waits_for_buyer, sold_by, views_show_own}

abbrev sale : Transfer
sale = record {
  listing_id = 2;
  buyer_id = 6;
  seller_id = 5;
  status = pending_seller_otp;
  credit_amount = pos 50;
  buyer_otp_verified = true;
  seller_otp_verified = false;
  buyer_verification_sid = some 66;
  seller_verification_sid = some 55;
  completed_at = none;
  expires_at = 9000;
}

abbrev early_sale : Transfer
early_sale = record sale { status = pending_seller_acceptance }

abbrev bought : Transfer
bought = record sale { buyer_id = 5; seller_id = 6; status = pending_buyer_otp }

abbrev seats : SeatState
seats = record { rows = []; holds = []; releases = []; dead_letters = [] }

abbrev world : World ℕ
world = record {
  clock = 1100;
  calls = 0;
  fates = [];
  seats = seats;
  tickets = [];
  listings = [];
  transfers = (8, sale) ∷ (9, early_sale) ∷ (10, bought) ∷ [];
  ledger = [];
  events = [];
  account = 0;
  dead_letters = [];
  expiring = [];
  timeouts = [];
  users = [];
  logs = [];
}

-- A transfer that moves on between the two calls.
abbrev meanwhile : ℕ → World ℕ → World ℕ
meanwhile zero w = w
meanwhile (suc n) w = record w { transfers = (8, early_sale) ∷ (9, early_sale) ∷ [] }

views_show_own_example :
    Ends
      (λ rows v. AllPass (waits_for_seller 5) rows × IsUnique rows)
      (λ v. Unit)
      (get_pending_transfers meanwhile 5 world)
    × Ends
        (λ rows v. AllPass (waits_for_buyer 5) rows)
        (λ v. Unit)
        (get_my_pending_transfers meanwhile 5 world)
    × Ends (λ rows v. AllPass (sold_by 5) rows) (λ v. Unit) (get_transfer_history meanwhile 5 world)
    × Ends
        (λ t v. (t.buyer_id == 5 || t.seller_id == 5) ≡ true)
        (λ v. Unit)
        (get_transfer meanwhile 5 8 world)
views_show_own_example = views_show_own meanwhile 5 8 world

-- The transfer that both calls see is shown once, as the second call saw it.
seen_twice :
    (get_pending_transfers meanwhile 5 world).0 ≡ ok ((8, early_sale) ∷ (9, early_sale) ∷ [])
unfolding get_pending_transfers unique_from call_list_transfers list_transfers select
    is_pending_seller_otp is_pending_seller_acceptance remote meet next_fate arrive spend_fate
    insert
seen_twice = refl

shown_to_buyer : (get_my_pending_transfers meanwhile 5 world).0 ≡ ok ((10, bought) ∷ [])
unfolding get_my_pending_transfers call_list_transfers list_transfers select is_pending_buyer_otp
    remote meet next_fate arrive spend_fate
shown_to_buyer = refl
