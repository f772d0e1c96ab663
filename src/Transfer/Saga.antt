-- ===== src/Transfer/Saga.antt =====
-- `_execute_saga` of orchestrators/transfer-orchestrator/routes.py.
use ticketremaster_b.Base.{ℕ, Bool, true, false, Option, none, some, ◌&&◌, ◌||◌}
use ticketremaster_b.Base.Int.{ℤ, pos, ◌+ℤ◌, ◌-ℤ◌}
use ticketremaster_b.Web.{ok, err, internal_error, ticket_not_found, at}
use ticketremaster_b.Services.Listings
use ticketremaster_b.Services.Tickets
use ticketremaster_b.Services.Transfers
use ticketremaster_b.Services.Listings.{ListingStatus}
use ticketremaster_b.Services.Tickets.{Ticket, TicketPatch, TicketStatus}
use ticketremaster_b.Services.Transfers.{TransferPatch, failed, completed}
use ticketremaster_b.Services.Ledger.{p2p_sent, p2p_received}
use ticketremaster_b.World.Model.{
  World, transfer_compensation_failed, CreditService, Action, pure, ignore, ◌>>=◌, ◌>>◌,
}
use ticketremaster_b.World.Calls.{
  remote, call_update_listing, call_update_ticket, call_create_transaction,
  call_reverse_transaction, call_patch_transfer, credit_patch,
}
use ticketremaster_b.Purchase.Confirm.{is_err, report}

-- The arguments of `_execute_saga`; a ticket is missing if the listing was not found.
pub record SagaRequest : Type 0 where
  pub transfer_id : ℕ
  pub buyer_id : ℕ
  pub seller_id : ℕ
  pub credit_amount : ℤ
  pub ticket_id : Option ℕ
  pub listing_id : ℕ
  pub buyer_balance : ℤ
  pub seller_balance : ℤ

-- `completed`: the steps that were answered.
pub record Completed : Type 0 where
  pub buyer_deducted : Bool
  pub seller_credited : Bool
  pub buyer_txn_logged : Bool
  pub seller_txn_logged : Bool
  pub ticket_transferred : Bool
  pub listing_completed : Bool

abbrev pub nothing_completed : Completed
nothing_completed = record {
  buyer_deducted = false;
  seller_credited = false;
  buyer_txn_logged = false;
  seller_txn_logged = false;
  ticket_transferred = false;
  listing_completed = false;
}

abbrev pub both_paid : Completed
both_paid = record nothing_completed { buyer_deducted = true; seller_credited = true }

abbrev pub both_logged : Completed
both_logged = record both_paid { buyer_txn_logged = true; seller_txn_logged = true }

-- One undoing, if its step was completed, with whether it failed.
unfoldable pub undo : {A B : Type 0} → Bool → Action A B → Action A Bool
undo false m w = (ok false, w)
undo true m w = let (r, w') = m w in (ok (is_err r), w')

-- A step: after an error the rest is `h`.
abbrev pub attempt :
    {A B : Type 0} → Action A B → Action A (Unit {0}) → Action A (Unit {0}) → Action A (Unit {0})
attempt m h k w = let (r, w') = m w in elim r [ ok b ↦ k w' | err c ↦ h w' ]

-- The texts of the two PATCHes of the ticket.
abbrev pub to_buyer : ℕ → TicketPatch
to_buyer buyer_id = record Tickets.no_patch {
  owner_id = some buyer_id;
  status = some TicketStatus.active;
}

abbrev pub back_to_seller : ℕ → TicketPatch
back_to_seller seller_id = record Tickets.no_patch {
  owner_id = some seller_id;
  status = some TicketStatus.sold;
}

-- The PATCH that completes the transfer, with the time at which it is sent.
abbrev pub completion : ℕ → TransferPatch
completion now = record Transfers.no_patch { status = some completed; completed_at = some (at now) }

module _ {A : Type 0} (C : CreditService A) (meanwhile : ℕ → World A → World A) (req : SagaRequest)
    (dead_letter_up : Bool) where
  -- PATCH /tickets/<ticket_id>; no ticket has the key "None".
  unfoldable pub patch_ticket : Option ℕ → TicketPatch → Action A Ticket
  patch_ticket none p = remote meanwhile (λ w. (err ticket_not_found, w))
  patch_ticket (some k) p = call_update_ticket meanwhile k p

  -- The message to the dead letter queue, and the error that is raised again.
  unfoldable pub give_up : Bool → Action A (Unit {0})
  give_up incomplete w = (
    err internal_error,
    report (incomplete && dead_letter_up) (transfer_compensation_failed req.transfer_id) w,
  )

  -- the handler of the exception
  unfoldable pub compensate : Completed → Action A (Unit {0})
  compensate done = do
    listing ←
        undo done.listing_completed
          (call_update_listing meanwhile req.listing_id (Listings.set_status ListingStatus.active))
    ticket ←
        undo done.ticket_transferred (patch_ticket req.ticket_id (back_to_seller req.seller_id))
    seller ← undo done.seller_credited (credit_patch meanwhile C req.seller_id req.seller_balance)
    buyer ← undo done.buyer_deducted (credit_patch meanwhile C req.buyer_id req.buyer_balance)
    seller_log ← undo done.seller_txn_logged (call_reverse_transaction meanwhile req.transfer_id)
    buyer_log ← undo done.buyer_txn_logged (call_reverse_transaction meanwhile req.transfer_id)
    ignore (call_patch_transfer meanwhile req.transfer_id (Transfers.set_status failed))
    give_up (listing || ticket || seller || buyer || seller_log || buyer_log)

  -- The seven steps, the last one first: what follows each is the next one.
  unfoldable pub complete_transfer : Action A (Unit {0})
  complete_transfer w =
      attempt (call_patch_transfer meanwhile req.transfer_id (completion w.clock))
        (compensate (record both_logged { ticket_transferred = true; listing_completed = true }))
        (pure tt) w

  unfoldable pub complete_listing : Action A (Unit {0})
  complete_listing =
      attempt
        (call_update_listing meanwhile req.listing_id (Listings.set_status ListingStatus.completed))
        (compensate (record both_logged { ticket_transferred = true })) complete_transfer

  unfoldable pub transfer_ticket : Action A (Unit {0})
  transfer_ticket =
      attempt (patch_ticket req.ticket_id (to_buyer req.buyer_id)) (compensate both_logged)
        complete_listing

  unfoldable pub log_seller : Action A (Unit {0})
  log_seller =
      attempt
        (call_create_transaction meanwhile (record {
          user_id = req.seller_id;
          delta = req.credit_amount;
          reason = p2p_received;
          reference_id = some req.transfer_id;
        }))
        (compensate (record both_paid { buyer_txn_logged = true })) transfer_ticket

  unfoldable pub log_buyer : Action A (Unit {0})
  log_buyer =
      attempt
        (call_create_transaction meanwhile (record {
          user_id = req.buyer_id;
          delta = pos 0 -ℤ req.credit_amount;
          reason = p2p_sent;
          reference_id = some req.transfer_id;
        }))
        (compensate both_paid) log_seller

  unfoldable pub credit_seller : Action A (Unit {0})
  credit_seller =
      attempt (credit_patch meanwhile C req.seller_id (req.seller_balance +ℤ req.credit_amount))
        (compensate (record nothing_completed { buyer_deducted = true })) log_buyer

  -- `_execute_saga`, whose first step takes the credits of the buyer
  unfoldable pub execute_saga : Action A (Unit {0})
  execute_saga =
      attempt (credit_patch meanwhile C req.buyer_id (req.buyer_balance -ℤ req.credit_amount))
        (compensate nothing_completed) credit_seller
