-- ===== src/Transfer/TicketLost.antt =====
-- The ticket after the exception handler of `_execute_saga`.
use ticketremaster_b.Base.{
  ℕ, suc, ◌≡◌, ◌≢◌, refl, true, ◌∙◌, inl, inr, Bool, Option, none, some, ◌||◌, arith,
}
use ticketremaster_b.Base.Int.{ℤ}
use ticketremaster_b.Base.Table.{Table}
use ticketremaster_b.Web.{Result, ok, err}
use ticketremaster_b.Services.Tickets.{Ticket, is_allowed, update_ticket}
use ticketremaster_b.Services.TicketLaws.{NoChange, update_ticket_effect}
use ticketremaster_b.Services.Listings.{ListingPatch}
use ticketremaster_b.Services.Transfers.{TransferPatch, set_status, failed}
use ticketremaster_b.World.Model.{World, CreditService, Keeps}
use ticketremaster_b.World.Calls.{
  arrive, call_update_listing, call_update_ticket, call_reverse_transaction, call_patch_transfer,
  credit_patch, at_tickets, at_listings, at_transfers,
}
use ticketremaster_b.World.Hoare.{Ends, Triple, Triple-bind, Triple-ignore, Keeping}
use ticketremaster_b.World.Frame.{
  Arrives, Keeping-remote, Keeping-of, LeavesTickets, tickets-Arrives,
}
use ticketremaster_b.Purchase.Confirm.{report}
use ticketremaster_b.Transfer.Credits.{
  undo-Keeping, LeavesAccounts, Answers, Balances, compensate-Triple,
}
use ticketremaster_b.Transfer.Saga.{
  SagaRequest, Completed, back_to_seller, patch_ticket, give_up, compensate,
}

unchanged : (old : Table Ticket) (r : Result Ticket × Table Ticket) → NoChange old r → r.1 ≡ old
unchanged old (ok b, new) h = absurd h
unchanged old (err c, new) h = h

-- The ticket service does not know the status "sold".
back_refused :
    (k seller : ℕ) (tickets : Table Ticket)
    → (update_ticket k (back_to_seller seller) tickets).1 ≡ tickets
unfolding is_allowed
back_refused k seller tickets = elim (update_ticket_effect k (back_to_seller seller) tickets) [
  | inl h ↦ unchanged tickets (update_ticket k (back_to_seller seller) tickets) h
  | inr (t, at, e, good) ↦ absurd (ground arith)
]

module _ {A : Type 0} (C : CreditService A) (meanwhile : ℕ → World A → World A)
    (alone : LeavesTickets meanwhile) (req : SagaRequest) (dead_letter_up : Bool)
    (tickets : Table Ticket) where
  abbrev Same : World A → Type 0
  Same w = w.tickets ≡ tickets

  arrive_tickets : (w : World A) → (arrive meanwhile w).tickets ≡ w.tickets
  unfolding arrive
  arrive_tickets w = alone w.calls (record w { calls = suc w.calls })

  same-Arrives : Arrives meanwhile Same
  same-Arrives = tickets-Arrives (λ rows. rows ≡ tickets) (λ n w h. alone n w ∙ h)

  ticket-Same :
      (k : Option ℕ)
      → Keeping Same (patch_ticket C meanwhile req dead_letter_up k (back_to_seller req.seller_id))
  unfolding patch_ticket call_update_ticket at_tickets
  ticket-Same none = Keeping-remote _ same-Arrives (λ w h. h)
  ticket-Same (some k) =
      Keeping-remote _ same-Arrives (λ w h. back_refused k req.seller_id w.tickets ∙ h)

  listing-Same : (k : ℕ) (p : ListingPatch) → Keeping Same (call_update_listing meanwhile k p)
  unfolding call_update_listing at_listings
  listing-Same k p = Keeping-remote _ same-Arrives (λ w h. h)

  transfer-Same : (k : ℕ) (p : TransferPatch) → Keeping Same (call_patch_transfer meanwhile k p)
  unfolding call_patch_transfer at_transfers
  transfer-Same k p = Keeping-remote _ same-Arrives (λ w h. h)

  reverse-Same : (k : ℕ) → Keeping Same (call_reverse_transaction meanwhile k)
  unfolding call_reverse_transaction
  reverse-Same k = Keeping-remote _ same-Arrives (λ w h. h)

  credit-Same : (user : ℕ) (v : ℤ) → Keeping Same (credit_patch meanwhile C user v)
  unfolding credit_patch
  credit-Same user v = Keeping-of (credit_patch meanwhile C user v) (λ w h. arrive_tickets w ∙ h)

  give_up-Same :
      (incomplete : Bool)
      → Triple Same (give_up C meanwhile req dead_letter_up incomplete) (λ _ w. ⊥) Same
  unfolding give_up report
  give_up-Same incomplete = record { run = λ w h. ground arith }

  compensate-Same :
      (done : Completed)
      → Triple Same (compensate C meanwhile req dead_letter_up done) (λ _ w. ⊥) Same
  unfolding compensate
  compensate-Same done =
      Triple-bind (undo-Keeping done.listing_completed (listing-Same req.listing_id _)) λ e₁.
        Triple-bind (undo-Keeping done.ticket_transferred (ticket-Same req.ticket_id)) λ e₂.
          Triple-bind
            (undo-Keeping done.seller_credited (credit-Same req.seller_id req.seller_balance))
            λ e₃.
              Triple-bind
                (undo-Keeping done.buyer_deducted (credit-Same req.buyer_id req.buyer_balance))
                λ e₄.
                  Triple-bind (undo-Keeping done.seller_txn_logged (reverse-Same req.transfer_id))
                    λ e₅.
                      Triple-bind
                        (undo-Keeping done.buyer_txn_logged (reverse-Same req.transfer_id))
                        λ e₆.
                          Triple-bind
                            (Triple-ignore (transfer-Same req.transfer_id (set_status failed)))
                            λ _. give_up-Same (e₁ || e₂ || e₃ || e₄ || e₅ || e₆)

-- A transfer that is undone does not give the ticket back: whatever steps were completed, the
-- ticket's own among them, and whichever calls go through, the handler ends with an error and,
-- where no other request writes to the tickets, leaves every ticket as it was.
pub compensate_keeps_tickets :
    {A : Type 0} (C : CreditService A) (meanwhile : ℕ → World A → World A) (req : SagaRequest)
    (dead_letter_up : Bool) (done : Completed) (w : World A)
    → LeavesTickets meanwhile
    → Ends
        (λ _ v. ⊥)
        (λ v. v.tickets ≡ w.tickets)
        (compensate C meanwhile req dead_letter_up done w)
compensate_keeps_tickets C meanwhile req dead_letter_up done w alone =
    (compensate-Same C meanwhile alone req dead_letter_up w.tickets done).run w refl

both-Ends :
    {A B : Type 0} (E F : World A → Type 0) (r : Result B × World A)
    → Ends (λ _ v. ⊥) E r
    → Ends (λ _ v. ⊥) F r
    → Ends (λ _ v. ⊥) (λ v. E v × F v) r
both-Ends E F (ok b, v) h k = h
both-Ends E F (err c, v) h k = (h, k)

-- A transfer that is undone after both payments gives back the credits and not the ticket: where
-- every PATCH of a balance is answered, no other request writes to the accounts or the tickets
-- meanwhile and the two users differ, the handler ends with an error, the two balances are the ones
-- that were read before the payments, and every ticket is as it was, also where the ticket had gone
-- to the buyer, whichever of the other calls go through.
pub compensate_gives_back_credits_alone :
    {A : Type 0} (C : CreditService A) (balance : ℕ → A → ℤ)
    → Keeps C balance
    → Answers C
    → (meanwhile : ℕ → World A → World A) → LeavesAccounts meanwhile
    → LeavesTickets meanwhile
    → (req : SagaRequest) (dead_letter_up : Bool) (done : Completed) (w : World A)
    → req.buyer_id ≢ req.seller_id
    → done.buyer_deducted ≡ true
    → done.seller_credited ≡ true
    → Ends
        (λ _ v. ⊥)
        (λ v.
          (v.tickets ≡ w.tickets)
          × Balances balance req.buyer_id req.seller_id req.buyer_balance req.seller_balance v)
        (compensate C meanwhile req dead_letter_up done w)
compensate_gives_back_credits_alone C balance K answers meanwhile accounts tickets req up done w
      differ paid credited =
    both-Ends _ _ (compensate C meanwhile req up done w)
      (compensate_keeps_tickets C meanwhile req up done w tickets)
      ((compensate-Triple C balance K answers meanwhile accounts req up differ done
          (balance req.buyer_id w.account) (balance req.seller_id w.account) {R = λ _ v. ⊥}
          (λ e. absurd (ground arith)) (λ e. absurd (ground arith))).run
        w (refl, refl))
