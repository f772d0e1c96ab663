-- ===== src/Transfer/Credits.antt =====
-- The credits of the two users through `_execute_saga`.
use ticketremaster_b.Base.{
  ℕ, suc, ◌≡◌, ◌≢◌, refl, ◌∙◌, sym, true, false, Bool, Option, none, some, arith, ◌||◌,
}
use ticketremaster_b.Base.Int.{ℤ, ◌+ℤ◌, ◌-ℤ◌}
use ticketremaster_b.Web.{Result, ok, err}
use ticketremaster_b.Services.Tickets.{TicketPatch}
use ticketremaster_b.Services.Listings.{ListingPatch}
use ticketremaster_b.Services.Transfers.{TransferPatch, set_status, failed}
use ticketremaster_b.Services.Ledger.{CreditTransaction}
use ticketremaster_b.World.Model.{World, Action, CreditService, Keeps}
use ticketremaster_b.World.Calls.{
  arrive, call_update_ticket, call_update_listing, call_create_transaction,
  call_reverse_transaction, call_patch_transfer, credit_patch, at_tickets, at_listings,
  at_transfers, at_ledger,
}
use ticketremaster_b.World.Hoare.{Ends, Triple, Triple-bind, Triple-ignore, Triple-pure, Keeping}
use ticketremaster_b.World.Frame.{Arrives, Keeping-remote, account-Arrives, after}
use ticketremaster_b.Transfer.Saga.{
  SagaRequest, Completed, nothing_completed, undo, attempt, patch_ticket, give_up, compensate,
  completion, complete_transfer, complete_listing, transfer_ticket, log_seller, log_buyer,
  credit_seller, execute_saga,
}
use ticketremaster_b.Purchase.Confirm.{report}

module _ {A B : Type 0} {P Q : World A → Type 0} {E : World A → Type 0} where
  -- An undoing that does not look at the answer, or was not needed.
  undo-Triple :
      (d : Bool) (m : Action A B)
      → ((w : World A) → P w → Q (m w).1)
      → (d ≡ false → (w : World A) → P w → Q w)
      → Triple P (undo d m) (λ _ w. Q w) E
  unfolding undo
  undo-Triple false m h k = record { run = λ w p. k refl w p }
  undo-Triple true m h k = record { run = λ w p. h w p }

pub undo-Keeping :
    {A B : Type 0} {P E : World A → Type 0} (d : Bool) {m : Action A B}
    → Keeping P m
    → Triple P (undo d m) (λ _ w. P w) E
undo-Keeping d t = undo-Triple d _ (after t) (λ _ w h. h)

attempt-Ends :
    {A B : Type 0} {F E : World A → Type 0} {Q : B → World A → Type 0}
    {R : Unit {0} → World A → Type 0} {h k : Action A (Unit {0})} (r : Result B × World A)
    → Ends Q F r
    → Triple F h R E
    → ((b : B) → Triple (Q b) k R E)
    → Ends R E (elim r.0 [ ok b ↦ k r.1 | err c ↦ h r.1 ])
attempt-Ends (ok b, w) e h k = (k b).run w e
attempt-Ends (err c, w) e h k = h.run w e

module _ {A B : Type 0} {P F E : World A → Type 0} {Q : B → World A → Type 0}
    {R : Unit {0} → World A → Type 0} where
  -- After a step its handler or the next step.
  pub attempt-Triple :
      {m : Action A B} {h k : Action A (Unit {0})}
      → Triple P m Q F
      → Triple F h R E
      → ((b : B) → Triple (Q b) k R E)
      → Triple P (attempt m h k) R E
  attempt-Triple {m} t h k = record { run = λ w p. attempt-Ends (m w) (t.run w p) h k }

-- Other requests leave the accounts alone.
abbrev pub LeavesAccounts : {A : Type 0} → (ℕ → World A → World A) → Type 0
LeavesAccounts {A} meanwhile = (n : ℕ) (w : World A) → (meanwhile n w).account ≡ w.account

-- Every PATCH of a balance is answered.
abbrev pub Answers : {A : Type 0} → CreditService A → Type 0
Answers {A} C = (u : ℕ) (v : ℤ) (a : A) → (C.patch u v a).0 ≡ true

-- The balances of the buyer and of the seller.
abbrev pub Balances : {A : Type 0} → (ℕ → A → ℤ) → ℕ → ℕ → ℤ → ℤ → World A → Type 0
Balances balance buyer seller b s w = (balance buyer w.account ≡ b) × (balance seller w.account ≡ s)

module _ {A : Type 0} (C : CreditService A) (balance : ℕ → A → ℤ) (K : Keeps C balance)
    (answers : Answers C) (meanwhile : ℕ → World A → World A) (alone : LeavesAccounts meanwhile)
    (req : SagaRequest) (dead_letter_up : Bool) (differ : req.buyer_id ≢ req.seller_id) where
  abbrev Have : ℤ → ℤ → World A → Type 0
  Have b s w = Balances balance req.buyer_id req.seller_id b s w

  Have-Arrives : (b s : ℤ) → Arrives meanwhile (Have b s)
  Have-Arrives b s =
      account-Arrives (λ a. (balance req.buyer_id a ≡ b) × (balance req.seller_id a ≡ s))
        (λ n w h. rw (alone n w) h)

  arrive_account : (w : World A) → (arrive meanwhile w).account ≡ w.account
  unfolding arrive
  arrive_account w = alone w.calls (record w { calls = suc w.calls })

  patch_buyer :
      (b s v : ℤ) (w : World A)
      → Have b s w
      → Have v s (credit_patch meanwhile C req.buyer_id v w).1
  unfolding credit_patch
  patch_buyer b s v w h =
      let a = (arrive meanwhile w).account in
      (
        K.writes req.buyer_id v a (answers req.buyer_id v a),
        K.others req.buyer_id req.seller_id v a differ ∙ rw (arrive_account w) h.1,
      )

  patch_seller :
      (b s v : ℤ) (w : World A)
      → Have b s w
      → Have b v (credit_patch meanwhile C req.seller_id v w).1
  unfolding credit_patch
  patch_seller b s v w h =
      let a = (arrive meanwhile w).account in
      (
        K.others req.seller_id req.buyer_id v a (λ e. differ (sym e)) ∙ rw (arrive_account w) h.0,
        K.writes req.seller_id v a (answers req.seller_id v a),
      )

  -- A PATCH is answered, so that what follows an error is never reached.
  answered_Triple :
      (user : ℕ) (v : ℤ) {P Q F : World A → Type 0}
      → ((w : World A) → P w → Q (credit_patch meanwhile C user v w).1)
      → Triple P (credit_patch meanwhile C user v) (λ _ w. Q w) F
  unfolding credit_patch
  answered_Triple user v h = record {
    run = λ w p. rw (answers user v (arrive meanwhile w).account) (h w p);
  }

  ticket_keeps :
      (b s : ℤ) (k : Option ℕ) (p : TicketPatch)
      → Keeping (Have b s) (patch_ticket C meanwhile req dead_letter_up k p)
  unfolding patch_ticket call_update_ticket at_tickets
  ticket_keeps b s none p = Keeping-remote _ (Have-Arrives b s) (λ w h. h)
  ticket_keeps b s (some k) p = Keeping-remote _ (Have-Arrives b s) (λ w h. h)

  listing_keeps :
      (b s : ℤ) (k : ℕ) (p : ListingPatch) → Keeping (Have b s) (call_update_listing meanwhile k p)
  unfolding call_update_listing at_listings
  listing_keeps b s k p = Keeping-remote _ (Have-Arrives b s) (λ w h. h)

  transfer_keeps :
      (b s : ℤ) (k : ℕ) (p : TransferPatch) → Keeping (Have b s) (call_patch_transfer meanwhile k p)
  unfolding call_patch_transfer at_transfers
  transfer_keeps b s k p = Keeping-remote _ (Have-Arrives b s) (λ w h. h)

  log_keeps :
      (b s : ℤ) (t : CreditTransaction) → Keeping (Have b s) (call_create_transaction meanwhile t)
  unfolding call_create_transaction at_ledger
  log_keeps b s t = Keeping-remote _ (Have-Arrives b s) (λ w h. h)

  reverse_keeps : (b s : ℤ) (k : ℕ) → Keeping (Have b s) (call_reverse_transaction meanwhile k)
  unfolding call_reverse_transaction
  reverse_keeps b s k = Keeping-remote _ (Have-Arrives b s) (λ w h. h)

  give_up-Triple :
      (b s : ℤ) (incomplete : Bool) {R : Unit {0} → World A → Type 0}
      → Triple (Have b s) (give_up C meanwhile req dead_letter_up incomplete) R (Have b s)
  unfolding give_up report
  give_up-Triple b s incomplete = record { run = λ w h. ground arith }

  -- The undoing of the two payments.
  seller_back :
      (done : Completed) (b s : ℤ) {E : World A → Type 0}
      → (done.seller_credited ≡ false → s ≡ req.seller_balance)
      → Triple
          (Have b s)
          (undo done.seller_credited (credit_patch meanwhile C req.seller_id req.seller_balance))
          (λ _ w. Have b req.seller_balance w)
          E
  seller_back done b s hs =
      undo-Triple done.seller_credited _ (patch_seller b s req.seller_balance) (λ e w h. back e w h)
    where
      back : done.seller_credited ≡ false → (w : World A) → Have b s w → Have b req.seller_balance w
      back e w h = (h.0, h.1 ∙ hs e)

  buyer_back :
      (done : Completed) (b s : ℤ) {E : World A → Type 0}
      → (done.buyer_deducted ≡ false → b ≡ req.buyer_balance)
      → Triple
          (Have b s)
          (undo done.buyer_deducted (credit_patch meanwhile C req.buyer_id req.buyer_balance))
          (λ _ w. Have req.buyer_balance s w)
          E
  buyer_back done b s hb =
      undo-Triple done.buyer_deducted _ (patch_buyer b s req.buyer_balance) (λ e w h. back e w h)
    where
      back : done.buyer_deducted ≡ false → (w : World A) → Have b s w → Have req.buyer_balance s w
      back e w h = (h.0 ∙ hb e, h.1)

  -- What was taken and given is restored.
  pub compensate-Triple :
      (done : Completed) (b s : ℤ) {R : Unit {0} → World A → Type 0}
      → (done.buyer_deducted ≡ false → b ≡ req.buyer_balance)
      → (done.seller_credited ≡ false → s ≡ req.seller_balance)
      → Triple
          (Have b s)
          (compensate C meanwhile req dead_letter_up done)
          R
          (Have req.buyer_balance req.seller_balance)
  unfolding compensate
  compensate-Triple done b s hb hs =
      Triple-bind (undo-Keeping done.listing_completed (listing_keeps b s req.listing_id _)) λ e₁.
        Triple-bind (undo-Keeping done.ticket_transferred (ticket_keeps b s req.ticket_id _)) λ e₂.
          Triple-bind (seller_back done b s hs) λ e₃.
            Triple-bind (buyer_back done b req.seller_balance hb) λ e₄.
              Triple-bind (undo-Keeping done.seller_txn_logged (reverse_keeps _ _ req.transfer_id))
                λ e₅.
                  Triple-bind
                    (undo-Keeping done.buyer_txn_logged (reverse_keeps _ _ req.transfer_id))
                    λ e₆.
                      Triple-bind
                        (Triple-ignore (transfer_keeps _ _ req.transfer_id (set_status failed)))
                        λ _. give_up-Triple _ _ (e₁ || e₂ || e₃ || e₄ || e₅ || e₆)

  abbrev paid_by : ℤ
  paid_by = req.buyer_balance -ℤ req.credit_amount

  abbrev paid_to : ℤ
  paid_to = req.seller_balance +ℤ req.credit_amount

  abbrev Moved : Unit {0} → World A → Type 0
  Moved _ w = Have paid_by paid_to w

  abbrev Restored : World A → Type 0
  Restored w = Have req.buyer_balance req.seller_balance w

  -- The handler of a step behind both payments.
  after_both :
      (done : Completed)
      → done.buyer_deducted ≡ true
      → done.seller_credited ≡ true
      → Triple
          (Have paid_by paid_to)
          (compensate C meanwhile req dead_letter_up done)
          Moved
          Restored
  after_both done d c =
      compensate-Triple done paid_by paid_to (λ e. absurd (ground arith))
        (λ e. absurd (ground arith))

  complete_transfer-Triple :
      Triple
        (Have paid_by paid_to)
        (complete_transfer C meanwhile req dead_letter_up)
        Moved
        Restored
  unfolding complete_transfer
  complete_transfer-Triple = record {
    run = λ w h.
        (attempt-Triple (transfer_keeps paid_by paid_to req.transfer_id (completion w.clock))
            (after_both _ refl refl) (λ _. Triple-pure tt)).run
          w h;
  }

  complete_listing-Triple :
      Triple (Have paid_by paid_to) (complete_listing C meanwhile req dead_letter_up) Moved Restored
  unfolding complete_listing
  complete_listing-Triple =
      attempt-Triple (listing_keeps paid_by paid_to req.listing_id _) (after_both _ refl refl)
        (λ _. complete_transfer-Triple)

  transfer_ticket-Triple :
      Triple (Have paid_by paid_to) (transfer_ticket C meanwhile req dead_letter_up) Moved Restored
  unfolding transfer_ticket
  transfer_ticket-Triple =
      attempt-Triple (ticket_keeps paid_by paid_to req.ticket_id _) (after_both _ refl refl)
        (λ _. complete_listing-Triple)

  log_seller-Triple :
      Triple (Have paid_by paid_to) (log_seller C meanwhile req dead_letter_up) Moved Restored
  unfolding log_seller
  log_seller-Triple =
      attempt-Triple (log_keeps paid_by paid_to _) (after_both _ refl refl)
        (λ _. transfer_ticket-Triple)

  log_buyer-Triple :
      Triple (Have paid_by paid_to) (log_buyer C meanwhile req dead_letter_up) Moved Restored
  unfolding log_buyer
  log_buyer-Triple =
      attempt-Triple (log_keeps paid_by paid_to _) (after_both _ refl refl) (λ _. log_seller-Triple)

  abbrev Never : World A → Type 0
  Never w = ⊥

  unreached : (m : Action A (Unit {0})) → Triple Never m Moved Restored
  unreached m = record { run = λ w h. absurd h }

  credit_seller-Triple :
      Triple
        (Have paid_by req.seller_balance)
        (credit_seller C meanwhile req dead_letter_up)
        Moved
        Restored
  unfolding credit_seller
  credit_seller-Triple =
      attempt-Triple
        (answered_Triple req.seller_id paid_to {F = Never}
          (patch_seller paid_by req.seller_balance paid_to))
        (unreached (
          compensate C meanwhile req dead_letter_up
            (record nothing_completed { buyer_deducted = true })))
        (λ _. log_buyer-Triple)

  execute_saga-Triple : Triple Restored (execute_saga C meanwhile req dead_letter_up) Moved Restored
  unfolding execute_saga
  execute_saga-Triple =
      attempt-Triple
        (answered_Triple req.buyer_id paid_by {F = Never}
          (patch_buyer req.buyer_balance req.seller_balance paid_by))
        (unreached (compensate C meanwhile req dead_letter_up nothing_completed))
        (λ _. credit_seller-Triple)

-- The saga moves the price or nothing: where every PATCH of a balance is answered, no other request
-- writes to the accounts meanwhile, the two users differ and their balances are the ones that were
-- read, a saga that ends well has taken the amount from the buyer and given it to the seller, and
-- one that fails leaves both balances as they were, whichever of its other calls are lost, refused
-- or not heard of.
pub execute_saga-Balances :
    {A : Type 0} (C : CreditService A) (balance : ℕ → A → ℤ)
    → Keeps C balance
    → Answers C
    → (meanwhile : ℕ → World A → World A) → LeavesAccounts meanwhile
    → (req : SagaRequest) (dead_letter_up : Bool) → req.buyer_id ≢ req.seller_id
    → (w : World A)
    → Balances balance req.buyer_id req.seller_id req.buyer_balance req.seller_balance w
    → Ends
        (λ _ v.
          Balances balance req.buyer_id req.seller_id
            (req.buyer_balance -ℤ req.credit_amount)
            (req.seller_balance +ℤ req.credit_amount)
            v)
        (λ v. Balances balance req.buyer_id req.seller_id req.buyer_balance req.seller_balance v)
        (execute_saga C meanwhile req dead_letter_up w)
execute_saga-Balances C balance K answers meanwhile alone req dead_letter_up differ w h =
    (execute_saga-Triple C balance K answers meanwhile alone req dead_letter_up differ).run w h
