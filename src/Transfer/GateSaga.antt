-- ===== src/Transfer/GateSaga.antt =====
-- `_execute_saga` under the statement on the buyer's code, once the transfer has that code.
use ticketremaster_b.Base.{ℕ, refl, Bool, Option, none, some, ◌||◌, arith}
use ticketremaster_b.Services.Tickets.{TicketPatch}
use ticketremaster_b.Services.Transfers.{no_patch, set_status, failed, cancelled, patched}
use ticketremaster_b.World.Model.{World, Action, CreditService}
use ticketremaster_b.World.Hoare.{Triple-bind, Triple-ignore, Triple-pure, Keeping}
use ticketremaster_b.World.Frame.{Keeping-remote}
use ticketremaster_b.Purchase.Confirm.{report}
use ticketremaster_b.Transfer.Credits.{attempt-Triple, undo-Keeping}
use ticketremaster_b.Transfer.Gate.{KeepsCode, gated, is_past_buyer}
use ticketremaster_b.Transfer.GateCalls.{
  Gated, Rely, gate-Arrives, update_listing-Gate, update_ticket-Gate, log-Gate, reverse-Gate,
  patch_transfer-Gate, credit_patch-Gate,
}
use ticketremaster_b.Transfer.Routes.{
  OtpService, buyer_verified, seller_verified, to_pending_buyer, to_pending_seller,
}
use ticketremaster_b.Transfer.Saga.{
  SagaRequest, Completed, attempt, completion, patch_ticket, give_up, compensate, complete_transfer,
  complete_listing, transfer_ticket, log_seller, log_buyer, credit_seller, execute_saga,
}

-- The bodies that the orchestrator sends.
module _ {Right : ℕ → Type 0} (o : Option ℕ) (k : ℕ) where
  pub failed-KeepsCode : KeepsCode Right o k (set_status failed)
  unfolding patched gated is_past_buyer
  failed-KeepsCode = record { rights = λ t r b. r b; keeps = λ t v. v; gates = λ t g v. refl }

  pub cancelled-KeepsCode : KeepsCode Right o k (set_status cancelled)
  unfolding patched gated is_past_buyer
  cancelled-KeepsCode = record { rights = λ t r b. r b; keeps = λ t v. v; gates = λ t g v. refl }

  pub buyer_verified-KeepsCode : Right k → KeepsCode Right o k buyer_verified
  unfolding patched gated
  buyer_verified-KeepsCode granted = record {
    rights = λ t r b. granted;
    keeps = λ t v. refl;
    gates = λ t g v. ground arith;
  }

  pub seller_verified-KeepsCode : KeepsCode Right o k seller_verified
  unfolding patched gated
  seller_verified-KeepsCode = record { rights = λ t r b. r b; keeps = λ t v. v; gates = λ t g v. g }

  pub to_pending_buyer-KeepsCode : (sid : ℕ) → KeepsCode Right o k (to_pending_buyer sid)
  unfolding patched gated is_past_buyer
  to_pending_buyer-KeepsCode sid = record {
    rights = λ t r b. r b;
    keeps = λ t v. v;
    gates = λ t g v. refl;
  }

  pub to_pending_seller-KeepsCode :
      Right k → (sid : ℕ) → KeepsCode Right o k (to_pending_seller sid)
  unfolding patched gated is_past_buyer
  to_pending_seller-KeepsCode granted sid = record {
    rights = λ t r b. granted;
    keeps = λ t v. refl;
    gates = λ t g v. refl;
  }

  pub new_buyer_sid-KeepsCode :
      (sid : ℕ) → KeepsCode Right o k (record no_patch { buyer_verification_sid = some sid })
  unfolding patched gated
  new_buyer_sid-KeepsCode sid = record {
    rights = λ t r b. r b;
    keeps = λ t v. v;
    gates = λ t g v. g;
  }

  pub new_seller_sid-KeepsCode :
      (sid : ℕ) → KeepsCode Right o k (record no_patch { seller_verification_sid = some sid })
  unfolding patched gated
  new_seller_sid-KeepsCode sid = record {
    rights = λ t r b. r b;
    keeps = λ t v. v;
    gates = λ t g v. g;
  }

-- The last step completes a transfer, and needs the buyer's code for it.
completion-KeepsCode :
    {Right : ℕ → Type 0} (k now : ℕ) → KeepsCode Right (some k) k (completion now)
unfolding patched gated is_past_buyer
completion-KeepsCode k now = record {
  rights = λ t r b. r b;
  keeps = λ t v. v;
  gates = λ t g v. v refl;
}

module _ {A : Type 0} {Right : ℕ → Type 0} (C : CreditService A) (otp : OtpService)
    (meanwhile : ℕ → World A → World A) (rely : Rely Right meanwhile) (req : SagaRequest)
    (dead_letter_up : Bool) where
  abbrev G : World A → Type 0
  G w = Gated Right (some req.transfer_id) w

  ticket-Gate :
      (k : Option ℕ) (p : TicketPatch) → Keeping G (patch_ticket C meanwhile req dead_letter_up k p)
  unfolding patch_ticket
  ticket-Gate none p =
      Keeping-remote _ (gate-Arrives C otp meanwhile rely (some req.transfer_id)) (λ w g. g)
  ticket-Gate (some k) p = update_ticket-Gate C otp meanwhile rely (some req.transfer_id) k p

  give_up-Gate : (incomplete : Bool) → Keeping G (give_up C meanwhile req dead_letter_up incomplete)
  unfolding give_up report
  give_up-Gate incomplete = record { run = λ w g. ground arith }

  compensate-Gate : (done : Completed) → Keeping G (compensate C meanwhile req dead_letter_up done)
  unfolding compensate
  compensate-Gate done =
      let o = some req.transfer_id in
      Triple-bind
        (undo-Keeping done.listing_completed
          (update_listing-Gate C otp meanwhile rely o req.listing_id _))
        λ e₁. Triple-bind (undo-Keeping done.ticket_transferred (ticket-Gate req.ticket_id _)) λ e₂.
          Triple-bind
            (undo-Keeping done.seller_credited
              (credit_patch-Gate C otp meanwhile rely o req.seller_id req.seller_balance))
            λ e₃.
              Triple-bind
                (undo-Keeping done.buyer_deducted
                  (credit_patch-Gate C otp meanwhile rely o req.buyer_id req.buyer_balance))
                λ e₄.
                  Triple-bind
                    (undo-Keeping done.seller_txn_logged
                      (reverse-Gate C otp meanwhile rely o req.transfer_id))
                    λ e₅.
                      Triple-bind
                        (undo-Keeping done.buyer_txn_logged
                          (reverse-Gate C otp meanwhile rely o req.transfer_id))
                        λ e₆.
                          Triple-bind
                            (Triple-ignore (
                              patch_transfer-Gate C otp meanwhile rely o req.transfer_id
                                (set_status failed) (failed-KeepsCode o req.transfer_id)))
                            λ _. give_up-Gate (e₁ || e₂ || e₃ || e₄ || e₅ || e₆)

  -- A step that keeps the statement, and its handler.
  step-Gate :
      {B : Type 0} {m : Action A B} {k : Action A (Unit {0})} (done : Completed)
      → Keeping G m
      → Keeping G k
      → Keeping G (attempt m (compensate C meanwhile req dead_letter_up done) k)
  step-Gate done t next = attempt-Triple t (compensate-Gate done) (λ _. next)

  complete_transfer-Gate : Keeping G (complete_transfer C meanwhile req dead_letter_up)
  unfolding complete_transfer
  complete_transfer-Gate = record {
    run = λ w g.
        (step-Gate _
            (patch_transfer-Gate C otp meanwhile rely (some req.transfer_id) req.transfer_id
              (completion w.clock) (completion-KeepsCode req.transfer_id w.clock))
            (Triple-pure tt)).run
          w g;
  }

  pub execute_saga-Gate : Keeping G (execute_saga C meanwhile req dead_letter_up)
  unfolding execute_saga credit_seller log_buyer log_seller transfer_ticket complete_listing
  execute_saga-Gate =
      let o = some req.transfer_id in
      step-Gate _ (credit_patch-Gate C otp meanwhile rely o req.buyer_id _) (
        step-Gate _ (credit_patch-Gate C otp meanwhile rely o req.seller_id _) (
          step-Gate _ (log-Gate C otp meanwhile rely o _) (
            step-Gate _ (log-Gate C otp meanwhile rely o _) (
              step-Gate _ (ticket-Gate req.ticket_id _) (
                step-Gate _ (update_listing-Gate C otp meanwhile rely o req.listing_id _)
                  complete_transfer-Gate)))))
