-- ===== src/Market/TopUp.antt =====
-- orchestrators/credit-orchestrator/routes.py: the routes that fill an account, over
-- services/stripe-wrapper/routes.py. Stripe is a parameter: what it knows of a payment and what is
-- in a signed event.
use ticketremaster_b.Base.{ℕ, zero, suc, Bool, true, false, Option, none, some, ◌==◌, ◌*◌}
use ticketremaster_b.Base.Int.{ℤ, pos, negsuc, ◌+ℤ◌}
use ticketremaster_b.Web.{
  Result, ok, err, validation_error, service_unavailable, internal_error, forbidden,
}
use ticketremaster_b.Services.Ledger.{CreditTransaction, topup}
use ticketremaster_b.World.Model.{
  World, CreditService, CreditReply, Action, pure, fail, failing, ignore, ◌>>=◌, ◌>>◌, require,
}
use ticketremaster_b.World.Calls.{
  arrive, call_get_transaction, call_create_transaction, credit_get, credit_patch,
}

-- The metadata of a payment that has succeeded, as the wrapper answers it.
pub record Payment : Type 0 where
  pub user_id : ℕ
  pub credits : ℤ
  pub payment_intent_id : ℕ

-- `PaymentIntent.retrieve`, for a payment that has succeeded, and `Webhook.construct_event`: an
-- error, an event of another type, or one of a payment.
pub record Stripe : Type 0 where
  pub retrieve : ℕ → Option Payment
  pub construct_event : ℕ → Option (Option Payment)

-- `credit_data.get("creditBalance") or 0`
unfoldable pub shown_balance : CreditReply → ℤ
shown_balance r = elim r.credit_balance [ some b ↦ b | none ↦ pos 0 ]

pub data TopUpReply : Type 0 where
  already_processed received : TopUpReply
  confirmed : ℤ → TopUpReply

-- The entry of a payment.
unfoldable pub topup_entry : Payment → CreditTransaction
topup_entry p = record {
  user_id = p.user_id;
  delta = p.credits;
  reason = topup;
  reference_id = some p.payment_intent_id;
}

-- `create_payment_intent`, up to the call of Stripe: the amount in cents
unfoldable pub create_payment_intent : ℤ → Result ℤ
create_payment_intent (negsuc n) = err validation_error
create_payment_intent (pos zero) = err validation_error
create_payment_intent (pos (suc n)) = ok (pos (suc n * 100))

module _ {A : Type 0} (C : CreditService A) (stripe : Stripe)
    (meanwhile : ℕ → World A → World A) where
  -- `retrieve-payment-intent`
  unfoldable pub retrieve_payment_intent : ℕ → Action A Payment
  retrieve_payment_intent k w = (
    elim (stripe.retrieve k) [ some p ↦ ok p | none ↦ err service_unavailable ],
    arrive meanwhile w,
  )

  -- `/stripe/webhook`, which answers no `eventId`
  unfoldable pub wrapped_webhook : ℕ → Action A (Option Payment)
  wrapped_webhook payload w = (
    elim (stripe.construct_event payload) [ some e ↦ ok e | none ↦ err internal_error ],
    arrive meanwhile w,
  )

  -- `existing, _ = ...`: an error is no entry
  unfoldable pub has_entry : ℕ → Action A Bool
  has_entry k w =
      let (r, w') = call_get_transaction meanwhile k w in
      (ok (elim r [ ok t ↦ true | err c ↦ false ]), w')

  -- The balance is read, raised and written; then the entry, whose answer is not looked at.
  unfoldable pub fill : Payment → Action A ℤ
  fill p = do
    credit ← failing service_unavailable (credit_get meanwhile C p.user_id)
    failing service_unavailable
        (credit_patch meanwhile C p.user_id (shown_balance credit +ℤ p.credits))
    ignore (call_create_transaction meanwhile (topup_entry p))
    pure (shown_balance credit +ℤ p.credits)

  unfoldable pub confirm_new : Payment → Bool → Action A TopUpReply
  confirm_new p true = pure already_processed
  confirm_new p false = fill p >>= λ b. pure (confirmed b)

  unfoldable pub confirm_payment : ℕ → ℕ → Payment → Action A TopUpReply
  confirm_payment user_id k p = do
    require (p.user_id == user_id) forbidden
    seen ← has_entry k
    confirm_new (record p { payment_intent_id = k }) seen

  -- `confirm_topup`; the entry has the identifier of the body
  unfoldable pub confirm_topup : ℕ → Option ℕ → Action A TopUpReply
  confirm_topup user_id none = fail validation_error
  confirm_topup user_id (some k) =
      failing service_unavailable (retrieve_payment_intent k) >>= confirm_payment user_id k

  unfoldable pub receive_new : Payment → Bool → Action A TopUpReply
  receive_new p true = pure received
  receive_new p false = fill p >>= λ b. pure received

  unfoldable pub receive : Option Payment → Action A TopUpReply
  receive none = pure received
  receive (some p) = has_entry p.payment_intent_id >>= receive_new p

  -- `stripe_webhook`; without an `eventId` the reference is that of the payment
  unfoldable pub stripe_webhook : ℕ → Action A TopUpReply
  stripe_webhook payload = failing internal_error (wrapped_webhook payload) >>= receive
