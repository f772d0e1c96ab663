-- ===== src/Transfer/Timeout.antt =====
-- orchestrators/transfer-orchestrator/timeout_consumer.py.
use ticketremaster_b.Base.{ℕ, suc, ◌≡◌, refl, ◌⊎◌, inl, inr, true, false, Bool, some, [], arith}
use ticketremaster_b.Base.Table.{Table, lookup, insert, insert_inv}
use ticketremaster_b.Web.{Result, ok, err}
use ticketremaster_b.Services.Listings.{
  Listing, active, set_status, update_listing, update_found, is_allowed,
}
use ticketremaster_b.Services.Transfers.{
  TransferStatus, pending_seller_acceptance, pending_buyer_otp, pending_seller_otp, cancelled,
  expired, Transfer, TransferPatch, no_patch, get_transfer, patch_transfer, is_empty, expire,
  expires_now, get_found,
}
use ticketremaster_b.Services.TransferLaws.{SameOrExpired, get_transfer_rows}
use ticketremaster_b.World.Model.{World, TimeoutMessage, Action, pure, ignore, ◌>>◌}
use ticketremaster_b.World.Calls.{
  arrive, spend_fate, next_fate, meet, remote, at_transfers, at_listings, call_get_transfer,
  call_patch_transfer, call_update_listing,
}
use ticketremaster_b.World.Hoare.{
  Ends, Triple-remote, Triple-bind, Triple-ignore, Triple-pure, Keeping,
}
use ticketremaster_b.Purchase.NoDoubleSale.{after_run}

-- The states from which the consumer cancels.
unfoldable pub is_stuck : TransferStatus → Bool
is_stuck pending_seller_acceptance = true
is_stuck pending_buyer_otp = true
is_stuck pending_seller_otp = true
is_stuck _ = false

-- The body of its PATCH: beside the status it has `cancelledAt` and `cancelReason`.
unfoldable pub cancel_patch : TransferPatch
cancel_patch = record no_patch { status = some cancelled; unsupported = true }

module _ {A : Type 0} (meanwhile : ℕ → World A → World A) (message : TimeoutMessage) where
  -- `_cancel_transfer`; `call_service` returns its errors, and nobody looks at them.
  unfoldable pub cancel_stuck : Action A (Unit {0})
  cancel_stuck = do
    ignore (call_patch_transfer meanwhile message.transfer_id cancel_patch)
    ignore (call_update_listing meanwhile message.listing_id (set_status active))

  unfoldable pub when_stuck : Bool → Action A (Unit {0})
  when_stuck true = cancel_stuck
  when_stuck false = pure tt

  -- What the message leads to once the transfer is read.
  unfoldable pub on_reply : Result Transfer → Action A (Unit {0})
  on_reply (ok t) = when_stuck (is_stuck t.status)
  on_reply (err c) = pure tt

  -- `on_timeout_message`; the message is acknowledged in every case
  unfoldable pub on_timeout_message : Action A (Unit {0})
  on_timeout_message w =
      let (r, w₁) = call_get_transfer meanwhile message.transfer_id w in on_reply r w₁

-- Every transfer is as it was in `old`, or expired.
abbrev pub KeptOrExpired : {A : Type 0} → Table Transfer → World A → Type 0
KeptOrExpired old w =
    (j : ℕ) (t : Transfer)
    → lookup j w.transfers ≡ some t
    → (lookup j old ≡ some t) ⊎ (t.status ≡ expired)

spend_transfers : {A : Type 0} (w : World A) → (spend_fate w).transfers ≡ w.transfers
unfolding spend_fate
spend_transfers w = ground arith

patch_refused :
    (k now : ℕ) (transfers : Table Transfer)
    → (patch_transfer k now cancel_patch transfers).1 ≡ transfers
unfolding patch_transfer cancel_patch is_empty
patch_refused k now transfers = refl

module _ {A : Type 0} (old : Table Transfer) (meanwhile : ℕ → World A → World A)
    (keeps : (n : ℕ) (w : World A) → KeptOrExpired old w → KeptOrExpired old (meanwhile n w))
    (message : TimeoutMessage) where
  frame : (w v : World A) → v.transfers ≡ w.transfers → KeptOrExpired old w → KeptOrExpired old v
  frame w v e h = λ j t. rw e (h j t)

  arrives :
      (w : World A) → KeptOrExpired old w → KeptOrExpired old (spend_fate (arrive meanwhile w))
  unfolding arrive
  arrives w h =
      frame (arrive meanwhile w) (spend_fate (arrive meanwhile w))
        (spend_transfers (arrive meanwhile w)) (keeps w.calls (record w { calls = suc w.calls }) h)

  remote-Kept :
      {B : Type 0} (m : Action A B)
      → ((w : World A) → KeptOrExpired old w → KeptOrExpired old (m w).1)
      → Keeping (KeptOrExpired old) (remote meanwhile m)
  remote-Kept m k =
      Triple-remote meanwhile arrives (λ w p. p) (λ b w q. q)
        (record { run = λ w p. kept_ends (m w) (k w p) })
    where
      kept_ends :
          {B : Type 0} (r : Result B × World A)
          → KeptOrExpired old r.1
          → Ends (λ _ w. KeptOrExpired old w) (KeptOrExpired old) r
      kept_ends (ok b, w) h = h
      kept_ends (err c, w) h = h

  get-Kept : (k : ℕ) → Keeping (KeptOrExpired old) (call_get_transfer meanwhile k)
  unfolding call_get_transfer at_transfers
  get-Kept k =
      remote-Kept (λ w. at_transfers (get_transfer k w.clock) w)
        (λ w p. after w p (get_transfer_rows k w.clock w.transfers))
    where
      after :
          (w : World A)
          → KeptOrExpired old w
          → SameOrExpired k w.clock w.transfers (get_transfer k w.clock w.transfers).1
          → KeptOrExpired old (record w { transfers = (get_transfer k w.clock w.transfers).1 })
      after w p (inl e) = λ j u. rw e (p j u)
      after w p (inr (t, at, _, e)) = λ j u now_at.
          elim (insert_inv k j (expire t) u w.transfers (rw e at now_at)) [
            | inl (_, same_transfer) ↦ inr (cc)
            | inr before ↦ p j u before
          ]

  patch-Kept :
      Keeping (KeptOrExpired old) (call_patch_transfer meanwhile message.transfer_id cancel_patch)
  unfolding call_patch_transfer at_transfers
  patch-Kept =
      remote-Kept (λ w. at_transfers (patch_transfer message.transfer_id w.clock cancel_patch) w)
        (λ w p. λ j u. rw patch_refused (p j u))

  listing-Kept :
      Keeping
        (KeptOrExpired old)
        (call_update_listing meanwhile message.listing_id (set_status active))
  unfolding call_update_listing at_listings
  listing-Kept =
      remote-Kept (at_listings (update_listing message.listing_id (set_status active))) (λ w p. p)

  when_stuck-Kept : (b : Bool) → Keeping (KeptOrExpired old) (when_stuck meanwhile message b)
  unfolding when_stuck cancel_stuck
  when_stuck-Kept true = Triple-bind (Triple-ignore patch-Kept) (λ _. Triple-ignore listing-Kept)
  when_stuck-Kept false = Triple-pure tt

  on_reply-Kept : (r : Result Transfer) → Keeping (KeptOrExpired old) (on_reply meanwhile message r)
  unfolding on_reply
  on_reply-Kept (err c) = Triple-pure tt
  on_reply-Kept (ok t) = when_stuck-Kept (is_stuck t.status)

-- A timeout message cancels no transfer: if other requests leave each transfer as it was or
-- expired, so does the consumer, whatever message it gets and whichever of its calls go through.
pub timeout_cancels_nothing :
    {A : Type 0} (meanwhile : ℕ → World A → World A) (message : TimeoutMessage)
    (old : Table Transfer) (w : World A)
    → ((n : ℕ) (v : World A) → KeptOrExpired old v → KeptOrExpired old (meanwhile n v))
    → KeptOrExpired old w
    → KeptOrExpired old (on_timeout_message meanwhile message w).1
unfolding on_timeout_message
timeout_cancels_nothing meanwhile message old w keeps h =
    let w₁ = call_get_transfer meanwhile message.transfer_id w in
    after_run _ (on_reply-Kept old meanwhile keeps message w₁.0) w₁.1
      (after_run _ (get-Kept old meanwhile keeps message message.transfer_id) w h)

-- Alone and with every call delivered, the consumer answers a message about a transfer that is
-- stuck and within its time by making the listing active again, and the transfer stays as it was.
pub timeout_reactivates :
    {A : Type 0} (message : TimeoutMessage) (w : World A) (t : Transfer) (l : Listing)
    → w.fates ≡ []
    → lookup message.transfer_id w.transfers ≡ some t
    → is_stuck t.status ≡ true
    → expires_now t w.clock ≡ false
    → lookup message.listing_id w.listings ≡ some l
    → ((on_timeout_message (λ n v. v) message w).1.transfers ≡ w.transfers)
      × ((on_timeout_message (λ n v. v) message w).1.listings
          ≡ insert message.listing_id (record l { status = active }) w.listings)
unfolding on_timeout_message on_reply call_get_transfer remote arrive next_fate spend_fate meet
    at_transfers get_transfer get_found
timeout_reactivates message w t l no_fates at stuck now at_l =
    rw (no_fates, at, now, stuck)
      (unfold when_stuck cancel_stuck call_patch_transfer call_update_listing remote arrive
          next_fate spend_fate meet at_transfers at_listings patch_transfer cancel_patch is_empty
          update_listing update_found is_allowed in
        rw at_l (refl, refl))
