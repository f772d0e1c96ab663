-- ===== src/Transfer/GateCalls.antt =====
-- The calls of the transfer orchestrator under the statement on the buyer's code.
use ticketremaster_b.Base.{ℕ, ◌≡◌, refl, true, false, Bool, Option, none, some, List}
use ticketremaster_b.Base.Int.{ℤ}
use ticketremaster_b.Web.{
  Result, ok, err, validation_error, transfer_not_found, service_unavailable,
}
use ticketremaster_b.Services.Tickets.{TicketPatch}
use ticketremaster_b.Services.Listings.{ListingPatch}
use ticketremaster_b.Services.Transfers.{Transfer, NewTransfer, TransferPatch, get_transfer}
use ticketremaster_b.Services.Ledger.{CreditTransaction}
use ticketremaster_b.World.Model.{World, CreditService}
use ticketremaster_b.World.Calls.{
  arrive, call_get_listing, call_update_ticket, call_update_listing, call_get_user,
  call_create_transaction, call_reverse_transaction, call_patch_transfer, call_get_transfer,
  call_create_transfer, credit_get, credit_patch, at_tickets, at_listings, at_transfers, at_ledger,
}
use ticketremaster_b.World.Hoare.{Ends, Triple, Triple-bind, Triple-remote, Triple-failing, Keeping}
use ticketremaster_b.World.Frame.{Arrives, Keeping-remote, Keeping-of, transfers-Arrives}
use ticketremaster_b.Transfer.Gate.{Gate, KeepsCode, patch-Gate, get-Gate, shown-Gate, create-Gate}
use ticketremaster_b.Transfer.Routes.{
  OtpService, read_transfer, otp_send, send_to_user, otp_check, check_user,
}

abbrev pub Gated : {A : Type 0} → (ℕ → Type 0) → Option ℕ → World A → Type 0
Gated Right o w = Gate Right o w.transfers

-- What other requests do between the calls keeps the statement, whatever transfer has its code.
pub record Rely {A : Type 0} (Right : ℕ → Type 0) (meanwhile : ℕ → World A → World A) : Type 0 where
  pub keeps :
      (o : Option ℕ) (n : ℕ) (w : World A)
      → Gate Right o w.transfers
      → Gate Right o (meanwhile n w).transfers

module _ {A : Type 0} {Right : ℕ → Type 0} (C : CreditService A) (otp : OtpService)
    (meanwhile : ℕ → World A → World A) (rely : Rely Right meanwhile) where
  module _ (o : Option ℕ) where
    pub gate-Arrives : Arrives meanwhile (Gated Right o)
    gate-Arrives = transfers-Arrives (Gate Right o) (rely.keeps o)

    arrive-Gate : (w : World A) → Gated Right o w → Gated Right o (arrive meanwhile w)
    unfolding arrive
    arrive-Gate w g = rely.keeps o w.calls (record w { calls = _ }) g

    pub get_listing-Gate : (k : ℕ) → Keeping (Gated Right o) (call_get_listing meanwhile k)
    unfolding call_get_listing
    get_listing-Gate k = Keeping-remote _ gate-Arrives (λ w g. g)

    pub update_listing-Gate :
        (k : ℕ) (p : ListingPatch) → Keeping (Gated Right o) (call_update_listing meanwhile k p)
    unfolding call_update_listing at_listings
    update_listing-Gate k p = Keeping-remote _ gate-Arrives (λ w g. g)

    pub update_ticket-Gate :
        (k : ℕ) (p : TicketPatch) → Keeping (Gated Right o) (call_update_ticket meanwhile k p)
    unfolding call_update_ticket at_tickets
    update_ticket-Gate k p = Keeping-remote _ gate-Arrives (λ w g. g)

    pub get_user-Gate : (k : ℕ) → Keeping (Gated Right o) (call_get_user meanwhile k)
    unfolding call_get_user
    get_user-Gate k = Keeping-remote _ gate-Arrives (λ w g. g)

    pub log-Gate :
        (t : CreditTransaction) → Keeping (Gated Right o) (call_create_transaction meanwhile t)
    unfolding call_create_transaction at_ledger
    log-Gate t = Keeping-remote _ gate-Arrives (λ w g. g)

    pub reverse-Gate : (k : ℕ) → Keeping (Gated Right o) (call_reverse_transaction meanwhile k)
    unfolding call_reverse_transaction
    reverse-Gate k = Keeping-remote _ gate-Arrives (λ w g. g)

    pub patch_transfer-Gate :
        (k : ℕ) (p : TransferPatch)
        → KeepsCode Right o k p
        → Keeping (Gated Right o) (call_patch_transfer meanwhile k p)
    unfolding call_patch_transfer at_transfers
    patch_transfer-Gate k p c =
        Keeping-remote _ gate-Arrives (λ w g. patch-Gate o k w.clock p w.transfers c g)

    pub credit_get-Gate : (user : ℕ) → Keeping (Gated Right o) (credit_get meanwhile C user)
    unfolding credit_get
    credit_get-Gate user = Keeping-of (credit_get meanwhile C user) (λ w g. arrive-Gate w g)

    pub credit_patch-Gate :
        (user : ℕ) (v : ℤ) → Keeping (Gated Right o) (credit_patch meanwhile C user v)
    unfolding credit_patch
    credit_patch-Gate user v = Keeping-of (credit_patch meanwhile C user v) (λ w g. arrive-Gate w g)

    otp_send-Gate : (phone : ℕ) → Keeping (Gated Right o) (otp_send C otp meanwhile phone)
    unfolding otp_send
    otp_send-Gate phone = Keeping-of (otp_send C otp meanwhile phone) (λ w g. arrive-Gate w g)

    otp_check-Gate :
        (sid code phone : ℕ) → Keeping (Gated Right o) (otp_check C otp meanwhile sid code phone)
    unfolding otp_check
    otp_check-Gate sid code phone =
        Keeping-of (otp_check C otp meanwhile sid code phone) (λ w g. arrive-Gate w g)

    pub send_to_user-Gate : (k : ℕ) → Keeping (Gated Right o) (send_to_user C otp meanwhile k)
    unfolding send_to_user
    send_to_user-Gate k =
        Triple-bind (Triple-failing service_unavailable (get_user-Gate k))
          λ u. Triple-failing service_unavailable (otp_send-Gate u.phone_number)

    pub check_user-Gate :
        (k sid code : ℕ) → Keeping (Gated Right o) (check_user C otp meanwhile k sid code)
    unfolding check_user
    check_user-Gate k sid code =
        Triple-bind (Triple-failing service_unavailable (get_user-Gate k))
          λ u. otp_check-Gate sid code u.phone_number

  -- The provider has accepted this code for this sid.
  abbrev pub Accepted : ℕ → ℕ → Type 0
  Accepted sid code = (n : ℕ) × (phone : ℕ) × (otp.verify n sid code phone ≡ some true)

  otp_check-Accepted :
      (sid code phone : ℕ)
      → Triple
          (Gated Right none)
          (otp_check C otp meanwhile sid code phone)
          (λ _ w. Gated Right none w × Accepted sid code)
          (Gated Right none)
  unfolding otp_check
  otp_check-Accepted sid code phone = record {
    run = λ w g. by_answer w (otp.verify w.calls sid code phone) refl (arrive-Gate none w g);
  }
    where
      by_answer :
          (w : World A) (answer : Option Bool)
          → otp.verify w.calls sid code phone ≡ answer
          → Gated Right none (arrive meanwhile w)
          → Ends
              (λ (_ : Unit {0}) v. Gated Right none v × Accepted sid code)
              (Gated Right none)
              (elim answer [ some true ↦ ok tt | _ ↦ err validation_error ], arrive meanwhile w)
      by_answer w none e g = g
      by_answer w (some true) e g = (g, (w.calls, phone, e))
      by_answer w (some false) e g = g

  pub check_user-Accepted :
      (k sid code : ℕ)
      → Triple
          (Gated Right none)
          (check_user C otp meanwhile k sid code)
          (λ _ w. Gated Right none w × Accepted sid code)
          (Gated Right none)
  unfolding check_user
  check_user-Accepted k sid code =
      Triple-bind (Triple-failing service_unavailable (get_user-Gate none k))
        λ u. otp_check-Accepted sid code u.phone_number

  pub create_transfer-Gate :
      (k : ℕ) (body : NewTransfer)
      → Keeping (Gated Right none) (call_create_transfer meanwhile k body)
  unfolding call_create_transfer at_transfers
  create_transfer-Gate k body =
      Keeping-remote _ (gate-Arrives none) (λ w g. create-Gate k w.clock (some body) w.transfers g)

  -- What is known once the transfer was read.
  abbrev pub Shown : ℕ → Transfer → World A → Type 0
  Shown k t w = Gated Right none w × (t.buyer_otp_verified ≡ true → Gated Right (some k) w)

  get-Ends :
      (k : ℕ) (w : World A)
      → Gated Right none w
      → Ends (Shown k) (Gated Right none) (at_transfers (get_transfer k w.clock) w)
  unfolding at_transfers
  get-Ends k w g =
      by_reply (get_transfer k w.clock w.transfers) (get-Gate none k w.clock w.transfers g)
        (λ t e v. shown-Gate k w.clock w.transfers t g e v)
    where
      by_reply :
          (r : Result Transfer × List (ℕ × Transfer))
          → Gate Right none r.1
          → ((t : Transfer) → r.0 ≡ ok t → t.buyer_otp_verified ≡ true → Gate Right (some k) r.1)
          → Ends (Shown k) (Gated Right none) (r.0, record w { transfers = r.1 })
      by_reply (ok t, rows) h f = (h, f t refl)
      by_reply (err c, rows) h f = h

  pub read_transfer-Shown :
      (k : ℕ)
      → Triple (Gated Right none) (read_transfer C otp meanwhile k) (Shown k) (Gated Right none)
  unfolding read_transfer call_get_transfer
  read_transfer-Shown k = Triple-failing transfer_not_found (
      Triple-remote meanwhile (gate-Arrives none).served (λ w g. g) (λ t w h. h.0)
        (record { run = λ w g. get-Ends k w g }))
