-- ===== src/Transfer/GateRoutes.antt =====
-- The routes of the transfer orchestrator under the statement on the buyer's code.
use ticketremaster_b.Base.{
  ℕ, ◌≡◌, refl, true, false, Bool, Option, none, some, ◌||◌, ◌&&◌, not, arith, ◌==◌, if-cases,
}
use ticketremaster_b.Base.Int.{ltb_ℤ}
use ticketremaster_b.Web.{
  Code, validation_error, auth_forbidden, listing_not_found, service_unavailable, internal_error,
  insufficient_credits,
}
use ticketremaster_b.Services.Listings.{Listing, is_active}
use ticketremaster_b.Services.Transfers.{Transfer, TransferPatch, set_status, failed}
use ticketremaster_b.World.Model.{
  World, TimeoutMessage, Action, CreditService, require, get_credit_balance, ignore, ◌>>=◌, ◌>>◌,
}
use ticketremaster_b.World.Calls.{call_patch_transfer}
use ticketremaster_b.World.Hoare.{
  Triple, Triple-bind, Triple-ignore, Triple-pure, Triple-fail, Triple-catch, Triple-failing,
  Triple-require, Triple-weaken, Keeping,
}
use ticketremaster_b.World.Frame.{Keeping-of, after}
use ticketremaster_b.Transfer.Gate.{Gate-forget, KeepsCode}
use ticketremaster_b.Transfer.GateCalls.{
  Gated, Rely, Shown, get_listing-Gate, update_listing-Gate, update_ticket-Gate,
  patch_transfer-Gate, credit_get-Gate, send_to_user-Gate, check_user-Gate, check_user-Accepted,
  Accepted, create_transfer-Gate, read_transfer-Shown,
}
use ticketremaster_b.Transfer.GateSaga.{
  failed-KeepsCode, cancelled-KeepsCode, buyer_verified-KeepsCode, seller_verified-KeepsCode,
  to_pending_buyer-KeepsCode, to_pending_seller-KeepsCode, new_buyer_sid-KeepsCode,
  new_seller_sid-KeepsCode, execute_saga-Gate,
}
use ticketremaster_b.Transfer.Routes.{
  OtpService, given, saga_request, request_of, relisted, buyer_verified, seller_verified,
  to_pending_buyer, to_pending_seller, is_pending_buyer_otp, is_pending_seller_otp,
  is_pending_seller_acceptance, is_over, awaited_buyer_sid, awaited_seller_sid,
  publish_transfer_timeout, listing_error, initiate_on, initiate, send_to_user, check_user,
  pass_to_seller, buyer_verify, seller_accept, reopen_found, call_off, seller_reject,
  cancel_transfer, resend_to, resend_otp, if_found, fail_transfer, require_credits, settle,
  seller_verify,
}

module _ {A B : Type 0} {P E : World A → Type 0} where
  -- After `given` one knows what was there.
  given-Triple :
      (o : Option B) (c : Code)
      → ((w : World A) → P w → E w)
      → Triple P (given o c) (λ b w. P w × (o ≡ some b)) E
  unfolding given
  given-Triple none c h = record { run = λ w p. h w p }
  given-Triple (some b) c h = record { run = λ w p. (p, refl) }

module _ {A B D : Type 0} {P E : World A → Type 0} {R : D → World A → Type 0} where
  given_then :
      (o : Option B) (c : Code) {m : B → Action A D}
      → ((w : World A) → P w → E w)
      → ((b : B) → o ≡ some b → Triple P (m b) R E)
      → Triple P (given o c >>= m) R E
  given_then o c forget h =
      Triple-bind (given-Triple o c forget) λ b. record { run = λ w p. (h b p.1).run w p.0 }

awaited_verified :
    (t : Transfer) (sid : ℕ) → awaited_seller_sid t ≡ some sid → t.buyer_otp_verified ≡ true
unfolding awaited_seller_sid
awaited_verified t sid e = ground arith

module _ {A : Type 0} {Right : ℕ → Type 0} (C : CreditService A) (otp : OtpService)
    (meanwhile : ℕ → World A → World A) (rely : Rely Right meanwhile) where
  abbrev N : World A → Type 0
  N w = Gated Right none w

  -- A test, and the rest where it passed.
  tested :
      {B : Type 0} {P : World A → Type 0} (b : Bool) (c : Code) {m : Action A B}
      → ((w : World A) → P w → N w)
      → Triple P m (λ _ w. N w) N
      → Triple P (require b c >> m) (λ _ w. N w) N
  tested b c forget t =
      Triple-bind (Triple-require b c forget) λ _. record { run = λ w p. t.run w p.0 }

  shown : {k : ℕ} (t : Transfer) (w : World A) → Shown C otp meanwhile rely k t w → N w
  shown t w h = h.0

  -- What writes with the knowledge of N alone.
  from_Shown :
      {B : Type 0} {k : ℕ} (t : Transfer) {m : Action A B}
      → Keeping N m
      → Triple (Shown C otp meanwhile rely k t) m (λ _ w. N w) N
  from_Shown t h = record { run = λ w p. h.run w p.0 }

  reopen-Gate : (k : ℕ) (l : Listing) → Keeping N (reopen_found C otp meanwhile k l)
  unfolding reopen_found
  reopen-Gate k l =
      Triple-bind (Triple-ignore (update_listing-Gate C otp meanwhile rely none k _))
        λ _. Triple-ignore (update_ticket-Gate C otp meanwhile rely none l.ticket_id relisted)

  call_off-Gate : (k : ℕ) (t : Transfer) → Keeping N (call_off C otp meanwhile k t)
  unfolding call_off
  call_off-Gate k t =
      Triple-bind
        (Triple-ignore
          (patch_transfer-Gate C otp meanwhile rely none k _ (cancelled-KeepsCode none k)))
        λ _. Triple-ignore (
          Triple-bind (get_listing-Gate C otp meanwhile rely none t.listing_id)
            λ l. reopen-Gate t.listing_id l)

  pub seller_accept-Gate : (user k : ℕ) → Keeping N (seller_accept C otp meanwhile user k)
  unfolding seller_accept
  seller_accept-Gate user k = Triple-bind (read_transfer-Shown C otp meanwhile rely k) λ t.
      tested (t.seller_id == user) auth_forbidden (shown t) (
        tested (is_pending_seller_acceptance t.status) validation_error (shown t) (
          from_Shown t (
            Triple-bind (send_to_user-Gate C otp meanwhile rely none t.buyer_id) λ sid.
              Triple-ignore (
                patch_transfer-Gate C otp meanwhile rely none k (to_pending_buyer sid)
                  (to_pending_buyer-KeepsCode none k sid)))))

  pub seller_reject-Gate : (user k : ℕ) → Keeping N (seller_reject C otp meanwhile user k)
  unfolding seller_reject
  seller_reject-Gate user k = Triple-bind (read_transfer-Shown C otp meanwhile rely k) λ t.
      tested (t.seller_id == user) auth_forbidden (shown t) (
        tested (is_pending_seller_acceptance t.status) validation_error (shown t)
          (from_Shown t (call_off-Gate k t)))

  pub cancel_transfer-Gate : (user k : ℕ) → Keeping N (cancel_transfer C otp meanwhile user k)
  unfolding cancel_transfer
  cancel_transfer-Gate user k = Triple-bind (read_transfer-Shown C otp meanwhile rely k) λ t.
      tested (t.buyer_id == user || t.seller_id == user) auth_forbidden (shown t) (
        tested (not (is_over t.status)) validation_error (shown t)
          (from_Shown t (call_off-Gate k t)))

  new_sid-Gate :
      (user k : ℕ) (p : ℕ → TransferPatch)
      → ((sid : ℕ) → KeepsCode Right none k (p sid))
      → Keeping N (
          send_to_user C otp meanwhile user >>= λ sid.
          ignore (call_patch_transfer meanwhile k (p sid)))
  new_sid-Gate user k p c =
      Triple-bind (send_to_user-Gate C otp meanwhile rely none user)
        λ sid. Triple-ignore (patch_transfer-Gate C otp meanwhile rely none k (p sid) (c sid))

  resend_to-Gate : (user k : ℕ) (t : Transfer) → Keeping N (resend_to C otp meanwhile user k t)
  unfolding resend_to
  resend_to-Gate user k t =
      if-cases (Keeping N) (is_pending_buyer_otp t.status && t.buyer_id == user) _ _
        (λ _. new_sid-Gate t.buyer_id k _ (new_buyer_sid-KeepsCode none k))
        (λ _.
          if-cases (Keeping N) (is_pending_seller_otp t.status && t.seller_id == user) _ _
            (λ _. new_sid-Gate t.seller_id k _ (new_seller_sid-KeepsCode none k))
            (λ _. Triple-fail validation_error (λ w g. g)))

  pub resend_otp-Gate : (user k : ℕ) → Keeping N (resend_otp C otp meanwhile user k)
  unfolding resend_otp
  resend_otp-Gate user k = Triple-bind (read_transfer-Shown C otp meanwhile rely k) λ t.
      tested (t.buyer_id == user || t.seller_id == user) auth_forbidden (shown t)
        (from_Shown t (resend_to-Gate user k t))

  pass_to_seller-Gate :
      (k : ℕ) (t : Transfer) → Right k → Keeping N (pass_to_seller C otp meanwhile k t)
  unfolding pass_to_seller
  pass_to_seller-Gate k t granted =
      Triple-bind
        (Triple-ignore (
          patch_transfer-Gate C otp meanwhile rely none k buyer_verified
            (buyer_verified-KeepsCode none k granted)))
        λ _.
          new_sid-Gate t.seller_id k to_pending_seller (to_pending_seller-KeepsCode none k granted)

  -- What follows the check of the buyer's code.
  passed_on-Gate :
      (k sid code : ℕ) (t : Transfer)
      → (Accepted C otp meanwhile rely sid code → Right k)
      → Keeping N
          (check_user C otp meanwhile t.buyer_id sid code >> pass_to_seller C otp meanwhile k t)
  passed_on-Gate k sid code t grants =
      Triple-bind (check_user-Accepted C otp meanwhile rely t.buyer_id sid code)
        λ _. record { run = λ w p. (pass_to_seller-Gate k t (grants p.1)).run w p.0 }

  pub buyer_verify-Gate :
      (user k : ℕ) (body : Option ℕ)
      → ((code sid n phone : ℕ)
          → body ≡ some code
          → otp.verify n sid code phone ≡ some true
          → Right k)
      → Keeping N (buyer_verify C otp meanwhile user k body)
  unfolding buyer_verify
  buyer_verify-Gate user k body grants =
      given_then body validation_error (λ w g. g)
        λ code here. Triple-bind (read_transfer-Shown C otp meanwhile rely k) λ t.
          tested (t.buyer_id == user) auth_forbidden (shown t) (
            given_then (awaited_buyer_sid t) validation_error (shown t) λ sid _. from_Shown t (
              passed_on-Gate k sid code t
                (λ a. let (n, phone, e) = a in grants code sid n phone here e)))

  module _ (k : ℕ) where
    abbrev K : World A → Type 0
    K w = Gated Right (some k) w

    fail-Gate : {B : Type 0} (c : Code) → Keeping K (fail_transfer C otp meanwhile {B = B} k c)
    unfolding fail_transfer
    fail-Gate c =
        Triple-bind
          (Triple-ignore (
            patch_transfer-Gate C otp meanwhile rely (some k) k (set_status failed)
              (failed-KeepsCode (some k) k)))
          λ _. Triple-fail c (λ w g. g)

    credits-Gate : (b : Bool) → Keeping K (require_credits C otp meanwhile k b)
    unfolding require_credits
    credits-Gate true = Triple-pure tt
    credits-Gate false = fail-Gate insufficient_credits

    found-Gate :
        {B : Type 0} {m : Action A B} → Keeping K m → Keeping K (if_found C otp meanwhile m)
    unfolding if_found
    found-Gate h = Keeping-of _ (λ w g. after h w g)

    settle-Gate : (up : Bool) (t : Transfer) → Keeping K (settle C otp meanwhile up k t)
    unfolding settle saga_request
    settle-Gate up t =
        Triple-bind
          (Triple-ignore (
            patch_transfer-Gate C otp meanwhile rely (some k) k seller_verified
              (seller_verified-KeepsCode (some k) k)))
          λ _.
            Triple-bind (found-Gate (get_listing-Gate C otp meanwhile rely (some k) t.listing_id))
              λ listing.
                Triple-bind
                  (Triple-catch (credit_get-Gate C otp meanwhile rely (some k) t.buyer_id)
                    (λ _. fail-Gate service_unavailable))
                  λ buyer.
                    Triple-bind
                      (credits-Gate (not (ltb_ℤ (get_credit_balance buyer) t.credit_amount)))
                      λ _.
                        Triple-bind
                          (Triple-failing service_unavailable
                            (credit_get-Gate C otp meanwhile rely (some k) t.seller_id))
                          λ seller. Triple-failing internal_error (
                            execute_saga-Gate C otp meanwhile rely
                              (saga_request k t listing buyer seller) up)

    checked_settle-Gate :
        (up : Bool) (t : Transfer) (sid code : ℕ)
        → Triple K
            (check_user C otp meanwhile t.seller_id sid code >> settle C otp meanwhile up k t)
            (λ _ w. N w)
            N
    checked_settle-Gate up t sid code =
        Triple-weaken
          (Triple-bind (check_user-Gate C otp meanwhile rely (some k) t.seller_id sid code)
            λ _. settle-Gate up t)
          (λ _ w g. Gate-forget g) (λ w g. Gate-forget g)

  pub seller_verify-Gate :
      (up : Bool) (user k : ℕ) (body : Option ℕ)
      → Keeping N (seller_verify C otp meanwhile up user k body)
  unfolding seller_verify
  seller_verify-Gate up user k body =
      given_then body validation_error (λ w g. g)
        λ code _. Triple-bind (read_transfer-Shown C otp meanwhile rely k) λ t.
          tested (t.seller_id == user) auth_forbidden (shown t) (
            given_then (awaited_seller_sid t) validation_error (shown t) λ sid e. record {
              run = λ w p.
                  (checked_settle-Gate k up t sid code).run w (p.1 (awaited_verified t sid e));
            })

  publish-Gate :
      (published : Bool) (message : TimeoutMessage)
      → Keeping N (publish_transfer_timeout C otp meanwhile published message)
  unfolding publish_transfer_timeout
  publish-Gate true message = record { run = λ w g. g }
  publish-Gate false message = record { run = λ w g. g }

  listing_error-Gate : (c : Code) → Keeping N (listing_error C otp meanwhile c)
  unfolding listing_error
  listing_error-Gate c = ground arith

  initiate_on-Gate :
      (user k uuid : ℕ) (published : Bool) (l : Listing)
      → Keeping N (initiate_on C otp meanwhile user k uuid published l)
  unfolding initiate_on
  initiate_on-Gate user k uuid published l =
      tested (is_active l.status) listing_not_found (λ w g. g)
        (tested (not (l.seller_id == user)) auth_forbidden (λ w g. g)
          (Triple-bind
            (Triple-failing service_unavailable (credit_get-Gate C otp meanwhile rely none user))
            λ credit.
              tested (not (ltb_ℤ (get_credit_balance credit) l.price)) insufficient_credits
                (λ w g. g)
                (Triple-bind
                  (Triple-failing internal_error
                    (create_transfer-Gate C otp meanwhile rely uuid (request_of user k l)))
                  λ id. Triple-bind (send_to_user-Gate C otp meanwhile rely none user) λ sid.
                    Triple-bind
                      (Triple-ignore (
                        patch_transfer-Gate C otp meanwhile rely none id (to_pending_buyer sid)
                          (to_pending_buyer-KeepsCode none id sid)))
                      λ _.
                        Triple-bind
                          (publish-Gate published (record { transfer_id = id; listing_id = k }))
                          λ _. Triple-pure id)))

  pub initiate-Gate :
      (user uuid : ℕ) (published : Bool) (listing : Option ℕ)
      → Keeping N (initiate C otp meanwhile user uuid published listing)
  unfolding initiate
  initiate-Gate user uuid published listing =
      given_then listing validation_error (λ w g. g)
        λ k _.
          Triple-bind
            (Triple-catch (get_listing-Gate C otp meanwhile rely none k) listing_error-Gate)
            λ l. initiate_on-Gate user k uuid published l
