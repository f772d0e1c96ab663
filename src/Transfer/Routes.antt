-- ===== src/Transfer/Routes.antt =====
-- The routes of orchestrators/transfer-orchestrator/routes.py that write, up to their answers; what
-- they tell the notification service, and what they read only to decorate an answer, is left out.
-- The OTP wrapper and the provider behind it are a parameter.
use ticketremaster_b.Base.{
  ℕ, Bool, true, false, Option, none, some, ◌∷◌, ◌&&◌, ◌||◌, not, ◌==◌, if◌then◌else◌,
}
use ticketremaster_b.Base.Int.{ltb_ℤ}
use ticketremaster_b.Web.{
  Code, ok, err, validation_error, service_unavailable, internal_error, auth_forbidden,
  listing_not_found, transfer_not_found, insufficient_credits,
}
use ticketremaster_b.Services.Listings
use ticketremaster_b.Services.Tickets
use ticketremaster_b.Services.Listings.{Listing, ListingStatus, is_active}
use ticketremaster_b.Services.Tickets.{TicketPatch, TicketStatus}
use ticketremaster_b.Services.Transfers.{
  Transfer, TransferStatus, NewTransfer, TransferPatch, no_patch, set_status,
  pending_seller_acceptance, pending_buyer_otp, pending_seller_otp, completed, cancelled, failed,
}
use ticketremaster_b.World.Model.{
  World, TimeoutMessage, CreditService, CreditReply, get_credit_balance, Action, pure, fail,
  failing, catch, ignore, ◌>>=◌, ◌>>◌, require,
}
use ticketremaster_b.World.Calls.{
  arrive, call_get_listing, call_get_transfer, call_create_transfer, call_patch_transfer,
  call_update_listing, call_update_ticket, call_get_user, credit_get,
}
use ticketremaster_b.Transfer.Saga.{SagaRequest, execute_saga}

-- POST /otp/send and /otp/verify as they answer the n-th call: the sid for a phone number, and
-- whether the code for a sid and a phone number is right; `none` is an error.
pub record OtpService : Type 0 where
  pub send : ℕ → ℕ → Option ℕ
  pub verify : ℕ → ℕ → ℕ → ℕ → Option Bool

-- A field of the body that has to be there, or a state that has to hold.
unfoldable pub given : {A B : Type 0} → Option B → Code → Action A B
given none c = fail c
given (some b) c = pure b

unfoldable pub is_pending_buyer_otp : TransferStatus → Bool
is_pending_buyer_otp pending_buyer_otp = true
is_pending_buyer_otp _ = false

unfoldable pub is_pending_seller_otp : TransferStatus → Bool
is_pending_seller_otp pending_seller_otp = true
is_pending_seller_otp _ = false

unfoldable pub is_pending_seller_acceptance : TransferStatus → Bool
is_pending_seller_acceptance pending_seller_acceptance = true
is_pending_seller_acceptance _ = false

-- `status == "completed"`, or `status in ("cancelled", "failed")`
unfoldable pub is_over : TransferStatus → Bool
is_over completed = true
is_over cancelled = true
is_over failed = true
is_over _ = false

-- The sid against which `buyer_verify` checks the code, if it may.
unfoldable pub awaited_buyer_sid : Transfer → Option ℕ
awaited_buyer_sid t =
    if is_pending_buyer_otp t.status && not t.buyer_otp_verified
    then t.buyer_verification_sid
    else none

-- The sid against which `seller_verify` checks the code, if it may.
unfoldable pub awaited_seller_sid : Transfer → Option ℕ
awaited_seller_sid t =
    if is_pending_seller_otp t.status && not t.seller_otp_verified && t.buyer_otp_verified
    then t.seller_verification_sid
    else none

abbrev pub buyer_verified : TransferPatch
buyer_verified = record no_patch { buyer_otp_verified = some true }

abbrev pub seller_verified : TransferPatch
seller_verified = record no_patch { seller_otp_verified = some true }

abbrev pub to_pending_buyer : ℕ → TransferPatch
to_pending_buyer sid = record no_patch {
  status = some pending_buyer_otp;
  buyer_verification_sid = some sid;
}

abbrev pub to_pending_seller : ℕ → TransferPatch
to_pending_seller sid = record no_patch {
  status = some pending_seller_otp;
  buyer_otp_verified = some true;
  seller_verification_sid = some sid;
}

abbrev pub relisted : TicketPatch
relisted = record Tickets.no_patch { status = some TicketStatus.listed }

abbrev pub ticket_of : Option Listing → Option ℕ
ticket_of none = none
ticket_of (some l) = some l.ticket_id

-- The arguments of the saga, from what `seller_verify` has read.
unfoldable pub saga_request :
    ℕ → Transfer → Option Listing → CreditReply → CreditReply → SagaRequest
saga_request transfer_id t listing buyer seller = record {
  transfer_id = transfer_id;
  buyer_id = t.buyer_id;
  seller_id = t.seller_id;
  credit_amount = t.credit_amount;
  ticket_id = ticket_of listing;
  listing_id = t.listing_id;
  buyer_balance = get_credit_balance buyer;
  seller_balance = get_credit_balance seller;
}

-- The body of POST /transfers that `initiate` sends.
unfoldable pub request_of : ℕ → ℕ → Listing → NewTransfer
request_of user_id listing_id listing = record {
  listing_id = listing_id;
  buyer_id = user_id;
  seller_id = listing.seller_id;
  credit_amount = listing.price;
  buyer_verification_sid = none;
  seller_verification_sid = none;
}

module _ {A : Type 0} (C : CreditService A) (otp : OtpService)
    (meanwhile : ℕ → World A → World A) where
  unfoldable pub otp_send : ℕ → Action A ℕ
  otp_send phone w =
      let sid = otp.send w.calls phone in
      (elim sid [ some s ↦ ok s | none ↦ err service_unavailable ], arrive meanwhile w)

  -- `if err or not verify.get("verified")`
  unfoldable pub otp_check : ℕ → ℕ → ℕ → Action A (Unit {0})
  otp_check sid code phone w = (
    elim (otp.verify w.calls sid code phone) [ some true ↦ ok tt | _ ↦ err validation_error ],
    arrive meanwhile w,
  )

  -- a user's phone, and an OTP sent to it
  unfoldable pub send_to_user : ℕ → Action A ℕ
  send_to_user user_id = do
    u ← failing service_unavailable (call_get_user meanwhile user_id)
    failing service_unavailable (otp_send u.phone_number)

  -- a user's code for a sid
  unfoldable pub check_user : ℕ → ℕ → ℕ → Action A (Unit {0})
  check_user user_id sid code = do
    u ← failing service_unavailable (call_get_user meanwhile user_id)
    otp_check sid code u.phone_number

  unfoldable pub read_transfer : ℕ → Action A Transfer
  read_transfer transfer_id = failing transfer_not_found (call_get_transfer meanwhile transfer_id)

  -- `_publish_transfer_timeout`; `published` is whether one of the three attempts goes through
  unfoldable pub publish_transfer_timeout : Bool → TimeoutMessage → Action A (Unit {0})
  publish_transfer_timeout published message w =
      (ok tt, if published then record w { timeouts = message ∷ w.timeouts } else w)

  -- `LISTING_NOT_FOUND`, or any other error
  unfoldable pub listing_error : Code → Action A Listing
  listing_error listing_not_found = fail listing_not_found
  listing_error _ = fail service_unavailable

  unfoldable pub initiate_on : ℕ → ℕ → ℕ → Bool → Listing → Action A ℕ
  initiate_on user_id listing_id uuid published listing = do
    require (is_active listing.status) listing_not_found
    require (not (listing.seller_id == user_id)) auth_forbidden
    credit ← failing service_unavailable (credit_get meanwhile C user_id)
    require (not (ltb_ℤ (get_credit_balance credit) listing.price)) insufficient_credits
    transfer_id ←
        failing internal_error
          (call_create_transfer meanwhile uuid (request_of user_id listing_id listing))
    sid ← send_to_user user_id
    ignore (call_patch_transfer meanwhile transfer_id (to_pending_buyer sid))
    publish_transfer_timeout published
        (record { transfer_id = transfer_id; listing_id = listing_id })
    pure transfer_id

  -- `initiate`, with `uuid4` of the transfer service
  unfoldable pub initiate : ℕ → ℕ → Bool → Option ℕ → Action A ℕ
  initiate user_id uuid published listing = do
    listing_id ← given listing validation_error
    l ← catch (call_get_listing meanwhile listing_id) listing_error
    initiate_on user_id listing_id uuid published l

  -- What follows a right code of the buyer.
  unfoldable pub pass_to_seller : ℕ → Transfer → Action A (Unit {0})
  pass_to_seller transfer_id t = do
    ignore (call_patch_transfer meanwhile transfer_id buyer_verified)
    sid ← send_to_user t.seller_id
    ignore (call_patch_transfer meanwhile transfer_id (to_pending_seller sid))

  -- `buyer_verify`
  unfoldable pub buyer_verify : ℕ → ℕ → Option ℕ → Action A (Unit {0})
  buyer_verify user_id transfer_id body = do
    code ← given body validation_error
    t ← read_transfer transfer_id
    require (t.buyer_id == user_id) auth_forbidden
    sid ← given (awaited_buyer_sid t) validation_error
    check_user t.buyer_id sid code
    pass_to_seller transfer_id t

  -- `seller_accept`
  unfoldable pub seller_accept : ℕ → ℕ → Action A (Unit {0})
  seller_accept user_id transfer_id = do
    t ← read_transfer transfer_id
    require (t.seller_id == user_id) auth_forbidden
    require (is_pending_seller_acceptance t.status) validation_error
    sid ← send_to_user t.buyer_id
    ignore (call_patch_transfer meanwhile transfer_id (to_pending_buyer sid))

  unfoldable pub reopen_found : ℕ → Listing → Action A (Unit {0})
  reopen_found listing_id l = do
    ignore (call_update_listing meanwhile listing_id (Listings.set_status ListingStatus.active))
    ignore (call_update_ticket meanwhile l.ticket_id relisted)

  -- The transfer is cancelled; then, if the listing is found, it is active and its ticket listed.
  unfoldable pub call_off : ℕ → Transfer → Action A (Unit {0})
  call_off transfer_id t = do
    ignore (call_patch_transfer meanwhile transfer_id (set_status cancelled))
    ignore (call_get_listing meanwhile t.listing_id >>= reopen_found t.listing_id)

  -- `seller_reject`
  unfoldable pub seller_reject : ℕ → ℕ → Action A (Unit {0})
  seller_reject user_id transfer_id = do
    t ← read_transfer transfer_id
    require (t.seller_id == user_id) auth_forbidden
    require (is_pending_seller_acceptance t.status) validation_error
    call_off transfer_id t

  -- `cancel_transfer`
  unfoldable pub cancel_transfer : ℕ → ℕ → Action A (Unit {0})
  cancel_transfer user_id transfer_id = do
    t ← read_transfer transfer_id
    require (t.buyer_id == user_id || t.seller_id == user_id) auth_forbidden
    require (not (is_over t.status)) validation_error
    call_off transfer_id t

  unfoldable pub resend_to : ℕ → ℕ → Transfer → Action A (Unit {0})
  resend_to user_id transfer_id t =
      if is_pending_buyer_otp t.status && t.buyer_id == user_id
      then (send_to_user t.buyer_id >>= λ sid. ignore (
          call_patch_transfer meanwhile transfer_id
            (record no_patch { buyer_verification_sid = some sid })))
      else if is_pending_seller_otp t.status && t.seller_id == user_id
      then (send_to_user t.seller_id >>= λ sid. ignore (
          call_patch_transfer meanwhile transfer_id
            (record no_patch { seller_verification_sid = some sid })))
      else fail validation_error

  -- `resend_otp`
  unfoldable pub resend_otp : ℕ → ℕ → Action A (Unit {0})
  resend_otp user_id transfer_id = do
    t ← read_transfer transfer_id
    require (t.buyer_id == user_id || t.seller_id == user_id) auth_forbidden
    resend_to user_id transfer_id t

  -- `_` for the error: the value, if any.
  unfoldable pub if_found : {B : Type 0} → Action A B → Action A (Option B)
  if_found m w = let (r, w') = m w in (elim r [ ok b ↦ ok (some b) | err c ↦ ok none ], w')

  -- The transfer is marked as failed before the error is answered.
  unfoldable pub fail_transfer : {B : Type 0} → ℕ → Code → Action A B
  fail_transfer transfer_id c =
      ignore (call_patch_transfer meanwhile transfer_id (set_status failed)) >> fail c

  unfoldable pub require_credits : ℕ → Bool → Action A (Unit {0})
  require_credits transfer_id true = pure tt
  require_credits transfer_id false = fail_transfer transfer_id insufficient_credits

  -- What follows a right code of the seller.
  unfoldable pub settle : Bool → ℕ → Transfer → Action A (Unit {0})
  settle dead_letter_up transfer_id t = do
    ignore (call_patch_transfer meanwhile transfer_id seller_verified)
    listing ← if_found (call_get_listing meanwhile t.listing_id)
    buyer ←
        catch (credit_get meanwhile C t.buyer_id)
          (λ _. fail_transfer transfer_id service_unavailable)
    require_credits transfer_id (not (ltb_ℤ (get_credit_balance buyer) t.credit_amount))
    seller ← failing service_unavailable (credit_get meanwhile C t.seller_id)
    failing internal_error
        (execute_saga C meanwhile (saga_request transfer_id t listing buyer seller) dead_letter_up)

  -- `seller_verify`
  unfoldable pub seller_verify : Bool → ℕ → ℕ → Option ℕ → Action A (Unit {0})
  seller_verify dead_letter_up user_id transfer_id body = do
    code ← given body validation_error
    t ← read_transfer transfer_id
    require (t.seller_id == user_id) auth_forbidden
    sid ← given (awaited_seller_sid t) validation_error
    check_user t.seller_id sid code
    settle dead_letter_up transfer_id t
