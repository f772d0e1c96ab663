-- ===== src/Transfer/Sequence.antt =====
-- The writing routes of the transfer orchestrator as requests, one after the other.
use ticketremaster_b.Base.{ℕ, ◌≡◌, Bool, true, Option, some, List, [], ◌∷◌}
use ticketremaster_b.World.Model.{World, CreditService}
use ticketremaster_b.Transfer.Gate.{Gate}
use ticketremaster_b.Transfer.Routes.{
  OtpService, initiate, buyer_verify, seller_accept, seller_reject, seller_verify, resend_otp,
  cancel_transfer,
}

-- A request with the user of its token; see the routes for the other arguments.
pub data TransferRequest : Type 0 where
  initiating : (user_id uuid : ℕ) → Bool → Option ℕ → TransferRequest
  buyer_verifying : (user_id transfer_id : ℕ) → Option ℕ → TransferRequest
  seller_accepting : (user_id transfer_id : ℕ) → TransferRequest
  seller_rejecting : (user_id transfer_id : ℕ) → TransferRequest
  seller_verifying : Bool → (user_id transfer_id : ℕ) → Option ℕ → TransferRequest
  resending : (user_id transfer_id : ℕ) → TransferRequest
  cancelling : (user_id transfer_id : ℕ) → TransferRequest

module _ {A : Type 0} (C : CreditService A) (otp : OtpService)
    (meanwhile : ℕ → World A → World A) where
  -- The world after a request.
  unfoldable pub serve : TransferRequest → World A → World A
  serve (initiating user uuid published listing) w =
      (initiate C otp meanwhile user uuid published listing w).1
  serve (buyer_verifying user k code) w = (buyer_verify C otp meanwhile user k code w).1
  serve (seller_accepting user k) w = (seller_accept C otp meanwhile user k w).1
  serve (seller_rejecting user k) w = (seller_reject C otp meanwhile user k w).1
  serve (seller_verifying up user k code) w = (seller_verify C otp meanwhile up user k code w).1
  serve (resending user k) w = (resend_otp C otp meanwhile user k w).1
  serve (cancelling user k) w = (cancel_transfer C otp meanwhile user k w).1

  unfoldable pub serve_all : List TransferRequest → World A → World A
  serve_all [] w = w
  serve_all (r ∷ rest) w = serve_all rest (serve r w)

-- `Right` holds of a transfer for which a request of `buyer_verify` gives a code that the provider
-- accepts.
abbrev pub Grants : OtpService → (ℕ → Type 0) → TransferRequest → Type 0
Grants otp Right (buyer_verifying user k body) =
    (code sid n phone : ℕ) → body ≡ some code → otp.verify n sid code phone ≡ some true → Right k
Grants otp Right (initiating user uuid published listing) = Unit
Grants otp Right (seller_accepting user k) = Unit
Grants otp Right (seller_rejecting user k) = Unit
Grants otp Right (seller_verifying up user k code) = Unit
Grants otp Right (resending user k) = Unit
Grants otp Right (cancelling user k) = Unit

abbrev pub AllGrant : OtpService → (ℕ → Type 0) → List TransferRequest → Type 0
AllGrant otp Right [] = Unit
AllGrant otp Right (r ∷ rest) = Grants otp Right r × AllGrant otp Right rest
