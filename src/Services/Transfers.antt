-- ===== src/Services/Transfers.antt =====
-- services/transfer-service: models.py and routes.py.
use ticketremaster_b.Base.{
  ℕ, ◌+◌, ◌*◌, Bool, true, false, Option, none, some, ◌&&◌, ◌||◌, not, ltb, if◌then◌else◌,
}
use ticketremaster_b.Base.Int.{ℤ}
use ticketremaster_b.Base.Table.{Table, lookup, insert}
use ticketremaster_b.Web.{
  Result, ok, err, validation_error, transfer_not_found, transfer_expired, invalid_state, Stamp,
  null, unparsable, at,
}
use ticketremaster_b.Services.Tickets.{field_or}

pub data TransferStatus : Type 0 where
  pending_seller_acceptance seller_accepted pending_buyer_otp : TransferStatus
  buyer_otp_verified pending_seller_otp completed cancelled expired failed : TransferStatus
  other : ℕ → TransferStatus

-- `status in ('completed', 'cancelled', 'expired')`
unfoldable pub has_ended : TransferStatus → Bool
has_ended completed = true
has_ended cancelled = true
has_ended expired = true
has_ended _ = false

-- `class Transfer`, without its key and `createdAt`; `expiresAt` is not nullable
pub record Transfer : Type 0 where
  pub listing_id : ℕ
  pub buyer_id : ℕ
  pub seller_id : ℕ
  pub status : TransferStatus
  pub credit_amount : ℤ
  pub buyer_otp_verified : Bool
  pub seller_otp_verified : Bool
  pub buyer_verification_sid : Option ℕ
  pub seller_verification_sid : Option ℕ
  pub completed_at : Option ℕ
  pub expires_at : ℕ

-- `is_transfer_expired`
unfoldable pub is_transfer_expired : Transfer → ℕ → Bool
is_transfer_expired t now = ltb t.expires_at now

-- The guard of `get_transfer` and of `patch_transfer`.
unfoldable pub expires_now : Transfer → ℕ → Bool
expires_now t now = is_transfer_expired t now && not (has_ended t.status)

pub record NewTransfer : Type 0 where
  pub listing_id : ℕ
  pub buyer_id : ℕ
  pub seller_id : ℕ
  pub credit_amount : ℤ
  pub buyer_verification_sid : Option ℕ
  pub seller_verification_sid : Option ℕ

abbrev pub to_transfer : ℕ → NewTransfer → Transfer
to_transfer now body = record {
  listing_id = body.listing_id;
  buyer_id = body.buyer_id;
  seller_id = body.seller_id;
  status = pending_seller_acceptance;
  credit_amount = body.credit_amount;
  buyer_otp_verified = false;
  seller_otp_verified = false;
  buyer_verification_sid = body.buyer_verification_sid;
  seller_verification_sid = body.seller_verification_sid;
  completed_at = none;
  expires_at = now + 24 * 3600;
}

-- `create_transfer`, by `uuid4` and the clock
unfoldable pub create_transfer :
    ℕ → ℕ → Option NewTransfer → Table Transfer → Result ℕ × Table Transfer
create_transfer transfer_id now none transfers = (err validation_error, transfers)
create_transfer transfer_id now (some body) transfers =
    (ok transfer_id, insert transfer_id (to_transfer now body) transfers)

abbrev pub expire : Transfer → Transfer
expire t = record t { status = expired }

unfoldable pub get_found :
    ℕ → ℕ → Option Transfer → Table Transfer → Result Transfer × Table Transfer
get_found transfer_id now none transfers = (err transfer_not_found, transfers)
get_found transfer_id now (some t) transfers =
    if expires_now t now
    then (ok (expire t), insert transfer_id (expire t) transfers)
    else (ok t, transfers)

-- `get_transfer`, which writes the status of a transfer that it finds past its time
unfoldable pub get_transfer : ℕ → ℕ → Table Transfer → Result Transfer × Table Transfer
get_transfer transfer_id now transfers =
    get_found transfer_id now (lookup transfer_id transfers) transfers

-- The body of PATCH /transfers/<id>: the fields that it has.
pub record TransferPatch : Type 0 where
  pub status : Option TransferStatus
  pub buyer_otp_verified : Option Bool
  pub seller_otp_verified : Option Bool
  pub buyer_verification_sid : Option ℕ
  pub seller_verification_sid : Option ℕ
  pub completed_at : Option Stamp
  pub unsupported : Bool

abbrev pub no_patch : TransferPatch
no_patch = record {
  status = none;
  buyer_otp_verified = none;
  seller_otp_verified = none;
  buyer_verification_sid = none;
  seller_verification_sid = none;
  completed_at = none;
  unsupported = false;
}

abbrev pub set_status : TransferStatus → TransferPatch
set_status st = record no_patch { status = some st }

abbrev sid_or : Option ℕ → Option ℕ → Option ℕ
sid_or none s = s
sid_or (some n) s = some n

abbrev pub bad_stamp : Option Stamp → Bool
bad_stamp (some unparsable) = true
bad_stamp _ = false

abbrev stamp_or : Option Stamp → Option ℕ → Option ℕ
stamp_or (some null) t = none
stamp_or (some (at n)) t = some n
stamp_or _ t = t

-- the `setattr` loop; no value of the status is refused
unfoldable pub patched : TransferPatch → Transfer → Transfer
patched p t = record t {
  status = field_or p.status t.status;
  buyer_otp_verified = field_or p.buyer_otp_verified t.buyer_otp_verified;
  seller_otp_verified = field_or p.seller_otp_verified t.seller_otp_verified;
  buyer_verification_sid = sid_or p.buyer_verification_sid t.buyer_verification_sid;
  seller_verification_sid = sid_or p.seller_verification_sid t.seller_verification_sid;
  completed_at = stamp_or p.completed_at t.completed_at;
}

abbrev missing {ℓ} : {A : Type ℓ} → Option A → Bool
missing none = true
missing (some a) = false

unfoldable pub is_empty : TransferPatch → Bool
is_empty p =
    missing p.status
    && missing p.buyer_otp_verified
    && missing p.seller_otp_verified
    && missing p.buyer_verification_sid
    && missing p.seller_verification_sid
    && missing p.completed_at
    && not p.unsupported

unfoldable pub patch_found :
    ℕ → ℕ → TransferPatch → Option Transfer → Table Transfer → Result Transfer × Table Transfer
patch_found transfer_id now p none transfers = (err transfer_not_found, transfers)
patch_found transfer_id now p (some t) transfers =
    if expires_now t now
    then (err transfer_expired, insert transfer_id (expire t) transfers)
    else if bad_stamp p.completed_at
    then (err validation_error, transfers)
    else (ok (patched p t), insert transfer_id (patched p t) transfers)

-- `patch_transfer`
unfoldable pub patch_transfer :
    ℕ → ℕ → TransferPatch → Table Transfer → Result Transfer × Table Transfer
patch_transfer transfer_id now p transfers =
    if is_empty p || p.unsupported
    then (err validation_error, transfers)
    else patch_found transfer_id now p (lookup transfer_id transfers) transfers

-- `cancel_transfer`
unfoldable pub cancel_found :
    ℕ → Option Transfer → Table Transfer → Result Transfer × Table Transfer
cancel_found transfer_id none transfers = (err transfer_not_found, transfers)
cancel_found transfer_id (some t) transfers =
    if has_ended t.status then (err invalid_state, transfers) else (
      ok (record t { status = cancelled }),
      insert transfer_id (record t { status = cancelled }) transfers,
    )

unfoldable pub cancel_transfer : ℕ → Table Transfer → Result Transfer × Table Transfer
cancel_transfer transfer_id transfers =
    cancel_found transfer_id (lookup transfer_id transfers) transfers
