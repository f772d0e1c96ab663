-- ===== src/Services/Listings.antt =====
-- services/marketplace-service: models.py and routes.py.
use ticketremaster_b.Base.{ℕ, Bool, true, false, Option, none, some, if◌then◌else◌}
use ticketremaster_b.Base.Int.{ℤ}
use ticketremaster_b.Base.Table.{Table, lookup, insert}
use ticketremaster_b.Web.{Result, ok, err, validation_error, listing_not_found}

pub data ListingStatus : Type 0 where
  active completed cancelled : ListingStatus
  other : ℕ → ListingStatus

-- `status in ALLOWED_STATUSES`
unfoldable pub is_allowed : ListingStatus → Bool
is_allowed (other n) = false
is_allowed _ = true

unfoldable pub is_active : ListingStatus → Bool
is_active active = true
is_active _ = false

-- `class Listing`, without its key and `createdAt`
pub record Listing : Type 0 where
  pub ticket_id : ℕ
  pub seller_id : ℕ
  pub price : ℤ
  pub status : ListingStatus

-- The body of POST /listings with its required fields.
pub record NewListing : Type 0 where
  pub ticket_id : ℕ
  pub seller_id : ℕ
  pub price : ℤ
  pub status : Option ListingStatus

abbrev pub status_or_active : Option ListingStatus → ListingStatus
status_or_active none = active
status_or_active (some st) = st

abbrev pub to_listing : NewListing → Listing
to_listing body = record {
  ticket_id = body.ticket_id;
  seller_id = body.seller_id;
  price = body.price;
  status = status_or_active body.status;
}

-- `create_listing`, by `uuid4`; `none` is a body that is missing or lacks a required field
unfoldable pub create_listing : ℕ → Option NewListing → Table Listing → Result ℕ × Table Listing
create_listing listing_id none listings = (err validation_error, listings)
create_listing listing_id (some body) listings =
    if is_allowed (status_or_active body.status)
    then (ok listing_id, insert listing_id (to_listing body) listings)
    else (err validation_error, listings)

-- `get_listing`
unfoldable pub get_listing : ℕ → Table Listing → Result Listing
get_listing listing_id listings = elim (lookup listing_id listings) [
  | none ↦ err listing_not_found
  | some l ↦ ok l
]

-- The body of PATCH /listings/<id>.
pub record ListingPatch : Type 0 where
  pub status : Option ListingStatus
  pub unsupported : Bool

abbrev pub set_status : ListingStatus → ListingPatch
set_status st = record { status = some st; unsupported = false }

-- The tests that follow the lookup.
unfoldable pub update_found :
    ℕ → Option ListingStatus → Option Listing → Table Listing → Result Listing × Table Listing
update_found listing_id st none listings = (err listing_not_found, listings)
update_found listing_id none (some l) listings = (err validation_error, listings)
update_found listing_id (some st) (some l) listings =
    if is_allowed st
    then (ok (record l { status = st }), insert listing_id (record l { status = st }) listings)
    else (err validation_error, listings)

-- `update_listing`; a body with no field is refused first
unfoldable pub update_listing : ℕ → ListingPatch → Table Listing → Result Listing × Table Listing
update_listing listing_id p listings =
    if p.unsupported then (err validation_error, listings) else elim p.status [
      | none ↦ (err validation_error, listings)
      | some st ↦ update_found listing_id (some st) (lookup listing_id listings) listings
    ]
