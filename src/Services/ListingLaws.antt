-- ===== src/Services/ListingLaws.antt =====
-- What the routes of services/marketplace-service do to the rows.
use ticketremaster_b.Base.{ℕ, ◌≡◌, refl, ◌⊎◌, inl, inr, true, Option, none, some, Bool-cases}
use ticketremaster_b.Base.Table.{Table, lookup, insert}
use ticketremaster_b.Web.{Result, ok, err, validation_error}
use ticketremaster_b.Services.Listings.{
  ListingStatus, is_allowed, Listing, ListingPatch, update_found, update_listing,
}

abbrev pub Unchanged : {B : Type 0} → Table Listing → Result B × Table Listing → Type 0
Unchanged old (ok b, new) = ⊥
Unchanged old (err c, new) = new ≡ old

update_found_effect :
    (k : ℕ) (st : ListingStatus) (found : Option Listing) (listings : Table Listing)
    → Unchanged listings (update_found k (some st) found listings)
      ⊎ ((l : Listing) × (found ≡ some l)
          × (is_allowed st ≡ true)
          × (update_found k (some st) found listings
              ≡ (ok (record l { status = st }), insert k (record l { status = st }) listings)))
unfolding update_found
update_found_effect k st none listings = inl refl
update_found_effect k st (some l) listings = elim (Bool-cases (is_allowed st)) [
  | inl a ↦ inr (l, refl, a, rw a refl)
  | inr a ↦ inl (rw a refl)
]

-- What an update that succeeds has done.
abbrev pub Updated : ℕ → ListingPatch → Table Listing → Result Listing × Table Listing → Type 0
Updated k p old o =
    (l : Listing) × (st : ListingStatus) × (p.status ≡ some st)
    × (lookup k old ≡ some l)
    × (is_allowed st ≡ true)
    × (o ≡ (ok (record l { status = st }), insert k (record l { status = st }) old))

-- PATCH /listings/<id> refuses and changes nothing, or writes the status of the body, which is
-- allowed, into the row that is there, and nothing else.
pub update_listing_effect :
    (k : ℕ) (p : ListingPatch) (listings : Table Listing)
    → Unchanged listings (update_listing k p listings)
      ⊎ Updated k p listings (update_listing k p listings)
unfolding update_listing
update_listing_effect k p listings = elim (Bool-cases p.unsupported) [
  | inl a ↦ inl (rw a refl)
  | inr a ↦ rw a (by_status p.status refl)
]
  where
    outcome : Option ListingStatus → Result Listing × Table Listing
    outcome none = (err validation_error, listings)
    outcome (some st) = update_found k (some st) (lookup k listings) listings

    by_status :
        (s : Option ListingStatus)
        → p.status ≡ s
        → Unchanged listings (outcome s) ⊎ Updated k p listings (outcome s)
    by_status none e = inl refl
    by_status (some st) e = elim (update_found_effect k st (lookup k listings) listings) [
      | inl h ↦ inl h
      | inr (l, at, a, w) ↦ inr (l, st, e, at, a, w)
    ]
