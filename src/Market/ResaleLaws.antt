-- ===== src/Market/ResaleLaws.antt =====
-- What a listing and its withdrawal do to a ticket, where every call is delivered and no other
-- request comes between.
use ticketremaster_b.Base.{
  ℕ, suc, ◌≡◌, refl, true, false, Bool, Option, none, some, [], ◌∷◌, ◌==◌, arith, ap, ◌∙◌, ◌||◌,
  ◌&&◌, not, same, Bool-cases, inl, inr,
}
use ticketremaster_b.Base.Int.{ℤ}
use ticketremaster_b.Base.Table.{Table, lookup, insert, lookup-insert}
use ticketremaster_b.Web.{Code, ok}
use ticketremaster_b.Services.Listings
use ticketremaster_b.Services.Tickets
use ticketremaster_b.Services.Listings.{
  Listing, ListingStatus, create_listing, get_listing, update_listing,
}
use ticketremaster_b.Services.Tickets.{
  Ticket, TicketStatus, is_allowed, is_active, hash_taken, get_ticket, update_ticket, patched,
}
use ticketremaster_b.World.Model.{World, Action, catch, ◌>>=◌}
use ticketremaster_b.World.Calls.{
  arrive, next_fate, meet, remote, at_tickets, at_listings, call_get_ticket, call_update_ticket,
  call_get_listing, call_create_listing, call_update_listing,
}
use ticketremaster_b.World.Calm.{alone, counted, remote-Calm}
use ticketremaster_b.Market.Resale.{
  ticket_error, missing_listing, marked, asked_price, offer, read_ticket, list_found, list_ticket,
  delist_found, delist,
}

-- PATCH with a status that is allowed, of a ticket whose code no other ticket has.
update_status :
    (k : ℕ) (status : TicketStatus) (t : Ticket) (tickets : Table Ticket)
    → lookup k tickets ≡ some t
    → is_allowed status ≡ true
    → hash_taken k t.qr_hash tickets ≡ false
    → update_ticket k (marked status) tickets
      ≡ (ok (record t { status = status }), insert k (record t { status = status }) tickets)
unfolding update_ticket Tickets.update_found Tickets.is_empty patched
update_status k status t tickets at good free = ground (arith, at, good, free)

-- The ticket that is listed, and its listing.
abbrev listed_world : {A : Type 0} → ℕ → ℕ → Option ℤ → ℕ → Ticket → World A → World A
listed_world user k price uuid t w = record w {
  calls = suc (suc (suc w.calls));
  tickets = insert k (record t { status = TicketStatus.listed }) w.tickets;
  listings = insert uuid (Listings.to_listing (offer user k price t)) w.listings;
}

-- The calls, delivered.
get_ticket_calm :
    {A : Type 0} (k : ℕ) (t : Ticket) (w : World A)
    → w.fates ≡ []
    → lookup k w.tickets ≡ some t
    → call_get_ticket alone k w ≡ (ok t, counted w)
unfolding call_get_ticket get_ticket
get_ticket_calm k t w calm at =
    remote-Calm (λ v. (get_ticket k v.tickets, v)) w calm ∙ simp (at, get_ticket)

update_calm :
    {A : Type 0} (k : ℕ) (status : TicketStatus) (t : Ticket) (w : World A)
    → w.fates ≡ []
    → lookup k w.tickets ≡ some t
    → is_allowed status ≡ true
    → hash_taken k t.qr_hash w.tickets ≡ false
    → call_update_ticket alone k (marked status) w ≡ (
      ok (record t { status = status }),
      record (counted w) { tickets = insert k (record t { status = status }) w.tickets },
    )
unfolding call_update_ticket at_tickets
update_calm k status t w calm at good free =
    remote-Calm (at_tickets (update_ticket k (marked status))) w calm
    ∙ rw (update_status k status t w.tickets at good free) refl

create_calm :
    {A : Type 0} (user k uuid : ℕ) (price : Option ℤ) (t : Ticket) (w : World A)
    → w.fates ≡ []
    → call_create_listing alone uuid (offer user k price t) w ≡ (
      ok uuid,
      record (counted w) {
        listings = insert uuid (Listings.to_listing (offer user k price t)) w.listings;
      },
    )
unfolding call_create_listing at_listings create_listing offer Listings.is_allowed
create_calm user k uuid price t w calm =
    remote-Calm (at_listings (create_listing uuid (some (offer user k price t)))) w calm

list_found_lem :
    {A : Type 0} (user k uuid : ℕ) (price : Option ℤ) (t : Ticket) (w : World A)
    → w.fates ≡ []
    → lookup k w.tickets ≡ some t
    → (t.owner_id == user) ≡ true
    → is_active t.status ≡ true
    → hash_taken k t.qr_hash w.tickets ≡ false
    → list_found alone user k price uuid t w ≡ (
      ok uuid,
      record w {
        calls = suc (suc w.calls);
        tickets = insert k (record t { status = TicketStatus.listed }) w.tickets;
        listings = insert uuid (Listings.to_listing (offer user k price t)) w.listings;
      },
    )
unfolding list_found is_allowed call_update_ticket insert remote meet next_fate arrive
    call_create_listing
list_found_lem user k uuid price t w calm at own act free = simp (
  own,
  act,
  update_calm k TicketStatus.listed t w calm at refl free,
  create_calm user k uuid price t
      (record (counted w) {
        tickets = insert k (record t { status = TicketStatus.listed }) w.tickets;
      })
      calm,
)

get_listing_calm :
    {A : Type 0} (k : ℕ) (l : Listing) (w : World A)
    → w.fates ≡ []
    → lookup k w.listings ≡ some l
    → call_get_listing alone k w ≡ (ok l, counted w)
unfolding call_get_listing get_listing
get_listing_calm k l w calm at =
    remote-Calm (λ v. (get_listing k v.listings, v)) w calm ∙ simp (at, get_listing)

or_false : (a b : Bool) → (a || b) ≡ false → (a ≡ false) × (b ≡ false)
or_false true b e = absurd (ground arith)
or_false false b e = (refl, e)

false_or : (a b : Bool) → a ≡ false → b ≡ false → (a || b) ≡ false
false_or true b e f = absurd (ground arith)
false_or false b e f = f

self_eq : (k : ℕ) → (k == k) ≡ true
self_eq k = ground arith

-- The code of a ticket stays free when the ticket's own row changes.
hash_taken-insert :
    (k : ℕ) (h : Option ℕ) (t : Ticket) (tickets : Table Ticket)
    → hash_taken k h tickets ≡ false
    → hash_taken k h (insert k t tickets) ≡ false
unfolding hash_taken insert
hash_taken-insert k none t tickets free = refl
hash_taken-insert k (some h) t [] free = rw (self_eq k) refl
hash_taken-insert k (some h) t ((j, s) ∷ rest) free =
    let (here, later) =
      or_false (not (j == k) && same s.qr_hash (some h)) (hash_taken k (some h) rest) free in
    elim (Bool-cases (j == k)) [
      | inl e ↦ rw (e, self_eq k) later
      | inr e ↦ rw e (
          false_or (not (j == k) && same s.qr_hash (some h))
            (hash_taken k (some h) (insert k t rest)) here
            (hash_taken-insert k (some h) t rest later))
    ]

cancel_calm :
    {A : Type 0} (k : ℕ) (l : Listing) (w : World A)
    → w.fates ≡ []
    → lookup k w.listings ≡ some l
    → call_update_listing alone k (Listings.set_status ListingStatus.cancelled) w ≡ (
      ok (record l { status = ListingStatus.cancelled }),
      record (counted w) {
        listings = insert k (record l { status = ListingStatus.cancelled }) w.listings;
      },
    )
unfolding call_update_listing at_listings update_listing Listings.update_found Listings.is_allowed
cancel_calm k l w calm at =
    remote-Calm (at_listings (update_listing k (Listings.set_status ListingStatus.cancelled))) w
      calm
    ∙ simp (at)

delist_found_lem :
    {A : Type 0} (user uuid : ℕ) (l : Listing) (t : Ticket) (w : World A)
    → w.fates ≡ []
    → lookup uuid w.listings ≡ some l
    → (l.seller_id == user) ≡ true
    → Listings.is_active l.status ≡ true
    → lookup l.ticket_id w.tickets ≡ some t
    → hash_taken l.ticket_id t.qr_hash w.tickets ≡ false
    → delist_found alone user uuid l w ≡ (
      ok tt,
      record w {
        calls = suc (suc w.calls);
        tickets = insert l.ticket_id (record t { status = TicketStatus.active }) w.tickets;
        listings = insert uuid (record l { status = ListingStatus.cancelled }) w.listings;
      },
    )
unfolding delist_found is_allowed call_update_ticket insert remote meet next_fate arrive
    call_update_listing
delist_found_lem user uuid l t w calm at own act at_t free = simp (
  own,
  act,
  cancel_calm uuid l w calm at,
  update_calm l.ticket_id TicketStatus.active t
      (record (counted w) {
        listings = insert uuid (record l { status = ListingStatus.cancelled }) w.listings;
      })
      calm at_t refl free,
)

-- What follows a read that was answered.
read_then :
    {A B D : Type 0} (m : Action A B) (h : Code → Action A B) (f : B → Action A D) (w : World A)
    (b : B) (v : World A)
    → m w ≡ (ok b, v)
    → (catch m h >>= f) w ≡ f b v
read_then m h f w b v e = ap (λ r. (catch (λ _. r) h >>= f) w) e

-- The world after a listing that goes through.
abbrev after_listing : {A : Type 0} → ℕ → ℕ → ℕ → Option ℤ → Ticket → World A → World A
after_listing user k uuid price t w = record w {
  calls = suc (suc (suc w.calls));
  tickets = insert k (record t { status = TicketStatus.listed }) w.tickets;
  listings = insert uuid (Listings.to_listing (offer user k price t)) w.listings;
}

list_ticket_lem :
    {A : Type 0} (user k uuid : ℕ) (price : Option ℤ) (t : Ticket) (w : World A)
    → w.fates ≡ []
    → lookup k w.tickets ≡ some t
    → (t.owner_id == user) ≡ true
    → is_active t.status ≡ true
    → hash_taken k t.qr_hash w.tickets ≡ false
    → list_ticket alone user (some k) price uuid w ≡ (ok uuid, after_listing user k uuid price t w)
unfolding list_ticket read_ticket
list_ticket_lem user k uuid price t w calm at own act free =
    read_then (call_get_ticket alone k) (ticket_error alone) (list_found alone user k price uuid) w
      t (counted w) (get_ticket_calm k t w calm at)
    ∙ list_found_lem user k uuid price t (counted w) calm at own act free

delist_lem :
    {A : Type 0} (user uuid : ℕ) (l : Listing) (t : Ticket) (w : World A)
    → w.fates ≡ []
    → lookup uuid w.listings ≡ some l
    → (l.seller_id == user) ≡ true
    → Listings.is_active l.status ≡ true
    → lookup l.ticket_id w.tickets ≡ some t
    → hash_taken l.ticket_id t.qr_hash w.tickets ≡ false
    → delist alone user uuid w ≡ (
      ok tt,
      record w {
        calls = suc (suc (suc w.calls));
        tickets = insert l.ticket_id (record t { status = TicketStatus.active }) w.tickets;
        listings = insert uuid (record l { status = ListingStatus.cancelled }) w.listings;
      },
    )
unfolding delist
delist_lem user uuid l t w calm at own act at_t free =
    read_then (call_get_listing alone uuid) (missing_listing alone) (delist_found alone user uuid) w
      l (counted w) (get_listing_calm uuid l w calm at)
    ∙ delist_found_lem user uuid l t (counted w) calm at own act at_t free

found_inserted : {V : Type 0} (k : ℕ) (v : V) (t : Table V) → lookup k (insert k v t) ≡ some v
found_inserted k v t = ground (arith, lookup-insert k k v t)

-- A withdrawal undoes a listing: where every call is delivered and nothing else happens in between,
-- the owner of an active ticket, whose code no other ticket has, lists it and withdraws the
-- listing, and both requests succeed; the ticket is then active again, with its other fields as
-- before, and the listing is cancelled, with the price that was asked or else the ticket's own.
pub list_then_delist :
    {A : Type 0} (user k uuid : ℕ) (price : Option ℤ) (t : Ticket) (w : World A)
    → w.fates ≡ []
    → lookup k w.tickets ≡ some t
    → (t.owner_id == user) ≡ true
    → is_active t.status ≡ true
    → hash_taken k t.qr_hash w.tickets ≡ false
    → ((list_ticket alone user (some k) price uuid w).0 ≡ ok uuid)
      × ((delist alone user uuid (list_ticket alone user (some k) price uuid w).1).0 ≡ ok tt)
      × (lookup k
            (delist alone user uuid (list_ticket alone user (some k) price uuid w).1).1.tickets
          ≡ some (record t { status = TicketStatus.active }))
      × (lookup uuid
            (delist alone user uuid (list_ticket alone user (some k) price uuid w).1).1.listings
          ≡ some (record {
            ticket_id = k;
            seller_id = user;
            price = asked_price price t.price;
            status = ListingStatus.cancelled;
          }))
unfolding offer Listings.is_active
list_then_delist user k uuid price t w calm at own act free =
    let v = after_listing user k uuid price t w in
    let l = Listings.to_listing (offer user k price t) in
    rw
      (
        list_ticket_lem user k uuid price t w calm at own act free,
        delist_lem user uuid l (record t { status = TicketStatus.listed }) v calm
            (found_inserted uuid l w.listings) (self_eq user) refl
            (found_inserted k (record t { status = TicketStatus.listed }) w.tickets)
            (hash_taken-insert k t.qr_hash (record t { status = TicketStatus.listed }) w.tickets
              free),
      )
      (refl, refl, found_inserted k _ _, found_inserted uuid _ _)
