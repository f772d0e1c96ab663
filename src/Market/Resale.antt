-- ===== src/Market/Resale.antt =====
-- orchestrators/marketplace-orchestrator/routes.py: the routes that write. A price of 0 in the body
-- counts as none.
use ticketremaster_b.Base.{ℕ, zero, Option, none, some, ◌==◌}
use ticketremaster_b.Base.Int.{ℤ, pos}
use ticketremaster_b.Web.{
  Code, validation_error, service_unavailable, internal_error, auth_forbidden, ticket_not_found,
  listing_not_found,
}
use ticketremaster_b.Services.Listings
use ticketremaster_b.Services.Tickets
use ticketremaster_b.Services.Listings.{Listing, ListingStatus, NewListing}
use ticketremaster_b.Services.Tickets.{Ticket, TicketPatch, TicketStatus, field_or}
use ticketremaster_b.World.Model.{
  World, Action, pure, fail, failing, catch, ignore, ◌>>=◌, ◌>>◌, require,
}
use ticketremaster_b.World.Calls.{
  call_get_ticket, call_update_ticket, call_get_listing, call_create_listing, call_update_listing,
}

abbrev pub marked : TicketStatus → TicketPatch
marked status = record Tickets.no_patch { status = some status }

-- `body.get("price") or ticket["price"]`
unfoldable pub asked_price : Option ℤ → ℤ → ℤ
asked_price none price = price
asked_price (some (pos zero)) price = price
asked_price (some p) price = p

-- The body of POST /listings.
unfoldable pub offer : ℕ → ℕ → Option ℤ → Ticket → NewListing
offer user_id ticket_id price t = record {
  ticket_id = ticket_id;
  seller_id = user_id;
  price = asked_price price t.price;
  status = none;
}

module _ {A : Type 0} (meanwhile : ℕ → World A → World A) where
  -- The code of a row that is not there, or any other error.
  unfoldable pub ticket_error : {B : Type 0} → Code → Action A B
  ticket_error ticket_not_found = fail ticket_not_found
  ticket_error _ = fail service_unavailable

  unfoldable pub missing_listing : {B : Type 0} → Code → Action A B
  missing_listing listing_not_found = fail listing_not_found
  missing_listing _ = fail service_unavailable

  unfoldable pub read_ticket : ℕ → Action A Ticket
  read_ticket ticket_id = catch (call_get_ticket meanwhile ticket_id) ticket_error

  -- After a failed POST the ticket is active again.
  unfoldable pub unlist : ℕ → Action A ℕ
  unlist ticket_id =
      ignore (call_update_ticket meanwhile ticket_id (marked TicketStatus.active))
      >> fail internal_error

  unfoldable pub list_found : ℕ → ℕ → Option ℤ → ℕ → Ticket → Action A ℕ
  list_found user_id ticket_id price uuid t = do
    require (t.owner_id == user_id) auth_forbidden
    require (Tickets.is_active t.status) ticket_not_found
    failing service_unavailable
        (call_update_ticket meanwhile ticket_id (marked TicketStatus.listed) >>= λ _. pure tt)
    catch (call_create_listing meanwhile uuid (offer user_id ticket_id price t))
        (λ _. unlist ticket_id)

  -- `list_ticket`, with the `uuid4` of the marketplace service
  unfoldable pub list_ticket : ℕ → Option ℕ → Option ℤ → ℕ → Action A ℕ
  list_ticket user_id none price uuid = fail validation_error
  list_ticket user_id (some ticket_id) price uuid =
      read_ticket ticket_id >>= list_found user_id ticket_id price uuid

  unfoldable pub delist_found : ℕ → ℕ → Listing → Action A (Unit {0})
  delist_found user_id listing_id l = do
    require (l.seller_id == user_id) auth_forbidden
    require (Listings.is_active l.status) listing_not_found
    failing service_unavailable (
        call_update_listing meanwhile listing_id (Listings.set_status ListingStatus.cancelled)
        >>= λ _. pure tt)
    ignore (call_update_ticket meanwhile l.ticket_id (marked TicketStatus.active))

  -- `delist`
  unfoldable pub delist : ℕ → ℕ → Action A (Unit {0})
  delist user_id listing_id =
      catch (call_get_listing meanwhile listing_id) missing_listing
      >>= delist_found user_id listing_id
