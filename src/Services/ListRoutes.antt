-- ===== src/Services/ListRoutes.antt =====
-- The routes that list rows: services/event-service, services/marketplace-service,
-- services/credit-transaction-service, services/user-service, services/transfer-service and
-- services/ticket-service, each in routes.py. A table comes in the order that the query asks for;
-- the test of a text against a pattern (`ilike`), or against a status, is an argument.
use ticketremaster_b.Base.{
  ℕ, Bool, true, false, Option, none, some, ◌&&◌, ◌||◌, not, ◌==◌, ltb, if◌then◌else◌,
}
use ticketremaster_b.Base.Int.{ℤ}
use ticketremaster_b.Base.Lists.{select}
use ticketremaster_b.Base.Table.{Table}
use ticketremaster_b.Web.{Result, ok, err, validation_error}
use ticketremaster_b.Services.Pages.{Page, list_page, strict_page, below_one, to_ℕ}
use ticketremaster_b.Services.Events.{Event, utc_now}
use ticketremaster_b.Services.Ledger.{Ledger, CreditTransaction}
use ticketremaster_b.Services.Listings.{Listing, is_active}
use ticketremaster_b.Services.Tickets.{Ticket}
use ticketremaster_b.Services.Transfers.{Transfer, TransferStatus}
use ticketremaster_b.Services.Users.{User}

-- A test that is made only where the parameter is there.
abbrev passes : {A B : Type 0} → (A → B → Bool) → Option A → B → Bool
passes f none b = true
passes f (some a) b = f a b

abbrev uncancelled : ℕ × Event → Bool
uncancelled (k, e) = elim e.cancelled_at [ none ↦ true | some t ↦ false ]

module _ (like : ℕ → ℕ → Bool) where
  abbrev of_type : ℕ → ℕ × Event → Bool
  of_type pattern (k, e) = like pattern e.event_type

  -- `list_events`; an event type is a pattern
  unfoldable pub list_events : ℤ → ℤ → Option ℕ → Table Event → Result (Page (ℕ × Event))
  list_events page limit event_type events =
      list_page page limit (select (passes of_type event_type) events)

  abbrev named : ℕ → ℕ × Event → Bool
  named pattern (k, e) =
      uncancelled (k, e)
      && (like pattern e.name
          || elim e.description [ none ↦ false | some text ↦ like pattern text ])

  -- `search_events`; `none` is an empty search text
  unfoldable pub search_events : Option ℕ → ℤ → ℤ → Table Event → Result (Page (ℕ × Event))
  search_events none page limit events = err validation_error
  search_events (some pattern) page limit events =
      strict_page page limit (select (named pattern) events)

  abbrev from : ℕ → Option ℕ → ℕ × Event → Bool
  from now event_type (k, e) =
      uncancelled (k, e) && not (ltb e.date now) && passes of_type event_type (k, e)

  abbrev upcoming_at : ℤ → ℤ → Option ℕ → Table Event → Result ℕ → Result (Page (ℕ × Event))
  upcoming_at page limit event_type events (err c) = err c
  upcoming_at page limit event_type events (ok now) =
      strict_page page limit (select (from now event_type) events)

  -- `list_upcoming_events`, which asks for the time after it has looked at the numbers
  unfoldable pub list_upcoming_events :
      ℕ → ℤ → ℤ → Option ℕ → Table Event → Result (Page (ℕ × Event))
  list_upcoming_events clock page limit event_type events =
      if below_one page || below_one limit || ltb 100 (to_ℕ limit)
      then err validation_error
      else upcoming_at page limit event_type events (utc_now clock)

  abbrev found_by : ℕ → ℕ × User → Bool
  found_by pattern (k, u) = like pattern u.email || like pattern u.phone_number

  -- `admin_search_users`; `none` is an empty search text
  unfoldable pub admin_search_users : Option ℕ → ℤ → ℤ → Table User → Result (Page (ℕ × User))
  admin_search_users none page limit users = err validation_error
  admin_search_users (some pattern) page limit users =
      strict_page page limit (select (found_by pattern) users)

-- `admin_list_events`
unfoldable pub admin_list_events : ℤ → ℤ → Bool → Table Event → Result (Page (ℕ × Event))
admin_list_events page limit include_cancelled events =
    list_page page limit (if include_cancelled then events else select uncancelled events)

abbrev open_listing : ℕ × Listing → Bool
open_listing (k, l) = is_active l.status

-- `list_active_listings`
unfoldable pub list_active_listings : ℤ → ℤ → Table Listing → Result (Page (ℕ × Listing))
list_active_listings page limit listings = list_page page limit (select open_listing listings)

abbrev by_user : ℕ → CreditTransaction → Bool
by_user user_id t = t.user_id == user_id

-- `list_credit_transactions_by_user`
unfoldable pub list_credit_transactions_by_user :
    ℕ → ℤ → ℤ → Ledger → Result (Page CreditTransaction)
list_credit_transactions_by_user user_id page limit ledger =
    list_page page limit (select (by_user user_id) ledger)

abbrev flagged_as : Bool → ℕ × User → Bool
flagged_as true (k, u) = u.is_flagged
flagged_as false (k, u) = not u.is_flagged

-- `list_flagged_users`
unfoldable pub list_flagged_users : ℤ → ℤ → Table User → Result (Page (ℕ × User))
list_flagged_users page limit users = strict_page page limit (select (flagged_as true) users)

-- `admin_list_users`; `none` is a parameter `flagged` that is neither "true" nor "false"
unfoldable pub admin_list_users : Option Bool → Table User → Table User
admin_list_users flagged users = select (passes flagged_as flagged) users

abbrev of_parties : Option ℕ → Option ℕ → ℕ × Transfer → Bool
of_parties none none row = false
of_parties (some seller) none (k, t) = t.seller_id == seller
of_parties none (some buyer) (k, t) = t.buyer_id == buyer
of_parties (some seller) (some buyer) (k, t) = t.seller_id == seller || t.buyer_id == buyer

abbrev with_status : (TransferStatus → Bool) → ℕ × Transfer → Bool
with_status test (k, t) = test t.status

abbrev pub asked : Option ℕ → Option ℕ → Option (TransferStatus → Bool) → ℕ × Transfer → Bool
asked seller buyer status row = of_parties seller buyer row && passes with_status status row

-- `list_transfers`
unfoldable pub list_transfers :
    Option ℕ → Option ℕ → Option (TransferStatus → Bool) → Table Transfer → Result (Table Transfer)
list_transfers none none status transfers = err validation_error
list_transfers seller buyer status transfers = ok (select (asked seller buyer status) transfers)

abbrev owned_by : ℕ → ℕ × Ticket → Bool
owned_by owner_id (k, t) = t.owner_id == owner_id

-- `get_tickets_by_owner`
unfoldable pub get_tickets_by_owner : ℕ → Table Ticket → Table Ticket
get_tickets_by_owner owner_id tickets = select (owned_by owner_id) tickets

abbrev for_event : ℕ → ℕ × Ticket → Bool
for_event event_id (k, t) = t.event_id == event_id

-- `get_tickets_by_event`
unfoldable pub get_tickets_by_event : ℕ → Table Ticket → Table Ticket
get_tickets_by_event event_id tickets = select (for_event event_id) tickets
