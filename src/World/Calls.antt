-- ===== src/World/Calls.antt =====
-- `call_service`, `call_credit_service` and the gRPC stubs, as the orchestrators see them: a value,
-- or an error code, and a write of which the answer is lost may still have happened.
-- `meanwhile` is what other requests do before the n-th call arrives, the clock included.
use ticketremaster_b.Base.{ℕ, suc, true, false, Bool, Option, none, some, List, [], ◌∷◌}
use ticketremaster_b.Base.Int.{ℤ}
use ticketremaster_b.Base.Table.{Table, lookup}
use ticketremaster_b.Web.{Result, ok, err, service_unavailable, event_not_found}
use ticketremaster_b.Seats.Model.{SeatState}
use ticketremaster_b.Seats.Hold.{HoldSeatRequest, HoldSeatResponse, HoldEnv, hold_seat}
use ticketremaster_b.Seats.Calls.{
  SeatRequest, CallEnv, SeatStatusResponse, release_seat, sell_seat, get_seat_status,
}
use ticketremaster_b.Services.Tickets.{
  Ticket, NewTicket, TicketPatch, get_ticket, create_ticket, update_ticket,
}
use ticketremaster_b.Services.Listings.{
  Listing, NewListing, ListingPatch, get_listing, create_listing, update_listing,
}
use ticketremaster_b.Services.Transfers.{
  Transfer, NewTransfer, TransferPatch, get_transfer, create_transfer, patch_transfer,
}
use ticketremaster_b.Services.Ledger.{
  Ledger, CreditTransaction, create_credit_transaction, get_by_reference,
}
use ticketremaster_b.Services.Events.{Event}
use ticketremaster_b.Services.Users.{User, get_user}
use ticketremaster_b.Services.Logs.{TicketLog, NewLog, create_ticket_log, get_ticket_logs}
use ticketremaster_b.World.Model.{
  Fate, delivered, lost_request, lost_reply, World, CreditReply, CreditService, Action,
}

module _ {A : Type 0} (meanwhile : ℕ → World A → World A) where
  -- The world that a call finds.
  unfoldable pub arrive : World A → World A
  arrive w = meanwhile w.calls (record w { calls = suc w.calls })

unfoldable pub next_fate : {A : Type 0} → World A → Fate
next_fate w = elim w.fates [ [] ↦ delivered | f ∷ rest ↦ f ]

unfoldable pub spend_fate : {A : Type 0} → World A → World A
spend_fate w = elim w.fates [ [] ↦ w | f ∷ rest ↦ record w { fates = rest } ]

module _ {A B : Type 0} where
  -- what the fate of a call makes of it
  unfoldable pub meet : Fate → Action A B → Action A B
  meet delivered m w = m w
  meet lost_request m w = (err service_unavailable, w)
  meet lost_reply m w = (err service_unavailable, (m w).1)

  -- A call over the network.
  unfoldable pub remote : (ℕ → World A → World A) → Action A B → Action A B
  remote meanwhile m w = let w' = arrive meanwhile w in meet (next_fate w') m (spend_fate w')

  -- A route over the rows of one service, as an action.
  unfoldable pub at_tickets : (Table Ticket → Result B × Table Ticket) → Action A B
  at_tickets f w = let (r, t) = f w.tickets in (r, record w { tickets = t })

  unfoldable pub at_listings : (Table Listing → Result B × Table Listing) → Action A B
  at_listings f w = let (r, t) = f w.listings in (r, record w { listings = t })

  unfoldable pub at_transfers : (Table Transfer → Result B × Table Transfer) → Action A B
  at_transfers f w = let (r, t) = f w.transfers in (r, record w { transfers = t })

  unfoldable pub at_ledger : (Ledger → Result B × Ledger) → Action A B
  at_ledger f w = let (r, t) = f w.ledger in (r, record w { ledger = t })

  unfoldable pub at_logs : (List TicketLog → Result B × List TicketLog) → Action A B
  at_logs f w = let (r, t) = f w.logs in (r, record w { logs = t })

  -- A gRPC call; no reply is an `RpcError`.
  unfoldable pub at_seats : (SeatState → Option B × SeatState) → Action A B
  at_seats f w =
      let (r, s) = f w.seats in
      (elim r [ some b ↦ ok b | none ↦ err service_unavailable ], record w { seats = s })

abbrev on_event : Option Event → Result Event
on_event none = err event_not_found
on_event (some e) = ok e

module _ {A : Type 0} (meanwhile : ℕ → World A → World A) where
  unfoldable pub call_get_event : ℕ → Action A Event
  call_get_event k = remote meanwhile (λ w. (on_event (lookup k w.events), w))

  unfoldable pub call_get_ticket : ℕ → Action A Ticket
  call_get_ticket k = remote meanwhile (λ w. (get_ticket k w.tickets, w))

  -- `uuid` is what `uuid4` gives as a key to a new row of the table; the hash is a second one.
  unfoldable pub call_create_ticket : (Table Ticket → ℕ) → ℕ → NewTicket → Action A ℕ
  call_create_ticket uuid hash body =
      remote meanwhile (λ w. at_tickets (create_ticket (uuid w.tickets) hash w.clock (some body)) w)

  unfoldable pub call_update_ticket : ℕ → TicketPatch → Action A Ticket
  call_update_ticket k p = remote meanwhile (at_tickets (update_ticket k p))

  unfoldable pub call_get_listing : ℕ → Action A Listing
  call_get_listing k = remote meanwhile (λ w. (get_listing k w.listings, w))

  unfoldable pub call_create_listing : ℕ → NewListing → Action A ℕ
  call_create_listing k body = remote meanwhile (at_listings (create_listing k (some body)))

  unfoldable pub call_update_listing : ℕ → ListingPatch → Action A Listing
  call_update_listing k p = remote meanwhile (at_listings (update_listing k p))

  unfoldable pub call_get_transfer : ℕ → Action A Transfer
  call_get_transfer k = remote meanwhile (λ w. at_transfers (get_transfer k w.clock) w)

  unfoldable pub call_create_transfer : ℕ → NewTransfer → Action A ℕ
  call_create_transfer k body =
      remote meanwhile (λ w. at_transfers (create_transfer k w.clock (some body)) w)

  unfoldable pub call_patch_transfer : ℕ → TransferPatch → Action A Transfer
  call_patch_transfer k p = remote meanwhile (λ w. at_transfers (patch_transfer k w.clock p) w)

  unfoldable pub call_create_transaction : CreditTransaction → Action A (Unit {0})
  call_create_transaction t = remote meanwhile (at_ledger (create_credit_transaction (some t)))

  unfoldable pub call_get_transaction : ℕ → Action A CreditTransaction
  call_get_transaction k = remote meanwhile (λ w. (get_by_reference k w.ledger, w))

  unfoldable pub call_get_user : ℕ → Action A User
  call_get_user k = remote meanwhile (λ w. (get_user k w.users, w))

  unfoldable pub call_get_ticket_logs : ℕ → Action A (List TicketLog)
  call_get_ticket_logs k = remote meanwhile (λ w. (ok (get_ticket_logs k w.logs), w))

  unfoldable pub call_create_ticket_log : NewLog → Action A TicketLog
  call_create_ticket_log body =
      remote meanwhile (λ w. at_logs (create_ticket_log w.clock (some body)) w)

  -- PATCH /credit-transactions/reference/<id>: the service has no such route, and answers 405.
  unfoldable pub call_reverse_transaction : ℕ → Action A (Unit {0})
  call_reverse_transaction k = remote meanwhile (λ w. (err service_unavailable, w))

  -- `HoldSeat`; `retries` is CACHE_RETRY_ATTEMPTS, `others` what other calls of the service do
  -- while this one waits for its next attempt, `attempts` MAX_DEADLOCK_RETRIES.
  unfoldable pub rpc_hold_seat :
      HoldSeatRequest
      → (ℕ → HoldEnv)
      → ℕ
      → (ℕ → SeatState → SeatState)
      → ℕ
      → Action A HoldSeatResponse
  rpc_hold_seat req envs retries others attempts =
      remote meanwhile (at_seats (hold_seat req envs retries others attempts))

  unfoldable pub rpc_release_seat : ℕ → SeatRequest → CallEnv → Action A Bool
  rpc_release_seat n req env = remote meanwhile (at_seats (release_seat n req env))

  unfoldable pub rpc_sell_seat : ℕ → SeatRequest → CallEnv → Action A Bool
  rpc_sell_seat n req env = remote meanwhile (at_seats (sell_seat n req env))

  unfoldable pub rpc_get_seat_status : ℕ → ℕ → CallEnv → Action A SeatStatusResponse
  rpc_get_seat_status n k env = remote meanwhile (at_seats (get_seat_status n k env))

  module _ (C : CreditService A) where
    -- `call_credit_service("GET", ...)`
    unfoldable pub credit_get : ℕ → Action A CreditReply
    credit_get user w =
        let w' = arrive meanwhile w in
        (elim (C.get user w'.account) [ some r ↦ ok r | none ↦ err service_unavailable ], w')

    -- `call_credit_service("PATCH", ...)`
    unfoldable pub credit_patch : ℕ → ℤ → Action A (Unit {0})
    credit_patch user balance w =
        let w' = arrive meanwhile w in
        let (done, a) = C.patch user balance w'.account in
        (elim done [ true ↦ ok tt | false ↦ err service_unavailable ], record w' { account = a })
