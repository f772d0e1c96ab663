-- ===== src/Purchase/OneTicketSale.antt =====
-- The two calls of `confirm_purchase` that move a seat to a ticket: the sale and the ticket.
use ticketremaster_b.Base.{
  ℕ, ◌≡◌, ◌≢◌, refl, ◌⊎◌, inl, inr, true, false, Bool, Option, none, some, ◌==◌, arith, if-cases,
}
use ticketremaster_b.Base.Table.{Table, lookup, insert, lookup-insert}
use ticketremaster_b.Web.{Result, ok, err, service_unavailable}
use ticketremaster_b.Seats.Model.{is_sold, SeatInventory, SeatState}
use ticketremaster_b.Seats.Calls.{SeatRequest, CallEnv, sell_seat, sell_row}
use ticketremaster_b.Seats.CallLaws.{sell_seat_effect}
use ticketremaster_b.Seats.Steps.{Step, sell}
use ticketremaster_b.Services.Tickets.{Ticket, NewTicket, create_ticket}
use ticketremaster_b.Services.TicketLaws.{NoChange, create_ticket_effect}
use ticketremaster_b.World.Model.{World}
use ticketremaster_b.World.Calls.{at_seats, at_tickets, call_create_ticket, rpc_sell_seat}
use ticketremaster_b.World.Hoare.{Ends, Triple, Triple-remote}
use ticketremaster_b.Purchase.OneTicket.{
  OneTicket, IsSold, Own, frame-OneTicket, seats-OneTicket, reserve, create-OneTicket,
}
use ticketremaster_b.Purchase.OneTicketSaga.{Rely, arrives}

sell_row-IsSold :
    (k : ℕ) (row : SeatInventory) (old new : Table SeatInventory)
    → new ≡ insert k (sell_row row) old
    → IsSold (lookup k new)
unfolding sell_row is_sold
sell_row-IsSold k row old new e =
    rw (e, lookup-insert) (if-cases IsSold (k == k) _ _ (λ _. refl) (λ h. ground arith))

module _ {A : Type 0} (meanwhile : ℕ → World A → World A) (rely : Rely meanwhile)
    (o : Option ℕ) where
  -- The answer yes gives the seat to this request.
  abbrev pub AfterSell : ℕ → Bool → World A → Type 0
  AfterSell k true w = Own o k w
  AfterSell k false w = OneTicket o w

  pub sell-Triple :
      (n : ℕ) (req : SeatRequest) (env : CallEnv)
      → Triple
          (OneTicket o)
          (rpc_sell_seat meanwhile n req env)
          (AfterSell req.inventory_id)
          (OneTicket o)
  unfolding rpc_sell_seat at_seats
  sell-Triple n req env =
      Triple-remote meanwhile (arrives meanwhile rely o) (λ w p. p) heard
        (record { run = λ w p. ends w (sell_seat n req env w.seats) p (sell n req env) (own w p) })
    where
      heard : (b : Bool) (w : World A) → AfterSell req.inventory_id b w → OneTicket o w
      heard true w q = q.0
      heard false w q = q

      ends :
          (w : World A) (r : Option Bool × SeatState)
          → OneTicket o w
          → Step w.seats r.1
          → (r.0 ≢ some true) ⊎ Own o req.inventory_id (record w { seats = r.1 })
          → Ends (AfterSell req.inventory_id) (OneTicket o) (
            elim r.0 [ some b ↦ ok b | none ↦ err service_unavailable ],
            record w { seats = r.1 },
          )
      ends w (none, s) h st c = seats-OneTicket o w s st h
      ends w (some false, s) h st c = seats-OneTicket o w s st h
      ends w (some true, s) h st (inl no_yes) = absurd (no_yes refl)
      ends w (some true, s) h st (inr q) = q

      own :
          (w : World A)
          → OneTicket o w
          → ((sell_seat n req env w.seats).0 ≢ some true)
            ⊎ Own o req.inventory_id (record w { seats = (sell_seat n req env w.seats).1 })
      own w h = elim (sell_seat_effect n req env w.seats) [
        | inl (no_yes, _) ↦ inl no_yes
        | inr (_, (row, e, held_row, _, _, rows)) ↦ inr (
            reserve o req.inventory_id w row (sell_seat n req env w.seats).1 h e held_row
              (sell n req env) (sell_row-IsSold req.inventory_id row w.seats.rows _ rows))
      ]

  pub create-Triple :
      (uuid : Table Ticket → ℕ) (hash : ℕ) (body : NewTicket)
      → Triple
          (Own o body.inventory_id)
          (call_create_ticket meanwhile uuid hash body)
          (λ _ w. OneTicket o w)
          (OneTicket o)
  unfolding call_create_ticket at_tickets
  create-Triple uuid hash body =
      Triple-remote meanwhile
        (λ w p. (
          arrives meanwhile rely o w p.0,
          arrives meanwhile rely (some body.inventory_id) w p.1,
          p.2,
        ))
        (λ w p. p.0) (λ b w q. q)
        (record {
          run = λ w p. elim (create_ticket_effect (uuid w.tickets) hash w.clock body w.tickets) [
            | inl same_rows ↦
                unchanged w (create_ticket (uuid w.tickets) hash w.clock (some body) w.tickets)
                  same_rows p.0
            | inr (e, _) ↦ rw e (create-OneTicket o body.inventory_id _ _ w p refl)
          ];
        })
    where
      unchanged :
          (w : World A) (r : Result ℕ × Table Ticket)
          → NoChange w.tickets r
          → OneTicket o w
          → Ends {B = ℕ} (λ _ v. OneTicket o v) (OneTicket o) (r.0, record w { tickets = r.1 })
      unchanged w (ok b, new) e h = absurd e
      unchanged w (err c, new) e h = frame-OneTicket _ e refl h
