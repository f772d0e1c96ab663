-- ===== src/Purchase/OneTicketSaga.antt =====
-- The calls of `confirm_purchase` that keep `OneTicket`.
use ticketremaster_b.Base.{
  ℕ, ◌≡◌, refl, inl, inr, true, false, Bool, Option, none, some, List, [], ◌∷◌,
}
use ticketremaster_b.Base.Int.{ℤ}
use ticketremaster_b.Base.Table.{Table}
use ticketremaster_b.Web.{Result, ok, err, service_unavailable}
use ticketremaster_b.Seats.Model.{SeatState}
use ticketremaster_b.Seats.Steps.{Step}
use ticketremaster_b.Services.Tickets.{Ticket, TicketPatch, update_ticket, patched}
use ticketremaster_b.Services.TicketLaws.{NoChange, update_ticket_effect}
use ticketremaster_b.Services.Ledger.{CreditTransaction}
use ticketremaster_b.World.Model.{CreditReply, World, Fate, CreditService, Action}
use ticketremaster_b.World.Calls.{
  arrive, spend_fate, remote, at_seats, at_tickets, at_ledger, call_get_event, call_update_ticket,
  call_create_transaction, credit_get, credit_patch,
}
use ticketremaster_b.World.Hoare.{Ends, Keeping, Triple-remote}
use ticketremaster_b.Purchase.OneTicket.{
  OneTicket, frame-OneTicket, seats-OneTicket, update-OneTicket,
}

-- What other requests do between the calls keeps the same, whatever seat is reserved.
pub record Rely {A : Type 0} (meanwhile : ℕ → World A → World A) : Type 0 where
  pub keeps :
      (reserved : Option ℕ) (n : ℕ) (w : World A)
      → OneTicket reserved w
      → OneTicket reserved (meanwhile n w)

pub spend_same :
    {A : Type 0} (w : World A)
    → ((spend_fate w).tickets ≡ w.tickets) × ((spend_fate w).seats.rows ≡ w.seats.rows)
unfolding spend_fate
spend_same w = spend_list w w.fates refl
  where
    spend_list :
        {A : Type 0} (w : World A) (l : List Fate)
        → w.fates ≡ l
        → ((spend_fate w).tickets ≡ w.tickets) × ((spend_fate w).seats.rows ≡ w.seats.rows)
    spend_list w [] e = rw e (refl, refl)
    spend_list w (f ∷ l) e = rw e (refl, refl)

module _ {A : Type 0} (meanwhile : ℕ → World A → World A) (rely : Rely meanwhile) where
  arrive-OneTicket :
      (reserved : Option ℕ) (w : World A)
      → OneTicket reserved w
      → OneTicket reserved (arrive meanwhile w)
  unfolding arrive
  arrive-OneTicket reserved w h =
      rely.keeps reserved w.calls _ (frame-OneTicket (record w { calls = _ }) refl refl h)

  pub arrives :
      (reserved : Option ℕ) (w : World A)
      → OneTicket reserved w
      → OneTicket reserved (spend_fate (arrive meanwhile w))
  arrives reserved w h =
      let (et, es) = spend_same (arrive meanwhile w) in
      frame-OneTicket (spend_fate (arrive meanwhile w)) et es (arrive-OneTicket reserved w h)

  module _ (o : Option ℕ) where
    -- a call that keeps the statement, lost or not
    remote-Keeping :
        {B : Type 0} (m : Action A B)
        → ((w : World A) → OneTicket o w → OneTicket o (m w).1)
        → Keeping (OneTicket o) (remote meanwhile m)
    remote-Keeping m k =
        Triple-remote meanwhile (arrives o) (λ w p. p) (λ b w q. q)
          (record { run = λ w p. keeping_ends (m w) (k w p) })
      where
        keeping_ends :
            {B : Type 0} (r : Result B × World A)
            → OneTicket o r.1
            → Ends (λ _ w. OneTicket o w) (OneTicket o) r
        keeping_ends (ok b, w) h = h
        keeping_ends (err c, w) h = h

    pub seats-Keeping :
        {B : Type 0} (f : SeatState → Option B × SeatState)
        → ((s : SeatState) → Step s (f s).1)
        → Keeping (OneTicket o) (remote meanwhile (at_seats f))
    unfolding at_seats
    seats-Keeping f st =
        remote-Keeping (at_seats f) (λ w h. seats-OneTicket o w (f w.seats).1 (st w.seats) h)

    pub update-Keeping :
        (i : ℕ) (p : TicketPatch) → Keeping (OneTicket o) (call_update_ticket meanwhile i p)
    unfolding call_update_ticket at_tickets
    update-Keeping i p = remote-Keeping (at_tickets (update_ticket i p)) (λ w h.
        elim (update_ticket_effect i p w.tickets) [
          | inl same_rows ↦ unchanged w (update_ticket i p w.tickets) same_rows h
          | inr (t, at, e, _) ↦
              rw e (unfold patched in update-OneTicket o i t (patched p t) w h at refl)
        ])
      where
        unchanged :
            (w : World A) (r : Result Ticket × Table Ticket)
            → NoChange w.tickets r
            → OneTicket o w
            → OneTicket o (record w { tickets = r.1 })
        unchanged w (ok b, new) e h = absurd e
        unchanged w (err c, new) e h = frame-OneTicket _ e refl h

    pub event-Keeping : (k : ℕ) → Keeping (OneTicket o) (call_get_event meanwhile k)
    unfolding call_get_event
    event-Keeping k = remote-Keeping _ (λ w h. h)

    pub transaction-Keeping :
        (t : CreditTransaction) → Keeping (OneTicket o) (call_create_transaction meanwhile t)
    unfolding call_create_transaction at_ledger
    transaction-Keeping t = remote-Keeping _ (λ w h. frame-OneTicket _ refl refl h)

    module _ (C : CreditService A) where
      pub credit_get-Keeping : (u : ℕ) → Keeping (OneTicket o) (credit_get meanwhile C u)
      unfolding credit_get
      credit_get-Keeping u = record {
        run = λ w p. reply _ (C.get u (arrive meanwhile w).account) (arrive-OneTicket o w p);
      }
        where
          reply :
              (v : World A) (r : Option CreditReply)
              → OneTicket o v
              → Ends {B = CreditReply}
                  (λ _ w. OneTicket o w)
                  (OneTicket o)
                  (elim r [ some x ↦ ok x | none ↦ err service_unavailable ], v)
          reply v none h = h
          reply v (some x) h = h

      pub credit_patch-Keeping :
          (u : ℕ) (b : ℤ) → Keeping (OneTicket o) (credit_patch meanwhile C u b)
      unfolding credit_patch
      credit_patch-Keeping u b = record {
        run = λ w p.
            reply _ (C.patch u b (arrive meanwhile w).account).0
              (frame-OneTicket _ refl refl (arrive-OneTicket o w p));
      }
        where
          reply :
              (v : World A) (done : Bool)
              → OneTicket o v
              → Ends {B = Unit {0}}
                  (λ _ w. OneTicket o w)
                  (OneTicket o)
                  (elim done [ true ↦ ok tt | false ↦ err service_unavailable ], v)
          reply v true h = h
          reply v false h = h
