-- ===== src/Purchase/Compensation.antt =====
-- What `compensate` of `confirm_purchase` comes to.
use ticketremaster_b.Base.{ℕ, ◌≡◌, refl, ◌∙◌, inl, inr, true, false, Bool, some, arith}
use ticketremaster_b.Base.Table.{Table, lookup}
use ticketremaster_b.Web.{Result, ok, err, credit_deduction_failed}
use ticketremaster_b.Seats.Model.{is_sold, is_held, SeatInventory}
use ticketremaster_b.Seats.Calls.{release_seat}
use ticketremaster_b.Seats.CallLaws.{release_seat_effect}
use ticketremaster_b.Services.Tickets.{Ticket, is_allowed, no_patch, payment_failed, update_ticket}
use ticketremaster_b.Services.TicketLaws.{NoChange, update_ticket_effect}
use ticketremaster_b.World.Model.{World, Action, DeadLetter}
use ticketremaster_b.World.Calls.{
  arrive, spend_fate, remote, at_seats, at_tickets, call_update_ticket, rpc_release_seat,
}
use ticketremaster_b.World.Hoare.{Ends, Triple-remote, Keeping}
use ticketremaster_b.Purchase.Confirm.{
  ConfirmRequest, ConfirmEnv, compensate, release, report, seat_request,
}
use ticketremaster_b.Purchase.OneTicket.{not_both}
use ticketremaster_b.Purchase.OneTicketSaga.{spend_same}
use ticketremaster_b.Purchase.NoDoubleSale.{after_run}

-- Other requests leave the tickets and the rows of the seats alone.
abbrev pub Alone : {A : Type 0} → (ℕ → World A → World A) → Type 0
Alone {A} meanwhile =
    (n : ℕ) (w : World A)
    → ((meanwhile n w).tickets ≡ w.tickets) × ((meanwhile n w).seats.rows ≡ w.seats.rows)

abbrev Same : {A : Type 0} → Table Ticket → Table SeatInventory → World A → Type 0
Same tickets rows w = (w.tickets ≡ tickets) × (w.seats.rows ≡ rows)

module _ {A : Type 0} (tickets : Table Ticket) (rows : Table SeatInventory)
    (meanwhile : ℕ → World A → World A) (alone : Alone meanwhile) where
  arrives :
      (w : World A) → Same tickets rows w → Same tickets rows (spend_fate (arrive meanwhile w))
  unfolding arrive
  arrives w p =
      let (et, es) = spend_same (arrive meanwhile w) in
      let (mt, ms) = alone w.calls (record w { calls = _ }) in (et ∙ mt ∙ p.0, es ∙ ms ∙ p.1)

  remote-Same :
      {B : Type 0} (m : Action A B)
      → ((w : World A) → Same tickets rows w → Same tickets rows (m w).1)
      → Keeping (Same tickets rows) (remote meanwhile m)
  remote-Same m k =
      Triple-remote meanwhile arrives (λ w p. p) (λ b w q. q)
        (record { run = λ w p. same_ends (m w) (k w p) })
    where
      same_ends :
          {B : Type 0} (r : Result B × World A)
          → Same tickets rows r.1
          → Ends (λ _ w. Same tickets rows w) (Same tickets rows) r
      same_ends (ok b, w) h = h
      same_ends (err c, w) h = h

  -- The ticket service refuses the status.
  mark-Same :
      (i : ℕ)
      → Keeping
          (Same tickets rows)
          (call_update_ticket meanwhile i (record no_patch { status = some payment_failed }))
  unfolding call_update_ticket at_tickets is_allowed
  mark-Same i =
      remote-Same (at_tickets (update_ticket i (record no_patch { status = some payment_failed })))
        (λ w p.
          elim (update_ticket_effect i (record no_patch { status = some payment_failed })
            w.tickets) [
              | inl h ↦ (
                unchanged w.tickets
                      (update_ticket i (record no_patch { status = some payment_failed }) w.tickets)
                      h
                    ∙ p.0,
                p.1,
              )
              | inr (t, at, e, good) ↦ absurd (ground arith)
            ])
    where
      unchanged :
          (old : Table Ticket) (r : Result Ticket × Table Ticket) → NoChange old r → r.1 ≡ old
      unchanged old (ok b, new) h = absurd h
      unchanged old (err c, new) h = h

  module _ (req : ConfirmRequest) (env : ConfirmEnv) (row : SeatInventory)
      (at : lookup req.inventory_id rows ≡ some row) (sold_row : is_sold row.status ≡ true) where
    -- `ReleaseSeat` asks for a held row.
    release-Same : Keeping (Same tickets rows) (release meanwhile req env)
    unfolding release rpc_release_seat at_seats
    release-Same =
        remote-Same (at_seats (release_seat env.cache_attempts (seat_request req) env.release_env))
          (λ w p.
            elim (release_seat_effect env.cache_attempts (seat_request req) env.release_env
              w.seats) [
                | inl (e, _) ↦ (p.0, e ∙ p.1)
                | inr (_, (found, f, held_row, _, _, _)) ↦
                    absurd (clash found (rw p.1 at f) held_row)
              ])
      where
        clash :
            (found : SeatInventory)
            → lookup req.inventory_id rows ≡ some found
            → is_held found.status ≡ true
            → ⊥
        clash found f h = not_both row (unfold is_held in ground arith) sold_row

report-Same :
    {A : Type 0} (tickets : Table Ticket) (rows : Table SeatInventory) (b : Bool) (d : DeadLetter)
    (w : World A)
    → Same tickets rows w
    → Same tickets rows (report b d w)
unfolding report
report-Same tickets rows true d w h = h
report-Same tickets rows false d w h = h

-- The compensation after a failed deduction undoes nothing: where the seat is sold, as it is then,
-- and no other request writes to the tickets or the seats, it answers CREDIT_DEDUCTION_FAILED and
-- leaves every ticket and every seat as they were, whichever of its calls go through.
pub compensate_undoes_nothing :
    {A : Type 0} (meanwhile : ℕ → World A → World A) (req : ConfirmRequest) (env : ConfirmEnv)
    (ticket_id : ℕ) (w : World A) (row : SeatInventory)
    → Alone meanwhile
    → lookup req.inventory_id w.seats.rows ≡ some row
    → is_sold row.status ≡ true
    → ((compensate meanwhile req env ticket_id w).0 ≡ err credit_deduction_failed)
      × ((compensate meanwhile req env ticket_id w).1.tickets ≡ w.tickets)
      × ((compensate meanwhile req env ticket_id w).1.seats.rows ≡ w.seats.rows)
unfolding compensate
compensate_undoes_nothing meanwhile req env ticket_id w row alone at sold_row =
    let w₁ =
      (call_update_ticket meanwhile ticket_id (record no_patch { status = some payment_failed })
        w).1 in
    let h₁ : Same w.tickets w.seats.rows w₁ =
      after_run _ (mark-Same w.tickets w.seats.rows meanwhile alone ticket_id) w (refl, refl) in
    let h₂ : Same w.tickets w.seats.rows (release meanwhile req env w₁).1 =
      after_run _ (release-Same w.tickets w.seats.rows meanwhile alone req env row at sold_row) w₁
        h₁ in
    let h₃ = report-Same w.tickets w.seats.rows _ _ _ h₂ in (refl, h₃.0, h₃.1)
