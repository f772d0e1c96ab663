-- ===== src/Purchase/NoDoubleSale.antt =====
-- `confirm_purchase` as a whole, and `OneTicket`.
use ticketremaster_b.Base.{ℕ, true, false, Bool, Option, none, some, refl}
use ticketremaster_b.Base.Int.{ℤ}
use ticketremaster_b.Base.Table.{Table}
use ticketremaster_b.Web.{Code, Result, ok, err, internal_error}
use ticketremaster_b.Seats.Model.{HoldEntry}
use ticketremaster_b.Seats.Calls.{SeatStatusResponse}
use ticketremaster_b.Seats.Steps.{release, status}
use ticketremaster_b.Services.Tickets.{Ticket, no_patch, payment_failed}
use ticketremaster_b.Services.Events.{Event}
use ticketremaster_b.World.Model.{
  World, DeadLetter, CreditService, Action, get_credit_balance, ◌>>◌, require,
}
use ticketremaster_b.World.Calls.{rpc_release_seat, rpc_get_seat_status, call_update_ticket}
use ticketremaster_b.World.Hoare.{
  Ends, Triple, Triple-pure, Triple-fail, Triple-bind, Triple-failing, Triple-catch, Keeping,
  Triple-ignore,
}
use ticketremaster_b.Purchase.Confirm.{
  ConfirmRequest, ConfirmEnv, validate_hold_state, get_cached_hold, check_cached, object_to,
  check_hold, check_status, check_reply, report, release as release_hold, compensate, charge, issue,
  confirm_purchase, new_ticket, seat_request,
}
use ticketremaster_b.Purchase.OneTicket.{OneTicket, Own, frame-OneTicket}
use ticketremaster_b.Purchase.OneTicketSaga.{
  Rely, seats-Keeping, update-Keeping, event-Keeping, transaction-Keeping, credit_get-Keeping,
  credit_patch-Keeping,
}
use ticketremaster_b.Purchase.OneTicketSale.{AfterSell, sell-Triple, create-Triple}

object_to-Keeping :
    {A : Type 0} (P : World A → Type 0) (c : Option Code) (w : World A)
    → P w
    → Ends {B = Unit {0}} (λ _ v. P v) P (object_to c w)
object_to-Keeping P none w p = p
object_to-Keeping P (some c) w p = p

pub after_run :
    {A B : Type 0} {P : World A → Type 0} (m : Action A B)
    → Keeping P m
    → (w : World A) → P w
    → P (m w).1
after_run {A} {B} {P} m h w p = state (m w) (h.run w p)
  where
    state : (r : Result B × World A) → Ends (λ _ v. P v) P r → P r.1
    state (ok b, v) q = q
    state (err c, v) q = q

report-OneTicket :
    {A : Type 0} {o : Option ℕ} (b : Bool) (d : DeadLetter) (w : World A)
    → OneTicket o w
    → OneTicket o (report b d w)
unfolding report
report-OneTicket true d w h = frame-OneTicket _ refl refl h
report-OneTicket false d w h = h

module _ {A : Type 0} (meanwhile : ℕ → World A → World A) (rely : Rely meanwhile) (o : Option ℕ)
    (req : ConfirmRequest) (env : ConfirmEnv) where
  check_reply-Keeping :
      (st : SeatStatusResponse) → Keeping {A = A} (OneTicket o) (check_reply meanwhile req env st)
  unfolding check_reply
  check_reply-Keeping st = record {
    run = λ w p.
        object_to-Keeping (OneTicket o) (validate_hold_state st.status st.held_until w.clock) w p;
  }

  check_status-Keeping : Keeping {A = A} (OneTicket o) (check_status meanwhile req env)
  unfolding check_status rpc_get_seat_status
  check_status-Keeping =
      Triple-bind
        (Triple-failing _ (
          seats-Keeping meanwhile rely o _
            (λ s. status env.cache_attempts req.inventory_id env.status_env)))
        check_reply-Keeping

  check_hold-Keeping : Keeping (OneTicket o) (check_hold meanwhile req env)
  unfolding check_hold
  check_hold-Keeping = record {
    run = λ w p. by_cache w (get_cached_hold env.redis_reads req.inventory_id w) p;
  }
    where
      by_cache :
          (w : World A) (cached : Option HoldEntry)
          → OneTicket o w
          → Ends {A = A} {B = Unit {0}}
              (λ _ v. OneTicket o v)
              (OneTicket o)
              (elim cached [
                | some hold ↦ object_to (check_cached req hold w.clock) w
                | none ↦ check_status meanwhile req env w
              ])
      by_cache w none p = check_status-Keeping.run w p
      by_cache w (some hold) p = object_to-Keeping (OneTicket o) _ w p

  release-Keeping : Keeping (OneTicket o) (release_hold meanwhile req env)
  unfolding release_hold rpc_release_seat
  release-Keeping =
      seats-Keeping meanwhile rely o _
        (λ s. release env.cache_attempts (seat_request req) env.release_env)

  compensate-Keeping : (i : ℕ) → Keeping (OneTicket o) (compensate meanwhile req env i)
  unfolding compensate
  compensate-Keeping i = record {
    run = λ w p.
        let w₁ =
          (call_update_ticket meanwhile i (record no_patch { status = some payment_failed }) w).1 in
        let h₁ : OneTicket o w₁ = after_run _ (update-Keeping meanwhile rely o i _) w p in
        let h₂ : OneTicket o (release_hold meanwhile req env w₁).1 =
          after_run _ release-Keeping w₁ h₁ in
        report-OneTicket _ _ _ h₂;
  }

  module _ (C : CreditService A) (uuid : Table Ticket → ℕ) where
    charge-Keeping :
        (balance price : ℤ) (i : ℕ)
        → Keeping (OneTicket o) (charge C meanwhile uuid req env balance price i)
    unfolding charge
    charge-Keeping balance price i =
        Triple-bind
          (Triple-catch (credit_patch-Keeping meanwhile rely o C _ _) (λ _. compensate-Keeping i))
          (λ _.
            Triple-bind (Triple-ignore (transaction-Keeping meanwhile rely o _))
              (λ _. Triple-pure i))

    issue-Triple :
        (balance : ℤ) (event : Event)
        → Triple
            (Own o req.inventory_id)
            (issue C meanwhile uuid req env balance event)
            (λ _ w. OneTicket o w)
            (OneTicket o)
    unfolding issue new_ticket
    issue-Triple balance event =
        Triple-bind
          (Triple-catch (create-Triple meanwhile rely o uuid env.qr_hash (new_ticket req event))
            (λ _.
              Triple-bind (Triple-ignore release-Keeping)
                (λ _. Triple-fail internal_error (λ w p. p))))
          (λ i. charge-Keeping balance event.price i)

    -- `if not sell_resp.success: return` and what follows
    sold-Triple :
        (sold_now : Bool) (c : Code) (balance : ℤ) (event : Event)
        → Triple
            (AfterSell meanwhile rely o req.inventory_id sold_now)
            (require sold_now c >> issue C meanwhile uuid req env balance event)
            (λ _ w. OneTicket o w)
            (OneTicket o)
    sold-Triple true c balance event = record { run = λ w p. (issue-Triple balance event).run w p }
    sold-Triple false c balance event = record { run = λ w p. p }

    require-Keeping : (b : Bool) (c : Code) → Keeping {A = A} (OneTicket o) (require b c)
    require-Keeping true c = record { run = λ w p. p }
    require-Keeping false c = record { run = λ w p. p }

    confirm_purchase-Keeping : Keeping (OneTicket o) (confirm_purchase C meanwhile uuid req env)
    unfolding confirm_purchase
    confirm_purchase-Keeping = Triple-bind (require-Keeping _ _) (λ _.
        Triple-bind check_hold-Keeping (λ _.
          Triple-bind (Triple-failing _ (event-Keeping meanwhile rely o _)) (λ event.
            Triple-bind (Triple-failing _ (credit_get-Keeping meanwhile rely o C _)) (λ credit.
              Triple-bind (require-Keeping _ _) (λ _.
                Triple-bind (Triple-failing _ (sell-Triple meanwhile rely o _ _ _))
                  (λ sold_now. sold-Triple sold_now _ (get_credit_balance credit) event))))))

-- No seat gets two tickets. If before a purchase no two tickets are for one seat and the seat of
-- every ticket is sold, then so it is after it, however it ends and whichever of its calls are
-- lost, provided that what other requests do between its calls keeps the same. A seat that one of
-- those has sold and not yet made a ticket for keeps its promise too: it stays sold and without a
-- ticket.
pub confirm_purchase-OneTicket :
    {A : Type 0} (C : CreditService A) (meanwhile : ℕ → World A → World A) (rely : Rely meanwhile)
    (uuid : Table Ticket → ℕ) (req : ConfirmRequest) (env : ConfirmEnv) (reserved : Option ℕ)
    (w : World A)
    → OneTicket reserved w
    → OneTicket reserved (confirm_purchase C meanwhile uuid req env w).1
confirm_purchase-OneTicket C meanwhile rely uuid req env reserved w h =
    after_run _ (confirm_purchase-Keeping meanwhile rely reserved req env C uuid) w h
