-- ===== src/Purchase/Confirm.antt =====
-- `confirm_purchase` of orchestrators/ticket-purchase-orchestrator/routes.py, from the arguments of
-- the route to the answer; a value is the key of the ticket that the answer 201 names.
use ticketremaster_b.Base.{
  ℕ, Bool, true, false, Option, none, some, ◌∷◌, ◌&&◌, ◌||◌, not, ltb, ◌==◌, if◌then◌else◌,
}
use ticketremaster_b.Base.Int.{ℤ, pos, ◌-ℤ◌, ltb_ℤ}
use ticketremaster_b.Base.Table.{Table, lookup}
use ticketremaster_b.Web.{
  Code, Result, ok, err, validation_error, service_unavailable, seat_unavailable,
  payment_hold_expired, insufficient_credits, internal_error, credit_deduction_failed,
}
use ticketremaster_b.Seats.Model.{available, held, HoldEntry}
use ticketremaster_b.Seats.Hold.{ReplyStatus, seat}
use ticketremaster_b.Seats.Calls.{SeatRequest, CallEnv, SeatStatusResponse}
use ticketremaster_b.Services.Tickets.{Ticket, NewTicket, active, payment_failed, no_patch}
use ticketremaster_b.Services.Ledger.{ticket_purchase}
use ticketremaster_b.Services.Events.{Event}
use ticketremaster_b.World.Model.{
  World, DeadLetter, purchase_compensation_failed, CreditService, get_credit_balance, Action, pure,
  fail, failing, catch, ignore, ◌>>=◌, ◌>>◌, require,
}
use ticketremaster_b.World.Calls.{
  call_get_event, call_create_ticket, call_update_ticket, call_create_transaction, rpc_release_seat,
  rpc_sell_seat, rpc_get_seat_status, credit_get, credit_patch,
}

-- The token's user and the fields of the request; `eventId` and `holdToken` are 0 where missing.
pub record ConfirmRequest : Type 0 where
  pub user_id : ℕ
  pub inventory_id : ℕ
  pub event_id : ℕ
  pub hold_token : ℕ

-- What the handler meets beside the calls: whether `_get_cached_hold` reaches Redis, what the seat
-- service meets in the three calls, the QR hash of a new ticket, and whether the dead letter queue
-- takes a message. `cache_attempts` is CACHE_RETRY_ATTEMPTS of the seat service.
pub record ConfirmEnv : Type 0 where
  pub redis_reads : Bool
  pub cache_attempts : ℕ
  pub status_env : CallEnv
  pub sell_env : CallEnv
  pub release_env : CallEnv
  pub qr_hash : ℕ
  pub dead_letter_up : Bool

-- `_validate_hold_state`: `none` is no objection. Every time that is stored can be parsed.
abbrev past : Option ℕ → ℕ → Option Code
past none now = none
past (some t) now = if ltb t now then some payment_hold_expired else none

unfoldable pub validate_hold_state : ReplyStatus → Option ℕ → ℕ → Option Code
validate_hold_state (seat held) held_until now = past held_until now
validate_hold_state (seat available) held_until now = some payment_hold_expired
validate_hold_state _ held_until now = some seat_unavailable

-- `a and a != b` on two texts
abbrev differs : ℕ → ℕ → Bool
differs a b = not (a == 0) && not (a == b)

-- The checks on a cached hold.
unfoldable pub check_cached : ConfirmRequest → HoldEntry → ℕ → Option Code
check_cached req hold now =
    if differs hold.held_by_user_id req.user_id
    then some seat_unavailable
    else if not (req.hold_token == 0) && differs hold.hold_token req.hold_token
    then some seat_unavailable
    else validate_hold_state (seat held) (some hold.held_until) now

-- `_get_cached_hold`
unfoldable pub get_cached_hold : {A : Type 0} → Bool → ℕ → World A → Option HoldEntry
get_cached_hold redis_reads k w = if redis_reads then lookup k w.seats.holds else none

abbrev pub object_to : {A : Type 0} → Option Code → Action A (Unit {0})
object_to none = pure tt
object_to (some c) = fail c

abbrev pub is_err : {B : Type 0} → Result B → Bool
is_err (ok b) = false
is_err (err c) = true

module _ (req : ConfirmRequest) where
  abbrev pub seat_request : SeatRequest
  seat_request = record {
    inventory_id = req.inventory_id;
    user_id = req.user_id;
    hold_token = req.hold_token;
  }

  unfoldable pub new_ticket : Event → NewTicket
  new_ticket event = record {
    inventory_id = req.inventory_id;
    owner_id = req.user_id;
    venue_id = event.venue_id;
    event_id = req.event_id;
    price = event.price;
    status = some active;
  }

-- `_publish_reconciliation_event`, which swallows every failure
unfoldable pub report : {A : Type 0} → Bool → DeadLetter → World A → World A
report true letter w = record w { dead_letters = letter ∷ w.dead_letters }
report false letter w = w

module _ {A : Type 0} (meanwhile : ℕ → World A → World A) (req : ConfirmRequest)
    (env : ConfirmEnv) where
  -- The fallback to `GetSeatStatus`.
  unfoldable pub check_reply : SeatStatusResponse → Action A (Unit {0})
  check_reply reply w = object_to (validate_hold_state reply.status reply.held_until w.clock) w

  unfoldable pub check_status : Action A (Unit {0})
  check_status = do
    reply ←
        failing service_unavailable
          (rpc_get_seat_status meanwhile env.cache_attempts req.inventory_id env.status_env)
    check_reply reply

  -- Step 1, on the hold cache or on the status.
  unfoldable pub check_hold : Action A (Unit {0})
  check_hold w = elim (get_cached_hold env.redis_reads req.inventory_id w) [
    | some hold ↦ object_to (check_cached req hold w.clock) w
    | none ↦ check_status w
  ]

  unfoldable pub release : Action A Bool
  release = rpc_release_seat meanwhile env.cache_attempts (seat_request req) env.release_env

  -- After a failed deduction: mark the ticket, release the seat, and report what of this failed.
  unfoldable pub compensate : ℕ → Action A (Unit {0})
  compensate ticket_id w =
      let (marked, w₁) =
        call_update_ticket meanwhile ticket_id (record no_patch { status = some payment_failed })
          w in
      let (released, w₂) = release w₁ in
      (
        err credit_deduction_failed,
        report ((is_err marked || is_err released) && env.dead_letter_up)
            (purchase_compensation_failed ticket_id req.inventory_id req.user_id) w₂,
      )

module _ {A : Type 0} (C : CreditService A) (meanwhile : ℕ → World A → World A)
    (uuid : Table Ticket → ℕ) (req : ConfirmRequest) (env : ConfirmEnv) where
  -- Steps 5 and 6.
  unfoldable pub charge : ℤ → ℤ → ℕ → Action A ℕ
  charge balance price ticket_id = do
    catch (credit_patch meanwhile C req.user_id (balance -ℤ price))
        (λ _. compensate meanwhile req env ticket_id)
    ignore (
        call_create_transaction meanwhile (record {
          user_id = req.user_id;
          delta = pos 0 -ℤ price;
          reason = ticket_purchase;
          reference_id = some ticket_id;
        }))
    pure ticket_id

  -- Step 4 and what follows it.
  unfoldable pub issue : ℤ → Event → Action A ℕ
  issue balance event = do
    ticket_id ←
        catch (call_create_ticket meanwhile uuid env.qr_hash (new_ticket req event))
          (λ _. ignore (release meanwhile req env) >> fail internal_error)
    charge balance event.price ticket_id

  -- `confirm_purchase`
  unfoldable pub confirm_purchase : Action A ℕ
  confirm_purchase = do
    require (not (req.event_id == 0)) validation_error
    check_hold meanwhile req env
    event ← failing service_unavailable (call_get_event meanwhile req.event_id)
    credit ← failing service_unavailable (credit_get meanwhile C req.user_id)
    require (not (ltb_ℤ (get_credit_balance credit) event.price)) insufficient_credits
    sold_now ←
        failing service_unavailable
          (rpc_sell_seat meanwhile env.cache_attempts (seat_request req) env.sell_env)
    require sold_now seat_unavailable
    issue (get_credit_balance credit) event
