-- ===== src/Verify/Scan.antt =====
-- orchestrators/ticket-verification-orchestrator/routes.py: `scan` and `manual_verify`. The venue
-- that is read to decorate an answer is left out. The texts of the token and of the body are
-- numbers.
use ticketremaster_b.Base.{
  ℕ, zero, suc, ◌+◌, Bool, true, false, Option, none, some, List, [], ◌∷◌, not, ltb, ◌==◌,
}
use ticketremaster_b.Web.{
  Code, ok, err, validation_error, ticket_not_found, concurrent_scan, qr_invalid, qr_expired,
  already_checked_in, wrong_hall, wrong_event,
}
use ticketremaster_b.Seats.Model.{is_sold}
use ticketremaster_b.Seats.Routes.{PublicSeat, list_inventory_by_event}
use ticketremaster_b.Services.Tickets
use ticketremaster_b.Services.Tickets.{Ticket, TicketPatch, TicketStatus, is_active, find_qr}
use ticketremaster_b.Services.Logs.{
  LogStatus, any_checked_in, checked_in, duplicate, wrong_venue, invalid, expired,
}
use ticketremaster_b.World.Model.{World, Action, pure, fail, failing, catch, ignore, ◌>>=◌, ◌>>◌}
use ticketremaster_b.World.Calls.{
  remote, call_get_event, call_get_ticket, call_update_ticket, call_get_ticket_logs,
  call_create_ticket_log,
}

-- The staff of the token, with the venue if it has one, and `selectedEventId` of the body.
pub record Gatekeeper : Type 0 where
  pub staff_id : ℕ
  pub venue_id : Option ℕ
  pub selected_event_id : Option ℕ

-- What `SET ... NX` answers to the attempts: it raises, or says whether the key was set.
pub record LockRedis : Type 0 where
  pub connects : Bool
  pub sets : ℕ → Option Bool

pub data LockToken : Type 0 where
  no_lock lock_token : LockToken

-- The loop of `_acquire_scan_lock`, on the attempts that are left.
unfoldable pub lock_attempts : LockRedis → ℕ → ℕ → Option LockToken
lock_attempts r attempt zero = none
lock_attempts r attempt (suc left) =
    let rest = lock_attempts r (suc attempt) left in
    elim (r.sets attempt) [ some true ↦ some lock_token | _ ↦ rest ]

-- `_acquire_scan_lock`; without Redis every scan goes on
unfoldable pub acquire_scan_lock : ℕ → LockRedis → Option LockToken
acquire_scan_lock retries r = elim r.connects [
  | true ↦ lock_attempts r 0 retries
  | false ↦ some no_lock
]

-- `next(s for s in inventory if s["inventoryId"] == ...)`
unfoldable pub find_seat : ℕ → List PublicSeat → Option PublicSeat
find_seat k [] = none
find_seat k (s ∷ rest) =
    let later = find_seat k rest in elim (s.inventory_id == k) [ true ↦ some s | false ↦ later ]

unfoldable pub seat_is_sold : Option PublicSeat → Bool
seat_is_sold none = false
seat_is_sold (some s) = is_sold s.status

-- `a and b != a`
unfoldable pub conflicts : Option ℕ → ℕ → Bool
conflicts none b = false
conflicts (some a) b = not (a == b)

abbrev pub as_used : TicketPatch
as_used = record Tickets.no_patch { status = some TicketStatus.used }

-- Errors that are not looked at leave the default.
unfoldable pub or_default : {A B : Type 0} → B → Action A B → Action A B
or_default d m w = let (r, w') = m w in (elim r [ ok b ↦ ok b | err c ↦ ok d ], w')

module _ {A : Type 0} (meanwhile : ℕ → World A → World A) (by : Gatekeeper) where
  -- `_log`, whose result is not looked at
  unfoldable pub log : ℕ → LogStatus → Action A (Unit {0})
  log ticket_id status = ignore (
      call_create_ticket_log meanwhile
        (record { ticket_id = ticket_id; staff_id = by.staff_id; status = status }))

  unfoldable pub refuse : {B : Type 0} → ℕ → LogStatus → Code → Action A B
  refuse ticket_id status c = log ticket_id status >> fail c

  -- A check that is logged where it fails.
  unfoldable pub check : ℕ → Bool → LogStatus → Code → Action A (Unit {0})
  check ticket_id true status c = pure tt
  check ticket_id false status c = refuse ticket_id status c

  -- The seat of the ticket in the inventory of its event; no answer is an empty list.
  unfoldable pub read_sold : Ticket → Action A Bool
  read_sold t = or_default false (
      remote meanwhile (λ w. (
        ok (
            seat_is_sold
              (find_seat t.inventory_id (list_inventory_by_event t.event_id w.seats.rows))),
        w,
      )))

  -- The checks of the venue and of the event, then the PATCH and the entry.
  unfoldable pub let_in : ℕ → Ticket → Action A (Unit {0})
  let_in ticket_id t = do
    check ticket_id (not (conflicts by.venue_id t.venue_id)) wrong_venue wrong_hall
    check ticket_id (not (conflicts by.selected_event_id t.event_id)) LogStatus.wrong_event
        wrong_event
    ignore (call_update_ticket meanwhile ticket_id as_used)
    log ticket_id checked_in

  -- Both routes, once the ticket is read: the checks in their order, and what follows them.
  unfoldable pub admit : ℕ → Ticket → Action A (Unit {0})
  admit ticket_id t = do
    event ←
        catch (call_get_event meanwhile t.event_id) (λ _. refuse ticket_id invalid ticket_not_found)
    sold ← read_sold t
    check ticket_id sold invalid ticket_not_found
    check ticket_id (is_active t.status) invalid qr_invalid
    logs ← or_default [] (call_get_ticket_logs meanwhile ticket_id)
    check ticket_id (not (any_checked_in logs)) duplicate already_checked_in
    let_in ticket_id t

  -- `manual_verify`; `none` is a body without `ticketId`
  unfoldable pub manual_verify : Option ℕ → Action A (Unit {0})
  manual_verify none = fail validation_error
  manual_verify (some ticket_id) = do
    t ← failing ticket_not_found (call_get_ticket meanwhile ticket_id)
    admit ticket_id t

  module _ (qr_ttl clock_skew : ℕ) where
    -- The time of the QR code against the clock; a ticket without one passes.
    unfoldable pub check_time : ℕ → Option ℕ → Action A (Unit {0})
    check_time ticket_id none = pure tt
    check_time ticket_id (some ts) = do
      now ← (λ w. (ok w.clock, w))
      check ticket_id (not (ltb (now + clock_skew) ts)) invalid qr_invalid
      check ticket_id (not (ltb (ts + qr_ttl) now)) expired qr_expired

    -- What follows the lock, which is released in every case.
    unfoldable pub scan_locked : Option LockToken → ℕ → Ticket → Action A (Unit {0})
    scan_locked none ticket_id t = fail concurrent_scan
    scan_locked (some token) ticket_id t = do check_time ticket_id t.qr_timestamp; admit ticket_id t

    -- `scan`, with QR_TTL_SECONDS, CLOCK_SKEW_SECONDS and MAX_LOCK_RETRIES
    unfoldable pub scan : ℕ → LockRedis → Option ℕ → Action A (Unit {0})
    scan retries redis none = fail validation_error
    scan retries redis (some qr_hash) = do
      (ticket_id, t) ←
          failing ticket_not_found (remote meanwhile (λ w. (find_qr qr_hash w.tickets, w)))
      scan_locked (acquire_scan_lock retries redis) ticket_id t
