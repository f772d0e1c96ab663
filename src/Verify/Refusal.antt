-- ===== src/Verify/Refusal.antt =====
-- What a scan or a manual check that is refused leaves behind.
use ticketremaster_b.Base.{
  ℕ, ◌≡◌, refl, ◌∙◌, Bool, true, false, Option, none, some, [], not, ◌+◌, ltb,
}
use ticketremaster_b.Web.{
  Code, Result, ok, err, validation_error, ticket_not_found, concurrent_scan, qr_invalid,
  qr_expired, already_checked_in, wrong_hall, wrong_event,
}
use ticketremaster_b.Services.Tickets.{Ticket, is_active}
use ticketremaster_b.Base.Table.{Table}
use ticketremaster_b.Services.Logs.{
  LogStatus, any_checked_in, checked_in, duplicate, wrong_venue, invalid, expired,
}
use ticketremaster_b.World.Model.{World, Action, catch, ignore, ◌>>◌}
use ticketremaster_b.World.Calls.{
  at_logs, call_get_event, call_get_ticket, call_update_ticket, call_get_ticket_logs,
  call_create_ticket_log,
}
use ticketremaster_b.World.Hoare.{
  Ends, Triple, Triple-bind, Triple-pure, Triple-fail, Triple-catch, Triple-failing, Triple-ignore,
  Keeping,
}
use ticketremaster_b.World.Frame.{Arrives, Keeping-remote, LeavesTickets, tickets-Arrives, after}
use ticketremaster_b.Verify.Scan.{
  Gatekeeper, LockRedis, LockToken, acquire_scan_lock, conflicts, as_used, or_default, log, refuse,
  check, read_sold, let_in, admit, manual_verify, check_time, scan_locked, scan,
}

-- Errors that are not looked at.
pub or_default-Triple :
    {A B : Type 0} {P E : World A → Type 0} (d : B) {m : Action A B}
    → Keeping P m
    → Triple P (or_default d m) (λ _ w. P w) E
unfolding or_default
or_default-Triple {A} {B} {P} {E} d {m} h = record { run = λ w p. by_reply (m w) (after h w p) }
  where
    by_reply :
        (r : Result B × World A)
        → P r.1
        → Ends (λ _ w. P w) E (elim r.0 [ ok b ↦ ok b | err c ↦ ok d ], r.1)
    by_reply (ok b, w) p = p
    by_reply (err c, w) p = p

module _ {A : Type 0} {meanwhile : ℕ → World A → World A} {P : World A → Type 0}
    (arrives : Arrives meanwhile P) (by : Gatekeeper)
    (logged : (k : ℕ) (status : LogStatus) → Keeping P (log meanwhile by k status)) where
  pub refuse-Triple :
      {B : Type 0} {Q : B → World A → Type 0} (k : ℕ) (status : LogStatus) (c : Code)
      → Triple P (refuse meanwhile by k status c) Q P
  unfolding refuse
  refuse-Triple k status c = Triple-bind (logged k status) λ _. Triple-fail c (λ w p. p)

  pub check-Triple :
      (k : ℕ) (b : Bool) (status : LogStatus) (c : Code)
      → Keeping P (check meanwhile by k b status c)
  unfolding check
  check-Triple k true status c = Triple-pure tt
  check-Triple k false status c = refuse-Triple k status c

  pub event-Triple :
      (k event : ℕ)
      → Keeping P (
          catch
            (call_get_event meanwhile event)
            (λ _. refuse meanwhile by k invalid ticket_not_found))
  unfolding call_get_event
  event-Triple k event =
      Triple-catch (Keeping-remote _ arrives (λ w p. p))
        (λ _. refuse-Triple k invalid ticket_not_found)

  pub sold-Triple : (t : Ticket) → Keeping P (read_sold meanwhile by t)
  unfolding read_sold
  sold-Triple t = or_default-Triple false (Keeping-remote _ arrives (λ w p. p))

  pub logs-Triple : (k : ℕ) → Keeping P (or_default [] (call_get_ticket_logs meanwhile k))
  unfolding call_get_ticket_logs
  logs-Triple k = or_default-Triple [] (Keeping-remote _ arrives (λ w p. p))

module _ {A : Type 0} (meanwhile : ℕ → World A → World A) (alone : LeavesTickets meanwhile)
    (by : Gatekeeper) (tickets : Table Ticket) where
  abbrev Same : World A → Type 0
  Same w = w.tickets ≡ tickets

  abbrev Any : Unit {0} → World A → Type 0
  Any _ w = Unit {0}

  same-Arrives : Arrives meanwhile Same
  same-Arrives = tickets-Arrives (λ rows. rows ≡ tickets) (λ n w h. alone n w ∙ h)

  log-Same : (k : ℕ) (status : LogStatus) → Keeping Same (log meanwhile by k status)
  unfolding log call_create_ticket_log at_logs
  log-Same k status = Triple-ignore (Keeping-remote _ same-Arrives (λ w h. h))

  -- After the PATCH no error is answered.
  admitted :
      (k : ℕ)
      → Triple Same
          (ignore (call_update_ticket meanwhile k as_used) >> log meanwhile by k checked_in)
          Any
          Same
  unfolding log
  admitted k = record { run = λ w h. tt }

  admit-Same : (k : ℕ) (t : Ticket) → Triple Same (admit meanwhile by k t) Any Same
  unfolding admit let_in
  admit-Same k t = Triple-bind (event-Triple same-Arrives by log-Same k t.event_id) λ event.
      Triple-bind (sold-Triple same-Arrives by log-Same t) λ sold.
        Triple-bind (check-Triple same-Arrives by log-Same k sold invalid ticket_not_found) λ _.
          Triple-bind
            (check-Triple same-Arrives by log-Same k (is_active t.status) invalid qr_invalid)
            λ _. Triple-bind (logs-Triple same-Arrives by log-Same k) λ logs.
              Triple-bind
                (check-Triple same-Arrives by log-Same k (not (any_checked_in logs)) duplicate
                  already_checked_in)
                λ _.
                  Triple-bind
                    (check-Triple same-Arrives by log-Same k
                      (not (conflicts by.venue_id t.venue_id)) wrong_venue wrong_hall)
                    λ _.
                      Triple-bind
                        (check-Triple same-Arrives by log-Same k
                          (not (conflicts by.selected_event_id t.event_id)) LogStatus.wrong_event
                          wrong_event)
                        λ _. admitted k

  pub manual_verify-Same :
      (body : Option ℕ) → Triple Same (manual_verify meanwhile by body) Any Same
  unfolding manual_verify call_get_ticket
  manual_verify-Same none = Triple-fail validation_error (λ w h. h)
  manual_verify-Same (some k) =
      Triple-bind (Triple-failing ticket_not_found (Keeping-remote _ same-Arrives (λ w h. h)))
        λ t. admit-Same k t

  module _ (ttl skew : ℕ) where
    time-Same : (k : ℕ) (ts : Option ℕ) → Keeping Same (check_time meanwhile by ttl skew k ts)
    unfolding check_time
    time-Same k none = Triple-pure tt
    time-Same k (some ts) = record {
      run = λ w h.
          (Triple-bind
              (check-Triple same-Arrives by log-Same k (not (ltb (w.clock + skew) ts)) invalid
                qr_invalid)
              λ _.
                check-Triple same-Arrives by log-Same k (not (ltb (ts + ttl) w.clock)) expired
                  qr_expired).run
            w h;
    }

    locked-Same :
        (token : Option LockToken) (k : ℕ) (t : Ticket)
        → Triple Same (scan_locked meanwhile by ttl skew token k t) Any Same
    unfolding scan_locked
    locked-Same none k t = Triple-fail concurrent_scan (λ w h. h)
    locked-Same (some token) k t = Triple-bind (time-Same k t.qr_timestamp) λ _. admit-Same k t

    pub scan-Same :
        (retries : ℕ) (redis : LockRedis) (body : Option ℕ)
        → Triple Same (scan meanwhile by ttl skew retries redis body) Any Same
    unfolding scan
    scan-Same retries redis none = Triple-fail validation_error (λ w h. h)
    scan-Same retries redis (some hash) =
        Triple-bind (Triple-failing ticket_not_found (Keeping-remote _ same-Arrives (λ w h. h)))
          λ found. locked-Same (acquire_scan_lock retries redis) found.0 found.1

-- Who is not admitted keeps the ticket as it was: a scan or a manual check that answers an error
-- changes no ticket, whichever of its calls are lost, where no other request does meanwhile.
pub refusals_change_no_ticket :
    {A : Type 0} (meanwhile : ℕ → World A → World A)
    → LeavesTickets meanwhile
    → (by : Gatekeeper) (ttl skew retries : ℕ) (redis : LockRedis) (body : Option ℕ) (w : World A)
    → Ends
        (λ _ v. Unit {0})
        (λ v. v.tickets ≡ w.tickets)
        (scan meanwhile by ttl skew retries redis body w)
      × Ends (λ _ v. Unit {0}) (λ v. v.tickets ≡ w.tickets) (manual_verify meanwhile by body w)
refusals_change_no_ticket meanwhile alone by ttl skew retries redis body w = (
  (scan-Same meanwhile alone by w.tickets ttl skew retries redis body).run w refl,
  (manual_verify-Same meanwhile alone by w.tickets body).run w refl,
)
