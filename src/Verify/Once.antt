-- ===== src/Verify/Once.antt =====
-- One admission for each ticket, where every call is delivered and no other request comes between.
use ticketremaster_b.Base.{ℕ, ◌≡◌, refl, Bool, true, false, some, List, [], not, arith}
use ticketremaster_b.Base.Lists.{select}
use ticketremaster_b.Web.{
  Result, ok, err, ticket_not_found, qr_invalid, already_checked_in, wrong_hall, wrong_event,
}
use ticketremaster_b.Services.Tickets.{Ticket, is_active}
use ticketremaster_b.Services.Logs.{
  LogStatus, TicketLog, NewLog, create_ticket_log, get_ticket_logs, any_checked_in, is_checked_in,
  checked_in, duplicate, wrong_venue, invalid,
}
use ticketremaster_b.World.Model.{World, Action, ◌>>◌}
use ticketremaster_b.World.Calls.{
  arrive, spend_fate, next_fate, meet, remote, at_logs, at_tickets, call_update_ticket,
  call_get_ticket_logs, call_create_ticket_log,
}
use ticketremaster_b.World.Hoare.{Ends, Triple, Triple-bind, Triple-weaken, Triple-ignore, Keeping}
use ticketremaster_b.World.Calm.{alone, Calm, Calm-Arrives}
use ticketremaster_b.World.Frame.{Arrives, Keeping-remote}
use ticketremaster_b.Verify.Refusal.{
  refuse-Triple, check-Triple, event-Triple, sold-Triple, logs-Triple,
}
use ticketremaster_b.Verify.Scan.{
  Gatekeeper, conflicts, as_used, or_default, log, check, let_in, admit,
}

-- Whether the entries of a ticket have an admission.
unfoldable pub admitted : ℕ → List TicketLog → Bool
admitted k logs = any_checked_in (get_ticket_logs k logs)

abbrev Admitted : {A : Type 0} → ℕ → World A → Type 0
Admitted k w = (w.fates ≡ []) × (admitted k w.logs ≡ true)

entry_keeps :
    (k now : ℕ) (body : NewLog) (logs : List TicketLog)
    → admitted k logs ≡ true
    → admitted k (create_ticket_log now (some body) logs).1 ≡ true
unfolding admitted create_ticket_log get_ticket_logs select any_checked_in
entry_keeps k now body logs h = ground (arith, h)

entry_admits :
    (k staff now : ℕ) (logs : List TicketLog)
    → admitted k
        (create_ticket_log now
          (some (record { ticket_id = k; staff_id = staff; status = checked_in }))
          logs).1
      ≡ true
unfolding admitted create_ticket_log get_ticket_logs select any_checked_in is_checked_in
entry_admits k staff now logs = ground arith

module _ {A : Type 0} where
  Admitted-Arrives : (k : ℕ) → Arrives {A = A} alone (Admitted k)
  unfolding arrive spend_fate
  Admitted-Arrives k = record { served = λ w h. ground (arith, h.0, h.1) }

module _ {A : Type 0} (by : Gatekeeper) where
  log-Calm : (k : ℕ) (status : LogStatus) → Keeping {A = A} Calm (log alone by k status)
  unfolding log call_create_ticket_log at_logs
  log-Calm k status = Triple-ignore (Keeping-remote _ Calm-Arrives (λ w h. h))

  log-Admitted :
      (j k : ℕ) (status : LogStatus) → Keeping {A = A} (Admitted j) (log alone by k status)
  unfolding log call_create_ticket_log at_logs
  log-Admitted j k status =
      Triple-ignore
        (Keeping-remote _ (Admitted-Arrives j) (λ w h. (h.0, entry_keeps j w.clock _ w.logs h.1)))

  -- The entry of an admission is delivered.
  entry_written : (k : ℕ) (w : World A) → Calm w → Admitted k (log alone by k checked_in w).1
  unfolding log call_create_ticket_log remote arrive next_fate spend_fate meet at_logs
  entry_written k w h = rw h (refl, entry_admits k by.staff_id w.clock w.logs)

  update-Calm : (k : ℕ) → Keeping {A = A} Calm (call_update_ticket alone k as_used)
  unfolding call_update_ticket at_tickets
  update-Calm k = Keeping-remote _ Calm-Arrives (λ w h. h)

  written_last :
      (k : ℕ) → Triple {A = A} Calm (log alone by k checked_in) (λ _ w. Admitted k w) Calm
  written_last k = record { run = λ w h. unfold log in entry_written k w h }

  admits :
      (k : ℕ) (t : Ticket) → Triple {A = A} Calm (admit alone by k t) (λ _ w. Admitted k w) Calm
  unfolding admit let_in
  admits k t = Triple-bind (event-Triple Calm-Arrives by log-Calm k t.event_id) λ event.
      Triple-bind (sold-Triple Calm-Arrives by log-Calm t) λ sold.
        Triple-bind (check-Triple Calm-Arrives by log-Calm k sold invalid ticket_not_found) λ _.
          Triple-bind
            (check-Triple Calm-Arrives by log-Calm k (is_active t.status) invalid qr_invalid)
            λ _. Triple-bind (logs-Triple Calm-Arrives by log-Calm k) λ logs.
              Triple-bind
                (check-Triple Calm-Arrives by log-Calm k (not (any_checked_in logs)) duplicate
                  already_checked_in)
                λ _.
                  Triple-bind
                    (check-Triple Calm-Arrives by log-Calm k
                      (not (conflicts by.venue_id t.venue_id)) wrong_venue wrong_hall)
                    λ _.
                      Triple-bind
                        (check-Triple Calm-Arrives by log-Calm k
                          (not (conflicts by.selected_event_id t.event_id)) LogStatus.wrong_event
                          wrong_event)
                        λ _. Triple-bind (Triple-ignore (update-Calm k)) λ _. written_last k

  abbrev Never : Unit {0} → World A → Type 0
  Never _ w = ⊥

  -- The entries that are read have the admission.
  abbrev Seen : ℕ → List TicketLog → World A → Type 0
  Seen k logs w = Admitted k w × (any_checked_in logs ≡ true)

  logs-Seen :
      (k : ℕ)
      → Triple (Admitted k) (or_default [] (call_get_ticket_logs alone k)) (Seen k) (Admitted k)
  unfolding or_default call_get_ticket_logs remote arrive next_fate spend_fate meet admitted
  logs-Seen k = record { run = λ w h. rw h.0 ((refl, h.1), h.1) }

  stopped :
      (k : ℕ) (b : Bool) (m : Action A (Unit {0}))
      → b ≡ true
      → Triple
          (Admitted k)
          (check alone by k (not b) duplicate already_checked_in >> m)
          Never
          (Admitted k)
  unfolding check
  stopped k true m e =
      Triple-bind {f = λ _. m}
        (refuse-Triple (Admitted-Arrives k) by (log-Admitted k) {Q = Never} k duplicate
          already_checked_in)
        λ _. record { run = λ w h. absurd h }
  stopped k false m e = absurd (ground arith)

  refuses : (k : ℕ) (t : Ticket) → Triple (Admitted k) (admit alone by k t) Never (Admitted k)
  unfolding admit
  refuses k t =
      let a = Admitted-Arrives k in
      Triple-bind (event-Triple a by (log-Admitted k) k t.event_id) λ event.
        Triple-bind (sold-Triple a by (log-Admitted k) t) λ sold.
          Triple-bind (check-Triple a by (log-Admitted k) k sold invalid ticket_not_found) λ _.
            Triple-bind
              (check-Triple a by (log-Admitted k) k (is_active t.status) invalid qr_invalid)
              λ _. Triple-bind (logs-Seen k) λ logs. record {
                run = λ w h. (stopped k (any_checked_in logs) (let_in alone by k t) h.1).run w h.0;
              }

ended_well :
    {A : Type 0} (Q E : World A → Type 0) (r : Result (Unit {0}) × World A)
    → Ends (λ _ v. Q v) E r
    → r.0 ≡ ok tt
    → Q r.1
ended_well Q E (ok b, w) h e = h
ended_well Q E (err c, w) h e = absurd (ground arith)

-- A ticket is admitted once: where every call is delivered and nothing else happens in between,
-- after `admit`, with which both routes end, has let a ticket in, it refuses the same ticket,
-- whoever checks it and whatever was read of it.
pub admit_once :
    {A : Type 0} (by by' : Gatekeeper) (k : ℕ) (t t' : Ticket) (w : World A)
    → w.fates ≡ []
    → (admit alone by k t w).0 ≡ ok tt
    → Ends
        (λ _ v. ⊥)
        (λ v. admitted k v.logs ≡ true)
        (admit alone by' k t' (admit alone by k t w).1)
admit_once by by' k t t' w calm done =
    (Triple-weaken (refuses by' k t') (λ _ v h. h) (λ v h. h.1)).run (admit alone by k t w).1
      (ended_well (Admitted k) Calm (admit alone by k t w) ((admits by k t).run w calm) done)
