-- ===== src/Services/Logs.antt =====
-- services/ticket-log-service: models.py and routes.py. The newest entry comes first; a time is in
-- seconds.
use ticketremaster_b.Base.{ℕ, Bool, true, false, Option, none, some, List, [], ◌∷◌, ◌==◌, ◌||◌}
use ticketremaster_b.Base.Lists.{select}
use ticketremaster_b.Web.{Result, ok, err, validation_error}

-- The texts of `status` that the program writes, and any other.
pub data LogStatus : Type 0 where
  checked_in duplicate wrong_venue wrong_event invalid expired : LogStatus
  other : ℕ → LogStatus

unfoldable pub is_checked_in : LogStatus → Bool
is_checked_in checked_in = true
is_checked_in _ = false

-- `class TicketLog`, without its key
pub record TicketLog : Type 0 where
  pub ticket_id : ℕ
  pub staff_id : ℕ
  pub status : LogStatus
  pub timestamp : ℕ

-- The body of POST /ticket-logs with its required fields.
pub record NewLog : Type 0 where
  pub ticket_id : ℕ
  pub staff_id : ℕ
  pub status : LogStatus

-- `create_ticket_log`
unfoldable pub create_ticket_log :
    ℕ → Option NewLog → List TicketLog → Result TicketLog × List TicketLog
create_ticket_log now none logs = (err validation_error, logs)
create_ticket_log now (some body) logs =
    let log : TicketLog = record {
      ticket_id = body.ticket_id;
      staff_id = body.staff_id;
      status = body.status;
      timestamp = now;
    } in
    (ok log, log ∷ logs)

abbrev about : ℕ → TicketLog → Bool
about ticket_id log = log.ticket_id == ticket_id

-- `get_ticket_logs_by_ticket_id`
unfoldable pub get_ticket_logs : ℕ → List TicketLog → List TicketLog
get_ticket_logs ticket_id logs = select (about ticket_id) logs

-- `any(log["status"] == "checked_in" for log in ...)`
unfoldable pub any_checked_in : List TicketLog → Bool
any_checked_in [] = false
any_checked_in (log ∷ logs) = let later = any_checked_in logs in is_checked_in log.status || later
