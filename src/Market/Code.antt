-- ===== src/Market/Code.antt =====
-- orchestrators/qr-orchestrator/routes.py: the code of a ticket. SHA-256 is the argument `hash`;
-- the event and the venue that decorate an answer are left out.
use ticketremaster_b.Base.{ℕ, ◌+◌, some, ◌==◌}
use ticketremaster_b.Web.{internal_error, auth_forbidden, qr_invalid, at}
use ticketremaster_b.Services.Tickets
use ticketremaster_b.Services.Tickets.{Ticket, TicketPatch, is_active, find_qr}
use ticketremaster_b.World.Model.{World, Action, pure, failing, catch, ◌>>=◌, ◌>>◌, require}
use ticketremaster_b.World.Calls.{remote, call_update_ticket}
use ticketremaster_b.Market.Resale.{ticket_error, read_ticket}

-- The code that is shown, until its time.
pub record QrCode : Type 0 where
  pub qr_hash : ℕ
  pub generated_at : ℕ
  pub expires_at : ℕ

abbrev pub with_code : ℕ → ℕ → TicketPatch
with_code hash now = record Tickets.no_patch {
  qr_hash = some (some hash);
  qr_timestamp = some (at now);
}

abbrev pub shown_code : ℕ → ℕ → ℕ → QrCode
shown_code ttl hash now = record { qr_hash = hash; generated_at = now; expires_at = now + ttl }

module _ {A : Type 0} (meanwhile : ℕ → World A → World A) (hash : ℕ → ℕ → ℕ → ℕ → ℕ → ℕ)
    (qr_ttl : ℕ) where
  -- `_generate_qr` and the PATCH, at the time that the clock shows.
  unfoldable pub refresh : ℕ → ℕ → Ticket → Action A QrCode
  refresh user_id ticket_id t w =
      let now = w.clock in
      let code = hash ticket_id user_id t.event_id t.venue_id now in
      (failing internal_error (call_update_ticket meanwhile ticket_id (with_code code now)) >>= λ _.
      pure (shown_code qr_ttl code now))
        w

  unfoldable pub qr_found : ℕ → ℕ → Ticket → Action A QrCode
  qr_found user_id ticket_id t = do
    require (t.owner_id == user_id) auth_forbidden
    require (is_active t.status) qr_invalid
    refresh user_id ticket_id t

  -- `get_qr`
  unfoldable pub get_qr : ℕ → ℕ → Action A QrCode
  get_qr user_id ticket_id = read_ticket meanwhile ticket_id >>= qr_found user_id ticket_id

  unfoldable pub context_found : ℕ → ℕ × Ticket → Action A (ℕ × Ticket)
  context_found user_id (ticket_id, t) = do
    require (t.owner_id == user_id) auth_forbidden
    pure (ticket_id, t)

  -- `get_ticket_context_by_qr`
  unfoldable pub get_ticket_context_by_qr : ℕ → ℕ → Action A (ℕ × Ticket)
  get_ticket_context_by_qr user_id qr_hash =
      catch (remote meanwhile (λ w. (find_qr qr_hash w.tickets, w))) (ticket_error meanwhile)
      >>= context_found user_id
