-- ===== src/Services/Tickets.antt =====
-- services/ticket-service: models.py and routes.py. Prices are whole cents.
use ticketremaster_b.Base.{
  ℕ, Bool, true, false, Option, none, some, [], ◌∷◌, ◌&&◌, ◌||◌, not, ◌==◌, same, if◌then◌else◌,
}
use ticketremaster_b.Base.Int.{ℤ}
use ticketremaster_b.Base.Table.{Table, lookup, insert}
use ticketremaster_b.Web.{
  Result, ok, err, validation_error, ticket_not_found, duplicate_qr_hash, invalid_datetime, Stamp,
  null, unparsable, at,
}

-- The four allowed texts, two that other parts send, and any other.
pub data TicketStatus : Type 0 where
  active listed used pending_transfer : TicketStatus
  payment_failed sold : TicketStatus
  other : ℕ → TicketStatus

-- `status in ALLOWED_STATUS_VALUES`
unfoldable pub is_allowed : TicketStatus → Bool
is_allowed active = true
is_allowed listed = true
is_allowed used = true
is_allowed pending_transfer = true
is_allowed _ = false

unfoldable pub is_active : TicketStatus → Bool
is_active active = true
is_active _ = false

-- `class Ticket`, without its key and `createdAt`
pub record Ticket : Type 0 where
  pub inventory_id : ℕ
  pub owner_id : ℕ
  pub venue_id : ℕ
  pub event_id : ℕ
  pub price : ℤ
  pub status : TicketStatus
  pub qr_hash : Option ℕ
  pub qr_timestamp : Option ℕ

-- The body of POST /tickets with its required fields; `none` for the status is a missing one.
pub record NewTicket : Type 0 where
  pub inventory_id : ℕ
  pub owner_id : ℕ
  pub venue_id : ℕ
  pub event_id : ℕ
  pub price : ℤ
  pub status : Option TicketStatus

abbrev pub status_or_active : Option TicketStatus → TicketStatus
status_or_active none = active
status_or_active (some st) = st

abbrev pub to_ticket : ℕ → ℕ → NewTicket → Ticket
to_ticket qr_hash now body = record {
  inventory_id = body.inventory_id;
  owner_id = body.owner_id;
  venue_id = body.venue_id;
  event_id = body.event_id;
  price = body.price;
  status = status_or_active body.status;
  qr_hash = some qr_hash;
  qr_timestamp = some now;
}

-- `create_ticket`, by `uuid4` for the key and for the hash, and the clock; `none` is a body that is
-- missing or lacks a required field
unfoldable pub create_ticket : ℕ → ℕ → ℕ → Option NewTicket → Table Ticket → Result ℕ × Table Ticket
create_ticket ticket_id qr_hash now none tickets = (err validation_error, tickets)
create_ticket ticket_id qr_hash now (some body) tickets =
    if is_allowed (status_or_active body.status)
    then (ok ticket_id, insert ticket_id (to_ticket qr_hash now body) tickets)
    else (err validation_error, tickets)

-- `get_ticket`
unfoldable pub get_ticket : ℕ → Table Ticket → Result Ticket
get_ticket ticket_id tickets = elim (lookup ticket_id tickets) [
  | none ↦ err ticket_not_found
  | some t ↦ ok t
]

-- `get_ticket_by_qr_hash`
unfoldable pub find_qr : ℕ → Table Ticket → Result (ℕ × Ticket)
find_qr hash [] = err ticket_not_found
find_qr hash ((k, t) ∷ rest) = if same t.qr_hash (some hash) then ok (k, t) else find_qr hash rest

-- The body of PATCH /tickets/<id>: the fields that it has. `qr_hash = some none` is a null.
pub record TicketPatch : Type 0 where
  pub status : Option TicketStatus
  pub owner_id : Option ℕ
  pub qr_hash : Option (Option ℕ)
  pub qr_timestamp : Option Stamp
  pub unsupported : Bool

abbrev pub no_patch : TicketPatch
no_patch = record {
  status = none;
  owner_id = none;
  qr_hash = none;
  qr_timestamp = none;
  unsupported = false;
}

abbrev missing {ℓ} : {A : Type ℓ} → Option A → Bool
missing none = true
missing (some a) = false

-- `not data`
unfoldable pub is_empty : TicketPatch → Bool
is_empty p =
    missing p.status
    && missing p.owner_id
    && missing p.qr_hash
    && missing p.qr_timestamp
    && not p.unsupported

abbrev pub bad_status : Option TicketStatus → Bool
bad_status none = false
bad_status (some st) = not (is_allowed st)

abbrev pub bad_stamp : Option Stamp → Bool
bad_stamp (some unparsable) = true
bad_stamp _ = false

abbrev pub field_or {ℓ} : {A : Type ℓ} → Option A → A → A
field_or none a = a
field_or (some b) a = b

abbrev stamp_or : Option Stamp → Option ℕ → Option ℕ
stamp_or (some null) t = none
stamp_or (some (at n)) t = some n
stamp_or _ t = t

-- the `setattr` loop
unfoldable pub patched : TicketPatch → Ticket → Ticket
patched p t = record t {
  status = field_or p.status t.status;
  owner_id = field_or p.owner_id t.owner_id;
  qr_hash = field_or p.qr_hash t.qr_hash;
  qr_timestamp = stamp_or p.qr_timestamp t.qr_timestamp;
}

-- The unique column `qrHash`: another ticket has this hash.
unfoldable pub hash_taken : ℕ → Option ℕ → Table Ticket → Bool
hash_taken ticket_id none tickets = false
hash_taken ticket_id (some hash) [] = false
hash_taken ticket_id (some hash) ((k, t) ∷ rest) =
    (not (k == ticket_id) && same t.qr_hash (some hash)) || hash_taken ticket_id (some hash) rest

unfoldable pub update_found :
    ℕ → TicketPatch → Option Ticket → Table Ticket → Result Ticket × Table Ticket
update_found ticket_id p none tickets = (err ticket_not_found, tickets)
update_found ticket_id p (some t) tickets =
    if bad_status p.status
    then (err validation_error, tickets)
    else if bad_stamp p.qr_timestamp
    then (err invalid_datetime, tickets)
    else if hash_taken ticket_id (patched p t).qr_hash tickets
    then (err duplicate_qr_hash, tickets)
    else (ok (patched p t), insert ticket_id (patched p t) tickets)

-- `update_ticket`
unfoldable pub update_ticket : ℕ → TicketPatch → Table Ticket → Result Ticket × Table Ticket
update_ticket ticket_id p tickets =
    if is_empty p || p.unsupported
    then (err validation_error, tickets)
    else update_found ticket_id p (lookup ticket_id tickets) tickets
