-- ===== src/Services/TicketLaws.antt =====
-- What the routes of services/ticket-service do to the rows.
use mathlib.Core.Path.{subst}
use ticketremaster_b.Base.{
  ℕ, ◌≡◌, refl, ◌⊎◌, inl, inr, true, false, Option, none, some, ◌||◌, arith, Bool-cases,
}
use ticketremaster_b.Base.Table.{Table, lookup, insert, insert_inv}
use ticketremaster_b.Web.{Result, ok, err}
use ticketremaster_b.Services.Tickets.{
  is_allowed, Ticket, NewTicket, status_or_active, to_ticket, create_ticket, TicketPatch, is_empty,
  bad_status, bad_stamp, patched, hash_taken, update_found, update_ticket,
}

abbrev pub NoChange : {B : Type 0} → Table Ticket → Result B × Table Ticket → Type 0
NoChange {B} old (ok b, new) = ⊥
NoChange {B} old (err c, new) = new ≡ old

-- POST /tickets refuses and changes nothing, or adds one ticket with the fields of the body, and
-- then its status is allowed.
pub create_ticket_effect :
    (k hash now : ℕ) (body : NewTicket) (tickets : Table Ticket)
    → NoChange tickets (create_ticket k hash now (some body) tickets)
      ⊎ ((create_ticket k hash now (some body) tickets
            ≡ (ok k, insert k (to_ticket hash now body) tickets))
          × (is_allowed (to_ticket hash now body).status ≡ true))
unfolding create_ticket
create_ticket_effect k hash now body tickets =
    elim (Bool-cases (is_allowed (status_or_active body.status))) [
      | inl a ↦ inr (rw a, a)
      | inr a ↦ inl (rw a refl)
    ]

update_found_effect :
    (k : ℕ) (p : TicketPatch) (found : Option Ticket) (tickets : Table Ticket)
    → NoChange tickets (update_found k p found tickets)
      ⊎ ((t : Ticket) × (found ≡ some t)
          × (update_found k p found tickets ≡ (ok (patched p t), insert k (patched p t) tickets))
          × (bad_status p.status ≡ false))
unfolding update_found
update_found_effect k p none tickets = inl refl
update_found_effect k p (some t) tickets = elim (Bool-cases (bad_status p.status)) [
  | inl a ↦ inl (rw a refl)
  | inr a ↦ elim (Bool-cases (bad_stamp p.qr_timestamp)) [
    | inl b ↦ inl (rw (a, b) refl)
    | inr b ↦ elim (Bool-cases (hash_taken k (patched p t).qr_hash tickets)) [
      | inl c ↦ inl (rw (a, b, c) refl)
      | inr c ↦ inr (t, refl, rw (a, b, c), a)
    ]
  ]
]

-- PATCH /tickets/<id> refuses and changes nothing, or writes the fields of the body into the row
-- that is there, and then the status that the body has, if any, is allowed.
pub update_ticket_effect :
    (k : ℕ) (p : TicketPatch) (tickets : Table Ticket)
    → NoChange tickets (update_ticket k p tickets)
      ⊎ ((t : Ticket) × (lookup k tickets ≡ some t)
          × (update_ticket k p tickets ≡ (ok (patched p t), insert k (patched p t) tickets))
          × (bad_status p.status ≡ false))
unfolding update_ticket
update_ticket_effect k p tickets = elim (Bool-cases (is_empty p || p.unsupported)) [
  | inl a ↦ inl (rw a refl)
  | inr a ↦ rw a (update_found_effect k p _ tickets)
]

abbrev pub AllAllowed : Table Ticket → Type 0
AllAllowed tickets = (k : ℕ) (t : Ticket) → lookup k tickets ≡ some t → is_allowed t.status ≡ true

insert-AllAllowed :
    (k : ℕ) (t : Ticket) (tickets : Table Ticket)
    → AllAllowed tickets
    → is_allowed t.status ≡ true
    → AllAllowed (insert k t tickets)
insert-AllAllowed k t tickets all one j u at = elim (insert_inv k j t u tickets at) [
  | inl (_, same_ticket) ↦ subst (λ (x : Ticket). is_allowed x.status ≡ true) same_ticket one
  | inr before ↦ all j u before
]

kept_table :
    {B : Type 0} (old : Table Ticket) (r : Result B × Table Ticket)
    → NoChange old r
    → AllAllowed old
    → AllAllowed r.1
kept_table old (ok b, new) h all = absurd h
kept_table old (err c, new) h all = rw h all

patched_allowed :
    (p : TicketPatch) (t : Ticket)
    → bad_status p.status ≡ false
    → is_allowed t.status ≡ true
    → is_allowed (patched p t).status ≡ true
unfolding patched
patched_allowed p t h k = ground arith

-- No route of the ticket service stores a status outside ALLOWED_STATUS_VALUES: where every ticket
-- has an allowed status, a POST and a PATCH, whatever their bodies, lead to such rows.
pub routes-AllAllowed :
    (k hash now : ℕ) (body : NewTicket) (p : TicketPatch) (tickets : Table Ticket)
    → AllAllowed tickets
    → AllAllowed (create_ticket k hash now (some body) tickets).1
      × AllAllowed (update_ticket k p tickets).1
routes-AllAllowed k hash now body p tickets all = (
  elim (create_ticket_effect k hash now body tickets) [
    | inl h ↦ kept_table tickets _ h all
    | inr (e, a) ↦ rw e (insert-AllAllowed k _ tickets all a)
  ],
  elim (update_ticket_effect k p tickets) [
    | inl h ↦ kept_table tickets _ h all
    | inr (t, at, e, good) ↦
        rw e (insert-AllAllowed k _ tickets all (patched_allowed p t good (all k t at)))
  ],
)
