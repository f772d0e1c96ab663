-- ===== src/World/Frame.antt =====
-- Statements that calls keep: on the transfers, or on the accounts of the credit service.
use ticketremaster_b.Base.{ℕ, suc, ◌≡◌, arith}
use ticketremaster_b.Base.Table.{Table}
use ticketremaster_b.Web.{Result, ok, err}
use ticketremaster_b.Services.Tickets.{Ticket}
use ticketremaster_b.Services.Transfers.{Transfer}
use ticketremaster_b.World.Model.{World, Action}
use ticketremaster_b.World.Calls.{arrive, spend_fate, remote}
use ticketremaster_b.World.Hoare.{Ends, Triple-remote, Keeping}

-- A call that begins where `P` held is served where `P` holds.
pub record Arrives {A : Type 0} (meanwhile : ℕ → World A → World A) (P : World A → Type 0)
    : Type 0 where
  pub served : (w : World A) → P w → P (spend_fate (arrive meanwhile w))

Ends-both :
    {A B : Type 0} (P : World A → Type 0) (r : Result B × World A) → P r.1 → Ends (λ _ w. P w) P r
Ends-both P (ok b, w) h = h
Ends-both P (err c, w) h = h

Ends_either :
    {A B : Type 0} (P : World A → Type 0) (r : Result B × World A) → Ends (λ _ w. P w) P r → P r.1
Ends_either P (ok b, w) h = h
Ends_either P (err c, w) h = h

module _ {A : Type 0} {P : World A → Type 0} where
  -- An action that leaves `P`, by the world that it ends in.
  pub Keeping-of : {B : Type 0} (m : Action A B) → ((w : World A) → P w → P (m w).1) → Keeping P m
  Keeping-of m k = record { run = λ w p. Ends-both P (m w) (k w p) }

  pub after : {B : Type 0} {m : Action A B} → Keeping P m → (w : World A) → P w → P (m w).1
  after {m} t w p = Ends_either P (m w) (t.run w p)

  pub Keeping-remote :
      {B : Type 0} {meanwhile : ℕ → World A → World A} (m : Action A B)
      → Arrives meanwhile P
      → ((w : World A) → P w → P (m w).1)
      → Keeping P (remote meanwhile m)
  Keeping-remote {meanwhile} m a k =
      Triple-remote meanwhile a.served (λ w p. p) (λ b w q. q) (Keeping-of m k)

pub spend_transfers : {A : Type 0} (w : World A) → (spend_fate w).transfers ≡ w.transfers
unfolding spend_fate
spend_transfers w = ground arith

pub spend_account : {A : Type 0} (w : World A) → (spend_fate w).account ≡ w.account
unfolding spend_fate
spend_account w = ground arith

pub spend_tickets : {A : Type 0} (w : World A) → (spend_fate w).tickets ≡ w.tickets
unfolding spend_fate
spend_tickets w = ground arith

module _ {A : Type 0} {meanwhile : ℕ → World A → World A} where
  pub transfers-Arrives :
      (Q : Table Transfer → Type 0)
      → ((n : ℕ) (w : World A) → Q w.transfers → Q (meanwhile n w).transfers)
      → Arrives meanwhile (λ w. Q w.transfers)
  unfolding arrive
  transfers-Arrives Q keeps = record {
    served = λ w h.
        rw (spend_transfers (arrive meanwhile w))
          (keeps w.calls (record w { calls = suc w.calls }) h);
  }

  pub account-Arrives :
      (Q : A → Type 0)
      → ((n : ℕ) (w : World A) → Q w.account → Q (meanwhile n w).account)
      → Arrives meanwhile (λ w. Q w.account)
  unfolding arrive
  account-Arrives Q keeps = record {
    served = λ w h.
        rw (spend_account (arrive meanwhile w))
          (keeps w.calls (record w { calls = suc w.calls }) h);
  }

  pub tickets-Arrives :
      (Q : Table Ticket → Type 0)
      → ((n : ℕ) (w : World A) → Q w.tickets → Q (meanwhile n w).tickets)
      → Arrives meanwhile (λ w. Q w.tickets)
  unfolding arrive
  tickets-Arrives Q keeps = record {
    served = λ w h.
        rw (spend_tickets (arrive meanwhile w))
          (keeps w.calls (record w { calls = suc w.calls }) h);
  }

-- Other requests leave the tickets alone.
abbrev pub LeavesTickets : {A : Type 0} → (ℕ → World A → World A) → Type 0
LeavesTickets {A} meanwhile = (n : ℕ) (w : World A) → (meanwhile n w).tickets ≡ w.tickets
