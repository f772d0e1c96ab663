-- ===== src/Purchase/OneTicket.antt =====
-- The statement that no seat has two tickets, and what single writes do to it.
use mathlib.Core.Path.{subst}
use ticketremaster_b.Base.{
  ℕ, ◌≡◌, ◌≢◌, refl, ap, ◌⊎◌, inl, inr, ◌∙◌, sym, true, Option, none, some, arith,
}
use ticketremaster_b.Base.Table.{lookup, insert, insert_inv}
use ticketremaster_b.Seats.Model.{is_sold, is_held, SeatInventory, SeatState}
use ticketremaster_b.Seats.Change.{Change-not_sold}
use ticketremaster_b.Seats.Steps.{Step, Step-Follows}
use ticketremaster_b.Services.Tickets.{Ticket}
use ticketremaster_b.World.Model.{World}

abbrev pub IsSold : Option SeatInventory → Type 0
IsSold none = ⊥
IsSold (some row) = is_sold row.status ≡ true

-- Two tickets are never for the same seat, and the seat of each ticket is sold. `reserved` is a
-- seat that some request has sold and not yet made a ticket for: it is sold and has no ticket.
pub record OneTicket {A : Type 0} (reserved : Option ℕ) (w : World A) : Type 0 where
  pub unique :
      (i j : ℕ) (t u : Ticket)
      → lookup i w.tickets ≡ some t
      → lookup j w.tickets ≡ some u
      → t.inventory_id ≡ u.inventory_id
      → i ≡ j
  pub sold :
      (i : ℕ) (t : Ticket)
      → lookup i w.tickets ≡ some t
      → IsSold (lookup t.inventory_id w.seats.rows)
  pub kept_sold : (k : ℕ) → reserved ≡ some k → IsSold (lookup k w.seats.rows)
  pub no_ticket :
      (k : ℕ)
      → reserved ≡ some k
      → (i : ℕ) (t : Ticket) → lookup i w.tickets ≡ some t
      → t.inventory_id ≢ k

-- A step of the seat service leaves a sold seat sold.
Step-IsSold :
    {s s' : SeatState} (k : ℕ) → Step s s' → IsSold (lookup k s.rows) → IsSold (lookup k s'.rows)
Step-IsSold {s} {s'} k st h = go (lookup k s.rows) refl h
  where
    go :
        (found : Option SeatInventory)
        → lookup k s.rows ≡ found
        → IsSold found
        → IsSold (lookup k s'.rows)
    go none e h = absurd h
    go (some row) e h = elim (Step-Follows st k row e) [
      | inl same_row ↦ rw same_row h
      | inr (row', e', c) ↦ absurd (Change-not_sold c h)
    ]

pub seats-OneTicket :
    {A : Type 0} (reserved : Option ℕ) (w : World A) (s : SeatState)
    → Step w.seats s
    → OneTicket reserved w
    → OneTicket reserved (record w { seats = s })
seats-OneTicket reserved w s st h = record {
  unique = h.unique;
  sold = λ i t e. Step-IsSold t.inventory_id st (h.sold i t e);
  kept_sold = λ k e. Step-IsSold k st (h.kept_sold k e);
  no_ticket = h.no_ticket;
}

-- The statement is about the tickets and the rows of the seats alone.
pub frame-OneTicket :
    {A : Type 0} {reserved : Option ℕ} {w : World A} (v : World A)
    → v.tickets ≡ w.tickets
    → v.seats.rows ≡ w.seats.rows
    → OneTicket reserved w
    → OneTicket reserved v
frame-OneTicket v et es h = record {
  unique = λ i j t u. rw et (h.unique i j t u);
  sold = λ i t. rw (et, es) (h.sold i t);
  kept_sold = λ k. rw es (h.kept_sold k);
  no_ticket = λ k e i t. rw et (h.no_ticket k e i t);
}

-- A seat that this request has sold: it is reserved beside what others have reserved.
abbrev pub Own : {A : Type 0} → Option ℕ → ℕ → World A → Type 0
Own reserved k w = OneTicket reserved w × OneTicket (some k) w × (reserved ≢ some k)

same_seat : {a b : ℕ} → some a ≡ some b → a ≡ b
same_seat p = cc

pub not_both : (row : SeatInventory) → is_held row.status ≡ true → is_sold row.status ≡ true → ⊥
unfolding is_held is_sold
not_both row h k = ground arith

-- A held seat has no ticket, and is reserved by nobody.
pub reserve :
    {A : Type 0} (reserved : Option ℕ) (k : ℕ) (w : World A) (row : SeatInventory) (s : SeatState)
    → OneTicket reserved w
    → lookup k w.seats.rows ≡ some row
    → is_held row.status ≡ true
    → Step w.seats s
    → IsSold (lookup k s.rows)
    → Own reserved k (record w { seats = s })
reserve reserved k w row s h e held_row st sold_now = (
  seats-OneTicket reserved w s st h,
  record {
    unique = h.unique;
    sold = λ i t at. Step-IsSold t.inventory_id st (h.sold i t at);
    kept_sold = λ j same_key. subst (λ x. IsSold (lookup x s.rows)) (same_seat same_key) sold_now;
    no_ticket =
        λ j same_key i t at for_j. held_not_sold (h.sold i t at) (for_j ∙ sym (same_seat same_key));
  },
  λ same_key. absurd (clash (h.kept_sold k same_key)),
)
  where
    clash : IsSold (lookup k w.seats.rows) → ⊥
    clash q = not_both row held_row (rw e at q)

    held_not_sold : {j : ℕ} → IsSold (lookup j w.seats.rows) → j ≡ k → ⊥
    held_not_sold q p = clash (subst (λ x. IsSold (lookup x w.seats.rows)) p q)

-- A new ticket for the reserved seat.
pub create-OneTicket :
    {A : Type 0} (reserved : Option ℕ) (k i : ℕ) (t : Ticket) (w : World A)
    → Own reserved k w
    → t.inventory_id ≡ k
    → OneTicket reserved (record w { tickets = insert i t w.tickets })
create-OneTicket reserved k i t w (h, own, other) for_k = record {
  unique = λ a b x y ea eb p. pair a b x y p (insert_inv i a t x _ ea) (insert_inv i b t y _ eb);
  sold = λ a x e. seat_sold a x (insert_inv i a t x _ e);
  kept_sold = h.kept_sold;
  no_ticket = λ j r a x e p. not_reserved j r a x p (insert_inv i a t x _ e);
}
  where
    At : ℕ → Ticket → Type 0
    At a x = ((a ≡ i) × (t ≡ x)) ⊎ (lookup a w.tickets ≡ some x)

    none_before :
        (b : ℕ) (y : Ticket) → lookup b w.tickets ≡ some y → t.inventory_id ≢ y.inventory_id
    none_before b y e p = own.no_ticket k refl b y e (sym p ∙ for_k)

    pair : (a b : ℕ) (x y : Ticket) → x.inventory_id ≡ y.inventory_id → At a x → At b y → a ≡ b
    pair a b x y p (inl (pa, qa)) (inl (pb, qb)) = pa ∙ sym pb
    pair a b x y p (inl (pa, qa)) (inr eb) =
        absurd (none_before b y eb (ap (λ (z : Ticket). z.inventory_id) qa ∙ p))
    pair a b x y p (inr ea) (inl (pb, qb)) =
        absurd (none_before a x ea (ap (λ (z : Ticket). z.inventory_id) qb ∙ sym p))
    pair a b x y p (inr ea) (inr eb) = h.unique a b x y ea eb p

    seat_sold : (a : ℕ) (x : Ticket) → At a x → IsSold (lookup x.inventory_id w.seats.rows)
    seat_sold a x (inl (pa, qa)) =
        subst (λ j. IsSold (lookup j w.seats.rows))
          (sym for_k ∙ ap (λ (z : Ticket). z.inventory_id) qa) (own.kept_sold k refl)
    seat_sold a x (inr e) = h.sold a x e

    not_reserved :
        (j : ℕ) → reserved ≡ some j → (a : ℕ) (x : Ticket) → x.inventory_id ≡ j → At a x → ⊥
    not_reserved j r a x p (inl (pa, qa)) =
        other (r ∙ ap some (sym p ∙ ap (λ (z : Ticket). z.inventory_id) (sym qa) ∙ for_k))
    not_reserved j r a x p (inr e) = h.no_ticket j r a x e p

-- A write to a ticket that keeps its seat.
pub update-OneTicket :
    {A : Type 0} (reserved : Option ℕ) (i : ℕ) (t t' : Ticket) (w : World A)
    → OneTicket reserved w
    → lookup i w.tickets ≡ some t
    → t'.inventory_id ≡ t.inventory_id
    → OneTicket reserved (record w { tickets = insert i t' w.tickets })
update-OneTicket reserved i t t' w h e same_inventory = record {
  unique = λ a b x y ea eb p.
      let (x₀, ea₀, px) = before a x ea in
      let (y₀, eb₀, py) = before b y eb in h.unique a b x₀ y₀ ea₀ eb₀ (sym px ∙ p ∙ py);
  sold = λ a x ex.
      let (x₀, e₀, px) = before a x ex in
      subst (λ j. IsSold (lookup j w.seats.rows)) (sym px) (h.sold a x₀ e₀);
  kept_sold = h.kept_sold;
  no_ticket =
      λ j r a x ex p. let (x₀, e₀, px) = before a x ex in h.no_ticket j r a x₀ e₀ (sym px ∙ p);
}
  where
    before_at :
        (a : ℕ) (x : Ticket)
        → ((a ≡ i) × (t' ≡ x)) ⊎ (lookup a w.tickets ≡ some x)
        → (x₀ : Ticket) × (lookup a w.tickets ≡ some x₀) × (x.inventory_id ≡ x₀.inventory_id)
    before_at a x (inl (pa, qa)) =
        (t, rw pa e, ap (λ (z : Ticket). z.inventory_id) (sym qa) ∙ same_inventory)
    before_at a x (inr ex) = (x, ex, refl)

    before :
        (a : ℕ) (x : Ticket)
        → lookup a (insert i t' w.tickets) ≡ some x
        → (x₀ : Ticket) × (lookup a w.tickets ≡ some x₀) × (x.inventory_id ≡ x₀.inventory_id)
    before a x ex = before_at a x (insert_inv i a t' x _ ex)
