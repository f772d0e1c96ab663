-- ===== src/Seats/Steps.antt =====
-- Runs of the service: calls in any order, each a transaction with no other inside it, and what
-- Redis loses or keeps.
use ticketremaster_b.Base.{
  ℕ, suc, ◌≡◌, refl, ◌≢◌, ◌⊎◌, inl, inr, true, Bool, none, some, List, [], ◌∷◌, arith, ◌==◌, ◌||◌,
  ◌∙◌, Bool-cases,
}
use mathlib.Core.Path.{subst}
use native.Mathlib.Decide.{ℕ_discrete}
use ticketremaster_b.Base.Table.{Table, lookup, lookup-insert}
use ticketremaster_b.Seats.Model.{
  SeatStatus, is_sold, SeatInventory, HoldEntry, ReleaseEntry, SeatState,
}
use ticketremaster_b.Seats.Hold.{HoldSeatRequest, HoldEnv, hold_attempt}
use ticketremaster_b.Seats.Calls.{SeatRequest, CallEnv, release_seat, sell_seat, get_seat_status}
use ticketremaster_b.Seats.Routes.{
  SeatsField, Normalized, normal, invalid, save_rows, save_batch, falsy, not_list, entries,
  normalize, new_row, create_inventory_batch, has_event, repeated_seat,
}
use ticketremaster_b.Seats.Change.{Change, RowsChange, kept, changed, Change-not_sold}
use ticketremaster_b.Seats.Refine.{
  hold_attempt-RowsChange, release_seat-RowsChange, sell_seat-RowsChange,
  get_seat_status-RowsChange,
}

-- `uuid4` gives identifiers that no row has yet.
abbrev pub Fresh : (ℕ → ℕ) → Table SeatInventory → Type 0
Fresh uuid rows = (i : ℕ) → lookup (uuid i) rows ≡ none

pub data Step (s : SeatState) : SeatState → Type 0 where
  hold : (req : HoldSeatRequest) (env : HoldEnv) (n : ℕ) → Step s (hold_attempt req env n s).1
  release : (n : ℕ) (req : SeatRequest) (env : CallEnv) → Step s (release_seat n req env s).1
  sell : (n : ℕ) (req : SeatRequest) (env : CallEnv) → Step s (sell_seat n req env s).1
  status : (n k : ℕ) (env : CallEnv) → Step s (get_seat_status n k env s).1
  batch :
      (event_id : ℕ) (uuid : ℕ → ℕ) (fault : Bool) (seats : SeatsField)
      → Fresh uuid s.rows
      → Step s (create_inventory_batch event_id uuid fault seats s).1
  redis :
      (holds : Table HoldEntry) (releases : List ReleaseEntry)
      → Step s (record s { holds = holds; releases = releases })

pub data Reach (s : SeatState) : SeatState → Type 0 where
  here : Reach s s
  next : {t u : SeatState} → Reach s t → Step t u → Reach s u

-- The clock of the call; the batch route and Redis read none.
unfoldable pub clock_of : {s t : SeatState} → Step s t → ℕ
clock_of (hold req env n) = env.now
clock_of (release n req env) = env.now
clock_of (sell n req env) = env.now
clock_of (status n k env) = env.now
clock_of (batch event_id uuid fault seats fresh) = 0
clock_of (redis holds releases) = 0

-- What a step at a time does to a row that is there: nothing, or one change.
abbrev pub Follows : ℕ → Table SeatInventory → Table SeatInventory → Type 0
Follows now old new =
    (k : ℕ) (row : SeatInventory)
    → lookup k old ≡ some row
    → (lookup k new ≡ some row)
      ⊎ ((row' : SeatInventory) × (lookup k new ≡ some row') × Change now row row')

RowsChange-Follows :
    {now k : ℕ} {old new : Table SeatInventory} → RowsChange now k old new → Follows now old new
RowsChange-Follows kept j seen at = inl at
RowsChange-Follows {now} {k} {old} (changed row row' e c) j seen at = elim (ℕ_discrete k j) [
  | yes p ↦ inr (
    row',
    ground (arith, lookup-insert k j row' old),
    subst (λ r. Change now r row') (same_row p) c,
  )
  | no p ↦ inl (ground (arith, lookup-insert k j row' old))
]
  where
    same_row : k ≡ j → row ≡ seen
    same_row p = ground arith

pub save_rows-keeps :
    (event_id : ℕ) (uuid : ℕ → ℕ) (i : ℕ) (seats : List (ℕ × SeatStatus))
    (rows : Table SeatInventory) (k : ℕ)
    → ((j : ℕ) → uuid j ≢ k)
    → lookup k (save_rows event_id uuid i seats rows) ≡ lookup k rows
unfolding save_rows
save_rows-keeps event_id uuid i [] rows k other = refl
save_rows-keeps event_id uuid i ((seat_id, st) ∷ rest) rows k other =
    save_rows-keeps event_id uuid (suc i) rest _ k other
    ∙ ground (arith, lookup-insert (uuid i) k (new_row event_id seat_id st) rows, other i)

-- The two outcomes of the batch route.
pub batch_rows :
    (event_id : ℕ) (uuid : ℕ → ℕ) (fault : Bool) (seats : SeatsField) (s : SeatState)
    → ((create_inventory_batch event_id uuid fault seats s).1.rows ≡ s.rows)
      ⊎ ((l : List (ℕ × SeatStatus)) × ((create_inventory_batch event_id uuid fault seats s).1.rows
            ≡ save_rows event_id uuid 0 l s.rows))
unfolding create_inventory_batch
batch_rows event_id uuid fault falsy s = inl refl
batch_rows event_id uuid fault not_list s = inl refl
batch_rows event_id uuid fault (entries first rest) s = elim (Bool-cases (event_id == 0)) [
  | inl e ↦ inl (rw e)
  | inr e ↦ rw e (saved (normalize (first ∷ rest)))
]
  where
    saved :
        (l : Normalized)
        → ((save_batch event_id uuid fault l s).1.rows ≡ s.rows)
          ⊎ ((k : List (ℕ × SeatStatus)) × ((save_batch event_id uuid fault l s).1.rows
                ≡ save_rows event_id uuid 0 k s.rows))
    saved (invalid r) = inl (unfold save_batch in refl)
    saved (normal k) = elim (Bool-cases (has_event event_id s.rows)) [
      | inl e ↦ inl (unfold save_batch in rw e)
      | inr e ↦ elim (Bool-cases (fault || repeated_seat k)) [
        | inl d ↦ inl (unfold save_batch in rw (e, d))
        | inr d ↦ inr (k, unfold save_batch in rw (e, d))
      ]
    ]

-- A row that is there before a call of the service, whichever call it is, is there after it as it
-- was or after one change of its life: a free seat or one whose hold has run out is taken, a held
-- seat is freed or sold. Whether a hold has run out is told by the clock of this call. Each call
-- runs without another between its read and its commit, and the keys that the batch route makes are
-- new.
pub Step-Follows : {s t : SeatState} (st : Step s t) → Follows (clock_of st) s.rows t.rows
unfolding clock_of
Step-Follows {s} (hold req env n) = RowsChange-Follows (hold_attempt-RowsChange req env n s)
Step-Follows {s} (release n req env) = RowsChange-Follows (release_seat-RowsChange n req env s)
Step-Follows {s} (sell n req env) = RowsChange-Follows (sell_seat-RowsChange n req env s)
Step-Follows {s} (status n k env) = RowsChange-Follows (get_seat_status-RowsChange n k env s)
Step-Follows {s} (batch event_id uuid fault seats fresh) = λ k row at.
    elim (batch_rows event_id uuid fault seats s) [
      | inl e ↦ inl (rw e at)
      | inr (l, e) ↦
          inl (rw e (save_rows-keeps event_id uuid 0 l s.rows k (λ j same_key. cc (fresh j)) ∙ at))
    ]
Step-Follows (redis holds releases) = λ k row at. inl at

-- A seat that is sold keeps its row, whatever calls come after, if each call runs without another
-- between its read and its commit and the keys that the batch route makes are new.
pub sold_forever :
    {s t : SeatState} (k : ℕ) (row : SeatInventory)
    → Reach s t
    → lookup k s.rows ≡ some row
    → is_sold row.status ≡ true
    → lookup k t.rows ≡ some row
sold_forever k row here at sold_row = at
sold_forever k row (next r st) at sold_row =
    elim (Step-Follows st k row (sold_forever k row r at sold_row)) [
      | inl e ↦ e
      | inr (row', e, c) ↦ absurd (Change-not_sold c sold_row)
    ]
