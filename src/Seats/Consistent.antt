-- ===== src/Seats/Consistent.antt =====
-- What the columns of a hold may have in a row that is not held, along runs of the service.
use mathlib.Core.Path.{subst}
use native.Mathlib.Decide.{ℕ_discrete}
use ticketremaster_b.Base.{ℕ, suc, ◌≡◌, refl, inl, inr, some, List, [], ◌∷◌, arith}
use ticketremaster_b.Base.Table.{Table, lookup, insert, lookup-insert}
use ticketremaster_b.Seats.Model.{SeatStatus, SeatInventory, SeatState}
use ticketremaster_b.Seats.Routes.{save_rows, new_row}
use ticketremaster_b.Seats.Change.{RowsChange, kept, changed, IsConsistent, Change-IsConsistent}
use ticketremaster_b.Seats.Refine.{
  hold_attempt-RowsChange, release_seat-RowsChange, sell_seat-RowsChange,
  get_seat_status-RowsChange,
}
use ticketremaster_b.Seats.Steps.{
  Step, hold, release, sell, status, batch, redis, Reach, here, next, batch_rows,
}

abbrev pub AllConsistent : Table SeatInventory → Type 0
AllConsistent rows = (k : ℕ) (row : SeatInventory) → lookup k rows ≡ some row → IsConsistent row

insert-AllConsistent :
    (k : ℕ) (row : SeatInventory) (rows : Table SeatInventory)
    → AllConsistent rows
    → IsConsistent row
    → AllConsistent (insert k row rows)
insert-AllConsistent k row rows all one j seen at = elim (ℕ_discrete k j) [
  | yes p ↦ subst IsConsistent (same_row p) one
  | no p ↦ all j seen (ground (arith, lookup-insert k j row rows))
]
  where
    same_row : k ≡ j → row ≡ seen
    same_row p = ground (arith, lookup-insert k j row rows)

RowsChange-AllConsistent :
    {now k : ℕ} {old new : Table SeatInventory}
    → RowsChange now k old new
    → AllConsistent old
    → AllConsistent new
RowsChange-AllConsistent kept all = all
RowsChange-AllConsistent {now} {k} {old} (changed row row' e c) all =
    insert-AllConsistent k row' old all (Change-IsConsistent c)

new_row-IsConsistent :
    (event_id seat_id : ℕ) (st : SeatStatus) → IsConsistent (new_row event_id seat_id st)
new_row-IsConsistent event_id seat_id st = record {
  holder = λ _. refl;
  token = λ _. refl;
  until = λ _. refl;
}

save_rows-AllConsistent :
    (event_id : ℕ) (uuid : ℕ → ℕ) (i : ℕ) (seats : List (ℕ × SeatStatus))
    (rows : Table SeatInventory)
    → AllConsistent rows
    → AllConsistent (save_rows event_id uuid i seats rows)
unfolding save_rows
save_rows-AllConsistent event_id uuid i [] rows all = all
save_rows-AllConsistent event_id uuid i ((seat_id, st) ∷ rest) rows all =
    save_rows-AllConsistent event_id uuid (suc i) rest _
      (insert-AllConsistent _ _ rows all (new_row-IsConsistent event_id seat_id st))

Step-AllConsistent : {s t : SeatState} → Step s t → AllConsistent s.rows → AllConsistent t.rows
Step-AllConsistent {s} (hold req env n) =
    RowsChange-AllConsistent (hold_attempt-RowsChange req env n s)
Step-AllConsistent {s} (release n req env) =
    RowsChange-AllConsistent (release_seat-RowsChange n req env s)
Step-AllConsistent {s} (sell n req env) =
    RowsChange-AllConsistent (sell_seat-RowsChange n req env s)
Step-AllConsistent {s} (status n k env) =
    RowsChange-AllConsistent (get_seat_status-RowsChange n k env s)
Step-AllConsistent {s} (batch event_id uuid fault seats fresh) = λ all.
    elim (batch_rows event_id uuid fault seats s) [
      | inl e ↦ rw e all
      | inr (l, e) ↦ rw e (save_rows-AllConsistent event_id uuid 0 l s.rows all)
    ]
Step-AllConsistent (redis holds releases) = λ all. all

-- From rows of which only the held ones name a holder, a token or a time, any run of the service,
-- one call after another, leads to such rows.
pub Reach-AllConsistent :
    {s t : SeatState} → Reach s t → AllConsistent s.rows → AllConsistent t.rows
Reach-AllConsistent here all = all
Reach-AllConsistent (next r st) all = Step-AllConsistent st (Reach-AllConsistent r all)
