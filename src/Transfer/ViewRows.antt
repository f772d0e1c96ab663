-- ===== src/Transfer/ViewRows.antt =====
-- Tests on all rows of a table, and the dict of `get_pending_transfers` in
-- orchestrators/transfer-orchestrator/routes.py.
use ticketremaster_b.Base.{
  ℕ, ◌≡◌, refl, sym, ap, ◌∙◌, Bool, true, none, [], ◌∷◌, ◌++◌, ◌==◌, arith, Bool-cases, inl, inr,
}
use ticketremaster_b.Base.Lists.{select}
use ticketremaster_b.Base.Table.{Table, lookup, insert, lookup-insert}
use ticketremaster_b.Services.Transfers.{Transfer}
use ticketremaster_b.Transfer.Views.{unique_from}

-- Every row passes the test.
abbrev pub AllPass : (ℕ × Transfer → Bool) → Table Transfer → Type 0
AllPass f [] = Unit
AllPass f (row ∷ rows) = (f row ≡ true) × AllPass f rows

-- No key stands twice.
abbrev pub IsUnique : Table Transfer → Type 0
IsUnique [] = Unit
IsUnique ((k, t) ∷ rows) = (lookup k rows ≡ none) × IsUnique rows

pub select-AllPass : (f : ℕ × Transfer → Bool) (rows : Table Transfer) → AllPass f (select f rows)
unfolding select
select-AllPass f [] = tt
select-AllPass f (row ∷ rows) = elim (Bool-cases (f row)) [
  | inl p ↦ rw p (p, select-AllPass f rows)
  | inr p ↦ rw p (select-AllPass f rows)
]

pub AllPass-weaken :
    (f g : ℕ × Transfer → Bool) (rows : Table Transfer)
    → ((row : ℕ × Transfer) → f row ≡ true → g row ≡ true)
    → AllPass f rows
    → AllPass g rows
AllPass-weaken f g [] h a = tt
AllPass-weaken f g (row ∷ rows) h (p, a) = (h row p, AllPass-weaken f g rows h a)

pub AllPass-append :
    (f : ℕ × Transfer → Bool) (xs ys : Table Transfer)
    → AllPass f xs
    → AllPass f ys
    → AllPass f (xs ++ ys)
AllPass-append f [] ys a b = b
AllPass-append f (x ∷ xs) ys (p, a) b = (p, AllPass-append f xs ys a b)

insert-AllPass :
    (f : ℕ × Transfer → Bool) (k : ℕ) (t : Transfer) (rows : Table Transfer)
    → f (k, t) ≡ true
    → AllPass f rows
    → AllPass f (insert k t rows)
unfolding insert
insert-AllPass f k t [] p a = (p, tt)
insert-AllPass f k t ((j, u) ∷ rows) p (q, a) = elim (Bool-cases (j == k)) [
  | inl e ↦ rw e (p, a)
  | inr e ↦ rw e (q, insert-AllPass f k t rows p a)
]

same_key : (j k : ℕ) → j == k ≡ true → j ≡ k
same_key j k e = ground arith

insert-IsUnique :
    (k : ℕ) (t : Transfer) (rows : Table Transfer) → IsUnique rows → IsUnique (insert k t rows)
unfolding insert lookup
insert-IsUnique k t [] a = (refl, tt)
insert-IsUnique k t ((j, u) ∷ rows) (p, a) = elim (Bool-cases (j == k)) [
  | inl e ↦ rw e (sym (ap (λ i. lookup i rows) (same_key j k e)) ∙ p, a)
  | inr e ↦ rw e (ground (arith, lookup-insert k j t rows), insert-IsUnique k t rows a)
]

pub unique_from-IsUnique :
    (seen rows : Table Transfer) → IsUnique seen → IsUnique (unique_from seen rows)
unfolding unique_from
unique_from-IsUnique seen [] a = a
unique_from-IsUnique seen ((k, t) ∷ rows) a =
    unique_from-IsUnique (insert k t seen) rows (insert-IsUnique k t seen a)

pub unique_from-AllPass :
    (f : ℕ × Transfer → Bool) (seen rows : Table Transfer)
    → AllPass f seen
    → AllPass f rows
    → AllPass f (unique_from seen rows)
unfolding unique_from
unique_from-AllPass f seen [] a b = a
unique_from-AllPass f seen ((k, t) ∷ rows) a (p, b) =
    unique_from-AllPass f (insert k t seen) rows (insert-AllPass f k t seen p a) b
