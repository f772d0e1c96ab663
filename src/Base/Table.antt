-- ===== src/Base/Table.antt =====
-- Rows by key, as an association list: a database table by its primary key, or a key space of
-- Redis. `erase` is the deletion of a key.
use Prim.Native.Nat.{ℕ}
use mathlib.Core.Path.{◌≡◌, sym}
use mathlib.Core.Option.{Option, none, some}
use mathlib.Core.List.{List, [], ◌∷◌}
use native.Mathlib.Omega.{arith}
use native.Mathlib.Decide.{ℕ_discrete}
use mathlib.Core.Logic.{◌≢◌, ◌⊎◌, inl, inr}
use ticketremaster_b.Base.Tests.{◌==◌, if◌then◌else◌}

abbrev pub Table {ℓ} : Type ℓ → Type ℓ
Table V = List (ℕ × V)

module _ {ℓ} {V : Type ℓ} where
  unfoldable pub lookup : ℕ → Table V → Option V
  lookup k [] = none
  lookup k ((j, v) ∷ t) = if j == k then some v else lookup k t

  unfoldable pub insert : ℕ → V → Table V → Table V
  insert k v [] = (k, v) ∷ []
  insert k v ((j, w) ∷ t) = if j == k then (k, v) ∷ t else (j, w) ∷ insert k v t

  unfoldable pub erase : ℕ → Table V → Table V
  erase k [] = []
  erase k ((j, w) ∷ t) = let rest = erase k t in if j == k then rest else (j, w) ∷ rest

  pub lookup-insert :
      (k j : ℕ) (v : V) (t : Table V)
      → lookup j (insert k v t) ≡ (if k == j then some v else lookup j t)
  unfolding lookup insert
  lookup-insert k j v [] = ground arith
  lookup-insert k j v ((i, w) ∷ t) = ground (arith, lookup-insert k j v t)

  pub lookup-erase :
      (k j : ℕ) (t : Table V) → lookup j (erase k t) ≡ (if k == j then none else lookup j t)
  unfolding lookup erase
  lookup-erase k j [] = ground arith
  lookup-erase k j ((i, w) ∷ t) = ground (arith, lookup-erase k j t)

-- What stands in a table after an insertion.
pub insert_inv {ℓ} :
    {V : Type ℓ} (k j : ℕ) (v x : V) (t : Table V)
    → lookup j (insert k v t) ≡ some x
    → ((j ≡ k) × (v ≡ x)) ⊎ (lookup j t ≡ some x)
insert_inv k j v x t h = elim (ℕ_discrete k j) [
  | yes p ↦ inl (sym p, now p)
  | no p ↦ inr (before p)
]
  where
    now : k ≡ j → v ≡ x
    now p = ground (arith, lookup-insert k j v t)

    before : k ≢ j → lookup j t ≡ some x
    before p = ground (arith, lookup-insert k j v t)

pub ruleset table_laws = (lookup-insert, lookup-erase)
