-- ===== src/Services/TransferLaws.antt =====
-- What the routes of services/transfer-service do to the rows.
use ticketremaster_b.Base.{
  ℕ, ◌≡◌, refl, ◌⊎◌, inl, inr, true, false, Option, none, some, ◌||◌, arith, Bool-cases,
}
use ticketremaster_b.Base.Table.{Table, lookup, insert, lookup-insert}
use ticketremaster_b.Web.{Result, ok, err, invalid_state}
use ticketremaster_b.Services.Transfers.{
  TransferStatus, has_ended, cancelled, Transfer, expires_now, is_transfer_expired, get_found,
  get_transfer, TransferPatch, is_empty, patched, bad_stamp, patch_found, patch_transfer,
  cancel_found, cancel_transfer, expire, set_status,
}

-- `transfers` after a call on `k`: as before, or a transfer past its time that had not ended is now
-- expired.
abbrev pub SameOrExpired : ℕ → ℕ → Table Transfer → Table Transfer → Type 0
SameOrExpired k now old new =
    (new ≡ old)
    ⊎ ((t : Transfer) × (lookup k old ≡ some t)
        × (expires_now t now ≡ true)
        × (new ≡ insert k (expire t) old))

get_found_rows :
    (k now : ℕ) (transfers : Table Transfer) (found : Option Transfer)
    → lookup k transfers ≡ found
    → SameOrExpired k now transfers (get_found k now found transfers).1
unfolding get_found
get_found_rows k now transfers none at = inl refl
get_found_rows k now transfers (some t) at = elim (Bool-cases (expires_now t now)) [
  | inl e ↦ inr (t, at, e, rw e refl)
  | inr e ↦ inl (rw e refl)
]

pub get_transfer_rows :
    (k now : ℕ) (transfers : Table Transfer)
    → SameOrExpired k now transfers (get_transfer k now transfers).1
unfolding get_transfer
get_transfer_rows k now transfers = get_found_rows k now transfers _ refl

shown_has_ended :
    (k now : ℕ) (found : Option Transfer) (transfers : Table Transfer) (t : Transfer)
    → (get_found k now found transfers).0 ≡ ok t
    → is_transfer_expired t now ≡ true
    → has_ended t.status ≡ true
unfolding get_found expires_now has_ended is_transfer_expired
shown_has_ended k now none transfers t h e = ground arith
shown_has_ended k now (some u) transfers t h e = ground arith

-- A transfer that GET /transfers/<id> shows after its time has ended: it is completed, cancelled or
-- expired.
pub get_transfer-has_ended :
    (k now : ℕ) (transfers : Table Transfer) (t : Transfer)
    → (get_transfer k now transfers).0 ≡ ok t
    → is_transfer_expired t now ≡ true
    → has_ended t.status ≡ true
unfolding get_transfer
get_transfer-has_ended k now transfers t h e = shown_has_ended k now _ transfers t h e

cancel_found_once :
    (k : ℕ) (transfers : Table Transfer) (found : Option Transfer) (t : Transfer)
    → lookup k transfers ≡ found
    → (cancel_found k found transfers).0 ≡ ok t
    → ((u : Transfer) × (lookup k transfers ≡ some u)
        × (has_ended u.status ≡ false)
        × ((cancel_found k found transfers).1
            ≡ insert k (record u { status = cancelled }) transfers))
unfolding cancel_found
cancel_found_once k transfers none t at h = absurd (ground arith)
cancel_found_once k transfers (some u) t at h = elim (Bool-cases (has_ended u.status)) [
  | inl e ↦ absurd (ground arith)
  | inr e ↦ (u, at, e, rw e refl)
]

cancel_inserted :
    (k : ℕ) (u : Transfer) (transfers : Table Transfer)
    → cancel_transfer k (insert k (record u { status = cancelled }) transfers)
      ≡ (err invalid_state, insert k (record u { status = cancelled }) transfers)
unfolding cancel_transfer cancel_found has_ended
cancel_inserted k u transfers =
    ground (arith, lookup-insert k k (record u { status = cancelled }) transfers)

-- A cancellation that succeeds has found a transfer that had not ended and has changed its status
-- alone; a second one is refused as INVALID_STATE and changes nothing.
pub cancel_transfer_once :
    (k : ℕ) (transfers : Table Transfer) (t : Transfer)
    → (cancel_transfer k transfers).0 ≡ ok t
    → ((u : Transfer) × (lookup k transfers ≡ some u)
        × (has_ended u.status ≡ false)
        × ((cancel_transfer k transfers).1 ≡ insert k (record u { status = cancelled }) transfers))
      × (cancel_transfer k (cancel_transfer k transfers).1
          ≡ (err invalid_state, (cancel_transfer k transfers).1))
unfolding cancel_transfer
cancel_transfer_once k transfers t h =
    let (u, at, e, w) = cancel_found_once k transfers _ t refl h in
    ((u, at, e, w), rw w (cancel_inserted k u transfers))

-- What PATCH may have done to a transfer: it wrote the fields of the body.
abbrev pub PatchedNow :
    ℕ → ℕ → TransferPatch → Table Transfer → Result Transfer × Table Transfer → Type 0
PatchedNow k now p old o =
    (t : Transfer) × (lookup k old ≡ some t)
    × (expires_now t now ≡ false)
    × (o ≡ (ok (patched p t), insert k (patched p t) old))

-- A call that answers no value.
abbrev pub Fails : Result Transfer × Table Transfer → Type 0
Fails (ok t, new) = ⊥
Fails (err c, new) = Unit {0}

patch_found_effect :
    (k now : ℕ) (p : TransferPatch) (transfers : Table Transfer) (found : Option Transfer)
    → lookup k transfers ≡ found
    → (Fails (patch_found k now p found transfers)
        × SameOrExpired k now transfers (patch_found k now p found transfers).1)
      ⊎ PatchedNow k now p transfers (patch_found k now p found transfers)
unfolding patch_found
patch_found_effect k now p transfers none at = inl (tt, inl refl)
patch_found_effect k now p transfers (some t) at = elim (Bool-cases (expires_now t now)) [
  | inl e ↦ inl (rw e (tt, inr (t, at, e, refl)))
  | inr e ↦ elim (Bool-cases (bad_stamp p.completed_at)) [
    | inl b ↦ inl (rw (e, b) (tt, inl refl))
    | inr b ↦ inr (t, at, e, rw (e, b) refl)
  ]
]

-- PATCH /transfers/<id> fails and changes nothing, or fails and marks a transfer past its time as
-- expired, or writes the fields of the body into a transfer that is not to expire now; no other row
-- changes.
pub patch_transfer_effect :
    (k now : ℕ) (p : TransferPatch) (transfers : Table Transfer)
    → (Fails (patch_transfer k now p transfers)
        × SameOrExpired k now transfers (patch_transfer k now p transfers).1)
      ⊎ PatchedNow k now p transfers (patch_transfer k now p transfers)
unfolding patch_transfer
patch_transfer_effect k now p transfers = elim (Bool-cases (is_empty p || p.unsupported)) [
  | inl a ↦ inl (rw a (tt, inl refl))
  | inr a ↦ rw a (patch_found_effect k now p transfers _ refl)
]

-- A transfer that has ended is not closed to PATCH: whatever the time, a body with a status alone
-- is accepted, and that status is written, so a completed or cancelled transfer may be pending
-- again.
pub patch_transfer_reopens :
    (k now : ℕ) (st : TransferStatus) (t : Transfer) (transfers : Table Transfer)
    → lookup k transfers ≡ some t
    → has_ended t.status ≡ true
    → patch_transfer k now (set_status st) transfers
      ≡ (ok (record t { status = st }), insert k (record t { status = st }) transfers)
unfolding patch_transfer is_empty patch_found expires_now patched
patch_transfer_reopens k now st t transfers at ended = ground (arith, at, ended)
