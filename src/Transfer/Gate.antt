-- ===== src/Transfer/Gate.antt =====
-- The buyer's code comes before the seller's: a statement on the transfers that waits for neither
-- the order nor the fate of the calls, and the routes of services/transfer-service under it.
use ticketremaster_b.Base.{
  ℕ, ◌≡◌, refl, inl, inr, true, false, Bool, Option, none, some, ◌||◌, not, arith,
}
use ticketremaster_b.Base.Table.{Table, lookup, insert, insert_inv, lookup-insert}
use ticketremaster_b.Web.{ok}
use ticketremaster_b.Services.Transfers.{
  Transfer, TransferStatus, NewTransfer, TransferPatch, completed, pending_seller_otp, patched,
  expire, to_transfer, create_transfer, get_transfer, get_found, patch_transfer,
}
use ticketremaster_b.Services.TransferLaws.{SameOrExpired, get_transfer_rows, patch_transfer_effect}

-- The states behind the buyer's code.
unfoldable pub is_past_buyer : TransferStatus → Bool
is_past_buyer pending_seller_otp = true
is_past_buyer completed = true
is_past_buyer _ = false

unfoldable pub gated : Transfer → Bool
gated t = not (is_past_buyer t.status) || t.buyer_otp_verified

-- Every transfer in such a state is marked as having the buyer's code; the transfer `o`, if any, in
-- any state. The mark stands only where `Right` holds of the transfer: where the code was right.
pub record Gate (Right : ℕ → Type 0) (o : Option ℕ) (transfers : Table Transfer) : Type 0 where
  pub all : (k : ℕ) (t : Transfer) → lookup k transfers ≡ some t → gated t ≡ true
  pub right :
      (k : ℕ) (t : Transfer) → lookup k transfers ≡ some t → t.buyer_otp_verified ≡ true → Right k
  pub one :
      (k : ℕ) (t : Transfer)
      → o ≡ some k
      → lookup k transfers ≡ some t
      → t.buyer_otp_verified ≡ true

pub Gate-forget :
    {Right : ℕ → Type 0} {o : Option ℕ} {transfers : Table Transfer}
    → Gate Right o transfers
    → Gate Right none transfers
Gate-forget g = record { all = g.all; right = g.right; one = λ k t e at. absurd (ground arith) }

insert-Gate :
    {Right : ℕ → Type 0} (o : Option ℕ) (k : ℕ) (t : Transfer) (transfers : Table Transfer)
    → Gate Right o transfers
    → gated t ≡ true
    → (o ≡ some k → t.buyer_otp_verified ≡ true)
    → (t.buyer_otp_verified ≡ true → Right k)
    → Gate Right o (insert k t transfers)
insert-Gate {Right} o k t transfers g h v r = record {
  right = λ j u at b. elim (insert_inv k j t u transfers at) [
    | inl (same_key, same_row) ↦ rightly j u same_key same_row b
    | inr old ↦ g.right j u old b
  ];
  all = λ j u at. elim (insert_inv k j t u transfers at) [
    | inl (_, e) ↦ (cc)
    | inr old ↦ g.all j u old
  ];
  one = λ j u e at. elim (insert_inv k j t u transfers at) [
    | inl (same_key, same_row) ↦ verified j u e same_key same_row
    | inr old ↦ g.one j u e old
  ];
}
  where
    rightly : (j : ℕ) (u : Transfer) → j ≡ k → t ≡ u → u.buyer_otp_verified ≡ true → Right j
    rightly j u same_key same_row b = rw same_key (r (cc))

    verified : (j : ℕ) (u : Transfer) → o ≡ some j → j ≡ k → t ≡ u → u.buyer_otp_verified ≡ true
    verified j u e same_key same_row = let b : t.buyer_otp_verified ≡ true = v (cc) in (cc)

expired-Gate :
    {Right : ℕ → Type 0} (o : Option ℕ) (k now : ℕ) (old new : Table Transfer)
    → Gate Right o old
    → SameOrExpired k now old new
    → Gate Right o new
unfolding gated is_past_buyer
expired-Gate o k now old new g (inl e) = rw e g
expired-Gate o k now old new g (inr (t, at, _, e)) =
    rw e (insert-Gate o k (expire t) old g refl (λ here. g.one k t here at) (g.right k t at))

-- GET writes nothing that opens the gate, and a transfer that it shows with the buyer's code is one
-- with it.
pub get-Gate :
    {Right : ℕ → Type 0} (o : Option ℕ) (k now : ℕ) (transfers : Table Transfer)
    → Gate Right o transfers
    → Gate Right o (get_transfer k now transfers).1
get-Gate o k now transfers g =
    expired-Gate o k now transfers (get_transfer k now transfers).1 g
      (get_transfer_rows k now transfers)

shown_found :
    (k now : ℕ) (found : Option Transfer) (transfers : Table Transfer) (t u : Transfer)
    → lookup k transfers ≡ found
    → (get_found k now found transfers).0 ≡ ok t
    → lookup k (get_found k now found transfers).1 ≡ some u
    → t.buyer_otp_verified ≡ true
    → u.buyer_otp_verified ≡ true
unfolding get_found
shown_found k now none transfers t u at shown after v = absurd (ground arith)
shown_found k now (some s) transfers t u at shown after v =
    ground (arith, lookup-insert k k (expire s) transfers, at)

-- What follows a GET that shows a transfer with the buyer's code.
pub shown-Gate :
    {Right : ℕ → Type 0} (k now : ℕ) (transfers : Table Transfer) (t : Transfer)
    → Gate Right none transfers
    → (get_transfer k now transfers).0 ≡ ok t
    → t.buyer_otp_verified ≡ true
    → Gate Right (some k) (get_transfer k now transfers).1
unfolding get_transfer
shown-Gate k now transfers t g shown v = record {
  all = (get-Gate none k now transfers g).all;
  right = (get-Gate none k now transfers g).right;
  one = λ j u here at.
      shown_found k now (lookup k transfers) transfers t u refl shown (key j u here at) v;
}
  where
    key :
        (j : ℕ) (u : Transfer)
        → some k ≡ some j
        → lookup j (get_found k now (lookup k transfers) transfers).1 ≡ some u
        → lookup k (get_found k now (lookup k transfers) transfers).1 ≡ some u
    key j u here at = ground arith

-- A PATCH that keeps the mark of the buyer's code, sets it only rightly, and leaves a state behind
-- the code only with it.
pub record KeepsCode (Right : ℕ → Type 0) (o : Option ℕ) (k : ℕ) (p : TransferPatch) : Type 0 where
  pub rights :
      (t : Transfer)
      → (t.buyer_otp_verified ≡ true → Right k)
      → (patched p t).buyer_otp_verified ≡ true
      → Right k
  pub keeps : (t : Transfer) → t.buyer_otp_verified ≡ true → (patched p t).buyer_otp_verified ≡ true
  pub gates :
      (t : Transfer)
      → gated t ≡ true
      → (o ≡ some k → t.buyer_otp_verified ≡ true)
      → gated (patched p t) ≡ true

pub patch-Gate :
    {Right : ℕ → Type 0} (o : Option ℕ) (k now : ℕ) (p : TransferPatch) (transfers : Table Transfer)
    → KeepsCode Right o k p
    → Gate Right o transfers
    → Gate Right o (patch_transfer k now p transfers).1
patch-Gate o k now p transfers c g = elim (patch_transfer_effect k now p transfers) [
  | inl (_, e) ↦ expired-Gate o k now transfers (patch_transfer k now p transfers).1 g e
  | inr (t, at, _, e) ↦ rw e (
      insert-Gate o k (patched p t) transfers g
        (c.gates t (g.all k t at) (λ here. g.one k t here at))
        (λ here. c.keeps t (g.one k t here at)) (c.rights t (g.right k t at)))
]

pub create-Gate :
    {Right : ℕ → Type 0} (k now : ℕ) (body : Option NewTransfer) (transfers : Table Transfer)
    → Gate Right none transfers
    → Gate Right none (create_transfer k now body transfers).1
unfolding create_transfer gated is_past_buyer
create-Gate k now none transfers g = g
create-Gate k now (some body) transfers g =
    insert-Gate none k (to_transfer now body) transfers g refl (λ e. absurd (ground arith))
      (λ b. absurd (ground arith))
