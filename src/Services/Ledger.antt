-- ===== src/Services/Ledger.antt =====
-- services/credit-transaction-service: models.py and routes.py. The newest entry comes first.
use ticketremaster_b.Base.{ℕ, Option, none, some, List, [], ◌∷◌, same, if◌then◌else◌}
use ticketremaster_b.Base.Int.{ℤ}
use ticketremaster_b.Web.{Result, ok, err, validation_error, transaction_not_found}

-- The texts of `reason`.
pub data Reason : Type 0 where
  ticket_purchase p2p_sent p2p_received topup : Reason
  other : ℕ → Reason

-- `class CreditTransaction`, without its key and `createdAt`
pub record CreditTransaction : Type 0 where
  pub user_id : ℕ
  pub delta : ℤ
  pub reason : Reason
  pub reference_id : Option ℕ

abbrev pub Ledger : Type 0
Ledger = List CreditTransaction

-- `create_credit_transaction`; `none` is a body that is missing or lacks a required field
unfoldable pub create_credit_transaction :
    Option CreditTransaction → Ledger → Result (Unit {0}) × Ledger
create_credit_transaction none ledger = (err validation_error, ledger)
create_credit_transaction (some t) ledger = (ok tt, t ∷ ledger)

-- `get_credit_transaction_by_reference`: the newest entry with this reference
unfoldable pub get_by_reference : ℕ → Ledger → Result CreditTransaction
get_by_reference reference_id [] = err transaction_not_found
get_by_reference reference_id (t ∷ rest) =
    if same t.reference_id (some reference_id) then ok t else get_by_reference reference_id rest
