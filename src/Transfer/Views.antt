-- ===== src/Transfer/Views.antt =====
-- The routes of orchestrators/transfer-orchestrator/routes.py that only read:
-- `get_pending_transfers`, `get_my_pending_transfers`, `get_transfer_history` and `get_transfer`,
-- up to what `_enrich_transfer` adds to the rows.
use ticketremaster_b.Base.{ℕ, Bool, true, false, Option, none, some, [], ◌∷◌, ◌++◌, ◌||◌, ◌==◌}
use ticketremaster_b.Base.Table.{Table, insert}
use ticketremaster_b.Web.{service_unavailable, auth_forbidden, transfer_not_found}
use ticketremaster_b.Services.Transfers.{Transfer, TransferStatus, completed}
use ticketremaster_b.Services.ListRoutes.{list_transfers}
use ticketremaster_b.World.Model.{World, Action, pure, failing, ◌>>=◌, ◌>>◌, require}
use ticketremaster_b.World.Calls.{remote, call_get_transfer}
use ticketremaster_b.Transfer.Routes.{
  is_pending_buyer_otp, is_pending_seller_otp, is_pending_seller_acceptance,
}

unfoldable pub is_completed : TransferStatus → Bool
is_completed completed = true
is_completed _ = false

-- `unique_transfers`: a dict keeps the place of the first row under a key and the value of the
-- last.
unfoldable pub unique_from : Table Transfer → Table Transfer → Table Transfer
unique_from seen [] = seen
unique_from seen ((k, t) ∷ rows) = unique_from (insert k t seen) rows

module _ {A : Type 0} (meanwhile : ℕ → World A → World A) where
  -- GET /transfers with a party and a status
  unfoldable pub call_list_transfers :
      Option ℕ → Option ℕ → (TransferStatus → Bool) → Action A (Table Transfer)
  call_list_transfers seller buyer status =
      failing service_unavailable
        (remote meanwhile (λ w. (list_transfers seller buyer (some status) w.transfers, w)))

  unfoldable pub get_pending_transfers : ℕ → Action A (Table Transfer)
  get_pending_transfers user_id = do
    otp ← call_list_transfers (some user_id) none is_pending_seller_otp
    acceptance ← call_list_transfers (some user_id) none is_pending_seller_acceptance
    pure (unique_from [] (otp ++ acceptance))

  unfoldable pub get_my_pending_transfers : ℕ → Action A (Table Transfer)
  get_my_pending_transfers user_id = call_list_transfers none (some user_id) is_pending_buyer_otp

  unfoldable pub get_transfer_history : ℕ → Action A (Table Transfer)
  get_transfer_history user_id = call_list_transfers (some user_id) none is_completed

  unfoldable pub get_transfer : ℕ → ℕ → Action A Transfer
  get_transfer user_id transfer_id = do
    t ← failing transfer_not_found (call_get_transfer meanwhile transfer_id)
    require (t.buyer_id == user_id || t.seller_id == user_id) auth_forbidden
    pure t
