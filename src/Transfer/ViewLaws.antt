-- ===== src/Transfer/ViewLaws.antt =====
-- What the routes of orchestrators/transfer-orchestrator/routes.py that read show to a user.
use ticketremaster_b.Base.{
  ℕ, ◌≡◌, Bool, true, Option, none, some, [], ◌++◌, ◌&&◌, ◌||◌, ◌==◌, arith,
}
use ticketremaster_b.Base.Table.{Table}
use ticketremaster_b.Web.{Result, ok, err, service_unavailable, auth_forbidden, transfer_not_found}
use ticketremaster_b.Services.Transfers.{Transfer, TransferStatus}
use ticketremaster_b.Services.ListRoutes.{list_transfers}
use ticketremaster_b.World.Model.{World, pure, failing, ◌>>=◌, ◌>>◌, require}
use ticketremaster_b.World.Calls.{call_get_transfer}
use ticketremaster_b.World.Hoare.{
  Ends, Triple, Triple-remote, Triple-bind, Triple-failing, Triple-require, Triple-weaken,
}
use ticketremaster_b.Transfer.Routes.{
  is_pending_buyer_otp, is_pending_seller_otp, is_pending_seller_acceptance,
}
use ticketremaster_b.Services.ListRoutes.{asked}
use ticketremaster_b.Transfer.Views.{
  is_completed, unique_from, call_list_transfers, get_pending_transfers, get_my_pending_transfers,
  get_transfer_history, get_transfer,
}
use ticketremaster_b.Transfer.ViewRows.{
  AllPass, IsUnique, select-AllPass, AllPass-weaken, AllPass-append, unique_from-IsUnique,
  unique_from-AllPass,
}

-- The rows that each route may show to a user.
unfoldable pub waits_for_seller : ℕ → ℕ × Transfer → Bool
waits_for_seller user_id (k, t) =
    t.seller_id == user_id
    && (is_pending_seller_otp t.status || is_pending_seller_acceptance t.status)

unfoldable pub waits_for_buyer : ℕ → ℕ × Transfer → Bool
waits_for_buyer user_id (k, t) = t.buyer_id == user_id && is_pending_buyer_otp t.status

unfoldable pub sold_by : ℕ → ℕ × Transfer → Bool
sold_by user_id (k, t) = t.seller_id == user_id && is_completed t.status

abbrev Any : {A : Type 0} → World A → Type 0
Any w = Unit

list-Ends :
    {A : Type 0} (seller buyer : Option ℕ) (status : TransferStatus → Bool) (w : World A)
    → Ends
        (λ rows v. AllPass (asked seller buyer (some status)) rows)
        Any
        (list_transfers seller buyer (some status) w.transfers, w)
unfolding list_transfers
list-Ends none none status w = tt
list-Ends (some s) none status w = select-AllPass _ w.transfers
list-Ends none (some b) status w = select-AllPass _ w.transfers
list-Ends (some s) (some b) status w = select-AllPass _ w.transfers

module _ {A : Type 0} (meanwhile : ℕ → World A → World A) where
  any-Ends : {B : Type 0} (r : Result B × World A) → Ends (λ b v. Unit) Any r
  any-Ends (ok b, w) = tt
  any-Ends (err c, w) = tt

  call_list-Triple :
      (seller buyer : Option ℕ) (status : TransferStatus → Bool)
      → Triple Any
          (call_list_transfers meanwhile seller buyer status)
          (λ rows v. AllPass (asked seller buyer (some status)) rows)
          Any
  unfolding call_list_transfers
  call_list-Triple seller buyer status = Triple-failing service_unavailable (
      Triple-remote meanwhile (λ w p. tt) (λ w p. tt) (λ b w q. tt)
        (record { run = λ w p. list-Ends seller buyer status w }))

  own-AllPass :
      (seller buyer : Option ℕ) (status : TransferStatus → Bool) (test : ℕ × Transfer → Bool)
      → ((row : ℕ × Transfer) → asked seller buyer (some status) row ≡ true → test row ≡ true)
      → Triple Any
          (call_list_transfers meanwhile seller buyer status)
          (λ rows v. AllPass test rows)
          Any
  own-AllPass seller buyer status test h =
      Triple-weaken (call_list-Triple seller buyer status)
        (λ rows w a. AllPass-weaken _ test rows h a) (λ w a. tt)

  otp_rows-AllPass :
      (user_id : ℕ)
      → Triple Any
          (call_list_transfers meanwhile (some user_id) none is_pending_seller_otp)
          (λ rows v. AllPass (waits_for_seller user_id) rows)
          Any
  unfolding waits_for_seller
  otp_rows-AllPass user_id =
      own-AllPass (some user_id) none is_pending_seller_otp _ (λ row e. ground arith)

  acceptance_rows-AllPass :
      (user_id : ℕ)
      → Triple Any
          (call_list_transfers meanwhile (some user_id) none is_pending_seller_acceptance)
          (λ rows v. AllPass (waits_for_seller user_id) rows)
          Any
  unfolding waits_for_seller
  acceptance_rows-AllPass user_id =
      own-AllPass (some user_id) none is_pending_seller_acceptance _ (λ row e. ground arith)

  merged-Triple :
      (user_id : ℕ) (otp : Table Transfer) (w : World A)
      → AllPass (waits_for_seller user_id) otp
      → Triple Any
          (call_list_transfers meanwhile (some user_id) none is_pending_seller_acceptance
            >>= λ acceptance. pure (unique_from [] (otp ++ acceptance)))
          (λ rows v. AllPass (waits_for_seller user_id) rows × IsUnique rows)
          Any
  merged-Triple user_id otp w a =
      Triple-bind {f = λ rows. pure (unique_from [] (otp ++ rows))}
        (acceptance_rows-AllPass user_id)
        λ rows. record {
          run = λ v b. (
            unique_from-AllPass _ [] (otp ++ rows) tt (AllPass-append _ otp rows a b),
            unique_from-IsUnique [] (otp ++ rows) tt,
          );
        }

  pending-Triple :
      (user_id : ℕ)
      → Triple Any
          (get_pending_transfers meanwhile user_id)
          (λ rows v. AllPass (waits_for_seller user_id) rows × IsUnique rows)
          Any
  unfolding get_pending_transfers
  pending-Triple user_id =
      Triple-bind (otp_rows-AllPass user_id)
        λ otp. record { run = λ w a. (merged-Triple user_id otp w a).run w tt }

  may_see-Triple :
      (user_id : ℕ) (t : Transfer)
      → Triple {A = A} Any
          (require (t.buyer_id == user_id || t.seller_id == user_id) auth_forbidden >> pure t)
          (λ t v. (t.buyer_id == user_id || t.seller_id == user_id) ≡ true)
          Any
  may_see-Triple user_id t =
      Triple-bind {f = λ _. pure t}
        (Triple-require {P = Any} (t.buyer_id == user_id || t.seller_id == user_id) auth_forbidden
          (λ w p. tt))
        λ u. record { run = λ w p. p.1 }

  one-Triple :
      (user_id transfer_id : ℕ)
      → Triple Any
          (get_transfer meanwhile user_id transfer_id)
          (λ t v. (t.buyer_id == user_id || t.seller_id == user_id) ≡ true)
          Any
  unfolding get_transfer
  one-Triple user_id transfer_id =
      Triple-bind {m = failing transfer_not_found (call_get_transfer meanwhile transfer_id)}
        {f = λ t.
          require (t.buyer_id == user_id || t.seller_id == user_id) auth_forbidden >> pure t}
        (record {
          run = λ w p.
              any-Ends (failing transfer_not_found (call_get_transfer meanwhile transfer_id) w);
        })
        (may_see-Triple user_id)

  -- Whatever other requests do meanwhile and whatever calls are lost: each of the three lists
  -- answers an error, or only transfers of which the user is the seller (for the one, the buyer) in
  -- the states that the list is about, and the list of what waits for the seller has no transfer
  -- twice; the route of one transfer answers an error or a transfer of which the user is a party.
  pub views_show_own :
      (user_id transfer_id : ℕ) (w : World A)
      → Ends
          (λ rows v. AllPass (waits_for_seller user_id) rows × IsUnique rows)
          Any
          (get_pending_transfers meanwhile user_id w)
        × Ends
            (λ rows v. AllPass (waits_for_buyer user_id) rows)
            Any
            (get_my_pending_transfers meanwhile user_id w)
        × Ends
            (λ rows v. AllPass (sold_by user_id) rows)
            Any
            (get_transfer_history meanwhile user_id w)
        × Ends
            (λ t v. (t.buyer_id == user_id || t.seller_id == user_id) ≡ true)
            Any
            (get_transfer meanwhile user_id transfer_id w)
  unfolding waits_for_buyer sold_by get_my_pending_transfers get_transfer_history
  views_show_own user_id transfer_id w = (
    (pending-Triple user_id).run w tt,
    (own-AllPass _ _ _ (waits_for_buyer user_id) (λ row e. ground arith)).run w tt,
    (own-AllPass _ _ _ (sold_by user_id) (λ row e. ground arith)).run w tt,
    (one-Triple user_id transfer_id).run w tt,
  )
