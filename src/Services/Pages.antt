-- ===== src/Services/Pages.antt =====
-- The pages that the list routes answer: services/event-service/routes.py,
-- services/marketplace-service/routes.py, services/credit-transaction-service/routes.py and
-- services/user-service/routes.py. `rows` is what this query finds, in the order that the database
-- gives it: rows that are equal in the columns of the order may come in another order at the next
-- query.
use ticketremaster_b.Base.{
  ℕ, zero, suc, ◌-◌, ◌*◌, ◌≤◌, ◌≡◌, Bool, true, false, List, leb, ltb, ◌||◌, if◌then◌else◌,
}
use ticketremaster_b.Base.Int.{ℤ, pos, negsuc}
use ticketremaster_b.Base.Lists.{length, take, drop}
use ticketremaster_b.Web.{Result, ok, err, validation_error}

pub record Page (V : Type 0) : Type 0 where
  pub items : List V
  pub page : ℕ
  pub limit : ℕ
  pub total : ℕ

-- `page < 1`, `limit < 1`
unfoldable pub below_one : ℤ → Bool
below_one (pos zero) = true
below_one (pos (suc n)) = false
below_one (negsuc n) = true

-- A number that is at least 1.
abbrev pub to_ℕ : ℤ → ℕ
to_ℕ (pos n) = n
to_ℕ (negsuc n) = 0

-- `limit = min(limit, 100)`
unfoldable pub clamp : ℕ → ℕ
clamp limit = if leb limit 100 then limit else 100

module _ {V : Type 0} where
  -- `query.offset((page - 1) * limit).limit(limit)`, with the count of all rows
  unfoldable pub page_of : ℕ → ℕ → List V → Page V
  page_of page limit rows = record {
    items = take limit (drop ((page - 1) * limit) rows);
    page = page;
    limit = limit;
    total = length rows;
  }

  -- `list_events`, `admin_list_events`, `list_active_listings`, `list_credit_transactions_by_user`
  unfoldable pub list_page : ℤ → ℤ → List V → Result (Page V)
  list_page page limit rows =
      if below_one page || below_one limit
      then err validation_error
      else ok (page_of (to_ℕ page) (clamp (to_ℕ limit)) rows)

  -- `list_flagged_users`, `admin_search_users` and `search_events`, which refuse a limit over 100
  unfoldable pub strict_page : ℤ → ℤ → List V → Result (Page V)
  strict_page page limit rows =
      if below_one page || below_one limit || ltb 100 (to_ℕ limit)
      then err validation_error
      else ok (page_of (to_ℕ page) (to_ℕ limit) rows)

  -- At most 100 items, and no more than the limit.
  abbrev pub IsBounded : List V → Result (Page V) → Type 0
  IsBounded rows (err c) = c ≡ validation_error
  IsBounded rows (ok p) =
      (length p.items ≤ p.limit) × (p.limit ≤ 100) × (p.total ≡ length rows) × (1 ≤ p.page)
