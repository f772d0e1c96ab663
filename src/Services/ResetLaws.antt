-- ===== src/Services/ResetLaws.antt =====
-- What the password reset routes of services/user-service guarantee, whatever a column of times
-- answers.
use ticketremaster_b.Base.{
  ℕ, ◌≡◌, ◌≢◌, refl, sym, inl, inr, true, Option, none, some, List, [], ◌∷◌, arith, Bool-cases, ◌+◌,
  ◌*◌, ◌∙◌, Option-cases, ◌==◌,
}
use ticketremaster_b.Base.Table.{Table, lookup, insert, insert_inv, lookup-insert}
use ticketremaster_b.Services.Users.{User, find_email}
use ticketremaster_b.Services.Resets.{
  DateTime, naive, aware, before, ResetToken, Accounts, mark_used, find_unused, issued,
  forgot_found, forgot_password, reset_timely, reset_found, reset_password,
}

-- Every token of this user is used.
abbrev pub AllUsed : ℕ → Table ResetToken → Type 0
AllUsed user_id tokens =
    (k : ℕ) (t : ResetToken) → lookup k tokens ≡ some t → t.user_id ≡ user_id → t.used ≡ true

mark_used-AllUsed :
    (user_id : ℕ) (tokens : Table ResetToken) → AllUsed user_id (mark_used user_id tokens)
unfolding mark_used lookup
mark_used-AllUsed user_id [] k t at own = absurd (ground arith)
mark_used-AllUsed user_id ((j, s) ∷ rest) k t at own =
    ground (arith, mark_used-AllUsed user_id rest k t)

-- Every token of this user but one is used.
abbrev pub Revoked : ℕ → ℕ → Table ResetToken → Type 0
Revoked token user_id tokens =
    (k : ℕ) (t : ResetToken)
    → lookup k tokens ≡ some t
    → t.user_id ≡ user_id
    → k ≢ token
    → t.used ≡ true

-- A new token revokes the older ones: after a request for the email of a user, every token of this
-- user but the new one is used.
pub forgot_password-Revoked :
    (stored : DateTime → DateTime) (token now email user_id : ℕ) (u : User) (a : Accounts)
    → find_email email a.users ≡ some (user_id, u)
    → Revoked token user_id (forgot_password stored token now (some email) a).1.tokens
unfolding forgot_password forgot_found
forgot_password-Revoked stored token now email user_id u a found = rw found but_new
  where
    but_new :
        Revoked token user_id
          (insert token (issued stored user_id now) (mark_used user_id a.tokens))
    but_new k t at own other =
        mark_used-AllUsed user_id a.tokens k t
          (ground
            (arith, lookup-insert token k (issued stored user_id now) (mark_used user_id a.tokens)))
          own

-- Every expiry is a time with no time zone.
abbrev pub AllNaive : Table ResetToken → Type 0
AllNaive tokens =
    (k : ℕ) (t : ResetToken) → lookup k tokens ≡ some t → (n : ℕ) × (t.expires_at ≡ naive n)

marked_expiry :
    (user_id k : ℕ) (tokens : Table ResetToken) (t : ResetToken)
    → lookup k (mark_used user_id tokens) ≡ some t
    → (s : ResetToken) × (lookup k tokens ≡ some s) × (t.expires_at ≡ s.expires_at)
unfolding mark_used lookup
marked_expiry user_id k [] t at = absurd (ground arith)
marked_expiry user_id k ((j, s) ∷ rest) t at = elim (Bool-cases (j == k)) [
  | inl here ↦ (s, rw here refl, ground (arith, at, here))
  | inr there ↦ rw there (marked_expiry user_id k rest t (rw there at at))
]

issued-AllNaive :
    (stored : DateTime → DateTime) (token now user_id : ℕ) (tokens : Table ResetToken)
    → ((d : DateTime) → (n : ℕ) × (stored d ≡ naive n))
    → AllNaive tokens
    → AllNaive (insert token (issued stored user_id now) (mark_used user_id tokens))
issued-AllNaive stored token now user_id tokens strips h k t at =
    elim (insert_inv token k (issued stored user_id now) t (mark_used user_id tokens) at) [
      | inl (_, is) ↦ rw (sym is) (strips (aware (now + 24 * 3600)))
      | inr old ↦
          let (s, at_s, e) = marked_expiry user_id k tokens t old in
          let (n, e_s) = h k s at_s in (n, e ∙ e_s)
    ]

-- The comparison with the clock raises, before anything is written.
reset_naive :
    (now token password salt : ℕ) (a : Accounts)
    → AllNaive a.tokens
    → (reset_password now token password salt a).1 ≡ a
unfolding reset_password reset_found find_unused before reset_timely
reset_naive now token password salt a h = elim (Option-cases (lookup token a.tokens)) [
  | inl e ↦ ground (arith, e)
  | inr (t, at) ↦ elim (Bool-cases t.used) [
    | inl used_up ↦ ground (arith, at, used_up)
    | inr fresh ↦ let (n, e) = h token t at in ground (arith, at, fresh, e)
  ]
]

-- A request to one of the two routes; see them for the arguments.
pub data ResetRequest : Type 0 where
  forgetting : (token now : ℕ) → Option ℕ → ResetRequest
  resetting : (now token password salt : ℕ) → ResetRequest

module _ (stored : DateTime → DateTime) where
  -- The accounts after a request.
  unfoldable pub serve : ResetRequest → Accounts → Accounts
  serve (forgetting token now email) a = (forgot_password stored token now email a).1
  serve (resetting now token password salt) a = (reset_password now token password salt a).1

  unfoldable pub serve_all : List ResetRequest → Accounts → Accounts
  serve_all [] a = a
  serve_all (r ∷ rest) a = serve_all rest (serve r a)

module _ (stored : DateTime → DateTime)
    (strips : (d : DateTime) → (n : ℕ) × (stored d ≡ naive n)) where
  forgot_found-AllNaive :
      (token now : ℕ) (found : Option (ℕ × User)) (a : Accounts)
      → AllNaive a.tokens
      → AllNaive (forgot_found stored token now found a).1.tokens
        × ((forgot_found stored token now found a).1.users ≡ a.users)
  unfolding forgot_found
  forgot_found-AllNaive token now none a h = (h, refl)
  forgot_found-AllNaive token now (some (user_id, u)) a h =
      (issued-AllNaive stored token now user_id a.tokens strips h, refl)

  serve-AllNaive :
      (r : ResetRequest) (a : Accounts)
      → AllNaive a.tokens
      → AllNaive (serve stored r a).tokens × ((serve stored r a).users ≡ a.users)
  unfolding serve forgot_password
  serve-AllNaive (forgetting token now none) a h = (h, refl)
  serve-AllNaive (forgetting token now (some email)) a h =
      forgot_found-AllNaive token now (find_email email a.users) a h
  serve-AllNaive (resetting now token password salt) a h =
      rw (reset_naive now token password salt a h) (h, refl)

-- No password is ever reset where the column answers times with no time zone, as `db.DateTime`
-- does: after any requests to the two routes every user is as before, since the comparison of the
-- expiry with the clock raises.
pub resets_change_no_user :
    (stored : DateTime → DateTime) (requests : List ResetRequest) (a : Accounts)
    → ((d : DateTime) → (n : ℕ) × (stored d ≡ naive n))
    → AllNaive a.tokens
    → (serve_all stored requests a).users ≡ a.users
unfolding serve_all
resets_change_no_user stored [] a strips h = refl
resets_change_no_user stored (r ∷ rest) a strips h =
    let (naive_now, e) = serve-AllNaive stored strips r a h in
    resets_change_no_user stored rest (serve stored r a) strips naive_now ∙ e
