-- ===== src/Services/Resets.antt =====
-- services/user-service: the password reset routes of routes.py and their table. `stored` is what
-- the database's column of type `db.DateTime` answers for a time that was written to it.
use ticketremaster_b.Base.{
  ℕ, ◌+◌, ◌*◌, Bool, true, false, Option, none, some, [], ◌∷◌, not, ltb, ◌==◌, if◌then◌else◌,
}
use ticketremaster_b.Base.Table.{Table, lookup, insert}
use ticketremaster_b.Web.{
  Result, ok, err, validation_error, user_not_found, invalid_token, token_expired, internal_error,
}
use ticketremaster_b.Services.Users.{User, find_email}

-- A `datetime` of Python: with no time zone, or in UTC; in seconds.
pub data DateTime : Type 0 where
  naive : ℕ → DateTime
  aware : ℕ → DateTime

-- `a < b` of Python, which raises TypeError on a naive and an aware value
unfoldable pub before : DateTime → DateTime → Result Bool
before (naive a) (naive b) = ok (ltb a b)
before (aware a) (aware b) = ok (ltb a b)
before _ _ = err internal_error

-- `class PasswordResetToken`; the table is kept by the unique column `token`
pub record ResetToken : Type 0 where
  pub user_id : ℕ
  pub expires_at : DateTime
  pub used : Bool

pub record Accounts : Type 0 where
  pub users : Table User
  pub tokens : Table ResetToken

-- `filter_by(userId=user_id, used=False).update({'used': True})`
unfoldable pub mark_used : ℕ → Table ResetToken → Table ResetToken
mark_used user_id [] = []
mark_used user_id ((k, t) ∷ rest) =
    (k, if t.user_id == user_id then record t { used = true } else t) ∷ mark_used user_id rest

-- `filter_by(token=token, used=False).first()`
unfoldable pub find_unused : ℕ → Table ResetToken → Option ResetToken
find_unused token tokens = elim (lookup token tokens) [
  | none ↦ none
  | some t ↦ if t.used then none else some t
]

module _ (stored : DateTime → DateTime) where
  -- The new row of `forgot_password`.
  abbrev pub issued : ℕ → ℕ → ResetToken
  issued user_id now = record {
    user_id = user_id;
    expires_at = stored (aware (now + 24 * 3600));
    used = false;
  }

  unfoldable pub forgot_found : ℕ → ℕ → Option (ℕ × User) → Accounts → Result (Option ℕ) × Accounts
  forgot_found token now none a = (ok none, a)
  forgot_found token now (some (user_id, u)) a = (
    ok (some token),
    record a { tokens = insert token (issued user_id now) (mark_used user_id a.tokens) },
  )

  -- `forgot_password`, by `token_urlsafe` and the clock, with the token that it answers
  unfoldable pub forgot_password : ℕ → ℕ → Option ℕ → Accounts → Result (Option ℕ) × Accounts
  forgot_password token now none a = (err validation_error, a)
  forgot_password token now (some email) a = forgot_found token now (find_email email a.users) a

abbrev pub spent : ℕ → ResetToken → Accounts → Accounts
spent token t a = record a { tokens = insert token (record t { used = true }) a.tokens }

unfoldable pub reset_user :
    ℕ → ResetToken → ℕ → ℕ → Option User → Accounts → Result (Unit {0}) × Accounts
reset_user token t password salt none a = (err user_not_found, a)
reset_user token t password salt (some u) a = (
  ok tt,
  record (spent token t a) {
    users = insert t.user_id (record u { password = password; salt = salt }) a.users;
  },
)

unfoldable pub reset_timely :
    ℕ → ResetToken → ℕ → ℕ → Result Bool → Accounts → Result (Unit {0}) × Accounts
reset_timely token t password salt (err c) a = (err c, a)
reset_timely token t password salt (ok true) a = (err token_expired, spent token t a)
reset_timely token t password salt (ok false) a =
    reset_user token t password salt (lookup t.user_id a.users) a

unfoldable pub reset_found :
    ℕ → ℕ → ℕ → ℕ → Option ResetToken → Accounts → Result (Unit {0}) × Accounts
reset_found now token password salt none a = (err invalid_token, a)
reset_found now token password salt (some t) a =
    reset_timely token t password salt (before t.expires_at (aware now)) a

-- `reset_password`, with the three fields of its body
unfoldable pub reset_password : ℕ → ℕ → ℕ → ℕ → Accounts → Result (Unit {0}) × Accounts
reset_password now token password salt a =
    reset_found now token password salt (find_unused token a.tokens) a

-- `verify_reset_token`
unfoldable pub verify_reset_token : ℕ → ℕ → Accounts → Result Bool
verify_reset_token now token a = elim (find_unused token a.tokens) [
  | none ↦ ok false
  | some t ↦ elim (before t.expires_at (aware now)) [ ok b ↦ ok (not b) | err c ↦ err c ]
]
