-- ===== src/Services/AccountTests.antt =====
-- The accounts, the events and the pages on small tables.
use ticketremaster_b.Base.{ℕ, ◌≡◌, refl, false, none, some, [], ◌∷◌, List, arith}
use ticketremaster_b.Base.Int.{pos}
use ticketremaster_b.Base.Table.{Table, lookup}
use ticketremaster_b.Web.{err, email_already_exists}
use ticketremaster_b.Services.Users.{
  User, NewUser, create_user, update_user, user, no_user_patch, find_email,
}
use ticketremaster_b.Services.UserLaws.{email_refused}
use ticketremaster_b.Services.Resets.{DateTime, naive, aware, Accounts, ResetToken, forgot_password}
use ticketremaster_b.Services.ResetLaws
use ticketremaster_b.Services.ResetLaws.{
  Revoked, forgot_password-Revoked, resets_change_no_user, forgetting, resetting,
}
use ticketremaster_b.Services.Events.{Event}
use ticketremaster_b.Services.EventLaws
use ticketremaster_b.Services.EventLaws.{
  NoneCancelled, serve_all-NoneCancelled, cancel_event_fails, duplicating, cancelling,
}

abbrev someone : User
someone = record {
  email = 7;
  password = 1;
  salt = 1;
  phone_number = 66;
  role = user;
  is_flagged = false;
  venue_id = none;
  favorite_events = [];
}

abbrev users : Table User
users = (5, someone) ∷ (6, record someone { email = 8 }) ∷ []

abbrev newcomer : NewUser
newcomer = record {
  email = 7;
  password = 2;
  salt = 2;
  phone_number = 67;
  role = none;
  is_flagged = none;
  venue_id = none;
}

email_refused_example :
    (create_user 9 (some newcomer) users ≡ (err email_already_exists, users))
    × (update_user 6 (record no_user_patch { email = some 7 }) users
        ≡ (err email_already_exists, users))
unfolding lookup
email_refused_example =
    email_refused 9 6 5 (record someone { email = 8 }) someone newcomer
      (record no_user_patch { email = some 7 }) users refl refl (λ e. absurd (omega arith)) refl
      refl refl

-- A token of the second user, as a database would have to answer its time for the comparison.
abbrev token : ResetToken
token = record { user_id = 6; expires_at = aware 9000; used = false }

abbrev accounts : Accounts
accounts = record { users = users; tokens = (3, token) ∷ [] }

-- The database without time zones.
abbrev stored : DateTime → DateTime
stored (naive n) = naive n
stored (aware n) = naive n

strips : (d : DateTime) → (n : ℕ) × (stored d ≡ naive n)
strips (naive n) = (n, refl)
strips (aware n) = (n, refl)

forgot_password-Revoked_example :
    Revoked 4 6 (forgot_password stored 4 50 (some 8) accounts).1.tokens
unfolding find_email
forgot_password-Revoked_example =
    forgot_password-Revoked stored 4 50 8 6 (record someone { email = 8 }) accounts refl

resets_change_no_user_example :
    (ResetLaws.serve_all stored
      (forgetting 4 50 (some 8) ∷ resetting 60 4 77 78 ∷ [])
      (record accounts { tokens = [] })).users
    ≡ users
unfolding lookup
resets_change_no_user_example =
    resets_change_no_user stored (forgetting 4 50 (some 8) ∷ resetting 60 4 77 78 ∷ [])
      (record accounts { tokens = [] }) strips (λ k t at. absurd (ground arith))

abbrev show : Event
show = record {
  venue_id = 2;
  name = 1;
  date = 9000;
  description = none;
  event_type = 1;
  image = none;
  price = pos 50;
  cancelled_at = none;
}

abbrev events : Table Event
events = (3, show) ∷ []

events-NoneCancelled : NoneCancelled events
unfolding lookup
events-NoneCancelled k e shown = ground arith

abbrev event_requests : List EventLaws.EventRequest
event_requests = duplicating (λ n. n) 4 3 none ∷ cancelling 50 3 ∷ []

serve_all-NoneCancelled_example : NoneCancelled (EventLaws.serve_all event_requests events)
serve_all-NoneCancelled_example = serve_all-NoneCancelled event_requests events events-NoneCancelled

abbrev rows : List ℕ
rows = 1 ∷ 2 ∷ 3 ∷ []
