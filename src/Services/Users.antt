-- ===== src/Services/Users.antt =====
-- services/user-service: models.py and the user routes of routes.py. Texts are numbers.
use ticketremaster_b.Base.{
  ℕ, Bool, true, false, Option, none, some, List, [], ◌∷◌, ◌&&◌, ◌||◌, not, ◌==◌, if◌then◌else◌,
}
use ticketremaster_b.Base.Table.{Table, lookup, insert}
use ticketremaster_b.Web.{
  Result, ok, err, validation_error, user_not_found, email_already_exists, user_not_flagged,
  internal_error,
}
use ticketremaster_b.Services.Tickets.{field_or}

pub data Role : Type 0 where
  user staff admin : Role
  other : ℕ → Role

-- `class User`, without its key and `createdAt`
pub record User : Type 0 where
  pub email : ℕ
  pub password : ℕ
  pub salt : ℕ
  pub phone_number : ℕ
  pub role : Role
  pub is_flagged : Bool
  pub venue_id : Option ℕ
  pub favorite_events : List ℕ

-- The body of POST /users with its required fields; `none` for a field that has a default.
pub record NewUser : Type 0 where
  pub email : ℕ
  pub password : ℕ
  pub salt : ℕ
  pub phone_number : ℕ
  pub role : Option Role
  pub is_flagged : Option Bool
  pub venue_id : Option ℕ

abbrev pub to_user : NewUser → User
to_user body = record {
  email = body.email;
  password = body.password;
  salt = body.salt;
  phone_number = body.phone_number;
  role = field_or body.role user;
  is_flagged = field_or body.is_flagged false;
  venue_id = body.venue_id;
  favorite_events = [];
}

-- `User.query.filter_by(email=email).first()`
unfoldable pub find_email : ℕ → Table User → Option (ℕ × User)
find_email email [] = none
find_email email ((i, u) ∷ rest) =
    let later = find_email email rest in if u.email == email then some (i, u) else later

-- Whether another user than `user_id` has this email.
unfoldable pub email_taken : ℕ → ℕ → Table User → Bool
email_taken user_id email [] = false
email_taken user_id email ((i, u) ∷ rest) =
    let later = email_taken user_id email rest in u.email == email && not (i == user_id) || later

-- The commit of one user's row: the unique email column refuses an email that another row has, and
-- an `IntegrityError` that nobody catches is answered as a server error.
unfoldable pub commit_user : ℕ → User → Table User → Result User × Table User
commit_user user_id u users =
    if email_taken user_id u.email users
    then (err internal_error, users)
    else (ok u, insert user_id u users)

unfoldable pub create_checked :
    ℕ → NewUser → Option (ℕ × User) → Table User → Result User × Table User
create_checked user_id body (some found) users = (err email_already_exists, users)
create_checked user_id body none users = commit_user user_id (to_user body) users

-- `create_user`, by `uuid4`
unfoldable pub create_user : ℕ → Option NewUser → Table User → Result User × Table User
create_user user_id none users = (err validation_error, users)
create_user user_id (some body) users =
    create_checked user_id body (find_email body.email users) users

unfoldable pub user_or_missing : Option User → Result User
user_or_missing none = err user_not_found
user_or_missing (some u) = ok u

-- `get_user`, `admin_get_user`
unfoldable pub get_user : ℕ → Table User → Result User
get_user user_id users = user_or_missing (lookup user_id users)

-- `get_user_by_email`, with the user's key
unfoldable pub get_user_by_email : ℕ → Table User → Result (ℕ × User)
get_user_by_email email users = elim (find_email email users) [
  | none ↦ err user_not_found
  | some found ↦ ok found
]

-- The body of PATCH /users/<id>: the fields that it has.
pub record UserPatch : Type 0 where
  pub email : Option ℕ
  pub password : Option ℕ
  pub salt : Option ℕ
  pub phone_number : Option ℕ
  pub role : Option Role
  pub is_flagged : Option Bool
  pub venue_id : Option (Option ℕ)
  pub unsupported : Bool

abbrev pub no_user_patch : UserPatch
no_user_patch = record {
  email = none;
  password = none;
  salt = none;
  phone_number = none;
  role = none;
  is_flagged = none;
  venue_id = none;
  unsupported = false;
}

-- the `setattr` loop
unfoldable pub patched_user : UserPatch → User → User
patched_user p u = record u {
  email = field_or p.email u.email;
  password = field_or p.password u.password;
  salt = field_or p.salt u.salt;
  phone_number = field_or p.phone_number u.phone_number;
  role = field_or p.role u.role;
  is_flagged = field_or p.is_flagged u.is_flagged;
  venue_id = field_or p.venue_id u.venue_id;
}

abbrev missing {ℓ} : {A : Type ℓ} → Option A → Bool
missing none = true
missing (some a) = false

unfoldable pub is_empty_user_patch : UserPatch → Bool
is_empty_user_patch p =
    missing p.email
    && missing p.password
    && missing p.salt
    && missing p.phone_number
    && missing p.role
    && missing p.is_flagged
    && missing p.venue_id
    && not p.unsupported

-- `existing_user and existing_user.userId != user.userId`, when the body has an email
unfoldable pub belongs_to_other : ℕ → Option ℕ → Table User → Bool
belongs_to_other user_id none users = false
belongs_to_other user_id (some email) users = elim (find_email email users) [
  | none ↦ false
  | some found ↦ not (found.0 == user_id)
]

-- `except IntegrityError`
unfoldable pub conflict_caught : Result User × Table User → Result User × Table User
conflict_caught (ok u, users) = (ok u, users)
conflict_caught (err c, users) = (err email_already_exists, users)

unfoldable pub update_found : ℕ → UserPatch → Option User → Table User → Result User × Table User
update_found user_id p none users = (err user_not_found, users)
update_found user_id p (some u) users =
    if belongs_to_other user_id p.email users
    then (err email_already_exists, users)
    else conflict_caught (commit_user user_id (patched_user p u) users)

-- `update_user`
unfoldable pub update_user : ℕ → UserPatch → Table User → Result User × Table User
update_user user_id p users =
    if is_empty_user_patch p || p.unsupported
    then (err validation_error, users)
    else update_found user_id p (lookup user_id users) users

-- A change of a user that leaves the email, and its commit.
unfoldable pub change_found :
    ℕ → (User → User) → Option User → Table User → Result User × Table User
change_found user_id f none users = (err user_not_found, users)
change_found user_id f (some u) users = (ok (f u), insert user_id (f u) users)

abbrev pub set_favorites : List ℕ → User → User
set_favorites events u = record u { favorite_events = events }

abbrev pub set_flagged : Bool → User → User
set_flagged b u = record u { is_flagged = b }

-- `update_user_favorites`; `none` is a body without a list `eventIds`
unfoldable pub update_user_favorites : ℕ → Option (List ℕ) → Table User → Result User × Table User
update_user_favorites user_id none users = (err validation_error, users)
update_user_favorites user_id (some events) users =
    change_found user_id (set_favorites events) (lookup user_id users) users

-- `get_user_favorites`
unfoldable pub get_user_favorites : ℕ → Table User → Result (List ℕ)
get_user_favorites user_id users = elim (lookup user_id users) [
  | none ↦ err user_not_found
  | some u ↦ ok u.favorite_events
]

-- `admin_flag_user`; `none` is a body without `isFlagged`
unfoldable pub admin_flag_user : ℕ → Option Bool → Table User → Result User × Table User
admin_flag_user user_id none users = (err validation_error, users)
admin_flag_user user_id (some b) users =
    change_found user_id (set_flagged b) (lookup user_id users) users

unfoldable pub unflag_found : ℕ → Option User → Table User → Result User × Table User
unflag_found user_id none users = (err user_not_found, users)
unflag_found user_id (some u) users =
    if u.is_flagged
    then (ok (set_flagged false u), insert user_id (set_flagged false u) users)
    else (err user_not_flagged, users)

-- `admin_unflag_user`
unfoldable pub admin_unflag_user : ℕ → Table User → Result User × Table User
admin_unflag_user user_id users = unflag_found user_id (lookup user_id users) users
