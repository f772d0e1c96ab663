-- ===== src/Services/UserLaws.antt =====
-- What the user routes of services/user-service keep: each email belongs to one user.
use ticketremaster_b.Base.{
  ℕ, ◌≡◌, ◌≢◌, refl, ◌⊎◌, inl, inr, true, false, Bool, Option, none, some, List, [], ◌∷◌, ◌||◌,
  arith, Bool-cases, if-cases,
}
use ticketremaster_b.Base.Table.{Table, lookup, insert, insert_inv}
use ticketremaster_b.Web.{Result, err, ok, email_already_exists}
use ticketremaster_b.Services.Users.{
  User, NewUser, UserPatch, to_user, find_email, email_taken, commit_user, conflict_caught,
  create_checked, create_user, update_found, update_user, is_empty_user_patch, belongs_to_other,
  patched_user, change_found, set_favorites, set_flagged, update_user_favorites, admin_flag_user,
  unflag_found, admin_unflag_user,
}

-- No two users have the same email.
abbrev pub UniqueEmails : Table User → Type 0
UniqueEmails users =
    (i j : ℕ) (u v : User)
    → lookup i users ≡ some u
    → lookup j users ≡ some v
    → u.email ≡ v.email
    → i ≡ j

-- Where no other user has an email, no row of another key does.
untaken :
    (k email j : ℕ) (v : User) (users : Table User)
    → email_taken k email users ≡ false
    → lookup j users ≡ some v
    → v.email ≡ email
    → k ≡ j
unfolding email_taken lookup
untaken k email j v [] free at e = absurd (ground arith)
untaken k email j v ((i, u) ∷ rest) free at e = ground (arith, untaken k email j v rest)

inserted :
    (k : ℕ) (u : User) (users : Table User)
    → email_taken k u.email users ≡ false
    → UniqueEmails users
    → UniqueEmails (insert k u users)
inserted k u users free h i j a b at_i at_j e = elim (insert_inv k i u a users at_i) [
  | inl (i_is, a_is) ↦ elim (insert_inv k j u b users at_j) [
    | inl (j_is, _) ↦ (cc)
    | inr old ↦ let other : k ≡ j = untaken k u.email j b users free old (cc) in (cc)
  ]
  | inr old_i ↦ elim (insert_inv k j u b users at_j) [
    | inl (j_is, b_is) ↦ let other : k ≡ i = untaken k u.email i a users free old_i (cc) in (cc)
    | inr old_j ↦ h i j a b old_i old_j e
  ]
]

commit_user-UniqueEmails :
    (k : ℕ) (u : User) (users : Table User)
    → UniqueEmails users
    → UniqueEmails (commit_user k u users).1
unfolding commit_user
commit_user-UniqueEmails k u users h = elim (Bool-cases (email_taken k u.email users)) [
  | inl taken ↦ rw taken h
  | inr free ↦ rw free (inserted k u users free h)
]

change_found-UniqueEmails :
    (k : ℕ) (f : User → User) (users : Table User)
    → ((u : User) → (f u).email ≡ u.email)
    → UniqueEmails users
    → UniqueEmails (change_found k f (lookup k users) users).1
change_found-UniqueEmails k f users same h = by_found (lookup k users) refl
  where
    kept : (u : User) → lookup k users ≡ some u → UniqueEmails (insert k (f u) users)
    kept u at i j a b at_i at_j e = elim (insert_inv k i (f u) a users at_i) [
      | inl (i_is, a_is) ↦ elim (insert_inv k j (f u) b users at_j) [
        | inl (j_is, _) ↦ (cc)
        | inr old ↦ let found = same u in let other : k ≡ j = h k j u b at old (cc) in (cc)
      ]
      | inr old_i ↦ elim (insert_inv k j (f u) b users at_j) [
        | inl (j_is, b_is) ↦
            let found = same u in let other : i ≡ k = h i k a u old_i at (cc) in (cc)
        | inr old_j ↦ h i j a b old_i old_j e
      ]
    ]

    by_found :
        (found : Option User)
        → lookup k users ≡ found
        → UniqueEmails (change_found k f found users).1
    by_found none at = unfold change_found in h
    by_found (some u) at = unfold change_found in kept u at

abbrev Leaves : Result User × Table User → Type 0
Leaves r = UniqueEmails r.1

-- The writing requests to the user routes; see the routes for their arguments.
pub data UserRequest : Type 0 where
  creating : ℕ → Option NewUser → UserRequest
  updating : ℕ → UserPatch → UserRequest
  favoring : ℕ → Option (List ℕ) → UserRequest
  flagging : ℕ → Option Bool → UserRequest
  unflagging : ℕ → UserRequest

-- The users after a request.
unfoldable pub serve : UserRequest → Table User → Table User
serve (creating k body) users = (create_user k body users).1
serve (updating k p) users = (update_user k p users).1
serve (favoring k events) users = (update_user_favorites k events users).1
serve (flagging k b) users = (admin_flag_user k b users).1
serve (unflagging k) users = (admin_unflag_user k users).1

unfoldable pub serve_all : List UserRequest → Table User → Table User
serve_all [] users = users
serve_all (r ∷ rest) users = serve_all rest (serve r users)

create_checked-UniqueEmails :
    (k : ℕ) (body : NewUser) (found : Option (ℕ × User)) (users : Table User)
    → UniqueEmails users
    → UniqueEmails (create_checked k body found users).1
unfolding create_checked
create_checked-UniqueEmails k body none users h = commit_user-UniqueEmails k (to_user body) users h
create_checked-UniqueEmails k body (some u) users h = h

caught-UniqueEmails :
    (r : Result User × Table User) → UniqueEmails r.1 → UniqueEmails (conflict_caught r).1
unfolding conflict_caught
caught-UniqueEmails (ok u, users) h = h
caught-UniqueEmails (err c, users) h = h

update_found-UniqueEmails :
    (k : ℕ) (p : UserPatch) (found : Option User) (users : Table User)
    → UniqueEmails users
    → UniqueEmails (update_found k p found users).1
unfolding update_found
update_found-UniqueEmails k p none users h = h
update_found-UniqueEmails k p (some u) users h =
    if-cases Leaves (belongs_to_other k p.email users) _ _ (λ _. h)
      (λ _.
        caught-UniqueEmails (commit_user k (patched_user p u) users)
          (commit_user-UniqueEmails k (patched_user p u) users h))

unflag_found-same :
    (k : ℕ) (found : Option User) (users : Table User)
    → ((unflag_found k found users).1 ≡ users)
      ⊎ ((unflag_found k found users).1 ≡ (change_found k (set_flagged false) found users).1)
unfolding unflag_found change_found
unflag_found-same k none users = inl refl
unflag_found-same k (some u) users = elim (Bool-cases u.is_flagged) [
  | inl b ↦ inr (rw b refl)
  | inr b ↦ inl (rw b refl)
]

serve-UniqueEmails :
    (r : UserRequest) (users : Table User) → UniqueEmails users → UniqueEmails (serve r users)
unfolding serve create_user update_user update_user_favorites admin_flag_user admin_unflag_user
serve-UniqueEmails (creating k none) users h = h
serve-UniqueEmails (creating k (some body)) users h =
    create_checked-UniqueEmails k body (find_email body.email users) users h
serve-UniqueEmails (updating k p) users h =
    if-cases Leaves (is_empty_user_patch p || p.unsupported) _ _ (λ _. h)
      (λ _. update_found-UniqueEmails k p (lookup k users) users h)
serve-UniqueEmails (favoring k none) users h = h
serve-UniqueEmails (favoring k (some events)) users h =
    change_found-UniqueEmails k (set_favorites events) users (λ u. refl) h
serve-UniqueEmails (flagging k none) users h = h
serve-UniqueEmails (flagging k (some b)) users h =
    change_found-UniqueEmails k (set_flagged b) users (λ u. refl) h
serve-UniqueEmails (unflagging k) users h = elim (unflag_found-same k (lookup k users) users) [
  | inl e ↦ rw e h
  | inr e ↦ rw e (change_found-UniqueEmails k (set_flagged false) users (λ u. refl) h)
]

-- After any requests to the user routes each email still belongs to at most one user, if it did
-- before.
pub serve_all-UniqueEmails :
    (requests : List UserRequest) (users : Table User)
    → UniqueEmails users
    → UniqueEmails (serve_all requests users)
unfolding serve_all
serve_all-UniqueEmails [] users h = h
serve_all-UniqueEmails (r ∷ rest) users h =
    serve_all-UniqueEmails rest (serve r users) (serve-UniqueEmails r users h)

found_email :
    (j email : ℕ) (v : User) (users : Table User)
    → lookup j users ≡ some v
    → email ≡ v.email
    → find_email email users ≢ none
unfolding find_email lookup
found_email j email v [] at e = absurd (ground arith)
found_email j email v ((i, u) ∷ rest) at e = ground (arith, found_email j email v rest)

create_refused :
    (k : ℕ) (body : NewUser) (found : Option (ℕ × User)) (users : Table User)
    → found ≢ none
    → create_checked k body found users ≡ (err email_already_exists, users)
unfolding create_checked
create_refused k body none users h = absurd (h refl)
create_refused k body (some u) users h = refl

taken :
    (k j : ℕ) (v : User) (users : Table User)
    → lookup j users ≡ some v
    → k ≢ j
    → email_taken k v.email users ≡ true
taken k j v users at other = elim (Bool-cases (email_taken k v.email users)) [
  | inl e ↦ e
  | inr free ↦ absurd (other (untaken k v.email j v users free at refl))
]

update_refused :
    (k j : ℕ) (u v : User) (p : UserPatch) (users : Table User)
    → lookup j users ≡ some v
    → k ≢ j
    → p.email ≡ some v.email
    → update_found k p (some u) users ≡ (err email_already_exists, users)
unfolding update_found commit_user conflict_caught patched_user
update_refused k j u v p users at other e =
    let same : email_taken k v.email users ≡ true = taken k j v users at other in
    elim (Bool-cases (belongs_to_other k p.email users)) [
      | inl b ↦ rw b refl
      | inr b ↦ rw (b, e, same) refl
    ]

well_formed :
    (p : UserPatch) (email : ℕ)
    → p.email ≡ some email
    → p.unsupported ≡ false
    → (is_empty_user_patch p || p.unsupported) ≡ false
unfolding is_empty_user_patch
well_formed p email e ok_fields = ground arith

-- An email that a user has is refused to everybody else, and as EMAIL_ALREADY_EXISTS, not by an
-- exception: a POST with it and a PATCH of another user with it, if the PATCH has no field that is
-- not supported, leave every user as it was.
pub email_refused :
    (new k j : ℕ) (u v : User) (body : NewUser) (p : UserPatch) (users : Table User)
    → lookup j users ≡ some v
    → lookup k users ≡ some u
    → k ≢ j
    → body.email ≡ v.email
    → p.email ≡ some v.email
    → p.unsupported ≡ false
    → (create_user new (some body) users ≡ (err email_already_exists, users))
      × (update_user k p users ≡ (err email_already_exists, users))
unfolding create_user update_user
email_refused new k j u v body p users at there other posted patched ok_fields = (
  create_refused new body (find_email body.email users) users
      (found_email j body.email v users at posted),
  rw (well_formed p v.email patched ok_fields, there)
      (update_refused k j u v p users at other patched),
)
