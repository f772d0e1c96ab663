-- ===== src/World/Model.antt =====
-- The state that the orchestrators share, the actions on it, and the credit service of OutSystems,
-- which is not part of the repository: its state `A` and its two calls are parameters.
use ticketremaster_b.Base.{ℕ, ◌≡◌, ◌≢◌, ◌⊎◌, Bool, true, false, Option, none, some, List}
use ticketremaster_b.Base.Int.{ℤ, pos}
use ticketremaster_b.Base.Table.{Table}
use ticketremaster_b.Web.{Code, Result, ok, err}
use ticketremaster_b.Seats.Model.{SeatState}
use ticketremaster_b.Seats.Calls.{SeatRequest}
use ticketremaster_b.Services.Tickets.{Ticket}
use ticketremaster_b.Services.Listings.{Listing}
use ticketremaster_b.Services.Transfers.{Transfer}
use ticketremaster_b.Services.Ledger.{Ledger}
use ticketremaster_b.Services.Events.{Event}
use ticketremaster_b.Services.Users.{User}
use ticketremaster_b.Services.Logs.{TicketLog}

-- What becomes of one call: it is answered, it never arrives, or its answer is lost.
pub data Fate : Type 0 where
  delivered lost_request lost_reply : Fate

-- A message of the dead letter queues of the orchestrators.
pub data DeadLetter : Type 0 where
  purchase_compensation_failed : ℕ → ℕ → ℕ → DeadLetter
  transfer_compensation_failed : ℕ → DeadLetter

-- The body of a message about a transfer that may time out; 0 for a field that it lacks.
pub record TimeoutMessage : Type 0 where
  pub transfer_id : ℕ
  pub listing_id : ℕ

-- `expiring` is the messages of seat_hold_ttl_queue and `timeouts` those of transfer_timeout_queue,
-- the newest first.
pub record World (A : Type 0) : Type 0 where
  pub clock : ℕ
  pub calls : ℕ
  pub fates : List Fate
  pub seats : SeatState
  pub tickets : Table Ticket
  pub listings : Table Listing
  pub transfers : Table Transfer
  pub ledger : Ledger
  pub events : Table Event
  pub account : A
  pub dead_letters : List DeadLetter
  pub expiring : List SeatRequest
  pub timeouts : List TimeoutMessage
  pub users : Table User
  pub logs : List TicketLog

-- The JSON of GET /credits/<user>, with the three names under which a balance may stand.
pub record CreditReply : Type 0 where
  pub credit_balance : Option ℤ
  pub capital_credit_balance : Option ℤ
  pub balance : Option ℤ

-- `_get_credit_balance`
unfoldable pub get_credit_balance : CreditReply → ℤ
get_credit_balance r = elim r.credit_balance [
  | some b ↦ b
  | none ↦ elim r.capital_credit_balance [
    | some b ↦ b
    | none ↦ elim r.balance [ some b ↦ b | none ↦ pos 0 ]
  ]
]

-- GET and PATCH of /credits/<user>; `none` and `false` are errors.
pub record CreditService (A : Type 0) : Type 0 where
  pub get : ℕ → A → Option CreditReply
  pub patch : ℕ → ℤ → A → Bool × A

-- What the program relies on: a balance is kept for each user; GET reads it; PATCH that answers has
-- written this user's balance alone, and PATCH that fails has written it or nothing.
pub record Keeps {A : Type 0} (C : CreditService A) (balance : ℕ → A → ℤ) : Type 0 where
  pub reads :
      (u : ℕ) (r : CreditReply) (a : A) → C.get u a ≡ some r → get_credit_balance r ≡ balance u a
  pub writes : (u : ℕ) (v : ℤ) (a : A) → (C.patch u v a).0 ≡ true → balance u (C.patch u v a).1 ≡ v
  pub fails :
      (u : ℕ) (v : ℤ) (a : A)
      → (C.patch u v a).0 ≡ false
      → (balance u (C.patch u v a).1 ≡ v) ⊎ (balance u (C.patch u v a).1 ≡ balance u a)
  pub others : (u x : ℕ) (v : ℤ) (a : A) → u ≢ x → balance x (C.patch u v a).1 ≡ balance x a

-- A handler, or a part of one: it ends with a value or with the error that it answers.
abbrev pub Action : Type 0 → Type 0 → Type 0
Action A B = World A → Result B × World A

module _ {A B : Type 0} where
  abbrev pub pure : B → Action A B
  pure b w = (ok b, w)

  abbrev pub fail : Code → Action A B
  fail c w = (err c, w)

  abbrev pub gets : (World A → B) → Action A B
  gets f w = (ok (f w), w)

  -- Any error of `m` is answered as `c`.
  abbrev pub failing : Code → Action A B → Action A B
  failing c m w = let (r, w') = m w in elim r [ ok b ↦ (ok b, w') | err _ ↦ (err c, w') ]

  -- After an error of `m` the rest is `h`, which is told the code.
  abbrev pub catch : Action A B → (Code → Action A B) → Action A B
  catch m h w = let (r, w') = m w in elim r [ ok b ↦ (ok b, w') | err c ↦ h c w' ]

-- The result of `m` is not looked at.
abbrev pub ignore : {A B : Type 0} → Action A B → Action A (Unit {0})
ignore m w = (ok tt, (m w).1)

infixl 5 ◌>>=◌ ◌>>◌
abbrev pub ◌>>=◌ : {A B D : Type 0} → Action A B → (B → Action A D) → Action A D
◌>>=◌ m f w = let (r, w') = m w in elim r [ ok b ↦ f b w' | err c ↦ (err c, w') ]

abbrev pub ◌>>◌ : {A D : Type 0} → Action A (Unit {0}) → Action A D → Action A D
m >> k = m >>= λ _. k

abbrev pub require : {A : Type 0} → Bool → Code → Action A (Unit {0})
require true c = pure tt
require false c = fail c
