-- ===== src/Seats/Laws.antt =====
-- What `HoldSeat` promises.
use ticketremaster_b.Base.{
  ℕ, zero, suc, ◌+◌, ◌<◌, ◌≡◌, ◌≢◌, refl, ◌⊎◌, inl, inr, true, false, Bool, Option, none, some,
  arith, ◌==◌, if-cases, ◌∙◌, ◌&&◌,
}
use native.Mathlib.Decide.{ℕ_discrete}
use ticketremaster_b.Base.Table.{Table, lookup, insert}
use ticketremaster_b.Seats.Model.{
  is_available, SeatInventory, SeatState, hold_has_expired, clear_hold,
}
use ticketremaster_b.Seats.Hold.{
  HoldSeatRequest, HoldEnv, HoldSeatResponse, lost_update, DbError, Attempt, done, raised, granted,
  held_row, hold_seconds, commit_hold, hold_locked, hold_found, hold_attempt, or_raise,
  updated_rows, after_attempt, operational, unexpected, hold_attempts, hold_seat, give_up,
  is_deadlock_error,
}
use ticketremaster_b.Seats.Refine.{rows-write_hold_cache, rows-delete_hold_cache}

-- The seat was free, or its hold had run out, and its row now names the user and the token.
abbrev pub Granted : HoldSeatRequest → HoldEnv → Table SeatInventory → Attempt × SeatState → Type 0
Granted req env old (r, t) =
    (row : SeatInventory) × (lookup req.inventory_id old ≡ some row)
    × ((is_available row.status ≡ true) ⊎ (hold_has_expired row env.now ≡ true))
    × (t.rows ≡ insert req.inventory_id (held_row req env row) old)
    × (r ≡ done (granted (env.now + hold_seconds req.hold_duration_seconds) env.token))

-- The reply is no success, or the attempt raised, and the rows are what they were.
abbrev pub Refused : Table SeatInventory → Attempt × SeatState → Type 0
Refused old (done r, t) = (r.success ≡ false) × (t.rows ≡ old)
Refused old (raised e, t) = t.rows ≡ old

module _ (req : HoldSeatRequest) (env : HoldEnv) (old : Table SeatInventory) where
  abbrev Outcome : Attempt × SeatState → Type 0
  Outcome o = Granted req env old o ⊎ Refused old o

  or_raise-Outcome :
      (f : Option DbError) (s : SeatState) (rest : Attempt × SeatState)
      → s.rows ≡ old
      → Outcome rest
      → Outcome (or_raise f s rest)
  or_raise-Outcome (some e) s rest h k = inr h
  or_raise-Outcome none s rest h k = k

  lost_update-Outcome :
      (o : Option SeatInventory) (s : SeatState) → s.rows ≡ old → Outcome (done (lost_update o), s)
  lost_update-Outcome none s h = inr (refl, h)
  lost_update-Outcome (some row) s h = inr (refl, h)

  module _ (row₀ : SeatInventory) (found : lookup req.inventory_id old ≡ some row₀) where
    commit_hold-Outcome :
        (row : SeatInventory) (s : SeatState)
        → s.rows ≡ old
        → held_row req env row ≡ held_row req env row₀
        → (is_available row₀.status ≡ true) ⊎ (hold_has_expired row₀ env.now ≡ true)
        → Outcome (commit_hold req env row s)
    unfolding commit_hold
    commit_hold-Outcome row s e w free_seat =
        or_raise-Outcome env.commit_fault s _ e
          (inl (row₀, found, free_seat, rows-write_hold_cache _ _ _ _ ∙ cc, refl))

    hold_locked-Outcome :
        (row : SeatInventory) (s : SeatState)
        → s.rows ≡ old
        → held_row req env row ≡ held_row req env row₀
        → (is_available row.status ≡ true
            → (is_available row₀.status ≡ true) ⊎ (hold_has_expired row₀ env.now ≡ true))
        → Outcome (hold_locked req env row s)
    unfolding hold_locked
    hold_locked-Outcome row s e w free_seat =
        if-cases Outcome (is_available row.status) _ _
          (λ h. or_raise-Outcome env.update_fault s _ e (
            if-cases Outcome (updated_rows row == 1) _ _
              (λ _. commit_hold-Outcome row s e w (free_seat h)) (λ _. lost_update-Outcome _ s e)))
          (λ _. inr (refl, e))

    hold_found-Outcome :
        (n : ℕ) (s : SeatState) → s.rows ≡ old → Outcome (hold_found req env n (some row₀) s)
    unfolding hold_found
    hold_found-Outcome n s e =
        if-cases Outcome (hold_has_expired row₀ env.now) _ _
          (λ expired. or_raise-Outcome env.flush_fault s _ e (
            hold_locked-Outcome (clear_hold row₀) _ (rows-delete_hold_cache _ _ _ _ ∙ e)
              (unfold held_row clear_hold in refl) (λ _. inr expired)))
          (λ _. hold_locked-Outcome row₀ s e refl (λ h. inl h))

  hold_looked_up-Outcome :
      (n : ℕ) (s : SeatState) (found : Option SeatInventory)
      → lookup req.inventory_id old ≡ found
      → s.rows ≡ old
      → Outcome (hold_found req env n found s)
  hold_looked_up-Outcome n s none h e = unfold hold_found in inr (refl, e)
  hold_looked_up-Outcome n s (some row) h e = hold_found-Outcome row h n s e

-- An attempt of `HoldSeat` grants the seat, which was available or held beyond its time, and writes
-- the user, the token and the new time into its row and into no other; or it refuses or raises, and
-- no row changes.
pub hold_attempt_outcome :
    (req : HoldSeatRequest) (env : HoldEnv) (n : ℕ) (s : SeatState)
    → Granted req env s.rows (hold_attempt req env n s) ⊎ Refused s.rows (hold_attempt req env n s)
unfolding hold_attempt
hold_attempt_outcome req env n s =
    or_raise-Outcome req env s.rows env.query_fault s _ refl
      (hold_looked_up-Outcome req env s.rows n s _ refl refl)

abbrev pub HasRaised : Attempt × SeatState → Type 0
HasRaised (done r, t) = ⊥
HasRaised (raised e, t) = Unit

give_up_fails : (e : DbError) → (give_up e).success ≡ false
unfolding give_up
give_up_fails (operational pgcode text) = ground arith
give_up_fails unexpected = refl

module _ (req : HoldSeatRequest) (envs : ℕ → HoldEnv) (n : ℕ)
    (meanwhile : ℕ → SeatState → SeatState) where
  -- The state in which the attempt `i` runs, if it comes to it: what the attempts before it and the
  -- calls between them have left.
  unfoldable pub found_by : SeatState → ℕ → SeatState
  found_by s zero = s
  found_by s (suc i) = meanwhile i (hold_attempt req (envs i) n (found_by s i)).1

  -- A success is the reply of one of the attempts, and the loop ends with what that attempt left:
  -- it granted the seat in the state that it found, and each attempt before it raised an exception.
  abbrev pub GrantedBy : ℕ → SeatState → Option HoldSeatResponse × SeatState → Type 0
  GrantedBy max s (none, t) = Unit
  GrantedBy max s (some r, t) =
      r.success ≡ true
      → (i : ℕ) × (i < max)
        × (hold_attempt req (envs i) n (found_by s i) ≡ (done r, t))
        × Granted req (envs i) (found_by s i).rows (done r, t)
        × ((j : ℕ) → j < i → HasRaised (hold_attempt req (envs j) n (found_by s j)))

  after_attempt-GrantedBy :
      (max attempt : ℕ) (s : SeatState) (more : Bool) (o : Attempt × SeatState)
      (again : Option HoldSeatResponse × SeatState)
      → attempt < max
      → hold_attempt req (envs attempt) n (found_by s attempt) ≡ o
      → Granted req (envs attempt) (found_by s attempt).rows o ⊎ Refused (found_by s attempt).rows o
      → ((j : ℕ) → j < attempt → HasRaised (hold_attempt req (envs j) n (found_by s j)))
      → (HasRaised o → GrantedBy max s again)
      → GrantedBy max s (after_attempt more o again)
  unfolding after_attempt
  after_attempt-GrantedBy max attempt s more (done r, t) again lt e (inl g) earlier later =
      λ ok. (attempt, lt, e, g, earlier)
  after_attempt-GrantedBy max attempt s more (done r, t) again lt e (inr (failed, e₂)) earlier
        later =
      λ ok. cc
  after_attempt-GrantedBy max attempt s more (raised e, t) again lt at h earlier later =
      if-cases (GrantedBy max s) (is_deadlock_error e && more) _ _ (λ _. later tt)
        (λ _ ok. cc (give_up_fails e))

  raised_before :
      (attempt : ℕ) (s : SeatState)
      → ((j : ℕ) → j < attempt → HasRaised (hold_attempt req (envs j) n (found_by s j)))
      → HasRaised (hold_attempt req (envs attempt) n (found_by s attempt))
      → (j : ℕ) → j < suc attempt
      → HasRaised (hold_attempt req (envs j) n (found_by s j))
  raised_before attempt s earlier now j lt = elim (ℕ_discrete j attempt) [
    | yes p ↦ rw p now
    | no p ↦ earlier j (omega arith)
  ]

  hold_attempts-GrantedBy :
      (max left attempt : ℕ) (s : SeatState)
      → left + attempt ≡ max
      → ((j : ℕ) → j < attempt → HasRaised (hold_attempt req (envs j) n (found_by s j)))
      → GrantedBy max s (hold_attempts req envs n meanwhile left attempt (found_by s attempt))
  unfolding hold_attempts found_by
  hold_attempts-GrantedBy max zero attempt s e earlier = tt
  hold_attempts-GrantedBy max (suc left) attempt s e earlier =
      after_attempt-GrantedBy max attempt s _ _ _ (omega arith) refl
        (hold_attempt_outcome req (envs attempt) n (found_by s attempt)) earlier
        (λ now.
          hold_attempts-GrantedBy max left (suc attempt) s (omega arith)
            (raised_before attempt s earlier now))

  hold_attempts-ne-none :
      (left attempt : ℕ) (s : SeatState)
      → 0 < left
      → (hold_attempts req envs n meanwhile left attempt s).0 ≢ none
  unfolding hold_attempts after_attempt
  hold_attempts-ne-none zero attempt s h = absurd (omega arith)
  hold_attempts-ne-none (suc left) attempt s h = ground (
    arith,
    hold_attempts-ne-none left (suc attempt)
        (meanwhile attempt (hold_attempt req (envs attempt) n s).1),
  )

pub hold_seat_answers :
    (req : HoldSeatRequest) (envs : ℕ → HoldEnv) (n : ℕ) (meanwhile : ℕ → SeatState → SeatState)
    (max_retries : ℕ) (s : SeatState)
    → 0 < max_retries
    → ((hold_seat req envs n meanwhile max_retries s).0 ≢ none)
      × GrantedBy req envs n meanwhile max_retries s (hold_seat req envs n meanwhile max_retries s)
unfolding hold_seat found_by
hold_seat_answers req envs n meanwhile max_retries s h = (
  hold_attempts-ne-none req envs n meanwhile max_retries 0 s h,
  hold_attempts-GrantedBy req envs n meanwhile max_retries max_retries 0 s (omega arith)
      (λ j lt. absurd (omega arith)),
)
