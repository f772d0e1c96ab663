-- ===== src/Seats/Refine.antt =====
-- What each call of the service makes of the rows, as a `Change` of one row.
use ticketremaster_b.Base.{
  ℕ, zero, suc, ◌≡◌, refl, inl, inr, true, false, ◌∙◌, Option, none, some, arith, ◌==◌,
  if◌then◌else◌, Bool, if-cases, Option-cases,
}
use ticketremaster_b.Base.Table.{Table, lookup}
use ticketremaster_b.Seats.Model.{
  is_available, is_held, SeatInventory, HoldEntry, SeatState, hold_has_expired, clear_hold,
}
use ticketremaster_b.Seats.Cache.{
  Redis, write_hold_cache, log_cache_invalidation_failure, delete_attempts, delete_hold_cache,
  check_idempotency, cache_idempotency_result,
}
use ticketremaster_b.Seats.Hold.{
  HoldSeatRequest, HoldEnv, DbError, Attempt, or_raise, updated_rows, held_row, commit_hold,
  hold_locked, hold_found, hold_attempt,
}
use ticketremaster_b.Seats.Calls.{
  SeatRequest, CallEnv, holds_seat, can_take, sell_row, written, remember, release_uncached,
  release_seat, sell_seat, status_of, get_seat_status,
}
use ticketremaster_b.Seats.Change.{Change, take, free, sell, RowsChange, kept, changed}

pub rows-write_hold_cache :
    (k : ℕ) (e : HoldEntry) (r : Redis) (s : SeatState) → (write_hold_cache k e r s).rows ≡ s.rows
unfolding write_hold_cache
rows-write_hold_cache k e r s = ground arith

rows-delete_attempts :
    (left attempt k : ℕ) (r : Redis) (s : SeatState)
    → (delete_attempts left attempt k r s).rows ≡ s.rows
unfolding delete_attempts log_cache_invalidation_failure
rows-delete_attempts zero attempt k r s = refl
rows-delete_attempts (suc left) attempt k r s =
    ground (arith, rows-delete_attempts left (suc attempt) k r s)

pub rows-delete_hold_cache :
    (retries k : ℕ) (r : Redis) (s : SeatState) → (delete_hold_cache retries k r s).rows ≡ s.rows
unfolding delete_hold_cache
rows-delete_hold_cache retries k r s = ground (arith, rows-delete_attempts retries 0 k r s)

abbrev AttemptChange : ℕ → ℕ → Table SeatInventory → Attempt × SeatState → Type 0
AttemptChange now k old (r, s) = RowsChange now k old s.rows

or_raise-AttemptChange :
    (now k : ℕ) (old : Table SeatInventory) (f : Option DbError) (s : SeatState)
    (rest : Attempt × SeatState)
    → RowsChange now k old s.rows
    → AttemptChange now k old rest
    → AttemptChange now k old (or_raise f s rest)
or_raise-AttemptChange now k old (some e) s rest h k' = h
or_raise-AttemptChange now k old none s rest h k' = k'

module _ (req : HoldSeatRequest) (env : HoldEnv) (old : Table SeatInventory) (row₀ : SeatInventory)
    (found : lookup req.inventory_id old ≡ some row₀) where
  commit_hold-AttemptChange :
      (row : SeatInventory) (s : SeatState)
      → s.rows ≡ old
      → Change env.now row₀ (held_row req env row)
      → AttemptChange env.now req.inventory_id old (commit_hold req env row s)
  unfolding commit_hold
  commit_hold-AttemptChange row s e c =
      or_raise-AttemptChange _ _ _ env.commit_fault s _ (rw e kept)
        (rw (rows-write_hold_cache, e) (changed row₀ _ found c))

  hold_locked-AttemptChange :
      (row : SeatInventory) (s : SeatState)
      → s.rows ≡ old
      → (is_available row.status ≡ true → Change env.now row₀ (held_row req env row))
      → AttemptChange env.now req.inventory_id old (hold_locked req env row s)
  unfolding hold_locked
  hold_locked-AttemptChange row s e c =
      if-cases (AttemptChange env.now req.inventory_id old) (is_available row.status) _ _
        (λ free_seat. or_raise-AttemptChange _ _ _ env.update_fault s _ (rw e kept) (
          if-cases (AttemptChange env.now req.inventory_id old) (updated_rows row == 1) _ _
            (λ _. commit_hold-AttemptChange row s e (c free_seat)) (λ _. rw e kept)))
        (λ _. rw e kept)

  hold_found-AttemptChange :
      (retries : ℕ) (s : SeatState)
      → s.rows ≡ old
      → AttemptChange env.now req.inventory_id old (hold_found req env retries (some row₀) s)
  unfolding hold_found held_row
  hold_found-AttemptChange retries s e =
      if-cases (AttemptChange env.now req.inventory_id old) (hold_has_expired row₀ env.now) _ _
        (λ expired. or_raise-AttemptChange _ _ _ env.flush_fault s _ (rw e kept) (
          hold_locked-AttemptChange (clear_hold row₀) _ (rw rows-delete_hold_cache e)
            (λ _. unfold clear_hold in take _ _ _ (inr expired))))
        (λ _. hold_locked-AttemptChange row₀ s e (λ free_seat. take _ _ _ (inl free_seat)))

pub hold_attempt-RowsChange :
    (req : HoldSeatRequest) (env : HoldEnv) (retries : ℕ) (s : SeatState)
    → RowsChange env.now req.inventory_id s.rows (hold_attempt req env retries s).1.rows
unfolding hold_attempt
hold_attempt-RowsChange req env retries s =
    or_raise-AttemptChange _ _ _ env.query_fault s _ kept
      (elim (Option-cases (lookup req.inventory_id s.rows)) [
        | inl h ↦ rw h (unfold hold_found in kept)
        | inr (row, h) ↦ rw h (hold_found-AttemptChange req env s.rows row h retries s refl)
      ])

-- The same for a call whose reply is an `Option`.
abbrev ReplyChange : {A : Type 0} → ℕ → ℕ → Table SeatInventory → A × SeatState → Type 0
ReplyChange now k old (r, s) = RowsChange now k old s.rows

pub rows-remember :
    (req : SeatRequest) (env : CallEnv) (b : Bool) (s : SeatState)
    → (remember req env b s).rows ≡ s.rows
unfolding remember cache_idempotency_result
rows-remember req env b s = ground arith

held_of_can_take :
    (req : SeatRequest) (row : SeatInventory)
    → can_take req (some row) ≡ true
    → is_held row.status ≡ true
unfolding can_take holds_seat
held_of_can_take req row h = ground arith

written-RowsChange :
    (now k : ℕ) (f : SeatInventory → SeatInventory) (found : Option SeatInventory) (s : SeatState)
    → lookup k s.rows ≡ found
    → ((row : SeatInventory) → found ≡ some row → Change now row (f row))
    → RowsChange now k s.rows (written k f found s).rows
written-RowsChange now k f none s e c = kept
written-RowsChange now k f (some row) s e c = changed row (f row) e (c row refl)

module _ (req : SeatRequest) (env : CallEnv) (s : SeatState)
    (f : SeatInventory → SeatInventory) where
  -- the frame that the two calls share
  taken-ReplyChange :
      {A : Type 0} (no_reply refusal reply : A) (refused_state next : SeatState)
      → ((row : SeatInventory) → is_held row.status ≡ true → Change env.now row (f row))
      → refused_state.rows ≡ s.rows
      → next.rows ≡ (written req.inventory_id f (lookup req.inventory_id s.rows) s).rows
      → ReplyChange env.now req.inventory_id s.rows (
          if env.query_fault
          then (no_reply, s)
          else if can_take req (lookup req.inventory_id s.rows)
          then (if env.commit_fault then (no_reply, s) else (reply, next))
          else (refusal, refused_state))
  taken-ReplyChange no_reply refusal reply refused_state next change same_rows next_rows =
      let P = ReplyChange env.now req.inventory_id s.rows in
      if-cases P env.query_fault _ _ (λ _. kept)
        (λ _.
          if-cases P (can_take req (lookup req.inventory_id s.rows)) _ _
            (λ taken.
              if-cases P env.commit_fault _ _ (λ _. kept)
                (λ _. rw next_rows (
                  written-RowsChange env.now req.inventory_id f _ s refl
                    (λ row e. change row (held_of_can_take req row (rw e at taken))))))
            (λ _. rw same_rows kept))

module _ (retries : ℕ) (req : SeatRequest) (env : CallEnv) (s : SeatState) where
  release_uncached-RowsChange :
      RowsChange env.now req.inventory_id s.rows (release_uncached retries req env s).1.rows
  unfolding release_uncached
  release_uncached-RowsChange =
      taken-ReplyChange req env s clear_hold none (some false) (some true) _ _ (λ row h. free h)
        (rows-remember req env false s)
        (rows-remember req env true _ ∙ rows-delete_hold_cache _ _ _ _)

  pub release_seat-RowsChange :
      RowsChange env.now req.inventory_id s.rows (release_seat retries req env s).1.rows
  unfolding release_seat
  release_seat-RowsChange =
      elim (Option-cases (check_idempotency req.inventory_id req.hold_token env.check_redis s)) [
        | inl h ↦ rw h release_uncached-RowsChange
        | inr (b, h) ↦ rw h kept
      ]

  pub sell_seat-RowsChange :
      RowsChange env.now req.inventory_id s.rows (sell_seat retries req env s).1.rows
  unfolding sell_seat
  sell_seat-RowsChange =
      taken-ReplyChange req env s sell_row none (some false) (some true) _ _ (λ row h. sell h) refl
        (rows-delete_hold_cache _ _ _ _)

held_of_expired :
    (row : SeatInventory) (now : ℕ) → hold_has_expired row now ≡ true → is_held row.status ≡ true
unfolding hold_has_expired is_held
held_of_expired row now h = ground arith

module _ (retries inventory_id : ℕ) (env : CallEnv) (s : SeatState) where
  status_of-RowsChange :
      (found : Option SeatInventory)
      → lookup inventory_id s.rows ≡ found
      → ReplyChange env.now inventory_id s.rows (status_of retries inventory_id env found s)
  unfolding status_of
  status_of-RowsChange none e = kept
  status_of-RowsChange (some row) e =
      let P = ReplyChange env.now inventory_id s.rows in
      if-cases P (hold_has_expired row env.now) _ _
        (λ expired.
          if-cases P env.commit_fault _ _ (λ _. kept)
            (λ _.
              rw rows-delete_hold_cache
                (changed row _ e (free (held_of_expired row env.now expired)))))
        (λ _. kept)

  pub get_seat_status-RowsChange :
      RowsChange env.now inventory_id s.rows (get_seat_status retries inventory_id env s).1.rows
  unfolding get_seat_status
  get_seat_status-RowsChange =
      if-cases (ReplyChange env.now inventory_id s.rows) env.query_fault _ _ (λ _. kept)
        (λ _. status_of-RowsChange _ refl)
