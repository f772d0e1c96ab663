-- ===== src/Purchase/HoldQueue.antt =====
-- What `_publish_hold_ttl` of orchestrators/ticket-purchase-orchestrator/routes.py does to its
-- queue.
use ticketremaster_b.Base.{ℕ, zero, suc, ◌≡◌, refl, true, false, List, ◌∷◌, ◌||◌, Bool, arith}
use ticketremaster_b.Seats.Calls.{SeatRequest}
use ticketremaster_b.World.Model.{World}
use ticketremaster_b.Purchase.Holds.{
  Publish, sent, not_sent, sent_and_raised, publish_attempts, after_publish, enqueue,
}

-- Publishing writes to the queue alone.
abbrev pub Published : {A : Type 0} → World A → World A → Type 0
Published w v = (v.seats ≡ w.seats) × (v.fates ≡ w.fates)

after_publish-Published :
    {A : Type 0} (p : Publish) (w taken later later_taken : World A)
    → Published w taken
    → Published w later
    → Published w later_taken
    → Published w (after_publish p taken later later_taken)
after_publish-Published sent w taken later later_taken a b c = a
after_publish-Published not_sent w taken later later_taken a b c = b
after_publish-Published sent_and_raised w taken later later_taken a b c = c

pub publish_attempts-Published :
    {A : Type 0} (left attempt : ℕ) (env : ℕ → Publish) (m : SeatRequest) (w : World A)
    → Published w (publish_attempts left attempt env m w)
unfolding publish_attempts enqueue
publish_attempts-Published zero attempt env m w = (refl, refl)
publish_attempts-Published (suc left) attempt env m w =
    after_publish-Published (env attempt) w _ _ _ (refl, refl)
      (publish_attempts-Published left (suc attempt) env m w)
      (publish_attempts-Published left (suc attempt) env m (enqueue m w))

-- Whether one of the attempts to publish gets the message to the broker.
unfoldable pub is_taken : Publish → Bool
is_taken sent = true
is_taken not_sent = false
is_taken sent_and_raised = true

unfoldable pub some_taken : ℕ → ℕ → (ℕ → Publish) → Bool
some_taken zero attempt env = false
some_taken (suc left) attempt env =
    let later = some_taken left (suc attempt) env in is_taken (env attempt) || later

-- The newest message of the queue is this one.
abbrev pub Newest : {A : Type 0} → SeatRequest → World A → Type 0
Newest m w = (rest : List SeatRequest) × (w.expiring ≡ m ∷ rest)

after_publish-Newest :
    {A : Type 0} (p : Publish) (m : SeatRequest) (taken later later_taken : World A)
    → Newest m taken
    → (p ≡ not_sent → Newest m later)
    → Newest m later_taken
    → Newest m (after_publish p taken later later_taken)
after_publish-Newest sent m taken later later_taken a b c = a
after_publish-Newest not_sent m taken later later_taken a b c = b refl
after_publish-Newest sent_and_raised m taken later later_taken a b c = c

keeps-Newest :
    {A : Type 0} (left attempt : ℕ) (env : ℕ → Publish) (m : SeatRequest) (w : World A)
    → Newest m w
    → Newest m (publish_attempts left attempt env m w)
unfolding publish_attempts enqueue
keeps-Newest zero attempt env m w h = h
keeps-Newest (suc left) attempt env m w h =
    after_publish-Newest (env attempt) m _ _ _ (w.expiring, refl)
      (λ e. keeps-Newest left (suc attempt) env m w h)
      (keeps-Newest left (suc attempt) env m (enqueue m w) (w.expiring, refl))

pub publish_attempts-Newest :
    {A : Type 0} (left attempt : ℕ) (env : ℕ → Publish) (m : SeatRequest) (w : World A)
    → some_taken left attempt env ≡ true
    → Newest m (publish_attempts left attempt env m w)
unfolding publish_attempts enqueue some_taken is_taken
publish_attempts-Newest zero attempt env m w h = absurd (ground arith)
publish_attempts-Newest (suc left) attempt env m w h =
    after_publish-Newest (env attempt) m _ _ _ (w.expiring, refl)
      (λ e. publish_attempts-Newest left (suc attempt) env m w (rw e at h))
      (keeps-Newest left (suc attempt) env m (enqueue m w) (w.expiring, refl))
