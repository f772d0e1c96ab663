-- ===== src/World/Calm.antt =====
-- Calls that are all delivered, with no other request in between.
use ticketremaster_b.Base.{ℕ, suc, ◌≡◌, [], arith}
use ticketremaster_b.World.Model.{World, Action}
use ticketremaster_b.World.Calls.{arrive, spend_fate, next_fate, meet, remote}
use ticketremaster_b.World.Frame.{Arrives}

abbrev pub alone : {A : Type 0} → ℕ → World A → World A
alone n w = w

abbrev pub Calm : {A : Type 0} → World A → Type 0
Calm w = w.fates ≡ []

abbrev pub counted : {A : Type 0} → World A → World A
counted w = record w { calls = suc w.calls }

module _ {A : Type 0} where
  pub Calm-Arrives : Arrives {A = A} alone Calm
  unfolding arrive spend_fate
  Calm-Arrives = record { served = λ w h. ground (arith, h) }

  pub remote-Calm :
      {B : Type 0} (m : Action A B) (w : World A) → Calm w → remote alone m w ≡ m (counted w)
  unfolding remote arrive next_fate spend_fate meet
  remote-Calm m w h = simp h
