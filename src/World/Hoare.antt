-- ===== src/World/Hoare.antt =====
-- What holds after an action that began where `P` held: `Q b` if it ended with the value `b`, `E`
-- if it ended with an error.
use ticketremaster_b.Base.{ℕ, ◌≡◌, Bool, true, false, refl}
use ticketremaster_b.Web.{Code, Result, ok, err}
use ticketremaster_b.World.Model.{
  World, Fate, delivered, lost_request, lost_reply, Action, pure, fail, failing, catch, ignore,
  ◌>>=◌, require,
}
use ticketremaster_b.World.Calls.{arrive, next_fate, spend_fate, meet, remote}

module _ {A B : Type 0} where
  abbrev pub Ends : (B → World A → Type 0) → (World A → Type 0) → Result B × World A → Type 0
  Ends Q E (ok b, w) = Q b w
  Ends Q E (err c, w) = E w

pub record Triple {A B : Type 0} (P : World A → Type 0) (m : Action A B) (Q : B → World A → Type 0)
    (E : World A → Type 0) : Type 0 where
  pub run : (w : World A) → P w → Ends Q E (m w)

module _ {A B : Type 0} {P E : World A → Type 0} where
  pub Triple-pure : (b : B) → Triple P (pure b) (λ _ w. P w) E
  Triple-pure b = record { run = λ w p. p }

  pub Triple-fail :
      (c : Code)
      → ((w : World A) → P w → E w)
      → {Q : B → World A → Type 0} → Triple P (fail {B = B} c) Q E
  Triple-fail c h = record { run = h }

bind-Ends :
    {A B D : Type 0} {E : World A → Type 0} {Q : B → World A → Type 0} {R : D → World A → Type 0}
    (r : Result B × World A) (f : B → Action A D)
    → Ends Q E r
    → ((b : B) → Triple (Q b) (f b) R E)
    → Ends R E (elim r.0 [ ok b ↦ f b r.1 | err c ↦ (err c, r.1) ])
bind-Ends (ok b, w) f h k = (k b).run w h
bind-Ends (err c, w) f h k = h

module _ {A B D : Type 0} {P E : World A → Type 0} {Q : B → World A → Type 0}
    {R : D → World A → Type 0} where
  pub Triple-bind :
      {m : Action A B} {f : B → Action A D}
      → Triple P m Q E
      → ((b : B) → Triple (Q b) (f b) R E)
      → Triple P (m >>= f) R E
  Triple-bind {m} {f} h k = record { run = λ w p. bind-Ends (m w) f (h.run w p) k }

failing-Ends :
    {A B : Type 0} (E : World A → Type 0) (Q : B → World A → Type 0) (c : Code)
    (r : Result B × World A)
    → Ends Q E r
    → Ends Q E (elim r.0 [ ok b ↦ (ok b, r.1) | err _ ↦ (err c, r.1) ])
failing-Ends E Q c (ok b, w) h = h
failing-Ends E Q c (err d, w) h = h

catch-Ends :
    {A B : Type 0} {E F : World A → Type 0} {Q : B → World A → Type 0} (r : Result B × World A)
    (k : Code → Action A B)
    → Ends Q F r
    → ((c : Code) → Triple F (k c) Q E)
    → Ends Q E (elim r.0 [ ok b ↦ (ok b, r.1) | err c ↦ k c r.1 ])
catch-Ends (ok b, w) k h t = h
catch-Ends (err c, w) k h t = (t c).run w h

ignore-Ends :
    {A B : Type 0} {E F : World A → Type 0} {Q : B → World A → Type 0} (r : Result B × World A)
    → Ends Q F r
    → ((b : B) (w : World A) → Q b w → E w)
    → ((w : World A) → F w → E w)
    → E r.1
ignore-Ends (ok b, w) h k l = k b w h
ignore-Ends (err c, w) h k l = l w h

module _ {A B : Type 0} {P E : World A → Type 0} {Q : B → World A → Type 0} where
  pub Triple-failing : (c : Code) {m : Action A B} → Triple P m Q E → Triple P (failing c m) Q E
  Triple-failing c {m} h = record { run = λ w p. failing-Ends E Q c (m w) (h.run w p) }

module _ {A B : Type 0} {P E F : World A → Type 0} {Q : B → World A → Type 0} where
  -- The handler begins where the error left the world.
  pub Triple-catch :
      {m : Action A B} {k : Code → Action A B}
      → Triple P m Q F
      → ((c : Code) → Triple F (k c) Q E)
      → Triple P (catch m k) Q E
  Triple-catch {m} {k} h t = record { run = λ w p. catch-Ends (m w) k (h.run w p) t }

  pub Triple-weaken :
      {m : Action A B} {Q' : B → World A → Type 0}
      → Triple P m Q' F
      → ((b : B) (w : World A) → Q' b w → Q b w)
      → ((w : World A) → F w → E w)
      → Triple P m Q E
  Triple-weaken {m} {Q'} h k l = record { run = λ w p. weaken-Ends (m w) (h.run w p) }
    where
      weaken-Ends : (r : Result B × World A) → Ends Q' F r → Ends Q E r
      weaken-Ends (ok b, w) q = k b w q
      weaken-Ends (err c, w) q = l w q

-- An action that keeps `P`, however it ends.
abbrev pub Keeping : {A B : Type 0} → (World A → Type 0) → Action A B → Type 0
Keeping P m = Triple P m (λ _ w. P w) P

module _ {A B : Type 0} {P : World A → Type 0} where
  pub Triple-ignore : {m : Action A B} → Keeping P m → Keeping P (ignore m)
  Triple-ignore {m} h = record {
    run = λ w p. ignore-Ends (m w) (h.run w p) (λ b v q. q) (λ v q. q);
  }

module _ {A : Type 0} {P E : World A → Type 0} where
  -- After a test that passes one knows that it passed.
  pub Triple-require :
      (b : Bool) (c : Code)
      → ((w : World A) → P w → E w)
      → Triple P (require b c) (λ _ w. P w × (b ≡ true)) E
  Triple-require true c h = record { run = λ w p. (p, refl) }
  Triple-require false c h = record { run = h }

module _ {A B : Type 0} {P E : World A → Type 0} {Q : B → World A → Type 0}
    (meanwhile : ℕ → World A → World A)
    (arrives : (w : World A) → P w → P (spend_fate (arrive meanwhile w)))
    (lost : (w : World A) → P w → E w) (unheard : (b : B) (w : World A) → Q b w → E w) where
  -- A call may be lost, before or after it was served.
  meet-Ends :
      (f : Fate) (m : Action A B) (w : World A) → P w → Ends Q E (m w) → Ends Q E (meet f m w)
  unfolding meet
  meet-Ends delivered m w p h = h
  meet-Ends lost_request m w p h = lost w p
  meet-Ends lost_reply m w p h = ignore-Ends {F = E} (m w) h unheard (λ v e. e)

  pub Triple-remote : {m : Action A B} → Triple P m Q E → Triple P (remote meanwhile m) Q E
  unfolding remote
  Triple-remote {m} h = record {
    run = λ w p.
        let w' = arrive meanwhile w in
        meet-Ends (next_fate w') m (spend_fate w') (arrives w p)
          (h.run (spend_fate w') (arrives w p));
  }
