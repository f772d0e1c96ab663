-- ===== src/Market/TopUpOnce.antt =====
-- One filling for each payment, where every call is delivered and no other request comes between.
use ticketremaster_b.Base.{ℕ, ◌≡◌, refl, true, false, Bool, some, [], arith, ◌==◌}
use ticketremaster_b.Base.Int.{ℤ, ◌+ℤ◌}
use ticketremaster_b.Web.{Result, ok, err, service_unavailable, forbidden}
use ticketremaster_b.Services.Ledger.{
  Ledger, CreditTransaction, create_credit_transaction, get_by_reference,
}
use ticketremaster_b.World.Model.{World, CreditService, pure, ignore, ◌>>=◌, ◌>>◌}
use ticketremaster_b.World.Calls.{
  arrive, spend_fate, next_fate, meet, remote, at_ledger, call_get_transaction,
  call_create_transaction, credit_get, credit_patch,
}
use ticketremaster_b.World.Hoare.{
  Ends, Triple, Triple-bind, Triple-pure, Triple-failing, Triple-require, Keeping,
}
use ticketremaster_b.World.Calm.{alone, Calm, Calm-Arrives}
use ticketremaster_b.World.Frame.{Keeping-of, Keeping-remote, after}
use ticketremaster_b.Market.TopUp.{
  Payment, Stripe, already_processed, received, shown_balance, topup_entry, has_entry, fill,
  confirm_new, confirm_payment, receive_new, receive,
}

-- The ledger has an entry with this reference.
abbrev pub Entered : ℕ → Ledger → Type 0
Entered k ledger = (t : CreditTransaction) × (get_by_reference k ledger ≡ ok t)

module _ {A : Type 0} (C : CreditService A) (stripe : Stripe) where
  get_Calm : (user : ℕ) → Keeping {A = A} Calm (credit_get alone C user)
  unfolding credit_get arrive
  get_Calm user = Keeping-of (credit_get alone C user) (λ w h. h)

  patch_Calm : (user : ℕ) (v : ℤ) → Keeping {A = A} Calm (credit_patch alone C user v)
  unfolding credit_patch arrive
  patch_Calm user v = Keeping-of (credit_patch alone C user v) (λ w h. h)

  entry_written :
      (p : Payment) (w : World A)
      → Calm w
      → Entered p.payment_intent_id (call_create_transaction alone (topup_entry p) w).1.ledger
  unfolding call_create_transaction remote arrive next_fate spend_fate meet at_ledger
      create_credit_transaction topup_entry get_by_reference
  entry_written p w h = rw h (topup_entry p, ground arith)

  log_Calm : (p : Payment) → Keeping {A = A} Calm (call_create_transaction alone (topup_entry p))
  unfolding call_create_transaction at_ledger
  log_Calm p = Keeping-remote _ Calm-Arrives (λ w h. h)

  -- Every call is delivered, and the payment has its entry.
  abbrev Filled : Payment → ℤ → World A → Type 0
  Filled p b w = Calm w × Entered p.payment_intent_id w.ledger

  entry_last :
      (p : Payment) (b : ℤ)
      → Triple Calm
          (ignore (call_create_transaction alone (topup_entry p)) >> pure b)
          (Filled p)
          Calm
  entry_last p b = record { run = λ w h. (after (log_Calm p) w h, entry_written p w h) }

  fills : (p : Payment) → Triple Calm (fill C stripe alone p) (Filled p) Calm
  unfolding fill
  fills p = Triple-bind (Triple-failing service_unavailable (get_Calm p.user_id)) λ credit.
      Triple-bind
        (Triple-failing service_unavailable
          (patch_Calm p.user_id (shown_balance credit +ℤ p.credits)))
        λ _. entry_last p (shown_balance credit +ℤ p.credits)

  -- Every call is delivered, and the accounts and the ledger are these.
  abbrev Frozen : A → Ledger → World A → Type 0
  Frozen a l w = Calm w × (w.account ≡ a) × (w.ledger ≡ l)

  abbrev Any : {B : Type 0} → A → Ledger → B → World A → Type 0
  Any a l _ w = Frozen a l w

  has_entry-Frozen :
      (k : ℕ) (a : A) (l : Ledger)
      → Entered k l
      → Triple
          (Frozen a l)
          (has_entry C stripe alone k)
          (λ b w. Frozen a l w × (b ≡ true))
          (Frozen a l)
  unfolding has_entry call_get_transaction remote arrive next_fate spend_fate meet
  has_entry-Frozen k a l (t, e) = record { run = λ w h. rw (h.0, h.2, e) ((refl, h.1, refl), refl) }

  receive_seen :
      (p : Payment) (a : A) (l : Ledger) (b : Bool)
      → b ≡ true
      → Triple (Frozen a l) (receive_new C stripe alone p b) (Any a l) (Frozen a l)
  unfolding receive_new
  receive_seen p a l true e = Triple-pure received
  receive_seen p a l false e = absurd (ground arith)

  confirm_seen :
      (p : Payment) (a : A) (l : Ledger) (b : Bool)
      → b ≡ true
      → Triple (Frozen a l) (confirm_new C stripe alone p b) (Any a l) (Frozen a l)
  unfolding confirm_new
  confirm_seen p a l true e = Triple-pure already_processed
  confirm_seen p a l false e = absurd (ground arith)

  receive-Frozen :
      (p : Payment) (a : A) (l : Ledger)
      → Entered p.payment_intent_id l
      → Triple (Frozen a l) (receive C stripe alone (some p)) (Any a l) (Frozen a l)
  unfolding receive
  receive-Frozen p a l e =
      Triple-bind (has_entry-Frozen p.payment_intent_id a l e)
        λ b. record { run = λ w h. (receive_seen p a l b h.1).run w h.0 }

  confirm_read :
      (k : ℕ) (p : Payment) (a : A) (l : Ledger)
      → Entered k l
      → Triple
          (Frozen a l)
          (has_entry C stripe alone k >>= confirm_new C stripe alone p)
          (Any a l)
          (Frozen a l)
  confirm_read k p a l e =
      Triple-bind (has_entry-Frozen k a l e)
        λ b. record { run = λ w h. (confirm_seen p a l b h.1).run w h.0 }

  confirm-Frozen :
      (user k : ℕ) (p : Payment) (a : A) (l : Ledger)
      → Entered k l
      → Triple (Frozen a l) (confirm_payment C stripe alone user k p) (Any a l) (Frozen a l)
  unfolding confirm_payment
  confirm-Frozen user k p a l e =
      Triple-bind (Triple-require (p.user_id == user) forbidden (λ w h. h)) λ _. record {
        run = λ w h. (confirm_read k (record p { payment_intent_id = k }) a l e).run w h.0;
      }

ended_with :
    {A : Type 0} (Q : ℤ → World A → Type 0) (E : World A → Type 0) (b : ℤ) (r : Result ℤ × World A)
    → Ends Q E r
    → r.0 ≡ ok b
    → (c : ℤ) × Q c r.1
ended_with Q E b (ok c, w) h e = (c, h)
ended_with Q E b (err c, w) h e = absurd (ground arith)

frozen_after :
    {A B : Type 0} (a : A) (l : Ledger) (r : Result B × World A)
    → Ends
        (λ _ w. (w.fates ≡ []) × (w.account ≡ a) × (w.ledger ≡ l))
        (λ w. (w.fates ≡ []) × (w.account ≡ a) × (w.ledger ≡ l))
        r
    → (r.1.account ≡ a) × (r.1.ledger ≡ l)
frozen_after a l (ok b, w) h = (h.1, h.2)
frozen_after a l (err c, w) h = (h.1, h.2)

-- A payment fills the account once: where every call is delivered and nothing else happens in
-- between, after a filling that went through, neither an event of the same payment nor a
-- confirmation of it, by whomever, changes an account or the ledger.
pub fill_once :
    {A : Type 0} (C : CreditService A) (stripe : Stripe) (p q : Payment) (user : ℕ) (b : ℤ)
    (w : World A)
    → w.fates ≡ []
    → (fill C stripe alone p w).0 ≡ ok b
    → q.payment_intent_id ≡ p.payment_intent_id
    → (((receive C stripe alone (some q) (fill C stripe alone p w).1).1.account
          ≡ (fill C stripe alone p w).1.account)
        × ((receive C stripe alone (some q) (fill C stripe alone p w).1).1.ledger
            ≡ (fill C stripe alone p w).1.ledger))
      × (((confirm_payment C stripe alone user q.payment_intent_id q
              (fill C stripe alone p w).1).1.account
            ≡ (fill C stripe alone p w).1.account)
          × ((confirm_payment C stripe alone user q.payment_intent_id q
                (fill C stripe alone p w).1).1.ledger
              ≡ (fill C stripe alone p w).1.ledger))
fill_once C stripe p q user b w calm done same_payment =
    let v = (fill C stripe alone p w).1 in
    let (_, filled) =
      ended_with (Filled C stripe p) Calm b (fill C stripe alone p w)
        ((fills C stripe p).run w calm) done in
    let found : Entered q.payment_intent_id v.ledger = rw same_payment filled.1 in
    (
      frozen_after v.account v.ledger (receive C stripe alone (some q) v)
          ((receive-Frozen C stripe q v.account v.ledger found).run v (filled.0, refl, refl)),
      frozen_after v.account v.ledger (confirm_payment C stripe alone user q.payment_intent_id q v)
          ((confirm-Frozen C stripe user q.payment_intent_id q v.account v.ledger found).run v
            (filled.0, refl, refl)),
    )
