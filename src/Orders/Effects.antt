-- ===== src/Orders/Effects.antt =====
-- What the recompute and the money actions of a transition change in the database.
use pastel_marketplace.Base.{
  ℕ, ◌≡◌, refl, sym, ap, String, Bool, true, false, Option, none, some, [], ◌∷◌, ◌++◌, arith, not,
  ◌&&◌, inl, inr, Bool-cases, ◌⊎◌,
}
use pastel_marketplace.Base.Result.{Result, ok, err}
use pastel_marketplace.Decimal.{DecimalLib}
use pastel_marketplace.Process.{
  TransitionDef, TransitionAction, create_payment_intent, confirm_capture, cancel_payment_intent,
  payout, refund_full,
}
use pastel_marketplace.Database.{Db, Order, Payout, Refund, PaymentIntent, put}
use pastel_marketplace.Gateway.{PaymentGateway, TransferParams, RefundParams}
use pastel_marketplace.Orders.Monad.{World}
use pastel_marketplace.Orders.Actions.{
  Totals, run_action, release_payout, pay_out, payout_row, refund_in_full, refund_row,
}
use pastel_marketplace.Orders.Machine.{privileged_totals, is_payout}

-- The tables of the state machine itself are left alone.
pub record KeepsOrders (d d' : Db) : Type 0 where
  pub created : d'.created ≡ d.created
  pub order : d'.order ≡ d.order
  pub order_transition : d'.order_transition ≡ d.order_transition
  pub scheduled_transition : d'.scheduled_transition ≡ d.scheduled_transition
  pub outbox : d'.outbox ≡ d.outbox

abbrev pub is_refund : Option TransitionAction → Bool
is_refund (some refund_full) = true
is_refund _ = false

abbrev pub pays : Order → Option TransitionAction → Bool
pays order action = is_payout action && not order.payout_released

-- What a money action does to the payouts and refunds.
pub record ActionEffect (order : Order) (action : Option TransitionAction) (d d' : Db)
    : Type 0 where
  pub keeps : KeepsOrders d d'
  pub not_paid : pays order action ≡ false → d'.payout ≡ d.payout
  pub paid : pays order action ≡ true → (p : Payout) × (d'.payout ≡ put d.payout order.id p)
  pub not_refunded : is_refund action ≡ false → d'.refund ≡ d.refund
  pub refunded :
      is_refund action ≡ true
      → (d'.refund ≡ d.refund)
        ⊎ ((r : Refund) × (r.order_id ≡ order.id) × (d'.refund ≡ d.refund ++ r ∷ []))

module _ {W : Type 0} (gateway : PaymentGateway W) (now : ℕ) (order : Order) (t : Totals) where
  abbrev transfer_params : String → TransferParams
  transfer_params account = record {
    order_id = order.id;
    amount = t.payout;
    currency = order.currency;
    destination_account_id = account;
  }

  release_payout-kept :
      (w : World W) {u : Unit {0}} {w' : World W}
      → release_payout gateway now order t w ≡ (ok u, w')
      → KeepsOrders w.db w'.db × (w'.db.refund ≡ w.db.refund)
  unfolding release_payout
  release_payout-kept w h = ground arith

  release_payout-paid :
      (w : World W) {u : Unit {0}} {w' : World W}
      → release_payout gateway now order t w ≡ (ok u, w')
      → (p : Payout) × (w'.db.payout ≡ put w.db.payout order.id p)
  unfolding release_payout
  release_payout-paid w {w' = w'} h = found (w.db.stripe_account order.provider_id) refl
    where
      sent :
          (account : String) (r : Result String × W)
          → w.db.stripe_account order.provider_id ≡ some account
          → gateway.create_transfer (transfer_params account) w.gateway ≡ r
          → (p : Payout) × (w'.db.payout ≡ put w.db.payout order.id p)
      sent account (ok transfer, g) e e' = (
        payout_row order t.payout transfer account now (w.db.payout order.id),
        ap (λ (r : Result (Unit {0}) × World W). r.1.db.payout) (sym (rw (e, e') at h)),
      )
      sent account (err x, g) e e' =
          cc (ap (λ (r : Result (Unit {0}) × World W). r.0) (rw (e, e') at h))

      found :
          (o : Option String)
          → w.db.stripe_account order.provider_id ≡ o
          → (p : Payout) × (w'.db.payout ≡ put w.db.payout order.id p)
      found none e = cc (ap (λ (r : Result (Unit {0}) × World W). r.0) (rw e at h))
      found (some account) e =
          sent account (gateway.create_transfer (transfer_params account) w.gateway) e refl

  pay_out-ActionEffect :
      (w : World W) {u : Unit {0}} {w' : World W}
      → pay_out gateway now order t w ≡ (ok u, w')
      → ActionEffect order (some payout) w.db w'.db
  unfolding pay_out
  pay_out-ActionEffect w {w' = w'} h = elim (Bool-cases order.payout_released) [
    | inl before ↦
        let same : w'.db ≡ w.db =
          ap (λ (r : Result (Unit {0}) × World W). r.1.db) (sym (rw before at h)) in
        rw same (record {
          keeps = record {
            created = refl;
            order = refl;
            order_transition = refl;
            scheduled_transition = refl;
            outbox = refl;
          };
          not_paid = λ _. refl;
          paid = λ e. cc;
          not_refunded = λ _. refl;
          refunded = λ _. inl refl;
        })
    | inr first ↦
        let h' = rw first at h in
        let kept = release_payout-kept w h' in
        record {
          keeps = kept.0;
          not_paid = λ e. cc;
          paid = λ _. release_payout-paid w h';
          not_refunded = λ _. kept.1;
          refunded = λ _. inl kept.1;
        }
  ]

  refund_in_full-kept :
      (w : World W) {u : Unit {0}} {w' : World W}
      → refund_in_full gateway now order t w ≡ (ok u, w')
      → KeepsOrders w.db w'.db × (w'.db.payout ≡ w.db.payout)
  unfolding refund_in_full
  refund_in_full-kept w h = ground arith

  abbrev refund_params : PaymentIntent → RefundParams
  refund_params pi = record {
    order_id = order.id;
    stripe_pi_id = pi.stripe_pi_id;
    amount = t.payin;
    currency = order.currency;
  }

  abbrev Refunded : Db → Db → Type 0
  Refunded d d' =
      (d'.refund ≡ d.refund)
      ⊎ ((r : Refund) × (r.order_id ≡ order.id) × (d'.refund ≡ d.refund ++ r ∷ []))

  refund_in_full-Refunded :
      (w : World W) {u : Unit {0}} {w' : World W}
      → refund_in_full gateway now order t w ≡ (ok u, w')
      → Refunded w.db w'.db
  unfolding refund_in_full
  refund_in_full-Refunded w {w' = w'} h = found (w.db.payment_intent order.id) refl
    where
      sent :
          (pi : PaymentIntent) (r : Result String × W)
          → w.db.payment_intent order.id ≡ some pi
          → gateway.refund (refund_params pi) w.gateway ≡ r
          → Refunded w.db w'.db
      sent pi (ok refund_id, g) e e' = inr (
        refund_row order t refund_id,
        refl,
        ap (λ (r : Result (Unit {0}) × World W). r.1.db.refund) (sym (rw (e, e') at h)),
      )
      sent pi (err x, g) e e' = cc (ap (λ (r : Result (Unit {0}) × World W). r.0) (rw (e, e') at h))

      found : (o : Option PaymentIntent) → w.db.payment_intent order.id ≡ o → Refunded w.db w'.db
      found none e = inl (ap (λ (r : Result (Unit {0}) × World W). r.1.db.refund) (sym (rw e at h)))
      found (some pi) e = sent pi (gateway.refund (refund_params pi) w.gateway) e refl

  pub run_action-ActionEffect :
      (action : Option TransitionAction) (w : World W) {u : Unit {0}} {w' : World W}
      → run_action gateway now order t action w ≡ (ok u, w')
      → ActionEffect order action w.db w'.db
  unfolding run_action
  run_action-ActionEffect none w h = ground arith
  run_action-ActionEffect (some create_payment_intent) w h = ground arith
  run_action-ActionEffect (some confirm_capture) w h = ground arith
  run_action-ActionEffect (some cancel_payment_intent) w h = ground arith
  run_action-ActionEffect (some payout) w h = pay_out-ActionEffect w h
  run_action-ActionEffect (some refund_full) w h =
      let kept = refund_in_full-kept w h in
      record {
        keeps = kept.0;
        not_paid = λ _. kept.1;
        paid = λ e. cc;
        not_refunded = λ e. cc;
        refunded = λ _. refund_in_full-Refunded w h;
      }

module _ {W : Type 0} (dec : DecimalLib) where
  -- The recompute replaces line items, and leaves the payouts and refunds alone too.
  pub privileged_totals-kept :
      (order : Order) (t : TransitionDef) (w : World W) {totals : Option Totals} {w' : World W}
      → privileged_totals dec order t w ≡ (ok totals, w')
      → KeepsOrders w.db w'.db × (w'.db.payout ≡ w.db.payout) × (w'.db.refund ≡ w.db.refund)
  unfolding privileged_totals
  privileged_totals-kept order t w h = ground arith
