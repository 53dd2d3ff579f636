-- ===== src/Orders/History.antt =====
-- Histories of the order flow: checkouts and transitions one after the other.
use pastel_marketplace.Base.{ℕ, ◌≡◌, sym, ◌∙◌, String, true, false, some, [], Bool-cases, inl, inr}
use mathlib.Core.Path.{subst}
use pastel_marketplace.Base.Text.{===_iff}
use pastel_marketplace.Decimal.{DecimalLib}
use pastel_marketplace.Process.{Actor}
use pastel_marketplace.Database.{Order}
use pastel_marketplace.Gateway.{PaymentGateway}
use pastel_marketplace.Orders.Monad.{World}
use pastel_marketplace.Orders.Machine.{ApplyOpts, apply}
use pastel_marketplace.Orders.Invariant.{
  IsConsistent, is_some, refunds_of, is_released, is_canceled,
}
use pastel_marketplace.Orders.Execute.{apply-IsConsistent}
use pastel_marketplace.Orders.Checkout.{CheckoutInput, checkout}
use pastel_marketplace.Orders.Checkout.Consistency.{IsFresh, checkout-IsConsistent}

module _ {W : Type 0} (dec : DecimalLib) (gateway : PaymentGateway W) (uuid : ℕ → String) where
  -- The worlds that checkouts and transitions lead to, successful or not, at any times. The id of
  -- each new order is fresh.
  pub data Reachable (start : World W) : World W → Type 0 where
    here : Reachable start start
    after_apply :
        {w : World W} (now : ℕ) (id name : String) (actor : Actor) (opts : ApplyOpts)
        → Reachable start w
        → Reachable start (apply dec gateway uuid now id name actor opts w).1
    after_checkout :
        {w : World W} (now : ℕ) (customer_id : String) (input : CheckoutInput)
        → IsFresh (uuid w.db.created) w.db
        → Reachable start w
        → Reachable start (checkout dec gateway uuid now customer_id input w).1

  reachable-IsConsistent :
      {start w : World W} → Reachable start w → IsConsistent start.db → IsConsistent w.db
  reachable-IsConsistent here all = all
  reachable-IsConsistent (after_apply {w} now id name actor opts r) all =
      apply-IsConsistent dec gateway uuid now id name actor opts w (reachable-IsConsistent r all)
  reachable-IsConsistent (after_checkout {w} now customer_id input fresh r) all =
      checkout-IsConsistent dec gateway uuid now customer_id input w fresh
        (reachable-IsConsistent r all)

released-not_canceled : (s : String) → is_released s ≡ true → is_canceled s ≡ false
released-not_canceled s h = elim (Bool-cases (is_canceled s)) [
  | inl canceled ↦
      let same = (===_iff s "canceled").0 canceled in cc (subst (λ x. is_released x ≡ true) same h)
  | inr not_canceled ↦ not_canceled
]

module _ {W : Type 0} (dec : DecimalLib) (gateway : PaymentGateway W) (uuid : ℕ → String) where
  -- From a consistent database, no sequence of checkouts (with fresh ids) and transitions,
  -- successful or failed, leads to an order that has a payout and a refund.
  pub paid_out-unrefunded :
      {start w : World W} (id : String) (o : Order)
      → IsConsistent start.db
      → Reachable dec gateway uuid start w
      → w.db.order id ≡ some o
      → is_some (w.db.payout id) ≡ true
      → refunds_of id w.db.refund ≡ []
  paid_out-unrefunded {w = w} id o all r stored paid_out =
      let sound = reachable-IsConsistent dec gateway uuid r all id o stored in
      sound.unrefunded
        (released-not_canceled o.state (sym sound.released ∙ sym sound.paid ∙ paid_out))
