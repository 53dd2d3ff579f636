-- ===== src/Tests/Orders/Histories.antt =====
-- The whole life of an order that is paid out.
use pastel_marketplace.Base.{◌≡◌, refl, true, some, [], ◌∷◌, ℕ}
use pastel_marketplace.Base.Int.{◌+ℤ◌, ◌-ℤ◌, ◌*ℤ◌}
use pastel_marketplace.Base.Text.{to_upper_case, show}
use pastel_marketplace.Decimal.Fixed.{fixed, parse_fixed}
use pastel_marketplace.Pricing.{compute}
use pastel_marketplace.Process.{customer, provider, instant_purchase}
use pastel_marketplace.Process.Duration.{duration_to_ms}
use pastel_marketplace.Gateway.Fake.{fake_gateway}
use pastel_marketplace.Orders.Monad.{World}
use pastel_marketplace.Orders.Machine.{no_opts, apply, check_transition, perform}
use pastel_marketplace.Orders.Checkout.{checkout}
use pastel_marketplace.Orders.Checkout.Consistency.{IsFresh}
use pastel_marketplace.Orders.Invariant.{IsConsistent, is_some, refunds_of}
use pastel_marketplace.Orders.History.{
  Reachable, here, after_apply, after_checkout, paid_out-unrefunded,
}
use pastel_marketplace.Tests.{uuid, opened, two_vases}
use pastel_marketplace.Tests.Orders.{ordered, play}
use pastel_marketplace.Tests.Orders.Examples.{stored}

abbrev sold : World ℕ
sold =
    play
      (("confirm-payment", customer)
        ∷ ("confirm-order", provider)
        ∷ ("mark-shipped", provider)
        ∷ ("mark-delivered", provider)
        ∷ ("mark-received", customer)
        ∷ [])
      ordered.1

opened-IsConsistent : IsConsistent opened.db
opened-IsConsistent id o e = cc

opened-IsFresh : IsFresh (uuid opened.db.created) opened.db
opened-IsFresh = record { no_payout = refl; no_refund = refl; no_timer = refl }

abbrev history : Reachable fixed fake_gateway uuid opened sold
history = after_apply 2000 "id-0" "mark-received" customer no_opts (
    after_apply 2000 "id-0" "mark-delivered" provider no_opts (
      after_apply 2000 "id-0" "mark-shipped" provider no_opts (
        after_apply 2000 "id-0" "confirm-order" provider no_opts (
          after_apply 2000 "id-0" "confirm-payment" customer no_opts
            (after_checkout 1000 "buyer" two_vases opened-IsFresh here)))))

sold_row : sold.db.order "id-0" ≡ some (stored sold)
unfolding checkout apply fake_gateway compute to_upper_case parse_fixed check_transition
    instant_purchase perform duration_to_ms ◌+ℤ◌ ◌*ℤ◌ ◌-ℤ◌
sold_row = refl

sold_paid_out : is_some (sold.db.payout "id-0") ≡ true
unfolding checkout apply fake_gateway compute to_upper_case parse_fixed check_transition
    instant_purchase perform duration_to_ms ◌+ℤ◌ ◌*ℤ◌ ◌-ℤ◌ show
sold_paid_out = refl

paid_out-unrefunded_example : refunds_of "id-0" sold.db.refund ≡ []
paid_out-unrefunded_example =
    paid_out-unrefunded fixed fake_gateway uuid "id-0" (stored sold) opened-IsConsistent history
      sold_row sold_paid_out
