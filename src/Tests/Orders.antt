-- ===== src/Tests/Orders.antt =====
-- Orders from checkout to the end of their life.
pub mod Examples
pub mod Sales
pub mod Histories
use pastel_marketplace.Base.{
  ℕ, ◌≡◌, refl, String, Bool, true, false, Option, none, some, List, [], ◌∷◌, or_else, length,
}
use pastel_marketplace.Base.Int.{ℤ, pos, ◌+ℤ◌, ◌-ℤ◌, ◌*ℤ◌}
use pastel_marketplace.Base.Text.{to_upper_case}
use pastel_marketplace.Base.Result.{Result, ok, err}
use pastel_marketplace.Decimal.Fixed.{fixed, parse_fixed}
use pastel_marketplace.Pricing.{compute}
use pastel_marketplace.Process.{Actor, customer, provider, system, operator, instant_purchase}
use pastel_marketplace.Process.Duration.{duration_to_ms}
use pastel_marketplace.Database.{Db, Order}
use pastel_marketplace.Gateway.Fake.{fake_gateway}
use pastel_marketplace.Orders.Monad.{World}
use pastel_marketplace.Orders.Machine.{no_opts, apply, check_transition, perform}
use pastel_marketplace.Orders.Checkout.{CheckoutResult, checkout, confirm}
use pastel_marketplace.Orders.Worker.{sweep}
use pastel_marketplace.Tests.{uuid, opened, two_vases}

abbrev pub ordered : Result CheckoutResult × World ℕ
ordered = checkout fixed fake_gateway uuid 1000 "buyer" two_vases opened

abbrev pub summary : Result CheckoutResult → Option (String × String × ℤ × ℤ)
summary (ok r) =
    some (r.order_id, r.state, r.breakdown.payin_total_amount, r.breakdown.payout_total_amount)
summary (err e) = none

ordered_summary : summary ordered.0 ≡ some ("id-0", "pending-payment", pos 4700, pos 4100)
unfolding checkout apply fake_gateway compute to_upper_case parse_fixed check_transition
    instant_purchase perform duration_to_ms ◌+ℤ◌ ◌*ℤ◌ ◌-ℤ◌
ordered_summary = refl

-- Transitions of the order, one after the other.
abbrev pub play : List (String × Actor) → World ℕ → World ℕ
play [] w = w
play ((name, actor) ∷ rest) w =
    play rest (apply fixed fake_gateway uuid 2000 "id-0" name actor no_opts w).1

abbrev pub paid : World ℕ
paid = (confirm fixed fake_gateway uuid 1500 "buyer" "id-0" ordered.1).1

abbrev pub delivered : World ℕ
delivered =
    play
      (("confirm-order", provider) ∷ ("mark-shipped", provider) ∷ ("mark-delivered", provider) ∷ [])
      paid

abbrev pub state_of : World ℕ → Option (String × Bool)
state_of w = elim (w.db.order "id-0") [ none ↦ none | some o ↦ some (o.state, o.payout_released) ]

delivered_state : state_of delivered ≡ some ("delivered", false)
unfolding checkout apply fake_gateway compute to_upper_case parse_fixed check_transition
    instant_purchase perform duration_to_ms ◌+ℤ◌ ◌*ℤ◌ ◌-ℤ◌ confirm
delivered_state = refl

received_state :
    state_of (play (("mark-received", customer) ∷ []) delivered) ≡ some ("completed", true)
unfolding checkout apply fake_gateway compute to_upper_case parse_fixed check_transition
    instant_purchase perform duration_to_ms ◌+ℤ◌ ◌*ℤ◌ ◌-ℤ◌ confirm
received_state = refl

-- Three days after the payment the order is canceled by its timer, and refunded.
late : state_of (sweep fixed fake_gateway uuid 259201500 true paid) ≡ some ("canceled", false)
unfolding checkout apply fake_gateway compute to_upper_case parse_fixed check_transition
    instant_purchase perform duration_to_ms ◌+ℤ◌ ◌*ℤ◌ ◌-ℤ◌ confirm sweep
late = refl

early : state_of (sweep fixed fake_gateway uuid 259201499 true paid) ≡ some ("purchased", false)
unfolding checkout apply fake_gateway compute to_upper_case parse_fixed check_transition
    instant_purchase perform duration_to_ms ◌+ℤ◌ ◌*ℤ◌ ◌-ℤ◌ confirm sweep
early = refl
