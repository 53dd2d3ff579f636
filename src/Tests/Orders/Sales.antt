-- ===== src/Tests/Orders/Sales.antt =====
-- The theorems on checkout and on timers at the sale of two vases.
use pastel_marketplace.Base.{◌≡◌, ◌≢◌, ◌⊎◌, refl, String, Bool, true, false, none, some, [], ◌∷◌}
use pastel_marketplace.Base.Int.{pos, ◌+ℤ◌, ◌-ℤ◌, ◌*ℤ◌}
use pastel_marketplace.Base.Number.{whole}
use pastel_marketplace.Base.Text.{===_iff, to_upper_case, show}
use pastel_marketplace.Base.Result.{ok}
use pastel_marketplace.Decimal.Fixed.{fixed, parse_fixed}
use pastel_marketplace.Pricing.{PriceInput, Commission, compute}
use pastel_marketplace.Pricing.Breakdown.{breakdown_of}
use pastel_marketplace.Process.{customer, instant_purchase}
use pastel_marketplace.Process.Duration.{duration_to_ms}
use pastel_marketplace.Database.{ScheduledTransition, pending}
use pastel_marketplace.Gateway.Fake.{fake_gateway}
use pastel_marketplace.Orders.Actions.{coerce_price_input}
use pastel_marketplace.Orders.Machine.{no_opts, apply, check_transition, perform}
use pastel_marketplace.Orders.Isolation.{IsUntouched, IsFired, apply-IsUntouched, fire-IsFired}
use pastel_marketplace.Orders.Worker.{fire}
use pastel_marketplace.Orders.Checkout.{CheckoutResult, snapshot_of, price_input_of, checkout}
use pastel_marketplace.Orders.Checkout.Snapshot.{coerce-snapshot}
use pastel_marketplace.Orders.Checkout.Quote.{IsAsQuoted, checkout-IsAsQuoted}
use pastel_marketplace.Tests.{uuid, vase, opened, two_vases}
use pastel_marketplace.Tests.Orders.{ordered, paid}

abbrev ten_and_five : Commission
ten_and_five = record { provider_percentage = "10"; customer_percentage = "5" }

coerce-snapshot_example :
    coerce_price_input (snapshot_of "usd" (pos 2000) (whole (pos 2)) ten_and_five false (pos 500))
    ≡ ok (price_input_of "usd" (pos 2000) (whole (pos 2)) ten_and_five false (pos 500))
coerce-snapshot_example =
    coerce-snapshot "usd" 2000 500 (whole (pos 2)) ten_and_five false refl refl

abbrev two_vases_input : PriceInput
two_vases_input = record {
  currency = "usd";
  items = record { unit_price_amount = pos 2000; quantity = whole (pos 2) } ∷ [];
  commission = ten_and_five;
  pickup = some false;
  shipping_fee_amount = some (pos 500);
  shipping_discount_amount = none;
  tax_amount = none;
  tax_include_for = none;
  promo_discount_amount = none;
}

abbrev receipt : CheckoutResult
receipt = record {
  order_id = "id-0";
  state = "pending-payment";
  client_secret = some "pi_fake_id-0_1_secret";
  breakdown = breakdown_of fixed two_vases_input (pos 100000) (pos 50000);
}

orders : checkout fixed fake_gateway uuid 1000 "buyer" two_vases opened ≡ (ok receipt, ordered.1)
unfolding checkout apply fake_gateway compute to_upper_case parse_fixed check_transition
    instant_purchase perform duration_to_ms ◌+ℤ◌ ◌*ℤ◌ ◌-ℤ◌ show
orders = refl

checkout-IsAsQuoted_example : IsAsQuoted receipt ordered.1.db
checkout-IsAsQuoted_example =
    checkout-IsAsQuoted fixed fake_gateway uuid 1000 "buyer" two_vases vase 2000 500 opened refl
      refl refl refl refl orders

other_id : ◌≢◌ {A = String} "id-0" "id-1"
other_id e = let h : ◌≡◌ {A = Bool} false true = (===_iff "id-0" "id-1").1 e in cc h

apply-IsUntouched_example :
    IsUntouched "id-1" ordered.1.db
      (apply fixed fake_gateway uuid 1500 "id-0" "confirm-payment" customer no_opts ordered.1).1.db
apply-IsUntouched_example =
    apply-IsUntouched fixed fake_gateway uuid 1500 "id-0" "confirm-payment" "id-1" customer no_opts
      ordered.1 other_id

abbrev cancel_timer : ScheduledTransition
cancel_timer = record {
  id = "id-2";
  order_id = "id-0";
  transition = "auto-cancel";
  guard_state = "purchased";
  run_at = 259201500;
  status = pending;
  attempts = 0;
}

fire-IsFired_example :
    ((fire fixed fake_gateway uuid 259201500 cancel_timer paid).db.order ≡ paid.db.order)
    ⊎ IsFired fixed fake_gateway uuid 259201500 cancel_timer paid
        (fire fixed fake_gateway uuid 259201500 cancel_timer paid)
fire-IsFired_example = fire-IsFired fixed fake_gateway uuid 259201500 cancel_timer paid
