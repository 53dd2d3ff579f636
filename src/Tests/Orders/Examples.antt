-- ===== src/Tests/Orders/Examples.antt =====
-- The theorems on orders at the orders of the tests.
use pastel_marketplace.Base.{ℕ, ◌≡◌, ◌<◌, ◌≤◌, refl, false, none, some, [], ◌∷◌, or_else}
use pastel_marketplace.Base.Int.{pos, ◌+ℤ◌, ◌-ℤ◌, ◌*ℤ◌}
use pastel_marketplace.Base.Text.{to_upper_case}
use pastel_marketplace.Base.Result.{ok, err, conflict}
use pastel_marketplace.Decimal.Fixed.{fixed, parse_fixed}
use pastel_marketplace.Pricing.{compute}
use pastel_marketplace.Process.{
  customer, provider, instant_purchase, instant_purchase_process, TransitionDef, payout, StateTimer,
}
use pastel_marketplace.Process.Duration.{duration_to_ms}
use pastel_marketplace.Process.Timers.{CanFire, timer-CanFire}
use pastel_marketplace.Database.{Order}
use pastel_marketplace.Gateway.Fake.{fake_gateway}
use pastel_marketplace.Orders.Monad.{World}
use pastel_marketplace.Orders.Machine.{no_opts, apply, check_transition, perform}
use pastel_marketplace.Orders.Checkout.{checkout, confirm}
use pastel_marketplace.Orders.Checkout.Consistency.{IsFresh, checkout-IsConsistent}
use pastel_marketplace.Identity.Tokens.{Principal}
use pastel_marketplace.Accounts.{user}
use pastel_marketplace.Orders.Controller.{transition, IsOwnMove, transition-IsOwnMove}
use pastel_marketplace.Orders.Execute.{apply-IsConsistent}
use pastel_marketplace.Orders.Invariant.{IsConsistent}
use pastel_marketplace.Orders.Trail.{IsLogged, apply-IsLogged}
use pastel_marketplace.Orders.Outcome.{IsMoved, rank, apply-IsMoved, apply-rank}
use pastel_marketplace.Orders.Refusals.{apply-refused}
use pastel_marketplace.Tests.{uuid, shop, opened, two_vases}
use pastel_marketplace.Tests.Orders.{ordered, delivered}

shop-IsConsistent : IsConsistent shop
shop-IsConsistent id o e = cc

shop-IsFresh : IsFresh (uuid opened.db.created) opened.db
shop-IsFresh = record { no_payout = refl; no_refund = refl; no_timer = refl }

ordered-IsConsistent : IsConsistent ordered.1.db
ordered-IsConsistent =
    checkout-IsConsistent fixed fake_gateway uuid 1000 "buyer" two_vases opened shop-IsFresh
      shop-IsConsistent

checkout-IsConsistent_example : IsConsistent ordered.1.db
checkout-IsConsistent_example =
    checkout-IsConsistent fixed fake_gateway uuid 1000 "buyer" two_vases opened shop-IsFresh
      shop-IsConsistent

apply-IsConsistent_example :
    IsConsistent
      (apply fixed fake_gateway uuid 1500 "id-0" "confirm-payment" customer no_opts ordered.1).1.db
apply-IsConsistent_example =
    apply-IsConsistent fixed fake_gateway uuid 1500 "id-0" "confirm-payment" customer no_opts
      ordered.1 ordered-IsConsistent

abbrev unknown_order : Order
unknown_order = record {
  id = "";
  process_alias = "";
  process_name = instant_purchase_process;
  state = "";
  last_transition = none;
  last_transitioned_at = none;
  customer_id = "";
  provider_id = "";
  listing_id = none;
  payin_total_amount = pos 0;
  payout_total_amount = pos 0;
  currency = "";
  metadata = none;
  payout_released = false;
  payout_released_at = none;
  created_at = 0;
}

abbrev pub stored : World ℕ → Order
stored w = or_else (w.db.order "id-0") unknown_order

abbrev received : World ℕ
received = (apply fixed fake_gateway uuid 2000 "id-0" "mark-received" customer no_opts delivered).1

receives :
    apply fixed fake_gateway uuid 2000 "id-0" "mark-received" customer no_opts delivered
    ≡ (ok (stored received), received)
unfolding checkout apply fake_gateway compute to_upper_case parse_fixed check_transition
    instant_purchase perform duration_to_ms ◌+ℤ◌ ◌*ℤ◌ ◌-ℤ◌ confirm
receives = refl

delivered_row : delivered.db.order "id-0" ≡ some (stored delivered)
unfolding checkout apply fake_gateway compute to_upper_case parse_fixed check_transition
    instant_purchase perform duration_to_ms ◌+ℤ◌ ◌*ℤ◌ ◌-ℤ◌ confirm
delivered_row = refl

apply-IsMoved_example :
    IsMoved fixed fake_gateway uuid 2000 "id-0" "mark-received" customer delivered
      (stored received)
      received
apply-IsMoved_example =
    apply-IsMoved fixed fake_gateway uuid 2000 "id-0" "mark-received" customer no_opts delivered
      receives

apply-rank_example :
    (rank (stored delivered).state < rank (stored received).state)
    × (rank (stored received).state ≤ 10)
apply-rank_example =
    apply-rank fixed fake_gateway uuid 2000 "id-0" "mark-received" customer no_opts delivered
      delivered_row receives

-- The receipt by the customer, and the completion by the system.
apply-IsLogged_example :
    (order : Order) × (delivered.db.order "id-0" ≡ some order)
    × IsLogged "id-0" "mark-received" customer no_opts order.state
        (stored received).state
        delivered.db
        received.db
apply-IsLogged_example =
    apply-IsLogged fixed fake_gateway uuid 2000 "id-0" "mark-received" customer no_opts delivered
      receives

abbrev buyer : Principal
buyer = record { user_id = some "buyer"; scope = user; user_type = some "customer" }

abbrev requested : World ℕ
requested = (transition fixed fake_gateway uuid 2000 buyer "id-0" "mark-received" delivered).1

requests :
    transition fixed fake_gateway uuid 2000 buyer "id-0" "mark-received" delivered
    ≡ (ok (stored requested), requested)
unfolding checkout apply fake_gateway compute to_upper_case parse_fixed check_transition
    instant_purchase perform duration_to_ms ◌+ℤ◌ ◌*ℤ◌ ◌-ℤ◌ confirm transition
requests = refl

transition-IsOwnMove_example :
    IsOwnMove fixed fake_gateway uuid 2000 buyer "id-0" "mark-received" delivered
      (stored requested)
      requested
transition-IsOwnMove_example =
    transition-IsOwnMove fixed fake_gateway uuid 2000 buyer "id-0" "mark-received" delivered
      requests

delivered_alias : (stored delivered).process_alias ≡ "instant-purchase/release-14"
unfolding checkout apply fake_gateway compute to_upper_case parse_fixed check_transition
    instant_purchase perform duration_to_ms ◌+ℤ◌ ◌*ℤ◌ ◌-ℤ◌ confirm
delivered_alias = refl

apply-refused_example :
    apply fixed fake_gateway uuid 2000 "id-0" "mark-shipped" provider no_opts delivered
    ≡ (err (conflict "Cannot mark-shipped from state delivered"), delivered)
unfolding checkout apply fake_gateway compute to_upper_case parse_fixed check_transition
    instant_purchase perform duration_to_ms ◌+ℤ◌ ◌*ℤ◌ ◌-ℤ◌ confirm
apply-refused_example =
    apply-refused fixed fake_gateway uuid 2000 "id-0" "mark-shipped" provider no_opts delivered
      (stored delivered) delivered_row delivered_alias refl

abbrev release : TransitionDef
release = record {
  name = "mark-received";
  from = "delivered" ∷ [];
  to = "received";
  actor = customer ∷ [];
  privileged = false;
  action = some payout;
}

abbrev sold : Order
sold = record unknown_order {
  id = "id-0";
  state = "delivered";
  provider_id = "seller";
  payout_total_amount = pos 4100;
}

abbrev after_release : World ℕ
after_release =
    (perform fixed fake_gateway uuid 2000 "id-0" sold instant_purchase release "mark-received"
      customer no_opts opened).1

releases :
    perform fixed fake_gateway uuid 2000 "id-0" sold instant_purchase release "mark-received"
      customer no_opts opened
    ≡ (ok (stored after_release), after_release)
unfolding fake_gateway instant_purchase perform
releases = refl

abbrev three_days : StateTimer
three_days = record { after = "P3D"; transition = "auto-cancel" }

timer-CanFire_example : CanFire "purchased" three_days
unfolding instant_purchase
timer-CanFire_example = timer-CanFire "purchased" three_days refl
