-- ===== src/Tests/Pricing.antt =====
-- The price of two vases.
use pastel_marketplace.Base.{◌≡◌, refl, none, some, [], ◌∷◌}
use pastel_marketplace.Base.Int.{ℤ, pos, ◌+ℤ◌, ◌-ℤ◌, ◌*ℤ◌}
use pastel_marketplace.Base.Number.{whole}
use pastel_marketplace.Base.Text.{to_upper_case}
use pastel_marketplace.Base.Result.{ok}
use pastel_marketplace.Decimal.Fixed.{fixed, parse_fixed}
use pastel_marketplace.Pricing.{PriceInput, provider, customer, compute, totals}
use pastel_marketplace.Pricing.Totals.{totals-ok, side_sum}
use pastel_marketplace.Pricing.Breakdown.{
  IsPriceable, breakdown_of, all_lines, payin_of, payout_of, compute-ok, compute-inv,
}

abbrev vases : PriceInput
vases = record {
  currency = "usd";
  items = record { unit_price_amount = pos 2000; quantity = whole (pos 2) } ∷ [];
  commission = record { provider_percentage = "10"; customer_percentage = "5" };
  pickup = none;
  shipping_fee_amount = some (pos 500);
  shipping_discount_amount = some (pos 100);
  tax_amount = some (pos 300);
  tax_include_for = some provider;
  promo_discount_amount = some (pos 50);
}

abbrev ten : ℤ
ten = pos 100000

abbrev five : ℤ
five = pos 50000

vases_amounts : (payin_of fixed vases five ≡ pos 4550) × (payout_of fixed vases ten ≡ pos 3700)
unfolding compute parse_fixed to_upper_case ◌+ℤ◌ ◌*ℤ◌ ◌-ℤ◌
vases_amounts = (refl, refl)

vases-IsPriceable : IsPriceable fixed vases ten five
unfolding compute parse_fixed to_upper_case ◌+ℤ◌ ◌*ℤ◌ ◌-ℤ◌
vases-IsPriceable = record {
  some_items = refl;
  sellable = (refl, tt);
  provider_read = refl;
  customer_read = refl;
  few_lines = refl;
}

compute-ok_example : compute fixed vases ≡ ok (breakdown_of fixed vases ten five)
compute-ok_example = compute-ok fixed vases ten five vases-IsPriceable

vases_priced : compute fixed vases ≡ ok (breakdown_of fixed vases ten five)
vases_priced = compute-ok fixed vases ten five vases-IsPriceable

compute-inv_example :
    (p c : ℤ) × IsPriceable fixed vases p c
    × (breakdown_of fixed vases ten five ≡ breakdown_of fixed vases p c)
compute-inv_example = compute-inv fixed vases vases_priced

totals-ok_example :
    totals (all_lines fixed vases ten five) "usd"
    ≡ ok (record {
      line_items = all_lines fixed vases ten five;
      payin_total_amount = side_sum customer (all_lines fixed vases ten five);
      payout_total_amount = side_sum provider (all_lines fixed vases ten five);
      margin_amount =
          side_sum customer (all_lines fixed vases ten five)
          -ℤ side_sum provider (all_lines fixed vases ten five);
      currency = "usd";
    })
totals-ok_example = totals-ok (all_lines fixed vases ten five) "usd"
