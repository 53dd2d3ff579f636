-- ===== src/Pricing/Parts.antt =====
-- What each step of the pricing engine adds to the buyer's and to the seller's total.
use pastel_marketplace.Base.{◌≡◌, refl, Option, List, [], ◌∷◌, map, arith, if◌then◌else◌}
use pastel_marketplace.Base.Int.{ℤ, pos, ◌-ℤ◌, neg_ℤ, +ℤ_zero}
use pastel_marketplace.Decimal.{DecimalLib}
use pastel_marketplace.Money.{Money, percentage}
use pastel_marketplace.Pricing.{
  PriceInput, PriceLineInput, customer, provider, is_positive, amount_or_zero, is_pickup,
  charges_provider, shipping_lines, discount_lines, tax_lines, promo_lines, provider_lines,
  customer_lines,
}
use pastel_marketplace.Pricing.Totals.{side_sum, subtotal, item_line}

-- An optional amount counts only above zero.
abbrev pub charged : Option ℤ → ℤ
charged o = if is_positive o then amount_or_zero o else pos 0

abbrev pub shipping_charge : PriceInput → ℤ
shipping_charge input = if is_pickup input.pickup then pos 0 else charged input.shipping_fee_amount

abbrev pub customer_tax : PriceInput → ℤ
customer_tax input =
    if charges_provider input.tax_include_for then pos 0 else charged input.tax_amount

abbrev pub provider_tax : PriceInput → ℤ
provider_tax input =
    if charges_provider input.tax_include_for then charged input.tax_amount else pos 0

zero_-ℤ : pos 0 -ℤ pos 0 ≡ pos 0
unfolding ◌-ℤ◌
zero_-ℤ = refl

pub items_sum_customer :
    (its : List PriceLineInput) → side_sum customer (map item_line its) ≡ subtotal its
items_sum_customer [] = refl
items_sum_customer (it ∷ its) = rw (items_sum_customer its)

pub items_sum_provider :
    (its : List PriceLineInput) → side_sum provider (map item_line its) ≡ subtotal its
items_sum_provider [] = refl
items_sum_provider (it ∷ its) = rw (items_sum_provider its)

module _ (input : PriceInput) where
  pub shipping_sums :
      (side_sum customer (shipping_lines input) ≡ shipping_charge input)
      × (side_sum provider (shipping_lines input) ≡ shipping_charge input)
  unfolding shipping_lines
  shipping_sums =
      ground (arith, +ℤ_zero (amount_or_zero input.shipping_fee_amount), +ℤ_zero (pos 0))

  pub discount_sums :
      (side_sum customer (discount_lines input) ≡ neg_ℤ (charged input.shipping_discount_amount))
      × (side_sum provider (discount_lines input) ≡ neg_ℤ (charged input.shipping_discount_amount))
  unfolding discount_lines
  discount_sums =
      ground (arith, +ℤ_zero (neg_ℤ (amount_or_zero input.shipping_discount_amount)), zero_-ℤ)

  pub tax_sums :
      (side_sum customer (tax_lines input) ≡ customer_tax input)
      × (side_sum provider (tax_lines input) ≡ neg_ℤ (provider_tax input))
  unfolding tax_lines
  tax_sums = ground (
    arith,
    +ℤ_zero (neg_ℤ (amount_or_zero input.tax_amount)),
    +ℤ_zero (amount_or_zero input.tax_amount),
    +ℤ_zero (pos 0),
    zero_-ℤ,
  )

  pub promo_sums :
      (side_sum customer (promo_lines input) ≡ neg_ℤ (charged input.promo_discount_amount))
      × (side_sum provider (promo_lines input) ≡ pos 0)
  unfolding promo_lines
  promo_sums = ground (
    arith,
    +ℤ_zero (neg_ℤ (amount_or_zero input.promo_discount_amount)),
    +ℤ_zero (pos 0),
    zero_-ℤ,
  )

module _ (dec : DecimalLib) where
  open dec use {Decimal, of_bigint, gt}

  -- A commission on an amount, zero unless its percentage is above zero.
  abbrev pub commission : Decimal → Money → ℤ
  commission pct m = if gt pct (of_bigint (pos 0)) then (percentage dec m pct).amount else pos 0

  pub provider_sums :
      (pct : Decimal) (m : Money)
      → (side_sum customer (provider_lines dec pct m) ≡ pos 0)
        × (side_sum provider (provider_lines dec pct m) ≡ neg_ℤ (commission pct m))
  unfolding provider_lines
  provider_sums pct m =
      ground (arith, +ℤ_zero (neg_ℤ (percentage dec m pct).amount), +ℤ_zero (pos 0), zero_-ℤ)

  pub customer_sums :
      (pct : Decimal) (m : Money)
      → (side_sum customer (customer_lines dec pct m) ≡ commission pct m)
        × (side_sum provider (customer_lines dec pct m) ≡ pos 0)
  unfolding customer_lines
  customer_sums pct m = ground (arith, +ℤ_zero (percentage dec m pct).amount, +ℤ_zero (pos 0))
