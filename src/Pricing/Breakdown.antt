-- ===== src/Pricing/Breakdown.antt =====
-- The breakdown that the pricing engine returns, and exactly when it returns one.
use pastel_marketplace.Base.{
  ◌≡◌, sym, true, false, some, List, [], ◌++◌, map, ◌∙◌, All, ltb, length,
}
use pastel_marketplace.Base.Int.{ℤ, pos, ◌+ℤ◌, ◌-ℤ◌, int_laws, zero_+ℤ}
use pastel_marketplace.Base.Text.{to_upper_case}
use pastel_marketplace.Base.Result.{
  ok, >>=-eq-ok, throw_if, or_throw, ◌>>◌, throw_if-ok, throw_if-then-ok, or_throw-ok,
}
use pastel_marketplace.Decimal.{DecimalLib}
use pastel_marketplace.Money.{Money}
use pastel_marketplace.Pricing.{
  PriceInput, PriceBreakdown, ComputedLineItem, customer, provider, is_empty, shipping_lines,
  discount_lines, provider_lines, customer_lines, tax_lines, promo_lines, price_items, totals,
  max_line_items, too_many, compute,
}
use pastel_marketplace.Pricing.Totals.{
  side_sum, side_sum-append, totals-ok, is_sellable, subtotal, item_line, price_items-ok,
  price_items-sellable,
}
use pastel_marketplace.Pricing.Parts.{
  charged, shipping_charge, customer_tax, provider_tax, items_sum_customer, items_sum_provider,
  shipping_sums, discount_sums, tax_sums, promo_sums, commission, provider_sums, customer_sums,
}

-- The item subtotal as an amount in the input's currency: the base of both commissions.
abbrev pub base : PriceInput → Money
base input = record { amount = subtotal input.items; currency = to_upper_case input.currency }

module _ (dec : DecimalLib) where
  open dec use {Decimal, parse}

  abbrev pub all_lines : PriceInput → Decimal → Decimal → List ComputedLineItem
  all_lines input p c =
      map item_line input.items
      ++ (shipping_lines input
          ++ (discount_lines input
              ++ (provider_lines dec p (base input)
                  ++ (customer_lines dec c (base input)
                      ++ (tax_lines input ++ promo_lines input)))))

  -- What an input needs so that it can be priced.
  pub record IsPriceable (input : PriceInput) (p c : Decimal) : Type 0 where
    pub some_items : is_empty input.items ≡ false
    pub sellable : All (λ it. is_sellable it.quantity ≡ true) input.items
    pub provider_read : parse input.commission.provider_percentage ≡ some p
    pub customer_read : parse input.commission.customer_percentage ≡ some c
    pub few_lines : ltb max_line_items (length (all_lines input p c)) ≡ false

  abbrev pub payin_of : PriceInput → Decimal → ℤ
  payin_of input c =
      subtotal input.items
      +ℤ shipping_charge input
      -ℤ charged input.shipping_discount_amount
      +ℤ commission dec c (base input)
      +ℤ customer_tax input
      -ℤ charged input.promo_discount_amount

  abbrev pub payout_of : PriceInput → Decimal → ℤ
  payout_of input p =
      subtotal input.items
      +ℤ shipping_charge input
      -ℤ charged input.shipping_discount_amount
      -ℤ commission dec p (base input)
      -ℤ provider_tax input

  abbrev pub breakdown_of : PriceInput → Decimal → Decimal → PriceBreakdown
  breakdown_of input p c = record {
    line_items = all_lines input p c;
    payin_total_amount = payin_of input c;
    payout_total_amount = payout_of input p;
    margin_amount = payin_of input c -ℤ payout_of input p;
    currency = input.currency;
  }

  module _ (input : PriceInput) (p c : Decimal) where
    payin_lem : side_sum customer (all_lines input p c) ≡ payin_of input c
    payin_lem =
        simp
          (
            side_sum-append,
            items_sum_customer,
            (shipping_sums input).0,
            (discount_sums input).0,
            (provider_sums dec p (base input)).0,
            (customer_sums dec c (base input)).0,
            (tax_sums input).0,
            (promo_sums input).0,
          )
          (omega int_laws)

    payout_lem : side_sum provider (all_lines input p c) ≡ payout_of input p
    payout_lem =
        simp
          (
            side_sum-append,
            items_sum_provider,
            (shipping_sums input).1,
            (discount_sums input).1,
            (provider_sums dec p (base input)).1,
            (customer_sums dec c (base input)).1,
            (tax_sums input).1,
            (promo_sums input).1,
          )
          (omega int_laws)

    totals_lem : totals (all_lines input p c) input.currency ≡ ok (breakdown_of input p c)
    totals_lem = rw (totals-ok (all_lines input p c) input.currency, payin_lem, payout_lem)

    compute_steps :
        is_empty input.items ≡ false
        → All (λ it. is_sellable it.quantity ≡ true) input.items
        → parse input.commission.provider_percentage ≡ some p
        → parse input.commission.customer_percentage ≡ some c
        → compute dec input ≡ (
            throw_if
              (ltb max_line_items (length (all_lines input p c)))
              (too_many (length (all_lines input p c)))
            >> ok (breakdown_of input p c))
    unfolding compute
    compute_steps some_items sellable provider_read customer_read = rw (
      some_items,
      price_items-ok input.currency input.items (pos 0) [] sellable,
      zero_+ℤ (subtotal input.items),
      provider_read,
      customer_read,
      ← totals_lem,
    )

    -- An input that can be priced is priced: the lines stand in the order of the steps, the payin
    -- is the item subtotal plus shipping, less the shipping discount, plus the customer
    -- commission and the customer's tax, less the promotion; the payout is the subtotal plus
    -- shipping, less the discount, the provider commission and the withheld tax; the margin is
    -- their difference.
    pub compute-ok : IsPriceable input p c → compute dec input ≡ ok (breakdown_of input p c)
    compute-ok h =
        rw (compute_steps h.some_items h.sellable h.provider_read h.customer_read, h.few_lines)

  -- The engine returns a breakdown only for an input that can be priced, and that breakdown.
  pub compute-inv :
      (input : PriceInput) {b : PriceBreakdown}
      → compute dec input ≡ ok b
      → (p c : Decimal) × IsPriceable input p c × (b ≡ breakdown_of input p c)
  unfolding compute
  compute-inv input h =
      let (_, filled, h1) = >>=-eq-ok (throw_if (is_empty input.items) _) _ h in
      let (r, priced, h2) = >>=-eq-ok (price_items input.currency input.items _ []) _ h1 in
      let (p, read_p, h3) =
        >>=-eq-ok (or_throw (parse input.commission.provider_percentage) _) _ h2 in
      let (c, read_c, _) =
        >>=-eq-ok (or_throw (parse input.commission.customer_percentage) _) _ h3 in
      let some_items = throw_if-ok _ _ filled in
      let sellable = price_items-sellable input.currency input.items _ [] priced in
      let provider_read = or_throw-ok _ _ read_p in
      let customer_read = or_throw-ok _ _ read_c in
      let (few, same) =
        throw_if-then-ok _ _
          (sym (compute_steps input p c some_items sellable provider_read customer_read) ∙ h) in
      (
        p,
        c,
        record {
          some_items = some_items;
          sellable = sellable;
          provider_read = provider_read;
          customer_read = customer_read;
          few_lines = few;
        },
        same,
      )
