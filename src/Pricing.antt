-- ===== src/Pricing.antt =====
-- src/modules/pricing: the pricing engine, from a server-built input to line items and totals.
pub mod Totals
pub mod Parts
pub mod Breakdown
use pastel_marketplace.Base.{
  ℕ, String, Bool, true, false, Option, none, some, List, [], ◌∷◌, ◌++◌, if◌then◌else◌, length, ltb,
  any, filter,
}
use pastel_marketplace.Base.Int.{ℤ, pos, ltb_ℤ}
use pastel_marketplace.Base.Text.{◌⊕◌, show}
use pastel_marketplace.Base.Number.{JsNumber, whole, is_le_zero}
use pastel_marketplace.Base.Result.{
  Result, Exception, ok, err, bad_request, error, ◌>>=◌, ◌>>◌, throw_if, or_throw,
}
use pastel_marketplace.Decimal.{DecimalLib}
use pastel_marketplace.Money.{
  Money, from_minor, zero_money, add, subtract, times, negate, percentage,
}

pub data LineItemCode : Type 0 where
  item shipping_fee pickup_fee shipping_discount sales_tax : LineItemCode
  app_promo_discount provider_commission customer_commission : LineItemCode

pub data IncludeFor : Type 0 where
  customer provider : IncludeFor

pub record PriceLineInput : Type 0 where
  pub unit_price_amount : ℤ
  pub quantity : JsNumber

-- The percentages are the texts that `new Decimal` reads.
pub record Commission : Type 0 where
  pub provider_percentage : String
  pub customer_percentage : String

pub record PriceInput : Type 0 where
  pub currency : String
  pub items : List PriceLineInput
  pub commission : Commission
  pub pickup : Option Bool
  pub shipping_fee_amount : Option ℤ
  pub shipping_discount_amount : Option ℤ
  pub tax_amount : Option ℤ
  pub tax_include_for : Option IncludeFor
  pub promo_discount_amount : Option ℤ

-- `percentage` is kept as the text of the decimal.
pub record ComputedLineItem : Type 0 where
  pub code : LineItemCode
  pub unit_price_amount : ℤ
  pub quantity : JsNumber
  pub line_total_amount : ℤ
  pub include_for : List IncludeFor
  pub percentage : Option String

pub record PriceBreakdown : Type 0 where
  pub line_items : List ComputedLineItem
  pub payin_total_amount : ℤ
  pub payout_total_amount : ℤ
  pub margin_amount : ℤ
  pub currency : String

abbrev pub max_line_items : ℕ
max_line_items = 50

abbrev pub both : List IncludeFor
both = customer ∷ provider ∷ []

abbrev pub customer_only : List IncludeFor
customer_only = customer ∷ []

abbrev pub provider_only : List IncludeFor
provider_only = provider ∷ []

abbrev pub is_for : IncludeFor → IncludeFor → Bool
is_for customer customer = true
is_for provider provider = true
is_for _ _ = false

-- `l.includeFor.includes(side)`
abbrev pub includes : IncludeFor → ComputedLineItem → Bool
includes side l = any (is_for side) l.include_for

-- `amount && amount > 0n`
abbrev pub is_positive : Option ℤ → Bool
is_positive none = false
is_positive (some a) = ltb_ℤ (pos 0) a

abbrev pub amount_or_zero : Option ℤ → ℤ
amount_or_zero none = pos 0
amount_or_zero (some a) = a

-- The private method `line`.
unfoldable pub line :
    LineItemCode → Money → JsNumber → Money → List IncludeFor → Option String → ComputedLineItem
line code unit quantity line_total include_for percentage = record {
  code = code;
  unit_price_amount = unit.amount;
  quantity = quantity;
  line_total_amount = line_total.amount;
  include_for = include_for;
  percentage = percentage;
}

-- One round of the loop over the items.
unfoldable pub price_item : String → PriceLineInput → Money → Result (Money × ComputedLineItem)
unfolding line from_minor times add
price_item currency it subtotal = do
  throw_if (is_le_zero it.quantity) (bad_request "Quantity must be positive")
  let unit = from_minor it.unit_price_amount currency
  line_total ← times unit it.quantity
  next ← add subtotal line_total
  ok (next, line item unit it.quantity line_total both none)

unfoldable pub price_items :
    String
    → List PriceLineInput
    → Money
    → List ComputedLineItem
    → Result (Money × List ComputedLineItem)
unfolding price_item
price_items currency [] subtotal lines = ok (subtotal, lines)
price_items currency (it ∷ its) subtotal lines =
    price_item currency it subtotal >>= λ r. price_items currency its r.0 (lines ++ r.1 ∷ [])

abbrev pub is_pickup : Option Bool → Bool
is_pickup none = false
is_pickup (some b) = b

-- Step 2: shipping or pickup.
unfoldable pub shipping_lines : PriceInput → List ComputedLineItem
unfolding line from_minor zero_money
shipping_lines input =
    let zero = zero_money input.currency in
    let fee = from_minor (amount_or_zero input.shipping_fee_amount) input.currency in
    if is_pickup input.pickup
    then line pickup_fee zero (whole (pos 1)) zero both none ∷ []
    else (if is_positive input.shipping_fee_amount
        then line shipping_fee fee (whole (pos 1)) fee both none ∷ []
        else [])

unfoldable pub discount_lines : PriceInput → List ComputedLineItem
unfolding line from_minor negate
discount_lines input =
    let disc = negate (from_minor (amount_or_zero input.shipping_discount_amount) input.currency) in
    if is_positive input.shipping_discount_amount
    then line shipping_discount disc (whole (pos 1)) disc both none ∷ []
    else []

abbrev pub charges_provider : Option IncludeFor → Bool
charges_provider none = false
charges_provider (some side) = is_for provider side

-- Step 5: sales tax, on top for the customer or withheld from the provider.
unfoldable pub tax_lines : PriceInput → List ComputedLineItem
unfolding line from_minor negate
tax_lines input =
    let tax = from_minor (amount_or_zero input.tax_amount) input.currency in
    let withheld = negate tax in
    if is_positive input.tax_amount
    then (if charges_provider input.tax_include_for
        then line sales_tax withheld (whole (pos 1)) withheld provider_only none ∷ []
        else line sales_tax tax (whole (pos 1)) tax customer_only none ∷ [])
    else []

-- Step 6: the platform-funded promotion.
unfoldable pub promo_lines : PriceInput → List ComputedLineItem
unfolding line from_minor negate
promo_lines input =
    let promo = negate (from_minor (amount_or_zero input.promo_discount_amount) input.currency) in
    if is_positive input.promo_discount_amount
    then line app_promo_discount promo (whole (pos 1)) promo customer_only none ∷ []
    else []

-- `lines.reduce((acc, l) => acc.add(Money.fromMinor(l.lineTotalAmount, currency)), acc)`
unfoldable pub add_lines : String → Money → List ComputedLineItem → Result Money
unfolding add from_minor
add_lines currency acc [] = ok acc
add_lines currency acc (l ∷ ls) =
    add acc (from_minor l.line_total_amount currency) >>= λ next. add_lines currency next ls

unfoldable pub totals : List ComputedLineItem → String → Result PriceBreakdown
unfolding add_lines subtract zero_money
totals lines currency = do
  payin ← add_lines currency (zero_money currency) (filter (includes customer) lines)
  payout ← add_lines currency (zero_money currency) (filter (includes provider) lines)
  margin ← subtract payin payout
  ok (record {
    line_items = lines;
    payin_total_amount = payin.amount;
    payout_total_amount = payout.amount;
    margin_amount = margin.amount;
    currency = currency;
  })

abbrev pub is_empty {ℓ} : {A : Type ℓ} → List A → Bool
is_empty [] = true
is_empty (x ∷ xs) = false

abbrev pub too_many : ℕ → Exception
too_many n = bad_request ("Too many line items (" ⊕ show n ⊕ " > " ⊕ show max_line_items ⊕ ")")

module _ (dec : DecimalLib) where
  open dec use {Decimal, parse, of_bigint, gt, to_string}

  -- Steps 3 and 4: a commission on the item subtotal, if its percentage is above zero.
  unfoldable pub provider_lines : Decimal → Money → List ComputedLineItem
  unfolding line percentage negate
  provider_lines pct subtotal =
      let amount = negate (percentage dec subtotal pct) in
      if gt pct (of_bigint (pos 0))
      then line provider_commission amount (whole (pos 1)) amount provider_only
          (some (to_string pct))
        ∷ []
      else []

  unfoldable pub customer_lines : Decimal → Money → List ComputedLineItem
  unfolding line percentage
  customer_lines pct subtotal =
      let amount = percentage dec subtotal pct in
      if gt pct (of_bigint (pos 0))
      then line customer_commission amount (whole (pos 1)) amount customer_only
          (some (to_string pct))
        ∷ []
      else []

  unfoldable pub compute : PriceInput → Result PriceBreakdown
  unfolding price_items shipping_lines discount_lines provider_lines customer_lines tax_lines
      promo_lines totals zero_money
  compute input = do
    throw_if (is_empty input.items) (bad_request "No items to price")
    r ← price_items input.currency input.items (zero_money input.currency) []
    provider_pct ← or_throw (parse input.commission.provider_percentage) (error "DecimalError")
    customer_pct ← or_throw (parse input.commission.customer_percentage) (error "DecimalError")
    let lines =
        r.1
        ++ (shipping_lines input
            ++ (discount_lines input
                ++ (provider_lines provider_pct r.0
                    ++ (customer_lines customer_pct r.0
                        ++ (tax_lines input ++ promo_lines input)))))
    throw_if (ltb max_line_items (length lines)) (too_many (length lines))
    totals lines input.currency
