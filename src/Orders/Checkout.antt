-- ===== src/Orders/Checkout.antt =====
-- src/modules/orders/services/checkout.service.ts: speculate, checkout and confirm.
pub mod Consistency
pub mod Snapshot
pub mod Quote
use pastel_marketplace.Base.{
  ℕ, ◌+◌, String, Bool, true, false, Option, none, some, List, [], ◌∷◌, not, ◌&&◌, if◌then◌else◌,
  or_else,
}
use pastel_marketplace.Base.Int.{ℤ, pos}
use pastel_marketplace.Base.Text.{◌===◌}
use pastel_marketplace.Base.Number.{JsNumber, is_le_zero, to_number}
use pastel_marketplace.Base.Result.{bad_request, forbidden, not_found}
use pastel_marketplace.Decimal.{DecimalLib}
use pastel_marketplace.Pricing.{PriceInput, PriceBreakdown, Commission, compute}
use pastel_marketplace.Process.{customer, instant_purchase_process}
use pastel_marketplace.Database.{
  Db, Table, Order, PaymentIntent, Listing, ListingState, published, DeliveryMethod, pickup,
  SnapshotItem, PriceSnapshot, put,
}
use pastel_marketplace.Gateway.{PaymentGateway}
use pastel_marketplace.Orders.Monad.{
  World, M, pure, lift, gets, modify, some_or, throw_when, ◌>>=◌, ◌>>◌,
}
use pastel_marketplace.Orders.Machine.{ApplyOpts, order_not_found, apply}

pub record CheckoutInput : Type 0 where
  pub listing_id : String
  pub quantity : JsNumber

pub record CheckoutResult : Type 0 where
  pub order_id : String
  pub state : String
  pub client_secret : Option String
  pub breakdown : PriceBreakdown

pub record Built : Type 0 where
  pub provider_id : String
  pub price_input : PriceInput
  pub snapshot : PriceSnapshot

abbrev is_published : ListingState → Bool
is_published published = true
is_published _ = false

abbrev is_none {ℓ} : {A : Type ℓ} → Option A → Bool
is_none none = true
is_none (some a) = false

-- `findFirst({ where: { id, state: 'published', deletedAt: null } })`
abbrev on_sale : Option Listing → Option Listing
on_sale none = none
on_sale (some l) = if is_published l.state && is_none l.deleted_at then some l else none

-- `listing.priceAmount === null || !listing.priceCurrency`, turned round
abbrev price_of : Option ℤ → Option String → Option (ℤ × String)
price_of (some amount) (some currency) = if currency === "" then none else some (amount, currency)
price_of _ _ = none

abbrev is_pickup_method : DeliveryMethod → Bool
is_pickup_method pickup = true
is_pickup_method _ = false

abbrev pub zero_commission : Commission
zero_commission = record { provider_percentage = "0"; customer_percentage = "0" }

-- The snapshot that the order keeps.
unfoldable pub snapshot_of : String → ℤ → JsNumber → Commission → Bool → ℤ → PriceSnapshot
unfolding to_number
snapshot_of currency amount quantity commission is_pickup fee = record {
  currency = currency;
  items = record { unit_price_amount = to_number amount; quantity = quantity } ∷ [];
  commission = commission;
  pickup = some is_pickup;
  shipping_fee_amount = if is_pickup then none else some (to_number fee);
  shipping_discount_amount = none;
  tax_amount = none;
  tax_include_for = none;
  promo_discount_amount = none;
}

unfoldable pub price_input_of : String → ℤ → JsNumber → Commission → Bool → ℤ → PriceInput
price_input_of currency amount quantity commission is_pickup fee = record {
  currency = currency;
  items = record { unit_price_amount = amount; quantity = quantity } ∷ [];
  commission = commission;
  pickup = some is_pickup;
  shipping_fee_amount = if is_pickup then none else some fee;
  shipping_discount_amount = none;
  tax_amount = none;
  tax_include_for = none;
  promo_discount_amount = none;
}

module _ {W : Type 0} where
  -- `buildPriceInput`
  unfoldable pub build_price_input : CheckoutInput → M W Built
  unfolding snapshot_of price_input_of
  build_price_input input = do
    throw_when (is_le_zero input.quantity) (bad_request "Quantity must be a positive whole number.")
    found ← gets λ db. on_sale (db.listing input.listing_id)
    listing ← some_or found (not_found "This listing is no longer available for purchase.")
    price ←
        some_or (price_of listing.price_amount listing.price_currency)
          (bad_request "Listing has no price")
    commission ← gets λ db. or_else db.commission_config zero_commission
    let fee = or_else listing.ship_one_item_amount (pos 0)
    let by_pickup = is_pickup_method listing.delivery_method
    pure (record {
      provider_id = listing.author_id;
      price_input = price_input_of price.1 price.0 input.quantity commission by_pickup fee;
      snapshot = snapshot_of price.1 price.0 input.quantity commission by_pickup fee;
    })

-- The row of `order.create`.
unfoldable pub new_order : String → ℕ → String → String → CheckoutInput → Built → Order
new_order id now customer_id provider_id input built = record {
  id = id;
  process_alias = "instant-purchase/release-14";
  process_name = instant_purchase_process;
  state = "initial";
  last_transition = none;
  last_transitioned_at = none;
  customer_id = customer_id;
  provider_id = provider_id;
  listing_id = some input.listing_id;
  payin_total_amount = pos 0;
  payout_total_amount = pos 0;
  currency = built.price_input.currency;
  metadata = some built.snapshot;
  payout_released = false;
  payout_released_at = none;
  created_at = now;
}

abbrev pub by_user : String → ApplyOpts
by_user user = record { actor_user_id = some user; metadata = none }

module _ {W : Type 0} (dec : DecimalLib) where
  unfoldable pub speculate : CheckoutInput → M W PriceBreakdown
  unfolding build_price_input
  speculate input = do built ← build_price_input input; lift (compute dec built.price_input)

module _ {W : Type 0} (dec : DecimalLib) (gateway : PaymentGateway W) (uuid : ℕ → String)
    (now : ℕ) where
  -- The statements of `checkout` from the creation of the order on.
  unfoldable pub place_order :
      String → CheckoutInput → Built → PriceBreakdown → String → M W CheckoutResult
  unfolding new_order
  place_order customer_id input built breakdown id = do
    modify λ db. record db {
      created = db.created + 1;
      order = put db.order id (new_order id now customer_id built.provider_id input built);
    }
    apply dec gateway uuid now id "request-payment" customer (by_user customer_id)
    pi ← gets λ db. db.payment_intent id
    found ← gets λ db. db.order id
    fresh ← some_or found (not_found "No Order found")
    pure (record {
      order_id = id;
      state = fresh.state;
      client_secret = elim pi [ none ↦ none | some p ↦ p.client_secret ];
      breakdown = breakdown;
    })

  unfoldable pub checkout : String → CheckoutInput → M W CheckoutResult
  unfolding build_price_input place_order
  checkout customer_id input = do
    built ← build_price_input input
    throw_when (built.provider_id === customer_id) (bad_request "You cannot buy your own listing.")
    breakdown ← lift (compute dec built.price_input)
    id ← gets λ db. uuid db.created
    place_order customer_id input built breakdown id

  -- The result is the order's id and state.
  unfoldable pub confirm : String → String → M W (String × String)
  confirm customer_id order_id = do
    found ← gets λ db. db.order order_id
    order ← some_or found order_not_found
    throw_when (not (order.customer_id === customer_id))
        (forbidden "This order does not belong to you.")
    updated ← apply dec gateway uuid now order_id "confirm-payment" customer (by_user customer_id)
    pure (order_id, updated.state)
