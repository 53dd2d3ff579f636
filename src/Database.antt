-- ===== src/Database.antt =====
-- The tables of prisma/schema.prisma that the order flow reads and writes. A table with a unique
-- key is a function from keys to rows, any other a list in the order of insertion. Times are
-- milliseconds; a `Json` column holds the typed value that the source stores there.
use pastel_marketplace.Base.{ℕ, String, Bool, Option, some, List, if◌then◌else◌, ◌≡◌, ◌≢◌, arith}
use pastel_marketplace.Base.Int.{ℤ}
use pastel_marketplace.Base.Text.{◌===◌, ===_iff}
use pastel_marketplace.Base.Number.{JsNumber}
use pastel_marketplace.Pricing.{LineItemCode, IncludeFor, Commission}
use pastel_marketplace.Process.{Actor, OrderProcess}

abbrev pub Table : Type 0 → Type 0
Table A = String → Option A

-- The table after a row is written under its key.
abbrev pub put : {A : Type 0} → Table A → String → A → Table A
put m k v j = if k === j then some v else m j

pub put_self : {A : Type 0} (m : Table A) (k : String) (v : A) → put m k v k ≡ some v
put_self m k v = ground (arith, ===_iff k k)

pub put_ne : {A : Type 0} (m : Table A) (k j : String) (v : A) → k ≢ j → put m k v j ≡ m j
put_ne m k j v h = ground (arith, ===_iff k j)

pub record SnapshotItem : Type 0 where
  pub unit_price_amount : JsNumber
  pub quantity : JsNumber

-- `Order.metadata.priceInput`
pub record PriceSnapshot : Type 0 where
  pub currency : String
  pub items : List SnapshotItem
  pub commission : Commission
  pub pickup : Option Bool
  pub shipping_fee_amount : Option JsNumber
  pub shipping_discount_amount : Option JsNumber
  pub tax_amount : Option JsNumber
  pub tax_include_for : Option IncludeFor
  pub promo_discount_amount : Option JsNumber

-- `metadata` is the `priceInput` of the column, if there is one.
pub record Order : Type 0 where
  pub id : String
  pub process_alias : String
  pub process_name : OrderProcess
  pub state : String
  pub last_transition : Option String
  pub last_transitioned_at : Option ℕ
  pub customer_id : String
  pub provider_id : String
  pub listing_id : Option String
  pub payin_total_amount : ℤ
  pub payout_total_amount : ℤ
  pub currency : String
  pub metadata : Option PriceSnapshot
  pub payout_released : Bool
  pub payout_released_at : Option ℕ
  pub created_at : ℕ

pub record LineItem : Type 0 where
  pub order_id : String
  pub code : LineItemCode
  pub unit_price_amount : ℤ
  pub currency : String
  pub quantity : JsNumber
  pub percentage : Option String
  pub line_total_amount : ℤ
  pub include_for : List IncludeFor
  pub reversal : Bool

pub record OrderTransition : Type 0 where
  pub order_id : String
  pub transition : String
  pub from_state : Option String
  pub to_state : String
  pub actor : Actor
  pub actor_user_id : Option String
  pub metadata : String

pub data TimerStatus : Type 0 where
  pending fired skipped canceled : TimerStatus

pub record ScheduledTransition : Type 0 where
  pub id : String
  pub order_id : String
  pub transition : String
  pub guard_state : String
  pub run_at : ℕ
  pub status : TimerStatus
  pub attempts : ℕ

pub record PaymentIntent : Type 0 where
  pub order_id : String
  pub stripe_pi_id : String
  pub client_secret : Option String
  pub amount : ℤ
  pub currency : String
  pub application_fee_amount : Option ℤ
  pub status : String
  pub captured_at : Option ℕ

pub record Payout : Type 0 where
  pub order_id : String
  pub stripe_transfer_id : Option String
  pub destination_account_id : String
  pub amount : ℤ
  pub currency : String
  pub status : String
  pub released_at : Option ℕ

pub data RefundMode : Type 0 where
  full partial : RefundMode

pub data RefundResolution : Type 0 where
  refund release replacement : RefundResolution

pub record Refund : Type 0 where
  pub order_id : String
  pub stripe_refund_id : Option String
  pub mode : RefundMode
  pub resolution : RefundResolution
  pub amount : ℤ
  pub currency : String
  pub actor : Option String

pub data ListingState : Type 0 where
  draft pending_approval published closed : ListingState

pub data DeliveryMethod : Type 0 where
  shipping pickup both : DeliveryMethod

-- The columns of `Listing` that checkout reads.
pub record Listing : Type 0 where
  pub id : String
  pub author_id : String
  pub state : ListingState
  pub deleted_at : Option ℕ
  pub price_amount : Option ℤ
  pub price_currency : Option String
  pub ship_one_item_amount : Option ℤ
  pub delivery_method : DeliveryMethod

-- The payloads of the outbox rows that the order flow writes.
pub data OutboxPayload : Type 0 where
  transitioned : (order_id transition from_state to_state : String) → OutboxPayload
  released : (order_id : String) → OutboxPayload

pub record OutboxRow : Type 0 where
  pub topic : String
  pub payload : OutboxPayload

-- `created` counts the generated ids; `commission_config` is the row 1, its percentages as texts;
-- `stripe_account` and `stripe_customer` are keyed by the user
-- and hold the Stripe ids.
pub record Db : Type 0 where
  pub created : ℕ
  pub order : Table Order
  pub payment_intent : Table PaymentIntent
  pub payout : Table Payout
  pub stripe_account : Table String
  pub stripe_customer : Table String
  pub listing : Table Listing
  pub commission_config : Option Commission
  pub line_item : List LineItem
  pub order_transition : List OrderTransition
  pub scheduled_transition : List ScheduledTransition
  pub refund : List Refund
  pub outbox : List OutboxRow
