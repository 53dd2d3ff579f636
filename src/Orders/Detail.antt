-- ===== src/Orders/Detail.antt =====
-- src/modules/orders/mappers/order.mapper.ts and the detail endpoint of orders.controller.ts.
use pastel_marketplace.Base.{ℕ, String, Bool, Option, none, some, List, not, ◌||◌, filter, map}
use pastel_marketplace.Base.Number.{JsNumber, to_number}
use pastel_marketplace.Base.Text.{◌===◌}
use pastel_marketplace.Base.Result.{forbidden}
use pastel_marketplace.Pricing.{LineItemCode, IncludeFor}
use pastel_marketplace.Database.{Order, LineItem}
use pastel_marketplace.Identity.Tokens.{Principal}
use pastel_marketplace.Orders.Monad.{M, gets, pure, some_or, throw_when, ◌>>=◌, ◌>>◌}
use pastel_marketplace.Orders.Machine.{order_not_found}
use pastel_marketplace.Orders.Controller.{is_user, not_party}

pub record LineItemResource : Type 0 where
  pub code : LineItemCode
  pub unit_price_amount : JsNumber
  pub quantity : JsNumber
  pub line_total_amount : JsNumber
  pub include_for : List IncludeFor
  pub percentage : Option String
  pub reversal : Bool

pub record OrderResource : Type 0 where
  pub id : String
  pub process_alias : String
  pub state : String
  pub last_transition : Option String
  pub customer_id : String
  pub provider_id : String
  pub listing_id : Option String
  pub payin_total_amount : JsNumber
  pub payout_total_amount : JsNumber
  pub currency : String
  pub payout_released : Bool
  pub line_items : Option (List LineItemResource)
  pub created_at : ℕ

-- The percentage of a row is the text of its decimal already.
unfoldable pub to_line_item_resource : LineItem → LineItemResource
unfolding to_number
to_line_item_resource l = record {
  code = l.code;
  unit_price_amount = to_number l.unit_price_amount;
  quantity = l.quantity;
  line_total_amount = to_number l.line_total_amount;
  include_for = l.include_for;
  percentage = l.percentage;
  reversal = l.reversal;
}

abbrev mapped : Option (List LineItem) → Option (List LineItemResource)
mapped none = none
mapped (some rows) = some (map to_line_item_resource rows)

unfoldable pub to_order_resource : Order → Option (List LineItem) → OrderResource
unfolding to_number to_line_item_resource
to_order_resource order line_items = record {
  id = order.id;
  process_alias = order.process_alias;
  state = order.state;
  last_transition = order.last_transition;
  customer_id = order.customer_id;
  provider_id = order.provider_id;
  listing_id = order.listing_id;
  payin_total_amount = to_number order.payin_total_amount;
  payout_total_amount = to_number order.payout_total_amount;
  currency = order.currency;
  payout_released = order.payout_released;
  line_items = mapped line_items;
  created_at = order.created_at;
}

module _ {W : Type 0} where
  -- `assertParty`
  unfoldable pub assert_party : Principal → String → String → M W (Unit {0})
  assert_party me customer_id provider_id =
      throw_when (not (is_user me customer_id || is_user me provider_id)) (forbidden not_party)

  -- The order with its line items.
  unfoldable pub detail : Principal → String → M W OrderResource
  unfolding assert_party to_order_resource
  detail me id = do
    found ← gets λ db. db.order id
    order ← some_or found order_not_found
    assert_party me order.customer_id order.provider_id
    rows ← gets λ db. filter (λ l. l.order_id === id) db.line_item
    pure (to_order_resource order (some rows))
