-- ===== src/Orders/Actions.antt =====
-- order-state-machine.service.ts: the privileged recompute and the money actions.
use pastel_marketplace.Base.{
  ℕ, String, false, Option, none, some, List, [], ◌∷◌, ◌++◌, map, filter, not, ◌&&◌, if◌then◌else◌,
}
use pastel_marketplace.Base.Int.{ℤ, ◌-ℤ◌}
use pastel_marketplace.Base.Text.{◌===◌}
use pastel_marketplace.Base.Number.{JsNumber, to_bigint}
use pastel_marketplace.Base.Result as R
use pastel_marketplace.Base.Result.{Result, ok, err, error, conflict, or_throw}
use pastel_marketplace.Decimal.{DecimalLib}
use pastel_marketplace.Pricing.{
  PriceInput, PriceLineInput, PriceBreakdown, ComputedLineItem, compute,
}
use pastel_marketplace.Process.{
  TransitionAction, create_payment_intent, confirm_capture, cancel_payment_intent, payout,
  refund_full,
}
use pastel_marketplace.Database.{
  Db, Order, SnapshotItem, PriceSnapshot, LineItem, PaymentIntent, Payout, Refund, put, full,
  refund,
}
use pastel_marketplace.Gateway.{PaymentGateway, IntentResult}
use pastel_marketplace.Orders.Monad.{M, pure, lift, gets, call, modify, some_or, ◌>>=◌, ◌>>◌}

pub record Totals : Type 0 where
  pub payin : ℤ
  pub payout : ℤ

abbrev pub range_error : R.Exception
range_error = error "RangeError"

-- `big` of `coercePriceInput`
abbrev pub big : Option JsNumber → Result (Option ℤ)
big none = ok none
big (some n) = R.◌>>=◌ (or_throw (to_bigint n) range_error) λ a. ok (some a)

pub coerce_items : List SnapshotItem → Result (List PriceLineInput)
coerce_items [] = ok []
coerce_items (i ∷ is) = R.◌>>=◌ (or_throw (to_bigint i.unit_price_amount) range_error) λ a.
    R.◌>>=◌ (coerce_items is)
      λ rest. ok (record { unit_price_amount = a; quantity = i.quantity } ∷ rest)

unfoldable pub coerce_price_input : PriceSnapshot → Result PriceInput
unfolding coerce_items
coerce_price_input s = R.◌>>=◌ (coerce_items s.items) λ items.
    R.◌>>=◌ (big s.shipping_fee_amount) λ fee. R.◌>>=◌ (big s.shipping_discount_amount) λ discount.
      R.◌>>=◌ (big s.tax_amount) λ tax. R.◌>>=◌ (big s.promo_discount_amount) λ promo. ok (record {
        currency = s.currency;
        items = items;
        commission = s.commission;
        pickup = s.pickup;
        shipping_fee_amount = fee;
        shipping_discount_amount = discount;
        tax_amount = tax;
        tax_include_for = s.tax_include_for;
        promo_discount_amount = promo;
      })

-- One row of `lineItem.createMany`.
unfoldable pub line_row : String → String → ComputedLineItem → LineItem
line_row order_id currency l = record {
  order_id = order_id;
  code = l.code;
  unit_price_amount = l.unit_price_amount;
  currency = currency;
  quantity = l.quantity;
  percentage = l.percentage;
  line_total_amount = l.line_total_amount;
  include_for = l.include_for;
  reversal = false;
}

-- `deleteMany` of the order's lines that are no reversals, then `createMany`.
unfoldable pub replace_lines : Order → PriceBreakdown → Db → Db
unfolding line_row
replace_lines order b db = record db {
  line_item =
      filter (λ l. not (l.order_id === order.id && not l.reversal)) db.line_item
      ++ map (line_row order.id b.currency) b.line_items;
}

module _ {W : Type 0} (dec : DecimalLib) where
  recompute_from : Order → PriceSnapshot → M W Totals
  unfolding replace_lines coerce_price_input
  recompute_from order snapshot = do
    input ← lift (coerce_price_input snapshot)
    b ← lift (compute dec input)
    modify (replace_lines order b)
    pure (record { payin = b.payin_total_amount; payout = b.payout_total_amount })

  unfoldable pub recompute : Order → M W Totals
  unfolding recompute_from
  recompute order = elim order.metadata [
    | none ↦ pure (record { payin = order.payin_total_amount; payout = order.payout_total_amount })
    | some snapshot ↦ recompute_from order snapshot
  ]

-- The row that `paymentIntent.upsert` leaves: on update the currency and the fee stay.
unfoldable pub intent_row : Order → Totals → IntentResult → Option PaymentIntent → PaymentIntent
intent_row order t res none = record {
  order_id = order.id;
  stripe_pi_id = res.stripe_pi_id;
  client_secret = res.client_secret;
  amount = t.payin;
  currency = order.currency;
  application_fee_amount = some (t.payin -ℤ t.payout);
  status = res.status;
  captured_at = none;
}
intent_row order t res (some old) = record old {
  stripe_pi_id = res.stripe_pi_id;
  client_secret = res.client_secret;
  amount = t.payin;
  status = res.status;
}

-- The row that `payout.upsert` leaves.
unfoldable pub payout_row : Order → ℤ → String → String → ℕ → Option Payout → Payout
payout_row order amount transfer_id account now none = record {
  order_id = order.id;
  stripe_transfer_id = some transfer_id;
  destination_account_id = account;
  amount = amount;
  currency = order.currency;
  status = "paid";
  released_at = some now;
}
payout_row order amount transfer_id account now (some old) = record old {
  stripe_transfer_id = some transfer_id;
  status = "paid";
  released_at = some now;
}

-- The row of `refund.create`.
unfoldable pub refund_row : Order → Totals → String → Refund
refund_row order t refund_id = record {
  order_id = order.id;
  stripe_refund_id = some refund_id;
  mode = full;
  resolution = refund;
  amount = t.payin;
  currency = order.currency;
  actor = some "system";
}

module _ {W : Type 0} (gateway : PaymentGateway W) (now : ℕ) (order : Order) (t : Totals) where
  unfoldable pub create_intent : M W (Unit {0})
  unfolding intent_row
  create_intent = do
    customer ← gets λ db. db.stripe_customer order.customer_id
    res ← call (
        gateway.create_payment_intent (record {
          order_id = order.id;
          amount = t.payin;
          currency = order.currency;
          customer_stripe_id = customer;
          payment_method_id = none;
        }))
    modify λ db. record db {
      payment_intent =
          put db.payment_intent order.id (intent_row order t res (db.payment_intent order.id));
    }

  unfoldable pub confirm_intent : M W (Unit {0})
  confirm_intent = do
    found ← gets λ db. db.payment_intent order.id
    pi ← some_or found (conflict "No payment intent to confirm")
    res ← call (gateway.confirm_and_capture pi.stripe_pi_id)
    modify λ db. record db {
      payment_intent =
          put db.payment_intent order.id
            (record pi { status = res.status; captured_at = some now });
    }

  cancel_found : PaymentIntent → M W (Unit {0})
  cancel_found pi = do
    call (gateway.cancel_payment_intent pi.stripe_pi_id)
    modify λ db. record db {
      payment_intent = put db.payment_intent order.id (record pi { status = "canceled" });
    }

  unfoldable pub cancel_intent : M W (Unit {0})
  unfolding cancel_found
  cancel_intent = do
    found ← gets λ db. db.payment_intent order.id
    elim found [ none ↦ pure tt | some pi ↦ cancel_found pi ]

  unfoldable pub release_payout : M W (Unit {0})
  unfolding payout_row
  release_payout = do
    found ← gets λ db. db.stripe_account order.provider_id
    account ← some_or found (conflict "Seller has no connected Stripe account")
    transfer ← call (
        gateway.create_transfer (record {
          order_id = order.id;
          amount = t.payout;
          currency = order.currency;
          destination_account_id = account;
        }))
    modify λ db. record db {
      payout =
          put db.payout order.id
            (payout_row order t.payout transfer account now (db.payout order.id));
    }

  -- An order whose payout is released is not paid out again.
  unfoldable pub pay_out : M W (Unit {0})
  unfolding release_payout
  pay_out w = if order.payout_released then (ok tt, w) else release_payout w

  unfoldable pub refund_found : PaymentIntent → M W (Unit {0})
  unfolding refund_row
  refund_found pi = do
    refund_id ← call (
        gateway.refund (record {
          order_id = order.id;
          stripe_pi_id = pi.stripe_pi_id;
          amount = t.payin;
          currency = order.currency;
        }))
    modify λ db. record db { refund = db.refund ++ refund_row order t refund_id ∷ [] }

  unfoldable pub refund_in_full : M W (Unit {0})
  unfolding refund_found
  refund_in_full = do
    found ← gets λ db. db.payment_intent order.id
    elim found [ none ↦ pure tt | some pi ↦ refund_found pi ]

  unfoldable pub run_action : Option TransitionAction → M W (Unit {0})
  unfolding create_intent confirm_intent cancel_intent pay_out refund_in_full
  run_action none = pure tt
  run_action (some create_payment_intent) = create_intent
  run_action (some confirm_capture) = confirm_intent
  run_action (some cancel_payment_intent) = cancel_intent
  run_action (some payout) = pay_out
  run_action (some refund_full) = refund_in_full
