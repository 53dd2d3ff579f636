-- ===== src/Gateway.antt =====
-- src/modules/orders/gateway: the seam between the order state machine and Stripe. A gateway keeps
-- a state of its own (`W`), which no database transaction rolls back.
pub mod Fake
use pastel_marketplace.Base.{String, Option}
use pastel_marketplace.Base.Int.{ℤ}
use pastel_marketplace.Base.Result.{Result}

pub record CreateIntentParams : Type 0 where
  pub order_id : String
  pub amount : ℤ
  pub currency : String
  pub customer_stripe_id : Option String
  pub payment_method_id : Option String

pub record IntentResult : Type 0 where
  pub stripe_pi_id : String
  pub client_secret : Option String
  pub status : String

pub record TransferParams : Type 0 where
  pub order_id : String
  pub amount : ℤ
  pub currency : String
  pub destination_account_id : String

pub record RefundParams : Type 0 where
  pub order_id : String
  pub stripe_pi_id : String
  pub amount : ℤ
  pub currency : String

pub record PaymentGateway (W : Type 0) : Type 0 where
  pub create_payment_intent : CreateIntentParams → W → Result IntentResult × W
  pub confirm_and_capture : String → W → Result IntentResult × W
  pub cancel_payment_intent : String → W → Result (Unit {0}) × W
  -- the result is the transfer's id
  pub create_transfer : TransferParams → W → Result String × W
  -- the result is the refund's id
  pub refund : RefundParams → W → Result String × W
