-- ===== src/Tests.antt =====
-- A marketplace with one listing, and the orders of the tests in it.
pub mod Money
pub mod Pricing
pub mod Orders
pub mod Pagination
pub mod Identity
pub mod Social
pub mod Lists
pub mod Decisions
pub mod Searches
use pastel_marketplace.Base.{ℕ, zero, suc, String, none, some, List, [], ◌∷◌, if◌then◌else◌}
use pastel_marketplace.Base.Int.{pos}
use pastel_marketplace.Base.Text.{◌===◌, ◌⊕◌, show}
use pastel_marketplace.Base.Number.{whole}
use pastel_marketplace.Database.{Db, Listing, published, shipping}
use pastel_marketplace.Orders.Monad.{World}
use pastel_marketplace.Orders.Checkout.{CheckoutInput}

abbrev pub uuid : ℕ → String
uuid n = "id-" ⊕ show n

abbrev pub vase : Listing
vase = record {
  id = "vase";
  author_id = "seller";
  state = published;
  deleted_at = none;
  price_amount = some (pos 2000);
  price_currency = some "usd";
  ship_one_item_amount = some (pos 500);
  delivery_method = shipping;
}

abbrev pub shop : Db
shop = record {
  created = 0;
  order = λ k. none;
  payment_intent = λ k. none;
  payout = λ k. none;
  stripe_account = λ k. if k === "seller" then some "acct_1" else none;
  stripe_customer = λ k. none;
  listing = λ k. if k === "vase" then some vase else none;
  commission_config = some (record { provider_percentage = "10"; customer_percentage = "5" });
  line_item = [];
  order_transition = [];
  scheduled_transition = [];
  refund = [];
  outbox = [];
}

abbrev pub opened : World ℕ
opened = record { db = shop; gateway = 0 }

abbrev pub two_vases : CheckoutInput
two_vases = record { listing_id = "vase"; quantity = whole (pos 2) }
