-- ===== src/Orders/Checkout/Consistency.antt =====
-- `checkout` and the consistency of the orders.
use pastel_marketplace.Base.{
  ℕ, ◌+◌, ◌≡◌, refl, sym, String, Bool, true, false, none, some, [], arith, inl, inr, Bool-cases,
}
use mathlib.Core.Path.{subst, subst₂}
use pastel_marketplace.Base.Text.{◌===◌, ===_iff}
use pastel_marketplace.Base.Result.{Result, ok, err, bad_request}
use pastel_marketplace.Decimal.{DecimalLib}
use pastel_marketplace.Pricing.{PriceBreakdown, compute}
use pastel_marketplace.Process.{customer, instant_purchase}
use pastel_marketplace.Database.{Db, Order, put}
use pastel_marketplace.Gateway.{PaymentGateway}
use pastel_marketplace.Orders.Monad.{World, M, lift, continue, throw_when}
use pastel_marketplace.Orders.Machine.{apply}
use pastel_marketplace.Orders.Invariant.{IsSound, IsConsistent, refunds_of}
use pastel_marketplace.Orders.Invariant.Timers.{live_keys}
use pastel_marketplace.Orders.Execute.{apply-IsConsistent}
use pastel_marketplace.Orders.Checkout.{
  CheckoutInput, Built, build_price_input, new_order, place_order, checkout, by_user,
}

-- No row belongs to the id yet.
pub record IsFresh (id : String) (d : Db) : Type 0 where
  pub no_payout : d.payout id ≡ none
  pub no_refund : refunds_of id d.refund ≡ []
  pub no_timer : live_keys id d.scheduled_transition ≡ []

abbrev with_order : String → Order → Db → Db
with_order id o db = record db { created = db.created + 1; order = put db.order id o }

module _ (id : String) (now : ℕ) (customer_id provider_id : String) (input : CheckoutInput)
    (built : Built) where
  abbrev fresh_order : Order
  fresh_order = new_order id now customer_id provider_id input built

  fresh_order-IsSound :
      (d : Db) → IsFresh id d → IsSound (with_order id fresh_order d) id fresh_order
  unfolding new_order instant_purchase
  fresh_order-IsSound d fresh = record {
    own = refl;
    in_process = refl;
    released = refl;
    paid = rw fresh.no_payout refl;
    unrefunded = λ e. fresh.no_refund;
    refunded_once = rw fresh.no_refund (omega arith);
    timers = fresh.no_timer;
  }

  created-IsConsistent :
      (d : Db) → IsFresh id d → IsConsistent d → IsConsistent (with_order id fresh_order d)
  created-IsConsistent d fresh all j o e = elim (Bool-cases (id === j)) [
    | inl same ↦
        let ej = (===_iff id j).0 same in
        let eo : fresh_order ≡ o = ground arith in
        subst₂ (λ k x. IsSound (with_order id fresh_order d) k x) ej eo
          (fresh_order-IsSound d fresh)
    | inr other ↦
        let eo : d.order j ≡ some o = ground arith in
        let s = all j o eo in
        record {
          own = s.own;
          in_process = s.in_process;
          released = s.released;
          paid = s.paid;
          unrefunded = s.unrefunded;
          refunded_once = s.refunded_once;
          timers = s.timers;
        }
  ]

module _ {W A B : Type 0} where
  -- A part that ends in a consistent database, errors included, and is followed by such parts.
  continue-IsConsistent :
      (f : A → M W B) (r : Result A × World W)
      → IsConsistent r.1.db
      → ((a : A) → IsConsistent (f a r.1).1.db)
      → IsConsistent (continue f r).1.db
  continue-IsConsistent f (ok a, w) all next = next a
  continue-IsConsistent f (err e, w) all next = all

  -- A part that only reads, followed by a part that ends in a consistent database.
  read-IsConsistent :
      (f : A → M W B) (r : Result A × World W) (w : World W)
      → r.1 ≡ w
      → IsConsistent w.db
      → ((a : A) → IsConsistent (f a w).1.db)
      → IsConsistent (continue f r).1.db
  read-IsConsistent f (ok a, w') w e all next =
      subst (λ x. IsConsistent (f a x).1.db) (sym e) (next a)
  read-IsConsistent f (err x, w') w e all next = rw e all

module _ {W : Type 0} (input : CheckoutInput) where
  -- The price input is built by reading only.
  pub build_price_input-kept : (w : World W) → (build_price_input input w).1 ≡ w
  unfolding build_price_input
  build_price_input-kept w = ground arith

abbrev own_listing : String
own_listing = "You cannot buy your own listing."

module _ {W : Type 0} where
  throw_when-kept : (b : Bool) (s : String) (w : World W) → (throw_when b (bad_request s) w).1 ≡ w
  throw_when-kept true s w = refl
  throw_when-kept false s w = refl

module _ {W : Type 0} (dec : DecimalLib) (gateway : PaymentGateway W) (uuid : ℕ → String)
    (now : ℕ) where
  place_order-IsConsistent :
      (customer_id : String) (input : CheckoutInput) (built : Built) (b : PriceBreakdown)
      (id : String) (w : World W)
      → IsFresh id w.db
      → IsConsistent w.db
      → IsConsistent (place_order dec gateway uuid now customer_id input built b id w).1.db
  unfolding place_order
  place_order-IsConsistent customer_id input built b id w fresh all =
      let w0 = record w {
        db = with_order id (new_order id now customer_id built.provider_id input built) w.db;
      } in
      let applied =
        apply-IsConsistent dec gateway uuid now id "request-payment" customer (by_user customer_id)
          w0
          (created-IsConsistent id now customer_id built.provider_id input built w.db fresh all) in
      continue-IsConsistent _
        (apply dec gateway uuid now id "request-payment" customer (by_user customer_id) w0) applied
        λ o. ground (arith, applied)

  -- Where every stored order is consistent, and no payout, refund or pending timer belongs to the
  -- id that the database generates next, every stored order is consistent after `checkout`,
  -- whether it returns or throws.
  pub checkout-IsConsistent :
      (customer_id : String) (input : CheckoutInput) (w : World W)
      → IsFresh (uuid w.db.created) w.db
      → IsConsistent w.db
      → IsConsistent (checkout dec gateway uuid now customer_id input w).1.db
  unfolding checkout
  checkout-IsConsistent customer_id input w fresh all =
      read-IsConsistent _ (build_price_input input w) w (build_price_input-kept input w) all
        λ built.
          read-IsConsistent _
            (throw_when (built.provider_id === customer_id) (bad_request own_listing) w) w
            (throw_when-kept _ own_listing w) all
            λ _. read-IsConsistent _ (lift (compute dec built.price_input) w) w refl all λ b.
              place_order-IsConsistent customer_id input built b (uuid w.db.created) w fresh all
