-- ===== src/Orders/Checkout/Quote.antt =====
-- The price that `checkout` quotes is the price that the order gets.
use pastel_marketplace.Base.{
  ℕ, ◌+◌, ◌≡◌, refl, sym, ap, ◌∙◌, String, true, Option, none, some, arith, ltb, or_else, find?,
}
use mathlib.Core.Path.{subst, subst₂}
use pastel_marketplace.Base.Int.{pos}
use pastel_marketplace.Base.Text.{◌===◌}
use pastel_marketplace.Base.Number.{safe_limit}
use pastel_marketplace.Base.Result.{Result, ok, ok-injective, Exception, bad_request, not_found}
use pastel_marketplace.Decimal.{DecimalLib}
use pastel_marketplace.Pricing.{PriceInput, PriceBreakdown, compute}
use pastel_marketplace.Process.{
  Actor, customer, TransitionDef, ProcessDefinition, lookup, instant_purchase,
}
use pastel_marketplace.Database.{Db, Order, PriceSnapshot, Listing, put, put_self}
use pastel_marketplace.Gateway.{PaymentGateway}
use pastel_marketplace.Orders.Monad.{World, lift, some_or, throw_when}
use pastel_marketplace.Orders.Actions.{Totals, recompute, coerce_price_input, run_action}
use pastel_marketplace.Orders.Machine.{
  ApplyOpts, advanced, used_totals, privileged_totals, perform, apply,
}
use pastel_marketplace.Service.{bind-ok, some_or-ok, lift-ok}
use pastel_marketplace.Orders.Commit.{commit-written}
use pastel_marketplace.Orders.Execute.{execute_within-Ran}
use pastel_marketplace.Orders.Outcome.{apply-IsMoved, restored-ok}
use pastel_marketplace.Orders.Checkout.{
  CheckoutInput, CheckoutResult, Built, on_sale, build_price_input, new_order, place_order,
  checkout, by_user,
}
use pastel_marketplace.Orders.Checkout.Snapshot.{some_inj, build_price_input-coerced}

abbrev no_order : Exception
no_order = not_found "No Order found"

abbrev own_listing : Exception
own_listing = bad_request "You cannot buy your own listing."

module _ (b : PriceBreakdown) where
  abbrev quoted : Totals
  quoted = record { payin = b.payin_total_amount; payout = b.payout_total_amount }

  -- The order's totals are those of the breakdown.
  abbrev pub IsQuoted : Order → Type 0
  IsQuoted o =
      (o.payin_total_amount ≡ b.payin_total_amount)
      × (o.payout_total_amount ≡ b.payout_total_amount)

  advanced-IsQuoted :
      (order : Order) (t : TransitionDef) (name : String) (now : ℕ)
      → IsQuoted (advanced order t name (some quoted) now)
  unfolding advanced
  advanced-IsQuoted order t name now = ground arith

-- The order that a result names is stored with the totals of its breakdown, in its state.
pub record IsAsQuoted (r : CheckoutResult) (d : Db) : Type 0 where
  pub order : Order
  pub stored : d.order r.order_id ≡ some order
  pub totals : IsQuoted r.breakdown order
  pub state : r.state ≡ order.state

module _ {W : Type 0} (dec : DecimalLib) (gateway : PaymentGateway W) (uuid : ℕ → String)
    (now : ℕ) where
  privileged_totals-quoted :
      (order : Order) (t : TransitionDef) (s : PriceSnapshot) (input : PriceInput)
      (b : PriceBreakdown) (w : World W) {totals : Option Totals} {w1 : World W}
      → t.privileged ≡ true
      → order.metadata ≡ some s
      → coerce_price_input s ≡ ok input
      → compute dec input ≡ ok b
      → privileged_totals dec order t w ≡ (ok totals, w1)
      → totals ≡ some (quoted b)
  unfolding privileged_totals recompute
  privileged_totals-quoted order t s input b w priv meta coerced computed e = ok-injective (
      ap (λ (r : Result (Option Totals) × World W). r.0)
        (sym (rw (priv, meta, coerced, computed) at e)))

  -- The totals of a privileged transition are those of the breakdown of the order's snapshot.
  pub perform-IsQuoted :
      (id name : String) (order : Order) (def : ProcessDefinition) (t : TransitionDef)
      (actor : Actor) (opts : ApplyOpts) (w : World W) (s : PriceSnapshot) (input : PriceInput)
      (b : PriceBreakdown) {o' : Order} {w' : World W}
      → t.privileged ≡ true
      → order.metadata ≡ some s
      → coerce_price_input s ≡ ok input
      → compute dec input ≡ ok b
      → perform dec gateway uuid now id order def t name actor opts w ≡ (ok o', w')
      → IsQuoted b o'
  unfolding perform
  perform-IsQuoted id name order def t actor opts w s input b {o' = o'} {w' = w'} priv meta coerced
        computed h =
      let (totals, w1, e1, h1) = bind-ok (privileged_totals dec order t) _ w h in
      let (_, w2, e2, h2) =
        bind-ok (run_action gateway now order (used_totals order totals) t.action) _ w1 h1 in
      let wrote = commit-written uuid now id order def t name actor opts totals w2 h2 in
      let priced = privileged_totals-quoted order t s input b w priv meta coerced computed e1 in
      rw (wrote.0, priced) (advanced-IsQuoted b order t name now)

requests :
    {t : TransitionDef}
    → find? (λ x. x.name === "request-payment") instant_purchase.transitions ≡ some t
    → (t.privileged ≡ true) × (t.to ≡ "pending-payment")
unfolding instant_purchase
requests h = ground arith

stays : lookup "pending-payment" instant_purchase.immediate_next ≡ none
unfolding instant_purchase
stays = refl

module _ {W : Type 0} (dec : DecimalLib) (gateway : PaymentGateway W) (uuid : ℕ → String)
    (now : ℕ) where
  -- A successful `request-payment` prices the order by its snapshot.
  requested-IsQuoted :
      (id : String) (actor : Actor) (opts : ApplyOpts) (w : World W) (order : Order)
      (s : PriceSnapshot) (input : PriceInput) (b : PriceBreakdown) {o' : Order} {w' : World W}
      → w.db.order id ≡ some order
      → order.metadata ≡ some s
      → coerce_price_input s ≡ ok input
      → compute dec input ≡ ok b
      → apply dec gateway uuid now id "request-payment" actor opts w ≡ (ok o', w')
      → (w'.db.order id ≡ some o') × IsQuoted b o'
  unfolding apply
  requested-IsQuoted id actor opts w order s input b {o' = o'} {w' = w'} before meta coerced
        computed h =
      let ran =
        execute_within-Ran dec gateway uuid now 1 id "request-payment" actor opts w
          (restored-ok w.db _ h) in
      let same : ran.order ≡ order = some_inj (sym ran.before ∙ before) in
      let (priv, to) = requests ran.legal.found in
      let (same_o, same_w) = ran.last (rw to stays) in
      let moved =
        perform-IsQuoted dec gateway uuid now id "request-payment" ran.order instant_purchase ran.t
          actor opts w s input b priv (rw same meta) coerced computed ran.ran in
      (
        (apply-IsMoved dec gateway uuid now id "request-payment" actor opts w h).after,
        subst (λ (o : Order). IsQuoted b o) (sym same_o) moved,
      )

  place_order-IsAsQuoted :
      (customer_id : String) (input : CheckoutInput) (built : Built) (b : PriceBreakdown)
      (id : String) (w : World W) {r : CheckoutResult} {w' : World W}
      → coerce_price_input built.snapshot ≡ ok built.price_input
      → compute dec built.price_input ≡ ok b
      → place_order dec gateway uuid now customer_id input built b id w ≡ (ok r, w')
      → IsAsQuoted r w'.db
  unfolding place_order new_order
  place_order-IsAsQuoted customer_id input built b id w {r} {w'} coerced computed h =
      let order = new_order id now customer_id built.provider_id input built in
      let w0 = record w {
        db = record w.db { created = w.db.created + 1; order = put w.db.order id order };
      } in
      let (o', wa, ea, ha) =
        bind-ok (apply dec gateway uuid now id "request-payment" customer (by_user customer_id)) _
          w0 h in
      let (after, totals) =
        requested-IsQuoted id customer (by_user customer_id) w0 order built.snapshot
          built.price_input b (put_self w.db.order id order) kept_snapshot coerced computed ea in
      let (fresh, wb, eb, hb) = bind-ok (some_or (wa.db.order id) no_order) _ wa ha in
      let (on, same) = some_or-ok (wa.db.order id) no_order wa eb in
      let same_o : o' ≡ fresh = some_inj (sym after ∙ on) in
      let made = ok-injective (ap (λ (x : Result CheckoutResult × World W). x.0) hb) in
      let ended = ap (λ (x : Result CheckoutResult × World W). x.1) hb in
      subst₂ (λ (x : CheckoutResult) (y : World W). IsAsQuoted x y.db) made (sym same ∙ ended)
        (record {
          order = o';
          stored = after;
          totals = totals;
          state = ap (λ (o : Order). o.state) (sym same_o);
        })
    where
      kept_snapshot :
          (new_order id now customer_id built.provider_id input built).metadata
          ≡ some built.snapshot
      kept_snapshot = refl

  -- Where the listing's price and shipping fee are below 2 ^ 53, a successful `checkout` stores an
  -- order whose payin and payout are those of the breakdown it returns, and returns its state.
  pub checkout-IsAsQuoted :
      (customer_id : String) (input : CheckoutInput) (l : Listing) (n f : ℕ) (w : World W)
      {r : CheckoutResult} {w' : World W}
      → on_sale (w.db.listing input.listing_id) ≡ some l
      → l.price_amount ≡ some (pos n)
      → or_else l.ship_one_item_amount (pos 0) ≡ pos f
      → ltb n safe_limit ≡ true
      → ltb f safe_limit ≡ true
      → checkout dec gateway uuid now customer_id input w ≡ (ok r, w')
      → IsAsQuoted r w'.db
  unfolding checkout
  checkout-IsAsQuoted customer_id input l n f w {r} {w'} sale price fee hn hf h =
      let (built, w1, e1, h1) = bind-ok (build_price_input input) _ w h in
      let (_, coerced) = build_price_input-coerced input l n f w sale price fee hn hf e1 in
      let (_, w2, _, h2) =
        bind-ok (throw_when (built.provider_id === customer_id) own_listing) _ w1 h1 in
      let (b, w3, e3, h3) = bind-ok (lift (compute dec built.price_input)) _ w2 h2 in
      let (computed, _) = lift-ok (compute dec built.price_input) w2 e3 in
      place_order-IsAsQuoted customer_id input built b (uuid w3.db.created) w3 coerced computed h3
