-- ===== src/Orders/Checkout/Snapshot.antt =====
-- The snapshot that `checkout` keeps on the order gives the price input back.
use pastel_marketplace.Base.{
  ℕ, ◌≡◌, sym, ap, ◌∙◌, String, Bool, true, false, Option, none, some, arith, ltb, or_else,
}
use mathlib.Core.Path.{subst, subst₂}
use pastel_marketplace.Base.Int.{ℤ, pos}
use pastel_marketplace.Base.Number.{JsNumber, is_le_zero, safe_limit}
use pastel_marketplace.Base.Result.{Result, ok, ok-injective, Exception, bad_request, not_found}
use pastel_marketplace.Pricing.{Commission}
use pastel_marketplace.Database.{Listing}
use pastel_marketplace.Orders.Monad.{World, some_or, throw_when}
use pastel_marketplace.Orders.Actions.{coerce_price_input}
use pastel_marketplace.Service.{bind-ok, some_or-ok}
use pastel_marketplace.Orders.Checkout.{
  CheckoutInput, Built, zero_commission, is_pickup_method, on_sale, price_of, build_price_input,
  snapshot_of, price_input_of,
}

-- The snapshot of a checkout holds the amounts as numbers. An amount below 2 ^ 53 comes back from
-- it as it was, so that the recompute has the price input of the checkout.
pub coerce-snapshot :
    (currency : String) (n f : ℕ) (quantity : JsNumber) (commission : Commission) (is_pickup : Bool)
    → ltb n safe_limit ≡ true
    → ltb f safe_limit ≡ true
    → coerce_price_input (snapshot_of currency (pos n) quantity commission is_pickup (pos f))
      ≡ ok (price_input_of currency (pos n) quantity commission is_pickup (pos f))
unfolding coerce_price_input snapshot_of price_input_of
coerce-snapshot currency n f quantity commission true hn hf = rw hn
coerce-snapshot currency n f quantity commission false hn hf = rw (hn, hf)

price_of-amount :
    (a : ℤ) (c : Option String) {p : ℤ × String} → price_of (some a) c ≡ some p → p.0 ≡ a
price_of-amount a none h = cc
price_of-amount a (some c) h = ground arith

abbrev bad_quantity : Exception
bad_quantity = bad_request "Quantity must be a positive whole number."

abbrev unavailable : Exception
unavailable = not_found "This listing is no longer available for purchase."

abbrev no_price : Exception
no_price = bad_request "Listing has no price"

throw_when-ok :
    {W : Type 0} (b : Bool) (e : Exception) (w : World W) {u : Unit {0}} {w' : World W}
    → throw_when b e w ≡ (ok u, w')
    → w' ≡ w
throw_when-ok {W} true e w h = cc (ap (λ (r : Result (Unit {0}) × World W). r.0) h)
throw_when-ok {W} false e w h = ap (λ (r : Result (Unit {0}) × World W). r.1) (sym h)

pub some_inj : {A : Type 0} {a b : A} → some a ≡ some b → a ≡ b
some_inj h = cc

module _ {W : Type 0} (input : CheckoutInput) (l : Listing) (n f : ℕ) where
  -- What `buildPriceInput` reads of a listing with amounts below 2 ^ 53 comes back from the snapshot.
  pub build_price_input-coerced :
      (w : World W) {built : Built} {w' : World W}
      → on_sale (w.db.listing input.listing_id) ≡ some l
      → l.price_amount ≡ some (pos n)
      → or_else l.ship_one_item_amount (pos 0) ≡ pos f
      → ltb n safe_limit ≡ true
      → ltb f safe_limit ≡ true
      → build_price_input input w ≡ (ok built, w')
      → (w' ≡ w) × (coerce_price_input built.snapshot ≡ ok built.price_input)
  unfolding build_price_input
  build_price_input-coerced w {built} {w'} sale price fee hn hf h =
      let (_, wa, ea, ha) = bind-ok (throw_when (is_le_zero input.quantity) bad_quantity) _ w h in
      let same_a = throw_when-ok (is_le_zero input.quantity) bad_quantity w ea in
      let (found, wb, eb, hb) =
        bind-ok (some_or (on_sale (wa.db.listing input.listing_id)) unavailable) _ wa ha in
      let (on, same_b) = some_or-ok (on_sale (wa.db.listing input.listing_id)) unavailable wa eb in
      let (p, wc, ec, hc) =
        bind-ok (some_or (price_of found.price_amount found.price_currency) no_price) _ wb hb in
      let (priced, same_c) =
        some_or-ok (price_of found.price_amount found.price_currency) no_price wb ec in
      let listed : l ≡ found = some_inj (
        sym sale
        ∙ ap (λ (x : World W). on_sale (x.db.listing input.listing_id)) (sym same_a)
        ∙ on) in
      let amount : p.0 ≡ pos n =
        price_of-amount (pos n) l.price_currency (rw (← listed, price) at priced) in
      let shipped : pos f ≡ or_else found.ship_one_item_amount (pos 0) = sym (rw (← listed) fee) in
      let commission = or_else wc.db.commission_config zero_commission in
      let by_pickup = is_pickup_method found.delivery_method in
      (
        ap (λ (r : Result Built × World W). r.1) (sym hc) ∙ same_c ∙ same_b ∙ same_a,
        subst (λ (x : Built). coerce_price_input x.snapshot ≡ ok x.price_input)
            (ok-injective (ap (λ (r : Result Built × World W). r.0) hc))
            (subst₂
              (λ a g.
                coerce_price_input (snapshot_of p.1 a input.quantity commission by_pickup g)
                ≡ ok (price_input_of p.1 a input.quantity commission by_pickup g))
              (sym amount) shipped
              (coerce-snapshot p.1 n f input.quantity commission by_pickup hn hf)),
      )
