-- ===== src/Orders/Controller.antt =====
-- src/modules/orders/controllers/orders.controller.ts: the transitions that a user may ask for.
use pastel_marketplace.Base.{
  ℕ, ◌≡◌, sym, ap, ◌∙◌, String, Bool, true, false, Option, none, some, ◌⊎◌, inl, inr, Bool-cases,
  if◌then◌else◌,
}
use mathlib.Core.Path.{subst}
use pastel_marketplace.Base.Text.{◌===◌, ===_iff}
use pastel_marketplace.Base.Result.{Result, ok, err, ok-injective, forbidden}
use pastel_marketplace.Decimal.{DecimalLib}
use pastel_marketplace.Process.{Actor, customer, provider}
use pastel_marketplace.Database.{Order}
use pastel_marketplace.Gateway.{PaymentGateway}
use pastel_marketplace.Identity.Tokens.{Principal}
use pastel_marketplace.Orders.Monad.{World, M, gets, some_or, lift, ◌>>=◌}
use pastel_marketplace.Orders.Machine.{ApplyOpts, order_not_found, apply}
use pastel_marketplace.Service.{bind-ok, some_or-ok, lift-ok}
use pastel_marketplace.Orders.Outcome.{IsMoved, apply-IsMoved}

-- `me.userId === id`
abbrev pub is_user : Principal → String → Bool
is_user me id = elim me.user_id [ none ↦ false | some user ↦ user === id ]

abbrev pub not_party : String
not_party = "You are not a party to this order."

unfoldable pub actor_for : Principal → String → String → Result Actor
actor_for me customer_id provider_id =
    if is_user me customer_id
    then ok customer
    else if is_user me provider_id
    then ok provider
    else err (forbidden not_party)

abbrev pub by_principal : Principal → ApplyOpts
by_principal me = record { actor_user_id = me.user_id; metadata = none }

module _ {W : Type 0} (dec : DecimalLib) (gateway : PaymentGateway W) (uuid : ℕ → String)
    (now : ℕ) where
  -- `transition`, up to the mapping of the order to the response.
  unfoldable pub transition : Principal → String → String → M W Order
  unfolding actor_for
  transition me id name = do
    found ← gets λ db. db.order id
    order ← some_or found order_not_found
    actor ← lift (actor_for me order.customer_id order.provider_id)
    apply dec gateway uuid now id name actor (by_principal me)

some_inj : {A : Type 0} {a b : A} → some a ≡ some b → a ≡ b
some_inj h = cc

-- The user is the order's buyer and acts as the customer, or its seller and acts as the provider.
abbrev pub IsParty : Principal → Order → Actor → Type 0
IsParty me order actor =
    ((actor ≡ customer) × (me.user_id ≡ some order.customer_id))
    ⊎ ((actor ≡ provider) × (me.user_id ≡ some order.provider_id))

is_user-inv :
    (user : Option String) (id : String)
    → elim user [ none ↦ false | some user ↦ user === id ] ≡ true
    → user ≡ some id
is_user-inv none id h = cc
is_user-inv (some user) id h = ap some ((===_iff user id).0 h)

actor_for-IsParty :
    (me : Principal) (order : Order) {actor : Actor}
    → actor_for me order.customer_id order.provider_id ≡ ok actor
    → IsParty me order actor
unfolding actor_for
actor_for-IsParty me order h = elim (Bool-cases (is_user me order.customer_id)) [
  | inl buyer ↦
      inl (ok-injective (sym (rw buyer at h)), is_user-inv me.user_id order.customer_id buyer)
  | inr no_buyer ↦ elim (Bool-cases (is_user me order.provider_id)) [
    | inl seller ↦ inr (
      ok-injective (sym (rw (no_buyer, seller) at h)),
      is_user-inv me.user_id order.provider_id seller,
    )
    | inr no_seller ↦ cc (rw (no_buyer, no_seller) at h)
  ]
]

module _ {W : Type 0} (dec : DecimalLib) (gateway : PaymentGateway W) (uuid : ℕ → String)
    (now : ℕ) where
  pub record IsOwnMove (me : Principal) (id name : String) (w : World W) (o' : Order) (w' : World W)
      : Type 0 where
    pub actor : Actor
    pub moved : IsMoved dec gateway uuid now id name actor w o' w'
    pub party : IsParty me moved.order actor

  -- A transition that a user asks for succeeds only for a party of the order, in the party's own
  -- role, and is then one legal transition of the stored order.
  pub transition-IsOwnMove :
      (me : Principal) (id name : String) (w : World W) {o' : Order} {w' : World W}
      → transition dec gateway uuid now me id name w ≡ (ok o', w')
      → IsOwnMove me id name w o' w'
  unfolding transition
  transition-IsOwnMove me id name w {o' = o'} {w' = w'} h =
      let (order, w1, e1, h1) = bind-ok (some_or (w.db.order id) order_not_found) _ w h in
      let (found, same) = some_or-ok (w.db.order id) order_not_found w e1 in
      let (actor, w2, e2, h2) =
        bind-ok (lift (actor_for me order.customer_id order.provider_id)) _ w1 h1 in
      let (party, same2) = lift-ok (actor_for me order.customer_id order.provider_id) w1 e2 in
      let h' =
        subst (λ x. apply dec gateway uuid now id name actor (by_principal me) x ≡ (ok o', w'))
          (same2 ∙ same) h2 in
      let moved = apply-IsMoved dec gateway uuid now id name actor (by_principal me) w h' in
      let same_order : order ≡ moved.order = some_inj (sym found ∙ moved.before) in
      record {
        actor = actor;
        moved = moved;
        party = subst (λ o. IsParty me o actor) same_order (actor_for-IsParty me order party);
      }
