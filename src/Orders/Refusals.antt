-- ===== src/Orders/Refusals.antt =====
-- What `apply` refuses, and that a refusal changes nothing, not even at the gateway.
use pastel_marketplace.Base.{ℕ, ◌≡◌, String, true, false, Option, none, some, arith, find?}
use pastel_marketplace.Base.Text.{◌===◌, ◌⊕◌}
use pastel_marketplace.Base.Result.{Exception, err, bad_request, conflict, forbidden}
use pastel_marketplace.Decimal.{DecimalLib}
use pastel_marketplace.Process.{Actor, TransitionDef, includes, includes_actor, instant_purchase}
use pastel_marketplace.Database.{Order}
use pastel_marketplace.Gateway.{PaymentGateway}
use pastel_marketplace.Orders.Monad.{World}
use pastel_marketplace.Orders.Machine.{
  ApplyOpts, show_actor, order_not_found, check_transition, execute_within, apply,
}
use pastel_marketplace.Orders.Steps.{alias}

-- The refusal of an order that is in the process, by the first test that fails.
abbrev pub refusal : Order → String → Actor → Option TransitionDef → Option Exception
refusal order name actor none = some (bad_request ("Unknown transition " ⊕ name))
refusal order name actor (some t) = elim (includes t.from order.state) [
  | false ↦ some (conflict ("Cannot " ⊕ name ⊕ " from state " ⊕ order.state))
  | true ↦ elim (includes_actor t.actor actor) [
    | false ↦ some (forbidden (show_actor actor ⊕ " may not " ⊕ name))
    | true ↦ none
  ]
]

check_transition-err :
    (order : Order) (name : String) (actor : Actor) {e : Exception}
    → order.process_alias ≡ alias
    → refusal order name actor (find? (λ x. x.name === name) instant_purchase.transitions) ≡ some e
    → check_transition order name actor ≡ err e
unfolding check_transition
check_transition-err order name actor in_process h = rw in_process (ground arith)

module _ {W : Type 0} (dec : DecimalLib) (gateway : PaymentGateway W) (uuid : ℕ → String) (now : ℕ)
    (id name : String) (actor : Actor) (opts : ApplyOpts) (w : World W) where
  -- An unknown order is refused.
  pub apply-missing :
      w.db.order id ≡ none
      → apply dec gateway uuid now id name actor opts w ≡ (err order_not_found, w)
  unfolding apply execute_within
  apply-missing h = rw h

  -- `apply` refuses an unknown transition as a bad request, then a state from which the transition
  -- does not start as a conflict, then an actor who may not make it as forbidden, in this order;
  -- neither the database nor the gateway changes.
  pub apply-refused :
      (order : Order) {e : Exception}
      → w.db.order id ≡ some order
      → order.process_alias ≡ alias
      → refusal order name actor (find? (λ x. x.name === name) instant_purchase.transitions)
        ≡ some e
      → apply dec gateway uuid now id name actor opts w ≡ (err e, w)
  unfolding apply execute_within
  apply-refused order found in_process h =
      rw (found, check_transition-err order name actor in_process h)
