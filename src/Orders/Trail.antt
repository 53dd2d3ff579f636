-- ===== src/Orders/Trail.antt =====
-- The audit trail of an order and the events it announces (steps 6 and 9 of `executeWithin` in
-- order-state-machine.service.ts), over all rounds of an `apply`.
use pastel_marketplace.Base.{
  ℕ, zero, suc, ◌≡◌, refl, sym, ap, ◌∙◌, String, Bool, true, some, List, [], ◌∷◌, ◌++◌, not,
  if◌then◌else◌, or_else, inl, inr, Bool-cases, Option-cases,
}
use mathlib.Core.List.{append_assoc}
use mathlib.Core.Path.{subst}
use pastel_marketplace.Base.Rows.{some_inj}
use pastel_marketplace.Base.Text.{◌===◌}
use pastel_marketplace.Base.Result.{Result, ok}
use pastel_marketplace.Decimal.{DecimalLib}
use pastel_marketplace.Process.{Actor, system, TransitionDef, lookup, instant_purchase}
use pastel_marketplace.Process.Table.{holds_of_all, table_fact}
use pastel_marketplace.Database.{Db, Order, OrderTransition, OutboxRow, transitioned, released}
use pastel_marketplace.Gateway.{PaymentGateway}
use pastel_marketplace.Orders.Monad.{World}
use pastel_marketplace.Orders.Machine.{
  ApplyOpts, no_opts, audit_row, emit_events, is_payout, execute_within, apply,
}
use pastel_marketplace.Orders.Commit.{Performed}
use pastel_marketplace.Orders.Steps.{IsLegal}
use pastel_marketplace.Orders.Execute.{execute_within-Ran}
use pastel_marketplace.Orders.Outcome.{moved_state, restored-ok}

-- Rows of one order that lead from a state to another: each starts where the one before it ended.
abbrev pub Leads : String → String → List OrderTransition → String → Type 0
Leads id from [] to = from ≡ to
Leads id from (r ∷ rs) to =
    (r.order_id ≡ id) × (r.from_state ≡ some from) × Leads id r.to_state rs to

abbrev pub BySystem : List OrderTransition → Type 0
BySystem [] = Unit
BySystem (r ∷ rs) = (r.actor ≡ system) × BySystem rs

-- The events that belong to audit rows: every one is announced, and one that ends in `received` also
-- as a payout.
abbrev pub announced : String → List OrderTransition → List OutboxRow
announced id [] = []
announced id (r ∷ rs) =
    let rest = announced id rs in
    record {
      topic = "order.transitioned";
      payload = transitioned id r.transition (or_else r.from_state "") r.to_state;
    }
    ∷ (if r.to_state === "received"
        then record { topic = "payout.released"; payload = released id } ∷ rest
        else rest)

-- The audit rows and the events between two databases, from one state of an order to another: the
-- first row is the caller's, and the others are the system's.
pub record IsLogged (id name : String) (actor : Actor) (opts : ApplyOpts) (from to : String)
    (d d' : Db) : Type 0 where
  pub first : OrderTransition
  pub rest : List OrderTransition
  pub log : d'.order_transition ≡ d.order_transition ++ first ∷ rest
  pub leads : Leads id from (first ∷ rest) to
  pub named : first.transition ≡ name
  pub by : first.actor ≡ actor
  pub user : first.actor_user_id ≡ opts.actor_user_id
  pub reason : first.metadata ≡ or_else opts.metadata "{}"
  pub followed : BySystem rest
  pub events : d'.outbox ≡ d.outbox ++ announced id (first ∷ rest)

-- The transitions that pay are those that end in `received`.
pays_received : TransitionDef → String → Bool
pays_received t s = if is_payout t.action then t.to === "received" else not (t.to === "received")

pays_received_all : holds_of_all pays_received instant_purchase.transitions ≡ true
unfolding pays_received instant_purchase
pays_received_all = refl

is_payout_lem :
    (order : Order) (name : String) (actor : Actor) (t : TransitionDef)
    → IsLegal order name actor t
    → is_payout t.action ≡ (t.to === "received")
unfolding pays_received
is_payout_lem order name actor t legal =
    let fact =
      table_fact pays_received _ name t order.state pays_received_all legal.found
        legal.from_state in
    elim (Bool-cases (is_payout t.action)) [
      | inl pays ↦ pays ∙ sym (rw pays at fact)
      | inr free ↦ elim (Bool-cases (t.to === "received")) [
        | inl there ↦ cc (rw (free, there) at fact)
        | inr apart ↦ free ∙ sym apart
      ]
    ]

announced-cons :
    (id : String) (r : OrderTransition) (rs : List OrderTransition)
    → announced id (r ∷ []) ++ announced id rs ≡ announced id (r ∷ rs)
announced-cons id r rs = elim (Bool-cases (r.to_state === "received")) [
  | inl there ↦ rw there refl
  | inr apart ↦ rw apart refl
]

module _ {W : Type 0} (dec : DecimalLib) (gateway : PaymentGateway W) (uuid : ℕ → String)
    (now : ℕ) where
  module _ (id name : String) (actor : Actor) (opts : ApplyOpts) (order : Order) (t : TransitionDef)
      (moved : Order) (d d1 : Db) (legal : IsLegal order name actor t)
      (done : Performed uuid now id order instant_purchase t name actor opts moved d d1) where
    abbrev row : OrderTransition
    row = audit_row id order t name actor opts

    performed_events : d1.outbox ≡ d.outbox ++ announced id (row ∷ [])
    unfolding audit_row emit_events
    performed_events = elim (Bool-cases (t.to === "received")) [
      | inl there ↦ rw (done.outbox, is_payout_lem order name actor t legal, there) refl
      | inr apart ↦ rw (done.outbox, is_payout_lem order name actor t legal, apart) refl
    ]

    -- One transition writes one row, and its events.
    performed-IsLogged : IsLogged id name actor opts order.state t.to d d1
    unfolding audit_row
    performed-IsLogged = record {
      first = row;
      rest = [];
      log = done.audit;
      leads = (refl, refl, refl);
      named = refl;
      by = refl;
      user = refl;
      reason = refl;
      followed = tt;
      events = performed_events;
    }

    -- What the system adds to it.
    joined-IsLogged :
        (next to : String) (d' : Db)
        → IsLogged id next system no_opts t.to to d1 d'
        → IsLogged id name actor opts order.state to d d'
    unfolding audit_row
    joined-IsLogged next to d' two = record {
      first = row;
      rest = two.first ∷ two.rest;
      log =
          two.log
          ∙ ap (λ l. l ++ two.first ∷ two.rest) done.audit
          ∙ append_assoc d.order_transition (row ∷ []) (two.first ∷ two.rest);
      leads = (refl, refl, two.leads);
      named = refl;
      by = refl;
      user = refl;
      reason = refl;
      followed = (two.by, two.followed);
      events =
          two.events
          ∙ ap (λ l. l ++ announced id (two.first ∷ two.rest)) performed_events
          ∙ append_assoc d.outbox (announced id (row ∷ [])) (announced id (two.first ∷ two.rest))
          ∙ ap (λ l. d.outbox ++ l) (announced-cons id row (two.first ∷ two.rest));
    }

  execute_within-IsLogged :
      (fuel : ℕ) (id name : String) (actor : Actor) (opts : ApplyOpts) (w : World W) {o' : Order}
      {w' : World W}
      → execute_within dec gateway uuid now fuel id name actor opts w ≡ (ok o', w')
      → (order : Order) × (w.db.order id ≡ some order)
        × IsLogged id name actor opts order.state o'.state w.db w'.db
  unfolding execute_within
  execute_within-IsLogged zero id name actor opts w h =
      cc (ap (λ (r : Result Order × World W). r.0) h)
  execute_within-IsLogged (suc fuel) id name actor opts w {o' = o'} {w' = w'} h =
      let ran = execute_within-Ran dec gateway uuid now fuel id name actor opts w h in
      let (state, stored) =
        moved_state dec gateway uuid now id name actor opts ran.order ran.t ran.moved w ran.w1
          ran.done in
      elim (Option-cases (lookup ran.t.to instant_purchase.immediate_next)) [
        | inl none_next ↦
            let (same_o, same_w) = ran.last none_next in
            let one =
              performed-IsLogged id name actor opts ran.order ran.t ran.moved w.db ran.w1.db
                ran.legal ran.done in
            let end : ran.t.to ≡ o'.state = sym state ∙ ap (λ (o : Order). o.state) (sym same_o) in
            let left : ran.w1.db ≡ w'.db = ap (λ (x : World W). x.db) (sym same_w) in
            (
              ran.order,
              ran.before,
              subst (λ s. IsLogged id name actor opts ran.order.state s w.db w'.db) end
                  (subst (IsLogged id name actor opts ran.order.state ran.t.to w.db) left one),
            )
        | inr (next, e) ↦
            let (order2, before2, two) =
              execute_within-IsLogged fuel id next system no_opts ran.w1 (ran.more next e) in
            let from : order2.state ≡ ran.t.to =
              ap (λ (o : Order). o.state) (some_inj (sym before2 ∙ stored)) ∙ state in
            (
              ran.order,
              ran.before,
              joined-IsLogged id name actor opts ran.order ran.t ran.moved w.db ran.w1.db ran.legal
                  ran.done next o'.state w'.db
                  (subst (λ s. IsLogged id next system no_opts s o'.state ran.w1.db w'.db) from
                    two),
            )
      ]

  -- A successful `apply` appends to the audit log a row with the transition's name, its actor, user
  -- and metadata, and then only rows of the system; all are of this order, each starts in the state
  -- in which the one before it ended, the first in the order's state before the call and the last
  -- ends in the state of the order that is returned. The outbox gets exactly the events of these
  -- rows: one for each, and a payout after each that ends in `received`.
  pub apply-IsLogged :
      (id name : String) (actor : Actor) (opts : ApplyOpts) (w : World W) {o' : Order}
      {w' : World W}
      → apply dec gateway uuid now id name actor opts w ≡ (ok o', w')
      → (order : Order) × (w.db.order id ≡ some order)
        × IsLogged id name actor opts order.state o'.state w.db w'.db
  unfolding apply
  apply-IsLogged id name actor opts w h =
      execute_within-IsLogged 2 id name actor opts w (restored-ok w.db _ h)
