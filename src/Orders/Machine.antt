-- ===== src/Orders/Machine.antt =====
-- order-state-machine.service.ts: `apply` and `executeWithin`.
use pastel_marketplace.Base.{
  ℕ, zero, suc, ◌+◌, String, Bool, true, false, Option, none, some, List, [], ◌∷◌, ◌++◌, map, not,
  if◌then◌else◌, find?, or_else,
}
use pastel_marketplace.Base.Text.{◌===◌, ◌⊕◌}
use pastel_marketplace.Base.Result as R
use pastel_marketplace.Base.Result.{
  Result, ok, err, bad_request, not_found, conflict, forbidden, unfinished, throw_if, or_throw,
}
use pastel_marketplace.Decimal.{DecimalLib}
use pastel_marketplace.Process.{
  Actor, customer, provider, operator, system, TransitionDef, TransitionAction, ProcessDefinition,
  StateTimer, payout, lookup, includes, includes_actor, instant_purchase,
}
use pastel_marketplace.Process.Duration.{duration_to_ms}
use pastel_marketplace.Database.{
  Db, Order, OrderTransition, ScheduledTransition, pending, canceled, transitioned, released,
  OutboxRow, put,
}
use pastel_marketplace.Gateway.{PaymentGateway}
use pastel_marketplace.Orders.Monad.{
  World, M, pure, throw, lift, gets, modify, some_or, transaction, ◌>>=◌, ◌>>◌,
}
use pastel_marketplace.Orders.Actions.{Totals, recompute, run_action}

-- `REGISTRY`
unfoldable pub registry : List (String × ProcessDefinition)
registry = ("instant-purchase/release-14", instant_purchase) ∷ []

pub record ApplyOpts : Type 0 where
  pub actor_user_id : Option String
  pub metadata : Option String

abbrev pub no_opts : ApplyOpts
no_opts = record { actor_user_id = none; metadata = none }

abbrev pub order_not_found : R.Exception
order_not_found = not_found "Order not found."

abbrev pub show_actor : Actor → String
show_actor customer = "customer"
show_actor provider = "provider"
show_actor operator = "operator"
show_actor system = "system"

-- The lookups and guards in front of a transition, in the order of the code: the process, the
-- transition, the state, the actor.
unfoldable pub check_transition :
    Order → String → Actor → Result (ProcessDefinition × TransitionDef)
unfolding registry
check_transition order name actor =
    R.◌>>=◌
      (or_throw (lookup order.process_alias registry)
        (bad_request ("Unknown process " ⊕ order.process_alias)))
      λ def.
        R.◌>>=◌
          (or_throw (find? (λ x. x.name === name) def.transitions)
            (bad_request ("Unknown transition " ⊕ name)))
          λ t.
            R.◌>>◌
              (throw_if (not (includes t.from order.state))
                (conflict ("Cannot " ⊕ name ⊕ " from state " ⊕ order.state)))
              (R.◌>>◌
                (throw_if (not (includes_actor t.actor actor))
                  (forbidden (show_actor actor ⊕ " may not " ⊕ name)))
                (ok (def, t)))

-- `totals?.payin ?? order.payinTotalAmount`, and so for the payout
abbrev pub used_totals : Order → Option Totals → Totals
used_totals order none = record {
  payin = order.payin_total_amount;
  payout = order.payout_total_amount;
}
used_totals order (some t) = t

-- Step 6: the audit row.
unfoldable pub audit_row :
    String → Order → TransitionDef → String → Actor → ApplyOpts → OrderTransition
audit_row order_id order t name actor opts = record {
  order_id = order_id;
  transition = name;
  from_state = some order.state;
  to_state = t.to;
  actor = actor;
  actor_user_id = opts.actor_user_id;
  metadata = or_else opts.metadata "{}";
}

abbrev pub is_payout : Option TransitionAction → Bool
is_payout (some payout) = true
is_payout _ = false

abbrev with_totals : Option Totals → Order → Order
with_totals none order = order
with_totals (some t) order = record order {
  payin_total_amount = t.payin;
  payout_total_amount = t.payout;
}

abbrev with_payout : Bool → ℕ → Order → Order
with_payout false now order = order
with_payout true now order = record order { payout_released = true; payout_released_at = some now }

-- Step 7: the order's row after the transition.
unfoldable pub advanced : Order → TransitionDef → String → Option Totals → ℕ → Order
advanced order t name totals now =
    let moved = record order {
      state = t.to;
      last_transition = some name;
      last_transitioned_at = some now;
    } in
    with_payout (is_payout t.action) now (with_totals totals moved)

-- Step 8: the order's pending timers are canceled, and the new state's timer is scheduled.
abbrev pub cancel_row : String → ScheduledTransition → ScheduledTransition
cancel_row order_id row =
    if row.order_id === order_id
    then elim row.status [ pending ↦ record row { status = canceled } | _ ↦ row ]
    else row

unfoldable pub timer_row : (ℕ → String) → ℕ → String → String → StateTimer → ℕ → ScheduledTransition
timer_row uuid created order_id state timer run_at = record {
  id = uuid created;
  order_id = order_id;
  transition = timer.transition;
  guard_state = state;
  run_at = run_at;
  status = pending;
  attempts = 0;
}

module _ (uuid : ℕ → String) (now : ℕ) where
  unfoldable pub reconcile_timers : ProcessDefinition → String → String → Db → Result Db
  unfolding timer_row
  reconcile_timers def order_id state db =
      let rows = map (cancel_row order_id) db.scheduled_transition in
      elim (lookup state def.state_timers) [
        | none ↦ ok (record db { scheduled_transition = rows })
        | some timer ↦ R.◌>>=◌ (duration_to_ms timer.after) λ ms. ok (record db {
          created = db.created + 1;
          scheduled_transition =
              rows ++ timer_row uuid db.created order_id state timer (now + ms) ∷ [];
        })
      ]

-- Step 9: the outbox rows.
unfoldable pub emit_events : String → Order → TransitionDef → String → Db → Db
emit_events order_id order t name db =
    let moved : OutboxRow = record {
      topic = "order.transitioned";
      payload = transitioned order_id name order.state t.to;
    } in
    let paid : OutboxRow = record { topic = "payout.released"; payload = released order_id } in
    record db {
      outbox = db.outbox ++ (if is_payout t.action then moved ∷ paid ∷ [] else moved ∷ []);
    }

module _ {W : Type 0} where
  abbrev pub written : World W → Result Db → Result (Unit {0}) × World W
  written w (ok db) = (ok tt, record w { db = db })
  written w (err e) = (err e, w)

  abbrev pub write_db : (Db → Result Db) → M W (Unit {0})
  write_db f w = written w (f w.db)

module _ {W : Type 0} (dec : DecimalLib) where
  -- Step 4.
  unfoldable pub privileged_totals : Order → TransitionDef → M W (Option Totals)
  unfolding recompute
  privileged_totals order t =
      if t.privileged then (recompute dec order >>= λ totals. pure (some totals)) else pure none

module _ {W : Type 0} (uuid : ℕ → String) (now : ℕ) where
  -- Steps 6 to 9, which only write to the database.
  unfoldable pub commit :
      String
      → Order
      → ProcessDefinition
      → TransitionDef
      → String
      → Actor
      → ApplyOpts
      → Option Totals
      → M W Order
  unfolding audit_row advanced reconcile_timers emit_events
  commit order_id order def t name actor opts totals = do
    modify λ db. record db {
      order_transition = db.order_transition ++ audit_row order_id order t name actor opts ∷ [];
    }
    modify λ db. record db { order = put db.order order_id (advanced order t name totals now) }
    write_db (reconcile_timers uuid now def order_id t.to)
    modify (emit_events order_id order t name)
    pure (advanced order t name totals now)

module _ {W : Type 0} where
  -- The immediate transition of the state that was reached, if it has one.
  abbrev pub advance_from : (String → M W Order) → Option String → Order → M W Order
  advance_from rerun none updated = pure updated
  advance_from rerun (some next) updated = rerun next

module _ {W : Type 0} (dec : DecimalLib) (gateway : PaymentGateway W) (uuid : ℕ → String)
    (now : ℕ) where
  -- Steps 4 to 9 of one transition.
  unfoldable pub perform :
      String → Order → ProcessDefinition → TransitionDef → String → Actor → ApplyOpts → M W Order
  unfolding privileged_totals run_action commit
  perform order_id order def t name actor opts = do
    totals ← privileged_totals dec order t
    run_action gateway now order (used_totals order totals) t.action
    commit uuid now order_id order def t name actor opts totals

  -- `executeWithin`; the fuel bounds the chain of immediate transitions.
  unfoldable pub execute_within : ℕ → String → String → Actor → ApplyOpts → M W Order
  execute_within zero order_id name actor opts = throw unfinished
  execute_within (suc fuel) order_id name actor opts = do
    found ← gets λ db. db.order order_id
    order ← some_or found order_not_found
    checked ← lift (check_transition order name actor)
    updated ← perform order_id order checked.0 checked.1 name actor opts
    advance_from (λ next. execute_within fuel order_id next system no_opts)
        (lookup checked.1.to checked.0.immediate_next) updated

  -- `apply`: the row lock is the order of the steps, which run one at a time here. Two rounds are
  -- enough: the target of an immediate transition has none.
  unfoldable pub apply : String → String → Actor → ApplyOpts → M W Order
  unfolding execute_within transaction
  apply order_id name actor opts = transaction (execute_within 2 order_id name actor opts)
