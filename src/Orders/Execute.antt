-- ===== src/Orders/Execute.antt =====
-- `executeWithin` and `apply` as a whole: what a successful run did, and that every run keeps the
-- orders consistent.
use pastel_marketplace.Base.{
  ℕ, zero, suc, ◌≡◌, refl, sym, ap, ◌∙◌, String, none, some, Option-cases, inl, inr,
}
use mathlib.Core.Path.{subst₂}
use pastel_marketplace.Base.Result.{Result, ok, err, ok-injective}
use pastel_marketplace.Decimal.{DecimalLib}
use pastel_marketplace.Process.{
  Actor, system, TransitionDef, ProcessDefinition, lookup, instant_purchase,
}
use pastel_marketplace.Database.{Db, Order}
use pastel_marketplace.Gateway.{PaymentGateway}
use pastel_marketplace.Orders.Monad.{World, some_or, lift, restored, ◌>>=◌}
use pastel_marketplace.Orders.Machine.{
  ApplyOpts, no_opts, order_not_found, check_transition, perform, execute_within, apply,
  advance_from,
}
use pastel_marketplace.Orders.Steps.{IsLegal, check_transition-ok}
use pastel_marketplace.Service.{bind-ok, some_or-ok, lift-ok}
use pastel_marketplace.Orders.Commit.{Performed, perform-Performed}
use pastel_marketplace.Orders.Invariant.{IsConsistent, performed-IsConsistent}

module _ {W : Type 0} (dec : DecimalLib) (gateway : PaymentGateway W) (uuid : ℕ → String)
    (now : ℕ) where
  -- What the first round of a successful run did: it moved the order by one legal transition, and
  -- went on with the state's immediate transition, if it has one.
  pub record Ran (fuel : ℕ) (id name : String) (actor : Actor) (opts : ApplyOpts) (w : World W)
      (o' : Order) (w' : World W) : Type 0 where
    pub order : Order
    pub t : TransitionDef
    pub before : w.db.order id ≡ some order
    pub legal : IsLegal order name actor t
    pub moved : Order
    pub w1 : World W
    pub ran :
        perform dec gateway uuid now id order instant_purchase t name actor opts w ≡ (ok moved, w1)
    pub done : Performed uuid now id order instant_purchase t name actor opts moved w.db w1.db
    pub last : lookup t.to instant_purchase.immediate_next ≡ none → (o' ≡ moved) × (w' ≡ w1)
    pub more :
        (next : String)
        → lookup t.to instant_purchase.immediate_next ≡ some next
        → execute_within dec gateway uuid now fuel id next system no_opts w1 ≡ (ok o', w')

  -- The rest of a round behind the guards.
  abbrev RestOfRound :
      ℕ
      → String
      → String
      → Actor
      → ApplyOpts
      → Order
      → World W
      → World W
      → Order
      → ProcessDefinition
      → TransitionDef
      → Type 0
  RestOfRound fuel id name actor opts o' w w' order def t =
      (perform dec gateway uuid now id order def t name actor opts
          >>= advance_from (λ next. execute_within dec gateway uuid now fuel id next system no_opts)
              (lookup t.to def.immediate_next))
        w
      ≡ (ok o', w')

  module _ (fuel : ℕ) (id name : String) (actor : Actor) (opts : ApplyOpts) (w : World W)
      {o' : Order} {w' : World W} where
    round-Ran :
        (order : Order) (t : TransitionDef)
        → w.db.order id ≡ some order
        → IsLegal order name actor t
        → RestOfRound fuel id name actor opts o' w w' order instant_purchase t
        → Ran fuel id name actor opts w o' w'
    round-Ran order t found legal h =
        let (moved, w1, e, e') =
          bind-ok (perform dec gateway uuid now id order instant_purchase t name actor opts) _ w
            h in
        record {
          order = order;
          t = t;
          before = found;
          legal = legal;
          moved = moved;
          w1 = w1;
          ran = e;
          done =
              perform-Performed dec gateway uuid now id order instant_purchase t name actor opts w
                e;
          last = λ none_next.
              let same : ◌≡◌ {A = Result Order × World W} (ok moved, w1) (ok o', w') =
                rw (none_next, advance_from) at e' in
              (
                ok-injective (ap (λ (r : Result Order × World W). r.0) (sym same)),
                ap (λ (r : Result Order × World W). r.1) (sym same),
              );
          more = λ next some_next. rw (some_next, advance_from) at e';
        }

    pub execute_within-Ran :
        execute_within dec gateway uuid now (suc fuel) id name actor opts w ≡ (ok o', w')
        → Ran fuel id name actor opts w o' w'
    unfolding execute_within
    execute_within-Ran h =
        let (order, wa, ea, ha) = bind-ok (some_or (w.db.order id) order_not_found) _ w h in
        let (found, same_a) = some_or-ok (w.db.order id) _ w ea in
        let (checked, wb, eb, hb) = bind-ok (lift (check_transition order name actor)) _ wa ha in
        let (passed, same_b) = lift-ok (check_transition order name actor) wa eb in
        let (same_def, legal) = check_transition-ok order name actor passed in
        round-Ran order checked.1 found legal (
          subst₂ (λ def x. RestOfRound fuel id name actor opts o' x w' order def checked.1) same_def
            (same_b ∙ same_a) hb)

  -- A successful run keeps the orders consistent, however many rounds it took.
  pub execute_within-IsConsistent :
      (fuel : ℕ) (id name : String) (actor : Actor) (opts : ApplyOpts) (w : World W) {o' : Order}
      {w' : World W}
      → execute_within dec gateway uuid now fuel id name actor opts w ≡ (ok o', w')
      → IsConsistent w.db
      → IsConsistent w'.db
  unfolding execute_within
  execute_within-IsConsistent zero id name actor opts w h all =
      cc (ap (λ (r : Result Order × World W). r.0) h)
  execute_within-IsConsistent (suc fuel) id name actor opts w {w' = w'} h all =
      let ran = execute_within-Ran fuel id name actor opts w h in
      let kept =
        performed-IsConsistent uuid now id ran.order ran.t name actor opts ran.moved w.db ran.w1.db
          ran.legal ran.done (all id ran.order ran.before) all in
      elim (Option-cases (lookup ran.t.to instant_purchase.immediate_next)) [
        | inl none_next ↦ rw (ran.last none_next).1 kept
        | inr (next, e) ↦
            execute_within-IsConsistent fuel id next system no_opts ran.w1 (ran.more next e) kept
      ]

  restored-IsConsistent :
      (d : Db) (r : Result Order × World W)
      → IsConsistent d
      → ((o : Order) → r.0 ≡ ok o → IsConsistent r.1.db)
      → IsConsistent (restored d r).1.db
  restored-IsConsistent d (ok o, w') before after = after o refl
  restored-IsConsistent d (err e, w') before after = before

  -- Where every stored order agrees with its state in its payout, its refunds and its pending
  -- timers (`IsConsistent`), every stored order still does after `apply`, whether it returns or
  -- throws.
  pub apply-IsConsistent :
      (id name : String) (actor : Actor) (opts : ApplyOpts) (w : World W)
      → IsConsistent w.db
      → IsConsistent (apply dec gateway uuid now id name actor opts w).1.db
  unfolding apply
  apply-IsConsistent id name actor opts w all =
      let r = execute_within dec gateway uuid now 2 id name actor opts w in
      restored-IsConsistent w.db r all λ o e.
        execute_within-IsConsistent 2 id name actor opts w {o' = o} {w' = r.1} (λ i. (e i, r.1)) all
