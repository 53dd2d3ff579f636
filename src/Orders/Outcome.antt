-- ===== src/Orders/Outcome.antt =====
-- Where a successful `apply` leaves an order, and that every order comes to an end.
use pastel_marketplace.Base.{
  ℕ, suc, ◌≡◌, ◌≢◌, ◌<◌, ◌≤◌, refl, sym, ap, ◌∙◌, String, Bool, true, none, some, arith, find?,
  Option-cases, inl, inr, if◌then◌else◌, ltb,
}
use mathlib.Core.Path.{subst, subst₂}
use pastel_marketplace.Base.Text.{◌===◌, ===_iff}
use pastel_marketplace.Base.Result.{Result, ok, err}
use pastel_marketplace.Decimal.{DecimalLib}
use pastel_marketplace.Process.{Actor, system, TransitionDef, lookup, instant_purchase}
use pastel_marketplace.Process.Table.{holds_of_all, table_fact}
use pastel_marketplace.Database.{Db, Order, put_self}
use pastel_marketplace.Gateway.{PaymentGateway}
use pastel_marketplace.Orders.Monad.{World, restored}
use pastel_marketplace.Orders.Machine.{ApplyOpts, no_opts, execute_within, apply}
use pastel_marketplace.Orders.Steps.{IsLegal, lookup_single}
use pastel_marketplace.Orders.Commit.{Performed}
use pastel_marketplace.Orders.Invariant.{advanced_lem}
use pastel_marketplace.Orders.Execute.{execute_within-Ran}

-- `received` is passed through at once.
abbrev pub settled : String → String
settled s = if s === "received" then "completed" else s

-- A number that every transition raises.
unfoldable pub rank : String → ℕ
rank s =
    if s === "initial"
    then 0
    else if s === "pending-payment"
    then 1
    else if s === "purchased"
    then 2
    else if s === "pending-shipment"
    then 3
    else if s === "shipped"
    then 4
    else if s === "delivered"
    then 5
    else if s === "disputed"
    then 6
    else if s === "escalated-dispute"
    then 7
    else if s === "received"
    then 8
    else if s === "completed"
    then 9
    else 10

rank-le : (s : String) → rank s ≤ 10
unfolding rank
rank-le s = ground arith

abbrev ascends : TransitionDef → String → Bool
ascends t s = ltb (rank s) (rank (settled t.to))

ascends_all : holds_of_all ascends instant_purchase.transitions ≡ true
unfolding instant_purchase rank
ascends_all = refl

immediate_lem :
    (s : String) {next : String}
    → lookup s instant_purchase.immediate_next ≡ some next
    → (s ≡ "received") × (next ≡ "mark-completed")
unfolding instant_purchase
immediate_lem s h = lookup_single "received" s "mark-completed" h

immediate_none : (s : String) → lookup s instant_purchase.immediate_next ≡ none → s ≢ "received"
unfolding instant_purchase
immediate_none s h = ground (arith, ===_iff "received" s)

mark_completed_lem :
    {t : TransitionDef}
    → find? (λ x. x.name === "mark-completed") instant_purchase.transitions ≡ some t
    → t.to ≡ "completed"
unfolding instant_purchase
mark_completed_lem h = cc h

completed_last : lookup "completed" instant_purchase.immediate_next ≡ none
unfolding instant_purchase
completed_last = refl

lt_of_ltb : (a b : ℕ) → ltb a b ≡ true → a < b
lt_of_ltb a b h = ground arith

some_inj : {A : Type 0} {a b : A} → some a ≡ some b → a ≡ b
some_inj h = cc

settled_ne : (s : String) → s ≢ "received" → s ≡ settled s
settled_ne s ne = ground (arith, ===_iff s "received")

pub restored-ok :
    {W : Type 0} (d : Db) (r : Result Order × World W) {o' : Order} {w' : World W}
    → restored d r ≡ (ok o', w')
    → r ≡ (ok o', w')
restored-ok d (ok o, w) h = h
restored-ok {W} d (err e, w) h = cc (ap (λ (x : Result Order × World W). x.0) h)

module _ {W : Type 0} (dec : DecimalLib) (gateway : PaymentGateway W) (uuid : ℕ → String)
    (now : ℕ) where
  -- One legal transition, from the stored order to the returned one.
  pub record IsMoved (id name : String) (actor : Actor) (w : World W) (o' : Order) (w' : World W)
      : Type 0 where
    pub order : Order
    pub t : TransitionDef
    pub before : w.db.order id ≡ some order
    pub legal : IsLegal order name actor t
    pub after : w'.db.order id ≡ some o'
    pub state : o'.state ≡ settled t.to

  pub moved_state :
      (id name : String) (actor : Actor) (opts : ApplyOpts) (order : Order) (t : TransitionDef)
      (moved : Order) (w w1 : World W)
      → Performed uuid now id order instant_purchase t name actor opts moved w.db w1.db
      → (moved.state ≡ t.to) × (w1.db.order id ≡ some moved)
  moved_state id name actor opts order t moved w w1 done = (
    rw done.updated (advanced_lem order t name done.totals now).2,
    ap (λ m. m id) done.row ∙ put_self w.db.order id moved,
  )

  -- The second round of a run is `mark-completed`, and ends there.
  completed_round :
      (fuel : ℕ) (id name : String) (w : World W) {o' : Order} {w' : World W}
      → name ≡ "mark-completed"
      → execute_within dec gateway uuid now (suc fuel) id name system no_opts w ≡ (ok o', w')
      → (o'.state ≡ "completed") × (w'.db.order id ≡ some o')
  completed_round fuel id name w {o' = o'} {w' = w'} e h =
      let ran = execute_within-Ran dec gateway uuid now fuel id name system no_opts w h in
      let at_end = mark_completed_lem (
        subst (λ n. find? (λ x. x.name === n) instant_purchase.transitions ≡ some ran.t) e
          ran.legal.found) in
      let (same_o, same_w) = ran.last (rw at_end completed_last) in
      let (state, row) =
        moved_state id name system no_opts ran.order ran.t ran.moved w ran.w1 ran.done in
      (ap (λ (o : Order). o.state) same_o ∙ state ∙ at_end, rw (same_o, same_w) row)

  -- A successful `apply` moves the stored order by one legal transition, to the transition's
  -- target or, where that is `received`, on to `completed`; what it returns is what is stored.
  pub apply-IsMoved :
      (id name : String) (actor : Actor) (opts : ApplyOpts) (w : World W) {o' : Order}
      {w' : World W}
      → apply dec gateway uuid now id name actor opts w ≡ (ok o', w')
      → IsMoved id name actor w o' w'
  unfolding apply
  apply-IsMoved id name actor opts w {o' = o'} {w' = w'} h =
      let ran =
        execute_within-Ran dec gateway uuid now 1 id name actor opts w (restored-ok w.db _ h) in
      let (state, row) =
        moved_state id name actor opts ran.order ran.t ran.moved w ran.w1 ran.done in
      elim (Option-cases (lookup ran.t.to instant_purchase.immediate_next)) [
        | inl none_next ↦
            let (same_o, same_w) = ran.last none_next in
            record {
              order = ran.order;
              t = ran.t;
              before = ran.before;
              legal = ran.legal;
              after = rw (same_o, same_w) row;
              state = rw same_o (state ∙ settled_ne ran.t.to (immediate_none ran.t.to none_next));
            }
        | inr (next, e) ↦
            let (received, named) = immediate_lem ran.t.to e in
            let (done, after) = completed_round 0 id next ran.w1 named (ran.more next e) in
            record {
              order = ran.order;
              t = ran.t;
              before = ran.before;
              legal = ran.legal;
              after = after;
              state = rw received done;
            }
      ]

  -- Every successful `apply` of a stored order raises the rank of the order's state, and no rank
  -- is above 10.
  pub apply-rank :
      (id name : String) (actor : Actor) (opts : ApplyOpts) (w : World W) {order o' : Order}
      {w' : World W}
      → w.db.order id ≡ some order
      → apply dec gateway uuid now id name actor opts w ≡ (ok o', w')
      → (rank order.state < rank o'.state) × (rank o'.state ≤ 10)
  apply-rank id name actor opts w {order} {o'} before h =
      let m = apply-IsMoved id name actor opts w h in
      let same : m.order ≡ order = some_inj (sym m.before ∙ before) in
      let up =
        table_fact ascends _ name m.t m.order.state ascends_all m.legal.found m.legal.from_state in
      (
        subst₂ (λ (x : Order) (y : String). rank x.state < rank y) same (sym m.state)
            (lt_of_ltb _ _ up),
        rank-le o'.state,
      )
