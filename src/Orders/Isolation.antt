-- ===== src/Orders/Isolation.antt =====
-- What `apply` leaves alone, and what the firing of a timer may do.
use pastel_marketplace.Base.{
  ℕ, zero, suc, ◌≡◌, ◌≢◌, refl, sym, ap, ◌∙◌, String, false, Option, some, ◌⊎◌, inl, inr,
  Bool-cases, Option-cases, arith,
}
use pastel_marketplace.Base.Text.{===_iff}
use pastel_marketplace.Base.Result.{Result, Exception, ok, err}
use pastel_marketplace.Decimal.{DecimalLib}
use pastel_marketplace.Process.{Actor, system, lookup, instant_purchase}
use pastel_marketplace.Database.{Db, Order, ScheduledTransition, put_ne}
use pastel_marketplace.Gateway.{PaymentGateway}
use pastel_marketplace.Orders.Monad.{World, restored}
use pastel_marketplace.Orders.Machine.{ApplyOpts, no_opts, execute_within, apply}
use pastel_marketplace.Orders.Invariant.Timers.{rows_of, TimersSet-rows_of}
use pastel_marketplace.Orders.Execute.{execute_within-Ran}
use pastel_marketplace.Orders.Outcome.{IsMoved, apply-IsMoved}
use pastel_marketplace.Orders.Worker.{is_superseded, settle, fire}

-- An order's row is the same, and so are all fields of all its timer rows.
pub record IsUntouched (j : String) (d d' : Db) : Type 0 where
  pub row : d'.order j ≡ d.order j
  pub timers : rows_of j d'.scheduled_transition ≡ rows_of j d.scheduled_transition

module _ {W : Type 0} (dec : DecimalLib) (gateway : PaymentGateway W) (uuid : ℕ → String)
    (now : ℕ) where
  execute_within-IsUntouched :
      (fuel : ℕ) (id name j : String) (actor : Actor) (opts : ApplyOpts) (w : World W) {o' : Order}
      {w' : World W}
      → id ≢ j
      → execute_within dec gateway uuid now fuel id name actor opts w ≡ (ok o', w')
      → IsUntouched j w.db w'.db
  unfolding execute_within
  execute_within-IsUntouched zero id name j actor opts w ne h =
      cc (ap (λ (r : Result Order × World W). r.0) h)
  execute_within-IsUntouched (suc fuel) id name j actor opts w {w' = w'} ne h =
      let ran = execute_within-Ran dec gateway uuid now fuel id name actor opts w h in
      let row = ap (λ m. m j) ran.done.row ∙ put_ne w.db.order id j ran.moved ne in
      let timers =
        TimersSet-rows_of uuid now instant_purchase id ran.t.to j w.db.scheduled_transition
          ran.w1.db.scheduled_transition ne ran.done.timers in
      elim (Option-cases (lookup ran.t.to instant_purchase.immediate_next)) [
        | inl none_next ↦ record {
          row = rw (ran.last none_next).1 row;
          timers = rw (ran.last none_next).1 timers;
        }
        | inr (next, e) ↦
            let rest =
              execute_within-IsUntouched fuel id next j system no_opts ran.w1 ne
                (ran.more next e) in
            record { row = rest.row ∙ row; timers = rest.timers ∙ timers }
      ]

  restored-IsUntouched :
      (j : String) (d : Db) (r : Result Order × World W)
      → ((o : Order) → r.0 ≡ ok o → IsUntouched j d r.1.db)
      → IsUntouched j d (restored d r).1.db
  restored-IsUntouched j d (ok o, w') after = after o refl
  restored-IsUntouched j d (err e, w') after = record { row = refl; timers = refl }

  -- `apply` leaves the row of every other order alone, and its timer rows with all their fields: none
  -- is changed, added or removed, whether `apply` returns or throws.
  pub apply-IsUntouched :
      (id name j : String) (actor : Actor) (opts : ApplyOpts) (w : World W)
      → id ≢ j
      → IsUntouched j w.db (apply dec gateway uuid now id name actor opts w).1.db
  unfolding apply
  apply-IsUntouched id name j actor opts w ne =
      let r = execute_within dec gateway uuid now 2 id name actor opts w in
      restored-IsUntouched j w.db r λ o e.
        execute_within-IsUntouched 2 id name j actor opts w {o' = o} {w' = r.1} ne (λ i. (e i, r.1))

  restored-err :
      (d : Db) (r : Result Order × World W) {e : Exception} {w' : World W}
      → restored d r ≡ (err e, w')
      → w'.db ≡ d
  restored-err d (ok o, w1) h = cc (ap (λ (x : Result Order × World W). x.0) h)
  restored-err d (err x, w1) h = ap (λ (x : Result Order × World W). x.1.db) (sym h)

  -- An `apply` that throws leaves the whole database as it was.
  pub apply-err :
      (id name : String) (actor : Actor) (opts : ApplyOpts) (w : World W) {e : Exception}
      {w' : World W}
      → apply dec gateway uuid now id name actor opts w ≡ (err e, w')
      → w'.db ≡ w.db
  unfolding apply
  apply-err id name actor opts w h =
      restored-err w.db (execute_within dec gateway uuid now 2 id name actor opts w) h

  -- The move of a timer's order: out of the guarded state, by the timer's transition, made by the
  -- system, and of no other order.
  pub record IsFired (row : ScheduledTransition) (w w' : World W) : Type 0 where
    pub after : Order
    pub applied : World W
    pub moved : IsMoved dec gateway uuid now row.order_id row.transition system w after applied
    pub guarded : moved.order.state ≡ row.guard_state
    pub stored : w'.db.order row.order_id ≡ some after
    pub others : (j : String) → row.order_id ≢ j → w'.db.order j ≡ w.db.order j

  not_superseded :
      (o : Order) (stored : Option Order) (guard_state : String)
      → stored ≡ some o
      → is_superseded stored guard_state ≡ false
      → o.state ≡ guard_state
  not_superseded o stored guard_state e h = ground (arith, ===_iff o.state guard_state)

  settle-IsFired :
      (row : ScheduledTransition) (w : World W) (r : Result Order × World W)
      → is_superseded (w.db.order row.order_id) row.guard_state ≡ false
      → apply dec gateway uuid now row.order_id row.transition system no_opts w ≡ r
      → ((settle row r).db.order ≡ w.db.order) ⊎ IsFired row w (settle row r)
  settle-IsFired row w (ok o', w1) current h =
      let moved =
        apply-IsMoved dec gateway uuid now row.order_id row.transition system no_opts w h in
      inr (record {
        after = o';
        applied = w1;
        moved = moved;
        guarded =
            not_superseded moved.order (w.db.order row.order_id) row.guard_state moved.before
              current;
        stored = moved.after;
        others = λ j ne.
            ap (λ (x : Result Order × World W). x.1.db.order j) (sym h)
            ∙ (apply-IsUntouched row.order_id row.transition j system no_opts w ne).row;
      })
  settle-IsFired row w (err e, w1) current h =
      inl (ap (λ (d : Db). d.order) (apply-err row.order_id row.transition system no_opts w h))

  -- The firing of a timer row changes no order, or moves the row's own order, which was in the state
  -- that the row guards, by one legal transition of the row's name made by the system.
  pub fire-IsFired :
      (row : ScheduledTransition) (w : World W)
      → let w' = fire dec gateway uuid now row w in (w'.db.order ≡ w.db.order) ⊎ IsFired row w w'
  unfolding fire
  fire-IsFired row w = elim (Bool-cases (is_superseded (w.db.order row.order_id) row.guard_state)) [
    | inl superseded ↦ inl (rw superseded refl)
    | inr current ↦ rw current (
        settle-IsFired row w
          (apply dec gateway uuid now row.order_id row.transition system no_opts w) current refl)
  ]
