-- ===== src/Orders/Commit.antt =====
-- What one transition writes: the audit row, the order's row, its timers and the outbox rows, on
-- top of what its money action did.
use pastel_marketplace.Base.{
  ℕ, ◌+◌, ◌≡◌, refl, sym, ap, ◌∙◌, String, true, false, Option, none, some, List, [], ◌∷◌, ◌++◌,
  map, arith, ◌⊎◌, inl, inr,
}
use mathlib.Core.List.{append-nil}
use mathlib.Core.Path.{subst}
use pastel_marketplace.Base.Result.{Result, ok, err, ok-injective}
use pastel_marketplace.Decimal.{DecimalLib}
use pastel_marketplace.Process.{Actor, TransitionDef, ProcessDefinition, StateTimer, lookup}
use pastel_marketplace.Process.Duration.{duration_to_ms}
use pastel_marketplace.Database.{Db, Order, ScheduledTransition, Payout, Refund, put}
use pastel_marketplace.Gateway.{PaymentGateway}
use pastel_marketplace.Orders.Monad.{World}
use pastel_marketplace.Orders.Actions.{Totals, run_action}
use pastel_marketplace.Orders.Machine.{
  ApplyOpts, audit_row, advanced, cancel_row, timer_row, reconcile_timers, emit_events, used_totals,
  privileged_totals, commit, perform,
}
use pastel_marketplace.Service.{bind-ok}
use pastel_marketplace.Orders.Effects.{
  pays, is_refund, run_action-ActionEffect, privileged_totals-kept,
}

module _ (uuid : ℕ → String) (now : ℕ) (def : ProcessDefinition) (order_id state : String) where
  -- The timer rows that entering a state adds: one for a state with a timer, due when its
  -- duration has passed, and otherwise none.
  abbrev pub NewTimers : Option StateTimer → List ScheduledTransition → Type 0
  NewTimers none rows = rows ≡ []
  NewTimers (some timer) rows =
      (created ms : ℕ) × (duration_to_ms timer.after ≡ ok ms)
      × (rows ≡ timer_row uuid created order_id state timer (now + ms) ∷ [])

  abbrev pub TimersSet : List ScheduledTransition → List ScheduledTransition → Type 0
  TimersSet before after =
      (rows : List ScheduledTransition) × NewTimers (lookup state def.state_timers) rows
      × (after ≡ map (cancel_row order_id) before ++ rows)

  -- The rest of the database is left alone.
  pub reconcile_timers-TimersSet :
      (d : Db) {d' : Db}
      → reconcile_timers uuid now def order_id state d ≡ ok d'
      → TimersSet d.scheduled_transition d'.scheduled_transition
  unfolding reconcile_timers
  reconcile_timers-TimersSet d {d' = d'} h = found (lookup state def.state_timers) refl
    where
      cancelled : List ScheduledTransition
      cancelled = map (cancel_row order_id) d.scheduled_transition

      timed :
          (timer : StateTimer) (r : Result ℕ)
          → lookup state def.state_timers ≡ some timer
          → duration_to_ms timer.after ≡ r
          → TimersSet d.scheduled_transition d'.scheduled_transition
      timed timer (ok ms) e e' = (
        timer_row uuid d.created order_id state timer (now + ms) ∷ [],
        rw e (d.created, ms, e', refl),
        ap (λ (x : Db). x.scheduled_transition)
            (sym (ok-injective (rw (e, e', reconcile_timers) at h))),
      )
      timed timer (err x) e e' = cc (rw (e, e', reconcile_timers) at h)

      found :
          (o : Option StateTimer)
          → lookup state def.state_timers ≡ o
          → TimersSet d.scheduled_transition d'.scheduled_transition
      found none e = (
        [],
        rw e,
        ap (λ (x : Db). x.scheduled_transition) (sym (ok-injective (rw (e, reconcile_timers) at h)))
            ∙ sym (append-nil cancelled),
      )
      found (some timer) e = timed timer (duration_to_ms timer.after) e refl

  pub reconcile_timers-kept :
      (d : Db) {d' : Db}
      → reconcile_timers uuid now def order_id state d ≡ ok d'
      → (d'.order ≡ d.order)
        × (d'.order_transition ≡ d.order_transition)
        × (d'.outbox ≡ d.outbox)
        × (d'.payout ≡ d.payout)
        × (d'.refund ≡ d.refund)
  unfolding reconcile_timers
  reconcile_timers-kept d h = ground arith

-- The change of the database by one transition of an order.
pub record Performed (uuid : ℕ → String) (now : ℕ) (order_id : String) (order : Order)
    (def : ProcessDefinition) (t : TransitionDef) (name : String) (actor : Actor) (opts : ApplyOpts)
    (o' : Order) (d d' : Db) : Type 0 where
  pub totals : Option Totals
  pub updated : o' ≡ advanced order t name totals now
  pub row : d'.order ≡ put d.order order_id o'
  pub audit :
      d'.order_transition ≡ d.order_transition ++ audit_row order_id order t name actor opts ∷ []
  pub outbox : d'.outbox ≡ (emit_events order_id order t name d).outbox
  pub timers : TimersSet uuid now def order_id t.to d.scheduled_transition d'.scheduled_transition
  pub not_paid : pays order t.action ≡ false → d'.payout ≡ d.payout
  pub paid : pays order t.action ≡ true → (p : Payout) × (d'.payout ≡ put d.payout order.id p)
  pub not_refunded : is_refund t.action ≡ false → d'.refund ≡ d.refund
  pub refunded :
      is_refund t.action ≡ true
      → (d'.refund ≡ d.refund)
        ⊎ ((r : Refund) × (r.order_id ≡ order.id) × (d'.refund ≡ d.refund ++ r ∷ []))

module _ {W : Type 0} (uuid : ℕ → String) (now : ℕ) where
  pub commit-written :
      (order_id : String) (order : Order) (def : ProcessDefinition) (t : TransitionDef)
      (name : String) (actor : Actor) (opts : ApplyOpts) (totals : Option Totals) (w : World W)
      {o' : Order} {w' : World W}
      → commit uuid now order_id order def t name actor opts totals w ≡ (ok o', w')
      → let d = w.db in
        let d' = w'.db in
        (o' ≡ advanced order t name totals now)
        × (d'.order ≡ put d.order order_id o')
        × (d'.order_transition
            ≡ d.order_transition ++ audit_row order_id order t name actor opts ∷ [])
        × (d'.outbox ≡ (emit_events order_id order t name d).outbox)
        × TimersSet uuid now def order_id t.to d.scheduled_transition d'.scheduled_transition
        × (d'.payout ≡ d.payout)
        × (d'.refund ≡ d.refund)
  unfolding commit
  commit-written order_id order def t name actor opts totals w {o' = o'} {w' = w'} h =
      at_timers (reconcile_timers uuid now def order_id t.to (before w.db)) refl
    where
      before : Db → Db
      before db = record db {
        order_transition = db.order_transition ++ audit_row order_id order t name actor opts ∷ [];
        order = put db.order order_id (advanced order t name totals now);
      }

      at_timers :
          (r : Result Db)
          → reconcile_timers uuid now def order_id t.to (before w.db) ≡ r
          → let d = w.db in
            let d' = w'.db in
            (o' ≡ advanced order t name totals now)
            × (d'.order ≡ put d.order order_id o')
            × (d'.order_transition
                ≡ d.order_transition ++ audit_row order_id order t name actor opts ∷ [])
            × (d'.outbox ≡ (emit_events order_id order t name d).outbox)
            × TimersSet uuid now def order_id t.to d.scheduled_transition d'.scheduled_transition
            × (d'.payout ≡ d.payout)
            × (d'.refund ≡ d.refund)
      at_timers (ok d1) e =
          let kept = reconcile_timers-kept uuid now def order_id t.to (before w.db) e in
          let set = reconcile_timers-TimersSet uuid now def order_id t.to (before w.db) e in
          let h' = rw e at h in
          let made = ok-injective (ap (λ (r : Result Order × World W). r.0) (sym h')) in
          let final = ap (λ (r : Result Order × World W). r.1.db) (sym h') in
          (
            made,
            ap (λ (x : Db). x.order) final ∙ kept.0 ∙ ap (put w.db.order order_id) (sym made),
            ap (λ (x : Db). x.order_transition) final ∙ kept.1,
            ap (λ (x : Db). x.outbox) final
                ∙ ap (λ l. (emit_events order_id order t name (record w.db { outbox = l })).outbox)
                    kept.2,
            rw final set,
            ap (λ (x : Db). x.payout) final ∙ kept.3,
            ap (λ (x : Db). x.refund) final ∙ kept.4,
          )
      at_timers (err x) e = cc (ap (λ (r : Result Order × World W). r.0) (rw e at h))

refunded_from :
    (id : String) (r1 r2 r3 : List Refund) {r0 : List Refund}
    → r3 ≡ r2
    → r1 ≡ r0
    → ((r2 ≡ r1) ⊎ ((r : Refund) × (r.order_id ≡ id) × (r2 ≡ r1 ++ r ∷ [])))
    → (r3 ≡ r0) ⊎ ((r : Refund) × (r.order_id ≡ id) × (r3 ≡ r0 ++ r ∷ []))
refunded_from id r1 r2 r3 e f (inl same) = inl (e ∙ same ∙ f)
refunded_from id r1 r2 r3 e f (inr (r, own, more)) =
    inr (r, own, e ∙ more ∙ ap (λ l. l ++ r ∷ []) f)

-- A transition that succeeds, with its recompute and its money action, appends one audit row,
-- stores the advanced order, cancels the order's pending timers and adds the timer of the new
-- state, appends the outbox rows, writes the order's payout exactly where it pays, and adds a
-- refund of the order at most where it refunds.
pub perform-Performed :
    {W : Type 0} (dec : DecimalLib) (gateway : PaymentGateway W) (uuid : ℕ → String) (now : ℕ)
    (order_id : String) (order : Order) (def : ProcessDefinition) (t : TransitionDef)
    (name : String) (actor : Actor) (opts : ApplyOpts) (w : World W) {o' : Order} {w' : World W}
    → perform dec gateway uuid now order_id order def t name actor opts w ≡ (ok o', w')
    → Performed uuid now order_id order def t name actor opts o' w.db w'.db
unfolding perform emit_events
perform-Performed dec gateway uuid now order_id order def t name actor opts w {o' = o'} {w' = w'}
      h =
    let (totals, w1, e1, h1) = bind-ok (privileged_totals dec order t) _ w h in
    let (_, w2, e2, h2) =
      bind-ok (run_action gateway now order (used_totals order totals) t.action) _ w1 h1 in
    let kept = privileged_totals-kept dec order t w e1 in
    let act = run_action-ActionEffect gateway now order (used_totals order totals) t.action w1 e2 in
    let wrote = commit-written uuid now order_id order def t name actor opts totals w2 h2 in
    let order_same = act.keeps.order ∙ kept.0.order in
    let audit_same = act.keeps.order_transition ∙ kept.0.order_transition in
    let timers_same = act.keeps.scheduled_transition ∙ kept.0.scheduled_transition in
    let outbox_same = act.keeps.outbox ∙ kept.0.outbox in
    record {
      totals = totals;
      updated = wrote.0;
      row = wrote.1 ∙ ap (λ m. put m order_id o') order_same;
      audit = wrote.2 ∙ ap (λ l. l ++ audit_row order_id order t name actor opts ∷ []) audit_same;
      outbox =
          wrote.3
          ∙ ap (λ l. (emit_events order_id order t name (record w2.db { outbox = l })).outbox)
              outbox_same;
      timers =
          subst (λ l. TimersSet uuid now def order_id t.to l w'.db.scheduled_transition) timers_same
            wrote.4;
      not_paid = λ e. wrote.5 ∙ act.not_paid e ∙ kept.1;
      paid = λ e. let (p, q) = act.paid e in (p, wrote.5 ∙ q ∙ ap (λ m. put m order.id p) kept.1);
      not_refunded = λ e. wrote.6 ∙ act.not_refunded e ∙ kept.2;
      refunded = λ e. refunded_from order.id _ _ _ wrote.6 kept.2 (act.refunded e);
    }
