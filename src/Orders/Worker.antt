-- ===== src/Orders/Worker.antt =====
-- src/modules/orders/workers/scheduled-transition.worker.ts: the timer poller.
use pastel_marketplace.Base.{
  ℕ, ◌+◌, String, Bool, true, false, Option, none, some, List, [], ◌∷◌, map, filter, take, leb, not,
  if◌then◌else◌,
}
use pastel_marketplace.Base.Text.{◌===◌}
use pastel_marketplace.Base.Result.{Result, ok, err}
use pastel_marketplace.Decimal.{DecimalLib}
use pastel_marketplace.Process.{system}
use pastel_marketplace.Database.{
  Db, Order, ScheduledTransition, TimerStatus, pending, fired, skipped,
}
use pastel_marketplace.Gateway.{PaymentGateway}
use pastel_marketplace.Orders.Monad.{World}
use pastel_marketplace.Orders.Machine.{no_opts, apply}

abbrev pub is_due : ℕ → ScheduledTransition → Bool
is_due now row = elim row.status [ pending ↦ leb row.run_at now | _ ↦ false ]

-- Insertion into a list ordered by `runAt`, behind the rows that are due at the same time.
unfoldable pub insert_by_run_at :
    ScheduledTransition → List ScheduledTransition → List ScheduledTransition
insert_by_run_at row [] = row ∷ []
insert_by_run_at row (r ∷ rs) =
    if leb row.run_at r.run_at then row ∷ (r ∷ rs) else r ∷ insert_by_run_at row rs

unfoldable pub sort_by_run_at : List ScheduledTransition → List ScheduledTransition
unfolding insert_by_run_at
sort_by_run_at [] = []
sort_by_run_at (r ∷ rs) = insert_by_run_at r (sort_by_run_at rs)

-- `findMany` of the due rows, the earliest first, 100 at most.
unfoldable pub due_rows : ℕ → List ScheduledTransition → List ScheduledTransition
unfolding sort_by_run_at
due_rows now rows = take 100 (sort_by_run_at (filter (is_due now) rows))

-- `update({ where: { id } })`
abbrev pub update_row : String → (ScheduledTransition → ScheduledTransition) → Db → Db
update_row id f db = record db {
  scheduled_transition = map (λ r. if r.id === id then f r else r) db.scheduled_transition;
}

abbrev pub with_status : TimerStatus → ScheduledTransition → ScheduledTransition
with_status s r = record r { status = s }

abbrev pub one_more_attempt : ScheduledTransition → ScheduledTransition
one_more_attempt r = record r { attempts = r.attempts + 1 }

-- `!order || order.state !== row.guardState`
abbrev pub is_superseded : Option Order → String → Bool
is_superseded none guard_state = true
is_superseded (some o) guard_state = not (o.state === guard_state)

module _ {W : Type 0} where
  -- The `catch` counts an attempt, and leaves the row pending.
  abbrev pub settle : ScheduledTransition → Result Order × World W → World W
  settle row (ok o, w) = record w { db = update_row row.id (with_status fired) w.db }
  settle row (err e, w) = record w { db = update_row row.id one_more_attempt w.db }

module _ {W : Type 0} (dec : DecimalLib) (gateway : PaymentGateway W) (uuid : ℕ → String)
    (now : ℕ) where
  -- One round of the loop.
  unfoldable pub fire : ScheduledTransition → World W → World W
  fire row w =
      if is_superseded (w.db.order row.order_id) row.guard_state
      then record w { db = update_row row.id (with_status skipped) w.db }
      else settle row (apply dec gateway uuid now row.order_id row.transition system no_opts w)

  unfoldable pub fire_all : List ScheduledTransition → World W → World W
  unfolding fire
  fire_all [] w = w
  fire_all (row ∷ rows) w = fire_all rows (fire row w)

  unfoldable pub sweep : Bool → World W → World W
  unfolding fire_all due_rows
  sweep enabled w =
      let due = due_rows now w.db.scheduled_transition in if enabled then fire_all due w else w
