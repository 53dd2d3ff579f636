-- ===== src/Orders/Invariant/Timers.antt =====
-- The pending timers of an order, and how a transition replaces them.
use pastel_marketplace.Base.{
  filter, filter-append, ℕ, ◌≡◌, ◌≢◌, refl, String, Bool, true, false, Option, none, some, List, [],
  ◌∷◌, ◌++◌, map, arith, ◌&&◌, if◌then◌else◌,
}
use mathlib.Core.List.{append-nil}
use pastel_marketplace.Base.Text.{◌===◌, ===_iff}
use pastel_marketplace.Process.{ProcessDefinition, StateTimer, lookup}
use pastel_marketplace.Database.{ScheduledTransition, TimerStatus, pending}
use pastel_marketplace.Orders.Machine.{cancel_row, timer_row}
use pastel_marketplace.Orders.Commit.{NewTimers, TimersSet}

abbrev is_pending : TimerStatus → Bool
is_pending pending = true
is_pending _ = false

abbrev is_live : String → ScheduledTransition → Bool
is_live id r = r.order_id === id && is_pending r.status

-- The pending rows of an order, by transition and guard state.
abbrev pub live_keys : String → List ScheduledTransition → List (String × String)
live_keys id [] = []
live_keys id (r ∷ rs) =
    if is_live id r then (r.transition, r.guard_state) ∷ live_keys id rs else live_keys id rs

-- The row that a state wants.
abbrev pub timer_keys : String → Option StateTimer → List (String × String)
timer_keys state none = []
timer_keys state (some timer) = (timer.transition, state) ∷ []

live_keys-append :
    (id : String) (xs ys : List ScheduledTransition)
    → live_keys id (xs ++ ys) ≡ live_keys id xs ++ live_keys id ys
live_keys-append id [] ys = refl
live_keys-append id (x ∷ xs) ys = ground (arith, live_keys-append id xs ys)

live_keys-cancel_own :
    (id : String) (rows : List ScheduledTransition) → live_keys id (map (cancel_row id) rows) ≡ []
live_keys-cancel_own id [] = refl
live_keys-cancel_own id (r ∷ rs) = ground (arith, live_keys-cancel_own id rs)

live_keys-cancel_other :
    (id j : String) (rows : List ScheduledTransition)
    → id ≢ j
    → live_keys j (map (cancel_row id) rows) ≡ live_keys j rows
live_keys-cancel_other id j [] ne = refl
live_keys-cancel_other id j (r ∷ rs) ne =
    ground (arith, live_keys-cancel_other id j rs ne, ===_iff r.order_id id, ===_iff r.order_id j)

-- All rows of an order, pending or not.
abbrev pub rows_of : String → List ScheduledTransition → List ScheduledTransition
rows_of id rows = filter (λ r. r.order_id === id) rows

rows_of-cancel_other :
    (id j : String) (rows : List ScheduledTransition)
    → id ≢ j
    → rows_of j (map (cancel_row id) rows) ≡ rows_of j rows
rows_of-cancel_other id j [] ne = refl
rows_of-cancel_other id j (r ∷ rs) ne =
    ground (arith, rows_of-cancel_other id j rs ne, ===_iff r.order_id id, ===_iff r.order_id j)

module _ (uuid : ℕ → String) (now : ℕ) (def : ProcessDefinition) (id state : String) where
  new_own :
      (o : Option StateTimer) (rows : List ScheduledTransition)
      → NewTimers uuid now def id state o rows
      → live_keys id rows ≡ timer_keys state o
  unfolding timer_row
  new_own none rows e = rw e
  new_own (some timer) rows (created, ms, _, e) = rw (e, (===_iff id id).1 refl)

  new_other :
      (j : String) (o : Option StateTimer) (rows : List ScheduledTransition)
      → id ≢ j
      → NewTimers uuid now def id state o rows
      → live_keys j rows ≡ []
  unfolding timer_row
  new_other j none rows ne e = rw e
  new_other j (some timer) rows ne (created, ms, _, e) = rw e (ground (arith, ===_iff id j))

  -- After a transition the order's pending timers are those of its new state.
  pub TimersSet-own :
      (before after : List ScheduledTransition)
      → TimersSet uuid now def id state before after
      → live_keys id after ≡ timer_keys state (lookup state def.state_timers)
  TimersSet-own before after (rows, new, e) =
      rw (e, live_keys-append id (map (cancel_row id) before) rows, live_keys-cancel_own id before)
        (new_own (lookup state def.state_timers) rows new)

  -- No other order's pending timers change.
  pub TimersSet-other :
      (j : String) (before after : List ScheduledTransition)
      → id ≢ j
      → TimersSet uuid now def id state before after
      → live_keys j after ≡ live_keys j before
  TimersSet-other j before after ne (rows, new, e) =
      rw
        (
          e,
          live_keys-append j (map (cancel_row id) before) rows,
          live_keys-cancel_other id j before ne,
          new_other j (lookup state def.state_timers) rows ne new,
        )
        (append-nil (live_keys j before))

  new_rows_other :
      (j : String) (o : Option StateTimer) (rows : List ScheduledTransition)
      → id ≢ j
      → NewTimers uuid now def id state o rows
      → rows_of j rows ≡ []
  unfolding timer_row
  new_rows_other j none rows ne e = rw e refl
  new_rows_other j (some timer) rows ne (created, ms, _, e) = rw e (ground (arith, ===_iff id j))

  -- No timer row of another order changes, is removed or is added.
  pub TimersSet-rows_of :
      (j : String) (before after : List ScheduledTransition)
      → id ≢ j
      → TimersSet uuid now def id state before after
      → rows_of j after ≡ rows_of j before
  TimersSet-rows_of j before after ne (rows, new, e) =
      rw
        (
          e,
          filter-append (λ (r : ScheduledTransition). r.order_id === j) (map (cancel_row id) before)
              rows,
          rows_of-cancel_other id j before ne,
          new_rows_other j (lookup state def.state_timers) rows ne new,
        )
        (append-nil (rows_of j before))
