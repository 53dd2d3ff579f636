-- ===== src/Process/Timers.antt =====
-- The timers of the instant purchase.
use pastel_marketplace.Base.{
  ℕ, ◌≡◌, refl, String, Bool, true, false, Option, none, some, List, [], ◌∷◌, ◌&&◌, arith, find?,
}
use pastel_marketplace.Base.Text.{◌===◌, ===_iff}
use pastel_marketplace.Base.Result.{Result, ok, err}
use pastel_marketplace.Process.{
  system, TransitionDef, StateTimer, lookup, includes, includes_actor, instant_purchase,
}
use pastel_marketplace.Process.Duration.{duration_to_ms}

-- The transition of a timer exists, starts from the timer's state, may be made by the system, and
-- the duration can be read.
pub record CanFire (state : String) (timer : StateTimer) : Type 0 where
  pub t : TransitionDef
  pub ms : ℕ
  pub found : find? (λ x. x.name === timer.transition) instant_purchase.transitions ≡ some t
  pub from_state : includes t.from state ≡ true
  pub by_system : includes_actor t.actor system ≡ true
  pub duration : duration_to_ms timer.after ≡ ok ms

abbrev is_ok : Result ℕ → Bool
is_ok (ok a) = true
is_ok (err e) = false

abbrev starts : Option TransitionDef → String → Bool
starts none state = false
starts (some t) state = includes t.from state && includes_actor t.actor system

abbrev all_timers : (String → StateTimer → Bool) → List (String × StateTimer) → Bool
all_timers p [] = true
all_timers p ((k, v) ∷ rest) = p k v && all_timers p rest

abbrev named : String → Option TransitionDef
named name = find? (λ x. x.name === name) instant_purchase.transitions

abbrev can_fire : String → StateTimer → Bool
can_fire state timer = is_ok (duration_to_ms timer.after) && starts (named timer.transition) state

can_fire_all : all_timers can_fire instant_purchase.state_timers ≡ true
unfolding instant_purchase duration_to_ms
can_fire_all = refl

all_timers-lookup :
    (p : String → StateTimer → Bool) (xs : List (String × StateTimer)) (state : String)
    (timer : StateTimer)
    → all_timers p xs ≡ true
    → lookup state xs ≡ some timer
    → p state timer ≡ true
all_timers-lookup p [] state timer h e = cc
all_timers-lookup p ((k, v) ∷ rest) state timer h e =
    ground (arith, ===_iff k state, all_timers-lookup p rest state timer)

is_ok-inv : (r : Result ℕ) → is_ok r ≡ true → (ms : ℕ) × (r ≡ ok ms)
is_ok-inv (ok ms) h = (ms, refl)
is_ok-inv (err e) h = cc

starts-inv :
    (o : Option TransitionDef) (state : String)
    → starts o state ≡ true
    → (t : TransitionDef) × (o ≡ some t)
      × (includes t.from state ≡ true)
      × (includes_actor t.actor system ≡ true)
starts-inv none state h = cc
starts-inv (some t) state h = (t, refl, ground arith, ground arith)

-- Every timer of a state can fire: its transition exists, starts from that state, and may be made
-- by the system, and its duration can be read.
pub timer-CanFire :
    (state : String) (timer : StateTimer)
    → lookup state instant_purchase.state_timers ≡ some timer
    → CanFire state timer
timer-CanFire state timer h =
    let fires = all_timers-lookup can_fire _ state timer can_fire_all h in
    let (ms, read) = is_ok-inv (duration_to_ms timer.after) (ground arith) in
    let (t, found, from_state, by_system) =
      starts-inv (named timer.transition) state (ground arith) in
    record {
      t = t;
      ms = ms;
      found = found;
      from_state = from_state;
      by_system = by_system;
      duration = read;
    }
