-- ===== src/Orders/Invariant.antt =====
-- What holds of every order between two transitions: the escrow, the refunds and the timers agree
-- with the order's state.
pub mod Timers
use pastel_marketplace.Base.{
  ℕ, ◌≤◌, ◌≡◌, ◌≢◌, refl, sym, ap, ◌∙◌, String, Bool, true, false, Option, none, some, List, [],
  ◌∷◌, ◌++◌, map, arith, not, ◌&&◌, ◌||◌, if◌then◌else◌, filter, filter-append, length,
  length-append, Bool-cases, inl, inr, ◌⊎◌, find?,
}
use pastel_marketplace.Base.Text.{◌===◌, ===_iff}
use pastel_marketplace.Process.{
  Actor, TransitionDef, lookup, includes, instant_purchase, instant_purchase_transitions,
}
use pastel_marketplace.Process.Table.{holds_of_all, table_fact}
use pastel_marketplace.Database.{Db, Order, Refund, Payout, put, put_self, put_ne}
use pastel_marketplace.Orders.Machine.{ApplyOpts, advanced, is_payout}
use pastel_marketplace.Orders.Steps.{IsLegal, alias}
use pastel_marketplace.Orders.Effects.{is_refund, pays}
use pastel_marketplace.Orders.Commit.{Performed}
use mathlib.Core.Path.{subst₂}
use mathlib.Core.List.{append-nil}
use pastel_marketplace.Orders.Actions.{Totals}
use Timers.{live_keys, timer_keys, TimersSet-own, TimersSet-other}

-- The states behind the payout, the irreversibility boundary.
abbrev pub is_released : String → Bool
is_released = includes ("received" ∷ "completed" ∷ "reviewed" ∷ [])

abbrev pub is_canceled : String → Bool
is_canceled s = s === "canceled"

abbrev pub is_some {ℓ} : {A : Type ℓ} → Option A → Bool
is_some none = false
is_some (some a) = true

-- The refunds of an order.
abbrev pub refunds_of : String → List Refund → List Refund
refunds_of id = filter (λ r. r.order_id === id)

-- The order's money and timers agree with its state: the payout is released, and a payout row
-- exists, exactly in the states behind the boundary; only a canceled order has been refunded, and
-- at most once; and the pending timers are those of the state.
pub record IsSound (d : Db) (id : String) (o : Order) : Type 0 where
  pub own : o.id ≡ id
  pub in_process : o.process_alias ≡ alias
  pub released : o.payout_released ≡ is_released o.state
  pub paid : is_some (d.payout id) ≡ o.payout_released
  pub unrefunded : is_canceled o.state ≡ false → refunds_of id d.refund ≡ []
  pub refunded_once : length (refunds_of id d.refund) ≤ 1
  pub timers :
      live_keys id d.scheduled_transition
      ≡ timer_keys o.state (lookup o.state instant_purchase.state_timers)

abbrev pub IsConsistent : Db → Type 0
IsConsistent d = (id : String) (o : Order) → d.order id ≡ some o → IsSound d id o

abbrev same_bool : Bool → Bool → Bool
same_bool true b = b
same_bool false b = not b

-- A transition enters the released states exactly by a payout, or from one of them.
abbrev releases_right : TransitionDef → String → Bool
releases_right t s = same_bool (is_released t.to) (is_released s || is_payout t.action)

-- A payout starts before the boundary.
abbrev pays_before : TransitionDef → String → Bool
pays_before t s = not (is_payout t.action && is_released s)

-- A transition cancels exactly by a refund, and never starts from `canceled`.
abbrev refunds_right : TransitionDef → String → Bool
refunds_right t s = same_bool (is_canceled t.to) (is_refund t.action) && not (is_canceled s)

releases_right_all : holds_of_all releases_right instant_purchase.transitions ≡ true
unfolding instant_purchase
releases_right_all = refl

pays_before_all : holds_of_all pays_before instant_purchase.transitions ≡ true
unfolding instant_purchase
pays_before_all = refl

refunds_right_all : holds_of_all refunds_right instant_purchase.transitions ≡ true
unfolding instant_purchase
refunds_right_all = refl

module _ {order : Order} {name : String} {actor : Actor} {t : TransitionDef} where
  fact :
      (test : TransitionDef → String → Bool)
      → holds_of_all test instant_purchase.transitions ≡ true
      → IsLegal order name actor t
      → test t order.state ≡ true
  fact test all legal = table_fact test _ name t order.state all legal.found legal.from_state

-- What a transition leaves in the order's row.
pub advanced_lem :
    (order : Order) (t : TransitionDef) (name : String) (totals : Option Totals) (now : ℕ)
    → let o = advanced order t name totals now in
      (o.id ≡ order.id)
      × (o.process_alias ≡ order.process_alias)
      × (o.state ≡ t.to)
      × (o.payout_released ≡ (is_payout t.action || order.payout_released))
unfolding advanced
advanced_lem order t name totals now = ground arith

refunds_of-other :
    (id j : String) (r : Refund) (rs : List Refund)
    → id ≢ j
    → r.order_id ≡ id
    → refunds_of j (rs ++ r ∷ []) ≡ refunds_of j rs
refunds_of-other id j r rs ne own =
    rw filter-append (ground (arith, ===_iff r.order_id j, append-nil (refunds_of j rs)))

refunds_of-own :
    (id : String) (r : Refund) (rs : List Refund)
    → refunds_of id rs ≡ []
    → r.order_id ≡ id
    → length (refunds_of id (rs ++ r ∷ [])) ≤ 1
refunds_of-own id r rs e own = rw (filter-append, e) (ground arith)

module _ (uuid : ℕ → String) (now : ℕ) (id : String) (order : Order) (t : TransitionDef)
    (name : String) (actor : Actor) (opts : ApplyOpts) (o' : Order) (d d' : Db)
    (legal : IsLegal order name actor t)
    (done : Performed uuid now id order instant_purchase t name actor opts o' d d')
    (sound : IsSound d id order) where
  moved :
      (o'.id ≡ order.id)
      × (o'.process_alias ≡ order.process_alias)
      × (o'.state ≡ t.to)
      × (o'.payout_released ≡ (is_payout t.action || order.payout_released))
  moved = rw done.updated (advanced_lem order t name done.totals now)

  released_facts :
      (t_to : Bool) → is_released t.to ≡ t_to → (is_payout t.action || order.payout_released) ≡ t_to
  released_facts b e =
      let right = fact releases_right releases_right_all legal in ground (arith, sound.released)

  performed-paid : is_some (d'.payout id) ≡ o'.payout_released
  performed-paid = elim (Bool-cases (pays order t.action)) [
    | inl first ↦
        let (p, e) = done.paid first in
        rw (e, sound.own, put_self d.payout id p) (ground (arith, moved.3))
    | inr not_first ↦ rw (done.not_paid not_first) (
        ground (arith, moved.3, sound.paid, fact pays_before pays_before_all legal, sound.released))
  ]

  none_before : refunds_of id d.refund ≡ []
  none_before = sound.unrefunded (ground (arith, fact refunds_right refunds_right_all legal))

  refund_facts : is_canceled t.to ≡ false → is_refund t.action ≡ false
  refund_facts e = ground (arith, fact refunds_right refunds_right_all legal)

  performed-once : length (refunds_of id d'.refund) ≤ 1
  performed-once = elim (Bool-cases (is_refund t.action)) [
    | inl refunds ↦ elim (done.refunded refunds) [
      | inl same ↦ rw (same, none_before) (omega arith)
      | inr (r, own, more) ↦ rw more (refunds_of-own id r d.refund none_before (own ∙ sound.own))
    ]
    | inr keeps ↦ rw (done.not_refunded keeps, none_before) (omega arith)
  ]

  -- The moved order is sound after the transition.
  performed-own : IsSound d' id o'
  performed-own = record {
    own = moved.0 ∙ sound.own;
    in_process = moved.1 ∙ sound.in_process;
    released = moved.3 ∙ rw moved.2 (released_facts (is_released t.to) refl);
    paid = performed-paid;
    unrefunded = λ e. rw (done.not_refunded (refund_facts (rw moved.2 at e))) none_before;
    refunded_once = performed-once;
    timers = rw moved.2 (
        TimersSet-own uuid now instant_purchase id t.to d.scheduled_transition
          d'.scheduled_transition done.timers);
  }

  payout_other : (j : String) → id ≢ j → d'.payout j ≡ d.payout j
  payout_other j ne = elim (Bool-cases (pays order t.action)) [
    | inl first ↦ let (p, e) = done.paid first in rw (e, sound.own) (put_ne d.payout id j p ne)
    | inr not_first ↦ rw (done.not_paid not_first)
  ]

  refunds_other : (j : String) → id ≢ j → refunds_of j d'.refund ≡ refunds_of j d.refund
  refunds_other j ne = elim (Bool-cases (is_refund t.action)) [
    | inl refunds ↦ elim (done.refunded refunds) [
      | inl same ↦ rw same
      | inr (r, own, more) ↦ rw more (refunds_of-other id j r d.refund ne (own ∙ sound.own))
    ]
    | inr keeps ↦ rw (done.not_refunded keeps)
  ]

  -- So is every other order.
  performed-other : (j : String) (o : Order) → id ≢ j → IsSound d j o → IsSound d' j o
  performed-other j o ne s = record {
    own = s.own;
    in_process = s.in_process;
    released = s.released;
    paid = rw (payout_other j ne) s.paid;
    unrefunded = λ e. rw (refunds_other j ne) (s.unrefunded e);
    refunded_once = rw (refunds_other j ne) s.refunded_once;
    timers =
        TimersSet-other uuid now instant_purchase id t.to j d.scheduled_transition
          d'.scheduled_transition ne done.timers
        ∙ s.timers;
  }

  pub performed-IsConsistent : IsConsistent d → IsConsistent d'
  performed-IsConsistent all j o e = elim (Bool-cases (id === j)) [
    | inl same ↦
        let ej = (===_iff id j).0 same in
        let eo : o' ≡ o = ground (arith, ap (λ m. m j) done.row) in
        subst₂ (λ k x. IsSound d' k x) ej eo performed-own
    | inr other ↦
        let ne : id ≢ j = ground (arith, ===_iff id j) in
        let eo : d.order j ≡ some o = ground (arith, ap (λ m. m j) done.row) in
        performed-other j o ne (all j o eo)
  ]
