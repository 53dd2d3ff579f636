-- ===== src/Process.antt =====
-- src/modules/orders/process: process definitions as data, and ISO-8601 durations.
pub mod Duration
pub mod Table
pub mod Timers
use pastel_marketplace.Base.{
  String, Bool, true, false, Option, none, some, List, [], ◌∷◌, any, if◌then◌else◌,
}
use pastel_marketplace.Base.Text.{◌===◌}

pub data Actor : Type 0 where
  customer provider operator system : Actor

pub data TransitionAction : Type 0 where
  create_payment_intent confirm_capture cancel_payment_intent payout refund_full : TransitionAction

-- `privileged?` is false where it is absent.
pub record TransitionDef : Type 0 where
  pub name : String
  pub from : List String
  pub to : String
  pub actor : List Actor
  pub privileged : Bool
  pub action : Option TransitionAction

pub record StateTimer : Type 0 where
  pub after : String
  pub transition : String

-- The names of `OrderProcess`.
pub data OrderProcess : Type 0 where
  instant_purchase_process default_purchase cart_stock inquiry booking : OrderProcess

pub record ProcessDefinition : Type 0 where
  pub alias : String
  pub name : OrderProcess
  pub initial : String
  pub states : List String
  pub transitions : List TransitionDef
  pub state_timers : List (String × StateTimer)
  pub immediate_next : List (String × String)

-- `record[key]`
abbrev pub lookup {ℓ} : {A : Type ℓ} → String → List (String × A) → Option A
lookup key [] = none
lookup key ((k, v) ∷ rest) = if k === key then some v else lookup key rest

-- `xs.includes(x)`
abbrev pub includes : List String → String → Bool
includes xs x = any (λ y. y === x) xs

abbrev pub is_actor : Actor → Actor → Bool
is_actor customer customer = true
is_actor provider provider = true
is_actor operator operator = true
is_actor system system = true
is_actor _ _ = false

abbrev pub includes_actor : List Actor → Actor → Bool
includes_actor xs x = any (λ y. is_actor y x) xs

abbrev plain : String → List String → String → List Actor → TransitionDef
plain name from to actor = record {
  name = name;
  from = from;
  to = to;
  actor = actor;
  privileged = false;
  action = none;
}

abbrev acting : String → List String → String → List Actor → TransitionAction → TransitionDef
acting name from to actor action = record {
  name = name;
  from = from;
  to = to;
  actor = actor;
  privileged = false;
  action = some action;
}

abbrev with_privilege : TransitionDef → TransitionDef
with_privilege t = record t { privileged = true }

-- `INSTANT_PURCHASE.transitions`
unfoldable pub instant_purchase_transitions : List TransitionDef
instant_purchase_transitions =
    with_privilege (
      acting "request-payment" ("initial" ∷ []) "pending-payment" (customer ∷ [])
        create_payment_intent)
    ∷ with_privilege (
        acting "confirm-payment" ("pending-payment" ∷ []) "purchased" (customer ∷ [])
          confirm_capture)
    ∷ acting "expire-payment" ("pending-payment" ∷ []) "payment-expired" (system ∷ [])
        cancel_payment_intent
    ∷ plain "confirm-order" ("purchased" ∷ []) "pending-shipment" (provider ∷ operator ∷ [])
    ∷ plain "mark-shipped" ("pending-shipment" ∷ []) "shipped" (provider ∷ operator ∷ [])
    ∷ plain "mark-delivered" ("shipped" ∷ []) "delivered" (provider ∷ system ∷ operator ∷ [])
    ∷ acting "mark-received" ("delivered" ∷ []) "received" (customer ∷ []) payout
    ∷ acting "auto-mark-received" ("delivered" ∷ []) "received" (system ∷ []) payout
    ∷ plain "mark-completed" ("received" ∷ []) "completed" (system ∷ [])
    ∷ acting "auto-cancel" ("purchased" ∷ []) "canceled" (system ∷ []) refund_full
    ∷ plain "dispute" ("pending-shipment" ∷ "shipped" ∷ "delivered" ∷ []) "disputed" (customer ∷ [])
    ∷ acting "approve-refund" ("disputed" ∷ "escalated-dispute" ∷ []) "canceled"
        (provider ∷ operator ∷ []) refund_full
    ∷ plain "decline-dispute" ("disputed" ∷ []) "escalated-dispute" (provider ∷ [])
    ∷ plain "auto-escalate-dispute" ("disputed" ∷ []) "escalated-dispute" (system ∷ [])
    ∷ acting "resolve-release" ("escalated-dispute" ∷ []) "received" (operator ∷ []) payout
    ∷ plain "expire-review-period" ("completed" ∷ []) "reviewed" (system ∷ [])
    ∷ []

abbrev timer : String → String → String → String × StateTimer
timer state after transition = (state, record { after = after; transition = transition })

-- `INSTANT_PURCHASE.stateTimers`
unfoldable pub instant_purchase_timers : List (String × StateTimer)
instant_purchase_timers =
    timer "pending-payment" "PT15M" "expire-payment"
    ∷ timer "purchased" "P3D" "auto-cancel"
    ∷ timer "delivered" "P14D" "auto-mark-received"
    ∷ timer "disputed" "P3D" "auto-escalate-dispute"
    ∷ timer "completed" "P7D" "expire-review-period"
    ∷ []

-- `INSTANT_PURCHASE`
unfoldable pub instant_purchase : ProcessDefinition
unfolding instant_purchase_transitions instant_purchase_timers
instant_purchase = record {
  alias = "instant-purchase/release-14";
  name = instant_purchase_process;
  initial = "initial";
  states =
      "initial" ∷ "pending-payment" ∷ "payment-expired" ∷ "purchased" ∷ "pending-shipment"
      ∷ "shipped" ∷ "delivered" ∷ "received" ∷ "completed" ∷ "reviewed" ∷ "canceled" ∷ "disputed"
      ∷ "escalated-dispute" ∷ [];
  transitions = instant_purchase_transitions;
  state_timers = instant_purchase_timers;
  immediate_next = ("received", "mark-completed") ∷ [];
}
