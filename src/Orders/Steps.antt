-- ===== src/Orders/Steps.antt =====
-- What the guards in front of a transition establish.
use pastel_marketplace.Base.{
  ◌≡◌, refl, sym, ◌∙◌, String, Bool, true, false, some, [], ◌∷◌, arith, not, find?,
}
use pastel_marketplace.Base.Text.{◌===◌, ===_iff}
use pastel_marketplace.Base.Result.{ok, throw_if, or_throw, throw_if-ok, or_throw-ok, >>=-eq-ok}
use pastel_marketplace.Process.{
  Actor, TransitionDef, ProcessDefinition, lookup, includes, includes_actor, instant_purchase,
}
use pastel_marketplace.Database.{Order}
use pastel_marketplace.Orders.Machine.{registry, check_transition}

abbrev pub alias : String
alias = "instant-purchase/release-14"

-- What the guards establish.
pub record IsLegal (order : Order) (name : String) (actor : Actor) (t : TransitionDef)
    : Type 0 where
  pub in_process : order.process_alias ≡ alias
  pub found : find? (λ x. x.name === name) instant_purchase.transitions ≡ some t
  pub from_state : includes t.from order.state ≡ true
  pub by_actor : includes_actor t.actor actor ≡ true

not-eq-false : (b : Bool) → not b ≡ false → b ≡ true
not-eq-false true h = refl
not-eq-false false h = cc

pub lookup_single {ℓ} :
    {A : Type ℓ} (k a : String) (v : A) {d : A}
    → lookup a ((k, v) ∷ []) ≡ some d
    → (a ≡ k) × (d ≡ v)
lookup_single k a v h = ground (arith, ===_iff k a)

pub check_transition-ok :
    (order : Order) (name : String) (actor : Actor) {def : ProcessDefinition} {t : TransitionDef}
    → check_transition order name actor ≡ ok (def, t)
    → (def ≡ instant_purchase) × IsLegal order name actor t
unfolding check_transition registry
check_transition-ok order name actor {def} {t} h =
    let (def', e1, h1) = >>=-eq-ok (or_throw (lookup order.process_alias registry) _) _ h in
    let (t', e2, h2) =
      >>=-eq-ok (or_throw (find? (λ x. x.name === name) def'.transitions) _) _ h1 in
    let (_, e3, h3) = >>=-eq-ok (throw_if (not (includes t'.from order.state)) _) _ h2 in
    let (_, e4, h4) = >>=-eq-ok (throw_if (not (includes_actor t'.actor actor)) _) _ h3 in
    let (same_alias, same_def) =
      lookup_single alias order.process_alias instant_purchase (or_throw-ok _ _ e1) in
    let same : def' ≡ def = cc in
    let same_t : t' ≡ t = cc in
    (
      sym same ∙ same_def,
      record {
        in_process = same_alias;
        found = rw (← same_def, ← same_t) (or_throw-ok _ _ e2);
        from_state = rw (← same_t) (not-eq-false _ (throw_if-ok _ _ e3));
        by_actor = rw (← same_t) (not-eq-false _ (throw_if-ok _ _ e4));
      },
    )
