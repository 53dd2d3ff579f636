-- ===== src/Identity/Access.antt =====
-- From a sign-in to a guarded request: the laws of the guards.
use pastel_marketplace.Base.{
  ℕ, ◌+◌, ◌*◌, ◌≤◌, ◌≡◌, refl, ap, ◌∙◌, String, Bool, true, false, Option, none, some, List, [],
  ◌∷◌, not, ◌&&◌, inl, inr, or_else, Bool-cases, Option-cases, arith, ◌↔◌, leb, ltb,
}
use mathlib.Core.Path.{subst}
use pastel_marketplace.Base.Rows.{some_inj}
use pastel_marketplace.Base.Text.{◌===◌, ===_iff}
use pastel_marketplace.Base.Result.{Exception, ok, forbidden, throw_if, ◌>>=◌}
use pastel_marketplace.Accounts.{Scope, user}
use pastel_marketplace.Identity.Platform.{Platform, AuthConfig, AccessClaims, IsPlatform}
use pastel_marketplace.Identity.Tokens.{Principal, UserPrincipal, sign_access, verify_access}
use pastel_marketplace.Identity.Guards.{
  Request, principal_of, truthy, extract_token, authenticate, resolved, rank, need, check_scopes,
  check_operator, constant_time_equals,
}

abbrev pub satisfies : Scope → List Scope → Bool
satisfies scope [] = true
satisfies scope (s ∷ ss) = leb (rank s) (rank scope) && satisfies scope ss

need_lem : (scope : Scope) (ss : List Scope) → ltb (rank scope) (need ss) ≡ not (satisfies scope ss)
unfolding need
need_lem scope [] = ground arith
need_lem scope (s ∷ ss) = ground (arith, need_lem scope ss)

throw_if_iff : (b c : Bool) (e : Exception) → b ≡ not c → (throw_if b e ≡ ok tt) ↔ (c ≡ true)
throw_if_iff true true e h = (λ x. cc, λ y. cc)
throw_if_iff true false e h = (λ x. cc, λ y. cc)
throw_if_iff false true e h = (λ x. refl, λ y. refl)
throw_if_iff false false e h = (λ x. cc, λ y. cc)

-- The scopes guard lets a caller through exactly where its rank reaches every scope that is asked
-- for; the maximum of the ranks is as good as each of them.
pub check_scopes_iff :
    (required : List Scope) (me : Principal)
    → (check_scopes required me ≡ ok tt) ↔ (satisfies me.scope required ≡ true)
unfolding check_scopes
check_scopes_iff [] me = (λ h. refl, λ h. refl)
check_scopes_iff (s ∷ ss) me = throw_if_iff _ _ _ (need_lem me.scope (s ∷ ss))

extract_token-native :
    (decode : String → Option String) (cookie_name : String) (req : Request) (token : String)
    → truthy req.native_token ≡ some token
    → extract_token decode cookie_name req ≡ ok (some token)
unfolding extract_token
extract_token-native decode cookie_name req token h = rw (h, extract_token) refl

module _ (p : Platform) (config : AuthConfig) where
  -- The access token of a user, which is no empty text, is accepted in the native header up to a
  -- second before its time to live is over (times are in milliseconds, the time to live in seconds),
  -- whatever the other headers of the request hold, a stale cookie for one; the request is then from
  -- that user, and a handler that asks for the scope of users lets it through. So it is for every
  -- `ver` and whatever has become of the account: neither is looked at. The platform keeps its laws.
  pub authenticate-sign :
      (now later : ℕ) (who : UserPrincipal) (ver : ℕ) (decode : String → Option String)
      (cookie_name : String) (req : Request)
      → IsPlatform p
      → later + 1000 ≤ now + config.access_ttl * 1000
      → who.scope ≡ user
      → req.native_token ≡ some (sign_access p config now who ver)
      → (sign_access p config now who ver === "") ≡ false
      → (me : Principal) × (authenticate p config later decode cookie_name req ≡ ok me)
        × (me.user_id ≡ some who.user_id)
        × (check_scopes (user ∷ []) me ≡ ok tt)
  unfolding authenticate extract_token resolved verify_access sign_access check_scopes need
  authenticate-sign now later who ver decode cookie_name req laws early scoped sent filled =
      let token = sign_access p config now who ver in
      let claims : AccessClaims = record {
        sub = who.user_id;
        scope = who.scope;
        user_type = or_else who.user_type "customer";
        ver = ver;
      } in
      let run : authenticate p config later decode cookie_name req ≡ ok (principal_of claims) =
        ap (λ raw. raw >>= λ r. resolved p config later (truthy r))
          (extract_token-native decode cookie_name req token (ap truthy sent ∙ rw filled refl))
        ∙ rw (filled, laws.verify-sign now config.access_ttl later claims early) refl in
      (principal_of claims, run, refl, rw scoped refl)

sent_secret :
    (sent : Option String) (s : String)
    → throw_if (not (constant_time_equals sent s)) (forbidden "Operator credential required")
      ≡ ok tt
    → sent ≡ some s
sent_secret none s h = cc
sent_secret (some t) s h = elim (Bool-cases (t === "")) [
  | inl empty ↦ cc (rw empty at h)
  | inr filled ↦ elim (Bool-cases (t === s)) [
    | inl same ↦ ap some ((===_iff t s).0 same)
    | inr other ↦ cc (rw (filled, other) at h)
  ]
]

truthy-filled : (o : Option String) (s : String) → truthy o ≡ some s → (s === "") ≡ false
truthy-filled none s h = cc
truthy-filled (some t) s h = elim (Bool-cases (t === "")) [
  | inl empty ↦ cc (rw empty at h)
  | inr filled ↦ subst (λ u. (u === "") ≡ false) (some_inj (rw filled at h)) filled
]

-- A caller passes the operator guard exactly where it is signed in and sends the configured secret;
-- without a configured secret, nobody passes.
pub check_operator_iff :
    (secret : Option String) (req : Request) (me : Principal)
    → (check_operator secret req me ≡ ok tt) ↔ (
        (id : String) × (s : String) × (truthy me.user_id ≡ some id)
        × (truthy secret ≡ some s)
        × (req.operator_secret ≡ some s))
unfolding check_operator
check_operator_iff secret req me = (
  λ passed. elim (Option-cases (truthy me.user_id)) [
    | inl absent ↦ cc (rw (absent, check_operator) at passed)
    | inr (id, signed) ↦ elim (Option-cases (truthy secret)) [
      | inl absent ↦ cc (rw (signed, absent, check_operator) at passed)
      | inr (s, configured) ↦ (
        id,
        s,
        signed,
        configured,
        sent_secret req.operator_secret s (rw (signed, configured, check_operator) at passed),
      )
    ]
  ],
  λ h.
      let (id, s, signed, configured, sent) = h in
      rw
        (
          signed,
          configured,
          sent,
          check_operator,
          truthy-filled secret s configured,
          (===_iff s s).1 refl,
        )
        refl,
)
