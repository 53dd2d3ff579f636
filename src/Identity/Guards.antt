-- ===== src/Identity/Guards.antt =====
-- src/modules/identity/guards, src/modules/admin/guards/operator.guard.ts and
-- src/common/http/cookies.util.ts: who a request is from, and what it may do.
use Prim.Native.Char.{Char, code}
use pastel_marketplace.Base.{
  ℕ, String, Bool, false, Option, none, some, List, [], ◌∷◌, not, if◌then◌else◌, find?, ltb, ◌==◌,
}
use pastel_marketplace.Base.Text.{◌===◌, ◌⊕◌, split, trim}
use pastel_marketplace.Base.Result.{
  Result, Exception, ok, err, unauthorized, forbidden, error, throw_if, ◌>>=◌,
}
use pastel_marketplace.Accounts.{Accounts, UserPermission, Scope, public_read, user, trusted}
use pastel_marketplace.Identity.Platform.{Platform, AuthConfig, AccessClaims}
use pastel_marketplace.Identity.Tokens.{Principal, verify_access}

-- The headers that the guards read.
pub record Request : Type 0 where
  pub native_token : Option String
  pub authorization : Option String
  pub cookie : Option String
  pub operator_secret : Option String

abbrev pub anonymous : Principal
anonymous = record { user_id = none; scope = public_read; user_type = none }

-- A header that is present and not empty.
abbrev pub truthy : Option String → Option String
truthy none = none
truthy (some s) = if s === "" then none else some s

-- `authz.startsWith(prefix) ? authz.slice(prefix.length)`
unfoldable pub after_prefix : String → String → Option String
after_prefix String.[] s = some s
after_prefix (String.◌∷◌ c p) String.[] = none
after_prefix (String.◌∷◌ c p) (String.◌∷◌ d s) =
    let rest = after_prefix p s in if code c == code d then rest else none

abbrev before : Char → Option (String × String) → Option (String × String)
before c none = none
before c (some (s, t)) = some (String.◌∷◌ c s, t)

-- What is in front of the first separator, and what is behind it.
unfoldable pub cut : Char → String → Option (String × String)
cut sep String.[] = none
cut sep (String.◌∷◌ c s) =
    let rest = cut sep s in if code c == code sep then some (String.[], s) else before c rest

-- The raw value of a part of the Cookie header that has the name.
unfoldable pub named_value : String → String → Option String
unfolding cut trim
named_value name part = elim (cut "=" part) [
  | none ↦ none
  | some nv ↦ if trim (nv.0) === name then some (trim (nv.1)) else none
]

unfoldable pub first_value : String → List String → Option String
unfolding named_value
first_value name [] = none
first_value name (part ∷ parts) =
    let rest = first_value name parts in
    elim (named_value name part) [ none ↦ rest | some v ↦ some v ]

abbrev malformed_uri : Exception
malformed_uri = error "URI malformed"

abbrev decoded : (String → Option String) → Option String → Result (Option String)
decoded decode none = ok none
decoded decode (some v) = elim (decode v) [ none ↦ err malformed_uri | some t ↦ ok (some t) ]

-- `decode` is `decodeURIComponent`, which throws on a malformed text.
unfoldable pub parse_cookie : (String → Option String) → Request → String → Result (Option String)
unfolding first_value split
parse_cookie decode req name = elim (truthy req.cookie) [
  | none ↦ ok none
  | some header ↦ decoded decode (first_value name (split ";" header))
]

abbrev pub bearer : Option String → Option String
bearer none = none
bearer (some authz) = after_prefix "Bearer " authz

unfoldable pub extract_token : (String → Option String) → String → Request → Result (Option String)
unfolding parse_cookie after_prefix
extract_token decode cookie_name req = elim (truthy req.native_token) [
  | some native ↦ ok (some native)
  | none ↦ elim (bearer req.authorization) [
    | some token ↦ ok (some token)
    | none ↦ parse_cookie decode req cookie_name
  ]
]

abbrev pub principal_of : AccessClaims → Principal
principal_of claims = record {
  user_id = some claims.sub;
  scope = claims.scope;
  user_type = some claims.user_type;
}

-- `AuthGuard.canActivate`: the principal it puts on the request.
module _ (p : Platform) (config : AuthConfig) (now : ℕ) where
  unfoldable pub resolved : Option String → Result Principal
  unfolding verify_access
  resolved none = ok anonymous
  resolved (some raw) = do claims ← verify_access p config now raw; ok (principal_of claims)

  unfoldable pub authenticate : (String → Option String) → String → Request → Result Principal
  unfolding extract_token resolved
  authenticate decode cookie_name req = do
    raw ← extract_token decode cookie_name req
    resolved (truthy raw)

abbrev pub rank : Scope → ℕ
rank public_read = 0
rank user = 1
rank trusted = 2

-- `Math.max(...required.map((s) => RANK[s]))` for a list that is not empty
unfoldable pub need : List Scope → ℕ
need [] = 0
need (s ∷ ss) = let rest = need ss in if ltb rest (rank s) then rank s else rest

abbrev authentication_required : Exception
authentication_required = unauthorized "Authentication required"

abbrev lacking : Scope → Exception
lacking public_read = authentication_required
lacking _ = forbidden "Insufficient scope"

-- `ScopesGuard.canActivate`; a handler without scopes asks for none.
unfoldable pub check_scopes : List Scope → Principal → Result (Unit {0})
unfolding need
check_scopes [] me = ok tt
check_scopes (s ∷ ss) me = throw_if (ltb (rank me.scope) (need (s ∷ ss))) (lacking me.scope)

pub data PermissionFlag : Type 0 where
  post_listings initiate_tx read : PermissionFlag

abbrev flag_name : PermissionFlag → String
flag_name post_listings = "postListings"
flag_name initiate_tx = "initiateTx"
flag_name read = "read"

abbrev pub flag_value : PermissionFlag → Option UserPermission → String
flag_value flag none = "permission/allow"
flag_value post_listings (some perm) = perm.post_listings
flag_value initiate_tx (some perm) = perm.initiate_tx
flag_value read (some perm) = perm.read

abbrev pub permission_of : String → UserPermission → Bool
permission_of id perm = perm.user_id === id

-- `PermissionsGuard.canActivate`; a handler may ask for no flag.
unfoldable pub check_permission : Option PermissionFlag → Principal → Accounts → Result (Unit {0})
check_permission none me db = ok tt
check_permission (some flag) me db = elim (truthy me.user_id) [
  | none ↦ err (forbidden "Authentication required")
  | some id ↦
      throw_if (flag_value flag (find? (permission_of id) db.permissions) === "permission/deny")
        (forbidden ("Permission denied: " ⊕ flag_name flag))
]

-- The comparison in constant time is equality of the two texts.
abbrev pub constant_time_equals : Option String → String → Bool
constant_time_equals none expected = false
constant_time_equals (some provided) expected =
    if provided === "" then false else provided === expected

abbrev holds_secret : Option String → Request → Bool
holds_secret none req = false
holds_secret (some secret) req = constant_time_equals req.operator_secret secret

-- `OperatorGuard.canActivate`; `secret` is the configured one.
unfoldable pub check_operator : Option String → Request → Principal → Result (Unit {0})
check_operator secret req me = elim (truthy me.user_id) [
  | none ↦ err authentication_required
  | some id ↦
      throw_if (not (holds_secret (truthy secret) req)) (forbidden "Operator credential required")
]
