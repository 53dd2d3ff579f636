-- ===== src/Identity/Tokens.antt =====
-- src/modules/identity/services/token.service.ts and password.service.ts: access tokens, and refresh
-- tokens that rotate.
use pastel_marketplace.Base.{
  ℕ, ◌+◌, ◌*◌, String, Bool, true, false, Option, none, some, List, [], ◌∷◌, ◌++◌, not, ◌&&◌, ◌||◌,
  if◌then◌else◌, find?, or_else, ltb,
}
use pastel_marketplace.Base.Rows.{update_where}
use pastel_marketplace.Base.Text.{◌===◌, ◌⊕◌, split}
use pastel_marketplace.Base.Result.{Result, Exception, ok, err, unauthorized, or_throw}
use pastel_marketplace.Service.{Service, pure, reads, writes, some_or, throw_when, ◌>>=◌, ◌>>◌}
use pastel_marketplace.Accounts.{
  Accounts, User, Credential, Scope, UserType, customer, seller, provider, AccountStatus, banned,
  deleted,
}
use pastel_marketplace.Identity.Platform.{Platform, AccessClaims, AuthConfig}

pub record Principal : Type 0 where
  pub user_id : Option String
  pub scope : Scope
  pub user_type : Option String

-- `Principal & { userId: string }`
pub record UserPrincipal : Type 0 where
  pub user_id : String
  pub scope : Scope
  pub user_type : Option String

pub record TokenPair : Type 0 where
  pub access_token : String
  pub refresh_token : String
  pub expires_in : ℕ

pub record Meta : Type 0 where
  pub user_agent : Option String
  pub ip : Option String

pub record Rotated : Type 0 where
  pub tokens : TokenPair
  pub user_id : String
  pub scope : Scope
  pub user_type : UserType

abbrev pub show_type : UserType → String
show_type customer = "customer"
show_type seller = "seller"
show_type provider = "provider"

-- `PasswordService.verify`: a missing or empty hash verifies nothing.
abbrev pub verify_password : Platform → Option String → String → Bool
verify_password p none plain = false
verify_password p (some hash) plain = if hash === "" then false else p.verify_hash hash plain

abbrev pub is_closed : AccountStatus → Bool
is_closed banned = true
is_closed deleted = true
is_closed _ = false

abbrev pub is_some {ℓ} : {A : Type ℓ} → Option A → Bool
is_some none = false
is_some (some a) = true

abbrev pub malformed : Exception
malformed = unauthorized "Malformed refresh token"

abbrev pub reuse_detected : Exception
reuse_detected = unauthorized "Refresh token reuse detected; session revoked"

abbrev pub by_id : String → Credential → Bool
by_id id c = c.id === id

abbrev pub user_by_id : String → User → Bool
user_by_id id u = u.id === id

abbrev pub is_live : Credential → Bool
is_live c = not (is_some c.revoked_at)

abbrev pub in_family : String → Credential → Bool
in_family family c = elim c.family [ none ↦ false | some f ↦ f === family ]

abbrev pub revoke_at : ℕ → Credential → Credential
revoke_at now c = record c { revoked_at = some now }

-- `const [credentialId, secret] = rawToken.split('.')`, where an empty part counts as missing
abbrev pub parts_of : List String → Option (String × String)
parts_of [] = none
parts_of (x ∷ []) = none
parts_of (x ∷ (y ∷ rest)) = if x === "" || y === "" then none else some (x, y)

abbrev pub first_part : List String → String
first_part [] = ""
first_part (x ∷ rest) = x

-- The update of all live credentials of a family; an absent or empty family is falsy.
abbrev pub revoke_family : ℕ → Option String → Accounts → Accounts
revoke_family now none db = db
revoke_family now (some family) db = if family === "" then db else record db {
  credentials = update_where (λ c. in_family family c && is_live c) (revoke_at now) db.credentials;
}

abbrev pub usable_user : Option User → Option User
usable_user none = none
usable_user (some u) = if is_closed u.account_status then none else some u

module _ (p : Platform) (config : AuthConfig) (now : ℕ) where
  unfoldable pub sign_access : UserPrincipal → ℕ → String
  sign_access principal ver = p.sign now config.access_ttl (record {
    sub = principal.user_id;
    scope = principal.scope;
    user_type = or_else principal.user_type "customer";
    ver = ver;
  })

  unfoldable pub verify_access : String → Result AccessClaims
  verify_access token =
      or_throw (p.verify_token now token) (unauthorized "Invalid or expired access token")

  -- The row that `createCredential` inserts. The salt is the draw behind the secret's.
  unfoldable pub new_credential : String → Scope → String → Meta → Accounts → Credential
  new_credential user_id scope family meta db = record {
    id = p.uuid db.created;
    user_id = user_id;
    refresh_hash = p.hash (db.drawn + 1) (p.secret db.drawn);
    scope = scope;
    family = some family;
    user_agent = meta.user_agent;
    ip = meta.ip;
    expires_at = now + config.refresh_ttl * 1000;
    revoked_at = none;
  }

  unfoldable pub create_credential : String → Scope → String → Meta → Service Accounts String
  unfolding new_credential
  create_credential user_id scope family meta db = (
    ok (p.uuid db.created ⊕ "." ⊕ p.secret db.drawn),
    record db {
      created = db.created + 1;
      drawn = db.drawn + 2;
      credentials = db.credentials ++ new_credential user_id scope family meta db ∷ [];
    },
  )

  -- `uuidv7()`
  unfoldable pub fresh_id : Service Accounts String
  fresh_id db = (ok (p.uuid db.created), record db { created = db.created + 1 })

  -- The token and its family.
  unfoldable pub issue_refresh : String → Scope → Meta → Service Accounts (String × String)
  unfolding create_credential fresh_id
  issue_refresh user_id scope meta = do
    family ← fresh_id
    token ← create_credential user_id scope family meta
    pure (token, family)

  unfoldable pub issue_pair : UserPrincipal → Meta → Service Accounts TokenPair
  unfolding issue_refresh sign_access
  issue_pair principal meta = do
    issued ← issue_refresh principal.user_id principal.scope meta
    pure (record {
      access_token = sign_access principal 0;
      refresh_token = issued.0;
      expires_in = config.access_ttl;
    })

  -- A revoked credential burns its family, and the call fails.
  unfoldable pub detect_reuse : Credential → Service Accounts (Unit {0})
  detect_reuse cred db =
      if is_some cred.revoked_at
      then (err reuse_detected, revoke_family now cred.family db)
      else (ok tt, db)

  -- `cred.family ?? uuidv7()`
  unfoldable pub family_of : Option String → Service Accounts String
  unfolding fresh_id
  family_of none = fresh_id
  family_of (some family) = pure family

  -- The two writes of a rotation: the old credential is revoked, by its id alone, and a new one of
  -- its family is inserted.
  abbrev pub revoke_old : Credential → Service Accounts (Unit {0})
  revoke_old cred =
      writes λ db. record db {
        credentials = update_where (by_id cred.id) (revoke_at now) db.credentials;
      }

  abbrev pub insert_next : Credential → Meta → Service Accounts String
  insert_next cred meta = do
    family ← family_of cred.family
    create_credential cred.user_id cred.scope family meta

  -- The writes, and what the rotation returns.
  unfoldable pub issue_next : Credential → User → Meta → Service Accounts Rotated
  unfolding create_credential family_of sign_access
  issue_next cred user meta = do
    revoke_old cred
    token ← insert_next cred meta
    pure (record {
      tokens = record {
        access_token =
            sign_access
              (record {
                user_id = user.id;
                scope = cred.scope;
                user_type = some (show_type user.user_type);
              })
              0;
        refresh_token = token;
        expires_in = config.access_ttl;
      };
      user_id = user.id;
      scope = cred.scope;
      user_type = user.user_type;
    })

  -- The expiry, the secret, and the account.
  unfoldable pub check_secret : Credential → String → Service Accounts User
  check_secret cred secret = do
    throw_when (ltb cred.expires_at now) (unauthorized "Refresh token expired")
    throw_when (not (verify_password p (some cred.refresh_hash) secret))
        (unauthorized "Invalid refresh token")
    found ← reads λ db. usable_user (find? (user_by_id cred.user_id) db.users)
    some_or found (unauthorized "Account unavailable")

  -- The checks of a rotation, from the credential on.
  unfoldable pub check_credential : Credential → String → Service Accounts User
  unfolding detect_reuse check_secret
  check_credential cred secret = detect_reuse cred >> check_secret cred secret

  -- One request, with no statement of another between its own; the code has no transaction and no
  -- lock here, and Identity/Interleaving takes the statements apart.
  unfoldable pub rotate : String → Meta → Service Accounts Rotated
  unfolding check_credential issue_next split
  rotate raw meta = do
    parts ← some_or (parts_of (split "." raw)) malformed
    found ← reads λ db. find? (by_id parts.0) db.credentials
    cred ← some_or found (unauthorized "Unknown refresh token")
    user ← check_credential cred parts.1
    issue_next cred user meta

  -- `revoke`; the first part of a text always exists.
  unfoldable pub revoke : String → Service Accounts (Unit {0})
  unfolding split
  revoke raw db =
      let id = first_part (split "." raw) in
      (
        ok tt,
        if id === "" then db else record db {
          credentials = update_where (λ c. by_id id c && is_live c) (revoke_at now) db.credentials;
        },
      )
