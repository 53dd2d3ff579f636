-- ===== src/Identity/Auth.antt =====
-- src/modules/identity/services/auth.service.ts: signing up, logging in and out.
use pastel_marketplace.Base.{
  ℕ, ◌+◌, String, Bool, true, false, Option, none, some, List, [], ◌∷◌, ◌++◌, not, ◌||◌,
  if◌then◌else◌, find?, any,
}
use pastel_marketplace.Base.Int.{pos}
use pastel_marketplace.Base.Text.{◌===◌, to_lower_case, trim}
use pastel_marketplace.Base.Result.{Exception, ok, err, unauthorized, conflict, forbidden, prisma}
use pastel_marketplace.Service.{Service, pure, reads, some_or, throw_when, ◌>>=◌, ◌>>◌}
use pastel_marketplace.Accounts.{
  Accounts, User, UserPermission, Scope, public_read, user, customer, active,
}
use pastel_marketplace.Identity.Platform.{Platform, AuthConfig}
use pastel_marketplace.Identity.Tokens.{
  Principal, TokenPair, Meta, Rotated, show_type, verify_password, is_closed, user_by_id,
  issue_pair, rotate, revoke,
}

pub record AuthResult : Type 0 where
  pub user : User
  pub tokens : TokenPair

pub record AuthInfo : Type 0 where
  pub is_anonymous : Bool
  pub scopes : List Scope
  pub user_id : Option String

pub record SignupDto : Type 0 where
  pub email : String
  pub password : String
  pub display_name : Option String

pub record LoginDto : Type 0 where
  pub email : String
  pub password : String

abbrev pub email_already_exists : Exception
email_already_exists = conflict "An account with this email already exists."

abbrev pub invalid_credentials : Exception
invalid_credentials = unauthorized "Invalid email or password."

abbrev pub account_banned : Exception
account_banned = forbidden "This account has been banned."

abbrev pub user_not_found : Exception
user_not_found = unauthorized "User not found."

-- A flag that is true, and not only present.
abbrev is_set : Option Bool → Bool
is_set none = false
is_set (some b) = b

unfoldable pub is_effectively_verified : User → Bool
is_effectively_verified u =
    if u.email_verified
    then true
    else is_set u.protected_data.buyer_email_verified || is_set u.protected_data.waitlist_verified

-- `dto.email.toLowerCase().trim()`
abbrev pub normalized : String → String
normalized email = trim (to_lower_case email)

abbrev pub by_email : String → User → Bool
by_email email u = u.email === email

unfoldable pub build_auth_info : Principal → AuthInfo
build_auth_info me = record {
  is_anonymous = elim me.scope [ public_read ↦ true | _ ↦ false ];
  scopes = me.scope ∷ [];
  user_id = me.user_id;
}

-- The columns that `UserPermission` defaults to.
abbrev pub default_permissions : String → UserPermission
default_permissions id = record {
  user_id = id;
  post_listings = "permission/allow";
  initiate_tx = "permission/allow";
  read = "permission/allow";
}

unfoldable pub me : String → Service Accounts User
me id = do found ← reads λ db. find? (user_by_id id) db.users; some_or found user_not_found

module _ (p : Platform) (config : AuthConfig) (now : ℕ) where
  -- The row of a new account, with the defaults of the schema.
  abbrev pub new_user : String → Option String → String → Option String → User
  new_user id hash email display_name = record {
    id = id;
    email = email;
    email_verified = false;
    password_hash = hash;
    user_type = customer;
    account_status = active;
    restricted_at = none;
    restriction_reason = none;
    display_name = display_name;
    protected_data = record {
      agreed_to_terms_at = some now;
      buyer_email_verified = none;
      waitlist_verified = none;
    };
    followers_count = pos 0;
    following_count = pos 0;
    created_at = now;
  }

  -- `prisma.user.create` with the default permissions; emails are unique.
  unfoldable pub create_user : String → Option String → Option String → Service Accounts User
  create_user email hash display_name db =
      let row = new_user (p.uuid db.created) hash email display_name in
      if any (by_email email) db.users then (err (prisma "P2002"), db) else (
        ok row,
        record db {
          created = db.created + 1;
          users = db.users ++ row ∷ [];
          permissions = db.permissions ++ default_permissions (p.uuid db.created) ∷ [];
        },
      )

  -- `PasswordService.hash`, which draws a salt
  unfoldable pub hash_password : String → Service Accounts String
  hash_password plain db = (ok (p.hash db.drawn plain), record db { drawn = db.drawn + 1 })

  abbrev pub issue_for : User → Meta → Service Accounts TokenPair
  issue_for u meta =
      issue_pair p config now
        (record { user_id = u.id; scope = user; user_type = some (show_type u.user_type) }) meta

  unfoldable pub signup : SignupDto → Meta → Service Accounts AuthResult
  unfolding create_user hash_password
  signup dto meta = do
    existing ← reads λ db. any (by_email (normalized dto.email)) db.users
    throw_when existing email_already_exists
    hash ← hash_password dto.password
    u ← create_user (normalized dto.email) (some hash) dto.display_name
    tokens ← issue_for u meta
    pure (record { user = u; tokens = tokens })

  unfoldable pub login : LoginDto → Meta → Service Accounts AuthResult
  login dto meta = do
    found ← reads λ db. find? (by_email (normalized dto.email)) db.users
    u ← some_or found invalid_credentials
    throw_when (not (verify_password p u.password_hash dto.password)) invalid_credentials
    throw_when (is_closed u.account_status) account_banned
    tokens ← issue_for u meta
    pure (record { user = u; tokens = tokens })

  unfoldable pub refresh : String → Meta → Service Accounts Rotated
  refresh raw meta = rotate p config now raw meta

  -- An absent or empty token is falsy.
  unfoldable pub logout : Option String → Service Accounts (Unit {0})
  logout none = pure tt
  logout (some raw) = if raw === "" then pure tt else revoke p config now raw
