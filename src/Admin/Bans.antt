-- ===== src/Admin/Bans.antt =====
-- A ban and the sign-in: what an operator's decision does to the account's sessions.
use pastel_marketplace.Base.{
  ℕ, ◌≡◌, ◌≢◌, refl, sym, ap, ◌∙◌, String, Bool, false, Option, none, some, List, [], ◌∷◌, ◌++◌,
  find?, inl, inr, Bool-cases, Option-cases,
}
use mathlib.Core.Path.{subst}
use pastel_marketplace.Base.Rows.{update_where, changed, find?-updated, some_inj}
use pastel_marketplace.Identity.Rotation.{rotate-user}
use pastel_marketplace.Base.Text.{◌===◌, ===_iff}
use pastel_marketplace.Base.Result.{Result, ok, err}
use pastel_marketplace.Service.{refused}
use pastel_marketplace.Accounts.{Accounts, User, AccountStatus, banned}
use pastel_marketplace.Accounts.Writes.{update_user}
use pastel_marketplace.Identity.Platform.{Platform, AuthConfig}
use pastel_marketplace.Identity.Tokens.{Meta, Rotated, is_closed, user_by_id, rotate}
use pastel_marketplace.Identity.Auth.{AuthResult, LoginDto, login, by_email, normalized}
use pastel_marketplace.Identity.SignIn.{login-ok}
use pastel_marketplace.Admin.{AdminUserResource, to_admin_user_resource, log}
use pastel_marketplace.Admin.Users.{
  ban, change_status, change_account, add_restriction, user_not_found,
}

closed_row :
    (id : String) (at : Option ℕ) (why : Option String) (v u : User)
    → changed (user_by_id id) (change_account banned at why) v ≡ u
    → is_closed u.account_status ≡ false
    → (u.id === id) ≡ false
closed_row id at why v u e usable = elim (Bool-cases (v.id === id)) [
  | inl own ↦ cc (ap (λ (x : User). is_closed x.account_status) (rw own at e))
  | inr other ↦ subst (λ (x : User). (x.id === id) ≡ false) (rw other at e) other
]

ban-absent :
    (now : ℕ) (operator id reason : String) (db : Accounts)
    → find? (user_by_id id) db.users ≡ none
    → ban now operator id reason db ≡ (err user_not_found, db)
unfolding ban change_status
ban-absent now operator id reason db absent = rw absent refl

-- The state that a change of status leaves.
abbrev pub decided :
    ℕ → (User → User) → String → String → String → String → User → Accounts → Accounts
decided now change operator id action reason u db = record db {
  users = update_where (user_by_id id) change db.users;
  restrictions =
      db.restrictions
      ++ record {
        user_id = id;
        action = action;
        reason = reason;
        user_type = u.user_type;
        admin_actor = operator;
        created_at = now;
      }
        ∷ [];
}

change_status-ok :
    (now : ℕ) (status : AccountStatus) (at : Option ℕ) (why : Option String)
    (operator id action reason : String) (db : Accounts) (u : User)
    → find? (user_by_id id) db.users ≡ some u
    → change_status now (change_account status at why) operator id action reason db ≡ (
      ok (change_account status at why u),
      decided now (change_account status at why) operator id action reason u db,
    )
unfolding change_status update_user add_restriction
change_status-ok now status at why operator id action reason db u found =
    rw
      (
        found,
        find?-updated (user_by_id id) (change_account status at why) db.users u (λ c e. e) found,
      )
      refl

-- A ban of an account that exists returns it as banned. It bans the account's row, writes one
-- restriction with the row's type and one entry of the audit log, both by the operator, and nothing
-- else.
pub ban-writes :
    (now : ℕ) (operator id reason : String) (db : Accounts) (u : User)
    → find? (user_by_id id) db.users ≡ some u
    → ban now operator id reason db ≡ (
      ok (to_admin_user_resource (change_account banned (some now) (some reason) u)),
      record (decided now
          (change_account banned (some now) (some reason))
          operator
          id
          "ban"
          reason
          u
          db) {
            audit_log =
                db.audit_log
                ++ record {
                  actor = operator;
                  action = "user.ban";
                  entity_type = "User";
                  entity_id = some id;
                  detail = ("reason", some reason) ∷ [];
                }
                  ∷ [];
          },
    )
unfolding ban log
ban-writes now operator id reason db u found =
    rw (change_status-ok now banned (some now) (some reason) operator id "ban" reason db u found)
      refl

ban-users :
    (now : ℕ) (operator id reason : String) (db after : Accounts) (a : AdminUserResource)
    → ban now operator id reason db ≡ (ok a, after)
    → after.users
      ≡ update_where (user_by_id id) (change_account banned (some now) (some reason)) db.users
ban-users now operator id reason db after a h =
    elim (Option-cases (find? (user_by_id id) db.users)) [
      | inl absent ↦ refused (sym (ban-absent now operator id reason db absent) ∙ h)
      | inr (u, found) ↦
          ap (λ (x : Result AdminUserResource × Accounts). x.1.users)
            (sym h ∙ ban-writes now operator id reason db u found)
    ]

-- No row of a banned account is open.
closed_after :
    (q : User → Bool) (id : String) (at : Option ℕ) (why : Option String) (us : List User)
    (u : User)
    → find? q (update_where (user_by_id id) (change_account banned at why) us) ≡ some u
    → is_closed u.account_status ≡ false
    → (u.id === id) ≡ false
closed_after q id at why [] u found usable = cc
closed_after q id at why (v ∷ us) u found usable =
    elim (Bool-cases (q (changed (user_by_id id) (change_account banned at why) v))) [
      | inr miss ↦ closed_after q id at why us u (rw miss at found) usable
      | inl hit ↦ closed_row id at why v u (some_inj (rw hit at found)) usable
    ]

-- Who a sign-in, and a refresh, is for.
abbrev pub signed_in_as : Result AuthResult × Accounts → Option String
signed_in_as (ok r, db) = some r.user.id
signed_in_as (err e, db) = none

abbrev pub refreshed_as : Result Rotated × Accounts → Option String
refreshed_as (ok r, db) = some r.user_id
refreshed_as (err e, db) = none

signed_in_as-not :
    (x : Result AuthResult × Accounts) (id : String)
    → ((r : AuthResult) (db' : Accounts) → x ≡ (ok r, db') → (r.user.id === id) ≡ false)
    → signed_in_as x ≢ some id
signed_in_as-not (ok r, db') id not_so h =
    cc (not_so r db' refl, (===_iff r.user.id id).1 (some_inj h))
signed_in_as-not (err e, db') id not_so h = cc

refreshed_as-not :
    (x : Result Rotated × Accounts) (id : String)
    → ((r : Rotated) (db' : Accounts) → x ≡ (ok r, db') → (r.user_id === id) ≡ false)
    → refreshed_as x ≢ some id
refreshed_as-not (ok r, db') id not_so h =
    cc (not_so r db' refl, (===_iff r.user_id id).1 (some_inj h))
refreshed_as-not (err e, db') id not_so h = cc

module _ (p : Platform) (config : AuthConfig) where
  login-ban :
      (now later : ℕ) (operator id reason : String) (db after db' : Accounts)
      (a : AdminUserResource) (dto : LoginDto) (meta : Meta) (r : AuthResult)
      → ban now operator id reason db ≡ (ok a, after)
      → login p config later dto meta after ≡ (ok r, db')
      → (r.user.id === id) ≡ false
  login-ban now later operator id reason db after db' a dto meta r banned_now h =
      let (found, _, usable) = login-ok p config later dto meta after db' r h in
      closed_after _ id (some now) (some reason) db.users r.user
        (subst (λ us. find? (by_email (normalized dto.email)) us ≡ some r.user)
          (ban-users now operator id reason db after a banned_now) found)
        usable

  rotate-ban :
      (now later : ℕ) (operator id reason raw : String) (db after db' : Accounts)
      (a : AdminUserResource) (meta : Meta) (r : Rotated)
      → ban now operator id reason db ≡ (ok a, after)
      → rotate p config later raw meta after ≡ (ok r, db')
      → (r.user_id === id) ≡ false
  rotate-ban now later operator id reason raw db after db' a meta r banned_now h =
      let (key, u, found, usable, same) = rotate-user p config later raw meta after db' r h in
      rw same (
        closed_after (user_by_id key) id (some now) (some reason) db.users u
          (subst (λ us. find? (user_by_id key) us ≡ some u)
            (ban-users now operator id reason db after a banned_now) found)
          usable)

  -- After a ban that succeeded, the account is locked out: on the database that the ban left, no
  -- log-in and no exchange of a refresh token, whosever they are and at any time, give tokens of
  -- the banned account.
  pub signed_in_as-ban :
      (now later : ℕ) (operator id reason raw : String) (db after : Accounts)
      (a : AdminUserResource) (dto : LoginDto) (meta : Meta)
      → ban now operator id reason db ≡ (ok a, after)
      → (signed_in_as (login p config later dto meta after) ≢ some id)
        × (refreshed_as (rotate p config later raw meta after) ≢ some id)
  signed_in_as-ban now later operator id reason raw db after a dto meta banned_now = (
    signed_in_as-not (login p config later dto meta after) id
        λ r db' h. login-ban now later operator id reason db after db' a dto meta r banned_now h,
    refreshed_as-not (rotate p config later raw meta after) id
        λ r db' h. rotate-ban now later operator id reason raw db after db' a meta r banned_now h,
  )
