-- ===== src/Admin/Users.antt =====
-- src/modules/admin/services/admin-users.service.ts: restricting and banning accounts.
use pastel_marketplace.Base.{ℕ, String, Option, none, some, [], ◌∷◌, ◌++◌, find?, or_else}
use pastel_marketplace.Base.Result.{Exception, not_found}
use pastel_marketplace.Service.{Service, pure, reads, writes, some_or, atomically, ◌>>=◌, ◌>>◌}
use pastel_marketplace.Accounts.{
  Accounts, User, UserType, AccountStatus, active, restricted, banned,
}
use pastel_marketplace.Accounts.Writes.{update_user}
use pastel_marketplace.Identity.Tokens.{user_by_id}
use pastel_marketplace.Admin.{AdminUserResource, to_admin_user_resource, log}

abbrev pub user_not_found : Exception
user_not_found = not_found "User not found."

abbrev pub change_account : AccountStatus → Option ℕ → Option String → User → User
change_account status at reason u = record u {
  account_status = status;
  restricted_at = at;
  restriction_reason = reason;
}

module _ (now : ℕ) where
  unfoldable pub add_restriction :
      String → String → String → UserType → String → Service Accounts (Unit {0})
  add_restriction id action reason user_type operator = writes λ db. record db {
    restrictions =
        db.restrictions
        ++ record {
          user_id = id;
          action = action;
          reason = reason;
          user_type = user_type;
          admin_actor = operator;
          created_at = now;
        }
          ∷ [];
  }

  -- The body of the transactions, which differ in what they write.
  unfoldable pub change_status :
      (User → User) → String → String → String → String → Service Accounts User
  unfolding update_user add_restriction
  change_status change operator id action reason = do
    found ← reads λ db. find? (user_by_id id) db.users
    existing ← some_or found user_not_found
    u ← update_user id change
    add_restriction id action reason existing.user_type operator
    pure u

  unfoldable pub restrict : String → String → String → Service Accounts AdminUserResource
  unfolding change_status log
  restrict operator id reason = do
    updated ← atomically (
        change_status (change_account restricted (some now) (some reason)) operator id "restrict"
          reason)
    row ← log operator "user.restrict" "User" (some id) (("reason", some reason) ∷ [])
    pure (to_admin_user_resource updated)

  unfoldable pub unrestrict : String → String → Option String → Service Accounts AdminUserResource
  unfolding change_status log
  unrestrict operator id reason = do
    updated ← atomically (
        change_status (change_account active none none) operator id "unrestrict"
          (or_else reason "unrestricted"))
    row ←
        log operator "user.unrestrict" "User" (some id)
          (("reason", some (or_else reason "unrestricted")) ∷ [])
    pure (to_admin_user_resource updated)

  unfoldable pub ban : String → String → String → Service Accounts AdminUserResource
  unfolding change_status log
  ban operator id reason = do
    updated ←
        atomically
          (change_status (change_account banned (some now) (some reason)) operator id "ban" reason)
    row ← log operator "user.ban" "User" (some id) (("reason", some reason) ∷ [])
    pure (to_admin_user_resource updated)
