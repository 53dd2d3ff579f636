-- ===== src/Admin.antt =====
-- src/modules/admin: what operators do to accounts, and the moderation queues. This file is
-- audit.service.ts and admin-user.mapper.ts.
pub mod Users
pub mod Bans
pub mod Moderation
pub mod Lists
pub mod Audit
use pastel_marketplace.Base.{ℕ, String, Option, some, List, [], ◌∷◌, ◌++◌}
use pastel_marketplace.Base.Result.{ok}
use pastel_marketplace.Service.{Service}
use pastel_marketplace.Accounts.{Accounts, AuditLog, User, UserType, AccountStatus}

-- `detail ?? {}` is an empty list of keys.
unfoldable pub log :
    String
    → String
    → String
    → Option String
    → List (String × Option String)
    → Service Accounts AuditLog
log actor action entity_type entity_id detail db =
    let row : AuditLog = record {
      actor = actor;
      action = action;
      entity_type = entity_type;
      entity_id = entity_id;
      detail = detail;
    } in
    (ok row, record db { audit_log = db.audit_log ++ row ∷ [] })

pub record AdminUserResource : Type 0 where
  pub id : String
  pub email : String
  pub user_type : UserType
  pub account_status : AccountStatus
  pub restricted_at : Option ℕ

abbrev pub to_admin_user_resource : User → AdminUserResource
to_admin_user_resource u = record {
  id = u.id;
  email = u.email;
  user_type = u.user_type;
  account_status = u.account_status;
  restricted_at = u.restricted_at;
}
