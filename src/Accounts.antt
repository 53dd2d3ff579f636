-- ===== src/Accounts.antt =====
-- The tables of prisma/schema.prisma about people: users, their credentials and permissions, who
-- follows whom, restrictions, and the audit log. Tables are lists in the order of insertion; times
-- are milliseconds.
pub mod Writes
use pastel_marketplace.Base.{ℕ, String, Bool, Option, List}
use pastel_marketplace.Base.Int.{ℤ}

pub data UserType : Type 0 where
  customer seller provider : UserType

pub data AccountStatus : Type 0 where
  active restricted banned deleted : AccountStatus

-- The keys of the `protectedData` column that the source knows; a flag is `none` where the column
-- has no Boolean under its key.
pub record ProtectedData : Type 0 where
  pub agreed_to_terms_at : Option ℕ
  pub buyer_email_verified : Option Bool
  pub waitlist_verified : Option Bool

-- `password_hash` is `none` for accounts without a password. The profile columns that no service
-- of the model reads or writes are left out.
pub record User : Type 0 where
  pub id : String
  pub email : String
  pub email_verified : Bool
  pub password_hash : Option String
  pub user_type : UserType
  pub account_status : AccountStatus
  pub restricted_at : Option ℕ
  pub restriction_reason : Option String
  pub display_name : Option String
  pub protected_data : ProtectedData
  pub followers_count : ℤ
  pub following_count : ℤ
  pub created_at : ℕ

pub data Scope : Type 0 where
  public_read user trusted : Scope

pub record Credential : Type 0 where
  pub id : String
  pub user_id : String
  pub refresh_hash : String
  pub scope : Scope
  pub family : Option String
  pub user_agent : Option String
  pub ip : Option String
  pub expires_at : ℕ
  pub revoked_at : Option ℕ

pub record UserPermission : Type 0 where
  pub user_id : String
  pub post_listings : String
  pub initiate_tx : String
  pub read : String

pub record Follow : Type 0 where
  pub follower_id : String
  pub following_id : String
  pub created_at : ℕ

pub record UserRestriction : Type 0 where
  pub user_id : String
  pub action : String
  pub reason : String
  pub user_type : UserType
  pub admin_actor : String
  pub created_at : ℕ

-- `detail` is the JSON object: its keys, with their texts or null.
pub record AuditLog : Type 0 where
  pub actor : String
  pub action : String
  pub entity_type : String
  pub entity_id : Option String
  pub detail : List (String × Option String)

-- The event of a new follower.
pub record FollowEvent : Type 0 where
  pub recipient_id : String
  pub actor_id : String

-- `created` counts the generated ids, `drawn` the random values.
pub record Accounts : Type 0 where
  pub created : ℕ
  pub drawn : ℕ
  pub users : List User
  pub credentials : List Credential
  pub permissions : List UserPermission
  pub follows : List Follow
  pub restrictions : List UserRestriction
  pub audit_log : List AuditLog
  pub outbox : List FollowEvent
