-- ===== src/Admin/Moderation.antt =====
-- src/modules/admin/services/admin-moderation.service.ts: content reports, appeals, the waitlist and
-- requests for deletion, each with what an operator does to one row.
use pastel_marketplace.Base.{ℕ, String, Bool, Option, some, List, [], ◌∷◌, find?}
use pastel_marketplace.Base.Rows.{update_where}
use pastel_marketplace.Base.Text.{◌===◌}
use pastel_marketplace.Base.Result.{ok, not_found, prisma}
use pastel_marketplace.Service.{Service, pure, reads, writes, some_or, ◌>>=◌, ◌>>◌}
use pastel_marketplace.Accounts.{Accounts}
use pastel_marketplace.Admin.{log}

pub record ContentReport : Type 0 where
  pub id : String
  pub content_type : String
  pub content_id : String
  pub reason : String
  pub is_dmca : Bool
  pub status : String
  pub created_at : ℕ

pub record RestrictionAppeal : Type 0 where
  pub id : String
  pub user_id : String
  pub status : String
  pub admin_note : Option String
  pub admin_actor : Option String
  pub reviewed_at : Option ℕ
  pub created_at : ℕ

pub record Waitlist : Type 0 where
  pub id : String
  pub email : String
  pub status : String
  pub created_at : ℕ

pub record AccountDeletionRequest : Type 0 where
  pub id : String
  pub user_id : Option String
  pub email : String
  pub status : String
  pub requested_at : ℕ
  pub completed_at : Option ℕ

pub record Desk : Type 0 where
  pub reports : List ContentReport
  pub appeals : List RestrictionAppeal
  pub waitlist : List Waitlist
  pub deletions : List AccountDeletionRequest
  pub accounts : Accounts

-- A queue: its table, the ids of its rows, and its message for a missing row.
pub record Queue (Row : Type 0) : Type 0 where
  pub rows : Desk → List Row
  pub with_rows : List Row → Desk → Desk
  pub id : Row → String
  pub missing : String

abbrev pub report_queue : Queue ContentReport
report_queue = record {
  rows = λ d. d.reports;
  with_rows = λ rs d. record d { reports = rs };
  id = λ r. r.id;
  missing = "Content report not found.";
}

abbrev pub appeal_queue : Queue RestrictionAppeal
appeal_queue = record {
  rows = λ d. d.appeals;
  with_rows = λ rs d. record d { appeals = rs };
  id = λ r. r.id;
  missing = "Appeal not found.";
}

abbrev pub waitlist_queue : Queue Waitlist
waitlist_queue = record {
  rows = λ d. d.waitlist;
  with_rows = λ rs d. record d { waitlist = rs };
  id = λ r. r.id;
  missing = "Waitlist entry not found.";
}

abbrev pub deletion_queue : Queue AccountDeletionRequest
deletion_queue = record {
  rows = λ d. d.deletions;
  with_rows = λ rs d. record d { deletions = rs };
  id = λ r. r.id;
  missing = "Account deletion request not found.";
}

-- `audit.log` on the accounts of the desk
abbrev logs :
    String → String → String → String → List (String × Option String) → Service Desk (Unit {0})
logs operator action entity id detail d =
    (ok tt, record d { accounts = (log operator action entity (some id) detail d.accounts).1 })

-- What the four operations share: the row is looked up, changed, and the change is logged.
unfoldable pub decide :
    {Row : Type 0}
    → Queue Row
    → String
    → (Row → Row)
    → String
    → String
    → String
    → List (String × Option String)
    → Service Desk Row
unfolding log
decide q id change operator action entity detail = do
  found ← reads λ d. find? (λ r. q.id r === id) (q.rows d)
  existing ← some_or found (not_found q.missing)
  writes λ d. q.with_rows (update_where (λ r. q.id r === id) change (q.rows d)) d
  changed ← reads λ d. find? (λ r. q.id r === id) (q.rows d)
  row ← some_or changed (prisma "P2025")
  logs operator action entity id detail
  pure row

unfoldable pub resolve_report :
    String → String → String → Option String → Service Desk ContentReport
unfolding decide
resolve_report operator id status note =
    decide report_queue id (λ r. record r { status = status }) operator "report.resolve"
      "ContentReport" (("status", some status) ∷ ("note", note) ∷ [])

unfoldable pub approve_waitlist : String → String → Service Desk Waitlist
unfolding decide
approve_waitlist operator id =
    decide waitlist_queue id (λ w. record w { status = "approved" }) operator "waitlist.approve"
      "Waitlist" []

module _ (now : ℕ) where
  unfoldable pub review_appeal : String → String → String → String → Service Desk RestrictionAppeal
  unfolding decide
  review_appeal operator id status admin_note =
      decide appeal_queue id
        (λ a. record a {
          status = status;
          admin_note = some admin_note;
          admin_actor = some operator;
          reviewed_at = some now;
        })
        operator "appeal.review" "RestrictionAppeal"
        (("status", some status) ∷ ("adminNote", some admin_note) ∷ [])

  unfoldable pub complete_deletion_request : String → String → Service Desk AccountDeletionRequest
  unfolding decide
  complete_deletion_request operator id =
      decide deletion_queue id (λ r. record r { status = "completed"; completed_at = some now })
        operator "deletionRequest.complete" "AccountDeletionRequest" []
