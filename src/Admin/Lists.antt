-- ===== src/Admin/Lists.antt =====
-- The lists that operators read, in pages by keyset: admin-moderation.service.ts and
-- admin-users.service.ts.
use pastel_marketplace.Base.{
  ℕ, String, Bool, true, false, Option, none, some, ◌&&◌, ◌||◌, if◌then◌else◌, map, not,
}
use pastel_marketplace.Base.Text.{◌===◌}
use pastel_marketplace.Base.Result.{Result, ok, err, prisma}
use pastel_marketplace.Accounts.{Accounts, User, AccountStatus, active, restricted, banned, deleted}
use pastel_marketplace.Pagination.{Page}
use pastel_marketplace.Pagination.Keyset.{Coding, list_page}
use pastel_marketplace.Admin.{AdminUserResource, to_admin_user_resource}
use pastel_marketplace.Admin.Moderation.{
  Desk, ContentReport, RestrictionAppeal, Waitlist, AccountDeletionRequest,
}

-- `if (status) where.status = status`
abbrev pub has_status : Option String → String → Bool
has_status none s = true
has_status (some status) s = if status === "" then true else s === status

abbrev pub is_flag : Option Bool → Bool → Bool
is_flag none b = true
is_flag (some true) b = b
is_flag (some false) b = not b

abbrev pub show_status : AccountStatus → String
show_status active = "active"
show_status restricted = "restricted"
show_status banned = "banned"
show_status deleted = "deleted"

abbrev pub is_status : Option String → Bool
is_status none = true
is_status (some s) =
    s === "" || s === "active" || s === "restricted" || s === "banned" || s === "deleted"

module _ (coding : Coding) where
  unfoldable pub list_reports :
      ℕ → Option String → Option String → Option Bool → Desk → Page ContentReport
  unfolding list_page
  list_reports per_page cursor status is_dmca d =
      list_page coding (λ (r : ContentReport). record { at = r.created_at; id = r.id })
        (λ r. has_status status r.status && is_flag is_dmca r.is_dmca) per_page cursor d.reports

  unfoldable pub list_appeals : ℕ → Option String → Option String → Desk → Page RestrictionAppeal
  unfolding list_page
  list_appeals per_page cursor status d =
      list_page coding (λ (a : RestrictionAppeal). record { at = a.created_at; id = a.id })
        (λ a. has_status status a.status) per_page cursor d.appeals

  unfoldable pub list_waitlist : ℕ → Option String → Option String → Desk → Page Waitlist
  unfolding list_page
  list_waitlist per_page cursor status d =
      list_page coding (λ (w : Waitlist). record { at = w.created_at; id = w.id })
        (λ w. has_status status w.status) per_page cursor d.waitlist

  unfoldable pub list_deletion_requests :
      ℕ → Option String → Option String → Desk → Page AccountDeletionRequest
  unfolding list_page
  list_deletion_requests per_page cursor status d =
      list_page coding (λ (r : AccountDeletionRequest). record { at = r.requested_at; id = r.id })
        (λ r. has_status status r.status) per_page cursor d.deletions

  -- The query class lets any text through as a status; the database client refuses one that names
  -- no `AccountStatus`.
  unfoldable pub list_users :
      ℕ → Option String → Option String → Accounts → Result (Page AdminUserResource)
  unfolding list_page
  list_users per_page cursor status db =
      let page =
        list_page coding (λ (u : User). record { at = u.created_at; id = u.id })
          (λ u. has_status status (show_status u.account_status)) per_page cursor db.users in
      if is_status status
      then ok (record {
        items = map to_admin_user_resource page.items;
        next_cursor = page.next_cursor;
        approx_total = page.approx_total;
      })
      else err (prisma "PrismaClientValidationError")
