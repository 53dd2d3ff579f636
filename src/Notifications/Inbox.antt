-- ===== src/Notifications/Inbox.antt =====
-- What a recipient finds in the inbox: the laws of the notification service.
use pastel_marketplace.Base.{
  ℕ, ◌+◌, ◌≤◌, ◌≡◌, ◌≢◌, refl, String, Option, none, some, List, [], ◌∷◌, ◌++◌, not, ◌&&◌, inl, inr,
  Bool-cases, arith,
}
use pastel_marketplace.Base.Rows.{update_where, count}
use pastel_marketplace.Base.Text.{===_iff}
use pastel_marketplace.Base.Result.{Result, ok}
use pastel_marketplace.Notifications.{
  NotificationDb, Notification, CreateNotificationInput, new_row, unread_count, mark_read,
  is_unread, is_due, set_read, is_named,
}

module _ (uuid : ℕ → String) (now : ℕ) (input : CreateNotificationInput) (order : String)
    (about : input.order_id ≡ some order) where
  abbrev added : NotificationDb → NotificationDb
  added db = record db {
    created = db.created + 1;
    notifications = db.notifications ++ new_row uuid now (uuid db.created) input none none ∷ [];
  }

read_rows :
    (now later : ℕ) (recipient : String) (ns : List Notification)
    → count
        (λ n. is_unread recipient n && is_due later n)
        (update_where (λ n. is_unread recipient n && is_named none n) (set_read now) ns)
      ≡ 0
read_rows now later recipient [] = refl
read_rows now later recipient (n ∷ ns) = ground (arith, read_rows now later recipient ns)

others_rows :
    (now later : ℕ) (recipient other : String) (ids : Option (List String)) (ns : List Notification)
    → recipient ≢ other
    → count
        (λ n. is_unread other n && is_due later n)
        (update_where (λ n. is_unread recipient n && is_named ids n) (set_read now) ns)
      ≡ count (λ n. is_unread other n && is_due later n) ns
others_rows now later recipient other ids [] ne = refl
others_rows now later recipient other ids (n ∷ ns) ne = ground (
  arith,
  others_rows now later recipient other ids ns ne,
  ===_iff n.data_.recipient_id recipient,
  ===_iff n.data_.recipient_id other,
)

unnamed_rows :
    (now : ℕ) (recipient : String) (ids : Option (List String)) (ns : List Notification)
    → count
        (λ n. is_unread recipient n && not (is_named ids n))
        (update_where (λ n. is_unread recipient n && is_named ids n) (set_read now) ns)
      ≡ count (λ n. is_unread recipient n && not (is_named ids n)) ns
unnamed_rows now recipient ids [] = refl
unnamed_rows now recipient ids (n ∷ ns) = elim (Bool-cases (is_named ids n)) [
  | inl named ↦ ground (arith, unnamed_rows now recipient ids ns)
  | inr apart ↦ ground (arith, unnamed_rows now recipient ids ns)
]

due_le :
    (now : ℕ) (recipient : String) (ns : List Notification)
    → count (λ n. is_unread recipient n && is_due now n) ns
      ≤ count (λ n. is_unread recipient n && is_named none n) ns
due_le now recipient [] = omega arith
due_le now recipient (n ∷ ns) = ground (arith, due_le now recipient ns)

-- A recipient who marks all as read has nothing unread then, and the answer counts at least what was
-- unread before. Whoever marks whichever notifications as read, the unread count of every other
-- recipient stays what it was, at every time, and so does the number of unread notifications of
-- their own that are not named.
pub unread_count-mark_read :
    (now later : ℕ) (recipient other : String) (ids : Option (List String)) (db : NotificationDb)
    → recipient ≢ other
    → (unread_count now recipient (mark_read now recipient none db).1 ≡ 0)
      × ((n : ℕ) × ((mark_read now recipient none db).0 ≡ ok n)
          × (unread_count now recipient db ≤ n))
      × (unread_count later other (mark_read now recipient ids db).1 ≡ unread_count later other db)
      × (count
            (λ n. is_unread recipient n && not (is_named ids n))
            (mark_read now recipient ids db).1.notifications
          ≡ count (λ n. is_unread recipient n && not (is_named ids n)) db.notifications)
unfolding unread_count mark_read
unread_count-mark_read now later recipient other ids db ne = (
  read_rows now now recipient db.notifications,
  (_, refl, due_le now recipient db.notifications),
  others_rows now later recipient other ids db.notifications ne,
  unnamed_rows now recipient ids db.notifications,
)
