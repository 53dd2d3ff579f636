-- ===== src/Notifications.antt =====
-- src/modules/notifications/services/notification.service.ts: notifications, preferences and push
-- tokens.
pub mod Inbox
use pastel_marketplace.Base.{
  ℕ, ◌+◌, String, Bool, true, false, Option, none, some, List, [], ◌∷◌, ◌++◌, find?, any, not, ◌&&◌,
  ◌||◌, if◌then◌else◌, ◌==◌, leb, or_else,
}
use pastel_marketplace.Base.Rows.{update_where, delete_where, count}
use pastel_marketplace.Base.Text.{◌===◌}
use pastel_marketplace.Base.Result.{Result, Exception, ok, err, prisma}
use pastel_marketplace.Service.{Service, pure, reads, writes, some_or, throw_when, ◌>>=◌, ◌>>◌}
use pastel_marketplace.Pagination.{Page}
use pastel_marketplace.Pagination.Keyset.{Key, Coding, list_page}

pub data RecipientMode : Type 0 where
  buyer seller : RecipientMode

-- What a caller says of a notification.
pub record CreateNotificationInput : Type 0 where
  pub recipient_id : String
  pub kind : String
  pub recipient_mode : Option RecipientMode
  pub actor_id : Option String
  pub actor_name : Option String
  pub actor_image : Option String
  pub listing_id : Option String
  pub listing_title : Option String
  pub order_id : Option String
  pub show_id : Option String
  pub story_id : Option String
  pub message_preview : Option String

pub record CreateScheduledNotificationInput : Type 0 where
  pub input : CreateNotificationInput
  pub scheduled_key : String
  pub send_at : ℕ

-- A row: what its creator said, and the columns of the server. `kind` is the column `type`.
pub record Notification : Type 0 where
  pub id : String
  pub data_ : CreateNotificationInput
  pub scheduled_key : Option String
  pub send_at : Option ℕ
  pub read : Bool
  pub read_at : Option ℕ
  pub created_at : ℕ

-- JSON texts.
pub record NotificationPreference : Type 0 where
  pub user_id : String
  pub priorities : String
  pub enabled : String

pub record PushToken : Type 0 where
  pub user_id : String
  pub token : String
  pub platform : Option String
  pub app_version : Option String
  pub bundle_version : Option String
  pub revoked : Bool

pub record NotificationDb : Type 0 where
  pub created : ℕ
  pub notifications : List Notification
  pub preferences : List NotificationPreference
  pub push_tokens : List PushToken

-- The partial unique index on (recipientId, orderId, type) where orderId is not null.
abbrev pub same_text : Option String → Option String → Bool
same_text (some s) (some t) = s === t
same_text _ _ = false

abbrev pub collides : CreateNotificationInput → Notification → Bool
collides input n =
    n.data_.recipient_id === input.recipient_id
    && n.data_.kind === input.kind
    && same_text n.data_.order_id input.order_id

abbrev pub is_due : ℕ → Notification → Bool
is_due now n = elim n.send_at [ none ↦ true | some at ↦ leb at now ]

abbrev pub has_key : String → Notification → Bool
has_key key n = elim n.scheduled_key [ none ↦ false | some k ↦ k === key ]

abbrev pub is_recipient : String → Notification → Bool
is_recipient id n = n.data_.recipient_id === id

abbrev member : String → List String → Bool
member s [] = false
member s (t ∷ ts) = let rest = member s ts in s === t || rest

-- An omitted list names all ids.
abbrev pub is_named : Option (List String) → Notification → Bool
is_named none n = true
is_named (some ids) n = member n.id ids

module _ (uuid : ℕ → String) (now : ℕ) where
  abbrev pub new_row : String → CreateNotificationInput → Option String → Option ℕ → Notification
  new_row id input key send_at = record {
    id = id;
    data_ = input;
    scheduled_key = key;
    send_at = send_at;
    read = false;
    read_at = none;
    created_at = now;
  }

  unfoldable pub insert_notification :
      CreateNotificationInput → Option String → Option ℕ → Service NotificationDb Notification
  insert_notification input key send_at db =
      let row = new_row (uuid db.created) input key send_at in
      if any (collides input) db.notifications then (err (prisma "P2002"), db) else (
        ok row,
        record db { created = db.created + 1; notifications = db.notifications ++ row ∷ [] },
      )

  -- A `P2002` of a notification about an order is swallowed, and null returned.
  abbrev pub deduped :
      Option String
      → Result Notification × NotificationDb
      → Result (Option Notification) × NotificationDb
  deduped order (ok n, db) = (ok (some n), db)
  deduped (some order) (err (prisma code), db) =
      if code === "P2002" then (ok none, db) else (err (prisma code), db)
  deduped _ (err e, db) = (err e, db)

  unfoldable pub create : CreateNotificationInput → Service NotificationDb (Option Notification)
  unfolding insert_notification
  create input db = deduped input.order_id (insert_notification input none none db)

  -- The update of a scheduled row keeps its recipient and its order.
  abbrev pub rescheduled : CreateScheduledNotificationInput → Notification → Notification
  rescheduled s n = record n {
    send_at = some s.send_at;
    data_ = record (s.input) { recipient_id = n.data_.recipient_id; order_id = n.data_.order_id };
  }

  unfoldable pub create_scheduled :
      CreateScheduledNotificationInput → Service NotificationDb Notification
  unfolding insert_notification
  create_scheduled s db = elim (find? (has_key s.scheduled_key) db.notifications) [
    | none ↦ insert_notification s.input (some s.scheduled_key) (some s.send_at) db
    | some n ↦
        if any (λ m. not (has_key s.scheduled_key m) && collides (rescheduled s n).data_ m)
          db.notifications
        then (err (prisma "P2002"), db)
        else (
          ok (rescheduled s n),
          record db {
            notifications = update_where (has_key s.scheduled_key) (rescheduled s) db.notifications;
          },
        )
  ]

unfoldable pub clear_scheduled : String → Service NotificationDb (Unit {0})
clear_scheduled key =
    writes λ db. record db { notifications = delete_where (has_key key) db.notifications }

abbrev of_show : String → List String → Notification → Bool
of_show show kinds n =
    elim n.data_.show_id [ none ↦ false | some s ↦ s === show ] && member n.data_.kind kinds

unfoldable pub clear_by_show : String → List String → Service NotificationDb (Unit {0})
clear_by_show show kinds =
    writes λ db. record db { notifications = delete_where (of_show show kinds) db.notifications }

abbrev pub is_unread : String → Notification → Bool
is_unread recipient n = is_recipient recipient n && not n.read

-- Number of unread notifications that are due.
unfoldable pub unread_count : ℕ → String → NotificationDb → ℕ
unread_count now recipient db = count (λ n. is_unread recipient n && is_due now n) db.notifications

abbrev pub set_read : ℕ → Notification → Notification
set_read now n = record n { read = true; read_at = some now }

-- An empty list of ids would name no row, and writes nothing.
unfoldable pub mark_read : ℕ → String → Option (List String) → Service NotificationDb ℕ
mark_read now recipient ids db = (
  ok (count (λ n. is_unread recipient n && is_named ids n) db.notifications),
  record db {
    notifications =
        update_where (λ n. is_unread recipient n && is_named ids n) (set_read now) db.notifications;
  },
)

unfoldable pub list_for_user :
    Coding → ℕ → String → ℕ → Option String → NotificationDb → Page Notification
unfolding list_page
list_for_user coding now recipient per_page cursor db =
    list_page coding (λ (n : Notification). record { at = n.created_at; id = n.id })
      (λ n. is_recipient recipient n && is_due now n) per_page cursor db.notifications

abbrev pub of_user : String → NotificationPreference → Bool
of_user id pref = pref.user_id === id

abbrev maps_of : Option NotificationPreference → String × String
maps_of none = ("{}", "{}")
maps_of (some pref) = (pref.priorities, pref.enabled)

-- The priorities and what is enabled.
unfoldable pub get_preferences : String → NotificationDb → String × String
get_preferences id db = maps_of (find? (of_user id) db.preferences)

abbrev pub edit_preference :
    Option String → Option String → NotificationPreference → NotificationPreference
edit_preference priorities enabled pref = record pref {
  priorities = or_else priorities pref.priorities;
  enabled = or_else enabled pref.enabled;
}

unfoldable pub update_preferences :
    String → Option String → Option String → Service NotificationDb (String × String)
update_preferences id priorities enabled db = elim (find? (of_user id) db.preferences) [
  | none ↦ (
    ok (or_else priorities "{}", or_else enabled "{}"),
    record db {
      preferences =
          db.preferences
          ++ record {
            user_id = id;
            priorities = or_else priorities "{}";
            enabled = or_else enabled "{}";
          }
            ∷ [];
    },
  )
  | some pref ↦ (
    ok (or_else priorities pref.priorities, or_else enabled pref.enabled),
    record db {
      preferences = update_where (of_user id) (edit_preference priorities enabled) db.preferences;
    },
  )
]

abbrev pub is_token : String → String → PushToken → Bool
is_token user_id token t = t.user_id === user_id && t.token === token

unfoldable pub register_push_token :
    String
    → String
    → Option String
    → Option String
    → Option String
    → Service NotificationDb (Unit {0})
register_push_token user_id token platform app bundle db = (
  ok tt,
  record db {
    push_tokens =
        if any (is_token user_id token) db.push_tokens
        then update_where (is_token user_id token)
            (λ t. record t {
              platform = platform;
              app_version = app;
              bundle_version = bundle;
              revoked = false;
            })
            db.push_tokens
        else db.push_tokens
          ++ record {
            user_id = user_id;
            token = token;
            platform = platform;
            app_version = app;
            bundle_version = bundle;
            revoked = false;
          }
            ∷ [];
  },
)

unfoldable pub revoke_push_token : String → String → Service NotificationDb (Unit {0})
revoke_push_token user_id token = writes λ db. record db {
  push_tokens =
      update_where (is_token user_id token) (λ t. record t { revoked = true }) db.push_tokens;
}
