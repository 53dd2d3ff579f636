-- ===== src/Social.antt =====
-- src/modules/social: follows (follow.service.ts). Story.antt is stories and their likes,
-- favourites and highlights.
pub mod Story
pub mod Counts
pub mod Likes
pub mod History
pub mod Lists
use pastel_marketplace.Base.{
  ℕ, String, Bool, true, false, Option, none, some, List, [], ◌∷◌, ◌++◌, not, ◌&&◌, ◌||◌,
  if◌then◌else◌, any, find?, ◌==◌,
}
use pastel_marketplace.Base.Int.{ℤ, pos, ◌+ℤ◌, ◌-ℤ◌}
use pastel_marketplace.Base.Rows.{count, delete_where}
use pastel_marketplace.Base.Text.{◌===◌}
use pastel_marketplace.Base.Result.{Result, Exception, ok, err, bad_request, prisma}
use pastel_marketplace.Service.{
  Service, pure, reads, writes, throw_when, atomically, caught, ◌>>=◌, ◌>>◌,
}
use pastel_marketplace.Accounts.{Accounts, User, Follow, FollowEvent}
use pastel_marketplace.Identity.Tokens.{user_by_id}
use pastel_marketplace.Accounts.Writes.{update_user}

abbrev pub cannot_follow_self : Exception
cannot_follow_self = bad_request "You cannot follow yourself."

abbrev pub is_edge : String → String → Follow → Bool
is_edge follower_id following_id f =
    follower_id === f.follower_id && following_id === f.following_id

abbrev pub bump_followers : User → User
bump_followers u = record u { followers_count = u.followers_count +ℤ pos 1 }

abbrev pub bump_following : User → User
bump_following u = record u { following_count = u.following_count +ℤ pos 1 }

abbrev pub drop_followers : User → User
drop_followers u = record u { followers_count = u.followers_count -ℤ pos 1 }

abbrev pub drop_following : User → User
drop_following u = record u { following_count = u.following_count -ℤ pos 1 }

-- `outbox.emit` for a new follower
abbrev emit_follow : String → String → Service Accounts (Unit {0})
emit_follow recipient_id actor_id = writes λ db. record db {
  outbox = db.outbox ++ record { recipient_id = recipient_id; actor_id = actor_id } ∷ [];
}

module _ (now : ℕ) where
  -- `tx.follow.create`: the pair is the key, and both users are references.
  unfoldable pub create_follow : String → String → Service Accounts (Unit {0})
  create_follow follower_id following_id = do
    present ← reads λ db. any (is_edge follower_id following_id) db.follows
    throw_when present (prisma "P2002")
    missing ←
        reads λ db.
          not (any (user_by_id follower_id) db.users && any (user_by_id following_id) db.users)
    throw_when missing (prisma "P2003")
    writes λ db. record db {
      follows =
          db.follows
          ++ record { follower_id = follower_id; following_id = following_id; created_at = now }
            ∷ [];
    }

  -- The transaction of a follow.
  unfoldable pub insert_follow : String → String → Service Accounts (Unit {0})
  unfolding create_follow update_user
  insert_follow follower_id following_id = do
    create_follow follower_id following_id
    followed ← update_user following_id bump_followers
    follower ← update_user follower_id bump_following
    emit_follow following_id follower_id

  unfoldable pub follow : String → String → Service Accounts (Unit {0})
  unfolding insert_follow
  follow follower_id following_id db =
      if follower_id === following_id
      then (err cannot_follow_self, db)
      else caught (atomically (insert_follow follower_id following_id) db)

-- The counters only move where a row was deleted.
unfoldable pub lower_counts : String → String → ℕ → Service Accounts (Unit {0})
unfolding update_user
lower_counts follower_id following_id deleted = elim (deleted == 0) [
  | true ↦ pure tt
  | false ↦ do
    followed ← update_user following_id drop_followers
    follower ← update_user follower_id drop_following
    pure tt
]

-- The transaction of an unfollow.
unfoldable pub delete_follow : String → String → Service Accounts (Unit {0})
unfolding lower_counts
delete_follow follower_id following_id = do
  deleted ← reads λ db. count (is_edge follower_id following_id) db.follows
  writes λ db. record db { follows = delete_where (is_edge follower_id following_id) db.follows }
  lower_counts follower_id following_id deleted

unfoldable pub unfollow : String → String → Service Accounts (Unit {0})
unfolding delete_follow
unfollow follower_id following_id = atomically (delete_follow follower_id following_id)
