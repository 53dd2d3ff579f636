-- ===== src/Social/History.antt =====
-- Sequences of calls of the social services.
use pastel_marketplace.Base.{ℕ, String, List, [], ◌∷◌}
use pastel_marketplace.Accounts.{Accounts}
use pastel_marketplace.Social.{follow, unfollow}
use pastel_marketplace.Social.Counts.{IsFollowing, follow-IsFollowing, unfollow-IsFollowing}
use pastel_marketplace.Social.Story.{SocialDb, like, unlike}
use pastel_marketplace.Social.Likes.{IsLiked, like-IsLiked, unlike-IsLiked}

-- Calls of follow.service.ts, with the time of a follow.
pub data FollowCall : Type 0 where
  follows : ℕ → String → String → FollowCall
  unfollows : String → String → FollowCall

unfoldable pub after_follows : List FollowCall → Accounts → Accounts
after_follows [] db = db
after_follows (follows now a b ∷ calls) db = after_follows calls (follow now a b db).1
after_follows (unfollows a b ∷ calls) db = after_follows calls (unfollow a b db).1

-- Calls of story.service.ts about likes.
pub data LikeCall : Type 0 where
  likes : ℕ → String → String → LikeCall
  unlikes : String → String → LikeCall

unfoldable pub after_likes : List LikeCall → SocialDb → SocialDb
after_likes [] db = db
after_likes (likes now story user ∷ calls) db = after_likes calls (like now story user db).1
after_likes (unlikes story user ∷ calls) db = after_likes calls (unlike story user db).1

-- Where the counters of every user are the numbers of follows that name them, and no pair is in the
-- table twice, this is so after every sequence of follows and unfollows, the repeated and the
-- refused ones included.
pub after_follows-IsFollowing :
    (calls : List FollowCall) (db : Accounts)
    → IsFollowing db.users db.follows
    → let after = after_follows calls db in IsFollowing after.users after.follows
unfolding after_follows
after_follows-IsFollowing [] db h = h
after_follows-IsFollowing (follows now a b ∷ calls) db h =
    after_follows-IsFollowing calls (follow now a b db).1 (follow-IsFollowing now a b db h)
after_follows-IsFollowing (unfollows a b ∷ calls) db h =
    after_follows-IsFollowing calls (unfollow a b db).1 (unfollow-IsFollowing a b db h)

-- Where the counter of every story is the number of its likes, and no pair is in the table twice,
-- this is so after every sequence of likes and unlikes, the repeated and the failed ones included.
pub after_likes-IsLiked :
    (calls : List LikeCall) (db : SocialDb)
    → IsLiked db.stories db.likes
    → let after = after_likes calls db in IsLiked after.stories after.likes
unfolding after_likes
after_likes-IsLiked [] db h = h
after_likes-IsLiked (likes now story user ∷ calls) db h =
    after_likes-IsLiked calls (like now story user db).1 (like-IsLiked now story user db h)
after_likes-IsLiked (unlikes story user ∷ calls) db h =
    after_likes-IsLiked calls (unlike story user db).1 (unlike-IsLiked story user db h)
