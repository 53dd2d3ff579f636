-- ===== src/Tests/Social.antt =====
-- Two users who follow each other, and a story.
use pastel_marketplace.Base.{◌≡◌, refl, false, none, some, [], ◌∷◌, arith}
use pastel_marketplace.Base.Int.{pos, ◌+ℤ◌}
use pastel_marketplace.Base.Result.{ok, err}
use pastel_marketplace.Accounts.{Accounts}
use pastel_marketplace.Identity.Auth.{new_user}
use pastel_marketplace.Social.{follow}
use pastel_marketplace.Social.Counts.{IsFollowing}
use pastel_marketplace.Social.Story.{
  SocialDb, Story, HighlightStory, image, add_story, not_highlight_owner,
}
use pastel_marketplace.Social.Likes.{IsLiked}
use pastel_marketplace.Social.History.{
  follows, unfollows, after_follows, after_follows-IsFollowing, likes, unlikes, after_likes,
  after_likes-IsLiked,
}
use pastel_marketplace.Tests.Identity.{platform, config}
use pastel_marketplace.Tests.Identity.Sessions.{nobody}

abbrev pair : Accounts
pair = record nobody {
  users =
      new_user platform config 1000 "a" none "a@x.org" none
      ∷ new_user platform config 1000 "b" none "b@x.org" none
      ∷ [];
}

pair-IsFollowing : IsFollowing pair.users pair.follows
pair-IsFollowing = record {
  followers = (refl, (refl, tt));
  following = (refl, (refl, tt));
  single = λ a b. omega arith;
}

abbrev following : Accounts
following = (follow 2000 "a" "b" pair).1

-- A second follow counts nothing.
follows_once : (follow 3000 "a" "b" following).1.users ≡ following.users
unfolding follow ◌+ℤ◌
follows_once = refl

after_follows-IsFollowing_example :
    let after =
      after_follows
        (follows 2000 "a" "b"
          ∷ follows 3000 "a" "b"
          ∷ follows 4000 "b" "x"
          ∷ unfollows "a" "b"
          ∷ [])
        pair in
    IsFollowing after.users after.follows
after_follows-IsFollowing_example =
    after_follows-IsFollowing
      (follows 2000 "a" "b" ∷ follows 3000 "a" "b" ∷ follows 4000 "b" "x" ∷ unfollows "a" "b" ∷ [])
      pair pair-IsFollowing

abbrev posted : Story
posted = record {
  id = "s";
  user_id = "a";
  listing_id = none;
  story_type = "public";
  media_type = image;
  media_url = "u";
  thumbnail_url = none;
  description = none;
  like_count = pos 0;
  show_on_product_page = false;
  created_at = 1000;
  expires_at = some 86401000;
}

abbrev gallery : SocialDb
gallery = record {
  created = 2;
  stories = posted ∷ [];
  likes = [];
  favorites = [];
  highlights =
      record { id = "h"; user_id = "a"; name = "best"; cover_story_id = none; created_at = 1000 }
      ∷ [];
  highlight_stories = [];
}

gallery-IsLiked : IsLiked gallery.stories gallery.likes
gallery-IsLiked = record { counted = (refl, tt); single = λ a b. omega arith }

after_likes-IsLiked_example :
    let after =
      after_likes
        (likes 2000 "s" "b" ∷ likes 3000 "s" "b" ∷ likes 3000 "t" "b" ∷ unlikes "s" "b" ∷ [])
        gallery in
    IsLiked after.stories after.likes
after_likes-IsLiked_example =
    after_likes-IsLiked
      (likes 2000 "s" "b" ∷ likes 3000 "s" "b" ∷ likes 3000 "t" "b" ∷ unlikes "s" "b" ∷ []) gallery
      gallery-IsLiked

abbrev placed : HighlightStory
placed = record { highlight_id = "h"; story_id = "s"; position = pos 0 }

adds :
    add_story "h" "a" (record { story_id = "s"; position = none }) gallery
    ≡ (ok placed, record gallery { highlight_stories = placed ∷ [] })
unfolding add_story
adds = refl

-- Only the owner adds a story.
refuses :
    (add_story "h" "b" (record { story_id = "s"; position = none }) gallery).0
    ≡ err not_highlight_owner
unfolding add_story
refuses = refl
