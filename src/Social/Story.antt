-- ===== src/Social/Story.antt =====
-- src/modules/social/services/story.service.ts, favorite.service.ts and highlight.service.ts, and
-- their mappers.
use pastel_marketplace.Base.{
  ℕ, ◌+◌, ◌*◌, String, Bool, true, false, Option, none, some, List, [], ◌∷◌, ◌++◌, not, ◌&&◌,
  if◌then◌else◌, any, find?, or_else, ◌==◌, ltb,
}
use pastel_marketplace.Base.Int.{ℤ, pos, ◌+ℤ◌, ◌-ℤ◌}
use pastel_marketplace.Base.Rows.{count, delete_where, update_where}
use pastel_marketplace.Base.Text.{◌===◌}
use pastel_marketplace.Base.Result.{Exception, ok, err, not_found, forbidden, prisma}
use pastel_marketplace.Service.{
  Service, pure, reads, writes, some_or, throw_when, atomically, caught, ◌>>=◌, ◌>>◌,
}

pub data MediaType : Type 0 where
  image video : MediaType

pub record Story : Type 0 where
  pub id : String
  pub user_id : String
  pub listing_id : Option String
  pub story_type : String
  pub media_type : MediaType
  pub media_url : String
  pub thumbnail_url : Option String
  pub description : Option String
  pub like_count : ℤ
  pub show_on_product_page : Bool
  pub created_at : ℕ
  pub expires_at : Option ℕ

pub record StoryLike : Type 0 where
  pub story_id : String
  pub user_id : String
  pub created_at : ℕ

pub record Favorite : Type 0 where
  pub user_id : String
  pub listing_id : String
  pub created_at : ℕ

pub record Highlight : Type 0 where
  pub id : String
  pub user_id : String
  pub name : String
  pub cover_story_id : Option String
  pub created_at : ℕ

pub record HighlightStory : Type 0 where
  pub highlight_id : String
  pub story_id : String
  pub position : ℤ

-- `created` counts the generated ids.
pub record SocialDb : Type 0 where
  pub created : ℕ
  pub stories : List Story
  pub likes : List StoryLike
  pub favorites : List Favorite
  pub highlights : List Highlight
  pub highlight_stories : List HighlightStory

pub record CreateStoryDto : Type 0 where
  pub listing_id : Option String
  pub media_type : MediaType
  pub media_url : String
  pub thumbnail_url : Option String
  pub description : Option String
  pub show_on_product_page : Option Bool

pub record CreateHighlightDto : Type 0 where
  pub name : String
  pub cover_story_id : Option String

pub record AddHighlightStoryDto : Type 0 where
  pub story_id : String
  pub position : Option ℤ

-- A day in milliseconds.
abbrev pub story_ttl_ms : ℕ
story_ttl_ms = 24 * 60 * 60 * 1000

-- A story that never expires, or has not expired yet.
abbrev pub is_visible : ℕ → Story → Bool
is_visible now s = elim s.expires_at [ none ↦ true | some at ↦ ltb now at ]

abbrev pub is_like : String → String → StoryLike → Bool
is_like story_id user_id l = story_id === l.story_id && user_id === l.user_id

abbrev pub is_favorite : String → String → Favorite → Bool
is_favorite user_id listing_id f = user_id === f.user_id && listing_id === f.listing_id

abbrev pub bump_likes : Story → Story
bump_likes s = record s { like_count = s.like_count +ℤ pos 1 }

abbrev pub drop_likes : Story → Story
drop_likes s = record s { like_count = s.like_count -ℤ pos 1 }

abbrev pub story_by_id : String → Story → Bool
story_by_id id s = s.id === id

abbrev pub highlight_by_id : String → Highlight → Bool
highlight_by_id id h = h.id === id

-- `tx.story.update({ where: { id }, … })`
unfoldable pub update_story : String → (Story → Story) → Service SocialDb (Unit {0})
update_story id change = do
  missing ← reads λ db. not (any (story_by_id id) db.stories)
  throw_when missing (prisma "P2025")
  writes λ db. record db { stories = update_where (story_by_id id) change db.stories }

module _ (uuid : ℕ → String) (now : ℕ) where
  unfoldable pub create_story : String → CreateStoryDto → Service SocialDb Story
  create_story user_id dto db =
      let row : Story = record {
        id = uuid db.created;
        user_id = user_id;
        listing_id = dto.listing_id;
        story_type = "public";
        media_type = dto.media_type;
        media_url = dto.media_url;
        thumbnail_url = dto.thumbnail_url;
        description = dto.description;
        like_count = pos 0;
        show_on_product_page = or_else dto.show_on_product_page false;
        created_at = now;
        expires_at = some (now + story_ttl_ms);
      } in
      (ok row, record db { created = db.created + 1; stories = db.stories ++ row ∷ [] })

  unfoldable pub create_highlight : String → CreateHighlightDto → Service SocialDb Highlight
  create_highlight user_id dto db =
      let row : Highlight = record {
        id = uuid db.created;
        user_id = user_id;
        name = dto.name;
        cover_story_id = dto.cover_story_id;
        created_at = now;
      } in
      (ok row, record db { created = db.created + 1; highlights = db.highlights ++ row ∷ [] })

module _ (now : ℕ) where
  -- `tx.storyLike.create`: the pair is the key, and no column is a reference.
  unfoldable pub insert_like : String → String → Service SocialDb (Unit {0})
  unfolding update_story
  insert_like story_id user_id = do
    present ← reads λ db. any (is_like story_id user_id) db.likes
    throw_when present (prisma "P2002")
    writes λ db. record db {
      likes = db.likes ++ record { story_id = story_id; user_id = user_id; created_at = now } ∷ [];
    }
    update_story story_id bump_likes

  unfoldable pub like : String → String → Service SocialDb (Unit {0})
  unfolding insert_like
  like story_id user_id db = caught (atomically (insert_like story_id user_id) db)

  unfoldable pub add_favorite : String → String → Service SocialDb (Unit {0})
  add_favorite user_id listing_id db = caught (
      if any (is_favorite user_id listing_id) db.favorites then (err (prisma "P2002"), db) else (
        ok tt,
        record db {
          favorites =
              db.favorites
              ++ record { user_id = user_id; listing_id = listing_id; created_at = now } ∷ [];
        },
      ))

unfoldable pub delete_like : String → String → Service SocialDb (Unit {0})
unfolding update_story
delete_like story_id user_id = do
  deleted ← reads λ db. count (is_like story_id user_id) db.likes
  writes λ db. record db { likes = delete_where (is_like story_id user_id) db.likes }
  elim (deleted == 0) [ true ↦ pure tt | false ↦ update_story story_id drop_likes ]

unfoldable pub unlike : String → String → Service SocialDb (Unit {0})
unfolding delete_like
unlike story_id user_id = atomically (delete_like story_id user_id)

unfoldable pub remove_favorite : String → String → Service SocialDb (Unit {0})
remove_favorite user_id listing_id =
    writes
      λ db. record db { favorites = delete_where (is_favorite user_id listing_id) db.favorites }

abbrev pub highlight_not_found : Exception
highlight_not_found = not_found "Highlight not found."

abbrev pub not_highlight_owner : Exception
not_highlight_owner = forbidden "You can only manage your own highlights."

unfoldable pub assert_owner : String → String → Service SocialDb (Unit {0})
assert_owner highlight_id user_id = do
  found ← reads λ db. find? (highlight_by_id highlight_id) db.highlights
  highlight ← some_or found highlight_not_found
  throw_when (not (highlight.user_id === user_id)) not_highlight_owner

abbrev is_placed : String → String → HighlightStory → Bool
is_placed highlight_id story_id h = highlight_id === h.highlight_id && story_id === h.story_id

-- The pair of the ids is the key; the highlight is there, as it was found.
unfoldable pub add_story : String → String → AddHighlightStoryDto → Service SocialDb HighlightStory
unfolding assert_owner
add_story highlight_id user_id dto = do
  assert_owner highlight_id user_id
  present ← reads λ db. any (is_placed highlight_id dto.story_id) db.highlight_stories
  throw_when present (prisma "P2002")
  let row : HighlightStory = record {
    highlight_id = highlight_id;
    story_id = dto.story_id;
    position = or_else dto.position (pos 0);
  }
  writes λ db. record db { highlight_stories = db.highlight_stories ++ row ∷ [] }
  pure row
