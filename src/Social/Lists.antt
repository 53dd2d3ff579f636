-- ===== src/Social/Lists.antt =====
-- The lists of favorite.service.ts, story.service.ts and highlight.service.ts.
use pastel_marketplace.Base.{ℕ, String, Option, List, ◌&&◌, filter, map}
use pastel_marketplace.Base.Text.{◌===◌}
use pastel_marketplace.Pagination.{Page}
use pastel_marketplace.Pagination.Keyset.{Coding, list_page, newest_first}
use pastel_marketplace.Social.Story.{SocialDb, Story, Favorite, Highlight, is_visible}

pub record FavoriteResource : Type 0 where
  pub user_id : String
  pub listing_id : String
  pub created_at : ℕ

abbrev pub to_favorite_resource : Favorite → FavoriteResource
to_favorite_resource f = record {
  user_id = f.user_id;
  listing_id = f.listing_id;
  created_at = f.created_at;
}

module _ (coding : Coding) where
  -- The caller's wishlist.
  unfoldable pub list_mine : String → ℕ → Option String → SocialDb → Page FavoriteResource
  unfolding list_page
  list_mine user_id per_page cursor db =
      let page =
        list_page coding (λ (f : Favorite). record { at = f.created_at; id = f.listing_id })
          (λ f. f.user_id === user_id) per_page cursor db.favorites in
      record {
        items = map to_favorite_resource page.items;
        next_cursor = page.next_cursor;
        approx_total = page.approx_total;
      }

  -- The stories of a user that can still be seen.
  unfoldable pub list_stories : ℕ → String → SocialDb → List Story
  list_stories now user_id db =
      newest_first coding (λ (s : Story). record { at = s.created_at; id = s.id })
        (filter (λ s. s.user_id === user_id && is_visible now s) db.stories)

  unfoldable pub list_highlights : String → SocialDb → List Highlight
  list_highlights user_id db =
      newest_first coding (λ (h : Highlight). record { at = h.created_at; id = h.id })
        (filter (λ h. h.user_id === user_id) db.highlights)
