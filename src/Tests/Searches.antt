-- ===== src/Tests/Searches.antt =====
-- Two searches of one form.
use pastel_marketplace.Base.{◌≡◌, refl, String, Option, none, some, List, [], ◌∷◌, length}
use pastel_marketplace.Base.Int.{pos, ◌+ℤ◌}
use pastel_marketplace.Base.Text.{show}
use pastel_marketplace.Base.Result.{ok}
use pastel_marketplace.Pagination.{Cursor}
use pastel_marketplace.Catalog.Search.{
  Param, text, number, SearchListingsDto, search_query, words, read_cursor,
}
use pastel_marketplace.Catalog.Injection.{IsAlike, search_query-IsAlike}

abbrev decode : String → Option Cursor
decode token = some (record { v = token; id = "7" })

abbrev lamps : SearchListingsDto
lamps = record {
  keywords = some "lamp";
  category_l1 = none;
  category_l2 = none;
  category_l3 = none;
  listing_type = none;
  condition = some "used";
  price_min = none;
  price_max = some (pos 100);
  materials_all = none;
  materials_any = none;
  stock = some "in";
  sort = none;
  cursor = some "55";
  per_page = 20;
}

abbrev attack : SearchListingsDto
attack = record lamps {
  keywords = some "x') OR true --";
  condition = some "'; DROP TABLE listing_search; --";
  price_max = some (pos 7);
  sort = some "id; DROP TABLE orders; --";
  cursor = some "0; --";
}

abbrev query_text : String
query_text =
    "SELECT id, title, author_id, author_name, primary_image, price_amount, price_currency, category_l1, in_stock, created_at, created_at AS sortval FROM listing_search WHERE fts @@ websearch_to_tsquery('english', $1) AND condition = $2 AND price_amount < $3 AND in_stock = true AND (created_at, id) < ($4::timestamptz, $5::uuid) ORDER BY created_at DESC, id DESC LIMIT $6"

abbrev lamp_params : List Param
lamp_params =
    text "lamp" ∷ text "used" ∷ number (pos 101) ∷ text "55" ∷ text "7" ∷ number (pos 21) ∷ []

abbrev attack_params : List Param
attack_params =
    text "x') OR true --"
    ∷ text "'; DROP TABLE listing_search; --"
    ∷ number (pos 8)
    ∷ text "0; --"
    ∷ text "7"
    ∷ number (pos 21)
    ∷ []

searches : search_query decode lamps ≡ ok (query_text, lamp_params)
unfolding search_query show ◌+ℤ◌
searches = refl

attacks : search_query decode attack ≡ ok (query_text, attack_params)
unfolding search_query show ◌+ℤ◌
attacks = refl

lamps-IsAlike : IsAlike decode lamps attack
unfolding words read_cursor
lamps-IsAlike = record {
  keywords = refl;
  category_l1 = refl;
  category_l2 = refl;
  category_l3 = refl;
  listing_type = refl;
  condition = refl;
  price_min = refl;
  price_max = refl;
  materials_all = refl;
  materials_any = refl;
  stock = refl;
  sort = record {
    relevance = refl;
    created = refl;
    cheapest = refl;
    dearest = refl;
    popular = refl;
  };
  cursor = refl;
}

search_query-IsAlike_example :
    (query_text ≡ query_text) × (length lamp_params ≡ length attack_params)
search_query-IsAlike_example =
    search_query-IsAlike decode lamps attack (query_text, lamp_params) (query_text, attack_params)
      lamps-IsAlike searches attacks
