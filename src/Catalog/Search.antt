-- ===== src/Catalog/Search.antt =====
-- src/modules/catalog/services/search.service.ts: how a search becomes one SQL query with bound
-- parameters. White space between the words of the query is one blank.
use pastel_marketplace.Base.{
  ℕ, ◌+◌, String, Option, none, some, List, [], ◌∷◌, ◌++◌, if◌then◌else◌, length, or_else,
}
use pastel_marketplace.Base.Int.{ℤ, pos, ◌+ℤ◌}
use pastel_marketplace.Base.Text.{◌===◌, ◌⊕◌, show, trim}
use pastel_marketplace.Base.Result.{Result, ok, err, bad_request, ◌>>=◌}
use pastel_marketplace.Pagination.{Cursor}

pub data Param : Type 0 where
  text : String → Param
  number : ℤ → Param
  texts : List String → Param

pub record SearchListingsDto : Type 0 where
  pub keywords : Option String
  pub category_l1 : Option String
  pub category_l2 : Option String
  pub category_l3 : Option String
  pub listing_type : Option String
  pub condition : Option String
  pub price_min : Option ℤ
  pub price_max : Option ℤ
  pub materials_all : Option (List String)
  pub materials_any : Option (List String)
  pub stock : Option String
  pub sort : Option String
  pub cursor : Option String
  pub per_page : ℕ

-- The parameters that are bound so far, and the conditions.
pub record Builder : Type 0 where
  pub params : List Param
  pub where_ : List String

-- `p(v)`: the name of a parameter that is bound now.
unfoldable pub next_name : Builder → String
unfolding show
next_name b = "$" ⊕ show (length b.params + 1)

abbrev pub bind : Param → Builder → Builder
bind v b = record b { params = b.params ++ v ∷ [] }

-- `where.push(…)` with one parameter between two texts.
abbrev pub push : String → Param → String → Builder → Builder
push before v after b = record {
  params = b.params ++ v ∷ [];
  where_ = b.where_ ++ (before ⊕ next_name b ⊕ after) ∷ [];
}

-- A filter that is there; `none` is a value that is absent or falsy.
abbrev pub filter_by : String → Option Param → String → Builder → Builder
filter_by before none after b = b
filter_by before (some v) after b = push before v after b

abbrev pub filled : Option String → Option Param
filled none = none
filled (some s) = if s === "" then none else some (text s)

-- Keywords that are not blank.
unfoldable pub words : Option String → Option Param
unfolding trim
words none = none
words (some s) = if trim s === "" then none else some (text s)

abbrev pub listed : Option (List String) → Option Param
listed none = none
listed (some []) = none
listed (some (s ∷ ss)) = some (texts (s ∷ ss))

abbrev pub numbered : Option ℤ → Option Param
numbered none = none
numbered (some n) = some (number n)

-- The bound of the price is inclusive.
abbrev pub above : Option ℤ → Option Param
above none = none
above (some n) = some (number (n +ℤ pos 1))

abbrev pub only_in_stock : Option String → Builder → Builder
only_in_stock none b = b
only_in_stock (some s) b =
    if s === "in" then record b { where_ = b.where_ ++ "in_stock = true" ∷ [] } else b

unfoldable pub filters : SearchListingsDto → Builder
unfolding words next_name
filters q = only_in_stock q.stock (
    filter_by "materials && " (listed q.materials_any) "::text[]" (
      filter_by "materials @> " (listed q.materials_all) "::text[]" (
        filter_by "price_amount < " (above q.price_max) "" (
          filter_by "price_amount >= " (numbered q.price_min) "" (
            filter_by "condition = " (filled q.condition) "" (
              filter_by "listing_type = " (filled q.listing_type) "" (
                filter_by "category_l3 = " (filled q.category_l3) "" (
                  filter_by "category_l2 = " (filled q.category_l2) "" (
                    filter_by "category_l1 = " (filled q.category_l1) "" (
                      filter_by "fts @@ websearch_to_tsquery('english', " (words q.keywords) ")"
                        (record { params = []; where_ = [] })))))))))))

pub record SortPlan : Type 0 where
  pub sort_sql : String
  pub sort_val_expr : String
  pub pg_type : String
  pub comparator : String

abbrev plan : String → String → String → String → SortPlan
plan column direction pg_type comparator = record {
  sort_sql = column ⊕ " " ⊕ direction ⊕ ", id " ⊕ direction;
  sort_val_expr = column;
  pg_type = pg_type;
  comparator = comparator;
}

-- The plans that bind no parameter.
abbrev pub column_plan : String → SortPlan
column_plan sort =
    if sort === "createdAt"
    then plan "created_at" "ASC" "timestamptz" ">"
    else if sort === "price"
    then plan "price_amount" "ASC" "bigint" ">"
    else if sort === "-price"
    then plan "price_amount" "DESC" "bigint" "<"
    else if sort === "popularity"
    then plan "popularity" "DESC" "double precision" "<"
    else plan "created_at" "DESC" "timestamptz" "<"

abbrev pub rank_plan : String → SortPlan
rank_plan name =
    plan ("ts_rank(fts, websearch_to_tsquery('english', " ⊕ name ⊕ "))::double precision") "DESC"
      "double precision" "<"

-- The plan of a sort, and what it has bound.
unfoldable pub sort_plan : String → Option Param → Builder → Result (SortPlan × Builder)
unfolding next_name
sort_plan sort none b =
    if sort === "relevance"
    then err (bad_request "Sorting by relevance requires a keywords query.")
    else ok (column_plan sort, b)
sort_plan sort (some v) b =
    if sort === "relevance"
    then ok (rank_plan (next_name b), bind v b)
    else ok (column_plan sort, b)

-- The keyset seek: the value of the sort and the id behind it.
abbrev pub seek : SortPlan → Option Cursor → Builder → Builder
seek plan none b = b
seek plan (some c) b =
    let v = bind (text c.v) b in
    record {
      params = v.params ++ text c.id ∷ [];
      where_ =
          b.where_
          ++ ("("
              ⊕ plan.sort_val_expr
              ⊕ ", id) "
              ⊕ plan.comparator
              ⊕ " ("
              ⊕ next_name b
              ⊕ "::"
              ⊕ plan.pg_type
              ⊕ ", "
              ⊕ next_name v
              ⊕ "::uuid)")
            ∷ [];
    }

-- `where.join(' AND ')`
abbrev pub join : List String → String
join [] = ""
join (s ∷ []) = s
join (s ∷ (t ∷ ts)) = s ⊕ " AND " ⊕ join (t ∷ ts)

abbrev pub where_sql : List String → String
where_sql [] = ""
where_sql (s ∷ ss) = "WHERE " ⊕ join (s ∷ ss)

abbrev pub columns : String
columns =
    "SELECT id, title, author_id, author_name, primary_image, price_amount, price_currency, category_l1, in_stock, created_at, "

-- The text of the query and its parameters; the last of them is the limit.
unfoldable pub finished : SortPlan → ℕ → Builder → String × List Param
unfolding next_name
finished plan per_page b = (
  columns
      ⊕ plan.sort_val_expr
      ⊕ " AS sortval FROM listing_search "
      ⊕ where_sql b.where_
      ⊕ " ORDER BY "
      ⊕ plan.sort_sql
      ⊕ " LIMIT "
      ⊕ next_name b,
  b.params ++ number (pos (per_page + 1)) ∷ [],
)

-- A token that cannot be read is refused.
unfoldable pub read_cursor : (String → Option Cursor) → Option String → Result (Option Cursor)
read_cursor decode none = ok none
read_cursor decode (some token) = if token === "" then ok none else elim (decode token) [
  | none ↦ err (bad_request "The pagination cursor is invalid. Start again from the first page.")
  | some c ↦ ok (some c)
]

-- `queryListings` up to the query that it sends.
unfoldable pub search_query :
    (String → Option Cursor) → SearchListingsDto → Result (String × List Param)
unfolding filters sort_plan read_cursor finished words
search_query decode q = do
  planned ← sort_plan (or_else q.sort "-createdAt") (words q.keywords) (filters q)
  cursor ← read_cursor decode q.cursor
  ok (finished planned.0 q.per_page (seek planned.0 cursor planned.1))
