-- ===== src/Pagination.antt =====
-- src/common/pagination: pages by cursor (cursor.util.ts) and by offset (pagination.util.ts). Page
-- numbers, limits and totals are the natural numbers that the query classes let through; all stay
-- below 2 ^ 53, where `Math.ceil` of a quotient is exact.
pub mod Offsets
pub mod Cursors
pub mod Keyset
pub mod Sorting
pub mod Walk
use pastel_marketplace.Base.{
  ℕ, ◌+◌, ◌-◌, ◌*◌, ◌/◌, String, Bool, true, false, Option, none, some, List, [], ◌∷◌, ltb, ◌==◌,
  ◌&&◌, if◌then◌else◌, length, take, get_last?,
}

pub record Cursor : Type 0 where
  pub v : String
  pub id : String

pub record Page {ℓ} (T : Type ℓ) : Type ℓ where
  pub items : List T
  pub next_cursor : Option String
  pub approx_total : Option ℕ

-- `encodeCursor` is JSON and base64url of the platform.
module _ {ℓ} {T : Type ℓ} (encode_cursor : Cursor → String) where
  -- `hasMore && last ? encodeCursor(toCursor(last)) : null`
  abbrev pub next_from : Bool → Option T → (T → Cursor) → Option String
  next_from true (some last) to_cursor = some (encode_cursor (to_cursor last))
  next_from _ _ to_cursor = none

  unfoldable pub build_page : List T → ℕ → (T → Cursor) → Option ℕ → Page T
  build_page rows limit to_cursor approx_total =
      let has_more = ltb limit (length rows) in
      let items = if has_more then take limit rows else rows in
      record {
        items = items;
        next_cursor = next_from has_more (get_last? items) to_cursor;
        approx_total = approx_total;
      }

pub record CursorMetaInput : Type 0 where
  pub per_page : ℕ
  pub has_previous : Bool

pub record CursorPaginationMeta : Type 0 where
  pub per_page : ℕ
  pub count : ℕ
  pub next_cursor : Option String
  pub has_next : Bool
  pub has_previous : Bool
  pub approx_total : Option ℕ

abbrev pub is_some {ℓ} : {A : Type ℓ} → Option A → Bool
is_some none = false
is_some (some a) = true

unfoldable pub build_cursor_meta {ℓ} :
    {T : Type ℓ} → Page T → CursorMetaInput → CursorPaginationMeta
build_cursor_meta page input = record {
  per_page = input.per_page;
  count = length page.items;
  next_cursor = page.next_cursor;
  has_next = is_some page.next_cursor;
  has_previous = input.has_previous;
  approx_total = page.approx_total;
}

pub record OffsetMetaInput : Type 0 where
  pub page : ℕ
  pub limit : ℕ
  pub total : ℕ

pub record OffsetPaginationMeta : Type 0 where
  pub page : ℕ
  pub limit : ℕ
  pub total : ℕ
  pub total_pages : ℕ
  pub has_next : Bool
  pub has_previous : Bool

-- `Math.max(1, n)`
abbrev pub at_least_one : ℕ → ℕ
at_least_one n = if ltb n 1 then 1 else n

unfoldable pub build_offset_meta : OffsetMetaInput → OffsetPaginationMeta
build_offset_meta input =
    let safe_limit = at_least_one input.limit in
    let total_pages = if input.total == 0 then 0 else (input.total + safe_limit - 1) / safe_limit in
    record {
      page = input.page;
      limit = safe_limit;
      total = input.total;
      total_pages = total_pages;
      has_next = ltb input.page total_pages;
      has_previous = ltb 1 input.page && ltb 0 input.total;
    }

pub record SkipTake : Type 0 where
  pub skip : ℕ
  pub take : ℕ

unfoldable pub to_skip_take : ℕ → ℕ → SkipTake
to_skip_take page limit = record { skip = (at_least_one page - 1) * limit; take = limit }
