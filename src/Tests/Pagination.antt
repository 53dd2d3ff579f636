-- ===== src/Tests/Pagination.antt =====
-- Pages of three rows.
use pastel_marketplace.Base.{
  ◌+◌, ◌≡◌, refl, String, false, none, some, List, [], ◌∷◌, arith, ltb, ◌&&◌, length, take,
}
use pastel_marketplace.Base.Text.{◌⊕◌}
use pastel_marketplace.Pagination.{
  Cursor, CursorMetaInput, build_page, build_cursor_meta, build_offset_meta, to_skip_take,
}
use pastel_marketplace.Pagination.Offsets.{build_offset_meta-agrees}
use pastel_marketplace.Pagination.Cursors.{build_cursor_meta-first}

abbrev row_cursor : String → Cursor
row_cursor row = record { v = "2026"; id = row }

abbrev plain : Cursor → String
plain c = c.v ⊕ ":" ⊕ c.id

abbrev rows : List String
rows = "a" ∷ "b" ∷ "c" ∷ []

first_page :
    build_page plain (take 3 rows) 2 row_cursor none
    ≡ record { items = "a" ∷ "b" ∷ []; next_cursor = some "2026:b"; approx_total = none }
unfolding build_page
first_page = refl

build_offset_meta-agrees_example :
    let meta = build_offset_meta (record { page = 2; limit = 20; total = 41 }) in
    let query = to_skip_take 2 20 in
    (meta.has_next ≡ ltb (query.skip + query.take) 41)
    × (meta.has_previous ≡ (ltb 0 query.skip && ltb 0 41))
build_offset_meta-agrees_example = build_offset_meta-agrees 2 20 41 (omega arith) (omega arith)

abbrev two_a_page : CursorMetaInput
two_a_page = record { per_page = 2; has_previous = false }

build_cursor_meta-first_example :
    let page = build_page plain (take (2 + 1) rows) 2 row_cursor none in
    let meta = build_cursor_meta page two_a_page in
    (meta.has_next ≡ ltb 2 (length rows)) × (meta.count ≡ length (take 2 rows))
build_cursor_meta-first_example =
    build_cursor_meta-first plain row_cursor rows 2 none two_a_page (omega arith)
