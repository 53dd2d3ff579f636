-- ===== src/Pagination/Cursors.antt =====
-- A page by cursor, from one row more than the page holds.
use pastel_marketplace.Base.{
  ℕ, zero, suc, ◌+◌, ◌≤◌, ◌≡◌, refl, sym, ap, ◌∙◌, String, Bool, true, false, Option, none, some,
  List, [], ◌∷◌, arith, ltb, if◌then◌else◌, length, take, get_last?,
}
use mathlib.Core.Path.{subst}
use pastel_marketplace.Pagination.{
  Cursor, Page, CursorMetaInput, is_some, next_from, build_page, build_cursor_meta,
}

module _ {ℓ} {T : Type ℓ} where
  take-take : (n : ℕ) (xs : List T) → take n (take (suc n) xs) ≡ take n xs
  take-take zero xs = refl
  take-take (suc n) [] = refl
  take-take (suc n) (x ∷ xs) = ap (λ l. x ∷ l) (take-take n xs)

  take_all : (n : ℕ) (xs : List T) → length xs ≤ n → take n xs ≡ xs
  take_all zero [] h = refl
  take_all zero (x ∷ xs) h = absurd (omega arith)
  take_all (suc n) [] h = refl
  take_all (suc n) (x ∷ xs) h = ap (λ l. x ∷ l) (take_all n xs (omega arith))

  ltb-length-take : (n : ℕ) (xs : List T) → ltb n (length (take (suc n) xs)) ≡ ltb n (length xs)
  ltb-length-take zero [] = refl
  ltb-length-take zero (x ∷ xs) = ground arith
  ltb-length-take (suc n) [] = refl
  ltb-length-take (suc n) (x ∷ xs) = let rest = ltb-length-take n xs in ground arith

  first_items :
      (n : ℕ) (left : List T) (b : Bool)
      → ltb n (length left) ≡ b
      → (if b then take n (take (suc n) left) else take (suc n) left) ≡ take n left
  first_items n left true e = take-take n left
  first_items n left false e =
      take_all (suc n) left (ground arith) ∙ sym (take_all n left (ground arith))

  -- A page of items, with the cursor of the last one where more rows follow.
  abbrev pub page_with : (Cursor → String) → (T → Cursor) → Option ℕ → List T → Bool → Page T
  page_with encode_cursor to_cursor approx_total items has_more = record {
    items = items;
    next_cursor = next_from encode_cursor has_more (get_last? items) to_cursor;
    approx_total = approx_total;
  }

  -- From the first `limit + 1` of the rows that are left, the page has the first `limit` of them,
  -- and a cursor, of its last row, exactly where more than `limit` are left.
  pub build_page-first :
      (encode_cursor : Cursor → String) (to_cursor : T → Cursor) (left : List T) (limit : ℕ)
      (approx_total : Option ℕ)
      → build_page encode_cursor (take (limit + 1) left) limit to_cursor approx_total
        ≡ page_with encode_cursor to_cursor approx_total (take limit left) (ltb limit (length left))
  unfolding build_page
  build_page-first encode_cursor to_cursor left limit approx_total =
      let one : suc limit ≡ limit + 1 = omega arith in
      let more = ltb-length-take limit left in
      let items : (if ltb limit (length (take (suc limit) left))
            then take limit (take (suc limit) left)
            else take (suc limit) left)
          ≡ take limit left =
        ap (λ b. if b then take limit (take (suc limit) left) else take (suc limit) left) more
        ∙ first_items limit left (ltb limit (length left)) refl in
      subst
        (λ m.
          build_page encode_cursor (take m left) limit to_cursor approx_total
          ≡ page_with encode_cursor to_cursor approx_total (take limit left)
              (ltb limit (length left)))
        one (λ i. page_with encode_cursor to_cursor approx_total (items i) (more i))

  last_is_some : (x : T) (xs : List T) → is_some (get_last? (x ∷ xs)) ≡ true
  last_is_some x [] = refl
  last_is_some x (y ∷ ys) = last_is_some y ys

  next_is_some :
      (encode_cursor : Cursor → String) (to_cursor : T → Cursor) (left : List T) (n : ℕ) (b : Bool)
      → ltb (suc n) (length left) ≡ b
      → is_some (next_from encode_cursor b (get_last? (take (suc n) left)) to_cursor) ≡ b
  next_is_some encode_cursor to_cursor left n false e = refl
  next_is_some encode_cursor to_cursor [] n true e = ground arith
  next_is_some encode_cursor to_cursor (x ∷ xs) n true e =
      present (get_last? (x ∷ take n xs)) (last_is_some x (take n xs))
    where
      present :
          (o : Option T)
          → is_some o ≡ true
          → is_some (next_from encode_cursor true o to_cursor) ≡ true
      present none h = h
      present (some l) h = refl

  -- For a limit of at least one, the metadata of such a page says that a next page exists exactly
  -- where more than `limit` rows are left, and counts the rows of the page.
  pub build_cursor_meta-first :
      (encode_cursor : Cursor → String) (to_cursor : T → Cursor) (left : List T) (limit : ℕ)
      (approx_total : Option ℕ) (input : CursorMetaInput)
      → 1 ≤ limit
      → let page = build_page encode_cursor (take (limit + 1) left) limit to_cursor approx_total in
        let meta = build_cursor_meta page input in
        (meta.has_next ≡ ltb limit (length left)) × (meta.count ≡ length (take limit left))
  unfolding build_cursor_meta
  build_cursor_meta-first encode_cursor to_cursor left zero approx_total input h =
      absurd (omega arith)
  build_cursor_meta-first encode_cursor to_cursor left (suc n) approx_total input h =
      let first = build_page-first encode_cursor to_cursor left (suc n) approx_total in
      (
        ap (λ (p : Page T). is_some p.next_cursor) first
            ∙ next_is_some encode_cursor to_cursor left n (ltb (suc n) (length left)) refl,
        ap (λ (p : Page T). length p.items) first,
      )
