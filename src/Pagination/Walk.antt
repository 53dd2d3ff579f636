-- ===== src/Pagination/Walk.antt =====
-- A client that follows the cursors of a list from page to page.
use pastel_marketplace.Base.{
  ℕ, zero, suc, ◌+◌, ◌≤◌, ◌<◌, ◌≡◌, refl, sym, ap, ◌∙◌, String, Bool, true, false, Option, none,
  some, List, [], ◌∷◌, ◌++◌, ◌&&◌, filter, take, length, get_last?, inl, inr, Bool-cases, arith,
  ltb,
}
use mathlib.Core.Path.{subst}
use pastel_marketplace.Base.Text.{◌===◌}
use pastel_marketplace.Pagination.{Cursor, Page, build_page}
use pastel_marketplace.Pagination.Cursors.{page_with, build_page-first}
use pastel_marketplace.Pagination.Keyset.{
  Key, Coding, key_lt, is_behind, seek_from, to_keyset_cursor, newest_first, insert, list_page,
}
use pastel_marketplace.Pagination.Sorting.{
  IsOrder, IsApart, IsSorted, filter-IsSorted, newest_first-IsSorted, filter-newest_first,
  filter-behind,
}

-- What the cursors rely on: a token gives its cursor back and is not empty, an ISO date its time, and
-- the ids are ordered.
pub record IsCoding (coding : Coding) : Type 0 where
  pub decode-encode : (c : Cursor) → coding.decode (coding.encode c) ≡ some c
  pub encoded : (c : Cursor) → (coding.encode c === "") ≡ false
  pub new_date-to_iso : (t : ℕ) → coding.new_date (coding.to_iso t) ≡ t
  pub order : IsOrder coding.id_lt

-- The items of a page, and those of the pages that its cursor leads to.
abbrev with_rest : {T : Type 0} → (Option String → List T) → Page T → List T
with_rest rest page = elim page.next_cursor [
  | none ↦ page.items
  | some next ↦ page.items ++ rest (some next)
]

module _ (coding : Coding) {T : Type 0} (key : T → Key) (where_ : T → Bool) (per_page : ℕ)
    (rows : List T) where
  -- The items of the pages from a token on; fuel for at least as many pages as there are rows is
  -- enough.
  unfoldable pub walk : ℕ → Option String → List T
  unfolding list_page
  walk zero token = []
  walk (suc fuel) token = with_rest (walk fuel) (list_page coding key where_ per_page token rows)

module _ {T : Type 0} where
  append_assoc : (xs ys zs : List T) → (xs ++ ys) ++ zs ≡ xs ++ (ys ++ zs)
  append_assoc [] ys zs = refl
  append_assoc (x ∷ xs) ys zs = ap (λ l. x ∷ l) (append_assoc xs ys zs)

  filter-both :
      (p q : T → Bool) (xs : List T) → filter (λ x. p x && q x) xs ≡ filter q (filter p xs)
  filter-both p q [] = refl
  filter-both p q (x ∷ xs) = ground (arith, filter-both p q xs)

  kept_by_true : (xs : List T) → filter (λ x. true) xs ≡ xs
  kept_by_true [] = refl
  kept_by_true (x ∷ xs) = ap (λ l. x ∷ l) (kept_by_true xs)

  all_taken : (n : ℕ) (xs : List T) → ltb n (length xs) ≡ false → take n xs ≡ xs
  all_taken zero [] h = refl
  all_taken zero (x ∷ xs) h = ground arith
  all_taken (suc n) [] h = refl
  all_taken (suc n) (x ∷ xs) h = ap (λ l. x ∷ l) (all_taken n xs (ground arith))

  -- Where a list goes on behind its first rows, the last of these parts it.
  record IsCut (n : ℕ) (xs : List T) : Type 0 where
    front : List T
    last : T
    back : List T
    taken : take n xs ≡ front ++ last ∷ []
    is_last : get_last? (take n xs) ≡ some last
    whole : xs ≡ front ++ last ∷ back
    shorter : length back < length xs

  cut : (n : ℕ) (xs : List T) → 1 ≤ n → ltb n (length xs) ≡ true → IsCut n xs
  cut zero xs le h = absurd (omega arith)
  cut (suc n) [] le h = absurd (ground arith)
  cut (suc zero) (x ∷ xs) le h = record {
    front = [];
    last = x;
    back = xs;
    taken = refl;
    is_last = refl;
    whole = refl;
    shorter = omega arith;
  }
  cut (suc (suc n)) (x ∷ []) le h = absurd (ground arith)
  cut (suc (suc n)) (x ∷ (y ∷ xs)) le h =
      let c = cut (suc n) (y ∷ xs) (omega arith) (ground arith) in
      record {
        front = x ∷ c.front;
        last = c.last;
        back = c.back;
        taken = ap (λ l. x ∷ l) c.taken;
        is_last = c.is_last;
        whole = ap (λ l. x ∷ l) c.whole;
        shorter = omega (arith, c.shorter);
      }

  length-filter : (p : T → Bool) (xs : List T) → length (filter p xs) ≤ length xs
  length-filter p [] = omega arith
  length-filter p (x ∷ xs) = ground (arith, length-filter p xs)

module _ (coding : Coding) (laws : IsCoding coding) {T : Type 0} (key : T → Key) (where_ : T → Bool)
    (per_page : ℕ) (rows : List T) where
  length-insert : (x : T) (ys : List T) → length (insert coding key x ys) ≡ length ys + 1
  length-insert x [] = refl
  length-insert x (y ∷ ys) = ground (arith, length-insert x ys)

  length-newest_first : (xs : List T) → length (newest_first coding key xs) ≡ length xs
  length-newest_first [] = refl
  length-newest_first (x ∷ xs) =
      omega (arith, length-insert x (newest_first coding key xs), length-newest_first xs)

  abbrev listed : List T
  listed = newest_first coding key (filter where_ rows)

  abbrev behind : Option String → T → Bool
  behind token x = is_behind coding (seek_from coding token) (key x)

  found :
      (token : Option String)
      → IsApart coding laws.order key rows
      → newest_first coding key (filter (λ x. where_ x && behind token x) rows)
        ≡ filter (behind token) listed
  found token a =
      filter-newest_first coding laws.order key (λ x. where_ x && behind token x) rows a
      ∙ filter-both where_ (behind token) (newest_first coding key rows)
      ∙ ap (filter (behind token)) (sym (filter-newest_first coding laws.order key where_ rows a))

  page_at :
      (token : Option String) (left : List T)
      → IsApart coding laws.order key rows
      → filter (behind token) listed ≡ left
      → list_page coding key where_ per_page token rows
        ≡ page_with coding.encode
            (λ x. to_keyset_cursor coding (key x))
            none
            (take per_page left)
            (ltb per_page (length left))
  unfolding list_page
  page_at token left a h =
      ap
        (λ l.
          build_page coding.encode (take (per_page + 1) l) per_page
            (λ x. to_keyset_cursor coding (key x)) none)
        (found token a ∙ h)
      ∙ build_page-first coding.encode (λ x. to_keyset_cursor coding (key x)) left per_page none

  seek_from-encode :
      (k : Key) → seek_from coding (some (coding.encode (to_keyset_cursor coding k))) ≡ some k
  unfolding seek_from
  seek_from-encode k =
      let c = to_keyset_cursor coding k in
      rw (laws.encoded c, laws.decode-encode c, laws.new_date-to_iso k.at) refl

  walk-from :
      (fuel : ℕ) (token : Option String) (front left : List T)
      → 1 ≤ per_page
      → IsApart coding laws.order key rows
      → IsSorted coding laws.order key listed
      → listed ≡ front ++ left
      → filter (behind token) listed ≡ left
      → length left < fuel
      → walk coding key where_ per_page rows fuel token ≡ left
  unfolding walk
  walk-from zero token front left le a sorted e h short = absurd (omega arith)
  walk-from (suc fuel) token front left le a sorted e h short =
      elim (Bool-cases (ltb per_page (length left))) [
        | inr last_page ↦
            ap (with_rest (walk coding key where_ per_page rows fuel)) (page_at token left a h)
            ∙ rw last_page (all_taken per_page left last_page)
        | inl more ↦
            let c = cut per_page left le more in
            let next = some (coding.encode (to_keyset_cursor coding (key c.last))) in
            let whole : listed ≡ (front ++ c.front) ++ c.last ∷ c.back =
              e
              ∙ ap (λ l. front ++ l) c.whole
              ∙ sym (append_assoc front c.front (c.last ∷ c.back)) in
            let rest : filter (behind next) listed ≡ c.back =
              ap (λ s. filter (λ x. is_behind coding s (key x)) listed)
                (seek_from-encode (key c.last))
              ∙ ap (filter (λ x. key_lt coding (key x) (key c.last))) whole
              ∙ filter-behind coding laws.order key (front ++ c.front) c.back c.last
                  (subst (IsSorted coding laws.order key) whole sorted) in
            let onward =
              walk-from fuel next ((front ++ c.front) ++ c.last ∷ []) c.back le a sorted
                (whole ∙ sym (append_assoc (front ++ c.front) (c.last ∷ []) c.back)) rest
                (omega (arith, c.shorter, short)) in
            ap (with_rest (walk coding key where_ per_page rows fuel)) (page_at token left a h)
            ∙ rw (more, c.is_last)
                (ap (λ t. t ++ walk coding key where_ per_page rows fuel next) c.taken
                  ∙ ap (λ r. (c.front ++ c.last ∷ []) ++ r) onward
                  ∙ append_assoc c.front (c.last ∷ []) c.back
                  ∙ sym c.whole)
      ]

  -- The pages of a list, followed from the first by their cursors, are together all rows that
  -- match, each of them once, newest first: for tokens and dates that are read back as they were
  -- written, a page of at least one row, rows that stand at different places of the order, and
  -- fuel for more pages than there are rows.
  pub walk-all :
      (fuel : ℕ)
      → 1 ≤ per_page
      → IsApart coding laws.order key rows
      → length rows < fuel
      → walk coding key where_ per_page rows fuel none
        ≡ newest_first coding key (filter where_ rows)
  unfolding seek_from
  walk-all fuel le a enough =
      let sorted =
        subst (IsSorted coding laws.order key)
          (sym (filter-newest_first coding laws.order key where_ rows a))
          (filter-IsSorted coding laws.order key where_ (newest_first coding key rows)
            (newest_first-IsSorted coding laws.order key rows a)) in
      walk-from fuel none [] listed le a sorted refl (kept_by_true listed)
        (omega (arith, length-newest_first (filter where_ rows), length-filter where_ rows))
