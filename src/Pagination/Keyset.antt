-- ===== src/Pagination/Keyset.antt =====
-- Lists in pages by keyset: the queries that the services build from a cursor, newest rows first,
-- with the id behind the time. keysetSeek and toKeysetCursor of admin-moderation.service.ts have the
-- shape that the other services repeat.
use pastel_marketplace.Base.{
  ℕ, ◌+◌, String, Bool, true, Option, none, some, List, [], ◌∷◌, ◌&&◌, ◌||◌, if◌then◌else◌, ltb,
  ◌==◌, filter, take,
}
use pastel_marketplace.Base.Text.{◌===◌}
use pastel_marketplace.Pagination.{Cursor, Page, build_page}

-- The columns that a list is ordered by.
pub record Key : Type 0 where
  pub at : ℕ
  pub id : String

-- What the platform and the database do: base64url and JSON of a cursor, ISO dates, and the order of
-- the ids. `decode` is none where decodeCursor returns null.
pub record Coding : Type 0 where
  pub encode : Cursor → String
  pub decode : String → Option Cursor
  pub to_iso : ℕ → String
  pub new_date : String → ℕ
  pub id_lt : String → String → Bool

module _ (coding : Coding) where
  -- (createdAt, id) < (createdAt', id')
  abbrev pub key_lt : Key → Key → Bool
  key_lt k k' = ltb k.at k'.at || (k.at == k'.at && coding.id_lt k.id k'.id)

  abbrev pub to_keyset_cursor : Key → Cursor
  to_keyset_cursor k = record { v = coding.to_iso k.at; id = k.id }

  abbrev pub key_of : Cursor → Key
  key_of c = record { at = coding.new_date c.v; id = c.id }

  -- The key that a page starts behind; an absent or empty token, and one that cannot be read, is none.
  abbrev decoded : Option Cursor → Option Key
  decoded none = none
  decoded (some c) = some (key_of c)

  unfoldable pub seek_from : Option String → Option Key
  seek_from none = none
  seek_from (some token) = if token === "" then none else decoded (coding.decode token)

  -- `OR: [{ createdAt: { lt } }, { createdAt, id: { lt } }]`
  abbrev pub is_behind : Option Key → Key → Bool
  is_behind none k = true
  is_behind (some last) k = key_lt k last

  module _ {T : Type 0} (key : T → Key) where
    -- `orderBy: [{ createdAt: 'desc' }, { id: 'desc' }]`
    abbrev pub insert : T → List T → List T
    insert x [] = x ∷ []
    insert x (y ∷ ys) =
        let rest = insert x ys in if key_lt (key x) (key y) then y ∷ rest else x ∷ (y ∷ ys)

    abbrev pub newest_first : List T → List T
    newest_first [] = []
    newest_first (x ∷ xs) = insert x (newest_first xs)

    -- `findMany` with the seek, the order and `take: perPage + 1`, and `buildPage` of its rows
    unfoldable pub list_page : (T → Bool) → ℕ → Option String → List T → Page T
    unfolding build_page seek_from
    list_page where_ per_page token rows =
        let found =
          take (per_page + 1)
            (newest_first (filter (λ x. where_ x && is_behind (seek_from token) (key x)) rows)) in
        build_page coding.encode found per_page (λ x. to_keyset_cursor (key x)) none
