-- ===== src/Idempotency.antt =====
-- src/common/idempotency/idempotency.service.ts: keys of requests that must not run twice.
use pastel_marketplace.Base.{
  ℕ, ◌≡◌, refl, ◌∙◌, String, Bool, true, false, Option, none, some, List, [], ◌∷◌, ◌++◌, find?, any,
  if◌then◌else◌, arith,
}
use pastel_marketplace.Base.Rows.{update_where, find?-updated, find?-append_none}
use pastel_marketplace.Base.Text.{◌===◌, ===_iff}
use pastel_marketplace.Base.Result.{ok, err, prisma}
use pastel_marketplace.Service.{Service}

-- The response is a JSON text; it is stored together with the status code.
pub record IdempotencyKey : Type 0 where
  pub key : String
  pub scope : String
  pub status_code : Option ℕ
  pub response : Option String

pub record IdempotentResult : Type 0 where
  pub status_code : ℕ
  pub response : String

abbrev pub Keys : Type 0
Keys = List IdempotencyKey

abbrev pub has_key : String → IdempotencyKey → Bool
has_key key row = row.key === key

abbrev stored : Option ℕ → Option String → Option IdempotentResult
stored (some code) (some response) = some (record { status_code = code; response = response })
stored _ _ = none

abbrev stored_in : Option IdempotencyKey → Option IdempotentResult
stored_in none = none
stored_in (some row) = stored row.status_code row.response

unfoldable pub lookup : String → Keys → Option IdempotentResult
lookup key rows = stored_in (find? (has_key key) rows)

-- True where the key was free.
unfoldable pub reserve : String → String → Service Keys Bool
reserve key scope rows = if any (has_key key) rows then (ok false, rows) else (
  ok true,
  rows ++ record { key = key; scope = scope; status_code = none; response = none } ∷ [],
)

unfoldable pub store : String → ℕ → String → Service Keys (Unit {0})
store key code response rows =
    if any (has_key key) rows
    then (
      ok tt,
      update_where (has_key key)
          (λ row. record row { status_code = some code; response = some response }) rows,
    )
    else (err (prisma "P2025"), rows)

found_none :
    (key : String) (rows : Keys) → any (has_key key) rows ≡ false → find? (has_key key) rows ≡ none
found_none key [] h = refl
found_none key (row ∷ rows) h = ground (arith, found_none key rows)

any-find :
    (key : String) (rows : Keys) (row : IdempotencyKey)
    → find? (has_key key) rows ≡ some row
    → any (has_key key) rows ≡ true
any-find key [] row e = cc
any-find key (r ∷ rows) row e = ground (arith, any-find key rows row)

module _ (key scope : String) (code : ℕ) (response : String) (rows : Keys) where
  abbrev reserved : IdempotencyKey
  reserved = record { key = key; scope = scope; status_code = none; response = none }

  abbrev answered : IdempotencyKey → IdempotencyKey
  answered row = record row { status_code = some code; response = some response }

  -- A key that is free can be reserved, and a response can then be stored under it; a look-up
  -- after that gives the response, and reserving the key again is refused and writes nothing.
  pub lookup-store :
      any (has_key key) rows ≡ false
      → let first = reserve key scope rows in
        let done = store key code response first.1 in
        (first.0 ≡ ok true)
        × (done.0 ≡ ok tt)
        × (lookup key done.1 ≡ some (record { status_code = code; response = response }))
        × (reserve key scope done.1 ≡ (ok false, done.1))
  unfolding reserve store lookup
  lookup-store free =
      let found : find? (has_key key) (rows ++ reserved ∷ []) ≡ some reserved =
        find?-append_none (has_key key) rows (reserved ∷ []) (found_none key rows free)
        ∙ rw ((===_iff key key).1 refl) refl in
      let there = any-find key (rows ++ reserved ∷ []) reserved found in
      let after =
        find?-updated (has_key key) answered (rows ++ reserved ∷ []) reserved (λ row h. h) found in
      let still =
        any-find key (update_where (has_key key) answered (rows ++ reserved ∷ []))
          (answered reserved) after in
      rw (free, there, after, still) (refl, refl, refl, refl)
