-- ===== src/Catalog/Stock.antt =====
-- Writes of the stock that compare a version first.
use pastel_marketplace.Base.{
  ℕ, ◌≡◌, refl, ap, ◌∙◌, String, Bool, true, false, some, List, [], ◌∷◌, find?, any, ◌||◌, ◌==◌,
  inl, inr, Bool-cases, arith,
}
use pastel_marketplace.Base.Rows.{update_where, count, count-update_all, update_where-none}
use pastel_marketplace.Base.Result.{ok, err}
use pastel_marketplace.Service.{refused, some_or-ok}
use pastel_marketplace.Catalog.{
  Listing, CatalogDb, set_stock, answer, is_target, is_own, stocked, stock_version_conflict,
  listing_by_id,
}

or_true : (p q : Bool) → q ≡ true → (p || q) ≡ true
or_true p q h = ground arith

answer-ok :
    (id author_id : String) (n : ℕ) (db db' : CatalogDb) (l : Listing)
    → answer id author_id n db ≡ (ok l, db')
    → ((n == 0) ≡ false) × (find? (listing_by_id id) db.listings ≡ some l) × (db' ≡ db)
unfolding answer
answer-ok id author_id n db db' l ran = elim (Bool-cases (n == 0)) [
  | inr some_rows ↦
      let (found, same) = some_or-ok _ _ db (rw (some_rows, answer) at ran) in
      (some_rows, found, same)
  | inl no_rows ↦ elim (Bool-cases (any (is_own id author_id) db.listings)) [
    | inl own ↦ refused (rw (no_rows, answer, own) at ran)
    | inr other ↦ refused (rw (no_rows, answer, other) at ran)
  ]
]

-- A written row is no target of the version any more, and still the owner's.
module _ (id author_id : String) (version quantity : ℕ) where
  abbrev target : Listing → Bool
  target l = is_target id author_id (some version) l

  moved_on : (l : Listing) → target l ≡ true → target (stocked quantity l) ≡ false
  moved_on l h = ground arith

  still_own : (l : Listing) → target l ≡ true → is_own id author_id (stocked quantity l) ≡ true
  still_own l h = ground arith

  own_kept :
      (ls : List Listing)
      → (count target ls == 0) ≡ false
      → any (is_own id author_id) (update_where target (stocked quantity) ls) ≡ true
  own_kept [] h = absurd (ground arith)
  own_kept (l ∷ ls) h = elim (Bool-cases (target l)) [
    | inl hit ↦ rw (hit, still_own l hit) refl
    | inr miss ↦ or_true _ _ (own_kept ls (ground arith))
  ]

-- Of two writes of the stock of a listing by its author that expect the same version, only the
-- first succeeds: on the database that a successful one left, the second is a conflict, and
-- changes nothing.
pub set_stock-lost :
    (id author_id : String) (quantity quantity' version : ℕ) (db db' : CatalogDb) (l : Listing)
    → set_stock id author_id quantity (some version) db ≡ (ok l, db')
    → set_stock id author_id quantity' (some version) db' ≡ (err stock_version_conflict, db')
unfolding set_stock answer
set_stock-lost id author_id quantity quantity' version db db' l ran =
    let t = is_target id author_id (some version) in
    let s0 : CatalogDb = record db { listings = update_where t (stocked quantity) db.listings } in
    let (written, _, same) = answer-ok id author_id (count t db.listings) s0 db' l ran in
    let rows = ap (λ (x : CatalogDb). x.listings) same in
    let none_left : count t db'.listings ≡ 0 =
      ap (count t) rows
      ∙ count-update_all t t (stocked quantity) db.listings (λ l h. h)
          (moved_on id author_id version quantity) in
    let own : any (is_own id author_id) db'.listings ≡ true =
      ap (any (is_own id author_id)) rows
      ∙ own_kept id author_id version quantity db.listings written in
    let unchanged : update_where t (stocked quantity') db'.listings ≡ db'.listings =
      update_where-none t (stocked quantity') db'.listings none_left in
    rw (none_left, unchanged, own) refl
