-- ===== src/Catalog.antt =====
-- src/modules/catalog/services/listing.service.ts: the listings of sellers.
pub mod Stock
pub mod Search
pub mod Injection
use pastel_marketplace.Base.{
  ℕ, ◌+◌, String, Bool, true, false, Option, none, some, List, [], ◌∷◌, ◌++◌, find?, any, not, ◌&&◌,
  ◌||◌, if◌then◌else◌, ◌==◌, or_else, filter, take, filter, take,
}
use pastel_marketplace.Base.Int.{ℤ}
use pastel_marketplace.Base.Rows.{update_where, count}
use pastel_marketplace.Base.Text.{◌===◌, to_upper_case}
use pastel_marketplace.Base.Result.{
  Exception, Result, ok, err, not_found, forbidden, conflict, prisma,
}
use pastel_marketplace.Service.{
  Service, pure, reads, writes, some_or, throw_when, atomically, ◌>>=◌, ◌>>◌,
}
use pastel_marketplace.Pagination.Keyset.{Key, Coding, newest_first}
use pastel_marketplace.Database.{ListingState, draft, published, closed}

-- The columns that the service reads or writes; a quantity is not negative.
pub record Listing : Type 0 where
  pub id : String
  pub author_id : String
  pub title : String
  pub description : Option String
  pub state : ListingState
  pub price_amount : Option ℤ
  pub price_currency : Option String
  pub category_l1 : Option String
  pub category_l2 : Option String
  pub category_l3 : Option String
  pub condition : Option String
  pub period : Option String
  pub origin : Option String
  pub materials : List String
  pub stock_quantity : ℕ
  pub stock_version : ℕ
  pub created_at : ℕ
  pub published_at : Option ℕ
  pub deleted_at : Option ℕ

pub record CreateListingDto : Type 0 where
  pub title : String
  pub description : Option String
  pub price_amount : Option ℤ
  pub price_currency : Option String
  pub category_l1 : Option String
  pub category_l2 : Option String
  pub category_l3 : Option String
  pub condition : Option String
  pub period : Option String
  pub origin : Option String
  pub materials : Option (List String)
  pub stock_quantity : Option ℕ

-- The same fields, with a title that may be left out.
pub record UpdateListingDto : Type 0 where
  pub title : Option String
  pub fields : CreateListingDto

-- An event is a topic and the listing that it is about.
pub record CatalogDb : Type 0 where
  pub created : ℕ
  pub listings : List Listing
  pub outbox : List (String × String)

abbrev pub listing_not_found : Exception
listing_not_found = not_found "Listing not found."

abbrev pub not_listing_owner : Exception
not_listing_owner = forbidden "You can only manage your own listings."

abbrev pub stock_version_conflict : Exception
stock_version_conflict =
    conflict "This listing changed while you were editing it. Reload and try again."

abbrev pub listing_by_id : String → Listing → Bool
listing_by_id id l = l.id === id

abbrev pub is_absent {ℓ} : {A : Type ℓ} → Option A → Bool
is_absent none = true
is_absent (some a) = false

-- `prisma.listing.update({ where: { id }, … })`
unfoldable pub update_listing : String → (Listing → Listing) → Service CatalogDb Listing
update_listing id change = do
  writes λ db. record db { listings = update_where (listing_by_id id) change db.listings }
  found ← reads λ db. find? (listing_by_id id) db.listings
  some_or found (prisma "P2025")

unfoldable pub assert_owner : String → String → Service CatalogDb (Unit {0})
assert_owner id author_id = do
  found ← reads λ db. find? (listing_by_id id) db.listings
  listing ← some_or found listing_not_found
  throw_when (not (is_absent listing.deleted_at)) listing_not_found
  throw_when (not (listing.author_id === author_id)) not_listing_owner

-- `outbox.emit`
abbrev emit : String → String → Service CatalogDb (Unit {0})
emit topic id = writes λ db. record db { outbox = db.outbox ++ (topic, id) ∷ [] }

unfoldable pub get_public : String → Service CatalogDb Listing
get_public id = do
  found ← reads λ db. find? (λ l. listing_by_id id l && is_absent l.deleted_at) db.listings
  some_or found listing_not_found

-- An update of the owner's listing, with its event, in one transaction.
unfoldable pub change_state :
    String → String → (Listing → Listing) → String → Service CatalogDb Listing
unfolding update_listing assert_owner
change_state id author_id change topic = do
  assert_owner id author_id
  atomically (do listing ← update_listing id change; emit topic id; pure listing)

abbrev upper : Option String → Option String
upper none = none
upper (some s) = some (to_upper_case s)

-- An omitted field keeps the column; a field that is given replaces it.
abbrev kept {ℓ} : {A : Type ℓ} → Option A → Option A → Option A
kept none old = old
kept (some a) old = some a

abbrev pub edited : UpdateListingDto → Listing → Listing
edited dto l = record l {
  title = or_else dto.title l.title;
  description = kept dto.fields.description l.description;
  price_amount = kept dto.fields.price_amount l.price_amount;
  price_currency = kept (upper dto.fields.price_currency) l.price_currency;
  category_l1 = kept dto.fields.category_l1 l.category_l1;
  category_l2 = kept dto.fields.category_l2 l.category_l2;
  category_l3 = kept dto.fields.category_l3 l.category_l3;
  condition = kept dto.fields.condition l.condition;
  period = kept dto.fields.period l.period;
  origin = kept dto.fields.origin l.origin;
  materials = or_else dto.fields.materials l.materials;
}

unfoldable pub update : String → String → UpdateListingDto → Service CatalogDb Listing
unfolding update_listing assert_owner to_upper_case
update id author_id dto = do assert_owner id author_id; update_listing id (edited dto)

unfoldable pub close : String → String → Service CatalogDb Listing
unfolding change_state
close id author_id = change_state id author_id (λ l. record l { state = closed }) "listing.closed"

module _ (now : ℕ) where
  abbrev pub shown : Listing → Listing
  shown l = record l { state = published; published_at = some now }

  unfoldable pub publish : String → String → Service CatalogDb Listing
  unfolding change_state
  publish id author_id = change_state id author_id shown "listing.published"

  unfoldable pub reopen : String → String → Service CatalogDb Listing
  unfolding change_state
  reopen id author_id = change_state id author_id shown "listing.published"

  unfoldable pub soft_delete : String → String → Service CatalogDb (Unit {0})
  unfolding update_listing assert_owner
  soft_delete id author_id = do
    assert_owner id author_id
    listing ← update_listing id (λ l. record l { deleted_at = some now; state = closed })
    pure tt

  unfoldable pub create : (ℕ → String) → String → CreateListingDto → Service CatalogDb Listing
  unfolding to_upper_case
  create uuid author_id dto db =
      let row : Listing = record {
        id = uuid db.created;
        author_id = author_id;
        title = dto.title;
        description = dto.description;
        state = draft;
        price_amount = dto.price_amount;
        price_currency = upper dto.price_currency;
        category_l1 = dto.category_l1;
        category_l2 = dto.category_l2;
        category_l3 = dto.category_l3;
        condition = dto.condition;
        period = dto.period;
        origin = dto.origin;
        materials = or_else dto.materials [];
        stock_quantity = or_else dto.stock_quantity 0;
        stock_version = 0;
        created_at = now;
        published_at = none;
        deleted_at = none;
      } in
      (ok row, record db { created = db.created + 1; listings = db.listings ++ row ∷ [] })

-- The rows that `setStock` may change.
abbrev pub is_target : String → String → Option ℕ → Listing → Bool
is_target id author_id expected l =
    listing_by_id id l
    && l.author_id === author_id
    && is_absent l.deleted_at
    && elim expected [ none ↦ true | some v ↦ l.stock_version == v ]

abbrev pub stocked : ℕ → Listing → Listing
stocked quantity l = record l {
  stock_quantity = quantity;
  stock_version = l.stock_version + 1;
  state = if quantity == 0 then closed else l.state;
}

abbrev pub is_own : String → String → Listing → Bool
is_own id author_id l = listing_by_id id l && l.author_id === author_id

-- What `setStock` answers after its write, by the number of rows that were changed.
unfoldable pub answer : String → String → ℕ → Service CatalogDb Listing
answer id author_id changed_rows = elim (changed_rows == 0) [
  | true ↦ do
    exists_ ← reads λ db. any (is_own id author_id) db.listings
    throw_when (not exists_) not_listing_owner
    some_or none stock_version_conflict
  | false ↦ do
    found ← reads λ db. find? (listing_by_id id) db.listings
    some_or found (prisma "P2025")
]

unfoldable pub set_stock : String → String → ℕ → Option ℕ → Service CatalogDb Listing
unfolding answer
set_stock id author_id quantity expected = do
  changed_rows ← reads λ db. count (is_target id author_id expected) db.listings
  writes λ db. record db {
    listings = update_where (is_target id author_id expected) (stocked quantity) db.listings;
  }
  answer id author_id changed_rows

-- The owner's listings, newest first, `limit` of them.
unfoldable pub list_own : Coding → String → ℕ → CatalogDb → List Listing
list_own coding author_id limit db = take limit (
    newest_first coding (λ (l : Listing). record { at = l.created_at; id = l.id })
      (filter (λ l. l.author_id === author_id && is_absent l.deleted_at) db.listings))
