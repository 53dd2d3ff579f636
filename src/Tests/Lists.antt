-- ===== src/Tests/Lists.antt =====
-- Lists in pages, stock writes, notifications and keys at concrete inputs.
use pastel_marketplace.Base.{
  ℕ, ◌≡◌, ◌≢◌, ◌≤◌, refl, String, Bool, not, ◌&&◌, true, false, Option, none, some, List, [], ◌∷◌,
  filter, arith, ltb,
}
use pastel_marketplace.Base.Rows.{count}
use pastel_marketplace.Base.Text.{===_iff}
use pastel_marketplace.Base.Result.{ok, err}
use pastel_marketplace.Database.{published, closed}
use pastel_marketplace.Pagination.{Cursor}
use pastel_marketplace.Pagination.Keyset.{Key, Coding, newest_first}
use pastel_marketplace.Pagination.Sorting.{IsApart}
use pastel_marketplace.Pagination.Walk.{IsCoding, walk, walk-all}
use pastel_marketplace.Catalog.{Listing, CatalogDb, set_stock, stock_version_conflict}
use pastel_marketplace.Catalog.Stock.{set_stock-lost}
use pastel_marketplace.Notifications.{
  NotificationDb, CreateNotificationInput, create, unread_count, mark_read, is_unread, is_named,
}
use pastel_marketplace.Notifications.Inbox.{unread_count-mark_read}
use pastel_marketplace.Idempotency.{lookup, reserve, store, lookup-store}
use pastel_marketplace.Tests.{uuid}
use pastel_marketplace.Tests.Identity.{
  unary, size, size-unary, field, read_field, read-field, field-filled, ◌>>=◌,
}

-- Tokens that write the cursor out, dates in unary, and ids ordered by their length.
abbrev plain_decode : String → Option Cursor
plain_decode token = do
  (v, r1) ← read_field token
  (id, r2) ← read_field r1
  some (record { v = v; id = id })

abbrev plain : Coding
plain = record {
  encode = λ c. field c.v (field c.id "");
  decode = plain_decode;
  to_iso = unary;
  new_date = size;
  id_lt = λ a b. ltb (size a) (size b);
}

plain_decoded : (c : Cursor) → plain_decode (field c.v (field c.id "")) ≡ some c
plain_decoded c = rw (read-field c.v (field c.id ""), read-field c.id "") refl

plain-IsCoding : IsCoding plain
plain-IsCoding = record {
  decode-encode = plain_decoded;
  encoded = λ c. field-filled c.v (field c.id "");
  new_date-to_iso = size-unary;
  order = record { asym = λ a b h. ground arith; trans = λ a b c h h'. ground arith };
}

abbrev keys : List Key
keys =
    record { at = 3; id = "u" }
    ∷ record { at = 5; id = "u" }
    ∷ record { at = 3; id = "au" }
    ∷ record { at = 4; id = "u" }
    ∷ []

keys-IsApart : IsApart plain plain-IsCoding.order (λ k. k) keys
unfolding size
keys-IsApart = ((refl, (refl, (refl, tt))), ((refl, (refl, tt)), ((refl, tt), (tt, tt))))

-- Pages of one row, over the rows but the newest.
walk-all_example :
    walk plain (λ k. k) (λ k. ltb k.at 5) 1 keys 5 none
    ≡ newest_first plain (λ k. k) (filter (λ k. ltb k.at 5) keys)
walk-all_example =
    walk-all plain plain-IsCoding (λ k. k) (λ k. ltb k.at 5) 1 keys 5 (omega arith) keys-IsApart
      (omega arith)

-- The pages are rows in order.
walked :
    walk plain (λ k. k) (λ k. ltb k.at 5) 1 keys 5 none
    ≡ record { at = 4; id = "u" } ∷ record { at = 3; id = "au" } ∷ record { at = 3; id = "u" } ∷ []
unfolding walk field read_field unary size
walked = refl

abbrev chair : Listing
chair = record {
  id = "l";
  author_id = "a";
  title = "chair";
  description = none;
  state = published;
  price_amount = none;
  price_currency = none;
  category_l1 = none;
  category_l2 = none;
  category_l3 = none;
  condition = none;
  period = none;
  origin = none;
  materials = [];
  stock_quantity = 1;
  stock_version = 3;
  created_at = 1000;
  published_at = some 1000;
  deleted_at = none;
}

abbrev catalog : CatalogDb
catalog = record { created = 1; listings = chair ∷ []; outbox = [] }

abbrev sold_out : Listing
sold_out = record chair { stock_quantity = 0; stock_version = 4; state = closed }

abbrev emptied : CatalogDb
emptied = record catalog { listings = sold_out ∷ [] }

sells : set_stock "l" "a" 0 (some 3) catalog ≡ (ok sold_out, emptied)
unfolding set_stock
sells = refl

set_stock-lost_example :
    set_stock "l" "a" 2 (some 3) emptied ≡ (err stock_version_conflict, emptied)
set_stock-lost_example = set_stock-lost "l" "a" 0 2 3 catalog emptied sold_out sells

abbrev shipped : CreateNotificationInput
shipped = record {
  recipient_id = "b";
  kind = "order_shipped";
  recipient_mode = none;
  actor_id = none;
  actor_name = none;
  actor_image = none;
  listing_id = none;
  listing_title = none;
  order_id = some "o";
  show_id = none;
  story_id = none;
  message_preview = none;
}

abbrev empty_inbox : NotificationDb
empty_inbox = record { created = 0; notifications = []; preferences = []; push_tokens = [] }

abbrev inbox : NotificationDb
inbox = (create uuid 1000 shipped empty_inbox).1

unread_before : unread_count 3000 "b" inbox ≡ 1
unfolding unread_count create
unread_before = refl

abbrev two_inboxes : NotificationDb
two_inboxes = (create uuid 1500 (record shipped { recipient_id = "c" }) inbox).1

b_is_not_c : ◌≢◌ {A = String} "b" "c"
b_is_not_c e = let h : ◌≡◌ {A = Bool} false true = (===_iff "b" "c").1 e in cc h

unread_count-mark_read_example :
    (unread_count 3000 "b" (mark_read 3000 "b" none two_inboxes).1 ≡ 0)
    × ((n : ℕ) × ((mark_read 3000 "b" none two_inboxes).0 ≡ ok n)
        × (unread_count 3000 "b" two_inboxes ≤ n))
    × (unread_count 4000 "c" (mark_read 3000 "b" (some ("none" ∷ [])) two_inboxes).1
        ≡ unread_count 4000 "c" two_inboxes)
    × (count
          (λ n. is_unread "b" n && not (is_named (some ("none" ∷ [])) n))
          (mark_read 3000 "b" (some ("none" ∷ [])) two_inboxes).1.notifications
        ≡ count
            (λ n. is_unread "b" n && not (is_named (some ("none" ∷ [])) n))
            two_inboxes.notifications)
unread_count-mark_read_example =
    unread_count-mark_read 3000 4000 "b" "c" (some ("none" ∷ [])) two_inboxes b_is_not_c

lookup-store_example :
    let first = reserve "k" "checkout" [] in
    let done = store "k" 201 "{}" first.1 in
    (first.0 ≡ ok true)
    × (done.0 ≡ ok tt)
    × (lookup "k" done.1 ≡ some (record { status_code = 201; response = "{}" }))
    × (reserve "k" "checkout" done.1 ≡ (ok false, done.1))
lookup-store_example = lookup-store "k" "checkout" 201 "{}" [] refl
