-- ===== src/Catalog/Injection.antt =====
-- The text of a search query does not depend on what the caller searches for.
use pastel_marketplace.Base.{
  if◌then◌else◌, ℕ, ◌+◌, ◌≡◌, refl, sym, ap, ◌∙◌, String, Bool, true, false, Option, none, some,
  List, [], ◌∷◌, ◌++◌, length, or_else, inl, inr, Bool-cases, arith,
}
use mathlib.Core.Path.{subst}
use pastel_marketplace.Base.Text.{◌===◌, ◌⊕◌, show}
use pastel_marketplace.Base.Result.{Result, ok, err, ok-injective, >>=-eq-ok}
use pastel_marketplace.Pagination.{Cursor}
use pastel_marketplace.Catalog.Search.{
  Param, text, columns, where_sql, Builder, SortPlan, SearchListingsDto, next_name, bind, push,
  filter_by, filled, words, listed, numbered, above, only_in_stock, filters, sort_plan, column_plan,
  rank_plan, seek, finished, read_cursor, search_query,
}

abbrev pub is_there {ℓ} : {A : Type ℓ} → Option A → Bool
is_there none = false
is_there (some a) = true

-- Where a query starts behind a row.
abbrev pub seeks : Result (Option Cursor) → Bool
seeks (err e) = false
seeks (ok c) = is_there c

-- `dto.stock === 'in'`
abbrev is_in : Option String → Bool
is_in none = false
is_in (some s) = s === "in"

-- Both are one and the same of the sorts that the service knows, or neither is any of them.
pub record IsSameSort (s s' : String) : Type 0 where
  pub relevance : (s === "relevance") ≡ (s' === "relevance")
  pub created : (s === "createdAt") ≡ (s' === "createdAt")
  pub cheapest : (s === "price") ≡ (s' === "price")
  pub dearest : (s === "-price") ≡ (s' === "-price")
  pub popular : (s === "popularity") ≡ (s' === "popularity")

-- Two searches of one form: the same filters are there, with values of their own; the sorts are the
-- same known one, or any two unknown texts; both ask for stock, or both have any other text or none
-- there; both start at the first row, or both behind one.
pub record IsAlike (decode : String → Option Cursor) (q q' : SearchListingsDto) : Type 0 where
  pub keywords : is_there (words q.keywords) ≡ is_there (words q'.keywords)
  pub category_l1 : is_there (filled q.category_l1) ≡ is_there (filled q'.category_l1)
  pub category_l2 : is_there (filled q.category_l2) ≡ is_there (filled q'.category_l2)
  pub category_l3 : is_there (filled q.category_l3) ≡ is_there (filled q'.category_l3)
  pub listing_type : is_there (filled q.listing_type) ≡ is_there (filled q'.listing_type)
  pub condition : is_there (filled q.condition) ≡ is_there (filled q'.condition)
  pub price_min : is_there (numbered q.price_min) ≡ is_there (numbered q'.price_min)
  pub price_max : is_there (above q.price_max) ≡ is_there (above q'.price_max)
  pub materials_all : is_there (listed q.materials_all) ≡ is_there (listed q'.materials_all)
  pub materials_any : is_there (listed q.materials_any) ≡ is_there (listed q'.materials_any)
  pub stock : is_in q.stock ≡ is_in q'.stock
  pub sort : IsSameSort (or_else q.sort "-createdAt") (or_else q'.sort "-createdAt")
  pub cursor : seeks (read_cursor decode q.cursor) ≡ seeks (read_cursor decode q'.cursor)

record IsSame (b b' : Builder) : Type 0 where
  conditions : b.where_ ≡ b'.where_
  bound : length b.params ≡ length b'.params

length-append_one : {A : Type 0} (xs : List A) (x : A) → length (xs ++ x ∷ []) ≡ length xs + 1
length-append_one [] x = refl
length-append_one (y ∷ xs) x = omega (arith, length-append_one xs x)

one_more :
    {A : Type 0} (xs ys : List A) (x y : A)
    → length xs ≡ length ys
    → length (xs ++ x ∷ []) ≡ length (ys ++ y ∷ [])
one_more xs ys x y h = omega (arith, h, length-append_one xs x, length-append_one ys y)

next_name-IsSame : (b b' : Builder) → IsSame b b' → next_name b ≡ next_name b'
unfolding next_name
next_name-IsSame b b' h = ap (λ n. "$" ⊕ show (n + 1)) h.bound

push-IsSame :
    (s t : String) (v v' : Param) (b b' : Builder)
    → IsSame b b'
    → IsSame (push s v t b) (push s v' t b')
push-IsSame s t v v' b b' h = record {
  conditions = λ i. h.conditions i ++ (s ⊕ next_name-IsSame b b' h i ⊕ t) ∷ [];
  bound = one_more b.params b'.params v v' h.bound;
}

filter_by-IsSame :
    (s t : String) (o o' : Option Param) (b b' : Builder)
    → is_there o ≡ is_there o'
    → IsSame b b'
    → IsSame (filter_by s o t b) (filter_by s o' t b')
filter_by-IsSame s t none none b b' e h = h
filter_by-IsSame s t none (some v) b b' e h = absurd (ground arith)
filter_by-IsSame s t (some v) none b b' e h = absurd (ground arith)
filter_by-IsSame s t (some v) (some v') b b' e h = push-IsSame s t v v' b b' h

only_in_stock_lem :
    (o : Option String) (b : Builder)
    → only_in_stock o b
      ≡ (if is_in o then record b { where_ = b.where_ ++ "in_stock = true" ∷ [] } else b)
only_in_stock_lem none b = refl
only_in_stock_lem (some s) b = refl

only_in_stock-IsSame :
    (o o' : Option String) (b b' : Builder)
    → is_in o ≡ is_in o'
    → IsSame b b'
    → IsSame (only_in_stock o b) (only_in_stock o' b')
only_in_stock-IsSame o o' b b' e h = elim (Bool-cases (is_in o')) [
  | inl only ↦
      rw (only_in_stock_lem o b, only_in_stock_lem o' b', e, only)
        (record {
          conditions = ap (λ w. w ++ "in_stock = true" ∷ []) h.conditions;
          bound = h.bound;
        })
  | inr all ↦ rw (only_in_stock_lem o b, only_in_stock_lem o' b', e, all) h
]

column_plan-IsSameSort : (s s' : String) → IsSameSort s s' → column_plan s ≡ column_plan s'
column_plan-IsSameSort s s' h = rw (h.created, h.cheapest, h.dearest, h.popular) refl

self-IsSame : (b : Builder) → IsSame b b
self-IsSame b = record { conditions = refl; bound = refl }

filters-IsSame :
    (decode : String → Option Cursor) (q q' : SearchListingsDto)
    → IsAlike decode q q'
    → IsSame (filters q) (filters q')
unfolding filters
filters-IsSame decode q q' h =
    (only_in_stock-IsSame q.stock q'.stock _ _ h.stock (
      filter_by-IsSame _ _ _ _ _ _ h.materials_any (
        filter_by-IsSame _ _ _ _ _ _ h.materials_all (
          filter_by-IsSame _ _ _ _ _ _ h.price_max (
            filter_by-IsSame _ _ _ _ _ _ h.price_min (
              filter_by-IsSame _ _ _ _ _ _ h.condition (
                filter_by-IsSame _ _ _ _ _ _ h.listing_type (
                  filter_by-IsSame _ _ _ _ _ _ h.category_l3 (
                    filter_by-IsSame _ _ _ _ _ _ h.category_l2 (
                      filter_by-IsSame _ _ _ _ _ _ h.category_l1 (
                        filter_by-IsSame _ _ _ _ _ _ h.keywords
                          (self-IsSame (record { params = []; where_ = [] })))))))))))))

at_ends :
    {A : Type 0} (y y' x x' : A × Builder)
    → y ≡ x
    → y' ≡ x'
    → (y.0 ≡ y'.0) × IsSame y.1 y'.1
    → (x.0 ≡ x'.0) × IsSame x.1 x'.1
at_ends y y' x x' e e' h =
    subst (λ z. (z.0 ≡ x'.0) × IsSame z.1 x'.1) e (subst (λ z. (y.0 ≡ z.0) × IsSame y.1 z.1) e' h)

bind-IsSame : (v v' : Param) (b b' : Builder) → IsSame b b' → IsSame (bind v b) (bind v' b')
bind-IsSame v v' b b' h = record {
  conditions = h.conditions;
  bound = one_more b.params b'.params v v' h.bound;
}

sort_plan-IsSame :
    (s s' : String) (o o' : Option Param) (b b' : Builder) (x x' : SortPlan × Builder)
    → IsSameSort s s'
    → is_there o ≡ is_there o'
    → IsSame b b'
    → sort_plan s o b ≡ ok x
    → sort_plan s' o' b' ≡ ok x'
    → (x.0 ≡ x'.0) × IsSame x.1 x'.1
unfolding sort_plan
sort_plan-IsSame s s' none none b b' x x' sorts e h ran ran' =
    elim (Bool-cases (s' === "relevance")) [
      | inl ranked ↦ cc (rw ranked at ran')
      | inr other ↦
          at_ends (column_plan s, b) (column_plan s', b') x x'
            (ok-injective (rw (sorts.relevance, other) at ran)) (ok-injective (rw other at ran'))
            (column_plan-IsSameSort s s' sorts, h)
    ]
sort_plan-IsSame s s' none (some v) b b' x x' sorts e h ran ran' = absurd (ground arith)
sort_plan-IsSame s s' (some v) none b b' x x' sorts e h ran ran' = absurd (ground arith)
sort_plan-IsSame s s' (some v) (some v') b b' x x' sorts e h ran ran' =
    elim (Bool-cases (s' === "relevance")) [
      | inl ranked ↦
          at_ends (rank_plan (next_name b), bind v b) (rank_plan (next_name b'), bind v' b') x x'
            (ok-injective (rw (sorts.relevance, ranked) at ran)) (ok-injective (rw ranked at ran'))
            (ap rank_plan (next_name-IsSame b b' h), bind-IsSame v v' b b' h)
      | inr other ↦
          at_ends (column_plan s, b) (column_plan s', b') x x'
            (ok-injective (rw (sorts.relevance, other) at ran)) (ok-injective (rw other at ran'))
            (column_plan-IsSameSort s s' sorts, h)
    ]

seek-IsSame :
    (plan : SortPlan) (c c' : Option Cursor) (b b' : Builder)
    → is_there c ≡ is_there c'
    → IsSame b b'
    → IsSame (seek plan c b) (seek plan c' b')
seek-IsSame plan none none b b' e h = h
seek-IsSame plan none (some c) b b' e h = absurd (ground arith)
seek-IsSame plan (some c) none b b' e h = absurd (ground arith)
seek-IsSame plan (some c) (some c') b b' e h =
    let bound = bind-IsSame (text c.v) (text c'.v) b b' h in
    let name = next_name-IsSame b b' h in
    let next = next_name-IsSame (bind (text c.v) b) (bind (text c'.v) b') bound in
    record {
      conditions = λ i.
          h.conditions i
          ++ ("("
              ⊕ plan.sort_val_expr
              ⊕ ", id) "
              ⊕ plan.comparator
              ⊕ " ("
              ⊕ name i
              ⊕ "::"
              ⊕ plan.pg_type
              ⊕ ", "
              ⊕ next i
              ⊕ "::uuid)")
            ∷ [];
      bound =
          one_more (b.params ++ text c.v ∷ []) (b'.params ++ text c'.v ∷ []) (text c.id)
            (text c'.id) bound.bound;
    }

finished-IsSame :
    (plan plan' : SortPlan) (n n' : ℕ) (b b' : Builder)
    → plan ≡ plan'
    → IsSame b b'
    → ((finished plan n b).0 ≡ (finished plan' n' b').0)
      × (length (finished plan n b).1 ≡ length (finished plan' n' b').1)
unfolding finished
finished-IsSame plan plan' n n' b b' e h = (
  λ i.
      columns
      ⊕ (e i).sort_val_expr
      ⊕ " AS sortval FROM listing_search "
      ⊕ where_sql (h.conditions i)
      ⊕ " ORDER BY "
      ⊕ (e i).sort_sql
      ⊕ " LIMIT "
      ⊕ next_name-IsSame b b' h i,
  one_more b.params b'.params _ _ h.bound,
)

-- Two searches of one form, where both get as far as a query, have the same query text and as many
-- parameters, whatever the values of their filters and cursors are, and whatever the texts of their
-- sorts and stock filters, as long as these are the same for the service's own comparisons with the
-- names that it knows.
pub search_query-IsAlike :
    (decode : String → Option Cursor) (q q' : SearchListingsDto) (x x' : String × List Param)
    → IsAlike decode q q'
    → search_query decode q ≡ ok x
    → search_query decode q' ≡ ok x'
    → (x.0 ≡ x'.0) × (length x.1 ≡ length x'.1)
unfolding search_query
search_query-IsAlike decode q q' x x' h ran ran' =
    let (planned, e1, h1) =
      >>=-eq-ok (sort_plan (or_else q.sort "-createdAt") (words q.keywords) (filters q)) _ ran in
    let (c, e2, h2) = >>=-eq-ok (read_cursor decode q.cursor) _ h1 in
    let (planned', e1', h1') =
      >>=-eq-ok (sort_plan (or_else q'.sort "-createdAt") (words q'.keywords) (filters q')) _
        ran' in
    let (c', e2', h2') = >>=-eq-ok (read_cursor decode q'.cursor) _ h1' in
    let (plans, builders) =
      sort_plan-IsSame (or_else q.sort "-createdAt") (or_else q'.sort "-createdAt")
        (words q.keywords) (words q'.keywords) (filters q) (filters q') planned planned' h.sort
        h.keywords (filters-IsSame decode q q' h) e1 e1' in
    let cursors : is_there c ≡ is_there c' = ap seeks (sym e2) ∙ h.cursor ∙ ap seeks e2' in
    let sought : IsSame (seek planned.0 c planned.1) (seek planned'.0 c' planned'.1) =
      subst (λ pl. IsSame (seek planned.0 c planned.1) (seek pl c' planned'.1)) plans
        (seek-IsSame planned.0 c c' planned.1 planned'.1 cursors builders) in
    subst (λ (y : String × List Param). (y.0 ≡ x'.0) × (length y.1 ≡ length x'.1)) (ok-injective h2)
      (subst
        (λ (y : String × List Param).
          ((finished planned.0 q.per_page (seek planned.0 c planned.1)).0 ≡ y.0)
          × (length (finished planned.0 q.per_page (seek planned.0 c planned.1)).1 ≡ length y.1))
        (ok-injective h2')
        (finished-IsSame planned.0 planned'.0 q.per_page q'.per_page _ _ plans sought))
