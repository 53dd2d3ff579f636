-- ===== src/Pricing/Totals.antt =====
-- What the loops of the pricing engine compute, and that they do not throw on a valid input.
use pastel_marketplace.Base.{
  ◌≡◌, refl, sym, ap, String, Bool, true, false, none, List, [], ◌∷◌, ◌++◌, map, arith, ◌∙◌, All,
  filter, if◌then◌else◌, inl, inr, Bool-cases,
}
use mathlib.Core.List.{append_assoc, append-nil}
use pastel_marketplace.Base.Int.{ℤ, pos, ◌+ℤ◌, ◌-ℤ◌, ◌*ℤ◌, +ℤ_assoc, +ℤ_zero, zero_+ℤ, ltb_ℤ}
use pastel_marketplace.Base.Text.{to_upper_case, to_upper_case_idempotent}
use pastel_marketplace.Base.Number.{JsNumber}
use pastel_marketplace.Base.Result.{Result, ok, ◌>>=◌, >>=-eq-ok}
use pastel_marketplace.Money.{Money, from_minor}
use pastel_marketplace.Money.Laws.{add-ok, subtract-ok}
use pastel_marketplace.Pricing.{
  PriceLineInput, ComputedLineItem, IncludeFor, customer, provider, item, both, includes,
  price_item, price_items, add_lines, totals,
}

abbrev pub share : IncludeFor → ComputedLineItem → ℤ
share side l = if includes side l then l.line_total_amount else pos 0

-- The sum of the totals of the lines that count for one side.
abbrev pub side_sum : IncludeFor → List ComputedLineItem → ℤ
side_sum side [] = pos 0
side_sum side (l ∷ ls) = share side l +ℤ side_sum side ls

pub side_sum-append :
    (side : IncludeFor) (xs ys : List ComputedLineItem)
    → side_sum side (xs ++ ys) ≡ side_sum side xs +ℤ side_sum side ys
side_sum-append side [] ys = sym (zero_+ℤ (side_sum side ys))
side_sum-append side (x ∷ xs) ys =
    rw (side_sum-append side xs ys)
      (sym (+ℤ_assoc (share side x) (side_sum side xs) (side_sum side ys)))

abbrev in_currency : String → ℤ → Money
in_currency c a = record { amount = a; currency = to_upper_case c }

add_lines-ok :
    (c : String) (side : IncludeFor) (a : ℤ) (ls : List ComputedLineItem)
    → add_lines c (in_currency c a) (filter (includes side) ls)
      ≡ ok (in_currency c (a +ℤ side_sum side ls))
unfolding add_lines
add_lines-ok c side a [] = rw +ℤ_zero
add_lines-ok c side a (l ∷ ls) = elim (Bool-cases (includes side l)) [
  | inl counted ↦
      rw
        (
          counted,
          add-ok (in_currency c a) (from_minor l.line_total_amount c) (to_upper_case_idempotent c)
              refl,
        )
        (add_lines-ok c side (a +ℤ l.line_total_amount) ls
          ∙ ap (λ t. ok (in_currency c t)) (+ℤ_assoc a l.line_total_amount (side_sum side ls)))
  | inr left_out ↦ rw left_out (
      add_lines-ok c side a ls
      ∙ ap (λ t. ok (in_currency c (a +ℤ t))) (sym (zero_+ℤ (side_sum side ls))))
]

-- Totals never throws: payin and payout are the sums over the lines of either side, and the
-- margin is their difference.
pub totals-ok :
    (lines : List ComputedLineItem) (c : String)
    → totals lines c
      ≡ ok (record {
        line_items = lines;
        payin_total_amount = side_sum customer lines;
        payout_total_amount = side_sum provider lines;
        margin_amount = side_sum customer lines -ℤ side_sum provider lines;
        currency = c;
      })
unfolding totals
totals-ok lines c = rw (
  add_lines-ok c customer (pos 0) lines,
  add_lines-ok c provider (pos 0) lines,
  zero_+ℤ (side_sum customer lines),
  zero_+ℤ (side_sum provider lines),
  subtract-ok (in_currency c (side_sum customer lines)) (in_currency c (side_sum provider lines))
      (to_upper_case_idempotent c) refl,
)

-- A quantity that can be sold: a whole number above zero.
abbrev pub is_sellable : JsNumber → Bool
is_sellable (JsNumber.whole n) = ltb_ℤ (pos 0) n
is_sellable _ = false

abbrev pub line_total : PriceLineInput → ℤ
line_total it = elim it.quantity [ JsNumber.whole q ↦ it.unit_price_amount *ℤ q | _ ↦ pos 0 ]

abbrev pub subtotal : List PriceLineInput → ℤ
subtotal [] = pos 0
subtotal (it ∷ its) = line_total it +ℤ subtotal its

abbrev pub item_line : PriceLineInput → ComputedLineItem
item_line it = record {
  code = item;
  unit_price_amount = it.unit_price_amount;
  quantity = it.quantity;
  line_total_amount = line_total it;
  include_for = both;
  percentage = none;
}

line_of : ℤ → JsNumber → PriceLineInput
line_of u q = record { unit_price_amount = u; quantity = q }

abbrev priced : Money → PriceLineInput → Result (Money × ComputedLineItem)
priced next it = ok (next, item_line it)

price_item-ok_at :
    (c : String) (u : ℤ) (q : JsNumber) (a : ℤ)
    → is_sellable q ≡ true
    → price_item c (line_of u q) (in_currency c a)
      ≡ ok (in_currency c (a +ℤ line_total (line_of u q)), item_line (line_of u q))
unfolding price_item line_of
price_item-ok_at c u (JsNumber.whole n) a h = rw h (
    ap (λ (r : Result Money). r >>= λ next. priced next (line_of u (JsNumber.whole n)))
      (add-ok (in_currency c a) (in_currency (to_upper_case c) (u *ℤ n))
        (to_upper_case_idempotent c) (sym (to_upper_case_idempotent c))))
price_item-ok_at c u (JsNumber.frac n) a h = cc
price_item-ok_at c u JsNumber.nan a h = cc

price_item-ok :
    (c : String) (it : PriceLineInput) (a : ℤ)
    → is_sellable it.quantity ≡ true
    → price_item c it (in_currency c a) ≡ ok (in_currency c (a +ℤ line_total it), item_line it)
unfolding line_of
price_item-ok c it a h = price_item-ok_at c it.unit_price_amount it.quantity a h

-- On quantities that can be sold the loop over the items does not throw.
pub price_items-ok :
    (c : String) (its : List PriceLineInput) (a : ℤ) (ls : List ComputedLineItem)
    → All (λ it. is_sellable it.quantity ≡ true) its
    → price_items c its (in_currency c a) ls
      ≡ ok (in_currency c (a +ℤ subtotal its), ls ++ map item_line its)
unfolding price_items
price_items-ok c [] a ls h = rw (+ℤ_zero, append-nil)
price_items-ok c (it ∷ its) a ls (h, hs) = rw (price_item-ok c it a h) (
    price_items-ok c its (a +ℤ line_total it) (ls ++ item_line it ∷ []) hs
    ∙ simp (+ℤ_assoc, append_assoc))

-- A quantity that cannot be sold makes the loop throw.
price_item-err_at :
    (c : String) (u : ℤ) (q : JsNumber) (m : Money) {r : Money × ComputedLineItem}
    → price_item c (line_of u q) m ≡ ok r
    → is_sellable q ≡ true
unfolding price_item line_of
price_item-err_at c u (JsNumber.whole n) m h = ground arith
price_item-err_at c u (JsNumber.frac n) m h = ground arith
price_item-err_at c u JsNumber.nan m h = ground arith

pub price_items-sellable :
    (c : String) (its : List PriceLineInput) (m : Money) (ls : List ComputedLineItem)
    {r : Money × List ComputedLineItem}
    → price_items c its m ls ≡ ok r
    → All (λ it. is_sellable it.quantity ≡ true) its
unfolding price_items line_of
price_items-sellable c [] m ls h = tt
price_items-sellable c (it ∷ its) m ls h =
    let (s, e, later) = >>=-eq-ok (price_item c it m) _ h in
    (
      price_item-err_at c it.unit_price_amount it.quantity m e,
      price_items-sellable c its s.0 (ls ++ s.1 ∷ []) later,
    )
