-- ===== src/Money.antt =====
-- src/common/money/money.ts: amounts in minor units with a currency.
pub mod Laws
use pastel_marketplace.Base.{
  ℕ, String, Bool, true, false, Option, none, some, List, [], ◌∷◌, ◌&&◌, ◌||◌, if◌then◌else◌, any,
}
use pastel_marketplace.Base.Int.{ℤ, pos, negsuc, ◌+ℤ◌, ◌-ℤ◌, ◌*ℤ◌, neg_ℤ, ltb_ℤ, eqb_ℤ}
use pastel_marketplace.Base.Text.{◌===◌, ◌⊕◌, to_upper_case}
use pastel_marketplace.Base.Number.{JsNumber, to_bigint, to_number, trunc}
use pastel_marketplace.Base.Result.{Result, ok, err, error, ◌>>=◌, ◌>>◌, throw_if, or_throw}
use pastel_marketplace.Decimal.{DecimalLib}

-- `ZERO_DECIMAL`
abbrev zero_decimal : List String
zero_decimal = "JPY" ∷ "KRW" ∷ "VND" ∷ "CLP" ∷ "XAF" ∷ "XOF" ∷ "BIF" ∷ "PYG" ∷ []

-- `THREE_DECIMAL`
abbrev three_decimal : List String
three_decimal = "BHD" ∷ "KWD" ∷ "OMR" ∷ "TND" ∷ "JOD" ∷ []

unfoldable pub subunit_exponent : String → ℕ
unfolding to_upper_case
subunit_exponent currency =
    let c = to_upper_case currency in
    if any (λ x. x === c) zero_decimal then 0 else if any (λ x. x === c) three_decimal then 3 else 2

pub record Money : Type 0 where
  pub amount : ℤ
  pub currency : String

-- The private constructor.
unfoldable pub new_money : ℤ → String → Money
new_money amount currency = record { amount = amount; currency = to_upper_case currency }

-- `fromMinor` of a bigint; `from_minor_number` is its other overload.
unfoldable pub from_minor : ℤ → String → Money
unfolding new_money
from_minor amount currency = new_money amount currency

unfoldable pub from_minor_number : JsNumber → String → Result Money
unfolding new_money trunc
from_minor_number amount currency = do
  a ← or_throw (to_bigint (trunc amount)) (error "RangeError")
  ok (new_money a currency)

-- `Money.zero`
unfoldable pub zero_money : String → Money
unfolding new_money
zero_money currency = new_money (pos 0) currency

unfoldable pub assert_same_currency : Money → Money → Result (Unit {0})
assert_same_currency this other =
    if this.currency === other.currency
    then ok tt
    else err (error ("Currency mismatch: " ⊕ this.currency ⊕ " vs " ⊕ other.currency))

unfoldable pub add : Money → Money → Result Money
unfolding new_money assert_same_currency
add this other = do
  assert_same_currency this other
  ok (new_money (this.amount +ℤ other.amount) this.currency)

unfoldable pub subtract : Money → Money → Result Money
unfolding new_money assert_same_currency
subtract this other = do
  assert_same_currency this other
  ok (new_money (this.amount -ℤ other.amount) this.currency)

unfoldable pub times : Money → JsNumber → Result Money
unfolding new_money
times this (JsNumber.whole q) = ok (new_money (this.amount *ℤ q) this.currency)
times this _ =
    err (error "Money.times expects an integer quantity; use percentage() for fractional math")

unfoldable pub negate : Money → Money
unfolding new_money
negate this = new_money (neg_ℤ this.amount) this.currency

unfoldable pub is_zero : Money → Bool
is_zero this = eqb_ℤ this.amount (pos 0)

unfoldable pub is_negative : Money → Bool
is_negative this = ltb_ℤ this.amount (pos 0)

unfoldable pub equals : Money → Money → Bool
equals this other = this.currency === other.currency && eqb_ℤ this.amount other.amount

-- The results of `compare`: -1, 0 and 1.
unfoldable pub compare : Money → Money → Result ℤ
unfolding assert_same_currency
compare this other = do
  assert_same_currency this other
  ok (
      if ltb_ℤ this.amount other.amount
      then negsuc 0
      else if ltb_ℤ other.amount this.amount
      then pos 1
      else pos 0)

pub record MoneyJson : Type 0 where
  pub amount : JsNumber
  pub currency : String

unfoldable pub to_json : Money → MoneyJson
to_json this = record { amount = to_number this.amount; currency = this.currency }

-- `items.reduce((acc, m) => acc.add(m))`, the first element apart
sum_from : Money → List Money → Result Money
unfolding add
sum_from acc [] = ok acc
sum_from acc (m ∷ ms) = add acc m >>= λ next. sum_from next ms

-- An absent or empty currency is falsy.
unfoldable pub sum : List Money → Option String → Result Money
unfolding sum_from zero_money
sum [] none = err (error "Money.sum of empty list requires a currency")
sum [] (some c) =
    if c === ""
    then err (error "Money.sum of empty list requires a currency")
    else ok (zero_money c)
sum (m ∷ ms) currency = sum_from m ms

module _ (dec : DecimalLib) where
  open dec use {Decimal, of_bigint, divided_by, to_power, round_half_up, to_fixed}

  -- `fromMajor`, of a value that `new Decimal` has read
  unfoldable pub from_major : Decimal → String → Money
  unfolding new_money subunit_exponent
  from_major value currency =
      let exp = subunit_exponent currency in
      let minor = round_half_up (dec.times value (to_power (of_bigint (pos 10)) exp)) in
      new_money minor currency

  unfoldable pub percentage : Money → Decimal → Money
  unfolding new_money
  percentage this percent =
      new_money
        (round_half_up
          (divided_by (dec.times (of_bigint this.amount) percent) (of_bigint (pos 100))))
        this.currency

  unfoldable pub fraction : Money → Decimal → Money
  unfolding new_money
  fraction this f = new_money (round_half_up (dec.times (of_bigint this.amount) f)) this.currency

  unfoldable pub to_major_string : Money → String
  unfolding subunit_exponent
  to_major_string this =
      let exp = subunit_exponent this.currency in
      to_fixed (divided_by (of_bigint this.amount) (to_power (of_bigint (pos 10)) exp)) exp
