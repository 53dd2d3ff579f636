-- ===== src/Decimal.antt =====
-- decimal.js, which the source imports: a parameter of the model. `src/common/money/money.ts` sets
-- HALF_UP as its rounding mode; the precision is the library's default of 20 significant digits.
pub mod Fixed
use pastel_marketplace.Base.{ℕ, ◌*◌, ◌<◌, ◌^◌, ◌≡◌, String, Bool, true, false, Option}
use pastel_marketplace.Base.Int.{ℤ, pos, ◌≤ℤ◌, ltb_ℤ}

pub record DecimalLib : Type 1 where
  pub Decimal : Type 0
  -- `new Decimal(text)`; `none` is the DecimalError
  pub parse : String → Option Decimal
  -- `new Decimal(amount.toString())`
  pub of_bigint : ℤ → Decimal
  pub times : Decimal → Decimal → Decimal
  pub divided_by : Decimal → Decimal → Decimal
  pub to_power : Decimal → ℕ → Decimal
  pub gt : Decimal → Decimal → Bool
  -- `BigInt(d.toDecimalPlaces(0, Decimal.ROUND_HALF_UP).toFixed(0))`
  pub round_half_up : Decimal → ℤ
  pub to_fixed : Decimal → ℕ → String
  pub to_string : Decimal → String

-- What is relied on: rounding is monotone and exact on integers, products with a number that is
-- not negative and quotients by 100 are monotone, and so is every step of limited precision.
-- Integers of up to 17 digits times 100 stay within the precision.
module _ (dec : DecimalLib) where
  open dec use {Decimal, of_bigint, times, divided_by, gt, round_half_up}

  pub record IsDecimal : Type 0 where
    pub gt-of_bigint : (a b : ℤ) → gt (of_bigint a) (of_bigint b) ≡ ltb_ℤ b a
    pub round-of_bigint : (a : ℤ) → round_half_up (of_bigint a) ≡ a
    pub round_mono : (x y : Decimal) → gt x y ≡ false → round_half_up x ≤ℤ round_half_up y
    pub times_mono :
        (n : ℕ) (x y : Decimal)
        → gt x y ≡ false
        → gt (times (of_bigint (pos n)) x) (times (of_bigint (pos n)) y) ≡ false
    pub percent_mono :
        (x y : Decimal)
        → gt x y ≡ false
        → gt (divided_by x (of_bigint (pos 100))) (divided_by y (of_bigint (pos 100))) ≡ false
    pub gt_asym : (x y : Decimal) → gt x y ≡ true → gt y x ≡ false
    pub times_exact :
        (n k : ℕ)
        → n < 10 ^ 17
        → k < 101
        → times (of_bigint (pos n)) (of_bigint (pos k)) ≡ of_bigint (pos (n * k))
    pub percent_exact :
        (n : ℕ)
        → n < 10 ^ 17
        → divided_by (of_bigint (pos (n * 100))) (of_bigint (pos 100)) ≡ of_bigint (pos n)
