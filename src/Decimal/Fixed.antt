-- ===== src/Decimal/Fixed.antt =====
-- A decimal arithmetic that meets the assumptions: fixed point with four decimals. It lets the
-- definitions run, and shows that what is assumed of decimal.js can hold.
use Prim.Native.Char.{code}
use pastel_marketplace.Base.{
  ℕ, zero, suc, ◌+◌, ◌-◌, ◌*◌, ◌/◌, ◌≤◌, ◌≡◌, refl, String, false, Option, none, some, arith, leb,
  if◌then◌else◌, ◌&&◌,
}
use pastel_marketplace.Base.Int.{ℤ, pos, negsuc, ltb_ℤ, ◌≤ℤ◌}
use pastel_marketplace.Base.Text.{show}
use pastel_marketplace.Decimal.{DecimalLib, IsDecimal}

-- Digits only; `none` for any other text.
digits_from : ℕ → String → Option ℕ
digits_from n String.[] = some n
digits_from n (String.◌∷◌ c s) =
    let rest = digits_from (n * 10 + (code c - b'0')) s in
    if leb b'0' (code c) && leb (code c) b'9' then rest else none

abbrev pub negated : ℕ → ℤ
negated zero = pos 0
negated (suc n) = negsuc n

-- n * 10000
abbrev pub scaled : ℤ → ℤ
scaled (pos a) = pos (a * 10000)
scaled (negsuc a) = negsuc (a * 10000 + 9999)

abbrev pub unscaled_half_up : ℤ → ℤ
unscaled_half_up (pos a) = pos ((a + 5000) / 10000)
unscaled_half_up (negsuc a) = negated ((a + 1 + 5000) / 10000)

unfoldable pub parse_fixed : String → Option ℤ
unfolding digits_from
parse_fixed s = elim (digits_from 0 s) [ none ↦ none | some n ↦ some (pos (n * 10000)) ]

abbrev pub times_fixed : ℤ → ℤ → ℤ
times_fixed (pos a) (pos b) = pos (a * b / 10000)
times_fixed (pos a) (negsuc b) = negated (a * (b + 1) / 10000)
times_fixed (negsuc a) (pos b) = negated ((a + 1) * b / 10000)
times_fixed (negsuc a) (negsuc b) = pos ((a + 1) * (b + 1) / 10000)

abbrev pub divided_fixed : ℤ → ℤ → ℤ
divided_fixed (pos a) (pos b) = pos (a * 10000 / b)
divided_fixed (pos a) (negsuc b) = negated (a * 10000 / (b + 1))
divided_fixed (negsuc a) (pos b) = negated ((a + 1) * 10000 / b)
divided_fixed (negsuc a) (negsuc b) = pos ((a + 1) * 10000 / (b + 1))

unfoldable pub power_fixed : ℤ → ℕ → ℤ
power_fixed a zero = pos 10000
power_fixed a (suc n) = times_fixed a (power_fixed a n)

unfoldable pub show_fixed : ℤ → String
unfolding show
show_fixed (pos a) = show (a / 10000)
show_fixed (negsuc a) = show ((a + 1) / 10000)

abbrev pub fixed : DecimalLib
fixed = record {
  Decimal = ℤ;
  parse = parse_fixed;
  of_bigint = scaled;
  times = times_fixed;
  divided_by = divided_fixed;
  to_power = power_fixed;
  gt = λ a b. ltb_ℤ b a;
  round_half_up = unscaled_half_up;
  to_fixed = λ a n. show_fixed a;
  to_string = show_fixed;
}

fixed-gt : (a b : ℤ) → ltb_ℤ (scaled b) (scaled a) ≡ ltb_ℤ b a
fixed-gt a b = ground arith

fixed-round : (a : ℤ) → unscaled_half_up (scaled a) ≡ a
fixed-round (pos a) = ground arith
fixed-round (negsuc a) = let e : (a * 10000 + 9999 + 1 + 5000) / 10000 ≡ suc a = omega arith in rw e

fixed-round_mono : (x y : ℤ) → ltb_ℤ y x ≡ false → unscaled_half_up x ≤ℤ unscaled_half_up y
fixed-round_mono x y h = ground arith

mul_mono : (n a b : ℕ) → a ≤ b → n * a ≤ n * b
mul_mono n a b h = grind arith

fixed-times_mono :
    (n : ℕ) (x y : ℤ)
    → ltb_ℤ y x ≡ false
    → ltb_ℤ (times_fixed (scaled (pos n)) y) (times_fixed (scaled (pos n)) x) ≡ false
fixed-times_mono n (pos a) (pos b) h =
    let le : a ≤ b = ground arith in
    let ea : n * 10000 * a / 10000 ≡ n * a = omega arith in
    let eb : n * 10000 * b / 10000 ≡ n * b = omega arith in
    rw (ea, eb) (ground (arith, mul_mono n a b le))
fixed-times_mono n (pos a) (negsuc b) h = ground arith
fixed-times_mono n (negsuc a) (pos b) h = ground arith
fixed-times_mono n (negsuc a) (negsuc b) h =
    let le : b + 1 ≤ a + 1 = ground arith in
    let ea : n * 10000 * (a + 1) / 10000 ≡ n * (a + 1) = omega arith in
    let eb : n * 10000 * (b + 1) / 10000 ≡ n * (b + 1) = omega arith in
    rw (ea, eb) (ground (arith, mul_mono n (b + 1) (a + 1) le))

fixed-percent_mono :
    (x y : ℤ)
    → ltb_ℤ y x ≡ false
    → ltb_ℤ (divided_fixed y (pos 1000000)) (divided_fixed x (pos 1000000)) ≡ false
fixed-percent_mono x y h = ground arith

pub fixed-IsDecimal : IsDecimal fixed
fixed-IsDecimal = record {
  gt-of_bigint = fixed-gt;
  round-of_bigint = fixed-round;
  round_mono = fixed-round_mono;
  times_mono = fixed-times_mono;
  percent_mono = fixed-percent_mono;
  gt_asym = λ x y h. ground arith;
  times_exact = λ n k hn hk. ground arith;
  percent_exact = λ n hn. ground arith;
}

fixed_percent :
    unscaled_half_up
      (divided_fixed (times_fixed (scaled (pos 5050)) (pos 100000)) (scaled (pos 100)))
    ≡ pos 505
fixed_percent = refl
