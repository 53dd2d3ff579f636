-- ===== src/Base/Number.antt =====
-- JavaScript numbers, as far as the source looks at them, and BigInt conversions.
use Prim.Native.Nat.{ℕ, zero, suc, ◌+◌, ◌*◌, ◌/◌, ◌%◌}
use mathlib.Core.Path.{◌≡◌, refl}
use mathlib.Core.Bool.{Bool, true, false}
use mathlib.Core.Option.{Option, none, some}
use pastel_marketplace.Base.Tests.{ltb, ◌==◌, if◌then◌else◌}
use pastel_marketplace.Base.Int.{ℤ, pos, negsuc, ◌+ℤ◌, ltb_ℤ, ◌-ℤ◌}

-- `whole n` is the integer n, `frac n` a number strictly between n and n + 1, and `nan` is NaN.
pub data JsNumber : Type 0 where
  whole frac : ℤ → JsNumber
  nan : JsNumber

-- `Number.isInteger(x)`
abbrev pub is_integer : JsNumber → Bool
is_integer (whole n) = true
is_integer (frac n) = false
is_integer nan = false

-- `x <= 0`
abbrev pub is_le_zero : JsNumber → Bool
is_le_zero (whole n) = if ltb_ℤ (pos 0) n then false else true
is_le_zero (frac n) = ltb_ℤ n (pos 0)
is_le_zero nan = false

-- `BigInt(x)`; `none` is the RangeError of a number that is no integer.
abbrev pub to_bigint : JsNumber → Option ℤ
to_bigint (whole n) = some n
to_bigint (frac n) = none
to_bigint nan = none

-- `Math.trunc(x)`
unfoldable pub trunc : JsNumber → JsNumber
trunc (whole n) = whole n
trunc (frac n) = whole (if ltb_ℤ n (pos 0) then n +ℤ pos 1 else n)
trunc nan = nan

-- 2 ^ 53, up to which every integer is a double.
abbrev pub safe_limit : ℕ
safe_limit = 9007199254740992

-- The quotient by `unit` rounded to nearest, ties to even, times `unit`.
round_even : ℕ → ℕ → ℕ
round_even n unit =
    let q = n / unit in
    let twice = 2 * (n % unit) in
    let up = (q + 1) * unit in
    if ltb twice unit
    then q * unit
    else if ltb unit twice
    then up
    else if q % 2 == 0
    then q * unit
    else up

-- The double nearest to a natural number: the unit grows until 53 bits are left. 64 rounds cover
-- the 64-bit columns of the database.
round_double : ℕ → ℕ → ℕ → ℕ
round_double zero unit n = n
round_double (suc f) unit n =
    let wider = round_double f (unit * 2) n in
    if ltb n (safe_limit * unit) then round_even n unit else wider

-- `Number(n)` of a bigint of at most 64 bits.
unfoldable pub to_number : ℤ → JsNumber
unfolding round_even round_double
to_number (pos n) = whole (if ltb n safe_limit then pos n else pos (round_double 64 1 n))
to_number (negsuc n) =
    whole (if ltb n safe_limit then negsuc n else pos 0 -ℤ pos (round_double 64 1 (n + 1)))

-- A number that a double holds exactly is unchanged.
pub to_number_exact : (n : ℕ) → ltb n safe_limit ≡ true → to_number (pos n) ≡ whole (pos n)
unfolding to_number
to_number_exact n h = rw h

to_number_rounds : to_number (pos 9007199254740993) ≡ whole (pos 9007199254740992)
unfolding to_number
to_number_rounds = refl
