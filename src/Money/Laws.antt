-- ===== src/Money/Laws.antt =====
-- Laws of money arithmetic: currencies are upper-case, one currency never mixes with another.
use pastel_marketplace.Base.{◌≡◌, ap, String, Option, List, [], ◌∷◌, arith, ◌∙◌, All}
use pastel_marketplace.Base.Int.{ℤ, pos, ◌+ℤ◌, ◌-ℤ◌, +ℤ_assoc, +ℤ_zero}
use pastel_marketplace.Base.Text.{===_iff, to_upper_case, to_upper_case_idempotent}
use pastel_marketplace.Base.Result.{ok}
use pastel_marketplace.Money.{Money, new_money, add, subtract, sum_from, sum}

-- What the constructor establishes.
abbrev pub IsNormal : Money → Type 0
IsNormal m = to_upper_case m.currency ≡ m.currency

pub new_money-IsNormal : (a : ℤ) (c : String) → IsNormal (new_money a c)
unfolding new_money
new_money-IsNormal a c = to_upper_case_idempotent c

-- Adding two amounts of one currency adds the minor units.
pub add-ok :
    (this other : Money)
    → IsNormal this
    → this.currency ≡ other.currency
    → add this other
      ≡ ok (record { amount = this.amount +ℤ other.amount; currency = this.currency })
unfolding add
add-ok this other n e = rw ((===_iff this.currency other.currency).1 e) (ground (arith, n))

pub subtract-ok :
    (this other : Money)
    → IsNormal this
    → this.currency ≡ other.currency
    → subtract this other
      ≡ ok (record { amount = this.amount -ℤ other.amount; currency = this.currency })
unfolding subtract
subtract-ok this other n e = rw ((===_iff this.currency other.currency).1 e) (ground (arith, n))

-- An addition that succeeds had equal currencies, and adds the minor units.
pub add-inv :
    (this other : Money) {m : Money}
    → add this other ≡ ok m
    → (this.currency ≡ other.currency)
      × (m.amount ≡ this.amount +ℤ other.amount)
      × (m.currency ≡ to_upper_case this.currency)
unfolding add
add-inv this other h = ground (arith, ===_iff this.currency other.currency)

-- The plain sum of amounts.
abbrev pub total_of : List Money → ℤ
total_of [] = pos 0
total_of (m ∷ ms) = m.amount +ℤ total_of ms

sum_from-ok :
    (acc : Money) (ms : List Money)
    → IsNormal acc
    → All (λ m. acc.currency ≡ m.currency) ms
    → sum_from acc ms ≡ ok (record { amount = acc.amount +ℤ total_of ms; currency = acc.currency })
unfolding sum_from
sum_from-ok acc [] n h = rw +ℤ_zero
sum_from-ok acc (m ∷ ms) n (e, h) = rw (add-ok acc m n e) (
    sum_from-ok (record acc { amount = acc.amount +ℤ m.amount }) ms n h
    ∙ ap (λ a. ok (record { amount = a; currency = acc.currency }))
        (+ℤ_assoc acc.amount m.amount (total_of ms)))

-- A sum of amounts that all have the first one's currency succeeds, and is the sum of the minor
-- units in that currency.
pub sum-ok :
    (m : Money) (ms : List Money) (c : Option String)
    → IsNormal m
    → All (λ x. m.currency ≡ x.currency) ms
    → sum (m ∷ ms) c ≡ ok (record { amount = total_of (m ∷ ms); currency = m.currency })
unfolding sum
sum-ok m ms c n h = sum_from-ok m ms n h
