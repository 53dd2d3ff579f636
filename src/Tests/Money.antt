-- ===== src/Tests/Money.antt =====
-- Amounts of one currency.
use pastel_marketplace.Base.{◌≡◌, refl, none, [], ◌∷◌}
use pastel_marketplace.Base.Int.{pos, negsuc, ◌+ℤ◌}
use pastel_marketplace.Base.Text.{to_upper_case}
use pastel_marketplace.Base.Result.{ok}
use pastel_marketplace.Money.{Money, new_money, add, sum}
use pastel_marketplace.Money.Laws.{add-inv, sum-ok}

abbrev five : Money
five = record { amount = pos 500; currency = "USD" }

abbrev debt : Money
debt = record { amount = negsuc 199; currency = "USD" }

sum-ok_example :
    sum (five ∷ debt ∷ five ∷ []) none ≡ ok (record { amount = pos 800; currency = "USD" })
unfolding to_upper_case ◌+ℤ◌
sum-ok_example = sum-ok five (debt ∷ five ∷ []) none refl (refl, (refl, tt))

add-inv_example :
    (five.currency ≡ debt.currency)
    × (pos 300 ≡ five.amount +ℤ debt.amount)
    × (five.currency ≡ to_upper_case five.currency)
unfolding add new_money to_upper_case ◌+ℤ◌
add-inv_example = add-inv five debt {m = record { amount = pos 300; currency = "USD" }} refl
