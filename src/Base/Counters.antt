-- ===== src/Base/Counters.antt =====
-- A column of counters: every row counts the links of another table that name it.
use Prim.Native.Nat.{ℕ, ◌+◌}
use Prim.Native.String.{String}
use mathlib.Core.Path.{◌≡◌, refl, sym, ap, ◌∙◌}
use mathlib.Core.Logic.{inl, inr}
use mathlib.Core.Bool.{Bool, true, false, ◌&&◌}
use mathlib.Core.List.{List, [], ◌∷◌, ◌++◌}
use native.Mathlib.Omega.{arith}
use pastel_marketplace.Base.Tests.{Bool-cases}
use pastel_marketplace.Base.Lists.{All}
use pastel_marketplace.Base.Int.{ℤ, pos, ◌+ℤ◌, ◌-ℤ◌}
use pastel_marketplace.Base.Text.{◌===◌}
use pastel_marketplace.Base.Rows.{
  update_where, delete_where, changed, count, one_if, count-append, count-delete,
}

pos-add : (n : ℕ) → pos n +ℤ pos 1 ≡ pos (n + 1)
unfolding ◌+ℤ◌
pos-add n = ground arith

pos-sub : (n : ℕ) → pos (n + 1) -ℤ pos 1 ≡ pos n
unfolding ◌-ℤ◌
pos-sub n = ground arith

All-update :
    {A : Type 0} (P P' : A → Type 0) (q : A → Bool) (f : A → A) (xs : List A)
    → ((x : A) → P x → P' (changed q f x))
    → All P xs
    → All P' (update_where q f xs)
All-update P P' q f [] step h = tt
All-update P P' q f (x ∷ xs) step h = (step x h.0, All-update P P' q f xs step h.1)

count-both_true :
    {A : Type 0} (p q : A → Bool) (xs : List A)
    → ((x : A) → q x ≡ true → p x ≡ true)
    → count (λ x. p x && q x) xs ≡ count q xs
count-both_true p q [] h = refl
count-both_true p q (x ∷ xs) h = ground (arith, h x, count-both_true p q xs h)

count-both_false :
    {A : Type 0} (p q : A → Bool) (xs : List A)
    → ((x : A) → q x ≡ true → p x ≡ false)
    → count (λ x. p x && q x) xs ≡ 0
count-both_false p q [] h = refl
count-both_false p q (x ∷ xs) h = ground (arith, h x, count-both_false p q xs h)

module _ {Row Link : Type 0} (id : Row → String) (counter : Row → ℤ) (key : Link → String) where
  abbrev pub named_by : Row → Link → Bool
  named_by r l = id r === key l

  abbrev pub IsCount : List Link → Row → Type 0
  IsCount links r = counter r ≡ pos (count (named_by r) links)

  abbrev pub IsCounted : List Row → List Link → Type 0
  IsCounted rows links = All (IsCount links) rows

  -- A change that keeps ids and counters.
  pub IsCounted-keep :
      (q : Row → Bool) (f : Row → Row) (rows : List Row) (links : List Link)
      → ((r : Row) → (id (f r) ≡ id r) × (counter (f r) ≡ counter r))
      → IsCounted rows links
      → IsCounted (update_where q f rows) links
  IsCounted-keep q f rows links kept h =
      All-update (IsCount links) (IsCount links) q f rows
        (λ r e. elim (Bool-cases (q r)) [
          | inl hit ↦
              rw hit
                ((kept r).1 ∙ e ∙ ap (λ k. pos (count (λ l. k === key l) links)) (sym (kept r).0))
          | inr miss ↦ rw miss e
        ])
        h

  added :
      (r : Row) (links : List Link) (l : Link)
      → count (named_by r) (links ++ l ∷ []) ≡ count (named_by r) links + one_if (named_by r l)
  added r links l = count-append (named_by r) links (l ∷ []) ∙ omega arith

  -- A new link, and one more for the rows that it names.
  pub IsCounted-add :
      (f : Row → Row) (rows : List Row) (links : List Link) (l : Link)
      → ((r : Row) → (id (f r) ≡ id r) × (counter (f r) ≡ counter r +ℤ pos 1))
      → IsCounted rows links
      → IsCounted (update_where (λ r. id r === key l) f rows) (links ++ l ∷ [])
  IsCounted-add f rows links l more h =
      All-update (IsCount links) (IsCount (links ++ l ∷ [])) (λ r. id r === key l) f rows
        (λ r e. elim (Bool-cases (id r === key l)) [
          | inl hit ↦ rw hit (
              (more r).1
              ∙ ap (λ c. c +ℤ pos 1) e
              ∙ pos-add (count (named_by r) links)
              ∙ ap pos (sym (added r links l ∙ rw hit refl))
              ∙ ap (λ k. pos (count (λ m. k === key m) (links ++ l ∷ []))) (sym (more r).0))
          | inr miss ↦ rw miss (e ∙ ap pos (sym (added r links l ∙ rw miss (omega arith))))
        ])
        h

  -- The only link that `q` names is deleted, and one less counted for the rows that it named.
  pub IsCounted-delete :
      (f : Row → Row) (rows : List Row) (links : List Link) (q : Link → Bool) (k : String)
      → ((r : Row) → (id (f r) ≡ id r) × (counter (f r) ≡ counter r -ℤ pos 1))
      → ((l : Link) → q l ≡ true → key l ≡ k)
      → count q links ≡ 1
      → IsCounted rows links
      → IsCounted (update_where (λ r. id r === k) f rows) (delete_where q links)
  IsCounted-delete f rows links q k less only single h =
      All-update (IsCount links) (IsCount (delete_where q links)) (λ r. id r === k) f rows
        (λ r e. elim (Bool-cases (id r === k)) [
          | inl hit ↦
              let one =
                count-both_true (named_by r) q links
                  (λ l h. ap (λ j. id r === j) (only l h) ∙ hit) in
              let was : count (named_by r) links ≡ count (named_by r) (delete_where q links) + 1 =
                omega (arith, count-delete (named_by r) q links, one, single) in
              rw hit (
                (less r).1
                ∙ ap (λ c. c -ℤ pos 1) (e ∙ ap pos was)
                ∙ pos-sub (count (named_by r) (delete_where q links))
                ∙ ap (λ j. pos (count (λ m. j === key m) (delete_where q links))) (sym (less r).0))
          | inr miss ↦
              let none_of =
                count-both_false (named_by r) q links
                  (λ l h. ap (λ j. id r === j) (only l h) ∙ miss) in
              let was : count (named_by r) links ≡ count (named_by r) (delete_where q links) =
                omega (arith, count-delete (named_by r) q links, none_of) in
              rw miss (e ∙ ap pos was)
        ])
        h
