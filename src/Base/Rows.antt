-- ===== src/Base/Rows.antt =====
-- Tables as lists of rows: what Prisma's `updateMany`, `deleteMany` and `count` do.
use Prim.Native.Nat.{ℕ, ◌+◌, ◌≤◌}
use mathlib.Core.Path.{◌≡◌, refl}
use mathlib.Core.Bool.{Bool, true, false, ◌&&◌}
use mathlib.Core.Option.{none, some}
use mathlib.Core.List.{List, [], ◌∷◌, ◌++◌}
use native.Mathlib.Omega.{arith}
use pastel_marketplace.Base.Tests.{if◌then◌else◌}
use pastel_marketplace.Base.Lists.{find?, any}

abbrev pub one_if : Bool → ℕ
one_if true = 1
one_if false = 0

module _ {A : Type 0} where
  -- A row, changed by `f` where it is one of those that `p` names.
  abbrev pub changed : (A → Bool) → (A → A) → A → A
  changed p f x = if p x then f x else x

  abbrev pub update_where : (A → Bool) → (A → A) → List A → List A
  update_where p f [] = []
  update_where p f (x ∷ xs) = changed p f x ∷ update_where p f xs

  abbrev pub delete_where : (A → Bool) → List A → List A
  delete_where p [] = []
  delete_where p (x ∷ xs) = if p x then delete_where p xs else x ∷ delete_where p xs

  abbrev pub count : (A → Bool) → List A → ℕ
  count p [] = 0
  count p (x ∷ xs) = one_if (p x) + count p xs

  pub count-append : (p : A → Bool) (xs ys : List A) → count p (xs ++ ys) ≡ count p xs + count p ys
  count-append p [] ys = omega arith
  count-append p (x ∷ xs) ys = omega (arith, count-append p xs ys)

  -- An update that does not move rows in or out of `p`.
  pub count-update_same :
      (p q : A → Bool) (f : A → A) (xs : List A)
      → ((x : A) → q x ≡ true → p (f x) ≡ p x)
      → count p (update_where q f xs) ≡ count p xs
  count-update_same p q f [] same = refl
  count-update_same p q f (x ∷ xs) same = ground (arith, same x, count-update_same p q f xs same)

  -- An update that moves rows only out of `p`.
  pub count-update_out :
      (p q : A → Bool) (f : A → A) (xs : List A)
      → ((x : A) → q x ≡ true → p x ≡ false → p (f x) ≡ false)
      → count p (update_where q f xs) ≤ count p xs
  count-update_out p q f [] out = omega arith
  count-update_out p q f (x ∷ xs) out = ground (arith, out x, count-update_out p q f xs out)

  -- An update that moves every row that it names out of `p`.
  pub count-update_none :
      (p q : A → Bool) (f : A → A) (xs : List A)
      → ((x : A) → q x ≡ true → p (f x) ≡ false)
      → count p (update_where q f xs) + count (λ x. p x && q x) xs ≡ count p xs
  count-update_none p q f [] none_left = refl
  count-update_none p q f (x ∷ xs) none_left =
      ground (arith, none_left x, count-update_none p q f xs none_left)

  pub count-delete :
      (p q : A → Bool) (xs : List A)
      → count p (delete_where q xs) + count (λ x. p x && q x) xs ≡ count p xs
  count-delete p q [] = refl
  count-delete p q (x ∷ xs) = ground (arith, count-delete p q xs)

  pub count-find :
      (p q : A → Bool) (xs : List A) (x : A)
      → find? q xs ≡ some x
      → p x ≡ true
      → 1 ≤ count (λ y. p y && q y) xs
  count-find p q [] x e h = cc
  count-find p q (y ∷ ys) x e h = ground (arith, count-find p q ys x)

  pub count-zero : (p : A → Bool) (xs : List A) → any p xs ≡ false → count p xs ≡ 0
  count-zero p [] h = refl
  count-zero p (x ∷ xs) h = ground (arith, count-zero p xs)

  pub find?-test : (q : A → Bool) (xs : List A) (x : A) → find? q xs ≡ some x → q x ≡ true
  find?-test q [] x e = cc
  find?-test q (y ∷ ys) x e = ground (arith, find?-test q ys x)

  pub count-update_all :
      (p q : A → Bool) (f : A → A) (xs : List A)
      → ((x : A) → p x ≡ true → q x ≡ true)
      → ((x : A) → q x ≡ true → p (f x) ≡ false)
      → count p (update_where q f xs) ≡ 0
  count-update_all p q f [] named out = refl
  count-update_all p q f (x ∷ xs) named out =
      ground (arith, named x, out x, count-update_all p q f xs named out)

  pub find?-update :
      (q : A → Bool) (f : A → A) (xs ys : List A) (x : A)
      → ((x : A) → q x ≡ true → q (f x) ≡ true)
      → find? q xs ≡ some x
      → find? q (update_where q f xs ++ ys) ≡ some (f x)
  find?-update q f [] ys x kept e = cc
  find?-update q f (y ∷ xs) ys x kept e = ground (arith, kept y, find?-update q f xs ys x kept)

  pub find?-append_none :
      (q : A → Bool) (xs ys : List A) → find? q xs ≡ none → find? q (xs ++ ys) ≡ find? q ys
  find?-append_none q [] ys e = refl
  find?-append_none q (x ∷ xs) ys e = ground (arith, find?-append_none q xs ys)

  pub find?-updated :
      (q : A → Bool) (f : A → A) (xs : List A) (x : A)
      → ((x : A) → q x ≡ true → q (f x) ≡ true)
      → find? q xs ≡ some x
      → find? q (update_where q f xs) ≡ some (f x)
  find?-updated q f [] x kept e = cc
  find?-updated q f (y ∷ xs) x kept e = ground (arith, kept y, find?-updated q f xs x kept)

module _ {A : Type 0} where
  pub update_where-none :
      (q : A → Bool) (f : A → A) (xs : List A) → count q xs ≡ 0 → update_where q f xs ≡ xs
  update_where-none q f [] h = refl
  update_where-none q f (x ∷ xs) h = ground (arith, update_where-none q f xs)

  pub delete-none : (q : A → Bool) (xs : List A) → count q xs ≡ 0 → delete_where q xs ≡ xs
  delete-none q [] h = refl
  delete-none q (x ∷ xs) h = ground (arith, delete-none q xs)

pub some_inj : {A : Type 0} {a b : A} → some a ≡ some b → a ≡ b
some_inj h = cc
