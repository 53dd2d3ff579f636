-- ===== src/Base/Text.antt =====
-- Texts: the operations of JavaScript strings that the source uses.
use Prim.Native.Nat.{ℕ, zero, suc, ◌-◌, ◌/◌, ◌%◌, ◌<◌}
use Prim.Native.Char.{Char, code}
use Prim.Native.String
use Prim.Native.String.{String, char_at}
use mathlib.Core.Path.{◌≡◌, refl, ap, ◌∙◌}
use mathlib.Core.Logic.{◌↔◌}
use mathlib.Core.Bool.{Bool, true, false, ◌&&◌, ◌||◌}
use mathlib.Core.List.{List, [], ◌∷◌}
use native.Mathlib.Omega.{arith}
use text.Mathlib.Text.{◌==◌ as str_eq}
use text.Mathlib.TextEquality.{eq_iff}
use text.Mathlib.TextLemmas.{nil-append, cons-append}
use pastel_marketplace.Base.Tests.{leb, ltb, ◌==◌, if◌then◌else◌}

infix 50 ◌===◌
abbrev pub ◌===◌ : String → String → Bool
s === t = str_eq s t

pub ===_iff : (s t : String) → ((s === t) ≡ true) ↔ (s ≡ t)
===_iff s t = eq_iff s t

infixr 65 ◌⊕◌
-- `s + t`
abbrev pub ◌⊕◌ : String → String → String
s ⊕ t = String.◌++◌ s t

-- `c.toUpperCase()` on ASCII; other characters are left as they are.
upper_char : Char → Char
upper_char c =
    if leb b'a' (code c) && leb (code c) b'z'
    then char_at "ABCDEFGHIJKLMNOPQRSTUVWXYZ" (code c - b'a')
    else c

unfoldable pub to_upper_case : String → String
unfolding upper_char
to_upper_case String.[] = String.[]
to_upper_case (String.◌∷◌ c s) = String.◌∷◌ (upper_char c) (to_upper_case s)

upper_usd : to_upper_case "uSd" ≡ "USD"
unfolding to_upper_case
upper_usd = refl

-- A test of the first `n` letters of the alphabet, by their index.
every_index : (ℕ → Bool) → ℕ → Bool
every_index test zero = true
every_index test (suc n) = every_index test n && test n

every_index_lem : (test : ℕ → Bool) (n k : ℕ) → k < n → every_index test n ≡ true → test k ≡ true
unfolding every_index
every_index_lem test zero k lt h = absurd (omega arith)
every_index_lem test (suc n) k lt h = ground (arith, every_index_lem test n k)

abbrev is_upper_at : ℕ → Bool
is_upper_at k = leb (code (char_at "ABCDEFGHIJKLMNOPQRSTUVWXYZ" k)) b'Z'

upper_table : every_index is_upper_at 26 ≡ true
unfolding every_index
upper_table = refl

upper_letter : (k : ℕ) → k < 26 → is_upper_at k ≡ true
upper_letter k lt = every_index_lem is_upper_at 26 k lt upper_table

upper_char_idempotent : (c : Char) → upper_char (upper_char c) ≡ upper_char c
unfolding upper_char
upper_char_idempotent c = ground (arith, upper_letter (code c - b'a'))

pub to_upper_case_idempotent : (s : String) → to_upper_case (to_upper_case s) ≡ to_upper_case s
unfolding to_upper_case
to_upper_case_idempotent String.[] = refl
to_upper_case_idempotent (String.◌∷◌ c s) =
    λ i. String.◌∷◌ (upper_char_idempotent c i) (to_upper_case_idempotent s i)

-- Decimal digits of a number, most significant first, in front of `rest`.
show_onto : ℕ → ℕ → String → String
show_onto zero n rest = rest
show_onto (suc f) n rest =
    let grown = String.◌∷◌ (char_at "0123456789" (n % 10)) rest in
    let more = show_onto f (n / 10) grown in if ltb n 10 then grown else more

-- `String(n)`; `n + 1` rounds are more than the digits of `n`.
unfoldable pub show : ℕ → String
unfolding show_onto
show n = show_onto (suc n) n ""

show_1050 : show 1050 ≡ "1050"
unfolding show
show_1050 = refl

-- `c.toLowerCase()` on ASCII; other characters are left as they are.
lower_char : Char → Char
lower_char c =
    if leb b'A' (code c) && leb (code c) b'Z'
    then char_at "abcdefghijklmnopqrstuvwxyz" (code c - b'A')
    else c

unfoldable pub to_lower_case : String → String
unfolding lower_char
to_lower_case String.[] = String.[]
to_lower_case (String.◌∷◌ c s) = String.◌∷◌ (lower_char c) (to_lower_case s)

-- White space of ASCII: the tab to the carriage return, and the space.
abbrev is_space : Char → Bool
is_space c = (leb 9 (code c) && leb (code c) 13) || code c == b' '

trim_start : String → String
trim_start String.[] = String.[]
trim_start (String.◌∷◌ c s) = let rest = trim_start s in if is_space c then rest else String.◌∷◌ c s

-- A blank goes where only blanks follow.
abbrev onto : Char → String → String
onto c String.[] = if is_space c then String.[] else String.◌∷◌ c String.[]
onto c (String.◌∷◌ d s) = String.◌∷◌ c (String.◌∷◌ d s)

trim_end : String → String
trim_end String.[] = String.[]
trim_end (String.◌∷◌ c s) = onto c (trim_end s)

-- `s.trim()`
unfoldable pub trim : String → String
unfolding trim_start trim_end
trim s = trim_end (trim_start s)

abbrev onto_first : Char → List String → List String
onto_first c [] = String.◌∷◌ c String.[] ∷ []
onto_first c (x ∷ xs) = String.◌∷◌ c x ∷ xs

-- `s.split(sep)` for a separator of one character.
unfoldable pub split : Char → String → List String
split sep String.[] = String.[] ∷ []
split sep (String.◌∷◌ c s) =
    let rest = split sep s in if code c == code sep then String.[] ∷ rest else onto_first c rest

-- The separator does not occur.
unfoldable pub is_free_of : Char → String → Bool
is_free_of sep String.[] = true
is_free_of sep (String.◌∷◌ c s) =
    let rest = is_free_of sep s in if code c == code sep then false else rest

pub split-free : (sep : Char) (s : String) → is_free_of sep s ≡ true → split sep s ≡ s ∷ []
unfolding split is_free_of
split-free sep String.[] h = refl
split-free sep (String.◌∷◌ c s) h = ground (arith, split-free sep s)

split-here : (sep : Char) (t : String) → split sep (String.◌∷◌ sep t) ≡ String.[] ∷ split sep t
unfolding split
split-here sep t = ground arith

-- A text in front of a separator is the first part.
split-append :
    (sep : Char) (s t : String)
    → is_free_of sep s ≡ true
    → split sep (s ⊕ String.◌∷◌ sep t) ≡ s ∷ split sep t
unfolding split is_free_of
split-append sep String.[] t h = ap (split sep) (nil-append (String.◌∷◌ sep t)) ∙ split-here sep t
split-append sep (String.◌∷◌ c s) t h =
    rw (cons-append c s (String.◌∷◌ sep t)) (ground (arith, split-append sep s t))

pub split-joined :
    (sep : Char) (s t : String)
    → is_free_of sep s ≡ true
    → split sep (s ⊕ String.◌∷◌ sep "" ⊕ t) ≡ s ∷ split sep t
split-joined sep s t h =
    ap (λ u. split sep (s ⊕ u)) (cons-append sep "" t ∙ ap (String.◌∷◌ sep) (nil-append t))
    ∙ split-append sep s t h

split_token : split "x" "axbx" ≡ "a" ∷ "b" ∷ "" ∷ []
unfolding split
split_token = refl

trimmed : trim " a b  " ≡ "a b"
unfolding trim
trimmed = refl
