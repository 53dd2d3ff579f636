-- ===== src/Process/Table.antt =====
-- Facts about the transitions and timers of a process, checked on its table.
use pastel_marketplace.Base.{◌≡◌, String, Bool, true, some, List, [], ◌∷◌, ◌&&◌, arith, find?}
use pastel_marketplace.Base.Text.{◌===◌, ===_iff}
use pastel_marketplace.Process.{TransitionDef, includes}

abbrev pub all_of {ℓ} : {A : Type ℓ} → (A → Bool) → List A → Bool
all_of p [] = true
all_of p (x ∷ xs) = p x && all_of p xs

-- A test holds of every transition with every state that it may start from.
abbrev pub holds_of_all : (TransitionDef → String → Bool) → List TransitionDef → Bool
holds_of_all test = all_of (λ t. all_of (test t) t.from)

all_of-includes :
    (p : String → Bool) (xs : List String) (x : String)
    → all_of p xs ≡ true
    → includes xs x ≡ true
    → p x ≡ true
all_of-includes p [] x h e = cc
all_of-includes p (y ∷ ys) x h e = ground (arith, ===_iff y x, all_of-includes p ys x)

all_of-find? {ℓ} :
    {A : Type ℓ} (p q : A → Bool) (xs : List A) (x : A)
    → all_of p xs ≡ true
    → find? q xs ≡ some x
    → p x ≡ true
all_of-find? p q [] x h e = cc
all_of-find? p q (y ∷ ys) x h e = ground (arith, all_of-find? p q ys x)

-- So it holds of a transition that a search finds, in a state from which it is legal.
pub table_fact :
    (test : TransitionDef → String → Bool) (ts : List TransitionDef) (name : String)
    (t : TransitionDef) (s : String)
    → holds_of_all test ts ≡ true
    → find? (λ x. x.name === name) ts ≡ some t
    → includes t.from s ≡ true
    → test t s ≡ true
table_fact test ts name t s h e legal =
    all_of-includes (test t) t.from s (all_of-find? (λ u. all_of (test u) u.from) _ ts t h e) legal
