-- ===== src/Base/Result.antt =====
-- Exceptions of the source as values, and the monad of code that throws.
use Prim.Native.String.{String}
use mathlib.Core.Path.{◌≡◌, refl}
use mathlib.Core.Bool.{Bool, true, false}
use mathlib.Core.Option.{Option, none, some}

-- The exceptions that the services throw, by HTTP class; `error` is a plain `Error` (a 500),
-- `prisma` a known request error of the database client with its code, and `unfinished` stands
-- for a run that the fuel of the model cut off.
pub data Exception : Type 0 where
  bad_request unauthorized forbidden not_found conflict error prisma : String → Exception
  unfinished : Exception

-- What a call gives back: an exception, or a value.
pub data Result {ℓ} (A : Type ℓ) : Type ℓ where
  err : Exception → Result A
  ok : A → Result A

infixl 5 ◌>>=◌ ◌>>◌
-- An exception skips the rest.
abbrev pub ◌>>=◌ {ℓ κ} : {A : Type ℓ} {B : Type κ} → Result A → (A → Result B) → Result B
err e >>= next = err e
ok a >>= next = next a

abbrev pub ◌>>◌ {ℓ} : {B : Type ℓ} → Result (Unit {0}) → Result B → Result B
first >> second = first >>= λ done. second

-- `if (b) throw e;`
abbrev pub throw_if : Bool → Exception → Result (Unit {0})
throw_if true e = err e
throw_if false e = ok tt

-- `o ?? throw e`
abbrev pub or_throw {ℓ} : {A : Type ℓ} → Option A → Exception → Result A
or_throw none e = err e
or_throw (some a) e = ok a

pub >>=-eq-ok {ℓ κ} :
    {A : Type ℓ} {B : Type κ} (r : Result A) (next : A → Result B) {b : B}
    → (r >>= next) ≡ ok b
    → (a : A) × (r ≡ ok a) × (next a ≡ ok b)
>>=-eq-ok (err e) next h = cc
>>=-eq-ok (ok a) next h = (a, refl, h)

pub throw_if-ok : (b : Bool) (e : Exception) {u : Unit {0}} → throw_if b e ≡ ok u → b ≡ false
throw_if-ok true e h = cc
throw_if-ok false e h = refl

pub or_throw-ok {ℓ} :
    {A : Type ℓ} (o : Option A) (e : Exception) {a : A} → or_throw o e ≡ ok a → o ≡ some a
or_throw-ok none e h = cc
or_throw-ok (some a) e h = cc

pub throw_if-then-ok {ℓ} :
    {A : Type ℓ} (b : Bool) (e : Exception) {x y : A}
    → (throw_if b e >> ok x) ≡ ok y
    → (b ≡ false) × (y ≡ x)
throw_if-then-ok true e h = cc
throw_if-then-ok false e h = (refl, cc)

pub ok-injective {ℓ} : {A : Type ℓ} {a b : A} → ok a ≡ ok b → a ≡ b
ok-injective h = cc
