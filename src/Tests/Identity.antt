-- ===== src/Tests/Identity.antt =====
-- A platform for the tests of the identity module: a hash that shows its text, and tokens that write
-- their claims out. It has the laws that the module relies on.
pub mod Sessions
pub mod Requests
use Prim.Native.Char.{Char, code}
use Prim.Native.String
use pastel_marketplace.Base.{
  ℕ, zero, suc, ◌+◌, ◌*◌, ◌≤◌, ◌≡◌, refl, ap, ◌∙◌, String, Bool, true, false, Option, none, some,
  ◌==◌, if◌then◌else◌, ltb, arith, inl, inr, Bool-cases,
}
use pastel_marketplace.Base.Text.{◌===◌, ===_iff, is_free_of}
use pastel_marketplace.Accounts.{Scope, public_read, user, trusted}
use pastel_marketplace.Identity.Platform.{Platform, AuthConfig, AccessClaims, IsPlatform}
use pastel_marketplace.Identity.Guards.{rank}

-- A text in front of another, and how it is read back.
unfoldable pub field : String → String → String
field String.[] rest = String.◌∷◌ "e" rest
field (String.◌∷◌ c s) rest = String.◌∷◌ "x" (String.◌∷◌ c (field s rest))

abbrev grown : Char → Option (String × String) → Option (String × String)
grown c none = none
grown c (some (s, rest)) = some (String.◌∷◌ c s, rest)

unfoldable pub read_field : String → Option (String × String)
read_field String.[] = none
read_field (String.◌∷◌ m String.[]) = if code m == b'e' then some (String.[], String.[]) else none
read_field (String.◌∷◌ m (String.◌∷◌ c s)) =
    let rest = read_field s in
    if code m == b'e' then some (String.[], String.◌∷◌ c s) else grown c rest

pub read-field : (s rest : String) → read_field (field s rest) ≡ some (s, rest)
unfolding read_field field
read-field String.[] String.[] = refl
read-field String.[] (String.◌∷◌ c rest) = refl
read-field (String.◌∷◌ c s) rest = ap (grown c) (read-field s rest)

unfoldable pub unary : ℕ → String
unary zero = "u"
unary (suc n) = String.◌∷◌ "a" (unary n)

unfoldable pub size : String → ℕ
size String.[] = 0
size (String.◌∷◌ c String.[]) = 0
size (String.◌∷◌ c (String.◌∷◌ d s)) = suc (size (String.◌∷◌ d s))

pub size-unary : (n : ℕ) → size (unary n) ≡ n
unfolding size unary
size-unary zero = refl
size-unary (suc zero) = refl
size-unary (suc (suc n)) = ap suc (size-unary (suc n))

unary-free : (n : ℕ) → is_free_of "." (unary n) ≡ true
unfolding unary is_free_of
unary-free zero = refl
unary-free (suc n) = unary-free n

is_filled : String → Bool
is_filled String.[] = false
is_filled (String.◌∷◌ c s) = true

filled : (c : Char) (s : String) → (String.◌∷◌ c s === "") ≡ false
unfolding is_filled
filled c s = elim (Bool-cases (String.◌∷◌ c s === "")) [
  | inl e ↦ cc (ap is_filled ((===_iff (String.◌∷◌ c s) "").0 e))
  | inr e ↦ e
]

pub field-filled : (s rest : String) → (field s rest === "") ≡ false
unfolding field
field-filled String.[] rest = filled "e" rest
field-filled (String.◌∷◌ c s) rest = filled "x" (String.◌∷◌ c (field s rest))

unary-filled : (n : ℕ) → (unary n === "") ≡ false
unfolding unary
unary-filled zero = filled "u" ""
unary-filled (suc n) = filled "a" (unary n)

abbrev scope_of : ℕ → Scope
scope_of zero = public_read
scope_of (suc zero) = user
scope_of (suc (suc n)) = trusted

scope_of-rank : (s : Scope) → scope_of (rank s) ≡ s
scope_of-rank public_read = refl
scope_of-rank user = refl
scope_of-rank trusted = refl

unfoldable pub signed : ℕ → ℕ → AccessClaims → String
unfolding field unary
signed now ttl c = field (unary now) (
    field (unary ttl)
      (field c.sub (field (unary (rank c.scope)) (field c.user_type (field (unary c.ver) "")))))

infixl 5 ◌>>=◌
abbrev pub ◌>>=◌ : {A B : Type 0} → Option A → (A → Option B) → Option B
none >>= f = none
some a >>= f = f a

unfoldable pub verified : ℕ → String → Option AccessClaims
unfolding read_field size
verified now token = do
  (issued, s0) ← read_field token
  (ttl, s1) ← read_field s0
  (sub, s2) ← read_field s1
  (scope, s3) ← read_field s2
  (user_type, s4) ← read_field s3
  (ver, s5) ← read_field s4
  if ltb now (size issued + size ttl * 1000)
      then some (record {
        sub = sub;
        scope = scope_of (size scope);
        user_type = user_type;
        ver = size ver;
      })
      else none

verified-signed :
    (issued ttl now : ℕ) (c : AccessClaims)
    → now + 1000 ≤ issued + ttl * 1000
    → verified now (signed issued ttl c) ≡ some c
unfolding verified signed
verified-signed issued ttl now c early =
    let early' : ltb now (issued + ttl * 1000) ≡ true = ground arith in
    rw
      (
        read-field (unary issued) _,
        read-field (unary ttl) _,
        read-field c.sub _,
        read-field (unary (rank c.scope)) _,
        read-field c.user_type _,
        read-field (unary c.ver) _,
        size-unary issued,
        size-unary ttl,
        early',
        size-unary (rank c.scope),
        scope_of-rank c.scope,
        size-unary c.ver,
      )
      refl

abbrev pub platform : Platform
platform = record {
  uuid = unary;
  secret = λ n. String.◌∷◌ "s" (unary n);
  hash = λ n s. String.◌∷◌ "h" s;
  verify_hash = λ h s. h === String.◌∷◌ "h" s;
  sign = signed;
  verify_token = verified;
}

pub platform-IsPlatform : IsPlatform platform
unfolding is_free_of
platform-IsPlatform = record {
  verify-hash = λ n s. (===_iff (String.◌∷◌ "h" s) (String.◌∷◌ "h" s)).1 refl;
  verify-sign = verified-signed;
  hashed = λ n s. filled "h" s;
  uuid_free = unary-free;
  uuid_named = unary-filled;
  secret_free = unary-free;
  secret_named = λ n. filled "s" (unary n);
}

-- A quarter of an hour and a month.
abbrev pub config : AuthConfig
config = record { access_ttl = 900; refresh_ttl = 2592000 }
