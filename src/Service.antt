-- ===== src/Service.antt =====
-- Service code over a state: it reads and writes the state, and throws. The state comes back after
-- a throw too.
use pastel_marketplace.Base.{
  ◌≡◌, refl, sym, ap, Bool, true, false, Option, none, some, if◌then◌else◌,
}
use mathlib.Core.Path.{subst}
use pastel_marketplace.Base.Text.{◌===◌}
use pastel_marketplace.Base.Result.{Result, Exception, ok, err, prisma, ok-injective}

abbrev pub Service : Type 0 → Type 0 → Type 0
Service S A = S → Result A × S

module _ {S : Type 0} where
  module _ {A : Type 0} where
    abbrev pub pure : A → Service S A
    pure a s = (ok a, s)

    abbrev pub throw : Exception → Service S A
    throw e s = (err e, s)

    abbrev pub lift : Result A → Service S A
    lift r s = (r, s)

    -- A read of the whole state.
    abbrev pub reads : (S → A) → Service S A
    reads f s = (ok (f s), s)

    -- `o ?? throw e`
    abbrev pub some_or : Option A → Exception → Service S A
    some_or none e s = (err e, s)
    some_or (some a) e s = (ok a, s)

    -- `prisma.$transaction` on a state that is the database: an exception rolls it back.
    abbrev pub rolled_back : S → Result A × S → Result A × S
    rolled_back before (ok a, s) = (ok a, s)
    rolled_back before (err e, s) = (err e, before)

    abbrev pub atomically : Service S A → Service S A
    atomically m s = rolled_back s (m s)

  -- A call that catches Prisma's `P2002`, an insert under a key that is taken.
  abbrev pub caught : Result (Unit {0}) × S → Result (Unit {0}) × S
  caught (err (prisma code), s) = if code === "P2002" then (ok tt, s) else (err (prisma code), s)
  caught r = r

  abbrev pub writes : (S → S) → Service S (Unit {0})
  writes f s = (ok tt, f s)

  abbrev pub throw_when : Bool → Exception → Service S (Unit {0})
  throw_when true e s = (err e, s)
  throw_when false e s = (ok tt, s)

  infixl 5 ◌>>=◌ ◌>>◌
  abbrev pub continue : {A B : Type 0} → (A → Service S B) → Result A × S → Result B × S
  continue f (ok a, s) = f a s
  continue f (err e, s) = (err e, s)

  abbrev pub ◌>>=◌ : {A B : Type 0} → Service S A → (A → Service S B) → Service S B
  ◌>>=◌ m f s = continue f (m s)

  abbrev pub ◌>>◌ : {A B : Type 0} → Service S A → Service S B → Service S B
  m >> k = m >>= λ _. k

module _ {S A B : Type 0} where
  continue-ok :
      (f : A → Service S B) (r : Result A × S) {b : B} {s'' : S}
      → continue f r ≡ (ok b, s'')
      → (a : A) × (s' : S) × (r ≡ (ok a, s')) × (f a s' ≡ (ok b, s''))
  continue-ok f (ok a, s') h = (a, s', refl, h)
  continue-ok f (err e, s') h = cc (ap (λ (r : Result B × S). r.0) h)

  -- A run that succeeds goes through each part.
  pub bind-ok :
      (m : Service S A) (f : A → Service S B) (s : S) {b : B} {s'' : S}
      → (m >>= f) s ≡ (ok b, s'')
      → (a : A) × (s' : S) × (m s ≡ (ok a, s')) × (f a s' ≡ (ok b, s''))
  bind-ok m f s h = continue-ok f (m s) h

-- A reading part that succeeds leaves the state as it is.
module _ {S : Type 0} where
  pub some_or-ok :
      {A : Type 0} (o : Option A) (e : Exception) (s : S) {a : A} {s' : S}
      → some_or o e s ≡ (ok a, s')
      → (o ≡ some a) × (s' ≡ s)
  some_or-ok none e s h = cc (ap (λ (r : Result _ × S). r.0) h)
  some_or-ok {A} (some a) e s h = (
    ap some (ok-injective (ap (λ (r : Result A × S). r.0) h)),
    ap (λ (r : Result A × S). r.1) (sym h),
  )

  pub lift-ok :
      {A : Type 0} (r : Result A) (s : S) {a : A} {s' : S}
      → lift r s ≡ (ok a, s')
      → (r ≡ ok a) × (s' ≡ s)
  lift-ok {A} r s h = (ap (λ (x : Result A × S). x.0) h, ap (λ (x : Result A × S). x.1) (sym h))

  pub throw_when-ok :
      (b : Bool) (e : Exception) (s : S) {u : Unit {0}} {s' : S}
      → throw_when b e s ≡ (ok u, s')
      → (b ≡ false) × (s' ≡ s)
  throw_when-ok true e s h = cc (ap (λ (r : Result (Unit {0}) × S). r.0) h)
  throw_when-ok false e s h = (refl, ap (λ (r : Result (Unit {0}) × S). r.1) (sym h))

  pub rolled_back-ok :
      {A : Type 0} (s0 : S) (r : Result A × S) {a : A} {s' : S}
      → rolled_back s0 r ≡ (ok a, s')
      → r ≡ (ok a, s')
  rolled_back-ok s0 (ok a, s) h = h
  rolled_back-ok {A} s0 (err e, s) h = cc (ap (λ (x : Result A × S). x.0) h)

-- What a chain of parts keeps, errors included.
module _ {S A B : Type 0} (P : S → Type 0) where
  pub continue-keeps :
      (f : A → Service S B) (r : Result A × S)
      → P r.1
      → ((a : A) → r.0 ≡ ok a → P (f a r.1).1)
      → P (continue f r).1
  continue-keeps f (ok a, s) kept next = next a refl
  continue-keeps f (err e, s) kept next = kept

  -- The first part only reads.
  pub read-keeps :
      (f : A → Service S B) (r : Result A × S) (s : S)
      → r.1 ≡ s
      → P s
      → ((a : A) → r.0 ≡ ok a → P (f a s).1)
      → P (continue f r).1
  read-keeps f (ok a, s') s e kept next = subst (λ x. P (f a x).1) (sym e) (next a refl)
  read-keeps f (err x, s') s e kept next = subst P (sym e) kept

-- The parts that only read.
module _ {S : Type 0} where
  pub some_or-reads : {A : Type 0} (o : Option A) (e : Exception) (s : S) → (some_or o e s).1 ≡ s
  some_or-reads none e s = refl
  some_or-reads (some a) e s = refl

  pub throw_when-reads : (b : Bool) (e : Exception) (s : S) → (throw_when b e s).1 ≡ s
  throw_when-reads true e s = refl
  throw_when-reads false e s = refl

  pub some_or-inv :
      {A : Type 0} (o : Option A) (e : Exception) (s : S) {a : A}
      → (some_or o e s).0 ≡ ok a
      → o ≡ some a
  some_or-inv none e s h = cc
  some_or-inv (some b) e s h = ap some (ok-injective h)

-- A throw is no success.
pub refused :
    {S A : Type 0} {P : Type 0} {e : Exception} {s : S} {a : A} {s' : S}
    → throw e s ≡ (ok a, s')
    → P
refused {S} {A} h = cc (ap (λ (x : Result A × S). x.0) h)
