-- ===== src/Orders/Monad.antt =====
-- The world of the order flow: the database and the state of the gateway. A transaction puts the
-- database back, and not the gateway.
use pastel_marketplace.Base.Result.{Result, ok, err}
use pastel_marketplace.Database.{Db}
use pastel_marketplace.Service.{Service}
unfoldable pub use pastel_marketplace.Service.{
  pure, throw, lift, some_or, throw_when, continue, ◌>>=◌, ◌>>◌,
}

pub record World (W : Type 0) : Type 0 where
  pub db : Db
  pub gateway : W

abbrev pub M : Type 0 → Type 0 → Type 0
M W A = Service (World W) A

module _ {W : Type 0} where
  module _ {A : Type 0} where
    abbrev pub gets : (Db → A) → M W A
    gets f w = (ok (f w.db), w)

    -- A call of the gateway.
    abbrev pub call : (W → Result A × W) → M W A
    call f w = let (r, g) = f w.gateway in (r, record w { gateway = g })

    -- `prisma.$transaction`: an exception rolls the database back.
    abbrev pub restored : Db → Result A × World W → Result A × World W
    restored before (ok a, w) = (ok a, w)
    restored before (err e, w) = (err e, record w { db = before })

    unfoldable pub transaction : M W A → M W A
    transaction m w = restored w.db (m w)

  abbrev pub modify : (Db → Db) → M W (Unit {0})
  modify f w = (ok tt, record w { db = f w.db })
