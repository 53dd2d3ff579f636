-- ===== src/Accounts/Writes.antt =====
-- What the services of several modules write to the accounts.
use pastel_marketplace.Base.{String, find?}
use pastel_marketplace.Base.Rows.{update_where}
use pastel_marketplace.Base.Text.{◌===◌}
use pastel_marketplace.Base.Result.{prisma}
use pastel_marketplace.Service.{Service, reads, writes, some_or, ◌>>=◌, ◌>>◌}
use pastel_marketplace.Accounts.{Accounts, User}

-- `tx.user.update({ where: { id }, … })`, which fails where no row has the id
unfoldable pub update_user : String → (User → User) → Service Accounts User
update_user id change = do
  writes λ db. record db { users = update_where (λ u. u.id === id) change db.users }
  found ← reads λ db. find? (λ u. u.id === id) db.users
  some_or found (prisma "P2025")
