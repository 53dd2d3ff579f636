-- ===== src/Identity/Families.antt =====
-- token.service.ts: how many live tokens a family of refresh tokens has.
use pastel_marketplace.Base.{
  ℕ, ◌+◌, ◌≤◌, ◌≡◌, sym, ap, ◌∙◌, String, Bool, true, false, Option, none, some, List, [], ◌∷◌,
  ◌&&◌, find?, arith, inl, inr, Bool-cases,
}
use mathlib.Core.Path.{subst}
use pastel_marketplace.Base.Rows.{
  update_where, count, one_if, count-append, count-update_out, count-update_none, count-find,
  find?-test,
}
use pastel_marketplace.Base.Text.{◌===◌, ===_iff}
use pastel_marketplace.Base.Result.{Result, Exception, ok, unauthorized}
use pastel_marketplace.Service.{bind-ok}
use pastel_marketplace.Accounts.{Accounts, User, Credential, Scope}
use pastel_marketplace.Identity.Platform.{Platform, AuthConfig}
use pastel_marketplace.Identity.Tokens.{
  Meta, by_id, is_live, in_family, is_some, revoke_at, revoke_family, detect_reuse,
  create_credential, new_credential, check_credential, check_secret,
}

abbrev pub live_in : String → Credential → Bool
live_in family c = in_family family c && is_live c

abbrev pub live_count : String → Accounts → ℕ
live_count family db = count (live_in family) db.credentials

abbrev pub IsSingle : Accounts → Type 0
IsSingle db = (family : String) → live_count family db ≤ 1

pub revoked_out :
    (family : String) (now : ℕ) (c : Credential) → live_in family (revoke_at now c) ≡ false
revoked_out family now c = ground arith

pub revokes-le :
    (family : String) (now : ℕ) (q : Credential → Bool) (cs : List Credential)
    → count (live_in family) (update_where q (revoke_at now) cs) ≤ count (live_in family) cs
revokes-le family now q cs =
    count-update_out (live_in family) q (revoke_at now) cs λ c e h. revoked_out family now c

revoke_family-le :
    (now : ℕ) (burnt : Option String) (db : Accounts) (family : String)
    → live_count family (revoke_family now burnt db) ≤ live_count family db
revoke_family-le now none db family = omega arith
revoke_family-le now (some f) db family = elim (Bool-cases (f === "")) [
  | inl empty ↦ rw empty (omega arith)
  | inr named ↦ rw named (revokes-le family now (live_in f) db.credentials)
]

abbrev pub unknown : Exception
unknown = unauthorized "Unknown refresh token"

module _ (p : Platform) (config : AuthConfig) (now : ℕ) where
  pub detect_reuse-le :
      (cred : Credential) (db : Accounts) (family : String)
      → live_count family (detect_reuse p config now cred db).1 ≤ live_count family db
  unfolding detect_reuse
  detect_reuse-le cred db family = elim (Bool-cases (is_some cred.revoked_at)) [
    | inl revoked ↦ rw revoked (revoke_family-le now cred.family db family)
    | inr live ↦ rw live (omega arith)
  ]

  -- A new credential adds one live token to its family, and none to the others.
  pub created_count :
      (user_id : String) (scope : Scope) (fam : String) (meta : Meta) (db : Accounts)
      (family : String)
      → live_count family (create_credential p config now user_id scope fam meta db).1
        ≡ live_count family db + one_if (fam === family)
  unfolding create_credential new_credential
  created_count user_id scope fam meta db family =
      count-append (live_in family) db.credentials
        (new_credential p config now user_id scope fam meta db ∷ [])
      ∙ ground arith

  -- The family that a rotation goes on with has no live token left.
  pub emptied :
      (cred : Credential) (cs : List Credential) (family : String)
      → find? (by_id cred.id) cs ≡ some cred
      → is_live cred ≡ true
      → in_family family cred ≡ true
      → count (live_in family) cs ≤ 1
      → count (live_in family) (update_where (by_id cred.id) (revoke_at now) cs) ≡ 0
  emptied cred cs family found live own single =
      let split =
        count-update_none (live_in family) (by_id cred.id) (revoke_at now) cs
          (λ c e. revoked_out family now c) in
      let some_row = count-find (live_in family) (by_id cred.id) cs cred found (ground arith) in
      omega arith

  abbrev revoked_row : Credential → Accounts → Accounts
  revoked_row cred db = record db {
    credentials = update_where (by_id cred.id) (revoke_at now) db.credentials;
  }

  next-IsSingle :
      (cred : Credential) (family : String) (meta : Meta) (db : Accounts)
      → IsSingle db
      → live_count family db ≡ 0
      → IsSingle (create_credential p config now cred.user_id cred.scope family meta db).1
  next-IsSingle cred family meta db single none_live g =
      let grown = created_count cred.user_id cred.scope family meta db g in
      elim (Bool-cases (family === g)) [
        | inl same ↦
            let e = (===_iff family g).0 same in
            rw (grown, same) (omega (arith, subst (λ x. live_count x db ≡ 0) e none_live))
        | inr other ↦ rw (grown, other) (omega (arith, single g))
      ]

  revoked-IsSingle :
      (cred : Credential) (db : Accounts) → IsSingle db → IsSingle (revoked_row cred db)
  revoked-IsSingle cred db single g =
      omega (arith, revokes-le g now (by_id cred.id) db.credentials, single g)

  check_secret-reads :
      (cred : Credential) (secret : String) (db : Accounts)
      → (check_secret p config now cred secret db).1 ≡ db
  unfolding check_secret
  check_secret-reads cred secret db = ground arith

  pub detect_reuse-ok :
      (cred : Credential) (db : Accounts) {u : Unit {0}} {db' : Accounts}
      → detect_reuse p config now cred db ≡ (ok u, db')
      → (is_live cred ≡ true) × (db' ≡ db)
  unfolding detect_reuse
  detect_reuse-ok cred db h = ground arith

  -- A check that succeeds changed nothing, and the credential was live.
  pub check_credential-ok :
      (cred : Credential) (secret : String) (db : Accounts) {user : User} {db' : Accounts}
      → check_credential p config now cred secret db ≡ (ok user, db')
      → (db' ≡ db) × (is_live cred ≡ true)
  unfolding check_credential
  check_credential-ok cred secret db {user} {db'} h =
      let (_, db1, e1, h1) = bind-ok (detect_reuse p config now cred) _ db h in
      let (live, same) = detect_reuse-ok cred db e1 in
      (
        ap (λ (r : Result User × Accounts). r.1) (sym h1)
            ∙ check_secret-reads cred secret db1
            ∙ same,
        live,
      )

  pub found_id :
      (id : String) (cred : Credential) (cs : List Credential)
      → find? (by_id id) cs ≡ some cred
      → cred.id ≡ id
  found_id id cred cs e = (===_iff cred.id id).0 (find?-test (by_id id) cs cred e)
