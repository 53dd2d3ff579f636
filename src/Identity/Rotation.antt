-- ===== src/Identity/Rotation.antt =====
-- What becomes of a refresh token: it is accepted once, and its replay ends the family.
use pastel_marketplace.Base.{
  ℕ, ◌≡◌, refl, sym, ap, ◌∙◌, String, true, false, Option, none, some, List, ◌++◌, not, find?,
  arith, ltb, inl, inr, Bool-cases, Option-cases,
}
use mathlib.Core.Path.{subst}
use pastel_marketplace.Base.Rows.{
  update_where, count-update_all, count-update_same, find?-update, some_inj,
}
use pastel_marketplace.Base.Text.{◌===◌, ===_iff, split}
use pastel_marketplace.Base.Result.{Result, ok, err, unauthorized, ok-injective}
use pastel_marketplace.Service.{pure, some_or, throw_when, bind-ok, some_or-ok, throw_when-ok}
use pastel_marketplace.Accounts.{Accounts, User, Credential}
use pastel_marketplace.Identity.Platform.{Platform, AuthConfig}
use pastel_marketplace.Identity.Tokens.{
  Meta, Rotated, by_id, is_live, in_family, is_some, revoke_at, revoke_family, parts_of, is_closed,
  detect_reuse, family_of, reuse_detected, malformed, create_credential, issue_next,
  check_credential, check_secret, rotate, usable_user, user_by_id, verify_password, fresh_id,
}
use pastel_marketplace.Identity.Families.{
  live_in, live_count, check_credential-ok, detect_reuse-ok, found_id, unknown,
}

-- The family is burnt: its tokens are refused from now on, and no other family's.
pub record IsBurnt (family : String) (before after : Accounts) : Type 0 where
  pub none_live : live_count family after ≡ 0
  pub others :
      (other : String)
      → (family === other) ≡ false
      → live_count other after ≡ live_count other before

in_two :
    (family other : String) (c : Credential)
    → (family === other) ≡ false
    → in_family family c ≡ true
    → in_family other c ≡ false
in_two family other c ne own = elim (Option-cases c.family) [
  | inl e ↦ rw e
  | inr (f, e) ↦
      let own' = rw e at own in
      rw e (subst (λ x. (x === other) ≡ false) (sym ((===_iff f family).0 own')) ne)
]

revoke_family-IsBurnt :
    (now : ℕ) (family : String) (db : Accounts)
    → (family === "") ≡ false
    → IsBurnt family db (revoke_family now (some family) db)
revoke_family-IsBurnt now family db named = rw named (record {
  none_live =
      count-update_all (live_in family) (live_in family) (revoke_at now) db.credentials (λ c e. e)
        (λ c e. ground arith);
  others = λ other ne.
      count-update_same (live_in other) (live_in family) (revoke_at now) db.credentials
        (λ c e. ground (arith, in_two family other c ne));
})

taken : (cred : Credential) → is_live cred ≡ false → is_some cred.revoked_at ≡ true
taken cred dead = ground arith

issued_to : {r r' : Rotated} {s s' : Accounts} → pure r s ≡ (ok r', s') → r'.user_id ≡ r.user_id
issued_to h =
    ap (λ (x : Rotated). x.user_id)
      (sym (ok-injective (ap (λ (x : Result Rotated × Accounts). x.0) h)))

module _ (p : Platform) (config : AuthConfig) where
  -- A refresh token whose credential is revoked is refused, and burns its family: no token of the
  -- family is live after the call, and every other family keeps its live tokens.
  pub rotate-reused :
      (now : ℕ) (raw id secret family : String) (cred : Credential) (meta : Meta) (db : Accounts)
      → parts_of (split "." raw) ≡ some (id, secret)
      → find? (by_id id) db.credentials ≡ some cred
      → is_live cred ≡ false
      → cred.family ≡ some family
      → (family === "") ≡ false
      → let after = rotate p config now raw meta db in
        (after.0 ≡ err reuse_detected) × IsBurnt family db after.1
  unfolding rotate check_credential detect_reuse
  rotate-reused now raw id secret family cred meta db parts found revoked own named =
      rw (parts, found, taken cred revoked, own) (refl, revoke_family-IsBurnt now family db named)

  -- A rotation revokes rows with the id, and appends.
  next_rows :
      (now : ℕ) (cred : Credential) (user : User) (meta : Meta) (db : Accounts)
      → (more : List Credential) × ((issue_next p config now cred user meta db).1.credentials
          ≡ update_where (by_id cred.id) (revoke_at now) db.credentials ++ more)
  unfolding issue_next family_of create_credential fresh_id
  next_rows now cred user meta db = elim (Option-cases cred.family) [
    | inl alone ↦ rw alone (_, refl)
    | inr (family, own) ↦ rw own (_, refl)
  ]

  next_row :
      (now : ℕ) (id : String) (cred : Credential) (user : User) (meta : Meta) (db : Accounts)
      → find? (by_id id) db.credentials ≡ some cred
      → find? (by_id id) (issue_next p config now cred user meta db).1.credentials
        ≡ some (revoke_at now cred)
  next_row now id cred user meta db found =
      let (more, rows) = next_rows now cred user meta db in
      let same = found_id p config now id cred db.credentials found in
      ap (find? (by_id id)) rows
      ∙ subst
          (λ k.
            find? (by_id id) (update_where (by_id k) (revoke_at now) db.credentials ++ more)
            ≡ some (revoke_at now cred))
          (sym same)
          (find?-update (by_id id) (revoke_at now) db.credentials more cred (λ c e. e) found)

  rotate-revokes :
      (now : ℕ) (raw id secret : String) (cred : Credential) (meta : Meta) (db db' : Accounts)
      (r : Rotated)
      → parts_of (split "." raw) ≡ some (id, secret)
      → find? (by_id id) db.credentials ≡ some cred
      → rotate p config now raw meta db ≡ (ok r, db')
      → find? (by_id id) db'.credentials ≡ some (revoke_at now cred)
  unfolding rotate
  rotate-revokes now raw id secret cred meta db db' r parts found h =
      let h' = rw (parts, found) at h in
      let (user, mid, checked, issued) =
        bind-ok (check_credential p config now cred secret)
          (λ user. issue_next p config now cred user meta) db h' in
      let unchanged = (check_credential-ok p config now cred secret db checked).0 in
      let after =
        ap (λ (x : Result Rotated × Accounts). x.1) (sym issued)
        ∙ ap (λ x. (issue_next p config now cred user meta x).1) unchanged in
      rw after (next_row now id cred user meta db found)

  -- A refresh token of a named family that was rotated once is refused when it is presented again
  -- to the database that the rotation left, at any time, and that call burns its family: no token
  -- of the family is live after it, and every other family keeps its number of live tokens.
  pub rotate-replayed :
      (now later : ℕ) (raw id secret family : String) (cred : Credential) (meta meta' : Meta)
      (db db' : Accounts) (r : Rotated)
      → parts_of (split "." raw) ≡ some (id, secret)
      → find? (by_id id) db.credentials ≡ some cred
      → cred.family ≡ some family
      → (family === "") ≡ false
      → rotate p config now raw meta db ≡ (ok r, db')
      → let after = rotate p config later raw meta' db' in
        (after.0 ≡ err reuse_detected) × IsBurnt family db' after.1
  rotate-replayed now later raw id secret family cred meta meta' db db' r parts found own named h =
      rotate-reused later raw id secret family (revoke_at now cred) meta' db' parts
        (rotate-revokes now raw id secret cred meta db db' r parts found h) refl own named

  usable-inv :
      (o : Option User) (u : User)
      → usable_user o ≡ some u
      → (o ≡ some u) × (is_closed u.account_status ≡ false)
  usable-inv none u h = cc
  usable-inv (some v) u h = elim (Bool-cases (is_closed v.account_status)) [
    | inl closed ↦ cc (rw closed at h)
    | inr usable ↦
        let same = rw usable at h in
        (same, subst (λ x. is_closed x.account_status ≡ false) (some_inj same) usable)
  ]

  check_secret-ok :
      (now : ℕ) (cred : Credential) (secret : String) (db : Accounts) {u : User} {db' : Accounts}
      → check_secret p config now cred secret db ≡ (ok u, db')
      → usable_user (find? (user_by_id cred.user_id) db.users) ≡ some u
  unfolding check_secret
  check_secret-ok now cred secret db h =
      let (_, s1, e1, h1) =
        bind-ok (throw_when (ltb cred.expires_at now) (unauthorized "Refresh token expired")) _ db
          h in
      let (_, s2, e2, h2) =
        bind-ok
          (throw_when (not (verify_password p (some cred.refresh_hash) secret))
            (unauthorized "Invalid refresh token"))
          _ s1 h1 in
      let same = (throw_when-ok _ _ s1 e2).1 ∙ (throw_when-ok _ _ db e1).1 in
      ap (λ x. usable_user (find? (user_by_id cred.user_id) x.users)) (sym same)
      ∙ (some_or-ok _ _ s2 h2).0

  issue_next-user :
      (now : ℕ) (cred : Credential) (u : User) (meta : Meta) (db db' : Accounts) (r : Rotated)
      → issue_next p config now cred u meta db ≡ (ok r, db')
      → r.user_id ≡ u.id
  unfolding issue_next family_of create_credential fresh_id
  issue_next-user now cred u meta db db' r h = elim (Option-cases cred.family) [
    | inl alone ↦ issued_to (rw alone at h)
    | inr (family, own) ↦ issued_to (rw own at h)
  ]

  -- Who the tokens of a rotation are for.
  pub rotate-user :
      (now : ℕ) (raw : String) (meta : Meta) (db db' : Accounts) (r : Rotated)
      → rotate p config now raw meta db ≡ (ok r, db')
      → (key : String) × (u : User) × (find? (user_by_id key) db.users ≡ some u)
        × (is_closed u.account_status ≡ false)
        × (r.user_id ≡ u.id)
  unfolding rotate check_credential
  rotate-user now raw meta db db' r h =
      let (parts, s1, e1, h1) = bind-ok (some_or (parts_of (split "." raw)) malformed) _ db h in
      let (cred, s2, e2, h2) =
        bind-ok (some_or (find? (by_id parts.0) s1.credentials) unknown) _ s1 h1 in
      let (u, s3, e3, h3) =
        bind-ok (check_credential p config now cred parts.1)
          (λ u. issue_next p config now cred u meta) s2 h2 in
      let (_, s4, e4, h4) =
        bind-ok (detect_reuse p config now cred) (λ _. check_secret p config now cred parts.1) s2
          e3 in
      let same =
        (detect_reuse-ok p config now cred s2 e4).1
        ∙ (some_or-ok _ _ s1 e2).1
        ∙ (some_or-ok _ _ db e1).1 in
      let (found, usable) = usable-inv _ u (check_secret-ok now cred parts.1 s4 h4) in
      (
        cred.user_id,
        u,
        ap (λ x. find? (user_by_id cred.user_id) x.users) (sym same) ∙ found,
        usable,
        issue_next-user now cred u meta s3 db' r h3,
      )
