-- ===== src/Identity/Issued.antt =====
-- What becomes of a refresh token on the database that its issue left.
use pastel_marketplace.Base.{
  ℕ, ◌+◌, ◌*◌, ◌≤◌, ◌≡◌, refl, ◌∙◌, String, true, false, none, some, [], ◌∷◌, ◌++◌, find?, arith,
  ltb,
}
use pastel_marketplace.Base.Rows.{find?-append_none}
use pastel_marketplace.Base.Text.{===_iff, ◌⊕◌, split, split-free, split-joined}
use pastel_marketplace.Base.Result.{ok}
use pastel_marketplace.Accounts.{Accounts, User, Scope}
use pastel_marketplace.Identity.Platform.{Platform, AuthConfig, IsPlatform}
use pastel_marketplace.Identity.Tokens.{
  Meta, Rotated, by_id, parts_of, detect_reuse, family_of, create_credential, new_credential,
  issue_next, issue_refresh, check_credential, check_secret, rotate, usable_user, user_by_id,
  verify_password, fresh_id,
}

module _ (p : Platform) (config : AuthConfig) where
  -- The parts of a token are the id and the secret that made it.
  token_parts :
      (n k : ℕ)
      → IsPlatform p
      → parts_of (split "." (p.uuid n ⊕ "." ⊕ p.secret k)) ≡ some (p.uuid n, p.secret k)
  token_parts n k laws =
      rw
        (
          split-joined "." (p.uuid n) (p.secret k) (laws.uuid_free n),
          split-free "." (p.secret k) (laws.secret_free k),
          laws.uuid_named n,
          laws.secret_named k,
        )
        refl

  secret_verifies :
      (n : ℕ) (s : String) → IsPlatform p → verify_password p (some (p.hash n s)) s ≡ true
  secret_verifies n s laws = rw (laws.hashed n s, laws.verify-hash n s) refl

  -- On the database that its issue left, with nothing in between, a refresh token is accepted at
  -- every time up to its expiry, and the new tokens are for the same account: where the platform
  -- keeps its laws, the id of the token's row is new, and the account is there and not banned or
  -- deleted.
  pub rotate-issued :
      (now later : ℕ) (user : User) (scope : Scope) (meta meta' : Meta) (db : Accounts)
      → IsPlatform p
      → find? (by_id (p.uuid (db.created + 1))) db.credentials ≡ none
      → usable_user (find? (user_by_id user.id) db.users) ≡ some user
      → later ≤ now + config.refresh_ttl * 1000
      → let issued = issue_refresh p config now user.id scope meta db in
        (token : String) × (family : String) × (r : Rotated) × (issued.0 ≡ ok (token, family))
        × ((rotate p config later token meta' issued.1).0 ≡ ok r)
        × (r.user_id ≡ user.id)
  unfolding issue_refresh create_credential fresh_id new_credential rotate check_credential
      detect_reuse check_secret issue_next family_of
  rotate-issued now later user scope meta meta' db laws fresh known early =
      let n = db.created + 1 in
      let row =
        new_credential p config now user.id scope (p.uuid db.created) meta
          (record db { created = n }) in
      let found : find? (by_id (p.uuid n)) (db.credentials ++ row ∷ []) ≡ some row =
        find?-append_none (by_id (p.uuid n)) db.credentials (row ∷ []) fresh
        ∙ rw ((===_iff (p.uuid n) (p.uuid n)).1 refl) refl in
      let on_time : ltb (now + config.refresh_ttl * 1000) later ≡ false = ground arith in
      let token = p.uuid n ⊕ "." ⊕ p.secret db.drawn in
      let after = (issue_refresh p config now user.id scope meta db).1 in
      let run : (rotate p config later token meta' after).0
          ≡ (issue_next p config later row user meta' after).0 =
        rw
          (
            token_parts n db.drawn laws,
            found,
            on_time,
            secret_verifies (db.drawn + 1) (p.secret db.drawn) laws,
            known,
          )
          refl in
      (token, p.uuid db.created, _, refl, run, refl)
