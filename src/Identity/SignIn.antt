-- ===== src/Identity/SignIn.antt =====
-- Signing up and in: the laws of identity's auth service.
use pastel_marketplace.Base.{
  ℕ, ◌+◌, ◌≡◌, refl, ap, ◌∙◌, String, Bool, true, false, none, some, List, [], ◌∷◌, ◌++◌, find?,
  any, inl, inr, Bool-cases, Option-cases, arith,
}
use mathlib.Core.Path.{subst}
use pastel_marketplace.Base.Rows.{find?-append_none}
use pastel_marketplace.Base.Text.{===_iff}
use pastel_marketplace.Base.Result.{Result, ok, err, ok-injective}
use pastel_marketplace.Service.{refused, Service, pure, ◌>>=◌}
use pastel_marketplace.Accounts.{Accounts, User}
use pastel_marketplace.Identity.Platform.{Platform, AuthConfig, IsPlatform}
use pastel_marketplace.Identity.Tokens.{
  Meta, is_closed, verify_password, issue_pair, issue_refresh, create_credential, fresh_id,
}
use pastel_marketplace.Identity.Auth.{
  AuthResult, SignupDto, LoginDto, signup, login, create_user, hash_password, new_user, issue_for,
  default_permissions, normalized, by_email, invalid_credentials,
}

-- A search fails where no row passes.
find?-none : {A : Type 0} (q : A → Bool) (xs : List A) → any q xs ≡ false → find? q xs ≡ none
find?-none q [] h = refl
find?-none q (x ∷ xs) h = ground (arith, find?-none q xs)

verifies :
    (p : Platform) (n : ℕ) (s : String)
    → IsPlatform p
    → verify_password p (some (p.hash n s)) s ≡ true
verifies p n s laws = rw (laws.hashed n s, laws.verify-hash n s) refl

-- The tokens of a sign-in, and its result.
abbrev issued : Platform → AuthConfig → ℕ → User → Meta → Service Accounts AuthResult
issued p config now u meta =
    issue_for p config now u meta >>= λ tokens. pure (record { user = u; tokens = tokens })

module _ (p : Platform) (config : AuthConfig) where
  -- A new account can log in: where the platform keeps its laws and the email is not taken,
  -- signing up succeeds, and a log-in to the database that it left, with the password and with
  -- any spelling of the email that normalizes to the same text, succeeds for the row that the
  -- sign-up returned.
  pub login-signup :
      (now later : ℕ) (dto : SignupDto) (spelling : String) (meta meta' : Meta) (db : Accounts)
      → IsPlatform p
      → any (by_email (normalized dto.email)) db.users ≡ false
      → normalized spelling ≡ normalized dto.email
      → let signed = signup p config now dto meta db in
        (r : AuthResult) × (r' : AuthResult) × (signed.0 ≡ ok r)
        × ((login p config later
              (record { email = spelling; password = dto.password })
              meta'
              signed.1).0
            ≡ ok r')
        × (r'.user ≡ r.user)
  unfolding signup login create_user hash_password issue_pair issue_refresh create_credential
      fresh_id
  login-signup now later dto spelling meta meta' db laws free same =
      let email = normalized dto.email in
      let row =
        new_user p config now (p.uuid db.created) (some (p.hash db.drawn dto.password)) email
          dto.display_name in
      let mid : Accounts = record db {
        drawn = db.drawn + 1;
        created = db.created + 1;
        users = db.users ++ row ∷ [];
        permissions = db.permissions ++ default_permissions (p.uuid db.created) ∷ [];
      } in
      let after = (issue_for p config now row meta mid).1 in
      let found : find? (by_email email) (db.users ++ row ∷ []) ≡ some row =
        find?-append_none (by_email email) db.users (row ∷ [])
          (find?-none (by_email email) db.users free)
        ∙ rw ((===_iff email email).1 refl) refl in
      let run : signup p config now dto meta db ≡ (issued p config now row meta) mid =
        rw (free, free) refl in
      let run' : (login p config later (record { email = spelling; password = dto.password }) meta'
            (signup p config now dto meta db).1).0
          ≡ (issued p config later row meta' after).0 =
        ap
          (λ x.
            (login p config later (record { email = spelling; password = dto.password }) meta'
              x.1).0)
          run
        ∙ rw (same, found, verifies p db.drawn dto.password laws) refl in
      (_, _, ap (λ x. x.0) run, run', refl)

  -- A log-in does not tell whether an email has an account: where the email has none, and where the
  -- password is not the account's, the answer is the same error, and the database stays as it is.
  pub login-uniform :
      (now : ℕ) (dto : LoginDto) (meta : Meta) (db : Accounts)
      → ((u : User)
          → find? (by_email (normalized dto.email)) db.users ≡ some u
          → verify_password p u.password_hash dto.password ≡ false)
      → login p config now dto meta db ≡ (err invalid_credentials, db)
  unfolding login
  login-uniform now dto meta db wrong =
      elim (Option-cases (find? (by_email (normalized dto.email)) db.users)) [
        | inl absent ↦ rw absent refl
        | inr (u, found) ↦ rw (found, wrong u found) refl
      ]

  -- A log-in that succeeds is for the account of the email, with its password, and the account is
  -- not banned or deleted.
  pub login-ok :
      (now : ℕ) (dto : LoginDto) (meta : Meta) (db db' : Accounts) (r : AuthResult)
      → login p config now dto meta db ≡ (ok r, db')
      → (find? (by_email (normalized dto.email)) db.users ≡ some r.user)
        × (verify_password p r.user.password_hash dto.password ≡ true)
        × (is_closed r.user.account_status ≡ false)
  unfolding login issue_pair issue_refresh create_credential fresh_id
  login-ok now dto meta db db' r h =
      elim (Option-cases (find? (by_email (normalized dto.email)) db.users)) [
        | inl absent ↦ refused (rw absent at h)
        | inr (u, found) ↦ elim (Bool-cases (verify_password p u.password_hash dto.password)) [
          | inr wrong ↦ refused (rw (found, wrong) at h)
          | inl right ↦ elim (Bool-cases (is_closed u.account_status)) [
            | inl closed ↦ refused (rw (found, right, closed) at h)
            | inr usable ↦
                let same =
                  ap (λ (x : AuthResult). x.user)
                    (ok-injective (
                      ap (λ (x : Result AuthResult × Accounts). x.0)
                        (rw (found, right, usable) at h))) in
                subst
                  (λ v.
                    (find? (by_email (normalized dto.email)) db.users ≡ some v)
                    × (verify_password p v.password_hash dto.password ≡ true)
                    × (is_closed v.account_status ≡ false))
                  same (found, right, usable)
          ]
        ]
      ]
