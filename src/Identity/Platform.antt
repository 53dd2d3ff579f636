-- ===== src/Identity/Platform.antt =====
-- What the identity module calls and does not implement: argon2, JSON web tokens, the random
-- source and the ids of the database.
use pastel_marketplace.Base.{ℕ, ◌+◌, ◌*◌, ◌≤◌, ◌≡◌, String, Bool, true, false, Option, some}
use pastel_marketplace.Base.Text.{◌===◌, is_free_of}
use pastel_marketplace.Accounts.{Scope}

pub record AccessClaims : Type 0 where
  pub sub : String
  pub scope : Scope
  pub user_type : String
  pub ver : ℕ

-- `hash` draws a salt and `secret` random bytes, both by the number of the draw; `verify_hash` is
-- false also where argon2 throws. All times are milliseconds, as `Date.now` counts them; `sign` is
-- given the time and the time to live, which is in seconds.
pub record Platform : Type 0 where
  pub uuid : ℕ → String
  pub secret : ℕ → String
  pub hash : ℕ → String → String
  pub verify_hash : String → String → Bool
  pub sign : ℕ → ℕ → AccessClaims → String
  pub verify_token : ℕ → String → Option AccessClaims

-- The configuration of the module: times to live in seconds.
pub record AuthConfig : Type 0 where
  pub access_ttl : ℕ
  pub refresh_ttl : ℕ

module _ (p : Platform) where
  -- What argon2 and the token library document: a hash verifies its text, and a token gives its
  -- claims back until it expires. The library counts whole seconds, so that the last second of the
  -- time to live may be cut off.
  pub record IsPlatform : Type 0 where
    pub verify-hash : (n : ℕ) (s : String) → p.verify_hash (p.hash n s) s ≡ true
    pub verify-sign :
        (issued ttl now : ℕ) (c : AccessClaims)
        → now + 1000 ≤ issued + ttl * 1000
        → p.verify_token now (p.sign issued ttl c) ≡ some c
    -- A hash is no empty text. Ids and secrets are no empty texts either, and have no dot: UUIDs and
    -- base64url have none.
    pub hashed : (n : ℕ) (s : String) → (p.hash n s === "") ≡ false
    pub uuid_free : (n : ℕ) → is_free_of "." (p.uuid n) ≡ true
    pub uuid_named : (n : ℕ) → (p.uuid n === "") ≡ false
    pub secret_free : (n : ℕ) → is_free_of "." (p.secret n) ≡ true
    pub secret_named : (n : ℕ) → (p.secret n === "") ≡ false
