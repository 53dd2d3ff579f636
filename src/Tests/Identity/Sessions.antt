-- ===== src/Tests/Identity/Sessions.antt =====
-- Ann signs up, logs in, refreshes, and is banned.
use pastel_marketplace.Base.{◌+◌, ◌*◌, ◌≡◌, refl, String, false, none, some, [], ◌∷◌, find?, arith}
use mathlib.Core.Path.{subst}
use pastel_marketplace.Base.Rows.{some_inj}
use pastel_marketplace.Base.Text.{to_lower_case, trim, split}
use pastel_marketplace.Base.Result.{ok, err}
use pastel_marketplace.Accounts.{Accounts, User, Credential, user, customer}
use pastel_marketplace.Identity.Tokens.{
  Meta, Rotated, rotate, parts_of, by_id, reuse_detected, issue_pair, issue_refresh,
  verify_password, usable_user, user_by_id, revoke_old, insert_next, family_of,
}
use pastel_marketplace.Identity.Families.{IsSingle, live_count}
use pastel_marketplace.Identity.Interleaving.{
  Running, claims, Reach, here, next, revoke_row, insert_row, sign_in, Reach-IsSingle,
}
use pastel_marketplace.Identity.Rotation.{IsBurnt, rotate-replayed}
use pastel_marketplace.Identity.Issued.{rotate-issued}
use pastel_marketplace.Identity.Auth.{
  AuthResult, SignupDto, LoginDto, signup, login, normalized, new_user, invalid_credentials,
  by_email,
}
use pastel_marketplace.Identity.SignIn.{login-signup, login-uniform}
use pastel_marketplace.Tests.Identity.{platform, platform-IsPlatform, config, signed, unary}

abbrev pub nobody : Accounts
nobody = record {
  created = 0;
  drawn = 0;
  users = [];
  credentials = [];
  permissions = [];
  follows = [];
  restrictions = [];
  audit_log = [];
  outbox = [];
}

abbrev pub phone : Meta
phone = record { user_agent = some "phone"; ip = none }

abbrev pub ann : SignupDto
ann = record { email = "Ann@x.org"; password = "secret12"; display_name = none }

abbrev pub signed_up : Accounts
signed_up = (signup platform config 1000 ann phone nobody).1

same_email : normalized "ann@X.org " ≡ normalized "Ann@x.org"
unfolding trim to_lower_case
same_email = refl

login-signup_example :
    (r : AuthResult) × (r' : AuthResult) × ((signup platform config 1000 ann phone nobody).0 ≡ ok r)
    × ((login platform config 2000
          (record { email = "ann@X.org "; password = "secret12" })
          phone
          signed_up).0
        ≡ ok r')
    × (r'.user ≡ r.user)
login-signup_example =
    login-signup platform config 1000 2000 ann "ann@X.org " phone phone nobody platform-IsPlatform
      refl same_email

abbrev wrong : LoginDto
wrong = record { email = "ann@x.org"; password = "guess" }

wrong_password :
    (u : User)
    → find? (by_email (normalized wrong.email)) signed_up.users ≡ some u
    → verify_password platform u.password_hash wrong.password ≡ false
unfolding signup issue_pair trim to_lower_case unary
wrong_password u found =
    subst (λ (v : User). verify_password platform v.password_hash "guess" ≡ false) (some_inj found)
      refl

login-uniform_example :
    login platform config 2000 wrong phone signed_up ≡ (err invalid_credentials, signed_up)
login-uniform_example = login-uniform platform config 2000 wrong phone signed_up wrong_password

-- The row of the token that the sign-up issued.
abbrev first_row : Credential
first_row = record {
  id = "aau";
  user_id = "u";
  refresh_hash = "hsau";
  scope = user;
  family = some "au";
  user_agent = some "phone";
  ip = none;
  expires_at = 2592001000;
  revoked_at = none;
}

first_parts : parts_of (split "." "aau.sau") ≡ some ("aau", "sau")
unfolding split
first_parts = refl

first_found : find? (by_id "aau") signed_up.credentials ≡ some first_row
unfolding signup issue_pair trim to_lower_case unary
first_found = refl

abbrev refreshed : Accounts
refreshed = (rotate platform config 2000 "aau.sau" phone signed_up).1

abbrev pub second : Rotated
second = record {
  tokens = record {
    access_token =
        signed 2000 900 (record { sub = "u"; scope = user; user_type = "customer"; ver = 0 });
    refresh_token = "aaau.saaau";
    expires_in = 900;
  };
  user_id = "u";
  scope = user;
  user_type = customer;
}

exchanged : rotate platform config 2000 "aau.sau" phone signed_up ≡ (ok second, refreshed)
unfolding rotate signup issue_pair trim to_lower_case split unary
exchanged = refl

rotate-replayed_example :
    let after = rotate platform config 3000 "aau.sau" phone refreshed in
    (after.0 ≡ err reuse_detected) × IsBurnt "au" refreshed after.1
rotate-replayed_example =
    rotate-replayed platform config 2000 3000 "aau.sau" "aau" "sau" "au" first_row phone phone
      signed_up refreshed second first_parts first_found refl refl exchanged

signed_up-IsSingle : IsSingle signed_up
unfolding signup issue_pair trim to_lower_case unary
signed_up-IsSingle family = ground arith

unused_id : find? (by_id (platform.uuid (signed_up.created + 1))) signed_up.credentials ≡ none
unfolding signup issue_pair trim to_lower_case unary
unused_id = refl

abbrev pub ann_row : User
ann_row = new_user platform config 1000 "u" (some "hsecret12") "ann@x.org" none

ann_known : usable_user (find? (user_by_id "u") signed_up.users) ≡ some ann_row
unfolding signup issue_pair trim to_lower_case unary
ann_known = refl

abbrev ann_cred : Credential
ann_cred = record {
  id = "aau";
  user_id = "u";
  refresh_hash = "hsau";
  scope = user;
  family = some "au";
  user_agent = some "phone";
  ip = none;
  expires_at = 1000 + 2592000 * 1000;
  revoked_at = none;
}

cred_found : find? (by_id "aau") signed_up.credentials ≡ some ann_cred
unfolding signup issue_pair trim to_lower_case unary
cred_found = refl

-- While a rotation is between its two writes, Ann logs in on another device.
abbrev at_rest : Running
at_rest = record { db = signed_up; owed = [] }

abbrev revoked_first : Running
revoked_first = record {
  db = (revoke_old platform config 2000 ann_cred signed_up).1;
  owed = ann_cred ∷ [];
}

abbrev logged_in_too : Running
logged_in_too = record {
  db = (issue_refresh platform config 2100 "u" user phone revoked_first.db).1;
  owed = ann_cred ∷ [];
}

abbrev both_there : Running
both_there = record {
  db = (insert_next platform config 2200 ann_cred phone logged_in_too.db).1;
  owed = [];
}

no_claims : claims (platform.uuid revoked_first.db.created) revoked_first ≡ 0
unfolding signup issue_pair trim to_lower_case unary
no_claims = refl

abbrev interleaved : Reach platform config at_rest both_there
interleaved =
    next
      (next (next here (revoke_row 2000 ann_cred at_rest))
        (sign_in 2100 "u" user phone revoked_first))
      (insert_row 2200 phone ann_cred [] [] logged_in_too.db)

Reach-IsSingle_example : IsSingle both_there.db
Reach-IsSingle_example =
    Reach-IsSingle platform config signed_up both_there interleaved signed_up-IsSingle
      (((tt, (cred_found, refl)), no_claims), λ e. cc e)

-- Two rotations that both read the row before either writes end with two live tokens: the second
-- finds it revoked, and does not look.
abbrev revoked_twice : Running
revoked_twice = record {
  db = (revoke_old platform config 2100 ann_cred revoked_first.db).1;
  owed = ann_cred ∷ ann_cred ∷ [];
}

abbrev one_inserted : Running
one_inserted = record {
  db = (insert_next platform config 2200 ann_cred phone revoked_twice.db).1;
  owed = ann_cred ∷ [];
}

abbrev two_inserted : Running
two_inserted = record {
  db = (insert_next platform config 2300 ann_cred phone one_inserted.db).1;
  owed = [];
}

races : Reach platform config at_rest two_inserted
races =
    next
      (next
        (next (next here (revoke_row 2000 ann_cred at_rest))
          (revoke_row 2100 ann_cred revoked_first))
        (insert_row 2200 phone ann_cred [] (ann_cred ∷ []) revoked_twice.db))
      (insert_row 2300 phone ann_cred [] [] one_inserted.db)

raced : live_count "au" two_inserted.db ≡ 2
unfolding signup issue_pair trim to_lower_case unary family_of
raced = refl

rotate-issued_example :
    let issued = issue_refresh platform config 2000 "u" user phone signed_up in
    (token : String) × (family : String) × (r : Rotated) × (issued.0 ≡ ok (token, family))
    × ((rotate platform config 9000 token phone issued.1).0 ≡ ok r)
    × (r.user_id ≡ "u")
rotate-issued_example =
    rotate-issued platform config 2000 9000 ann_row user phone phone signed_up platform-IsPlatform
      unused_id ann_known (omega arith)

abbrev pub signed_in : AuthResult
signed_in = record {
  user = ann_row;
  tokens = record {
    access_token =
        signed 2000 900 (record { sub = "u"; scope = user; user_type = "customer"; ver = 0 });
    refresh_token = "aaaau.saaau";
    expires_in = 900;
  };
}

abbrev pub right : LoginDto
right = record { email = "ann@x.org"; password = "secret12" }

logs_in :
    login platform config 2000 right phone signed_up
    ≡ (ok signed_in, (login platform config 2000 right phone signed_up).1)
unfolding login signup issue_pair trim to_lower_case unary
logs_in = refl
