-- ===== src/Tests/Identity/Requests.antt =====
-- Requests under a token, and what operators do.
use pastel_marketplace.Base.{
  ◌≡◌, ◌≢◌, ◌↔◌, refl, String, true, false, Option, none, some, [], ◌∷◌, arith,
}
use pastel_marketplace.Base.Text.{◌===◌, trim, to_lower_case, split}
use pastel_marketplace.Base.Result.{ok}
use pastel_marketplace.Accounts.{Accounts, user, trusted, public_read, customer, banned}
use pastel_marketplace.Identity.Tokens.{
  Principal, UserPrincipal, Rotated, sign_access, rotate, issue_pair,
}
use pastel_marketplace.Identity.Auth.{AuthResult, signup, login}
use pastel_marketplace.Identity.Guards.{
  Request, anonymous, authenticate, check_scopes, check_operator, parse_cookie,
}
use pastel_marketplace.Identity.Access.{authenticate-sign, check_scopes_iff, satisfies}
use pastel_marketplace.Admin.{AdminUserResource}
use pastel_marketplace.Admin.Users.{ban}
use pastel_marketplace.Admin.Bans.{signed_in_as, refreshed_as, signed_in_as-ban}
use pastel_marketplace.Tests.Identity.{platform, platform-IsPlatform, config, signed, unary}
use pastel_marketplace.Tests.Identity.Sessions.{signed_up, ann_row, right, phone}

abbrev decoder : String → Option String
decoder s = some s

abbrev ann_in : UserPrincipal
ann_in = record { user_id = "u"; scope = user; user_type = some "customer" }

abbrev asked : Request
asked = record {
  native_token = some (sign_access platform config 2000 ann_in 0);
  authorization = none;
  cookie = some "pa_at=stale";
  operator_secret = some "tops3cret";
}

-- The cookie of a web client is found among others.
cookie_found :
    parse_cookie decoder (record asked { cookie = some "a=1; pa_at=t0k=en; b" }) "pa_at"
    ≡ ok (some "t0k=en")
unfolding parse_cookie
cookie_found = refl

token_filled : (sign_access platform config 2000 ann_in 0 === "") ≡ false
unfolding sign_access signed unary
token_filled = refl

authenticate-sign_example :
    (me : Principal) × (authenticate platform config 801000 decoder "pa_at" asked ≡ ok me)
    × (me.user_id ≡ some "u")
    × (check_scopes (user ∷ []) me ≡ ok tt)
authenticate-sign_example =
    authenticate-sign platform config 2000 801000 ann_in 0 decoder "pa_at" asked platform-IsPlatform
      (omega arith) refl refl token_filled

check_scopes_iff_example :
    (check_scopes (user ∷ trusted ∷ []) anonymous ≡ ok tt)
    ↔ (satisfies public_read (user ∷ trusted ∷ []) ≡ true)
check_scopes_iff_example = check_scopes_iff (user ∷ trusted ∷ []) anonymous

abbrev operator : Principal
operator = record { user_id = some "u"; scope = user; user_type = some "customer" }

operator_passes : check_operator (some "tops3cret") asked operator ≡ ok tt
unfolding check_operator
operator_passes = refl

-- Bob signs up too, and is banned.
abbrev both_up : Accounts
both_up =
    (signup platform config 1500
      (record { email = "bob@x.org"; password = "hunter22"; display_name = none }) phone
      signed_up).1

abbrev without_bob : Accounts
without_bob = (ban 5000 "op" "aaau" "spam" both_up).1

abbrev bob_banned : AdminUserResource
bob_banned = record {
  id = "aaau";
  email = "bob@x.org";
  user_type = customer;
  account_status = banned;
  restricted_at = some 5000;
}

bob_goes : ban 5000 "op" "aaau" "spam" both_up ≡ (ok bob_banned, without_bob)
unfolding ban signup issue_pair trim to_lower_case unary
bob_goes = refl

abbrev ann_back : Accounts
ann_back = (login platform config 6000 right phone without_bob).1

abbrev ann_again : AuthResult
ann_again = record {
  user = ann_row;
  tokens = record {
    access_token =
        signed 6000 900 (record { sub = "u"; scope = user; user_type = "customer"; ver = 0 });
    refresh_token = "aaaaaaau.saaaaaau";
    expires_in = 900;
  };
}

ann_logs_in : login platform config 6000 right phone without_bob ≡ (ok ann_again, ann_back)
unfolding login ban signup issue_pair trim to_lower_case unary
ann_logs_in = refl

abbrev ann_rotated : Rotated
ann_rotated = record {
  tokens = record {
    access_token =
        signed 6000 900 (record { sub = "u"; scope = user; user_type = "customer"; ver = 0 });
    refresh_token = "aaaaaau.saaaaaau";
    expires_in = 900;
  };
  user_id = "u";
  scope = user;
  user_type = customer;
}

ann_refreshes :
    rotate platform config 6000 "aau.sau" phone without_bob
    ≡ (ok ann_rotated, (rotate platform config 6000 "aau.sau" phone without_bob).1)
unfolding rotate ban signup issue_pair trim to_lower_case split unary
ann_refreshes = refl

signed_in_as-ban_example :
    (signed_in_as (login platform config 6000 right phone without_bob) ≢ some "aaau")
    × (refreshed_as (rotate platform config 6000 "aau.sau" phone without_bob) ≢ some "aaau")
signed_in_as-ban_example =
    signed_in_as-ban platform config 5000 6000 "op" "aaau" "spam" "aau.sau" both_up without_bob
      bob_banned right phone bob_goes
