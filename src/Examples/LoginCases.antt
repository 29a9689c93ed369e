-- ===== src/Examples/LoginCases.antt =====
-- A login with a salted hash, and one to an account that single sign-on provisioned.
use mdm.Base.{
  ℕ, ◌≡◌, ◌+◌, refl, true, none, some, Option, List, [], ◌∷◌, ◌++◌, arith, find?, ltb,
  if◌then◌else◌, ok,
}
use mdm.Base.Text.{Text, codes, text_eq}
use mdm.Base.Table.{Table, list_table}
use mdm.Http.{refuse, unexpected}
use mdm.Login.Tokens.{Claims, Jwt, IsJwt}
use mdm.Login.Passwords.{Digests, verify_password}
use mdm.Login.Service.{
  Account, array, TokenResponse, Payload, AccountDb, is_active, is_login, access_claims,
  account_permissions, generate_tokens, payload_of, login, refresh,
}
use mdm.Login.Issue.{granted, refresh-generate_tokens, login_sound}

abbrev accounts : Table Account
accounts = list_table Account

-- A token that shows its claims and the time of its end.
abbrev open_token : Jwt
open_token = record {
  Token = Claims × ℕ;
  sign = λ c lifetime now. (c, now + lifetime);
  verify = λ (c, end) now. if ltb now end then some c else none;
}

open_token-IsJwt : IsJwt open_token
open_token-IsJwt = record { verify-sign = λ c lifetime now later h. ground arith }

-- Stand for the digests; `sso` is no algorithm.
abbrev digests : Digests
digests = record {
  sha256 = λ t. t;
  from_hex = λ t. t;
  pbkdf2 =
      λ password salt algo. if text_eq algo (codes "sso") then none else some (password ++ salt);
}

abbrev parse_nothing : Text → Option (List Text)
parse_nothing t = none

abbrev operator : Account
operator = record {
  id = 30;
  email = "ops@example.org";
  org_id = 1;
  password_hash = codes "sha256$salt$saltsecret";
  status = "active";
  last_login_at = none;
}

abbrev provisioned : Account
provisioned = record operator {
  id = 31;
  email = "sso@example.org";
  password_hash = codes "sso$0a1b$disabled";
}

abbrev people : AccountDb accounts
people = record {
  accounts = provisioned ∷ operator ∷ [];
  role_rows = record { user_id = 30; permissions = array (codes "devices:*" ∷ []) } ∷ [];
}

abbrev payload : Payload
payload = record {
  sub = 30;
  email = "ops@example.org";
  org_id = 1;
  permissions = codes "devices:*" ∷ [];
}

abbrev tokens : TokenResponse (Claims × ℕ)
tokens = generate_tokens accounts open_token digests parse_nothing payload 1000

refresh-generate_tokens_example :
    granted accounts open_token open_token-IsJwt digests parse_nothing 5500
      (refresh accounts open_token digests parse_nothing tokens.refresh_token 5000 people)
    ≡ some (access_claims (payload_of accounts open_token digests parse_nothing operator people))
refresh-generate_tokens_example =
    refresh-generate_tokens accounts open_token open_token-IsJwt digests parse_nothing payload 1000
      5000 5500 people (omega arith) (omega arith)

logged_in :
    (login accounts open_token digests parse_nothing "ops@example.org"
      (codes "secret")
      (some 1)
      1000
      people).0
    ≡ ok tokens
unfolding login verify_password account_permissions
logged_in = refl

login_sound_example :
    (u : Account) × (find?
        (is_login accounts open_token digests parse_nothing "ops@example.org" (some 1))
        people.accounts
      ≡ some u)
    × (is_active u ≡ true)
    × (verify_password digests (codes "secret") u.password_hash ≡ some true)
    × (open_token.verify tokens.access_token 1500
        ≡ some (access_claims (payload_of accounts open_token digests parse_nothing u people)))
    × (refresh accounts open_token digests parse_nothing tokens.access_token 1500 people
        ≡ refuse 401 "Invalid token type")
login_sound_example =
    login_sound accounts open_token open_token-IsJwt digests parse_nothing "ops@example.org"
      (codes "secret") (some 1) 1000 1500 people people tokens (omega arith) logged_in

-- The placeholder for a password makes the derivation throw.
provisioned_login :
    (login accounts open_token digests parse_nothing "sso@example.org"
      (codes "x")
      none
      1000
      people).0
    ≡ unexpected
unfolding login verify_password
provisioned_login = refl
