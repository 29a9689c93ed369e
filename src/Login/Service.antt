-- ===== src/Login/Service.antt =====
-- `AuthService` and the routes that call it. The rows are those that its queries select.
use mdm.Base.{
  ℕ, String, Bool, true, false, ◌&&◌, Option, none, some, List, [], ◌∷◌, ◌++◌, ◌==◌, str_eq, find?,
  if◌then◌else◌, Result, ok,
}
use mdm.Base.Text.{Text}
use mdm.Base.Table.{Table}
use mdm.Http.{Refusal, refuse, unexpected}
use mdm.Schema.{Uuid}
use mdm.Login.Tokens.{Claims, Jwt}
use mdm.Login.Passwords.{Digests, verify_password}

pub record Account : Type 0 where
  pub id : Uuid
  pub email : String
  pub org_id : Uuid
  pub password_hash : Text
  pub status : String
  pub last_login_at : Option ℕ

-- A value of `r.permissions`: an array, a text in JSON, or another value, of which `JSON.parse`
-- throws.
pub data RawPermissions : Type 0 where
  array : List Text → RawPermissions
  json_text : Text → RawPermissions
  other : RawPermissions

-- A row of `roles` joined with one of `user_roles`.
pub record RoleRow : Type 0 where
  pub user_id : Uuid
  pub permissions : RawPermissions

pub record TokenResponse (Token : Type 0) : Type 0 where
  pub access_token : Token
  pub refresh_token : Token
  pub expires_in : ℕ

pub record Payload : Type 0 where
  pub sub : Uuid
  pub email : String
  pub org_id : Uuid
  pub permissions : List Text

pub record AccountDb (T : Table Account) : Type 0 where
  pub accounts : Table.State T
  pub role_rows : List RoleRow

abbrev pub access_lifetime : ℕ
access_lifetime = 900

abbrev pub refresh_lifetime : ℕ
refresh_lifetime = 604800

abbrev pub is_active : Account → Bool
is_active u = str_eq u.status "active"

abbrev pub get_parsed : Option (List Text) → List Text
get_parsed none = []
get_parsed (some ps) = ps

-- The claims of the two tokens.
abbrev pub access_claims : Payload → Claims
access_claims p = record {
  sub = p.sub;
  email = some p.email;
  org_id = some p.org_id;
  permissions = some p.permissions;
  type = none;
}

abbrev pub refresh_claims : Uuid → Claims
refresh_claims sub = record {
  sub = sub;
  email = none;
  org_id = none;
  permissions = none;
  type = some "refresh";
}

abbrev pub has_refresh_type : Claims → Bool
has_refresh_type c = elim c.type [ none ↦ false | some t ↦ str_eq t "refresh" ]

-- `parse_json` gives the list that `JSON.parse` makes of a text, and nothing where it throws.
module _ (T : Table Account) (J : Jwt) (D : Digests) (parse_json : Text → Option (List Text)) where
  abbrev pub permissions_in : RawPermissions → List Text
  permissions_in (array ps) = ps
  permissions_in (json_text t) = get_parsed (parse_json t)
  permissions_in other = []

  -- `roleRows.flatMap(…)` of the rows of a user
  unfoldable pub account_permissions : Uuid → List RoleRow → List Text
  account_permissions user [] = []
  account_permissions user (r ∷ rows) =
      let rest = account_permissions user rows in
      if r.user_id == user then permissions_in r.permissions ++ rest else rest

  -- `WHERE email = $1 AND org_id = $2`, or without the organization.
  abbrev pub is_login : String → Option Uuid → Account → Bool
  is_login email none u = str_eq u.email email
  is_login email (some org) u = str_eq u.email email && u.org_id == org

  unfoldable pub generate_tokens : Payload → ℕ → TokenResponse J.Token
  generate_tokens p now = record {
    access_token = J.sign (access_claims p) access_lifetime now;
    refresh_token = J.sign (refresh_claims p.sub) refresh_lifetime now;
    expires_in = 900;
  }

  unfoldable pub payload_of : Account → AccountDb T → Payload
  unfolding account_permissions
  payload_of u w = record {
    sub = u.id;
    email = u.email;
    org_id = u.org_id;
    permissions = account_permissions u.id w.role_rows;
  }

  abbrev pub set_last_login : Uuid → ℕ → AccountDb T → AccountDb T
  set_last_login id now w = record w {
    accounts =
        Table.update T (λ u. u.id == id) (λ u. record u { last_login_at = some now }) w.accounts;
  }

  abbrev pub checked_login :
      Account → Option Bool → ℕ → AccountDb T → Result Refusal (TokenResponse J.Token) × AccountDb T
  checked_login u none now w = (unexpected, w)
  checked_login u (some false) now w = (refuse 401 "Invalid email or password", w)
  checked_login u (some true) now w =
      (ok (generate_tokens (payload_of u w) now), set_last_login u.id now w)

  unfoldable pub login :
      String
      → Text
      → Option Uuid
      → ℕ
      → AccountDb T
      → Result Refusal (TokenResponse J.Token) × AccountDb T
  unfolding generate_tokens payload_of
  login email password org now w = elim (find? (is_login email org) (Table.rows T w.accounts)) [
    | none ↦ (refuse 401 "Invalid email or password", w)
    | some u ↦
        if is_active u
        then checked_login u (verify_password D password u.password_hash) now w
        else (refuse 403 "Account is disabled", w)
  ]

  -- What `refresh` answers for the user of the claims.
  abbrev pub reissue : Uuid → ℕ → AccountDb T → Result Refusal (TokenResponse J.Token)
  reissue sub now w = elim (find? (λ u. u.id == sub) (Table.rows T w.accounts)) [
    | none ↦ refuse 401 "User not found or disabled"
    | some u ↦
        if is_active u
        then ok (generate_tokens (payload_of u w) now)
        else refuse 401 "User not found or disabled"
  ]

  unfoldable pub refresh : J.Token → ℕ → AccountDb T → Result Refusal (TokenResponse J.Token)
  unfolding generate_tokens payload_of
  refresh token now w = elim (J.verify token now) [
    | none ↦ refuse 401 "Invalid refresh token"
    | some claims ↦
        if has_refresh_type claims
        then reissue claims.sub now w
        else refuse 401 "Invalid token type"
  ]
