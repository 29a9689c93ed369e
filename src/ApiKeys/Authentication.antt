-- ===== src/ApiKeys/Authentication.antt =====
-- `authenticateApiKey`: a key is looked up by its prefix and hash, must not have expired, and
-- stands for its user; `last_used_at` is then written.
use mdm.Base.{
  ℕ, Bool, false, ◌&&◌, Option, none, some, List, [], ◌∷◌, ◌==◌, ltb, find?, if◌then◌else◌, Result,
  ok,
}
use mdm.Base.Text.{Text, text_eq, take}
use mdm.Base.Table.{Table}
use mdm.Http.{Caller, Refusal, refuse}
use mdm.Schema.{Uuid, ApiKey, User, Role, Tables, Db}

-- `keyPrefix = key.slice(0, 8) AND keyHash = sha256(key) AND isActive`
abbrev pub is_key : (Text → Text) → Text → ApiKey → Bool
is_key sha256 key k =
    text_eq k.key_prefix (take 8 key) && text_eq k.key_hash (sha256 key) && k.is_active

-- `expiresAt && expiresAt < new Date()`
abbrev pub is_expired : ℕ → Option ℕ → Bool
is_expired now none = false
is_expired now (some t) = ltb t now

abbrev pub with_user : User → Option Role → Option (User × Role)
with_user u none = none
with_user u (some r) = some (u, r)

-- The first row of `users INNER JOIN roles` for a user's id.
unfoldable pub join_role : Uuid → List Role → List User → Option (User × Role)
join_role id roles [] = none
join_role id roles (u ∷ us) =
    let rest = join_role id roles us in
    let here = with_user u (find? (λ r. r.id == u.role_id) roles) in
    if u.id == id then elim here [ none ↦ rest | some p ↦ some p ] else rest

module _ (T : Tables) where
  abbrev pub mark_used : Uuid → ℕ → Db T → Db T
  mark_used id now w = record w {
    keys =
        Table.update (Tables.keys T) (λ k. k.id == id) (λ k. record k { last_used_at = some now })
          w.keys;
  }

  abbrev pub key_caller : ApiKey → User → Caller
  key_caller k u = record {
    sub = u.id;
    email = u.email;
    org_id = u.org_id;
    role_id = u.role_id;
    permissions = k.permissions;
  }

  unfoldable pub authenticate_api_key :
      (Text → Text) → ℕ → Text → Db T → Result Refusal Caller × Db T
  unfolding join_role
  authenticate_api_key sha256 now key w =
      elim (find? (is_key sha256 key) (Table.rows (Tables.keys T) w.keys)) [
        | none ↦ (refuse 401 "Invalid API key", w)
        | some k ↦
            if is_expired now k.expires_at
            then (refuse 401 "API key has expired", w)
            else elim (join_role k.user_id (Table.rows (Tables.roles T) w.roles)
                (Table.rows (Tables.users T) w.users)) [
                  | none ↦ (refuse 401 "API key user not found", w)
                  | some p ↦ (ok (key_caller k p.0), mark_used k.id now w)
                ]
      ]
