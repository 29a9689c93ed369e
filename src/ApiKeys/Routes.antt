-- ===== src/ApiKeys/Routes.antt =====
-- The handlers of api-keys.ts. The random part of a key, the ids of new rows and `NODE_ENV` are
-- arguments; `sha256` is the hash in hexadecimal.
use mdm.Base.{
  ℕ, ◌-◌, Bool, false, true, ◌&&◌, Option, none, some, List, [], ◌++◌, ◌==◌, get_or, length, find?,
  if◌then◌else◌, Result, ok,
}
use mdm.Base.Text.{Text, codes, take, drop}
use mdm.Base.Table.{Table}
use mdm.Groups.Routes.{Given, absent, given_or}
use mdm.Http.{Caller, Refusal, refuse}
use mdm.Schema.{Uuid, ApiKey, Tables, Db}

pub record GeneratedKey : Type 0 where
  pub key : Text
  pub prefix : Text
  pub hash : Text

-- createApiKeySchema
pub record CreateApiKey : Type 0 where
  pub name : Text
  pub permissions : Option (List Text)
  pub expires_at : Option ℕ

-- updateApiKeySchema
pub record UpdateApiKey : Type 0 where
  pub name : Option Text
  pub permissions : Option (List Text)
  pub expires_at : Given (Option ℕ)

unfoldable pub generate_api_key : (Text → Text) → Bool → Text → GeneratedKey
generate_api_key sha256 is_test random =
    let key = (if is_test then codes "mdm_test_" else codes "mdm_live_") ++ random in
    record { key = key; prefix = take 12 key; hash = sha256 key }

-- `${prefix}...${hash.slice(-4)}`
unfoldable pub mask_key : Text → Text → Text
mask_key prefix hash = prefix ++ (codes "..." ++ drop (length hash - 4) hash)

-- `Object.keys(updates).length === 0`
abbrev pub no_updates : Option Text → Option (List Text) → Given (Option ℕ) → Bool
no_updates none none absent = true
no_updates _ _ _ = false

module _ (T : Tables) where
  abbrev pub own_key : Uuid → Caller → ApiKey → Bool
  own_key id caller k = k.id == id && k.org_id == caller.org_id

  abbrev pub find_key : Uuid → Caller → Db T → Option ApiKey
  find_key id caller w = find? (own_key id caller) (Table.rows (Tables.keys T) w.keys)

  -- `POST /api-keys`; the reply shows the key itself.
  unfoldable pub create_key :
      (Text → Text) → Bool → Text → CreateApiKey → Caller → Uuid → Db T → Text × Db T
  unfolding generate_api_key
  create_key sha256 is_test random body caller new_id w =
      let g = generate_api_key sha256 is_test random in
      (
        g.key,
        record w {
          keys =
              Table.insert (Tables.keys T)
                (record {
                  id = new_id;
                  org_id = caller.org_id;
                  user_id = caller.sub;
                  name = body.name;
                  key_hash = g.hash;
                  key_prefix = g.prefix;
                  permissions = get_or body.permissions [];
                  last_used_at = none;
                  expires_at = body.expires_at;
                  is_active = true;
                })
                w.keys;
        },
      )

  -- `DELETE /api-keys/:id`
  unfoldable pub revoke_key : Uuid → Caller → Db T → Result Refusal Uuid × Db T
  revoke_key id caller w =
      let w' = record w {
        keys =
            Table.update (Tables.keys T) (own_key id caller) (λ k. record k { is_active = false })
              w.keys;
      } in
      elim (find_key id caller w) [
        | none ↦ (refuse 404 "API key not found", w')
        | some k ↦ (ok k.id, w')
      ]

  abbrev pub updated_key : UpdateApiKey → ApiKey → ApiKey
  updated_key body k = record k {
    name = get_or body.name k.name;
    permissions = get_or body.permissions k.permissions;
    expires_at = given_or body.expires_at k.expires_at;
  }

  -- `PATCH /api-keys/:id`
  unfoldable pub update_key : UpdateApiKey → Uuid → Caller → Db T → Result Refusal ApiKey × Db T
  update_key body id caller w =
      let w' = record w {
        keys = Table.update (Tables.keys T) (own_key id caller) (updated_key body) w.keys;
      } in
      if no_updates body.name body.permissions body.expires_at
      then (refuse 400 "No fields to update", w)
      else elim (find_key id caller w) [
        | none ↦ (refuse 404 "API key not found", w')
        | some k ↦ (ok (updated_key body k), w')
      ]

  -- The writes of a rotation: the old key is switched off, and a new one takes its metadata.
  unfoldable pub replace_key : (Text → Text) → Bool → Text → Uuid → Uuid → ApiKey → Db T → Db T
  unfolding generate_api_key
  replace_key sha256 is_test random id new_id old w =
      let g = generate_api_key sha256 is_test random in
      record w {
        keys =
            Table.insert (Tables.keys T)
              (record {
                id = new_id;
                org_id = old.org_id;
                user_id = old.user_id;
                name = old.name;
                key_hash = g.hash;
                key_prefix = g.prefix;
                permissions = old.permissions;
                last_used_at = none;
                expires_at = old.expires_at;
                is_active = true;
              })
              (Table.update (Tables.keys T) (λ k. k.id == id) (λ k. record k { is_active = false })
                w.keys);
      }

  -- `POST /api-keys/:id/rotate`
  unfoldable pub rotate_key :
      (Text → Text) → Bool → Text → Uuid → Uuid → Caller → Db T → Result Refusal Text × Db T
  unfolding replace_key
  rotate_key sha256 is_test random id new_id caller w = elim (find_key id caller w) [
    | none ↦ (refuse 404 "API key not found", w)
    | some old ↦ (
      ok (generate_api_key sha256 is_test random).key,
      replace_key sha256 is_test random id new_id old w,
    )
  ]
