-- ===== src/Examples/KeyCases.antt =====
-- API keys: keys that the routes create, and a row with a short prefix.
use mdm.Base.{◌≡◌, refl, true, none, some, [], ◌∷◌, ok, arith}
use mdm.Base.Text.{Text, codes}
use mdm.Schema.{ApiKey, Db}
use mdm.Http.{Caller, refuse}
use mdm.ApiKeys.Routes.{CreateApiKey, create_key, revoke_key, rotate_key}
use mdm.ApiKeys.Authentication.{mark_used, authenticate_api_key}
use mdm.ApiKeys.Prefixes.{HasLongPrefixes, create_key-HasLongPrefixes, issued_keys_refused}
use mdm.Examples.Fleet.{tables, tables-AreLawful, caller, fleet}

-- Stands for SHA-256.
abbrev digest : Text → Text
digest key = key

abbrev random_part : Text
random_part = codes "q2Vt0aXy"

abbrev new_key : CreateApiKey
new_key = record { name = codes "CI"; permissions = none; expires_at = none }

abbrev with_key : Db tables
with_key = (create_key tables digest true random_part new_key caller 50 fleet).1

issued_keys_refused_example :
    (authenticate_api_key tables digest 5 (codes "mdm_test_q2Vt0aXy") with_key
      ≡ (refuse 401 "Invalid API key", with_key))
    × HasLongPrefixes tables
        (create_key tables digest true random_part new_key caller 51 with_key).1
    × HasLongPrefixes tables (revoke_key tables 50 caller with_key).1
    × HasLongPrefixes tables (rotate_key tables digest true random_part 50 51 caller with_key).1
issued_keys_refused_example =
    issued_keys_refused tables tables-AreLawful digest true random_part new_key 50 51 caller 5
      (codes "mdm_test_q2Vt0aXy") with_key (omega arith)
      (create_key-HasLongPrefixes tables tables-AreLawful digest true random_part new_key caller 50
        fleet (omega arith) refl)

-- A row whose prefix has 8 characters, which no route writes.
abbrev short_key : ApiKey
short_key = record {
  id = 60;
  org_id = 1;
  user_id = 30;
  name = codes "old";
  key_hash = codes "mdm_live_abc";
  key_prefix = codes "mdm_live";
  permissions = codes "devices:read" ∷ [];
  last_used_at = none;
  expires_at = some 100;
  is_active = true;
}

abbrev with_short_key : Db tables
with_short_key = record fleet { keys = short_key ∷ [] }

abbrev key_holder : Caller
key_holder = record caller { permissions = codes "devices:read" ∷ [] }

short_key_accepted :
    authenticate_api_key tables digest 5 (codes "mdm_live_abc") with_short_key
    ≡ (ok key_holder, mark_used tables 60 5 with_short_key)
unfolding authenticate_api_key
short_key_accepted = refl
