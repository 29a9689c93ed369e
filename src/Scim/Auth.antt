-- ===== src/Scim/Auth.antt =====
-- The hook `scimAuth`: the organization whose settings hold the hash of the bearer token. Hashes
-- are lists of bytes; `timingSafeEqual` throws where two have different lengths.
use mdm.Base.{
  Bool, false, Option, none, some, List, [], ◌∷◌, ◌==◌, length, if◌then◌else◌, Result, ok, err,
  ◌>>=◌,
}
use mdm.Base.Text.{Text, codes, text_eq, starts_with, drop}
use mdm.DynamicGroups.Membership.{is_nil}
use mdm.Http.{Caller, Refusal, refuse, unexpected}
use mdm.Schema.{Uuid}

-- The columns that the hook selects, and of the settings the key that it reads.
pub record Organization : Type 0 where
  pub id : Uuid
  pub scim_token_hash : Option Text

-- `scimTokenHash && timingSafeEqual(…)`
unfoldable pub compare_hash : Option Text → Text → Result Refusal Bool
compare_hash none hash = ok false
compare_hash (some stored) hash =
    if is_nil stored
    then ok false
    else if length stored == length hash
    then ok (text_eq stored hash)
    else unexpected

unfoldable pub find_organization : Text → List Organization → Result Refusal (Option Uuid)
find_organization hash [] = ok none
find_organization hash (o ∷ orgs) =
    let rest = find_organization hash orgs in
    elim (compare_hash o.scim_token_hash hash) [
      | err e ↦ err e
      | ok same ↦ if same then ok (some o.id) else rest
    ]

module _ (provisioner no_role : Uuid) (sha256 : Text → Text) where
  -- `request.user`, whose `sub` and `roleId` are texts that are the id of no user and of no role.
  abbrev pub scim_caller : Uuid → Caller
  scim_caller org = record {
    sub = provisioner;
    email = "scim@system";
    org_id = org;
    role_id = no_role;
    permissions = codes "*:*" ∷ [];
  }

  abbrev pub admit : Option Uuid → Result Refusal Caller
  admit none = refuse 401 "Invalid SCIM token"
  admit (some org) = ok (scim_caller org)

  unfoldable pub scim_auth : Option Text → List Organization → Result Refusal Caller
  scim_auth none orgs = refuse 401 "Missing or invalid bearer token"
  scim_auth (some header) orgs =
      if starts_with header (codes "Bearer ")
      then find_organization (sha256 (drop 7 header)) orgs >>= admit
      else refuse 401 "Missing or invalid bearer token"
