-- ===== src/Scim/Tokens.antt =====
-- The organization that a bearer token of SCIM stands for.
use mdm.Base.{
  ◌≡◌, refl, Bool, false, not, ◌&&◌, Option, none, some, List, [], ◌∷◌, ◌++◌, arith, ◌==◌, length,
  find?, count_p, ok, Bool-cases, inl, inr,
}
use mdm.Base.Text.{Text, codes, text_eq}
use mdm.Base.Table.{map_option}
use mdm.DynamicGroups.Membership.{is_nil}
use mdm.Schema.{Uuid}
use mdm.Scim.Auth.{Organization, compare_hash, find_organization, admit, scim_auth}

-- Has the organization this hash, and not the empty one?
abbrev pub holds_hash : Text → Option Text → Bool
holds_hash hash none = false
holds_hash hash (some stored) = not (is_nil stored) && text_eq stored hash

-- A stored hash, not the empty one, that has another length than a hash.
abbrev pub is_malformed : Text → Option Text → Bool
is_malformed hash none = false
is_malformed hash (some stored) = not (is_nil stored) && not (length stored == length hash)

compare_hash_lem :
    (stored : Option Text) (hash : Text)
    → is_malformed hash stored ≡ false
    → compare_hash stored hash ≡ ok (holds_hash hash stored)
unfolding compare_hash
compare_hash_lem none hash h = refl
compare_hash_lem (some []) hash h = refl
compare_hash_lem (some (x ∷ xs)) hash h = ground arith

find_organization_lem :
    (hash : Text) (orgs : List Organization)
    → count_p (λ o. is_malformed hash o.scim_token_hash) orgs ≡ 0
    → find_organization hash orgs
      ≡ ok (map_option (λ o. o.id) (find? (λ o. holds_hash hash o.scim_token_hash) orgs))
unfolding find_organization
find_organization_lem hash [] h = refl
find_organization_lem hash (o ∷ orgs) h =
    rw (compare_hash_lem o.scim_token_hash hash (ground arith), find_organization)
      (elim (Bool-cases (holds_hash hash o.scim_token_hash)) [
        | inl here ↦ rw here refl
        | inr there ↦ rw there (find_organization_lem hash orgs (ground arith))
      ])

-- Where no organization holds a hash of another length than the token's, the hook admits a bearer
-- token for the first organization that holds its hash, as a caller of that organization, and
-- refuses it with 401 if there is none.
pub scim_auth_lem :
    (provisioner no_role : Uuid) (sha256 : Text → Text) (token : Text) (orgs : List Organization)
    → count_p (λ o. is_malformed (sha256 token) o.scim_token_hash) orgs ≡ 0
    → scim_auth provisioner no_role sha256 (some (codes "Bearer " ++ token)) orgs
      ≡ admit provisioner no_role sha256
          (map_option (λ o. o.id) (find? (λ o. holds_hash (sha256 token) o.scim_token_hash) orgs))
unfolding scim_auth
scim_auth_lem provisioner no_role sha256 token orgs h =
    rw (find_organization_lem (sha256 token) orgs h) refl
