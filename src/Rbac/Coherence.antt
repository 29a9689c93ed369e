-- ===== src/Rbac/Coherence.antt =====
-- The cache of permissions and the database behind `requirePermission`.
use mdm.Base.{◌≡◌, refl, ap, ◌∙◌, none, some, List, ◌++◌, ◌⊎◌, inl, inr, if◌then◌else◌}
use mdm.Base.Text.{Text, codes, join}
use mdm.Http.{Caller}
use mdm.Schema.{Uuid, Tables, Db}
use mdm.Rbac.Cache.{Cache, IsCache}
use mdm.Rbac.Permissions.{
  cache_ttl, has_all, forbidden, role_permissions, resolve_permissions, require_permission,
}

module _ (T : Tables) (C : Cache) (L : IsCache C) (role_of : Uuid → Uuid) (w : Db T) where
  -- What the cache has for a user, if anything, are the permissions of the user's role.
  abbrev pub IsCoherent : Cache.State C → Type 0
  IsCoherent s =
      (user : Uuid)
      → (Cache.get C user s ≡ none)
        ⊎ (Cache.get C user s ≡ some (role_permissions T C (role_of user) w))

  set-IsCoherent :
      (user : Uuid) (s : Cache.State C)
      → IsCoherent s
      → IsCoherent (Cache.set C cache_ttl user (role_permissions T C (role_of user) w) s)
  set-IsCoherent user s h other =
      elim (L.get-set cache_ttl user other (role_permissions T C (role_of user) w) s) [
        | inl gone ↦ inl gone
        | inr (inl (same, found)) ↦
            inr (found ∙ ap (λ u. some (role_permissions T C (role_of u) w)) same)
        | inr (inr as_before) ↦ elim (h other) [
          | inl e ↦ inl (as_before ∙ e)
          | inr e ↦ inr (as_before ∙ e)
        ]
      ]

  resolve_permissions_lem :
      (user : Uuid) (s : Cache.State C)
      → IsCoherent s
      → ((resolve_permissions T C user (role_of user) w s).0
          ≡ role_permissions T C (role_of user) w)
        × IsCoherent (resolve_permissions T C user (role_of user) w s).1
  unfolding resolve_permissions
  resolve_permissions_lem user s h = elim (h user) [
    | inl missed ↦ rw (missed, resolve_permissions) (refl, set-IsCoherent user s h)
    | inr hit ↦ rw (hit, resolve_permissions) (refl, h)
  ]

  -- While the cache agrees with the database, `requirePermission` lets a caller pass exactly if the
  -- permissions of the caller's role in the database grant all that is required, refuses with 403
  -- otherwise, and leaves a cache that agrees with the database.
  pub require_permission_lem :
      (required : List Text) (caller : Caller) (s : Cache.State C)
      → caller.role_id ≡ role_of caller.sub
      → IsCoherent s
      → ((require_permission T C required (some caller) w s).0 ≡ (
          if has_all required (role_permissions T C caller.role_id w)
          then none
          else some
              (forbidden (codes "Missing required permissions: " ++ join (codes ", ") required))))
        × IsCoherent (require_permission T C required (some caller) w s).1
  unfolding require_permission
  require_permission_lem required caller s role h =
      let r = resolve_permissions_lem caller.sub s h in rw role (rw r.0 (refl, r.1))
