-- ===== src/Rbac/Permissions.antt =====
-- The functions of the middleware. A handler goes on where `require_permission` gives no refusal.
use mdm.Base.{
  ℕ, Bool, true, false, ◌&&◌, ◌||◌, Option, none, some, List, [], ◌∷◌, ◌++◌, ◌==◌, find?, any, all,
  if◌then◌else◌,
}
use mdm.Base.Text.{Text, codes, text_eq, join}
use mdm.Base.Table.{Table}
use mdm.Http.{Caller}
use mdm.Schema.{Uuid, Role, Tables, Db}
use mdm.Rbac.Cache.{Cache}

abbrev pub colon : ℕ
colon = 58

-- `text.split(':')[0]`
unfoldable pub first_part : Text → Text
first_part [] = []
first_part (c ∷ cs) = let rest = first_part cs in if c == colon then [] else c ∷ rest

-- What stands behind the first colon.
unfoldable pub behind_colon : Text → Option Text
behind_colon [] = none
behind_colon (c ∷ cs) = let rest = behind_colon cs in if c == colon then some cs else rest

-- `text.split(':')[1]`, which may be undefined.
abbrev pub first_of : Option Text → Option Text
first_of none = none
first_of (some t) = some (first_part t)

abbrev pub second_part : Text → Option Text
second_part t = first_of (behind_colon t)

-- `===` on values that may be undefined.
abbrev pub same_part : Option Text → Option Text → Bool
same_part none none = true
same_part none (some t) = false
same_part (some s) none = false
same_part (some s) (some t) = text_eq s t

unfoldable pub matches_permission : Text → Text → Bool
matches_permission user required =
    text_eq user (codes "*:*")
    || (text_eq user required
        || ((text_eq (first_part user) (codes "*")
              && same_part (second_part user) (second_part required))
            || (text_eq (first_part user) (first_part required)
                && same_part (second_part user) (some (codes "*")))))

abbrev pub cache_ttl : ℕ
cache_ttl = 300

abbrev pub has_all : List Text → List Text → Bool
has_all required permissions = all (λ r. any (λ p. matches_permission p r) permissions) required

-- The answer of the middleware, with the text that a refusal shows.
pub data Refused : Type 0 where
  unauthorized : Refused
  forbidden : Text → Refused

module _ (T : Tables) (C : Cache) where
  abbrev pub permissions_of : Option Role → List Text
  permissions_of none = []
  permissions_of (some r) = r.permissions

  -- The permissions that the database has for a role.
  unfoldable pub role_permissions : Uuid → Db T → List Text
  role_permissions role w =
      permissions_of (find? (λ r. r.id == role) (Table.rows (Tables.roles T) w.roles))

  unfoldable pub resolve_permissions :
      Uuid → Uuid → Db T → Cache.State C → List Text × Cache.State C
  unfolding role_permissions
  resolve_permissions user role w s = elim (Cache.get C user s) [
    | some cached ↦ (cached, s)
    | none ↦
        let permissions = role_permissions role w in
        (permissions, Cache.set C cache_ttl user permissions s)
  ]

  abbrev pub invalidate_user_permissions : Uuid → Cache.State C → Cache.State C
  invalidate_user_permissions user s = Cache.del C user s

  unfoldable pub require_permission :
      List Text → Option Caller → Db T → Cache.State C → Option Refused × Cache.State C
  unfolding resolve_permissions
  require_permission required none w s = (some unauthorized, s)
  require_permission required (some caller) w s =
      let (permissions, s') = resolve_permissions caller.sub caller.role_id w s in
      (
        if has_all required permissions
            then none
            else some
                (forbidden (codes "Missing required permissions: " ++ join (codes ", ") required)),
        s',
      )
