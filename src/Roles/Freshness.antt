-- ===== src/Roles/Freshness.antt =====
-- The cache of permissions behind the routes on roles.
use mdm.Base.{
  ◌≡◌, refl, sym, ap, ◌∙◌, ◌⊎◌, inl, inr, ◌↔◌, Bool, true, false, ◌&&◌, Option, none, some, List,
  [], ◌∷◌, map, arith, ◌==◌, ==_iff, Bool-cases, Option-cases, get_or, any, filter, find?,
}
use mdm.Base.Text.{Text, text_eq, text_eq_iff}
use mdm.Base.Table.{Table, value_at, map_option}
use mdm.Schema.{Uuid, Role, User, Tables, Db}
use mdm.Rbac.Cache.{Cache, IsCache}
use mdm.Rbac.Permissions.{permissions_of, role_permissions, invalidate_user_permissions}
use mdm.Roles.Routes.{invalidate_all}

abbrev pub texts_eq : List Text → List Text → Bool
texts_eq [] [] = true
texts_eq [] (y ∷ ys) = false
texts_eq (x ∷ xs) [] = false
texts_eq (x ∷ xs) (y ∷ ys) = text_eq x y && texts_eq xs ys

pub texts_eq_iff : (xs ys : List Text) → (texts_eq xs ys ≡ true) ↔ (xs ≡ ys)
texts_eq_iff [] [] = (λ e. refl, λ e. refl)
texts_eq_iff [] (y ∷ ys) = (λ e. cc, λ e. cc)
texts_eq_iff (x ∷ xs) [] = (λ e. cc, λ e. cc)
texts_eq_iff (x ∷ xs) (y ∷ ys) = ground (arith, text_eq_iff x y, texts_eq_iff xs ys)

-- A user whom a filter keeps is in the list of the ids that are kept.
pub any-kept :
    (user role : Uuid) (rows : List User) (x : User)
    → find? (λ u. u.id == user) rows ≡ some x
    → (x.role_id == role) ≡ true
    → any (λ u. u == user) (map (λ u. u.id) (filter (λ u. u.role_id == role) rows)) ≡ true
any-kept user role [] x e h = ground arith
any-kept user role (y ∷ rows) x e h = elim (Bool-cases (y.id == user)) [
  | inl here ↦
      let same : y ≡ x = ground arith in
      let kept : (y.role_id == role) ≡ true = rw same h in rw (kept, here) refl
  | inr there ↦
      let later = any-kept user role rows x (ground arith) h in
      elim (Bool-cases (y.role_id == role)) [
        | inl kept ↦ rw (kept, there) later
        | inr left ↦ rw left later
      ]
]

module _ (T : Tables) (C : Cache) (L : IsCache C) where
  -- The permissions of a user's role in the database.
  abbrev pub user_role_id : Uuid → Db T → Option Uuid
  user_role_id user w =
      value_at (λ u. u.id) (λ u. u.role_id) user (Table.rows (Tables.users T) w.users)

  abbrev pub permissions_by : Option Uuid → Db T → List Text
  permissions_by none w = []
  permissions_by (some role) w = role_permissions T C role w

  abbrev pub user_permissions : Uuid → Db T → List Text
  user_permissions user w = permissions_by (user_role_id user w) w

  -- A lookup of a role's permissions finds what the middleware reads.
  abbrev pub found_permissions : Uuid → Db T → Option (List Text)
  found_permissions role w =
      value_at (λ r. r.id) (λ r. r.permissions) role (Table.rows (Tables.roles T) w.roles)

  same_role :
      (role : Uuid) (w later : Db T)
      → found_permissions role later ≡ found_permissions role w
      → role_permissions T C role later ≡ role_permissions T C role w
  unfolding role_permissions
  same_role role w later e =
      read (find? (λ r. r.id == role) (Table.rows (Tables.roles T) later.roles))
      ∙ (ap (λ o. get_or o []) e
          ∙ sym (read (find? (λ r. r.id == role) (Table.rows (Tables.roles T) w.roles))))
    where
      read :
          (o : Option Role) → permissions_of T C o ≡ get_or (map_option (λ r. r.permissions) o) []
      read none = refl
      read (some r) = refl

  pub same_permissions :
      (user : Uuid) (w later : Db T)
      → user_role_id user later ≡ user_role_id user w
      → ((role : Uuid)
          → user_role_id user w ≡ some role
          → found_permissions role later ≡ found_permissions role w)
      → user_permissions user later ≡ user_permissions user w
  same_permissions user w later e h = elim (Option-cases (user_role_id user w)) [
    | inl no_role ↦ rw (e, no_role) refl
    | inr (role, r) ↦ rw (e, r) (same_role role w later (h role r))
  ]

  -- What the cache has for a user, if anything.
  abbrev pub Has : Uuid → List Text → Cache.State C → Type 0
  Has user ps s = (Cache.get C user s ≡ none) ⊎ (Cache.get C user s ≡ some ps)

  abbrev pub IsFresh : Db T → Cache.State C → Type 0
  IsFresh w s = (user : Uuid) → Has user (user_permissions user w) s

  pub invalidate-Has :
      (one user : Uuid) (ps : List Text) (s : Cache.State C)
      → Has user ps s
      → Has user ps (invalidate_user_permissions T C one s)
  invalidate-Has one user ps s h = elim (L.get-del one user s) [
    | inl gone ↦ inl gone
    | inr as_before ↦ elim h [ inl e ↦ inl (as_before ∙ e) | inr e ↦ inr (as_before ∙ e) ]
  ]

  pub invalidate_all-Has :
      (us : List Uuid) (user : Uuid) (ps : List Text) (s : Cache.State C)
      → Has user ps s
      → Has user ps (invalidate_all T C us s)
  invalidate_all-Has [] user ps s h = h
  invalidate_all-Has (u ∷ us) user ps s h =
      invalidate_all-Has us user ps (invalidate_user_permissions T C u s)
        (invalidate-Has u user ps s h)

  pub Gone-invalidate_all :
      (us : List Uuid) (user : Uuid) (s : Cache.State C)
      → Cache.get C user s ≡ none
      → Cache.get C user (invalidate_all T C us s) ≡ none
  Gone-invalidate_all [] user s h = h
  Gone-invalidate_all (u ∷ us) user s h =
      Gone-invalidate_all us user (invalidate_user_permissions T C u s)
        (elim (L.get-del u user s) [ inl gone ↦ gone | inr as_before ↦ as_before ∙ h ])

  module _
      (sure : (user : Uuid) (s : Cache.State C)
        → Cache.get C user (Cache.del C user s) ≡ none) where
    pub invalidated :
        (us : List Uuid) (user : Uuid) (s : Cache.State C)
        → any (λ u. u == user) us ≡ true
        → Cache.get C user (invalidate_all T C us s) ≡ none
    invalidated [] user s h = ground arith
    invalidated (u ∷ us) user s h = elim (Bool-cases (u == user)) [
      | inl here ↦
          Gone-invalidate_all us user (invalidate_user_permissions T C u s)
            (rw ((==_iff u user).0 here) (sure user s))
      | inr there ↦ invalidated us user (invalidate_user_permissions T C u s) (ground arith)
    ]
