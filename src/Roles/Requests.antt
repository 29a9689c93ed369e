-- ===== src/Roles/Requests.antt =====
-- What each request on roles does to the cached permissions.
use mdm.Base.{
  ℕ, ◌≤◌, ◌≡◌, refl, inl, inr, false, none, some, arith, ◌==◌, ==_iff, Bool-cases, any, find?,
  count_p, find?-not_count,
}
use mdm.Base.Table.{Table, map_option-some, value_at-insert, value_at-update, value_at-delete}
use mdm.Schema.{Uuid, Role, User, Tables, AreLawful, Db}
use mdm.Rbac.Cache.{Cache, IsCache}
use mdm.Rbac.Permissions.{invalidate_user_permissions}
use mdm.Roles.Routes.{
  UpdateRole, updated_role, write_role, drop_role, users_with_role, invalidate_all, write_user_role,
  with_role,
}
use mdm.Roles.Freshness.{
  texts_eq, texts_eq_iff, any-kept, user_role_id, user_permissions, found_permissions, IsFresh, Has,
  invalidate-Has, invalidate_all-Has, same_permissions, invalidated,
}

module _ (T : Tables) where
  -- Ids are primary keys.
  abbrev pub IsKeyed : Db T → Type 0
  IsKeyed w =
      ((id : Uuid) → count_p (λ u. u.id == id) (Table.rows (Tables.users T) w.users) ≤ 1)
      × ((id : Uuid) → count_p (λ r. r.id == id) (Table.rows (Tables.roles T) w.roles) ≤ 1)

  -- How many users have a role.
  abbrev pub holders : Uuid → Db T → ℕ
  holders id w = count_p (λ u. u.role_id == id) (Table.rows (Tables.users T) w.users)

module _ (T : Tables) (M : AreLawful T) (C : Cache) (L : IsCache C)
    (sure : (user : Uuid) (s : Cache.State C) → Cache.get C user (Cache.del C user s) ≡ none) where
  found :
      (user role : Uuid) (w : Db T)
      → user_role_id T C L user w ≡ some role
      → (x : User) × (find? (λ u. u.id == user) (Table.rows (Tables.users T) w.users) ≡ some x)
        × (x.role_id ≡ role)
  found user role w e =
      map_option-some (λ u. u.role_id)
        (find? (λ u. u.id == user) (Table.rows (Tables.users T) w.users)) role e

  other-held :
      (user role id : Uuid) (w : Db T)
      → user_role_id T C L user w ≡ some role
      → holders T id w ≡ 0
      → (role == id) ≡ false
  other-held user role id w e none_has =
      let (x, is_x, same) = found user role w e in
      ground (
        arith,
        same,
        find?-not_count (λ u. u.id == user) (λ u. u.role_id == id)
            (Table.rows (Tables.users T) w.users) x is_x none_has,
      )

  other-kept :
      (user role id : Uuid) (w : Db T)
      → user_role_id T C L user w ≡ some role
      → any (λ u. u == user) (users_with_role T C id w) ≡ false
      → (role == id) ≡ false
  other-kept user role id w e left =
      let (x, is_x, same) = found user role w e in
      ground (arith, same, any-kept user id (Table.rows (Tables.users T) w.users) x is_x)

  -- A change of the roles that leaves those of the users as they were.
  roles-Has :
      (user : Uuid) (w later : Db T) (s : Cache.State C)
      → user_role_id T C L user later ≡ user_role_id T C L user w
      → ((role : Uuid)
          → user_role_id T C L user w ≡ some role
          → found_permissions T C L role later ≡ found_permissions T C L role w)
      → Has T C L user (user_permissions T C L user w) s
      → Has T C L user (user_permissions T C L user later) s
  roles-Has user w later s e h before = rw (same_permissions T C L user w later e h) before

  pub write_role-IsFresh :
      (id : Uuid) (body : UpdateRole) (now : ℕ) (w : Db T) (s : Cache.State C)
      → IsKeyed T w
      → IsFresh T C L w s
      → IsFresh T C L
          (write_role T C id body now w)
          (invalidate_all T C (users_with_role T C id w) s)
  write_role-IsFresh id body now w s keyed h user =
      elim (Bool-cases (any (λ u. u == user) (users_with_role T C id w))) [
        | inl here ↦ inl (invalidated T C L sure (users_with_role T C id w) user s here)
        | inr left ↦
            roles-Has user w (write_role T C id body now w)
              (invalidate_all T C (users_with_role T C id w) s) refl
              (λ role e.
                value_at-update (λ r. r.id) (λ r. r.permissions) texts_eq texts_eq_iff
                  (Tables.roles T) M.roles role w.roles (λ r. r.id == id)
                  (updated_role T C body now) (λ r. refl)
                  (λ r k p. ground (arith, other-kept user role id w e left)) (keyed.1 role))
              (invalidate_all-Has T C L (users_with_role T C id w) user
                (user_permissions T C L user w) s (h user))
      ]

  pub create_role-IsFresh :
      (r : Role) (w : Db T) (s : Cache.State C)
      → IsKeyed T w
      → holders T r.id w ≡ 0
      → IsFresh T C L w s
      → IsFresh T C L (record w { roles = Table.insert (Tables.roles T) r w.roles }) s
  create_role-IsFresh r w s keyed new h user =
      roles-Has user w (record w { roles = Table.insert (Tables.roles T) r w.roles }) s refl
        (λ role e.
          value_at-insert (λ r. r.id) (λ r. r.permissions) texts_eq texts_eq_iff (Tables.roles T)
            M.roles role w.roles r (ground (arith, other-held user role r.id w e new))
            (keyed.1 role))
        (h user)

  pub drop_role-IsFresh :
      (id : Uuid) (w : Db T) (s : Cache.State C)
      → IsKeyed T w
      → holders T id w ≡ 0
      → IsFresh T C L w s
      → IsFresh T C L (drop_role T C id w) s
  drop_role-IsFresh id w s keyed unused h user =
      roles-Has user w (drop_role T C id w) s refl
        (λ role e.
          value_at-delete (λ r. r.id) (λ r. r.permissions) texts_eq texts_eq_iff (Tables.roles T)
            M.roles role w.roles (λ r. r.id == id)
            (λ r k. ground (arith, other-held user role id w e unused)) (keyed.1 role))
        (h user)

  pub write_user_role-IsFresh :
      (one role : Uuid) (now : ℕ) (w : Db T) (s : Cache.State C)
      → IsKeyed T w
      → IsFresh T C L w s
      → IsFresh T C L (write_user_role T C one role now w) (invalidate_user_permissions T C one s)
  write_user_role-IsFresh one role now w s keyed h user = elim (Bool-cases (one == user)) [
    | inl here ↦ inl (rw ((==_iff one user).0 here) (sure user s))
    | inr other ↦
        roles-Has user w (write_user_role T C one role now w)
          (invalidate_user_permissions T C one s)
          (value_at-update (λ u. u.id) (λ u. u.role_id) ◌==◌ ==_iff (Tables.users T) M.users user
            w.users (λ u. u.id == one) (with_role T C role now) (λ u. refl) (λ u k p. ground arith)
            (keyed.0 user))
          (λ role e. refl)
          (invalidate-Has T C L one user (user_permissions T C L user w) s (h user))
  ]
