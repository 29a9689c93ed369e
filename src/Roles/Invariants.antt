-- ===== src/Roles/Invariants.antt =====
-- What every request on roles keeps: cached permissions that agree with the database, and a role
-- for every user.
use Prim.Native.String
use mdm.Base.{
  ℕ, ◌≡◌, Option, some, ap, ◌∙◌, Bool, false, not, ◌&&◌, none, arith, ◌==◌, any, count_p,
  count_p_mono, count_p_unless, if◌then◌else◌,
}
use mdm.Base.Table.{Table, any-insert, any-update, any-delete, any-eq_of_count_p, count_p_ext}
use mdm.Schema.{Uuid, User, Tables, AreLawful, Db}
use mdm.Rbac.Cache.{Cache}
use mdm.Base.Text.{Text}
use mdm.Http.{Caller}
use mdm.Roles.Routes.{
  UpdateRole, RoleRequest, updated_role, write_role, drop_role, with_role, role_handler,
  handle_role,
}
use mdm.Roles.Handling.{role_handler-keeps, handle_role-passes}

module _ (T : Tables) (M : AreLawful T) (C : Cache) (number_text : ℕ → String.String) where
  abbrev pub has_none : Db T → User → Bool
  has_none w u = not (any (λ r. r.id == u.role_id) (Table.rows (Tables.roles T) w.roles))

  same_roles :
      (id : Uuid) (body : UpdateRole) (now : ℕ) (w : Db T) (role : Uuid)
      → any (λ r. r.id == role) (Table.rows (Tables.roles T) (write_role T C id body now w).roles)
        ≡ any (λ r. r.id == role) (Table.rows (Tables.roles T) w.roles)
  same_roles id body now w role =
      any-update (Tables.roles T) M.roles (λ r. r.id == role) (λ r. r.id == id)
        (updated_role T C body now) w.roles
      ∙ any-eq_of_count_p (λ r. (if r.id == id then updated_role T C body now r else r).id == role)
          (λ r. r.id == role) (Table.rows (Tables.roles T) w.roles)
          (Table.rows (Tables.roles T) w.roles)
          (count_p_ext (λ r. (if r.id == id then updated_role T C body now r else r).id == role)
            (λ r. r.id == role) (Table.rows (Tables.roles T) w.roles) (λ r. ground arith))

  roles_but :
      (id : Uuid) (w : Db T) (role : Uuid)
      → (role == id) ≡ false
      → any (λ r. r.id == role) (Table.rows (Tables.roles T) (drop_role T C id w).roles)
        ≡ any (λ r. r.id == role) (Table.rows (Tables.roles T) w.roles)
  roles_but id w role k =
      any-delete (Tables.roles T) M.roles (λ r. r.id == role) (λ r. r.id == id) w.roles
      ∙ any-eq_of_count_p (λ r. not (r.id == id) && r.id == role) (λ r. r.id == role)
          (Table.rows (Tables.roles T) w.roles) (Table.rows (Tables.roles T) w.roles)
          (count_p_ext (λ r. not (r.id == id) && r.id == role) (λ r. r.id == role)
            (Table.rows (Tables.roles T) w.roles) (λ r. ground arith))

  -- How many users have a role that is not in the table.
  abbrev pub orphans : Db T → ℕ
  orphans w = count_p (has_none w) (Table.rows (Tables.users T) w.users)

  role_handler-orphans :
      (q : RoleRequest) (org new : Uuid) (now : ℕ) (w : Db T) (s : Cache.State C)
      → orphans w ≡ 0
      → orphans (role_handler T C number_text q org new now (w, s)).1.0 ≡ 0
  role_handler-orphans q org new now w s h =
      role_handler-keeps T C number_text (λ (v, t). orphans v ≡ 0) q org new now w s h
        (λ r e.
          count_p_mono
            (λ u. not (
              any (λ x. x.id == u.role_id)
                (Table.rows (Tables.roles T) (Table.insert (Tables.roles T) r w.roles))))
            (λ u. not (any (λ x. x.id == u.role_id) (Table.rows (Tables.roles T) w.roles)))
            (Table.rows (Tables.users T) w.users)
            (λ u k.
              ground
                (arith, any-insert (Tables.roles T) M.roles (λ x. x.id == u.role_id) r w.roles))
            h)
        (λ id body.
          count_p_ext (has_none (write_role T C id body now w)) (has_none w)
            (Table.rows (Tables.users T) w.users) (λ u. ap not (same_roles id body now w u.role_id))
          ∙ h)
        (λ id unused.
          count_p_unless (λ u. u.role_id == id) (has_none (drop_role T C id w)) (has_none w)
            (Table.rows (Tables.users T) w.users) unused
            (λ u k. ap not (roles_but id w u.role_id k))
          ∙ h)
        (λ user role there.
          M.users.count-update (has_none w) (λ u. u.id == user) (with_role T C role now) w.users
          ∙ count_p_mono (λ u. has_none w (if u.id == user then with_role T C role now u else u))
              (has_none w) (Table.rows (Tables.users T) w.users) (λ u k. ground (arith, there)) h)

  -- Where every user has a role of the table, every user still has behind every request on roles,
  -- whoever makes it.
  pub handle_role-orphans :
      (q : RoleRequest) (caller : Option Caller) (new : Uuid) (now : ℕ) (w : Db T)
      (s : Cache.State C)
      → orphans w ≡ 0
      → orphans (handle_role T C number_text q caller new now (w, s)).1.0 ≡ 0
  unfolding handle_role
  handle_role-orphans q none new now w s h = h
  handle_role-orphans q (some caller) new now w s h =
      handle_role-passes T C number_text (λ (v, t). orphans v ≡ 0) q caller new now w s h
        (role_handler-orphans q caller.org_id new now w _ h)
