-- ===== src/Roles/Handling.antt =====
-- How a property of the database and the cache is kept by the requests on roles, write by write.
use Prim.Native.String
use mdm.Base.{
  ℕ, ◌≡◌, str_eq, [], ◌∷◌, refl, inl, inr, Bool, true, ◌&&◌, Option, none, some, List, arith, ◌==◌,
  Bool-cases, Option-cases, any, leb, if_P, find?, count_p, find?-test,
}
use mdm.Base.Text.{codes}
use mdm.Base.Table.{Table}
use mdm.Http.{Caller}
use mdm.Schema.{Uuid, Role, Tables, Db}
use mdm.Rbac.Cache.{Cache}
use mdm.Rbac.Permissions.{
  Refused, unauthorized, forbidden, invalidate_user_permissions, require_permission,
}
use mdm.Roles.Routes.{
  UpdateRole, RoleRequest, create, update, delete, assign, remove, RoleState, Answer, find_role,
  find_user, find_viewer, find_holder, new_role, write_role, drop_role, users_with_role,
  invalidate_all, write_user_role, create_role, update_role, delete_role, assign_role, remove_role,
  role_handler, passed, handle_role,
}

any_found :
    (p : Role → Bool) (id : Uuid) (rows : List Role) (x : Role)
    → find? p rows ≡ some x
    → (x.id == id) ≡ true
    → any (λ r. r.id == id) rows ≡ true
any_found p id [] x e h = ground arith
any_found p id (y ∷ rows) x e h = elim (Bool-cases (p y)) [
  | inl here ↦ let same : y ≡ x = ground arith in rw (same, h) refl
  | inr there ↦ ground (arith, any_found p id rows x (ground arith) h)
]

module _ (T : Tables) (C : Cache) (number_text : ℕ → String.String)
    (P : RoleState T C → Type 0) where
  -- A property of the states that every write keeps is kept by every handler.
  pub role_handler-keeps :
      (q : RoleRequest) (org new : Uuid) (now : ℕ) (w : Db T) (s : Cache.State C)
      → P (w, s)
      → ((r : Role)
          → r.id ≡ new
          → P (record w { roles = Table.insert (Tables.roles T) r w.roles }, s))
      → ((id : Uuid) (body : UpdateRole)
          → P (write_role T C id body now w, invalidate_all T C (users_with_role T C id w) s))
      → ((id : Uuid)
          → count_p (λ u. u.role_id == id) (Table.rows (Tables.users T) w.users) ≡ 0
          → P (drop_role T C id w, s))
      → ((user role : Uuid)
          → any (λ r. r.id == role) (Table.rows (Tables.roles T) w.roles) ≡ true
          → P (write_user_role T C user role now w, invalidate_user_permissions T C user s))
      → P (role_handler T C number_text q org new now (w, s)).1
  unfolding role_handler create_role
  role_handler-keeps (create body) org new now w s h created updated dropped given =
      created (new_role T C body org new now) refl
  role_handler-keeps (update id body) org new now w s h created updated dropped given =
      elim (Option-cases (find_role T C id org w)) [
        | inl e ↦ rw (e, update_role) h
        | inr (x, e) ↦
            rw (e, update_role)
              (if_P (λ (a : Answer T C). P a.1) x.is_system _ _ h (updated id body))
      ]
  role_handler-keeps (delete id) org new now w s h created updated dropped given =
      elim (Option-cases (find_role T C id org w)) [
        | inl e ↦ rw (e, delete_role) h
        | inr (x, e) ↦
            elim (Bool-cases
              (leb 1 (count_p (λ u. u.role_id == id) (Table.rows (Tables.users T) w.users)))) [
                | inl held ↦
                    rw (e, delete_role, held) (if_P (λ (a : Answer T C). P a.1) x.is_system _ _ h h)
                | inr unused ↦
                    rw (e, delete_role, unused)
                      (if_P (λ (a : Answer T C). P a.1) x.is_system _ _ h
                        (dropped id (ground arith)))
              ]
      ]
  role_handler-keeps (assign id user) org new now w s h created updated dropped given =
      elim (Option-cases (find_role T C id org w)) [
        | inl e ↦ rw (e, assign_role) h
        | inr (x, e) ↦ elim (Option-cases (find_user T C user org w)) [
          | inl k ↦ rw (e, assign_role, k) h
          | inr (y, k) ↦
              rw (e, assign_role, k)
                (given user id (
                  any_found (λ r. r.id == id && r.org_id == org) id
                    (Table.rows (Tables.roles T) w.roles) x e
                    (ground (
                      arith,
                      find?-test (λ r. r.id == id && r.org_id == org)
                          (Table.rows (Tables.roles T) w.roles) x e,
                    ))))
        ]
      ]
  role_handler-keeps (remove id user) org new now w s h created updated dropped given =
      elim (Option-cases (find_viewer T C org w)) [
        | inl e ↦ rw (e, remove_role) h
        | inr (x, e) ↦ elim (Option-cases (find_holder T C user org id w)) [
          | inl k ↦ rw (e, remove_role, k) h
          | inr (y, k) ↦
              rw (e, remove_role, k)
                (given user x.id (
                  any_found (λ r. r.org_id == org && (str_eq r.name "viewer" && r.is_system)) x.id
                    (Table.rows (Tables.roles T) w.roles) x e (ground arith)))
        ]
      ]

  passed-keeps :
      (r : Option Refused) (state : RoleState T C) (handler : RoleState T C → Answer T C)
      → P state
      → P (handler state).1
      → P (passed T C r state handler).1
  passed-keeps none state handler before behind = behind
  passed-keeps (some unauthorized) state handler before behind = before
  passed-keeps (some (forbidden message)) state handler before behind = before

  -- What the handler keeps from behind the pre-handler on is kept by a request of a caller.
  pub handle_role-passes :
      (q : RoleRequest) (caller : Caller) (new : Uuid) (now : ℕ) (w : Db T) (s : Cache.State C)
      → let t = (require_permission T C (codes "settings:write" ∷ []) (some caller) w s).1 in
        P (w, t)
        → P (role_handler T C number_text q caller.org_id new now (w, t)).1
        → P (handle_role T C number_text q (some caller) new now (w, s)).1
  unfolding handle_role
  handle_role-passes q caller new now w s before behind =
      let required = require_permission T C (codes "settings:write" ∷ []) (some caller) w s in
      passed-keeps required.0 (w, required.1) (role_handler T C number_text q caller.org_id new now)
        before behind
