-- ===== src/Scim/Requests.antt =====
-- Requests for one organization, against the rows of the others.
use mdm.Base.{
  ℕ, ◌≤◌, ◌≡◌, refl, false, ◌&&◌, some, List, ◌==◌, if_P, find?, count_p, Option-cases, inl, inr,
}
use mdm.Base.Text.{Text}
use mdm.Base.Table.{Table}
use mdm.Schema.{Uuid, Group, User, Tables, AreLawful, Db}
use mdm.Scim.Patches.{PatchOp, apply_ops, no_updates}
use mdm.Scim.Routes.{
  Columns, ScimUserBody, ScimRequest, create_user, replace_user, patch_user, deactivate_user,
  create_group, patch_group, Answer, patched, replaced, find_user, find_viewer, new_user, add_user,
  put_user, change_user, delete_user, new_scim_group, add_group, rename_group, change_group,
  handle_scim,
}
use mdm.Scim.Others.{found-only}
use mdm.Scim.Isolation.{
  IsIsolated, same-IsIsolated, foreign_users, write_user-IsIsolated, store_user-IsIsolated,
  insert_user-IsIsolated, insert_group-IsIsolated, rename_group-IsIsolated,
}

module _ (T : Tables) (M : AreLawful T) (columns : Columns) where
  module _ (org : Uuid) (w : Db T)
      (unique : (id : Uuid)
        → count_p (λ u. u.id == id) (Table.rows (Tables.users T) w.users) ≤ 1) where
    found_user :
        (id : Uuid) (x : User) → find_user T id org w ≡ some x → foreign_users T M org w id ≡ 0
    found_user id x e =
        found-only (λ (u : User). u.id) (λ u. u.org_id) id org (Table.rows (Tables.users T) w.users)
          x (unique id) e

    add_user-IsIsolated :
        (body : ScimUserBody) (password : Text) (new : Uuid) (now : ℕ)
        → IsIsolated T org w (add_user T body password org new now w).1
    unfolding add_user
    add_user-IsIsolated body password new now = elim (Option-cases (find_viewer T org w)) [
      | inl none_found ↦
          rw (none_found, add_user)
            (if_P (λ (a : Answer T). IsIsolated T org w a.1) _ _ _ (same-IsIsolated T org w)
              (same-IsIsolated T org w))
      | inr (viewer, e) ↦
          rw (e, add_user)
            (if_P (λ (a : Answer T). IsIsolated T org w a.1) _ _ _ (same-IsIsolated T org w)
              (insert_user-IsIsolated T M org w (new_user T body password org viewer.id new now)
                refl))
    ]

    put_user-IsIsolated :
        (id : Uuid) (body : ScimUserBody) (now : ℕ)
        → IsIsolated T org w (put_user T id body org now w).1
    unfolding put_user
    put_user-IsIsolated id body now = elim (Option-cases (find_user T id org w)) [
      | inl e ↦ rw (e, put_user) (same-IsIsolated T org w)
      | inr (x, e) ↦
          rw (e, put_user)
            (store_user-IsIsolated T M org w id (replaced T body now x) (found_user id x e))
    ]

    change_user-IsIsolated :
        (id : Uuid) (ops : List PatchOp) (now : ℕ)
        → IsIsolated T org w (change_user T columns id ops org now w).1
    unfolding change_user
    change_user-IsIsolated id ops now = elim (Option-cases (find_user T id org w)) [
      | inl e ↦ rw (e, change_user) (same-IsIsolated T org w)
      | inr (x, e) ↦ elim (Option-cases (patched columns (apply_ops ops no_updates) now x)) [
        | inl k ↦ rw (e, change_user, k) (same-IsIsolated T org w)
        | inr (row, k) ↦
            rw (e, change_user, k) (store_user-IsIsolated T M org w id row (found_user id x e))
      ]
    ]

    delete_user-IsIsolated :
        (id : Uuid) (now : ℕ) → IsIsolated T org w (delete_user T id org now w).1
    unfolding delete_user
    delete_user-IsIsolated id now = elim (Option-cases (find_user T id org w)) [
      | inl e ↦ rw (e, delete_user) (same-IsIsolated T org w)
      | inr (x, e) ↦
          rw (e, delete_user)
            (write_user-IsIsolated T M org w id (record x { is_active = false; updated_at = now })
              (found_user id x e))
    ]

  change_group-IsIsolated :
      (id : Uuid) (ops : List PatchOp) (org : Uuid) (now : ℕ) (w : Db T)
      → count_p (λ g. g.id == id) (Table.rows (Tables.groups T) w.groups) ≤ 1
      → IsIsolated T org w (change_group T columns id ops org now w).1
  unfolding change_group
  change_group-IsIsolated id ops org now w unique =
      elim (Option-cases
        (find? (λ g. g.id == id && g.org_id == org) (Table.rows (Tables.groups T) w.groups))) [
          | inl e ↦ rw (e, change_group) (same-IsIsolated T org w)
          | inr (x, e) ↦
              let kept = rename_group-IsIsolated T M columns id org ops now w (
                found-only (λ (g : Group). g.id) (λ g. g.org_id) id org
                  (Table.rows (Tables.groups T) w.groups) x unique e) in
              elim (Option-cases (
                find? (λ g. g.id == id)
                  (Table.rows (Tables.groups T) (rename_group T columns id ops now w).1.groups))) [
                    | inl k ↦
                        rw (e, change_group, k)
                          (if_P (λ (a : Answer T). IsIsolated T org w a.1) _ _ _ kept kept)
                    | inr (g, k) ↦
                        rw (e, change_group, k)
                          (if_P (λ (a : Answer T). IsIsolated T org w a.1) _ _ _ kept kept)
                  ]
        ]

  -- Whatever is requested for an organization, the users and groups of all others are as they were,
  -- so that every query finds as many of them, if the ids of users and of groups are unique.
  pub handle_scim-IsIsolated :
      (request : ScimRequest) (password : Text) (org new : Uuid) (now : ℕ) (w : Db T)
      → ((id : Uuid) → count_p (λ u. u.id == id) (Table.rows (Tables.users T) w.users) ≤ 1)
      → ((id : Uuid) → count_p (λ g. g.id == id) (Table.rows (Tables.groups T) w.groups) ≤ 1)
      → IsIsolated T org w (handle_scim T columns request password org new now w).1
  unfolding handle_scim add_group
  handle_scim-IsIsolated (create_user body) password org new now w us gs =
      add_user-IsIsolated org w us body password new now
  handle_scim-IsIsolated (replace_user id body) password org new now w us gs =
      put_user-IsIsolated org w us id body now
  handle_scim-IsIsolated (patch_user id ops) password org new now w us gs =
      change_user-IsIsolated org w us id ops now
  handle_scim-IsIsolated (deactivate_user id) password org new now w us gs =
      delete_user-IsIsolated org w us id now
  handle_scim-IsIsolated (create_group name) password org new now w us gs =
      insert_group-IsIsolated T M org w (new_scim_group T name org new now) refl
  handle_scim-IsIsolated (patch_group id ops) password org new now w us gs =
      change_group-IsIsolated id ops org now w (gs id)
