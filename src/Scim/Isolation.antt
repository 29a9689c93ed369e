-- ===== src/Scim/Isolation.antt =====
-- What the handlers leave as it is: the users and groups of other organizations.
use mdm.Base.{
  ℕ, ◌≡◌, refl, ◌∙◌, Bool, not, ◌&&◌, List, [], ◌∷◌, arith, ◌==◌, if_P, count_p, Bool-cases,
  Option-cases, inl, inr,
}
use mdm.Base.Table.{Table}
use mdm.Schema.{Uuid, Group, User, Tables, AreLawful, Db}
use mdm.Scim.Patches.{PatchOp, as_column}
use mdm.Scim.Routes.{
  Columns, Answer, email_taken, with_columns, write_user, store_user, is_rename, renamed,
  rename_group,
}
use mdm.Scim.Others.{is_foreign, others, others-update, foreign-update}

module _ (T : Tables) where
  -- The users and groups of other organizations are as they were: every query finds as many.
  pub record IsIsolated (o : Uuid) (w later : Db T) : Type 0 where
    pub users :
        (q : User → Bool)
        → others (λ (u : User). u.org_id) o q (Table.rows (Tables.users T) later.users)
          ≡ others (λ (u : User). u.org_id) o q (Table.rows (Tables.users T) w.users)
    pub groups :
        (q : Group → Bool)
        → others (λ (g : Group). g.org_id) o q (Table.rows (Tables.groups T) later.groups)
          ≡ others (λ (g : Group). g.org_id) o q (Table.rows (Tables.groups T) w.groups)

  pub same-IsIsolated : (o : Uuid) (w : Db T) → IsIsolated o w w
  same-IsIsolated o w = record { users = λ q. refl; groups = λ q. refl }

module _ (T : Tables) (M : AreLawful T) (o : Uuid) (w : Db T) where
  -- The rows of other organizations that have an id.
  abbrev pub foreign_users : Uuid → ℕ
  foreign_users id =
      count_p (is_foreign (λ (u : User). u.id) (λ u. u.org_id) id o)
        (Table.rows (Tables.users T) w.users)

  pub write_user-IsIsolated :
      (id : Uuid) (row : User) → foreign_users id ≡ 0 → IsIsolated T o w (write_user T id row w)
  write_user-IsIsolated id row h = record {
    users = λ q.
        others-update (λ (u : User). u.id) (λ u. u.org_id) (Tables.users T) M.users
          (with_columns T row) (λ u. refl) id o w.users q h;
    groups = λ q. refl;
  }

  pub store_user-IsIsolated :
      (id : Uuid) (row : User) → foreign_users id ≡ 0 → IsIsolated T o w (store_user T id row w).1
  store_user-IsIsolated id row h =
      if_P (λ (a : Answer T). IsIsolated T o w a.1) (email_taken T id row.org_id row.email w) _ _
        (same-IsIsolated T o w) (write_user-IsIsolated id row h)

  pub insert_user-IsIsolated :
      (u : User)
      → u.org_id ≡ o
      → IsIsolated T o w (record w { users = Table.insert (Tables.users T) u w.users })
  insert_user-IsIsolated u e = record {
    users =
        λ q. M.users.count-insert (λ r. not (r.org_id == o) && q r) u w.users ∙ ground (arith, e);
    groups = λ q. refl;
  }

  pub insert_group-IsIsolated :
      (g : Group)
      → g.org_id ≡ o
      → IsIsolated T o w (record w { groups = Table.insert (Tables.groups T) g w.groups })
  insert_group-IsIsolated g e = record {
    users = λ q. refl;
    groups =
        λ q. M.groups.count-insert (λ r. not (r.org_id == o) && q r) g w.groups ∙ ground (arith, e);
  }

module _ (T : Tables) (M : AreLawful T) (columns : Columns) (id o : Uuid) where
  abbrev pub foreign_groups : Db T → ℕ
  foreign_groups w =
      count_p (is_foreign (λ (g : Group). g.id) (λ g. g.org_id) id o)
        (Table.rows (Tables.groups T) w.groups)

  -- Renaming writes the groups that have the id.
  write_group-IsIsolated :
      (f : Group → Group) (w : Db T)
      → ((g : Group) → (f g).org_id ≡ g.org_id)
      → foreign_groups w ≡ 0
      → IsIsolated T o w
          (record w { groups = Table.update (Tables.groups T) (λ g. g.id == id) f w.groups })
  write_group-IsIsolated f w keeps h = record {
    users = λ q. refl;
    groups = λ q.
        others-update (λ (g : Group). g.id) (λ g. g.org_id) (Tables.groups T) M.groups f keeps id o
          w.groups q h;
  }

  two-IsIsolated :
      (v w later : Db T) → IsIsolated T o v w → IsIsolated T o w later → IsIsolated T o v later
  two-IsIsolated v w later h k = record {
    users = λ q. k.users q ∙ h.users q;
    groups = λ q. k.groups q ∙ h.groups q;
  }

  foreign-write_group :
      (f : Group → Group) (w : Db T)
      → ((g : Group) → (f g).org_id ≡ g.org_id)
      → ((g : Group) → (f g).id ≡ g.id)
      → foreign_groups w ≡ 0
      → foreign_groups
          (record w { groups = Table.update (Tables.groups T) (λ g. g.id == id) f w.groups })
        ≡ 0
  foreign-write_group f w keeps same h =
      foreign-update (λ (g : Group). g.id) (λ g. g.org_id) (Tables.groups T) M.groups f keeps id o
        w.groups same h

  pub rename_group-IsIsolated :
      (ops : List PatchOp) (now : ℕ) (w : Db T)
      → foreign_groups w ≡ 0
      → IsIsolated T o w (rename_group T columns id ops now w).1
  unfolding rename_group
  rename_group-IsIsolated [] now w h = same-IsIsolated T o w
  rename_group-IsIsolated (p ∷ ps) now w h = elim (Bool-cases (is_rename T p)) [
    | inr other ↦ rw (other, rename_group) (rename_group-IsIsolated ps now w h)
    | inl named ↦ elim (Option-cases (as_column p.value)) [
      | inl missing ↦
          rw (named, missing, rename_group)
            (two-IsIsolated w _ _
              (write_group-IsIsolated (λ g. record g { updated_at = now }) w (λ g. refl) h)
              (rename_group-IsIsolated ps now _ (
                foreign-write_group (λ g. record g { updated_at = now }) w (λ g. refl) (λ g. refl)
                  h)))
      | inr (j, value) ↦ elim (Option-cases (columns.group_name j)) [
        | inl refused ↦ rw (named, value, refused, rename_group) (same-IsIsolated T o w)
        | inr (name, accepted) ↦
            rw (named, value, accepted, rename_group)
              (two-IsIsolated w _ _ (write_group-IsIsolated (renamed T name now) w (λ g. refl) h) (
                rename_group-IsIsolated ps now _
                  (foreign-write_group (renamed T name now) w (λ g. refl) (λ g. refl) h)))
      ]
    ]
  ]
