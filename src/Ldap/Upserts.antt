-- ===== src/Ldap/Upserts.antt =====
-- The users behind a synchronization.
use Prim.Native.String
use mathlib.Core.Path.{subst}
use mdm.Base.{
  ℕ, ◌≤◌, ◌≡◌, refl, sym, ◌∙◌, Bool, true, false, not, ◌&&◌, Option, none, some, List, [], ◌∷◌, ◌+◌,
  length, length-append, arith, ◌==◌, ==_iff, str_eq, str_eq_iff, any, find?, find?-none,
  any_of_find?, is_some, count_p, count-any, if◌then◌else◌, if_P, Bool-cases, Option-cases, inl,
  inr, ok,
}
use mdm.Base.Text.{Text}
use mdm.Base.Table.{Table, count_p_ext}
use mdm.Schema.{Uuid, User, Role, Tables, AreLawful, Db}
use mdm.Ldap.Users.{
  Found, Synced, UserMapping, email_of, first_name_of, last_name_of, renamed_user, ldap_user,
  has_email, upsert_user, sync_email, sync_entry, sync_entries, is_default_role, sync_users,
}

-- Has it an address, and is no statement of its round refused?
abbrev pub is_taken : UserMapping → Found → Bool
is_taken mapping e = is_some (email_of mapping e.0) && not (is_some e.1.1)

-- Has it an address, and is a statement of its round refused?
abbrev pub is_refused : UserMapping → Found → Bool
is_refused mapping e = is_some (email_of mapping e.0) && is_some e.1.1

abbrev opt_str_eq : Option String.String → String.String → Bool
opt_str_eq none s = false
opt_str_eq (some t) s = str_eq t s

-- Is it an entry for the address, of a round without a refusal?
abbrev pub is_for : UserMapping → String.String → Found → Bool
is_for mapping email e = opt_str_eq (email_of mapping e.0) email && not (is_some e.1.1)

positive {ℓ} : {A : Type ℓ} (p : A → Bool) (xs : List A) → any p xs ≡ true → 1 ≤ count_p p xs
positive p [] h = cc
positive p (x ∷ xs) h = ground (arith, positive p xs)

module _ (T : Tables) (M : AreLawful T) (org : Uuid) where
  abbrev pub users_with : String.String → Db T → ℕ
  users_with email w = count_p (has_email T org email) (Table.rows (Tables.users T) w.users)

  -- No two users of the organization have one address.
  abbrev pub HasUniqueEmails : Db T → Type 0
  HasUniqueEmails w = (email : String.String) → users_with email w ≤ 1

  module _ (role : Uuid) (now : ℕ) where
    upsert-inserted :
        (email other : String.String) (first last : Text) (id : Uuid) (w : Db T)
        → users_with email w ≡ 0
        → count_p (has_email T org other) (
            Table.rows
              (Tables.users T)
              (Table.insert (Tables.users T) (ldap_user org role email first last id now) w.users))
          ≡ (if str_eq email other then 1 else users_with other w)
    upsert-inserted email other first last id w none_yet =
        M.users.count-insert (has_email T org other) (ldap_user org role email first last id now)
          w.users
        ∙ elim (Bool-cases (str_eq email other)) [
          | inl same ↦
              let e : users_with other w ≡ 0 =
                subst (λ m. users_with m w ≡ 0) ((str_eq_iff email other).0 same) none_yet in
              ground (arith, (==_iff org org).1 refl, e, same)
          | inr differs ↦ ground (arith, differs)
        ]

    upsert-updated :
        (other : String.String) (first last : Text) (key : Uuid) (w : Db T)
        → count_p (has_email T org other) (
            Table.rows (Tables.users T) (
              Table.update
                (Tables.users T)
                (λ u. u.id == key)
                (renamed_user first last now)
                w.users))
          ≡ users_with other w
    upsert-updated other first last key w =
        M.users.count-update (has_email T org other) (λ u. u.id == key)
          (renamed_user first last now) w.users
        ∙ count_p_ext _ (has_email T org other) (Table.rows (Tables.users T) w.users) (λ u.
          if_P (λ x. has_email T org other x ≡ has_email T org other u) (u.id == key)
            (renamed_user first last now u) u refl refl)

    users_with-upsert_user :
        (email other : String.String) (first last : Text) (id : Uuid) (w : Db T)
        → users_with email w ≤ 1
        → users_with other (upsert_user T org role email first last id now w)
          ≡ (if str_eq email other then 1 else users_with other w)
    unfolding upsert_user
    users_with-upsert_user email other first last id w unique =
        elim (Option-cases (find? (has_email T org email) (Table.rows (Tables.users T) w.users))) [
          | inl e ↦
              let none_yet =
                count-any (has_email T org email) (Table.rows (Tables.users T) w.users)
                  (find?-none (has_email T org email) (Table.rows (Tables.users T) w.users) e) in
              rw (e, upsert_user) (upsert-inserted email other first last id w none_yet)
          | inr (u, e) ↦
              let there =
                positive (has_email T org email) (Table.rows (Tables.users T) w.users) (
                  any_of_find? (has_email T org email) (Table.rows (Tables.users T) w.users) u e) in
              rw (e, upsert_user)
                (upsert-updated other first last u.id w ∙ elim (Bool-cases (str_eq email other)) [
                  | inl same ↦ rw same (
                      subst (λ m. users_with m w ≡ 1) ((str_eq_iff email other).0 same)
                        (omega (arith, there, unique)))
                  | inr differs ↦ rw differs refl
                ])
        ]

    -- A query that no change of names answers otherwise.
    module _ (q : User → Bool)
        (same_q : (first last : Text) (u : User) → q (renamed_user first last now u) ≡ q u) where
      abbrev pub not_default : User → Bool
      not_default u = not (u.role_id == role) && q u

      not_default-upsert_user :
          (email : String.String) (first last : Text) (id : Uuid) (w : Db T)
          → count_p not_default (
              Table.rows
                (Tables.users T)
                (Db.users (upsert_user T org role email first last id now w)))
            ≡ count_p not_default (Table.rows (Tables.users T) w.users)
      unfolding upsert_user
      not_default-upsert_user email first last id w =
          elim (Option-cases
            (find? (has_email T org email) (Table.rows (Tables.users T) w.users))) [
              | inl e ↦
                  rw (e, upsert_user)
                    (M.users.count-insert not_default (ldap_user org role email first last id now)
                        w.users
                      ∙ ground (arith, (==_iff role role).1 refl))
              | inr (x, e) ↦
                  rw (e, upsert_user)
                    (M.users.count-update not_default (λ u. u.id == x.id)
                        (renamed_user first last now) w.users
                      ∙ count_p_ext _ not_default (Table.rows (Tables.users T) w.users) (λ u.
                        if_P (λ y. not_default y ≡ not_default u) (u.id == x.id)
                          (renamed_user first last now u) u (rw (same_q first last u) refl) refl))
            ]

    module _ (mapping : UserMapping) where
      users_with-sync_email :
          (other : String.String) (e : Found) (email : String.String) (s : Synced T)
          → email_of mapping e.0 ≡ some email
          → HasUniqueEmails s.db
          → users_with other (Synced.db (sync_email T mapping org role now e email s))
            ≡ (if is_for mapping other e then 1 else users_with other s.db)
      unfolding sync_email
      users_with-sync_email other (entry, (id, none)) email s found unique =
          users_with-upsert_user email other (first_name_of mapping entry)
            (last_name_of mapping entry) id s.db (unique email)
          ∙ rw found (ground arith)
      users_with-sync_email other (entry, (id, some message)) email s found unique = ground arith

      users_with-sync_entry :
          (other : String.String) (e : Found) (s : Synced T)
          → HasUniqueEmails s.db
          → users_with other (Synced.db (sync_entry T mapping org role now e s))
            ≡ (if is_for mapping other e then 1 else users_with other s.db)
      unfolding sync_entry
      users_with-sync_entry other e s unique = elim (Option-cases (email_of mapping e.0)) [
        | inl missing ↦ rw (sync_entry, missing) refl
        | inr (email, found) ↦
            rw (sync_entry, found)
              (rw found at (users_with-sync_email other e email s found unique))
      ]

      unique-sync_entry :
          (e : Found) (s : Synced T)
          → HasUniqueEmails s.db
          → HasUniqueEmails (Synced.db (sync_entry T mapping org role now e s))
      unique-sync_entry e s unique other =
          subst (λ k. k ≤ 1) (sym (users_with-sync_entry other e s unique))
            (if_P (λ k. k ≤ 1) (is_for mapping other e) 1 (users_with other s.db) (omega arith)
              (unique other))

      users_with-sync_entries :
          (es : List Found) (s : Synced T)
          → HasUniqueEmails s.db
          → (HasUniqueEmails (Synced.db (sync_entries T mapping org role now es s)))
            × ((other : String.String)
                → users_with other (Synced.db (sync_entries T mapping org role now es s))
                  ≡ (if any (is_for mapping other) es then 1 else users_with other s.db))
      users_with-sync_entries [] s unique = (unique, λ other. refl)
      users_with-sync_entries (e ∷ es) s unique =
          let step = sync_entry T mapping org role now e s in
          let rest = users_with-sync_entries es step (unique-sync_entry e s unique) in
          (
            rest.0,
            λ other.
                rest.1 other
                ∙ (rw (users_with-sync_entry other e s unique)
                    (elim (Bool-cases (is_for mapping other e)) [
                      | inl here ↦ rw here (ground arith)
                      | inr there ↦ rw there refl
                    ])),
          )

      counts-sync_email :
          (e : Found) (email : String.String) (s : Synced T)
          → email_of mapping e.0 ≡ some email
          → (Synced.synced (sync_email T mapping org role now e email s)
              ≡ s.synced + count_p (is_taken mapping) (e ∷ []))
            × (length (Synced.errors (sync_email T mapping org role now e email s))
                ≡ length s.errors + count_p (is_refused mapping) (e ∷ []))
      unfolding sync_email
      counts-sync_email (entry, (id, none)) email s found = rw found (refl, omega arith)
      counts-sync_email (entry, (id, some message)) email s found =
          rw found (omega arith, length-append s.errors _)

      counts-sync_entry :
          (e : Found) (s : Synced T)
          → (Synced.synced (sync_entry T mapping org role now e s)
              ≡ s.synced + count_p (is_taken mapping) (e ∷ []))
            × (length (Synced.errors (sync_entry T mapping org role now e s))
                ≡ length s.errors + count_p (is_refused mapping) (e ∷ []))
      unfolding sync_entry
      counts-sync_entry e s = elim (Option-cases (email_of mapping e.0)) [
        | inl missing ↦ rw (sync_entry, missing) (omega arith, omega arith)
        | inr (email, found) ↦
            rw (sync_entry, found) (rw found at (counts-sync_email e email s found))
      ]

      counts-sync_entries :
          (es : List Found) (s : Synced T)
          → (Synced.synced (sync_entries T mapping org role now es s)
              ≡ s.synced + count_p (is_taken mapping) es)
            × (length (Synced.errors (sync_entries T mapping org role now es s))
                ≡ length s.errors + count_p (is_refused mapping) es)
      counts-sync_entries [] s = (omega arith, omega arith)
      counts-sync_entries (e ∷ es) s =
          let step = sync_entry T mapping org role now e s in
          let first = counts-sync_entry e s in
          let rest = counts-sync_entries es step in
          (omega (arith, rest.0, first.0), omega (arith, rest.1, first.1))

      module _ (q : User → Bool)
          (same_q : (first last : Text) (u : User) → q (renamed_user first last now u) ≡ q u) where
        abbrev others : Db T → ℕ
        others w = count_p (not_default q same_q) (Table.rows (Tables.users T) w.users)

        others-sync_email :
            (e : Found) (email : String.String) (s : Synced T)
            → others (Synced.db (sync_email T mapping org role now e email s)) ≡ others s.db
        unfolding sync_email
        others-sync_email (entry, (id, none)) email s =
            not_default-upsert_user q same_q email (first_name_of mapping entry)
              (last_name_of mapping entry) id s.db
        others-sync_email (entry, (id, some message)) email s = refl

        others-sync_entry :
            (e : Found) (s : Synced T)
            → others (Synced.db (sync_entry T mapping org role now e s)) ≡ others s.db
        unfolding sync_entry
        others-sync_entry e s = elim (Option-cases (email_of mapping e.0)) [
          | inl missing ↦ rw (sync_entry, missing) refl
          | inr (email, found) ↦ rw (sync_entry, found) (others-sync_email e email s)
        ]

        others-sync_entries :
            (es : List Found) (s : Synced T)
            → others (Synced.db (sync_entries T mapping org role now es s)) ≡ others s.db
        others-sync_entries [] s = refl
        others-sync_entries (e ∷ es) s =
            let step = sync_entry T mapping org role now e s in
            others-sync_entries es step ∙ others-sync_entry e s

  -- A synchronization counts the entries that have an address and whose statements the database
  -- takes, and reports an error for each entry with an address of which it refuses one. Behind it
  -- the organization has one user for each address of a counted entry and as many users as before
  -- for any other, no two with one address; and no user has gained, lost or changed a role other
  -- than the default one: a query on the users with other roles that no change of names answers
  -- otherwise finds as many as before. The conditions are that the search succeeds, that the
  -- organization has the role `Viewer`, and that no two of its users had one address.
  pub sync_users_lem :
      (es : List Found) (mapping : UserMapping) (now : ℕ) (w : Db T) (role : Role)
      (other : String.String) (q : User → Bool)
      (same_q : (first last : Text) (u : User) → q (renamed_user first last now u) ≡ q u)
      → find? (is_default_role T org) (Table.rows (Tables.roles T) w.roles) ≡ some role
      → HasUniqueEmails w
      → let after = sync_users T (ok es) mapping org now w in
        (after.synced ≡ count_p (is_taken mapping) es)
        × (length after.errors ≡ count_p (is_refused mapping) es)
        × HasUniqueEmails after.db
        × (users_with other after.db
            ≡ (if any (is_for mapping other) es then 1 else users_with other w))
        × (count_p
              (λ u. not (u.role_id == role.id) && q u)
              (Table.rows (Tables.users T) after.db.users)
            ≡ count_p
                (λ u. not (u.role_id == role.id) && q u)
                (Table.rows (Tables.users T) w.users))
  unfolding sync_users
  sync_users_lem es mapping now w role other q same_q found unique =
      let from : Synced T = record { synced = 0; errors = []; db = w } in
      let users = users_with-sync_entries role.id now mapping es from unique in
      let counts = counts-sync_entries role.id now mapping es from in
      rw (sync_users, found)
        (
          counts.0 ∙ omega arith,
          counts.1 ∙ omega arith,
          users.0,
          users.1 other,
          others-sync_entries role.id now mapping q same_q es from,
        )
