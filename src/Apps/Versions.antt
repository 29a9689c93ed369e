-- ===== src/Apps/Versions.antt =====
-- Which version of an app is the current one, behind `createVersion` and `rollbackVersion`.
use mdm.Base.{
  ℕ, ◌≡◌, refl, ap, ◌∙◌, Bool, true, false, ◌&&◌, some, List, [], ◌∷◌, arith, ◌==◌, ==_iff, count_p,
  if◌then◌else◌, Bool-cases, inl, inr,
}
use mdm.Base.Table.{Table}
use mdm.Schema.{Uuid}
use mdm.Apps.Model.{AppVersion, AppTables, AppTablesLaws, AppDb}
use mdm.Apps.Service.{
  CreateVersion, clear_current, new_version, create_version, is_version, get_version,
  rollback_version,
}

abbrev is_current_of : Uuid → AppVersion → Bool
is_current_of app v = v.app_id == app && v.is_current

-- The rows that are current for an app when another app's, or its own, are cleared.
count-cleared :
    (app other : Uuid) (vs : List AppVersion)
    → count_p
        (λ v. is_current_of other (if v.app_id == app then record v { is_current = false } else v))
        vs
      ≡ (if app == other then 0 else count_p (is_current_of other) vs)
count-cleared app other [] = ground arith
count-cleared app other (v ∷ vs) = ground (arith, count-cleared app other vs)

-- Behind a clearing no version of the app is current, whatever its id.
count-cleared_id :
    (app id : Uuid) (vs : List AppVersion)
    → count_p
        (λ v.
          let r = if v.app_id == app then record v { is_current = false } else v in
          (r.id == id && r.app_id == app) && r.is_current)
        vs
      ≡ 0
count-cleared_id app id [] = refl
count-cleared_id app id (v ∷ vs) = ground (arith, count-cleared_id app id vs)

module _ (T : AppTables) where
  abbrev pub count_current : Uuid → AppDb T → ℕ
  count_current app w = count_p (is_current_of app) (Table.rows (AppTables.versions T) w.versions)

  module _ (L : AppTablesLaws T) where
    count-clear_current :
        (app other : Uuid) (s : Table.State (AppTables.versions T))
        → count_p (is_current_of other) (Table.rows (AppTables.versions T) (clear_current T app s))
          ≡ (if app == other
              then 0
              else count_p (is_current_of other) (Table.rows (AppTables.versions T) s))
    count-clear_current app other s =
        L.versions.count-update (is_current_of other) _ _ s ∙ count-cleared app other _

    count-create_version :
        (app other : Uuid) (body : CreateVersion) (new_id : Uuid)
        (s : Table.State (AppTables.versions T))
        → count_p (is_current_of other) (
            Table.rows (AppTables.versions T) (
              Table.insert
                (AppTables.versions T)
                (new_version T app body new_id)
                (clear_current T app s)))
          ≡ (if app == other
              then 1
              else count_p (is_current_of other) (Table.rows (AppTables.versions T) s))
    count-create_version app other body new_id s = ground (
      arith,
      L.versions.count-insert (is_current_of other) (new_version T app body new_id)
          (clear_current T app s),
      count-clear_current app other s,
    )

    count-created :
        (app : Uuid) (body : CreateVersion) (new_id : Uuid) (s : Table.State (AppTables.versions T))
        → count_p
            (λ r. is_version T app new_id r && r.is_current)
            (Table.rows (AppTables.versions T) (
              Table.insert
                (AppTables.versions T)
                (new_version T app body new_id)
                (clear_current T app s)))
          ≡ 1
    count-created app body new_id s =
        let cleared =
          L.versions.count-update (λ r. is_version T app new_id r && r.is_current)
            (λ v. v.app_id == app) (λ v. record v { is_current = false }) s
          ∙ count-cleared_id app new_id (Table.rows (AppTables.versions T) s) in
        L.versions.count-insert (λ r. is_version T app new_id r && r.is_current)
          (new_version T app body new_id) (clear_current T app s)
        ∙ rw ((==_iff new_id new_id).1 refl, (==_iff app app).1 refl) (omega (arith, cleared))

    -- A version that the server takes is current, it is the one current version of its app, and the
    -- number of current versions of every other app is as before. Where the server refuses the row,
    -- as many rows with the new id are current as before, and the numbers of all apps are as before.
    pub create_version_lem :
        (accepts : AppVersion → AppDb T → Bool) (app : Uuid) (body : CreateVersion) (new_id : Uuid)
        (w : AppDb T) (other : Uuid)
        → (count_p
              (λ r. is_version T app new_id r && r.is_current)
              (Table.rows
                (AppTables.versions T)
                (create_version T accepts app body new_id w).1.versions)
            ≡ (if accepts
                  (new_version T app body new_id)
                  (record w { versions = clear_current T app w.versions })
                then 1
                else count_p
                    (λ r. is_version T app new_id r && r.is_current)
                    (Table.rows (AppTables.versions T) w.versions)))
          × (count_current other (create_version T accepts app body new_id w).1 ≡ (
              if (app == other)
                && accepts
                    (new_version T app body new_id)
                    (record w { versions = clear_current T app w.versions })
              then 1
              else count_current other w))
    unfolding create_version
    create_version_lem accepts app body new_id w other =
        elim (Bool-cases (
          accepts (new_version T app body new_id)
            (record w { versions = clear_current T app w.versions }))) [
              | inl taken ↦
                  rw (taken, create_version)
                    (
                      count-created app body new_id w.versions,
                      ground (arith, count-create_version app other body new_id w.versions),
                    )
              | inr refused ↦ rw (refused, create_version) (refl, ground arith)
            ]

    count-rolled_back :
        (app version other : Uuid) (vs : List AppVersion)
        → count_p
            (λ v. is_current_of other (
              let c = if v.app_id == app then record v { is_current = false } else v in
              if is_version T app version c then record c { is_current = true } else c))
            vs
          ≡ (if app == other
              then count_p (is_version T app version) vs
              else count_p (is_current_of other) vs)
    count-rolled_back app version other [] = ground arith
    count-rolled_back app version other (v ∷ vs) =
        ground (arith, count-rolled_back app version other vs)

    count-rolled_back_to :
        (app version : Uuid) (vs : List AppVersion)
        → count_p
            (λ v.
              let r =
                (let c = if v.app_id == app then record v { is_current = false } else v in
                  if is_version T app version c then record c { is_current = true } else c) in
              is_version T app version r && r.is_current)
            vs
          ≡ count_p (is_version T app version) vs
    count-rolled_back_to app version [] = refl
    count-rolled_back_to app version (v ∷ vs) = ground (arith, count-rolled_back_to app version vs)

    -- Rolling back to a version that the app has, where its id is unique: the version is then
    -- current, it is the one current version of its app, and every other app has as many current
    -- versions as before.
    pub rollback_version_lem :
        (app version : Uuid) (w : AppDb T) (v : AppVersion) (other : Uuid)
        → get_version T app version w ≡ some v
        → count_p (is_version T app version) (Table.rows (AppTables.versions T) w.versions) ≡ 1
        → (count_p
              (λ r. is_version T app version r && r.is_current)
              (Table.rows (AppTables.versions T) (rollback_version T app version w).1.versions)
            ≡ 1)
          × (count_current other (rollback_version T app version w).1
              ≡ (if app == other then 1 else count_current other w))
    unfolding rollback_version
    rollback_version_lem app version w v other found unique = (
      rw (found, rollback_version)
          (L.versions.count-update _ _ _ (clear_current T app w.versions)
            ∙ (L.versions.count-update _ _ _ w.versions
                ∙ (count-rolled_back_to app version _ ∙ unique))),
      rw (found, rollback_version)
          (L.versions.count-update (is_current_of other) _ _ (clear_current T app w.versions)
            ∙ (L.versions.count-update _ _ _ w.versions
                ∙ (count-rolled_back app version other _
                    ∙ ap (λ n. if app == other then n else count_current other w) unique))),
    )
