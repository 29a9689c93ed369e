-- ===== src/Geofences/Isolation.antt =====
-- The geofences and the triggers of another organization, behind any request.
use mdm.Base.{
  ℕ, ◌≡◌, refl, ◌∙◌, Bool, not, ◌&&◌, arith, ◌==◌, count_p, if◌then◌else◌, Option-cases, inl, inr,
}
use mdm.Base.Table.{Table, IsLawful, count_p_ext}
use mdm.Http.{Caller}
use mdm.Schema.{Uuid, Tables}
use mdm.Geofences.Routes.{
  Numbers, Geofence, GeofencePolicy, GeofenceEvent, new_geofence, changed_geofence,
}
use mdm.Geofences.Handlers.{
  GeofenceDb, is_own, find_fence, create_geofence, update_geofence, delete_geofence, add_policy,
  delete_policy, Request, creates, updates, deletes, adds_policy, deletes_policy, handle,
}

module _ (N : Numbers) (T : Tables) (F : Table (Geofence N)) (P : Table GeofencePolicy)
    (E : Table GeofenceEvent) (L : IsLawful F) where
  abbrev pub World : Type 0
  World = GeofenceDb N T F P E

  -- A query for geofences of other organizations.
  abbrev pub elsewhere : Uuid → (Geofence N → Bool) → Geofence N → Bool
  elsewhere org q f = not (f.org_id == org) && q f

  abbrev pub count_elsewhere : Uuid → (Geofence N → Bool) → World → ℕ
  count_elsewhere org q w = count_p (elsewhere org q) (Table.rows F w.fences)

  module _ (caller : Caller) (q : Geofence N → Bool) where
    elsewhere-changed :
        (id : Uuid) (change : Geofence N → Geofence N) (f : Geofence N)
        → (change f).org_id ≡ f.org_id
        → elsewhere caller.org_id q (if is_own N T F P E id caller.org_id f then change f else f)
          ≡ elsewhere caller.org_id q f
    elsewhere-changed id change f same = ground (arith, same)

    -- Whatever a caller asks for, the geofences of other organizations stay as they are: each
    -- query finds as many of them as before.
    pub handle-elsewhere :
        (request : Request N T F P E) (w : World)
        → count_elsewhere caller.org_id q (handle N T F P E caller request w)
          ≡ count_elsewhere caller.org_id q w
    unfolding handle create_geofence update_geofence delete_geofence add_policy delete_policy
        new_geofence changed_geofence
    handle-elsewhere (creates body id now) w =
        L.count-insert (elsewhere caller.org_id q) (new_geofence N caller body id now) w.fences
        ∙ ground arith
    handle-elsewhere (updates id body now) w =
        let change = changed_geofence N body now in
        let kept =
          L.count-update (elsewhere caller.org_id q) (is_own N T F P E id caller.org_id) change
            w.fences
          ∙ count_p_ext _ _ (Table.rows F w.fences) (λ f. elsewhere-changed id change f refl) in
        elim (Option-cases (find_fence N T F P E id caller.org_id w)) [
          | inl e ↦ rw (handle, update_geofence, e) kept
          | inr (f, e) ↦ rw (handle, update_geofence, e) kept
        ]
    handle-elsewhere (deletes id) w =
        let kept =
          L.count-delete (elsewhere caller.org_id q) (is_own N T F P E id caller.org_id) w.fences
          ∙ count_p_ext
              (λ f. not (is_own N T F P E id caller.org_id f) && elsewhere caller.org_id q f)
              (elsewhere caller.org_id q) (Table.rows F w.fences) (λ f. ground arith) in
        elim (Option-cases (find_fence N T F P E id caller.org_id w)) [
          | inl e ↦ rw (handle, delete_geofence, e) kept
          | inr (f, e) ↦ rw (handle, delete_geofence, e) kept
        ]
    handle-elsewhere (adds_policy id body policy_id) w =
        elim (Option-cases (find_fence N T F P E id caller.org_id w)) [
          | inl e ↦ rw (handle, add_policy, e) refl
          | inr (f, e) ↦ rw (handle, add_policy, e) refl
        ]
    handle-elsewhere (deletes_policy policy_id) w = refl
