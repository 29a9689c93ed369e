-- ===== src/Geofences/Handlers.antt =====
-- The handlers on the tables. Deleting a geofence also removes its triggers and its events, which
-- reference it with `onDelete: 'cascade'`.
use mdm.Base.{ℕ, String, Bool, ◌&&◌, Option, none, some, List, [], ◌==◌, filter, find?, Result, ok}
use mdm.Base.Table.{Table}
use mdm.DynamicGroups.Membership.{log}
use mdm.Http.{Caller, Refusal, refuse}
use mdm.Schema.{Uuid, Tables, Db}
use mdm.Geofences.Routes.{
  Numbers, Geofence, GeofencePolicy, GeofenceEvent, CreateGeofence, UpdateGeofence, CreatePolicy,
  DeviceState, inside_devices, new_geofence, changed_geofence,
}

module _ (N : Numbers) (T : Tables) (F : Table (Geofence N)) (P : Table GeofencePolicy)
    (E : Table GeofenceEvent) where
  pub record GeofenceDb : Type 0 where
    pub base : Db T
    pub fences : Table.State F
    pub policies : Table.State P
    pub events : Table.State E

  -- `and(eq(geofences.id, id), eq(geofences.orgId, orgId))`
  abbrev pub is_own : Uuid → Uuid → Geofence N → Bool
  is_own id org f = f.id == id && f.org_id == org

  abbrev pub find_fence : Uuid → Uuid → GeofenceDb → Option (Geofence N)
  find_fence id org w = find? (is_own id org) (Table.rows F w.fences)

  abbrev pub log_fence : Caller → String → Uuid → GeofenceDb → GeofenceDb
  log_fence caller action id w = record w {
    base =
        log T
          (record {
            org_id = caller.org_id;
            user_id = some caller.sub;
            action = action;
            resource = "geofence";
            resource_id = some id;
            details = [];
          })
          w.base;
  }

  -- `POST /`
  unfoldable pub create_geofence :
      Caller → CreateGeofence N → Uuid → ℕ → GeofenceDb → Geofence N × GeofenceDb
  unfolding new_geofence
  create_geofence caller body id now w =
      let fence = new_geofence N caller body id now in
      (
        fence,
        log_fence caller "geofence.created" id
            (record w { fences = Table.insert F fence w.fences }),
      )

  -- `GET /:id`
  unfoldable pub get_geofence : Caller → Uuid → GeofenceDb → Result Refusal (Geofence N)
  get_geofence caller id w = elim (find_fence id caller.org_id w) [
    | none ↦ refuse 404 "Geofence not found"
    | some fence ↦ ok fence
  ]

  -- `PATCH /:id`; the row that `returning` gives is the one that was found, changed.
  unfoldable pub update_geofence :
      Caller → Uuid → UpdateGeofence N → ℕ → GeofenceDb → Result Refusal (Geofence N) × GeofenceDb
  unfolding changed_geofence
  update_geofence caller id body now w =
      let change = changed_geofence N body now in
      let updated = record w {
        fences = Table.update F (is_own id caller.org_id) change w.fences;
      } in
      elim (find_fence id caller.org_id w) [
        | none ↦ (refuse 404 "Geofence not found", updated)
        | some fence ↦ (ok (change fence), log_fence caller "geofence.updated" id updated)
      ]

  -- What the server removes along with a geofence.
  abbrev pub cascade : Uuid → Option (Geofence N) → GeofenceDb → GeofenceDb
  cascade id none w = w
  cascade id (some fence) w = record w {
    policies = Table.delete P (λ p. p.geofence_id == id) w.policies;
    events = Table.delete E (λ e. e.geofence_id == id) w.events;
  }

  -- `DELETE /:id`
  unfoldable pub delete_geofence : Caller → Uuid → GeofenceDb → GeofenceDb
  delete_geofence caller id w =
      let gone = cascade id (find_fence id caller.org_id w) w in
      log_fence caller "geofence.deleted" id
        (record gone { fences = Table.delete F (is_own id caller.org_id) gone.fences })

  -- `POST /:id/policies`
  unfoldable pub add_policy :
      Caller → Uuid → CreatePolicy → Uuid → GeofenceDb → Result Refusal GeofencePolicy × GeofenceDb
  add_policy caller id body policy_id w = elim (find_fence id caller.org_id w) [
    | none ↦ (refuse 404 "Geofence not found", w)
    | some fence ↦
        let policy : GeofencePolicy = record {
          id = policy_id;
          geofence_id = id;
          trigger_type = body.trigger_type;
          action_type = body.action_type;
          action_config = body.action_config;
        } in
        (ok policy, record w { policies = Table.insert P policy w.policies })
  ]

  -- `DELETE /:id/policies/:policyId`, which reads neither the geofence nor the caller.
  unfoldable pub delete_policy : Uuid → GeofenceDb → GeofenceDb
  delete_policy policy_id w = record w {
    policies = Table.delete P (λ p. p.id == policy_id) w.policies;
  }

  -- `GET /:id/policies`
  unfoldable pub list_policies : Uuid → GeofenceDb → List GeofencePolicy
  list_policies id w = filter (λ p. p.geofence_id == id) (Table.rows P w.policies)

  -- `GET /:id/devices`, where the server orders the events of the geofence from the newest on.
  unfoldable pub list_devices :
      (List GeofenceEvent → List GeofenceEvent) → Uuid → GeofenceDb → List DeviceState
  unfolding inside_devices
  list_devices newest_first id w =
      inside_devices (newest_first (filter (λ e. e.geofence_id == id) (Table.rows E w.events)))

  -- The requests that change something.
  pub data Request : Type 0 where
    creates : CreateGeofence N → Uuid → ℕ → Request
    updates : Uuid → UpdateGeofence N → ℕ → Request
    deletes : Uuid → Request
    adds_policy : Uuid → CreatePolicy → Uuid → Request
    deletes_policy : Uuid → Request

  unfoldable pub handle : Caller → Request → GeofenceDb → GeofenceDb
  unfolding create_geofence update_geofence delete_geofence add_policy delete_policy
  handle caller (creates body id now) w = (create_geofence caller body id now w).1
  handle caller (updates id body now) w = (update_geofence caller id body now w).1
  handle caller (deletes id) w = delete_geofence caller id w
  handle caller (adds_policy id body policy_id) w = (add_policy caller id body policy_id w).1
  handle caller (deletes_policy policy_id) w = delete_policy policy_id w
