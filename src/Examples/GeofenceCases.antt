-- ===== src/Examples/GeofenceCases.antt =====
-- Geofences: a device that left and one that stays, and an update next to a foreign geofence.
use mdm.Base.{ℕ, ◌≡◌, refl, ◌≤◌, true, none, some, List, [], ◌∷◌, find?, count_p, ◌+◌, ◌/◌}
use mdm.Base.Text.{codes}
use mdm.Base.Table.{list_table, list_table-IsLawful}
use mdm.Geofences.Routes.{
  Numbers, Point, Geofence, GeofencePolicy, GeofenceEvent, UpdateGeofence, inside_devices,
  note_event, compute_centroid,
}
use mdm.Geofences.Inside.{of_device, about, inside_state, inside_devices_lem}
use mdm.Geofences.Handlers.{GeofenceDb, updates, handle}
use mdm.Geofences.Isolation.{count_elsewhere, handle-elsewhere}
use mdm.Examples.Fleet.{tables, fleet, caller}

abbrev whole : Numbers
whole = record {
  Num = ℕ;
  of_nat = λ n. n;
  plus = λ a b. a + b;
  over = λ a b. a / b;
  text = λ n. 48 ∷ n ∷ [];
}

abbrev corner : ℕ → ℕ → Point whole
corner lat lng = record { lat = lat; lng = lng }

middle : compute_centroid whole (corner 0 0 ∷ corner 6 0 ∷ corner 0 9 ∷ []) ≡ corner 2 3
unfolding compute_centroid
middle = refl

-- From the newest on: device 1 left, device 2 dwells.
abbrev events : List GeofenceEvent
events =
    record { device_id = 1; geofence_id = 5; trigger_type = "exit"; occurred_at = 30 }
    ∷ record { device_id = 2; geofence_id = 5; trigger_type = "dwell"; occurred_at = 20 }
    ∷ record { device_id = 1; geofence_id = 5; trigger_type = "enter"; occurred_at = 10 }
    ∷ []

one_inside :
    inside_devices events ≡ record { device_id = 2; trigger = "dwell"; last_seen = 20 } ∷ []
unfolding inside_devices note_event
one_inside = refl

inside_devices_lem_example :
    (find? (of_device 1) (inside_devices events) ≡ inside_state (find? (about 1) events))
    × (count_p (of_device 1) (inside_devices events) ≤ 1)
inside_devices_lem_example = inside_devices_lem 1 events

abbrev fence : ℕ → ℕ → Geofence whole
fence id org = record {
  id = id;
  org_id = org;
  name = codes "Depot";
  description = none;
  type = "circle";
  center_lat = codes "1";
  center_lng = codes "1";
  radius_meters = 100;
  polygon = none;
  dwell_time_seconds = 0;
  is_active = true;
  updated_at = 0;
}

abbrev world :
    GeofenceDb whole tables
      (list_table (Geofence whole))
      (list_table GeofencePolicy)
      (list_table GeofenceEvent)
world = record { base = fleet; fences = fence 5 1 ∷ fence 6 2 ∷ []; policies = []; events = events }

abbrev rename : UpdateGeofence whole
rename = record {
  name = some (codes "Yard");
  description = none;
  type = none;
  center_lat = none;
  center_lng = none;
  radius_meters = none;
  points = none;
  dwell_time_seconds = none;
  is_active = none;
}

handle-elsewhere_example :
    count_elsewhere whole tables
      (list_table _)
      (list_table _)
      (list_table _)
      (list_table-IsLawful _)
      caller.org_id
      (λ f. true)
      (handle whole tables
        (list_table _)
        (list_table _)
        (list_table _)
        caller
        (updates 6 rename 9)
        world)
    ≡ count_elsewhere whole tables
        (list_table _)
        (list_table _)
        (list_table _)
        (list_table-IsLawful _)
        caller.org_id
        (λ f. true)
        world
handle-elsewhere_example =
    handle-elsewhere whole tables (list_table _) (list_table _) (list_table _)
      (list_table-IsLawful _) caller (λ f. true) (updates 6 rename 9) world
