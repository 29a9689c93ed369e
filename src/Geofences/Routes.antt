-- ===== src/Geofences/Routes.antt =====
-- The handlers. The bodies have passed their Zod schemas, with the defaults filled in; ids that the
-- database draws and the time are arguments. A coordinate is a number of the language, which the
-- model takes as a type with the operations that the code uses of it.
use mdm.Base.{
  ℕ, String, Bool, ◌||◌, Option, none, some, List, [], ◌∷◌, ◌++◌, ◌==◌, str_eq, get_or, length,
  filter, any, if◌then◌else◌,
}
use mdm.Base.Text.{Text}
use mdm.Http.{Caller}
use mdm.Schema.{Uuid}

-- The numbers of the language, with `String`.
pub record Numbers : Type 1 where
  pub Num : Type 0
  pub of_nat : ℕ → Num
  pub plus : Num → Num → Num
  pub over : Num → Num → Num
  pub text : Num → Text

pub record Point (N : Numbers) : Type 0 where
  pub lat : Numbers.Num N
  pub lng : Numbers.Num N

-- geofences
pub record Geofence (N : Numbers) : Type 0 where
  pub id : Uuid
  pub org_id : Uuid
  pub name : Text
  pub description : Option Text
  pub type : String
  pub center_lat : Text
  pub center_lng : Text
  pub radius_meters : Numbers.Num N
  pub polygon : Option (List (Point N))
  pub dwell_time_seconds : ℕ
  pub is_active : Bool
  pub updated_at : ℕ

-- geofencePolicies
pub record GeofencePolicy : Type 0 where
  pub id : Uuid
  pub geofence_id : Uuid
  pub trigger_type : String
  pub action_type : String
  pub action_config : Text

-- geofenceEvents, with the columns that the handlers read
pub record GeofenceEvent : Type 0 where
  pub device_id : Uuid
  pub geofence_id : Uuid
  pub trigger_type : String
  pub occurred_at : ℕ

-- createGeofenceSchema: what both members have, and what is theirs
pub data Shape (N : Numbers) : Type 0 where
  circle : Numbers.Num N → Numbers.Num N → Numbers.Num N → Shape N
  polygon : List (Point N) → Shape N

pub record CreateGeofence (N : Numbers) : Type 0 where
  pub name : Text
  pub description : Option Text
  pub shape : Shape N
  pub dwell_time_seconds : ℕ
  pub is_active : Bool

-- updateGeofenceSchema
pub record UpdateGeofence (N : Numbers) : Type 0 where
  pub name : Option Text
  pub description : Option Text
  pub type : Option String
  pub center_lat : Option (Numbers.Num N)
  pub center_lng : Option (Numbers.Num N)
  pub radius_meters : Option (Numbers.Num N)
  pub points : Option (List (Point N))
  pub dwell_time_seconds : Option ℕ
  pub is_active : Option Bool

-- createPolicySchema
pub record CreatePolicy : Type 0 where
  pub trigger_type : String
  pub action_type : String
  pub action_config : Text

-- A device's latest event, as the map of the handler keeps it.
pub record DeviceState : Type 0 where
  pub device_id : Uuid
  pub trigger : String
  pub last_seen : ℕ

-- `new Map`, in the order of its entries: `set` of a device that it does not have.
unfoldable pub note_event : GeofenceEvent → List DeviceState → List DeviceState
note_event e states =
    if any (λ s. s.device_id == e.device_id) states
    then states
    else states
      ++ record { device_id = e.device_id; trigger = e.trigger_type; last_seen = e.occurred_at }
        ∷ []

-- `for (const event of events)`
abbrev pub note_events : List GeofenceEvent → List DeviceState → List DeviceState
note_events [] states = states
note_events (e ∷ es) states = note_events es (note_event e states)

abbrev pub is_inside : DeviceState → Bool
is_inside s = str_eq s.trigger "enter" || str_eq s.trigger "dwell"

-- The devices inside, by the events from the newest on.
unfoldable pub inside_devices : List GeofenceEvent → List DeviceState
unfolding note_event
inside_devices events = filter is_inside (note_events events [])

module _ (N : Numbers) where
  -- `computeCentroid`
  abbrev add_point : Point N → Point N → Point N
  add_point acc p = record {
    lat = Numbers.plus N acc.lat p.lat;
    lng = Numbers.plus N acc.lng p.lng;
  }

  abbrev sum_from : Point N → List (Point N) → Point N
  sum_from acc [] = acc
  sum_from acc (p ∷ ps) = sum_from (add_point acc p) ps

  unfoldable pub compute_centroid : List (Point N) → Point N
  compute_centroid points =
      let zero = Numbers.of_nat N 0 in
      let sum = sum_from (record { lat = zero; lng = zero }) points in
      let n = Numbers.of_nat N (length points) in
      record { lat = Numbers.over N sum.lat n; lng = Numbers.over N sum.lng n }

  abbrev center_of : Shape N → Point N
  center_of (circle lat lng radius) = record { lat = lat; lng = lng }
  center_of (polygon points) = compute_centroid points

  abbrev radius_of : Shape N → Numbers.Num N
  radius_of (circle lat lng radius) = radius
  radius_of (polygon points) = Numbers.of_nat N 0

  abbrev points_of : Shape N → Option (List (Point N))
  points_of (circle lat lng radius) = none
  points_of (polygon points) = some points

  abbrev type_of : Shape N → String
  type_of (circle lat lng radius) = "circle"
  type_of (polygon points) = "polygon"

  -- `insertValues`
  unfoldable pub new_geofence : Caller → CreateGeofence N → Uuid → ℕ → Geofence N
  unfolding compute_centroid
  new_geofence caller body id now = record {
    id = id;
    org_id = caller.org_id;
    name = body.name;
    description = body.description;
    type = type_of body.shape;
    center_lat = Numbers.text N (center_of body.shape).lat;
    center_lng = Numbers.text N (center_of body.shape).lng;
    radius_meters = radius_of body.shape;
    polygon = points_of body.shape;
    dwell_time_seconds = body.dwell_time_seconds;
    is_active = body.is_active;
    updated_at = now;
  }

  abbrev or_text : Option (Numbers.Num N) → Text → Text
  or_text none t = t
  or_text (some n) t = Numbers.text N n

  abbrev or_points : Option (List (Point N)) → Option (List (Point N)) → Option (List (Point N))
  or_points none old = old
  or_points (some points) old = some points

  abbrev or_description : Option Text → Option Text → Option Text
  or_description none old = old
  or_description (some t) old = some t

  -- `updateValues`
  unfoldable pub changed_geofence : UpdateGeofence N → ℕ → Geofence N → Geofence N
  changed_geofence body now f = record f {
    name = get_or body.name f.name;
    description = or_description body.description f.description;
    type = get_or body.type f.type;
    center_lat = or_text body.center_lat f.center_lat;
    center_lng = or_text body.center_lng f.center_lng;
    radius_meters = get_or body.radius_meters f.radius_meters;
    polygon = or_points body.points f.polygon;
    dwell_time_seconds = get_or body.dwell_time_seconds f.dwell_time_seconds;
    is_active = get_or body.is_active f.is_active;
    updated_at = now;
  }
