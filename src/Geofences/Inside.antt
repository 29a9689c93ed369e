-- ===== src/Geofences/Inside.antt =====
-- The devices inside a geofence are those whose latest event is no exit.
use mdm.Base.{
  ◌≤◌, ◌≡◌, refl, ap, sym, ◌∙◌, Bool, true, false, Option, none, some, List, [], ◌∷◌, ◌++◌, arith,
  ◌==◌, ==_iff, any, filter, find?, find?-none, any_of_find?, find?-none_of_count, count_p,
  count_p-append, count-any, ◌⊎◌, if◌then◌else◌, Bool-cases, Option-cases, inl, inr,
}
use mathlib.Core.Path.{subst}
use mdm.Schema.{Uuid}
use mdm.Geofences.Routes.{
  GeofenceEvent, DeviceState, note_event, note_events, is_inside, inside_devices,
}

abbrev pub of_device : Uuid → DeviceState → Bool
of_device d s = s.device_id == d

abbrev pub about : Uuid → GeofenceEvent → Bool
about d e = e.device_id == d

abbrev pub state_of : GeofenceEvent → DeviceState
state_of e = record { device_id = e.device_id; trigger = e.trigger_type; last_seen = e.occurred_at }

-- The state that an event gives, where there is one and it is not an exit.
abbrev pub inside_state : Option GeofenceEvent → Option DeviceState
inside_state none = none
inside_state (some e) = if is_inside (state_of e) then some (state_of e) else none

-- The first of two.
abbrev first_of : Option DeviceState → Option GeofenceEvent → Option DeviceState
first_of none none = none
first_of none (some e) = some (state_of e)
first_of (some s) o = some s

first_of-none : (o : Option DeviceState) → first_of o none ≡ o
first_of-none none = refl
first_of-none (some s) = refl

find?-append :
    (p : DeviceState → Bool) (xs : List DeviceState) (x : DeviceState)
    → find? p (xs ++ x ∷ []) ≡ (if any p xs then find? p xs else find? p (x ∷ []))
find?-append p [] x = refl
find?-append p (y ∷ xs) x = ground (arith, find?-append p xs x)

any_cases :
    (p : DeviceState → Bool) (xs : List DeviceState)
    → ((find? p xs ≡ none) × (any p xs ≡ false))
      ⊎ ((s : DeviceState) × (find? p xs ≡ some s) × (any p xs ≡ true))
any_cases p xs = elim (Option-cases (find? p xs)) [
  | inl e ↦ inl (e, find?-none p xs e)
  | inr (s, e) ↦ inr (s, e, any_of_find? p xs s e)
]

note_event-first :
    (d : Uuid) (e : GeofenceEvent) (states : List DeviceState) (rest : Option GeofenceEvent)
    → first_of (find? (of_device d) (note_event e states)) rest
      ≡ first_of (find? (of_device d) states) (if about d e then some e else rest)
unfolding note_event
note_event-first d e states rest =
    elim (Bool-cases (any (λ s. s.device_id == e.device_id) states)) [
      | inl known ↦ rw known (elim (any_cases (of_device d) states) [
        | inl (f, a) ↦
            let other : about d e ≡ false = elim (Bool-cases (about d e)) [
              | inl same ↦
                  let same_id : e.device_id ≡ d = (==_iff e.device_id d).0 same in
                  let k = subst (λ i. any (of_device i) states ≡ true) same_id known in cc
              | inr differs ↦ differs
            ] in
            rw (f, other) refl
        | inr (s, f, a) ↦ rw f refl
      ])
      | inr unknown ↦
          rw (unknown, find?-append (of_device d) states (state_of e))
            (elim (any_cases (of_device d) states) [
              | inl (f, a) ↦
                  rw (f, a)
                    (elim (Bool-cases (about d e)) [
                      | inl same ↦ rw same refl
                      | inr differs ↦ rw differs refl
                    ])
              | inr (s, f, a) ↦ rw (f, a) refl
            ])
    ]

note_events-first :
    (d : Uuid) (es : List GeofenceEvent) (states : List DeviceState)
    → find? (of_device d) (note_events es states)
      ≡ first_of (find? (of_device d) states) (find? (about d) es)
note_events-first d [] states = sym (first_of-none (find? (of_device d) states))
note_events-first d (e ∷ es) states =
    note_events-first d es (note_event e states) ∙ note_event-first d e states (find? (about d) es)

note_event-count :
    (d : Uuid) (e : GeofenceEvent) (states : List DeviceState)
    → count_p (of_device d) states ≤ 1
    → count_p (of_device d) (note_event e states) ≤ 1
unfolding note_event
note_event-count d e states h = elim (Bool-cases (any (λ s. s.device_id == e.device_id) states)) [
  | inl known ↦ rw known h
  | inr unknown ↦
      let more = count_p-append (of_device d) states (state_of e ∷ []) in
      let none_yet = count-any (λ s. s.device_id == e.device_id) states unknown in
      rw unknown (elim (Bool-cases (about d e)) [
        | inl same ↦
            let same_id : e.device_id ≡ d = (==_iff e.device_id d).0 same in
            let k = subst (λ i. count_p (of_device i) states ≡ 0) same_id none_yet in
            ground (arith, more, k)
        | inr differs ↦ ground (arith, more)
      ])
]

note_events-count :
    (d : Uuid) (es : List GeofenceEvent) (states : List DeviceState)
    → count_p (of_device d) states ≤ 1
    → count_p (of_device d) (note_events es states) ≤ 1
note_events-count d [] states h = h
note_events-count d (e ∷ es) states h =
    note_events-count d es (note_event e states) (note_event-count d e states h)

abbrev keep_inside : Option DeviceState → Option DeviceState
keep_inside none = none
keep_inside (some s) = if is_inside s then some s else none

-- Of devices that stand there once, the filter keeps the state or drops the device.
filter-first :
    (d : Uuid) (states : List DeviceState)
    → count_p (of_device d) states ≤ 1
    → find? (of_device d) (filter is_inside states) ≡ keep_inside (find? (of_device d) states)
filter-first d [] h = refl
filter-first d (s ∷ states) h = elim (Bool-cases (of_device d s)) [
  | inl here ↦
      let later : count_p (of_device d) states ≡ 0 = ground (arith, h, here) in
      elim (Bool-cases (is_inside s)) [
        | inl inside ↦ rw (inside, here, inside) refl
        | inr outside ↦
            rw (outside, here, outside)
              (filter-first d states (omega (arith, later))
                ∙ ap keep_inside (find?-none_of_count (of_device d) states later))
      ]
  | inr there ↦
      let rest = filter-first d states (ground (arith, h)) in
      elim (Bool-cases (is_inside s)) [
        | inl inside ↦ rw (inside, there) rest
        | inr outside ↦ rw (outside, there) rest
      ]
]

count-filter_le :
    (p r : DeviceState → Bool) (xs : List DeviceState) → count_p p (filter r xs) ≤ count_p p xs
count-filter_le p r [] = omega arith
count-filter_le p r (x ∷ xs) = ground (arith, count-filter_le p r xs)

first-inside : (o : Option GeofenceEvent) → keep_inside (first_of none o) ≡ inside_state o
first-inside none = refl
first-inside (some e) = refl

-- Of the events of a geofence, given from the newest on, the devices inside hold each device at
-- most once, and hold it if the first event about it is one of entering or dwelling, with the
-- trigger and the time of that event; a device whose first event is another, or that has none, is
-- not among them.
pub inside_devices_lem :
    (d : Uuid) (events : List GeofenceEvent)
    → (find? (of_device d) (inside_devices events) ≡ inside_state (find? (about d) events))
      × (count_p (of_device d) (inside_devices events) ≤ 1)
unfolding inside_devices
inside_devices_lem d events =
    let states = note_events events [] in
    let once = note_events-count d events [] (omega arith) in
    (
      filter-first d states once
          ∙ (ap keep_inside (note_events-first d events [])
              ∙ first-inside (find? (about d) events)),
      omega (arith, once, count-filter_le (of_device d) is_inside states),
    )
