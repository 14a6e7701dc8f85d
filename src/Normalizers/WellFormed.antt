-- ===== src/Normalizers/WellFormed.antt =====
-- What the pollers of apps/ingestion/normalizers publish.
use dcops.Base.{
  ◌⊎◌, ◌≡◌, refl, sym, inl, inr, Bool-cases, Option-cases, true, false, Option, some, String,
  str_eq, str_mem, str_append,
}
use mathlib.Core.Path.{subst₂}
use dcops.Value.{Value, str}
use dcops.Quality.Grounding.{canonical_metrics}
use dcops.Normalizers.Telemetry.{
  TelemetryEvent, Reading, Effect, get, publish, sleep, Net, Poll, lift, ◌>>=◌, telemetry_event,
  publish_event, emit, type_text, name_field, unit_field, site,
}
use dcops.Normalizers.Places.{hall_rack}
use dcops.Normalizers.Placed.{Placed, hall_rack-Placed}
use dcops.Normalizers.Ensures.{
  Holds-Any, Ensures-lift, Ensures-pure, Ensures, Keeps, Holds, Any, Ensures-bind,
}
use dcops.Normalizers.Sources.{Source, env, source_name}

-- An event of the catalogue whose four names are not empty, and whose device, unless the facility's
-- adapter names its place, has an unknown rack or continues its rack's name with a dash.
pub record IsWellFormed {F : Type 0} (source : Source) (e : TelemetryEvent F) : Type 0 where
  pub catalogued : str_mem e.metric canonical_metrics ≡ true
  pub site_named : str_eq e.site_id "" ≡ false
  pub hall_named : str_eq e.hall_id "" ≡ false
  pub rack_named : str_eq e.rack_id "" ≡ false
  pub device_named : str_eq e.device_id "" ≡ false
  pub placed : (source ≡ env) ⊎ Placed e.device_id e.rack_id

-- On the topic of the source and the device's type, such an event.
abbrev pub IsSent : {F : Type 0} → Source → Effect F → Type 0
IsSent source (get url) = Unit
IsSent source sleep = Unit
IsSent source (publish t e) =
    (t
      ≡ str_append "telemetry."
          (str_append (source_name source) (str_append "." (type_text e.device_type))))
    × IsWellFormed source e

module _ {F : Type 0} (net : Net F) where
  -- What a field of type `str` makes of a value.
  abbrev Named : Value → String → Type 0
  Named v s = (net.text_field v ≡ some s) × (str_eq s "" ≡ false)

  name_field-Named : (v : Value) → Holds (Named v) (name_field net v)
  name_field-Named v = elim (Option-cases (net.text_field v)) [
    | inl e ↦ rw (e, name_field) tt
    | inr (s, e) ↦ elim (Bool-cases (str_eq s "")) [
      | inl empty ↦ simp (e, empty, name_field) tt
      | inr named ↦ simp (e, named, name_field) (refl, refl)
    ]
  ]

  record Built (r : Reading F) (e : TelemetryEvent F) : Type 0 where
    metric : e.metric ≡ r.metric
    site_named : str_eq e.site_id "" ≡ false
    hall : Named r.hall_id e.hall_id
    rack : Named r.rack_id e.rack_id
    device : Named r.device_id e.device_id

  module _ (P : Effect F → Type 0) where
    name_then :
        {A : Type 0} (Q : A → Type 0) (v : Value) (f : String → Poll F A)
        → ((s : String) → Named v s → Ensures P Q (f s))
        → Ensures P Q (lift (name_field net v) >>= f)
    name_then Q v f next =
        Ensures-bind P (Named v) Q (lift (name_field net v)) f
          (Ensures-lift P (Named v) _ (name_field-Named v)) next

    telemetry_event-Built : (r : Reading F) → Ensures P (Built r) (telemetry_event net r)
    unfolding telemetry_event
    telemetry_event-Built r = name_then (Built r) (str (site net)) _ λ s site_named.
        name_then (Built r) r.hall_id _ λ h hall. name_then (Built r) r.rack_id _ λ k rack.
          name_then (Built r) r.device_id _ λ d device.
            Ensures-bind P (λ (u : Option String). Unit) (Built r) (lift (unit_field net r.unit)) _
              (Ensures-lift P _ _ (Holds-Any (unit_field net r.unit)))
              λ u t. Ensures-pure P (Built r) _ (record {
                metric = refl;
                site_named = site_named.1;
                hall = hall;
                rack = rack;
                device = device;
              })

  -- Where a reading says that its device stands.
  pub data IsPlaced (source : Source) (r : Reading F) : Type 0 where
    by_adapter : source ≡ env → IsPlaced source r
    by_name :
        (d : String) → r.device_id ≡ str d → r.rack_id ≡ str (hall_rack d).1 → IsPlaced source r

  module _ (source : Source) (passes : (s : String) → net.text_field (str s) ≡ some s) where
    read_back : (v : Value) (s t : String) → v ≡ str s → net.text_field v ≡ some t → t ≡ s
    read_back v s t e found = cc (passes s)

    Built-Placed :
        (r : Reading F) (e : TelemetryEvent F)
        → Built r e
        → IsPlaced source r
        → (source ≡ env) ⊎ Placed e.device_id e.rack_id
    Built-Placed r e built (by_adapter is_env) = inl is_env
    Built-Placed r e built (by_name d device rack) = inr (
        subst₂ Placed (sym (read_back _ _ _ device built.device.0))
          (sym (read_back _ _ _ rack built.rack.0)) (hall_rack-Placed d))

    publish_event-IsSent :
        (e : TelemetryEvent F)
        → IsWellFormed source e
        → Keeps (IsSent source) (publish_event net (source_name source) e)
    unfolding publish_event
    publish_event-IsSent e good = record {
      from = λ h k. elim (Bool-cases (net.accepts h)) [
        | inl sent ↦ rw sent (((refl, good), k), tt)
        | inr refused ↦ rw refused (k, tt)
      ];
    }

    pub emit-IsSent :
        (r : Reading F)
        → str_mem r.metric canonical_metrics ≡ true
        → IsPlaced source r
        → Keeps (IsSent source) (emit net (source_name source) r)
    unfolding emit
    emit-IsSent r known placed =
        Ensures-bind (IsSent source) (Built r) Any (telemetry_event net r) _
          (telemetry_event-Built (IsSent source) r)
          λ e built. publish_event-IsSent e (record {
            catalogued = rw built.metric known;
            site_named = built.site_named;
            hall_named = built.hall.1;
            rack_named = built.rack.1;
            device_named = built.device.1;
            placed = Built-Placed r e built placed;
          })
