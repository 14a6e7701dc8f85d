-- ===== src/Normalizers/Published.antt =====
-- Readings of apps/ingestion/normalizers whose texts are all there: each is published as an event.
use Prim.Native.String.{[], ◌∷◌}
use mathlib.Core.List as L
use mathlib.Core.List.{List, ◌++◌}
use text.Mathlib.TextLemmas.{nil-append, cons-append}
use text.Mathlib.Text.{starts_with}
use text.Mathlib.TextEquality.{eq_iff}
use dcops.Base.{
  String, Bool-cases, inl, inr, true, false, ◌&&◌, ◌≡◌, refl, subst, ap, if_both, Option, some,
  none, str_append, str_eq,
}
use dcops.Base.Result.{ok}
use dcops.Value.{Value, Dict, str, lookup}
use dcops.Optimizer.Names.{split}
use dcops.Normalizers.Prometheus.{is_empty}
use dcops.Normalizers.Places.{hall_rack, hall_rack_of_parts}
use dcops.Normalizers.Dcgm.{gpu_id, label_value}
use dcops.Normalizers.Telemetry.{
  TelemetryEvent, DeviceType, Severity, unit_field, Net, History, publish, name_field, site, emit,
  telemetry_event, publish_event, topic, ◌>>=◌,
}
use dcops.Sentinel.Strongest.{}

empty_name : (s : String) → is_empty s ≡ false → str_eq s "" ≡ false
empty_name [] h = cc h
empty_name (c ∷ s) h = elim (Bool-cases (str_eq (c ∷ s) "")) [
  | inl empty ↦ cc (ap is_empty ((eq_iff (c ∷ s) "").0 empty))
  | inr named ↦ named
]

append_name : (s t : String) → is_empty t ≡ false → is_empty (str_append s t) ≡ false
append_name [] t h = rw nil-append h
append_name (c ∷ s) t h = rw cons-append refl

dash_append : (t : String) → is_empty (str_append "-" t) ≡ false
dash_append t = rw cons-append refl

parts_named :
    (ps : List String)
    → (is_empty (hall_rack_of_parts ps).0 ≡ false) × (is_empty (hall_rack_of_parts ps).1 ≡ false)
parts_named (L.◌∷◌ site (L.◌∷◌ hall (L.◌∷◌ rack (L.◌∷◌ p ps)))) =
    if_both (λ (place : String × String). (is_empty place.0 ≡ false) × (is_empty place.1 ≡ false))
      (starts_with hall "h" && starts_with rack "r")
      (λ _. (
        append_name site _ (dash_append hall),
        append_name site _ (dash_append (str_append hall (str_append "-" rack))),
      ))
      (λ _. (refl, refl))
parts_named _ = (refl, refl)

pub hall_rack_named :
    (device_id : String)
    → (is_empty (hall_rack device_id).0 ≡ false) × (is_empty (hall_rack device_id).1 ≡ false)
unfolding hall_rack
hall_rack_named device_id = parts_named (split device_id)

value_named :
    (v : Option Value) (other : Option String) (id : String)
    → (other ≡ some id → is_empty id ≡ false)
    → label_value v other ≡ some id
    → is_empty id ≡ false
value_named (some (str s)) other id rest h = elim (Bool-cases (is_empty s)) [
  | inl empty ↦ rest (rw empty at h)
  | inr named ↦
      let found : some s ≡ some id = rw named at h in
      let same : s ≡ id = cc in subst (λ (i : String). is_empty i ≡ false) same named
]
value_named none other id rest h = rest h
value_named _ other id rest h = rest h

pub gpu_id_named : (labels : Dict) (id : String) → gpu_id labels ≡ some id → is_empty id ≡ false
unfolding gpu_id
gpu_id_named labels id = value_named (lookup "gpu" labels) _ id (
    value_named (lookup "UUID" labels) _ id
      (value_named (lookup "device" labels) none id (λ h. cc h)))

module _ {F : Type 0} (net : Net F) (passes : (s : String) → net.text_field (str s) ≡ some s) where
  name_field_str : (s : String) → is_empty s ≡ false → name_field net (str s) ≡ ok s
  name_field_str s named = rw (passes s, name_field) (rw (empty_name s named) refl)

  unit_field_str : (s : String) → unit_field net (str s) ≡ ok (some s)
  unit_field_str s = rw (passes s, unit_field) refl

  -- The event of a reading all of whose texts are there.
  abbrev pub event_of :
      String
      → String
      → String
      → String
      → DeviceType
      → String
      → F
      → String
      → Severity
      → Dict
      → TelemetryEvent F
  event_of site hall rack device type metric value unit severity metadata = record {
    site_id = site;
    hall_id = hall;
    rack_id = rack;
    device_id = device;
    device_type = type;
    metric = metric;
    value = value;
    unit = some unit;
    severity = severity;
    metadata = metadata;
  }

  pub emit-publish :
      (name hall rack device metric unit : String) (type : DeviceType) (value : F)
      (severity : Severity) (metadata : Dict) (h : History F)
      → is_empty (site net) ≡ false
      → is_empty hall ≡ false
      → is_empty rack ≡ false
      → is_empty device ≡ false
      → net.accepts h ≡ true
      → emit net name
          (record {
            hall_id = str hall;
            rack_id = str rack;
            device_id = str device;
            device_type = type;
            metric = metric;
            value = value;
            unit = str unit;
            severity = severity;
            metadata = metadata;
          })
          h
        ≡ (
          ok tt,
          L.◌∷◌
              (publish
                (topic net name
                  (event_of (site net) hall rack device type metric value unit severity metadata))
                (event_of (site net) hall rack device type metric value unit severity metadata))
              h,
        )
  unfolding emit telemetry_event publish_event ◌>>=◌
  emit-publish name hall rack device metric unit type value severity metadata h s hn rn dn
        accepted =
      simp
        (
          name_field_str (site net) s,
          name_field_str hall hn,
          name_field_str rack rn,
          name_field_str device dn,
          unit_field_str unit,
          accepted,
        )
        refl
