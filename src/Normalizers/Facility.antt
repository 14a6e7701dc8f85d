-- ===== src/Normalizers/Facility.antt =====
-- apps/ingestion/normalizers/env.py.
use dcops.Base.{String, Option, none, some, [], ◌∷◌, str_mem, str_eq, if◌then◌else◌}
use dcops.Base.Result.{Result, ok, err}
use dcops.Value.{is_number, Value, Dict, str, get_or}
use dcops.Quality.Grounding.{canonical_metrics}
use dcops.Normalizers.Telemetry.{
  DeviceType, server, gpu, switch, pdu, crac, sensor, info, Net, hashed, get_field, or_value, Poll,
  pure, lift, ◌>>=◌, for_items, if_there, get_json, emit, root,
}

-- `metric_name in canonical_values`, with the name.
unfoldable pub canonical : Value → Result (Option String)
canonical v = elim (hashed v) [
  | err e ↦ err e
  | ok (Value.str s) ↦ ok (if str_mem s canonical_metrics then some s else none)
  | ok _ ↦ ok none
]

-- `DeviceType(raw)`, with `SENSOR` after its `ValueError`.
abbrev type_of : Value → DeviceType
type_of (Value.str s) =
    if str_eq s "server"
    then server
    else if str_eq s "gpu"
    then gpu
    else if str_eq s "switch"
    then switch
    else if str_eq s "pdu"
    then pdu
    else if str_eq s "crac"
    then crac
    else sensor
type_of _ = sensor

module _ {F : Type 0} (net : Net F) where
  -- The body of the loop over the sensors.
  unfoldable pub facility_sensor : Dict → Poll F (Unit {0})
  facility_sensor s =
      let value = get_field "value" s in
      do
        known ← lift (canonical (get_field "metric" s))
        elim known [
          | none ↦ pure tt
          | some metric ↦
              if is_number value
              then (do
                number ← lift (net.float value)
                emit net "env" (record {
                  hall_id = or_value (get_field "hall_id" s) (str "unknown");
                  rack_id = or_value (get_field "rack_id" s) (str "unknown");
                  device_id =
                      or_value (get_field "device_id" s)
                        (or_value (get_field "location" s) (str "env-unknown"));
                  device_type = type_of (get_or "device_type" (str "sensor") s);
                  metric = metric;
                  value = number;
                  unit = get_field "unit" s;
                  severity = info;
                  metadata = ("source", str "env") ∷ [];
                }))
              else pure tt
        ]

  -- `poll`
  unfoldable pub poll : Poll F (Unit {0})
  poll = elim (root net "ENV_BASE_URL" "/env/sensors") [
    | none ↦ pure tt
    | some url ↦ (do
      payload ← get_json net url
      if_there payload (λ d. for_items "sensors" d facility_sensor))
  ]
