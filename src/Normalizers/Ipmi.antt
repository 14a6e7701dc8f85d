-- ===== src/Normalizers/Ipmi.antt =====
-- apps/ingestion/normalizers/ipmi.py.
use dcops.Base.{String, Option, none, some, List, [], ◌∷◌, str_mem, if◌then◌else◌}
use dcops.Base.Result.{Result, ok, err}
use dcops.Value.{is_number, Value, Dict, str, get_or}
use dcops.Normalizers.Places.{hall_rack}
use dcops.Normalizers.Telemetry.{
  server, info, Net, hashed, get_field, Poll, pure, lift, ◌>>=◌, for_items, if_there, get_json,
  emit, root,
}

-- `_METRIC_MAP`, whose values are its keys.
abbrev pub metric_map : List String
metric_map = "cpu.temp.celsius" ∷ "fan.rpm" ∷ "power.draw.watts" ∷ "psu.efficiency.percent" ∷ []

-- `_METRIC_MAP.get(v)`
unfoldable pub canonical : Value → Result (Option String)
canonical v = elim (hashed v) [
  | err e ↦ err e
  | ok (Value.str s) ↦ ok (if str_mem s metric_map then some s else none)
  | ok _ ↦ ok none
]

module _ {F : Type 0} (net : Net F) where
  -- The body of the loop over the sensors of a device.
  unfoldable pub sensor : String → Dict → Poll F (Unit {0})
  sensor device_id s =
      let value = get_field "value" s in
      do
        known ← lift (canonical (get_field "metric" s))
        elim known [
          | none ↦ pure tt
          | some metric ↦
              if is_number value
              then (do
                number ← lift (net.float value)
                emit net "ipmi" (record {
                  hall_id = str (hall_rack device_id).0;
                  rack_id = str (hall_rack device_id).1;
                  device_id = str device_id;
                  device_type = server;
                  metric = metric;
                  value = number;
                  unit = get_field "unit" s;
                  severity = info;
                  metadata =
                      ("source", str "ipmi") ∷ ("sensor_name", get_or "name" (str "") s) ∷ [];
                }))
              else pure tt
        ]

  -- The body of the loop over the devices, by the device's name.
  abbrev pub of_id : Dict → Value → Poll F (Unit {0})
  of_id entry (Value.str device_id) = for_items "sensors" entry (sensor device_id)
  of_id entry _ = pure tt

  unfoldable pub device : Dict → Poll F (Unit {0})
  device entry = of_id entry (get_field "device_id" entry)

  -- `poll`
  unfoldable pub poll : Poll F (Unit {0})
  poll = elim (root net "IPMI_BASE_URL" "/ipmi/sensors") [
    | none ↦ pure tt
    | some url ↦ (do
      payload ← get_json net url
      if_there payload (λ d. for_items "devices" d device))
  ]
