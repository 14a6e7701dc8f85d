-- ===== src/Normalizers/Redfish.antt =====
-- apps/ingestion/normalizers/redfish.py.
use dcops.Base.{
  String, Bool, true, false, Option, none, some, [], ◌∷◌, str_eq, str_append, if◌then◌else◌,
}
use dcops.Base.Result.{Result, ok, err, type_error}
use dcops.Value.{is_number, Value, Dict, end, str, get_or, to_dict, to_list, is_text, text_mem}
use dcops.Optimizer.Names.{contains}
use dcops.Normalizers.Places.{hall_rack, last_segment}
use dcops.Normalizers.Telemetry.{
  server, Severity, info, warn, critical, Net, get_field, or_value, Poll, pure, lift, ◌>>=◌, ◌>>◌,
  for_items, if_there, get_json, emit, base_url,
}

-- `text in v`, for a text that is not empty.
unfoldable pub text_in : String → Value → Result Bool
unfolding contains to_list
text_in s (Value.str t) = ok (contains s t)
text_in s (Value.seq vs) = elim (to_list (Value.seq vs)) [
  | ok xs ↦ ok (text_mem s xs)
  | err e ↦ err e
]
text_in s (Value.mapping fs) = elim (to_list (Value.mapping fs)) [
  | ok xs ↦ ok (text_mem s xs)
  | err e ↦ err e
]
text_in s _ = err type_error

-- `_severity_from_redfish`
unfoldable pub severity_from_redfish : Value → Result Severity
unfolding to_dict
severity_from_redfish status = elim (to_dict (or_value status (Value.mapping end))) [
  | err e ↦ err e
  | ok d ↦
      let health = get_or "Health" (str "OK") d in
      ok (
        if is_text "Critical" health
        then critical
        else if is_text "Warning" health
        then warn
        else info)
]

-- A branch on a test that may raise.
unfoldable pub if_test : {A : Type 0} → Result Bool → A → Result A → Result A
if_test (err e) x rest = err e
if_test (ok true) x rest = ok x
if_test (ok false) x rest = rest

-- The metric of a temperature sensor, by its name and its context.
unfoldable pub temperature_metric : Value → Value → Result (Option String)
unfolding text_in if_test
temperature_metric name context = if_test (text_in "CPU" name) (some "cpu.temp.celsius") (
    if_test (text_in "Inlet" name) (some "env.inlet.celsius") (
      if is_text "Intake" context
      then ok (some "env.inlet.celsius")
      else if_test (text_in "Outlet" name) (some "env.outlet.celsius")
          (ok (if is_text "Exhaust" context then some "env.outlet.celsius" else none))))

abbrev no_status : Value
no_status = Value.mapping end

module _ {F : Type 0} (net : Net F) where
  -- `os.getenv("REDFISH_BASE_URL") or base_url()`
  abbrev pub redfish_root : Option String
  redfish_root = elim (net.getenv "REDFISH_BASE_URL") [
    | none ↦ base_url net
    | some url ↦ if str_eq url "" then base_url net else some url
  ]

  -- An event of one device.
  abbrev emit_of : String → String → F → String → Severity → Dict → Poll F (Unit {0})
  emit_of device_id metric number unit severity metadata = emit net "redfish" (record {
    hall_id = str (hall_rack device_id).0;
    rack_id = str (hall_rack device_id).1;
    device_id = str device_id;
    device_type = server;
    metric = metric;
    value = number;
    unit = str unit;
    severity = severity;
    metadata = metadata;
  })

  -- The body of the loop over the temperatures.
  unfoldable pub temperature : String → Dict → Poll F (Unit {0})
  temperature device_id t =
      let value = get_field "ReadingCelsius" t in
      let name = get_or "Name" (str "") t in
      if is_number value
      then (do
        metric ← lift (temperature_metric name (get_field "PhysicalContext" t))
        elim metric [
          | none ↦ pure tt
          | some m ↦ (do
            number ← lift (net.float value)
            severity ← lift (severity_from_redfish (get_or "Status" no_status t))
            emit_of device_id m number "celsius" severity
                (("sensor", name) ∷ ("source", str "redfish") ∷ []))
        ])
      else pure tt

  -- The bodies of the loops over the fans, the power controls and the power supplies: a number
  -- under one key is a reading.
  unfoldable pub reading : String → String → String → String → Bool → Dict → Poll F (Unit {0})
  reading device_id key metric unit of_sensor d =
      let value = get_field key d in
      if is_number value
      then (do
        number ← lift (net.float value)
        severity ←
            lift
              (if of_sensor then severity_from_redfish (get_or "Status" no_status d) else ok info)
        emit_of device_id metric number unit severity (
            if of_sensor
            then ("sensor", get_or "Name" (str "") d) ∷ ("source", str "redfish") ∷ []
            else ("source", str "redfish") ∷ []))
      else pure tt

  abbrev chassis : String → String → String → String
  chassis root device_id part =
      str_append root
        (str_append "/redfish/v1/Chassis/" (str_append device_id (str_append "/" part)))

  unfoldable pub thermal : String → String → Poll F (Unit {0})
  thermal root device_id = do
    answer ← get_json net (chassis root device_id "Thermal")
    if_there answer (λ d. do
      for_items "Temperatures" d (temperature device_id)
      for_items "Fans" d (reading device_id "Reading" "fan.rpm" "RPM" true))

  unfoldable pub power : String → String → Poll F (Unit {0})
  power root device_id = do
    answer ← get_json net (chassis root device_id "Power")
    if_there answer (λ d. do
      for_items "PowerControl" d
          (reading device_id "PowerConsumedWatts" "power.draw.watts" "watts" false)
      for_items "PowerSupplies" d
          (reading device_id "EfficiencyPercent" "psu.efficiency.percent" "percent" true))

  -- The body of the loop over the members, by the path of the system.
  abbrev pub of_id : String → Value → Poll F (Unit {0})
  of_id root (Value.str oid) = do thermal root (last_segment oid); power root (last_segment oid)
  of_id root _ = pure tt

  unfoldable pub member : String → Dict → Poll F (Unit {0})
  member root m = of_id root (get_field "@odata.id" m)

  abbrev pub systems : String → Poll F (Unit {0})
  systems root = do
    listing ← get_json net (str_append root "/redfish/v1/Systems")
    if_there listing (λ d. for_items "Members" d (member root))

  -- `poll`
  unfoldable pub poll : Poll F (Unit {0})
  poll = elim redfish_root [
    | none ↦ pure tt
    | some root ↦ if str_eq root "" then pure tt else systems root
  ]
