-- ===== src/Normalizers/Snmp.antt =====
-- apps/ingestion/normalizers/snmp.py.
use dcops.Base.{String, Bool, false, none, some, [], ◌∷◌, if◌then◌else◌, ◌==◌}
use dcops.Base.Int.{ℤ, pos, negsuc}
use dcops.Value.{is_number, Value, Dict, end, null, str, get_or, to_dict, to_int, is_text}
use dcops.Normalizers.Places.{hall_rack}
use dcops.Normalizers.Telemetry.{
  DeviceType, switch, pdu, Severity, info, error, Net, get_field, or_value, Poll, pure, lift, ◌>>=◌,
  ◌>>◌, for_items, if_there, get_json, emit, root,
}

-- `int(port_up) == 1`
abbrev is_one : ℤ → Bool
is_one (pos n) = n == 1
is_one (negsuc n) = false

module _ {F : Type 0} (net : Net F) where
  abbrev emit_of : String → DeviceType → String → String → F → Value → Severity → Poll F (Unit {0})
  emit_of device_id type oid metric number unit severity = emit net "snmp" (record {
    hall_id = str (hall_rack device_id).0;
    rack_id = str (hall_rack device_id).1;
    device_id = str device_id;
    device_type = type;
    metric = metric;
    value = number;
    unit = unit;
    severity = severity;
    metadata = ("source", str "snmp") ∷ ("oid", str oid) ∷ [];
  })

  -- A number under an OID, and the metric and unit that it is published with.
  unfoldable pub counter : String → DeviceType → Dict → String → String → String → Poll F (Unit {0})
  counter device_id type oids oid metric unit =
      let value = get_field oid oids in
      if is_number value
      then (do
        number ← lift (net.float value)
        emit_of device_id type oid metric number (str unit) info)
      else pure tt

  -- The state of the port.
  unfoldable pub port : String → Dict → Poll F (Unit {0})
  port device_id oids =
      let value = get_field "ifOperStatus.1" oids in
      if is_number value
      then (do
        n ← lift (to_int value)
        emit_of device_id switch "ifOperStatus.1" "net.port.up"
            (if is_one n then net.one else net.zero) null (if is_one n then info else error))
      else pure tt

  -- The branches on the type of the device.
  unfoldable pub of_type : String → Value → Value → Poll F (Unit {0})
  of_type device_id dtype oids =
      if is_text "switch" dtype
      then (do
        d ← lift (to_dict oids)
        counter device_id switch d "ifInOctets.1" "net.bps.in" "bps"
        counter device_id switch d "ifOutOctets.1" "net.bps.out" "bps"
        counter device_id switch d "ifInErrors.1" "net.err.in" "count"
        port device_id d)
      else if is_text "pdu" dtype
      then (do
        d ← lift (to_dict oids)
        counter device_id pdu d "rPDU2PhaseStatusLoadState.1" "pdu.load.percent" "percent")
      else pure tt

  -- The body of the loop over the devices, by the device's name.
  abbrev pub of_id : Dict → Value → Poll F (Unit {0})
  of_id entry (Value.str device_id) =
      of_type device_id (get_or "device_type" (str "switch") entry)
        (or_value (get_or "oids" (Value.mapping end) entry) (Value.mapping end))
  of_id entry _ = pure tt

  unfoldable pub device : Dict → Poll F (Unit {0})
  device entry = of_id entry (get_field "device_id" entry)

  -- `poll`
  unfoldable pub poll : Poll F (Unit {0})
  poll = elim (root net "SNMP_BASE_URL" "/snmp/walk") [
    | none ↦ pure tt
    | some url ↦ (do
      payload ← get_json net url
      if_there payload (λ d. for_items "devices" d device))
  ]
