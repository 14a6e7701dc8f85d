-- ===== src/Normalizers/Rounds.antt =====
-- The polls of apps/ingestion/normalizers and the rounds of `run_source`: all that they publish is
-- well formed.
use dcops.Base.{
  ℕ, zero, suc, ◌≡◌, refl, Bool, true, Option, some, String, [], All, str_eq, str_mem, if_both,
}
use dcops.Value.{is_number, Value, Dict, str, is_text}
use dcops.Quality.Grounding.{canonical_metrics}
use dcops.Normalizers.Telemetry.{DeviceType, Net, History, get_field, root}
use dcops.Normalizers.Places.{last_segment}
use dcops.Normalizers.Ensures.{
  Keeps-pure, Keeps-then, Keeps-if, Keeps-if_not, Keeps-for_each, Keeps-for_items, Keeps-if_there,
  Keeps-get_json, Keeps-get_text,
}
use dcops.Normalizers.Sources.{Source, redfish, dcgm, ipmi, snmp, env, poll, run_source}
use dcops.Normalizers.Sends.{Sends, Sends-if_some, emit_named, Sends-lift, Sends-known, from_url}
use dcops.Normalizers.WellFormed.{IsSent, by_adapter, emit-IsSent}
use dcops.Normalizers.Catalogue.{
  temperature_metric-Catalogued, facility-Catalogued, ipmi-Catalogued, dcgm-Catalogued,
}
use dcops.Normalizers.Prometheus.{Line, parse_labels}
use dcops.Quality.Words.{strip}
use dcops.Normalizers.Redfish
use dcops.Normalizers.Ipmi
use dcops.Normalizers.Snmp
use dcops.Normalizers.Facility
use dcops.Normalizers.Dcgm

module _ {F : Type 0} (net : Net F) (passes : (s : String) → net.text_field (str s) ≡ some s) where
  temperature-Sends :
      (d : String) (t : Dict) → Sends net passes redfish (Redfish.temperature net d t)
  unfolding Redfish.temperature
  temperature-Sends d t =
      Keeps-if (IsSent redfish) (is_number (get_field "ReadingCelsius" t)) _ λ _.
        Sends-known net passes redfish _ _ (temperature_metric-Catalogued _ _) λ m known.
          Sends-lift net passes redfish _ _ λ number.
            Sends-lift net passes redfish _ _
              λ severity. emit_named net passes redfish _ d known refl refl

  reading-Sends :
      (d key metric unit : String) (of_sensor : Bool) (s : Dict)
      → str_mem metric canonical_metrics ≡ true
      → Sends net passes redfish (Redfish.reading net d key metric unit of_sensor s)
  unfolding Redfish.reading
  reading-Sends d key metric unit of_sensor s known =
      Keeps-if (IsSent redfish) (is_number (get_field key s)) _ λ _.
        Sends-lift net passes redfish _ _ λ number.
          Sends-lift net passes redfish _ _
            λ severity. emit_named net passes redfish _ d known refl refl

  thermal-Sends : (root d : String) → Sends net passes redfish (Redfish.thermal net root d)
  unfolding Redfish.thermal
  thermal-Sends root d =
      Keeps-get_json (IsSent redfish) net (λ url. tt) _ _
        λ answer. Keeps-if_there (IsSent redfish) answer _ λ t.
          Keeps-then (IsSent redfish) _ _
            (Keeps-for_items (IsSent redfish) _ t _ (temperature-Sends d))
            (Keeps-for_items (IsSent redfish) _ t _ λ s. reading-Sends d _ _ _ _ s refl)

  power-Sends : (root d : String) → Sends net passes redfish (Redfish.power net root d)
  unfolding Redfish.power
  power-Sends root d =
      Keeps-get_json (IsSent redfish) net (λ url. tt) _ _
        λ answer. Keeps-if_there (IsSent redfish) answer _ λ t.
          Keeps-then (IsSent redfish) _ _
            (Keeps-for_items (IsSent redfish) _ t _ λ s. reading-Sends d _ _ _ _ s refl)
            (Keeps-for_items (IsSent redfish) _ t _ λ s. reading-Sends d _ _ _ _ s refl)

  member-Sends : (root : String) (m : Dict) → Sends net passes redfish (Redfish.member net root m)
  unfolding Redfish.member
  member-Sends root m = of_id (get_field "@odata.id" m)
    where
      of_id : (v : Value) → Sends net passes redfish (Redfish.of_id net root v)
      of_id (Value.str oid) =
          Keeps-then (IsSent redfish) _ _ (thermal-Sends root (last_segment oid))
            (power-Sends root (last_segment oid))
      of_id _ = Keeps-pure (IsSent redfish)

  redfish-Sends : Sends net passes redfish (Redfish.poll net)
  unfolding Redfish.poll
  redfish-Sends = Sends-if_some net passes redfish (Redfish.redfish_root net) _ λ root e.
      Keeps-if_not (IsSent redfish) (str_eq root "") _ λ _.
        Keeps-get_json (IsSent redfish) net (λ url. tt) _ _
          λ answer.
            Keeps-if_there (IsSent redfish) answer _
              λ d. Keeps-for_items (IsSent redfish) _ d _ (member-Sends root)

  -- A sensor of IPMI and of the facility, at a name that was found.
  sensor-Sends : (d : String) (s : Dict) → Sends net passes ipmi (Ipmi.sensor net d s)
  unfolding Ipmi.sensor
  sensor-Sends d s = Sends-known net passes ipmi _ _ (ipmi-Catalogued _) λ m known.
      Keeps-if (IsSent ipmi) (is_number (get_field "value" s)) _
        λ _. Sends-lift net passes ipmi _ _ λ number. emit_named net passes ipmi _ d known refl refl

  facility_sensor-Sends : (s : Dict) → Sends net passes env (Facility.facility_sensor net s)
  unfolding Facility.facility_sensor
  facility_sensor-Sends s = Sends-known net passes env _ _ (facility-Catalogued _) λ m known.
      Keeps-if (IsSent env) (is_number (get_field "value" s)) _ λ _.
        Sends-lift net passes env _ _ λ number. emit-IsSent net env passes _ known (by_adapter refl)

  ipmi-Sends : Sends net passes ipmi (Ipmi.poll net)
  unfolding Ipmi.poll Ipmi.device
  ipmi-Sends = from_url net passes ipmi _ _ _ device_sends
    where
      of_id : (entry : Dict) (v : Value) → Sends net passes ipmi (Ipmi.of_id net entry v)
      of_id entry (Value.str d) = Keeps-for_items (IsSent ipmi) _ entry _ (sensor-Sends d)
      of_id entry _ = Keeps-pure (IsSent ipmi)

      device_sends : (entry : Dict) → Sends net passes ipmi (Ipmi.device net entry)
      device_sends entry = of_id entry (get_field "device_id" entry)

  facility-Sends : Sends net passes env (Facility.poll net)
  unfolding Facility.poll
  facility-Sends = from_url net passes env _ _ _ facility_sensor-Sends

  counter-Sends :
      (d : String) (type : DeviceType) (oids : Dict) (oid metric unit : String)
      → str_mem metric canonical_metrics ≡ true
      → Sends net passes snmp (Snmp.counter net d type oids oid metric unit)
  unfolding Snmp.counter
  counter-Sends d type oids oid metric unit known =
      Keeps-if (IsSent snmp) (is_number (get_field oid oids)) _
        λ _. Sends-lift net passes snmp _ _ λ number. emit_named net passes snmp _ d known refl refl

  port-Sends : (d : String) (oids : Dict) → Sends net passes snmp (Snmp.port net d oids)
  unfolding Snmp.port
  port-Sends d oids =
      Keeps-if (IsSent snmp) (is_number (get_field "ifOperStatus.1" oids)) _
        λ _. Sends-lift net passes snmp _ _ λ n. emit_named net passes snmp _ d refl refl refl

  of_type-Sends :
      (d : String) (dtype oids : Value) → Sends net passes snmp (Snmp.of_type net d dtype oids)
  unfolding Snmp.of_type
  of_type-Sends d dtype oids =
      if_both (Sends net passes snmp) (is_text "switch" dtype)
        (λ _. Sends-lift net passes snmp _ _ λ o.
          Keeps-then (IsSent snmp) _ _ (counter-Sends d _ o _ _ _ refl) (
            Keeps-then (IsSent snmp) _ _ (counter-Sends d _ o _ _ _ refl)
              (Keeps-then (IsSent snmp) _ _ (counter-Sends d _ o _ _ _ refl) (port-Sends d o))))
        λ _.
          Keeps-if (IsSent snmp) (is_text "pdu" dtype) _
            λ _. Sends-lift net passes snmp _ _ λ o. counter-Sends d _ o _ _ _ refl

  snmp-Sends : Sends net passes snmp (Snmp.poll net)
  unfolding Snmp.poll Snmp.device
  snmp-Sends = from_url net passes snmp _ _ _ device_sends
    where
      of_id : (entry : Dict) (v : Value) → Sends net passes snmp (Snmp.of_id net entry v)
      of_id entry (Value.str d) = of_type-Sends d _ _
      of_id entry _ = Keeps-pure (IsSent snmp)

      device_sends : (entry : Dict) → Sends net passes snmp (Snmp.device net entry)
      device_sends entry = of_id entry (get_field "device_id" entry)

  of_line-Sends : (o : Option Line) → Sends net passes dcgm (Dcgm.of_line net o)
  of_line-Sends o = Sends-if_some net passes dcgm o _ λ line _.
      Sends-if_some net passes dcgm (Dcgm.canonical line.name) _ λ found e.
        Sends-if_some net passes dcgm (Dcgm.gpu_id (parse_labels line.labels)) _
          λ d _. emit_named net passes dcgm _ d (dcgm-Catalogued line.name found e) refl refl

  line-Sends : (line : String) → Sends net passes dcgm (Dcgm.line_body net line)
  unfolding Dcgm.line_body
  line-Sends line = Keeps-if_not (IsSent dcgm) (Dcgm.is_comment (strip line)) _ λ _. of_line-Sends _

  dcgm-Sends : Sends net passes dcgm (Dcgm.poll net)
  unfolding Dcgm.poll
  dcgm-Sends =
      Sends-if_some net passes dcgm (root net "DCGM_EXPORTER_URL" "/metrics/dcgm") _ λ url _.
        Keeps-get_text (IsSent dcgm) net (λ url. tt) url _
          λ body.
            Sends-if_some net passes dcgm body _
              λ text _. Keeps-for_each (IsSent dcgm) _ _ line-Sends

  poll-Sends : (source : Source) → Sends net passes source (poll net source)
  unfolding poll
  poll-Sends redfish = redfish-Sends
  poll-Sends dcgm = dcgm-Sends
  poll-Sends ipmi = ipmi-Sends
  poll-Sends snmp = snmp-Sends
  poll-Sends env = facility-Sends

  rounds_send :
      (rounds : ℕ) (source : Source) (h : History F)
      → All (IsSent source) h
      → All (IsSent source) (run_source net rounds source h)
  unfolding run_source
  rounds_send zero source h k = k
  rounds_send (suc rounds) source h k =
      rounds_send rounds source _ (tt, ((poll-Sends source).from h k).0)

  -- Let Pydantic take a text as it is for a field of type `str`. Whatever the endpoints answer and
  -- whether or not the bus takes a message, every event that a source publishes in any number of
  -- rounds is on the topic of the source and its device's type, and is well formed: its metric is
  -- one of the catalogue, none of the names of its site, hall, rack and device is empty, and its
  -- rack is unknown or its device's name continues the rack's with a dash, unless the source is the
  -- facility's adapter.
  pub run_source-IsSent :
      (rounds : ℕ) (source : Source) → All (IsSent source) (run_source net rounds source [])
  run_source-IsSent rounds source = rounds_send rounds source [] tt
