-- ===== src/Normalizers/Tests.antt =====
-- Polls at concrete answers, and the theorems at these inputs. Floats are whole numbers, in
-- hundredths for the Sentinel.
use Prim.Native.String.{String}
use dcops.Base.{
  ℕ, ◌-◌, ◌*◌, ◌/◌, ◌^◌, ◌≤◌, ◌≡◌, refl, true, Option, none, some, List, [], ◌∷◌, ◌++◌, All, ltb,
  leb, str_eq, codes, if◌then◌else◌, arith,
}
use dcops.Base.Int.{pos}
use dcops.Base.Result.{ok, err, overflow_error}
use dcops.Value.{
  Value, Dict, nil, cons, end, field, int, str, seq, mapping, int_of_text, to_list, to_dict,
}
use dcops.Sentinel.Values.{Floats}
use dcops.Sentinel.Decision.{Decision, Setting, decide}
use dcops.Optimizer.Names.{rack_for}
use dcops.Optimizer.Naming.{IsRackName}
use dcops.Quality.Words.{strip}
use dcops.Normalizers.Telemetry.{
  TelemetryEvent, server, gpu, info, critical, get, publish, sleep, Net, ◌>>=◌, for_each, for_items,
  if_there, get_json, telemetry_event, publish_event, emit,
}
use dcops.Normalizers.Places.{hall_rack, unknown}
use dcops.Normalizers.Placed.{hall_rack-rack_for}
use dcops.Normalizers.Prometheus.{match_line, parse_labels}
use dcops.Normalizers.Exposition.{IsNumeral, IsLabel, insert_all}
use dcops.Normalizers.Samples.{line_body-print_sample}
use dcops.Normalizers.Dcgm
use dcops.Normalizers.Ipmi
use dcops.Normalizers.Sources.{ipmi, poll, run_source}
use dcops.Normalizers.WellFormed.{IsSent}
use dcops.Normalizers.Rounds.{run_source-IsSent}
use dcops.Normalizers.Xid.{IsDump, line_body-decide}

abbrev variables : String → Option String
variables name =
    if str_eq name "SITE_ID"
    then some "pune"
    else if str_eq name "MOCKS_BASE_URL"
    then some "http://m"
    else none

-- One device of IPMI with a known and an unknown sensor, and a second entry that is no mapping.
abbrev sensors : Value
sensors = seq (
    cons
      (mapping (
        field "metric" (str "fan.rpm")
          (field "value" (int (pos 900)) (field "unit" (str "RPM") end))))
      (cons (mapping (field "metric" (str "noise") (field "value" (int (pos 1)) end))) nil))

abbrev devices : Value
devices = mapping (
    field "devices"
      (seq (
        cons (mapping (field "device_id" (str "pune-h1-r02-srv1") (field "sensors" sensors end)))
          (cons (int (pos 5)) nil)))
      end)

abbrev exposition : String
exposition = "# HELP\nDCGM_FI_DEV_XID_ERRORS{gpu=\"pune-h1-r02-gpu0\"} 79\nother 1"

abbrev numeral : String → ℕ
numeral s = elim (int_of_text (codes s)) [ some (pos n) ↦ n | _ ↦ 0 ]

abbrev net : Net ℕ
net = record {
  getenv = variables;
  get_json = λ h url. devices;
  get_text = λ h url. some exposition;
  accepts = λ h. true;
  text_field = λ v. elim v [ str s ↦ some s | _ ↦ none ];
  float = λ v. elim v [ int (pos n) ↦ ok n | _ ↦ err overflow_error ];
  float_of_text = numeral;
  zero = 0;
  one = 1;
  positive = λ n. ltb 0 n;
}

abbrev fan : TelemetryEvent ℕ
fan = record {
  site_id = "pune";
  hall_id = "pune-h1";
  rack_id = "pune-h1-r02";
  device_id = "pune-h1-r02-srv1";
  device_type = server;
  metric = "fan.rpm";
  value = 900;
  unit = some "RPM";
  severity = info;
  metadata = ("source", str "ipmi") ∷ ("sensor_name", str "") ∷ [];
}

-- The unknown sensor is skipped, and the entry that is no mapping ends the round.
ipmi_round :
    run_source net 1 ipmi []
    ≡ sleep ∷ publish "telemetry.ipmi.server" fan ∷ get "http://m/ipmi/sensors" ∷ []
unfolding run_source poll Ipmi.poll Ipmi.device Ipmi.sensor Ipmi.canonical ◌>>=◌ for_items for_each
    if_there get_json emit telemetry_event publish_event hall_rack to_list to_dict
ipmi_round = refl

xid_line :
    (Dcgm.line_body net "  DCGM_FI_DEV_XID_ERRORS{gpu=\"pune-h1-r02-gpu0\",host=\"a b\"} 79 " []).1
    ≡ publish "telemetry.dcgm.gpu" (record {
      site_id = "pune";
      hall_id = "pune-h1";
      rack_id = "pune-h1-r02";
      device_id = "pune-h1-r02-gpu0";
      device_type = gpu;
      metric = "gpu.xid.code";
      value = 79;
      unit = some "count";
      severity = critical;
      metadata =
          ("source", str "dcgm")
          ∷ ("exporter_metric", str "DCGM_FI_DEV_XID_ERRORS")
          ∷ ("gpu", str "pune-h1-r02-gpu0")
          ∷ ("host", str "a b")
          ∷ [];
    })
      ∷ []
unfolding Dcgm.line_body Dcgm.canonical Dcgm.gpu_id Dcgm.merge strip match_line parse_labels ◌>>=◌
    emit telemetry_event publish_event hall_rack int_of_text
xid_line = refl

passes : (s : String) → net.text_field (str s) ≡ some s
passes s = refl

run_source-IsSent_example : All (IsSent ipmi) (run_source net 2 ipmi [])
run_source-IsSent_example = run_source-IsSent net passes 2 ipmi

abbrev pune : IsRackName "pune" "h1" "r02"
pune = record {
  site_dashless = refl;
  hall_dashless = refl;
  rack_dashless = refl;
  hall_h = refl;
  rack_r = refl;
}

hall_rack-rack_for_example :
    (hall_rack "pune-h1-r02-srv1" ≡ ("pune-h1", "pune-h1-r02"))
    × (rack_for "pune-h1-r02-srv1" ≡ some "pune-h1-r02")
    × (hall_rack "pune-h1-r02" ≡ unknown)
    × (rack_for "pune-h1-r02" ≡ some "pune-h1-r02")
hall_rack-rack_for_example = hall_rack-rack_for "pune" "h1" "r02" "srv1" pune

abbrev labels : List (String × String)
labels = ("gpu", "pune-h1-r02-gpu0") ∷ ("host", "a b") ∷ []

abbrev labels_good : All IsLabel labels
labels_good = (
  record { key_begins = refl; key_chars = refl; value_plain = refl; value_inside = refl },
  (record { key_begins = refl; key_chars = refl; value_plain = refl; value_inside = refl }, tt),
)

abbrev seventy_nine : IsNumeral "79"
seventy_nine = record { digits = refl; some_digit = refl }

names_gpu : Dcgm.gpu_id (insert_all [] labels) ≡ some "pune-h1-r02-gpu0"
unfolding Dcgm.gpu_id
names_gpu = refl

known : Dcgm.canonical "DCGM_FI_DEV_XID_ERRORS" ≡ some ("gpu.xid.code", "count")
unfolding Dcgm.canonical
known = refl

line_body-print_sample_example :
    Dcgm.line_body net "DCGM_FI_DEV_XID_ERRORS{gpu=\"pune-h1-r02-gpu0\",host=\"a b\"} 79" []
    ≡ Dcgm.sample net "pune-h1-r02-gpu0" "gpu.xid.code" "count"
        (record {
          name = "DCGM_FI_DEV_XID_ERRORS";
          labels = some "gpu=\"pune-h1-r02-gpu0\",host=\"a b\"";
          value = "79";
        })
        (insert_all [] labels)
        []
line_body-print_sample_example =
    line_body-print_sample net "DCGM_FI_DEV_XID_ERRORS" "79" "gpu.xid.code" "count"
      "pune-h1-r02-gpu0" labels [] (record { begins = refl; name_chars = refl }) seventy_nine
      labels_good known names_gpu

abbrev floats : Floats ℕ
floats = record {
  number = λ v. elim v [ int (pos n) ↦ some n | _ ↦ none ];
  truncate = λ x. ok (pos x);
  decimal = λ n k. n * 100 / 10 ^ k;
  less = ltb;
  at_most = leb;
  total = λ xs. 0;
  minus = λ a b. a - b;
  over = λ a b. a / b;
  of_count = λ n. n * 100;
  to_value = λ x. int (pos x);
}

abbrev setting : Setting ℕ
setting = record {
  floats = floats;
  rank = λ x. x;
  threshold = 60;
  dedupe_window = 300;
  model = none;
  site_id = "pune";
  is_valid = λ p. true;
  parse = λ v. none;
  max_age = 1000;
}

abbrev dump : TelemetryEvent ℕ → Dict
dump e =
    ("device_id", str e.device_id) ∷ ("metric", str e.metric) ∷ ("value", int (pos e.value)) ∷ []

abbrev dumped : IsDump setting dump
dumped = record { metric = λ e. refl; value = λ e. refl }

named_79 : setting.floats.truncate (net.float_of_text "79") ≡ ok (pos 79)
unfolding int_of_text
named_79 = refl

line_body-decide_example :
    (e : TelemetryEvent ℕ) × (Dcgm.line_body net
        "DCGM_FI_DEV_XID_ERRORS{gpu=\"pune-h1-r02-gpu0\",host=\"a b\"} 79" []
      ≡ (ok tt, publish "telemetry.dcgm.gpu" e ∷ []))
    × (e.device_id ≡ "pune-h1-r02-gpu0")
    × ((events : List Dict)
        → (d : Decision ℕ) × (decide setting (events ++ dump e ∷ []) ≡ ok (some d))
          × (98 ≤ d.probability))
line_body-decide_example =
    line_body-decide net setting dump "79" "pune-h1-r02-gpu0" labels (pos 79) [] passes dumped
      seventy_nine labels_good names_gpu refl refl named_79 refl (omega arith) (omega arith)
