-- ===== src/Normalizers/Dcgm.antt =====
-- apps/ingestion/normalizers/dcgm.py.
use Prim.Native.Char.{code}
use dcops.Base.{String, Bool, true, ◌&&◌, Option, none, some, [], ◌∷◌, str_eq, ◌==◌, if◌then◌else◌}
use dcops.Value.{Value, Dict, str, lookup, insert}
use dcops.Quality.Words.{strip}
use dcops.Normalizers.Places.{hall_rack}
use dcops.Normalizers.Prometheus.{Line, is_empty, split_lines, match_line, parse_labels}
use dcops.Normalizers.Telemetry.{
  gpu, info, critical, Net, Poll, pure, ◌>>=◌, for_each, get_text, emit, root,
}

-- `_METRIC_MAP.get(name)`, with `_UNIT_MAP.get(canonical)`.
unfoldable pub canonical : String → Option (String × String)
canonical name =
    if str_eq name "DCGM_FI_DEV_GPU_TEMP"
    then some ("gpu.temp.celsius", "celsius")
    else if str_eq name "DCGM_FI_DEV_POWER_USAGE"
    then some ("gpu.power.watts", "watts")
    else if str_eq name "DCGM_FI_DEV_GPU_UTIL"
    then some ("gpu.util.percent", "percent")
    else if str_eq name "DCGM_FI_DEV_FB_USED"
    then some ("gpu.mem.used.bytes", "MiB")
    else if str_eq name "DCGM_FI_DEV_XID_ERRORS"
    then some ("gpu.xid.code", "count")
    else none

-- `labels.get(k) or other`
abbrev pub label_value : Option Value → Option String → Option String
label_value (some (Value.str s)) other = if is_empty s then other else some s
label_value _ other = other

abbrev label_or : String → Dict → Option String → Option String
label_or k labels other = label_value (lookup k labels) other

-- `labels.get("gpu") or labels.get("UUID") or labels.get("device")`, where it is true.
unfoldable pub gpu_id : Dict → Option String
gpu_id labels = label_or "gpu" labels (label_or "UUID" labels (label_or "device" labels none))

-- `{**d, **e}`
unfoldable pub merge : Dict → Dict → Dict
merge d [] = d
merge d ((k, v) ∷ e) = merge (insert k v d) e

-- `not line or line.startswith("#")`
abbrev pub is_comment : String → Bool
is_comment String.[] = true
is_comment (String.◌∷◌ c s) = code c == b'#'

module _ {F : Type 0} (net : Net F) where
  -- A sample of a device.
  abbrev pub sample : String → String → String → Line → Dict → Poll F (Unit {0})
  sample id metric unit line labels =
      let value = net.float_of_text line.value in
      emit net "dcgm" (record {
        hall_id = str (hall_rack id).0;
        rack_id = str (hall_rack id).1;
        device_id = str id;
        device_type = gpu;
        metric = metric;
        value = value;
        unit = str unit;
        severity = if str_eq metric "gpu.xid.code" && net.positive value then critical else info;
        metadata = merge (("source", str "dcgm") ∷ ("exporter_metric", str line.name) ∷ []) labels;
      })

  -- A line that the pattern matches, if it names a known metric and a device: from the labels on,
  -- from the metric on, and whole.
  abbrev pub of_labels : Line → String × String → Dict → Poll F (Unit {0})
  of_labels line found labels = elim (gpu_id labels) [
    | none ↦ pure tt
    | some id ↦ sample id found.0 found.1 line labels
  ]

  abbrev pub of_metric : Line → Option (String × String) → Poll F (Unit {0})
  of_metric line o = elim o [
    | none ↦ pure tt
    | some found ↦ of_labels line found (parse_labels line.labels)
  ]

  abbrev pub of_line : Option Line → Poll F (Unit {0})
  of_line o = elim o [ none ↦ pure tt | some line ↦ of_metric line (canonical line.name) ]

  -- The body of the loop over the lines.
  unfoldable pub line_body : String → Poll F (Unit {0})
  line_body raw =
      let line = strip raw in if is_comment line then pure tt else of_line (match_line line)

  -- `poll`
  unfoldable pub poll : Poll F (Unit {0})
  poll = elim (root net "DCGM_EXPORTER_URL" "/metrics/dcgm") [
    | none ↦ pure tt
    | some url ↦ (do
      body ← get_text net url
      elim body [ none ↦ pure tt | some text ↦ for_each (split_lines text) line_body ])
  ]
