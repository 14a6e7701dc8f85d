-- ===== src/Normalizers/Xid.antt =====
-- From a line of the exporter to a predicted failure: apps/ingestion/normalizers/dcgm.py and
-- apps/agents/sentinel together.
use mathlib.Core.List as L
use mathlib.Core.List.{List, ◌++◌}
use dcops.Base.{ℕ, ◌≤◌, ◌<◌, String, true, false, ◌≡◌, refl, ◌∙◌, some, arith, All, if◌then◌else◌}
use dcops.Base.Int.{ℤ}
use dcops.Base.Result.{ok}
use dcops.Value.{Dict, str, lookup}
use dcops.Normalizers.Prometheus.{Line, is_empty}
use dcops.Normalizers.Exposition.{IsNumeral, IsLabel, print_sample, print_labels, insert_all}
use dcops.Normalizers.Samples.{line_body-print_sample}
use dcops.Normalizers.Published.{hall_rack_named, gpu_id_named, event_of, emit-publish}
use dcops.Normalizers.Places.{hall_rack}
use dcops.Normalizers.Dcgm.{canonical, gpu_id, merge, line_body}
use dcops.Normalizers.Telemetry.{
  TelemetryEvent, Severity, gpu, critical, info, Net, History, publish, site,
}
use dcops.Sentinel.Values.{for_metric, is_metric, last_of, last_value, number_in}
use dcops.Sentinel.Rules.{is_fatal}
use dcops.Sentinel.Decision.{Decision, Setting, decide}
use dcops.Sentinel.Strongest.{decide-fatal}

module _ {A : Type 0} where
  last_of-snoc : (xs : List A) (x : A) → last_of (xs ++ (L.◌∷◌ x L.[])) ≡ some x
  last_of-snoc L.[] x = refl
  last_of-snoc (L.◌∷◌ y L.[]) x = refl
  last_of-snoc (L.◌∷◌ y (L.◌∷◌ z xs)) x = last_of-snoc (L.◌∷◌ z xs) x

for_metric-snoc :
    (metric : String) (rows : List Dict) (r : Dict)
    → is_metric metric (lookup "metric" r) ≡ true
    → for_metric metric (rows ++ (L.◌∷◌ r L.[])) ≡ for_metric metric rows ++ (L.◌∷◌ r L.[])
unfolding for_metric
for_metric-snoc metric L.[] r h = rw h refl
for_metric-snoc metric (L.◌∷◌ x rows) r h = ground (arith, for_metric-snoc metric rows r h)

-- A row that comes last is the one that `_last_value` reads.
last_value-snoc :
    {F : Type 0} (set : Setting F) (metric : String) (rows : List Dict) (r : Dict) (x : F)
    → is_metric metric (lookup "metric" r) ≡ true
    → number_in set.floats (lookup "value" r) ≡ some x
    → last_value set.floats (rows ++ (L.◌∷◌ r L.[])) metric ≡ some x
unfolding last_value
last_value-snoc set metric rows r x h k =
    rw (for_metric-snoc metric rows r h) (rw (last_of-snoc (for_metric metric rows) r) k)

-- How the JSON of an event reads: its metric, and its value as a number.
pub record IsDump {F : Type 0} (set : Setting F) (dump : TelemetryEvent F → Dict) : Type 0 where
  pub metric : (e : TelemetryEvent F) → lookup "metric" (dump e) ≡ some (str e.metric)
  pub value : (e : TelemetryEvent F) → number_in set.floats (lookup "value" (dump e)) ≡ some e.value

module _ {F : Type 0} (net : Net F) (set : Setting F) (dump : TelemetryEvent F → Dict) where
  abbrev at : F → ℕ
  at p = set.rank p

  -- Let the exporter write a sample of XID errors: labels of which each can be written and that
  -- name a device, and a whole number, which is a fatal code. Let the bus take messages, the site
  -- have a name, Pydantic take a text as it is, and an event's JSON hold its metric and its value.
  -- Then the line is published, as one event of that device; and wherever this is the last event of
  -- a device, after any others, the Sentinel decides on a failure with a probability of at least
  -- 0.98, if 0 is below the threshold and this at most 0.98.
  pub line_body-decide :
      (value id : String) (ls : List (String × String)) (xid : ℤ) (h : History F)
      → ((s : String) → net.text_field (str s) ≡ some s)
      → IsDump set dump
      → IsNumeral value
      → All IsLabel ls
      → gpu_id (insert_all L.[] ls) ≡ some id
      → is_empty (site net) ≡ false
      → net.accepts h ≡ true
      → set.floats.truncate (net.float_of_text value) ≡ ok xid
      → is_fatal xid ≡ true
      → at (set.floats.decimal 0 0) < at set.threshold
      → at set.threshold ≤ at (set.floats.decimal 98 2)
      → (e : TelemetryEvent F) × (line_body net
            (print_sample "DCGM_FI_DEV_XID_ERRORS" (print_labels ls) value)
            h
          ≡ (ok tt, L.◌∷◌ (publish "telemetry.dcgm.gpu" e) h))
        × (e.device_id ≡ id)
        × ((events : List Dict)
            → (d : Decision F) × (decide set (events ++ (L.◌∷◌ (dump e) L.[])) ≡ ok (some d))
              × (at (set.floats.decimal 98 2) ≤ at d.probability))
  unfolding canonical
  line_body-decide value id ls xid h passes dumped n good of_gpu named accepted cut fatal low high =
      let (hall_named, rack_named) = hall_rack_named id in
      let line : Line = record {
        name = "DCGM_FI_DEV_XID_ERRORS";
        labels = some (print_labels ls);
        value = value;
      } in
      let x = net.float_of_text value in
      let severity : Severity = if net.positive x then critical else info in
      let metadata =
        merge (L.◌∷◌ ("source", str "dcgm") (L.◌∷◌ ("exporter_metric", str line.name) L.[]))
          (insert_all L.[] ls) in
      let e =
        event_of net passes (site net) (hall_rack id).0 (hall_rack id).1 id gpu "gpu.xid.code" x
          "count" severity metadata in
      (
        e,
        line_body-print_sample net line.name value "gpu.xid.code" "count" id ls h
              (record { begins = refl; name_chars = refl }) n good refl of_gpu
            ∙ emit-publish net passes "dcgm" (hall_rack id).0 (hall_rack id).1 id "gpu.xid.code"
                "count" gpu x severity metadata h named hall_named rack_named
                (gpu_id_named _ id of_gpu) accepted,
        refl,
        λ events.
            decide-fatal set (events ++ (L.◌∷◌ (dump e) L.[])) x xid
              (last_value-snoc set "gpu.xid.code" events (dump e) x (rw (dumped.metric e) refl)
                (dumped.value e))
              cut fatal low high,
      )
