-- ===== src/Quality/Grounding.antt =====
-- `validate_metrics` and `format_grounding_errors` of apps/agents/shared/quality/kg_grounding.py,
-- with the catalog of apps/ingestion/schema.py.
use dcops.Base.{String, str_append, Option, none, some, List, [], ◌∷◌, ◌++◌, str_mem, if◌then◌else◌}

-- The values of `CanonicalMetric`.
abbrev pub canonical_metrics : List String
canonical_metrics =
    "cpu.temp.celsius" ∷ "cpu.util.percent" ∷ "mem.used.bytes" ∷ "mem.ecc.correctable"
    ∷ "mem.ecc.uncorrectable" ∷ "gpu.temp.celsius" ∷ "gpu.util.percent" ∷ "gpu.mem.used.bytes"
    ∷ "gpu.power.watts" ∷ "gpu.ecc.correctable" ∷ "gpu.ecc.uncorrectable" ∷ "gpu.xid.code"
    ∷ "power.draw.watts" ∷ "psu.efficiency.percent" ∷ "pdu.load.percent" ∷ "fan.rpm"
    ∷ "env.inlet.celsius" ∷ "env.outlet.celsius" ∷ "env.humidity.percent" ∷ "crac.supply.celsius"
    ∷ "crac.return.celsius" ∷ "crac.fan.percent" ∷ "disk.reallocated.sectors"
    ∷ "disk.pending.sectors" ∷ "disk.temp.celsius" ∷ "net.bps.in" ∷ "net.bps.out" ∷ "net.err.in"
    ∷ "net.port.up" ∷ []

-- The names that are not in the catalog.
unfoldable pub validate_metrics : List String → List String
validate_metrics [] = []
validate_metrics (m ∷ ms) =
    let rest = validate_metrics ms in if str_mem m canonical_metrics then rest else m ∷ rest

-- `sep.join(parts)`
unfoldable pub join : String → List String → String
join sep [] = ""
join sep (p ∷ ps) = elim ps [ [] ↦ p | _ ∷ _ ↦ str_append p (str_append sep (join sep ps)) ]

-- One line of the hint, for identifiers that are given and not empty.
unfoldable pub bit : String → Option (List String) → List String
unfolding join
bit intro none = []
bit intro (some []) = []
bit intro (some (u ∷ us)) = str_append intro (join ", " (u ∷ us)) ∷ []

bullets : List String → List String
bullets [] = []
bullets (b ∷ bs) = str_append "- " b ∷ bullets bs

abbrev hint_of : List String → Option String
hint_of [] = none
hint_of (b ∷ bs) = some (
    str_append "Your response references identifiers that do not exist:\n" (
      str_append (join "\n" (bullets (b ∷ bs)))
        "\nFix the response using only identifiers from the provided context."))

unfoldable pub format_grounding_errors :
    Option (List String) → Option (List String) → Option (List String) → Option String
unfolding bit join bullets
format_grounding_errors unknown_metrics unknown_devices unknown_sites = hint_of (
    bit "Unknown metric names (not in the canonical catalog): " unknown_metrics
    ++ bit "Unknown device IDs (not present in the knowledge graph): " unknown_devices
    ++ bit "Unknown site IDs: " unknown_sites)
