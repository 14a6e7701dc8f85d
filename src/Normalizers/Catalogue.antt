-- ===== src/Normalizers/Catalogue.antt =====
-- The metrics that the sources of apps/ingestion/normalizers find are of the catalogue.
use dcops.Base.{
  ◌≡◌, refl, subst, all, ◌&&◌, Bool, true, false, Option, none, some, String, List, [], ◌∷◌,
  str_mem, if_both, if◌then◌else◌, Bool-cases, inl, inr, arith, str_eq, eq_iff,
}
use dcops.Base.Result.{Result, ok, err}
use dcops.Value.{Value, is_text, str, null}
use dcops.Quality.Grounding.{canonical_metrics}
use dcops.Normalizers.Ensures.{Holds}
use dcops.Normalizers.Redfish
use dcops.Normalizers.Ipmi
use dcops.Normalizers.Facility
use dcops.Normalizers.Dcgm

-- A name that was found is one of the catalogue.
abbrev pub Catalogued : Option String → Type 0
Catalogued none = Unit
Catalogued (some m) = str_mem m canonical_metrics ≡ true

if_test-Catalogued :
    (r : Result Bool) (m : String) (rest : Result (Option String))
    → str_mem m canonical_metrics ≡ true
    → Holds Catalogued rest
    → Holds Catalogued (Redfish.if_test r (some m) rest)
unfolding Redfish.if_test
if_test-Catalogued (err e) m rest known others = tt
if_test-Catalogued (ok true) m rest known others = known
if_test-Catalogued (ok false) m rest known others = others

-- The metric that only the sensor's context shows.
context-Catalogued :
    (b : Bool) (m : String)
    → str_mem m canonical_metrics ≡ true
    → Holds Catalogued (ok (if b then some m else none))
context-Catalogued true m known = known
context-Catalogued false m known = tt

pub temperature_metric-Catalogued :
    (name context : Value) → Holds Catalogued (Redfish.temperature_metric name context)
unfolding Redfish.temperature_metric
temperature_metric-Catalogued name context =
    let outlet =
      if_test-Catalogued (Redfish.text_in "Outlet" name) "env.outlet.celsius"
        (ok (if is_text "Exhaust" context then some "env.outlet.celsius" else none)) refl
        (context-Catalogued (is_text "Exhaust" context) "env.outlet.celsius" refl) in
    let inlet =
      if_both (Holds Catalogued) (is_text "Intake" context) {x = ok (some "env.inlet.celsius")}
        (λ _. refl) (λ _. outlet) in
    if_test-Catalogued (Redfish.text_in "CPU" name) "cpu.temp.celsius" _ refl
      (if_test-Catalogued (Redfish.text_in "Inlet" name) "env.inlet.celsius" _ refl inlet)

pub facility-Catalogued : (v : Value) → Holds Catalogued (Facility.canonical v)
unfolding Facility.canonical
facility-Catalogued (str s) = elim (Bool-cases (str_mem s canonical_metrics)) [
  | inl known ↦ rw known known
  | inr other ↦ rw other tt
]
facility-Catalogued null = tt
facility-Catalogued _ = tt

and_left : (a b : Bool) → (a && b) ≡ true → a ≡ true
and_left a b h = ground arith

and_right : (a b : Bool) → (a && b) ≡ true → b ≡ true
and_right a b h = ground arith

str_mem-all :
    (s : String) (xs ys : List String)
    → all (λ x. str_mem x ys) xs ≡ true
    → str_mem s xs ≡ true
    → str_mem s ys ≡ true
str_mem-all s [] ys within h = cc
str_mem-all s (x ∷ xs) ys within h = elim (Bool-cases (str_eq s x)) [
  | inl same ↦ rw ((eq_iff s x).0 same) (and_left (str_mem x ys) _ within)
  | inr other ↦ str_mem-all s xs ys (and_right (str_mem x ys) _ within) (ground (arith, h, other))
]

pub ipmi-Catalogued : (v : Value) → Holds Catalogued (Ipmi.canonical v)
unfolding Ipmi.canonical
ipmi-Catalogued (str s) = elim (Bool-cases (str_mem s Ipmi.metric_map)) [
  | inl known ↦ rw known (str_mem-all s Ipmi.metric_map canonical_metrics refl known)
  | inr other ↦ rw other tt
]
ipmi-Catalogued null = tt
ipmi-Catalogued _ = tt

-- The metric of a pair with its unit.
abbrev Known : Option (String × String) → Type 0
Known none = Unit
Known (some found) = str_mem found.0 canonical_metrics ≡ true

canonical-Known : (name : String) → Known (Dcgm.canonical name)
unfolding Dcgm.canonical
canonical-Known name =
    if_both Known (str_eq name "DCGM_FI_DEV_GPU_TEMP") (λ _. refl)
      λ _.
        if_both Known (str_eq name "DCGM_FI_DEV_POWER_USAGE") (λ _. refl)
          λ _.
            if_both Known (str_eq name "DCGM_FI_DEV_GPU_UTIL") (λ _. refl)
              λ _.
                if_both Known (str_eq name "DCGM_FI_DEV_FB_USED") (λ _. refl)
                  λ _. if_both Known (str_eq name "DCGM_FI_DEV_XID_ERRORS") (λ _. refl) (λ _. tt)

pub dcgm-Catalogued :
    (name : String) (found : String × String)
    → Dcgm.canonical name ≡ some found
    → str_mem found.0 canonical_metrics ≡ true
dcgm-Catalogued name found e = subst Known e (canonical-Known name)
