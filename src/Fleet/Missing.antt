-- ===== src/Fleet/Missing.antt =====
-- The missing agents of apps/control_plane/fleet_view.py, as a test on names.
use dcops.Base.{
  String, true, false, not, ◌&&◌, ◌||◌, ◌≡◌, refl, sym, ◌∙◌, subst, inl, inr, Bool-cases, List, [],
  ◌∷◌, str_eq, str_mem, eq_iff, arith,
}
use dcops.Fleet.View.{insert_name, missing}

str_mem-insert_name :
    (a s : String) (ts : List String) → str_mem a (insert_name s ts) ≡ (str_eq a s || str_mem a ts)
unfolding insert_name
str_mem-insert_name a s [] = refl
str_mem-insert_name a s (t ∷ ts) = elim (Bool-cases (str_eq s t)) [
  | inl same ↦ rw (same, (eq_iff s t).0 same) (ground arith)
  | inr other ↦ rw other (ground (arith, str_mem-insert_name a s ts))
]

-- `set(expected) - live`, as a test.
pub str_mem-missing :
    (a : String) (expected live : List String)
    → str_mem a (missing expected live) ≡ (str_mem a expected && not (str_mem a live))
unfolding missing
str_mem-missing a [] live = refl
str_mem-missing a (e ∷ expected) live = elim (Bool-cases (str_mem e live)) [
  | inl has ↦ elim (Bool-cases (str_eq a e)) [
    | inl same ↦
        let there : str_mem a live ≡ true =
          subst (λ (n : String). str_mem n live ≡ true) (sym ((eq_iff a e).0 same)) has in
        rw has (ground (arith, str_mem-missing a expected live, there))
    | inr other ↦ rw has (ground (arith, str_mem-missing a expected live, other))
  ]
  | inr gone ↦ rw gone (
      str_mem-insert_name a e (missing expected live) ∙ elim (Bool-cases (str_eq a e)) [
        | inl same ↦
            let absent : str_mem a live ≡ false =
              subst (λ (n : String). str_mem n live ≡ false) (sym ((eq_iff a e).0 same)) gone in
            ground (arith, same, absent)
        | inr other ↦ ground (arith, other, str_mem-missing a expected live)
      ])
]
