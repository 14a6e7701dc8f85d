-- ===== src/Normalizers/Placed.antt =====
-- Where `_hall_rack` of apps/ingestion/normalizers puts a device, and what `_rack_for` of
-- apps/agents/optimizer/main.py makes of the same name.
use Prim.Native.Char.{Char, code}
use Prim.Native.String.{[], ◌∷◌}
use mathlib.Core.List.{List}
use text.Mathlib.Text.{starts_with}
use text.Mathlib.TextEquality.{Char-path}
use text.Mathlib.TextLemmas.{nil-append, cons-append, append_assoc}
use dcops.Base.{
  String, true, ◌≡◌, refl, subst, sym, ap, ◌∙◌, ◌⊎◌, inl, inr, ◌&&◌, Bool-cases, some, str_append,
  ◌==◌, arith,
}
use dcops.Optimizer.Names.{split, push, rack_name, rack_for}
use dcops.Optimizer.Naming.{IsRackName, split-part, split_last, rack_for-rack_name}
use dcops.Normalizers.Places.{hall_rack, hall_rack_of_parts, unknown}

-- The parts with dashes between them.
abbrev pub join : List String → String
join List.[] = []
join (List.◌∷◌ p List.[]) = p
join (List.◌∷◌ p (List.◌∷◌ q ps)) = str_append p (str_append "-" (join (List.◌∷◌ q ps)))

join-push : (c : Char) (ps : List String) → join (push c ps) ≡ c ∷ join ps
join-push c List.[] = refl
join-push c (List.◌∷◌ p List.[]) = refl
join-push c (List.◌∷◌ p (List.◌∷◌ q ps)) = rw cons-append

split-cons : (s : String) → (p : String) × (ps : List String) × (split s ≡ List.◌∷◌ p ps)
unfolding split
split-cons [] = ([], List.[], refl)
split-cons (c ∷ s) = elim (Bool-cases (code c == b'-')) [
  | inl dash ↦ ([], split s, rw dash)
  | inr letter ↦ let (p, ps, e) = split-cons s in (c ∷ p, ps, rw (letter, e))
]

dash_char : (c : Char) → (code c == b'-') ≡ true → c ≡ "-"
dash_char c h = Char-path c "-" (ground (arith, h))

join_dash : (s : String) → join (List.◌∷◌ [] (split s)) ≡ str_append "-" (join (split s))
join_dash s = let (p, ps, e) = split-cons s in rw e (nil-append _)

join-split : (s : String) → join (split s) ≡ s
unfolding split
join-split [] = refl
join-split (c ∷ s) = elim (Bool-cases (code c == b'-')) [
  | inl dash ↦ rw dash (
      join_dash s
      ∙ ap (str_append "-") (join-split s)
      ∙ cons-append _ _ _
      ∙ ap (λ (t : String). "-" ∷ t) (nil-append s)
      ∙ ap (λ (d : Char). d ∷ s) (sym (dash_char c dash)))
  | inr letter ↦ rw letter (join-push c (split s) ∙ ap (λ (t : String). c ∷ t) (join-split s))
]

abbrev pub Placed : String → String → Type 0
Placed device_id rack =
    (rack ≡ "unknown") ⊎ ((rest : String) × (device_id ≡ str_append rack (str_append "-" rest)))

Placed-by_parts : (ps : List String) → Placed (join ps) (hall_rack_of_parts ps).1
Placed-by_parts (List.◌∷◌ site (List.◌∷◌ hall (List.◌∷◌ rack (List.◌∷◌ p ps)))) =
    elim (Bool-cases (starts_with hall "h" && starts_with rack "r")) [
      | inl names ↦
          rw names (
            inr (join (List.◌∷◌ p ps), rw (append_assoc, append_assoc, append_assoc, append_assoc)))
      | inr other ↦ rw other (inl refl)
    ]
Placed-by_parts _ = inl refl

-- The rack of a device is unknown, or the device's name continues it with a dash.
pub hall_rack-Placed : (device_id : String) → Placed device_id (hall_rack device_id).1
unfolding hall_rack
hall_rack-Placed d =
    subst (λ (s : String). Placed s (hall_rack_of_parts (split d)).1) (join-split d)
      (Placed-by_parts (split d))

module _ (site hall rack rest : String) where
  -- Let the names of a site, a hall and a rack have no dash, and those of the hall and the rack
  -- start with h and r. A device whose name continues the rack's with a dash is published under
  -- that hall and that rack, the one that the optimizer reads off; a device that is named like the
  -- rack is published under an unknown rack, though the optimizer takes it for that rack.
  pub hall_rack-rack_for :
      IsRackName site hall rack
      → (hall_rack (str_append (rack_name site hall rack) (str_append "-" rest))
          ≡ (str_append site (str_append "-" hall), rack_name site hall rack))
        × (rack_for (str_append (rack_name site hall rack) (str_append "-" rest))
            ≡ some (rack_name site hall rack))
        × (hall_rack (rack_name site hall rack) ≡ unknown)
        × (rack_for (rack_name site hall rack) ≡ some (rack_name site hall rack))
  unfolding hall_rack
  hall_rack-rack_for k =
      let (r, ps, e) = split-cons rest in
      let (alone, continued) = rack_for-rack_name site hall rack rest k in
      (
        rw
            (
              append_assoc,
              append_assoc,
              append_assoc,
              append_assoc,
              split-part site _ k.site_dashless,
              split-part hall _ k.hall_dashless,
              split-part rack rest k.rack_dashless,
              e,
            )
            (simp (k.hall_h, k.rack_r)),
        continued,
        rw
            (
              split-part site (str_append hall (str_append "-" rack)) k.site_dashless,
              split-part hall rack k.hall_dashless,
              split_last rack k.rack_dashless,
            )
            refl,
        alone,
      )
