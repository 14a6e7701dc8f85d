-- ===== src/Optimizer/Naming.antt =====
-- Names of racks and devices of apps/agents/optimizer/main.py: the round trip.
use Prim.Native.Char.{Char, code}
use Prim.Native.String.{[], ◌∷◌}
use mathlib.Core.List.{List}
use text.Mathlib.TextEquality.{starts_with_iff}
use text.Mathlib.TextLemmas.{nil-append, cons-append, append_assoc}
use text.Mathlib.Text.{starts_with}
use dcops.Base.{
  String, Bool, true, not, ◌&&◌, ◌≡◌, refl, subst, some, str_append, ◌==◌, is_some, Option-cases,
  inl, inr, arith,
}
use dcops.Optimizer.Names.{split, rack_name, rack_of_parts, rack_for, before_last_r}

abbrev pub dashless : String → Bool
dashless [] = true
dashless (c ∷ s) = not (code c == b'-') && dashless s

split_dash : (s : String) → split (str_append "-" s) ≡ List.◌∷◌ [] (split s)
unfolding split
split_dash s = rw (cons-append, nil-append) refl

-- A part without a dash, in front of a text that is split already.
split-letter :
    (c : Char) (s p : String) (ps : List String)
    → not (code c == b'-') ≡ true
    → split s ≡ List.◌∷◌ p ps
    → split (c ∷ s) ≡ List.◌∷◌ (c ∷ p) ps
unfolding split
split-letter c s p ps h e = rw e (ground (arith, h))

pub split-part :
    (p s : String)
    → dashless p ≡ true
    → split (str_append p (str_append "-" s)) ≡ List.◌∷◌ p (split s)
split-part [] s h = rw nil-append (split_dash s)
split-part (c ∷ p) s h =
    rw cons-append
      (split-letter c _ p (split s) (ground (arith, h)) (split-part p s (ground (arith, h))))

pub split_last : (p : String) → dashless p ≡ true → split p ≡ List.◌∷◌ p List.[]
unfolding split
split_last [] h = refl
split_last (c ∷ p) h =
    split-letter c p p List.[] (ground (arith, h)) (split_last p (ground (arith, h)))

module _ (site hall rack : String) where
  pub record IsRackName : Type 0 where
    pub site_dashless : dashless site ≡ true
    pub hall_dashless : dashless hall ≡ true
    pub rack_dashless : dashless rack ≡ true
    pub hall_h : starts_with hall "h" ≡ true
    pub rack_r : starts_with rack "r" ≡ true

  pub rack_of_name :
      IsRackName
      → (ps : List String)
      → rack_of_parts (List.◌∷◌ site (List.◌∷◌ hall (List.◌∷◌ rack ps)))
        ≡ some (rack_name site hall rack)
  rack_of_name k ps = simp (k.hall_h, k.rack_r) refl

  -- Let the names of a site, a hall and a rack have no dash, and those of the hall and the rack
  -- start with h and r. The rack that is read off the rack's name joined with dashes is that name,
  -- and so it is for any device whose name continues it with a dash.
  pub rack_for-rack_name :
      (rest : String)
      → IsRackName
      → (rack_for (rack_name site hall rack) ≡ some (rack_name site hall rack))
        × (rack_for (str_append (rack_name site hall rack) (str_append "-" rest))
            ≡ some (rack_name site hall rack))
  unfolding rack_for
  rack_for-rack_name rest k =
      let name_parts = split-part site (str_append hall (str_append "-" rack)) k.site_dashless in
      let hall_parts = split-part hall rack k.hall_dashless in
      (
        rw (name_parts, hall_parts, split_last rack k.rack_dashless) (rack_of_name k List.[]),
        rw
            (
              append_assoc,
              append_assoc,
              append_assoc,
              append_assoc,
              split-part site _ k.site_dashless,
              split-part hall _ k.hall_dashless,
              split-part rack rest k.rack_dashless,
            )
            (rack_of_name k (split rest)),
      )

before-append :
    (p s : String)
    → is_some (before_last_r s) ≡ true
    → is_some (before_last_r (str_append p s)) ≡ true
unfolding before_last_r
before-append [] s h = rw nil-append h
before-append (c ∷ p) s h = rw cons-append (later c (str_append p s) (before-append p s h))
  where
    later :
        (c : Char) (s : String)
        → is_some (before_last_r s) ≡ true
        → is_some (before_last_r (c ∷ s)) ≡ true
    later c s h = elim (Option-cases (before_last_r s)) [
      | inl e ↦ absurd (ground (arith, rw e at h))
      | inr (q, e) ↦ rw e refl
    ]

before_at_r : (s : String) → starts_with s "-r" ≡ true → is_some (before_last_r s) ≡ true
unfolding before_last_r
before_at_r [] h = absurd (ground (arith, h))
before_at_r (c ∷ s) h = elim (Option-cases (before_last_r s)) [
  | inl e ↦ rw (e, h) refl
  | inr (q, e) ↦ rw e refl
]

dash_r :
    (rack : String) → starts_with rack "r" ≡ true → starts_with (str_append "-" rack) "-r" ≡ true
dash_r rack h =
    let (u, e) = (starts_with_iff rack "r").0 h in
    (starts_with_iff (str_append "-" rack) "-r").1
      (u, subst (λ (r : String). str_append "-r" u ≡ str_append "-" r) e (append_assoc "-" "r" u))

-- A rack's name has a hall's name in front.
pub rack_name-before :
    (site hall rack : String)
    → starts_with rack "r" ≡ true
    → is_some (before_last_r (rack_name site hall rack)) ≡ true
rack_name-before site hall rack h = before-append site _ (
    before-append "-" (str_append hall (str_append "-" rack)) (
      before-append hall (str_append "-" rack) (before_at_r (str_append "-" rack) (dash_r rack h))))
