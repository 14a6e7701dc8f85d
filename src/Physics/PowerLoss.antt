-- ===== src/Physics/PowerLoss.antt =====
-- A failed power supply (apps/physics/failure_injector.py) at the next computation of the power
-- (apps/physics/power.py).
use mathlib.Core.Option.{some-injective}
use dcops.Base.{
  ◌≡◌, refl, sym, subst, ap, ◌∙◌, inl, inr, String, Bool, Bool-cases, Option, Option-cases, none,
  some, is_some, or_else, List, [], ◌∷◌, str_eq, if◌then◌else◌,
}
use dcops.Physics.Entities.{failed, psu_fail, Server, server, Device, Rack, DataHall}
use dcops.Physics.Hall.{find_in, find_in_racks, find_device, set_in, set_in_racks, set_device}
use dcops.Physics.Injector.{
  Floats, Handled, of_server, refused, handle_psu_fail, handler_of, finish, inject_found, inject,
}
use dcops.Physics.Power.{
  draw, draw_of, draw_all, draw_racks, load_all, load_racks, compute_power_draw,
}

module _ {F : Type 0} where
  -- The draws of the devices in the racks.
  abbrev pub powers : List (Device F) → List F
  powers [] = []
  powers (d ∷ ds) = d.power_draw_w ∷ powers ds

  abbrev pub rack_powers : List (Rack F) → List (List F)
  rack_powers [] = []
  rack_powers (r ∷ racks) = powers r.devices ∷ rack_powers racks

module _ {F : Type 0} (floats : Floats F) (nonzero : F → Bool) where
  abbrev drawn : List (Device F) → List (Device F)
  drawn = draw_all floats nonzero

  -- The second step leaves the draws.
  powers-load_all :
      (rs : List (Rack F)) (ds : List (Device F))
      → powers (load_all floats nonzero rs ds) ≡ powers ds
  powers-load_all rs [] = refl
  powers-load_all rs (d ∷ ds) = ap (λ (ps : List F). d.power_draw_w ∷ ps) (powers-load_all rs ds)

  rack_powers-load_racks :
      (rs racks : List (Rack F))
      → rack_powers (load_racks floats nonzero rs racks) ≡ rack_powers racks
  rack_powers-load_racks rs [] = refl
  rack_powers-load_racks rs (r ∷ racks) =
      rw (powers-load_all rs r.devices, rack_powers-load_racks rs racks) refl

  module _ (i : String) (new d : Device F)
      (same : (draw floats nonzero new).power_draw_w ≡ (draw floats nonzero d).power_draw_w) where
    powers-set_in :
        (ds : List (Device F))
        → find_in i ds ≡ some d
        → powers (drawn (set_in i new ds)) ≡ powers (drawn ds)
    unfolding find_in set_in
    powers-set_in [] found = refl
    powers-set_in (e ∷ ds) found = elim (Bool-cases (str_eq e.id i)) [
      | inl here ↦
          let it : e ≡ d =
            some-injective _ _
              (subst (λ (b : Bool). (if b then some e else find_in i ds) ≡ some d) here found) in
          simp here (
            ap (λ (p : F). p ∷ powers (drawn ds))
              (same ∙ ap (λ (x : Device F). (draw floats nonzero x).power_draw_w) (sym it)))
      | inr there ↦ simp there (
          ap (λ (ps : List F). (draw floats nonzero e).power_draw_w ∷ ps)
            (powers-set_in ds
              (subst (λ (b : Bool). (if b then some e else find_in i ds) ≡ some d) there found)))
    ]

    rack_powers-set :
        (racks : List (Rack F))
        → find_in_racks i racks ≡ some d
        → rack_powers (draw_racks floats nonzero (set_in_racks i new racks))
          ≡ rack_powers (draw_racks floats nonzero racks)
    unfolding find_in_racks set_in_racks
    rack_powers-set [] found = refl
    rack_powers-set (r ∷ racks) found = elim (Option-cases (find_in i r.devices)) [
      | inl e ↦ simp e (
          ap (λ (ps : List (List F)). powers (drawn r.devices) ∷ ps)
            (rack_powers-set racks (
              subst (λ (o : Option (Device F)). or_else o (find_in_racks i racks) ≡ some d) e
                found)))
      | inr (x, e) ↦
          let it : x ≡ d = some-injective _ _ (
            subst (λ (o : Option (Device F)). or_else o (find_in_racks i racks) ≡ some d) e
              found) in
          simp e (
            ap (λ (ps : List F). ps ∷ rack_powers (draw_racks floats nonzero racks))
              (powers-set_in r.devices (e ∙ ap some it)))
    ]

module _ {F : Type 0} (floats : Floats F) (nonzero : F → Bool) (hall : DataHall F)
    (device_id : String) (d : Device F) (s : Server F) where
  abbrev unpowered : Device F
  unpowered = record d {
    state = failed;
    power_draw_w = floats.decimal 0 0;
    failure_mode = psu_fail;
  }

  same_draw :
      d.part ≡ server s
      → (draw floats nonzero unpowered).power_draw_w ≡ (draw floats nonzero d).power_draw_w
  unfolding draw draw_of
  same_draw e = rw e refl

  handled :
      d.part ≡ server s
      → handle_psu_fail floats d
        ≡ (none, record d { state = failed; power_draw_w = floats.decimal 0 0 })
  unfolding handle_psu_fail of_server
  handled e =
      ap
        (of_server
          (λ (t : Server F). (none, record d { state = failed; power_draw_w = floats.decimal 0 0 }))
          (refused d))
        e

  injected :
      d.part ≡ server s
      → find_in_racks device_id hall.racks ≡ some d
      → (inject floats hall device_id psu_fail).1.racks
        ≡ set_in_racks device_id unpowered hall.racks
  unfolding inject handler_of find_device set_device finish
  injected e found =
      ap
        (λ (o : Option (Device F)).
          (inject_found device_id psu_fail hall o (some (handle_psu_fail floats))).1.racks)
        (ap (λ (o : Option (Device F)). or_else o (find_in device_id hall.crac_units)) found)
      ∙ ap (λ (h : Handled F). (finish device_id psu_fail hall h).1.racks) (handled e)
      ∙ ap
          (λ (o : Option (Device F)).
            (if is_some o
              then record hall { racks = set_in_racks device_id unpowered hall.racks }
              else record hall { crac_units = set_in device_id unpowered hall.crac_units }).racks)
          found

  -- Let a name be that of a server in the racks. The failure of its power supply is injected; at
  -- the next computation of the power, every device in the racks draws just what it would have
  -- drawn without the failure.
  pub inject-psu_fail :
      d.part ≡ server s
      → find_in_racks device_id hall.racks ≡ some d
      → rack_powers
          (compute_power_draw floats nonzero (inject floats hall device_id psu_fail).1).racks
        ≡ rack_powers (compute_power_draw floats nonzero hall).racks
  unfolding compute_power_draw
  inject-psu_fail e found =
      let after = (inject floats hall device_id psu_fail).1 in
      rack_powers-load_racks floats nonzero (draw_racks floats nonzero after.racks)
        (draw_racks floats nonzero after.racks)
      ∙ ap (λ (rs : List (Rack F)). rack_powers (draw_racks floats nonzero rs)) (injected e found)
      ∙ rack_powers-set floats nonzero device_id unpowered d (same_draw e) hall.racks found
      ∙ sym (
          rack_powers-load_racks floats nonzero (draw_racks floats nonzero hall.racks)
            (draw_racks floats nonzero hall.racks))
