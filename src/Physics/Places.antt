-- ===== src/Physics/Places.antt =====
-- Devices of a hall looked up and written back: apps/physics/failure_injector.py.
use mathlib.Core.Option.{some-injective, none-ne-some}
use dcops.Base.{
  ◌≡◌, refl, subst, ap, sym, ◌∙◌, inl, inr, String, Bool, Bool-cases, true, Option, Option-cases,
  none, some, is_some, List, [], ◌∷◌, str_eq, or_else, if◌then◌else◌, arith,
}
use dcops.Physics.Entities.{Device, Rack, DataHall}
use dcops.Physics.Hall.{find_in, find_in_racks, find_device, set_in, set_in_racks, set_device}

module _ {F : Type 0} where
  -- Writing a device back and looking it up again.
  find_in-set_in :
      (i : String) (new : Device F) (ds : List (Device F))
      → str_eq new.id i ≡ true
      → is_some (find_in i ds) ≡ true
      → find_in i (set_in i new ds) ≡ some new
  unfolding find_in set_in
  find_in-set_in i new [] named found = absurd (ground (arith, found))
  find_in-set_in i new (d ∷ ds) named found = elim (Bool-cases (str_eq d.id i)) [
    | inl here ↦ rw (here, named) refl
    | inr there ↦
        rw (there, there)
          (find_in-set_in i new ds named
            (subst (λ (b : Bool). is_some (if b then some d else find_in i ds) ≡ true) there found))
  ]

  -- Writing back what was found changes nothing.
  set_in_found :
      (i : String) (d : Device F) (ds : List (Device F))
      → find_in i ds ≡ some d
      → set_in i d ds ≡ ds
  unfolding find_in set_in
  set_in_found i d [] found = refl
  set_in_found i d (e ∷ es) found = elim (Bool-cases (str_eq e.id i)) [
    | inl here ↦
        let same : d ≡ e = sym (
          some-injective _ _
            (subst (λ (b : Bool). (if b then some e else find_in i es) ≡ some d) here found)) in
        rw here (ap (λ (x : Device F). x ∷ es) same)
    | inr there ↦ rw there (
        ap (λ (xs : List (Device F)). e ∷ xs)
          (set_in_found i d es
            (subst (λ (b : Bool). (if b then some e else find_in i es) ≡ some d) there found)))
  ]

  -- The same for the racks.
  find_in_racks-set_in_racks :
      (i : String) (new : Device F) (racks : List (Rack F))
      → str_eq new.id i ≡ true
      → is_some (find_in_racks i racks) ≡ true
      → find_in_racks i (set_in_racks i new racks) ≡ some new
  unfolding find_in_racks set_in_racks
  find_in_racks-set_in_racks i new [] named found = absurd (ground (arith, found))
  find_in_racks-set_in_racks i new (r ∷ racks) named found =
      elim (Option-cases (find_in i r.devices)) [
        | inl e ↦ simp (e) (
            find_in_racks-set_in_racks i new racks named (
              subst (λ (o : Option (Device F)). is_some (or_else o (find_in_racks i racks)) ≡ true)
                e found))
        | inr (d, e) ↦ simp (e, find_in-set_in i new r.devices named (rw e refl)) refl
      ]

  set_in_racks_found :
      (i : String) (d : Device F) (racks : List (Rack F))
      → find_in_racks i racks ≡ some d
      → set_in_racks i d racks ≡ racks
  unfolding find_in_racks set_in_racks
  set_in_racks_found i d [] found = refl
  set_in_racks_found i d (r ∷ racks) found = elim (Option-cases (find_in i r.devices)) [
    | inl e ↦ simp e (
        ap (λ (rs : List (Rack F)). r ∷ rs)
          (set_in_racks_found i d racks (
            subst (λ (o : Option (Device F)). or_else o (find_in_racks i racks) ≡ some d) e found)))
    | inr (d', e) ↦
        let same : d ≡ d' = sym (
          some-injective _ _ (
            subst (λ (o : Option (Device F)). or_else o (find_in_racks i racks) ≡ some d) e
              found)) in
        let kept : set_in i d r.devices ≡ r.devices =
          set_in_found i d r.devices (e ∙ ap some (sym same)) in
        simp e (ap (λ (ds : List (Device F)). record r { devices = ds } ∷ racks) kept)
  ]

  pub find_device-set_device :
      (i : String) (new : Device F) (hall : DataHall F)
      → str_eq new.id i ≡ true
      → is_some (find_device hall i) ≡ true
      → find_device (set_device i new hall) i ≡ some new
  unfolding find_device set_device
  find_device-set_device i new hall named found = elim (Option-cases (find_in_racks i hall.racks)) [
    | inl e ↦ simp e (
        find_in-set_in i new hall.crac_units named (
          subst (λ (o : Option (Device F)). is_some (or_else o (find_in i hall.crac_units)) ≡ true)
            e found))
    | inr (d, e) ↦ simp (e, find_in_racks-set_in_racks i new hall.racks named (rw e refl)) refl
  ]

  pub set_device_found :
      (i : String) (d : Device F) (hall : DataHall F)
      → find_device hall i ≡ some d
      → set_device i d hall ≡ hall
  unfolding find_device set_device
  set_device_found i d hall found = elim (Option-cases (find_in_racks i hall.racks)) [
    | inl e ↦ simp e (
        ap (λ (ds : List (Device F)). record hall { crac_units = ds })
          (set_in_found i d hall.crac_units (
            subst (λ (o : Option (Device F)). or_else o (find_in i hall.crac_units) ≡ some d) e
              found)))
    | inr (d', e) ↦
        let same : d ≡ d' = sym (
          some-injective _ _ (
            subst (λ (o : Option (Device F)). or_else o (find_in i hall.crac_units) ≡ some d) e
              found)) in
        simp e (
          ap (λ (rs : List (Rack F)). record hall { racks = rs })
            (set_in_racks_found i d hall.racks (e ∙ ap some (sym same))))
  ]

  -- What is found has the name.
  find_in-id :
      (i : String) (d : Device F) (ds : List (Device F))
      → find_in i ds ≡ some d
      → str_eq d.id i ≡ true
  unfolding find_in
  find_in-id i d [] found = absurd (none-ne-some d found)
  find_in-id i d (e ∷ ds) found = elim (Bool-cases (str_eq e.id i)) [
    | inl here ↦
        subst (λ (x : Device F). str_eq x.id i ≡ true)
          (some-injective _ _
            (subst (λ (b : Bool). (if b then some e else find_in i ds) ≡ some d) here found))
          here
    | inr there ↦
        find_in-id i d ds
          (subst (λ (b : Bool). (if b then some e else find_in i ds) ≡ some d) there found)
  ]

  or_else-id :
      (i : String) (d : Device F) (o p : Option (Device F))
      → ((x : Device F) → o ≡ some x → str_eq x.id i ≡ true)
      → ((x : Device F) → p ≡ some x → str_eq x.id i ≡ true)
      → or_else o p ≡ some d
      → str_eq d.id i ≡ true
  or_else-id i d none p h k found = k d found
  or_else-id i d (some x) p h k found = h d found

  find_in_racks-id :
      (i : String) (racks : List (Rack F)) (d : Device F)
      → find_in_racks i racks ≡ some d
      → str_eq d.id i ≡ true
  unfolding find_in_racks
  find_in_racks-id i [] d found = absurd (none-ne-some d found)
  find_in_racks-id i (r ∷ racks) d found =
      or_else-id i d (find_in i r.devices) (find_in_racks i racks)
        (λ x h. find_in-id i x r.devices h) (λ x h. find_in_racks-id i racks x h) found

  pub find_device-id :
      (hall : DataHall F) (i : String) (d : Device F)
      → find_device hall i ≡ some d
      → str_eq d.id i ≡ true
  unfolding find_device
  find_device-id hall i d found =
      or_else-id i d (find_in_racks i hall.racks) (find_in i hall.crac_units)
        (λ x h. find_in_racks-id i hall.racks x h) (λ x h. find_in-id i x hall.crac_units h) found
