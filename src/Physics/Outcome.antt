-- ===== src/Physics/Outcome.antt =====
-- What an injection leaves behind: apps/physics/failure_injector.py.
use mathlib.Core.Option.{some-injective, none-ne-some, some-ne-none}
use dcops.Base.{
  ◌≡◌, refl, subst, ap, ◌∙◌, inl, inr, String, Bool, Bool-cases, false, Option, none, some,
  if◌then◌else◌,
}
use dcops.Base.Result.{Exc, Result, ok, err, type_error, not_implemented}
use dcops.Physics.Entities.{FailureMode, Device, DataHall}
use dcops.Physics.Hall.{find_device, set_device}
use dcops.Physics.Injector.{
  Floats, Handled, handler_of, finish, inject_found, inject, cleared, clear_found, clear,
}
use dcops.Physics.Places.{find_device-id, find_device-set_device, set_device_found}
use dcops.Physics.Handling.{
  accepts, is_healthy, refusal, Changed, Handles, HandledBy, handler_of-HandledBy,
}

module _ {F : Type 0} (floats : Floats F) where
  module _ (hall : DataHall F) (device_id : String) (mode : FailureMode) (d : Device F)
      (found : find_device hall device_id ≡ some d) where
    refused_by :
        (e : Exc) (o : Option (Device F → Handled F))
        → HandledBy d mode o
        → refusal (some d) mode ≡ some e
        → inject_found device_id mode hall (some d) o ≡ (err e, hall)
    unfolding inject_found finish
    refused_by e none k h =
        ap (λ (x : Exc). (err x, hall))
          (some-injective _ _ (
            subst
              (λ (b : Bool).
                (if b
                  then some not_implemented
                  else if accepts mode d.part
                  then none
                  else some type_error)
                ≡ some e)
              k h))
    refused_by e (some handler) (real, k) h =
        let h2 : (if accepts mode d.part then none else some type_error) ≡ some e =
          subst
            (λ (b : Bool).
              (if b
                then some not_implemented
                else if accepts mode d.part
                then none
                else some type_error)
              ≡ some e)
            real h in
        elim (Bool-cases (accepts mode d.part)) [
          | inl fits ↦ absurd (
              none-ne-some e
                (subst (λ (b : Bool). (if b then none else some type_error) ≡ some e) fits h2))
          | inr other ↦
              rw
                (
                  subst (λ (b : Bool). Handles d b (handler d)) other k,
                  set_device_found device_id d hall found,
                )
                (ap (λ (x : Exc). (err x, hall))
                  (some-injective _ _ (
                    subst (λ (b : Bool). (if b then none else some type_error) ≡ some e) other h2)))
        ]

    -- The device that stands in the hall after a handler did its work.
    finish-Changed :
        (h : Handled F)
        → Changed d h
        → (d2 : Device F) × (find_device (finish device_id mode hall h).1 device_id ≡ some d2)
          × (is_healthy d2.state ≡ false)
    unfolding finish
    finish-Changed (some e, d2) (named, ill) = (
      d2,
      find_device-set_device device_id d2 hall (rw named (find_device-id hall device_id d found))
          (rw found refl),
      ill,
    )
    finish-Changed (none, d2) (named, ill) = (
      record d2 { failure_mode = mode },
      find_device-set_device device_id (record d2 { failure_mode = mode }) hall
          (rw named (find_device-id hall device_id d found)) (rw found refl),
      ill,
    )

    changed_by :
        (o : Option (Device F → Handled F))
        → HandledBy d mode o
        → refusal (some d) mode ≡ none
        → (d2 : Device F) × (find_device (inject_found device_id mode hall (some d) o).1 device_id
            ≡ some d2)
          × (is_healthy d2.state ≡ false)
    unfolding inject_found
    changed_by none k h = absurd (
        some-ne-none _ (
          subst
            (λ (b : Bool).
              (if b
                then some not_implemented
                else if accepts mode d.part
                then none
                else some type_error)
              ≡ none)
            k h))
    changed_by (some handler) (real, k) h =
        let h2 : (if accepts mode d.part then none else some type_error) ≡ none =
          subst
            (λ (b : Bool).
              (if b
                then some not_implemented
                else if accepts mode d.part
                then none
                else some type_error)
              ≡ none)
            real h in
        elim (Bool-cases (accepts mode d.part)) [
          | inl fits ↦
              finish-Changed (handler d) (subst (λ (b : Bool). Handles d b (handler d)) fits k)
          | inr other ↦ absurd (
              some-ne-none _
                (subst (λ (b : Bool). (if b then none else some type_error) ≡ none) other h2))
        ]

  -- An injection is refused for a device that is not there, for the mode `none`, and for a mode
  -- that is for devices of another class. The refusal raises the exception for its reason, and the
  -- hall stays as it was.
  pub inject-refusal :
      (hall : DataHall F) (device_id : String) (mode : FailureMode) (e : Exc)
      → refusal (find_device hall device_id) mode ≡ some e
      → inject floats hall device_id mode ≡ (err e, hall)
  unfolding inject inject_found
  inject-refusal hall device_id mode e h = go (find_device hall device_id) refl h
    where
      go :
          (o : Option (Device F))
          → find_device hall device_id ≡ o
          → refusal o mode ≡ some e
          → inject_found device_id mode hall o (handler_of floats mode) ≡ (err e, hall)
      go none found h = ap (λ (x : Exc). (err x, hall)) (some-injective _ _ h)
      go (some d) found h =
          refused_by hall device_id mode d found e (handler_of floats mode)
            (handler_of-HandledBy floats d mode) h

  inject_changed :
      (hall : DataHall F) (device_id : String) (mode : FailureMode)
      → refusal (find_device hall device_id) mode ≡ none
      → (d : Device F) × (find_device (inject floats hall device_id mode).1 device_id ≡ some d)
        × (is_healthy d.state ≡ false)
  unfolding inject
  inject_changed hall device_id mode h = go (find_device hall device_id) refl h
    where
      go :
          (o : Option (Device F))
          → find_device hall device_id ≡ o
          → refusal o mode ≡ none
          → (d : Device F) × (find_device
                (inject_found device_id mode hall o (handler_of floats mode)).1
                device_id
              ≡ some d)
            × (is_healthy d.state ≡ false)
      go none found h = absurd (some-ne-none _ h)
      go (some d) found h =
          changed_by hall device_id mode d found (handler_of floats mode)
            (handler_of-HandledBy floats d mode) h

  -- An injection that is not refused leaves a device of the name that is not healthy, also where it
  -- raises an exception after all. Clearing that device then returns it and leaves it in the hall,
  -- healthy and without a failure mode, and otherwise as it was.
  inject-clear :
      (hall : DataHall F) (device_id : String) (mode : FailureMode)
      → refusal (find_device hall device_id) mode ≡ none
      → let after = (inject floats hall device_id mode).1 in
        (d : Device F) × (find_device after device_id ≡ some d)
        × (is_healthy d.state ≡ false)
        × ((clear after device_id).0 ≡ ok (cleared d))
        × (find_device (clear after device_id).1 device_id ≡ some (cleared d))
  unfolding clear clear_found
  inject-clear hall device_id mode h =
      let after = (inject floats hall device_id mode).1 in
      let (d, found, ill) = inject_changed hall device_id mode h in
      let gone : clear after device_id ≡ (ok (cleared d), set_device device_id (cleared d) after) =
        ap (clear_found device_id after) found in
      (
        d,
        found,
        ill,
        ap (λ (r : Result (Device F) × DataHall F). r.0) gone,
        ap (λ (r : Result (Device F) × DataHall F). find_device r.1 device_id) gone
            ∙ find_device-set_device device_id (cleared d) after
                (find_device-id after device_id d found) (rw found refl),
      )
