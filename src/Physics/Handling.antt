-- ===== src/Physics/Handling.antt =====
-- What a handler of apps/physics/failure_injector.py does to a device of its class, and to another.
use dcops.Base.{◌≡◌, refl, Bool, true, false, Option, none, some, if◌then◌else◌}
use dcops.Base.Result.{Exc, Result, ok, err, type_error, lookup_error, not_implemented}
use dcops.Base.Int.{ℤ}
use dcops.Physics.Entities.{
  DeviceState, healthy, degraded, FailureMode, none_mode, gpu_ecc_runaway, gpu_thermal_throttle,
  gpu_xid_43, psu_efficiency_drift, psu_fail, fan_stuck, crac_fail, switch_port_flap,
  disk_realloc_ramp, nic_packet_loss, Server, Gpu, Switch, CracUnit, Part, server, gpu, switch, pdu,
  crac, Device,
}
use dcops.Physics.Injector.{
  Floats, Handled, of_server, of_gpu, of_switch, of_crac, refused, ramp, handler_of,
  handle_gpu_ecc_runaway, handle_gpu_thermal_throttle, handle_gpu_xid_43,
  handle_psu_efficiency_drift, handle_psu_fail, handle_fan_stuck, handle_crac_fail,
  handle_switch_port_flap, handle_disk_realloc_ramp, handle_nic_packet_loss,
}

abbrev is_server : {F : Type 0} → Part F → Bool
is_server (server s) = true
is_server p = false

abbrev is_gpu : {F : Type 0} → Part F → Bool
is_gpu (gpu g) = true
is_gpu p = false

abbrev is_switch : {F : Type 0} → Part F → Bool
is_switch (switch s) = true
is_switch p = false

abbrev is_crac : {F : Type 0} → Part F → Bool
is_crac (crac c) = true
is_crac p = false

-- The devices that a failure mode is for.
abbrev pub accepts : {F : Type 0} → FailureMode → Part F → Bool
accepts none_mode p = false
accepts gpu_ecc_runaway p = is_gpu p
accepts gpu_thermal_throttle p = is_gpu p
accepts gpu_xid_43 p = is_gpu p
accepts psu_efficiency_drift p = is_server p
accepts psu_fail p = is_server p
accepts fan_stuck p = is_server p
accepts crac_fail p = is_crac p
accepts switch_port_flap p = is_switch p
accepts disk_realloc_ramp p = is_server p
accepts nic_packet_loss p = is_server p

abbrev pub is_none : FailureMode → Bool
is_none none_mode = true
is_none mode = false

abbrev pub is_healthy : DeviceState → Bool
is_healthy healthy = true
is_healthy s = false

-- Why an injection is refused, if it is.
abbrev pub refusal : {F : Type 0} → Option (Device F) → FailureMode → Option Exc
refusal none mode = some lookup_error
refusal (some d) mode =
    if is_none mode
    then some not_implemented
    else if accepts mode d.part
    then none
    else some type_error

module _ {F : Type 0} where
  -- A device that was changed in place, and is not healthy.
  abbrev pub Changed : Device F → Handled F → Type 0
  Changed d (e, d') = (d'.id ≡ d.id) × (is_healthy d'.state ≡ false)

  -- What a handler does to a device of its class, and to another one.
  abbrev pub Handles : Device F → Bool → Handled F → Type 0
  Handles d true h = Changed d h
  Handles d false h = h ≡ refused d

  module _ (d : Device F) where
    of_server-Handles :
        (f : Server F → Handled F)
        → ((s : Server F) → Changed d (f s))
        → (p : Part F) → Handles d (is_server p) (of_server f (refused d) p)
    unfolding of_server
    of_server-Handles f h (server s) = h s
    of_server-Handles f h (gpu g) = refl
    of_server-Handles f h (switch s) = refl
    of_server-Handles f h (pdu p) = refl
    of_server-Handles f h (crac c) = refl

    of_gpu-Handles :
        (f : Gpu F → Handled F)
        → ((g : Gpu F) → Changed d (f g))
        → (p : Part F) → Handles d (is_gpu p) (of_gpu f (refused d) p)
    unfolding of_gpu
    of_gpu-Handles f h (server s) = refl
    of_gpu-Handles f h (gpu g) = h g
    of_gpu-Handles f h (switch s) = refl
    of_gpu-Handles f h (pdu p) = refl
    of_gpu-Handles f h (crac c) = refl

    of_switch-Handles :
        (f : Switch → Handled F)
        → ((s : Switch) → Changed d (f s))
        → (p : Part F) → Handles d (is_switch p) (of_switch f (refused d) p)
    unfolding of_switch
    of_switch-Handles f h (server s) = refl
    of_switch-Handles f h (gpu g) = refl
    of_switch-Handles f h (switch s) = h s
    of_switch-Handles f h (pdu p) = refl
    of_switch-Handles f h (crac c) = refl

    of_crac-Handles :
        (f : CracUnit F → Handled F)
        → ((c : CracUnit F) → Changed d (f c))
        → (p : Part F) → Handles d (is_crac p) (of_crac f (refused d) p)
    unfolding of_crac
    of_crac-Handles f h (server s) = refl
    of_crac-Handles f h (gpu g) = refl
    of_crac-Handles f h (switch s) = refl
    of_crac-Handles f h (pdu p) = refl
    of_crac-Handles f h (crac c) = h c

    ramp-Changed :
        (d' : Device F) (r : Result ℤ)
        → d'.id ≡ d.id
        → is_healthy d'.state ≡ false
        → Changed d (ramp d' r)
    unfolding ramp
    ramp-Changed d' (err e) named ill = (named, ill)
    ramp-Changed d' (ok n) named ill = (named, ill)

module _ {F : Type 0} where
  abbrev pub HandledBy : Device F → FailureMode → Option (Device F → Handled F) → Type 0
  HandledBy d mode none = is_none mode ≡ true
  HandledBy d mode (some handler) =
      (is_none mode ≡ false) × Handles d (accepts mode d.part) (handler d)

module _ {F : Type 0} (floats : Floats F) where
  pub handler_of-HandledBy :
      (d : Device F) (mode : FailureMode) → HandledBy d mode (handler_of floats mode)
  unfolding handler_of handle_gpu_ecc_runaway handle_gpu_thermal_throttle handle_gpu_xid_43
      handle_psu_efficiency_drift handle_psu_fail handle_fan_stuck handle_crac_fail
      handle_switch_port_flap handle_disk_realloc_ramp handle_nic_packet_loss
  handler_of-HandledBy d none_mode = refl
  handler_of-HandledBy d gpu_ecc_runaway = (refl, of_gpu-Handles d _ (λ g. (refl, refl)) d.part)
  handler_of-HandledBy d gpu_thermal_throttle =
      (refl, of_gpu-Handles d _ (λ g. (refl, refl)) d.part)
  handler_of-HandledBy d gpu_xid_43 = (refl, of_gpu-Handles d _ (λ g. (refl, refl)) d.part)
  handler_of-HandledBy d psu_efficiency_drift =
      (refl, of_server-Handles d _ (λ s. (refl, refl)) d.part)
  handler_of-HandledBy d psu_fail = (refl, of_server-Handles d _ (λ s. (refl, refl)) d.part)
  handler_of-HandledBy d fan_stuck = (refl, of_server-Handles d _ (λ s. (refl, refl)) d.part)
  handler_of-HandledBy d crac_fail = (refl, of_crac-Handles d _ (λ c. (refl, refl)) d.part)
  handler_of-HandledBy d switch_port_flap = (refl, of_switch-Handles d _ (λ s. (refl, refl)) d.part)
  handler_of-HandledBy d disk_realloc_ramp = (
    refl,
    of_server-Handles d _ (λ s. ramp-Changed d (record d { state = degraded }) _ refl refl) d.part,
  )
  handler_of-HandledBy d nic_packet_loss = (refl, of_server-Handles d _ (λ s. (refl, refl)) d.part)
