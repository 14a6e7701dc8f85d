-- ===== src/Physics/Injector.antt =====
-- `inject` and `clear` of apps/physics/failure_injector.py. What a handler did before an exception
-- stays done.
use dcops.Base.{ℕ, ◌+◌, ◌-◌, String, false, Option, none, some}
use dcops.Base.Int.{ℤ, pos, ◌+ℤ◌}
use dcops.Base.Result.{Exc, Result, ok, err, type_error, lookup_error, not_implemented}
use dcops.Value.{Value, get_or, insert, to_int}
use dcops.Physics.Entities.{
  healthy, degraded, failing, failed, FailureMode, none_mode, gpu_ecc_runaway, gpu_thermal_throttle,
  gpu_xid_43, psu_efficiency_drift, psu_fail, fan_stuck, crac_fail, switch_port_flap,
  disk_realloc_ramp, nic_packet_loss, Server, Gpu, Switch, CracUnit, Part, server, gpu, switch,
  crac, Device, DataHall,
}
use dcops.Physics.Hall.{find_device, set_device}

-- `decimal n k` is n / 10 ^ k.
pub record Floats (F : Type 0) : Type 0 where
  pub decimal : ℕ → ℕ → F
  pub add : F → F → F
  pub minus : F → F → F
  pub times : F → F → F
  pub over : F → F → F
  pub larger : F → F → F
  pub smaller : F → F → F

-- A handler: the exception, if any, and the device.
abbrev pub Handled : Type 0 → Type 0
Handled F = Option Exc × Device F

module _ {F : Type 0} where
  -- The change of a device of a class, and what is done with one of another class.
  unfoldable pub of_server : (Server F → Handled F) → Handled F → Part F → Handled F
  of_server change other (server s) = change s
  of_server change other p = other

  unfoldable pub of_gpu : (Gpu F → Handled F) → Handled F → Part F → Handled F
  of_gpu change other (gpu g) = change g
  of_gpu change other p = other

  unfoldable pub of_switch : (Switch → Handled F) → Handled F → Part F → Handled F
  of_switch change other (switch s) = change s
  of_switch change other p = other

  unfoldable pub of_crac : (CracUnit F → Handled F) → Handled F → Part F → Handled F
  of_crac change other (crac c) = change c
  of_crac change other p = other

  abbrev pub refused : Device F → Handled F
  refused d = (some type_error, d)

  -- The rest of `_disk_realloc_ramp`, of the count of sectors so far.
  unfoldable pub ramp : Device F → Result ℤ → Handled F
  unfolding ◌+ℤ◌
  ramp d (err e) = (some e, d)
  ramp d (ok n) = (
    none,
    record d { metadata = insert "disk_reallocated_sectors" (Value.int (n +ℤ pos 500)) d.metadata },
  )

module _ {F : Type 0} (floats : Floats F) where
  open floats use {decimal, add, minus, larger}

  abbrev pub done : Device F → Handled F
  done d = (none, d)

  -- `_gpu_ecc_runaway`
  unfoldable pub handle_gpu_ecc_runaway : Device F → Handled F
  unfolding of_gpu
  handle_gpu_ecc_runaway d =
      of_gpu
        (λ g. done (record d {
          state = failing;
          part = gpu (record g {
            ecc_correctable_count = g.ecc_correctable_count + 50000;
            ecc_uncorrectable_count = g.ecc_uncorrectable_count + 5;
            gpu_temp_c = add g.gpu_temp_c (decimal 8 0);
          });
        }))
        (refused d) d.part

  -- `_gpu_thermal_throttle`
  unfoldable pub handle_gpu_thermal_throttle : Device F → Handled F
  unfolding of_gpu
  handle_gpu_thermal_throttle d =
      of_gpu
        (λ g. done (record d {
          state = degraded;
          part = gpu (record g {
            gpu_temp_c = decimal 92 0;
            gpu_util_percent = larger (decimal 0 0) (minus g.gpu_util_percent (decimal 30 0));
          });
        }))
        (refused d) d.part

  -- `_gpu_xid_43`
  unfoldable pub handle_gpu_xid_43 : Device F → Handled F
  unfolding of_gpu
  handle_gpu_xid_43 d =
      of_gpu
        (λ g.
          done (record d { state = failing; part = gpu (record g { last_xid_code = some 43 }) }))
        (refused d) d.part

  -- `_psu_efficiency_drift`
  unfoldable pub handle_psu_efficiency_drift : Device F → Handled F
  unfolding of_server
  handle_psu_efficiency_drift d =
      of_server
        (λ s. done (record d {
          state = degraded;
          part = server (record s {
            psu_efficiency_percent =
                larger (decimal 70 0) (minus s.psu_efficiency_percent (decimal 12 0));
          });
        }))
        (refused d) d.part

  -- `_psu_fail`
  unfoldable pub handle_psu_fail : Device F → Handled F
  unfolding of_server
  handle_psu_fail d =
      of_server (λ s. done (record d { state = failed; power_draw_w = decimal 0 0 })) (refused d)
        d.part

  -- `_fan_stuck`
  unfoldable pub handle_fan_stuck : Device F → Handled F
  unfolding of_server
  handle_fan_stuck d =
      of_server
        (λ s. done (record d {
          state = degraded;
          part = server (record s { fan_rpm = 0; cpu_temp_c = add s.cpu_temp_c (decimal 12 0) });
        }))
        (refused d) d.part

  -- `_crac_fail`
  unfoldable pub handle_crac_fail : Device F → Handled F
  unfolding of_crac
  handle_crac_fail d =
      of_crac
        (λ c.
          done (record d { state = failed; part = crac (record c { fan_percent = decimal 0 0 }) }))
        (refused d) d.part

  -- `_switch_port_flap`
  unfoldable pub handle_switch_port_flap : Device F → Handled F
  unfolding of_switch
  handle_switch_port_flap d =
      of_switch
        (λ s. done (record d {
          state = degraded;
          part = switch (record s {
            port_up_count = s.port_up_count - 4;
            err_in_count = s.err_in_count + 10000;
          });
        }))
        (refused d) d.part

  -- `_disk_realloc_ramp`: the state is set before `int` may raise.
  unfoldable pub handle_disk_realloc_ramp : Device F → Handled F
  unfolding ramp to_int of_server
  handle_disk_realloc_ramp d =
      of_server
        (λ s.
          ramp (record d { state = degraded })
            (to_int (get_or "disk_reallocated_sectors" (Value.int (pos 0)) d.metadata)))
        (refused d) d.part

  -- `_nic_packet_loss`; the float 0.05 exactly.
  unfoldable pub handle_nic_packet_loss : Device F → Handled F
  unfolding of_server
  handle_nic_packet_loss d =
      of_server
        (λ s. done (record d {
          state = degraded;
          metadata = insert "nic_drop_rate" (Value.real false 3602879701896397 56) d.metadata;
        }))
        (refused d) d.part

  -- `_HANDLERS.get(mode)`
  unfoldable pub handler_of : FailureMode → Option (Device F → Handled F)
  handler_of none_mode = none
  handler_of gpu_ecc_runaway = some handle_gpu_ecc_runaway
  handler_of gpu_thermal_throttle = some handle_gpu_thermal_throttle
  handler_of gpu_xid_43 = some handle_gpu_xid_43
  handler_of psu_efficiency_drift = some handle_psu_efficiency_drift
  handler_of psu_fail = some handle_psu_fail
  handler_of fan_stuck = some handle_fan_stuck
  handler_of crac_fail = some handle_crac_fail
  handler_of switch_port_flap = some handle_switch_port_flap
  handler_of disk_realloc_ramp = some handle_disk_realloc_ramp
  handler_of nic_packet_loss = some handle_nic_packet_loss

module _ {F : Type 0} where
  -- The end of `inject`, by what the handler did.
  unfoldable pub finish :
      String → FailureMode → DataHall F → Handled F → Result (Device F) × DataHall F
  unfolding set_device
  finish device_id mode hall (some e, d) = (err e, set_device device_id d hall)
  finish device_id mode hall (none, d) = (
    ok (record d { failure_mode = mode }),
    set_device device_id (record d { failure_mode = mode }) hall,
  )

  -- `inject`, by what was found: the device, and the handler.
  unfoldable pub inject_found :
      String
      → FailureMode
      → DataHall F
      → Option (Device F)
      → Option (Device F → Handled F)
      → Result (Device F) × DataHall F
  unfolding finish
  inject_found device_id mode hall none handler = (err lookup_error, hall)
  inject_found device_id mode hall (some d) none = (err not_implemented, hall)
  inject_found device_id mode hall (some d) (some handler) = finish device_id mode hall (handler d)

module _ {F : Type 0} (floats : Floats F) where
  unfoldable pub inject : DataHall F → String → FailureMode → Result (Device F) × DataHall F
  unfolding inject_found find_device handler_of
  inject hall device_id mode =
      inject_found device_id mode hall (find_device hall device_id) (handler_of floats mode)

module _ {F : Type 0} where
  abbrev pub cleared : Device F → Device F
  cleared d = record d { state = healthy; failure_mode = none_mode }

  -- `clear`, by what was found.
  unfoldable pub clear_found :
      String → DataHall F → Option (Device F) → Result (Device F) × DataHall F
  unfolding set_device
  clear_found device_id hall none = (err lookup_error, hall)
  clear_found device_id hall (some d) = (ok (cleared d), set_device device_id (cleared d) hall)

  unfoldable pub clear : DataHall F → String → Result (Device F) × DataHall F
  unfolding clear_found find_device
  clear hall device_id = clear_found device_id hall (find_device hall device_id)
