-- ===== src/Physics/Entities.antt =====
-- The entities of apps/physics/entities.py. A device is a record of the base class's fields and of
-- its subclass's. F is the type of floats.
use dcops.Base.{ℕ, String, Option, List}
use dcops.Value.{Dict}

pub data DeviceState : Type 0 where
  healthy degraded failing failed offline : DeviceState

pub data FailureMode : Type 0 where
  none_mode gpu_ecc_runaway gpu_thermal_throttle gpu_xid_43 psu_efficiency_drift psu_fail :
      FailureMode
  fan_stuck crac_fail switch_port_flap disk_realloc_ramp nic_packet_loss : FailureMode

pub record Server (F : Type 0) : Type 0 where
  pub cpu_util_percent : F
  pub cpu_temp_c : F
  pub mem_used_bytes : ℕ
  pub mem_total_bytes : ℕ
  pub fan_rpm : ℕ
  pub psu_efficiency_percent : F

pub record Gpu (F : Type 0) : Type 0 where
  pub parent_server_id : String
  pub gpu_temp_c : F
  pub gpu_util_percent : F
  pub gpu_mem_used_bytes : ℕ
  pub gpu_mem_total_bytes : ℕ
  pub ecc_correctable_count : ℕ
  pub ecc_uncorrectable_count : ℕ
  pub last_xid_code : Option ℕ

pub record Switch : Type 0 where
  pub port_count : ℕ
  pub port_up_count : ℕ
  pub bps_in : ℕ
  pub bps_out : ℕ
  pub err_in_count : ℕ

pub record Pdu (F : Type 0) : Type 0 where
  pub load_percent : F
  pub capacity_w : F
  pub powered_device_ids : List String

pub record CracUnit (F : Type 0) : Type 0 where
  pub hall_id_serves : String
  pub supply_temp_c : F
  pub return_temp_c : F
  pub fan_percent : F
  pub capacity_kw : F

pub data Part (F : Type 0) : Type 0 where
  server : Server F → Part F
  gpu : Gpu F → Part F
  switch : Switch → Part F
  pdu : Pdu F → Part F
  crac : CracUnit F → Part F

pub record Device (F : Type 0) : Type 0 where
  pub id : String
  pub model : String
  pub vendor : String
  pub rack_id : String
  pub state : DeviceState
  pub failure_mode : FailureMode
  pub inlet_temp_c : F
  pub outlet_temp_c : F
  pub power_draw_w : F
  pub rated_power_w : F
  pub metadata : Dict
  pub part : Part F

pub record Rack (F : Type 0) : Type 0 where
  pub id : String
  pub hall_id : String
  pub position : ℕ × ℕ
  pub capacity_u : ℕ
  pub devices : List (Device F)

pub record DataHall (F : Type 0) : Type 0 where
  pub id : String
  pub site_id : String
  pub capacity_kw : F
  pub racks : List (Rack F)
  pub crac_units : List (Device F)
  pub ambient_inlet_c : F
