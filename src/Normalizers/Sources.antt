-- ===== src/Normalizers/Sources.antt =====
-- `run_source` of apps/ingestion/main.py, and the sources that `main` starts.
use dcops.Base.{ℕ, zero, suc, String, ◌∷◌}
use dcops.Normalizers.Telemetry.{Net, Poll, History, sleep}
use dcops.Normalizers.Redfish
use dcops.Normalizers.Ipmi
use dcops.Normalizers.Snmp
use dcops.Normalizers.Facility
use dcops.Normalizers.Dcgm

pub data Source : Type 0 where
  redfish dcgm ipmi snmp env : Source

abbrev pub source_name : Source → String
source_name redfish = "redfish"
source_name dcgm = "dcgm"
source_name ipmi = "ipmi"
source_name snmp = "snmp"
source_name env = "env"

module _ {F : Type 0} (net : Net F) where
  -- `poll_fn`, with what the loop does with the events.
  unfoldable pub poll : Source → Poll F (Unit {0})
  poll redfish = Redfish.poll net
  poll dcgm = Dcgm.poll net
  poll ipmi = Ipmi.poll net
  poll snmp = Snmp.poll net
  poll env = Facility.poll net

  -- So many rounds of the loop of `run_source`: an exception ends the poll of its round, and is
  -- logged.
  unfoldable pub run_source : ℕ → Source → History F → History F
  run_source zero source h = h
  run_source (suc rounds) source h = run_source rounds source (sleep ∷ (poll source h).1)
