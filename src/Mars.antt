-- ===== src/Mars.antt =====
-- executor/server/src/valve_gfx_ci/executor/server/mars.py: the database of the machines of a farm
-- and what is kept of each. A time is a number of microseconds.
pub mod Names
pub mod Runners
pub mod Sync
pub mod Known
use valve_infra.Base.{ℕ, String, Bool, ◌&&◌, not, Option, List}

-- `ConfigDUT`, but for the runners of the machine, which `Runners` models.
pub record Dut : Type 0 where
  pub base_name : String
  pub tags : List String
  pub ip_address : String
  pub pdu : Option String
  pub pdu_port_id : Option String
  pub pdu_off_delay : ℕ
  pub ready_for_service : Bool
  pub is_retired : Bool
  pub first_seen : ℕ

-- the property `available`
unfoldable pub available : Dut → Bool
available d = d.ready_for_service && not d.is_retired
