-- ===== src/Executor.antt =====
-- executor/server/src/valve_gfx_ci/executor/server/executor.py: `Executor`, the thread that runs
-- the jobs of one machine. The modules below model the caching of a job's artifacts, the boot
-- loop of `execute_job`, and the sessions around it.
pub mod Cache
pub mod Artifacts
pub mod Boots
pub mod Waiting
pub mod Bounded
pub mod Session
pub mod Iteration
pub mod Requests
pub mod TearDown
use text.Mathlib.Text.{◌==◌}
use valve_infra.Base.{ℕ, String, Bool, true, false, Option, none, some}

-- `MachineState`
pub data MachineState : Type 0 where
  wait_for_config idle training queued running : MachineState

abbrev pub is_idle : MachineState → Bool
is_idle idle = true
is_idle s = false

abbrev pub is_running : MachineState → Bool
is_running running = true
is_running s = false

-- `BootConfig` of boots.py.
pub record BootConfig : Type 0 where
  pub kernel : Option String
  pub initrd : Option String
  pub cmdline : Option String

-- Equality of URLs, `None` included.
infix 50 ◌=u◌
abbrev pub ◌=u◌ : Option String → Option String → Bool
none =u none = true
some s =u some t = s == t
_ =u _ = false
