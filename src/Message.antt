-- ===== src/Message.antt =====
-- executor/server/src/valve_gfx_ci/executor/server/message.py, of which the client keeps an
-- identical copy: the levels and statuses, and the framing of messages on a socket.
pub mod Framing
pub mod Base85
pub mod Fragments
pub mod Frames
pub mod Status
use valve_infra.Base.{ℕ}

-- Log levels are an `IntEnum`, compared by value.
pub data LogLevel : Type 0 where
  debug info warn error : LogLevel

unfoldable pub level_value : LogLevel → ℕ
level_value LogLevel.debug = 0
level_value LogLevel.info = 1
level_value LogLevel.warn = 2
level_value LogLevel.error = 3
