-- ===== src/Console.antt =====
-- executor/server/src/valve_gfx_ci/executor/server/executor.py: `JobConsole`, which relays the
-- serial console of a machine to the client of a job and follows the job's console patterns.
--
-- A socket is kept as how far it is open, with what was sent on it. One that is `hung_up` was shut
-- down both ways, or `shutdown` raised, which is ignored and has `close` left out: its descriptor
-- may then still be open, but no end of it is connected. A send on a socket that was shut or hung up
-- raises `OSError`, which the senders ignore; a call on a client socket that does
-- not exist yet raises `AttributeError`, which they do not. Sends on a connected socket succeed.
pub mod Lines
pub mod States
pub mod Loop
pub mod Chunks
pub mod History
pub mod Calls
pub mod Relay
pub mod Closing
pub mod Transparent
use valve_infra.Base.{
  ℕ, zero, suc, ◌+◌, ◌≤◌, ◌<◌, Bool, true, false, ◌&&◌, Option, none, some, List, [], ◌∷◌, ◌++◌,
  ltb, leb, ◌==◌, if◌then◌else◌,
}
use valve_infra.Base.Result.{Result, ok, err, value_error, attribute_error}
use valve_infra.Base.Action.{Action, pure, raise, continue, ◌>>=◌, ◌>>◌}
use valve_infra.Message.{LogLevel, level_value, info, warn, error}
use valve_infra.Message.Framing.{Bytes}
use valve_infra.Message.Status.{JobStatus, from_str}
use valve_infra.Job.Patterns.{ConsoleState, job_status, needs_reboot, reset_per_boot_state}

-- `JobConsoleState`, an `IntEnum`.
pub data JobConsoleState : Type 0 where
  created active dut_done tear_down over : JobConsoleState

abbrev pub state_value : JobConsoleState → ℕ
state_value created = 0
state_value active = 1
state_value dut_done = 2
state_value tear_down = 3
state_value over = 4

-- What the executor sends to a client.
pub data Sent : Type 0 where
  control : LogLevel → Sent
  job_io : Bytes → Sent
  session_end : JobStatus → Sent

pub data Socket : Type 0 where
  absent connected shut_wr hung_up : Socket

pub record JobConsole : Type 0 where
  pub client_version : Option ℕ
  pub log_level : LogLevel
  pub state : JobConsoleState
  pub start_time : Option ℕ
  pub line_buffer : Bytes
  pub console_patterns : ConsoleState
  pub needs_reboot : Bool
  pub last_activity_from_machine : Option ℕ
  pub last_activity_from_client : Option ℕ
  pub salad_sock : Socket
  pub client_sock : Socket
  pub sent : List Sent
  pub typed : List Bytes

-- `if self.client_version:`, which is false for no client and for version 0.
abbrev pub truthy : Option ℕ → Bool
truthy none = false
truthy (some zero) = false
truthy (some (suc v)) = true

abbrev pub is_version_1 : Option ℕ → Bool
is_version_1 none = false
is_version_1 (some v) = v == 1

-- `reset_per_boot_state`
unfoldable pub reset_boot : JobConsole → JobConsole
reset_boot c =
    let patterns = reset_per_boot_state c.console_patterns in
    record c {
      last_activity_from_machine = none;
      last_activity_from_client = none;
      console_patterns = patterns;
      needs_reboot = needs_reboot patterns;
    }

-- `JobConsole.__init__`, once the connection to SALAD is made.
unfoldable pub init : Option ℕ → ConsoleState → LogLevel → JobConsole
unfolding reset_boot
init client_version patterns log_level = reset_boot (record {
  client_version = client_version;
  log_level = log_level;
  state = created;
  start_time = none;
  line_buffer = [];
  console_patterns = patterns;
  needs_reboot = false;
  last_activity_from_machine = none;
  last_activity_from_client = none;
  salad_sock = connected;
  client_sock = absent;
  sent = [];
  typed = [];
})

abbrev pub Step : Type 0
Step = Action JobConsole (Unit {0})

-- A message handed to the client's socket, under `except OSError: pass`.
unfoldable pub put : Sent → Step
put m c = elim c.client_sock [
  | absent ↦ (err attribute_error, c)
  | connected ↦ (ok tt, record c { sent = c.sent ++ m ∷ [] })
  | shut_wr ↦ (ok tt, c)
  | hung_up ↦ (ok tt, c)
]

-- A send that only a client of version 1 gets. (Version 0 does not come to it, as it counts as no
-- client.)
abbrev pub send : Sent → Step
send m c = if truthy c.client_version && is_version_1 c.client_version then put m c else (ok tt, c)

-- `log`
unfoldable pub log : LogLevel → Step
unfolding put level_value
log level c =
    if ltb (level_value level) (level_value c.log_level) then (ok tt, c) else send (control level) c

-- `close_salad`
unfoldable pub close_salad : Step
close_salad c = (ok tt, record c { salad_sock = hung_up })

-- `close_client`: `self.client_sock.shutdown(...)`, which ignores `OSError` only.
unfoldable pub close_client : Step
close_client c =
    if truthy c.client_version
    then elim c.client_sock [
      | absent ↦ (err attribute_error, c)
      | _ ↦ (ok tt, record c { client_sock = hung_up })
    ]
    else (ok tt, c)

abbrev pub shut : Socket → Socket
shut connected = shut_wr
shut s = s

-- `self.client_sock.shutdown(SHUT_WR)`
unfoldable pub shut_client : Step
shut_client c =
    if truthy c.client_version
    then elim c.client_sock [
      | absent ↦ (err attribute_error, c)
      | s ↦ (ok tt, record c { client_sock = shut s })
    ]
    else (ok tt, c)

abbrev pub connect : Result (Unit {0}) → Step
connect (ok _) c = (ok tt, record c { client_sock = connected })
connect (err e) c = (err e, c)

-- `start`: connects to the client, if there is one, before the thread runs. `connects` is what
-- `socket.create_connection` answers.
unfoldable pub start : Result (Unit {0}) → Step
start connects c = if truthy c.client_version then connect connects c else (ok tt, c)

-- `set_state`, by the state that is entered: the change is logged first.
unfoldable pub enter_active : ℕ → Step
unfolding log
enter_active now = do
  λ c. (ok tt, record c { state = active })
  log info
  λ c. (ok tt, record c { start_time = some now })

unfoldable pub enter_over : Step
unfolding log close_salad close_client
enter_over = do λ c. (ok tt, record c { state = over }); log info; close_salad; close_client

-- The client of version 1 is told how the job ended.
unfoldable pub enter_tear_down : Step
unfolding log close_salad shut_client put
enter_tear_down = do
  λ c. (ok tt, record c { state = tear_down })
  log info
  close_salad
  λ c. send (session_end (from_str (job_status c.console_patterns))) c
  shut_client

-- Without a client the tear down is skipped.
unfoldable pub enter_dut_done : Step
unfolding log enter_over
enter_dut_done = do
  λ c. (ok tt, record c { state = dut_done })
  log info
  λ c. if truthy c.client_version then (ok tt, c) else enter_over c

unfoldable pub enter : ℕ → JobConsoleState → Step
unfolding enter_active enter_over enter_tear_down enter_dut_done
enter now created = pure tt
enter now active = enter_active now
enter now dut_done = enter_dut_done
enter now tear_down = enter_tear_down
enter now over = enter_over

-- `set_state`: the state can only move forward.
unfoldable pub set_state : ℕ → JobConsoleState → Step
unfolding enter
set_state now state c =
    if ltb (state_value state) (state_value c.state)
    then (err value_error, c)
    else if state_value state == state_value c.state
    then (ok tt, c)
    else enter now state c

-- `close`
unfoldable pub close : ℕ → Step
unfolding set_state
close now = set_state now over

-- The property `state`, which asks the thread whether it is alive.
unfoldable pub reported_state : Bool → JobConsole → JobConsoleState
reported_state is_alive c = elim c.state [ active ↦ if is_alive then active else over | s ↦ s ]
