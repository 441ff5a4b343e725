-- ===== src/Console/Loop.antt =====
-- executor.py: `JobConsole.run`, the thread that relays between SALAD and the client.
--
-- The calls of `select` and `recv` are the input: for each pass over the loop, the time and what
-- the ready sockets gave. A negative descriptor, which ends the loop, is not modelled.
use valve_infra.Base.{
  ℕ, Bool, true, false, ◌&&◌, none, some, List, [], ◌∷◌, ◌++◌, ltb, ◌==◌, any, if◌then◌else◌,
}
use valve_infra.Base.Result.{ok, err, Exception, os_error, eof_error, attribute_error}
use valve_infra.Base.Action.{Action, pure, raise, ◌>>◌, try_except}
use valve_infra.Message.{info}
use valve_infra.Message.Framing.{Bytes}
use valve_infra.Job.Patterns.{session_has_ended}
use valve_infra.Console.{
  absent, connected, Step, job_io, truthy, is_version_1, log, set_state, close, state_value, active,
  dut_done, tear_down, over,
}
use valve_infra.Console.Lines.{Watched, on_console, match_console_patterns, newline}

-- What a ready socket gives: bytes of the machine, or a message of the client, or an exception.
pub data Ready : Type 0 where
  from_salad : Bytes → Ready
  from_client : Bytes → Ready
  other_message : Ready
  salad_raises : Exception → Ready
  client_raises : Exception → Ready

-- `JobIOMessage.create(buf).send(self.client_sock)`, which no one here guards.
unfoldable pub forward : Bytes → Step
forward buf c =
    if truthy c.client_version && is_version_1 c.client_version
    then elim c.client_sock [
      | absent ↦ (err attribute_error, c)
      | connected ↦ (ok tt, record c { sent = c.sent ++ job_io buf ∷ [] })
      | _ ↦ (err os_error, c)
    ]
    else (ok tt, c)

-- `if self.last_activity_from_machine is not None or b'\n' in buf:`
unfoldable pub machine_was_active : ℕ → Bytes → Step
machine_was_active now buf c = elim c.last_activity_from_machine [
  | some _ ↦ (ok tt, record c { last_activity_from_machine = some now })
  | none ↦
      if any (λ b. b == newline) buf
      then (ok tt, record c { last_activity_from_machine = some now })
      else (ok tt, c)
]

abbrev pub everything : Exception → Bool
everything e = true

abbrev pub is_os_error : Exception → Bool
is_os_error os_error = true
is_os_error e = false

abbrev pub not_os : Exception → Bool
not_os os_error = false
not_os e = true

abbrev pub is_eof_error : Exception → Bool
is_eof_error eof_error = true
is_eof_error e = false

abbrev pub is_empty : Bytes → Bool
is_empty [] = true
is_empty (b ∷ bs) = false

-- From the machine to the client.
unfoldable pub relay_machine : ℕ → Bytes → Action Watched (Unit {0})
unfolding match_console_patterns on_console machine_was_active forward set_state log
relay_machine now buf = do
  if is_empty buf then on_console (set_state now dut_done) else pure tt
  try_except (match_console_patterns now buf) everything (on_console (log info))
  on_console (machine_was_active now buf)
  on_console (forward buf)
  on_console
      (λ c. if session_has_ended c.console_patterns then set_state now dut_done c else (ok tt, c))

-- `self.salad_sock.send(msg.buffer)`
unfoldable pub type_in : Bytes → Step
type_in buf c = elim c.salad_sock [
  | connected ↦ (ok tt, record c { typed = c.typed ++ buf ∷ [] })
  | _ ↦ (err os_error, c)
]

-- The client closed its connection: both sockets are hung up.
unfoldable pub client_left : ℕ → Action Watched (Unit {0})
unfolding on_console log close
client_left now = do
  on_console
      (λ c. if ltb (state_value c.state) (state_value tear_down) then log info c else (ok tt, c))
  on_console (log info)
  on_console (close now)

unfoldable pub client_was_active : ℕ → Step
client_was_active now c = (ok tt, record c { last_activity_from_client = some now })

-- One ready socket, in the inner `try`.
unfoldable pub relay : ℕ → Ready → Action Watched (Unit {0})
unfolding relay_machine on_console type_in client_left client_was_active
relay now (from_salad buf) = relay_machine now buf
relay now (salad_raises e) = raise e
relay now (from_client buf) = do
  try_except (on_console (type_in buf)) is_eof_error (client_left now)
  on_console (client_was_active now)
relay now other_message = on_console (client_was_active now)
relay now (client_raises e) = do
  try_except (raise e) is_eof_error (client_left now)
  on_console (client_was_active now)

-- The `except` clauses of the loop: a broken socket closes the console, any other exception is
-- logged and forgotten.
unfoldable pub handle : ℕ → Ready → Action Watched (Unit {0})
unfolding relay on_console log close
handle now r =
    try_except (try_except (relay now r) not_os (pure tt)) is_os_error
      (do on_console (log info); on_console (close now))

-- One pass over the ready sockets.
unfoldable pub handle_all : ℕ → List Ready → Action Watched (Unit {0})
unfolding handle
handle_all now [] = pure tt
handle_all now (r ∷ rs) = do handle now r; handle_all now rs

pub record Pass : Type 0 where
  pub now : ℕ
  pub ready : List Ready

-- `while self.state < JobConsoleState.OVER:`
unfoldable pub run_loop : List Pass → Action Watched (Unit {0})
unfolding handle_all
run_loop [] w = (ok tt, w)
run_loop (p ∷ ps) w =
    let rest = run_loop ps in
    if ltb (state_value w.job_console.state) (state_value over)
    then (handle_all p.now p.ready >> rest) w
    else (ok tt, w)

-- `run`
unfoldable pub run : ℕ → List Pass → Action Watched (Unit {0})
unfolding on_console set_state run_loop
run now ps = do on_console (set_state now active); run_loop ps
