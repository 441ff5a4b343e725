-- ===== src/Console/Calls.antt =====
-- executor.py: the calls on a `JobConsole` in any order, by its thread, the executor and the HTTP
-- server.
use valve_infra.Base.{ℕ, ◌≤◌, refl, Option, List, [], ◌∷◌, arith}
use valve_infra.Base.Dict.{Dict}
use valve_infra.Message.{LogLevel}
use valve_infra.Job.Timeout.{Timeout}
use valve_infra.Job.Patterns.{ConsoleState}
use valve_infra.Console.{
  err, ok, Result, JobConsole, JobConsoleState, state_value, log, set_state, start, reset_boot,
  init,
}
use valve_infra.Console.States.{ends, torn, Advance, Advance-trans}
use valve_infra.Console.Lines.{Watched, on_console}
use valve_infra.Console.Loop.{Ready, handle}
use valve_infra.Console.History.{
  Progress-trans, Progress-refl, Progress, quiet_Advance, log-Forward, set_state-Forward,
  handle-Forward,
}

-- What is done with a console: by its own thread, by the executor and by the HTTP server.
pub data Call : Type 0 where
  ready : ℕ → Ready → Call
  set_state_to : ℕ → JobConsoleState → Call
  log_at : LogLevel → Call
  start_thread : Result (Unit {0}) → Call
  start_boot : Call

-- A call, whether or not it raises.
abbrev pub call : Call → Watched → Watched
call (ready now r) w = (handle now r w).1
call (set_state_to now s) w = (on_console (set_state now s) w).1
call (log_at l) w = (on_console (log l) w).1
call (start_thread connects) w = (on_console (start connects) w).1
call start_boot w = record w { job_console = reset_boot w.job_console }

abbrev pub calls : List Call → Watched → Watched
calls [] w = w
calls (c ∷ cs) w = calls cs (call c w)

start-Advance : (connects : Result (Unit {0})) (c : JobConsole) → Advance c (start connects c).1
unfolding start
start-Advance (ok _) c = quiet_Advance (ground arith) (ground arith)
start-Advance (err e) c = quiet_Advance (ground arith) (ground arith)

call-Progress : (c : Call) (w : Watched) → Progress w (call c w)
unfolding reset_boot on_console
call-Progress (ready now r) w = handle-Forward now r w
call-Progress (set_state_to now s) w = set_state-Forward now s w
call-Progress (log_at l) w = log-Forward l w
call-Progress (start_thread connects) w = record {
  console = start-Advance connects w.job_console;
  budget = refl;
}
call-Progress start_boot w = record { console = quiet_Advance refl refl; budget = refl }

pub calls-Progress : (cs : List Call) (w : Watched) → Progress w (calls cs w)
calls-Progress [] w = Progress-refl w
calls-Progress (c ∷ cs) w = Progress-trans (call-Progress c w) (calls-Progress cs (call c w))

-- However the calls on a console interleave, and whether or not they raise, its state only moves
-- forward, and the client is told that the session ended at most once, and not before the tear
-- down.
pub session_end_once :
    (version : Option ℕ) (patterns : ConsoleState) (level : LogLevel) (timeouts : Dict Timeout)
    (before after : List Call)
    → let start : Watched = record {
      job_console = init version patterns level;
      watchdogs = timeouts;
    } in
      let w = calls before start in
      let w' = calls after w in
      (state_value w.job_console.state ≤ state_value w'.job_console.state)
      × (ends w'.job_console.sent ≤ torn w'.job_console.state)
unfolding init reset_boot
session_end_once version patterns level timeouts before after =
    let start : Watched = record {
      job_console = init version patterns level;
      watchdogs = timeouts;
    } in
    let first = (calls-Progress before start).console in
    let second = (calls-Progress after (calls before start)).console in
    let both = Advance-trans first second in (second.forward, omega (arith, both.told))
