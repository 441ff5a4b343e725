-- ===== src/Witnesses/OfConsole.antt =====
-- Consoles: runs of the theorems.
use valve_infra.Base.{◌≡◌, refl, ℕ, ◌≤◌, some, List, [], ◌∷◌, ◌++◌, arith, if◌then◌else◌}
use valve_infra.Base.Result.{ok, err, attribute_error}
use valve_infra.Message.{info}
use valve_infra.Message.Framing.{Bytes}
use valve_infra.Console.{
  JobConsole, active, tear_down, over, state_value, start, init, reset_boot, close, hung_up, absent,
  truthy,
}
use valve_infra.Console.Lines.{Watched, match_console_patterns, concat}
use valve_infra.Console.Chunks.{match_console_patterns-append}
use valve_infra.Console.Loop.{from_salad, run_loop}
use valve_infra.Console.States.{ends, torn}
use valve_infra.Console.Calls.{Call, ready, set_state_to, start_thread, calls, session_end_once}
use valve_infra.Console.Closing.{unconnected, trips, close_lem}
use valve_infra.Console.Relay.{IsRelaying, payload}
use valve_infra.Console.Transparent.{from_machine, buffers, run_loop-payload}
use valve_infra.Witnesses.{patterns, console, watched}

abbrev before : List Call
before = start_thread (ok tt) ∷ set_state_to 1 active ∷ ready 2 (from_salad (69 ∷ 10 ∷ [])) ∷ []

abbrev after : List Call
after = set_state_to 3 tear_down ∷ set_state_to 4 tear_down ∷ set_state_to 5 active ∷ []

abbrev fresh : Watched
fresh = record { job_console = init (some 1) patterns info; watchdogs = [] }

session_end_once_example :
    (state_value (calls before fresh).job_console.state
      ≤ state_value (calls after (calls before fresh)).job_console.state)
    × (ends (calls after (calls before fresh)).job_console.sent
        ≤ torn (calls after (calls before fresh)).job_console.state)
session_end_once_example = session_end_once (some 1) patterns info [] before after

abbrev bufs : List (ℕ × Bytes)
bufs = (1, 72 ∷ 105 ∷ []) ∷ (2, 69 ∷ 10 ∷ []) ∷ (3, 33 ∷ []) ∷ []

console-IsRelaying : IsRelaying console
unfolding start init reset_boot
console-IsRelaying = record { version = refl; client = refl; early = omega arith }

run_loop-payload_example :
    (w' : Watched) × (run_loop (from_machine bufs) watched ≡ (ok tt, w'))
    × IsRelaying w'.job_console
    × (payload w'.job_console.sent ≡ payload console.sent ++ concat (buffers bufs))
run_loop-payload_example = run_loop-payload bufs watched console-IsRelaying

match_console_patterns-append_example :
    let once = (match_console_patterns 1 ((82 ∷ []) ++ 10 ∷ []) watched).1 in
    let first = (match_console_patterns 1 (82 ∷ []) watched).1 in
    let twice = (match_console_patterns 1 (10 ∷ []) first).1 in
    (twice.job_console.console_patterns ≡ once.job_console.console_patterns)
    × (twice.watchdogs ≡ once.watchdogs)
    × (twice.job_console.line_buffer ≡ once.job_console.line_buffer)
match_console_patterns-append_example = match_console_patterns-append 1 (82 ∷ []) (10 ∷ []) watched

abbrev unstarted : JobConsole
unstarted = init (some 1) patterns info

close_example :
    let (r, c') = close 1 unstarted in
    (r ≡ (if unconnected unstarted then err attribute_error else ok tt))
    × (c'.state ≡ over)
    × (c'.salad_sock ≡ (if trips unstarted then unstarted.salad_sock else hung_up))
    × (c'.client_sock ≡ (
        if unconnected unstarted
        then absent
        else if truthy unstarted.client_version
        then hung_up
        else unstarted.client_sock))
unfolding init reset_boot
close_example = close_lem 1 unstarted (omega arith)
