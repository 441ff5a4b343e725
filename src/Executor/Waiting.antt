-- ===== src/Executor/Waiting.antt =====
-- executor.py: what the loops of `execute_job` work on, and its inner loop.
--
-- The input is a script: for each reading of a loop's condition, the time and what the console's
-- thread and others did since the last one.
use valve_infra.Base.{
  ℕ, Bool, ◌&&◌, ◌||◌, not, Option, none, some, List, [], ◌∷◌, ltb, if◌then◌else◌,
}
use valve_infra.Job.Timeout
use valve_infra.Job.Timeout.{Timeout}
use valve_infra.Job.Timeouts.{Timeouts, has_expired as any_expired}
use valve_infra.Job.Deployment.{Deployment}
use valve_infra.Pdu.{PduState}
use valve_infra.Console.{JobConsole, state_value, reported_state}
use valve_infra.Console.Calls.{Call, calls}
use valve_infra.Executor.{BootConfig}

pub record Run : Type 0 where
  pub console : JobConsole
  pub timeouts : Timeouts
  pub is_alive : Bool
  pub stop_event : Bool
  pub cancel_job : Bool
  pub deployment : Deployment
  pub boot_config : Option BootConfig
  pub power : List PduState

-- What happened up to a reading: events are only ever set, and a thread that died stays dead.
pub record Reading : Type 0 where
  pub now : ℕ
  pub calls : List Call
  pub dies : Bool
  pub stops : Bool
  pub cancels : Bool

-- The console and the watchdogs as the others left them.
unfoldable pub observe : Reading → Run → Run
observe p r =
    let w = calls p.calls (record { job_console = r.console; watchdogs = r.timeouts.watchdogs }) in
    record r {
      console = w.job_console;
      timeouts = record r.timeouts { watchdogs = w.watchdogs };
      is_alive = r.is_alive && not p.dies;
      stop_event = r.stop_event || p.stops;
      cancel_job = r.cancel_job || p.cancels;
    }

-- `self.job_console.state < JobConsoleState.DUT_DONE`
abbrev pub before_done : Run → Bool
before_done r = ltb (state_value (reported_state r.is_alive r.console)) 2

-- The condition of the outer loop.
unfoldable pub keeps_booting : ℕ → Run → Bool
keeps_booting now r =
    not r.stop_event
    && not r.cancel_job
    && not (Timeout.has_expired now r.timeouts.overall)
    && before_done r

-- The condition of the inner loop.
unfoldable pub keeps_waiting : ℕ → Run → Bool
keeps_waiting now r =
    before_done r
    && not r.console.needs_reboot
    && not r.stop_event
    && not r.cancel_job
    && not (any_expired now r.timeouts)

-- The body of the inner loop.
unfoldable pub update_activity : ℕ → Run → Run
update_activity now r = elim r.console.last_activity_from_machine [
  | none ↦ r
  | some when ↦ record r {
    timeouts = record r.timeouts {
      first_console_activity = Timeout.stop r.timeouts.first_console_activity;
      console_activity = Timeout.reset (some when) now r.timeouts.console_activity;
    };
  }
]

-- The inner loop: the instant at which it ended, or `none` if it did not within these readings.
unfoldable pub wait_for_end : List Reading → Run → Option ℕ × Run
unfolding observe keeps_waiting update_activity
wait_for_end [] r = (none, r)
wait_for_end (p ∷ ps) r =
    let seen = observe p r in
    let rest = wait_for_end ps (update_activity p.now seen) in
    if keeps_waiting p.now seen then rest else (some p.now, seen)
