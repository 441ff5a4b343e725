-- ===== src/Executor/Iteration.antt =====
-- executor.py: `session_init` as a whole, and one iteration of the loop of `Executor.run`.
--
-- The surroundings of an iteration are a `Turn`; `execute` stands for any call: what `execute_job`
-- does to the executor, and whether it raises.
pub mod Ends
use valve_infra.Base.{ℕ, Bool, true, false, Option, none, some, List, [], ◌∷◌, if◌then◌else◌}
use valve_infra.Base.Result.{Result, ok, err, Exception}
use valve_infra.Base.Action.{Action, pure, raise, caught_by, ◌>>=◌, ◌>>◌}
use valve_infra.Message.{LogLevel, debug, error}
use valve_infra.Job.Schema.{Job}
use valve_infra.Console.{JobConsole, log}
use valve_infra.Sergent.{Task}
use valve_infra.Executor.Session.{
  Executor, Request, Call, start_job, pick, wait, begin, session_end,
}

pub record Turn : Type 0 where
  pub has_port : Bool
  pub available : Bool
  pub load : Task → Result Job
  pub salad : Result (Unit {0})
  pub power : Result (Unit {0})
  pub connects : Result (Unit {0})
  pub arrivals : List Request
  pub execute : Call (Unit {0})
  pub retrial_delay : ℕ
  pub serviced : Result (Unit {0})
  pub now : ℕ

-- The requests that are handed over while the executor waits; what they raise is answered to them.
unfoldable pub arrive : List Request → Call (Unit {0})
unfolding start_job
arrive [] e = (ok tt, e)
arrive (req ∷ reqs) e = arrive reqs (start_job req e).1

abbrev pub waited : Bool → Turn → Call Bool
waited true t = do arrive t.arrivals; wait
waited false t = pure true

abbrev pub begun : Bool → Turn → Call Bool
begun true t = do begin t.power t.connects; pure true
begun false t = pure false

-- `session_init`
unfoldable pub session_init : Turn → Call Bool
unfolding pick arrive wait begin
session_init t = do waits ← pick t.available t.load t.salad; ready ← waited waits t; begun ready t

-- `self.log`
abbrev pub log_any : LogLevel → Option JobConsole → Call (Unit {0})
log_any level none e = (ok tt, e)
log_any level (some c) e = let (r, c') = log level c in (r, record e { job_console = some c' })

abbrev pub job : Bool → Turn → Call (Unit {0})
job true t = do λ e. log_any debug e.job_console e; t.execute
job false t = pure tt

-- The inner `try`, with `log_exception`.
unfoldable pub session : Turn → Call (Unit {0})
unfolding session_init log
session t e =
    let (r, e') = (do ready ← session_init t; job ready t) e in
    caught_by (λ x. true) (λ e. log_any error e.job_console e) r e'

-- One iteration: `session_end` is in a `finally`, and the outer `except` drops every exception.
unfoldable pub iteration : Turn → Executor → Executor
unfolding session session_end
iteration t e =
    if t.has_port then (session_end t.retrial_delay t.serviced t.now (session t e).1).1 else e
