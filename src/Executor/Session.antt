-- ===== src/Executor/Session.antt =====
-- executor.py: `Executor.start_job`, and `session_init` and `session_end` of `Executor.run`.
--
-- `start_job` runs in a thread of the HTTP server, so `session_init` is cut in three where it can
-- come between: up to the wait, the wait, and the start of the console.
use valve_infra.Base.{ℕ, Bool, true, false, ◌&&◌, not, Option, none, some, if◌then◌else◌, get_or}
use valve_infra.Base.Result.{Result, ok, err, value_error, attribute_error}
use valve_infra.Base.Action.{Action, pure, raise, ◌>>=◌, ◌>>◌}
use valve_infra.Message.{info}
use valve_infra.Message.Status.{JobStatus, from_str}
use valve_infra.Job.Schema.{Job}
use valve_infra.Job.Patterns.{job_status}
use valve_infra.Console.{JobConsole, init, start, close}
use valve_infra.Sergent.{Sergent, Task, next_task, reset, report}
use valve_infra.Executor.{MachineState, idle, training, queued, running, is_idle}

pub record Executor : Type 0 where
  pub state : MachineState
  pub sergent : Sergent
  pub ready_for_service : Bool
  pub job_ready : Bool
  pub cancel_job : Bool
  pub job_config : Option Job
  pub job_console : Option JobConsole
  pub job_bucket : Bool

-- A request, with what the job bucket, the rendering of the job and SALAD answer to it.
pub record Request : Type 0 where
  pub version : Option ℕ
  pub bucket : Result (Unit {0})
  pub credentials : Result (Unit {0})
  pub rendered : Result Job
  pub salad : Result (Unit {0})

abbrev pub Call : Type 0 → Type 0
Call = Action Executor

abbrev pub reply : {A : Type 0} → Result A → Call A
reply r e = (r, e)

-- `start_job`
unfoldable pub start_job : Request → Call (Unit {0})
start_job req e =
    (do
      if is_idle e.state then pure tt else raise value_error
      reply req.bucket
      λ e. (ok tt, record e { job_bucket = true })
      reply req.credentials
      job ← reply req.rendered
      λ e. (ok tt, record e { state = queued; job_config = some job })
      reply req.salad
      λ e. (
        ok tt,
        record e {
          job_console = some (init req.version job.console_patterns info);
          job_ready = true;
        },
      ))
      e

-- `self.job_config = self.sergent_hartman.next_task()`
unfoldable take_task : (Task → Result Job) → Result (Task × Sergent) → Call (Unit {0})
take_task load (err x) = raise x
take_task load (ok (task, s)) = do
  λ e. (ok tt, record e { sergent = s })
  job ← reply (load task)
  λ e. (ok tt, record e { job_config = some job })

abbrev training_console : Option Job → Option JobConsole
training_console none = none
training_console (some job) = some (init none job.console_patterns info)

-- A machine that is not in service is trained.
unfoldable train : (Task → Result Job) → Result (Unit {0}) → Call Bool
unfolding next_task take_task
train load salad = do
  λ e. (ok tt, record e { state = training })
  λ e. take_task load (next_task e.sergent) e
  reply salad
  λ e. (ok tt, record e { job_console = training_console e.job_config })
  pure false

-- `session_init`, up to the wait for a job, and whether to wait. `available` is whether the
-- training jobs are configured, `load` reads the job of a task, and `salad` is what SALAD answers.
unfoldable pub pick : Bool → (Task → Result Job) → Result (Unit {0}) → Call Bool
unfolding train reset
pick available load salad e =
    let clean : Executor = record e { job_config = none; job_console = none } in
    if available && not clean.ready_for_service
    then train load salad clean
    else (ok true, record clean { sergent = reset clean.sergent; state = idle })

-- `if not self.job_ready.wait(1)`, at its end.
unfoldable pub wait : Call Bool
wait e =
    if e.job_ready
    then (ok true, record e { job_ready = false; cancel_job = false; state = running })
    else (ok false, e)

-- `self.job_console.start()`
unfoldable pub start_console : Result (Unit {0}) → Option JobConsole → Call (Unit {0})
unfolding start
start_console connects none e = raise attribute_error e
start_console connects (some c) e =
    let (r, c') = start connects c in (r, record e { job_console = some c' })

-- The rest of `session_init`; `power` is what the PDU answers, `connects` what the connection to the
-- client's endpoint does.
unfoldable pub begin : Result (Unit {0}) → Result (Unit {0}) → Call (Unit {0})
unfolding start_console
begin power connects = do reply power; λ e. start_console connects e.job_console e

-- `self.machine.ready_for_service = ready_for_service`: a value that is new is stored in the machine
-- first, and then has the machine configured again and the database saved, which can raise.
abbrev pub assigned : Result (Unit {0}) → Option Bool → Bool → Result (Unit {0})
assigned serviced none old = ok tt
assigned serviced (some true) true = ok tt
assigned serviced (some false) false = ok tt
assigned serviced (some true) false = serviced
assigned serviced (some false) true = serviced

abbrev pub delayed : ℕ → Result (Unit {0}) → Result ℕ
delayed delay (ok _) = ok delay
delayed delay (err e) = err e

-- `int(self.sergent_hartman.report(status))`
unfoldable pub report_status : ℕ → Result (Unit {0}) → JobStatus → Call ℕ
unfolding report
report_status retrial_delay serviced status e =
    let r = report retrial_delay status e.sergent in
    (
      delayed r.delay (assigned serviced r.ready e.ready_for_service),
      record e { sergent = r.sergent; ready_for_service = get_or r.ready e.ready_for_service },
    )

-- The part of `session_end` that reports to the trainer: the cooldown delay in seconds. `serviced`
-- is what the configuration of the machine answers.
unfoldable pub report_job : ℕ → Result (Unit {0}) → Option Job → Call ℕ
unfolding report_status
report_job retrial_delay serviced none e = pure 0 e
report_job retrial_delay serviced (some job) e =
    if e.sergent.is_active
    then report_status retrial_delay serviced (from_str (job_status job.console_patterns)) e
    else (ok 0, e)

-- "Signal to the job that we reached the end of the execution"
unfoldable pub close_console : ℕ → Option JobConsole → Call (Unit {0})
unfolding close
close_console now none = pure tt
close_console now (some c) = do
  λ e. let (r, c') = close now c in (r, record e { job_console = some c' })
  λ e. (ok tt, record e { job_console = none; job_bucket = false })

-- `session_end`
unfoldable pub session_end : ℕ → Result (Unit {0}) → ℕ → Call ℕ
unfolding report_job close_console
session_end retrial_delay serviced now = do
  delay ← λ e. report_job retrial_delay serviced e.job_config e
  λ e. (ok tt, record e { job_config = none })
  λ e. close_console now e.job_console e
  pure delay
