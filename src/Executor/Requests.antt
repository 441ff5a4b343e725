-- ===== src/Executor/Requests.antt =====
-- executor.py: what becomes of a job that is handed to `start_job`.
use valve_infra.Base.{ap, Option, ◌∙◌, ℕ, ◌≡◌, refl, Bool, true, false, none, some}
use valve_infra.Base.Result.{Result, ok, err, value_error, attribute_error}
use valve_infra.Base.Action.{◌>>◌}
use valve_infra.Message.{info}
use valve_infra.Job.Schema.{Job}
use valve_infra.Console.{JobConsole, init, close}
use valve_infra.Sergent.{Task, reset}
use valve_infra.Executor.{idle, queued, running, is_idle}
use valve_infra.Executor.Iteration.Ends.{closing, finish}
use valve_infra.Executor.Session.{
  close_console, report_job, start_console, Executor, Request, start_job, pick, wait, begin,
  session_end,
}

-- A job is only taken by a machine that is idle: any other answers `ValueError` and stays as it is.
start_job-busy :
    (req : Request) (e : Executor)
    → is_idle e.state ≡ false
    → start_job req e ≡ (err value_error, e)
unfolding start_job
start_job-busy req e h = rw h

-- The executor as a wait for a job begins.
abbrev waiting : Executor → Executor
waiting e = record e {
  job_config = none;
  job_console = none;
  sergent = reset e.sergent;
  state = idle;
}

pick-waiting :
    (available : Bool) (load : Task → Result Job) (salad : Result (Unit {0})) (e : Executor)
    → e.ready_for_service ≡ true
    → pick available load salad e ≡ (ok true, waiting e)
unfolding pick
pick-waiting true load salad e ready = rw ready
pick-waiting false load salad e ready = refl

-- The executor once it has taken a job.
abbrev pub handed : Request → Job → Executor → Executor
handed req job e = record e {
  job_bucket = true;
  state = queued;
  job_config = some job;
  job_console = some (init req.version job.console_patterns info);
  job_ready = true;
}

start_job-handed :
    (req : Request) (job : Job) (e : Executor)
    → is_idle e.state ≡ true
    → req.bucket ≡ ok tt
    → req.credentials ≡ ok tt
    → req.rendered ≡ ok job
    → req.salad ≡ ok tt
    → start_job req e ≡ (ok tt, handed req job e)
unfolding start_job
start_job-handed req job e h bucket credentials rendered connected =
    rw (h, bucket, credentials, rendered, connected)

-- What `session_end` leaves of an executor that goes on to the next session.
abbrev IsHanded : Executor → Executor → Type 0
IsHanded e e' = (e'.ready_for_service ≡ e.ready_for_service) × (e'.job_ready ≡ e.job_ready)

close_console-IsHanded :
    (now : ℕ) (o : Option JobConsole) (e : Executor) → IsHanded e (close_console now o e).1
unfolding close_console
close_console-IsHanded now none e = (refl, refl)
close_console-IsHanded now (some c) e = closed (close now c).0 refl
  where
    closed :
        (r : Result (Unit {0})) → (close now c).0 ≡ r → IsHanded e (close_console now (some c) e).1
    closed (ok _) at = rw at (refl, refl)
    closed (err x) at = rw at (refl, refl)

session_end-handed :
    (delay now : ℕ) (serviced : Result (Unit {0})) (req : Request) (job : Job) (e : Executor)
    → let given = handed req job (waiting e) in
      IsHanded given (session_end delay serviced now given).1
unfolding session_end report_job reset finish
session_end-handed delay now serviced req job e =
    let given = handed req job (waiting e) in
    let (ready, woken) =
      close_console-IsHanded now given.job_console (record given { job_config = none }) in
    let after = closing now (ok 0) 0 given refl in
    (ap (λ x. x.ready_for_service) after ∙ ready, ap (λ x. x.job_ready) after ∙ woken)

wait_out : (e : Executor) → e.job_ready ≡ false → wait e ≡ (ok false, e)
unfolding wait
wait_out e h = rw h

abbrev pub woken : Executor → Executor
woken e = record e { job_ready = false; cancel_job = false; state = running }

wait_over : (e : Executor) → e.job_ready ≡ true → wait e ≡ (ok true, woken e)
unfolding wait
wait_over e h = rw h

-- A session that begins with a job ready, but without one.
begins_without :
    (load : Task → Result Job) (salad connects : Result (Unit {0})) (e : Executor)
    → e.ready_for_service ≡ true
    → e.job_ready ≡ true
    → let r = (pick true load salad >> wait >> begin (ok tt) connects) e in
      (r.0 ≡ err attribute_error) × (r.1.job_config ≡ none)
unfolding begin start_console
begins_without load salad connects e ready quiet =
    rw (pick-waiting true load salad e ready, wait_over (waiting e) quiet) (refl, refl)

-- A job that comes between the end of a wait and the next one is taken, and lost: whatever the end
-- of this session does, the next one begins without the job, and raises `AttributeError` at its
-- missing console.
pub job_lost :
    (load : Task → Result Job) (salad connects serviced : Result (Unit {0})) (delay now : ℕ)
    (req : Request) (job : Job) (e : Executor)
    → e.ready_for_service ≡ true
    → e.job_ready ≡ false
    → req.bucket ≡ ok tt
    → req.credentials ≡ ok tt
    → req.rendered ≡ ok job
    → req.salad ≡ ok tt
    → let waited = (pick true load salad >> wait >> start_job req) e in
      let ended = (session_end delay serviced now waited.1).1 in
      let r = (pick true load salad >> wait >> begin (ok tt) connects) ended in
      (waited.0 ≡ ok tt) × (r.0 ≡ err attribute_error) × (r.1.job_config ≡ none)
job_lost load salad connects serviced delay now req job e ready quiet bucket credentials rendered
      connected =
    let given = handed req job (waiting e) in
    let (keeps, wakes) = session_end-handed delay now serviced req job e in
    let (raises, without) =
      begins_without load salad connects (session_end delay serviced now given).1 (keeps ∙ ready)
        wakes in
    rw
      (
        pick-waiting true load salad e ready,
        wait_out (waiting e) quiet,
        start_job-handed req job (waiting e) refl bucket credentials rendered connected,
      )
      (refl, raises, without)
