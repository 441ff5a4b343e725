-- ===== src/Executor/Iteration/Ends.antt =====
-- What an iteration of the executor leaves, whatever happened in it.
use valve_infra.Base.{ℕ, ◌≡◌, refl, ◌⊎◌, Option, none, some}
use valve_infra.Base.Result.{Result, ok, err, Exception}
use valve_infra.Base.Action.{pure, continue, ◌>>◌}
use valve_infra.Job.Schema.{Job}
use valve_infra.Console.{JobConsole, close}
use valve_infra.Executor.Session.{Call, Executor, report_job, close_console}

-- The console is gone, or to close it raised.
abbrev pub Gone : ℕ → Option JobConsole → Executor → Type 0
Gone now o e =
    (e.job_console ≡ none)
    ⊎ ((c : JobConsole) × (x : Exception) × (o ≡ some c) × ((close now c).0 ≡ err x))

-- A report leaves the console; it raises only what the configuration of the machine does.
abbrev Reported : Result (Unit {0}) → Executor → Result ℕ × Executor → Type 0
Reported serviced e (r, e') =
    (e'.job_console ≡ e.job_console)
    × (((n : ℕ) × (r ≡ ok n)) ⊎ ((x : Exception) × (r ≡ err x) × (serviced ≡ err x)))

kept :
    {A B : Type 0} (r : Result A) (b : B) (e : Executor)
    → (continue r (λ x. (λ w. (ok b, w))) e).1 ≡ e
kept (ok a) b e = refl
kept (err x) b e = refl

unfoldable pub finish : ℕ → ℕ → Call ℕ
finish now delay = do
  λ e. (ok tt, record e { job_config = none })
  λ e. close_console now e.job_console e
  pure delay

pub closing :
    (now : ℕ) (r : Result ℕ) (delay : ℕ) (e : Executor)
    → r ≡ ok delay
    → (continue r (finish now) e).1
      ≡ (close_console now e.job_console (record e { job_config = none })).1
unfolding finish
closing now (ok d) delay e h =
    kept (close_console now e.job_console (record e { job_config = none })).0 d
      (close_console now e.job_console (record e { job_config = none })).1
closing now (err x) delay e h = cc

-- What `session_end` makes of an executor: it is done with, or the report raised.
abbrev pub Ended : ℕ → Result (Unit {0}) → ℕ → Executor → Executor → Type 0
Ended d serviced now e e' =
    let (r, reported) = report_job d serviced e.job_config e in
    ((e'.job_config ≡ none) × Gone now e.job_console e')
    ⊎ ((x : Exception) × (r ≡ err x) × (serviced ≡ err x) × (e' ≡ reported))
