-- ===== src/Sergent.antt =====
-- executor/server/src/valve_gfx_ci/executor/server/executor.py: `SergentHartman`, which trains a
-- machine: it has it register itself, then boots it a number of times, and puts it in service if
-- enough of the boots pass.
pub mod Qualify
use valve_infra.Base.{
  ℕ, zero, suc, ◌+◌, Bool, true, false, Option, none, some, ltb, leb, ◌==◌, if◌then◌else◌,
}
use valve_infra.Base.Result.{Result, ok, err, value_error, guard, ◌>>=◌, ◌>>◌}
use valve_infra.Message.Status.{
  JobStatus, pass, warn, complete, fail, incomplete, unknown, setup_fail, status_code,
}

infix 50 ◌=j◌
abbrev pub ◌=j◌ : JobStatus → JobStatus → Bool
a =j b = status_code a == status_code b

-- `defaultdict(int)` keyed by the statuses.
abbrev pub Statuses : Type 0
Statuses = JobStatus → ℕ

-- `self.statuses[job_status] += 1`
abbrev pub bump : JobStatus → Statuses → Statuses
bump s f t = if s =j t then f t + 1 else f t

-- `sum(self.statuses.values())`
abbrev pub total : Statuses → ℕ
total f = f pass + f warn + f complete + f fail + f incomplete + f unknown + f setup_fail

pub record Sergent : Type 0 where
  pub boot_loop_counts : ℕ
  pub qualifying_rate : ℕ
  pub is_active : Bool
  pub cur_loop : ℕ
  pub statuses : Statuses

-- The two jobs that it has run.
pub data Task : Type 0 where
  registration bootloop : Task

unfoldable is_machine_registered : Sergent → Bool
is_machine_registered s = ltb 0 s.cur_loop

-- `SergentHartman.reset`
unfoldable pub reset : Sergent → Sergent
reset s = record s { is_active = false; cur_loop = 0; statuses = λ t. 0 }

-- `SergentHartman.__init__`; the counts come from the configuration where they are not given.
unfoldable pub init : ℕ → ℕ → Sergent
unfolding reset
init boot_loop_counts qualifying_rate = reset (record {
  boot_loop_counts = boot_loop_counts;
  qualifying_rate = qualifying_rate;
  is_active = false;
  cur_loop = 0;
  statuses = λ t. 0;
})

-- `SergentHartman.next_task`, up to the loading of the job.
unfoldable pub next_task : Sergent → Result (Task × Sergent)
unfolding reset
next_task s =
    if s.is_active
    then (do
      guard (s.cur_loop == total s.statuses) value_error
      ok (bootloop, record s { cur_loop = s.cur_loop + 1 }))
    else ok (registration, record (reset s) { is_active = true })

-- What `report` gives back: the delay in seconds, the state, and what it assigned to the machine's
-- `ready_for_service`, if it did.
pub record Report : Type 0 where
  pub delay : ℕ
  pub sergent : Sergent
  pub ready : Option Bool

-- `SergentHartman.report`; `retrial_delay` is the configuration's.
unfoldable pub report : ℕ → JobStatus → Sergent → Report
unfolding reset
report retrial_delay status s =
    if s.cur_loop == 0
    then (if status =j pass
        then record { delay = 0; sergent = s; ready = none }
        else record { delay = retrial_delay; sergent = reset s; ready = none })
    else (let counted : Sergent = record s { statuses = bump status s.statuses } in
        if s.cur_loop == s.boot_loop_counts
        then record {
          delay = 0;
          sergent = record counted { is_active = false };
          ready = some (leb s.qualifying_rate (counted.statuses pass));
        }
        else record { delay = 0; sergent = counted; ready = none })
