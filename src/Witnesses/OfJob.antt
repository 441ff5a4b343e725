-- ===== src/Witnesses/OfJob.antt =====
-- Jobs: runs of the theorems.
use valve_infra.Base.{◌≡◌, refl, true, false, ◌*◌, none, some, List, [], ◌∷◌, get_or}
use valve_infra.Base.Result.{Result, ok, err}
use valve_infra.Base.Dict.{Dict, lookup, insert}
use valve_infra.Job.Timeout
use valve_infra.Job.Timeout.{Timeout, retry_times, retry_budget, has_expired-start}
use valve_infra.Job.Timeouts.{type_value, make as make_timeouts, given as timeout_given}
use valve_infra.Job.Patterns.{init, job_status, ConsoleState, Watchdog}
use valve_infra.Job.Patterns.Seen.{Event, line, boot, run}
use valve_infra.Job.Patterns.Status.{status_spec, job_status_lem}
use valve_infra.Job.Deployment.{DeploymentData}
use valve_infra.Job.Schema.{Job, load_timeouts, JobData, make, job_limits, hour, minute}
use valve_infra.Witnesses.{job, letter, patterns, dog}

abbrev slow : Timeout
slow = Timeout.init "boot_cycle" 100 2

abbrev by_job : Dict Timeout
by_job = ("boot_cycle", slow) ∷ []

abbrev stubborn : Dict Timeout
stubborn = ("overall", Timeout.init "overall" 100 2) ∷ []

abbrev events : List Event
events = line 1 (83 ∷ 10 ∷ []) ∷ line 2 (82 ∷ 10 ∷ []) ∷ boot ∷ line 3 (69 ∷ 10 ∷ []) ∷ []

abbrev after : ConsoleState
after =
    (run events
      (init (letter 69) (some (letter 82)) (some (letter 83)) none (some (letter 85)) none, [])).0

job_status_example : job_status after ≡ status_spec true (some (letter 83)) true false
job_status_example =
    job_status_lem (letter 69) (some (letter 82)) (some (letter 83)) none (some (letter 85)) none []
      events

abbrev dogs : Dict Watchdog
dogs = ("dog", dog) ∷ []

abbrev start_data : DeploymentData
start_data = record {
  kernel = some (record { url = some "https://example.org/kernel"; cmdline = none });
  initramfs = none;
}

abbrev job_data : JobData
job_data = record {
  version = none;
  deadline = none;
  target = none;
  timeouts = some (record { by_type = by_job; watchdogs = none });
  console_patterns = patterns;
  start = start_data;
  cont = none;
}

abbrev given : Job → Result Job → Job
given j (ok k) = k
given j (err e) = j

abbrev accepted : Job
accepted = given job (make job_data)

job_limits_example :
    (accepted.timeouts.overall
      ≡ get_or (lookup "overall" by_job) (Timeout.init "overall" (6 * hour) 0))
    × (accepted.timeouts.infra_teardown
        ≡ get_or (lookup "infra_teardown" by_job) (Timeout.init "infra_teardown" (10 * minute) 0))
    × (accepted.timeouts.overall.retries ≡ 0)
    × (accepted.timeouts.infra_teardown.retries ≡ 0)
unfolding make load_timeouts make_timeouts timeout_given insert lookup Timeout.init type_value
job_limits_example = job_limits job_data {job = accepted} (refl, tt) refl
