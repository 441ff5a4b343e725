-- ===== src/Witnesses/OfExecutor.antt =====
-- The executor and the trainer: runs of the theorems.
use valve_infra.Base.{
  ◌≡◌, refl, ℕ, ◌+◌, ◌≤◌, String, true, false, Option, none, some, List, [], ◌∷◌, ◌++◌, arith, leb,
}
use valve_infra.Base.Result.{Result, ok, err, attribute_error}
use valve_infra.Base.Action.{◌>>◌}
use valve_infra.Message.Status.{pass, fail}
use valve_infra.Job.Timeout
use valve_infra.Job.Timeouts.{has_expired as any_expired}
use valve_infra.Base.Dict.{values, insert}
use valve_infra.Job.Patterns.{
  needs_reboot, reset_per_boot_state, init as console_state_init, session_has_ended, watch_all,
}
use valve_infra.Job.Timeouts.Spend.{left_of}
use valve_infra.Console.{reset_boot, active, start, init, reported_state}
use valve_infra.Console.Loop.{relay_machine, handle, from_salad}
use valve_infra.Console.Calls.{Call, ready, set_state_to}
use valve_infra.Sergent.{Sergent, Task, init as sergent_init}
use valve_infra.Sergent.Qualify.{rounds, passes, qualifies}
use valve_infra.Executor.Cache.{Cache, Mapping}
use valve_infra.Executor.Waiting.{Run, Reading}
use valve_infra.Executor.Boots.{retry_boot, finish_boot, boot_once, Boot, boot_loop, looping}
use valve_infra.Executor.Bounded.{boots_bounded}
use valve_infra.Executor.Bounded.Spent.{taken_back}
use valve_infra.Executor.Bounded.Power.{cycles, power_cycles}
use valve_infra.Executor.Iteration.{Turn}
use valve_infra.Executor.Session.{start_job, pick, wait, begin, session_end}
use valve_infra.Executor.Requests.{job_lost}
use valve_infra.Executor.TearDown.{Ending, serve_client, serve_client_ends}
use valve_infra.Witnesses.{Job, console, timeouts, deployment, job, executor, request}

abbrev reading : ℕ → List Call → Reading
reading now calls = record {
  now = now;
  calls = calls;
  dies = false;
  stops = false;
  cancels = false;
}

-- A boot in which the machine asks for a reboot.
abbrev boot : Boot
boot = record {
  before = reading 1 (set_state_to 0 active ∷ []);
  cut = ok tt;
  power_up = ok tt;
  booted_at = 2;
  readings = reading 3 [] ∷ reading 4 (ready 4 (from_salad (82 ∷ 10 ∷ [])) ∷ []) ∷ [];
  cut_again = ok tt;
  behind = reading 5 [];
}

abbrev here : Mapping
here q = q

abbrev first : Run
first = record {
  console = console;
  timeouts = timeouts;
  is_alive = true;
  stop_event = false;
  cancel_job = false;
  deployment = deployment;
  boot_config = none;
  power = [];
}

abbrev second : Run
second = (boot_loop here deployment (boot ∷ []) first).1

loops : boot_loop here deployment (boot ∷ []) first ≡ (ok looping, second)
unfolding boot_loop boot_once finish_boot retry_boot Timeout.retry Timeout.init handle relay_machine
    init start reset_boot Timeout.has_expired reported_state needs_reboot reset_per_boot_state
    console_state_init any_expired Timeout.start values insert session_has_ended watch_all
loops = refl

boots_bounded_example : 1 + left_of second.timeouts ≤ left_of timeouts + 1
boots_bounded_example =
    boots_bounded here deployment (boot ∷ []) first second
      ((refl, (omega arith, (omega arith, tt))), tt) loops

power_cycles_example :
    (n : ℕ) × (second.power ≡ [] ++ cycles n)
    × (n + left_of second.timeouts
        ≤ left_of timeouts + 1 + taken_back here deployment (boot ∷ []) first)
power_cycles_example = power_cycles here deployment (boot ∷ []) first second looping loops refl

abbrev load : Task → Result Job
load t = ok job

job_lost_example :
    let waited = (pick true load (ok tt) >> wait >> start_job request) executor in
    let ended = (session_end 60 (ok tt) 9 waited.1).1 in
    let r = (pick true load (ok tt) >> wait >> begin (ok tt) (ok tt)) ended in
    (waited.0 ≡ ok tt) × (r.0 ≡ err attribute_error) × (r.1.job_config ≡ none)
job_lost_example =
    job_lost load (ok tt) (ok tt) (ok tt) 60 9 request job executor refl refl refl refl refl refl

abbrev down : Option String → Result (Unit {0})
down url = ok tt

abbrev cache : Cache
cache = record { mapping = λ q. none; saved = [] }

abbrev k : String
k = "https://example.org/kernel"

abbrev i : String
i = "https://example.org/initramfs"

abbrev minio : String
minio = "http://10.42.0.1:9000"

abbrev tearing : Run
tearing = record first {
  timeouts = record timeouts { infra_teardown = Timeout.start 5 timeouts.infra_teardown };
}

serve_client_ends_example : (serve_client (reading 10 [] ∷ reading 200 [] ∷ []) tearing).0 ≡ true
unfolding Timeout.start Timeout.init
serve_client_ends_example =
    serve_client_ends (reading 10 [] ∷ reading 200 [] ∷ []) 5 tearing refl refl

abbrev ending : Ending
ending = record { run = first; ready_for_service = true }

abbrev sergent : Sergent
sergent = sergent_init 2 1

qualifies_example :
    (s' : Sergent) × (rounds ((fail ∷ []) ++ pass ∷ pass ∷ fail ∷ []) (sergent, none)
      ≡ ok (s', some (leb sergent.qualifying_rate (passes (pass ∷ fail ∷ [])))))
    × (s'.is_active ≡ false)
    × (s'.cur_loop ≡ sergent.boot_loop_counts)
unfolding sergent_init
qualifies_example =
    qualifies (fail ∷ []) (pass ∷ fail ∷ []) sergent none refl (refl, tt) (omega arith) refl

-- A job comes in while the executor waits, and raises.
abbrev turn : Turn
turn = record {
  has_port = true;
  available = false;
  load = load;
  salad = ok tt;
  power = ok tt;
  connects = ok tt;
  arrivals = request ∷ [];
  execute = λ e. (err attribute_error, e);
  retrial_delay = 60;
  serviced = ok tt;
  now = 9;
}
