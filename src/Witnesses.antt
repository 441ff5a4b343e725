-- ===== src/Witnesses.antt =====
-- A small job, a console and an executor, on which the modules below run the theorems.
mod OfMessage
mod OfJob
mod OfPdu
mod OfConsole
mod OfExecutor
mod OfFarm
mod OfSalad
mod OfBoots
mod OfBuckets
mod OfApi
mod OfClient
mod OfTraces
use valve_infra.Base.{ℕ, String, Bool, true, false, Option, none, some, List, [], ◌∷◌, ◌==◌, any}
use valve_infra.Base.Dict.{Dict}
use valve_infra.Message.{info}
use valve_infra.Message.Framing.{Bytes}
use valve_infra.Job.Timeout
use valve_infra.Job.Timeout.{Timeout}
use valve_infra.Job.Timeouts.{Timeouts}
use valve_infra.Job.Patterns.{Pattern, Watchdog, ConsoleState, init}
use valve_infra.Job.Deployment.{Deployment}
use valve_infra.Job.Schema.{Job}
use valve_infra.Executor.{wait_for_config}
use valve_infra.Executor.Session.{Executor, Request}
use valve_infra.Sergent.{init as sergent_init}
use valve_infra.Base.Result.{ok}
use valve_infra.Console.{JobConsole, start, init as console_init}
use valve_infra.Console.Lines.{Watched}

-- The pattern of one letter.
abbrev pub letter : ℕ → Pattern
letter n = record { source = "a letter"; search = λ l. any (λ b. b == n) l }

-- E ends the session, R asks for a reboot, S is the success and W the warning.
abbrev pub patterns : ConsoleState
patterns = init (letter 69) (some (letter 82)) (some (letter 83)) (some (letter 87)) none none

-- A says that the watchdog starts, B that it is reset, C that it stops.
abbrev pub dog : Watchdog
dog = record { start_pattern = letter 65; reset_pattern = letter 66; stop_pattern = letter 67 }

abbrev pub timeouts : Timeouts
timeouts = record {
  overall = Timeout.init "overall" 1000 0;
  infra_setup = Timeout.init "infra_setup" 100 0;
  infra_teardown = Timeout.init "infra_teardown" 100 0;
  boot_cycle = Timeout.init "boot_cycle" 100 1;
  console_activity = Timeout.init "console_activity" 100 0;
  first_console_activity = Timeout.init "first_console_activity" 100 0;
  watchdogs = [];
}

abbrev pub deployment : Deployment
deployment = record {
  kernel_url = some "https://example.org/kernel";
  initramfs_url = some "https://example.org/initramfs";
  kernel_cmdline = some "quiet";
}

abbrev pub job : Job
job = record {
  version = 1;
  deadline = none;
  target = record { id = none; tags = [] };
  timeouts = timeouts;
  console_patterns = patterns;
  deployment_start = deployment;
  deployment_continue = deployment;
}

-- A console with a connected client of version 1.
abbrev pub console : JobConsole
console = (start (ok tt) (console_init (some 1) patterns info)).1

abbrev pub watched : Watched
watched = record { job_console = console; watchdogs = [] }

abbrev pub executor : Executor
executor = record {
  state = wait_for_config;
  sergent = sergent_init 10 8;
  ready_for_service = true;
  job_ready = false;
  cancel_job = false;
  job_config = none;
  job_console = none;
  job_bucket = false;
}

abbrev pub request : Request
request = record {
  version = some 1;
  bucket = ok tt;
  credentials = ok tt;
  rendered = ok job;
  salad = ok tt;
}
