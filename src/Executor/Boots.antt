-- ===== src/Executor/Boots.antt =====
-- executor.py: the loop of `execute_job` that boots the machine until the job is done.
--
-- The input is a script of boots: for each, the readings and what the PDU answered. The reading
-- `behind` is when the expired timeouts are listed, behind the inner loop: up to then the thread of
-- the console goes on. What the executor logs is left out.
use valve_infra.Base.{
  ℕ, Bool, true, false, ◌||◌, not, Option, none, some, List, [], ◌∷◌, ◌++◌, if◌then◌else◌,
}
use valve_infra.Base.Result.{Result, ok}
use valve_infra.Base.Action.{Action, pure, ◌>>=◌, ◌>>◌}
use valve_infra.Base.Dict.{Dict}
use valve_infra.Job.Timeout
use valve_infra.Job.Timeout.{Timeout}
use valve_infra.Job.Timeouts.{Timeouts}
use valve_infra.Job.Deployment.{Deployment}
use valve_infra.Pdu.{PduState, off, on}
use valve_infra.Console.{dut_done, reset_boot, set_state}
use valve_infra.Executor.Cache.{Mapping}
use valve_infra.Executor.Waiting.{keeps_booting, observe, wait_for_end, Run, Reading}

pub record Boot : Type 0 where
  pub before : Reading
  pub cut : Result (Unit {0})
  pub power_up : Result (Unit {0})
  pub booted_at : ℕ
  pub readings : List Reading
  pub cut_again : Result (Unit {0})
  pub behind : Reading

-- `self.machine.pdu_port.set(state)`, which answers as given.
unfoldable pub set_power : PduState → Result (Unit {0}) → Action Run (Unit {0})
set_power state answer r = (answer, record r { power = r.power ++ state ∷ [] })

unfoldable pub set_boot_config : Mapping → Action Run (Unit {0})
set_boot_config mapping r = (
  ok tt,
  record r {
    boot_config = some (record {
      kernel = mapping r.deployment.kernel_url;
      initrd = mapping r.deployment.initramfs_url;
      cmdline = r.deployment.kernel_cmdline;
    });
  },
)

unfoldable pub stop_all : Dict Timeout → Dict Timeout
stop_all [] = []
stop_all ((name, wd) ∷ rest) = (name, Timeout.stop wd) ∷ stop_all rest

-- "Start the boot, and enable the timeouts!"
unfoldable pub start_timeouts : ℕ → Timeouts → Timeouts
unfolding stop_all
start_timeouts now t = record t {
  boot_cycle = Timeout.start now t.boot_cycle;
  first_console_activity = Timeout.start now t.first_console_activity;
  console_activity = Timeout.stop t.console_activity;
  watchdogs = stop_all t.watchdogs;
}

-- `retry`, if the timeout has expired, and whether that aborts the job.
unfoldable pub retry_expired : ℕ → Timeout → Timeout × Bool
retry_expired now t =
    let (t', again) = Timeout.retry t in
    if Timeout.has_expired now t then (t', not again) else (t, false)

unfoldable pub retry_watchdogs : ℕ → Dict Timeout → Dict Timeout × Bool
unfolding retry_expired
retry_watchdogs now [] = ([], false)
retry_watchdogs now ((name, wd) ∷ rest) =
    let (wd', abort) = retry_expired now wd in
    let (rest', abort') = retry_watchdogs now rest in ((name, wd') ∷ rest', abort || abort')

-- `for timeout in timeouts.expired_list`
unfoldable pub retry_all : ℕ → Timeouts → Timeouts × Bool
unfolding retry_expired retry_watchdogs
retry_all now t =
    let (o, a1) = retry_expired now t.overall in
    let (s, a2) = retry_expired now t.infra_setup in
    let (d, a3) = retry_expired now t.infra_teardown in
    let (b, a4) = retry_expired now t.boot_cycle in
    let (c, a5) = retry_expired now t.console_activity in
    let (f, a6) = retry_expired now t.first_console_activity in
    let (w, a7) = retry_watchdogs now t.watchdogs in
    (
      record {
        overall = o;
        infra_setup = s;
        infra_teardown = d;
        boot_cycle = b;
        console_activity = c;
        first_console_activity = f;
        watchdogs = w;
      },
      a1 || (a2 || (a3 || (a4 || (a5 || (a6 || a7))))),
    )

-- "Check if the DUT asked us to reboot"
unfoldable pub retry_boot : Bool → Timeouts × Bool → Timeouts × Bool
retry_boot false (t, abort) = (t, abort)
retry_boot true (t, abort) =
    let (b, again) = Timeout.retry t.boot_cycle in (record t { boot_cycle = b }, abort || not again)

unfoldable pub stop_boot : Timeouts → Timeouts
stop_boot t = record t {
  first_console_activity = Timeout.stop t.first_console_activity;
  console_activity = Timeout.stop t.console_activity;
  boot_cycle = Timeout.stop t.boot_cycle;
}

-- The end of a boot: the job is aborted, or goes on with the `continue` deployment.
unfoldable pub decide : ℕ → Deployment → Timeouts × Bool → Action Run (Unit {0})
unfolding set_state stop_boot
decide now deployment_continue (t, true) r =
    let (answer, c) = set_state now dut_done r.console in
    (answer, record r { console = c; timeouts = t })
decide now deployment_continue (t, false) r =
    (ok tt, record r { timeouts = stop_boot t; deployment = deployment_continue })

unfoldable pub finish_boot : Boot → Deployment → Action Run (Unit {0})
unfolding set_power observe retry_all retry_boot decide
finish_boot b deployment_continue = do
  set_power off b.cut_again
  λ r. (ok tt, observe b.behind r)
  λ r.
      decide b.behind.now deployment_continue
        (retry_boot r.console.needs_reboot (retry_all b.behind.now r.timeouts)) r

-- Whether a boot is over, or still being waited for at the end of its readings.
unfoldable pub after_wait : Boot → Deployment → Option ℕ → Action Run Bool
unfolding finish_boot
after_wait b deployment_continue none = pure false
after_wait b deployment_continue (some now) = finish_boot b deployment_continue >> pure true

unfoldable pub await : Boot → Deployment → Action Run Bool
unfolding wait_for_end after_wait
await b deployment_continue r =
    let (ended, r') = wait_for_end b.readings r in after_wait b deployment_continue ended r'

-- The body of the outer loop, up to the inner one.
unfoldable pub set_up_boot : Mapping → Boot → Action Run (Unit {0})
unfolding set_power set_boot_config start_timeouts
set_up_boot mapping b = do
  λ r. (ok tt, record r { console = reset_boot r.console })
  set_power off b.cut
  set_boot_config mapping
  set_power on b.power_up
  λ r. (ok tt, record r { timeouts = start_timeouts b.booted_at r.timeouts })

unfoldable pub boot_once : Mapping → Deployment → Boot → Action Run Bool
unfolding set_up_boot await
boot_once mapping deployment_continue b = do set_up_boot mapping b; await b deployment_continue

-- Where the script leaves the loop: it is over, or in the middle of a boot, or about to read its
-- condition again.
pub data LoopState : Type 0 where
  over booting looping : LoopState

abbrev pub next_boot : Bool → Action Run LoopState → Action Run LoopState
next_boot true rest = rest
next_boot false rest = pure booting

unfoldable pub boot_loop : Mapping → Deployment → List Boot → Action Run LoopState
unfolding observe keeps_booting boot_once
boot_loop mapping deployment_continue [] r = (ok looping, r)
boot_loop mapping deployment_continue (b ∷ bs) r =
    let seen = observe b.before r in
    let rest = boot_loop mapping deployment_continue bs in
    if keeps_booting b.before.now seen
    then (boot_once mapping deployment_continue b >>= λ done. next_boot done rest) seen
    else (ok over, seen)

-- Whether it is left between two boots.
abbrev pub is_between : LoopState → Bool
is_between booting = false
is_between p = true
