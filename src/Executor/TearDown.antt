-- ===== src/Executor/TearDown.antt =====
-- executor.py: the end of `execute_job`, in which the client fetches the job bucket.
--
-- As in the boot loop, the readings of the loop's condition are the input, and what is logged is
-- left out.
use valve_infra.Base.{
  ℕ, ◌+◌, ◌≡◌, refl, Bool, true, false, ◌&&◌, not, some, List, [], ◌∷◌, arith, ltb, ◌==◌, any,
  is_some, if◌then◌else◌, Bool-cases, inl, inr,
}
use valve_infra.Base.Result.{answered, Result, ok, err}
use valve_infra.Base.Action.{Action, continue, ◌>>◌}
use valve_infra.Job.Timeout
use valve_infra.Console.{JobConsole, state_value, tear_down, reported_state, set_state}
use valve_infra.Executor.Session.{assigned}
use valve_infra.Executor.Waiting.{Run, Reading, observe}

pub record Ending : Type 0 where
  pub run : Run
  pub ready_for_service : Bool

-- `self.job_console.machine_unfit_for_service`: the pattern of that name, if the job has one.
unfoldable pub machine_unfit_for_service : JobConsole → Bool
machine_unfit_for_service c = is_some c.console_patterns.machine_unfit_for_service

-- The condition of the loop that waits for the client.
unfoldable keeps_serving : ℕ → Run → Bool
keeps_serving now r =
    ltb (state_value (reported_state r.is_alive r.console)) 4
    && not r.cancel_job
    && not r.stop_event
    && not (Timeout.has_expired now r.timeouts.infra_teardown)

-- Whether the loop ended within these readings.
unfoldable pub serve_client : List Reading → Run → Bool × Run
unfolding observe keeps_serving
serve_client [] r = (false, r)
serve_client (p ∷ ps) r =
    let seen = observe p r in
    let rest = serve_client ps seen in if keeps_serving p.now seen then rest else (true, seen)

unfoldable start_teardown : ℕ → Ending → Ending
start_teardown now e = record e {
  run = record e.run {
    timeouts = record e.run.timeouts {
      infra_teardown = Timeout.start now e.run.timeouts.infra_teardown;
    };
  };
}

-- "Mark the machine as unfit for service": a value that is new is stored first, and then has the
-- machine configured again, which answers `serviced`.
unfoldable mark_unfit : Result (Unit {0}) → Action Ending (Unit {0})
unfolding machine_unfit_for_service
mark_unfit serviced e =
    if machine_unfit_for_service e.run.console
    then (
      assigned serviced (some false) e.ready_for_service,
      record e { ready_for_service = false },
    )
    else (ok tt, e)

-- `set_state(TEAR_DOWN)`, then the wait, and the end of the timeout if the wait ends.
unfoldable share_bucket : ℕ → List Reading → Action Ending Bool
unfolding set_state serve_client
share_bucket now readings e =
    let (answer, c) = set_state now tear_down e.run.console in
    let (ended, r) = serve_client readings (record e.run { console = c }) in
    let t = r.timeouts in
    let stopped = record r {
      timeouts = record t { infra_teardown = Timeout.stop t.infra_teardown };
    } in
    continue answer (λ _. λ e. (ok ended, record e { run = if ended then stopped else r }))
      (record e { run = record e.run { console = c } })

-- What follows the boot loop, and whether it ended within these readings.
unfoldable pub finish_job : Result (Unit {0}) → ℕ → List Reading → Action Ending Bool
unfolding mark_unfit start_teardown share_bucket
finish_job serviced now readings e =
    if (state_value (reported_state e.run.is_alive e.run.console) == 2) && not e.run.cancel_job
    then (do mark_unfit serviced; λ e. (ok tt, start_teardown now e); share_bucket now readings) e
    else (ok true, e)

observe-teardown :
    (p : Reading) (r : Run) → (observe p r).timeouts.infra_teardown ≡ r.timeouts.infra_teardown
unfolding observe
observe-teardown p r = refl

expired_stops :
    (now started : ℕ) (r : Run)
    → r.timeouts.infra_teardown.started_at ≡ some started
    → ltb (started + r.timeouts.infra_teardown.timeout) now ≡ true
    → keeps_serving now r ≡ false
unfolding keeps_serving Timeout.has_expired Timeout.active_for
expired_stops now started r h late = ground (arith, h, late)

-- The wait for the client ends, whatever the client does, at the latest at the first reading that
-- is more than the tear down timeout after its start.
pub serve_client_ends :
    (ps : List Reading) (started : ℕ) (r : Run)
    → r.timeouts.infra_teardown.started_at ≡ some started
    → any (λ p. ltb (started + r.timeouts.infra_teardown.timeout) p.now) ps ≡ true
    → (serve_client ps r).0 ≡ true
unfolding serve_client observe
serve_client_ends [] started r h late = absurd (ground (arith, late))
serve_client_ends (p ∷ ps) started r h late =
    let seen = observe p r in
    let timeout = r.timeouts.infra_teardown.timeout in
    elim (Bool-cases (ltb (started + timeout) p.now)) [
      | inl now ↦ rw (expired_stops p.now started seen h now) refl
      | inr early ↦
          let rest = serve_client_ends ps started seen h (rw early at late) in
          elim (Bool-cases (keeps_serving p.now seen)) [
            | inl goes ↦ rw (goes) rest
            | inr stops ↦ rw (stops) refl
          ]
    ]

share_bucket-service :
    (now : ℕ) (readings : List Reading) (e : Ending)
    → (share_bucket now readings e).1.ready_for_service ≡ e.ready_for_service
unfolding share_bucket
share_bucket-service now readings e = elim (answered (set_state now tear_down e.run.console).0) [
  | inl a ↦ rw (a) refl
  | inr (x, a) ↦ rw (a) refl
]

marked :
    (serviced : Result (Unit {0})) (e : Ending)
    → (mark_unfit serviced e).1.ready_for_service
      ≡ e.ready_for_service
        && not (is_some e.run.console.console_patterns.machine_unfit_for_service)
unfolding mark_unfit machine_unfit_for_service
marked serviced e = ground arith

torn_down-service :
    (r : Result (Unit {0})) (now : ℕ) (readings : List Reading) (e : Ending)
    → let rest = (λ e. (ok tt, start_teardown now e)) >> share_bucket now readings in
      (continue r (λ _. rest) e).1.ready_for_service ≡ e.ready_for_service
unfolding start_teardown
torn_down-service (ok _) now readings e = share_bucket-service now readings (start_teardown now e)
torn_down-service (err x) now readings e = refl

-- A job that configures a pattern for machines that are unfit for service takes its machine out
-- of service, whether or not the pattern was matched; one that configures none leaves it as it is.
pub finish_job-service :
    (serviced : Result (Unit {0})) (now : ℕ) (readings : List Reading) (e : Ending)
    → let torn =
        (state_value (reported_state e.run.is_alive e.run.console) == 2) && not e.run.cancel_job in
      (finish_job serviced now readings e).1.ready_for_service
      ≡ e.ready_for_service
        && not (torn && is_some e.run.console.console_patterns.machine_unfit_for_service)
unfolding finish_job
finish_job-service serviced now readings e =
    let (r, e') = mark_unfit serviced e in
    ground (arith, marked serviced e, torn_down-service r now readings e')
