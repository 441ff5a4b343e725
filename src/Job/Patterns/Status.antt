-- ===== src/Job/Patterns/Status.antt =====
-- job.py: what the properties of `ConsoleState` say of the lines that the console has shown.
use text.Mathlib.Text.{◌==◌}
use valve_infra.Base.{
  String, ◌≡◌, refl, ◌∙◌, Bool, true, false, Option, none, some, List, [], ◌∷◌, arith, is_some,
}
use valve_infra.Base.Dict.{Dict, lookup, has}
use valve_infra.Job.Timeout.{Timeout}
use valve_infra.Job.Patterns.{
  Pattern, Watchdog, mem, ConsoleState, init, session_has_ended, needs_reboot,
  machine_is_unfit_for_service, job_status,
}
use valve_infra.Job.Patterns.Seen.{
  Event, line, boot, run, seen, seen_since_boot, has-lookup, set_up, set_up-IsDict, lookup_end,
  lookup_reboot, lookup_success, lookup_warn, lookup_unfit, lookup_other, run-patterns, mem-run,
  mem-run_reboot,
}

-- The status as the job's author describes it.
abbrev pub status_spec : Bool → Option Pattern → Bool → Bool → String
status_spec false success succeeded warned = "INCOMPLETE"
status_spec true none succeeded warned = "COMPLETE"
status_spec true (some p) false warned = "FAIL"
status_spec true (some p) true false = "PASS"
status_spec true (some p) true true = "WARN"

seen-none : (es : List Event) → seen none es ≡ false
seen-none [] = refl
seen-none (line now l ∷ es) = seen-none es
seen-none (boot ∷ es) = seen-none es

module _ (e : Pattern) (reboot success warn unfit : Option Pattern) (wds : Option (Dict Watchdog))
    (ts : Dict Timeout) (es : List Event) where
  abbrev finish : ConsoleState
  finish = (run es (init e reboot success warn unfit wds, ts)).0

  mem_finish :
      (n : String) {p : Option Pattern}
      → ("session_reboot" == n) ≡ false
      → lookup n (set_up e reboot success warn unfit) ≡ p
      → mem n finish.matched ≡ seen p es
  unfolding init
  mem_finish n other found =
      mem-run n es (init e reboot success warn unfit wds) ts other
        (set_up-IsDict e reboot success warn unfit)
      ∙ rw found

  has_success : has "job_success" finish.patterns ≡ is_some success
  unfolding init
  has_success = rw (
    run-patterns es (init e reboot success warn unfit wds) ts,
    has-lookup,
    lookup_success e reboot success warn unfit,
  )

  -- Over any lines and boots, the status of a job is INCOMPLETE until a line has matched
  -- `session_end`; then it is COMPLETE if the job has no `job_success` pattern, FAIL if no line
  -- matched that pattern, and PASS or WARN by whether some line matched `job_warn`.
  pub job_status_lem :
      job_status finish ≡ status_spec (seen (some e) es) success (seen success es) (seen warn es)
  unfolding job_status init
  job_status_lem = ground (
    arith,
    mem_finish "session_end" refl (lookup_end e reboot success warn unfit),
    mem_finish "job_success" refl (lookup_success e reboot success warn unfit),
    mem_finish "job_warn" refl (lookup_warn e reboot success warn unfit),
    has_success,
  )

  -- A session ends exactly when a line has matched `session_end`: the pattern for a machine that
  -- is unfit for service does not end it, since the name that is asked for is that of no pattern.
  pub session_has_ended_lem : session_has_ended finish ≡ seen (some e) es
  unfolding session_has_ended init
  session_has_ended_lem = ground (
    arith,
    mem_finish "session_end" refl (lookup_end e reboot success warn unfit),
    mem_finish "unfit_for_service" refl (lookup_other e reboot success warn unfit),
    seen-none es,
  )

  -- A reboot is asked for exactly when a line since the last boot matched `session_reboot`, and
  -- the machine is unfit exactly when some line of the job matched that pattern.
  pub requests_lem :
      (needs_reboot finish ≡ seen_since_boot false reboot es)
      × (machine_is_unfit_for_service finish ≡ seen unfit es)
  unfolding needs_reboot machine_is_unfit_for_service init
  requests_lem = (
    mem-run_reboot es (init e reboot success warn unfit wds) ts
          (set_up-IsDict e reboot success warn unfit)
        ∙ rw (lookup_reboot e reboot success warn unfit),
    mem_finish "machine_unfit_for_service" refl (lookup_unfit e reboot success warn unfit),
  )
