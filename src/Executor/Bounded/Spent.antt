-- ===== src/Executor/Bounded/Spent.antt =====
-- executor.py: what a boot of the machine costs in retries.
use valve_infra.Base.{
  ◌∙◌, ap, ℕ, ◌+◌, ◌≤◌, ◌≡◌, refl, Bool, true, false, ◌&&◌, ◌||◌, not, Option, none, some, List, [],
  ◌∷◌, ◌++◌, arith, ltb, if◌then◌else◌, Bool-cases, inl, inr,
}
use valve_infra.Base.Result.{answered, Result, ok, err}
use valve_infra.Base.Action.{Action, pure, continue}
use valve_infra.Job.Timeout
use valve_infra.Job.Timeouts.{Timeouts}
use valve_infra.Job.Timeouts.Spend.{left_of}
use valve_infra.Job.Deployment.{Deployment}
use valve_infra.Console.{JobConsole, state_value, dut_done, reported_state, set_state, enter}
use valve_infra.Console.States.{to_dut_done}
use valve_infra.Console.Calls.{calls-Progress}
use valve_infra.Pdu.{off}
use valve_infra.Executor.Cache.{Mapping}
use valve_infra.Executor.Waiting.{
  Run, Reading, observe, before_done, keeps_booting, keeps_waiting, update_activity, wait_for_end,
}
use valve_infra.Executor.Boots.{
  set_up_boot, after_wait, Boot, set_power, set_boot_config, retry_all, retry_boot, decide,
  finish_boot, await, boot_once,
}
use valve_infra.Executor.Bounded.Retries.{
  due, due_at_end, left_of-start_timeouts, left_of-stop_boot,
}

-- No more boots: the job is done or was told to stop.
abbrev pub is_ended : Run → Bool
is_ended r = not (before_done r) || (r.stop_event || r.cancel_job)

before_done_forward :
    (c c' : JobConsole) (alive dead : Bool)
    → state_value c.state ≤ state_value c'.state
    → ltb (state_value (reported_state alive c)) 2 ≡ false
    → ltb (state_value (reported_state (alive && not dead) c')) 2 ≡ false
unfolding reported_state
before_done_forward c c' alive dead le h = ground (arith, le, h)

pub observe-is_ended : (p : Reading) (r : Run) → is_ended r ≡ true → is_ended (observe p r) ≡ true
unfolding observe
observe-is_ended p r h =
    let w =
      calls-Progress p.calls
        (record { job_console = r.console; watchdogs = r.timeouts.watchdogs }) in
    let f =
      before_done_forward r.console (observe p r).console r.is_alive p.dies w.console.forward in
    elim (Bool-cases (before_done r)) [
      | inl live ↦ ground (arith, h, live)
      | inr done ↦ ground (arith, f done)
    ]

pub observe-left_of : (p : Reading) (r : Run) → left_of (observe p r).timeouts ≡ left_of r.timeouts
unfolding observe
observe-left_of p r =
    let w =
      calls-Progress p.calls
        (record { job_console = r.console; watchdogs = r.timeouts.watchdogs }) in
    omega (arith, w.budget)

pub keeps_booting-is_ended : (now : ℕ) (r : Run) → is_ended r ≡ true → keeps_booting now r ≡ false
unfolding keeps_booting
keeps_booting-is_ended now r h = ground (arith, h)

update_activity-left_of :
    (now : ℕ) (r : Run) → left_of (update_activity now r).timeouts ≡ left_of r.timeouts
unfolding update_activity Timeout.stop Timeout.reset
update_activity-left_of now r = ground arith

pub wait_for_end-left_of :
    (ps : List Reading) (r : Run) → left_of (wait_for_end ps r).1.timeouts ≡ left_of r.timeouts
unfolding wait_for_end
wait_for_end-left_of [] r = refl
wait_for_end-left_of (p ∷ ps) r =
    let seen = observe p r in
    let same = observe-left_of p r in
    elim (Bool-cases (keeps_waiting p.now seen)) [
      | inl goes ↦ rw goes (
          wait_for_end-left_of ps (update_activity p.now seen)
          ∙ update_activity-left_of p.now seen
          ∙ same)
      | inr ends ↦ rw ends same
    ]

done_after : (now : ℕ) (c : JobConsole) → 2 ≤ state_value (set_state now dut_done c).1.state
unfolding set_state enter
done_after now c = ground (arith, (to_dut_done c).0)

-- What a boot that is over must have cost: a retry, unless there are no more boots.
abbrev pub cost : Run → ℕ
cost r = if is_ended r then 0 else 1

decide-Spent :
    (now : ℕ) (cont : Deployment) (t : Timeouts) (abort : Bool) (r : Run) (before : ℕ)
    → left_of t + due (not (is_ended r)) abort ≤ before
    → let r' = (decide now cont (t, abort) r).1 in left_of r'.timeouts + cost r' ≤ before
unfolding decide reported_state
decide-Spent now cont t true r before h = ground (arith, done_after now r.console, h)
decide-Spent now cont t false r before h = ground (arith, left_of-stop_boot t, h)

-- What ended a boot can be taken back before the expired timeouts are listed: the watchdog that
-- expired is stopped, say. The run is the one in which the inner loop ended.
abbrev pub back : Boot → Run → ℕ
back b r = if keeps_waiting b.behind.now (observe b.behind r) then 1 else 0

abbrev pub one_back : Mapping → Boot → Run → ℕ
one_back mapping b r = back b (wait_for_end b.readings (set_up_boot mapping b r).1).1

-- In how many of the boots that was so.
unfoldable pub taken_back : Mapping → Deployment → List Boot → Run → ℕ
taken_back mapping cont [] r = 0
taken_back mapping cont (b ∷ bs) r =
    let seen = observe b.before r in
    let rest = taken_back mapping cont bs (boot_once mapping cont b seen).1 in
    if keeps_booting b.before.now seen then one_back mapping b seen + rest else 0

paid :
    (now : ℕ) (r : Run)
    → let (t, abort) = retry_boot r.console.needs_reboot (retry_all now r.timeouts) in
      left_of t + due (not (is_ended r)) abort
      ≤ left_of r.timeouts + (if keeps_waiting now r then 1 else 0)
unfolding keeps_waiting
paid now r = ground (arith, due_at_end r.console.needs_reboot now r.timeouts)

finish-Spent :
    (b : Boot) (cont : Deployment) (r : Run)
    → b.cut_again ≡ ok tt
    → let r' = (finish_boot b cont r).1 in
      left_of r'.timeouts + cost r' ≤ left_of r.timeouts + back b r
unfolding finish_boot set_power keeps_waiting
finish-Spent b cont r e =
    let r1 : Run = record r { power = r.power ++ off ∷ [] } in
    let r2 = observe b.behind r1 in
    let (t, abort) = retry_boot r2.console.needs_reboot (retry_all b.behind.now r2.timeouts) in
    let same = observe-left_of b.behind r1 in
    let due_now = paid b.behind.now r2 in
    rw (e) (
      decide-Spent b.behind.now cont t abort r2 (left_of r.timeouts + back b r)
        (rw same at due_now))

pub finish-cut :
    (b : Boot) (cont : Deployment) (r : Run)
    → (finish_boot b cont r).0 ≡ ok tt
    → b.cut_again ≡ ok tt
unfolding finish_boot set_power
finish-cut b cont r h = elim (answered b.cut_again) [
  | inl fine ↦ fine
  | inr (x, raised) ↦ absurd (ground (arith, rw raised at h))
]

-- A call that returns after another: both returned.
pub returned :
    {A B : Type 0} (m : Result A × Run) (n : A → Action Run B) (b : B) (r' : Run)
    → continue m.0 n m.1 ≡ (ok b, r')
    → (a : A) × (m.0 ≡ ok a) × (n a m.1 ≡ (ok b, r'))
returned (ok a, r1) n b r' h = (a, refl, h)
returned (err e, r1) n b r' h = absurd (ground (arith, h))

after_wait-Spent :
    (b : Boot) (cont : Deployment) (o : Option ℕ) (r r' : Run)
    → after_wait b cont o r ≡ (ok true, r')
    → left_of r'.timeouts + cost r' ≤ left_of r.timeouts + back b r
unfolding after_wait
after_wait-Spent b cont none r r' h = absurd (ground (arith, h))
after_wait-Spent b cont (some now) r r' h =
    let m = finish_boot b cont in
    let (u, answer, rest) = returned (m r) (λ _. pure true) true r' h in
    let same : (m r).1 ≡ r' = ap (λ x. x.1) rest in
    rw (← same) (finish-Spent b cont r (finish-cut b cont r answer))

set_up_boot-left_of :
    (mapping : Mapping) (b : Boot) (r : Run)
    → left_of (set_up_boot mapping b r).1.timeouts ≡ left_of r.timeouts
unfolding set_up_boot set_power set_boot_config
set_up_boot-left_of mapping b r = ground (arith, left_of-start_timeouts b.booted_at r.timeouts)

-- A boot that is over: where its inner loop ended.
pub awaited :
    (mapping : Mapping) (cont : Deployment) (b : Boot) (r r' : Run)
    → boot_once mapping cont b r ≡ (ok true, r')
    → let (o, r1) = wait_for_end b.readings (set_up_boot mapping b r).1 in
      after_wait b cont o r1 ≡ (ok true, r')
unfolding boot_once await
awaited mapping cont b r r' h =
    let (u, answer, rest) = returned (set_up_boot mapping b r) (λ _. await b cont) true r' h in rest

pub boot_once-Spent :
    (mapping : Mapping) (cont : Deployment) (b : Boot) (r r' : Run)
    → boot_once mapping cont b r ≡ (ok true, r')
    → left_of r'.timeouts + cost r' ≤ left_of r.timeouts + one_back mapping b r
boot_once-Spent mapping cont b r r' h =
    let started = (set_up_boot mapping b r).1 in
    let (o, r1) = wait_for_end b.readings started in
    let spent = after_wait-Spent b cont o r1 r' (awaited mapping cont b r r' h) in
    let same = wait_for_end-left_of b.readings started in
    omega (arith, spent, same, set_up_boot-left_of mapping b r)
