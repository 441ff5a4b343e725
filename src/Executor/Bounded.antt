-- ===== src/Executor/Bounded.antt =====
-- executor.py: how many times a job can boot its machine.
pub mod Retries
pub mod Spent
pub mod Undisturbed
pub mod Power
use valve_infra.Base.{
  All, ◌⊎◌, Option-cases, get_or, ◌∙◌, sym, ap, ℕ, zero, suc, ◌+◌, ◌-◌, ◌≤◌, ◌<◌, ◌≡◌, refl, Bool,
  true, false, ◌&&◌, ◌||◌, not, Option, none, some, List, [], ◌∷◌, ◌++◌, arith, leb, ltb, length,
  if◌then◌else◌, Bool-cases, inl, inr,
}
use valve_infra.Base.Result.{answered, Result, ok, err}
use valve_infra.Base.Action.{Action, pure, raise, continue, ◌>>=◌, ◌>>◌}
use valve_infra.Job.Timeout
use valve_infra.Job.Timeouts.{Timeouts, has_expired}
use valve_infra.Job.Timeouts.Spend.{left_of}
use valve_infra.Job.Deployment.{Deployment}
use valve_infra.Console.{
  JobConsole, state_value, dut_done, reported_state, set_state, enter, reset_boot,
}
use valve_infra.Console.States.{Advance, to_dut_done}
use valve_infra.Console.History.{Progress}
use valve_infra.Console.Calls.{calls, calls-Progress}
use valve_infra.Pdu.{off, on}
use valve_infra.Executor.Cache.{Mapping}
use valve_infra.Executor.Waiting.{
  Run, Reading, observe, before_done, keeps_booting, keeps_waiting, update_activity, wait_for_end,
}
use valve_infra.Executor.Boots.{
  next_boot, is_between, LoopState, set_up_boot, after_wait, Boot, set_power, set_boot_config,
  start_timeouts, stop_boot, retry_all, retry_boot, decide, finish_boot, await, boot_once,
  boot_loop, over, booting, looping,
}
use valve_infra.Executor.Bounded.Undisturbed.{IsUndisturbed, one_back-IsUndisturbed}
use valve_infra.Executor.Bounded.Retries.{
  due, due_at_end, left_of-start_timeouts, left_of-stop_boot,
}
use valve_infra.Executor.Bounded.Spent.{
  taken_back, is_ended, observe-is_ended, observe-left_of, keeps_booting-is_ended, cost, returned,
  boot_once-Spent,
}

-- The loop has read its condition, and a boot is over.
went_on :
    (mapping : Mapping) (cont : Deployment) (b : Boot) (bs : List Boot) (r r' : Run) (p : LoopState)
    → boot_loop mapping cont (b ∷ bs) r ≡ (ok p, r')
    → is_between p ≡ true
    → keeps_booting b.before.now (observe b.before r) ≡ true
    → (r2 : Run) × (boot_once mapping cont b (observe b.before r) ≡ (ok true, r2))
      × (boot_loop mapping cont bs r2 ≡ (ok p, r'))
unfolding boot_loop
went_on mapping cont b bs r r' p h between again =
    let seen = observe b.before r in
    let once = boot_once mapping cont b seen in
    let rest = boot_loop mapping cont bs in
    let (done, e, more) = returned once (λ done. next_boot done rest) p r' (rw again at h) in
    by_answer done e more
  where
    by_answer :
        (done : Bool)
        → (boot_once mapping cont b (observe b.before r)).0 ≡ ok done
        → next_boot done
            (boot_loop mapping cont bs)
            (boot_once mapping cont b (observe b.before r)).1
          ≡ (ok p, r')
        → (r2 : Run) × (boot_once mapping cont b (observe b.before r) ≡ (ok true, r2))
          × (boot_loop mapping cont bs r2 ≡ (ok p, r'))
    by_answer true e more =
        let once = boot_once mapping cont b (observe b.before r) in
        (once.1, ap (λ a. (a, once.1)) e, more)
    by_answer false e more = absurd (ground (arith, more, between))

no_more :
    (mapping : Mapping) (cont : Deployment) (r : Run)
    → boot_loop mapping cont [] r ≡ (ok looping, r)
unfolding boot_loop
no_more mapping cont r = refl

leaves :
    (mapping : Mapping) (cont : Deployment) (b : Boot) (bs : List Boot) (r : Run)
    → keeps_booting b.before.now (observe b.before r) ≡ false
    → boot_loop mapping cont (b ∷ bs) r ≡ (ok over, observe b.before r)
unfolding boot_loop
leaves mapping cont b bs r h = rw h

-- A run that reads its condition and goes on has not ended.
not_ended : (p : Reading) (r : Run) → keeps_booting p.now (observe p r) ≡ true → is_ended r ≡ false
not_ended p r h = elim (Bool-cases (is_ended r)) [
  | inl e ↦
      absurd
        (ground (arith, h, keeps_booting-is_ended p.now (observe p r) (observe-is_ended p r e)))
  | inr e ↦ e
]

taken_back-IsUndisturbed :
    (mapping : Mapping) (cont : Deployment) (bs : List Boot) (r r' : Run)
    → All IsUndisturbed bs
    → boot_loop mapping cont bs r ≡ (ok looping, r')
    → taken_back mapping cont bs r ≡ 0
unfolding taken_back
taken_back-IsUndisturbed mapping cont [] r r' quiet h = refl
taken_back-IsUndisturbed mapping cont (b ∷ bs) r r' (q, qs) h =
    let seen = observe b.before r in
    elim (Bool-cases (keeps_booting b.before.now seen)) [
      | inl again ↦
          let (r2, once, rest) = went_on mapping cont b bs r r' looping h refl again in
          let ih = taken_back-IsUndisturbed mapping cont bs r2 r' qs rest in
          let here = one_back-IsUndisturbed mapping cont b seen r2 q once in
          rw (again, once, ih, here) refl
      | inr stops ↦ rw stops refl
    ]

looping_cost :
    (mapping : Mapping) (cont : Deployment) (bs : List Boot) (r r' : Run)
    → boot_loop mapping cont bs r ≡ (ok looping, r')
    → length bs + left_of r'.timeouts ≤ left_of r.timeouts + cost r + taken_back mapping cont bs r
unfolding taken_back
looping_cost mapping cont [] r r' h =
    let same : r ≡ r' = ap (λ x. x.1) (rw (no_more mapping cont r) at h) in
    rw (← same) (omega arith)
looping_cost mapping cont (b ∷ bs) r r' h =
    let seen = observe b.before r in
    elim (Bool-cases (keeps_booting b.before.now seen)) [
      | inl again ↦
          let (r2, once, rest) = went_on mapping cont b bs r r' looping h refl again in
          let ih = looping_cost mapping cont bs r2 r' rest in
          let spent = boot_once-Spent mapping cont b seen r2 once in
          let same = observe-left_of b.before r in
          let one : cost r ≡ 1 = rw (not_ended b.before r again) refl in
          rw (again, once) (omega (arith, ih, spent, same, one))
      | inr stops ↦ absurd (ground (arith, rw (leaves mapping cont b bs r stops) at h))
    ]

-- However the boots go, the loop does not come back to its condition more often than there are
-- retries left in the job's timeouts, and once more: by then it is over. That is if, in each boot,
-- nothing is done to the console between the end of the inner loop and the listing of the expired
-- timeouts, and the clock does not go back.
pub boots_bounded :
    (mapping : Mapping) (cont : Deployment) (bs : List Boot) (r r' : Run)
    → All IsUndisturbed bs
    → boot_loop mapping cont bs r ≡ (ok looping, r')
    → length bs + left_of r'.timeouts ≤ left_of r.timeouts + 1
boots_bounded mapping cont bs r r' quiet h =
    let none_back = taken_back-IsUndisturbed mapping cont bs r r' quiet h in
    ground (arith, looping_cost mapping cont bs r r' h, none_back)
