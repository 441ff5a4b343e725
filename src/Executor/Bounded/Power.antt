-- ===== src/Executor/Bounded/Power.antt =====
-- executor.py: what the boot loop asks of the PDU.
use valve_infra.Base.{
  append-nil, append_assoc, ◌∙◌, sym, ap, ℕ, zero, suc, ◌+◌, ◌≤◌, ◌≡◌, refl, Bool, true, false,
  Option, none, some, List, [], ◌∷◌, ◌++◌, arith, Bool-cases, inl, inr,
}
use valve_infra.Base.Result.{answered, ok}
use valve_infra.Base.Action.{pure}
use valve_infra.Job.Timeouts.{Timeouts}
use valve_infra.Job.Timeouts.Spend.{left_of}
use valve_infra.Job.Deployment.{Deployment}
use valve_infra.Pdu.{PduState, off, on}
use valve_infra.Executor.Cache.{Mapping}
use valve_infra.Executor.Waiting.{
  Run, Reading, observe, keeps_booting, update_activity, wait_for_end,
}
use valve_infra.Executor.Boots.{
  is_between, LoopState, set_up_boot, after_wait, Boot, set_power, set_boot_config, retry_all,
  retry_boot, decide, finish_boot, await, boot_once, boot_loop,
}
use valve_infra.Executor.Bounded.Spent.{
  taken_back, cost, returned, finish-cut, boot_once-Spent, observe-left_of,
}
use valve_infra.Executor.Bounded.{went_on, no_more, leaves, not_ended}

-- What `n` boots send to the PDU.
abbrev pub cycles : ℕ → List PduState
cycles zero = []
cycles (suc n) = off ∷ on ∷ off ∷ cycles n

wait-power : (ps : List Reading) (r : Run) → (wait_for_end ps r).1.power ≡ r.power
unfolding wait_for_end observe update_activity
wait-power [] r = refl
wait-power (p ∷ ps) r = ground (arith, wait-power ps (update_activity p.now (observe p r)))

decide-power :
    (now : ℕ) (cont : Deployment) (t : Timeouts) (abort : Bool) (r : Run)
    → (decide now cont (t, abort) r).1.power ≡ r.power
unfolding decide
decide-power now cont t true r = refl
decide-power now cont t false r = refl

finish-power :
    (b : Boot) (cont : Deployment) (r : Run)
    → b.cut_again ≡ ok tt
    → (finish_boot b cont r).1.power ≡ r.power ++ off ∷ []
unfolding finish_boot set_power observe
finish-power b cont r e =
    let r1 : Run = record r { power = r.power ++ off ∷ [] } in
    let r2 = observe b.behind r1 in
    let (t, abort) = retry_boot r2.console.needs_reboot (retry_all b.behind.now r2.timeouts) in
    rw (e) (decide-power b.behind.now cont t abort r2)

set_up-power :
    (mapping : Mapping) (b : Boot) (r : Run)
    → (set_up_boot mapping b r).0 ≡ ok tt
    → (set_up_boot mapping b r).1.power ≡ r.power ++ off ∷ on ∷ []
unfolding set_up_boot set_power set_boot_config
set_up-power mapping b r h = elim (answered b.cut) [
  | inl cut ↦ elim (answered b.power_up) [
    | inl up ↦ rw (cut, up) (append_assoc r.power (off ∷ []) (on ∷ []))
    | inr (e, raised) ↦ absurd (ground (arith, cut, raised, h))
  ]
  | inr (e, raised) ↦ absurd (ground (arith, raised, h))
]

waited-power :
    (b : Boot) (cont : Deployment) (o : Option ℕ) (r r' : Run)
    → after_wait b cont o r ≡ (ok true, r')
    → r'.power ≡ r.power ++ off ∷ []
unfolding after_wait
waited-power b cont none r r' h = absurd (ground (arith, h))
waited-power b cont (some now) r r' h =
    let m = finish_boot b cont in
    let (u, answer, rest) = returned (m r) (λ _. pure true) true r' h in
    let same : (m r).1 ≡ r' = ap (λ x. x.1) rest in
    rw (← same) (finish-power b cont r (finish-cut b cont r answer))

boot_once-power :
    (mapping : Mapping) (cont : Deployment) (b : Boot) (r r' : Run)
    → boot_once mapping cont b r ≡ (ok true, r')
    → r'.power ≡ r.power ++ off ∷ on ∷ off ∷ []
unfolding boot_once await
boot_once-power mapping cont b r r' h =
    let (u, answer, rest) = returned (set_up_boot mapping b r) (λ _. await b cont) true r' h in
    let started = (set_up_boot mapping b r).1 in
    let (o, r1) = wait_for_end b.readings started in
    waited-power b cont o r1 r' rest
    ∙ ap (λ l. l ++ off ∷ []) (wait-power b.readings started ∙ set_up-power mapping b r answer)
    ∙ append_assoc r.power (off ∷ on ∷ []) (off ∷ [])

cycled :
    (mapping : Mapping) (cont : Deployment) (bs : List Boot) (r r' : Run) (p : LoopState)
    → boot_loop mapping cont bs r ≡ (ok p, r')
    → is_between p ≡ true
    → (n : ℕ) × (r'.power ≡ r.power ++ cycles n)
      × (n + left_of r'.timeouts ≤ left_of r.timeouts + cost r + taken_back mapping cont bs r)
unfolding observe taken_back
cycled mapping cont [] r r' p h between =
    let same : r ≡ r' = ap (λ x. x.1) (rw (no_more mapping cont r) at h) in
    (0, rw (← same) (sym (append-nil r.power)), rw (← same) (omega arith))
cycled mapping cont (b ∷ bs) r r' p h between =
    let seen = observe b.before r in
    elim (Bool-cases (keeps_booting b.before.now seen)) [
      | inl again ↦
          let (r2, once, rest) = went_on mapping cont b bs r r' p h between again in
          let (n, power, bound) = cycled mapping cont bs r2 r' p rest between in
          let spent = boot_once-Spent mapping cont b seen r2 once in
          let same = observe-left_of b.before r in
          let one : cost r ≡ 1 = rw (not_ended b.before r again) refl in
          (
            suc n,
            power
                ∙ ap (λ l. l ++ cycles n) (boot_once-power mapping cont b seen r2 once)
                ∙ append_assoc seen.power (off ∷ on ∷ off ∷ []) (cycles n),
            rw (again, once) (omega (arith, bound, spent, same, one)),
          )
      | inr stops ↦
          let same : seen ≡ r' = ap (λ x. x.1) (rw (leaves mapping cont b bs r stops) at h) in
          (
            0,
            rw (← same) (sym (append-nil r.power)),
            rw (stops, ← same) (omega (arith, observe-left_of b.before r)),
          )
    ]

-- Whenever the loop stands between two boots, or is over, the PDU was told OFF, ON, OFF for each
-- boot and nothing else, so the machine was last switched off, and there were no more boots than
-- retries taken, and one, and those whose end was taken back: in which the console's thread, before
-- the expired timeouts were listed, stopped or restarted what had ended the inner loop.
pub power_cycles :
    (mapping : Mapping) (cont : Deployment) (bs : List Boot) (r r' : Run) (p : LoopState)
    → boot_loop mapping cont bs r ≡ (ok p, r')
    → is_between p ≡ true
    → (n : ℕ) × (r'.power ≡ r.power ++ cycles n)
      × (n + left_of r'.timeouts ≤ left_of r.timeouts + 1 + taken_back mapping cont bs r)
power_cycles mapping cont bs r r' p h between =
    let (n, power, bound) = cycled mapping cont bs r r' p h between in
    (n, power, ground (arith, bound))
