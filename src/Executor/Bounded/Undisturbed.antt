-- ===== src/Executor/Bounded/Undisturbed.antt =====
-- executor.py: where nothing comes between the end of the inner loop and the listing of the expired
-- timeouts, what ended the boot still stands.
use valve_infra.Base.{
  ℕ, ◌≤◌, ◌≡◌, refl, true, false, Option, none, some, List, [], ◌∷◌, All, arith, ap, get_or,
  Bool-cases, inl, inr,
}
use valve_infra.Base.Result.{ok}
use valve_infra.Job.Timeout
use valve_infra.Job.Timeout.{Timeout}
use valve_infra.Job.Timeouts.{Timeouts, expired, expired_list, to_list, nonempty, has_expired}
use valve_infra.Job.Deployment.{Deployment}
use valve_infra.Console.{reported_state}
use valve_infra.Executor.Cache.{Mapping}
use valve_infra.Executor.Waiting.{
  Run, Reading, observe, keeps_waiting, update_activity, wait_for_end,
}
use valve_infra.Executor.Boots.{Boot, boot_once, set_up_boot, after_wait}
use valve_infra.Executor.Bounded.Spent.{back, one_back, awaited}

-- The console is left alone, and the clock does not go back.
abbrev pub IsUndisturbed : Boot → Type 0
IsUndisturbed b = (b.behind.calls ≡ []) × All (λ p. p.now ≤ b.behind.now) b.readings

module _ (now later : ℕ) (le : now ≤ later) where
  still_expired :
      (t : Timeout) → Timeout.has_expired now t ≡ true → Timeout.has_expired later t ≡ true
  unfolding Timeout.has_expired Timeout.active_for
  still_expired t h = ground (arith, le, h)

  still_nonempty :
      (ts : List Timeout) → nonempty (expired now ts) ≡ true → nonempty (expired later ts) ≡ true
  unfolding expired
  still_nonempty [] h = h
  still_nonempty (t ∷ ts) h = elim (Bool-cases (Timeout.has_expired now t)) [
    | inl e ↦ rw (still_expired t e) refl
    | inr e ↦ let rest = still_nonempty ts (rw e at h) in ground (arith, rest)
  ]

  still_any : (t : Timeouts) → has_expired now t ≡ true → has_expired later t ≡ true
  unfolding has_expired expired_list
  still_any t h = still_nonempty (to_list t) h

-- Where the inner loop ends, its condition is false, at the instant of one of the readings.
wait_for_end_lem :
    (ps : List Reading) (later : ℕ) (r r' : Run) (now : ℕ)
    → All (λ p. p.now ≤ later) ps
    → wait_for_end ps r ≡ (some now, r')
    → (keeps_waiting now r' ≡ false) × (now ≤ later)
unfolding wait_for_end
wait_for_end_lem [] later r r' now le h = absurd (ground (arith, ap (λ x. x.0) h))
wait_for_end_lem (p ∷ ps) later r r' now (le, les) h =
    let seen = observe p r in
    elim (Bool-cases (keeps_waiting p.now seen)) [
      | inl goes ↦ wait_for_end_lem ps later (update_activity p.now seen) r' now les (rw goes at h)
      | inr ends ↦
          let ended : (some p.now, seen) ≡ (some now, r') = rw ends at h in
          let state : seen ≡ r' = ap (λ x. x.1) ended in
          let instant : p.now ≡ now = ap (λ x. get_or x.0 0) ended in
          (rw (← instant, ← state) ends, rw (← instant) le)
    ]

stays_over :
    (p : Reading) (now : ℕ) (r : Run)
    → p.calls ≡ []
    → now ≤ p.now
    → keeps_waiting now r ≡ false
    → keeps_waiting p.now (observe p r) ≡ false
unfolding keeps_waiting observe reported_state
stays_over p now r quiet le h = rw quiet (ground (arith, h, still_any now p.now le r.timeouts))

ended :
    (cont : Deployment) (b : Boot) (o : Option ℕ) (r r1 r' : Run)
    → IsUndisturbed b
    → wait_for_end b.readings r ≡ (o, r1)
    → after_wait b cont o r1 ≡ (ok true, r')
    → back b r1 ≡ 0
unfolding after_wait
ended cont b none r r1 r' (quiet, le) at done = absurd (ground (arith, done))
ended cont b (some now) r r1 r' (quiet, le) at done =
    let (stops, before) = wait_for_end_lem b.readings b.behind.now r r1 now le at in
    rw (stays_over b.behind now r1 quiet before stops) refl

pub one_back-IsUndisturbed :
    (mapping : Mapping) (cont : Deployment) (b : Boot) (r r' : Run)
    → IsUndisturbed b
    → boot_once mapping cont b r ≡ (ok true, r')
    → one_back mapping b r ≡ 0
one_back-IsUndisturbed mapping cont b r r' quiet h =
    let started = (set_up_boot mapping b r).1 in
    let (o, r1) = wait_for_end b.readings started in
    ended cont b o started r1 r' quiet refl (awaited mapping cont b r r' h)
