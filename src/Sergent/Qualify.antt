-- ===== src/Sergent/Qualify.antt =====
-- executor.py: a machine is trained by a registration and `boot_loop_counts` boots, and is put in
-- service by the number of boots that pass.
use native.Mathlib.Nat.{zero-add}
use valve_infra.Base.{
  ◌++◌, All, ==_iff, ℕ, suc, ◌+◌, ◌<◌, ◌≡◌, refl, Bool, true, false, Option, none, some, List, [],
  ◌∷◌, arith, length, leb, or_else, if◌then◌else◌,
}
use valve_infra.Base.Result.{Result, ok, ◌>>=◌}
use valve_infra.Message.Status.{
  JobStatus, pass, warn, complete, fail, incomplete, unknown, setup_fail,
}
use valve_infra.Sergent.{bootloop, Sergent, Statuses, ◌=j◌, bump, total, reset, next_task, report}

-- A task is handed out, run, and reported with a status: the state, and the machine's readiness as
-- far as it was assigned.
round : JobStatus → Sergent × Option Bool → Result (Sergent × Option Bool)
round status (s, ready) = do
  task ← next_task s
  let done = report 0 status task.1
  ok (done.sergent, or_else done.ready ready)

pub rounds : List JobStatus → Sergent × Option Bool → Result (Sergent × Option Bool)
unfolding round
rounds [] s = ok s
rounds (status ∷ rest) s = do s' ← round status s; rounds rest s'

-- How many of the boots passed.
abbrev pub passes : List JobStatus → ℕ
passes [] = 0
passes (s ∷ ss) = if s =j pass then suc (passes ss) else passes ss

total-bump : (s : JobStatus) (f : Statuses) → total (bump s f) ≡ total f + 1
total-bump pass f = omega arith
total-bump warn f = omega arith
total-bump complete f = omega arith
total-bump fail f = omega arith
total-bump incomplete f = omega arith
total-bump unknown f = omega arith
total-bump setup_fail f = omega arith

-- Between two rounds of the boot loop.
record IsBooting (s : Sergent) : Type 0 where
  active : s.is_active ≡ true
  balanced : s.cur_loop ≡ total s.statuses
  unfinished : s.cur_loop < s.boot_loop_counts

abbrev booted : JobStatus → Sergent → Sergent
booted status s = record s { cur_loop = s.cur_loop + 1; statuses = bump status s.statuses }

next_task_booting :
    (s : Sergent)
    → IsBooting s
    → next_task s ≡ ok (bootloop, record s { cur_loop = s.cur_loop + 1 })
unfolding next_task
next_task_booting s h = rw (h.active, (==_iff s.cur_loop (total s.statuses)).1 h.balanced)

module _ (status : JobStatus) (s : Sergent) where
  report_next :
      s.cur_loop + 1 < s.boot_loop_counts
      → report 0 status (record s { cur_loop = s.cur_loop + 1 })
        ≡ record { delay = 0; sergent = booted status s; ready = none }
  unfolding report
  report_next more = ground arith

  report_last :
      s.cur_loop + 1 ≡ s.boot_loop_counts
      → report 0 status (record s { cur_loop = s.cur_loop + 1 }) ≡ record {
        delay = 0;
        sergent = record (booted status s) { is_active = false };
        ready = some (leb s.qualifying_rate (bump status s.statuses pass));
      }
  unfolding report
  report_last last = ground arith

  booted-IsBooting : IsBooting s → s.cur_loop + 1 < s.boot_loop_counts → IsBooting (booted status s)
  booted-IsBooting h more = record {
    active = h.active;
    balanced = omega (arith, h.balanced, total-bump status s.statuses);
    unfinished = more;
  }

abbrev later_passes : List JobStatus → Sergent → ℕ
later_passes ss s = s.statuses pass + passes ss

round_next :
    (status : JobStatus) (s : Sergent) (ready : Option Bool)
    → IsBooting s
    → s.cur_loop + 1 < s.boot_loop_counts
    → round status (s, ready) ≡ ok (booted status s, ready)
unfolding round
round_next status s ready h more = rw (next_task_booting s h, report_next status s more)

round_last :
    (status : JobStatus) (s : Sergent) (ready : Option Bool)
    → IsBooting s
    → s.cur_loop + 1 ≡ s.boot_loop_counts
    → round status (s, ready)
      ≡ ok (
        record (booted status s) { is_active = false },
        some (leb s.qualifying_rate (bump status s.statuses pass)),
      )
unfolding round
round_last status s ready h last = rw (next_task_booting s h, report_last status s last)

-- A registration that fails leaves the machine to be registered again.
round_failed :
    (status : JobStatus) (s : Sergent) (ready : Option Bool)
    → s.is_active ≡ false
    → (status =j pass) ≡ false
    → round status (s, ready) ≡ ok (reset s, ready)
unfolding round next_task report reset
round_failed status s ready idle failed = rw (idle, failed)

-- One that passes starts the boot loop.
abbrev registered : Sergent → Sergent
registered s = record s { is_active = true; cur_loop = 0; statuses = λ t. 0 }

round-registered :
    (s : Sergent) (ready : Option Bool)
    → s.is_active ≡ false
    → round pass (s, ready) ≡ ok (registered s, ready)
unfolding round next_task report reset
round-registered s ready idle = rw idle

registered-IsBooting : (s : Sergent) → 0 < s.boot_loop_counts → IsBooting (registered s)
unfolding reset
registered-IsBooting s pos = record { active = refl; balanced = refl; unfinished = pos }

counted_last :
    (status : JobStatus) (s : Sergent) → bump status s.statuses pass ≡ later_passes (status ∷ []) s
counted_last status s = ground arith

counted_next :
    (status : JobStatus) (ss : List JobStatus) (s : Sergent)
    → later_passes ss (booted status s) ≡ later_passes (status ∷ ss) s
counted_next status ss s = ground arith

-- The rest of the boot loop.
boot_loop :
    (ss : List JobStatus) (s : Sergent) (ready : Option Bool)
    → IsBooting s
    → s.cur_loop + length ss ≡ s.boot_loop_counts
    → (s' : Sergent) × (rounds ss (s, ready)
        ≡ ok (s', some (leb s.qualifying_rate (later_passes ss s))))
      × (s'.is_active ≡ false)
      × (s'.cur_loop ≡ s.boot_loop_counts)
unfolding rounds
boot_loop [] s ready h count = absurd (omega (arith, h.unfinished))
boot_loop (status ∷ []) s ready h count = (
  record (booted status s) { is_active = false },
  rw (round_last status s ready h (omega arith), counted_last status s),
  refl,
  (omega arith),
)
boot_loop (status ∷ next ∷ ss) s ready h count =
    let more : s.cur_loop + 1 < s.boot_loop_counts = omega arith in
    let (s', runs, idle, looped) =
      boot_loop (next ∷ ss) (booted status s) ready (booted-IsBooting status s h more)
        (omega arith) in
    (
      s',
      rw (round_next status s ready h more, ← counted_next status (next ∷ ss) s) runs,
      idle,
      looped,
    )

-- A machine whose registration has failed any number of times, then passed, is booted
-- `boot_loop_counts` times; training then ends, and the machine is put in service exactly if
-- `qualifying_rate` of the boots or more passed.
pub qualifies :
    (failures boots : List JobStatus) (s : Sergent) (ready : Option Bool)
    → s.is_active ≡ false
    → All (λ st. (st =j pass) ≡ false) failures
    → 0 < s.boot_loop_counts
    → length boots ≡ s.boot_loop_counts
    → (s' : Sergent) × (rounds (failures ++ pass ∷ boots) (s, ready)
        ≡ ok (s', some (leb s.qualifying_rate (passes boots))))
      × (s'.is_active ≡ false)
      × (s'.cur_loop ≡ s.boot_loop_counts)
unfolding rounds reset
qualifies [] boots s ready idle f pos count =
    let (s', runs, over, looped) =
      boot_loop boots (registered s) ready (registered-IsBooting s pos) (omega arith) in
    (s', rw (round-registered s ready idle, ← zero-add (passes boots)) runs, over, looped)
qualifies (st ∷ failures) boots s ready idle f pos count =
    let (s', runs, over, looped) =
      qualifies failures boots (reset s) ready (refl) f.1 (pos) (count) in
    (s', rw (round_failed st s ready idle f.0) runs, over, looped)
