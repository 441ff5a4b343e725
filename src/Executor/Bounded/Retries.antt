-- ===== src/Executor/Bounded/Retries.antt =====
-- executor.py: what the end of a boot takes from the retries of the job's timeouts.
use valve_infra.Base.{
  ap, ℕ, ◌+◌, ◌≤◌, ◌≡◌, refl, Bool, true, false, ◌&&◌, ◌||◌, not, List, [], ◌∷◌, arith,
  if◌then◌else◌,
}
use valve_infra.Base.Dict.{Dict, values}
use valve_infra.Job.Timeout
use valve_infra.Job.Timeout.{Timeout}
use valve_infra.Job.Timeouts.{Timeouts, expired, expired_list, to_list, nonempty, has_expired}
use valve_infra.Job.Timeouts.Spend.{left, left_in, left_of}
use valve_infra.Executor.Boots.{
  retry_expired, retry_watchdogs, retry_all, retry_boot, start_timeouts, stop_all, stop_boot,
}

-- One retry is due where something happened that did not abort the job.
abbrev pub due : Bool → Bool → ℕ
due happened aborts = if happened && not aborts then 1 else 0

due-or : (e f a b : Bool) → due (e || f) (a || b) ≤ due e a + due f b
due-or e f a b = ground arith

due-retry_expired :
    (now : ℕ) (t : Timeout)
    → let (t', abort) = retry_expired now t in
      left t' + due (Timeout.has_expired now t) abort ≤ left t
unfolding retry_expired Timeout.retry Timeout.stop
due-retry_expired now t = ground arith

due-retry_watchdogs :
    (now : ℕ) (d : Dict Timeout)
    → let (d', abort) = retry_watchdogs now d in
      left_in d' + due (nonempty (expired now (values d))) abort ≤ left_in d
unfolding retry_watchdogs expired values
due-retry_watchdogs now [] = omega arith
due-retry_watchdogs now ((name, wd) ∷ rest) =
    ground (arith, due-retry_expired now wd, due-retry_watchdogs now rest)

pub nonempty-expired :
    (now : ℕ) (t : Timeout) (ts : List Timeout)
    → nonempty (expired now (t ∷ ts)) ≡ Timeout.has_expired now t || nonempty (expired now ts)
unfolding expired
nonempty-expired now t ts = ground arith

-- The first of several, and the others together.
due_more :
    (e f a b : Bool) (x x' y y' : ℕ)
    → x' + due e a ≤ x
    → y' + due f b ≤ y
    → (x' + y') + due (e || f) (a || b) ≤ x + y
due_more e f a b x x' y y' h k = omega (arith, due-or e f a b, h, k)

due-retry_all :
    (now : ℕ) (t : Timeouts)
    → let (t', abort) = retry_all now t in left_of t' + due (has_expired now t) abort ≤ left_of t
unfolding retry_all has_expired expired_list to_list
due-retry_all now t =
    let d = due-retry_expired now in
    let w = due-retry_watchdogs now t.watchdogs in
    let f = due_more _ _ _ _ _ _ _ _ (d t.first_console_activity) w in
    let c = due_more _ _ _ _ _ _ _ _ (d t.console_activity) f in
    let b = due_more _ _ _ _ _ _ _ _ (d t.boot_cycle) c in
    let i = due_more _ _ _ _ _ _ _ _ (d t.infra_teardown) b in
    let s = due_more _ _ _ _ _ _ _ _ (d t.infra_setup) i in
    let o = due_more _ _ _ _ _ _ _ _ (d t.overall) s in
    rw
      (
        nonempty-expired now t.overall _,
        nonempty-expired now t.infra_setup _,
        nonempty-expired now t.infra_teardown _,
        nonempty-expired now t.boot_cycle _,
        nonempty-expired now t.console_activity _,
        nonempty-expired now t.first_console_activity _,
      )
      (omega (arith, o))

due-retry_boot :
    (need expired abort : Bool) (t : Timeouts) (before : ℕ)
    → left_of t + due expired abort ≤ before
    → let (t', abort') = retry_boot need (t, abort) in
      left_of t' + due (need || expired) abort' ≤ before
unfolding retry_boot Timeout.retry Timeout.stop
due-retry_boot false expired abort t before h = h
due-retry_boot true expired abort t before h = ground (arith, h)

-- At the end of a boot, if a timeout expired or the machine asked for a reboot, either the job is
-- aborted or a retry is gone.
pub due_at_end :
    (need : Bool) (now : ℕ) (t : Timeouts)
    → let (t', abort) = retry_boot need (retry_all now t) in
      left_of t' + due (need || has_expired now t) abort ≤ left_of t
due_at_end need now t =
    let (t', abort) = retry_all now t in
    due-retry_boot need (has_expired now t) abort t' (left_of t) (due-retry_all now t)

left_in-stop_all : (d : Dict Timeout) → left_in (stop_all d) ≡ left_in d
unfolding stop_all Timeout.stop
left_in-stop_all [] = refl
left_in-stop_all ((name, wd) ∷ rest) = ap (λ n. left wd + n) (left_in-stop_all rest)

pub left_of-start_timeouts : (now : ℕ) (t : Timeouts) → left_of (start_timeouts now t) ≡ left_of t
unfolding start_timeouts Timeout.start Timeout.stop
left_of-start_timeouts now t = omega (arith, left_in-stop_all t.watchdogs)

pub left_of-stop_boot : (t : Timeouts) → left_of (stop_boot t) ≡ left_of t
unfolding stop_boot Timeout.stop
left_of-stop_boot t = refl
