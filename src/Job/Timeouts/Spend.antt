-- ===== src/Job/Timeouts/Spend.antt =====
-- job.py: the retries that the timeouts of a job have left, which nothing but `retry` changes.
use valve_infra.Base.{
  ◌∙◌, ap, ℕ, ◌+◌, ◌-◌, String, ◌≡◌, refl, Option, none, some, [], ◌∷◌, arith, inl, inr,
  Option-cases,
}
use valve_infra.Base.Dict.{Dict, lookup, insert}
use valve_infra.Message.Framing.{Bytes}
use valve_infra.Job.Timeout
use valve_infra.Job.Timeout.{Timeout}
use valve_infra.Job.Timeouts.{Timeouts}
use valve_infra.Job.Patterns.{Watchdog, watch, watch_all, put}

abbrev pub left : Timeout → ℕ
left t = t.retries - t.retried

abbrev pub left_in : Dict Timeout → ℕ
left_in [] = 0
left_in ((k, t) ∷ d) = left t + left_in d

abbrev pub left_of : Timeouts → ℕ
left_of t =
    left t.overall
    + left t.infra_setup
    + left t.infra_teardown
    + left t.boot_cycle
    + left t.console_activity
    + left t.first_console_activity
    + left_in t.watchdogs

left_in-insert :
    (k : String) (t u : Timeout) (d : Dict Timeout)
    → lookup k d ≡ some u
    → left t ≡ left u
    → left_in (insert k t d) ≡ left_in d
unfolding lookup insert
left_in-insert k t u [] h e = absurd (ground (arith, h))
left_in-insert k t u ((l, v) ∷ d) h e = ground (arith, e, left_in-insert k t u d)

abbrev left_or_none : Option Timeout → Option ℕ
left_or_none none = none
left_or_none (some t) = some (left t)

left-watch :
    (now : ℕ) (line : Bytes) (wd : Watchdog) (t : Timeout)
    → left_or_none (watch now line wd (some t)).0 ≡ some (left t)
unfolding watch Timeout.reset Timeout.stop Timeout.start Timeout.is_started
left-watch now line wd t = ground arith

left_in-put :
    (k : String) (o : Option Timeout) (u : Timeout) (d : Dict Timeout)
    → lookup k d ≡ some u
    → left_or_none o ≡ some (left u)
    → left_in (put k o d) ≡ left_in d
left_in-put k none u d h e = refl
left_in-put k (some t) u d h e = left_in-insert k t u d h (ground (arith, e))

unwatched : (now : ℕ) (line : Bytes) (wd : Watchdog) → (watch now line wd none).0 ≡ none
unfolding watch
unwatched now line wd = refl

watched-left_in :
    (now : ℕ) (line : Bytes) (name : String) (wd : Watchdog) (d : Dict Timeout)
    → left_in (put name (watch now line wd (lookup name d)).0 d) ≡ left_in d
watched-left_in now line name wd d = elim (Option-cases (lookup name d)) [
  | inl e ↦ rw (e, unwatched now line wd) refl
  | inr (t, e) ↦
      left_in-put name (watch now line wd (lookup name d)).0 t d e
        (ap (λ o. left_or_none (watch now line wd o).0) e ∙ left-watch now line wd t)
]

-- The watchdogs that a line starts, resets and stops keep the retries that they have left.
pub left_in-watch_all :
    (now : ℕ) (line : Bytes) (wds : Dict Watchdog) (d : Dict Timeout)
    → left_in (watch_all now line wds d).0 ≡ left_in d
unfolding watch_all
left_in-watch_all now line [] d = refl
left_in-watch_all now line ((name, wd) ∷ wds) d =
    left_in-watch_all now line wds (put name (watch now line wd (lookup name d)).0 d)
    ∙ watched-left_in now line name wd d
