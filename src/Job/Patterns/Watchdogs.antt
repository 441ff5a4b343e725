-- ===== src/Job/Patterns/Watchdogs.antt =====
-- job.py: the watchdogs of a console and the timeouts that they share with the job.
use text.Mathlib.TextEquality.{eq_iff}
use text.Mathlib.Text.{◌==◌}
use valve_infra.Base.{
  inr, inl, Bool-cases, ℕ, String, ◌≡◌, refl, ◌∙◌, false, Option, none, some, [], ◌∷◌, arith,
  or_else, if◌then◌else◌,
}
use valve_infra.Base.Dict.{Dict, IsDict, lookup, has, lookup-insert, lookup-has}
use valve_infra.Message.Framing.{Bytes}
use valve_infra.Job.Timeout.{Timeout}
use valve_infra.Job.Patterns.{Watchdog, watch, watch_all, put}

lookup-put :
    (k j : String) (t : Option Timeout) (d : Dict Timeout)
    → lookup j (put k t d) ≡ (if k == j then or_else t (lookup j d) else lookup j d)
lookup-put k j none d = ground arith
lookup-put k j (some t) d = ground (arith, lookup-insert k j t d)

-- What a line does to the timeout of one name.
abbrev pub watched : ℕ → Bytes → Option Watchdog → Option Timeout → Option Timeout
watched now l none t = t
watched now l (some wd) t = (watch now l wd t).0

or_else-watch :
    (now : ℕ) (l : Bytes) (wd : Watchdog) (t : Option Timeout)
    → or_else (watch now l wd t).0 t ≡ (watch now l wd t).0
unfolding watch
or_else-watch now l wd none = refl
or_else-watch now l wd (some t) = ground arith

-- The watchdog at the head of the dictionary, and the others behind it.
watched_head :
    (now : ℕ) (l : Bytes) (k n : String) (wd : Watchdog) (wds : Dict Watchdog) (ts : Dict Timeout)
    → has k wds ≡ false
    → watched now l
        (lookup n wds)
        (if k == n then or_else (watch now l wd (lookup k ts)).0 (lookup n ts) else lookup n ts)
      ≡ watched now l (if k == n then some wd else lookup n wds) (lookup n ts)
watched_head now l k n wd wds ts h = elim (Bool-cases (k == n)) [
  | inl same ↦
      let e : k ≡ n = (eq_iff k n).0 same in
      rw (same, e, lookup-has n wds (rw e at h)) (or_else-watch now l wd (lookup n ts))
  | inr other ↦ rw other
]

-- A line gives each timeout to the watchdog of its own name and leaves the others alone.
pub lookup-watch_all :
    (now : ℕ) (l : Bytes) (wds : Dict Watchdog) (ts : Dict Timeout) (n : String)
    → IsDict wds
    → lookup n (watch_all now l wds ts).0 ≡ watched now l (lookup n wds) (lookup n ts)
unfolding watch_all lookup
lookup-watch_all now l [] ts n h = refl
lookup-watch_all now l ((k, wd) ∷ wds) ts n h =
    let t = (watch now l wd (lookup k ts)).0 in
    lookup-watch_all now l wds (put k t ts) n h.1
    ∙ rw (lookup-put k n t ts) (watched_head now l k n wd wds ts h.0)
