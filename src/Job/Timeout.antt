-- ===== src/Job/Timeout.antt =====
-- job.py: `class Timeout`. Instants and durations are whole microseconds, as `datetime` counts
-- them; `now` is what `datetime.now()` returns in the call. Durations and retry counts of a job
-- are taken to be at least 0.
use valve_infra.Base.{
  ℕ, zero, suc, ◌+◌, ◌-◌, String, ◌≡◌, refl, Bool, true, false, Option, none, some, arith, ltb, leb,
}

pub record Timeout : Type 0 where
  pub name : String
  pub timeout : ℕ
  pub retries : ℕ
  pub started_at : Option ℕ
  pub retried : ℕ

-- `Timeout.__init__`
unfoldable pub init : String → ℕ → ℕ → Timeout
init name timeout retries = record {
  name = name;
  timeout = timeout;
  retries = retries;
  started_at = none;
  retried = 0;
}

unfoldable pub active_for : ℕ → Timeout → Option ℕ
active_for now t = elim t.started_at [ none ↦ none | some started ↦ some (now - started) ]

unfoldable pub is_started : Timeout → Bool
is_started t = elim t.started_at [ none ↦ false | some _ ↦ true ]

unfoldable pub has_expired : ℕ → Timeout → Bool
unfolding active_for
has_expired now t = elim (active_for now t) [ none ↦ false | some active ↦ ltb t.timeout active ]

unfoldable pub start : ℕ → Timeout → Timeout
start now t = record t { started_at = some now }

-- `reset(when)`; without an argument `when` is the present.
unfoldable pub reset : Option ℕ → ℕ → Timeout → Timeout
reset none now t = record t { started_at = some now }
reset (some when) now t = record t { started_at = some when }

unfoldable pub stop : Timeout → Timeout
stop t = record t { started_at = none }

unfoldable pub retry : Timeout → Timeout × Bool
unfolding stop
retry t =
    let stopped = stop t in
    (record stopped { retried = t.retried + 1 }, leb (t.retried + 1) t.retries)

-- `retry` called `n + 1` times: the last state and the last answer.
pub retry_times : ℕ → Timeout → Timeout × Bool
retry_times zero t = retry t
retry_times (suc n) t = retry_times n (retry t).0

retry_times_from :
    (n : ℕ) (t : Timeout)
    → let (t', again) = retry_times n t in
      (again ≡ leb (t.retried + suc n) t.retries)
      × (t'.retried ≡ t.retried + suc n)
      × (t'.started_at ≡ none)
unfolding retry_times retry
retry_times_from zero t = (ground arith, omega arith, refl)
retry_times_from (suc n) t =
    let (answer, count, stopped) = retry_times_from n (retry t).0 in
    (ground (arith, answer), omega (arith, count), stopped)

-- A fresh timeout grants exactly `retries` retries, and each of them stops its clock: after
-- `n + 1` calls the last answer says whether n + 1 is within the budget, and nothing expires.
pub retry_budget :
    (name : String) (timeout retries n now : ℕ)
    → let (t', again) = retry_times n (init name timeout retries) in
      (again ≡ leb (suc n) retries) × (t'.retried ≡ suc n) × (has_expired now t' ≡ false)
unfolding init has_expired
retry_budget name timeout retries n now =
    let (answer, count, stopped) = retry_times_from n (init name timeout retries) in
    (ground (arith, answer), omega (arith, count), rw (stopped, has_expired))

-- A started timeout expires at the first instant that is more than `timeout` after its start, and
-- stays expired; a stopped one does not expire.
pub has_expired-start :
    (t : Timeout) (started now : ℕ)
    → (has_expired now (start started t) ≡ ltb (started + t.timeout) now)
      × (has_expired now (stop t) ≡ false)
unfolding has_expired start stop
has_expired-start t started now = (ground arith, refl)
