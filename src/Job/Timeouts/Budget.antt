-- ===== src/Job/Timeouts/Budget.antt =====
-- job.py: which timeouts a job ends up with.
use text.Mathlib.TextEquality.{eq_iff}
use valve_infra.Base.{
  String, ◌≡◌, ◌≢◌, ◌⊎◌, inl, inr, refl, ◌∙◌, Option, [], ◌∷◌, arith, get_or, or_else,
}
use valve_infra.Base.Result.{ok, err, value_error}
use valve_infra.Base.Dict.{Dict, IsDict, lookup, insert, lookup-insert, lookup-has}
use valve_infra.Job.Timeout
use valve_infra.Job.Timeout.{Timeout}
use valve_infra.Job.Timeouts.{
  TimeoutType, overall, infra_setup, infra_teardown, boot_cycle, console, first_console_msg,
  type_value, Timeouts, timedelta_max, given, init, override, make, named,
}

-- `getattr(timeouts, t_type.value)`
abbrev pub field : TimeoutType → Timeouts → Timeout
field overall t = t.overall
field infra_setup t = t.infra_setup
field infra_teardown t = t.infra_teardown
field boot_cycle t = t.boot_cycle
field console t = t.console_activity
field first_console_msg t = t.first_console_activity

-- The job's own timeout, else the default one, else one that never expires.
abbrev pub chosen : Dict Timeout → Dict Timeout → TimeoutType → Timeout
chosen defaults by_job t =
    get_or (or_else (lookup (type_value t) by_job) (lookup (type_value t) defaults))
      (Timeout.init (type_value t) timedelta_max 0)

lookup-override :
    (j : String) (defaults by_job : Dict Timeout)
    → IsDict by_job
    → lookup j (override defaults by_job) ≡ or_else (lookup j by_job) (lookup j defaults)
unfolding override lookup
lookup-override j defaults [] h = refl
lookup-override j defaults ((k, t) ∷ by_job) h =
    lookup-override j (insert k t defaults) by_job h.1
    ∙ ground (arith, lookup-insert k j t defaults, eq_iff k j, lookup-has k by_job h.0)

pub chosen-override :
    (ty : TimeoutType) (defaults by_job : Dict Timeout)
    → IsDict by_job
    → given (override defaults by_job) ty ≡ chosen defaults by_job ty
unfolding given
chosen-override ty defaults by_job h = rw (lookup-override (type_value ty) defaults by_job h)

init_accepts :
    (d : Dict Timeout) (wds : Option (Dict Timeout))
    → (given d overall).retries ≡ 0
    → (given d infra_teardown).retries ≡ 0
    → (t : Timeouts) × (init d wds ≡ ok t)
      × ((ty : TimeoutType) → field ty t ≡ given d ty)
      × (t.watchdogs ≡ get_or wds [])
unfolding init
init_accepts d wds o i = (
  record {
    overall = given d overall;
    infra_setup = given d infra_setup;
    infra_teardown = given d infra_teardown;
    boot_cycle = given d boot_cycle;
    console_activity = given d console;
    first_console_activity = given d first_console_msg;
    watchdogs = get_or wds [];
  },
  rw (o, i),
  elim [
    | overall ↦ refl
    | infra_setup ↦ refl
    | infra_teardown ↦ refl
    | boot_cycle ↦ refl
    | console ↦ refl
    | first_console_msg ↦ refl
  ],
  refl,
)

-- What is known of the timeouts that `__init__` has accepted.
pub init_accepted :
    (d : Dict Timeout) (wds : Option (Dict Timeout)) {t : Timeouts}
    → init d wds ≡ ok t
    → (t.overall ≡ given d overall)
      × (t.infra_teardown ≡ given d infra_teardown)
      × (t.overall.retries ≡ 0)
      × (t.infra_teardown.retries ≡ 0)
unfolding init
init_accepted d wds h = (ground arith, ground arith, ground arith, ground arith)

module _ (defaults by_job : Dict Timeout) (wds : Option (Dict Timeout)) (h : IsDict by_job) where
  -- Where the timeouts chosen for the whole job and for the tear down have no retries, every type
  -- gets the job's own timeout, or else the default one, or else one that never expires, and the
  -- watchdogs are the job's.
  pub make_accepts :
      (chosen defaults by_job overall).retries ≡ 0
      → (chosen defaults by_job infra_teardown).retries ≡ 0
      → (t : Timeouts) × (make defaults by_job wds ≡ ok t)
        × ((ty : TimeoutType) → field ty t ≡ chosen defaults by_job ty)
        × (t.watchdogs ≡ get_or (named wds) [])
  unfolding make
  make_accepts o i =
      let (t, made, fields, wd) =
        init_accepts (override defaults by_job) (named wds)
          (rw (chosen-override overall defaults by_job h) o)
          (rw (chosen-override infra_teardown defaults by_job h) i) in
      (t, made, λ ty. fields ty ∙ chosen-override ty defaults by_job h, wd)

  -- Where one of these two has retries, the job is refused.
  pub make_refuses :
      ((chosen defaults by_job overall).retries ≢ 0)
        ⊎ ((chosen defaults by_job infra_teardown).retries ≢ 0)
      → make defaults by_job wds ≡ err value_error
  unfolding make init
  make_refuses (inl o) = ground (arith, chosen-override overall defaults by_job h)
  make_refuses (inr i) = ground (
    arith,
    chosen-override overall defaults by_job h,
    chosen-override infra_teardown defaults by_job h,
  )
