-- ===== src/Job/Schema.antt =====
-- job.py: `Target`, and `Job.Schema.make` over the data that marshmallow has loaded and checked.
use valve_infra.Base.{
  ◌∙◌, ℕ, ◌*◌, String, ◌≡◌, refl, Option, none, some, List, [], ◌∷◌, arith, or_else, get_or,
}
use valve_infra.Base.Dict.{Dict, IsDict, lookup}
use valve_infra.Base.Result.{Result, ok, err, value_error, ◌>>=◌}
use valve_infra.Job.Timeout
use valve_infra.Job.Timeout.{Timeout}
use valve_infra.Job.Timeouts.{
  overall, infra_teardown, type_value, override, named, init as timeouts_init,
  make as timeouts_make, Timeouts,
}
use valve_infra.Job.Timeouts.Budget.{init_accepted, chosen-override, chosen}
use valve_infra.Job.Patterns.{ConsoleState}
use valve_infra.Job.Deployment.{DeploymentData, Deployment, deployment_start, deployment_continue}

pub record Target : Type 0 where
  pub id : Option String
  pub tags : List String

-- `Target.__init__`
unfoldable target_init : Option String → Option (List String) → Target
target_init id tags = record { id = id; tags = get_or tags [] }

-- `Target.Schema.make`: empty tags mean any machine, no tags at all are refused.
unfoldable target_make : Option String → Option (List String) → Result Target
unfolding target_init
target_make none none = err value_error
target_make (some id) tags = ok (target_init (some id) tags)
target_make none (some tags) = ok (target_init none (some tags))

-- The timeouts that a job asks for, as `Timeouts.Schema.make` gets them.
pub record TimeoutsData : Type 0 where
  pub by_type : Dict Timeout
  pub watchdogs : Option (Dict Timeout)

pub record JobData : Type 0 where
  pub version : Option ℕ
  pub deadline : Option ℕ
  pub target : Option Target
  pub timeouts : Option TimeoutsData
  pub console_patterns : ConsoleState
  pub start : DeploymentData
  pub cont : Option DeploymentData

pub record Job : Type 0 where
  pub version : ℕ
  pub deadline : Option ℕ
  pub target : Target
  pub timeouts : Timeouts
  pub console_patterns : ConsoleState
  pub deployment_start : Deployment
  pub deployment_continue : Deployment

abbrev pub hour : ℕ
hour = 3_600_000_000

abbrev pub minute : ℕ
minute = 60_000_000

-- The defaults of `Job.from_job`.
unfoldable pub default_timeouts : Dict Timeout
default_timeouts =
    ("overall", Timeout.init "overall" (6 * hour) 0)
    ∷ ("infra_teardown", Timeout.init "infra_teardown" (10 * minute) 0)
    ∷ []

-- Where the job has no timeouts, `Timeouts` is built from the defaults alone.
unfoldable pub load_timeouts : Option TimeoutsData → Result Timeouts
unfolding default_timeouts
load_timeouts none = timeouts_init default_timeouts none
load_timeouts (some d) = timeouts_make default_timeouts d.by_type d.watchdogs

-- `Job.Schema.make`. A deadline of `none` is `datetime.max`. The bucket in the context is handed
-- to `Job`, which does not keep it. Each watchdog shares the timeout of its name with the job.
unfoldable pub make : JobData → Result Job
make d = do
  timeouts ← load_timeouts d.timeouts
  ok (record {
    version = get_or d.version 1;
    deadline = d.deadline;
    target = get_or d.target (record { id = none; tags = [] });
    timeouts = timeouts;
    console_patterns = d.console_patterns;
    deployment_start = deployment_start d.start;
    deployment_continue = deployment_continue d.start d.cont;
  })

abbrev by_type_of : Option TimeoutsData → Dict Timeout
by_type_of none = []
by_type_of (some d) = d.by_type

load_accepted :
    (d : Option TimeoutsData) {t : Timeouts}
    → IsDict (by_type_of d)
    → load_timeouts d ≡ ok t
    → (t.overall ≡ chosen default_timeouts (by_type_of d) overall)
      × (t.infra_teardown ≡ chosen default_timeouts (by_type_of d) infra_teardown)
      × (t.overall.retries ≡ 0)
      × (t.infra_teardown.retries ≡ 0)
unfolding load_timeouts timeouts_make
load_accepted none u h =
    let (o, i, ro, ri) = init_accepted default_timeouts none h in
    (
      o ∙ chosen-override overall default_timeouts [] tt,
      i ∙ chosen-override infra_teardown default_timeouts [] tt,
      ro,
      ri,
    )
load_accepted (some d) u h =
    let (o, i, ro, ri) =
      init_accepted (override default_timeouts d.by_type) (named d.watchdogs) h in
    (
      o ∙ chosen-override overall default_timeouts d.by_type u,
      i ∙ chosen-override infra_teardown default_timeouts d.by_type u,
      ro,
      ri,
    )

make_timeouts :
    (d : JobData) {job : Job} → make d ≡ ok job → load_timeouts d.timeouts ≡ ok job.timeouts
unfolding make
make_timeouts d h = ground arith

get_or-or_else : (o : Option Timeout) (t u : Timeout) → get_or (or_else o (some t)) u ≡ get_or o t
get_or-or_else none t u = refl
get_or-or_else (some a) t u = refl

-- Every job that is accepted is limited: its overall timeout is the one that it asks for, or else
-- six hours, its tear down the one that it asks for, or else ten minutes, and neither can be
-- retried.
pub job_limits :
    (d : JobData) {job : Job}
    → IsDict (by_type_of d.timeouts)
    → make d ≡ ok job
    → (job.timeouts.overall
        ≡ get_or (lookup "overall" (by_type_of d.timeouts)) (Timeout.init "overall" (6 * hour) 0))
      × (job.timeouts.infra_teardown
          ≡ get_or
              (lookup "infra_teardown" (by_type_of d.timeouts))
              (Timeout.init "infra_teardown" (10 * minute) 0))
      × (job.timeouts.overall.retries ≡ 0)
      × (job.timeouts.infra_teardown.retries ≡ 0)
unfolding default_timeouts lookup type_value
job_limits d u h =
    let (o, i, ro, ri) = load_accepted d.timeouts u (make_timeouts d h) in
    (
      o ∙ get_or-or_else (lookup "overall" (by_type_of d.timeouts)) _ _,
      i ∙ get_or-or_else (lookup "infra_teardown" (by_type_of d.timeouts)) _ _,
      ro,
      ri,
    )
