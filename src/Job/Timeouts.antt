-- ===== src/Job/Timeouts.antt =====
-- job.py: `class Timeouts`, the six timeouts of every job and one for each watchdog.
pub mod Budget
pub mod Spend
use valve_infra.Base.{
  ℕ, zero, suc, ◌+◌, ◌-◌, ◌*◌, String, Bool, true, false, ◌&&◌, ◌||◌, not, Option, none, some, List,
  [], ◌∷◌, ◌++◌, arith, ltb, ◌==◌, any, get_or, if◌then◌else◌,
}
use valve_infra.Base.Result.{Result, ok, err, value_error, ◌>>=◌, ◌>>◌, guard}
use valve_infra.Base.Dict.{Dict, lookup, insert, values}
use valve_infra.Job.Timeout
use valve_infra.Job.Timeout.{Timeout}

-- `Timeouts.Type`; the value of each is the name of a timeout.
pub data TimeoutType : Type 0 where
  overall infra_setup infra_teardown boot_cycle console first_console_msg : TimeoutType

unfoldable pub type_value : TimeoutType → String
type_value overall = "overall"
type_value infra_setup = "infra_setup"
type_value infra_teardown = "infra_teardown"
type_value boot_cycle = "boot_cycle"
type_value console = "console_activity"
type_value first_console_msg = "first_console_activity"

pub record Timeouts : Type 0 where
  pub overall : Timeout
  pub infra_setup : Timeout
  pub infra_teardown : Timeout
  pub boot_cycle : Timeout
  pub console_activity : Timeout
  pub first_console_activity : Timeout
  pub watchdogs : Dict Timeout

-- `timedelta.max`, in microseconds: a millionth of a second short of 10^9 days.
abbrev pub timedelta_max : ℕ
timedelta_max = 86_399_999_999_999_999_999

-- What `__init__` finds for one type, or makes in its place.
unfoldable pub given : Dict Timeout → TimeoutType → Timeout
unfolding type_value
given timeouts t =
    get_or (lookup (type_value t) timeouts) (Timeout.init (type_value t) timedelta_max 0)

-- Neither the overall nor the teardown timeout can have retries.
unfoldable sane : Timeout → Result (Unit {0})
sane t = guard (t.retries == 0) value_error

-- `Timeouts.__init__`
unfoldable pub init : Dict Timeout → Option (Dict Timeout) → Result Timeouts
unfolding sane
init timeouts watchdogs = do
  sane (given timeouts overall)
  sane (given timeouts infra_teardown)
  ok (record {
    overall = given timeouts overall;
    infra_setup = given timeouts infra_setup;
    infra_teardown = given timeouts infra_teardown;
    boot_cycle = given timeouts boot_cycle;
    console_activity = given timeouts console;
    first_console_activity = given timeouts first_console_msg;
    watchdogs = get_or watchdogs [];
  })

-- `for t_type, t_data in data.items(): timeouts[t_type] = t_data`
unfoldable pub override : Dict Timeout → Dict Timeout → Dict Timeout
override timeouts [] = timeouts
override timeouts ((k, t) ∷ given_by_job) = override (insert k t timeouts) given_by_job

-- `watchdogs[name].name = name`
unfoldable pub name_watchdogs : Dict Timeout → Dict Timeout
name_watchdogs [] = []
name_watchdogs ((k, t) ∷ rest) = (k, record t { name = k }) ∷ name_watchdogs rest

abbrev pub named : Option (Dict Timeout) → Option (Dict Timeout)
named none = none
named (some wds) = some (name_watchdogs wds)

-- `Schema.make`: the job's timeouts over the defaults. The entry that `data` has for the watchdogs
-- is under a name that `__init__` does not look up, and stands beside the others here.
unfoldable pub make : Dict Timeout → Dict Timeout → Option (Dict Timeout) → Result Timeouts
unfolding override name_watchdogs init
make default_timeouts given_by_job watchdogs =
    init (override default_timeouts given_by_job) (named watchdogs)

-- `__iter__`
unfoldable pub to_list : Timeouts → List Timeout
to_list t =
    t.overall
    ∷ t.infra_setup
    ∷ t.infra_teardown
    ∷ t.boot_cycle
    ∷ t.console_activity
    ∷ t.first_console_activity
    ∷ values t.watchdogs

unfoldable pub expired : ℕ → List Timeout → List Timeout
expired now [] = []
expired now (t ∷ ts) =
    let rest = expired now ts in if Timeout.has_expired now t then t ∷ rest else rest

unfoldable pub expired_list : ℕ → Timeouts → List Timeout
unfolding expired to_list
expired_list now t = expired now (to_list t)

abbrev pub nonempty : List Timeout → Bool
nonempty [] = false
nonempty (t ∷ ts) = true

unfoldable pub has_expired : ℕ → Timeouts → Bool
unfolding expired_list
has_expired now t = nonempty (expired_list now t)
