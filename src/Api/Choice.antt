-- ===== src/Api/Choice.antt =====
-- app.py: `find_suitable_machine`, and what `post_job` does with the machine.
use text.Mathlib.Text.{◌==◌}
use valve_infra.Base.{
  ℕ, String, Bool, true, false, ◌&&◌, ◌||◌, not, Option, none, some, List, [], ◌∷◌, if◌then◌else◌,
}
use valve_infra.Base.Dict.{lookup, insert}
use valve_infra.Base.Result.{Result, ok, err}
use valve_infra.Executor.{is_idle}
use valve_infra.Executor.Session.{Request, start_job}
use valve_infra.Job.Schema.{Target}
use valve_infra.Api.{Machine, Machines, Call}

-- `tag in tags`
abbrev pub is_in : String → List String → Bool
is_in t [] = false
is_in t (u ∷ tags) = u == t || is_in t tags

-- `wanted.issubset(tags)`
unfoldable pub issubset : List String → List String → Bool
issubset [] tags = true
issubset (t ∷ wanted) tags = is_in t tags && issubset wanted tags

-- The machine that was found, and the code of the answer.
pub record Choice : Type 0 where
  pub machine : Option String
  pub code : ℕ

-- Where the target names a machine.
unfoldable pub check_machine : String → List String → Option Machine → Choice
unfolding issubset
check_machine id wanted none = record { machine = none; code = 404 }
check_machine id wanted (some m) =
    if not (issubset wanted m.tags)
    then record { machine = none; code = 406 }
    else if not (is_idle m.executor.state)
    then record { machine = none; code = 409 }
    else if m.is_retired
    then record { machine = none; code = 409 }
    else record { machine = some id; code = 200 }

-- The loop over the known machines.
unfoldable pub look : List String → Bool → Machines → Choice
unfolding issubset
look wanted found [] = record { machine = none; code = if found then 409 else 406 }
look wanted found ((id, m) ∷ ms) =
    let is_candidate = issubset wanted m.tags && not m.is_retired in
    let rest = look wanted (found || is_candidate) ms in
    if is_candidate && is_idle m.executor.state
    then record { machine = some id; code = 200 }
    else rest

abbrev pub find_by : Option String → List String → Machines → Choice
find_by (some id) wanted ms = check_machine id wanted (lookup id ms)
find_by none wanted ms = look wanted false ms

-- `find_suitable_machine`
unfoldable pub find_suitable_machine : Target → Machines → Choice
unfolding check_machine look
find_suitable_machine target ms = find_by target.id target.tags ms

abbrev pub after : Result (Unit {0}) → ℕ → Result ℕ
after (ok _) code = ok code
after (err e) code = err e

abbrev pub hand_to : String → Option Machine → ℕ → Request → Call ℕ
hand_to id none code req ms = (ok code, ms)
hand_to id (some m) code req ms =
    let (r, e) = start_job req m.executor in
    (after r code, insert id (record m { executor = e }) ms)

abbrev pub hand : Option String → ℕ → Request → Call ℕ
hand none code req ms = (ok code, ms)
hand (some id) code req ms = hand_to id (lookup id ms) code req ms

-- The end of `post_job`: `permitted` is what the check of the MinIO credentials answers.
unfoldable pub dispatch : Result Bool → Target → Request → Call ℕ
unfolding find_suitable_machine start_job
dispatch (err e) target req ms = (err e, ms)
dispatch (ok false) target req ms = (ok 403, ms)
dispatch (ok true) target req ms =
    let choice = find_suitable_machine target ms in hand choice.machine choice.code req ms
