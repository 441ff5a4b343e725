-- ===== src/Api.antt =====
-- executor/server/src/valve_gfx_ci/executor/server/app.py: the HTTP API of the executor, from
-- requests that Flask has decoded to the codes of the answers; their texts are left out. A
-- `ValueError` is answered with code 400 (`handle_valueError_exception`), any other exception with
-- 500, which is Flask's.
pub mod Choice
pub mod Chosen
pub mod Discovery
pub mod Registration
pub mod Requests
pub mod Permitted
use text.Mathlib.Text.{◌==◌}
use valve_infra.Base.{
  ℕ, String, Bool, true, false, ◌&&◌, ◌||◌, not, Option, none, some, List, [], ◌∷◌, if◌then◌else◌,
}
use valve_infra.Base.Dict.{Dict, lookup, insert}
use valve_infra.Base.Result.{Result, ok, err, Exception, value_error}
use valve_infra.Base.Action.{Action, pure, raise, ◌>>=◌, ◌>>◌}
use valve_infra.Executor.{MachineState, is_idle, is_running}
use valve_infra.Executor.Session.{Executor}

-- What the API reads and writes of a `Machine` of MaRS.
pub record Machine : Type 0 where
  pub tags : List String
  pub is_retired : Bool
  pub executor : Executor

-- `mars.known_machines`, by their identifiers.
abbrev pub Machines : Type 0
Machines = Dict Machine

abbrev pub Call : Type 0 → Type 0
Call = Action Machines

-- `handle_valueError_exception`, and the code that an exception is answered with.
abbrev pub code_of : Result ℕ → ℕ
code_of (ok code) = code
code_of (err value_error) = 400
code_of (err e) = 500

abbrev pub found : Option Machine → Result Machine
found none = err value_error
found (some m) = ok m

-- `get_machine_by_id` with `raise_if_missing`.
unfoldable pub get_machine_by_id : String → Call Machine
get_machine_by_id id ms = (found (lookup id ms), ms)

-- The action that a request asks for.
pub data Wish : Type 0 where
  retire activate : Wish

abbrev pub wants : Wish → Bool
wants retire = true
wants activate = false

-- `m.update_fields({"is_retired": ...})`, as far as the machine goes: `updates` is what the
-- driver of its PDU and the files answer.
abbrev pub set_retired : String → Machine → Bool → Result (Unit {0}) → Call (Unit {0})
set_retired id m b updates ms = (updates, insert id (record m { is_retired = b }) ms)

abbrev pub same : Bool → Bool → Bool
same true b = b
same false b = not b

-- `retire_activate_machine`
unfoldable pub retire_activate_machine : String → Wish → Result (Unit {0}) → Call ℕ
unfolding get_machine_by_id
retire_activate_machine id action updates = do
  m ← get_machine_by_id id
  if same (wants action) m.is_retired
      then raise value_error
      else set_retired id m (wants action) updates
  pure 200

-- `cancel_job_machine`
unfoldable pub cancel_job_machine : String → Call ℕ
unfolding get_machine_by_id
cancel_job_machine id = do
  m ← get_machine_by_id id
  if is_running m.executor.state
      then (λ ms.
          (ok 200, insert id (record m { executor = record m.executor { cancel_job = true } }) ms))
      else raise value_error
