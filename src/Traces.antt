-- ===== src/Traces.antt =====
-- valvetraces/src/valve_gfx_ci/valvetraces/__init__.py: the client that runs traces of games on a
-- machine and reports what came of them. This file is the choice of the traces; the modules below are
-- the report.
pub mod Most
pub mod Frames
pub mod Compat
pub mod Report
pub mod Drivers
use text.Mathlib.Text.{◌==◌}
use valve_infra.Base.{
  ℕ, ◌+◌, String, Bool, true, false, ◌||◌, Option, none, some, List, [], ◌∷◌, leb, if◌then◌else◌,
}

-- What the choice and the report read of a `Trace`. A file size is a number of bytes.
pub record Trace : Type 0 where
  pub id : ℕ
  pub filename : String
  pub frames_to_capture : List String
  pub graphics_api : Option String
  pub file_size : ℕ

-- `x in xs`
unfoldable pub is_in : String → List String → Bool
is_in x [] = false
is_in x (y ∷ ys) = y == x || is_in x ys

abbrev pub has_api : Option (List String) → Option String → Bool
has_api none api = true
has_api (some apis) none = false
has_api (some apis) (some api) = is_in api apis

-- `list_traces`, of the traces that the service knows.
unfoldable pub list_traces : Option (List String) → List Trace → List Trace
unfolding is_in
list_traces gfx_apis [] = []
list_traces gfx_apis (t ∷ ts) =
    let rest = list_traces gfx_apis ts in if has_api gfx_apis t.graphics_api then t ∷ rest else rest

-- `sorted(traces_list, key=operator.attrgetter('size'))`
unfoldable pub sort_in : Trace → List Trace → List Trace
sort_in t [] = t ∷ []
sort_in t (u ∷ us) =
    let rest = sort_in t us in if leb t.file_size u.file_size then t ∷ u ∷ us else u ∷ rest

unfoldable pub sorted : List Trace → List Trace
unfolding sort_in
sorted [] = []
sorted (t ∷ ts) = sort_in t (sorted ts)

-- The loop of `traces_under_gb`.
unfoldable pub fit : ℕ → ℕ → List Trace → List Trace
fit max_bytes taken_bytes [] = []
fit max_bytes taken_bytes (t ∷ ts) =
    let rest = fit max_bytes (taken_bytes + t.file_size) ts in
    if leb max_bytes (taken_bytes + t.file_size) then [] else t ∷ rest

-- `traces_under_gb`; `max_bytes` is rounded up.
unfoldable pub traces_under_gb : List Trace → ℕ → List Trace
unfolding sorted fit
traces_under_gb traces_list max_bytes = fit max_bytes 0 (sorted traces_list)
